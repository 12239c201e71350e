-- ===== src/Raft/Node/Votes/Grant.antt =====
-- oxidedb/raft/node.py: when `request_vote` gives its vote.
use oxide_db.Base.{
  ℕ, ◌<◌, ◌≤◌, ◌≡◌, ◌∙◌, sym, ◌⊎◌, ◌↔◌, Option, none, some, refl, true, false, ◌&&◌, ◌||◌, arith,
  ltb, ◌==◌, inl, inr, Bool-cases,
}
use oxide_db.Raft.Node.{Node, RequestVoteRequest, last_log_index, last_log_term, save_meta}
use oxide_db.Raft.Node.Election.{can_vote, log_ok, adopt_term, answer_vote, request_vote}

can_vote-cases : (v : Option ℕ) (id : ℕ) → can_vote v id ≡ true → (v ≡ none) ⊎ (v ≡ some id)
can_vote-cases none id h = inl refl
can_vote-cases (some j) id h = let same : j ≡ id = ground (arith, h) in inr (rw same refl)

can_vote-intro : (v : Option ℕ) (id : ℕ) → (v ≡ none) ⊎ (v ≡ some id) → can_vote v id ≡ true
can_vote-intro v id (inl e) = rw e refl
can_vote-intro v id (inr e) = rw e (ground arith)

module _ {S : Type 0} where
  answer_vote-granted :
      (r : RequestVoteRequest) (i t : ℕ) (n : Node S)
      → (answer_vote r i t n).1.vote_granted ≡ can_vote n.voted_for r.candidate_id && log_ok r i t
  unfolding answer_vote
  answer_vote-granted r i t n =
      elim (Bool-cases (can_vote n.voted_for r.candidate_id && log_ok r i t)) [
        | inl grant ↦ rw grant refl
        | inr refusal ↦ rw refusal refl
      ]

  vote_granted_eq :
      (r : RequestVoteRequest) (n : Node S)
      → (request_vote r n).1.vote_granted
        ≡ (ltb n.current_term r.term
            || ((n.current_term == r.term) && can_vote n.voted_for r.candidate_id))
          && log_ok r (last_log_index n) (last_log_term n)
  unfolding request_vote save_meta adopt_term
  vote_granted_eq r n = elim (Bool-cases (ltb n.current_term r.term)) [
    | inl newer ↦
        let same : ltb r.term r.term ≡ false = ground arith in
        rw (newer, same)
          (answer_vote-granted r (last_log_index n) (last_log_term n)
            (save_meta (adopt_term r.term n)))
    | inr old ↦ elim (Bool-cases (ltb r.term n.current_term)) [
      | inl stale ↦ rw (old, stale) (ground (arith, stale))
      | inr now ↦
          let same : (n.current_term == r.term) ≡ true = ground (arith, old, now) in
          rw (old, now, same) (answer_vote-granted r (last_log_index n) (last_log_term n) n)
    ]
  ]

  -- the candidate's log is at least as up to date as the node's
  abbrev pub UpToDate : RequestVoteRequest → Node S → Type 0
  UpToDate r n =
      (last_log_term n < r.last_log_term)
      ⊎ ((r.last_log_term ≡ last_log_term n) × (last_log_index n ≤ r.last_log_index))

  -- the node has given no other vote in the term of the request
  abbrev pub IsFree : RequestVoteRequest → Node S → Type 0
  IsFree r n =
      (n.current_term < r.term)
      ⊎ ((r.term ≡ n.current_term) × ((n.voted_for ≡ none) ⊎ (n.voted_for ≡ some r.candidate_id)))

  log_ok-UpToDate :
      (r : RequestVoteRequest) (n : Node S)
      → log_ok r (last_log_index n) (last_log_term n) ≡ true
      → UpToDate r n
  log_ok-UpToDate r n h = elim (Bool-cases (ltb (last_log_term n) r.last_log_term)) [
    | inl later ↦ inl (ground (arith, later))
    | inr same ↦ inr (ground (arith, h, same), ground (arith, h, same))
  ]

  UpToDate-log_ok :
      (r : RequestVoteRequest) (n : Node S)
      → UpToDate r n
      → log_ok r (last_log_index n) (last_log_term n) ≡ true
  UpToDate-log_ok r n (inl later) = ground (arith, later)
  UpToDate-log_ok r n (inr (same, reach)) = ground (arith, same, reach)

  -- A vote is given exactly where the request is of a newer term, or of the node's own term in
  -- which it has voted for nobody or for this candidate, and the candidate's log is at least as up
  -- to date as the node's: its last term is larger, or the same with no smaller last index.
  pub request_vote-granted_iff :
      (r : RequestVoteRequest) (n : Node S)
      → ((request_vote r n).1.vote_granted ≡ true) ↔ (IsFree r n × UpToDate r n)
  request_vote-granted_iff r n =
      let eq = vote_granted_eq r n in
      let ok = log_ok r (last_log_index n) (last_log_term n) in
      let free = can_vote n.voted_for r.candidate_id in
      (
        (λ h.
            let both = sym eq ∙ h in
            (
              elim (Bool-cases (ltb n.current_term r.term)) [
                | inl newer ↦ inl (ground (arith, newer))
                | inr old ↦ inr (
                  ground (arith, both, old),
                  can_vote-cases n.voted_for r.candidate_id (ground (arith, both, old)),
                )
              ],
              log_ok-UpToDate r n (ground (arith, both)),
            )),
        (λ h.
            let log = UpToDate-log_ok r n h.1 in
            eq ∙ (elim h.0 [
              | inl newer ↦ ground (arith, newer, log)
              | inr (same, v) ↦
                  let may = can_vote-intro n.voted_for r.candidate_id v in
                  ground (arith, same, may, log)
            ])),
      )
