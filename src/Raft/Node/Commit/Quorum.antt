-- ===== src/Raft/Node/Commit/Quorum.antt =====
-- oxidedb/raft/node.py: what `_update_commit_index` commits is held by a majority and of the
-- leader's own term.
use oxide_db.Base.{
  ℕ, zero, suc, ◌+◌, ◌-◌, ◌*◌, ◌≤◌, ◌<◌, ◌≡◌, refl, ◌⊎◌, inl, inr, true, Option, none, some, List,
  [], ◌∷◌, ◌++◌, map, length, arith, ltb, leb, ◌&&◌, if◌then◌else◌, if_rule, get_elem?, All,
  All-append, All-map, Bool-cases,
}
use oxide_db.Raft.Disk.{LogEntry}
use oxide_db.Raft.Node.{Node, StateMachine, entry_at, last_log_index, save_commit_index}
use oxide_db.Raft.Node.Apply.Bounds.{apply_committed_entries-commit}
use oxide_db.Raft.Node.Commit.{
  insert_sorted, sorted, majority, of_term, match_indices, quorum_index, commit_to,
  update_commit_index,
}

-- how many of the numbers reach `i`
abbrev pub count : ℕ → List ℕ → ℕ
count i [] = 0
count i (x ∷ l) = (if leb i x then 1 else 0) + count i l

count-append : (i : ℕ) (l m : List ℕ) → count i (l ++ m) ≡ count i l + count i m
count-append i [] m = omega arith
count-append i (x ∷ l) m = omega (arith, count-append i l m)

count-insert_sorted : (i x : ℕ) (l : List ℕ) → count i (insert_sorted x l) ≡ count i (x ∷ l)
unfolding insert_sorted
count-insert_sorted i x [] = refl
count-insert_sorted i x (y ∷ l) =
    if_rule (λ m. count i m ≡ count i (x ∷ y ∷ l)) (leb x y) (λ _. refl)
      (λ _. omega (arith, count-insert_sorted i x l))

count-sorted : (i : ℕ) (l : List ℕ) → count i (sorted l) ≡ count i l
unfolding sorted
count-sorted i [] = refl
count-sorted i (x ∷ l) = omega (arith, count-insert_sorted i x (sorted l), count-sorted i l)

abbrev Ascending : List ℕ → Type 0
Ascending [] = Unit
Ascending (x ∷ l) = All (λ y. x ≤ y) l × Ascending l

All-insert_sorted :
    (b x : ℕ) (l : List ℕ) → b ≤ x → All (λ y. b ≤ y) l → All (λ y. b ≤ y) (insert_sorted x l)
unfolding insert_sorted
All-insert_sorted b x [] h k = (h, tt)
All-insert_sorted b x (y ∷ l) h k =
    if_rule (All (λ y. b ≤ y)) (leb x y) (λ _. (h, k)) (λ _. (k.0, All-insert_sorted b x l h k.1))

insert_sorted-Ascending : (x : ℕ) (l : List ℕ) → Ascending l → Ascending (insert_sorted x l)
unfolding insert_sorted
insert_sorted-Ascending x [] h = (tt, tt)
insert_sorted-Ascending x (y ∷ l) h =
    if_rule Ascending (leb x y)
      (λ first.
        let below : x ≤ y = ground (arith, first) in
        ((below, All-map (λ z. y ≤ z) (λ z. x ≤ z) l (λ z k. omega (arith, below, k)) h.0), h))
      (λ later.
        (All-insert_sorted y x l (ground (arith, later)) h.0, insert_sorted-Ascending x l h.1))

sorted-Ascending : (l : List ℕ) → Ascending (sorted l)
unfolding sorted
sorted-Ascending [] = tt
sorted-Ascending (x ∷ l) = insert_sorted-Ascending x (sorted l) (sorted-Ascending l)

-- a bound of the numbers bounds the sorted ones
All-sorted-insert :
    (b x : ℕ) (l : List ℕ) → x ≤ b → All (λ y. y ≤ b) l → All (λ y. y ≤ b) (insert_sorted x l)
unfolding insert_sorted
All-sorted-insert b x [] h k = (h, tt)
All-sorted-insert b x (y ∷ l) h k =
    if_rule (All (λ y. y ≤ b)) (leb x y) (λ _. (h, k)) (λ _. (k.0, All-sorted-insert b x l h k.1))

All-sorted : (b : ℕ) (l : List ℕ) → All (λ y. y ≤ b) l → All (λ y. y ≤ b) (sorted l)
unfolding sorted
All-sorted b [] h = tt
All-sorted b (x ∷ l) h = All-sorted-insert b x (sorted l) h.0 (All-sorted b l h.1)

append-Ascending : (l : List ℕ) (b : ℕ) → Ascending l → All (λ y. y ≤ b) l → Ascending (l ++ b ∷ [])
append-Ascending [] b h k = (tt, tt)
append-Ascending (x ∷ l) b h k =
    (All-append (λ y. x ≤ y) l (b ∷ []) h.0 (k.0, tt), append-Ascending l b h.1 k.1)

count-All : (i : ℕ) (l : List ℕ) → All (λ y. i ≤ y) l → count i l ≡ length l
count-All i [] h = refl
count-All i (x ∷ l) h = let rest = count-All i l h.1 in ground (arith, h.0, rest)

-- in an ascending list, everything from a position on reaches what stands there
count-get_elem? :
    (l : List ℕ) (k : ℕ) {x : ℕ} → Ascending l → get_elem? l k ≡ some x → length l ≤ count x l + k
count-get_elem? [] k h eq = omega arith
count-get_elem? (y ∷ l) zero {x} h eq =
    let at : y ≡ x = ground (arith, eq) in
    let all : All (λ z. x ≤ z) l = rw at at h.0 in
    let rest = count-All x l all in ground (arith, at, rest)
count-get_elem? (y ∷ l) (suc k) {x} h eq =
    let rest = count-get_elem? l k h.1 eq in omega (arith, rest)

-- the entry `of_term` says yes to
abbrev pub OfTerm : ℕ → Option LogEntry → Type 0
OfTerm term found = (e : LogEntry) × ((found ≡ some e) × (e.term ≡ term))

of_term-OfTerm :
    (term : ℕ) (found : Option LogEntry) → of_term term found ≡ true → OfTerm term found
of_term-OfTerm term none h = absurd (ground arith)
of_term-OfTerm term (some e) h = (e, (refl, ground (arith, h)))

-- what a commit index that was counted has behind it
pub record Counted {S : Type 0} (n : Node S) (index : ℕ) : Type 0 where
  pub later : n.commit_index < index
  pub own_term : OfTerm n.current_term (entry_at n index)
  pub held : length n.peers + 1 < 2 * count index (last_log_index n ∷ map (λ p. p.1) n.match_index)

module _ {S : Type 0} (sm : StateMachine S) where
  match_indices-count :
      (n : Node S) (i : ℕ)
      → count i (match_indices n) ≡ count i (last_log_index n ∷ map (λ p. p.1) n.match_index)
  unfolding match_indices
  match_indices-count n i = omega (
    arith,
    count-append i (sorted (map (λ p. p.1) n.match_index)) (last_log_index n ∷ []),
    count-sorted i (map (λ p. p.1) n.match_index),
  )

  match_indices-Ascending :
      (n : Node S)
      → All (λ i. i ≤ last_log_index n) (map (λ p. p.1) n.match_index)
      → Ascending (match_indices n)
  unfolding match_indices
  match_indices-Ascending n h =
      append-Ascending (sorted (map (λ p. p.1) n.match_index)) (last_log_index n)
        (sorted-Ascending (map (λ p. p.1) n.match_index))
        (All-sorted (last_log_index n) (map (λ p. p.1) n.match_index) h)

  quorum_index-count :
      (n : Node S) {i : ℕ}
      → All (λ i. i ≤ last_log_index n) (map (λ p. p.1) n.match_index)
      → quorum_index n ≡ some i
      → majority n.peers ≤ count i (last_log_index n ∷ map (λ p. p.1) n.match_index)
  quorum_index-count n {i} h eq = elim (Bool-cases (leb (majority n.peers) (length found))) [
    | inl enough ↦
        let at : get_elem? found (length found - majority n.peers) ≡ some i = rw enough at eq in
        let reach =
          count-get_elem? found (length found - majority n.peers) (match_indices-Ascending n h)
            at in
        let size : majority n.peers ≤ length found = ground (arith, enough) in
        omega (arith, reach, size, match_indices-count n i)
    | inr few ↦ let no : none ≡ some i = rw few at eq in absurd (ground (arith, no))
  ]
    where
      found : List ℕ
      found = match_indices n

  -- Where no peer is believed to hold more than this node's log, `_update_commit_index` leaves the
  -- commit index, or moves it up to an entry of the node's current term that more than half of the
  -- group, the peers and this node, holds by what this node believes of the peers' logs.
  pub update_commit_index-Counted :
      (n : Node S)
      → All (λ i. i ≤ last_log_index n) (map (λ p. p.1) n.match_index)
      → ((update_commit_index sm n).commit_index ≡ n.commit_index)
        ⊎ Counted n (update_commit_index sm n).commit_index
  unfolding update_commit_index save_commit_index
  update_commit_index-Counted n h = to (quorum_index n) refl
    where
      Result : Node S → Type 0
      Result m = (m.commit_index ≡ n.commit_index) ⊎ Counted n m.commit_index

      to : (found : Option ℕ) → quorum_index n ≡ found → Result (commit_to sm found n)
      to none eq = inl refl
      to (some i) eq =
          if_rule Result (ltb n.commit_index i && of_term n.current_term (entry_at n i))
            (λ moves.
              let commit =
                apply_committed_entries-commit sm
                  (save_commit_index (record n { commit_index = i })) in
              inr (
                rw commit (record {
                  later = ground (arith, moves);
                  own_term = of_term-OfTerm n.current_term (entry_at n i) (ground (arith, moves));
                  held = omega (arith, quorum_index-count n h eq);
                })))
            (λ _. inl refl)
