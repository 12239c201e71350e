-- ===== src/Client/Routing/Leader.antt =====
-- oxidedb/client/routing.py: what `leader_for_shard` uses up.
use oxide_db.Base.{
  ℕ, ◌≤◌, ◌<◌, ◌≡◌, refl, ◌∙◌, ap, true, false, Option, none, some, List, [], ◌∷◌, arith, inl, inr,
  ◌⊎◌, Option-cases, if_rule, All,
}
use oxide_db.Base.Dict
use oxide_db.Base.Dict.{
  set_key, get_key, del_key, get_key-set_key_self, get_key-del_key, Distinct-del_key,
  Distinct-set_key,
}
use oxide_db.Metadata.Table.{Address}
use oxide_db.Client.Routing
use oxide_db.Client.Routing.{
  Env, Leaders, Reply, elem, add, asked_of, queue_of, note_asked, was_asked, forget_shard,
  is_waiting, can_open, hand_out, remember_hint, replicas, queue_all, queue_replicas, refused_with,
  take_from, take_queued, named_leader, next_leader, or_named, or_next, leader_for_shard, hint_of,
  is_nonempty,
}
use oxide_db.Client.Routing.Progress.{
  size, IsSound, measure-asked, measure-asked_new, measure-popped,
}
use oxide_db.Client.Routing.Refusals.{has_next}

module _ {W C A : Type 0} (env : Env W C A) (s : ℕ) (known : List Address) where
  -- A sound lookup is left by the choice of a node. It has less to ask, or there was nothing to ask
  -- but what the table names.
  pub record Chosen (x : Option C × (Leaders × W)) (l : Leaders) : Type 0 where
    pub sound : IsSound env s known x.1.0
    pub smaller :
        (size env s known x.1.0 < size env s known l)
        ⊎ ((has_next env s known l ≡ false) × (size env s known x.1.0 ≤ size env s known l))

  note_asked-asked :
      (a : Address) (l : Leaders) → asked_of s (note_asked s a l) ≡ add a (asked_of s l)
  unfolding note_asked asked_of
  note_asked-asked a l =
      ap Routing.list_or_empty (get_key-set_key_self s (add a (asked_of s l)) l.asked)

  note_asked-rest :
      (a : Address) (l : Leaders)
      → ((note_asked s a l).hints ≡ l.hints) × (queue_of s (note_asked s a l) ≡ queue_of s l)
  unfolding note_asked queue_of
  note_asked-rest a l = (refl, refl)

  note_asked-queued : (a : Address) (l : Leaders) → (note_asked s a l).queued ≡ l.queued
  unfolding note_asked
  note_asked-queued a l = refl

  note_asked-size :
      (a : Address) (l : Leaders) → size env s known (note_asked s a l) ≤ size env s known l
  unfolding size
  note_asked-size a l =
      rw (note_asked-asked a l)
        (rw (note_asked-rest a l).1 (measure-asked env s known a (asked_of s l) (queue_of s l)))

  note_asked-size_new :
      (a : Address) (l : Leaders)
      → elem a known ≡ true
      → elem a (asked_of s l) ≡ false
      → size env s known (note_asked s a l) < size env s known l
  unfolding size
  note_asked-size_new a l k n = rw (note_asked-asked a l) (
      rw (note_asked-rest a l).1
        (measure-asked_new env s known a (asked_of s l) (queue_of s l) k n))

  abbrev no_hint : Leaders → Leaders
  no_hint l = record l { hints = del_key s l.hints }

  no_hint-none : (l : Leaders) → Dict.Distinct l.hints → get_key s (no_hint l).hints ≡ none
  no_hint-none l d = get_key-del_key s s l.hints d ∙ ground arith

  no_hint-size : (l : Leaders) → size env s known (no_hint l) ≡ size env s known l
  unfolding size asked_of queue_of
  no_hint-size l = refl

  no_hint-open :
      (l : Leaders)
      → IsSound env s known l
      → All (λ a. can_open env s a ≡ true) (queue_of s (no_hint l))
  unfolding queue_of
  no_hint-open l v = v.open_queue

  no_hint-new :
      (a : Address) (l : Leaders)
      → elem a (asked_of s l) ≡ false
      → elem a (asked_of s (no_hint l)) ≡ false
  unfolding asked_of
  no_hint-new a l h = h

  no_hint-queue : (l : Leaders) → queue_of s (no_hint l) ≡ queue_of s l
  unfolding queue_of
  no_hint-queue l = refl

  -- without a hint only the queue counts
  pub hintless-IsSound :
      (l : Leaders)
      → get_key s l.hints ≡ none
      → Dict.Distinct l.hints
      → Dict.Distinct l.queued
      → All (λ a. can_open env s a ≡ true) (queue_of s l)
      → IsSound env s known l
  hintless-IsSound l n d e q = record {
    hint = λ a h. absurd (ground (arith, n, h));
    open_queue = q;
    keys = d;
    queues = e;
  }

  note_asked-hintless :
      (a : Address) (l : Leaders)
      → get_key s l.hints ≡ none
      → IsSound env s known l
      → IsSound env s known (note_asked s a l)
  note_asked-hintless a l n v =
      let rest = note_asked-rest a l in
      hintless-IsSound (note_asked s a l) (rw rest.0 n) (rw rest.0 v.keys)
        (rw (note_asked-queued a l) v.queues) (rw rest.1 v.open_queue)

  hand_out-Chosen :
      (c : C) (l : Leaders)
      → get_key s l.hints ≡ none
      → IsSound env s known l
      → IsSound env s known (hand_out env s c l)
        × (size env s known (hand_out env s c l) ≤ size env s known l)
  unfolding hand_out
  hand_out-Chosen c l n v = elim (Option-cases (env.address c)) [
    | inl e ↦ rw (e, hand_out) (v, omega arith)
    | inr (a, e) ↦ rw (e, hand_out) (note_asked-hintless a l n v, note_asked-size a l)
  ]

  named_leader-Chosen :
      (l : Leaders) (w : W)
      → get_key s l.hints ≡ none
      → queue_of s l ≡ []
      → IsSound env s known l
      → Chosen (named_leader env s l w) l
  unfolding named_leader
  named_leader-Chosen l w n q v =
      let nothing : has_next env s known l ≡ false = ground (arith, n, q) in
      elim (Option-cases (env.table_leader s w).0) [
        | inl e ↦ rw (e, named_leader) (record { sound = v; smaller = inr (nothing, omega arith) })
        | inr (c, e) ↦
            let handed = hand_out-Chosen c l n v in
            rw (e, named_leader)
              (if_rule (λ (x : Leaders). Chosen (some c, (x, (env.table_leader s w).1)) l)
                env.has_router (λ r. record { sound = handed.0; smaller = inr (nothing, handed.1) })
                (λ r. record { sound = v; smaller = inr (nothing, omega arith) }))
      ]

  taken : (c : C) (a : Address) (queue : List Address) (l : Leaders) → Leaders
  taken c a queue l = record l {
    queued = set_key s queue l.queued;
    asked = set_key s (add a (asked_of s l)) l.asked;
  }

  take_queued-empty : (l : Leaders) → queue_of s l ≡ [] → take_queued env s l ≡ (none, l)
  unfolding take_queued
  take_queued-empty l q = rw (q, take_queued) refl

  take_from-first :
      (a : Address) (queue asked : List Address) (c : C)
      → env.get_client_at s a ≡ some c
      → take_from env s (a ∷ queue) asked ≡ (some c, (queue, add a asked))
  unfolding take_from
  take_from-first a queue asked c e = rw (e, take_from) refl

  take_queued-first :
      (a : Address) (queue : List Address) (c : C) (l : Leaders)
      → queue_of s l ≡ a ∷ queue
      → env.get_client_at s a ≡ some c
      → take_queued env s l ≡ (some c, taken c a queue l)
  unfolding take_queued taken
  take_queued-first a queue c l q e =
      rw (q, take_queued) (rw (take_from-first a queue (asked_of s l) c e) refl)

  taken-asked :
      (c : C) (a : Address) (queue : List Address) (l : Leaders)
      → (asked_of s (taken c a queue l) ≡ add a (asked_of s l))
        × (queue_of s (taken c a queue l) ≡ queue)
  unfolding taken asked_of queue_of
  taken-asked c a queue l = (
    ap Routing.list_or_empty (get_key-set_key_self s (add a (asked_of s l)) l.asked),
    ap Routing.list_or_empty (get_key-set_key_self s queue l.queued),
  )

  taken-Chosen :
      (c : C) (a : Address) (queue : List Address) (l : Leaders) (w : W)
      → get_key s l.hints ≡ none
      → queue_of s l ≡ a ∷ queue
      → IsSound env s known l
      → Chosen (some c, (taken c a queue l, w)) l
  unfolding size taken
  taken-Chosen c a queue l w n q v =
      let at = taken-asked c a queue l in
      let all = rw q at v.open_queue in
      record {
        sound =
            hintless-IsSound (taken c a queue l) n v.keys
              (Distinct-set_key s queue l.queued v.queues) (rw at.1 all.1);
        smaller =
            inl (rw at.0 (rw at.1 (rw q (measure-popped env s known a (asked_of s l) queue))));
      }

  next_leader-queue :
      (q : List Address) (l : Leaders) (w : W)
      → get_key s l.hints ≡ none
      → IsSound env s known l
      → queue_of s l ≡ q
      → Chosen (next_leader env s l w) l
  unfolding next_leader or_named
  next_leader-queue [] l w n v e =
      rw (take_queued-empty l e, next_leader) (named_leader-Chosen l w n e v)
  next_leader-queue (a ∷ queue) l w n v e =
      let all = rw e at v.open_queue in
      elim (Option-cases (env.get_client_at s a)) [
        | inl shut ↦ absurd (ground (arith, all.0, shut))
        | inr (c, opens) ↦
            rw (take_queued-first a queue c l e opens, next_leader)
              (taken-Chosen c a queue l w n e v)
      ]

  -- the hint is spent
  hinted-Chosen :
      (c : C) (a : Address) (l : Leaders) (w : W)
      → get_key s l.hints ≡ some a
      → IsSound env s known l
      → Chosen (some c, (note_asked s a (no_hint l), w)) l
  hinted-Chosen c a l w h v =
      let facts = v.hint a h in
      let n = no_hint-none l v.keys in
      let v' : IsSound env s known (no_hint l) =
        hintless-IsSound (no_hint l) n (Distinct-del_key s l.hints v.keys) v.queues
          (no_hint-open l v) in
      record {
        sound = note_asked-hintless a (no_hint l) n v';
        smaller = inl (
            rw (← no_hint-size l)
              (note_asked-size_new a (no_hint l) facts.0 (no_hint-new a l facts.1.1)));
      }

  -- where there was no hint
  no_hint-smaller :
      (l : Leaders) {n : ℕ}
      → get_key s l.hints ≡ none
      → (n < size env s known (no_hint l))
        ⊎ ((has_next env s known (no_hint l) ≡ false) × (n ≤ size env s known (no_hint l)))
      → (n < size env s known l) ⊎ ((has_next env s known l ≡ false) × (n ≤ size env s known l))
  no_hint-smaller l h (inl less) = inl (rw (← no_hint-size l) less)
  no_hint-smaller l h (inr (idle, le)) =
      let queue = no_hint-queue l in inr (ground (arith, idle, h, queue), rw (← no_hint-size l) le)

  pub leader_for_shard-Chosen :
      (l : Leaders) (w : W) → IsSound env s known l → Chosen (leader_for_shard env s l w) l
  unfolding leader_for_shard or_next
  leader_for_shard-Chosen l w v = elim (Option-cases (get_key s l.hints)) [
    | inl none_kept ↦
        let n = no_hint-none l v.keys in
        let v' : IsSound env s known (no_hint l) =
          hintless-IsSound (no_hint l) n (Distinct-del_key s l.hints v.keys) v.queues
            (no_hint-open l v) in
        let next = next_leader-queue (queue_of s (no_hint l)) (no_hint l) w n v' refl in
        rw (none_kept, leader_for_shard)
          (record { sound = next.sound; smaller = no_hint-smaller l none_kept next.smaller })
    | inr (a, h) ↦
        let facts = v.hint a h in
        elim (Option-cases (env.get_client_at s a)) [
          | inl shut ↦ absurd (ground (arith, facts.1.0, shut))
          | inr (c, opens) ↦ rw (h, leader_for_shard) (rw opens (hinted-Chosen c a l w h v))
        ]
  ]
