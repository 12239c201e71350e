-- ===== src/Client/Routing/Refusals.antt =====
-- oxidedb/client/routing.py: what a refusal leaves of the walk.
use oxide_db.Base.{
  ℕ, ◌≤◌, ◌≡◌, refl, ap, Bool, true, false, ◌||◌, Option, none, some, List, ◌++◌, filter, arith,
  inl, inr, Bool-cases, is_some, All-append, All-filter,
}
use oxide_db.Base.Dict
use oxide_db.Base.Dict.{
  set_key, get_key, del_key, get_key-set_key_self, get_key-del_key, Distinct-set_key,
}
use oxide_db.Metadata.Table.{Address}
use oxide_db.Client.Routing
use oxide_db.Client.Routing.{
  Env, Leaders, Reply, elem, add, asked_of, queue_of, note_asked, was_asked, forget_shard,
  is_waiting, can_open, hand_out, remember_hint, replicas, queue_all, queue_replicas, refused_with,
  take_from, take_queued, named_leader, next_leader, leader_for_shard, hint_of, is_nonempty,
}
use oxide_db.Client.Routing.Counting.{All-filter_self, Distinct, AreKnown}
use oxide_db.Client.Routing.Progress.{Names, size, IsSound, measure-queued}

module _ {W C A : Type 0} (env : Env W C A) (s : ℕ) (known : List Address) where
  -- after the answer to a question: nothing is waiting but what the refusal leaves
  abbrev pub has_next : Leaders → Bool
  has_next l = is_some (get_key s l.hints) || is_nonempty (queue_of s l)

  queue_all-asked :
      (addresses : List Address) (l : Leaders)
      → asked_of s (queue_all env s addresses l).1 ≡ asked_of s l
  unfolding queue_all asked_of
  queue_all-asked addresses l =
      ap Routing.list_or_empty (get_key-set_key_self s (asked_of s l) l.asked)

  abbrev waiting : List Address → Leaders → List Address
  waiting addresses l =
      filter (is_waiting (asked_of s l) (queue_of s l)) (filter (can_open env s) addresses)

  queue_all-queue :
      (addresses : List Address) (l : Leaders)
      → queue_of s (queue_all env s addresses l).1 ≡ queue_of s l ++ waiting addresses l
  unfolding queue_all queue_of
  queue_all-queue addresses l =
      ap Routing.list_or_empty
        (get_key-set_key_self s (queue_of s l ++ waiting addresses l) l.queued)

  queue_all-size :
      (addresses : List Address) (l : Leaders)
      → Distinct addresses
      → AreKnown known addresses
      → size env s known (queue_all env s addresses l).1 ≤ size env s known l
  unfolding size
  queue_all-size addresses l d k = rw (queue_all-asked addresses l) (
      rw (queue_all-queue addresses l)
        (measure-queued env s known addresses (asked_of s l) (queue_of s l) d k))

  queue_all-hints :
      (addresses : List Address) (l : Leaders) → (queue_all env s addresses l).1.hints ≡ l.hints
  unfolding queue_all
  queue_all-hints addresses l = refl

  queue_all-queues :
      (addresses : List Address) (l : Leaders)
      → Dict.Distinct l.queued
      → Dict.Distinct (queue_all env s addresses l).1.queued
  unfolding queue_all
  queue_all-queues addresses l d =
      Distinct-set_key s (queue_of s l ++ waiting addresses l) l.queued d

  queue_all-IsSound :
      (addresses : List Address) (l : Leaders)
      → IsSound env s known l
      → IsSound env s known (queue_all env s addresses l).1
  queue_all-IsSound addresses l v = record {
    hint = λ a h.
        let kept = v.hint a (rw (← queue_all-hints addresses l) h) in
        (kept.0, (kept.1.0, rw (queue_all-asked addresses l) kept.1.1));
    open_queue = rw (queue_all-queue addresses l) (
        All-append (λ a. can_open env s a ≡ true) (queue_of s l) (waiting addresses l) v.open_queue
          (All-filter (λ a. can_open env s a ≡ true) (is_waiting (asked_of s l) (queue_of s l))
            (filter (can_open env s) addresses) (All-filter_self (can_open env s) addresses)));
    keys = rw (queue_all-hints addresses l) v.keys;
    queues = queue_all-queues addresses l v.queues;
  }

  queue_all-first :
      (addresses : List Address) (l : Leaders)
      → (queue_all env s addresses l).0 ≡ is_nonempty (queue_of s l ++ waiting addresses l)
  unfolding queue_all
  queue_all-first addresses l = refl

  -- it is answered whether something is queued
  queue_all-more :
      (addresses : List Address) (l : Leaders)
      → (queue_all env s addresses l).0 ≡ is_nonempty (queue_of s (queue_all env s addresses l).1)
  queue_all-more addresses l = rw (queue_all-queue addresses l) (queue_all-first addresses l)

  -- what a refusal leaves of a lookup: sound, no larger, and with the next node to ask if it says so
  pub record Left (x : Bool × (Leaders × W)) (l : Leaders) : Type 0 where
    pub sound : IsSound env s known x.1.0
    pub smaller : size env s known x.1.0 ≤ size env s known l
    pub next : x.0 ≡ true → has_next x.1.0 ≡ true

  module _ (names : Names env s known) where
    replicas-AreKnown :
        (w : W) → Distinct (replicas env s w).0 × AreKnown known (replicas env s w).0
    unfolding replicas
    replicas-AreKnown w = elim (Bool-cases env.has_router) [
      | inl e ↦ rw e (names.distinct w, names.replicas w)
      | inr e ↦ rw e (tt, tt)
    ]

    queue_replicas-Left :
        (l : Leaders) (w : W) → IsSound env s known l → Left (queue_replicas env s l w) l
    unfolding queue_replicas
    queue_replicas-Left l w v =
        let addresses = (replicas env s w).0 in
        let known_ones = replicas-AreKnown w in
        record {
          sound = queue_all-IsSound addresses l v;
          smaller = queue_all-size addresses l known_ones.0 known_ones.1;
          next = λ e.
              let queued : is_nonempty (queue_of s (queue_all env s addresses l).1) ≡ true =
                rw (← queue_all-more addresses l) e in
              ground (arith, queued);
        }

    hinted-Left :
        (a : Address) (l : Leaders) (w : W)
        → elem a known ≡ true
        → IsSound env s known l
        → was_asked s a l ≡ false
        → can_open env s a ≡ true
        → Left (true, (record l { hints = set_key s a l.hints }, w)) l
    unfolding was_asked size asked_of queue_of
    hinted-Left a l w k v new opens =
        let at = get_key-set_key_self s a l.hints in
        record {
          sound = record {
            hint = λ b h. let same : a ≡ b = cc (at, h) in rw (← same) (k, (opens, new));
            open_queue = v.open_queue;
            keys = Distinct-set_key s a l.hints v.keys;
            queues = v.queues;
          };
          smaller = omega arith;
          next = λ e. ground (arith, at);
        }

    -- A refusal leaves the walk no more to ask than before, and if it says that there is somewhere
    -- to go, there is a hint or a queued address.
    pub refused_with-Left :
        (hint : Option Address) (l : Leaders) (w : W)
        → ((a : Address) → hint ≡ some a → elem a known ≡ true)
        → IsSound env s known l
        → Left (refused_with env s hint l w) l
    unfolding refused_with remember_hint
    refused_with-Left none l w k v = queue_replicas-Left l w v
    refused_with-Left (some a) l w k v = elim (Bool-cases (was_asked s a l)) [
      | inl e ↦ rw e (queue_replicas-Left l w v)
      | inr e ↦ elim (Bool-cases (can_open env s a)) [
        | inl o ↦ rw (e, o) (hinted-Left a l w (k a refl) v e o)
        | inr o ↦ rw (e, o) (queue_replicas-Left l w v)
      ]
    ]
