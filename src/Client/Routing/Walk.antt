-- ===== src/Client/Routing/Walk.antt =====
-- oxidedb/client/routing.py: the walk of `ask_shard` ends.
use oxide_db.Base.{
  ℕ, zero, suc, ◌+◌, ◌*◌, ◌-◌, ◌≤◌, ◌<◌, ◌≡◌, refl, ◌∙◌, ap, true, false, not, ◌||◌, Option, none,
  some, List, [], ◌==◌, if◌then◌else◌, length, arith, inl, inr, Option-cases, is_some, if_rule,
}
use oxide_db.Base.Dict
use oxide_db.Base.Dict.{get_key, del_key, get_key-del_key, Distinct-del_key}
use oxide_db.Metadata.Table.{Address}
use oxide_db.Client.Routing
use oxide_db.Client.Routing.{
  Env, Leaders, no_leaders, Reply, Outcome, Turn, Step, elem, asked_of, queue_of, forget_shard,
  is_waiting, refused_with, refresh_for_shard, leader_for_shard, hint_of, pick, follow, on_reply,
  turn, ask, ask_shard,
}
use oxide_db.Client.Routing.Counting.{count-le-length}
use oxide_db.Client.Routing.Progress.{Names, size, IsSound}
use oxide_db.Client.Routing.Refusals.{has_next, refused_with-Left}
use oxide_db.Client.Routing.Leader.{leader_for_shard-Chosen, hintless-IsSound}

module _ {W C A : Type 0} (env : Env W C A) (s : ℕ) (known : List Address) where
  -- the most that one reading of the table is worth
  abbrev pub per_read : ℕ
  per_read = 2 * length known + 2

  -- one more where the next node is the caller's or the table's
  abbrev spare : Option C → Leaders → ℕ
  spare first l = if is_some first || not (has_next env s known l) then 1 else 0

  abbrev pub potential : Turn W C A → ℕ
  potential t = t.reads_left * per_read + (size env s known t.leaders + spare t.first t.leaders)

  -- the walk ends here, or goes on soundly with at most `n`
  abbrev GoesOn : ℕ → Step W C A → Type 0
  GoesOn n (Step.stop o l w) = Unit {0}
  GoesOn n (Step.go t) = IsSound env s known t.leaders × (potential t ≤ n)

  GoesOn-le : (m n : ℕ) (x : Step W C A) → m ≤ n → GoesOn m x → GoesOn n x
  GoesOn-le m n (Step.stop o l w) h g = tt
  GoesOn-le m n (Step.go t) h g = (g.0, omega arith)

  -- the rest of the loop after a round
  resume :
      (fuel : ℕ) (x : Step W C A) (n : ℕ)
      → n < fuel
      → GoesOn n x
      → ((t : Turn W C A)
          → IsSound env s known t.leaders
          → potential t < fuel
          → (y : Outcome A × (Leaders × W)) × (ask env s fuel t ≡ some y))
      → (y : Outcome A × (Leaders × W)) × (elim x as (λ y. Option (Outcome A × (Leaders × W))) [
        | Step.stop o l w ↦ some (o, (l, w))
        | Step.go t' ↦ ask env s fuel t'
      ]
          ≡ some y)
  resume fuel (Step.stop o l w) n h g again = ((o, (l, w)), refl)
  resume fuel (Step.go t) n h g again = again t g.0 (omega arith)

  no_leaders-IsSound : IsSound env s known no_leaders
  unfolding get_key queue_of
  no_leaders-IsSound = hintless-IsSound env s known no_leaders refl tt tt tt

  no_leaders-queue : queue_of s no_leaders ≡ []
  unfolding queue_of get_key
  no_leaders-queue = refl

  first_read_bound :
      (r k size spare fuel : ℕ)
      → size ≤ 2 * k
      → spare ≤ 1
      → suc r * (2 * k + 2) ≤ fuel
      → r * (2 * k + 2) + (size + spare) < fuel
  first_read_bound r k size spare fuel h o f = grind arith

  forgotten-none :
      (l : Leaders)
      → IsSound env s known l
      → (get_key s (forget_shard s l).hints ≡ none) × (queue_of s (forget_shard s l) ≡ [])
  unfolding forget_shard queue_of
  forgotten-none l v =
      let queue : get_key s (del_key s l.queued) ≡ none =
        get_key-del_key s s l.queued v.queues ∙ ground arith in
      (get_key-del_key s s l.hints v.keys ∙ ground arith, ap Routing.list_or_empty queue)

  forgotten-keys :
      (l : Leaders)
      → IsSound env s known l
      → Dict.Distinct (forget_shard s l).hints × Dict.Distinct (forget_shard s l).queued
  unfolding forget_shard
  forgotten-keys l v = (Distinct-del_key s l.hints v.keys, Distinct-del_key s l.queued v.queues)

  forgotten-IsSound : (l : Leaders) → IsSound env s known l → IsSound env s known (forget_shard s l)
  forgotten-IsSound l v =
      let n = forgotten-none l v in
      let k = forgotten-keys l v in
      hintless-IsSound env s known (forget_shard s l) n.0 k.0 k.1 (rw n.1 tt)

  size-le : (l : Leaders) → size env s known l ≤ 2 * length known + length (queue_of s l)
  unfolding size
  size-le l =
      let a = count-le-length (λ a. not (elem a (asked_of s l))) known in
      let b = count-le-length (is_waiting (asked_of s l) (queue_of s l)) known in omega arith

  forgotten-size :
      (l : Leaders) → IsSound env s known l → size env s known (forget_shard s l) ≤ 2 * length known
  forgotten-size l v =
      let bound = size-le (forget_shard s l) in
      let empty = ap length (forgotten-none l v).1 in omega arith

  spare-le : (first : Option C) (l : Leaders) → spare first l ≤ 1
  spare-le first l = ground arith

  next_read_bound :
      (r k size spare n : ℕ)
      → size ≤ 2 * k
      → spare ≤ 1
      → r * (2 * k + 2) + (size + spare) ≤ suc r * (2 * k + 2) + n
  next_read_bound r k size spare n h o = grind arith

  module _ (names : Names env s known) where
    -- another read of the table
    next_read :
        (reads_left : ℕ) (l : Leaders) (n : ℕ)
        → (reads_left == 0) ≡ false
        → IsSound env s known l
        → (reads_left - 1) * per_read
            + (size env s known (forget_shard s l) + spare none (forget_shard s l))
          ≤ reads_left * per_read + n
    next_read zero l n h v = absurd (ground (arith, h))
    next_read (suc r) l n h v =
        let one = spare-le none (forget_shard s l) in
        let less : suc r - 1 ≡ r = omega arith in
        rw less (
          next_read_bound r (length known) (size env s known (forget_shard s l))
            (spare none (forget_shard s l)) n (forgotten-size l v) one)

    follow-GoesOn :
        (reads_left : ℕ) (reply : Reply A) (l : Leaders) (w : W)
        → ((a : Address) → hint_of reply ≡ some a → elem a known ≡ true)
        → IsSound env s known l
        → GoesOn (reads_left * per_read + size env s known l) (follow env s reads_left reply l w)
    unfolding follow refresh_for_shard
    follow-GoesOn reads_left reply l w h v =
        let left = refused_with-Left env s known names (hint_of reply) l w h v in
        let x = refused_with env s (hint_of reply) l w in
        if_rule (GoesOn (reads_left * per_read + size env s known l)) x.0
          (λ more. let next = left.next more in (left.sound, ground (arith, left.smaller, next)))
          (λ over.
            if_rule (GoesOn (reads_left * per_read + size env s known l)) (reads_left == 0)
              (λ last. tt)
              (λ more_reads. (
                forgotten-IsSound x.1.0 left.sound,
                next_read reads_left x.1.0 (size env s known l) more_reads left.sound,
              )))

    on_reply-GoesOn :
        (reads_left : ℕ) (reply : Reply A) (l : Leaders) (w : W)
        → ((a : Address) → hint_of reply ≡ some a → elem a known ≡ true)
        → IsSound env s known l
        → GoesOn (reads_left * per_read + size env s known l) (on_reply env s reads_left reply l w)
    unfolding on_reply
    on_reply-GoesOn reads_left (Reply.answered a) l w h v = tt
    on_reply-GoesOn reads_left Reply.scan_refused l w h v = tt
    on_reply-GoesOn reads_left (Reply.not_leader a hint) l w h v =
        follow-GoesOn reads_left (Reply.not_leader a hint) l w h v
    on_reply-GoesOn reads_left Reply.nothing l w h v =
        follow-GoesOn reads_left Reply.nothing l w h v
    on_reply-GoesOn reads_left (Reply.scan_not_leader hint) l w h v =
        follow-GoesOn reads_left (Reply.scan_not_leader hint) l w h v
    on_reply-GoesOn reads_left Reply.unreachable l w h v =
        follow-GoesOn reads_left Reply.unreachable l w h v

    -- what `pick` leaves is sound, and smaller than the potential
    pick-lt :
        (t : Turn W C A)
        → IsSound env s known t.leaders
        → IsSound env s known (pick env s t).1.0
          × (t.reads_left * per_read + size env s known (pick env s t).1.0 < potential t)
    unfolding pick
    pick-lt t v = elim (Option-cases t.first) [
      | inr (c, e) ↦ rw (e, pick) (v, omega arith)
      | inl e ↦
          let chosen = leader_for_shard-Chosen env s known t.leaders t.world v in
          rw (e, pick)
            (
              chosen.sound,
              elim chosen.smaller [
                | inl less ↦ omega arith
                | inr (idle, le) ↦ ground (arith, idle, le)
              ],
            )
    ]

    turn-GoesOn :
        (t : Turn W C A) → IsSound env s known t.leaders → GoesOn (potential t - 1) (turn env s t)
    unfolding turn
    turn-GoesOn t v =
        let picked = pick-lt t v in
        let l = (pick env s t).1.0 in
        let w = (pick env s t).1.1 in
        elim (Option-cases (pick env s t).0) [
          | inl e ↦ rw (e, turn) tt
          | inr (c, e) ↦
              let reply = (env.question c w).0 in
              rw (e, turn)
                (GoesOn-le (t.reads_left * per_read + size env s known l) (potential t - 1)
                  (on_reply env s t.reads_left reply l (env.question c w).1) (omega arith)
                  (on_reply-GoesOn t.reads_left reply l (env.question c w).1 (names.hints c w)
                    picked.0))
        ]

    ask_returns :
        (fuel : ℕ) (t : Turn W C A)
        → IsSound env s known t.leaders
        → potential t < fuel
        → (x : Outcome A × (Leaders × W)) × (ask env s fuel t ≡ some x)
    unfolding ask
    ask_returns zero t v h = absurd (omega arith)
    ask_returns (suc fuel) t v h =
        let picked = pick-lt t v in
        resume fuel (turn env s t) (potential t - 1) (omega arith) (turn-GoesOn t v)
          (λ t' v' h'. ask_returns fuel t' v' h')

    -- Where the tables and the refusals name at most `n` addresses, a walk that may read the table `r`
    -- times, its first reading included, ends after at most `r * (2 * n + 2)` questions, whatever the
    -- nodes answer: with so much fuel it returns or raises.
    pub ask_shard_returns :
        (table_reads : ℕ) (first : Option C) (w : W) (fuel : ℕ)
        → 0 < table_reads
        → table_reads * per_read ≤ fuel
        → (x : Outcome A × (Leaders × W)) × (ask_shard env s fuel table_reads first no_leaders w
            ≡ some x)
    unfolding ask_shard
    ask_shard_returns zero first w fuel r h = absurd (omega arith)
    ask_shard_returns (suc reads) first w fuel r h =
        let bound = size-le no_leaders in
        let empty = ap length no_leaders-queue in
        let one = spare-le first no_leaders in
        let less : suc reads - 1 ≡ reads = omega arith in
        ask_returns fuel _ no_leaders-IsSound (
          rw less (
            first_read_bound reads (length known) (size env s known no_leaders)
              (spare first no_leaders) fuel (omega arith) one h))
