-- ===== src/Raft/Node/Append/Bounds.antt =====
-- oxidedb/raft/node.py: `append_entries` keeps the invariant of the log.
use oxide_db.Base.{
  ℕ, ◌+◌, ◌-◌, ◌≤◌, ◌<◌, ◌≡◌, refl, ◌∙◌, Bool, true, Option, none, some, List, [], ◌∷◌, length,
  length-append, arith, ltb, leb, ◌==◌, if_rule, take, min, last?, ltb→lt,
}
use oxide_db.Raft.Disk
use oxide_db.Raft.Disk.{Disk, LogEntry}
use oxide_db.Raft.Node.{
  Node, StateMachine, AppendEntriesRequest, AppendEntriesResponse, entry_at, last_log_index,
  append_entry, index_or,
}
use oxide_db.Raft.Node.Log.{Follows, Follows-last, take-Follows, length-take, filter-truncate}
use oxide_db.Raft.Node.WellFormed.{
  WellFormed, WellFormed-view, SameLog-on_disk, last_log_index-eq, entry_at-bounds, entry_at-none,
  save_meta-WellFormed, save_commit_index-WellFormed, append_entry-WellFormed,
}
use oxide_db.Raft.Node.Apply.Bounds.{apply_committed_entries-WellFormed}
use oxide_db.Raft.Node.Append.{
  follow_term, follow_leader, settle_term, prev_ok, drop_from, place_entry, add_entry, add_entries,
  follow_commit, take_entries, append_entries,
}

module _ {S : Type 0} where
  pub follow_term-WellFormed : (t : ℕ) (n : Node S) → WellFormed n → WellFormed (follow_term t n)
  unfolding follow_term
  follow_term-WellFormed t n w =
      if_rule WellFormed (ltb n.current_term t) (λ _. WellFormed-view n _ refl w) (λ _. w)

  pub follow_leader-WellFormed :
      (id : ℕ) (n : Node S) → WellFormed n → WellFormed (follow_leader id n)
  unfolding follow_leader
  follow_leader-WellFormed id n w = WellFormed-view n _ refl w

  pub settle_term-WellFormed : (c : Bool) (n : Node S) → WellFormed n → WellFormed (settle_term c n)
  unfolding settle_term
  settle_term-WellFormed c n w = if_rule WellFormed c (λ _. save_meta-WellFormed n w) (λ _. w)

  -- the end of a log
  abbrev pub end : Node S → ℕ
  end n = n.last_included_index + length n.log

  short_last :
      (n : Node S) (k : ℕ)
      → WellFormed n
      → k ≤ length n.log
      → index_or n.last_included_index (last? (take k n.log)) ≡ n.last_included_index + k
  short_last n k w b =
      Follows-last n.last_included_index (take k n.log)
        (take-Follows n.last_included_index k n.log w.follows)
      ∙ omega (arith, length-take k n.log b)

  pub drop_from-WellFormed :
      (i : ℕ) (n : Node S)
      → WellFormed n
      → n.last_included_index < i
      → i ≤ end n
      → WellFormed (drop_from i n)
  unfolding drop_from last_log_index Disk.truncate_log
  drop_from-WellFormed i n w low high =
      let last = short_last n (i - n.last_included_index - 1) w (omega arith) in
      let size = length-take (i - n.last_included_index - 1) n.log (omega arith) in
      record {
        follows =
            take-Follows n.last_included_index (i - n.last_included_index - 1) n.log w.follows;
        compacted = omega (arith, w.compacted, w.applied, last);
        applied = omega (arith, w.applied);
        committed = omega (arith, w.committed, last, size);
        saved =
            SameLog-on_disk _ n.last_included_index n.last_included_index n.log
              (take (i - n.last_included_index - 1) n.log) n.storage
              (λ d h. (rw h.0 (filter-truncate n.last_included_index i n.log w.follows low), h.1))
              w.saved;
      }

  pub drop_from-end :
      (i : ℕ) (n : Node S) → n.last_included_index < i → i ≤ end n → end (drop_from i n) ≡ i - 1
  unfolding drop_from
  drop_from-end i n low high =
      omega (arith, length-take (i - n.last_included_index - 1) n.log (omega arith))

  append_entry-end : (e : LogEntry) (n : Node S) → end (append_entry e n) ≡ end n + 1
  unfolding append_entry
  append_entry-end e n = omega (arith, length-append n.log (e ∷ []))

  -- what adding an entry that is at most one past the end leaves
  pub record Added (e : LogEntry) (n : Node S) : Type 0 where
    pub well_formed : WellFormed n
    pub reached : e.index ≤ end n

  place_entry-Added :
      (e : LogEntry) (found : Option LogEntry) (n : Node S)
      → WellFormed n
      → n.last_included_index < e.index
      → e.index ≤ end n + 1
      → entry_at n e.index ≡ found
      → Added e (place_entry e found n)
  place_entry-Added e none n w low b eq =
      let past = entry_at-none n e.index low eq in
      record {
        well_formed = append_entry-WellFormed e n w (omega arith);
        reached = omega (arith, append_entry-end e n);
      }
  place_entry-Added e (some x) n w low b eq =
      let high = (entry_at-bounds n e.index eq).1 in
      if_rule (Added e) (x.term == e.term) (λ _. record { well_formed = w; reached = high })
        (λ _. record {
          well_formed =
              append_entry-WellFormed e (drop_from e.index n)
                (drop_from-WellFormed e.index n w low high)
                (omega (arith, drop_from-end e.index n low high));
          reached =
              omega
                (arith, append_entry-end e (drop_from e.index n), drop_from-end e.index n low high);
        })

  pub add_entry-Added :
      (e : LogEntry) (n : Node S) → WellFormed n → e.index ≤ end n + 1 → Added e (add_entry e n)
  unfolding add_entry
  add_entry-Added e n w b =
      if_rule (Added e) (leb e.index n.last_included_index)
        (λ below. record { well_formed = w; reached = ground (arith, below) })
        (λ past. place_entry-Added e (entry_at n e.index) n w (ground (arith, past)) b refl)

  pub add_entries-WellFormed :
      (prev : ℕ) (l : List LogEntry) (n : Node S)
      → Follows prev l
      → prev ≤ end n
      → WellFormed n
      → WellFormed (add_entries l n)
  unfolding add_entries
  add_entries-WellFormed prev [] n f b w = w
  add_entries-WellFormed prev (e ∷ l) n f b w =
      let added = add_entry-Added e n w (omega (arith, f.0)) in
      add_entries-WellFormed (prev + 1) l (add_entry e n) f.1 (omega (arith, f.0, added.reached))
        added.well_formed

  prev_ok-end :
      (r : AppendEntriesRequest) (n : Node S)
      → WellFormed n
      → prev_ok r n ≡ true
      → r.prev_log_index ≤ end n
  unfolding prev_ok
  prev_ok-end r n w h = ground (arith, h, last_log_index-eq n w)

module _ {S : Type 0} (sm : StateMachine S) where
  pub follow_commit-WellFormed :
      (c : ℕ) (n : Node S) → WellFormed n → WellFormed (follow_commit sm c n)
  unfolding follow_commit
  follow_commit-WellFormed c n w =
      if_rule WellFormed (ltb n.commit_index c)
        (λ h.
          let later : n.commit_index < c = ltb→lt n.commit_index c h in
          let last = last_log_index-eq n w in
          apply_committed_entries-WellFormed sm _ (
            save_commit_index-WellFormed n (min c (last_log_index n)) w
              (omega (arith, w.applied, w.committed, last)) (omega (arith, last))))
        (λ _. w)

  -- `append_entries` keeps the invariant on every path, if the entries of the request follow each
  -- other from the entry before them.
  pub append_entries-WellFormed :
      (r : AppendEntriesRequest) (n : Node S)
      → Follows r.prev_log_index r.entries
      → WellFormed n
      → WellFormed (append_entries sm r n).0
  unfolding append_entries take_entries
  append_entries-WellFormed r n f w =
      let changed = ltb n.current_term r.term in
      let n1 = follow_term r.term n in
      let w1 : WellFormed n1 = follow_term-WellFormed r.term n w in
      let n2 = follow_leader r.leader_id n1 in
      let w2 : WellFormed n2 = follow_leader-WellFormed r.leader_id n1 w1 in
      if_rule (λ (a : Node S × AppendEntriesResponse). WellFormed a.0) (ltb r.term n1.current_term)
        (λ _. settle_term-WellFormed changed n1 w1)
        (λ _.
          if_rule (λ (a : Node S × AppendEntriesResponse). WellFormed a.0) (prev_ok r n2)
            (λ ok. follow_commit-WellFormed r.leader_commit _ (
              settle_term-WellFormed changed (add_entries r.entries n2) (
                add_entries-WellFormed r.prev_log_index r.entries n2 f (prev_ok-end r n2 w2 ok)
                  w2)))
            (λ _. settle_term-WellFormed changed n2 w2))
