-- ===== src/Metadata/Cache/Reads.antt =====
-- oxidedb/metadata/cache.py: how often a cache that holds a table reads it again.
use oxide_db.Base.{
  Bool, true, false, ℕ, ◌+◌, ◌≤◌, ◌≡◌, refl, ◌∙◌, ap, Option, none, some, ltb, inl, inr, ◌⊎◌,
  Option-cases, arith,
}
use oxide_db.Metadata.Table.{ShardPlacement, RoutingTable, shard}
use oxide_db.Metadata.Cache.{
  Env, Cache, M, bind_result, pure, ◌>>=◌, keep, table, read, refresh, client_of, client_for,
  refresh_if_it_could_have_changed, leader_for_shard,
}

-- any environment, with a count of the times that the table was read from the group
unfoldable pub counting : {W C : Type 0} → Env W C → Env (ℕ × W) C
counting env = record {
  read_table = λ w. let (r, w') = env.read_table w.1 in (r, (w.0 + 1, w'));
  get_client = λ s n a w. let (r, w') = env.get_client s n a w.1 in (r, (w.0, w'));
  forget_client = λ s n w. (w.0, env.forget_client s n w.1);
  monotonic = λ w. let (r, w') = env.monotonic w.1 in (r, (w.0, w'));
  shuffle = λ l w. let (r, w') = env.shuffle l w.1 in (r, (w.0, w'));
}

abbrev pub reads : {W : Type 0} → Cache (ℕ × W) → ℕ
reads c = c.world.0

-- the table was not read, and is the one that was held, with the time of its reading
pub record Kept {W : Type 0} (c c' : Cache (ℕ × W)) : Type 0 where
  pub count : reads c' ≡ reads c
  pub time : c'.last_read ≡ c.last_read
  pub table : c'.held ≡ c.held

Kept-trans : {W : Type 0} (a b c : Cache (ℕ × W)) → Kept a b → Kept b c → Kept a c
Kept-trans a b c h k = record {
  count = k.count ∙ h.count;
  time = k.time ∙ h.time;
  table = k.table ∙ h.table;
}

elim-held :
    {W : Type 0} (P : Option RoutingTable × Cache W → Type 0) (x : Option RoutingTable × Cache W)
    (o : Option RoutingTable) (t : RoutingTable) (c : Cache W)
    → o ≡ some t
    → P (some t, c)
    → P (elim o [ none ↦ x | some u ↦ (some u, c) ])
elim-held P x none t c e h = absurd (ground (arith, e))
elim-held P x (some u) t c e h = let same : u ≡ t = ground (arith, e) in rw same h

elim_due :
    {A : Type 0} (P : A → Type 0) (x y : A) (b : Bool)
    → (b ≡ true → P x)
    → (b ≡ false → P y)
    → P (elim b [ true ↦ x | false ↦ y ])
elim_due P x y true h g = h refl
elim_due P x y false h g = g refl

module _ {W C : Type 0} (env : Env W C) where
  -- the table that is held is old enough to be read again
  abbrev pub IsDue : Cache (ℕ × W) → Type 0
  IsDue c = c.last_read + c.missing_leader_refresh_interval ≤ (env.monotonic c.world.1).0

  -- the table was read once more, and either that raised or the clock was noted behind the reading
  pub record ReadOnce {A : Type 0} (c : Cache (ℕ × W)) (x : Option A × Cache (ℕ × W)) : Type 0 where
    pub count : reads x.1 ≡ reads c + 1
    pub time : (x.0 ≡ none) ⊎ ((w : W) × (x.1.last_read ≡ (env.monotonic (env.read_table w).1).0))

  client_of-Kept :
      (s : ℕ) (o : Option ShardPlacement) (c : Cache (ℕ × W))
      → Kept c (client_of (counting env) s o c).1
  unfolding client_of counting
  client_of-Kept s none c = record { count = refl; time = refl; table = refl }
  client_of-Kept s (some p) c = elim (Option-cases p.leader_id) [
    | inl e ↦ rw (e, client_of) (record { count = refl; time = refl; table = refl })
    | inr (n, e) ↦ rw (e, client_of) (record { count = refl; time = refl; table = refl })
  ]

  client_for-Kept :
      (s : ℕ) (t : RoutingTable) (c : Cache (ℕ × W))
      → c.held ≡ some t
      → Kept c (client_for (counting env) s c).1
  unfolding client_for table
  client_for-Kept s t c h =
      elim-held
        (λ (x : Option RoutingTable × Cache (ℕ × W)).
          Kept c (bind_result x (λ u. client_of (counting env) s (shard s u))).1)
        _ c.held t c h (client_of-Kept s (shard s t) c)

  -- a lookup in a table that was read just now
  after_read : ℕ → Option RoutingTable × Cache (ℕ × W) → Option (Option C) × Cache (ℕ × W)
  after_read s x = bind_result x (λ t. client_for (counting env) s)

  stamp : RoutingTable → M (ℕ × W) RoutingTable
  stamp t c =
      let (now, w) = (counting env).monotonic c.world in
      (some t, record c { last_read = now; world = w })

  stamped-ReadOnce :
      (s : ℕ) (c c1 : Cache (ℕ × W)) (w : W) (o : Option RoutingTable)
      → reads c1 ≡ reads c + 1
      → c1.world.1 ≡ (env.read_table w).1
      → ReadOnce c (after_read s (bind_result (bind_result (o, c1) stamp) (keep (counting env))))
  unfolding after_read stamp keep counting
  stamped-ReadOnce s c c1 w none n e = record { count = n; time = inl refl }
  stamped-ReadOnce s c c1 w (some t) n e =
      let c2 = record c1 {
        held = some t;
        last_read = (env.monotonic c1.world.1).0;
        world = (c1.world.0, (env.monotonic c1.world.1).1);
      } in
      let k = client_for-Kept s t c2 refl in
      record { count = k.count ∙ n; time = inr (w, k.time ∙ ap (λ v. (env.monotonic v).0) e) }

  refreshed-ReadOnce :
      (s : ℕ) (c : Cache (ℕ × W)) → ReadOnce c (after_read s (refresh (counting env) c))
  unfolding refresh read keep after_read counting stamp
  refreshed-ReadOnce s c =
      let c1 = record c {
        refreshes = c.refreshes + 1;
        world = (c.world.0 + 1, (env.read_table c.world.1).1);
      } in
      stamped-ReadOnce s c c1 c.world.1 (env.read_table c.world.1).0 refl refl

  or_again : ℕ → Option C → M (ℕ × W) (Option C)
  or_again s none =
      refresh_if_it_could_have_changed (counting env) >>= λ u. client_for (counting env) s
  or_again s (some h) = pure (some h)

  -- what a lookup that found no handle comes to
  abbrev Retried : Cache (ℕ × W) → Option (Option C) × Cache (ℕ × W) → Type 0
  Retried c x = Kept c x.1 ⊎ (IsDue c × ReadOnce c x)

  skip :
      {A : Type 0} (x : Option RoutingTable × Cache (ℕ × W)) (f : M (ℕ × W) A)
      → bind_result (bind_result x (λ t. pure tt)) (λ u. f) ≡ bind_result x (λ t. f)
  skip (none, c) f = refl
  skip (some t, c) f = refl

  again-Retried :
      (s : ℕ) (t : RoutingTable) (c : Cache (ℕ × W))
      → c.held ≡ some t
      → Retried c (or_again s none c)
  unfolding or_again refresh_if_it_could_have_changed counting after_read
  again-Retried s t c h =
      let (now, w) = (counting env).monotonic c.world in
      let c' = record c { world = w } in
      elim_due
        (λ (x : Option (Unit {0}) × Cache (ℕ × W)).
          Retried c (bind_result x (λ u. client_for (counting env) s)))
        (some tt, c') (bind_result (refresh (counting env) c') (λ u. pure tt))
        (ltb now (c.last_read + c.missing_leader_refresh_interval))
        (λ recent.
          let k = client_for-Kept s t c' h in
          inl (record { count = k.count; time = k.time; table = k.table }))
        (λ due.
          let once = refreshed-ReadOnce s c' in
          inr (
            ground (arith, due),
            rw (skip (refresh (counting env) c') (client_for (counting env) s))
                (record { count = once.count; time = once.time }),
          ))

  found-Retried :
      (s : ℕ) (t : RoutingTable) (c : Cache (ℕ × W)) (x : Option (Option C) × Cache (ℕ × W))
      → c.held ≡ some t
      → Kept c x.1
      → Kept c (bind_result x (or_again s)).1
        ⊎ ((x.0 ≡ some none) × (IsDue x.1 × ReadOnce c (bind_result x (or_again s))))
  unfolding or_again
  found-Retried s t c (none, c1) h k = inl k
  found-Retried s t c (some (some g), c1) h k = inl k
  found-Retried s t c (some none, c1) h k = elim (again-Retried s t c1 (k.table ∙ h)) [
    | inl j ↦ inl (Kept-trans c c1 (or_again s none c1).1 k j)
    | inr (due, once) ↦
        inr (refl, (due, record { count = once.count ∙ ap (λ m. m + 1) k.count; time = once.time }))
  ]

  -- A cache that holds a table and looks up the leader of a shard reads the table once at most. It does
  -- not read it where the table gives a handle on a leader, or was read less than an interval ago; the
  -- table and the time of its reading are then kept. Where it reads the table, either the
  -- reading raised, or the time of it is what the clock showed when it was done.
  pub leader_for_shard-reads :
      (s : ℕ) (t : RoutingTable) (c : Cache (ℕ × W))
      → c.held ≡ some t
      → Kept c (leader_for_shard (counting env) s c).1
        ⊎ (((client_for (counting env) s c).0 ≡ some none)
            × (IsDue (client_for (counting env) s c).1
                × ReadOnce c (leader_for_shard (counting env) s c)))
  unfolding leader_for_shard or_again
  leader_for_shard-reads s t c h =
      found-Retried s t c (client_for (counting env) s c) h (client_for-Kept s t c h)
