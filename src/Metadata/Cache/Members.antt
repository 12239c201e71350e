-- ===== src/Metadata/Cache/Members.antt =====
-- oxidedb/metadata/cache.py: whose handle `any_replica_for` gives.
use oxide_db.Base.{
  ℕ, ◌≡◌, refl, true, Option, none, some, List, [], ◌∷◌, inl, inr, Bool-cases, Option-cases, arith,
}
use oxide_db.Base.Dict.{get_key}
use oxide_db.Metadata.Table.{ShardPlacement, RoutingTable, shard}
use oxide_db.Metadata.Cache.{
  Env, Cache, M, bind_result, pure, call, is_member, table, first_handle, shuffled_handle,
  local_handle, replica_of, any_replica_for,
}
use oxide_db.Metadata.Cache.Addresses.{bind_result-value}

elim-nodes :
    {A : Type 0} (P : A → Type 0) (x y : A) (nodes : List ℕ)
    → P x
    → P y
    → P (elim nodes [ [] ↦ x | n ∷ l ↦ y ])
elim-nodes P x y [] h g = h
elim-nodes P x y (n ∷ l) h g = g

module _ {W C : Type 0} (env : Env W C) where
  -- the handle that the factory gives, in some state of the world, for a node of the list
  abbrev pub IsHandle : ℕ → ShardPlacement → List ℕ → C → Type 0
  IsHandle s p nodes h =
      (n : ℕ) × ((w : W) × ((is_member (some n) nodes ≡ true)
          × ((env.get_client s n (get_key n p.addresses) w).0 ≡ some h)))

  -- a lookup that raised or found nothing, or the handle of a node of the list
  abbrev pub FromMember : ℕ → ShardPlacement → List ℕ → Option (Option C) → Type 0
  FromMember s p nodes none = Unit {0}
  FromMember s p nodes (some none) = Unit {0}
  FromMember s p nodes (some (some h)) = IsHandle s p nodes h

  wider :
      (s : ℕ) (p : ShardPlacement) (l m : List ℕ) (r : Option (Option C))
      → ((n : ℕ) → is_member (some n) l ≡ true → is_member (some n) m ≡ true)
      → FromMember s p l r
      → FromMember s p m r
  wider s p l m none f h = tt
  wider s p l m (some none) f h = tt
  wider s p l m (some (some k)) f (n, (w, (i, e))) = (n, (w, (f n i, e)))

  given :
      (s : ℕ) (p : ShardPlacement) (l : List ℕ) (n : ℕ) (w : W) (o : Option C)
      → is_member (some n) l ≡ true
      → (env.get_client s n (get_key n p.addresses) w).0 ≡ o
      → FromMember s p l (some o)
  given s p l n w none i e = tt
  given s p l n w (some h) i e = (n, (w, (i, e)))

  -- the second lookup is made where the first found nothing
  or_else : M W (Option C) → Option C → M W (Option C)
  or_else m none = m
  or_else m (some h) = pure (some h)

  or_else-FromMember :
      (s : ℕ) (p : ShardPlacement) (l : List ℕ) (x : Option (Option C) × Cache W)
      (m : M W (Option C))
      → FromMember s p l x.0
      → FromMember s p l (m x.1).0
      → FromMember s p l (bind_result x (or_else m)).0
  unfolding or_else
  or_else-FromMember s p l (none, c) m h g = tt
  or_else-FromMember s p l (some none, c) m h g = g
  or_else-FromMember s p l (some (some k), c) m h g = h

  first_handle-FromMember :
      (s : ℕ) (p : ShardPlacement) (nodes : List ℕ) (c : Cache W)
      → FromMember s p nodes (first_handle env s p nodes c).0
  unfolding first_handle or_else is_member
  first_handle-FromMember s p [] c = tt
  first_handle-FromMember s p (n ∷ nodes) c =
      let x = call (env.get_client s n (get_key n p.addresses)) c in
      or_else-FromMember s p (n ∷ nodes) x (first_handle env s p nodes)
        (given s p (n ∷ nodes) n c.world (env.get_client s n (get_key n p.addresses) c.world).0
          (ground arith) refl)
        (wider s p nodes (n ∷ nodes) (first_handle env s p nodes x.1).0 (λ k i. ground (arith, i))
          (first_handle-FromMember s p nodes x.1))

  module _
      (spread : (l : List ℕ) (w : W) (n : ℕ)
        → is_member (some n) (env.shuffle l w).0 ≡ true
        → is_member (some n) l ≡ true) where
    shuffled_handle-FromMember :
        (s : ℕ) (p : ShardPlacement) (c : Cache W)
        → FromMember s p p.nodes (shuffled_handle env s p c).0
    unfolding shuffled_handle
    shuffled_handle-FromMember s p c =
        let x = call (env.shuffle p.nodes) c in
        wider s p (env.shuffle p.nodes c.world).0 p.nodes
          (first_handle env s p (env.shuffle p.nodes c.world).0 x.1).0 (spread p.nodes c.world)
          (first_handle-FromMember s p (env.shuffle p.nodes c.world).0 x.1)

    local_handle-FromMember :
        (s : ℕ) (p : ShardPlacement) (c : Cache W)
        → FromMember s p p.nodes (local_handle env s p c).0
    unfolding local_handle
    local_handle-FromMember s p c = elim (Option-cases c.local_node_id) [
      | inl e ↦ rw (e, local_handle) tt
      | inr (n, e) ↦ elim (Bool-cases (is_member (some n) p.nodes)) [
        | inr other ↦ rw (e, local_handle) (rw other tt)
        | inl i ↦
            rw (e, local_handle)
              (rw i (
                given s p p.nodes n c.world (env.get_client s n (get_key n p.addresses) c.world).0 i
                  refl))
      ]
    ]

    replica_of-FromMember :
        (s : ℕ) (p : ShardPlacement) (c : Cache W) → FromMember s p p.nodes (replica_of env s p c).0
    unfolding replica_of or_else
    replica_of-FromMember s p c =
        let x = local_handle env s p c in
        let lookup : M W (Option C) =
          λ c'. bind_result (local_handle env s p c') (or_else (shuffled_handle env s p)) in
        elim-nodes (λ (m : M W (Option C)). FromMember s p p.nodes (m c).0) (pure none) lookup
          p.nodes tt
          (or_else-FromMember s p p.nodes x (shuffled_handle env s p)
            (local_handle-FromMember s p c) (shuffled_handle-FromMember s p x.1))

    -- where the table has no shard, nobody is read from
    abbrev pub FromShard : ℕ → Option ShardPlacement → Option (Option C) → Type 0
    FromShard s none r = r ≡ some none
    FromShard s (some p) r = FromMember s p p.nodes r

    replica_if : ℕ → Option ShardPlacement → M W (Option C)
    replica_if s none = pure none
    replica_if s (some p) = replica_of env s p

    replica_if-FromShard :
        (s : ℕ) (o : Option ShardPlacement) (c : Cache W) → FromShard s o (replica_if s o c).0
    unfolding replica_if
    replica_if-FromShard s none c = refl
    replica_if-FromShard s (some p) c = replica_of-FromMember s p c

    -- The handle that `any_replica_for` gives is the factory's for a node of the shard, at the address
    -- that the table has for that node, where shuffling the nodes adds none. There is no handle for a
    -- shard that the table does not have.
    pub any_replica_for-FromShard :
        (s : ℕ) (t : RoutingTable) (c : Cache W)
        → (table env c).0 ≡ some t
        → FromShard s (shard s t) (any_replica_for env s c).0
    unfolding any_replica_for replica_if
    any_replica_for-FromShard s t c e =
        rw (bind_result-value (table env c) (λ u. replica_if s (shard s u)) t e)
          (replica_if-FromShard s (shard s t) (table env c).1)
