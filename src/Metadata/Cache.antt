-- ===== src/Metadata/Cache.antt =====
-- oxidedb/metadata/cache.py: `RoutingCache`. The metadata group, the factory of handles, the clock and
-- `random.shuffle` are an `Env` over a world `W`; a read of the table may raise.
pub mod Addresses
pub mod Reads
pub mod Members
use oxide_db.Base.{
  ℕ, ◌+◌, Bool, true, false, ◌||◌, Option, none, some, List, [], ◌∷◌, ◌++◌, ◌==◌, ltb,
  if◌then◌else◌,
}
use oxide_db.Base.Bytes.{Bytes}
use oxide_db.Base.Dict.{get_key}
use oxide_db.Client.Routing.{elem}
use oxide_db.Metadata.Table.{
  Address, ShardPlacement, RoutingTable, leader_address, routes, shard, shard_for,
}
use oxide_db.Shard.Router.{RangeMap}

-- `read_table` is `client.table(refresh=True)`, where `none` raises
pub record Env (W C : Type 0) : Type 0 where
  pub read_table : W → Option RoutingTable × W
  pub get_client : ℕ → ℕ → Option Address → W → Option C × W
  pub forget_client : ℕ → ℕ → W → W
  pub monotonic : W → ℕ × W
  pub shuffle : List ℕ → W → List ℕ × W

pub record Cache (W : Type 0) : Type 0 where
  pub local_node_id : Option ℕ
  pub missing_leader_refresh_interval : ℕ
  pub last_read : ℕ
  pub held : Option RoutingTable
  pub refreshes : ℕ
  pub world : W

-- the code, on the state of the cache; `none` is an exception
abbrev pub M : Type 0 → Type 0 → Type 0
M W A = Cache W → Option A × Cache W

abbrev pub bind_result : {W A B : Type 0} → Option A × Cache W → (A → M W B) → Option B × Cache W
bind_result (none, c) f = (none, c)
bind_result (some a, c) f = f a c

infixl 5 ◌>>=◌
abbrev pub ◌>>=◌ : {W A B : Type 0} → M W A → (A → M W B) → M W B
◌>>=◌ m f c = bind_result (m c) f

abbrev pub pure : {W A : Type 0} → A → M W A
pure a c = (some a, c)

-- a call that does not raise
abbrev pub call : {W A : Type 0} → (W → A × W) → M W A
call f c = let (a, w) = f c.world in (some a, record c { world = w })

abbrev pub raising : {W A : Type 0} → (W → Option A × W) → M W A
raising f c = let (a, w) = f c.world in (a, record c { world = w })

-- `address is not None and address not in addresses`
unfoldable pub add_address : Option Address → List Address → List Address
unfolding elem
add_address none l = l
add_address (some a) l = if elem a l then l else l ++ a ∷ []

unfoldable pub add_nodes : List (ℕ × Address) → List ℕ → List Address → List Address
unfolding get_key add_address
add_nodes addresses [] l = l
add_nodes addresses (node_id ∷ nodes) l =
    add_nodes addresses nodes (add_address (get_key node_id addresses) l)

abbrev pub leader_first : Option Address → List Address
leader_first none = []
leader_first (some a) = a ∷ []

-- every address of the placement, the leader's first
unfoldable pub addresses_of : ShardPlacement → List Address
unfolding add_nodes leader_address
addresses_of p = add_nodes p.addresses p.nodes (leader_first (leader_address p))

unfoldable pub is_member : Option ℕ → List ℕ → Bool
is_member none nodes = false
is_member (some n) [] = false
is_member (some n) (node_id ∷ nodes) = n == node_id || is_member (some n) nodes

module _ {W C : Type 0} (env : Env W C) where
  -- the table, and when it was read
  unfoldable pub read : M W RoutingTable
  read = raising env.read_table >>= λ t c.
      let (now, w) = env.monotonic c.world in (some t, record c { last_read = now; world = w })

  unfoldable pub keep : RoutingTable → M W RoutingTable
  keep t c = (some t, record c { held = some t })

  unfoldable pub table : M W RoutingTable
  unfolding read keep
  table c = elim c.held [ none ↦ (read >>= keep) c | some t ↦ (some t, c) ]

  unfoldable pub refresh : M W RoutingTable
  unfolding read keep
  refresh c = (read >>= keep) (record c { refreshes = c.refreshes + 1 })

  unfoldable pub lookup : Bytes → M W (Option ShardPlacement)
  unfolding table shard_for
  lookup key = table >>= λ t. pure (shard_for key t)

  unfoldable pub client_of : ℕ → Option ShardPlacement → M W (Option C)
  unfolding leader_address
  client_of shard_id none = pure none
  client_of shard_id (some p) = elim p.leader_id [
    | none ↦ pure none
    | some leader_id ↦ call (env.get_client shard_id leader_id (leader_address p))
  ]

  unfoldable pub client_for : ℕ → M W (Option C)
  unfolding table get_key client_of
  client_for shard_id = table >>= λ t. client_of shard_id (shard shard_id t)

  -- unless the table was read less than an interval ago
  unfoldable pub refresh_if_it_could_have_changed : M W (Unit {0})
  unfolding refresh
  refresh_if_it_could_have_changed c =
      let (now, w) = env.monotonic c.world in
      let c' = record c { world = w } in
      elim (ltb now (c.last_read + c.missing_leader_refresh_interval)) [
        | true ↦ (some tt, c')
        | false ↦ bind_result (refresh c') (λ t. pure tt)
      ]

  unfoldable pub leader_for_shard : ℕ → M W (Option C)
  unfolding client_for refresh_if_it_could_have_changed
  leader_for_shard shard_id = client_for shard_id >>= λ client. elim client [
    | none ↦ refresh_if_it_could_have_changed >>= λ u. client_for shard_id
    | some h ↦ pure (some h)
  ]

  unfoldable pub leader_for_key : Bytes → M W (Option C)
  unfolding lookup leader_for_shard
  leader_for_key key = lookup key >>= λ p. elim p [
    | none ↦ pure none
    | some placement ↦ leader_for_shard placement.shard_id
  ]

  unfoldable pub replica_addresses : ℕ → M W (List Address)
  unfolding table get_key addresses_of
  replica_addresses shard_id =
      table >>= λ t. elim (shard shard_id t) [ none ↦ pure [] | some p ↦ pure (addresses_of p) ]

  -- the first of the nodes that the factory has a handle for
  unfoldable pub first_handle : ℕ → ShardPlacement → List ℕ → M W (Option C)
  unfolding get_key
  first_handle shard_id p [] = pure none
  first_handle shard_id p (node_id ∷ nodes) =
      call (env.get_client shard_id node_id (get_key node_id p.addresses)) >>= λ handle.
      elim handle [ none ↦ first_handle shard_id p nodes | some h ↦ pure (some h) ]

  unfoldable pub shuffled_handle : ℕ → ShardPlacement → M W (Option C)
  unfolding first_handle
  shuffled_handle shard_id p = call (env.shuffle p.nodes) >>= λ nodes. first_handle shard_id p nodes

  -- this machine's handle, if it is a member that has one
  unfoldable pub local_handle : ℕ → ShardPlacement → M W (Option C)
  unfolding is_member get_key
  local_handle shard_id p c = elim c.local_node_id [
    | none ↦ (some none, c)
    | some here ↦ elim (is_member (some here) p.nodes) [
      | false ↦ (some none, c)
      | true ↦ call (env.get_client shard_id here (get_key here p.addresses)) c
    ]
  ]

  unfoldable pub replica_of : ℕ → ShardPlacement → M W (Option C)
  unfolding local_handle shuffled_handle
  replica_of shard_id p = elim p.nodes [
    | [] ↦ pure none
    | n ∷ nodes ↦ local_handle shard_id p >>= λ here. elim here [
      | some h ↦ pure (some h)
      | none ↦ shuffled_handle shard_id p
    ]
  ]

  unfoldable pub any_replica_for : ℕ → M W (Option C)
  unfolding table get_key replica_of
  any_replica_for shard_id =
      table >>= λ t. elim (shard shard_id t) [ none ↦ pure none | some p ↦ replica_of shard_id p ]

  unfoldable pub ranges : M W RangeMap
  unfolding table
  ranges = table >>= λ t. pure (routes t)

  unfoldable pub invalidate : ℕ → M W (Unit {0})
  unfolding table get_key
  invalidate shard_id = table >>= λ t. elim (shard shard_id t) [
    | none ↦ pure tt
    | some p ↦ elim p.leader_id [
      | none ↦ pure tt
      | some leader_id ↦ call (λ w. (tt, env.forget_client shard_id leader_id w))
    ]
  ]
