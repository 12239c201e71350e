-- ===== src/Shard/Router.antt =====
-- oxidedb/shard/router.py: the range map, `locate`, and `ShardRouter`.
pub mod Default
use oxide_db.Base.{
  ℕ, zero, suc, ◌+◌, ◌-◌, ◌*◌, ◌/◌, Bool, true, false, ◌&&◌, Option, none, some, List, [], ◌∷◌, map,
  ltb, leb, ◌==◌, if◌then◌else◌,
}
use oxide_db.Base.Bytes.{Bytes, bytes_lt, bytes_le}
use oxide_db.Base.Dict.{set_key, get_key}

abbrev pub Range : Type 0
Range = Bytes × Bytes

-- the shards with their ranges, in the dictionary's order
abbrev pub RangeMap : Type 0
RangeMap = List (ℕ × Range)

-- the loop of `default_range_map`, for the `left` shards from `i` on
unfoldable pub ranges : ℕ → ℕ → ℕ → ℕ → RangeMap
ranges num_shards chunk i zero = []
ranges num_shards chunk i (suc left) =
    let rest = ranges num_shards chunk (i + 1) left in
    let end = if ltb i (num_shards - 1) then ((i + 1) * chunk) ∷ [] else 0xff ∷ [] in
    (i, ((i * chunk) ∷ [], end)) ∷ rest

unfoldable pub default_range_map : ℕ → RangeMap
unfolding ranges
default_range_map num_shards =
    if leb num_shards 1
    then (0, ([], 0xff ∷ [])) ∷ []
    else ranges num_shards (256 / num_shards) 0 num_shards

-- `start <= key < end`
abbrev pub in_range : Bytes → Range → Bool
in_range key r = bytes_le r.0 key && bytes_lt key r.1

unfoldable pub locate : RangeMap → Bytes → ℕ
locate [] key = 0
locate ((shard_id, r) ∷ rest) key =
    let found = locate rest key in if in_range key r then shard_id else found

pub record ShardInfo : Type 0 where
  pub shard_id : ℕ
  pub nodes : List ℕ
  pub leader_id : Option ℕ

-- `A` is the type of the addresses, strings that the router only hands on
pub record ShardRouter (A : Type 0) : Type 0 where
  pub range_map : RangeMap
  pub shard_map : List (ℕ × ShardInfo)
  pub node_address_map : List (ℕ × A)

abbrev leader_of : Option ShardInfo → Option ℕ
leader_of none = none
leader_of (some s) = s.leader_id

-- `if leader_id:`, which 0 does not pass
abbrev truthy : Option ℕ → Option ℕ
truthy none = none
truthy (some zero) = none
truthy (some (suc i)) = some (suc i)

module _ {A : Type 0} where
  unfoldable pub add_shard : ℕ → List ℕ → Option ℕ → ShardRouter A → ShardRouter A
  unfolding set_key
  add_shard shard_id nodes leader_id r = record r {
    shard_map =
        set_key shard_id (record { shard_id = shard_id; nodes = nodes; leader_id = leader_id })
          r.shard_map;
  }

  unfoldable pub add_node_address : ℕ → A → ShardRouter A → ShardRouter A
  unfolding set_key
  add_node_address node_id address r = record r {
    node_address_map = set_key node_id address r.node_address_map;
  }

  unfoldable pub get_node_address : ℕ → ShardRouter A → Option A
  unfolding get_key
  get_node_address node_id r = get_key node_id r.node_address_map

  unfoldable pub get_shard_id : Bytes → ShardRouter A → ℕ
  unfolding locate
  get_shard_id key r = locate r.range_map key

  unfoldable pub get_leader_for_key : Bytes → ShardRouter A → Option ℕ
  unfolding get_shard_id get_key
  get_leader_for_key key r = leader_of (get_key (get_shard_id key r) r.shard_map)

  abbrev address_of : Option ℕ → ShardRouter A → Option A
  address_of none r = none
  address_of (some leader_id) r = get_node_address leader_id r

  unfoldable pub get_leader_address_for_key : Bytes → ShardRouter A → Option A
  unfolding get_leader_for_key get_node_address
  get_leader_address_for_key key r = address_of (truthy (get_leader_for_key key r)) r

  abbrev with_leader : ℕ → ℕ → Option ShardInfo → ShardRouter A → ShardRouter A
  with_leader shard_id leader_id none r = r
  with_leader shard_id leader_id (some s) r = record r {
    shard_map = set_key shard_id (record s { leader_id = some leader_id }) r.shard_map;
  }

  unfoldable pub update_shard_leader : ℕ → ℕ → ShardRouter A → ShardRouter A
  unfolding set_key get_key
  update_shard_leader shard_id leader_id r =
      with_leader shard_id leader_id (get_key shard_id r.shard_map) r
