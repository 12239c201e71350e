-- ===== src/Metadata/Table.antt =====
-- oxidedb/metadata/service.py, the table: `ShardPlacement` and `RoutingTable`. A table and the state
-- of the machine that keeps it are the same record. The addresses are texts, as their bytes.
use oxide_db.Base.{ℕ, Option, none, some, List, [], ◌∷◌}
use oxide_db.Base.Bytes.{Bytes}
use oxide_db.Base.Dict.{get_key}
use oxide_db.Shard.Router.{RangeMap, locate}

abbrev pub Address : Type 0
Address = Bytes

pub record ShardPlacement : Type 0 where
  pub shard_id : ℕ
  pub start : Bytes
  pub end : Bytes
  pub nodes : List ℕ
  pub addresses : List (ℕ × Address)
  pub leader_id : Option ℕ
  pub leader_term : ℕ

abbrev pub Shards : Type 0
Shards = List (ℕ × ShardPlacement)

pub record RoutingTable : Type 0 where
  pub version : ℕ
  pub shards : Shards

-- a shard that nothing but the range is known of
abbrev pub placed : ℕ → Bytes → Bytes → ShardPlacement
placed shard_id start end = record {
  shard_id = shard_id;
  start = start;
  end = end;
  nodes = [];
  addresses = [];
  leader_id = none;
  leader_term = 0;
}

unfoldable pub leader_address : ShardPlacement → Option Address
unfolding get_key
leader_address p = elim p.leader_id [ none ↦ none | some node_id ↦ get_key node_id p.addresses ]

unfoldable pub ranges_of : Shards → RangeMap
ranges_of [] = []
ranges_of ((shard_id, p) ∷ l) = (shard_id, (p.start, p.end)) ∷ ranges_of l

abbrev pub routes : RoutingTable → RangeMap
routes t = ranges_of t.shards

unfoldable pub route_for : Bytes → RoutingTable → ℕ
unfolding locate ranges_of
route_for key t = locate (routes t) key

abbrev pub shard : ℕ → RoutingTable → Option ShardPlacement
shard shard_id t = get_key shard_id t.shards

unfoldable pub shard_for : Bytes → RoutingTable → Option ShardPlacement
unfolding route_for get_key
shard_for key t = shard (route_for key t) t
