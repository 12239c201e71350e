-- ===== src/Metadata/Commands.antt =====
-- oxidedb/metadata/service.py: `MetadataStateMachine`, with the handler of every command.
pub mod Valid
pub mod Split
pub mod Retry
pub mod Atomic
pub mod Payload
use oxide_db.Base.{
  ℕ, ◌+◌, Bool, true, false, not, ◌&&◌, ◌||◌, Option, none, some, List, [], ◌∷◌, leb, ◌==◌,
  if◌then◌else◌, is_some,
}
use oxide_db.Base.Bytes.{Bytes, bytes_eq, bytes_lt}
use oxide_db.Base.Dict.{set_key, get_key, update, dict_eq}
use oxide_db.Metadata.Table.{Address, ShardPlacement, Shards, RoutingTable, placed}
use oxide_db.Raft.StateMachine.{ApplyResult, succeeded, failure}

-- A command as `msgpack.unpackb` and the conversions of its fields hand it over. What cannot be
-- read, or lacks a field, raises.
pub data Command : Type 0 where
  init_routes : List (ℕ × (Bytes × Bytes)) → Command
  set_shard_nodes : ℕ → List ℕ → List (ℕ × Address) → Command
  report_leader : ℕ → ℕ → ℕ → Command
  split : ℕ → Bytes → ℕ → List ℕ → List (ℕ × Address) → Command
  move_shard : ℕ → List ℕ → List ℕ → List (ℕ × Address) → Command
  unknown : Command
  unreadable : Command

unfoldable pub contains_node : ℕ → List ℕ → Bool
contains_node n [] = false
contains_node n (m ∷ l) = (n == m) || contains_node n l

unfoldable pub nodes_eq : List ℕ → List ℕ → Bool
nodes_eq [] [] = true
nodes_eq [] (n ∷ l) = false
nodes_eq (m ∷ k) [] = false
nodes_eq (m ∷ k) (n ∷ l) = (m == n) && nodes_eq k l

abbrev pub is_empty : {A : Type 0} → List A → Bool
is_empty [] = true
is_empty (x ∷ l) = false

-- the answer of a handler, and the table after it
abbrev pub Handler : Type 0
Handler = RoutingTable → ApplyResult × RoutingTable

abbrev pub refuse : ℕ → Handler
refuse code t = (failure code, t)

abbrev pub store : Shards → Handler
store shards t = (succeeded, record { version = t.version + 1; shards = shards })

-- `{shard_id: ShardPlacement(shard_id, start, end) for ...}`
unfoldable pub place_all : List (ℕ × (Bytes × Bytes)) → Shards
place_all [] = []
place_all ((shard_id, (start, end)) ∷ l) = (shard_id, placed shard_id start end) ∷ place_all l

unfoldable pub apply_init_routes : List (ℕ × (Bytes × Bytes)) → Handler
unfolding update place_all
apply_init_routes ranges t =
    if is_empty t.shards then store (place_all (update [] ranges)) t else refuse 3 t

-- the leader that is left when the replica set becomes `nodes`
abbrev leader_stays : Option ℕ → List ℕ → Bool
leader_stays none nodes = true
leader_stays (some leader_id) nodes = contains_node leader_id nodes

unfoldable pub with_nodes : List ℕ → List (ℕ × Address) → ShardPlacement → ShardPlacement
unfolding contains_node
with_nodes nodes addresses p =
    let q : ShardPlacement = record p { nodes = nodes; addresses = addresses } in
    if leader_stays p.leader_id nodes then q else record q { leader_id = none; leader_term = 0 }

unfoldable pub apply_set_shard_nodes : ℕ → List ℕ → List (ℕ × Address) → Handler
unfolding get_key set_key with_nodes update
apply_set_shard_nodes shard_id nodes addresses t = elim (get_key shard_id t.shards) [
  | none ↦ refuse 4 t
  | some p ↦ store (set_key shard_id (with_nodes nodes (update [] addresses) p) t.shards) t
]

-- `placement.leader_id is not None and term <= placement.leader_term`
abbrev pub is_stale : ℕ → ShardPlacement → Bool
is_stale term p = is_some p.leader_id && leb term p.leader_term

unfoldable pub report_on : ℕ → ℕ → ℕ → ShardPlacement → Handler
unfolding contains_node set_key
report_on shard_id node_id term p t =
    if not (is_empty p.nodes) && not (contains_node node_id p.nodes)
    then refuse 5 t
    else if is_stale term p
    then refuse 6 t
    else store
        (set_key shard_id (record p { leader_id = some node_id; leader_term = term }) t.shards) t

unfoldable pub apply_report_leader : ℕ → ℕ → ℕ → Handler
unfolding get_key report_on
apply_report_leader shard_id node_id term t = elim (get_key shard_id t.shards) [
  | none ↦ refuse 4 t
  | some p ↦ report_on shard_id node_id term p t
]

-- `left.end == split_key and right.start == split_key`, of a left half that is there
abbrev split_there : Option ShardPlacement → ShardPlacement → Bytes → Bool
split_there none right split_key = false
split_there (some left) right split_key =
    bytes_eq left.end split_key && bytes_eq right.start split_key

unfoldable pub split_again : ℕ → ShardPlacement → Bytes → List ℕ → Handler
unfolding get_key bytes_eq nodes_eq
split_again shard_id right split_key nodes t =
    if split_there (get_key shard_id t.shards) right split_key
    then (if nodes_eq right.nodes nodes then (succeeded, t) else refuse 10 t)
    else refuse 9 t

-- `other.start < half.end and half.start < other.end`
abbrev pub overlaps : ShardPlacement → ShardPlacement → Bool
overlaps other half = bytes_lt other.start half.end && bytes_lt half.start other.end

-- the loop over the other shards, over both halves
unfoldable pub any_overlap : ℕ → ShardPlacement → ShardPlacement → Shards → Bool
unfolding bytes_lt
any_overlap shard_id left right [] = false
any_overlap shard_id left right ((other_id, other) ∷ l) =
    (not (other_id == shard_id) && (overlaps other left || overlaps other right))
    || any_overlap shard_id left right l

abbrev pub left_half : ℕ → Bytes → ShardPlacement → ShardPlacement
left_half shard_id split_key p = record p { shard_id = shard_id; end = split_key }

abbrev pub right_half : ℕ → Bytes → List ℕ → List (ℕ × Address) → ShardPlacement → ShardPlacement
right_half new_shard_id split_key nodes addresses p = record {
  shard_id = new_shard_id;
  start = split_key;
  end = p.end;
  nodes = nodes;
  addresses = addresses;
  leader_id = none;
  leader_term = 0;
}

unfoldable pub split_shard : ℕ → Bytes → ℕ → List ℕ → List (ℕ × Address) → ShardPlacement → Handler
unfolding bytes_lt any_overlap set_key
split_shard shard_id split_key new_shard_id nodes addresses p t =
    let left = left_half shard_id split_key p in
    let right = right_half new_shard_id split_key nodes addresses p in
    if not (bytes_lt p.start split_key && bytes_lt split_key p.end)
    then refuse 8 t
    else if any_overlap shard_id left right t.shards
    then refuse 11 t
    else store (set_key new_shard_id right (set_key shard_id left t.shards)) t

unfoldable pub apply_split : ℕ → Bytes → ℕ → List ℕ → List (ℕ × Address) → Handler
unfolding get_key split_again split_shard update
apply_split shard_id split_key new_shard_id nodes addresses t =
    elim (get_key new_shard_id t.shards) [
      | some right ↦ split_again shard_id right split_key nodes t
      | none ↦ elim (get_key shard_id t.shards) [
        | none ↦ refuse 7 t
        | some p ↦ split_shard shard_id split_key new_shard_id nodes (update [] addresses) p t
      ]
    ]

-- `len(set(nodes)) != len(nodes)`
unfoldable pub repeats : List ℕ → Bool
unfolding contains_node
repeats [] = false
repeats (n ∷ l) = contains_node n l || repeats l

-- `any(node_id not in addresses for node_id in nodes)`
unfoldable pub lacks_address : List (ℕ × Address) → List ℕ → Bool
unfolding get_key
lacks_address addresses [] = false
lacks_address addresses (n ∷ l) = not (is_some (get_key n addresses)) || lacks_address addresses l

-- `set(nodes) & set(from_nodes)`
unfoldable pub meets : List ℕ → List ℕ → Bool
unfolding contains_node
meets [] l = false
meets (n ∷ k) l = contains_node n l || meets k l

unfoldable pub move_on : ℕ → List ℕ → List ℕ → List (ℕ × Address) → ShardPlacement → Handler
unfolding repeats lacks_address nodes_eq dict_eq bytes_eq meets set_key
move_on shard_id from_nodes nodes addresses p t =
    if is_empty nodes || repeats nodes || lacks_address addresses nodes
    then refuse 13 t
    else if nodes_eq p.nodes nodes
    then (if dict_eq bytes_eq p.addresses addresses then (succeeded, t) else refuse 16 t)
    else if not (nodes_eq p.nodes from_nodes)
    then refuse 14 t
    else if meets nodes from_nodes
    then refuse 15 t
    else store
        (set_key shard_id
          (record p { nodes = nodes; addresses = addresses; leader_id = none; leader_term = 0 })
          t.shards)
        t

unfoldable pub apply_move_shard : ℕ → List ℕ → List ℕ → List (ℕ × Address) → Handler
unfolding get_key move_on update
apply_move_shard shard_id from_nodes nodes addresses t = elim (get_key shard_id t.shards) [
  | none ↦ refuse 12 t
  | some p ↦ move_on shard_id from_nodes nodes (update [] addresses) p t
]

unfoldable pub apply : Command → Handler
unfolding apply_init_routes apply_set_shard_nodes apply_report_leader apply_split apply_move_shard
apply (init_routes ranges) = apply_init_routes ranges
apply (set_shard_nodes shard_id nodes addresses) = apply_set_shard_nodes shard_id nodes addresses
apply (report_leader shard_id node_id term) = apply_report_leader shard_id node_id term
apply (split shard_id split_key new_shard_id nodes addresses) =
    apply_split shard_id split_key new_shard_id nodes addresses
apply (move_shard shard_id from_nodes nodes addresses) =
    apply_move_shard shard_id from_nodes nodes addresses
apply unknown = refuse 1
apply unreadable = refuse 2
