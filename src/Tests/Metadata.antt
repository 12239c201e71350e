-- ===== src/Tests/Metadata.antt =====
-- The commands of the metadata group at concrete inputs.
use oxide_db.Base.{ℕ, ◌≡◌, ◌≢◌, refl, true, none, some, [], ◌∷◌, List, arith, if◌then◌else◌}
use oxide_db.Base.Bytes.{Bytes, bytes_lt}
use oxide_db.Base.Dict.{get_key, update}
use oxide_db.Metadata.Table.{RoutingTable, ShardPlacement, route_for, placed}
use oxide_db.Metadata.Commands.{Command, apply, apply_split, nodes_eq}
use oxide_db.Metadata.Commands.Valid.{IsValid, AreRanges}
use oxide_db.Metadata.Commands.Valid.Apply.{apply-IsValid}
use oxide_db.Metadata.Commands.Split.{route_for-apply_split}
use oxide_db.Metadata.Commands.Retry.{apply-retry}
use oxide_db.Metadata.Commands.Atomic.{IsAtomic, apply-IsAtomic}
use oxide_db.Metadata.Commands.Payload.{table_payload, parse_table}
use oxide_db.Metadata.Commands.Payload.Same.{SameTable, parse_table-table_payload}
use oxide_db.Raft.StateMachine.{succeeded}
use oxide_db.Shard.Router.{in_range}

abbrev empty_table : RoutingTable
empty_table = record { version = 0; shards = [] }

abbrev init : Command
init = Command.init_routes ((0, ([], 0xff ∷ [])) ∷ [])

started : RoutingTable
unfolding apply
started = (apply init empty_table).1

abbrev split : Command
split = Command.split 0 (100 ∷ []) 7 (1 ∷ 2 ∷ []) ((1, 65 ∷ []) ∷ (2, 66 ∷ []) ∷ [])

split_twice : (apply split (apply split started).1) ≡ (succeeded, (apply split started).1)
unfolding apply started nodes_eq bytes_lt
split_twice = refl

no_placements : (i : ℕ) (p : ShardPlacement) → get_key i [] ≢ some p
unfolding get_key
no_placements i p h = ground (arith, h)

empty-IsValid : IsValid []
empty-IsValid = record {
  distinct = tt;
  placements = λ i p h. absurd (no_placements i p h);
  apart = λ i j p q ne h g. absurd (no_placements i p h);
}

abbrev whole : List (ℕ × (Bytes × Bytes))
whole = (0, ([], 0xff ∷ [])) ∷ []

whole-AreRanges : AreRanges (update [] whole)
unfolding get_key update bytes_lt
whole-AreRanges = record {
  nonempty = λ i r h. ground (arith, h);
  apart = λ i j r s ne h g. absurd (ground (arith, h, g, ne));
}

apply-IsValid_example : IsValid (apply init empty_table).1.shards
apply-IsValid_example = apply-IsValid init empty_table whole-AreRanges empty-IsValid

started-IsValid : IsValid started.shards
unfolding started
started-IsValid = apply-IsValid_example

split_done : (apply split started).0.success ≡ true
unfolding apply started bytes_lt
split_done = refl

apply-retry_example : apply split (apply split started).1 ≡ (succeeded, (apply split started).1)
apply-retry_example = apply-retry split started tt split_done

abbrev only_shard : ShardPlacement
only_shard = placed 0 [] (0xff ∷ [])

no_seven : get_key 7 started.shards ≡ none
unfolding started apply get_key
no_seven = refl

shard_zero : get_key 0 started.shards ≡ some only_shard
unfolding started apply get_key
shard_zero = refl

split_succeeds : (apply_split 0 (100 ∷ []) 7 [] [] started).0.success ≡ true
unfolding apply_split apply started bytes_lt
split_succeeds = refl

route_for-apply_split_example :
    route_for (200 ∷ []) (apply_split 0 (100 ∷ []) 7 [] [] started).1
    ≡ (if in_range (200 ∷ []) (100 ∷ [], 0xff ∷ []) then 7 else route_for (200 ∷ []) started)
route_for-apply_split_example =
    route_for-apply_split 0 (100 ∷ []) 7 [] [] only_shard started (200 ∷ [])
      started-IsValid.distinct no_seven shard_zero split_succeeds

parse_table-table_payload_example : SameTable (parse_table (table_payload started)) started
parse_table-table_payload_example = parse_table-table_payload started started-IsValid

apply-IsAtomic_example : IsAtomic started (apply split started)
apply-IsAtomic_example = apply-IsAtomic split started
