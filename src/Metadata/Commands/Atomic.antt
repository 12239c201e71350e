-- ===== src/Metadata/Commands/Atomic.antt =====
-- oxidedb/metadata/service.py: a command that is refused changes nothing.
use oxide_db.Base.{
  ℕ, ◌+◌, ◌≡◌, ◌⊎◌, refl, Bool, true, false, Option, none, some, List, [], if◌then◌else◌, inl, inr,
}
use oxide_db.Base.Bytes.{Bytes}
use oxide_db.Base.Dict.{set_key, get_key, update}
use oxide_db.Metadata.Table.{ShardPlacement, RoutingTable, Address}
use oxide_db.Metadata.Commands
use oxide_db.Metadata.Commands.{
  Command, apply, store, is_empty, with_nodes, apply_init_routes, apply_set_shard_nodes, report_on,
  apply_report_leader, split_again, split_shard, apply_split, left_half, right_half, move_on,
  apply_move_shard, nodes_eq, repeats, lacks_address, meets, is_stale,
}
use oxide_db.Raft.StateMachine.{ApplyResult, succeeded}

-- An answer that is no success comes with the table as it was; a success comes with the table as it
-- was or with the next version.
pub record IsAtomic (t : RoutingTable) (x : ApplyResult × RoutingTable) : Type 0 where
  pub atomic :
      ((x.0.success ≡ false) × (x.1 ≡ t))
      ⊎ ((x.0.success ≡ true) × ((x.1 ≡ t) ⊎ (x.1.version ≡ t.version + 1)))

branch :
    (t : RoutingTable) (b : Bool) (x y : ApplyResult × RoutingTable)
    → IsAtomic t x
    → IsAtomic t y
    → IsAtomic t (if b then x else y)
branch t true x y f g = f
branch t false x y f g = g

looked_up :
    (t : RoutingTable) (o : Option ShardPlacement) (x : ApplyResult × RoutingTable)
    (f : ShardPlacement → ApplyResult × RoutingTable)
    → IsAtomic t x
    → ((p : ShardPlacement) → IsAtomic t (f p))
    → IsAtomic t (elim o as (λ o. ApplyResult × RoutingTable) [ none ↦ x | some p ↦ f p ])
looked_up t none x f v h = v
looked_up t (some p) x f v h = h p

refused : (t : RoutingTable) (code : ℕ) → IsAtomic t (Commands.refuse code t)
refused t code = record { atomic = inl (refl, refl) }

stored : (t : RoutingTable) (shards : Commands.Shards) → IsAtomic t (store shards t)
stored t shards = record { atomic = inr (refl, inr refl) }

unchanged : (t : RoutingTable) → IsAtomic t (succeeded, t)
unchanged t = record { atomic = inr (refl, inl refl) }

-- the answers of a handler, and its splits
ruleset cases = (branch, looked_up, refused, stored, unchanged)

report_on-IsAtomic :
    (k node_id term : ℕ) (p : ShardPlacement) (t : RoutingTable)
    → IsAtomic t (report_on k node_id term p t)
unfolding report_on
report_on-IsAtomic k node_id term p t = search cases

split_again-IsAtomic :
    (k : ℕ) (right : ShardPlacement) (split_key : Bytes) (nodes : List ℕ) (t : RoutingTable)
    → IsAtomic t (split_again k right split_key nodes t)
unfolding split_again
split_again-IsAtomic k right split_key nodes t = search cases

split_shard-IsAtomic :
    (k : ℕ) (split_key : Bytes) (new : ℕ) (nodes : List ℕ) (addresses : List (ℕ × Address))
    (p : ShardPlacement) (t : RoutingTable)
    → IsAtomic t (split_shard k split_key new nodes addresses p t)
unfolding split_shard
split_shard-IsAtomic k split_key new nodes addresses p t = search cases

move_on-IsAtomic :
    (k : ℕ) (from_nodes nodes : List ℕ) (addresses : List (ℕ × Address)) (p : ShardPlacement)
    (t : RoutingTable)
    → IsAtomic t (move_on k from_nodes nodes addresses p t)
unfolding move_on
move_on-IsAtomic k from_nodes nodes addresses p t = search cases

-- A command that is refused leaves the table as it was, and one that is accepted leaves it as it was
-- or makes its next version.
pub apply-IsAtomic : (c : Command) (t : RoutingTable) → IsAtomic t (apply c t)
unfolding apply apply_init_routes apply_set_shard_nodes apply_report_leader apply_split
    apply_move_shard
apply-IsAtomic (Command.init_routes ranges) t = search cases
apply-IsAtomic (Command.set_shard_nodes k nodes addresses) t =
    let stores = λ (p : ShardPlacement).
      store (set_key k (with_nodes nodes (update [] addresses) p) t.shards) t in
    looked_up t (get_key k t.shards) (Commands.refuse 4 t) stores (refused t 4) (λ p. stored t _)
apply-IsAtomic (Command.report_leader k node_id term) t =
    looked_up t (get_key k t.shards) (Commands.refuse 4 t) (λ p. report_on k node_id term p t)
      (refused t 4) (λ p. report_on-IsAtomic k node_id term p t)
apply-IsAtomic (Command.split k split_key new nodes addresses) t =
    let splits =
      λ (p : ShardPlacement). split_shard k split_key new nodes (update [] addresses) p t in
    looked_up t (get_key new t.shards) _ (λ right. split_again k right split_key nodes t)
      (looked_up t (get_key k t.shards) (Commands.refuse 7 t) splits (refused t 7)
        (λ p. split_shard-IsAtomic k split_key new nodes (update [] addresses) p t))
      (λ right. split_again-IsAtomic k right split_key nodes t)
apply-IsAtomic (Command.move_shard k from_nodes nodes addresses) t =
    looked_up t (get_key k t.shards) (Commands.refuse 12 t)
      (λ p. move_on k from_nodes nodes (update [] addresses) p t) (refused t 12)
      (λ p. move_on-IsAtomic k from_nodes nodes (update [] addresses) p t)
apply-IsAtomic Command.unknown t = refused t 1
apply-IsAtomic Command.unreadable t = refused t 2
