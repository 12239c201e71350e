-- ===== src/Metadata/Commands/Valid/Apply.antt =====
-- oxidedb/metadata/service.py: every command keeps the table valid.
use oxide_db.Base.{ℕ, ◌≡◌, none, some, List, [], inl, inr, Option-cases}
use oxide_db.Base.Bytes.{Bytes}
use oxide_db.Base.Dict.{set_key, get_key, update, Distinct-update}
use oxide_db.Metadata.Table.{ShardPlacement, RoutingTable, Address}
use oxide_db.Metadata.Commands
use oxide_db.Metadata.Commands.{
  Command, apply, contains_node, overlaps, any_overlap, place_all, store, is_empty, with_nodes,
  apply_init_routes, apply_set_shard_nodes, report_on, apply_report_leader, split_again,
  split_shard, apply_split, left_half, right_half, move_on, apply_move_shard, nodes_eq, repeats,
  lacks_address, meets, is_stale,
}
use oxide_db.Raft.StateMachine.{ApplyResult}
use oxide_db.Metadata.Commands.Valid.{IsValid, BringsRanges, keep_range-IsValid, branch}
use oxide_db.Metadata.Commands.Valid.Handlers.{
  apply_init_routes-IsValid, with_nodes-IsPlacement, with_nodes-range, report_on-IsValid,
  move_on-IsValid,
}
use oxide_db.Metadata.Commands.Valid.Splits.{split_shard-IsValid}

split_again-IsValid :
    (k : ℕ) (right : ShardPlacement) (split_key : Bytes) (nodes : List ℕ) (t : RoutingTable)
    → IsValid t.shards
    → IsValid (split_again k right split_key nodes t).1.shards
unfolding split_again
split_again-IsValid k right split_key nodes t v =
    branch (Commands.split_there (get_key k t.shards) right split_key) _ _
      (λ there. branch (nodes_eq right.nodes nodes) _ _ (λ same. v) (λ other. v)) (λ taken. v)

-- what a handler that looks a shard up keeps
looked_up :
    (k : ℕ) (t : RoutingTable) (x : ApplyResult × RoutingTable)
    (f : ShardPlacement → Commands.Handler)
    → IsValid x.1.shards
    → ((p : ShardPlacement) → get_key k t.shards ≡ some p → IsValid (f p t).1.shards)
    → IsValid
        (elim (get_key k t.shards) as (λ o. ApplyResult × RoutingTable) [
          | none ↦ x
          | some p ↦ f p t
        ]).1.shards
looked_up k t x f v h = elim (Option-cases (get_key k t.shards)) [
  | inl e ↦ rw e v
  | inr (p, e) ↦ rw e (h p e)
]

apply_split-IsValid :
    (k : ℕ) (split_key : Bytes) (new : ℕ) (nodes : List ℕ) (addresses : List (ℕ × Address))
    (t : RoutingTable)
    → IsValid t.shards
    → IsValid (apply_split k split_key new nodes addresses t).1.shards
unfolding apply_split
apply_split-IsValid k split_key new nodes addresses t v =
    elim (Option-cases (get_key new t.shards)) [
      | inr (right, e) ↦ rw (e, apply_split) (split_again-IsValid k right split_key nodes t v)
      | inl e ↦
          rw (e, apply_split)
            (looked_up k t _ (split_shard k split_key new nodes (update [] addresses)) v (λ p h.
              split_shard-IsValid k split_key new nodes (update [] addresses) p t v h (λ same. cc)
                (Distinct-update [] addresses tt)))
    ]

-- Every command keeps the table valid: its shards have different ids and ranges that are not empty
-- and do not meet, and a leader is one of the shard's replicas unless none were published. The first
-- ranges, which are taken as they come, have to be such ranges.
pub apply-IsValid :
    (c : Command) (t : RoutingTable)
    → BringsRanges c
    → IsValid t.shards
    → IsValid (apply c t).1.shards
unfolding apply apply_set_shard_nodes apply_report_leader apply_move_shard
apply-IsValid (Command.init_routes ranges) t r v = apply_init_routes-IsValid ranges t r v
apply-IsValid (Command.set_shard_nodes k nodes addresses) t r v =
    let pairs = update [] addresses in
    let distinct = Distinct-update [] addresses tt in
    looked_up k t _ (λ p. store (set_key k (with_nodes nodes pairs p) t.shards)) v
      (λ p h.
        let range = with_nodes-range nodes pairs p in
        keep_range-IsValid k p (with_nodes nodes pairs p) t.shards v h range.0 range.1
          (with_nodes-IsPlacement k nodes pairs p (v.placements k p h) distinct))
apply-IsValid (Command.report_leader k node_id term) t r v =
    looked_up k t _ (report_on k node_id term) v (λ p h. report_on-IsValid k node_id term p t v h)
apply-IsValid (Command.split k split_key new nodes addresses) t r v =
    apply_split-IsValid k split_key new nodes addresses t v
apply-IsValid (Command.move_shard k from_nodes nodes addresses) t r v =
    looked_up k t _ (move_on k from_nodes nodes (update [] addresses)) v (λ p h.
      move_on-IsValid k from_nodes nodes (update [] addresses) p t v h
        (Distinct-update [] addresses tt))
apply-IsValid Command.unknown t r v = v
apply-IsValid Command.unreadable t r v = v
