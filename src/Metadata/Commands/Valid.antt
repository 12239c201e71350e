-- ===== src/Metadata/Commands/Valid.antt =====
-- oxidedb/metadata/service.py: what every command of the metadata group keeps. No key of the space
-- belongs to two shards, and a shard's leader is one of its replicas.
pub mod Handlers
pub mod Splits
pub mod Apply
pub mod Owner
use oxide_db.Base.{
  ℕ, ◌≡◌, ◌≢◌, refl, ◌∙◌, sym, Bool, true, false, not, ◌&&◌, ◌||◌, Option, none, some, List, [],
  ◌∷◌, ◌==◌, if◌then◌else◌, arith, inl, inr, Bool-cases, Option-cases, leb, is_some, if_rule,
}
use oxide_db.Base.Bytes.{Bytes, bytes_lt, bytes_eq, bytes_lt_irrefl}
use oxide_db.Base.Dict.{
  set_key, get_key, update, Distinct, Distinct-set_key, get_key-set_key, Distinct-update, dict_eq,
  get_key-set_key_self, get_key-set_key_other, get_key-set_key-cases,
}
use oxide_db.Metadata.Table.{ShardPlacement, Shards, RoutingTable, placed, Address}
use oxide_db.Metadata.Commands
use oxide_db.Metadata.Commands.{
  Command, apply, contains_node, overlaps, any_overlap, place_all, store, is_empty, with_nodes,
  apply_init_routes, apply_set_shard_nodes, report_on, apply_report_leader, split_again,
  split_shard, apply_split, left_half, right_half, move_on, apply_move_shard, nodes_eq, repeats,
  lacks_address, meets, is_stale,
}
use oxide_db.Raft.StateMachine.{ApplyResult}

-- the leader, if there is one, is a replica; a shard may have a leader before it has replicas
abbrev pub leader_serves : Option ℕ → List ℕ → Bool
leader_serves none nodes = true
leader_serves (some leader_id) nodes = is_empty nodes || contains_node leader_id nodes

-- what holds of the placement under the key `i`
pub record IsPlacement (i : ℕ) (p : ShardPlacement) : Type 0 where
  pub named : p.shard_id ≡ i
  pub nonempty : bytes_lt p.start p.end ≡ true
  pub served : leader_serves p.leader_id p.nodes ≡ true
  pub located : Distinct p.addresses

pub record IsValid (l : Shards) : Type 0 where
  pub distinct : Distinct l
  pub placements : (i : ℕ) (p : ShardPlacement) → get_key i l ≡ some p → IsPlacement i p
  pub apart :
      (i j : ℕ) (p q : ShardPlacement)
      → i ≢ j
      → get_key i l ≡ some p
      → get_key j l ≡ some q
      → overlaps p q ≡ false

-- ranges that no two shards share, none of them empty
pub record AreRanges (l : List (ℕ × (Bytes × Bytes))) : Type 0 where
  pub nonempty : (i : ℕ) (r : Bytes × Bytes) → get_key i l ≡ some r → bytes_lt r.0 r.1 ≡ true
  pub apart :
      (i j : ℕ) (r s : Bytes × Bytes)
      → i ≢ j
      → get_key i l ≡ some r
      → get_key j l ≡ some s
      → (bytes_lt r.0 s.1 && bytes_lt s.0 r.1) ≡ false

-- the ranges that a command brings in
abbrev pub BringsRanges : Command → Type 0
BringsRanges (Command.init_routes ranges) = AreRanges (update [] ranges)
BringsRanges _ = Unit {0}

overlaps_sym : (p q : ShardPlacement) → overlaps p q ≡ false → overlaps q p ≡ false
overlaps_sym p q h = ground (arith, h)

-- an assignment of a placement that overlaps no other
pub set_key-IsValid :
    (k : ℕ) (p : ShardPlacement) (l : Shards)
    → IsValid l
    → IsPlacement k p
    → ((j : ℕ) (q : ShardPlacement) → j ≢ k → get_key j l ≡ some q → overlaps q p ≡ false)
    → IsValid (set_key k p l)
set_key-IsValid k p l v new free = record {
  distinct = Distinct-set_key k p l v.distinct;
  placements = λ i q h. elim (get_key-set_key-cases k i p q l h) [
    | inl here ↦ rw here.0 (rw (← here.1) new)
    | inr there ↦ v.placements i q there.1
  ];
  apart = λ i j a b ne ha hb. elim (get_key-set_key-cases k i p a l ha) [
    | inl here ↦ elim (get_key-set_key-cases k j p b l hb) [
      | inl both ↦ absurd (ne (here.0 ∙ sym both.0))
      | inr there ↦ rw (← here.1) (overlaps_sym b p (free j b there.0 there.1))
    ]
    | inr there ↦ elim (get_key-set_key-cases k j p b l hb) [
      | inl here ↦ rw (← here.1) (free i a there.0 there.1)
      | inr both ↦ v.apart i j a b ne there.1 both.1
    ]
  ];
}

-- an assignment that leaves the range as it was
pub keep_range-IsValid :
    (k : ℕ) (p q : ShardPlacement) (l : Shards)
    → IsValid l
    → get_key k l ≡ some p
    → q.start ≡ p.start
    → q.end ≡ p.end
    → IsPlacement k q
    → IsValid (set_key k q l)
keep_range-IsValid k p q l v h s e new =
    set_key-IsValid k q l v new (λ j r ne g. rw (s, e) (v.apart j k r p ne g h))

-- the two ends of a guard of a handler
pub branch :
    (b : Bool) (x y : ApplyResult × RoutingTable)
    → (b ≡ true → IsValid x.1.shards)
    → (b ≡ false → IsValid y.1.shards)
    → IsValid (if b then x else y).1.shards
branch b x y f g = if_rule (λ (x : ApplyResult × RoutingTable). IsValid x.1.shards) b f g
