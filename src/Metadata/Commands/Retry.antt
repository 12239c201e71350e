-- ===== src/Metadata/Commands/Retry.antt =====
-- oxidedb/metadata/service.py: a split or a move that a caller sends again after a lost answer.
use oxide_db.Base.{
  ℕ, ◌≡◌, ◌≢◌, ◌⊎◌, refl, ◌∙◌, sym, true, false, ◌||◌, none, some, List, [], ◌∷◌, arith, inl, inr,
  Option-cases,
}
use oxide_db.Base.Bytes.{Bytes, bytes_eq, bytes_eq_refl}
use oxide_db.Base.Dict.{
  set_key, get_key, update, Distinct, Distinct-update, dict_eq_refl, get_key-set_key_self,
  get_key-set_key_other,
}
use oxide_db.Metadata.Table.{ShardPlacement, RoutingTable, Address}
use oxide_db.Metadata.Commands.{
  Command, apply, is_empty, split_again, split_shard, apply_split, left_half, right_half, move_on,
  apply_move_shard, nodes_eq, repeats, lacks_address,
}
use oxide_db.Metadata.Commands.Split.{
  created, split_shard-succeeds, split_shard-inside, apply_split_lem,
}
use oxide_db.Raft.StateMachine.{succeeded}

nodes_eq_refl : (l : List ℕ) → nodes_eq l l ≡ true
unfolding nodes_eq
nodes_eq_refl [] = refl
nodes_eq_refl (n ∷ l) = ground (arith, nodes_eq_refl l)

split_again-succeeds :
    (k : ℕ) (right : ShardPlacement) (split_key : Bytes) (nodes : List ℕ) (t : RoutingTable)
    → (split_again k right split_key nodes t).0.success ≡ true
    → split_again k right split_key nodes t ≡ (succeeded, t)
unfolding split_again
split_again-succeeds k right split_key nodes t s = ground arith

-- the split that made the two halves, sent again
split_again-halves :
    (k : ℕ) (left right : ShardPlacement) (split_key : Bytes) (nodes : List ℕ) (t : RoutingTable)
    → get_key k t.shards ≡ some left
    → left.end ≡ split_key
    → right.start ≡ split_key
    → right.nodes ≡ nodes
    → split_again k right split_key nodes t ≡ (succeeded, t)
unfolding split_again
split_again-halves k left right split_key nodes t h e f g =
    ground (arith, h, e, f, g, bytes_eq_refl split_key, nodes_eq_refl nodes)

-- a split whose new shard is there
apply_split-again :
    (k : ℕ) (split_key : Bytes) (new : ℕ) (nodes : List ℕ) (addresses : List (ℕ × Address))
    (right : ShardPlacement) (t : RoutingTable)
    → get_key new t.shards ≡ some right
    → apply_split k split_key new nodes addresses t ≡ split_again k right split_key nodes t
unfolding apply_split
apply_split-again k split_key new nodes addresses right t e = rw (e, apply_split) refl

-- a split of a shard that is not there
apply_split-absent :
    (k : ℕ) (split_key : Bytes) (new : ℕ) (nodes : List ℕ) (addresses : List (ℕ × Address))
    (t : RoutingTable)
    → get_key new t.shards ≡ none
    → get_key k t.shards ≡ none
    → ¬ ((apply_split k split_key new nodes addresses t).0.success ≡ true)
unfolding apply_split
apply_split-absent k split_key new nodes addresses t e h = ground (arith, e, h)

-- a split that made its halves, sent again
split_shard-retry :
    (k : ℕ) (split_key : Bytes) (new : ℕ) (nodes : List ℕ) (addresses : List (ℕ × Address))
    (p : ShardPlacement) (t : RoutingTable)
    → new ≢ k
    → (split_shard k split_key new nodes (update [] addresses) p t).0.success ≡ true
    → apply_split k split_key new nodes addresses
        (split_shard k split_key new nodes (update [] addresses) p t).1
      ≡ (succeeded, (split_shard k split_key new nodes (update [] addresses) p t).1)
unfolding created
split_shard-retry k split_key new nodes addresses p t differs s =
    let pairs = update [] addresses in
    let left = left_half k split_key p in
    let right = right_half new split_key nodes pairs p in
    let u = (split_shard k split_key new nodes pairs p t).1 in
    let inside = split_shard-inside k split_key new nodes pairs p t s in
    let after =
      split_shard-succeeds k new p split_key split_key nodes pairs differs inside.0 inside.1 t s in
    let at_new : get_key new u.shards ≡ some right =
      rw after.1 (get_key-set_key_self new right (set_key k left t.shards)) in
    let at_k : get_key k u.shards ≡ some left = rw after.1 (
      get_key-set_key_other new k right (set_key k left t.shards) (λ e. differs (sym e))
      ∙ get_key-set_key_self k left t.shards) in
    apply_split-again k split_key new nodes addresses right u at_new
    ∙ split_again-halves k left right split_key nodes u at_k refl refl refl

apply_split-retry :
    (k : ℕ) (split_key : Bytes) (new : ℕ) (nodes : List ℕ) (addresses : List (ℕ × Address))
    (t : RoutingTable)
    → (apply_split k split_key new nodes addresses t).0.success ≡ true
    → apply_split k split_key new nodes addresses (apply_split k split_key new nodes addresses t).1
      ≡ (succeeded, (apply_split k split_key new nodes addresses t).1)
apply_split-retry k split_key new nodes addresses t s = elim (Option-cases (get_key new t.shards)) [
  | inr (right, e) ↦
      let shown = apply_split-again k split_key new nodes addresses right t e in
      let same = shown ∙ split_again-succeeds k right split_key nodes t (rw shown at s) in
      rw same same
  | inl e ↦ elim (Option-cases (get_key k t.shards)) [
    | inl absent ↦ absurd (apply_split-absent k split_key new nodes addresses t e absent s)
    | inr (p, h) ↦
        let shown = apply_split_lem k split_key new nodes addresses p t e h in
        rw shown
          (split_shard-retry k split_key new nodes addresses p t (λ same. cc) (rw shown at s))
  ]
]

-- a move of a shard to where it is
move_on-again :
    (k : ℕ) (from_nodes nodes : List ℕ) (addresses : List (ℕ × Address)) (q : ShardPlacement)
    (u : RoutingTable)
    → (is_empty nodes || repeats nodes || lacks_address addresses nodes) ≡ false
    → q.nodes ≡ nodes
    → q.addresses ≡ addresses
    → Distinct addresses
    → move_on k from_nodes nodes addresses q u ≡ (succeeded, u)
unfolding move_on
move_on-again k from_nodes nodes addresses q u fit n a d =
    ground (arith, fit, n, a, nodes_eq_refl nodes, dict_eq_refl bytes_eq bytes_eq_refl addresses d)

abbrev moved : List ℕ → List (ℕ × Address) → ShardPlacement → ShardPlacement
moved nodes addresses p = record p {
  nodes = nodes;
  addresses = addresses;
  leader_id = none;
  leader_term = 0;
}

-- the two ways in which a move succeeds
move_on-succeeds :
    (k : ℕ) (from_nodes nodes : List ℕ) (addresses : List (ℕ × Address)) (p : ShardPlacement)
    (t : RoutingTable)
    → (move_on k from_nodes nodes addresses p t).0.success ≡ true
    → (move_on k from_nodes nodes addresses p t ≡ (succeeded, t))
      ⊎ (((is_empty nodes || repeats nodes || lacks_address addresses nodes) ≡ false)
          × ((move_on k from_nodes nodes addresses p t).1.shards
              ≡ set_key k (moved nodes addresses p) t.shards))
unfolding move_on
move_on-succeeds k from_nodes nodes addresses p t s = ground arith

apply_move_shard_lem :
    (k : ℕ) (from_nodes nodes : List ℕ) (addresses : List (ℕ × Address)) (p : ShardPlacement)
    (t : RoutingTable)
    → get_key k t.shards ≡ some p
    → apply_move_shard k from_nodes nodes addresses t
      ≡ move_on k from_nodes nodes (update [] addresses) p t
unfolding apply_move_shard
apply_move_shard_lem k from_nodes nodes addresses p t h = rw (h, apply_move_shard) refl

apply_move_shard-absent :
    (k : ℕ) (from_nodes nodes : List ℕ) (addresses : List (ℕ × Address)) (t : RoutingTable)
    → get_key k t.shards ≡ none
    → ¬ ((apply_move_shard k from_nodes nodes addresses t).0.success ≡ true)
unfolding apply_move_shard
apply_move_shard-absent k from_nodes nodes addresses t h = ground (arith, h)

apply_move_shard-retry :
    (k : ℕ) (from_nodes nodes : List ℕ) (addresses : List (ℕ × Address)) (t : RoutingTable)
    → (apply_move_shard k from_nodes nodes addresses t).0.success ≡ true
    → apply_move_shard k from_nodes nodes addresses
        (apply_move_shard k from_nodes nodes addresses t).1
      ≡ (succeeded, (apply_move_shard k from_nodes nodes addresses t).1)
apply_move_shard-retry k from_nodes nodes addresses t s = elim (Option-cases (get_key k t.shards)) [
  | inl absent ↦ absurd (apply_move_shard-absent k from_nodes nodes addresses t absent s)
  | inr (p, h) ↦
      let pairs = update [] addresses in
      let shown = apply_move_shard_lem k from_nodes nodes addresses p t h in
      let u = (move_on k from_nodes nodes pairs p t).1 in
      elim (move_on-succeeds k from_nodes nodes pairs p t (rw shown at s)) [
        | inl same ↦ let all = shown ∙ same in rw all all
        | inr (fit, after) ↦
            let q = moved nodes pairs p in
            let at : get_key k u.shards ≡ some q = rw after (get_key-set_key_self k q t.shards) in
            rw shown (
              apply_move_shard_lem k from_nodes nodes addresses q u at
              ∙ move_on-again k from_nodes nodes pairs q u fit refl refl
                  (Distinct-update [] addresses tt))
      ]
]

-- the commands that a caller sends again when the answer was lost
abbrev pub ChangesPlacement : Command → Type 0
ChangesPlacement (Command.split k split_key new nodes addresses) = Unit {0}
ChangesPlacement (Command.move_shard k from_nodes nodes addresses) = Unit {0}
ChangesPlacement _ = ⊥

-- A split or a move that succeeded, sent again to the table that it left, succeeds again and leaves
-- that table exactly as it is.
pub apply-retry :
    (c : Command) (t : RoutingTable)
    → ChangesPlacement c
    → (apply c t).0.success ≡ true
    → apply c (apply c t).1 ≡ (succeeded, (apply c t).1)
unfolding apply
apply-retry (Command.split k split_key new nodes addresses) t c s =
    apply_split-retry k split_key new nodes addresses t s
apply-retry (Command.move_shard k from_nodes nodes addresses) t c s =
    apply_move_shard-retry k from_nodes nodes addresses t s
apply-retry (Command.init_routes ranges) t c s = absurd c
apply-retry (Command.set_shard_nodes k nodes addresses) t c s = absurd c
apply-retry (Command.report_leader k node_id term) t c s = absurd c
apply-retry Command.unknown t c s = absurd c
apply-retry Command.unreadable t c s = absurd c
