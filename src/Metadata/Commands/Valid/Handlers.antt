-- ===== src/Metadata/Commands/Valid/Handlers.antt =====
-- oxidedb/metadata/service.py: the handlers that change one shard keep the table valid.
use oxide_db.Base.{
  ℕ, ◌≡◌, refl, ◌∙◌, sym, true, not, ◌&&◌, ◌||◌, Option, none, some, List, [], ◌∷◌, ◌==◌, arith,
  inl, inr, Bool-cases, if_rule,
}
use oxide_db.Base.Bytes.{Bytes, bytes_eq}
use oxide_db.Base.Dict.{get_key, update, Distinct, Distinct-update, dict_eq}
use oxide_db.Metadata.Table.{ShardPlacement, RoutingTable, placed, Address}
use oxide_db.Metadata.Commands
use oxide_db.Metadata.Commands.{
  Command, apply, contains_node, overlaps, any_overlap, place_all, store, is_empty, with_nodes,
  apply_init_routes, apply_set_shard_nodes, report_on, apply_report_leader, split_again,
  split_shard, apply_split, left_half, right_half, move_on, apply_move_shard, nodes_eq, repeats,
  lacks_address, meets, is_stale,
}
use oxide_db.Metadata.Commands.Valid.{
  IsPlacement, IsValid, AreRanges, keep_range-IsValid, leader_serves, branch,
}

place_of : Option (Bytes × Bytes) → ℕ → Option ShardPlacement
place_of none i = none
place_of (some r) i = some (placed i r.0 r.1)

get_key-place_all :
    (i : ℕ) (l : List (ℕ × (Bytes × Bytes))) → get_key i (place_all l) ≡ place_of (get_key i l) i
unfolding get_key place_all place_of
get_key-place_all i [] = refl
get_key-place_all i ((k, r) ∷ l) = elim (Bool-cases (i == k)) [
  | inl here ↦ let eq : i ≡ k = ground (arith, here) in rw here (rw eq refl)
  | inr there ↦ rw there (get_key-place_all i l)
]

Distinct-place_all : (l : List (ℕ × (Bytes × Bytes))) → Distinct l → Distinct (place_all l)
unfolding place_all place_of
Distinct-place_all [] d = tt
Distinct-place_all ((k, r) ∷ l) d = (get_key-place_all k l ∙ rw d.0 refl, Distinct-place_all l d.1)

place_of-eq :
    (o : Option (Bytes × Bytes)) (i : ℕ) (p : ShardPlacement)
    → place_of o i ≡ some p
    → (r : Bytes × Bytes) × ((o ≡ some r) × (p ≡ placed i r.0 r.1))
unfolding place_of
place_of-eq none i p h = cc
place_of-eq (some r) i p h = (r, (refl, cc))

place_all-IsValid :
    (l : List (ℕ × (Bytes × Bytes))) → Distinct l → AreRanges l → IsValid (place_all l)
place_all-IsValid l d r =
    let at = λ (i : ℕ) (p : ShardPlacement) (h : get_key i (place_all l) ≡ some p).
      place_of-eq (get_key i l) i p (sym (get_key-place_all i l) ∙ h) in
    record {
      distinct = Distinct-place_all l d;
      placements = λ i p h.
          let (range, (there, eq)) = at i p h in
          rw eq (record {
            named = refl;
            nonempty = r.nonempty i range there;
            served = refl;
            located = tt;
          });
      apart = λ i j p q ne hp hq.
          let (a, (ha, ea)) = at i p hp in
          let (b, (hb, eb)) = at j q hq in rw (ea, eb) (r.apart i j a b ne ha hb);
    }

pub apply_init_routes-IsValid :
    (ranges : List (ℕ × (Bytes × Bytes))) (t : RoutingTable)
    → AreRanges (update [] ranges)
    → IsValid t.shards
    → IsValid (apply_init_routes ranges t).1.shards
unfolding apply_init_routes
apply_init_routes-IsValid ranges t r v =
    branch (is_empty t.shards) _ _
      (λ e. place_all-IsValid (update [] ranges) (Distinct-update [] ranges tt) r) (λ e. v)

leader_stays-serves :
    (leader : Option ℕ) (nodes : List ℕ)
    → Commands.leader_stays leader nodes ≡ true
    → leader_serves leader nodes ≡ true
leader_stays-serves none nodes h = refl
leader_stays-serves (some n) nodes h = ground (arith, h)

pub with_nodes-IsPlacement :
    (k : ℕ) (nodes : List ℕ) (addresses : List (ℕ × Address)) (p : ShardPlacement)
    → IsPlacement k p
    → Distinct addresses
    → IsPlacement k (with_nodes nodes addresses p)
unfolding with_nodes
with_nodes-IsPlacement k nodes addresses p v d =
    if_rule (IsPlacement k) (Commands.leader_stays p.leader_id nodes)
      (λ stays. record {
        named = v.named;
        nonempty = v.nonempty;
        served = leader_stays-serves p.leader_id nodes stays;
        located = d;
      })
      (λ leaves. record { named = v.named; nonempty = v.nonempty; served = refl; located = d })

pub with_nodes-range :
    (nodes : List ℕ) (addresses : List (ℕ × Address)) (p : ShardPlacement)
    → ((with_nodes nodes addresses p).start ≡ p.start)
      × ((with_nodes nodes addresses p).end ≡ p.end)
unfolding with_nodes
with_nodes-range nodes addresses p = ground arith

pub report_on-IsValid :
    (k node_id term : ℕ) (p : ShardPlacement) (t : RoutingTable)
    → IsValid t.shards
    → get_key k t.shards ≡ some p
    → IsValid (report_on k node_id term p t).1.shards
unfolding report_on
report_on-IsValid k node_id term p t v h =
    let old = v.placements k p h in
    branch (not (is_empty p.nodes) && not (contains_node node_id p.nodes)) _ _ (λ stranger. v)
      (λ member.
        branch (is_stale term p) _ _ (λ stale. v)
          (λ newer.
            keep_range-IsValid k p (record p { leader_id = some node_id; leader_term = term })
              t.shards v h refl refl
              (record {
                named = old.named;
                nonempty = old.nonempty;
                served = ground (arith, member);
                located = old.located;
              })))

pub move_on-IsValid :
    (k : ℕ) (from_nodes nodes : List ℕ) (addresses : List (ℕ × Address)) (p : ShardPlacement)
    (t : RoutingTable)
    → IsValid t.shards
    → get_key k t.shards ≡ some p
    → Distinct addresses
    → IsValid (move_on k from_nodes nodes addresses p t).1.shards
unfolding move_on
move_on-IsValid k from_nodes nodes addresses p t v h d =
    let old = v.placements k p h in
    branch (is_empty nodes || repeats nodes || lacks_address addresses nodes) _ _ (λ unfit. v)
      (λ fit.
        branch (nodes_eq p.nodes nodes) _ _
          (λ again. branch (dict_eq bytes_eq p.addresses addresses) _ _ (λ same. v) (λ other. v))
          (λ elsewhere.
            branch (not (nodes_eq p.nodes from_nodes)) _ _ (λ unexpected. v)
              (λ expected.
                branch (meets nodes from_nodes) _ _ (λ mixed. v)
                  (λ disjoint.
                    keep_range-IsValid k p
                      (record p {
                        nodes = nodes;
                        addresses = addresses;
                        leader_id = none;
                        leader_term = 0;
                      })
                      t.shards v h refl refl
                      (record {
                        named = old.named;
                        nonempty = old.nonempty;
                        served = refl;
                        located = d;
                      })))))
