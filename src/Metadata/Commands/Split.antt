-- ===== src/Metadata/Commands/Split.antt =====
-- oxidedb/metadata/service.py: where a split sends the keys of the shard it splits.
use oxide_db.Base.{
  ℕ, ◌≡◌, ◌≢◌, refl, true, false, none, some, List, [], ◌∷◌, ◌==◌, if◌then◌else◌, arith, inl, inr,
  Bool-cases,
}
use oxide_db.Base.Bytes.{Bytes, bytes_lt, bytes_lt_trans, bytes_le_trans, bytes_lt_of_le_of_lt}
use oxide_db.Base.Dict.{set_key, get_key, Distinct, update}
use oxide_db.Metadata.Table.{ShardPlacement, Shards, RoutingTable, ranges_of, route_for, Address}
use oxide_db.Metadata.Commands.{
  apply_split, split_shard, any_overlap, overlaps, left_half, right_half,
}
use oxide_db.Shard.Router.{locate, in_range}

abbrev pub range_of : ShardPlacement → Bytes × Bytes
range_of p = (p.start, p.end)

-- `a <= k < b` and `c <= k < d` make the ranges overlap
pub overlap_of_common :
    (k : Bytes) (p q : ShardPlacement)
    → in_range k (range_of p) ≡ true
    → in_range k (range_of q) ≡ true
    → overlaps p q ≡ true
overlap_of_common k p q h g =
    ground (arith, bytes_lt_of_le_of_lt p.start k q.end, bytes_lt_of_le_of_lt q.start k p.end)

-- a shard that overlaps neither half does not have a key of one
apart_of_no_overlap :
    (k : Bytes) (p q : ShardPlacement)
    → overlaps p q ≡ false
    → in_range k (range_of q) ≡ true
    → in_range k (range_of p) ≡ false
apart_of_no_overlap k p q h g = elim (Bool-cases (in_range k (range_of p))) [
  | inl e ↦ cc (h, overlap_of_common k p q e g)
  | inr e ↦ e
]

module _ (shard_id new_shard_id : ℕ) (p : ShardPlacement) (split_key key : Bytes) (nodes : List ℕ)
    (addresses : List (ℕ × Address)) (differs : new_shard_id ≢ shard_id)
    (above : bytes_lt p.start split_key ≡ true) (below : bytes_lt split_key p.end ≡ true) where
  abbrev pub left : ShardPlacement
  left = left_half shard_id split_key p

  abbrev pub right : ShardPlacement
  right = right_half new_shard_id split_key nodes addresses p

  abbrev new_or : ℕ → ℕ
  new_or other = if in_range key (split_key, p.end) then new_shard_id else other

  locate-append :
      (l : Shards)
      → get_key new_shard_id l ≡ none
      → get_key shard_id l ≡ none
      → any_overlap shard_id left right l ≡ false
      → locate (ranges_of (set_key new_shard_id right l)) key ≡ new_or (locate (ranges_of l) key)
  unfolding locate ranges_of set_key get_key any_overlap
  locate-append [] h g o = refl
  locate-append ((i, q) ∷ l) h g o =
      let rest = locate-append l in ground (arith, rest, apart_of_no_overlap key q right)

  -- the two halves have the keys of the whole
  halves :
      (other : ℕ)
      → (if in_range key (range_of left) then shard_id else new_or other)
        ≡ new_or (if in_range key (range_of p) then shard_id else other)
  halves other =
      ground (arith, bytes_lt_trans key split_key p.end, bytes_le_trans p.start split_key key)

  locate-split :
      (l : Shards)
      → get_key new_shard_id l ≡ none
      → get_key shard_id l ≡ some p
      → Distinct l
      → any_overlap shard_id left right l ≡ false
      → locate (ranges_of (set_key new_shard_id right (set_key shard_id left l))) key
        ≡ new_or (locate (ranges_of l) key)
  unfolding locate ranges_of set_key get_key any_overlap
  locate-split [] h g d o = absurd (ground arith)
  locate-split ((i, q) ∷ l) h g d o = elim (Bool-cases (shard_id == i)) [
    | inl here ↦
        let eq : shard_id ≡ i = ground (arith, here) in
        let whole : q ≡ p = ground (arith, g, here) in
        let other : (new_shard_id == shard_id) ≡ false = ground (arith, differs) in
        let absent : get_key shard_id l ≡ none = rw eq d.0 in
        let rest = locate-append l (ground (arith, h)) absent (ground (arith, o)) in
        rw here (rw other (rw rest (rw (← eq) (rw whole (halves (locate (ranges_of l) key))))))
    | inr there ↦
        let other : (new_shard_id == i) ≡ false = ground (arith, h) in
        let rest = locate-split l (ground (arith, h)) (ground (arith, g)) d.1 (ground (arith, o)) in
        rw there (rw other (rw rest (ground (arith, o, there, apart_of_no_overlap key q right))))
  ]

  unfoldable pub created : RoutingTable → Shards
  unfolding set_key
  created t = set_key new_shard_id right (set_key shard_id left t.shards)

  -- the table after a split that is not refused
  pub split_shard-succeeds :
      (t : RoutingTable)
      → (split_shard shard_id split_key new_shard_id nodes addresses p t).0.success ≡ true
      → (any_overlap shard_id left right t.shards ≡ false)
        × ((split_shard shard_id split_key new_shard_id nodes addresses p t).1.shards ≡ created t)
  unfolding split_shard created
  split_shard-succeeds t s = ground arith

-- a split whose new shard is not there yet
pub apply_split_lem :
    (shard_id : ℕ) (split_key : Bytes) (new_shard_id : ℕ) (nodes : List ℕ)
    (addresses : List (ℕ × Address)) (p : ShardPlacement) (t : RoutingTable)
    → get_key new_shard_id t.shards ≡ none
    → get_key shard_id t.shards ≡ some p
    → apply_split shard_id split_key new_shard_id nodes addresses t
      ≡ split_shard shard_id split_key new_shard_id nodes (update [] addresses) p t
unfolding apply_split
apply_split_lem shard_id split_key new_shard_id nodes addresses p t n g = ground (arith, n, g)

-- a split that is not refused is at a point inside the range
pub split_shard-inside :
    (shard_id : ℕ) (split_key : Bytes) (new_shard_id : ℕ) (nodes : List ℕ)
    (addresses : List (ℕ × Address)) (p : ShardPlacement) (t : RoutingTable)
    → (split_shard shard_id split_key new_shard_id nodes addresses p t).0.success ≡ true
    → (bytes_lt p.start split_key ≡ true) × (bytes_lt split_key p.end ≡ true)
unfolding split_shard
split_shard-inside shard_id split_key new_shard_id nodes addresses p t s = ground arith

-- After a split that creates its new shard, every key of the upper part of the split range is
-- routed to the new shard, and every other key is routed as before.
pub route_for-apply_split :
    (shard_id : ℕ) (split_key : Bytes) (new_shard_id : ℕ) (nodes : List ℕ)
    (addresses : List (ℕ × Address)) (p : ShardPlacement) (t : RoutingTable) (key : Bytes)
    → Distinct t.shards
    → get_key new_shard_id t.shards ≡ none
    → get_key shard_id t.shards ≡ some p
    → (apply_split shard_id split_key new_shard_id nodes addresses t).0.success ≡ true
    → route_for key (apply_split shard_id split_key new_shard_id nodes addresses t).1
      ≡ (if in_range key (split_key, p.end) then new_shard_id else route_for key t)
unfolding route_for created
route_for-apply_split shard_id split_key new_shard_id nodes addresses p t key d n g s =
    let e = apply_split_lem shard_id split_key new_shard_id nodes addresses p t n g in
    let differs : new_shard_id ≢ shard_id = λ same. cc in
    let done = rw e at s in
    let inside =
      split_shard-inside shard_id split_key new_shard_id nodes (update [] addresses) p t done in
    let after =
      split_shard-succeeds shard_id new_shard_id p split_key key nodes (update [] addresses) differs
        inside.0 inside.1 t done in
    rw e (
      rw after.1 (
        locate-split shard_id new_shard_id p split_key key nodes (update [] addresses) differs
          inside.0 inside.1 t.shards n g d after.0))
