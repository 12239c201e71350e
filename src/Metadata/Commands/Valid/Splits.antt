-- ===== src/Metadata/Commands/Valid/Splits.antt =====
-- oxidedb/metadata/service.py: a split keeps the table valid.
use oxide_db.Base.{
  ℕ, ◌≡◌, ◌≢◌, refl, false, not, ◌&&◌, some, List, [], ◌∷◌, ◌==◌, arith, inl, inr, Bool-cases,
}
use oxide_db.Base.Bytes.{Bytes, bytes_lt, bytes_lt_irrefl}
use oxide_db.Base.Dict.{set_key, get_key, Distinct, get_key-set_key-cases}
use oxide_db.Metadata.Table.{ShardPlacement, Shards, RoutingTable, Address}
use oxide_db.Metadata.Commands.{overlaps, any_overlap, split_shard, left_half, right_half}
use oxide_db.Metadata.Commands.Valid.{IsValid, set_key-IsValid, branch}

any_overlap-none :
    (k : ℕ) (left right : ShardPlacement) (l : Shards)
    → any_overlap k left right l ≡ false
    → (j : ℕ) (q : ShardPlacement) → j ≢ k
    → get_key j l ≡ some q
    → (overlaps q left ≡ false) × (overlaps q right ≡ false)
unfolding any_overlap get_key
any_overlap-none k left right [] h j q ne at = absurd (ground arith)
any_overlap-none k left right ((i, p) ∷ l) h j q ne at = elim (Bool-cases (j == i)) [
  | inl here ↦
      let eq : j ≡ i = ground (arith, here) in
      let same : p ≡ q = ground (arith, here, at) in
      let other : (i == k) ≡ false = ground (arith, ne, eq) in
      rw (← same) (ground (arith, h, other), ground (arith, h, other))
  | inr there ↦
      any_overlap-none k left right l (ground (arith, h)) j q ne (ground (arith, at, there))
]

pub split_shard-IsValid :
    (k : ℕ) (split_key : Bytes) (new : ℕ) (nodes : List ℕ) (addresses : List (ℕ × Address))
    (p : ShardPlacement) (t : RoutingTable)
    → IsValid t.shards
    → get_key k t.shards ≡ some p
    → new ≢ k
    → Distinct addresses
    → IsValid (split_shard k split_key new nodes addresses p t).1.shards
unfolding split_shard
split_shard-IsValid k split_key new nodes addresses p t v h ne d =
    let old = v.placements k p h in
    let left = left_half k split_key p in
    let right = right_half new split_key nodes addresses p in
    branch (not (bytes_lt p.start split_key && bytes_lt split_key p.end)) _ _ (λ outside. v)
      (λ inside.
        branch (any_overlap k left right t.shards) _ _ (λ hit. v)
          (λ free.
            let apart = any_overlap-none k left right t.shards free in
            let narrowed =
              set_key-IsValid k left t.shards v
                (record {
                  named = refl;
                  nonempty = ground (arith, inside);
                  served = old.served;
                  located = old.located;
                })
                (λ j q other at. (apart j q other at).0) in
            set_key-IsValid new right (set_key k left t.shards) narrowed
              (record {
                named = refl;
                nonempty = ground (arith, inside);
                served = refl;
                located = d;
              })
              (λ j q other at. elim (get_key-set_key-cases k j left q t.shards at) [
                | inl here ↦ rw (← here.1) (ground (arith, bytes_lt_irrefl split_key))
                | inr there ↦ (apart j q there.0 there.1).1
              ])))
