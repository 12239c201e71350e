-- ===== src/Metadata/Commands/Valid/Owner.antt =====
-- oxidedb/metadata/service.py: in a valid table the shard that a key is routed to depends on the
-- ranges alone, not on the order of the dictionary.
use oxide_db.Base.{
  ℕ, ◌≡◌, ◌≢◌, refl, ◌∙◌, sym, true, false, some, [], ◌∷◌, ◌==◌, ◌⊎◌, arith, inl, inr, Bool-cases,
}
use mathlib.Core.Path.{subst}
use oxide_db.Base.Bytes.{Bytes}
use oxide_db.Base.Dict.{get_key, Distinct}
use oxide_db.Metadata.Table.{ShardPlacement, Shards, ranges_of}
use oxide_db.Metadata.Commands.Valid.{IsValid}
use oxide_db.Metadata.Commands.Split.{overlap_of_common, range_of}
use oxide_db.Shard.Router.{locate, in_range}

-- the shard whose range has the key, where `locate` finds it
record Owner (key : Bytes) (l : Shards) : Type 0 where
  shard_id : ℕ
  placement : ShardPlacement
  there : get_key shard_id l ≡ some placement
  covers : in_range key (range_of placement) ≡ true
  located : locate (ranges_of l) key ≡ shard_id

-- no shard has the key, and `locate` answers with the first one
record Uncovered (key : Bytes) (l : Shards) : Type 0 where
  outside : (i : ℕ) (p : ShardPlacement) → get_key i l ≡ some p → in_range key (range_of p) ≡ false
  located : locate (ranges_of l) key ≡ 0

Owner-cases : (key : Bytes) (l : Shards) → Distinct l → Owner key l ⊎ Uncovered key l
unfolding get_key locate ranges_of
Owner-cases key [] d = inr (record { outside = λ i p h. absurd (ground arith); located = refl })
Owner-cases key ((k, p) ∷ l) d = elim (Bool-cases (in_range key (range_of p))) [
  | inl e ↦ inl (record {
    shard_id = k;
    placement = p;
    there = ground arith;
    covers = e;
    located = rw e refl;
  })
  | inr e ↦ elim (Owner-cases key l d.1) [
    | inl o ↦
        let other : (o.shard_id == k) ≡ false = ground (arith, d.0, o.there) in
        inl (record {
          shard_id = o.shard_id;
          placement = o.placement;
          there = rw other o.there;
          covers = o.covers;
          located = rw e o.located;
        })
    | inr u ↦ inr (record {
      outside = λ i q h. elim (Bool-cases (i == k)) [
        | inl here ↦ let same : p ≡ q = ground (arith, here, h) in rw (← same) e
        | inr there ↦ u.outside i q (ground (arith, there, h))
      ];
      located = rw e u.located;
    })
  ]
]

-- the ranges of two tables are the same
abbrev pub SameRanges : Shards → Shards → Type 0
SameRanges l m =
    (i : ℕ) (p : ShardPlacement)
    → get_key i l ≡ some p
    → (q : ShardPlacement) × ((get_key i m ≡ some q) × (range_of p ≡ range_of q))

pub locate-SameRanges :
    (key : Bytes) (l m : Shards)
    → Distinct l
    → IsValid m
    → SameRanges l m
    → SameRanges m l
    → locate (ranges_of l) key ≡ locate (ranges_of m) key
locate-SameRanges key l m d v lm ml = elim (Owner-cases key l d) [
  | inl o ↦
      let (q, (there, same)) = lm o.shard_id o.placement o.there in
      let covers : in_range key (range_of q) ≡ true =
        subst (λ r. in_range key r ≡ true) same o.covers in
      elim (Owner-cases key m v.distinct) [
        | inl w ↦ elim (Bool-cases (o.shard_id == w.shard_id)) [
          | inl eq ↦
              let e : o.shard_id ≡ w.shard_id = ground (arith, eq) in o.located ∙ e ∙ sym w.located
          | inr ne ↦
              let differs : o.shard_id ≢ w.shard_id = λ e. ground (arith, ne) in
              let apart = v.apart o.shard_id w.shard_id q w.placement differs there w.there in
              let meet = overlap_of_common key q w.placement covers w.covers in
              absurd (ground (arith, apart, meet))
        ]
        | inr u ↦ let out = u.outside o.shard_id q there in absurd (ground (arith, out, covers))
      ]
  | inr u ↦ elim (Owner-cases key m v.distinct) [
    | inl w ↦
        let (q, (there, same)) = ml w.shard_id w.placement w.there in
        let covers : in_range key (range_of q) ≡ true =
          subst (λ r. in_range key r ≡ true) same w.covers in
        let out = u.outside w.shard_id q there in absurd (ground (arith, out, covers))
    | inr w ↦ u.located ∙ sym w.located
  ]
]
