-- ===== src/Metadata/Commands/Payload/Same.antt =====
-- oxidedb/metadata/service.py: the table that is read back is the table that was packed.
use oxide_db.Base.{
  ℕ, ◌≡◌, refl, ◌∙◌, sym, ap, Option, none, some, List, [], ◌∷◌, ◌==◌, if◌then◌else◌, arith, inl,
  inr, Bool-cases, is_some,
}
use mathlib.Core.Path.{subst}
use oxide_db.Base.Bytes.{Bytes}
use oxide_db.Base.Dict.{
  get_key, update, sorted_items, Distinct, Distinct-update, get_key-update, get_key-sorted_items,
  Distinct-sorted_items,
}
use oxide_db.Metadata.Table.{ShardPlacement, Shards, RoutingTable, route_for}
use oxide_db.Metadata.Commands.Payload.{
  TableCodec, Payload, entry_of, entries_of, table_payload, placement_of, pairs_of, parse_table,
  encode, restore,
}
use oxide_db.Metadata.Commands.Valid.{IsValid}
use oxide_db.Metadata.Commands.Valid.Owner.{locate-SameRanges}
use oxide_db.Metadata.Commands.Split.{range_of}

-- two placements that answer every question alike
pub record SamePlacement (p q : ShardPlacement) : Type 0 where
  pub named : p.shard_id ≡ q.shard_id
  pub range : range_of p ≡ range_of q
  pub nodes : p.nodes ≡ q.nodes
  pub address : (n : ℕ) → get_key n p.addresses ≡ get_key n q.addresses
  pub leader : p.leader_id ≡ q.leader_id
  pub term : p.leader_term ≡ q.leader_term

abbrev pub SameShard : Option ShardPlacement → Option ShardPlacement → Type 0
SameShard none none = Unit {0}
SameShard none (some q) = ⊥
SameShard (some p) none = ⊥
SameShard (some p) (some q) = SamePlacement p q

pub record SameTable (t u : RoutingTable) : Type 0 where
  pub version : t.version ≡ u.version
  pub shard : (i : ℕ) → SameShard (get_key i t.shards) (get_key i u.shards)
  pub route : (key : Bytes) → route_for key t ≡ route_for key u

some_or_none : {V : Type 0} (o : Option V) → (if is_some o then o else none) ≡ o
some_or_none none = refl
some_or_none (some v) = refl

-- a comprehension over pairs whose keys differ
get_key-rebuilt :
    {V : Type 0} (j : ℕ) (l : List (ℕ × V)) → Distinct l → get_key j (update [] l) ≡ get_key j l
unfolding get_key
get_key-rebuilt j l d = get_key-update j [] l d ∙ some_or_none (get_key j l)

-- every placement stands under its own id
abbrev Named : Shards → Type 0
Named l = (i : ℕ) (p : ShardPlacement) → get_key i l ≡ some p → p.shard_id ≡ i

Named-tail :
    (k : ℕ) (p : ShardPlacement) (l : Shards) → get_key k l ≡ none → Named ((k, p) ∷ l) → Named l
unfolding get_key
Named-tail k p l d n i q h = n i q (ground (arith, d, h))

abbrev rebuilt : Option ShardPlacement → Option ShardPlacement
rebuilt none = none
rebuilt (some p) = some (placement_of (entry_of p))

get_key-pairs_of :
    (j : ℕ) (l : Shards)
    → Distinct l
    → Named l
    → get_key j (pairs_of (entries_of l)) ≡ rebuilt (get_key j l)
unfolding get_key pairs_of entries_of placement_of entry_of
get_key-pairs_of j [] d n = refl
get_key-pairs_of j ((k, p) ∷ l) d n =
    let own : p.shard_id ≡ k = n k p (ground arith) in
    let rest = get_key-pairs_of j l d.1 (Named-tail k p l d.0 n) in
    elim (Bool-cases (j == k)) [ inl here ↦ rw (own, here) refl | inr there ↦ rw (own, there) rest ]

Distinct-pairs_of : (l : Shards) → Distinct l → Named l → Distinct (pairs_of (entries_of l))
unfolding pairs_of entries_of get_key
Distinct-pairs_of [] d n = tt
Distinct-pairs_of ((k, p) ∷ l) d n =
    let own : p.shard_id ≡ k = n k p (ground arith) in
    let tail = Named-tail k p l d.0 n in
    (rw own (get_key-pairs_of k l d.1 tail ∙ rw d.0 refl), Distinct-pairs_of l d.1 tail)

-- an entry of the parsed table
get_key-parse_table :
    (j : ℕ) (t : RoutingTable)
    → IsValid t.shards
    → get_key j (parse_table (table_payload t)).shards ≡ rebuilt (get_key j t.shards)
unfolding parse_table table_payload
get_key-parse_table j t v =
    let same = λ (i : ℕ). get_key-sorted_items i t.shards v.distinct in
    let sorted = Distinct-sorted_items t.shards v.distinct in
    let named : Named (sorted_items t.shards) =
      λ i p h. (v.placements i p (sym (same i) ∙ h)).named in
    get_key-rebuilt j (pairs_of (entries_of (sorted_items t.shards)))
      (Distinct-pairs_of (sorted_items t.shards) sorted named)
    ∙ get_key-pairs_of j (sorted_items t.shards) sorted named
    ∙ ap rebuilt (same j)

rebuilt-SamePlacement :
    (p : ShardPlacement) → Distinct p.addresses → SamePlacement (placement_of (entry_of p)) p
unfolding placement_of entry_of
rebuilt-SamePlacement p d = record {
  named = refl;
  range = refl;
  nodes = refl;
  address = λ n.
      get_key-rebuilt n (sorted_items p.addresses) (Distinct-sorted_items p.addresses d)
      ∙ get_key-sorted_items n p.addresses d;
  leader = refl;
  term = refl;
}

SameShard-rebuilt :
    (o : Option ShardPlacement)
    → ((p : ShardPlacement) → o ≡ some p → Distinct p.addresses)
    → SameShard (rebuilt o) o
SameShard-rebuilt none h = tt
SameShard-rebuilt (some p) h = rebuilt-SamePlacement p (h p refl)

rebuilt-eq :
    (o : Option ShardPlacement) (q : ShardPlacement)
    → rebuilt o ≡ some q
    → (p : ShardPlacement) × ((o ≡ some p) × (range_of q ≡ range_of p))
unfolding placement_of entry_of
rebuilt-eq none q h = cc
rebuilt-eq (some p) q h = (p, (refl, ground (arith, h)))

parsed_version : (t : RoutingTable) → (parse_table (table_payload t)).version ≡ t.version
unfolding parse_table table_payload
parsed_version t = refl

parsed-Distinct :
    (t : RoutingTable) → IsValid t.shards → Distinct (parse_table (table_payload t)).shards
unfolding parse_table table_payload
parsed-Distinct t v = Distinct-update [] (pairs_of (entries_of (sorted_items t.shards))) tt

restore-packed :
    (codec : TableCodec) (p : Payload) (raw : Bytes)
    → codec.pack p ≡ raw
    → restore codec raw ≡ some (parse_table p)
unfolding restore
restore-packed codec p [] h = absurd (codec.pack_nonempty p h)
restore-packed codec p (b ∷ l) h =
    let read : codec.unpack (b ∷ l) ≡ some p =
      subst (λ r. codec.unpack r ≡ some p) h (codec.unpack-pack p) in
    rw (read, restore) refl

-- A valid table, turned into plain data and read back as a client or a restarted replica does it, has
-- the same version, for every shard the same placement, and routes every key as before.
pub parse_table-table_payload :
    (t : RoutingTable) → IsValid t.shards → SameTable (parse_table (table_payload t)) t
unfolding route_for placement_of entry_of
parse_table-table_payload t v =
    let u = parse_table (table_payload t) in
    let at = λ (j : ℕ). get_key-parse_table j t v in
    record {
      version = parsed_version t;
      shard = λ i.
          subst (λ o. SameShard o (get_key i t.shards)) (sym (at i))
            (SameShard-rebuilt (get_key i t.shards) (λ p h. (v.placements i p h).located));
      route = λ key.
          locate-SameRanges key u.shards t.shards (parsed-Distinct t v) v
            (λ i q h. rebuilt-eq (get_key i t.shards) q (sym (at i) ∙ h))
            (λ i p h. (placement_of (entry_of p), (at i ∙ ap rebuilt h, refl)));
    }

-- Restoring a snapshot of a machine whose table is valid gives a table with the same version, the
-- same placement of every shard, and the same route for every key.
pub restore-encode :
    (codec : TableCodec) (t : RoutingTable)
    → IsValid t.shards
    → (u : RoutingTable) × ((restore codec (encode codec t) ≡ some u) × SameTable u t)
unfolding encode
restore-encode codec t v = (
  parse_table (table_payload t),
  (
    restore-packed codec (table_payload t) (codec.pack (table_payload t)) refl,
    parse_table-table_payload t v,
  ),
)
