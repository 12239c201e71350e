-- ===== src/Metadata/Cache/Addresses.antt =====
-- oxidedb/metadata/cache.py: the addresses of a shard.
use oxide_db.Base.{
  ℕ, ◌≡◌, refl, ◌∙◌, Bool, true, false, ◌||◌, Option, none, some, List, [], ◌∷◌, ◌++◌, inl, inr,
  Bool-cases, arith,
}
use oxide_db.Base.Bytes.{bytes_eq, eq_of_bytes_eq, bytes_eq_refl}
use oxide_db.Base.Dict.{get_key}
use oxide_db.Client.Routing.{elem}
use oxide_db.Client.Routing.Counting.{Distinct, bytes_eq_sym}
use oxide_db.Metadata.Table.{Address, ShardPlacement, RoutingTable, leader_address, shard}
use oxide_db.Metadata.Cache.{
  Env, Cache, M, pure, bind_result, add_address, add_nodes, leader_first, addresses_of, table,
  replica_addresses,
}

elem-snoc : (a b : Address) (l : List Address) → elem a (l ++ b ∷ []) ≡ (elem a l || bytes_eq a b)
unfolding elem
elem-snoc a b [] = ground arith
elem-snoc a b (x ∷ l) = ground (arith, elem-snoc a b l)

Distinct-snoc :
    (b : Address) (l : List Address) → elem b l ≡ false → Distinct l → Distinct (l ++ b ∷ [])
unfolding elem
Distinct-snoc b [] h d = (refl, tt)
Distinct-snoc b (x ∷ l) h d =
    let other = bytes_eq_sym b x (ground (arith, h)) in
    (ground (arith, elem-snoc x b l, d.0, other), Distinct-snoc b l (ground (arith, h)) d.1)

add_address-Distinct :
    (o : Option Address) (l : List Address) → Distinct l → Distinct (add_address o l)
unfolding add_address
add_address-Distinct none l d = d
add_address-Distinct (some b) l d = elim (Bool-cases (elem b l)) [
  | inl e ↦ rw (e, add_address) d
  | inr e ↦ rw (e, add_address) (Distinct-snoc b l e d)
]

add_nodes-Distinct :
    (addresses : List (ℕ × Address)) (nodes : List ℕ) (l : List Address)
    → Distinct l
    → Distinct (add_nodes addresses nodes l)
unfolding add_nodes
add_nodes-Distinct addresses [] l d = d
add_nodes-Distinct addresses (n ∷ nodes) l d =
    add_nodes-Distinct addresses nodes (add_address (get_key n addresses) l)
      (add_address-Distinct (get_key n addresses) l d)

-- the test of an address with one that may be there
abbrev is_at : Address → Option Address → Bool
is_at a none = false
is_at a (some b) = bytes_eq a b

present :
    (a b : Address) (l : List Address) → elem b l ≡ true → elem a l ≡ (elem a l || bytes_eq a b)
present a b l e = elim (Bool-cases (bytes_eq a b)) [
  | inl h ↦
      let same : a ≡ b = eq_of_bytes_eq a b h in
      let here : elem a l ≡ true = rw same e in ground (arith, h, here)
  | inr h ↦ ground (arith, h)
]

elem-add_address :
    (a : Address) (o : Option Address) (l : List Address)
    → elem a (add_address o l) ≡ (elem a l || is_at a o)
unfolding add_address
elem-add_address a none l = ground arith
elem-add_address a (some b) l = elim (Bool-cases (elem b l)) [
  | inl e ↦ rw (e, add_address) (present a b l e)
  | inr e ↦ rw (e, add_address) (elem-snoc a b l)
]

-- the list begins with the address
unfoldable pub is_first : Address → List Address → Bool
unfolding bytes_eq
is_first a [] = false
is_first a (b ∷ l) = bytes_eq a b

-- one of the nodes is at the address
unfoldable pub serves_at : Address → List (ℕ × Address) → List ℕ → Bool
unfolding get_key bytes_eq
serves_at a addresses [] = false
serves_at a addresses (n ∷ nodes) = is_at a (get_key n addresses) || serves_at a addresses nodes

elem-add_nodes :
    (a : Address) (addresses : List (ℕ × Address)) (nodes : List ℕ) (l : List Address)
    → elem a (add_nodes addresses nodes l) ≡ (elem a l || serves_at a addresses nodes)
unfolding add_nodes serves_at
elem-add_nodes a addresses [] l = ground arith
elem-add_nodes a addresses (n ∷ nodes) l =
    let o = get_key n addresses in
    let rest = elem-add_nodes a addresses nodes (add_address o l) in
    ground (arith, rest, elem-add_address a o l)

-- What is published of a shard, as the list of its addresses: no address twice, the leader's first,
-- and exactly the leader's and those of the nodes that have one.
pub record Lists (o : Option Address) (p : ShardPlacement) (l : List Address) : Type 0 where
  pub distinct : Distinct l
  pub leader : (a : Address) → o ≡ some a → is_first a l ≡ true
  pub exact : (a : Address) → elem a l ≡ (is_at a o || serves_at a p.addresses p.nodes)

is_first-add_address :
    (a : Address) (o : Option Address) (l : List Address)
    → is_first a l ≡ true
    → is_first a (add_address o l) ≡ true
unfolding add_address is_first
is_first-add_address a none l h = h
is_first-add_address a (some b) [] h = absurd (ground (arith, h))
is_first-add_address a (some b) (x ∷ l) h = elim (Bool-cases (elem b (x ∷ l))) [
  | inl e ↦ rw (e, add_address) h
  | inr e ↦ rw (e, add_address) h
]

is_first-add_nodes :
    (a : Address) (addresses : List (ℕ × Address)) (nodes : List ℕ) (l : List Address)
    → is_first a l ≡ true
    → is_first a (add_nodes addresses nodes l) ≡ true
unfolding add_nodes
is_first-add_nodes a addresses [] l h = h
is_first-add_nodes a addresses (n ∷ nodes) l h =
    let o = get_key n addresses in
    is_first-add_nodes a addresses nodes (add_address o l) (is_first-add_address a o l h)

leader_first-Lists :
    (o : Option Address) (p : ShardPlacement)
    → Lists o p (add_nodes p.addresses p.nodes (leader_first o))
unfolding elem is_first
leader_first-Lists none p = record {
  distinct = add_nodes-Distinct p.addresses p.nodes [] tt;
  leader = λ a h. absurd (ground (arith, h));
  exact = λ a. elem-add_nodes a p.addresses p.nodes [];
}
leader_first-Lists (some b) p = record {
  distinct = add_nodes-Distinct p.addresses p.nodes (b ∷ []) (refl, tt);
  leader = λ a h.
      let same : b ≡ a = cc in
      is_first-add_nodes a p.addresses p.nodes (b ∷ []) (rw same (bytes_eq_refl a));
  exact = λ a. elem-add_nodes a p.addresses p.nodes (b ∷ []) ∙ ground arith;
}

pub addresses_of-Lists : (p : ShardPlacement) → Lists (leader_address p) p (addresses_of p)
unfolding addresses_of
addresses_of-Lists p = leader_first-Lists (leader_address p) p

-- a call that did not raise, and what comes after it
pub bind_result-value :
    {W A B : Type 0} (x : Option A × Cache W) (f : A → M W B) (a : A)
    → x.0 ≡ some a
    → bind_result x f ≡ f a x.1
bind_result-value (none, c) f a e = absurd (ground (arith, e))
bind_result-value (some b, c) f a e = let same : b ≡ a = cc in rw same refl

-- what is listed of a shard that may not be in the table
abbrev pub ListsShard : Option ShardPlacement → Option (List Address) → Type 0
ListsShard o none = Unit {0}
ListsShard none (some l) = l ≡ []
ListsShard (some p) (some l) = Lists (leader_address p) p l

listed : {W : Type 0} → Option ShardPlacement → M W (List Address)
listed none = pure []
listed (some p) = pure (addresses_of p)

listed-ListsShard :
    {W : Type 0} (o : Option ShardPlacement) (c : Cache W) → ListsShard o (listed o c).0
unfolding listed
listed-ListsShard none c = refl
listed-ListsShard (some p) c = addresses_of-Lists p

module _ {W C : Type 0} (env : Env W C) where
  -- The addresses that a cache gives for a shard are those of the table that it holds or reads: none for
  -- a shard that the table does not have, and otherwise the leader's address first, then those of the
  -- nodes that have an address and no other, none of them twice.
  pub replica_addresses-ListsShard :
      (s : ℕ) (t : RoutingTable) (c : Cache W)
      → (table env c).0 ≡ some t
      → ListsShard (shard s t) (replica_addresses env s c).0
  unfolding replica_addresses listed
  replica_addresses-ListsShard s t c e =
      rw (bind_result-value (table env c) (λ u. listed (shard s u)) t e)
        (listed-ListsShard (shard s t) (table env c).1)
