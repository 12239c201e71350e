-- ===== src/Client/Routing/Counting.antt =====
-- oxidedb/client/routing.py: how many of the known addresses a walk has still to ask.
use oxide_db.Base.{
  ℕ, suc, ◌+◌, ◌≤◌, ◌<◌, ◌≡◌, refl, Bool, true, false, not, ◌&&◌, ◌||◌, List, [], ◌∷◌, ◌++◌,
  if◌then◌else◌, filter, length, arith, inl, inr, Bool-cases, All,
}
use mathlib.Core.Path.{subst}
use oxide_db.Base.Bytes.{bytes_eq, eq_of_bytes_eq, bytes_eq_refl}
use oxide_db.Metadata.Table.{Address}
use oxide_db.Client.Routing.{elem}

-- how many elements of the list pass the test
unfoldable pub count : (Address → Bool) → List Address → ℕ
count p [] = 0
count p (a ∷ l) = let rest = count p l in if p a then suc rest else rest

pub count-le :
    (p q : Address → Bool) (l : List Address)
    → ((a : Address) → p a ≡ true → q a ≡ true)
    → count p l ≤ count q l
unfolding count
count-le p q [] h = omega arith
count-le p q (a ∷ l) h = ground (arith, h a, count-le p q l h)

pub count-le-length : (p : Address → Bool) (l : List Address) → count p l ≤ length l
unfolding count
count-le-length p [] = omega arith
count-le-length p (a ∷ l) = ground (arith, count-le-length p l)

-- an element that passes the second test only
pub count-lt :
    (p q : Address → Bool) (l : List Address) (w : Address)
    → ((a : Address) → p a ≡ true → q a ≡ true)
    → elem w l ≡ true
    → p w ≡ false
    → q w ≡ true
    → count p l < count q l
unfolding count elem
count-lt p q [] w h m pw qw = absurd (ground arith)
count-lt p q (a ∷ l) w h m pw qw = elim (Bool-cases (bytes_eq w a)) [
  | inl here ↦
      let e : w ≡ a = eq_of_bytes_eq w a here in
      let pa : p a ≡ false = rw (← e) pw in
      let qa : q a ≡ true = rw (← e) qw in ground (arith, pa, qa, count-le p q l h)
  | inr there ↦ ground (arith, there, h a, count-lt p q l w h)
]

-- no address stands twice
abbrev pub Distinct : List Address → Type 0
Distinct [] = Unit {0}
Distinct (a ∷ l) = (elem a l ≡ false) × Distinct l

-- every address of the list is known
abbrev pub AreKnown : List Address → List Address → Type 0
AreKnown known = All (λ a. elem a known ≡ true)

-- the test without the addresses of a list
abbrev without : (Address → Bool) → List Address → Address → Bool
without p l a = p a && not (elem a l)

pub bytes_eq_sym : (a b : Address) → bytes_eq a b ≡ false → bytes_eq b a ≡ false
bytes_eq_sym a b h = elim (Bool-cases (bytes_eq b a)) [
  | inl e ↦
      let same : b ≡ a = eq_of_bytes_eq b a e in
      let self = bytes_eq_refl a in
      absurd (ground (arith, subst (λ x. bytes_eq a x ≡ false) same h, self))
  | inr e ↦ e
]

-- the test still holds of the others when one address is left out
All-without :
    (p : Address → Bool) (w : Address) (l : List Address)
    → elem w l ≡ false
    → All (λ a. p a ≡ true) l
    → All (λ a. without p (w ∷ []) a ≡ true) l
unfolding elem
All-without p w [] m h = tt
All-without p w (a ∷ l) m h =
    let other = bytes_eq_sym w a (ground (arith, m)) in
    (ground (arith, h.0, other), All-without p w l (ground (arith, m)) h.1)

pub count-without :
    (known : List Address) (l : List Address) (p : Address → Bool)
    → Distinct l
    → AreKnown known l
    → All (λ a. p a ≡ true) l
    → count (without p l) known + length l ≤ count p known
unfolding elem
count-without known [] p d k h =
    ground (arith, count-le (without p []) p known (λ a e. ground (arith, e)))
count-without known (w ∷ l) p d k h =
    let p' = without p (w ∷ []) in
    let rest = count-without known l p' d.1 k.1 (All-without p w l d.0 h.1) in
    let fewer =
      count-lt p' p known w (λ a e. ground (arith, e)) k.0 (ground (arith, bytes_eq_refl w)) h.0 in
    let same = count-le (without p (w ∷ l)) (without p' l) known (λ a e. ground (arith, e)) in
    omega arith

pub elem-append : (a : Address) (l k : List Address) → elem a (l ++ k) ≡ (elem a l || elem a k)
unfolding elem
elem-append a [] k = refl
elem-append a (b ∷ l) k = ground (arith, elem-append a l k)

elem-filter :
    (p : Address → Bool) (a : Address) (l : List Address)
    → elem a l ≡ false
    → elem a (filter p l) ≡ false
unfolding elem
elem-filter p a [] h = refl
elem-filter p a (b ∷ l) h = ground (arith, h, elem-filter p a l)

pub Distinct-filter : (p : Address → Bool) (l : List Address) → Distinct l → Distinct (filter p l)
Distinct-filter p [] d = tt
Distinct-filter p (a ∷ l) d = elim (Bool-cases (p a)) [
  | inl e ↦ rw e (elem-filter p a l d.0, Distinct-filter p l d.1)
  | inr e ↦ rw e (Distinct-filter p l d.1)
]

pub All-filter_self : (p : Address → Bool) (l : List Address) → All (λ a. p a ≡ true) (filter p l)
All-filter_self p [] = tt
All-filter_self p (a ∷ l) = elim (Bool-cases (p a)) [
  | inl e ↦ rw e (e, All-filter_self p l)
  | inr e ↦ rw e (All-filter_self p l)
]
