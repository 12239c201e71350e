-- ===== src/Storage/Engine/Order.antt =====
-- Scans of the in-memory engine: the rows are those of the range, each with the value that `get`
-- returns, in ascending order of the keys.
use oxide_db.Base.{
  ◌≡◌, refl, Bool, true, false, ◌&&◌, ◌||◌, Option, none, some, List, [], ◌∷◌, map, arith, filter,
  last?, All, All-filter, All-map, All-last?, is_some, Bool-cases, Option-cases, inl, inr,
}
use oxide_db.Base.Bytes.{
  Bytes, bytes_eq, bytes_lt, bytes_le, bytes_eq_iff, bytes_eq_refl, bytes_le_trans, bytes_lt_asymm,
  bytes_lt_irrefl, eq_of_bytes_eq,
}
use oxide_db.Storage.Engine.{
  Engine, lookup, get, in_range, insert_sorted, sorted, rows_of, scan_keys, scan,
}

-- `k in keys`
abbrev pub elem : Bytes → List Bytes → Bool
elem k [] = false
elem k (j ∷ l) = bytes_eq k j || elem k l

-- each key is at most those behind it
abbrev pub Ascending : List Bytes → Type 0
Ascending [] = Unit
Ascending (k ∷ l) = All (λ j. bytes_le k j ≡ true) l × Ascending l

All-insert_sorted :
    (P : Bytes → Type 0) (k : Bytes) (l : List Bytes) → P k → All P l → All P (insert_sorted k l)
unfolding insert_sorted
All-insert_sorted P k [] p h = (p, tt)
All-insert_sorted P k (j ∷ l) p h = elim (Bool-cases (bytes_lt j k)) [
  | inl e ↦ rw e (h.0, All-insert_sorted P k l p h.1)
  | inr e ↦ rw e (p, (h.0, h.1))
]

insert_sorted-Ascending : (k : Bytes) (l : List Bytes) → Ascending l → Ascending (insert_sorted k l)
unfolding insert_sorted
insert_sorted-Ascending k [] h = (tt, tt)
insert_sorted-Ascending k (j ∷ l) h = elim (Bool-cases (bytes_lt j k)) [
  | inl e ↦ rw e (
    All-insert_sorted (λ i. bytes_le j i ≡ true) k l (rw (bytes_lt_asymm j k e)) h.0,
    insert_sorted-Ascending k l h.1,
  )
  | inr e ↦ rw e ((rw e, All-map _ _ l (λ i p. ground (arith, bytes_le_trans k j i)) h.0), h)
]

sorted-Ascending : (l : List Bytes) → Ascending (sorted l)
unfolding sorted
sorted-Ascending [] = tt
sorted-Ascending (k ∷ l) = insert_sorted-Ascending k (sorted l) (sorted-Ascending l)

filter-Ascending : (p : Bytes → Bool) (l : List Bytes) → Ascending l → Ascending (filter p l)
filter-Ascending p [] h = tt
filter-Ascending p (k ∷ l) h = elim (Bool-cases (p k)) [
  | inl e ↦ rw e (All-filter _ p l h.0, filter-Ascending p l h.1)
  | inr e ↦ rw e (filter-Ascending p l h.1)
]

elem-insert_sorted :
    (k j : Bytes) (l : List Bytes) → elem k (insert_sorted j l) ≡ bytes_eq k j || elem k l
unfolding insert_sorted
elem-insert_sorted k j [] = refl
elem-insert_sorted k j (i ∷ l) = ground (arith, elem-insert_sorted k j l)

elem-sorted : (k : Bytes) (l : List Bytes) → elem k (sorted l) ≡ elem k l
unfolding sorted
elem-sorted k [] = refl
elem-sorted k (j ∷ l) = rw (elem-insert_sorted k j (sorted l), elem-sorted k l)

elem-filter :
    (p : Bytes → Bool) (k : Bytes) (l : List Bytes) → elem k (filter p l) ≡ p k && elem k l
elem-filter p k [] = ground arith
elem-filter p k (j ∷ l) = ground (arith, bytes_eq_iff k j, elem-filter p k l)

elem-keys :
    (k : Bytes) (l : List (Bytes × Bytes)) → elem k (map (λ row. row.0) l) ≡ is_some (lookup k l)
unfolding lookup
elem-keys k [] = refl
elem-keys k ((j, v) ∷ l) = ground (arith, elem-keys k l)

-- the keys of a scan are the keys in the range that are there
pub elem-scan_keys :
    (start end k : Bytes) (e : Engine)
    → elem k (scan_keys start end e) ≡ in_range start end k && is_some (get k e)
unfolding get
elem-scan_keys start end k e = rw (
  elem-filter (in_range start end) k (sorted (map (λ row. row.0) e.items)),
  elem-sorted k (map (λ row. row.0) e.items),
  elem-keys k e.items,
)

pub scan_keys-Ascending : (start end : Bytes) (e : Engine) → Ascending (scan_keys start end e)
scan_keys-Ascending start end e = filter-Ascending _ _ (sorted-Ascending _)

All-of_elem :
    (P : Bytes → Type 0) (l : List Bytes) → ((k : Bytes) → elem k l ≡ true → P k) → All P l
All-of_elem P [] f = tt
All-of_elem P (k ∷ l) f =
    (f k (ground (arith, bytes_eq_refl k)), All-of_elem P l (λ j m. f j (ground arith)))

row_at : List (Bytes × Bytes) → Option Bytes → Option (Bytes × Bytes)
row_at items none = none
row_at items (some k) = elim (lookup k items) [ none ↦ none | some v ↦ some (k, v) ]

last?-rows_of :
    (items : List (Bytes × Bytes)) (l : List Bytes)
    → All (λ k. is_some (lookup k items) ≡ true) l
    → last? (rows_of items l) ≡ row_at items (last? l)
unfolding rows_of row_at
last?-rows_of items [] h = refl
last?-rows_of items (k ∷ []) h = ground arith
last?-rows_of items (k ∷ j ∷ l) h = ground (arith, last?-rows_of items (j ∷ l) h.1)

-- nothing in an ascending list is past its last element
le-last? :
    (j : Bytes) (l : List Bytes) {k : Bytes}
    → Ascending l
    → last? l ≡ some k
    → elem j l ≡ true
    → bytes_le j k ≡ true
le-last? j [] h e m = absurd (ground arith)
le-last? j (x ∷ []) {k} h e m = ground (arith, bytes_eq_iff j x, bytes_lt_irrefl j)
le-last? j (x ∷ y ∷ l) {k} h e m = elim (Bool-cases (bytes_eq j x)) [
  | inl same ↦ rw (eq_of_bytes_eq j x same) (All-last? (λ i. bytes_le x i ≡ true) (y ∷ l) h.0 e)
  | inr other ↦ le-last? j (y ∷ l) h.1 e (ground arith)
]

elem-last? : (l : List Bytes) {k : Bytes} → last? l ≡ some k → elem k l ≡ true
elem-last? [] e = ground arith
elem-last? (x ∷ []) {k} e = ground (arith, bytes_eq_iff k x)
elem-last? (x ∷ y ∷ l) {k} e = ground (arith, elem-last? (y ∷ l) e)

last?-none : (j : Bytes) (l : List Bytes) → last? l ≡ none → elem j l ≡ false
last?-none j [] e = refl
last?-none j (x ∷ []) e = ground arith
last?-none j (x ∷ y ∷ l) e = absurd (ground (arith, last?-none y (y ∷ l), bytes_eq_refl y))

last?-scan :
    (start end : Bytes) (e : Engine)
    → last? (scan start end e) ≡ row_at e.items (last? (scan_keys start end e))
unfolding scan get
last?-scan start end e =
    last?-rows_of e.items (scan_keys start end e)
      (All-of_elem _ _ (λ k m. ground (arith, elem-scan_keys start end k e)))

module _ (start end : Bytes) (e : Engine) where
  -- The last row of a scan is in the range, holds what `get` returns, and no key of the range
  -- that is there is past it.
  pub scan-last :
      {k v : Bytes}
      → last? (scan start end e) ≡ some (k, v)
      → (in_range start end k ≡ true)
        × (get k e ≡ some v)
        × ((j : Bytes)
            → in_range start end j ≡ true
            → is_some (get j e) ≡ true
            → bytes_le j k ≡ true)
  unfolding get row_at
  scan-last {k} {v} h = elim (Option-cases (last? (scan_keys start end e))) [
    | inl e' ↦ absurd (ground (arith, last?-scan start end e))
    | inr (i, e') ↦
        let found : (i ≡ k) × (lookup k e.items ≡ some v) =
          ground (arith, last?-scan start end e) in
        let here = elem-last? (scan_keys start end e) e' in
        (
          ground (arith, elem-scan_keys start end i e),
          found.1,
          λ j r s. rw (← found.0) (
              le-last? j (scan_keys start end e) (scan_keys-Ascending start end e) e'
                (ground (arith, elem-scan_keys start end j e))),
        )
  ]

  -- A scan with no row: nothing is in the range.
  pub scan-none :
      (j : Bytes) → last? (scan start end e) ≡ none → in_range start end j ≡ true → get j e ≡ none
  unfolding get row_at
  scan-none j h r = elim (Option-cases (last? (scan_keys start end e))) [
    | inl e' ↦ ground (arith, elem-scan_keys start end j e, last?-none j (scan_keys start end e) e')
    | inr (i, e') ↦ absurd (
        ground (
          arith,
          last?-scan start end e,
          elem-last? (scan_keys start end e) e',
          elem-scan_keys start end i e,
        ))
  ]
