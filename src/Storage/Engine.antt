-- ===== src/Storage/Engine.antt =====
-- oxidedb/storage/engine.py: the in-memory ordered key/value store and `next_key`.
pub mod Laws
pub mod Order
pub mod NextKey
use oxide_db.Base.{
  ◌+◌, Bool, not, ◌&&◌, Option, none, some, List, [], ◌∷◌, map, ltb, if◌then◌else◌, filter,
}
use oxide_db.Base.Bytes.{Bytes, bytes_eq, bytes_lt, bytes_le}

-- `_data: Dict[bytes, bytes]`, the items in the dictionary's own order
pub record Engine : Type 0 where
  pub items : List (Bytes × Bytes)

abbrev pub empty : Engine
empty = record { items = [] }

-- `d.get(k)`
unfoldable pub lookup : Bytes → List (Bytes × Bytes) → Option Bytes
lookup k [] = none
lookup k ((j, v) ∷ l) = if bytes_eq k j then some v else lookup k l

-- `d[k] = v`: a key that is there keeps its place
unfoldable pub insert : Bytes → Bytes → List (Bytes × Bytes) → List (Bytes × Bytes)
insert k v [] = (k, v) ∷ []
insert k v ((j, w) ∷ l) =
    let rest = insert k v l in if bytes_eq k j then (j, v) ∷ l else (j, w) ∷ rest

unfoldable pub put : Bytes → Bytes → Engine → Engine
put k v e = record { items = insert k v e.items }

unfoldable pub get : Bytes → Engine → Option Bytes
get k e = lookup k e.items

unfoldable pub delete : Bytes → Engine → Engine
delete k e = record { items = filter (λ row. not (bytes_eq k row.0)) e.items }

unfoldable pub put_batch : List (Bytes × Bytes) → Engine → Engine
put_batch [] e = e
put_batch ((k, v) ∷ rows) e = put_batch rows (put k v e)

-- `start <= k < end`
abbrev pub in_range : Bytes → Bytes → Bytes → Bool
in_range start end k = bytes_le start k && bytes_lt k end

unfoldable pub delete_range : Bytes → Bytes → Engine → Engine
delete_range start end e = record { items = filter (λ row. not (in_range start end row.0)) e.items }

-- `sorted(keys)`
pub insert_sorted : Bytes → List Bytes → List Bytes
insert_sorted k [] = k ∷ []
insert_sorted k (j ∷ l) =
    let rest = insert_sorted k l in if bytes_le k j then k ∷ j ∷ l else j ∷ rest

pub sorted : List Bytes → List Bytes
sorted [] = []
sorted (k ∷ l) = insert_sorted k (sorted l)

-- `[(k, data[k]) for k in keys]`
unfoldable pub rows_of : List (Bytes × Bytes) → List Bytes → List (Bytes × Bytes)
rows_of items [] = []
rows_of items (k ∷ l) =
    let rest = rows_of items l in elim (lookup k items) [ none ↦ rest | some v ↦ (k, v) ∷ rest ]

abbrev pub scan_keys : Bytes → Bytes → Engine → List Bytes
scan_keys start end e = filter (in_range start end) (sorted (map (λ row. row.0) e.items))

unfoldable pub scan : Bytes → Bytes → Engine → List (Bytes × Bytes)
scan start end e = rows_of e.items (scan_keys start end e)

-- The loop of `next_key` looks for the last byte that is not 0xff, raises it by one and drops
-- what follows; none when there is no such byte.
pub raise_last : Bytes → Option Bytes
raise_last [] = none
raise_last (b ∷ l) = elim (raise_last l) [
  | some l' ↦ some (b ∷ l')
  | none ↦ if ltb b 255 then some ((b + 1) ∷ []) else none
]

unfoldable pub next_key : Bytes → Bytes
next_key key = elim (raise_last key) [ some k ↦ k | none ↦ 255 ∷ [] ]
