-- ===== src/Storage/Engine/Laws.antt =====
-- Point laws of the in-memory engine: what `get` returns after each write.
use oxide_db.Base.{
  ◌≡◌, refl, Bool, not, Option, none, some, List, [], ◌∷◌, arith, if◌then◌else◌, filter,
}
use oxide_db.Base.Bytes.{Bytes, bytes_eq, bytes_eq_iff}
use oxide_db.Storage.Engine.{
  Engine, lookup, insert, put, get, delete, put_batch, in_range, delete_range,
}

pub lookup-insert :
    (k j : Bytes) (v : Bytes) (l : List (Bytes × Bytes))
    → lookup j (insert k v l) ≡ (if bytes_eq j k then some v else lookup j l)
unfolding lookup insert
lookup-insert k j v [] = refl
lookup-insert k j v ((i, w) ∷ l) =
    ground (arith, bytes_eq_iff k i, bytes_eq_iff j i, bytes_eq_iff j k, lookup-insert k j v l)

-- a filter by the key keeps what the key's test keeps
pub lookup-filter :
    (p : Bytes → Bool) (j : Bytes) (l : List (Bytes × Bytes))
    → lookup j (filter (λ row. p row.0) l) ≡ (if p j then lookup j l else none)
unfolding lookup
lookup-filter p j [] = ground arith
lookup-filter p j ((i, w) ∷ l) = ground (arith, bytes_eq_iff j i, lookup-filter p j l)

pub get-put :
    (k j v : Bytes) (e : Engine) → get j (put k v e) ≡ (if bytes_eq j k then some v else get j e)
unfolding get put
get-put k j v e = lookup-insert k j v e.items

pub get-delete :
    (k j : Bytes) (e : Engine) → get j (delete k e) ≡ (if bytes_eq j k then none else get j e)
unfolding get delete
get-delete k j e =
    rw (lookup-filter (λ i. not (bytes_eq k i)))
      (ground (arith, bytes_eq_iff j k, bytes_eq_iff k j))

pub get-delete_range :
    (start end j : Bytes) (e : Engine)
    → get j (delete_range start end e) ≡ (if in_range start end j then none else get j e)
unfolding get delete_range
get-delete_range start end j e = rw (lookup-filter (λ i. not (in_range start end i))) (ground arith)

pub ruleset engine_laws = (get-put, get-delete, get-delete_range)

-- the last row of a batch that has the key
unfoldable pub last_of : Bytes → List (Bytes × Bytes) → Option Bytes → Option Bytes
last_of j [] o = o
last_of j ((k, v) ∷ rows) o = last_of j rows (if bytes_eq j k then some v else o)

pub get-put_batch :
    (rows : List (Bytes × Bytes)) (j : Bytes) (e : Engine)
    → get j (put_batch rows e) ≡ last_of j rows (get j e)
unfolding put_batch last_of
get-put_batch [] j e = refl
get-put_batch ((k, v) ∷ rows) j e = rw (get-put_batch rows j (put k v e), get-put k j v e)
