-- ===== src/Storage/Mvcc/Newest.antt =====
-- The last row of a scan over one key's rows is the newest one within the bound.
pub mod Versions
use mathlib.Core.List.{append_assoc}
use oxide_db.Base.{
  ℕ, suc, ◌+◌, ◌≤◌, ◌<◌, ◌≡◌, refl, sym, ap, ◌∙◌, Bool, true, false, not, ◌&&◌, Option, none, some,
  List, [], ◌∷◌, ◌++◌, arith, ltb, leb, length, drop, last?, is_some, if◌then◌else◌,
}
use oxide_db.Base.Bytes.{Bytes, bytes_lt}
use oxide_db.Storage.Engine
use oxide_db.Storage.Engine.{Engine, in_range, scan}
use oxide_db.Storage.Engine.Order.{scan-last, scan-none}
use oxide_db.Storage.Keyspace.{sep, max_ts, be, contains, prefix, key_upper_bound}
use oxide_db.Storage.Keyspace.Prefix.{bytes_lt-append, extension_of_between, separated_of_between}
use oxide_db.Storage.Mvcc.Keys.{
  row_key, RowKey, IsKeyspace, prefix-le-row_key, row_key_lt, row_key-lt-upper_bound, row_of_prefix,
}

-- `ts` is the newest timestamp up to `bound` at which `key` has a row, and `raw` is that row
pub record Newest (ns : ℕ) (key : Bytes) (bound : ℕ) (e : Engine) (ts : ℕ) (raw : Bytes)
    : Type 0 where
  pub fits : ts ≤ max_ts
  pub within : ts ≤ bound
  pub stored : Engine.get (row_key ns key ts) e ≡ some raw
  pub newest :
      (u : ℕ) → u ≤ max_ts → u ≤ bound → is_some (Engine.get (row_key ns key u) e) ≡ true → u ≤ ts

-- no row of `key` up to `bound`
abbrev pub NoRow : ℕ → Bytes → ℕ → Engine → Type 0
NoRow ns key bound e = (u : ℕ) → u ≤ max_ts → u ≤ bound → Engine.get (row_key ns key u) e ≡ none

-- `end` closes a scan of the rows of `key` at `bound`
pub record Closes (ns : ℕ) (key : Bytes) (bound : ℕ) (end : Bytes) : Type 0 where
  pub inside : (u : ℕ) → u ≤ max_ts → bytes_lt (row_key ns key u) end ≡ leb u bound
  pub extends :
      (k : Bytes)
      → in_range (prefix ns key) end k ≡ true
      → (rest : Bytes) × (k ≡ prefix ns key ++ rest)

pub row-Closes :
    (ns : ℕ) (key : Bytes) (t : ℕ) → t < max_ts → Closes ns key t (row_key ns key (t + 1))
row-Closes ns key t h = record {
  inside = λ u fits. ground (arith, row_key_lt ns key u (t + 1));
  extends = λ k r. (
    drop (length (prefix ns key)) k,
    extension_of_between (prefix ns key) (be 8 (t + 1)) k (ground arith) (ground arith),
  );
}

upper_extends :
    (ns : ℕ) (key k : Bytes)
    → in_range (prefix ns key) (key_upper_bound ns key) k ≡ true
    → (rest : Bytes) × (k ≡ prefix ns key ++ rest)
upper_extends ns key k r = (
  drop (suc (length (ns ∷ key))) k,
  separated_of_between (ns ∷ key) k (ground arith) (ground arith),
)

pub upper-Closes :
    (ns : ℕ) (key : Bytes) (t : ℕ) → max_ts ≤ t → Closes ns key t (key_upper_bound ns key)
upper-Closes ns key t h = record {
  inside = λ u fits. ground (arith, row_key-lt-upper_bound ns key u);
  extends = upper_extends ns key;
}

module _ {ns : ℕ} {key : Bytes} {bound : ℕ} {end : Bytes} (e : Engine)
    (legal : contains sep key ≡ false) (keyspace : IsKeyspace e)
    (closes : Closes ns key bound end) where
  row_in_range :
      (u : ℕ) → u ≤ max_ts → u ≤ bound → in_range (prefix ns key) end (row_key ns key u) ≡ true
  row_in_range u fits within = ground (arith, prefix-le-row_key ns key u, closes.inside u fits)

  pub Newest-some :
      {k raw : Bytes}
      → last? (scan (prefix ns key) end e) ≡ some (k, raw)
      → (ts : ℕ) × (k ≡ row_key ns key ts) × Newest ns key bound e ts raw
  Newest-some {k} {raw} h =
      let (inside, stored, newest) = scan-last (prefix ns key) end e h in
      let (rest, e') = closes.extends k inside in
      let (ts, fits, same) =
        row_of_prefix ns key k rest legal (keyspace.rows k (ground arith)) e' in
      (
        ts,
        same,
        record {
          fits = fits;
          within = ground (arith, closes.inside ts fits);
          stored = ap (λ i. Engine.get i e) (sym same) ∙ stored;
          newest = λ u hu bu there. ground (
            arith,
            newest (row_key ns key u) (row_in_range u hu bu) there,
            row_key_lt ns key ts u,
          );
        },
      )

  pub Newest-none : last? (scan (prefix ns key) end e) ≡ none → NoRow ns key bound e
  Newest-none h u fits within =
      scan-none (prefix ns key) end e (row_key ns key u) h (row_in_range u fits within)
