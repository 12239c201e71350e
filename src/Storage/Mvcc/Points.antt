-- ===== src/Storage/Mvcc/Points.antt =====
-- Point reads across the writes, row by row: a row is told apart by its namespace, its key and its
-- timestamp.
use oxide_db.Base.{
  ℕ, ◌≡◌, refl, sym, ap, ◌∙◌, Bool, true, false, ◌&&◌, none, some, arith, ◌==◌, if◌then◌else◌,
}
use oxide_db.Base.Bytes.{Bytes, bytes_eq, bytes_eq_iff}
use oxide_db.Storage.Engine
use oxide_db.Storage.Engine.{Engine}
use oxide_db.Storage.Engine.Laws.{get-put, get-delete}
use oxide_db.Storage.Mvcc.Keys.{row_key, row_key_injective}
use oxide_db.Storage.Mvcc.Writes.{Legal}

eq_of_iff : (a b : Bool) → (a ≡ true → b ≡ true) → (b ≡ true → a ≡ true) → a ≡ b
eq_of_iff true b f g = sym (f refl)
eq_of_iff false true f g = g refl
eq_of_iff false false f g = refl

-- the test that two rows are one
abbrev pub same_row : ℕ → ℕ → Bytes → Bytes → ℕ → ℕ → Bool
same_row ns ms k j t u = ns == ms && (bytes_eq k j && t == u)

module _ (ns ms : ℕ) (k j : Bytes) (t u : ℕ) (l : Legal k t) (l' : Legal j u) where
  rows_of_parts : same_row ns ms k j t u ≡ true → row_key ns k t ≡ row_key ms j u
  rows_of_parts h =
      let eqs : (ns ≡ ms) × (k ≡ j) × (t ≡ u) = ground (arith, bytes_eq_iff k j) in
      cc (eqs.0, eqs.1, eqs.2)

  parts_of_rows : row_key ns k t ≡ row_key ms j u → same_row ns ms k j t u ≡ true
  parts_of_rows h =
      let (a, b, c) = row_key_injective ns ms k j t u l.legal l'.legal l.fits l'.fits h in
      ground (arith, bytes_eq_iff k j)

  pub bytes_eq-row_key : bytes_eq (row_key ns k t) (row_key ms j u) ≡ same_row ns ms k j t u
  bytes_eq-row_key =
      eq_of_iff _ _ (λ h. parts_of_rows ((bytes_eq_iff (row_key ns k t) (row_key ms j u)).0 h))
        (λ h. (bytes_eq_iff (row_key ns k t) (row_key ms j u)).1 (rows_of_parts h))

  -- a row after another one is put
  pub get-put_row :
      (raw : Bytes) (e : Engine)
      → Engine.get (row_key ns k t) (Engine.put (row_key ms j u) raw e)
        ≡ (if same_row ns ms k j t u then some raw else Engine.get (row_key ns k t) e)
  get-put_row raw e =
      get-put (row_key ms j u) (row_key ns k t) raw e
      ∙ ap (λ b. if b then some raw else Engine.get (row_key ns k t) e) bytes_eq-row_key

  -- a row after another one is deleted
  pub get-delete_row :
      (e : Engine)
      → Engine.get (row_key ns k t) (Engine.delete (row_key ms j u) e)
        ≡ (if same_row ns ms k j t u then none else Engine.get (row_key ns k t) e)
  get-delete_row e =
      get-delete (row_key ms j u) (row_key ns k t) e
      ∙ ap (λ b. if b then none else Engine.get (row_key ns k t) e) bytes_eq-row_key
