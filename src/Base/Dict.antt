-- ===== src/Base/Dict.antt =====
-- Python's dictionaries with numbers for keys, as lists of pairs in the order of the first insertion:
-- look-up, assignment, removal, a comprehension over pairs, `sorted(d.items())` and `d == e`.
use Prim.Native.Nat.{ℕ}
use mathlib.Core.Bool.{Bool, true, false, ◌&&◌}
use mathlib.Core.List.{List, [], ◌∷◌}
use mathlib.Core.Option.{Option, none, some}
use mathlib.Core.Logic.{◌≢◌, ◌⊎◌, inl, inr}
use mathlib.Core.Path.{◌≡◌, refl, ◌∙◌}
use native.Mathlib.Omega.{arith}
use oxide_db.Base.Lists.{length}
use oxide_db.Base.Tests.{ltb, ◌==◌, if◌then◌else◌, Bool-cases, is_some}

module _ {V : Type 0} where
  -- `d[key] = value`
  unfoldable pub set_key : ℕ → V → List (ℕ × V) → List (ℕ × V)
  set_key key value [] = (key, value) ∷ []
  set_key key value ((k, v) ∷ l) =
      let rest = set_key key value l in if key == k then (key, value) ∷ l else (k, v) ∷ rest

  -- `d.get(key)`
  unfoldable pub get_key : ℕ → List (ℕ × V) → Option V
  get_key key [] = none
  get_key key ((k, v) ∷ l) = let rest = get_key key l in if key == k then some v else rest

  -- `d.pop(key, None)`
  unfoldable pub del_key : ℕ → List (ℕ × V) → List (ℕ × V)
  del_key key [] = []
  del_key key ((k, v) ∷ l) = let rest = del_key key l in if key == k then l else (k, v) ∷ rest

  -- `{key: value for key, value in pairs}`, added to what is there
  unfoldable pub update : List (ℕ × V) → List (ℕ × V) → List (ℕ × V)
  unfolding set_key
  update d [] = d
  update d ((k, v) ∷ l) = update (set_key k v d) l

  unfoldable pub insert_item : ℕ → V → List (ℕ × V) → List (ℕ × V)
  insert_item key value [] = (key, value) ∷ []
  insert_item key value ((k, v) ∷ l) =
      let rest = insert_item key value l in
      if ltb key k then (key, value) ∷ (k, v) ∷ l else (k, v) ∷ rest

  -- `sorted(d.items())`, whose keys differ
  unfoldable pub sorted_items : List (ℕ × V) → List (ℕ × V)
  unfolding insert_item
  sorted_items [] = []
  sorted_items ((k, v) ∷ l) = insert_item k v (sorted_items l)

  -- no key stands twice
  abbrev pub Distinct : List (ℕ × V) → Type 0
  Distinct [] = Unit {0}
  Distinct ((k, v) ∷ l) = (get_key k l ≡ none) × Distinct l

  pub get_key-set_key :
      (k j : ℕ) (v : V) (l : List (ℕ × V))
      → get_key j (set_key k v l) ≡ (if j == k then some v else get_key j l)
  unfolding get_key set_key
  get_key-set_key k j v [] = refl
  get_key-set_key k j v ((i, w) ∷ l) = let rest = get_key-set_key k j v l in ground (arith, rest)

  pub get_key-set_key_self : (k : ℕ) (v : V) (l : List (ℕ × V)) → get_key k (set_key k v l) ≡ some v
  get_key-set_key_self k v l = get_key-set_key k k v l ∙ ground arith

  pub get_key-set_key_other :
      (k j : ℕ) (v : V) (l : List (ℕ × V)) → j ≢ k → get_key j (set_key k v l) ≡ get_key j l
  get_key-set_key_other k j v l h =
      let different : (j == k) ≡ false = ground (arith, h) in
      get_key-set_key k j v l ∙ rw different refl

  -- what stands at a key after an assignment
  pub get_key-set_key-cases :
      (k j : ℕ) (v w : V) (l : List (ℕ × V))
      → get_key j (set_key k v l) ≡ some w
      → ((j ≡ k) × (v ≡ w)) ⊎ ((j ≢ k) × (get_key j l ≡ some w))
  get_key-set_key-cases k j v w l h = elim (Bool-cases (j == k)) [
    | inl here ↦
        let at : get_key j (set_key k v l) ≡ some v = get_key-set_key k j v l ∙ rw here refl in
        inl (ground (arith, here), cc (at, h))
    | inr there ↦
        let at : get_key j (set_key k v l) ≡ get_key j l =
          get_key-set_key k j v l ∙ rw there refl in
        inr (λ e. ground (arith, there), cc (at, h))
  ]

  pub Distinct-set_key : (k : ℕ) (v : V) (l : List (ℕ × V)) → Distinct l → Distinct (set_key k v l)
  unfolding get_key set_key
  Distinct-set_key k v [] d = (refl, tt)
  Distinct-set_key k v ((i, w) ∷ l) d = elim (Bool-cases (k == i)) [
    | inl same ↦ let eq : k ≡ i = ground (arith, same) in rw same (rw eq d.0, d.1)
    | inr other ↦
        let ne : i ≢ k = λ e. ground (arith, other) in
        rw other (get_key-set_key_other k i v l ne ∙ d.0, Distinct-set_key k v l d.1)
  ]

  pub get_key-del_key :
      (k j : ℕ) (l : List (ℕ × V))
      → Distinct l
      → get_key j (del_key k l) ≡ (if j == k then none else get_key j l)
  unfolding get_key del_key
  get_key-del_key k j [] d = ground arith
  get_key-del_key k j ((i, w) ∷ l) d =
      let rest = get_key-del_key k j l d.1 in ground (arith, rest, d.0)

  pub Distinct-del_key : (k : ℕ) (l : List (ℕ × V)) → Distinct l → Distinct (del_key k l)
  unfolding get_key del_key
  Distinct-del_key k [] d = tt
  Distinct-del_key k ((i, w) ∷ l) d = elim (Bool-cases (k == i)) [
    | inl e ↦ rw e d.1
    | inr e ↦ rw e (get_key-del_key k i l d.1 ∙ ground (arith, d.0), Distinct-del_key k l d.1)
  ]

  pub Distinct-update : (d l : List (ℕ × V)) → Distinct d → Distinct (update d l)
  unfolding update
  Distinct-update d [] h = h
  Distinct-update d ((k, v) ∷ l) h = Distinct-update (set_key k v d) l (Distinct-set_key k v d h)

  -- the last of the pairs with a key counts; where each stands once, what counts is that it is there
  pub get_key-update :
      (j : ℕ) (d l : List (ℕ × V))
      → Distinct l
      → get_key j (update d l) ≡ (if is_some (get_key j l) then get_key j l else get_key j d)
  unfolding update get_key
  get_key-update j d [] h = refl
  get_key-update j d ((k, v) ∷ l) h =
      get_key-update j (set_key k v d) l h.1 ∙ elim (Bool-cases (j == k)) [
        | inl same ↦
            let eq : j ≡ k = ground (arith, same) in
            rw (get_key-set_key k j v d, same) (rw eq (rw h.0 refl))
        | inr other ↦ rw (get_key-set_key k j v d, other) refl
      ]

  pub get_key-insert_item :
      (k j : ℕ) (v : V) (l : List (ℕ × V))
      → get_key k l ≡ none
      → get_key j (insert_item k v l) ≡ (if j == k then some v else get_key j l)
  unfolding get_key insert_item
  get_key-insert_item k j v [] h = refl
  get_key-insert_item k j v ((i, w) ∷ l) h =
      let rest = get_key-insert_item k j v l in ground (arith, rest)

  pub get_key-sorted_items :
      (j : ℕ) (l : List (ℕ × V)) → Distinct l → get_key j (sorted_items l) ≡ get_key j l
  unfolding get_key sorted_items
  get_key-sorted_items j [] h = refl
  get_key-sorted_items j ((k, v) ∷ l) h =
      get_key-insert_item k j v (sorted_items l) (get_key-sorted_items k l h.1 ∙ h.0)
      ∙ ground (arith, get_key-sorted_items j l h.1)

  Distinct-insert_item :
      (k : ℕ) (v : V) (l : List (ℕ × V))
      → get_key k l ≡ none
      → Distinct l
      → Distinct (insert_item k v l)
  unfolding get_key insert_item
  Distinct-insert_item k v [] h d = (refl, tt)
  Distinct-insert_item k v ((i, w) ∷ l) h d = elim (Bool-cases (ltb k i)) [
    | inl smaller ↦ rw smaller (h, d)
    | inr larger ↦
        let there : get_key k l ≡ none = ground (arith, h) in
        let ne : (i == k) ≡ false = ground (arith, h) in
        rw larger
          (get_key-insert_item k i v l there ∙ rw ne d.0, Distinct-insert_item k v l there d.1)
  ]

  pub Distinct-sorted_items : (l : List (ℕ × V)) → Distinct l → Distinct (sorted_items l)
  unfolding sorted_items
  Distinct-sorted_items [] h = tt
  Distinct-sorted_items ((k, v) ∷ l) h =
      Distinct-insert_item k v (sorted_items l) (get_key-sorted_items k l h.1 ∙ h.0)
        (Distinct-sorted_items l h.1)

module _ {V : Type 0} (eq : V → V → Bool) where
  -- every pair of the first dictionary stands in the second
  unfoldable pub included : List (ℕ × V) → List (ℕ × V) → Bool
  unfolding get_key
  included [] e = true
  included ((k, v) ∷ l) e = elim (get_key k e) [ none ↦ false | some w ↦ eq v w && included l e ]

  -- `d == e`
  unfoldable pub dict_eq : List (ℕ × V) → List (ℕ × V) → Bool
  unfolding included
  dict_eq d e = (length d == length e) && included d e

  included_there :
      ((v : V) → eq v v ≡ true)
      → (l e : List (ℕ × V)) → ((j : ℕ) (v : V) → get_key j l ≡ some v → get_key j e ≡ some v)
      → Distinct l
      → included l e ≡ true
  unfolding included get_key
  included_there same [] e h d = refl
  included_there same ((k, v) ∷ l) e h d =
      let here : get_key k e ≡ some v = h k v (ground arith) in
      let rest : included l e ≡ true =
        included_there same l e (λ j w g. h j w (ground (arith, d.0, g))) d.1 in
      ground (arith, here, same v, rest)

  pub dict_eq_refl :
      ((v : V) → eq v v ≡ true) → (l : List (ℕ × V)) → Distinct l → dict_eq l l ≡ true
  unfolding dict_eq
  dict_eq_refl same l d =
      let all : included l l ≡ true = included_there same l l (λ j v h. h) d in ground (arith, all)
