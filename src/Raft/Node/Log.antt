-- ===== src/Raft/Node/Log.antt =====
-- oxidedb/raft/node.py: a log whose indices follow each other from its base, and what appending,
-- cutting and compacting make of it.
use oxide_db.Base.{
  ℕ, zero, suc, ◌+◌, ◌-◌, ◌≤◌, ◌<◌, ◌≡◌, refl, ap, sym, ◌∙◌, true, false, none, some, List, [], ◌∷◌,
  ◌++◌, ltb, ◌==◌, length, get_elem?, last?, take, drop, filter, arith, inl, inr, Bool-cases,
}
use oxide_db.Raft.Disk.{LogEntry, put_entry}
use oxide_db.Raft.Node.{entry_in, index_or}

-- the entries have the indices from `base + 1` on, one by one
abbrev pub Follows : ℕ → List LogEntry → Type 0
Follows base [] = Unit
Follows base (e ∷ l) = (e.index ≡ base + 1) × Follows (base + 1) l

-- the base says nothing about a log that is not empty
last_base :
    (e : LogEntry) (l : List LogEntry) (a b : ℕ)
    → index_or a (last? (e ∷ l)) ≡ index_or b (last? (e ∷ l))
last_base e [] a b = refl
last_base e (f ∷ l) a b = last_base f l a b

pub take_nil : {A : Type 0} (k : ℕ) → take {A = A} k [] ≡ []
take_nil zero = refl
take_nil (suc k) = refl

drop_nil : {A : Type 0} (k : ℕ) → drop {A = A} k [] ≡ []
drop_nil zero = refl
drop_nil (suc k) = refl

pub Follows-last :
    (base : ℕ) (l : List LogEntry) → Follows base l → index_or base (last? l) ≡ base + length l
Follows-last base [] h = omega arith
Follows-last base (e ∷ []) h = omega (arith, h.0)
Follows-last base (e ∷ f ∷ l) h =
    let rest : index_or (base + 1) (last? (f ∷ l)) ≡ base + 1 + length (f ∷ l) =
      Follows-last (base + 1) (f ∷ l) h.1 in
    last_base f l base (base + 1) ∙ rest ∙ omega arith

pub get_elem?-Follows :
    (base : ℕ) (l : List LogEntry) (i : ℕ) {e : LogEntry}
    → Follows base l
    → get_elem? l i ≡ some e
    → e.index ≡ base + i + 1
get_elem?-Follows base [] i h eq = absurd (ground arith)
get_elem?-Follows base (x ∷ l) zero h eq = ground (arith, h.0)
get_elem?-Follows base (x ∷ l) (suc i) h eq = omega (arith, get_elem?-Follows (base + 1) l i h.1 eq)

pub get_elem?-some :
    {A : Type 0} (l : List A) (i : ℕ) → i < length l → (x : A) × (get_elem? l i ≡ some x)
get_elem?-some [] i h = absurd (omega arith)
get_elem?-some (x ∷ l) zero h = (x, refl)
get_elem?-some (x ∷ l) (suc i) h = get_elem?-some l i (omega arith)

pub get_elem?-none : {A : Type 0} (l : List A) (i : ℕ) → get_elem? l i ≡ none → length l ≤ i
get_elem?-none [] i h = omega arith
get_elem?-none (x ∷ l) zero h = absurd (ground arith)
get_elem?-none (x ∷ l) (suc i) h = omega (arith, get_elem?-none l i h)

pub get_elem?-lt : {A : Type 0} (l : List A) (i : ℕ) {x : A} → get_elem? l i ≡ some x → i < length l
get_elem?-lt [] i h = absurd (ground arith)
get_elem?-lt (x ∷ l) zero h = omega arith
get_elem?-lt (x ∷ l) (suc i) h = omega (arith, get_elem?-lt l i h)

pub append-Follows :
    (base : ℕ) (l : List LogEntry) (e : LogEntry)
    → Follows base l
    → e.index ≡ base + length l + 1
    → Follows base (l ++ e ∷ [])
append-Follows base [] e h eq = (omega arith, tt)
append-Follows base (x ∷ l) e h eq = (h.0, append-Follows (base + 1) l e h.1 (omega arith))

pub take-Follows : (base k : ℕ) (l : List LogEntry) → Follows base l → Follows base (take k l)
take-Follows base zero l h = tt
take-Follows base (suc k) [] h = tt
take-Follows base (suc k) (x ∷ l) h = (h.0, take-Follows (base + 1) k l h.1)

pub length-take : {A : Type 0} (k : ℕ) (l : List A) → k ≤ length l → length (take k l) ≡ k
length-take zero l h = refl
length-take (suc k) [] h = absurd (omega arith)
length-take (suc k) (x ∷ l) h = omega (arith, length-take k l (omega arith))

pub drop-Follows :
    (base c k : ℕ) (l : List LogEntry)
    → c ≡ base + k
    → k ≤ length l
    → Follows base l
    → Follows c (drop k l)
drop-Follows base c zero l eq b h = let same : c ≡ base = omega arith in rw same h
drop-Follows base c (suc k) [] eq b h = absurd (omega arith)
drop-Follows base c (suc k) (x ∷ l) eq b h =
    drop-Follows (base + 1) c k l (omega arith) (omega arith) h.1

pub length-drop : {A : Type 0} (k : ℕ) (l : List A) → length (drop k l) ≡ length l - k
length-drop zero l = omega arith
length-drop (suc k) [] = omega arith
length-drop (suc k) (x ∷ l) = omega (arith, length-drop k l)

-- everything past the base stays
filter_all :
    (base c : ℕ) (l : List LogEntry) → Follows base l → c ≤ base → filter (λ e. ltb c e.index) l ≡ l
filter_all base c [] h b = refl
filter_all base c (x ∷ l) h b =
    let rest = filter_all (base + 1) c l h.1 (omega arith) in ground (arith, h.0, rest)

-- what is dropped from the log as compacted is its first part
pub filter-Follows :
    (base c : ℕ) (l : List LogEntry)
    → Follows base l
    → base ≤ c
    → filter (λ e. ltb c e.index) l ≡ drop (c - base) l
filter-Follows base c [] h b = sym (drop_nil (c - base))
filter-Follows base c (x ∷ l) h b = elim (Bool-cases (ltb base c)) [
  | inl past ↦
      let rest = filter-Follows (base + 1) c l h.1 (ground arith) in
      let out : ltb c x.index ≡ false = ground (arith, h.0) in
      let step : c - base ≡ suc (c - (base + 1)) = ground arith in rw (out, step) rest
  | inr at ↦
      let kept : ltb c x.index ≡ true = ground (arith, h.0) in
      let same : c - base ≡ 0 = ground arith in
      rw (kept, same) (ap (λ l. x ∷ l) (filter_all (base + 1) c l h.1 (ground arith)))
]

-- nothing from the position of the cut on stays
filter_none :
    (base c : ℕ) (l : List LogEntry)
    → Follows base l
    → c ≤ base + 1
    → filter (λ e. ltb e.index c) l ≡ []
filter_none base c [] h b = refl
filter_none base c (x ∷ l) h b =
    let rest = filter_none (base + 1) c l h.1 (omega arith) in ground (arith, h.0, rest)

-- what is cut from the log is its last part
pub filter-truncate :
    (base c : ℕ) (l : List LogEntry)
    → Follows base l
    → base < c
    → filter (λ e. ltb e.index c) l ≡ take (c - base - 1) l
filter-truncate base c [] h b = sym (take_nil (c - base - 1))
filter-truncate base c (x ∷ l) h b = elim (Bool-cases (ltb (base + 1) c)) [
  | inl past ↦
      let rest = filter-truncate (base + 1) c l h.1 (ground arith) in
      let kept : ltb x.index c ≡ true = ground (arith, h.0) in
      let step : c - base - 1 ≡ suc (c - (base + 1) - 1) = ground arith in
      rw (kept, step) (ap (λ l. x ∷ l) rest)
  | inr at ↦
      let out : ltb x.index c ≡ false = ground (arith, h.0) in
      let same : c - base - 1 ≡ 0 = ground arith in
      rw (out, same) (filter_none (base + 1) c l h.1 (ground arith))
]

-- an entry that is put behind the others is appended
pub put_entry-append :
    (base : ℕ) (l : List LogEntry) (e : LogEntry)
    → Follows base l
    → base + length l < e.index
    → put_entry e l ≡ l ++ e ∷ []
unfolding put_entry
put_entry-append base [] e h b = refl
put_entry-append base (x ∷ l) e h b =
    let rest = put_entry-append (base + 1) l e h.1 (omega arith) in
    let past : ltb e.index x.index ≡ false = ground (arith, h.0) in
    let other : (e.index == x.index) ≡ false = ground (arith, h.0) in
    rw (past, other) (ap (λ l. x ∷ l) rest)

module _ (base : ℕ) (l : List LogEntry) where
  pub entry_in-index :
      (i : ℕ) {e : LogEntry} → Follows base l → entry_in l base i ≡ some e → e.index ≡ i
  unfolding entry_in
  entry_in-index i {e} h eq = elim (Bool-cases (ltb base i)) [
    | inl past ↦
        let found : get_elem? l (i - base - 1) ≡ some e = ground (arith, past, eq) in
        ground (arith, past, get_elem?-Follows base l (i - base - 1) h found)
    | inr at ↦ absurd (ground (arith, at, eq))
  ]

  pub entry_in-some :
      (i : ℕ) → base < i → i ≤ base + length l → (e : LogEntry) × (entry_in l base i ≡ some e)
  unfolding entry_in
  entry_in-some i past b =
      let (e, eq) = get_elem?-some l (i - base - 1) (omega arith) in (e, ground (arith, eq))

  pub entry_in-bounds :
      (i : ℕ) {e : LogEntry} → entry_in l base i ≡ some e → (base < i) × (i ≤ base + length l)
  unfolding entry_in
  entry_in-bounds i {e} eq = elim (Bool-cases (ltb base i)) [
    | inl past ↦
        let found : get_elem? l (i - base - 1) ≡ some e = ground (arith, past, eq) in
        (ground arith, ground (arith, past, get_elem?-lt l (i - base - 1) found))
    | inr at ↦ absurd (ground (arith, at, eq))
  ]

  pub entry_in-none : (i : ℕ) → base < i → entry_in l base i ≡ none → base + length l < i
  unfolding entry_in
  entry_in-none i past eq =
      let found : get_elem? l (i - base - 1) ≡ none = ground (arith, eq) in
      ground (arith, get_elem?-none l (i - base - 1) found)
