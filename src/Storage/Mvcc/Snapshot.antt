-- ===== src/Storage/Mvcc/Snapshot.antt =====
-- Snapshot reads across writes: a write is read back from its own timestamp on, and a snapshot
-- from before it does not change.
use oxide_db.Base.{
  ℕ, ◌≤◌, ◌<◌, ◌≡◌, ◌≢◌, refl, ◌⊎◌, inl, inr, false, none, some, [], ◌∷◌, arith, ltb, Bool-cases,
}
use oxide_db.Base.Bytes.{Bytes, bytes_eq_iff, bytes_eq_refl}
use oxide_db.Storage.Engine
use oxide_db.Storage.Engine.{Engine}
use oxide_db.Storage.Engine.Laws.{get-put}
use oxide_db.Storage.Keyspace.{ok, version_ns, sep, max_ts, contains}
use oxide_db.Storage.Mvcc.{get_version, get_version_at, set, delete, decode_version}
use oxide_db.Storage.Mvcc.Keys.{row_key, IsKeyspace, row_key_injective}
use oxide_db.Storage.Mvcc.Newest.{Newest}
use oxide_db.Storage.Mvcc.Newest.Versions.{get_version_at_ext, get_version_at-Newest}
use oxide_db.Storage.Mvcc.Writes.{Legal, set_lem, delete_lem, put-IsKeyspace}

-- what a row that is put leaves of the others
get-put_ne :
    (k j raw : Bytes) (e : Engine) → j ≢ k → Engine.get j (Engine.put k raw e) ≡ Engine.get j e
get-put_ne k j raw e h = ground (arith, get-put k j raw e, bytes_eq_iff j k)

get-put_self : (k raw : Bytes) (e : Engine) → Engine.get k (Engine.put k raw e) ≡ some raw
get-put_self k raw e = ground (arith, get-put k k raw e, bytes_eq_refl k)

row_key_ne :
    (ns : ℕ) (key : Bytes) {t u : ℕ}
    → contains sep key ≡ false
    → t ≤ max_ts
    → u ≤ max_ts
    → t < u
    → row_key ns key u ≢ row_key ns key t
row_key_ne ns key {t} {u} legal ht hu h same =
    absurd (omega (arith, (row_key_injective ns ns key key u t legal legal hu ht same).2))

-- a row put at `ts` is the newest up to `t` if `key` has none between the two
put-Newest :
    (ns : ℕ) (key : Bytes) (ts t : ℕ) (raw : Bytes) (e : Engine)
    → Legal key ts
    → ts ≤ t
    → ((u : ℕ) → u ≤ max_ts → ts < u → u ≤ t → Engine.get (row_key ns key u) e ≡ none)
    → Newest ns key t (Engine.put (row_key ns key ts) raw e) ts raw
put-Newest ns key ts t raw e l within gap = record {
  fits = l.fits;
  within = within;
  stored = get-put_self (row_key ns key ts) raw e;
  newest = λ u fits bound there. elim (Bool-cases (ltb ts u)) [
    | inl past ↦
        let later : ts < u = ground arith in
        let other = row_key_ne ns key l.legal l.fits fits later in
        absurd (
          cc
            (get-put_ne (row_key ns key ts) (row_key ns key u) raw e other, gap u fits later bound))
    | inr e' ↦ ground arith
  ];
}

-- The value that is set is read back at its timestamp and later, up to the key's next version.
pub get_version-set :
    (key value : Bytes) (ts t : ℕ) (e : Engine) {e' : Engine}
    → IsKeyspace e
    → set key value ts e ≡ ok e'
    → ts ≤ t
    → ((u : ℕ) → u ≤ max_ts → ts < u → u ≤ t → Engine.get (row_key version_ns key u) e ≡ none)
    → get_version key t e' ≡ ok (some (record { value = value; timestamp = ts; deleted = false }))
unfolding get_version decode_version
get_version-set key value ts t e {e'} k h within gap =
    let (l, eq) = set_lem key value ts e h in
    let n = put-Newest version_ns key ts t (1 ∷ value) e l within gap in
    rw eq (
      rw (get_version_at-Newest l.legal (put-IsKeyspace version_ns key ts (1 ∷ value) e l k) n)
        refl)

-- A key that is deleted reads as absent at that timestamp and later, up to its next version.
pub get_version-delete :
    (key : Bytes) (ts t : ℕ) (e : Engine) {e' : Engine}
    → IsKeyspace e
    → delete key ts e ≡ ok e'
    → ts ≤ t
    → ((u : ℕ) → u ≤ max_ts → ts < u → u ≤ t → Engine.get (row_key version_ns key u) e ≡ none)
    → get_version key t e' ≡ ok none
unfolding get_version decode_version
get_version-delete key ts t e {e'} k h within gap =
    let (l, eq) = delete_lem key ts e h in
    let n = put-Newest version_ns key ts t (0 ∷ []) e l within gap in
    rw eq
      (rw (get_version_at-Newest l.legal (put-IsKeyspace version_ns key ts (0 ∷ []) e l k) n) refl)

-- where a row that is put cannot be seen
abbrev pub Unseen : Bytes → ℕ → Bytes → ℕ → Type 0
Unseen key ts reader t = (reader ≢ key) ⊎ (t < ts)

-- A snapshot does not see a version put for another key or at a later timestamp.
put-Unseen :
    (key reader raw : Bytes) (ts t : ℕ) (e : Engine)
    → IsKeyspace e
    → Legal key ts
    → contains sep reader ≡ false
    → Unseen key ts reader t
    → get_version_at reader t (Engine.put (row_key version_ns key ts) raw e)
      ≡ get_version_at reader t e
put-Unseen key reader raw ts t e k l legal unseen =
    get_version_at_ext reader t (Engine.put (row_key version_ns key ts) raw e) e legal
      (put-IsKeyspace version_ns key ts raw e l k) k
      λ u fits bound.
        get-put_ne (row_key version_ns key ts) (row_key version_ns reader u) raw e (λ same.
          let parts =
            row_key_injective version_ns version_ns reader key u ts legal l.legal fits l.fits
              same in
          elim unseen [ inl other ↦ other parts.1 | inr before ↦ absurd (omega (arith, parts.2)) ])

-- A version that is set for another key, or after the snapshot, changes no answer of the snapshot.
pub get_version-set-Unseen :
    (key reader value : Bytes) (ts t : ℕ) (e : Engine) {e' : Engine}
    → IsKeyspace e
    → set key value ts e ≡ ok e'
    → contains sep reader ≡ false
    → Unseen key ts reader t
    → get_version reader t e' ≡ get_version reader t e
unfolding get_version
get_version-set-Unseen key reader value ts t e k h legal unseen =
    let (l, eq) = set_lem key value ts e h in
    rw (eq, put-Unseen key reader (1 ∷ value) ts t e k l legal unseen) refl
