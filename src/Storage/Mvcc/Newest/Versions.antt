-- ===== src/Storage/Mvcc/Newest/Versions.antt =====
-- What `get_version` and the `get_latest_...` methods return: the newest row within the bound.
use mathlib.Core.Path.{ap₂}
use oxide_db.Base.{
  ℕ, ◌+◌, ◌≤◌, ◌≡◌, refl, sym, ap, ◌∙◌, ◌⊎◌, inl, inr, false, Option, none, some, arith, ltb,
  length, drop, last?, is_some, if◌then◌else◌, Bool-cases, Option-cases,
}
use oxide_db.Base.Bytes.{Bytes}
use oxide_db.Storage.Engine
use oxide_db.Storage.Engine.{Engine, scan}
use oxide_db.Storage.Keyspace.{
  ok, version_ns, sep, max_ts, of_be, ts_bytes, check_user_key, contains, key_upper_bound,
  version_prefix,
}
use oxide_db.Storage.Mvcc.{decode_version, get_version_at}
use oxide_db.Storage.Mvcc.Types.{MvccRecord}
use oxide_db.Storage.Mvcc.Keys.{row_key, IsKeyspace, of_be-row_key}
use oxide_db.Storage.Mvcc.Newest.{
  Newest, NoRow, Closes, row-Closes, upper-Closes, Newest-some, Newest-none,
}

-- what the end of a scan at `timestamp` is
abbrev bound_key : Bytes → ℕ → Bytes
bound_key key timestamp =
    if ltb timestamp max_ts
    then row_key version_ns key (timestamp + 1)
    else key_upper_bound version_ns key

bound-Closes : (key : Bytes) (t : ℕ) → Closes version_ns key t (bound_key key t)
bound-Closes key t = elim (Bool-cases (ltb t max_ts)) [
  | inl e ↦ rw e (row-Closes version_ns key t (ground arith))
  | inr e ↦ rw e (upper-Closes version_ns key t (ground arith))
]

abbrev decode_row : Bytes → Option (Bytes × Bytes) → Option MvccRecord
decode_row key none = none
decode_row key (some (last_key, last_value)) =
    decode_version last_value (of_be (drop (length (version_prefix key)) last_key))

-- on a legal key `get_version_at` never raises: it decodes the last row of the scan
get_version_at-eq :
    (key : Bytes) (t : ℕ) (e : Engine)
    → contains sep key ≡ false
    → get_version_at key t e
      ≡ ok (decode_row key (last? (scan (version_prefix key) (bound_key key t) e)))
unfolding get_version_at check_user_key ts_bytes
get_version_at-eq key t e legal = ground arith

-- The version at a timestamp: no row up to it, or the newest row up to it, decoded.
pub get_version_at_cases :
    (key : Bytes) (t : ℕ) (e : Engine)
    → contains sep key ≡ false
    → IsKeyspace e
    → ((get_version_at key t e ≡ ok none) × NoRow version_ns key t e)
      ⊎ ((ts : ℕ) × (raw : Bytes) × (get_version_at key t e ≡ ok (decode_version raw ts))
          × Newest version_ns key t e ts raw)
get_version_at_cases key t e legal keyspace =
    elim (Option-cases (last? (scan (version_prefix key) (bound_key key t) e))) [
      | inl h ↦ inl (
        get_version_at-eq key t e legal ∙ ap (λ o. ok (decode_row key o)) h,
        Newest-none e legal keyspace (bound-Closes key t) h,
      )
      | inr (row, h) ↦
          let (ts, same, newest) = Newest-some e legal keyspace (bound-Closes key t) h in
          inr (
            ts,
            row.1,
            get_version_at-eq key t e legal
                ∙ ap (λ o. ok (decode_row key o)) h
                ∙ ap (λ u. ok (decode_version row.1 u))
                    (ap (λ k. of_be (drop (length (version_prefix key)) k)) same
                      ∙ of_be-row_key version_ns key ts newest.fits),
            newest,
          )
    ]

eq_of_some : {a b : Bytes} → some a ≡ some b → a ≡ b
eq_of_some h = cc

-- the newest row is the same one where the rows up to the bound are the same
Newest-unique :
    {ns : ℕ} {key : Bytes} {t : ℕ} {e e' : Engine} {ts u : ℕ} {raw raw' : Bytes}
    → Newest ns key t e ts raw
    → Newest ns key t e' u raw'
    → ((w : ℕ)
        → w ≤ max_ts
        → w ≤ t
        → Engine.get (row_key ns key w) e ≡ Engine.get (row_key ns key w) e')
    → (ts ≡ u) × (raw ≡ raw')
Newest-unique {ns} {key} {e' = e'} {ts = ts} {u = u} n n' same =
    let below : u ≤ ts =
      n.newest u n'.fits n'.within (ap is_some (same u n'.fits n'.within ∙ n'.stored)) in
    let above : ts ≤ u =
      n'.newest ts n.fits n.within (ap is_some (sym (same ts n.fits n.within) ∙ n.stored)) in
    let eq : ts ≡ u = omega arith in
    (
      eq,
      eq_of_some (
          sym n.stored
          ∙ same ts n.fits n.within
          ∙ ap (λ w. Engine.get (row_key ns key w) e') eq
          ∙ n'.stored),
    )

-- two engines with the same rows of a key up to `t` answer a read of it at `t` alike
pub get_version_at_ext :
    (key : Bytes) (t : ℕ) (e e' : Engine)
    → contains sep key ≡ false
    → IsKeyspace e
    → IsKeyspace e'
    → ((u : ℕ)
        → u ≤ max_ts
        → u ≤ t
        → Engine.get (row_key version_ns key u) e ≡ Engine.get (row_key version_ns key u) e')
    → get_version_at key t e ≡ get_version_at key t e'
get_version_at_ext key t e e' legal k k' same = elim (get_version_at_cases key t e legal k) [
  | inl (r, absent) ↦ elim (get_version_at_cases key t e' legal k') [
    | inl (r', absent') ↦ r ∙ sym r'
    | inr (u, raw, r', n) ↦ absurd (cc (n.stored, absent u n.fits n.within, same u n.fits n.within))
  ]
  | inr (ts, raw, r, n) ↦ elim (get_version_at_cases key t e' legal k') [
    | inl (r', absent') ↦
        absurd (cc (n.stored, absent' ts n.fits n.within, same ts n.fits n.within))
    | inr (u, raw', r', n') ↦
        let (times, raws) = Newest-unique n n' same in
        r ∙ ap₂ (λ w x. ok (decode_version x w)) times raws ∙ sym r'
  ]
]

-- a read finds the newest row
pub get_version_at-Newest :
    {key : Bytes} {t : ℕ} {e : Engine} {ts : ℕ} {raw : Bytes}
    → contains sep key ≡ false
    → IsKeyspace e
    → Newest version_ns key t e ts raw
    → get_version_at key t e ≡ ok (decode_version raw ts)
get_version_at-Newest {key} {t} {e} {ts} {raw} legal keyspace n =
    elim (get_version_at_cases key t e legal keyspace) [
      | inl (r, absent) ↦ absurd (cc (n.stored, absent ts n.fits n.within))
      | inr (u, raw', r, n') ↦
          let (times, raws) = Newest-unique n' n (λ w _ _. refl) in
          r ∙ ap₂ (λ w x. ok (decode_version x w)) times raws
    ]
