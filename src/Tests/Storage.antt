-- ===== src/Tests/Storage.antt =====
-- The storage at concrete inputs.
use oxide_db.Base.{ℕ, ◌≤◌, ◌≡◌, refl, inl, true, false, none, some, [], ◌∷◌, arith, if◌then◌else◌}
use oxide_db.Base.Bytes.{Bytes, bytes_eq, bytes_lt}
use oxide_db.Storage.Engine
use oxide_db.Storage.Engine.{Engine, in_range, scan_keys}
use oxide_db.Storage.Keyspace.{
  ok, version_ns, max_ts, contains, check_user_key, ts_bytes, all_start, all_end,
}
use oxide_db.Storage.Mvcc.{delete, get_version, dump, load}
use oxide_db.Storage.Mvcc.Dump.{get-load-dump}
use oxide_db.Storage.Mvcc.Keys.{row_key, IsKeyspace, row_key_lt}
use oxide_db.Storage.Mvcc.Snapshot.{get_version-set, get_version-delete, get_version-set-Unseen}
use oxide_db.Storage.Mvcc.Writes.{Legal, set-eq, put-IsKeyspace}
use oxide_db.Tests.Codec.{test_codec}

abbrev pub user : Bytes
user = 117 ∷ []

abbrev pub other : Bytes
other = 111 ∷ []

pub empty-IsKeyspace : IsKeyspace Engine.empty
unfolding Engine.get Engine.lookup
empty-IsKeyspace = record { rows = λ k h. absurd (ground (arith, h)) }

pub user-Legal : (ts : ℕ) → ts ≤ max_ts → Legal user ts
unfolding contains
user-Legal ts h = record { legal = refl; fits = h }

pub other-Legal : (ts : ℕ) → ts ≤ max_ts → Legal other ts
unfolding contains
other-Legal ts h = record { legal = refl; fits = h }

-- one version of another key
abbrev pub stored : Engine
stored = Engine.put (row_key version_ns other 5) (1 ∷ 7 ∷ []) Engine.empty

pub stored-IsKeyspace : IsKeyspace stored
stored-IsKeyspace =
    put-IsKeyspace version_ns other 5 (1 ∷ 7 ∷ []) Engine.empty (other-Legal 5 (omega arith))
      empty-IsKeyspace

user-absent : (u : ℕ) → Engine.get (row_key version_ns user u) stored ≡ none
unfolding Engine.get Engine.lookup Engine.put Engine.insert bytes_eq
user-absent u = refl

get_version-set_example :
    get_version user 12 (Engine.put (row_key version_ns user 9) (1 ∷ 65 ∷ []) stored)
    ≡ ok (some (record { value = 65 ∷ []; timestamp = 9; deleted = false }))
get_version-set_example =
    get_version-set user (65 ∷ []) 9 12 stored stored-IsKeyspace
      (set-eq user 9 stored (user-Legal 9 (omega arith)) (65 ∷ [])) (omega arith)
      (λ u _ _ _. user-absent u)

get_version-delete_example :
    get_version user 12 (Engine.put (row_key version_ns user 9) (0 ∷ []) stored) ≡ ok none
unfolding delete check_user_key ts_bytes contains
get_version-delete_example =
    get_version-delete user 9 12 stored stored-IsKeyspace refl (omega arith)
      (λ u _ _ _. user-absent u)

get_version-set-Unseen_example :
    get_version other 12 (Engine.put (row_key version_ns user 9) (1 ∷ 65 ∷ []) stored)
    ≡ get_version other 12 stored
unfolding contains
get_version-set-Unseen_example =
    get_version-set-Unseen user other (65 ∷ []) 9 12 stored stored-IsKeyspace
      (set-eq user 9 stored (user-Legal 9 (omega arith)) (65 ∷ [])) refl
      (inl (λ e. absurd (ground (arith, e))))

get-load-dump_example :
    (after : Engine) × (load test_codec (dump test_codec stored) Engine.empty ≡ ok after)
    × ((k : Bytes)
        → Engine.get k after ≡ (
            if in_range all_start all_end k
            then Engine.get k stored
            else Engine.get k Engine.empty))
get-load-dump_example = get-load-dump test_codec stored Engine.empty

row_key_lt_example : bytes_lt (row_key version_ns user 255) (row_key version_ns user 256) ≡ true
row_key_lt_example = row_key_lt version_ns user 255 256 (omega arith) (omega arith)
