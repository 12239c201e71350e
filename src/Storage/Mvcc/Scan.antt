-- ===== src/Storage/Mvcc/Scan.antt =====
-- oxidedb/storage/mvcc.py: `scan_versions` and `scan`, one walk over the rows of a range that
-- keeps the newest visible version of the key at hand.
use oxide_db.Base.{ℕ, Bool, false, Option, none, some, List, [], ◌∷◌, ◌++◌, map, leb, if◌then◌else◌}
use oxide_db.Base.Bytes.{Bytes, bytes_eq}
use oxide_db.Storage.Engine
use oxide_db.Storage.Engine.{Engine}
use oxide_db.Storage.Keyspace.{Result, ok, ◌>>=◌, version_ns, check_user_key, split_version_key}
use oxide_db.Storage.Mvcc.{decode_version, visible}

abbrev pub Row : Type 0
Row = Bytes × Bytes × ℕ

-- the variables of the loop
pub record Walk : Type 0 where
  pub current_key : Option Bytes
  pub current_value : Option Bytes
  pub current_ts : ℕ
  pub result : List Row

abbrev pub start_walk : Walk
start_walk = record { current_key = none; current_value = none; current_ts = 0; result = [] }

-- `if current_key is not None and current_value is not None: result.append(...)`
unfoldable pub flush : Walk → List Row
flush w = elim w.current_key [
  | none ↦ w.result
  | some k ↦ elim w.current_value [
    | none ↦ w.result
    | some v ↦ w.result ++ (k, v, w.current_ts) ∷ []
  ]
]

abbrev is_current : Bytes → Option Bytes → Bool
is_current user_key none = false
is_current user_key (some k) = bytes_eq user_key k

-- `if user_key != current_key: ...`
unfoldable pub enter_key : Bytes → Walk → Walk
unfolding flush
enter_key user_key w = if is_current user_key w.current_key then w else record {
  current_key = some user_key;
  current_value = none;
  current_ts = 0;
  result = flush w;
}

-- `if version_ts <= timestamp: ...`
unfoldable pub see_version : ℕ → ℕ → Bytes → Walk → Walk
unfolding decode_version
see_version timestamp version_ts raw w =
    if leb version_ts timestamp
    then (elim (visible (decode_version raw version_ts)) [
      | none ↦ record w { current_value = none; current_ts = 0 }
      | some r ↦ record w { current_value = some r.value; current_ts = version_ts }
    ])
    else w

unfoldable pub walk : ℕ → List (Bytes × Bytes) → Walk → Result Walk
unfolding enter_key see_version
walk timestamp [] w = ok w
walk timestamp ((row_key, raw) ∷ rows) w = do
  (user_key, version_ts) ← split_version_key row_key
  walk timestamp rows (see_version timestamp version_ts raw (enter_key user_key w))

unfoldable pub scan_versions : Bytes → Bytes → ℕ → Engine → Result (List Row)
unfolding walk
scan_versions start_key end_key timestamp e = do
  start ← check_user_key start_key
  end ← check_user_key end_key
  w ← walk timestamp (Engine.scan (version_ns ∷ start) (version_ns ∷ end) e) start_walk
  ok (flush w)

unfoldable pub scan : Bytes → Bytes → ℕ → Engine → Result (List (Bytes × Bytes))
unfolding scan_versions
scan start_key end_key timestamp e = do
  rows ← scan_versions start_key end_key timestamp e
  ok (map (λ row. (row.0, row.1)) rows)
