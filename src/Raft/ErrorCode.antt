-- ===== src/Raft/ErrorCode.antt =====
-- oxidedb/raft/state_machine.py: `ErrorCode`, and the refusals that send a caller to the leader.
use oxide_db.Base.{ℕ, Bool, false, ◌||◌, Option, none, some, ◌==◌}

abbrev pub success : ℕ
success = 0

abbrev pub err_unknown : ℕ
err_unknown = 1

abbrev pub err_apply_error : ℕ
err_apply_error = 2

abbrev pub err_locked : ℕ
err_locked = 101

abbrev pub err_write_conflict : ℕ
err_write_conflict = 102

abbrev pub err_no_lock : ℕ
err_no_lock = 201

abbrev pub err_timestamp_mismatch : ℕ
err_timestamp_mismatch = 202

abbrev pub err_lock_status_invalid : ℕ
err_lock_status_invalid = 203

abbrev pub err_not_leader : ℕ
err_not_leader = 301

abbrev pub err_leadership_lost : ℕ
err_leadership_lost = 302

abbrev pub err_timeout : ℕ
err_timeout = 303

abbrev pub err_entry_overwritten : ℕ
err_entry_overwritten = 304

abbrev pub err_split_in_progress : ℕ
err_split_in_progress = 305

abbrev pub err_migrating : ℕ
err_migrating = 306

unfoldable pub is_not_leader : Option ℕ → Bool
is_not_leader none = false
is_not_leader (some code) = code == err_not_leader || code == err_leadership_lost
