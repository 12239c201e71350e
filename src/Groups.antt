-- ===== src/Groups.antt =====
-- oxidedb/groups.py: the codes on the wire and the way back from them. The five values of the
-- generated enumeration are the constructors of `WireCode`.
use oxide_db.Base.{
  ℕ, ◌≡◌, Bool, true, false, Option, none, some, arith, ◌==◌, if◌then◌else◌, inl, inr, Bool-cases,
}
use oxide_db.Raft.ErrorCode
use oxide_db.Raft.ErrorCode.{is_not_leader}

pub data WireCode : Type 0 where
  code_ok not_leader locked refused timeout : WireCode

-- `error_code is None or error_code == ErrorCode.SUCCESS`
abbrev pub is_success : Option ℕ → Bool
is_success none = true
is_success (some code) = code == ErrorCode.success

abbrev is_timeout : Option ℕ → Bool
is_timeout none = false
is_timeout (some code) = code == ErrorCode.err_timeout

unfoldable pub wire_code : Option ℕ → WireCode
unfolding is_not_leader
wire_code error_code =
    if is_success error_code
    then WireCode.code_ok
    else if is_not_leader error_code
    then WireCode.not_leader
    else if is_timeout error_code
    then WireCode.timeout
    else WireCode.refused

unfoldable pub local_code : WireCode → ℕ
local_code WireCode.not_leader = ErrorCode.err_not_leader
local_code WireCode.locked = ErrorCode.err_locked
local_code WireCode.timeout = ErrorCode.err_timeout
local_code WireCode.code_ok = ErrorCode.err_apply_error
local_code WireCode.refused = ErrorCode.err_apply_error

-- the code of a refusal that a caller has read back from the wire
abbrev pub across : ℕ → ℕ
across code = local_code (wire_code (some code))

-- A code of a group that goes over the wire and back still says whether the node leads, and whether
-- the call timed out; a second trip changes nothing.
across-keeps :
    (code : ℕ)
    → (is_not_leader (some (across code)) ≡ is_not_leader (some code))
      × (((across code == ErrorCode.err_timeout) ≡ (code == ErrorCode.err_timeout))
          × (across (across code) ≡ across code))
unfolding wire_code local_code is_not_leader
across-keeps code = elim (Bool-cases (code == ErrorCode.success)) [
  | inl success ↦ (ground (arith, success), (ground (arith, success), ground (arith, success)))
  | inr failed ↦ elim (Bool-cases (is_not_leader (some code))) [
    | inl away ↦
        (ground (arith, failed, away), (ground (arith, failed, away), ground (arith, failed, away)))
    | inr here ↦ elim (Bool-cases (code == ErrorCode.err_timeout)) [
      | inl late ↦ (
        ground (arith, failed, here, late),
        (ground (arith, failed, here, late), ground (arith, failed, here, late)),
      )
      | inr other ↦ (
        ground (arith, failed, here, other),
        (ground (arith, failed, here, other), ground (arith, failed, here, other)),
      )
    ]
  ]
]
