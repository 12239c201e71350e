-- ===== src/Tso.antt =====
-- oxidedb/tso/tso.py: the timestamp group: its state machine, the client that hands out the
-- numbers of a run, and the two calls of its service.
pub mod Runs
use oxide_db.Base.{
  ℕ, zero, suc, ◌+◌, ◌-◌, ◌≤◌, ◌<◌, ◌≡◌, Bool, true, false, Option, none, some, List, [], ◌∷◌, ltb,
  leb, if◌then◌else◌,
}

-- both ends of a run, inclusive
pub record Run : Type 0 where
  pub start_ts : ℕ
  pub end_ts : ℕ

-- `_apply_allocate` of `TSOSMStateMachine`, on `_current_ts`
unfoldable pub apply_allocate : ℕ → ℕ → Run × ℕ
apply_allocate batch_size current_ts = (
  record { start_ts = current_ts + 1; end_ts = current_ts + batch_size },
  current_ts + batch_size,
)

-- The commands that `apply` tells apart, as msgpack gives them; the batch may be left out. It is a
-- natural number: the two calls of the service refuse or do not send a negative one, and a client of
-- this model has none. `apply` itself would take one and move the counter back.
pub data Command : Type 0 where
  allocate : Option ℕ → Command
  other : Command

-- a result of `apply`, without what it says to a person
pub data Answer : Type 0 where
  run : Run → Answer
  nothing : Answer
  failed : Answer

abbrev size_of : Option ℕ → ℕ
size_of none = 1000
size_of (some n) = n

-- `apply`, on what msgpack makes of the command, none where it raises
unfoldable pub apply : Option Command → ℕ → Answer × ℕ
unfolding apply_allocate
apply none current_ts = (Answer.failed, current_ts)
apply (some Command.other) current_ts = (Answer.nothing, current_ts)
apply (some (Command.allocate batch)) current_ts =
    let (r, after) = apply_allocate (size_of batch) current_ts in (Answer.run r, after)

-- what the client keeps: the numbers from the one to the other, exclusive
pub record Client : Type 0 where
  pub batch_size : ℕ
  pub local_start : ℕ
  pub local_end : ℕ

-- what a proposal of the client comes back with: data, a success without data, or a failure
pub data Proposed : Type 0 where
  data_of : Run → Proposed
  without_data : Proposed
  refused : Proposed

-- `_fetch_batch`, none where it raises
unfoldable pub fetch_batch : Proposed → Client → Option Client
fetch_batch (Proposed.data_of r) c =
    some (record c { local_start = r.start_ts; local_end = r.end_ts + 1 })
fetch_batch Proposed.without_data c = some (record c { local_start = 0; local_end = 0 + 1 })
fetch_batch Proposed.refused c = none

abbrev pub hand_out : Option Client → Option (ℕ × Client)
hand_out none = none
hand_out (some c) = some (c.local_start, record c { local_start = c.local_start + 1 })

-- `get_timestamp`, with what a proposal would come back with, none where it raises
unfoldable pub get_timestamp : Proposed → Client → Option (ℕ × Client)
unfolding fetch_batch
get_timestamp proposed c =
    if leb c.local_end c.local_start then hand_out (fetch_batch proposed c) else hand_out (some c)

-- the answer of the two calls: an error, one timestamp, or a run
pub data Reply : Type 0 where
  error : Reply
  timestamp : ℕ → Reply
  batch : Run → Reply

abbrev pub start_of : Answer → Reply
start_of (Answer.run r) = Reply.timestamp r.start_ts
start_of Answer.nothing = Reply.timestamp 0
start_of Answer.failed = Reply.error

abbrev pub both_of : Answer → Reply
both_of (Answer.run r) = Reply.batch r
both_of Answer.nothing = Reply.batch (record { start_ts = 0; end_ts = 0 })
both_of Answer.failed = Reply.error

-- `GetTimestamp` and `GetTimestampBatch` on a node that leads and whose proposal is committed
unfoldable pub serve_timestamp : ℕ → Reply × ℕ
unfolding apply
serve_timestamp current_ts =
    let (a, after) = apply (some (Command.allocate (some 1))) current_ts in (start_of a, after)

unfoldable pub serve_batch : ℕ → ℕ → Reply × ℕ
unfolding apply
serve_batch count current_ts =
    let (a, after) = apply (some (Command.allocate (some count))) current_ts in
    if ltb count 1 then (Reply.error, current_ts) else (both_of a, after)
