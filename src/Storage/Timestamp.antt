-- ===== src/Storage/Timestamp.antt =====
-- oxidedb/storage/timestamp.py: `TimestampAllocator`, whose clock is a parameter of every call.
use oxide_db.Base.{ℕ, ◌+◌, ◌<◌, List, [], ◌∷◌, ltb, if◌then◌else◌, if_rule, arith}

-- `allocate`, at the time `now`: the last timestamp afterwards, which is the one handed out
unfoldable pub allocate : ℕ → ℕ → ℕ
allocate now last_timestamp = if ltb last_timestamp now then now else last_timestamp + 1

-- what calls at these times hand out, in this order
abbrev pub allocate_all : List ℕ → ℕ → List ℕ
allocate_all [] last = []
allocate_all (now ∷ times) last = allocate now last ∷ allocate_all times (allocate now last)

-- every timestamp is larger than those before it
abbrev pub Increasing : ℕ → List ℕ → Type 0
Increasing last [] = Unit
Increasing last (t ∷ l) = (last < t) × Increasing t l

-- Whatever the clock shows, going backwards included, every timestamp that is handed out is larger
-- than every one before it.
pub allocate_all-Increasing :
    (times : List ℕ) (last : ℕ) → Increasing last (allocate_all times last)
unfolding allocate
allocate_all-Increasing [] last = tt
allocate_all-Increasing (now ∷ times) last = (
  if_rule (λ t. last < t) (ltb last now) (λ h. ground arith) (λ h. omega arith),
  allocate_all-Increasing times (allocate now last),
)
