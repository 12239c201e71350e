-- ===== src/Raft/StateMachine/Actions.antt =====
-- The methods of `MVCCStateMachine`: they read and write the storage, and may raise. What was
-- written before an exception stays written, so the machine comes back beside the error too.
use oxide_db.Base.{ℕ, ltb, if◌then◌else◌}
use oxide_db.Storage.Engine.{Engine}
use oxide_db.Storage.Keyspace.{Result, ok, raise}

pub record Machine : Type 0 where
  pub storage : Engine
  pub last_applied_timestamp : ℕ

abbrev pub Exec : Type 0 → Type 0
Exec A = Machine → Result A × Machine

abbrev pub continue : {A B : Type 0} → Result A → (A → Exec B) → Exec B
continue (ok a) f m = f a m
continue (raise x) f m = (raise x, m)

infixl 5 ◌>>=◌ ◌>>◌
unfoldable pub ◌>>=◌ : {A B : Type 0} → Exec A → (A → Exec B) → Exec B
◌>>=◌ act f m = let (r, m') = act m in continue r f m'

abbrev pub ◌>>◌ : {A B : Type 0} → Exec A → Exec B → Exec B
act >> k = act >>= λ _. k

abbrev pub pure : {A : Type 0} → A → Exec A
pure a m = (ok a, m)

-- a read of the storage
abbrev pub ask : {A : Type 0} → (Engine → Result A) → Exec A
ask f m = (f m.storage, m)

abbrev pub written : Result Engine → Exec (Unit {0})
written (ok e) m = (ok tt, record m { storage = e })
written (raise x) m = (raise x, m)

-- a write of the storage
unfoldable pub write : (Engine → Result Engine) → Exec (Unit {0})
write f m = written (f m.storage) m

-- `if timestamp > self._last_applied_timestamp: self._last_applied_timestamp = timestamp`
unfoldable pub advance : ℕ → Exec (Unit {0})
advance timestamp m = (
  ok tt,
  if ltb m.last_applied_timestamp timestamp
      then record m { last_applied_timestamp = timestamp }
      else m,
)
