-- ===== src/Raft/StateMachine/Keeps.antt =====
-- Rules for what the actions of the state machine keep, one for each way to build an action.
use oxide_db.Base.{ℕ, ◌≡◌, refl, Bool, true, false, arith, if◌then◌else◌}
use oxide_db.Storage.Engine.{Engine}
use oxide_db.Storage.Keyspace.{Result, ok, raise}
use oxide_db.Raft.StateMachine.Actions.{
  Machine, Exec, ◌>>=◌, continue, pure, ask, written, write, advance,
}

-- `act` keeps `P`, whether it returns or raises
pub record Keeps {A : Type 0} (P : Machine → Type 0) (act : Exec A) : Type 0 where
  pub at : (m : Machine) → P m → P (act m).1

module _ {P : Machine → Type 0} {A : Type 0} where
  pub Keeps-pure : (a : A) → Keeps P (pure a)
  Keeps-pure a = record { at = λ m h. h }

  pub Keeps-ask : (f : Engine → Result A) → Keeps P (ask f)
  Keeps-ask f = record { at = λ m h. h }

  pub Keeps-if :
      (b : Bool) (act other : Exec A)
      → Keeps P act
      → Keeps P other
      → Keeps P (if b then act else other)
  Keeps-if true act other k l = k
  Keeps-if false act other k l = l

module _ {P : Machine → Type 0} {A B : Type 0} where
  pub Keeps-bind :
      (act : Exec A) (f : A → Exec B)
      → Keeps P act
      → ((a : A) → Keeps P (f a))
      → Keeps P (act >>= f)
  unfolding ◌>>=◌
  Keeps-bind act f k l = record { at = λ m h. go (act m).0 (act m).1 (k.at m h) }
    where
      go : (r : Result A) (m' : Machine) → P m' → P (continue r f m').1
      go (ok a) m' h = (l a).at m' h
      go (raise x) m' h = h

module _ {P : Machine → Type 0} where
  -- a write that raises leaves the machine as it was
  pub Keeps-write :
      (f : Engine → Result Engine)
      → ((m : Machine) (e : Engine) → f m.storage ≡ ok e → P m → P (record m { storage = e }))
      → Keeps P (write f)
  unfolding write
  Keeps-write f k = record { at = λ m h. go m h (f m.storage) refl }
    where
      go : (m : Machine) → P m → (r : Result Engine) → f m.storage ≡ r → P (written r m).1
      go m h (ok e) eq = k m e eq h
      go m h (raise x) eq = h

storage-advance : (t : ℕ) (m : Machine) → (advance t m).1.storage ≡ m.storage
unfolding advance
storage-advance t m = ground arith

-- what speaks of the storage alone is kept by `advance`
pub Keeps-advance : (Q : Engine → Type 0) (t : ℕ) → Keeps (λ m. Q m.storage) (advance t)
Keeps-advance Q t = record { at = λ m h. rw storage-advance h }
