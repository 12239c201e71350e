-- ===== src/Tso/Runs.antt =====
-- oxidedb/tso/tso.py: the runs of the group do not overlap, and a client hands out every number
-- of its runs once and in order.
use oxide_db.Base.{
  Bool, ◌⊎◌, ℕ, ◌+◌, ◌≤◌, ◌<◌, ◌≡◌, false, Option, none, some, List, [], ◌∷◌, leb, if◌then◌else◌,
  arith,
}
use oxide_db.Tso.{Run, apply_allocate, apply, Command, Answer, Client, Proposed, get_timestamp}

-- what commands make of the counter, and the runs that they are answered with
abbrev pub after_all : List (Option Command) → ℕ → ℕ
after_all [] current = current
after_all (c ∷ l) current = after_all l (apply c current).1

abbrev run_of : Answer → List Run → List Run
run_of (Answer.run r) l = r ∷ l
run_of Answer.nothing l = l
run_of Answer.failed l = l

abbrev pub runs : List (Option Command) → ℕ → List Run
runs [] current = []
runs (c ∷ l) current = run_of (apply c current).0 (runs l (apply c current).1)

-- the runs are behind `current`, each behind the one before
abbrev pub Apart : ℕ → List Run → Type 0
Apart current [] = Unit
Apart current (r ∷ l) = (current < r.start_ts) × ((r.start_ts ≤ r.end_ts + 1) × Apart r.end_ts l)

Apart-le : (a b : ℕ) (l : List Run) → a ≤ b → Apart b l → Apart a l
Apart-le a b [] h k = tt
Apart-le a b (r ∷ l) h k = (omega (arith, h, k.0), k.1)

-- Whatever commands the group applies, allocates of batches that are not negative, other ones and
-- ones it cannot read included, every run starts behind the counter and behind the end of the run before it.
pub runs-Apart :
    (commands : List (Option Command)) (current : ℕ) → Apart current (runs commands current)
unfolding apply apply_allocate
runs-Apart [] current = tt
runs-Apart (none ∷ l) current = runs-Apart l current
runs-Apart (some Command.other ∷ l) current = runs-Apart l current
runs-Apart (some (Command.allocate none) ∷ l) current =
    (omega arith, (omega arith, runs-Apart l (current + 1000)))
runs-Apart (some (Command.allocate (some n)) ∷ l) current =
    (omega arith, (omega arith, runs-Apart l (current + n)))

-- The counter never goes back.
pub after_all-le :
    (commands : List (Option Command)) (current : ℕ) → current ≤ after_all commands current
unfolding apply apply_allocate
after_all-le [] current = omega arith
after_all-le (none ∷ l) current = after_all-le l current
after_all-le (some Command.other ∷ l) current = after_all-le l current
after_all-le (some (Command.allocate none) ∷ l) current =
    omega (arith, after_all-le l (current + 1000))
after_all-le (some (Command.allocate (some n)) ∷ l) current =
    omega (arith, after_all-le l (current + n))

-- the state of the group and one of its clients
pub record Pair : Type 0 where
  pub current : ℕ
  pub client : Client

-- What a proposal of the client comes to: it is answered with its run; it succeeds and its result is no
-- longer kept; or it fails, with the command applied all the same or not.
pub data Fate : Type 0 where
  answered emptied : Fate
  refused : Bool → Fate

-- the answer to the client's allocate, and the counter of the group behind it
abbrev proposed : Fate → ℕ → Client → Proposed
proposed Fate.answered current c = Proposed.data_of (apply_allocate c.batch_size current).0
proposed Fate.emptied current c = Proposed.without_data
proposed (Fate.refused landed) current c = Proposed.refused

abbrev counter : Fate → ℕ → Client → ℕ
counter (Fate.refused false) current c = current
counter _ current c = (apply_allocate c.batch_size current).1

abbrev taken : ℕ → Client → Option (ℕ × Client) → Option ℕ × Pair
taken current old none = (none, record { current = current; client = old })
taken current old (some (t, c)) = (some t, record { current = current; client = c })

-- A call of the client after the group has applied `others`, commands of other clients. Where the
-- client has no number left it proposes an allocate of its batch, which ends as the fate says.
abbrev pub call : Fate → List (Option Command) → Pair → Option ℕ × Pair
call fate others p =
    let current = after_all others p.current in
    let answer = get_timestamp (proposed fate current p.client) p.client in
    if leb p.client.local_end p.client.local_start
    then taken (counter fate current p.client) p.client answer
    else taken current p.client answer

-- the client's numbers are ones that the group has counted
pub record Counted (p : Pair) : Type 0 where
  pub allocated : p.client.local_end ≤ p.current + 1
  pub within : p.client.local_start ≤ p.client.local_end
  pub batches : 1 ≤ p.client.batch_size

-- what a call gives: a number that the group has counted, which the client has not handed out
-- before and does not hand out again
pub record Fresh (p : Pair) (t : ℕ) (p' : Pair) : Type 0 where
  pub not_before : p.client.local_start ≤ t
  pub not_again : p'.client.local_start ≡ t + 1
  pub counted : t ≤ p'.current
  pub invariant : Counted p'

-- What a call comes to: a fresh number; the number 0, where the result of the proposal was not
-- kept; or an exception with the client as it was, where the proposal failed.
abbrev pub Served : Fate → Pair → Option ℕ × Pair → Type 0
Served fate p (some t, p') = Fresh p t p' ⊎ ((fate ≡ Fate.emptied) × (t ≡ 0))
Served fate p (none, p') =
    ((landed : Bool) × (fate ≡ Fate.refused landed)) × ((p'.client ≡ p.client) × Counted p')
