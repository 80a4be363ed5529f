-- ===== src/Writer/Retry.antt =====
-- What tenacity does with a function that sends: the policy that `AgentWriter.__init__` sets up
-- tries three times at most, again only after a connection error. Waiting plays no part.
use dd_trace_py.Base.{ℕ, zero, suc, ◌≡◌, true, false, Option, some}
use dd_trace_py.Writer.Sending.{Link, Sent, returned, raised}

-- How the retries end: with a return, with a RetryError, or with another exception.
pub data Ending : Type 0 where
  done : Ending
  gave_up : Ending
  passed_on : Ending

abbrev pub Call : Type 0
Call = Link → Link × Option Sent

abbrev pub Retrying : Type 0
Retrying = Call → Link → Link × Ending

-- The calls of `f` from `l`, at most so many, end in the given way.
pub data Tried (f : Call) : ℕ → Link → Link × Ending → Type 0 where
  returned_now : {k : ℕ} {l l' : Link} → f l ≡ (l', some returned) → Tried f (suc k) l (l', done)
  raised_other :
      {k : ℕ} {l l' : Link} → f l ≡ (l', some (raised false)) → Tried f (suc k) l (l', passed_on)
  raised_last : {l l' : Link} → f l ≡ (l', some (raised true)) → Tried f (suc zero) l (l', gave_up)
  raised_again :
      {k : ℕ} {l l' : Link} {r : Link × Ending}
      → f l ≡ (l', some (raised true))
      → Tried f k l' r
      → Tried f (suc k) l r

abbrev pub Returns : Call → Type 0
Returns f = (l : Link) → (s : Sent) × ((f l).1 ≡ some s)

-- The documented behaviour of `Retrying` with `stop_after_attempt(3)`, for functions that return.
abbrev pub IsRetrying : Retrying → Type 0
IsRetrying retry = (f : Call) → Returns f → (l : Link) → Tried f 3 l (retry f l)
