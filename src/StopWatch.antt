-- ===== src/StopWatch.antt =====
-- ddtrace/utils/time.py: StopWatch. A reading of the monotonic clock is a natural number of ticks,
-- and an argument of the methods that read it. A RuntimeError is `none`.
use dd_trace_py.Base.{ℕ, ◌-◌, ◌≤◌, ◌≡◌, arith, refl, Option, none, some, true}
use dd_trace_py.Base.Int.{ℤ, pos, sub_ℕ, leb_ℤ}

pub record StopWatch : Type 0 where
  pub started_at : Option ℕ
  pub stopped_at : Option ℕ

-- `StopWatch()`
abbrev pub init : StopWatch
init = record { started_at = none; stopped_at = none }

-- `start`
unfoldable pub start : ℕ → StopWatch → StopWatch
start now w = record w { started_at = some now }

-- `stop`
unfoldable pub stop : ℕ → StopWatch → Option StopWatch
stop now w = elim w.started_at [ none ↦ none | some s ↦ some (record w { stopped_at = some now }) ]

abbrev or_now : Option ℕ → ℕ → ℕ
or_now none now = now
or_now (some t) now = t

-- `elapsed`
unfoldable pub elapsed : ℕ → StopWatch → Option ℤ
elapsed now w = elim w.started_at [
  | none ↦ none
  | some s ↦ some (sub_ℕ (or_now w.stopped_at now) s)
]

-- A watch that is started and stopped once tells the time between the two from then on, and the time
-- since its start before that. Started again after the stop, it does not run: it keeps the time of
-- the stop, and at any later reading tells that time less the new start, which is not above 0.
pub elapsed-restart :
    (t s r now later : ℕ)
    → t ≤ now
    → t ≤ s
    → s ≤ r
    → (elapsed now (start t init) ≡ some (pos (now - t)))
      × ((w : StopWatch) × (stop s (start t init) ≡ some w)
          × (elapsed now w ≡ some (pos (s - t)))
          × (elapsed later (start r w) ≡ some (sub_ℕ s r))
          × (leb_ℤ (sub_ℕ s r) (pos 0) ≡ true))
unfolding elapsed start stop
elapsed-restart t s r now later h1 h2 h3 = (
  ground (arith, h1),
  (
    record { started_at = some t; stopped_at = some s },
    refl,
    ground (arith, h2),
    refl,
    ground (arith, h3),
  ),
)
