-- ===== src/RateLimiter.antt =====
-- ddtrace/internal/rate_limiter.py: the token bucket. Time is counted in ticks, `res` to the
-- second, and `tokens` and `max_tokens` in units of 1/res, so that the arithmetic is exact.
-- A call takes the readings of `compat.monotonic()` that it may make: `at` for `_replenish` and
-- `later` for `_update_rate_counts`. The clock never goes back, so a difference of two readings
-- is a natural number; the theorems that need it say so.
pub mod Bucket
pub mod Rates
use dd_trace_py.Base.{
  ℕ, ◌+◌, ◌-◌, ◌*◌, Bool, true, false, Option, none, some, leb, ◌==◌, List, [], ◌∷◌, ◌≤◌,
  if◌then◌else◌,
}
use dd_trace_py.Base.Int.{ℤ, pos, negsuc, ◌+ℤ◌, ◌-ℤ◌, scale, leb_ℤ, ltb_ℤ, min_ℤ, int_eq}
use dd_trace_py.Base.{nat_eq}
use dd_trace_py.Base.Fraction.{Fraction, one, average}

pub record RateLimiter : Type 0 where
  pub rate_limit : ℤ
  pub tokens : ℤ
  pub max_tokens : ℤ
  pub last_update : ℕ
  pub current_window : ℕ
  pub tokens_allowed : ℕ
  pub tokens_total : ℕ
  pub prev_window_rate : Option Fraction

unfoldable pub current_window_rate : RateLimiter → Fraction
current_window_rate s =
    if s.tokens_total == 0 then one else record { num = s.tokens_allowed; den = s.tokens_total }

unfoldable pub effective_rate : RateLimiter → Fraction
effective_rate s = elim s.prev_window_rate [
  | none ↦ current_window_rate s
  | some q ↦ average (current_window_rate s) q
]

module _ (res : ℕ) where
  -- `RateLimiter(rate_limit)` at the time `now`
  unfoldable pub init : ℤ → ℕ → RateLimiter
  init rate_limit now = record {
    rate_limit = rate_limit;
    tokens = scale res rate_limit;
    max_tokens = scale res rate_limit;
    last_update = now;
    current_window = 0;
    tokens_allowed = 0;
    tokens_total = 0;
    prev_window_rate = none;
  }

  unfoldable pub replenish : ℕ → RateLimiter → RateLimiter
  replenish at s = if s.tokens == s.max_tokens then s else record s {
    last_update = at;
    tokens = min_ℤ s.max_tokens (s.tokens +ℤ scale (at - s.last_update) s.rate_limit);
  }

  unfoldable pub take_token : RateLimiter → Bool × RateLimiter
  take_token s =
      if leb_ℤ (pos res) s.tokens
      then (true, record s { tokens = s.tokens -ℤ pos res })
      else (false, s)

  -- `_is_allowed`
  unfoldable pub is_allowed_inner : ℕ → RateLimiter → Bool × RateLimiter
  is_allowed_inner at s =
      if s.rate_limit == pos 0
      then (false, s)
      else if ltb_ℤ s.rate_limit (pos 0)
      then (true, s)
      else take_token (replenish at s)

  -- the first half of `_update_rate_counts`: start a window, or close one that is a second old
  unfoldable pub roll_window : ℕ → RateLimiter → RateLimiter
  roll_window now s =
      if s.current_window == 0
      then record s { current_window = now }
      else if leb res (now - s.current_window)
      then record s {
        prev_window_rate = some (current_window_rate s);
        tokens_allowed = 0;
        tokens_total = 0;
        current_window = now;
      }
      else s

  unfoldable pub update_rate_counts : ℕ → Bool → RateLimiter → RateLimiter
  update_rate_counts now allowed s =
      let w = roll_window now s in
      record w {
        tokens_allowed = if allowed then w.tokens_allowed + 1 else w.tokens_allowed;
        tokens_total = w.tokens_total + 1;
      }

  unfoldable pub is_allowed : ℕ → ℕ → RateLimiter → Bool × RateLimiter
  is_allowed at later s =
      let (allowed, s') = is_allowed_inner at s in (allowed, update_rate_counts later allowed s')

-- A sequence of requests, each at the readings that it makes, with the answers.
unfoldable pub run : ℕ → List (ℕ × ℕ) → RateLimiter → List Bool × RateLimiter
run res [] s = ([], s)
run res ((at, later) ∷ calls) s =
    let (allowed, s') = is_allowed res at later s in
    let (answers, s'') = run res calls s' in (allowed ∷ answers, s'')

-- the readings never go back, from `t` on
abbrev pub IsClock : ℕ → List (ℕ × ℕ) → Type 0
IsClock t [] = Unit {0}
IsClock t ((at, later) ∷ calls) = (t ≤ at) × IsClock at calls

-- the last reading of `_replenish`
abbrev pub last_reading : ℕ → List (ℕ × ℕ) → ℕ
last_reading t [] = t
last_reading t ((at, later) ∷ calls) = last_reading at calls
