-- ===== src/RateLimiter/Rates.antt =====
-- The counts of the current window and the effective rate, for every limit.
use dd_trace_py.Base.{
  ℕ, ◌≤◌, ◌≡◌, Bool, false, Option, none, some, List, [], ◌∷◌, arith, inl, inr, Option-cases,
  nat_eq,
}
use dd_trace_py.Base.Int.{ℤ, pos, ltb_ℤ}
use dd_trace_py.Base.Fraction.{Fraction, IsRate, average-IsRate}
use dd_trace_py.RateLimiter.{
  RateLimiter, init, replenish, take_token, is_allowed_inner, current_window_rate, roll_window,
  update_rate_counts, is_allowed, effective_rate, run,
}

abbrev pub IsPrevious : Option Fraction → Type 0
IsPrevious none = Unit {0}
IsPrevious (some q) = IsRate q

pub record IsCounted (s : RateLimiter) : Type 0 where
  pub part : s.tokens_allowed ≤ s.tokens_total
  pub previous : IsPrevious s.prev_window_rate

current_window_rate-IsRate :
    (s : RateLimiter) → s.tokens_allowed ≤ s.tokens_total → IsRate (current_window_rate s)
unfolding current_window_rate
current_window_rate-IsRate s h = ground arith

-- With consistent counts the effective rate is a fraction between 0 and 1.
pub effective_rate-IsRate : (s : RateLimiter) → IsCounted s → IsRate (effective_rate s)
unfolding effective_rate
effective_rate-IsRate s c = elim (Option-cases s.prev_window_rate) [
  | inl e ↦ rw (e, effective_rate) (current_window_rate-IsRate s c.part)
  | inr (q, e) ↦
      rw (e, effective_rate)
        (average-IsRate (current_window_rate-IsRate s c.part) (rw e at c.previous))
]

module _ (res : ℕ) where
  roll_window-IsCounted :
      (now : ℕ) (s : RateLimiter) → IsCounted s → IsCounted (roll_window res now s)
  unfolding roll_window
  roll_window-IsCounted now s c = ground (arith, current_window_rate-IsRate s c.part)

  update_rate_counts-IsCounted :
      (now : ℕ) (allowed : Bool) (s : RateLimiter)
      → IsCounted s
      → IsCounted (update_rate_counts res now allowed s)
  unfolding update_rate_counts
  update_rate_counts-IsCounted now allowed s c = ground (arith, roll_window-IsCounted now s c)

  is_allowed_inner_counts :
      (at : ℕ) (s : RateLimiter) → IsCounted s → IsCounted (is_allowed_inner res at s).1
  unfolding is_allowed_inner take_token replenish
  is_allowed_inner_counts at s c = ground arith

  run-IsCounted :
      (calls : List (ℕ × ℕ)) (s : RateLimiter) → IsCounted s → IsCounted (run res calls s).1
  unfolding run is_allowed
  run-IsCounted [] s c = c
  run-IsCounted ((at, later) ∷ calls) s c =
      run-IsCounted calls _
        (update_rate_counts-IsCounted later _ _ (is_allowed_inner_counts at s c))

  -- Whatever the limit and the calls, the effective rate of a limiter is between 0 and 1: no
  -- division by zero, and no more requests allowed than seen.
  pub run-effective_rate :
      (limit : ℤ) (t : ℕ) (calls : List (ℕ × ℕ))
      → IsRate (effective_rate (run res calls (init res limit t)).1)
  unfolding init
  run-effective_rate limit t calls =
      effective_rate-IsRate _ (run-IsCounted calls (init res limit t) (ground arith))

  -- A limit of 0 refuses every request, a negative one allows every request, and in both cases
  -- the bucket is left alone.
  pub is_allowed_unlimited :
      (at later : ℕ) (s : RateLimiter)
      → ltb_ℤ (pos 0) s.rate_limit ≡ false
      → ((is_allowed res at later s).0 ≡ ltb_ℤ s.rate_limit (pos 0))
        × ((is_allowed res at later s).1.tokens ≡ s.tokens)
  unfolding is_allowed is_allowed_inner update_rate_counts roll_window
  is_allowed_unlimited at later s h = (ground arith, ground arith)
