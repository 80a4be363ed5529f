-- ===== src/Tests/Limits.antt =====
-- The rate limiter, the moving average and the stopwatch at fixed inputs.
use mathlib.Core.List.{reverse}
use dd_trace_py.Base.{
  ℕ, ◌≡◌, ◌≤◌, ◌<◌, ◌+◌, ◌*◌, refl, List, [], ◌∷◌, take, Bool, true, false, arith, count_if, some,
  sum, none, Option,
}
use dd_trace_py.Base.Int.{pos, negsuc, ltb_ℤ}
use dd_trace_py.Base.Fraction.{IsRate}
use dd_trace_py.RateLimiter.{
  RateLimiter, init, run, is_allowed, effective_rate, IsClock, last_reading,
}
use dd_trace_py.RateLimiter.Bucket.{init-IsBucket, run_bound, is_allowed_after_second}
use dd_trace_py.RateLimiter.Rates.{run-effective_rate}
use dd_trace_py.MovingAverage.{Average, get}
use dd_trace_py.Base.{◌-◌}
use dd_trace_py.Base.Int.{sub_ℕ, leb_ℤ}
use dd_trace_py.MovingAverage.Window.{run_window, start, counts_of, totals_of}

-- four requests in the same tick, and one after half a second
abbrev calls : List (ℕ × ℕ)
calls = (5, 5) ∷ (5, 5) ∷ (5, 6) ∷ (6, 6) ∷ (10, 10) ∷ []

-- a limit of 2 a second with 10 ticks: the first three requests find the bucket full or refill it
limits : (run 10 calls (init 10 (pos 2) 5)).0 ≡ true ∷ true ∷ false ∷ false ∷ true ∷ []
unfolding run is_allowed dd_trace_py.RateLimiter.is_allowed_inner init
    dd_trace_py.RateLimiter.take_token dd_trace_py.RateLimiter.replenish dd_trace_py.Base.Int.scale
    dd_trace_py.RateLimiter.update_rate_counts dd_trace_py.RateLimiter.roll_window
    dd_trace_py.Base.Int.◌-ℤ◌ dd_trace_py.Base.Int.min_ℤ dd_trace_py.Base.Int.◌+ℤ◌
limits = refl

run_bound_example :
    10 * count_if (λ a. a) (run 10 calls (init 10 (pos 2) 5)).0 + 5 * 2
    ≤ 10 * 2 + last_reading 5 calls * 2
run_bound_example =
    run_bound 10 2 5 calls (omega arith)
      (omega arith, (omega arith, (omega arith, (omega arith, (omega arith, tt)))))

late : (init 10 (pos 2) 5).last_update + 10 ≤ 15
unfolding init
late = omega arith

is_allowed_after_second_example : (is_allowed 10 15 15 (init 10 (pos 2) 5)).0 ≡ true
is_allowed_after_second_example =
    is_allowed_after_second 10 2 15 15 (init 10 (pos 2) 5) (init-IsBucket 10 2 5 (omega arith)) late

run-effective_rate_example : IsRate (effective_rate (run 10 calls (init 10 (pos 2) 5)).1)
run-effective_rate_example = run-effective_rate 10 (pos 2) 5 calls

abbrev unlimited : RateLimiter
unlimited = record {
  rate_limit = negsuc 0;
  tokens = negsuc 9;
  max_tokens = negsuc 9;
  last_update = 5;
  current_window = 0;
  tokens_allowed = 0;
  tokens_total = 0;
  prev_window_rate = none;
}

-- three calls for a window of two
abbrev buckets : List (ℕ × ℕ)
buckets = (1, 4) ∷ (2, 2) ∷ (0, 6) ∷ []

run_window_example :
    (s : Average) × (start 2 buckets ≡ some s)
    × (s.sum_count ≡ sum (take 2 (counts_of (reverse buckets))))
    × (s.sum_total ≡ sum (take 2 (totals_of (reverse buckets))))
    × IsRate (get s)
run_window_example =
    run_window 2 buckets (omega arith) (omega arith, (omega arith, (omega arith, tt)))
