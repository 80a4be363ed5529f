-- ===== src/Capture.antt =====
-- ddtrace/profiling/collector/__init__.py: CaptureSampler, which takes a share of the events. Each
-- finite float is a whole number of parts of 2 ** -1074, so floats are counted in these parts here.
-- The interpreter's rounding of a sum that is no float is a parameter. A percentage that is no
-- number is left out.
pub mod Share
use dd_trace_py.Base.{
  ℕ, ◌+◌, ◌-◌, ◌*◌, ◌^◌, Bool, true, false, Option, none, some, if◌then◌else◌, ltb, leb,
}
use dd_trace_py.Base.Int.{ℤ, pos, negsuc}

-- 2 ** -45 and 100, in parts of 2 ** -1074
unfoldable pub grain : ℕ
grain = 2 ^ 1029

unfoldable pub hundred : ℕ
unfolding grain
hundred = 100 * (2 ^ 45 * grain)

pub record CaptureSampler : Type 0 where
  pub capture_pct : ℕ
  pub counter : ℕ

-- `CaptureSampler(capture_pct)`; `none` is the ValueError of the validator
unfoldable pub new_capture_sampler : ℤ → Option CaptureSampler
new_capture_sampler (negsuc n) = none
new_capture_sampler (pos n) =
    if ltb hundred n then none else some (record { capture_pct = n; counter = 0 })

-- `capture`, with the rounding of the sum and of the difference
unfoldable pub capture : (ℕ → ℕ) → CaptureSampler → CaptureSampler × Bool
capture round s =
    let counter = round (s.counter + s.capture_pct) in
    if leb hundred counter
    then (record s { counter = round (counter - hundred) }, true)
    else (record s { counter = counter }, false)
