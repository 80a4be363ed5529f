-- ===== src/MovingAverage.antt =====
-- ddtrace/internal/sma.py: the moving average that the writer keeps of its drops.
-- `none` is the `ValueError` of the constructor and of `set`.
pub mod Ring
pub mod Window
use dd_trace_py.Base.{
  ℕ, ◌+◌, ◌-◌, ◌%◌, Option, none, some, List, ltb, ◌==◌, nat_eq, if◌then◌else◌, get_or, set,
  replicate,
}
use dd_trace_py.Base.Fraction.{Fraction, nought}

pub record Average : Type 0 where
  pub size : ℕ
  pub index : ℕ
  pub counts : List ℕ
  pub totals : List ℕ
  pub sum_count : ℕ
  pub sum_total : ℕ

unfoldable pub init : ℕ → Option Average
init size =
    if ltb size 1
    then none
    else some (record {
      size = size;
      index = 0;
      counts = replicate size 0;
      totals = replicate size 0;
      sum_count = 0;
      sum_total = 0;
    })

-- `get`, as a fraction
unfoldable pub get : Average → Fraction
get s = if s.sum_total == 0 then nought else record { num = s.sum_count; den = s.sum_total }

-- `set(count, total)`
unfoldable pub put : ℕ → ℕ → Average → Option Average
put count total s =
    if ltb total count
    then none
    else some (record s {
      sum_count = s.sum_count + count - get_or s.counts s.index 0;
      sum_total = s.sum_total + total - get_or s.totals s.index 0;
      counts = set s.counts s.index count;
      totals = set s.totals s.index total;
      index = (s.index + 1) % s.size;
    })
