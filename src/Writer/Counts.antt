-- ===== src/Writer/Counts.antt =====
-- ddtrace/internal/writer.py: the counts of an AgentWriter, and the rate of drops that it keeps.
use dd_trace_py.Base.{
  ℕ, ◌+◌, ◌-◌, ◌≡◌, ap, arith, true, Option, none, some, List, [], ◌∷◌, ◌++◌, String, string_eq,
  ◌==◌, if◌then◌else◌, ltb, Bool-cases, inl, inr,
}
use dd_trace_py.Base.Int.{pos}
use dd_trace_py.Base.Text.{Text}
use dd_trace_py.Base.Dict.{Dict, lookup, insert, lookup-insert}
use dd_trace_py.Context.{float}
use dd_trace_py.Span.{Span, set_metric}
use dd_trace_py.MovingAverage.{Average, get, put}

pub record Metric : Type 0 where
  pub count : ℕ
  pub tags : List Text

abbrev pub Metrics : Type 0
Metrics = Dict String Metric

abbrev or_no_metric : Option Metric → Metric
or_no_metric none = record { count = 0; tags = [] }
or_no_metric (some m) = m

abbrev pub metric : String → Metrics → Metric
metric name m = or_no_metric (lookup name m)

-- `_metrics_dist`
unfoldable pub dist : String → ℕ → List Text → Metrics → Metrics
dist name n tags m =
    insert name (record { count = (metric name m).count + n; tags = (metric name m).tags ++ tags })
      m

pub count-dist :
    (j k : String) (n : ℕ) (tags : List Text) (m : Metrics)
    → (metric j (dist k n tags m)).count ≡ (if k == j then n else 0) + (metric j m).count
unfolding dist
count-dist j k n tags m = elim (Bool-cases (k == j)) [
  | inl g ↦ rw (lookup-insert, g) (omega (arith, same g))
  | inr g ↦ rw (lookup-insert, g) (omega arith)
]
  where
    same : (k == j) ≡ true → (metric k m).count ≡ (metric j m).count
    same g = ap (λ i. (metric i m).count) ((string_eq.beq_iff k j).0 g)

-- the two numbers of `_set_drop_rate`
abbrev pub dropped_traces : Metrics → ℕ
dropped_traces m =
    (metric "encoder.dropped.traces" m).count
    + (metric "buffer.dropped.traces" m).count
    + (metric "http.dropped.traces" m).count

abbrev pub accepted_traces : Metrics → ℕ
accepted_traces m = (metric "writer.accepted.traces" m).count

abbrev or_same : Average → Option Average → Average
or_same s none = s
or_same s (some s') = s'

-- `_set_drop_rate`: more drops than accepted traces count as that many accepted, so that `set`
-- does not raise
unfoldable pub set_drop_rate : Metrics → Average → Average
set_drop_rate m s =
    let dropped = dropped_traces m in
    let accepted = accepted_traces m in
    or_same s (put dropped (if ltb accepted dropped then dropped else accepted) s)

abbrev pub keep_spans_rate : String
keep_spans_rate = "_dd.tracer_kr"

-- `_set_keep_rate`: 1 - rate on the first span
unfoldable pub set_keep_rate : Average → List Span → List Span
set_keep_rate s [] = []
set_keep_rate s (first ∷ spans) =
    let q = get s in set_metric keep_spans_rate (float (pos (q.den - q.num)) q.den) first ∷ spans
