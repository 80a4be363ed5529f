-- ===== src/Tracer/Sampling.antt =====
-- ddtrace/tracer.py: how a tracer decides on the first span of a trace.
use mathlib.Core.Option
use dd_trace_py.Base.{ℕ, Bool, true, false, Option, none, some, String, if◌then◌else◌}
use dd_trace_py.Base.Text.{Text}
use dd_trace_py.Context.{Context, Store, set_sampling_priority}
use dd_trace_py.Span.{Span, set_metric}
use dd_trace_py.Sampler.{
  RateSampler, ByServiceSampler, DatadogSampler, Sampled, sample, sample_at_rate, sample_by_service,
  as_number, auto_keep, auto_reject,
}

-- The samplers of ddtrace/sampler.py that a tracer can have.
pub data RootSampler : Type 0 where
  all : RootSampler
  at_rate : RateSampler → RootSampler
  by_service : ByServiceSampler → RootSampler
  datadog : DatadogSampler → RootSampler

-- What the decision leaves: whether the sampler kept the span, the sampler, the span and the store.
pub record Decision : Type 0 where
  pub kept : Bool
  pub sampler : RootSampler
  pub span : Span
  pub store : Store

-- `self.sampler.sample(span)`; `none` is an exception
unfoldable pub sample_root :
    ℕ → ℕ → ℕ → ℕ → Option Text → RootSampler → Span → Store → Option Decision
sample_root res at later a env all span st =
    some (record { kept = true; sampler = all; span = span; store = st })
sample_root res at later a env (at_rate r) span st =
    some (record { kept = sample_at_rate r span; sampler = at_rate r; span = span; store = st })
sample_root res at later a env (by_service b) span st =
    Option.map
      (λ (r : Bool × Span). record { kept = r.0; sampler = by_service b; span = r.1; store = st })
      (sample_by_service env b span)
sample_root res at later a env (datadog d) span st =
    Option.map
      (λ (r : Sampled). record {
        kept = r.answer;
        sampler = datadog r.sampler;
        span = r.span;
        store = r.store;
      })
      (sample res at later a env d span st)

abbrev sample_rate_key : String
sample_rate_key = "_sample_rate"

-- a RateSampler leaves its rate on the span
abbrev pub with_rate : RootSampler → Span → Span
with_rate (at_rate r) span = set_metric sample_rate_key (as_number r.sample_rate) span
with_rate all span = span
with_rate (by_service b) span = span
with_rate (datadog d) span = span

-- the priority sampler, for a span that the sampler kept
unfoldable pub prioritize :
    Option Text → Option ByServiceSampler → Context → Span → Store → Option (Span × Store)
prioritize env none c span st = some (span, st)
prioritize env (some b) c span st =
    Option.map
      (λ (r : Bool × Span).
        (r.1, set_sampling_priority c (some (if r.0 then auto_keep else auto_reject)) st))
      (sample_by_service env b span)

-- the priority of a span that the sampler dropped
abbrev reject : Option ByServiceSampler → Context → Store → Store
reject none c st = st
reject (some b) c st = set_sampling_priority c (some auto_reject) st

-- "Old behavior": the decision of a sampler that is no DatadogSampler
abbrev pub settle_old :
    Option Text
    → Option ByServiceSampler
    → Context
    → RootSampler
    → Bool
    → Span
    → Store
    → Option (Span × Store × RootSampler)
settle_old env priority c s true span st =
    Option.map (λ (r : Span × Store). (r.0, r.1, s))
      (prioritize env priority c (with_rate s span) st)
settle_old env priority c s false span st = some (span, reject priority c st, s)

-- the part after `span.sampled = self.sampler.sample(span)`; a DatadogSampler always forwards the
-- span to the agent
abbrev pub settle_by :
    Option Text
    → Option ByServiceSampler
    → Context
    → RootSampler
    → Bool
    → Span
    → Store
    → Option (Span × Store × RootSampler)
settle_by env priority c (datadog d) kept span st = some (
  record span { sampled = true },
  set_sampling_priority c (some (if kept then auto_keep else auto_reject)) st,
  datadog d,
)
settle_by env priority c all kept span st = settle_old env priority c all kept span st
settle_by env priority c (at_rate r) kept span st =
    settle_old env priority c (at_rate r) kept span st
settle_by env priority c (by_service b) kept span st =
    settle_old env priority c (by_service b) kept span st

abbrev pub settle :
    Option Text → Option ByServiceSampler → Context → Decision → Option (Span × Store × RootSampler)
settle env priority c d =
    settle_by env priority c d.sampler d.kept (record d.span { sampled = d.kept }) d.store
