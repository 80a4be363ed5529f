-- ===== src/Sampler.antt =====
-- ddtrace/sampler.py: who decides that a trace is kept. A sample rate is a fraction of natural
-- numbers, as every float between 0 and 1 is, and the comparison with `rate * 2 ** 64` is made
-- with the denominator multiplied out: Python compares an int and a float exactly, and the
-- product with a power of two is exact. A rate that a caller gives may be negative. A sampled
-- span is given with the store of the contexts' dicts.
pub mod Rate
pub mod ByService
pub mod Datadog
use mathlib.Core.Option
use dd_trace_py.Base.{
  ℕ, ◌+◌, ◌*◌, ◌%◌, ◌^◌, Bool, true, false, ◌&&◌, Option, none, some, List, [], ◌∷◌, ◌++◌, String,
  string_eq, codes_eq, ◌==◌, leb, ltb, if◌then◌else◌, codes_beq,
}
use dd_trace_py.Base.Int.{ℤ, pos, negsuc, int_eq, int_beq}
use dd_trace_py.Base.Text.{Text, codes}
use dd_trace_py.Base.Dict.{Dict, lookup, insert}
use dd_trace_py.Base.Fraction.{Fraction, one, nought, eq_one, eq_nought}
use dd_trace_py.Context.{Context, Store, Number, int, float, set_sampling_priority}
use dd_trace_py.Span.{Span, set_metric, get_context}
use dd_trace_py.RateLimiter.{RateLimiter, is_allowed, effective_rate}

abbrev pub max_trace_id : ℕ
max_trace_id = 2 ^ 64

abbrev pub knuth_factor : ℕ
knuth_factor = 1_111_111_111_111_111_111

-- A rate as it is given: a float, perhaps negative, perhaps above 1.
pub record Given : Type 0 where
  pub num : ℤ
  pub den : ℕ

-- `(trace_id * KNUTH_FACTOR) % MAX_TRACE_ID <= rate * MAX_TRACE_ID`
unfoldable pub below_threshold : ℕ → Fraction → Bool
below_threshold trace_id rate =
    leb ((trace_id * knuth_factor) % max_trace_id * rate.den) (rate.num * max_trace_id)

pub record RateSampler : Type 0 where
  pub sample_rate : Fraction

-- `RateSampler(sample_rate)`; `none` is its ValueError
unfoldable pub new_rate_sampler : Given → Option RateSampler
new_rate_sampler g = elim g.num [
  | negsuc n ↦ none
  | pos n ↦
      some (record { sample_rate = if ltb g.den n then one else record { num = n; den = g.den } })
]

-- `RateSampler.sample`
unfoldable pub sample_at_rate : RateSampler → Span → Bool
sample_at_rate r span = below_threshold span.trace_id r.sample_rate

-- `RateByServiceSampler`: one sampler for each service and env
pub record ByServiceSampler : Type 0 where
  pub sample_rate : Given
  pub samplers : Dict Text RateSampler

abbrev pub default_key : Text
default_key = codes "service:,env:"

abbrev or_empty : Option Text → Text
or_empty none = []
or_empty (some t) = t

-- `_key`
unfoldable pub service_key : Option Text → Option Text → Text
service_key service env = codes "service:" ++ (or_empty service ++ (codes ",env:" ++ or_empty env))

-- `_get_new_by_service_sampler`
unfoldable pub default_samplers : Given → Option (Dict Text RateSampler)
default_samplers g = Option.map (λ r. (default_key, r) ∷ []) (new_rate_sampler g)

unfoldable pub new_by_service : Given → Option ByServiceSampler
new_by_service g = Option.map (λ d. record { sample_rate = g; samplers = d }) (default_samplers g)

-- `set_sample_rate(rate, service, env)`
unfoldable pub set_sample_rate : Given → Text → Text → ByServiceSampler → Option ByServiceSampler
set_sample_rate g service env s =
    Option.map
      (λ r. record s { samplers = insert (service_key (some service) (some env)) r s.samplers })
      (new_rate_sampler g)

-- `self._by_service_samplers.get(key, self._by_service_samplers[default])`; `none` is the KeyError
-- of the default, which is read first
unfoldable pub sampler_for : Text → ByServiceSampler → Option RateSampler
sampler_for key s = elim (lookup default_key s.samplers) [
  | none ↦ none
  | some d ↦ elim (lookup key s.samplers) [ none ↦ some d | some r ↦ some r ]
]

abbrev pub as_number : Fraction → Number
as_number q = float (pos q.num) q.den

abbrev pub agent_decision : String
agent_decision = "_dd.agent_psr"

abbrev pub rule_decision : String
rule_decision = "_dd.rule_psr"

abbrev pub limit_decision : String
limit_decision = "_dd.limit_psr"

-- `RateByServiceSampler.sample`; `env` is the tracer's tag of that name
unfoldable pub sample_by_service : Option Text → ByServiceSampler → Span → Option (Bool × Span)
sample_by_service env s span =
    Option.map
      (λ r. (sample_at_rate r span, set_metric agent_decision (as_number r.sample_rate) span))
      (sampler_for (service_key span.service env) s)

abbrev collect_rates :
    List (Text × Given) → Option (Dict Text RateSampler) → Option (Dict Text RateSampler)
collect_rates [] d = d
collect_rates ((key, g) ∷ rates) none = none
collect_rates ((key, g) ∷ rates) (some d) =
    collect_rates rates (Option.map (λ r. insert key r d) (new_rate_sampler g))

-- `update_rate_by_service_sample_rates`: the dict is built anew and then takes the place of the
-- old one; the Boolean is false where a ValueError is raised
unfoldable pub update_rates : List (Text × Given) → ByServiceSampler → ByServiceSampler × Bool
update_rates rates s = elim (collect_rates rates (default_samplers s.sample_rate)) [
  | none ↦ (s, false)
  | some d ↦ (record s { samplers = d }, true)
]

-- What a rule asks of a service or a name: nothing, a function (which may raise), a compiled
-- regular expression by its `match`, or equality.
pub data Pattern : Type 0 where
  no_rule : Pattern
  callable : (Option Text → Option Bool) → Pattern
  regex : (Text → Bool) → Pattern
  exactly : Option Text → Pattern

pub record SamplingRule : Type 0 where
  pub sample_rate : Fraction
  pub service : Pattern
  pub name : Pattern

-- `SamplingRule(sample_rate, service, name)`; `none` is its ValueError
unfoldable pub new_rule : Given → Pattern → Pattern → Option SamplingRule
new_rule g service name = elim g.num [
  | negsuc n ↦ none
  | pos n ↦
      if ltb g.den n
      then none
      else some
          (record { sample_rate = record { num = n; den = g.den }; service = service; name = name })
]

abbrev or_false : Option Bool → Bool
or_false none = false
or_false (some b) = b

-- `str` of a service or a name
abbrev show_prop : Option Text → Text
show_prop none = codes "None"
show_prop (some t) = t

abbrev same_prop : Option Text → Option Text → Bool
same_prop none none = true
same_prop none (some t) = false
same_prop (some t) none = false
same_prop (some t) (some u) = t == u

-- `_pattern_matches`
unfoldable pub pattern_matches : Option Text → Pattern → Bool
pattern_matches prop no_rule = true
pattern_matches prop (callable f) = or_false (f prop)
pattern_matches prop (regex m) = m (show_prop prop)
pattern_matches prop (exactly p) = same_prop prop p

-- `SamplingRule.matches`
unfoldable pub rule_matches : SamplingRule → Span → Bool
rule_matches r span =
    pattern_matches span.service r.service && pattern_matches (some span.name) r.name

-- `SamplingRule.sample`
unfoldable pub sample_rule : SamplingRule → Span → Bool
sample_rule r span =
    if eq_one r.sample_rate
    then true
    else if eq_nought r.sample_rate
    then false
    else below_threshold span.trace_id r.sample_rate

-- the default sampler of a `DatadogSampler`
pub data Default : Type 0 where
  by_service : ByServiceSampler → Default
  by_rule : SamplingRule → Default

pub record DatadogSampler : Type 0 where
  pub rules : List SamplingRule
  pub limiter : RateLimiter
  pub fallback : Default

-- `DatadogSampler.update_rate_by_service_sample_rates`
unfoldable pub update_datadog : List (Text × Given) → DatadogSampler → DatadogSampler × Bool
update_datadog rates s = elim s.fallback [
  | by_rule r ↦ (s, true)
  | by_service b ↦
      let (b', raised) = update_rates rates b in (record s { fallback = by_service b' }, raised)
]

abbrev pub auto_reject : Number
auto_reject = int (pos 0)

abbrev pub auto_keep : Number
auto_keep = int (pos 1)

abbrev priority_of : Bool → Number
priority_of true = auto_keep
priority_of false = auto_reject

-- `_set_priority(span, AUTO_KEEP if keep else AUTO_REJECT)`; a context that the span lacks gets
-- its dicts at the address `a`
unfoldable pub set_priority : ℕ → Bool → Span → Store → Span × Store
set_priority a kept span st =
    let (c, span', st') = get_context a span st in
    (record span' { sampled = kept }, set_sampling_priority c (some (priority_of kept)) st')

-- the first rule that matches
unfoldable pub find_rule : List SamplingRule → Span → Option SamplingRule
find_rule [] span = none
find_rule (r ∷ rules) span =
    let rest = find_rule rules span in if rule_matches r span then some r else rest

-- What one call of `sample` leaves.
pub record Sampled : Type 0 where
  pub answer : Bool
  pub sampler : DatadogSampler
  pub span : Span
  pub store : Store

-- the part of `DatadogSampler.sample` under a rule: the rule's rate, then the global limit
unfoldable pub sample_limited :
    ℕ → ℕ → ℕ → ℕ → SamplingRule → DatadogSampler → Span → Store → Sampled
sample_limited res at later a r s span st =
    let span1 = set_metric rule_decision (as_number r.sample_rate) span in
    let (rejected, st_rejected) = set_priority a false span1 st in
    let (kept, st_kept) = set_priority a true span1 st in
    let (allowed, limiter) = is_allowed res at later s.limiter in
    let span2 = set_metric limit_decision (as_number (effective_rate limiter)) kept in
    let (final, st_final) = set_priority a allowed span2 st_kept in
    if sample_rule r span1
    then record {
      answer = allowed;
      sampler = record s { limiter = limiter };
      span = final;
      store = st_final;
    }
    else record { answer = false; sampler = s; span = rejected; store = st_rejected }

-- the part of `DatadogSampler.sample` without a matching rule
unfoldable pub sample_default :
    ℕ → ℕ → ℕ → ℕ → Option Text → DatadogSampler → Default → Span → Store → Option Sampled
sample_default res at later a env s (by_rule r) span st =
    some (sample_limited res at later a r s span st)
sample_default res at later a env s (by_service b) span st = elim (sample_by_service env b span) [
  | none ↦ none
  | some (answer, span1) ↦
      let (span2, st') = set_priority a answer span1 st in
      some (record { answer = answer; sampler = s; span = span2; store = st' })
]

-- `DatadogSampler.sample`; `none` is an exception of the service sampler
unfoldable pub sample : ℕ → ℕ → ℕ → ℕ → Option Text → DatadogSampler → Span → Store → Option Sampled
sample res at later a env s span st = elim (find_rule s.rules span) [
  | some r ↦ some (sample_limited res at later a r s span st)
  | none ↦ sample_default res at later a env s s.fallback span st
]
