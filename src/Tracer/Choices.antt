-- ===== src/Tracer/Choices.antt =====
-- ddtrace/sampler.py and ddtrace/tracer.py: the links of a span under the samplers.
use mathlib.Core.Option
use dd_trace_py.Base.{
  ℕ, ◌≡◌, refl, ◌∙◌, Bool, true, false, Option, none, some, string_eq, Option-cases, inl, inr,
  Every, Every-map, Every-bind, Every-imp, Every-some, Every-all,
}
use dd_trace_py.Base.Text.{Text}
use dd_trace_py.Context.{Context, Store}
use dd_trace_py.Span.{Span, set_metric}
use dd_trace_py.Sampler.{
  DatadogSampler, Default, by_service, by_rule, ByServiceSampler, Sampled, SamplingRule, sample,
  sample_limited, sample_default, sample_by_service, set_priority, sampler_for, find_rule,
  sample_rule, service_key, agent_decision, rule_decision, limit_decision, as_number,
}
use dd_trace_py.RateLimiter.{is_allowed, effective_rate}
use dd_trace_py.Tracer.Sampling
use dd_trace_py.Tracer.Sampling.{
  RootSampler, all, at_rate, datadog, Decision, sample_root, settle, settle_by, settle_old,
  with_rate, prioritize,
}
use dd_trace_py.Tracer.Links.{links, set_metric-links, set_priority-links, if-links, context-links}

sample_limited-links :
    (res at later a : ℕ) (r : SamplingRule) (d : DatadogSampler) (c : Context) (s : Span)
    (st : Store)
    → s.context ≡ some c
    → links (sample_limited res at later a r d s st).span ≡ links s
unfolding sample_limited
sample_limited-links res at later a r d c s st h =
    let s1 = set_metric rule_decision (as_number r.sample_rate) s in
    let (kept, st_kept) = set_priority a true s1 st in
    let (allowed, limiter) = is_allowed res at later d.limiter in
    let s2 = set_metric limit_decision (as_number (effective_rate limiter)) kept in
    let e1 : links s1 ≡ links s = set_metric-links rule_decision (as_number r.sample_rate) s in
    let h1 = context-links s s1 c e1 h in
    let e2 : links s2 ≡ links s =
      set_metric-links limit_decision (as_number (effective_rate limiter)) kept
      ∙ set_priority-links a true c s1 st h1
      ∙ e1 in
    if-links (λ (x : Sampled). links x.span) (sample_rule r s1) _ _ (links s)
      (set_priority-links a allowed c s2 st_kept (context-links s s2 c e2 h) ∙ e2)
      (set_priority-links a false c s1 st h1 ∙ e1)

sample_by_service-links :
    (env : Option Text) (b : ByServiceSampler) (s : Span)
    → Every (λ (r : Bool × Span). links r.1 ≡ links s) (sample_by_service env b s)
unfolding sample_by_service
sample_by_service-links env b s =
    Every-map (λ (r : Bool × Span). links r.1 ≡ links s) _
      (sampler_for (service_key s.service env) b)
      (Every-all _ (λ r. set_metric-links agent_decision (as_number r.sample_rate) s) _)

sample_default-links :
    (res at later a : ℕ) (env : Option Text) (d : DatadogSampler) (f : Default) (c : Context)
    (s : Span) (st : Store)
    → s.context ≡ some c
    → Every (λ r. links r.span ≡ links s) (sample_default res at later a env d f s st)
unfolding sample_default
sample_default-links res at later a env d (by_rule r) c s st h =
    sample_limited-links res at later a r d c s st h
sample_default-links res at later a env d (by_service b) c s st h =
    elim (Option-cases (sample_by_service env b s)) [
      | inl e ↦ rw (sample_default, e) (record {})
      | inr ((kept, u), e) ↦
          let k = Every-some _ _ _ (sample_by_service-links env b s) e in
          rw (sample_default, e) (set_priority-links a kept c u st (context-links s u c k h) ∙ k)
    ]

sample-links :
    (res at later a : ℕ) (env : Option Text) (d : DatadogSampler) (c : Context) (s : Span)
    (st : Store)
    → s.context ≡ some c
    → Every (λ r. links r.span ≡ links s) (sample res at later a env d s st)
unfolding sample
sample-links res at later a env d c s st h = elim (Option-cases (find_rule d.rules s)) [
  | inl e ↦ rw (sample, e) (sample_default-links res at later a env d d.fallback c s st h)
  | inr (r, e) ↦ rw (sample, e) (sample_limited-links res at later a r d c s st h)
]

sample_root-links :
    (res at later a : ℕ) (env : Option Text) (rs : RootSampler) (c : Context) (s : Span)
    (st : Store)
    → s.context ≡ some c
    → Every (λ d. links d.span ≡ links s) (sample_root res at later a env rs s st)
unfolding sample_root
sample_root-links res at later a env all c s st h = refl
sample_root-links res at later a env (at_rate r) c s st h = refl
sample_root-links res at later a env (Sampling.by_service b) c s st h =
    Every-map _ _ (sample_by_service env b s) (sample_by_service-links env b s)
sample_root-links res at later a env (datadog d) c s st h =
    Every-map _ _ (sample res at later a env d s st) (sample-links res at later a env d c s st h)

prioritize-links :
    (env : Option Text) (b : Option ByServiceSampler) (c : Context) (s : Span) (st : Store)
    → Every (λ (r : Span × Store). links r.0 ≡ links s) (prioritize env b c s st)
unfolding prioritize
prioritize-links env none c s st = refl
prioritize-links env (some b) c s st =
    Every-map (λ (r : Span × Store). links r.0 ≡ links s) _ (sample_by_service env b s)
      (sample_by_service-links env b s)

settle_old-links :
    (env : Option Text) (b : Option ByServiceSampler) (c : Context) (rs : RootSampler) (kept : Bool)
    (s u : Span) (st : Store)
    → links (with_rate rs u) ≡ links s
    → links u ≡ links s
    → Every
        (λ (r : Span × Store × RootSampler). links r.0 ≡ links s)
        (settle_old env b c rs kept u st)
settle_old-links env b c rs false s u st h k = k
settle_old-links env b c rs true s u st h k =
    Every-map (λ (r : Span × Store × RootSampler). links r.0 ≡ links s) _
      (prioritize env b c (with_rate rs u) st)
      (Every-imp (λ (r : Span × Store). links r.0 ≡ links (with_rate rs u))
        (λ (r : Span × Store). links r.0 ≡ links s) (λ r e. e ∙ h)
        (prioritize env b c (with_rate rs u) st) (prioritize-links env b c (with_rate rs u) st))

settle_by-links :
    (env : Option Text) (b : Option ByServiceSampler) (c : Context) (rs : RootSampler) (kept : Bool)
    (s u : Span) (st : Store)
    → links u ≡ links s
    → Every
        (λ (r : Span × Store × RootSampler). links r.0 ≡ links s)
        (settle_by env b c rs kept u st)
unfolding set_metric
settle_by-links env b c (datadog d) kept s u st h = h
settle_by-links env b c all kept s u st h = settle_old-links env b c all kept s u st h h
settle_by-links env b c (at_rate r) kept s u st h =
    settle_old-links env b c (at_rate r) kept s u st h h
settle_by-links env b c (Sampling.by_service r) kept s u st h =
    settle_old-links env b c (Sampling.by_service r) kept s u st h h

-- Whatever the samplers decide, the span that they leave has the links that it had.
pub decide-links :
    (res at later a : ℕ) (env : Option Text) (rs : RootSampler) (b : Option ByServiceSampler)
    (c k : Context) (s : Span) (st : Store)
    → s.context ≡ some k
    → Every
        (λ (r : Span × Store × RootSampler). links r.0 ≡ links s)
        (Option.bind (sample_root res at later a env rs s st) (settle env b c))
decide-links res at later a env rs b c k s st h =
    Every-bind (λ (r : Span × Store × RootSampler). links r.0 ≡ links s) (settle env b c)
      (sample_root res at later a env rs s st)
      (Every-imp (λ (d : Decision). links d.span ≡ links s)
        (λ d. Every (λ (r : Span × Store × RootSampler). links r.0 ≡ links s) (settle env b c d))
        (λ d e.
          settle_by-links env b c d.sampler d.kept s (record d.span { sampled = d.kept }) d.store e)
        (sample_root res at later a env rs s st) (sample_root-links res at later a env rs k s st h))
