-- ===== src/Tracer/Deciding.antt =====
-- ddtrace/tracer.py: the decision that a new trace carries.
use mathlib.Core.Option
use dd_trace_py.Base.{
  ℕ, ◌≡◌, ◌⊎◌, inl, inr, refl, ◌∙◌, arith, Bool, true, false, Option, none, some, string_eq,
  if◌then◌else◌, Every, Every-imp, Every-map, Every-bind, Every-all,
}
use dd_trace_py.Base.Text.{Text}
use dd_trace_py.Base.Dict.{lookup}
use dd_trace_py.Context.{Context, Store, sampling_priority, set_sampling_priority}
use dd_trace_py.Context.Sharing.{sampling_priority-set}
use dd_trace_py.Span.{Span, set_metric}
use dd_trace_py.Sampler.{
  ByServiceSampler, auto_keep, auto_reject, sample, sample_by_service, sampler_for, service_key,
}
use dd_trace_py.Tracer.Sampling
use dd_trace_py.Tracer.Sampling.{
  RootSampler, all, at_rate, datadog, Decision, sample_root, settle, settle_by, settle_old,
  with_rate, prioritize,
}
use dd_trace_py.Tracer.{Settings, Process, Moment, Tracer}
use dd_trace_py.Tracer.Starting.{start_root, with_hostname}

-- whether the tracer has a sampler that gives priorities
abbrev pub gives_priority : RootSampler → Option ByServiceSampler → Bool
gives_priority (datadog d) b = true
gives_priority all none = false
gives_priority all (some b) = true
gives_priority (at_rate r) none = false
gives_priority (at_rate r) (some b) = true
gives_priority (Sampling.by_service r) none = false
gives_priority (Sampling.by_service r) (some b) = true

-- The priority is that to keep or to reject, and a span that is not sampled is to be rejected.
abbrev pub Decided : Context → Span → Store → Type 0
Decided c s st =
    ((sampling_priority st c ≡ some auto_keep) ⊎ (sampling_priority st c ≡ some auto_reject))
    × ((s.sampled ≡ true) ⊎ (sampling_priority st c ≡ some auto_reject))

keep_or_reject :
    (kept : Bool) (c : Context) (s : Span) (st : Store)
    → s.sampled ≡ true
    → Decided c s (set_sampling_priority c (some (if kept then auto_keep else auto_reject)) st)
keep_or_reject true c s st h = (inl (sampling_priority-set st c (some auto_keep)), inl h)
keep_or_reject false c s st h = (inr (sampling_priority-set st c (some auto_reject)), inl h)

sample_by_service-sampled :
    (env : Option Text) (b : ByServiceSampler) (s : Span)
    → Every (λ (r : Bool × Span). r.1.sampled ≡ s.sampled) (sample_by_service env b s)
unfolding sample_by_service set_metric
sample_by_service-sampled env b s =
    Every-map (λ (r : Bool × Span). r.1.sampled ≡ s.sampled) _
      (sampler_for (service_key s.service env) b) (Every-all _ (λ r. refl) _)

settle_old-Decided :
    (env : Option Text) (b : ByServiceSampler) (c : Context) (rs : RootSampler) (kept : Bool)
    (s : Span) (st : Store)
    → s.sampled ≡ kept
    → (with_rate rs s).sampled ≡ kept
    → Every
        (λ (r : Span × Store × RootSampler). Decided c r.0 r.1)
        (settle_old env (some b) c rs kept s st)
unfolding prioritize
settle_old-Decided env b c rs false s st h k = (
  inr (sampling_priority-set st c (some auto_reject)),
  inr (sampling_priority-set st c (some auto_reject)),
)
settle_old-Decided env b c rs true s st h k =
    Every-map (λ (r : Span × Store × RootSampler). Decided c r.0 r.1) _
      (prioritize env (some b) c (with_rate rs s) st)
      (Every-map (λ (r : Span × Store). Decided c r.0 r.1) _
        (sample_by_service env b (with_rate rs s))
        (Every-imp (λ (r : Bool × Span). r.1.sampled ≡ (with_rate rs s).sampled) _
          (λ r e. keep_or_reject r.0 c r.1 st (e ∙ k)) (sample_by_service env b (with_rate rs s))
          (sample_by_service-sampled env b (with_rate rs s))))

settle_by-Decided :
    (env : Option Text) (o : Option ByServiceSampler) (c : Context) (rs : RootSampler) (kept : Bool)
    (s : Span) (st : Store)
    → gives_priority rs o ≡ true
    → s.sampled ≡ kept
    → Every (λ (r : Span × Store × RootSampler). Decided c r.0 r.1) (settle_by env o c rs kept s st)
unfolding set_metric
settle_by-Decided env o c (datadog d) kept s st g h =
    keep_or_reject kept c (record s { sampled = true }) st refl
settle_by-Decided env none c all kept s st g h = absurd (ground (arith, g))
settle_by-Decided env (some b) c all kept s st g h = settle_old-Decided env b c all kept s st h h
settle_by-Decided env none c (at_rate r) kept s st g h = absurd (ground (arith, g))
settle_by-Decided env (some b) c (at_rate r) kept s st g h =
    settle_old-Decided env b c (at_rate r) kept s st h h
settle_by-Decided env none c (Sampling.by_service r) kept s st g h = absurd (ground (arith, g))
settle_by-Decided env (some b) c (Sampling.by_service r) kept s st g h =
    settle_old-Decided env b c (Sampling.by_service r) kept s st h h

-- A sampler stays one of its kind.
sample_root-gives :
    (res at later a : ℕ) (env : Option Text) (rs : RootSampler) (o : Option ByServiceSampler)
    (s : Span) (st : Store)
    → Every
        (λ d. gives_priority d.sampler o ≡ gives_priority rs o)
        (sample_root res at later a env rs s st)
unfolding sample_root
sample_root-gives res at later a env all o s st = refl
sample_root-gives res at later a env (at_rate r) o s st = refl
sample_root-gives res at later a env (Sampling.by_service b) o s st =
    Every-map _ _ (sample_by_service env b s) (Every-all _ (λ r. refl) _)
sample_root-gives res at later a env (datadog d) o s st =
    Every-map _ _ (sample res at later a env d s st) (Every-all _ (λ r. refl) _)

-- If the tracer has a DatadogSampler or a priority sampler, and no sampler raises, every new trace
-- starts with a decision: after `start_root` its context has the sampling priority 1 or 0, and if the
-- first span itself is not sampled the priority is 0.
pub start_root-Decided :
    (g : Settings) (p : Process) (m : Moment) (c : Context) (s : Span) (t : Tracer)
    → gives_priority t.sampler t.priority_sampler ≡ true
    → Every (λ (r : Span × Tracer). Decided c r.0 r.1.store) (start_root g p m c s t)
unfolding start_root
start_root-Decided g p m c s t gives =
    let env = lookup "env" t.tags in
    let s0 = with_hostname g.report_hostname p.hostname (record s { local_root = some t.made }) in
    let o = sample_root p.res m.at m.later t.cells env t.sampler s0 t.store in
    Every-map (λ (r : Span × Tracer). Decided c r.0 r.1.store) _
      (Option.bind o (settle env t.priority_sampler c))
      (Every-bind (λ (r : Span × Store × RootSampler). Decided c r.0 r.1)
        (settle env t.priority_sampler c) o
        (Every-imp
          (λ (d : Decision).
            gives_priority d.sampler t.priority_sampler
            ≡ gives_priority t.sampler t.priority_sampler)
          _
          (λ d e.
            settle_by-Decided env t.priority_sampler c d.sampler d.kept
              (record d.span { sampled = d.kept }) d.store (e ∙ gives) refl)
          o
          (sample_root-gives p.res m.at m.later t.cells env t.sampler t.priority_sampler s0
            t.store)))
