-- ===== src/Sampler/Datadog.antt =====
-- What a decision of the `DatadogSampler` leaves on the span, its context and the rate limiter.
use mathlib.Core.Path.{subst}
use dd_trace_py.Base.{
  ℕ, String, ◌≡◌, refl, ◌∙◌, ap, Bool, true, false, ◌&&◌, All, List, [], ◌∷◌, ◌++◌, Option, none,
  some, if◌then◌else◌, Bool-cases, Option-cases, inl, inr,
}
use dd_trace_py.Base.Text.{Text}
use dd_trace_py.Context.{Context, Store, Number, sampling_priority}
use dd_trace_py.Context.Sharing.{sampling_priority-set}
use dd_trace_py.Span.{Span, set_metric, get_context}
use dd_trace_py.RateLimiter.{is_allowed}
use dd_trace_py.Sampler.{
  SamplingRule, sample_rule, rule_matches, find_rule, DatadogSampler, Default, by_service, by_rule,
  priority_of, set_priority, Sampled, sample_limited, sample, sample_by_service, sample_default,
  rule_decision, as_number,
}

-- The span, its context and the answer say the same.
pub record Agrees (answer : Bool) (span : Span) (store : Store) : Type 0 where
  pub sampled : span.sampled ≡ answer
  pub context : Context
  pub held : span.context ≡ some context
  pub priority : sampling_priority store context ≡ some (priority_of answer)

held_context :
    (a : ℕ) (span : Span) (st : Store)
    → (get_context a span st).1.context ≡ some (get_context a span st).0
unfolding get_context
held_context a span st = elim (Option-cases span.context) [
  | inl e ↦ rw (e) refl
  | inr (c, e) ↦ rw (e) refl
]

set_priority-Agrees :
    (a : ℕ) (kept : Bool) (span : Span) (st : Store)
    → Agrees kept (set_priority a kept span st).0 (set_priority a kept span st).1
unfolding set_priority
set_priority-Agrees a kept span st = record {
  sampled = refl;
  context = (get_context a span st).0;
  held = held_context a span st;
  priority = sampling_priority-set _ (get_context a span st).0 (some (priority_of kept));
}

-- A metric does not change what a rule says.
sample_rule-set_metric :
    (r : SamplingRule) (k : String) (v : Number) (span : Span)
    → sample_rule r (set_metric k v span) ≡ sample_rule r span
unfolding sample_rule set_metric
sample_rule-set_metric r k v span = refl

sample_limited-Agrees :
    (res at later a : ℕ) (r : SamplingRule) (s : DatadogSampler) (span : Span) (st : Store)
    → let x = sample_limited res at later a r s span st in Agrees x.answer x.span x.store
unfolding sample_limited
sample_limited-Agrees res at later a r s span st =
    elim (Bool-cases (sample_rule r (set_metric rule_decision (as_number r.sample_rate) span))) [
      | inl e ↦ rw (e) (set_priority-Agrees a _ _ _)
      | inr e ↦ rw (e) (set_priority-Agrees a _ _ _)
    ]

-- What an answer with an error in it promises.
abbrev Says : Option Sampled → Type 0
Says none = Unit
Says (some x) = Agrees x.answer x.span x.store

sample_default-Says :
    (res at later a : ℕ) (env : Option Text) (s : DatadogSampler) (span : Span) (st : Store)
    (d : Default)
    → Says (sample_default res at later a env s d span st)
unfolding sample_default
sample_default-Says res at later a env s span st (by_rule r) =
    sample_limited-Agrees res at later a r s span st
sample_default-Says res at later a env s span st (by_service b) =
    elim (sample_by_service env b span)
      as (λ o. Says (elim o [
        | none ↦ none
        | some (answer, span1) ↦
            let (span2, st') = set_priority a answer span1 st in
            some (record { answer = answer; sampler = s; span = span2; store = st' })
      ])) [ none ↦ tt | some (answer, span1) ↦ set_priority-Agrees a answer span1 st ]

sample-Says :
    (res at later a : ℕ) (env : Option Text) (s : DatadogSampler) (span : Span) (st : Store)
    → Says (sample res at later a env s span st)
unfolding sample
sample-Says res at later a env s span st = elim (Option-cases (find_rule s.rules span)) [
  | inl f ↦ rw (f, sample, Says) (sample_default-Says res at later a env s span st s.fallback)
  | inr (r, f) ↦ rw (f, sample, Says) (sample_limited-Agrees res at later a r s span st)
]

-- Whatever rules, default and limit a sampler has, its answer is what the span's `sampled` flag
-- says and what the sampling priority of the span's context says: 1 to keep, 0 to reject.
pub sample-Agrees :
    (res at later a : ℕ) (env : Option Text) (s : DatadogSampler) (span : Span) (st : Store)
    {x : Sampled}
    → sample res at later a env s span st ≡ some x
    → Agrees x.answer x.span x.store
sample-Agrees res at later a env s span st e =
    subst Says e (sample-Says res at later a env s span st)

limited :
    (res at later a : ℕ) (r : SamplingRule) (s : DatadogSampler) (span : Span) (st : Store)
    → let x = sample_limited res at later a r s span st in
      (x.answer ≡ (sample_rule r span && (is_allowed res at later s.limiter).0))
      × (x.sampler.limiter
          ≡ (if sample_rule r span then (is_allowed res at later s.limiter).1 else s.limiter))
      × (x.sampler.rules ≡ s.rules)
      × (x.sampler.fallback ≡ s.fallback)
unfolding sample_limited
limited res at later a r s span st = elim (Bool-cases (sample_rule r span)) [
  | inl e ↦
      rw (sample_rule-set_metric r rule_decision (as_number r.sample_rate) span, e)
        (refl, refl, refl, refl)
  | inr e ↦
      rw (sample_rule-set_metric r rule_decision (as_number r.sample_rate) span, e)
        (refl, refl, refl, refl)
]

-- The rules before the first one that matches are passed over, and those after it are not asked.
find_rule-first :
    (before after : List SamplingRule) (r : SamplingRule) (span : Span)
    → All (λ q. rule_matches q span ≡ false) before
    → rule_matches r span ≡ true
    → find_rule (before ++ (r ∷ after)) span ≡ some r
unfolding find_rule
find_rule-first [] after r span h e = rw e refl
find_rule-first (q ∷ before) after r span (other, h) e =
    rw other (find_rule-first before after r span h e)

-- Where no rule before `r` matches and `r` does, whatever the rules after it, the answer is the
-- decision of `r` and the limiter's together, and the span and its context say the same. A trace
-- that `r` rejects costs no token: the limiter stays as it was; any other trace asks the limiter
-- once. Rules and default stay.
pub sample_by_rule :
    (res at later a : ℕ) (env : Option Text) (s : DatadogSampler) (span : Span) (st : Store)
    (before after : List SamplingRule) (r : SamplingRule)
    → s.rules ≡ before ++ (r ∷ after)
    → All (λ q. rule_matches q span ≡ false) before
    → rule_matches r span ≡ true
    → (x : Sampled) × (sample res at later a env s span st ≡ some x)
      × (x.answer ≡ (sample_rule r span && (is_allowed res at later s.limiter).0))
      × (x.sampler.limiter
          ≡ (if sample_rule r span then (is_allowed res at later s.limiter).1 else s.limiter))
      × (x.sampler.rules ≡ s.rules)
      × (x.sampler.fallback ≡ s.fallback)
      × Agrees x.answer x.span x.store
unfolding sample sample_limited
sample_by_rule res at later a env s span st before after r e others matches =
    let (answer, limiter, rules, fallback) = limited res at later a r s span st in
    let first = ap (λ l. find_rule l span) e ∙ find_rule-first before after r span others matches in
    (
      sample_limited res at later a r s span st,
      rw (first, sample) refl,
      answer,
      limiter,
      rules,
      fallback,
      sample_limited-Agrees res at later a r s span st,
    )
