-- ===== src/Sampler/ByService.antt =====
-- The sampler for each service: the default is always there, and an update is all or nothing.
use mathlib.Core.Path.{subst}
use dd_trace_py.Base.{
  ◌≡◌, ◌≢◌, refl, sym, beq_ne, ◌∙◌, Bool, true, false, Option, none, some, List, [], ◌∷◌, arith,
  codes_eq, is_some, Option-cases, inl, inr, ◌⊎◌,
}
use dd_trace_py.Base.Text.{Text}
use dd_trace_py.Base.Dict.{Dict, lookup, insert, lookup-insert}
use dd_trace_py.Span.{Span}
use dd_trace_py.Sampler.{
  Given, RateSampler, new_rate_sampler, ByServiceSampler, default_key, default_samplers,
  new_by_service, set_sample_rate, sampler_for, sample_by_service, collect_rates, update_rates,
}

-- The default sampler can be made and is in the dict.
pub record HasDefault (s : ByServiceSampler) : Type 0 where
  pub made : is_some (new_rate_sampler s.sample_rate) ≡ true
  pub present : is_some (lookup default_key s.samplers) ≡ true

abbrev IsPresent : Option (Dict Text RateSampler) → Type 0
IsPresent none = Unit
IsPresent (some d) = is_some (lookup default_key d) ≡ true

insert-IsPresent :
    (k : Text) (r : RateSampler) (d : Dict Text RateSampler)
    → is_some (lookup default_key d) ≡ true
    → is_some (lookup default_key (insert k r d)) ≡ true
insert-IsPresent k r d h = rw lookup-insert (ground arith)

collect_rates-IsPresent :
    (rates : List (Text × Given)) (o : Option (Dict Text RateSampler))
    → IsPresent o
    → IsPresent (collect_rates rates o)
collect_rates-IsPresent [] o h = h
collect_rates-IsPresent ((k, g) ∷ rates) none h = tt
collect_rates-IsPresent ((k, g) ∷ rates) (some d) h = elim (Option-cases (new_rate_sampler g)) [
  | inl e ↦ rw e (collect_rates-IsPresent rates none tt)
  | inr (r, e) ↦
      rw e (collect_rates-IsPresent rates (some (insert k r d)) (insert-IsPresent k r d h))
]

default_samplers-IsPresent : (g : Given) → IsPresent (default_samplers g)
unfolding default_samplers lookup
default_samplers-IsPresent g = elim (Option-cases (new_rate_sampler g)) [
  | inl e ↦ rw e tt
  | inr (r, e) ↦ rw e refl
]

update_rates-HasDefault :
    (rates : List (Text × Given)) (s : ByServiceSampler)
    → HasDefault s
    → HasDefault (update_rates rates s).0
unfolding update_rates
update_rates-HasDefault rates s h =
    go (collect_rates rates (default_samplers s.sample_rate))
      (collect_rates-IsPresent rates _ (default_samplers-IsPresent s.sample_rate))
  where
    go :
        (o : Option (Dict Text RateSampler))
        → IsPresent o
        → HasDefault (
            (elim o as (λ x. ByServiceSampler × Bool) [
              | none ↦ (s, false)
              | some d ↦ (record s { samplers = d }, true)
            ]).0)
    go none p = h
    go (some d) p = record { made = h.made; present = p }

-- What the program does with such a sampler; a rate that raises leaves it as it was.
pub data Operation : Type 0 where
  set : Given → Text → Text → Operation
  update : List (Text × Given) → Operation

abbrev or_same : ByServiceSampler → Option ByServiceSampler → ByServiceSampler
or_same s none = s
or_same s (some s') = s'

pub apply : List Operation → ByServiceSampler → ByServiceSampler
apply [] s = s
apply (set g service env ∷ ops) s = apply ops (or_same s (set_sample_rate g service env s))
apply (update rates ∷ ops) s = apply ops (update_rates rates s).0

set-HasDefault :
    (g : Given) (service env : Text) (s : ByServiceSampler)
    → HasDefault s
    → HasDefault (or_same s (set_sample_rate g service env s))
unfolding set_sample_rate
set-HasDefault g service env s h = elim (Option-cases (new_rate_sampler g)) [
  | inl e ↦ rw e h
  | inr (r, e) ↦
      rw e (record { made = h.made; present = insert-IsPresent _ r s.samplers h.present })
]

apply-HasDefault :
    (ops : List Operation) (s : ByServiceSampler) → HasDefault s → HasDefault (apply ops s)
unfolding apply
apply-HasDefault [] s h = h
apply-HasDefault (set g service env ∷ ops) s h =
    apply-HasDefault ops _ (set-HasDefault g service env s h)
apply-HasDefault (update rates ∷ ops) s h =
    apply-HasDefault ops _ (update_rates-HasDefault rates s h)

same_value {ℓ} : {A : Type ℓ} {a b : A} → some a ≡ some b → a ≡ b
same_value e = cc e

new_by_service-HasDefault :
    (g : Given) (s : ByServiceSampler) → new_by_service g ≡ some s → HasDefault s
unfolding new_by_service default_samplers lookup
new_by_service-HasDefault g s e = elim (Option-cases (new_rate_sampler g)) [
  | inl n ↦ absurd (ground arith)
  | inr (r, m) ↦ subst HasDefault (same_value (rw m at e)) (record { made = rw m; present = refl })
]

-- From a sampler that was constructed, after any rates set for services and any updates, whether
-- they raised or not, `sample` does not raise for want of a default: every span gets a decision.
pub sample_by_service_total :
    (g : Given) (s : ByServiceSampler) (ops : List Operation) (env : Option Text) (span : Span)
    → new_by_service g ≡ some s
    → is_some (sample_by_service env (apply ops s) span) ≡ true
unfolding sample_by_service sampler_for
sample_by_service_total g s ops env span e =
    ground (arith, (apply-HasDefault ops s (new_by_service-HasDefault g s e)).present)

collect_rates_raised : (rates : List (Text × Given)) → collect_rates rates none ≡ none
collect_rates_raised [] = refl
collect_rates_raised (e ∷ rates) = refl

lookup-collect_rates :
    (k : Text) (rates : List (Text × Given)) (d d' : Dict Text RateSampler)
    → lookup k rates ≡ none
    → collect_rates rates (some d) ≡ some d'
    → lookup k d' ≡ lookup k d
unfolding lookup
lookup-collect_rates k [] d d' h e = ground arith
lookup-collect_rates k ((j, g) ∷ rates) d d' h e = elim (Option-cases (new_rate_sampler g)) [
  | inl n ↦ absurd (ground (arith, collect_rates_raised rates))
  | inr (r, m) ↦
      lookup-collect_rates k rates (insert j r d) d' (ground arith) (rw m at e)
      ∙ rw lookup-insert (ground arith)
]

collected :
    (k : Text) (g : Given) (rates : List (Text × Given)) (d : Dict Text RateSampler)
    → collect_rates rates (default_samplers g) ≡ some d
    → k ≢ default_key
    → lookup k rates ≡ none
    → lookup k d ≡ none
unfolding default_samplers lookup
collected k g rates d e ne absent = elim (Option-cases (new_rate_sampler g)) [
  | inl n ↦ absurd (ground (arith, collect_rates_raised rates))
  | inr (r, m) ↦
      lookup-collect_rates k rates ((default_key, r) ∷ []) d absent (rw m at e)
      ∙ rw (beq_ne default_key k (λ q. ne (sym q)))
]

-- An update that raises changes nothing; one that does not forgets every rate set before: a key
-- that it does not name, other than the default's, has no sampler of its own.
pub update_rates_replaces :
    (rates : List (Text × Given)) (s : ByServiceSampler) (k : Text)
    → k ≢ default_key
    → lookup k rates ≡ none
    → (update_rates rates s ≡ (s, false))
      ⊎ (((update_rates rates s).1 ≡ true) × (lookup k (update_rates rates s).0.samplers ≡ none))
unfolding update_rates
update_rates_replaces rates s k ne absent =
    elim (Option-cases (collect_rates rates (default_samplers s.sample_rate))) [
      | inl e ↦ inl (rw (e, update_rates) refl)
      | inr (d, e) ↦ inr (
        rw (e, update_rates) refl,
        rw (e, update_rates) (collected k s.sample_rate rates d e ne absent),
      )
    ]
