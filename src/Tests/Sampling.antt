-- ===== src/Tests/Sampling.antt =====
-- Sampling decisions at fixed inputs.
use dd_trace_py.Base.{
  ◌≡◌, ◌≢◌, refl, List, [], ◌∷◌, true, false, arith, some, none, is_some, ◌&&◌, if◌then◌else◌, ◌==◌,
  codes_eq, beq_refl, ap,
}
use dd_trace_py.Base.Int.{pos, negsuc}
use dd_trace_py.Base.Text.{Text, codes}
use dd_trace_py.Base.Fraction.{Fraction, IsRate}
use dd_trace_py.Context.{Store, no_tags}
use dd_trace_py.RateLimiter.{RateLimiter, is_allowed}
use dd_trace_py.Span.{Span}
use dd_trace_py.Sampler.{
  below_threshold, max_trace_id, Given, RateSampler, new_rate_sampler, sample_at_rate,
  ByServiceSampler, new_by_service, default_key, sample_by_service, update_rates, SamplingRule,
  no_rule, exactly, sample_rule, find_rule, DatadogSampler, by_service, Sampled, sample,
  sample_limited,
}
use dd_trace_py.Sampler.ByService.{Operation, set, update, apply, sample_by_service_total}
use dd_trace_py.Sampler.Datadog.{Agrees, sample-Agrees, sample_by_rule}

abbrev store : Store
store a = no_tags

abbrev span : Span
span = record {
  name = codes "web.request";
  service = some (codes "web");
  resource = codes "web.request";
  span_type = none;
  tags = no_tags;
  error = 0;
  start_ns = 100;
  duration_ns = none;
  trace_id = 12;
  span_id = 34;
  parent_id = none;
  sampled = true;
  context = none;
  parent = none;
  local_root = none;
}

abbrev half : Fraction
half = record { num = 1; den = 2 }

abbrev half_given : Given
half_given = record { num = pos 1; den = 2 }

abbrev rule : SamplingRule
rule = record { sample_rate = half; service = exactly (some (codes "web")); name = no_rule }

half-IsRate : IsRate half
half-IsRate = record { defined = omega arith; at_most_one = omega arith }

abbrev services : ByServiceSampler
services = record {
  sample_rate = half_given;
  samplers = (default_key, record { sample_rate = half }) ∷ [];
}

abbrev operations : List Operation
operations =
    set (record { num = pos 1; den = 4 }) (codes "web") (codes "prod")
    ∷ update ((codes "x", record { num = negsuc 0; den = 1 }) ∷ [])
    ∷ []

sample_by_service_total_example :
    is_some (sample_by_service (some (codes "prod")) (apply operations services) span) ≡ true
unfolding new_by_service dd_trace_py.Sampler.default_samplers new_rate_sampler
sample_by_service_total_example =
    sample_by_service_total half_given services operations (some (codes "prod")) span refl

abbrev key : Text
key = codes "service:web,env:prod"

text_ne : (k j : Text) → (k == j) ≡ false → k ≢ j
text_ne k j e h = cc (e, beq_refl j, ap (λ s. s == j) h)

abbrev limiter : RateLimiter
limiter = record {
  rate_limit = pos 1;
  tokens = pos 10;
  max_tokens = pos 10;
  last_update = 5;
  current_window = 0;
  tokens_allowed = 0;
  tokens_total = 0;
  prev_window_rate = none;
}

abbrev other_rule : SamplingRule
other_rule = record { sample_rate = half; service = exactly (some (codes "db")); name = no_rule }

-- The second of three rules is the first that matches.
abbrev sampler : DatadogSampler
sampler = record {
  rules = other_rule ∷ rule ∷ other_rule ∷ [];
  limiter = limiter;
  fallback = by_service services;
}

rule_found : find_rule sampler.rules span ≡ some rule
unfolding find_rule dd_trace_py.Sampler.rule_matches dd_trace_py.Sampler.pattern_matches
rule_found = refl

abbrev limited : Sampled
limited = sample_limited 10 7 7 1 rule sampler span store

limited_found : sample 10 7 7 1 none sampler span store ≡ some limited
unfolding sample
limited_found = rw (rule_found, sample) refl

sample-Agrees_example : Agrees limited.answer limited.span limited.store
sample-Agrees_example = sample-Agrees 10 7 7 1 none sampler span store limited_found

sample_by_rule_example :
    (x : Sampled) × (sample 10 7 7 1 none sampler span store ≡ some x)
    × (x.answer ≡ (sample_rule rule span && (is_allowed 10 7 7 limiter).0))
    × (x.sampler.limiter
        ≡ (if sample_rule rule span then (is_allowed 10 7 7 limiter).1 else limiter))
    × (x.sampler.rules ≡ sampler.rules)
    × (x.sampler.fallback ≡ sampler.fallback)
    × Agrees x.answer x.span x.store
unfolding dd_trace_py.Sampler.rule_matches dd_trace_py.Sampler.pattern_matches
sample_by_rule_example =
    sample_by_rule 10 7 7 1 none sampler span store (other_rule ∷ []) (other_rule ∷ []) rule refl
      (refl, record {}) refl
