-- ===== src/Sampler/Rate.antt =====
-- The decisions by rate: consistent, monotone, total at 1 and next to nothing at 0.
use native.Mathlib.Nat.{le_of_mul-le-mul_right}
use dd_trace_py.Base.{
  ℕ, ◌*◌, ◌%◌, ◌≤◌, ◌<◌, ◌≡◌, refl, ap, Bool-cases, le→leb, leb→le, ◌/◌, true, ◌⊎◌, inl, inr, arith,
  none, some, ltb, ◌↔◌,
}
use dd_trace_py.Base.Int.{ℤ, pos, negsuc}
use dd_trace_py.Base.Fraction.{Fraction, one, IsRate, ◌≤q◌}
use dd_trace_py.Span.{Span}
use dd_trace_py.Sampler.{
  max_trace_id, knuth_factor, Given, below_threshold, RateSampler, new_rate_sampler, sample_at_rate,
  SamplingRule, sample_rule,
}

scale : (a b k : ℕ) → a ≤ b → a * k ≤ b * k
scale a b k h = grind arith

-- a comparison by cross multiplication, with a common factor
scaled :
    (x dp dq np nq : ℕ)
    → 0 < dp
    → x * dp ≤ np * max_trace_id
    → np * dq ≤ nq * dp
    → x * dq ≤ nq * max_trace_id
scaled x dp dq np nq h kept le =
    le_of_mul-le-mul_right (omega (arith, scale _ _ dq kept, scale _ _ max_trace_id le)) h

-- A trace that is kept at some rate is kept at every higher rate: chained samplers agree.
pub below_threshold_mono :
    (trace_id : ℕ) (p q : Fraction)
    → 0 < p.den
    → p ≤q q
    → below_threshold trace_id p ≡ true
    → below_threshold trace_id q ≡ true
unfolding below_threshold
below_threshold_mono trace_id p q h le kept = le→leb _ _ (
    scaled ((trace_id * knuth_factor) % max_trace_id) p.den q.den p.num q.num h (leb→le _ _ kept)
      le)

-- The factor has an inverse modulo 2 ^ 64, so a product is a multiple only if the id is one.
knuth_invertible : (t : ℕ) → (t * knuth_factor) % max_trace_id ≡ 0 → t % max_trace_id ≡ 0
knuth_invertible t h =
    let q = (t * knuth_factor) / max_trace_id in
    let whole : t * knuth_factor ≡ q * max_trace_id = omega arith in
    let turned : t * knuth_factor * 3396998997810348023 ≡ q * max_trace_id * 3396998997810348023 =
      ap (λ (k : ℕ). k * 3396998997810348023) whole in
    omega arith

multiple : (t : ℕ) → t % max_trace_id ≡ 0 → (t * knuth_factor) % max_trace_id ≡ 0
multiple t h = omega arith

zero_of_product : (x d : ℕ) → 0 < d → x * d ≤ 0 → x ≡ 0
zero_of_product x d h le = grind arith

-- At rate 0 a `RateSampler` keeps exactly the traces whose id is a multiple of 2 ^ 64: the factor
-- is invertible.
pub below_threshold_nought :
    (trace_id d : ℕ)
    → 0 < d
    → (below_threshold trace_id (record { num = 0; den = d }) ≡ true)
      ↔ (trace_id % max_trace_id ≡ 0)
unfolding below_threshold
below_threshold_nought trace_id d h = (
  λ kept. knuth_invertible trace_id (zero_of_product _ d h (leb→le _ _ kept)),
  λ e. le→leb _ _ (rw (multiple trace_id e) (omega arith)),
)

-- A constructed `RateSampler` has a rate between 0 and 1; the constructor raises exactly for a
-- negative rate.
pub new_rate_sampler_lem :
    (g : Given)
    → 0 < g.den
    → ((n : ℕ) × (g.num ≡ negsuc n) × (new_rate_sampler g ≡ none))
      ⊎ ((r : RateSampler) × (new_rate_sampler g ≡ some r) × IsRate r.sample_rate)
unfolding new_rate_sampler
new_rate_sampler_lem g h = go g.num refl
  where
    go :
        (z : ℤ)
        → g.num ≡ z
        → ((n : ℕ) × (g.num ≡ negsuc n) × (new_rate_sampler g ≡ none))
          ⊎ ((r : RateSampler) × (new_rate_sampler g ≡ some r) × IsRate r.sample_rate)
    go (negsuc n) e = inl (n, e, rw (e, new_rate_sampler))
    go (pos n) e = elim (Bool-cases (ltb g.den n)) [
      | inl above ↦
          inr (record { sample_rate = one }, rw (e, new_rate_sampler, above), ground arith)
      | inr below ↦ inr (
        record { sample_rate = record { num = n; den = g.den } },
        rw (e, new_rate_sampler, below),
        ground arith,
      )
    ]

-- at rate 1 every trace is below the threshold
pub below_threshold_one :
    (trace_id : ℕ) (q : Fraction) → q.num ≡ q.den → below_threshold trace_id q ≡ true
unfolding below_threshold
below_threshold_one trace_id q h = le→leb _ _ (
    rw h (
      omega
        (arith, scale ((trace_id * knuth_factor) % max_trace_id) max_trace_id q.den (omega arith))))

-- A rule and a `RateSampler` of the same rate, which is not 0, agree on every trace: at 1 both keep
-- it, and in between they compare with the same threshold.
pub sample_rule-agrees :
    (rule : SamplingRule) (r : RateSampler) (span : Span)
    → rule.sample_rate ≡ r.sample_rate
    → IsRate r.sample_rate
    → 0 < r.sample_rate.num
    → sample_rule rule span ≡ sample_at_rate r span
unfolding sample_rule sample_at_rate
sample_rule-agrees rule r span same rate positive =
    rw same (ground (arith, below_threshold_one span.trace_id r.sample_rate))
