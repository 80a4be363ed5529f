-- ===== src/RateLimiter/Bucket.antt =====
-- How much the bucket lets through, for a positive limit.
use dd_trace_py.Base.{
  ℕ, suc, ◌+◌, ◌-◌, ◌*◌, ◌≤◌, ◌<◌, ◌≡◌, refl, ap, ◌∙◌, Bool, true, false, List, [], ◌∷◌, arith,
  if◌then◌else◌, leb, count_if, ◌⊎◌, Bool-cases, inl, inr,
}
use dd_trace_py.Base.Int.{pos, pos_part, scale, min_ℤ, int_beq, int_beq_iff, ◌+ℤ◌, ◌-ℤ◌}
use dd_trace_py.RateLimiter.{
  RateLimiter, init, replenish, take_token, is_allowed_inner, roll_window, update_rate_counts,
  is_allowed, run, IsClock, last_reading,
}

-- A bucket of `limit` tokens a second: it holds a natural number of token parts, at most full.
pub record IsBucket (res limit : ℕ) (s : RateLimiter) : Type 0 where
  pub positive : 0 < limit
  pub rate : s.rate_limit ≡ pos limit
  pub capacity : s.max_tokens ≡ pos (res * limit)
  pub natural : s.tokens ≡ pos (pos_part s.tokens)
  pub bounded : pos_part s.tokens ≤ res * limit

abbrev pub level : RateLimiter → ℕ
level s = pos_part s.tokens

-- the parts that a request takes out
abbrev pub price : ℕ → Bool → ℕ
price res a = if a then res else 0

module _ (res limit : ℕ) where
  pub init-IsBucket : (now : ℕ) → 0 < limit → IsBucket res limit (init res (pos limit) now)
  unfolding init scale
  init-IsBucket now h = ground arith

  -- the numbers behind `_replenish`
  abbrev filled : ℕ → RateLimiter → ℕ
  filled at s = level s + (at - s.last_update) * limit

  refill :
      (m t d : ℕ)
      → (t ≤ m)
      → (u : ℕ) × (min_ℤ (pos m) (pos t +ℤ scale d (pos limit)) ≡ pos u)
        × (u ≤ m)
        × (u ≤ t + d * limit)
        × (t ≤ u)
        × ((u ≡ m) ⊎ (u ≡ t + d * limit))
  unfolding scale min_ℤ ◌+ℤ◌
  refill m t d h = elim (Bool-cases (leb m (t + d * limit))) [
    | inl e ↦ (m, ground arith, ground arith, ground arith, ground arith, ground arith)
    | inr e ↦ (t + d * limit, ground arith, ground arith, ground arith, ground arith, ground arith)
  ]

  mul_sub : (a b : ℕ) → b ≤ a → (a - b) * limit + b * limit ≡ a * limit
  mul_sub a b h = grind arith

  -- a bucket before and after a refill or a request, with `spent` parts taken out
  pub record Moves (spent : ℕ) (s s' : RateLimiter) : Type 0 where
    pub bucket : IsBucket res limit s'
    pub forward : s.last_update ≤ s'.last_update
    pub paid : spent + level s' + s.last_update * limit ≤ level s + s'.last_update * limit

  -- what `_replenish` adds is paid for by the time since the last update
  replenish-Moves :
      (at : ℕ) (s : RateLimiter)
      → IsBucket res limit s
      → s.last_update ≤ at
      → Moves 0 s (replenish res at s)
        × ((replenish res at s).last_update ≤ at)
        × ((level (replenish res at s) ≡ res * limit) ⊎ (level (replenish res at s) ≡ filled at s))
  unfolding replenish
  replenish-Moves at s b h =
      let (u, e, below, bound, above, full) = refill (res * limit) (level s) d b.bounded in
      let e' : min_ℤ s.max_tokens (s.tokens +ℤ scale d s.rate_limit) ≡ pos u =
        cc (e, b.natural, b.capacity, b.rate) in
      elim (Bool-cases (int_beq s.tokens s.max_tokens)) [
        | inl same ↦ rw same (
          record { bucket = b; forward = omega arith; paid = omega arith },
          h,
          inl (ap pos_part ((int_beq_iff s.tokens s.max_tokens).0 same ∙ b.capacity)),
        )
        | inr other ↦
            rw (other, e')
              (
                record {
                  bucket = record {
                    positive = b.positive;
                    rate = b.rate;
                    capacity = b.capacity;
                    natural = refl;
                    bounded = below;
                  };
                  forward = h;
                  paid = omega (arith, mul_sub at s.last_update h);
                },
                omega arith,
                full,
              )
      ]
    where
      d : ℕ
      d = at - s.last_update

  take_token-Moves :
      (s : RateLimiter)
      → IsBucket res limit s
      → Moves (price res (take_token res s).0) s (take_token res s).1
        × ((take_token res s).1.last_update ≡ s.last_update)
        × (((take_token res s).0 ≡ false) → level s < res)
  unfolding take_token ◌-ℤ◌
  take_token-Moves s b = ground arith

  inner-take_token :
      (at : ℕ) (s : RateLimiter)
      → IsBucket res limit s
      → is_allowed_inner res at s ≡ take_token res (replenish res at s)
  unfolding is_allowed_inner
  inner-take_token at s b = ground arith

  update_rate_counts-Moves :
      (later spent : ℕ) (allowed : Bool) (s t : RateLimiter)
      → Moves spent s t
      → Moves spent s (update_rate_counts res later allowed t)
        × ((update_rate_counts res later allowed t).last_update ≡ t.last_update)
  unfolding update_rate_counts roll_window
  update_rate_counts-Moves later spent allowed s t m = ground arith

  Moves-trans : {n : ℕ} {s t u : RateLimiter} → Moves 0 s t → Moves n t u → Moves n s u
  Moves-trans m k = record {
    bucket = k.bucket;
    forward = omega (arith, m.forward, k.forward);
    paid = omega (arith, m.paid, k.paid);
  }

  is_allowed-Moves :
      (at later : ℕ) (s : RateLimiter)
      → IsBucket res limit s
      → s.last_update ≤ at
      → Moves (price res (is_allowed res at later s).0) s (is_allowed res at later s).1
        × ((is_allowed res at later s).1.last_update ≤ at)
  unfolding is_allowed
  is_allowed-Moves at later s b h =
      let (m, before, _) = replenish-Moves at s b h in
      let (m', same, _) = take_token-Moves (replenish res at s) m.bucket in
      let (k, same') =
        update_rate_counts-Moves later _ (take_token res (replenish res at s)).0 s _
          (Moves-trans m m') in
      rw (inner-take_token at s b) (k, omega arith)

module _ (res limit : ℕ) where
  mul_le : (a b : ℕ) → a ≤ b → a * limit ≤ b * limit
  mul_le a b h = grind arith

  price_count : (a : Bool) (n : ℕ) → res * (if a then suc n else n) ≡ price res a + res * n
  price_count true n = omega arith
  price_count false n = omega arith

  run-Moves :
      (t : ℕ) (calls : List (ℕ × ℕ)) (s : RateLimiter)
      → IsBucket res limit s
      → s.last_update ≤ t
      → IsClock t calls
      → IsBucket res limit (run res calls s).1
        × (res * count_if (λ a. a) (run res calls s).0
              + level (run res calls s).1
              + s.last_update * limit
            ≤ level s + last_reading t calls * limit)
  unfolding run
  run-Moves t [] s b h c = (b, omega (arith, mul_le s.last_update t h))
  run-Moves t ((at, later) ∷ calls) s b h c =
      let (m, before) = is_allowed-Moves res limit at later s b (omega arith) in
      let (b', paid) = run-Moves at calls (is_allowed res at later s).1 m.bucket before c.1 in
      (
        b',
        omega (
          arith,
          m.paid,
          paid,
          price_count (is_allowed res at later s).0
              (count_if (λ a. a) (run res calls (is_allowed res at later s).1).0),
        ),
      )

  -- A limiter of a positive limit, built at the time `t`, allows up to any later reading at most
  -- `limit` requests and `limit` more for each second that has passed since `t`, whatever the
  -- calls: the requests allowed, in parts of 1/res, are at most
  -- `res * limit` and `limit` times the ticks passed.
  pub run_bound :
      (t : ℕ) (calls : List (ℕ × ℕ))
      → 0 < limit
      → IsClock t calls
      → res * count_if (λ a. a) (run res calls (init res (pos limit) t)).0 + t * limit
        ≤ res * limit + last_reading t calls * limit
  unfolding init scale
  run_bound t calls positive c =
      let b = init-IsBucket res limit t positive in
      omega (arith, b.bounded, run-Moves t calls (init res (pos limit) t) b (omega arith) c)

  -- From any state of such a limiter, whatever the state of its window counts, a request is
  -- allowed when a second has passed since the last update: the bucket is never starved.
  pub is_allowed_after_second :
      (at later : ℕ) (s : RateLimiter)
      → IsBucket res limit s
      → s.last_update + res ≤ at
      → (is_allowed res at later s).0 ≡ true
  unfolding is_allowed
  is_allowed_after_second at later s b h =
      let (m, _, grown) = replenish-Moves res limit at s b (omega arith) in
      let (_, _, refused) = take_token-Moves res limit (replenish res at s) m.bucket in
      rw (inner-take_token res limit at s b)
        (elim (Bool-cases (take_token res (replenish res at s)).0) [
          | inl yes' ↦ yes'
          | inr no' ↦ absurd (omega (arith, refused no', grown, second, b.positive, full))
        ])
    where
      second : res ≤ (at - s.last_update) * limit
      second = grind (arith, b.positive)

      full : res ≤ res * limit
      full = grind (arith, b.positive)
