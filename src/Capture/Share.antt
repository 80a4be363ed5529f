-- ===== src/Capture/Share.antt =====
-- ddtrace/profiling/collector/__init__.py: the share of many events that is captured.
use dd_trace_py.Base.{
  ℕ, zero, suc, ◌+◌, ◌-◌, ◌*◌, ◌^◌, ◌≤◌, ◌<◌, ◌≡◌, refl, ◌∙◌, sym, ap, arith, Bool, true, false,
  some, if◌then◌else◌, leb, leb→le, Bool-cases, inl, inr,
}
use native.Mathlib.Nat.{le_of_mul-le-mul_right}
use dd_trace_py.Base.Int.{pos}
use dd_trace_py.Capture.{grain, hundred, CaptureSampler, new_capture_sampler, capture}

-- `n` events: the sampler after them, and how many were captured
abbrev pub captures : (ℕ → ℕ) → ℕ → CaptureSampler → CaptureSampler × ℕ
captures round zero s = (s, 0)
captures round (suc n) s =
    let (s', taken) = capture round s in
    let (s'', k) = captures round n s' in (s'', k + (if taken then 1 else 0))

-- One hundred in parts of 2 ** -45, where a sum of a percentage and a counter is below 2 ** 53
abbrev pub full : ℕ
full = 3518437208883200

-- A float of at most 53 bits is rounded to itself.
abbrev pub IsExact : (ℕ → ℕ) → Type 0
IsExact round = (m : ℕ) → m < 2 ^ 53 → round (m * grain) ≡ m * grain

grain-positive : 0 < grain
unfolding grain
grain-positive = omega arith

hundred-full : hundred ≡ full * grain
unfolding hundred
hundred-full = omega arith

add-scaled : (a b g : ℕ) → a * g + b * g ≡ (a + b) * g
add-scaled a b g = grind arith

add_sub : (a b : ℕ) → a ≤ b → a + (b - a) ≡ b
add_sub a b le = omega (arith, le)

sub-scaled : (a b g : ℕ) → b ≤ a → a * g - b * g ≡ (a - b) * g
sub-scaled a b g le = omega (arith, add-scaled b (a - b) g, ap (λ x. x * g) (add_sub b a le))

leb-scaled : (a b : ℕ) → leb (a * grain) (b * grain) ≡ leb a b
leb-scaled a b = elim (Bool-cases (leb a b)) [
  | inl le ↦
      ground
        (arith, le, add-scaled a (b - a) grain, ap (λ x. x * grain) (add_sub a b (leb→le a b le)))
  | inr gt ↦ elim (Bool-cases (leb (a * grain) (b * grain))) [
    | inl le ↦ absurd (
        ground
          (arith, gt, le_of_mul-le-mul_right (leb→le (a * grain) (b * grain) le) grain-positive))
    | inr gt' ↦ gt' ∙ sym gt
  ]
]

-- The counter is what is owed, less than one event.
pub record IsReady (k m : ℕ) (s : CaptureSampler) : Type 0 where
  pub percentage : s.capture_pct ≡ k * grain
  pub counter : s.counter ≡ m * grain
  pub owed : m < full

capture-IsReady :
    (round : ℕ → ℕ) (k m : ℕ) (s : CaptureSampler)
    → IsExact round
    → k ≤ full
    → IsReady k m s
    → (m' : ℕ) × IsReady k m' (capture round s).0
      × ((if (capture round s).1 then full else 0) + m' ≡ m + k)
unfolding capture
capture-IsReady round k m s exact le h =
    let sum : round (s.counter + s.capture_pct) ≡ (m + k) * grain =
      ap round (
        ap (λ x. x + s.capture_pct) h.counter
        ∙ ap (λ x. m * grain + x) h.percentage
        ∙ add-scaled m k grain)
      ∙ exact (m + k) (omega (arith, le, h.owed)) in
    rw (sum, hundred-full, leb-scaled full (m + k))
      (elim (Bool-cases (leb full (m + k))) [
        | inl e ↦ rw e (
            let left = m + k - full in
            let some_left = leb→le full (m + k) e in
            (
              left,
              record {
                percentage = h.percentage;
                counter =
                    ap round (sub-scaled (m + k) full grain some_left)
                    ∙ exact left (omega (arith, le, h.owed));
                owed = omega (arith, some_left, le, h.owed);
              },
              omega (arith, some_left),
            ))
        | inr e ↦ rw e (
          m + k,
          record { percentage = h.percentage; counter = refl; owed = ground (arith, e) },
          omega arith,
        )
      ])

one_more :
    (k : ℕ) (b : Bool) → (k + (if b then 1 else 0)) * full ≡ k * full + (if b then full else 0)
one_more k true = omega arith
one_more k false = omega arith

one_round : (n k : ℕ) → suc n * k ≡ n * k + k
one_round n k = grind arith

captures-counted :
    (round : ℕ → ℕ) (n k m : ℕ) (s : CaptureSampler)
    → IsExact round
    → k ≤ full
    → IsReady k m s
    → (m' : ℕ) × ((captures round n s).1 * full + m' ≡ n * k + m) × (m' < full)
captures-counted round zero k m s exact le h = (m, omega arith, h.owed)
captures-counted round (suc n) k m s exact le h =
    let (s', taken) = capture round s in
    let (m1, ready, counted) = capture-IsReady round k m s exact le h in
    let (m2, sum, owed) = captures-counted round n k m1 s' exact le ready in
    (m2, omega (arith, sum, counted, one_round n k, one_more (captures round n s').1 taken), owed)

new_sampler-ready :
    (k : ℕ)
    → k ≤ full
    → new_capture_sampler (pos (k * grain)) ≡ some (record { capture_pct = k * grain; counter = 0 })
unfolding new_capture_sampler
new_sampler-ready k le = let fits = leb-scaled k full in rw hundred-full (ground (arith, le, fits))

-- Let the percentage be `k` times 2 ** -45 and from 0 to 100, as each whole number and each
-- multiple of 1/1024 in this range is, and let the interpreter round what has 53 bits to itself.
-- Then the percentage makes a sampler, and after `n` events it has captured as many as `n` times
-- the percentage makes, rounded down: 100 times their number is at most `n` times the percentage,
-- and less than 100 below it, all in parts of 2 ** -45.
pub captures_lem :
    (round : ℕ → ℕ) (n k : ℕ)
    → IsExact round
    → k ≤ full
    → let s : CaptureSampler = record { capture_pct = k * grain; counter = 0 } in
      (new_capture_sampler (pos (k * grain)) ≡ some s)
      × ((captures round n s).1 * full ≤ n * k)
      × (n * k < (captures round n s).1 * full + full)
captures_lem round n k exact le =
    let s : CaptureSampler = record { capture_pct = k * grain; counter = 0 } in
    let ready : IsReady k 0 s = record {
      percentage = refl;
      counter = omega arith;
      owed = omega arith;
    } in
    let (m, sum, owed) = captures-counted round n k 0 s exact le ready in
    (new_sampler-ready k le, omega (arith, sum, owed), omega (arith, sum, owed))
