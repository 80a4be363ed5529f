-- ===== src/Base/Fraction.antt =====
-- The program's floats that are rates: exact non-negative fractions.
use Prim.Native.Nat.{ℕ, ◌*◌, ◌+◌, ◌≤◌, ◌<◌}
use mathlib.Core.Bool.{Bool}
use native.Mathlib.Omega.{arith}
use dd_trace_py.Base.Tests.{nat_beq}

pub record Fraction : Type 0 where
  pub num : ℕ
  pub den : ℕ

abbrev pub one : Fraction
one = record { num = 1; den = 1 }

abbrev pub nought : Fraction
nought = record { num = 0; den = 1 }

-- The value lies between 0 and 1, and is a number.
pub record IsRate (q : Fraction) : Type 0 where
  pub defined : 0 < q.den
  pub at_most_one : q.num ≤ q.den

-- (p + q) / 2
unfoldable pub average : Fraction → Fraction → Fraction
average p q = record { num = p.num * q.den + q.num * p.den; den = 2 * (p.den * q.den) }

abbrev pub eq_one : Fraction → Bool
eq_one q = nat_beq q.num q.den

abbrev pub eq_nought : Fraction → Bool
eq_nought q = nat_beq q.num 0

-- p ≤ q
infix 50 ◌≤q◌
abbrev pub ◌≤q◌ : Fraction → Fraction → Type 0
p ≤q q = p.num * q.den ≤ q.num * p.den

mul_pos : (a b : ℕ) → 0 < a → 0 < b → 0 < a * b
mul_pos a b h k = grind arith

mul_mono : (a b c d : ℕ) → a ≤ b → c ≤ d → a * c ≤ b * d
mul_mono a b c d h k = grind arith

pub average-IsRate : {p q : Fraction} → IsRate p → IsRate q → IsRate (average p q)
unfolding average
average-IsRate {p} {q} h k = record {
  defined = omega (arith, mul_pos p.den q.den h.defined k.defined);
  at_most_one = omega (
    arith,
    mul_mono p.num p.den q.den q.den h.at_most_one (omega arith),
    mul_mono q.num q.den p.den p.den k.at_most_one (omega arith),
  );
}
