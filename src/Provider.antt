-- ===== src/Provider.antt =====
-- ddtrace/provider.py: the active span or context of an execution. Spans are objects at addresses,
-- made in the order of the addresses, so a parent has a smaller one. The hooks that an activation
-- runs are not part of it.
use dd_trace_py.Base.{
  ℕ, suc, zero, ◌<◌, ◌≡◌, refl, arith, true, false, Option, none, some, if◌then◌else◌, Option-cases,
  Bool-cases, inl, inr,
}
use dd_trace_py.Context.{Context}
use dd_trace_py.Span.{Span, finished}

-- What the context variable holds.
pub data Active : Type 0 where
  nothing : Active
  a_span : ℕ → Active
  a_context : Context → Active

-- the loop of `_update_active`, on fuel: up the parents until one is not finished
unfoldable pub first_unfinished : ℕ → (ℕ → Span) → Option ℕ → Option ℕ
first_unfinished zero h o = o
first_unfinished (suc fuel) h none = none
first_unfinished (suc fuel) h (some x) =
    let up = first_unfinished fuel h (h x).parent in if finished (h x) then up else some x

abbrev pub of_span : Option ℕ → Active
of_span none = nothing
of_span (some x) = a_span x

-- `DefaultContextProvider.active` with `_update_active`: the answer, which is also what the variable
-- holds afterwards
unfoldable pub active : (ℕ → Span) → Active → Active
active h nothing = nothing
active h (a_context c) = a_context c
active h (a_span x) = of_span (first_unfinished (suc x) h (some x))

-- Every parent was made before its child.
abbrev pub IsOrdered : (ℕ → Span) → Type 0
IsOrdered h = (x p : ℕ) → (h x).parent ≡ some p → p < x

-- From `x` to `y` up the parents, each step from a finished span.
pub data Climbs (h : ℕ → Span) : ℕ → Option ℕ → Type 0 where
  here : {x : ℕ} → finished (h x) ≡ false → Climbs h x (some x)
  root : {x : ℕ} → finished (h x) ≡ true → (h x).parent ≡ none → Climbs h x none
  up :
      {x p : ℕ} {o : Option ℕ}
      → finished (h x) ≡ true
      → (h x).parent ≡ some p
      → Climbs h p o
      → Climbs h x o

first_unfinished-none : (fuel : ℕ) (h : ℕ → Span) → first_unfinished fuel h none ≡ none
unfolding first_unfinished
first_unfinished-none zero h = refl
first_unfinished-none (suc fuel) h = refl

first_unfinished-Climbs :
    (h : ℕ → Span)
    → IsOrdered h
    → (fuel x : ℕ) → x < fuel
    → Climbs h x (first_unfinished fuel h (some x))
unfolding first_unfinished
first_unfinished-Climbs h ordered zero x lt = absurd (omega (arith, lt))
first_unfinished-Climbs h ordered (suc fuel) x lt = elim (Bool-cases (finished (h x))) [
  | inr e ↦ rw e (here e)
  | inl e ↦ elim (Option-cases (h x).parent) [
    | inl n ↦ rw (e, n, first_unfinished-none fuel h) (root e n)
    | inr (p, n) ↦
        rw (e, n)
          (up e n (first_unfinished-Climbs h ordered fuel p (omega (arith, lt, ordered x p n))))
  ]
]

-- The loop ends: the active span becomes the nearest ancestor, itself included, that has not
-- finished, with every span on the way finished; and nothing is active when all have finished.
pub active-Climbs :
    (h : ℕ → Span) (x : ℕ)
    → IsOrdered h
    → (o : Option ℕ) × Climbs h x o × (active h (a_span x) ≡ of_span o)
unfolding active
active-Climbs h x ordered = (
  first_unfinished (suc x) h (some x),
  first_unfinished-Climbs h ordered (suc x) x (omega arith),
  refl,
)
