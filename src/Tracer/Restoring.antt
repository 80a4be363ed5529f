-- ===== src/Tracer/Restoring.antt =====
-- ddtrace/tracer.py: what is active after the active span has finished.
use mathlib.Core.Path.{subst}
use dd_trace_py.Base.{
  ℕ, zero, suc, ◌<◌, ◌≡◌, refl, ap, ◌∙◌, arith, true, false, Option, none, some, nat_eq, Bool-cases,
  inl, inr, beq_refl, Every, Every-imp, Every-some, Every-own,
}
use dd_trace_py.Span.{Span, finish, finished}
use dd_trace_py.Provider.{a_span, active, first_unfinished, of_span}
use dd_trace_py.Aggregator.{Spans}
use dd_trace_py.Tracer.{Settings, Tracer, set_span, activate}
use dd_trace_py.Tracer.Starting.{on_finish, finish_span}
use dd_trace_py.Tracer.Trees.{IsTraced, IsMade}

set_span-same : (x : ℕ) (s : Span) (h : Spans) → set_span x s h x ≡ s
unfolding set_span
set_span-same x s h = rw (beq_refl x) refl

set_span-before : (x y : ℕ) (s : Span) (h : Spans) → y < x → set_span x s h y ≡ h y
unfolding set_span
set_span-before x y s h lt = ground (arith, lt)

-- The parent of a finished span becomes active, if it has not finished itself.
active-parent :
    (h : Spans) (x : ℕ) (q : Option ℕ)
    → finished (h x) ≡ true
    → (h x).parent ≡ q
    → Every (λ p. (p < x) × (finished (h p) ≡ false)) q
    → active h (a_span x) ≡ of_span q
unfolding active first_unfinished
active-parent h zero none closed up below = rw (closed, up) refl
active-parent h (suc x) none closed up below = rw (closed, up) refl
active-parent h zero (some p) closed up below = absurd (omega (arith, below.0))
active-parent h (suc x) (some p) closed up below = rw (closed, up, below.1) refl

finish-finished :
    (o : Option ℕ) (now : ℕ) (s : Span)
    → finished s ≡ false
    → (finished (finish o now s).0 ≡ true)
      × ((finish o now s).1 ≡ true)
      × ((finish o now s).0.parent ≡ s.parent)
unfolding finish
finish-finished o now s e = rw e (refl, refl, refl)

on_finish-item :
    (g : Settings) (x : ℕ) (t : Tracer) → (on_finish g x t).0.item ≡ active t.spans t.item
unfolding on_finish activate
on_finish-item g x t = elim (Bool-cases t.enabled) [ inl e ↦ rw e refl | inr e ↦ rw e refl ]

-- When the active span of a tracer whose spans are a forest is finished, its parent is active again, if it has one and that has not
-- finished; and nothing is active after a span without a parent. This holds whether the tracer is
-- enabled or not, and whatever the processors do.
pub finish_span-restores :
    (g : Settings) (o : Option ℕ) (now x : ℕ) (q : Option ℕ) (t : Tracer)
    → IsTraced t
    → t.item ≡ a_span x
    → finished (t.spans x) ≡ false
    → (t.spans x).parent ≡ q
    → Every (λ p. finished (t.spans p) ≡ false) q
    → (finish_span g o now x t).0.item ≡ of_span q
unfolding finish_span
finish_span-restores g o now x q t h item unfinished up parent_unfinished =
    let r = finish o now (t.spans x) in
    let (closed, ran, same) = finish-finished o now (t.spans x) unfinished in
    let u = record t { spans = set_span x r.0 t.spans } in
    let lt : x < t.made = subst (IsMade t.made) item h.item in
    rw ran (
      on_finish-item g x u
      ∙ ap (active u.spans) item
      ∙ active-parent u.spans x q (ap finished (set_span-same x r.0 t.spans) ∙ closed)
          (ap (λ (s : Span). s.parent) (set_span-same x r.0 t.spans) ∙ same ∙ up)
          (Every-imp (λ p. q ≡ some p) _
            (λ p e. (
              earlier p e,
              ap finished (set_span-before x p r.0 t.spans (earlier p e))
                  ∙ Every-some _ q p parent_unfinished e,
            ))
            q (Every-own q)))
  where
    earlier : (p : ℕ) → q ≡ some p → p < x
    earlier p e = ((h.rooted x (subst (IsMade t.made) item h.item)).child p (up ∙ e)).earlier
