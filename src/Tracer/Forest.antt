-- ===== src/Tracer/Forest.antt =====
-- ddtrace/tracer.py: a new span among the trees of those before it.
use mathlib.Core.Path.{subst}
use dd_trace_py.Base.{
  ℕ, ◌+◌, ◌<◌, ◌≡◌, refl, sym, ap, ◌∙◌, arith, Bool, true, false, Option, none, some, nat_eq, ◌==◌,
  if◌then◌else◌, Bool-cases, inl, inr, Every, Every-imp, Every-map, beq_refl,
}
use dd_trace_py.Base.Int.{pos}
use dd_trace_py.Base.Text.{Text}
use dd_trace_py.Context.{Context}
use dd_trace_py.Span.{Span}
use dd_trace_py.Provider.{Active, nothing, a_span, a_context}
use dd_trace_py.Aggregator.{Spans}
use dd_trace_py.Tracer.{
  Settings, Process, Moment, Request, Tracer, Place, set_span, activate, after_fork, place,
  service_for, mapped,
}
use dd_trace_py.Tracer.Starting.{start_as, or_root, natural, decorate, enlist, start_span, trace}
use dd_trace_py.Tracer.Links.{Links, links}
use dd_trace_py.Tracer.Preparing.{after_fork-Prepared}
use dd_trace_py.Tracer.Growth.{
  Fits, first, child, Stands, Started, place-Placed, start_as-Started, some_inj,
}
use dd_trace_py.Tracer.Tags.{decorate-Tagged}
use dd_trace_py.Tracer.Trees.{
  IsTraced, IsMade, Kept, Kept-trans, Rooted, Rooted-same, IsChild, activate-IsTraced, linked,
}

set_span_self : (x : ℕ) (s : Span) (h : Spans) → links (set_span x s h x) ≡ links s
unfolding set_span
set_span_self x s h = rw (beq_refl x) refl

set_span-other : (x y : ℕ) (s : Span) (h : Spans) → y < x → links (set_span x s h y) ≡ links (h y)
unfolding set_span
set_span-other x y s h lt = ground (arith, lt)

abbrev pub tags_in : Option Context → ℕ
tags_in none = 0
tags_in (some c) = c.tags

-- A new entry `k made` beside entries that stay.
Fits-Rooted :
    (l k : ℕ → Links) (made : ℕ) (n : Links)
    → k made ≡ n
    → ((y : ℕ) → y < made → k y ≡ l y)
    → ((y : ℕ) → y < made → Rooted l y)
    → Fits l made n
    → Rooted k made
Fits-Rooted l k made n new old h (first c top root ctx) = record {
  root = made;
  earlier = omega arith;
  root_of = ap (λ (m : Links). m.local_root) new ∙ root;
  root_root = ap (λ (m : Links). m.local_root) new ∙ root;
  top = ap (λ (m : Links). m.parent) new ∙ top;
  trace_of = refl;
  own = c;
  own_of = ap (λ (m : Links). m.context) new ∙ ctx;
  first = c;
  first_of = ap (λ (m : Links). m.context) new ∙ ctx;
  shared = refl;
  child = λ p e. absurd (ground (arith, sym e ∙ ap (λ (m : Links). m.parent) new ∙ top));
}
Fits-Rooted l k made n new old h (child x c j lt parent root trace_id named ctx jtx shared) =
    let r = h x lt in
    let at_root = old r.root (omega (arith, r.earlier, lt)) in
    record {
      root = r.root;
      earlier = omega (arith, r.earlier, lt);
      root_of =
          ap (λ (m : Links). m.local_root) new ∙ root ∙ ap (λ o. some (or_root made o)) r.root_of;
      root_root = ap (λ (m : Links). m.local_root) at_root ∙ r.root_root;
      top = ap (λ (m : Links). m.parent) at_root ∙ r.top;
      trace_of =
          ap (λ (m : Links). m.trace_id) new
          ∙ trace_id
          ∙ r.trace_of
          ∙ ap (λ (m : Links). m.trace_id) (sym at_root);
      own = c;
      own_of = ap (λ (m : Links). m.context) new ∙ ctx;
      first = r.first;
      first_of = ap (λ (m : Links). m.context) at_root ∙ r.first_of;
      shared = shared ∙ ap tags_in (sym jtx ∙ r.own_of) ∙ r.shared;
      child = λ p e.
          subst (λ z. IsChild k made z r.root)
            (some_inj (sym parent ∙ ap (λ (m : Links). m.parent) (sym new) ∙ e))
            (record {
              earlier = lt;
              named =
                  ap (λ (m : Links). m.parent_id) new
                  ∙ named
                  ∙ ap (λ (m : Links). some m.span_id) (sym (old x lt));
              root_of = ap (λ (m : Links). m.local_root) (old x lt) ∙ r.root_of;
            });
    }

Stands-Kept :
    (t u : Tracer) (l : Place) → Kept t u → Stands (linked t) t.made l → Stands (linked u) u.made l
Stands-Kept t u l k s = record {
  parent_made = λ x e. omega (arith, k.made, s.parent_made x e);
  context_of = λ x e. ap (λ (m : Links). m.context) (k.same x) ∙ s.context_of x e;
  trace_of = λ x e. s.trace_of x e ∙ ap (λ (m : Links). some (pos m.trace_id)) (sym (k.same x));
  named = λ x e. s.named x e ∙ ap (λ (m : Links). some (pos m.span_id)) (sym (k.same x));
}

Fits-Kept :
    (t u : Tracer) (n : Links) → Kept t u → Fits (linked t) t.made n → Fits (linked u) u.made n
Fits-Kept t u n k (first c top root ctx) = first c top (root ∙ ap some (sym k.made)) ctx
Fits-Kept t u n k (child x c j lt parent root trace_id named ctx jtx shared) =
    child x c j (omega (arith, lt, k.made)) parent
      (root
        ∙ ap (λ z. some (or_root z (linked t x).local_root)) (sym k.made)
        ∙ ap (λ (m : Links). some (or_root u.made m.local_root)) (sym (k.same x)))
      (trace_id ∙ ap (λ (m : Links). m.trace_id) (sym (k.same x)))
      (named ∙ ap (λ (m : Links). some m.span_id) (sym (k.same x))) ctx
      (ap (λ (m : Links). m.context) (k.same x) ∙ jtx) shared

enlist-IsTraced :
    (b : Bool) (service : Option Text) (s : Span) (t : Tracer)
    → Fits (linked t) t.made (links s)
    → IsTraced t
    → IsTraced (enlist b service s t).1
unfolding enlist
enlist-IsTraced b service s t fits h = record {
  item = item b;
  rooted = λ x lt. elim (Bool-cases (x == t.made)) [
    | inl e ↦ subst (Rooted k) (sym ((nat_eq.beq_iff x t.made).0 e)) new
    | inr e ↦
        let below : x < t.made = ground (arith, lt, e) in
        Rooted-same (linked t) k x
          (λ y le. set_span-other t.made y s t.spans (omega (arith, le, below))) (h.rooted x below)
  ];
}
  where
    k : ℕ → Links
    k y = links (set_span t.made s t.spans y)

    new : Rooted k t.made
    new =
        Fits-Rooted (linked t) k t.made (links s) (set_span_self t.made s t.spans)
          (λ y lt. set_span-other t.made y s t.spans lt) h.rooted fits

    item : (b : Bool) → IsMade (t.made + 1) (if b then a_span t.made else t.item)
    item true = omega arith
    item false = grown t.item h.item
      where
        grown : (i : Active) → IsMade t.made i → IsMade (t.made + 1) i
        grown nothing m = m
        grown (a_span x) m = omega (arith, m)
        grown (a_context c) m = m

Fits-context :
    (l : ℕ → Links) (made : ℕ) (n : Links) → Fits l made n → (c : Context) × (n.context ≡ some c)
Fits-context l made n (first c top root ctx) = (c, ctx)
Fits-context l made n (child x c j lt parent root trace_id named ctx jtx shared) = (c, ctx)

-- A start of a span: the trees stay and one span joins them.
pub start_span-IsTraced :
    (g : Settings) (p : Process) (m : Moment) (i : Active) (q : Request) (b : Bool) (t : Tracer)
    → IsMade t.made i
    → IsTraced t
    → Every (λ (r : ℕ × Tracer). IsTraced r.1) (start_span g p m i q b t)
unfolding start_span
start_span-IsTraced g p m i q b t made h =
    let (i1, t1) = after_fork t.new_process i t in
    let (k1, made1, h1) = after_fork-Prepared t.new_process i t made h in
    let (l, t2) = place i1 t1 in
    let (k2, stands, h2) = place-Placed i1 t1 made1 h1 in
    let service = service_for q.service l.parent g t2.spans in
    Every-map (λ (r : ℕ × Tracer). IsTraced r.1) _
      (start_as (natural l.trace_id) g p m q (mapped g service) l t2)
      (Every-imp (Started t2) _ (λ r started. joined service t2 r started)
        (start_as (natural l.trace_id) g p m q (mapped g service) l t2)
        (start_as-Started (natural l.trace_id) g p m q (mapped g service) l t2 refl
          (Stands-Kept t1 t2 l k2 stands) h2))
  where
    joined :
        (service : Option Text) (t2 : Tracer) (r : Span × Tracer)
        → Started t2 r
        → IsTraced
            (enlist b service (decorate g p service r.0 r.1).0 (decorate g p service r.0 r.1).1).1
    joined service t2 (s, t3) (fits, k3, h3) =
        let (c, ctx) = Fits-context (linked t2) t2.made (links s) fits in
        let (e, k4, h4) = decorate-Tagged g p service c s t3 ctx h3 in
        let (s4, t4) = decorate g p service s t3 in
        enlist-IsTraced b service s4 t4
          (subst (Fits (linked t4) t4.made) (sym e)
            (Fits-Kept t2 t4 (links s) (Kept-trans t2 t3 t4 k3 k4) fits))
          h4

pub trace-IsTraced :
    (g : Settings) (p : Process) (m : Moment) (q : Request) (t : Tracer)
    → IsTraced t
    → Every (λ (r : ℕ × Tracer). IsTraced r.1) (trace g p m q t)
unfolding trace
trace-IsTraced g p m q t h =
    let h' = activate-IsTraced t h in
    start_span-IsTraced g p m (activate t).item q true (activate t) h'.item h'
