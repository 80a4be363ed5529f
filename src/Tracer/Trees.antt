-- ===== src/Tracer/Trees.antt =====
-- ddtrace/tracer.py: the spans of a tracer as trees, one for each trace below its local root.
use dd_trace_py.Base.{
  ℕ, zero, suc, ◌≤◌, ◌<◌, ◌≡◌, refl, sym, ap, ◌∙◌, arith, Option, none, some, nat_eq, ◌==◌,
  Bool-cases, Option-cases, inl, inr, Every,
}
use dd_trace_py.Context.{Context}
use dd_trace_py.Span.{Span, finished}
use dd_trace_py.Provider.{Active, nothing, a_span, a_context, active, first_unfinished, of_span}
use dd_trace_py.Aggregator.{Spans}
use dd_trace_py.Tracer.{Tracer, set_span, activate}
use dd_trace_py.Tracer.Links.{Links, links}

-- the links of each span
abbrev pub linked : Tracer → ℕ → Links
linked t x = links (t.spans x)

-- `x` was started below `p`, in the trace of the local root `root`.
pub record IsChild (l : ℕ → Links) (x p root : ℕ) : Type 0 where
  pub earlier : p < x
  pub named : (l x).parent_id ≡ some (l p).span_id
  pub root_of : (l p).local_root ≡ some root

-- `x` has a local root, the first span of its trace in this process, whose trace id it has and with
-- whose context it shares the tags; and its parent, if any, has the same local root.
pub record Rooted (l : ℕ → Links) (x : ℕ) : Type 0 where
  pub root : ℕ
  pub earlier : root ≤ x
  pub root_of : (l x).local_root ≡ some root
  pub root_root : (l root).local_root ≡ some root
  pub top : (l root).parent ≡ none
  pub trace_of : (l x).trace_id ≡ (l root).trace_id
  pub own : Context
  pub own_of : (l x).context ≡ some own
  pub first : Context
  pub first_of : (l root).context ≡ some first
  pub shared : own.tags ≡ first.tags
  pub child : (p : ℕ) → (l x).parent ≡ some p → IsChild l x p root

IsChild-same :
    (l k : ℕ → Links) (x p root : ℕ)
    → k x ≡ l x
    → k p ≡ l p
    → IsChild l x p root
    → IsChild k x p root
IsChild-same l k x p root e f h = record {
  earlier = h.earlier;
  named = ap (λ (n : Links). n.parent_id) e ∙ h.named ∙ ap (λ (n : Links). some n.span_id) (sym f);
  root_of = ap (λ (n : Links). n.local_root) f ∙ h.root_of;
}

pub Rooted-same :
    (l k : ℕ → Links) (x : ℕ) → ((y : ℕ) → y ≤ x → k y ≡ l y) → Rooted l x → Rooted k x
Rooted-same l k x e h = record {
  root = h.root;
  earlier = h.earlier;
  root_of = ap (λ (n : Links). n.local_root) (e x (omega arith)) ∙ h.root_of;
  root_root = ap (λ (n : Links). n.local_root) (e h.root h.earlier) ∙ h.root_root;
  top = ap (λ (n : Links). n.parent) (e h.root h.earlier) ∙ h.top;
  trace_of =
      ap (λ (n : Links). n.trace_id) (e x (omega arith))
      ∙ h.trace_of
      ∙ ap (λ (n : Links). n.trace_id) (sym (e h.root h.earlier));
  own = h.own;
  own_of = ap (λ (n : Links). n.context) (e x (omega arith)) ∙ h.own_of;
  first = h.first;
  first_of = ap (λ (n : Links). n.context) (e h.root h.earlier) ∙ h.first_of;
  shared = h.shared;
  child = λ p up.
      let c = h.child p (ap (λ (n : Links). n.parent) (sym (e x (omega arith))) ∙ up) in
      IsChild-same l k x p h.root (e x (omega arith)) (e p (omega (arith, c.earlier))) c;
}

-- What is active, or a parent, was made.
abbrev pub IsMade : ℕ → Active → Type 0
IsMade made nothing = Unit
IsMade made (a_span x) = x < made
IsMade made (a_context c) = Unit

pub record IsForest (h : Spans) (made : ℕ) (i : Active) : Type 0 where
  pub item : IsMade made i
  pub rooted : (x : ℕ) → x < made → Rooted (λ y. links (h y)) x

abbrev pub IsTraced : Tracer → Type 0
IsTraced t = IsForest t.spans t.made t.item

-- The same spans, with the same links.
pub record SameLinks (h k : Spans) (before after : ℕ) : Type 0 where
  pub made : after ≡ before
  pub same : (y : ℕ) → links (k y) ≡ links (h y)

abbrev pub Kept : Tracer → Tracer → Type 0
Kept t u = SameLinks t.spans u.spans t.made u.made

pub Kept-refl : (t : Tracer) → Kept t t
Kept-refl t = record { made = refl; same = λ y. refl }

pub Kept-trans : (t u v : Tracer) → Kept t u → Kept u v → Kept t v
Kept-trans t u v h k = record { made = k.made ∙ h.made; same = λ y. k.same y ∙ h.same y }

pub IsTraced-Kept : (t u : Tracer) → Kept t u → IsMade u.made u.item → IsTraced t → IsTraced u
IsTraced-Kept t u k item h = record {
  item = item;
  rooted = λ x lt.
      Rooted-same (linked t) (linked u) x (λ y le. k.same y)
        (h.rooted x (omega (arith, lt, k.made)));
}

-- The nearest ancestor that has not finished was made.
first_unfinished-made :
    (fuel made : ℕ) (h : Spans) (o : Option ℕ)
    → ((x p : ℕ) → x < made → (h x).parent ≡ some p → p < made)
    → Every (λ x. x < made) o
    → Every (λ x. x < made) (first_unfinished fuel h o)
unfolding first_unfinished
first_unfinished-made zero made h o up lt = lt
first_unfinished-made (suc fuel) made h none up lt = record {}
first_unfinished-made (suc fuel) made h (some x) up lt = elim (Bool-cases (finished (h x))) [
  | inr e ↦ rw (first_unfinished, e) lt
  | inl e ↦
      rw (first_unfinished, e)
        (first_unfinished-made fuel made h (h x).parent up (elim (Option-cases (h x).parent) [
          | inl n ↦ rw n (record {})
          | inr (p, n) ↦ rw n (up x p lt n)
        ]))
]

of_span-IsMade : (made : ℕ) (o : Option ℕ) → Every (λ x. x < made) o → IsMade made (of_span o)
of_span-IsMade made none h = h
of_span-IsMade made (some x) h = h

active-IsMade :
    (made : ℕ) (h : Spans) (i : Active)
    → ((x p : ℕ) → x < made → (h x).parent ≡ some p → p < made)
    → IsMade made i
    → IsMade made (active h i)
unfolding active
active-IsMade made h nothing up lt = lt
active-IsMade made h (a_context c) up lt = lt
active-IsMade made h (a_span x) up lt =
    of_span-IsMade made (first_unfinished (suc x) h (some x))
      (first_unfinished-made (suc x) made h (some x) up lt)

parent-made :
    (t : Tracer) → IsTraced t → (x p : ℕ) → x < t.made → (t.spans x).parent ≡ some p → p < t.made
parent-made t h x p lt e = omega (arith, lt, ((h.rooted x lt).child p e).earlier)

-- Looking up the active span keeps everything.
pub activate-Kept : (t : Tracer) → Kept t (activate t)
unfolding activate
activate-Kept t = record { made = refl; same = λ y. refl }

pub activate-IsTraced : (t : Tracer) → IsTraced t → IsTraced (activate t)
unfolding activate
activate-IsTraced t h =
    IsTraced-Kept t (activate t) (activate-Kept t)
      (active-IsMade t.made t.spans t.item (parent-made t h) h.item) h

pub set_span-links :
    (x : ℕ) (s : Span) (h : Spans)
    → links s ≡ links (h x)
    → (y : ℕ) → links (set_span x s h y) ≡ links (h y)
unfolding set_span
set_span-links x s h e y = elim (Bool-cases (y == x)) [
  | inl f ↦ rw f (e ∙ ap (λ z. links (h z)) (sym ((nat_eq.beq_iff y x).0 f)))
  | inr f ↦ rw f refl
]
