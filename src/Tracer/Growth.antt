-- ===== src/Tracer/Growth.antt =====
-- ddtrace/tracer.py: the place of a new span, from its parent or a context.
use mathlib.Core.Path.{subst}
use mathlib.Core.Option
use dd_trace_py.Base.{
  string_eq, Every-own, ℕ, zero, suc, ◌<◌, ◌≡◌, refl, sym, ap, ◌∙◌, arith, Bool, true, false,
  Option, none, some, nat_eq, Every, Every-imp, Every-map,
}
use dd_trace_py.Base.Int.{ℤ, pos, negsuc}
use dd_trace_py.Base.Text.{Text}
use dd_trace_py.Base.Dict.{lookup}
use dd_trace_py.Context.{Context, Store, with_span}
use dd_trace_py.Span.{Span, init}
use dd_trace_py.Provider.{Active, nothing, a_span, a_context}
use dd_trace_py.Tracer.{Settings, Process, Moment, Request, Tracer, Place, context_of, place}
use dd_trace_py.Tracer.Starting.{
  start_root, start_as, new_span, below, or_root, natural, with_hostname,
}
use dd_trace_py.Tracer.Sampling.{RootSampler, sample_root, settle}
use dd_trace_py.Tracer.Links.{Links, links}
use dd_trace_py.Tracer.Choices.{decide-links}
use dd_trace_py.Tracer.Preparing.{context_of-own, context_of-Kept, context_of-made}
use dd_trace_py.Tracer.Trees.{IsTraced, IsMade, Kept, Kept-refl, IsTraced-Kept, linked}

-- Where a new span stands: its parent was made, and gives the context and the ids.
pub record Stands (l : ℕ → Links) (made : ℕ) (at : Place) : Type 0 where
  pub parent_made : (x : ℕ) → at.parent ≡ some x → x < made
  pub context_of : (x : ℕ) → at.parent ≡ some x → (l x).context ≡ some at.context
  pub trace_of : (x : ℕ) → at.parent ≡ some x → at.trace_id ≡ some (pos (l x).trace_id)
  pub named : (x : ℕ) → at.parent ≡ some x → at.parent_id ≡ some (pos (l x).span_id)

-- Before the span there is its place, and the same spans.
abbrev pub Placed : Tracer → Place × Tracer → Type 0
Placed t r = Kept t r.1 × Stands (linked t) t.made r.0 × IsTraced r.1

alone : (l : ℕ → Links) (made : ℕ) (at : Place) → at.parent ≡ none → Stands l made at
alone l made at e = record {
  parent_made = λ x f. absurd (ground (arith, e, f));
  context_of = λ x f. absurd (ground (arith, e, f));
  trace_of = λ x f. absurd (ground (arith, e, f));
  named = λ x f. absurd (ground (arith, e, f));
}

pub some_inj : {x y : ℕ} → ◌≡◌ {A = Option ℕ} (some x) (some y) → x ≡ y
some_inj e = ground (arith, e)

pub place-Placed : (i : Active) (t : Tracer) → IsMade t.made i → IsTraced t → Placed t (place i t)
unfolding place
place-Placed nothing t m h = (Kept-refl t, orphan, h)
  where
    orphan : Stands (linked t) t.made (place nothing t).0
    orphan = alone (linked t) t.made (place nothing t).0 refl
place-Placed (a_context c) t m h =
    (Kept-refl t, alone (linked t) t.made (place (a_context c) t).0 refl, h)
place-Placed (a_span x) t m h =
    let own = (h.rooted x m).own in
    let own_of = (h.rooted x m).own_of in
    let kept = context_of-Kept x t own own_of in
    (kept, known, IsTraced-Kept t (context_of x t).1 kept (context_of-made x t h) h)
  where
    known : Stands (linked t) t.made (place (a_span x) t).0
    known = record {
      parent_made = λ y e. subst (λ z. z < t.made) (some_inj e) m;
      context_of = λ y e.
          subst (λ z. (linked t z).context ≡ some (context_of x t).0) (some_inj e)
            ((h.rooted x m).own_of
              ∙ ap some (sym (context_of-own x t (h.rooted x m).own (h.rooted x m).own_of)));
      trace_of = λ y e. ap (λ z. some (pos (linked t z).trace_id)) (some_inj e);
      named = λ y e. ap (λ z. some (pos (linked t z).span_id)) (some_inj e);
    }

-- What a new span has: it is the first of a trace, or the child of a span that was made.
pub data Fits (l : ℕ → Links) (made : ℕ) (n : Links) : Type 0 where
  first :
      (c : Context)
      → n.parent ≡ none
      → n.local_root ≡ some made
      → n.context ≡ some c
      → Fits l made n
  child :
      (x : ℕ) (c k : Context)
      → x < made
      → n.parent ≡ some x
      → n.local_root ≡ some (or_root made (l x).local_root)
      → n.trace_id ≡ (l x).trace_id
      → n.parent_id ≡ some (l x).span_id
      → n.context ≡ some c
      → (l x).context ≡ some k
      → c.tags ≡ k.tags
      → Fits l made n

-- The new span and the tracer after its samplers decided.
abbrev pub Started : Tracer → Span × Tracer → Type 0
Started t r = Fits (linked t) t.made (links r.0) × Kept t r.1 × IsTraced r.1

with_hostname-links : (b : Bool) (t : Text) (s : Span) → links (with_hostname b t s) ≡ links s
with_hostname-links true t s = refl
with_hostname-links false t s = refl

start_root-Started :
    (g : Settings) (p : Process) (m : Moment) (c k : Context) (s : Span) (t : Tracer)
    → s.context ≡ some k
    → s.parent ≡ none
    → IsTraced t
    → Every (Started t) (start_root g p m c s t)
unfolding start_root
start_root-Started g p m c k s t ctx top h =
    let s0 = with_hostname g.report_hostname p.hostname (record s { local_root = some t.made }) in
    let e0 : links s0 ≡ links (record s { local_root = some t.made }) =
      with_hostname-links g.report_hostname p.hostname _ in
    let env = lookup "env" t.tags in
    Every-map (Started t) _
      (Option.bind (sample_root p.res m.at m.later t.cells env t.sampler s0 t.store)
        (settle env t.priority_sampler c))
      (Every-imp (λ (r : Span × Store × RootSampler). links r.0 ≡ links s0) _
        (λ r e. (
          first k (ap (λ (n : Links). n.parent) (e ∙ e0) ∙ top)
              (ap (λ (n : Links). n.local_root) (e ∙ e0))
              (ap (λ (n : Links). n.context) (e ∙ e0) ∙ ctx),
          Kept-refl t,
          h,
        ))
        _
        (decide-links p.res m.at m.later t.cells env t.sampler t.priority_sampler c k s0 t.store
          (ap (λ (n : Links). n.context) e0 ∙ ctx)))

natural-pos : (o : Option ℤ) (n : ℕ) → natural o ≡ some (some n) → o ≡ some (pos n)
natural-pos none n e = absurd (ground (arith, e))
natural-pos (some (pos k)) n e = ap (λ z. some (pos z)) (ground (arith, e))
natural-pos (some (negsuc k)) n e = absurd (ground (arith, e))

abbrev id_in : Option ℤ → ℕ
id_in none = 0
id_in (some (pos n)) = n
id_in (some (negsuc n)) = 0

abbrev given_id : Option (Option ℕ) → Option ℕ
given_id none = none
given_id (some o) = o

below-Fits :
    (o : Option ℕ) (m : Moment) (q : Request) (service : Option Text) (at : Place) (n : ℕ)
    (parent_id : Option ℕ) (t : Tracer)
    → at.parent ≡ o
    → natural at.trace_id ≡ some (some (suc n))
    → natural at.parent_id ≡ some parent_id
    → Stands (linked t) t.made at
    → Fits
        (linked t)
        t.made
        (links (below o t.made t.spans (new_span m q service at.context (some (suc n)) parent_id)))
unfolding init with_span
below-Fits none m q service at n parent_id t e f g st =
    first (with_span at.context (pos (suc n)) (pos m.random_span)) refl refl refl
below-Fits (some x) m q service at n parent_id t e f g st =
    child x (with_span at.context (pos (suc n)) (pos m.random_span)) at.context (st.parent_made x e)
      refl refl (ap id_in (sym (natural-pos at.trace_id (suc n) f) ∙ st.trace_of x e))
      (ap given_id (sym g ∙ ap natural (st.named x e))) refl (st.context_of x e) refl

pub start_as-Started :
    (o : Option (Option ℕ)) (g : Settings) (p : Process) (m : Moment) (q : Request)
    (service : Option Text) (at : Place) (t : Tracer)
    → natural at.trace_id ≡ o
    → Stands (linked t) t.made at
    → IsTraced t
    → Every (Started t) (start_as o g p m q service at t)
unfolding init
start_as-Started none g p m q service at t e st h = record {}
start_as-Started (some none) g p m q service at t e st h =
    start_root-Started g p m at.context
      (with_span at.context (pos m.random_trace) (pos m.random_span))
      (new_span m q service at.context none none) t refl refl h
start_as-Started (some (some zero)) g p m q service at t e st h =
    start_root-Started g p m at.context
      (with_span at.context (pos m.random_trace) (pos m.random_span))
      (new_span m q service at.context none none) t refl refl h
start_as-Started (some (some (suc n))) g p m q service at t e st h =
    Every-map (Started t) _ (natural at.parent_id) (
      Every-imp (λ i. natural at.parent_id ≡ some i)
        (λ i.
          Started t
            (below at.parent t.made t.spans (new_span m q service at.context (some (suc n)) i), t))
        (λ i f. (below-Fits at.parent m q service at n i t refl e f st, Kept-refl t, h))
        (natural at.parent_id) (Every-own (natural at.parent_id)))
