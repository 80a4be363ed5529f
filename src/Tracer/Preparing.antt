-- ===== src/Tracer/Preparing.antt =====
-- ddtrace/tracer.py: the steps of `_start_span` before there is a new span.
use dd_trace_py.Base.{ℕ, ◌<◌, ◌≡◌, refl, ap, Bool, true, false, some, nat_eq, if◌then◌else◌}
use dd_trace_py.Context.{Context, Store}
use dd_trace_py.Span.{Span}
use dd_trace_py.Provider.{Active, nothing, a_span, a_context}
use dd_trace_py.Tracer.{Tracer, activate, context_of, after_fork, detach, is_item}
use dd_trace_py.Tracer.Links.{links, get_context-some}
use dd_trace_py.Tracer.Trees.{
  IsTraced, IsMade, Kept, Kept-refl, IsTraced-Kept, activate-IsTraced, set_span-links, linked,
}

-- The context of a span that was made is its own; nothing else changes.
pub context_of-own :
    (x : ℕ) (t : Tracer) (c : Context) → (linked t x).context ≡ some c → (context_of x t).0 ≡ c
unfolding context_of
context_of-own x t c h =
    ap (λ (r : Context × Span × Store). r.0) (get_context-some t.cells c (t.spans x) t.store h)

pub context_of-Kept :
    (x : ℕ) (t : Tracer) (c : Context) → (linked t x).context ≡ some c → Kept t (context_of x t).1
unfolding context_of
context_of-Kept x t c h = record {
  made = refl;
  same = set_span-links x _ t.spans (
      ap (λ (r : Context × Span × Store). links r.1)
        (get_context-some t.cells c (t.spans x) t.store h));
}

context_of-item : (x : ℕ) (t : Tracer) → (context_of x t).1.item ≡ t.item
unfolding context_of
context_of-item x t = refl

pub context_of-made :
    (x : ℕ) (t : Tracer) → IsTraced t → IsMade (context_of x t).1.made (context_of x t).1.item
unfolding context_of
context_of-made x t h = h.item

-- What the steps before the new span leave: the same spans, a parent that was made, and a tracer
-- whose active item was.
abbrev pub Prepared : Tracer → Active × Tracer → Type 0
Prepared t r = Kept t r.1 × IsMade r.1.made r.0 × IsTraced r.1

if-Prepared :
    (b : Bool) (t u v : Tracer) (i : Active)
    → Prepared t (i, u)
    → Prepared t (i, v)
    → Prepared t (i, if b then u else v)
if-Prepared true t u v i h k = h
if-Prepared false t u v i h k = k

detach-Prepared : (x : ℕ) (t : Tracer) → x < t.made → IsTraced t → Prepared t (detach x t)
unfolding activate
detach-Prepared x t lt h =
    let own = (h.rooted x lt).own in
    let own_of = (h.rooted x lt).own_of in
    let t1 = (context_of x t).1 in
    let kept = context_of-Kept x t own own_of in
    let h1 = IsTraced-Kept t t1 kept (context_of-made x t h) h in
    let h2 = activate-IsTraced t1 h1 in
    if-Prepared (is_item x (activate t1).item) t _ _ (detach x t).0
      (kept, record {}, record { item = record {}; rooted = h1.rooted }) (kept, record {}, h2)

pub after_fork-Prepared :
    (b : Bool) (i : Active) (t : Tracer)
    → IsMade t.made i
    → IsTraced t
    → Prepared t (after_fork b i t)
after_fork-Prepared false i t m h = (Kept-refl t, m, h)
after_fork-Prepared true nothing t m h = (Kept-refl t, m, h)
after_fork-Prepared true (a_context c) t m h = (Kept-refl t, m, h)
after_fork-Prepared true (a_span x) t m h = detach-Prepared x (record t { new_process = false }) m h
