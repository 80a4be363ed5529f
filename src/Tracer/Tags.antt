-- ===== src/Tracer/Tags.antt =====
-- ddtrace/tracer.py: the tags of a new span.
use dd_trace_py.Base.{string_eq, ℕ, ◌≡◌, refl, ◌∙◌, Option, none, some, [], ◌∷◌, String, nat_eq}
use dd_trace_py.Base.Text.{Text}
use dd_trace_py.Base.Dict.{Dict}
use dd_trace_py.Context.{Context, Store}
use dd_trace_py.Span.{Span, set_str_tag}
use dd_trace_py.Span.Tagging.{set_tag, text}
use dd_trace_py.Tracer.{Settings, Process, Tracer, current_root_span, current_span}
use dd_trace_py.Tracer.Starting.{set_all, tag_process, tag_if_given, tag_version, decorate}
use dd_trace_py.Tracer.Links.{links, set_tag-links, context-links, if-links}
use dd_trace_py.Tracer.Trees.{IsTraced, Kept, Kept-refl, activate-IsTraced, activate-Kept}

set_all-links :
    (p : Process) (a : ℕ) (tags : Dict String Text) (c : Context) (s : Span) (st : Store)
    → s.context ≡ some c
    → links (set_all p a tags (s, st)).0 ≡ links s
set_all-links p a [] c s st h = refl
set_all-links p a ((k, v) ∷ tags) c s st h =
    let (u, st') = set_tag p.show_float p.read_float a k (text v) s st in
    let e = set_tag-links p.show_float p.read_float a k (text v) c s st h in
    set_all-links p a tags c u st' (context-links s u c e h) ∙ e

-- The tags of a new span leave its links, and the other spans.
abbrev pub Tagged : Span → Tracer → Span × Tracer → Type 0
Tagged s t r = (links r.0 ≡ links s) × Kept t r.1 × IsTraced r.1

tag_if_given-links :
    (k : String) (o : Option Text) (s : Span) → links (tag_if_given k o s) ≡ links s
unfolding set_str_tag
tag_if_given-links k none s = refl
tag_if_given-links k (some []) s = refl
tag_if_given-links k (some (c ∷ v)) s = refl

tag_process-links : (o : Option ℕ) (p : Process) (s : Span) → links (tag_process o p s) ≡ links s
tag_process-links none p s = refl
tag_process-links (some x) p s = refl

tag_version-Tagged :
    (o : Option Text) (g : Settings) (service : Option Text) (s : Span) (t : Tracer)
    → IsTraced t
    → Tagged s t (tag_version o g service s t)
unfolding current_root_span current_span set_str_tag
tag_version-Tagged none g service s t h = (refl, Kept-refl t, h)
tag_version-Tagged (some []) g service s t h = (refl, Kept-refl t, h)
tag_version-Tagged (some (c ∷ v)) g service s t h =
    (if-links links _ _ _ (links s) refl refl, activate-Kept t, activate-IsTraced t h)

pub decorate-Tagged :
    (g : Settings) (p : Process) (service : Option Text) (c : Context) (s : Span) (t : Tracer)
    → s.context ≡ some c
    → IsTraced t
    → Tagged s t (decorate g p service s t)
unfolding decorate
decorate-Tagged g p service c s t ctx h =
    let s0 = tag_process s.parent p s in
    let (s1, st) = set_all p t.cells t.tags (s0, t.store) in
    let e0 = tag_process-links s.parent p s in
    let e1 = set_all-links p t.cells t.tags c s0 t.store (context-links s s0 c e0 ctx) in
    let s2 = tag_if_given "env" g.env s1 in
    let (e, kept, traced) = tag_version-Tagged g.version g service s2 (record t { store = st }) h in
    (e ∙ tag_if_given-links "env" g.env s1 ∙ e1 ∙ e0, kept, traced)
