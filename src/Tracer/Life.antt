-- ===== src/Tracer/Life.antt =====
-- ddtrace/tracer.py: sequences of starts, finishes, activations and forks.
use dd_trace_py.Base.{
  ℕ, ◌<◌, ◌≡◌, refl, sym, ap, ◌∙◌, Bool, true, false, Option, none, some, List, [], ◌∷◌, String,
  nat_eq, ◌==◌, if◌then◌else◌, string_eq, Bool-cases, Option-cases, inl, inr, Every-some, All,
}
use dd_trace_py.Base.Text.{Text}
use dd_trace_py.Base.Dict.{Dict, lookup}
use dd_trace_py.Context.{
  Context, Store, sampling_priority, dd_origin, sampling_priority_key, origin_key,
}
use dd_trace_py.Span.{Span, finish, finished}
use dd_trace_py.Provider.{Active}
use dd_trace_py.Aggregator.{
  Spans, Traces, Config, Processor, collect, deliver, run_processors, on_span_finish,
  tracer_processors, trace_tags, sampling,
}
use dd_trace_py.Tracer.{
  Settings, Process, Moment, Request, Tracer, set_span, set_tags, activate, child_after_fork,
}
use dd_trace_py.Tracer.Starting.{start_span, trace, on_finish, finish_span}
use dd_trace_py.Tracer.Links.{links}
use dd_trace_py.Tracer.Forest.{start_span-IsTraced, trace-IsTraced, tags_in}
use dd_trace_py.Tracer.Growth.{some_inj}
use dd_trace_py.Tracer.Trees.{
  IsTraced, IsMade, IsTraced-Kept, activate-IsTraced, set_span-links, linked,
}

-- A processor that leaves the ids, the parents and the contexts of all spans as they are.
abbrev pub KeepsLinks : Processor → Type 0
KeepsLinks f = (l : List ℕ) (h : Spans) (y : ℕ) → links ((f l h).1 y) ≡ links (h y)

run_processors-links :
    (fs : List Processor) (o : Option (List ℕ)) (h : Spans)
    → All KeepsLinks fs
    → (y : ℕ) → links ((run_processors fs o h).1 y) ≡ links (h y)
unfolding run_processors
run_processors-links [] o h keep y = refl
run_processors-links (f ∷ fs) none h keep y = refl
run_processors-links (f ∷ fs) (some l) h keep y =
    run_processors-links fs _ (f l h).1 keep.1 y ∙ keep.0 l h y

sampling-KeepsLinks : KeepsLinks sampling
unfolding sampling
sampling-KeepsLinks l h y = refl

trace_tags-KeepsLinks : (st : Store) → KeepsLinks (trace_tags st)
unfolding trace_tags
trace_tags-KeepsLinks st [] h y = refl
trace_tags-KeepsLinks st (x ∷ l) h y = elim (Option-cases (h x).context) [
  | inl e ↦ rw (trace_tags, e) refl
  | inr (c, e) ↦ elim (Bool-cases (y == x)) [
    | inl f ↦ rw (trace_tags, e, f) (ap (λ z. links (h z)) (sym ((nat_eq.beq_iff y x).0 f)))
    | inr f ↦ rw (trace_tags, e, f) refl
  ]
]

deliver-links :
    (fs : List Processor) (h : Spans) (d : Traces) (o : Option (List ℕ))
    → All KeepsLinks fs
    → (y : ℕ) → links ((deliver fs h d o).spans y) ≡ links (h y)
deliver-links fs h d none keep y = refl
deliver-links fs h d (some l) keep y = run_processors-links fs (some l) h keep y

on_span_finish-links :
    (c : Config) (fs : List Processor) (h : Spans) (x : ℕ) (d : Traces)
    → All KeepsLinks fs
    → (y : ℕ) → links ((on_span_finish c fs h x d).spans y) ≡ links (h y)
unfolding on_span_finish
on_span_finish-links c fs h x d keep y =
    deliver-links fs h (collect c h x d).0 (collect c h x d).1 keep y

finish-links : (o : Option ℕ) (now : ℕ) (s : Span) → links (finish o now s).0 ≡ links s
unfolding finish
finish-links o now s = elim (Bool-cases (finished s)) [ inl e ↦ rw e refl | inr e ↦ rw e refl ]

if-IsTraced :
    (b : Bool) (p q : Tracer × Option (Option (List ℕ)))
    → IsTraced p.0
    → IsTraced q.0
    → IsTraced (if b then p else q).0
if-IsTraced true p q h k = h
if-IsTraced false p q h k = k

on_finish-IsTraced :
    (g : Settings) (x : ℕ) (t : Tracer)
    → All KeepsLinks g.filters
    → IsTraced t
    → IsTraced (on_finish g x t).0
unfolding on_finish tracer_processors
on_finish-IsTraced g x t keep h =
    let u = activate t in
    let f = on_span_finish g.aggregation (tracer_processors t.store g.filters) u.spans x u.traces in
    let k = activate-IsTraced t h in
    let same =
      on_span_finish-links g.aggregation (tracer_processors t.store g.filters) u.spans x u.traces
        (trace_tags-KeepsLinks t.store, (sampling-KeepsLinks, keep)) in
    if-IsTraced t.enabled (record u { spans = f.spans; traces = f.traces }, f.written) (u, none)
      (IsTraced-Kept u (record u { spans = f.spans; traces = f.traces })
        (record { made = refl; same = same }) k.item k)
      k

pub finish_span-IsTraced :
    (g : Settings) (o : Option ℕ) (now x : ℕ) (t : Tracer)
    → All KeepsLinks g.filters
    → IsTraced t
    → IsTraced (finish_span g o now x t).0
unfolding finish_span
finish_span-IsTraced g o now x t keep h =
    let r = finish o now (t.spans x) in
    let u = record t { spans = set_span x r.0 t.spans } in
    let k =
      IsTraced-Kept t u
        (record {
          made = refl;
          same = set_span-links x r.0 t.spans (finish-links o now (t.spans x));
        })
        h.item h in
    if-IsTraced r.1 (on_finish g x u) (u, none) (on_finish-IsTraced g x u keep k) k

-- One thing that happens to a tracer. Callers start spans below anything that was made, activate
-- anything that was made, and finish spans; the process forks.
pub data Step (g : Settings) (p : Process) : Tracer → Tracer → Type 0 where
  starts :
      {t u : Tracer} {x : ℕ} (m : Moment) (i : Active) (q : Request) (b : Bool)
      → IsMade t.made i
      → start_span g p m i q b t ≡ some (x, u)
      → Step g p t u
  traces :
      {t u : Tracer} {x : ℕ} (m : Moment) (q : Request)
      → trace g p m q t ≡ some (x, u)
      → Step g p t u
  finishes : {t : Tracer} (o : Option ℕ) (now x : ℕ) → Step g p t (finish_span g o now x t).0
  activates : {t : Tracer} (i : Active) → IsMade t.made i → Step g p t (record t { item = i })
  forks : {t : Tracer} → Step g p t (child_after_fork t)
  tags : {t : Tracer} (d : Dict String Text) → Step g p t (set_tags d t)

pub data Reaches (g : Settings) (p : Process) : Tracer → Tracer → Type 0 where
  stays : {t : Tracer} → Reaches g p t t
  then_step : {t u v : Tracer} → Reaches g p t u → Step g p u v → Reaches g p t v

Step-IsTraced :
    (g : Settings) (p : Process) (t u : Tracer)
    → All KeepsLinks g.filters
    → Step g p t u
    → IsTraced t
    → IsTraced u
unfolding child_after_fork set_tags
Step-IsTraced g p t u keep (starts {x = x} m i q b made e) h =
    Every-some (λ (r : ℕ × Tracer). IsTraced r.1) (start_span g p m i q b t) (x, u)
      (start_span-IsTraced g p m i q b t made h) e
Step-IsTraced g p t u keep (traces {x = x} m q e) h =
    Every-some (λ (r : ℕ × Tracer). IsTraced r.1) (trace g p m q t) (x, u)
      (trace-IsTraced g p m q t h) e
Step-IsTraced g p t u keep (finishes o now x) h = finish_span-IsTraced g o now x t keep h
Step-IsTraced g p t u keep (activates i made) h = record { item = made; rooted = h.rooted }
Step-IsTraced g p t u keep forks h = h
Step-IsTraced g p t u keep (tags d) h = h

-- Whatever happens to a tracer whose spans are a forest, they stay one: every span has a local root
-- that was
-- made before it or is itself, with its trace id and with a context of the same tags; a parent was
-- made before its child, gives it its parent id, and has the same local root; and what is active
-- was made. The user's filters are assumed to leave ids, parents and contexts alone.
pub Reaches-IsTraced :
    (g : Settings) (p : Process) (t u : Tracer)
    → All KeepsLinks g.filters
    → IsTraced t
    → Reaches g p t u
    → IsTraced u
Reaches-IsTraced g p t u keep h stays = h
Reaches-IsTraced g p t u keep h (then_step {u = v} before step) =
    Step-IsTraced g p v u keep step (Reaches-IsTraced g p t v keep h before)

-- From a tracer whose spans are a forest, and whatever happens to it after: two spans with the same
-- local root have the same trace id, and the sampling priority and the origin that the context of
-- one reads are those that the context of the other reads. The user's filters are assumed to leave
-- ids, parents and contexts alone.
pub Reaches-agree :
    (g : Settings) (p : Process) (t u : Tracer) (x y : ℕ) (c d : Context)
    → All KeepsLinks g.filters
    → IsTraced t
    → Reaches g p t u
    → x < u.made
    → y < u.made
    → (u.spans x).local_root ≡ (u.spans y).local_root
    → (u.spans x).context ≡ some c
    → (u.spans y).context ≡ some d
    → ((u.spans x).trace_id ≡ (u.spans y).trace_id)
      × (sampling_priority u.store c ≡ sampling_priority u.store d)
      × (dd_origin u.store c ≡ dd_origin u.store d)
unfolding sampling_priority dd_origin
Reaches-agree g p t u x y c d keep h run ltx lty same cx dy =
    let k = Reaches-IsTraced g p t u keep h run in
    let r = k.rooted x ltx in
    let s = k.rooted y lty in
    let root : r.root ≡ s.root = some_inj (sym r.root_of ∙ same ∙ s.root_of) in
    let shared : c.tags ≡ d.tags =
      ap tags_in (sym cx ∙ r.own_of)
      ∙ r.shared
      ∙ ap tags_in (sym r.first_of ∙ ap (λ z. (linked u z).context) root ∙ s.first_of)
      ∙ sym (ap tags_in (sym dy ∙ s.own_of) ∙ s.shared) in
    (
      r.trace_of ∙ ap (λ z. (linked u z).trace_id) root ∙ sym s.trace_of,
      ap (λ z. lookup sampling_priority_key (u.store z).metrics) shared,
      ap (λ z. lookup origin_key (u.store z).meta) shared,
    )
