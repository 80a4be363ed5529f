-- ===== src/Tracer/Starting.antt =====
-- ddtrace/tracer.py: `_start_span` from the place of the new span on, `trace`, and the callback of a
-- span that finishes.
use mathlib.Core.Option
use dd_trace_py.Base.{
  ℕ, zero, suc, ◌+◌, Bool, true, false, not, ◌&&◌, Option, none, some, List, [], ◌∷◌, ◌++◌, String,
  string_eq, codes_eq, nat_eq, ◌==◌, if◌then◌else◌, any,
}
use dd_trace_py.Base.Int.{ℤ, pos, negsuc}
use dd_trace_py.Base.Text.{Text, codes}
use dd_trace_py.Base.Dict.{Dict, lookup, insert, contains}
use dd_trace_py.Context.{Context, Store, Number, int}
use dd_trace_py.Span.{Span, init, finish, set_str_tag}
use dd_trace_py.Span.Tagging.{text, set_tag, version_key}
use dd_trace_py.Provider.{Active, a_span}
use dd_trace_py.Aggregator.{Spans, on_span_start, on_span_finish, tracer_processors}
use dd_trace_py.Tracer.Sampling.{RootSampler, sample_root, settle}
use dd_trace_py.Tracer.{
  Settings, Process, Tracer, Moment, Request, Place, set_span, activate, current_root_span,
  after_fork, place, service_for, mapped,
}

-- the span that `Span(...)` makes, under the ids that are given
abbrev pub new_span : Moment → Request → Option Text → Context → Option ℕ → Option ℕ → Span
new_span m q service c trace_id parent_id =
    init
      (record {
        name = q.name;
        service = service;
        resource = q.resource;
        span_type = q.span_type;
        trace_id = trace_id;
        span_id = none;
        parent_id = parent_id;
        start_ns = none;
        context = some c;
      })
      m.now m.random_trace m.random_span

abbrev pub or_root : ℕ → Option ℕ → ℕ
or_root x none = x
or_root x (some r) = r

-- what a new span at `x` has of its parent
abbrev pub below : Option ℕ → ℕ → Spans → Span → Span
below none x h s = record s { local_root = some x }
below (some p) x h s = record s {
  sampled = (h p).sampled;
  parent = some p;
  local_root = some (or_root x (h p).local_root);
}

-- the text tag of that key, written into the dict itself
abbrev with_meta : String → Text → Span → Span
with_meta key v s = record s { tags = record s.tags { meta = insert key v s.tags.meta } }

abbrev with_metrics : String → Number → Span → Span
with_metrics key v s = record s { tags = record s.tags { metrics = insert key v s.tags.metrics } }

abbrev pub with_hostname : Bool → Text → Span → Span
with_hostname true hostname s = with_meta "_dd.hostname" hostname s
with_hostname false hostname s = s

-- the first span of a trace, with the decision of the samplers; `none` is an exception of a sampler
unfoldable pub start_root :
    Settings → Process → Moment → Context → Span → Tracer → Option (Span × Tracer)
start_root g p m c s t =
    let env = lookup "env" t.tags in
    Option.map (λ (r : Span × Store × RootSampler). (r.0, record t { store = r.1; sampler = r.2 }))
      (Option.bind
        (sample_root p.res m.at m.later t.cells env t.sampler
          (with_hostname g.report_hostname p.hostname (record s { local_root = some t.made }))
          t.store)
        (settle env t.priority_sampler c))

-- an id that is absent, or not negative
abbrev pub natural : Option ℤ → Option (Option ℕ)
natural none = some none
natural (some (pos n)) = some (some n)
natural (some (negsuc n)) = none

-- a span below a context that is not empty, or the first span of a trace
abbrev pub start_as :
    Option (Option ℕ)
    → Settings
    → Process
    → Moment
    → Request
    → Option Text
    → Place
    → Tracer
    → Option (Span × Tracer)
start_as none g p m q service l t = none
start_as (some none) g p m q service l t =
    start_root g p m l.context (new_span m q service l.context none none) t
start_as (some (some zero)) g p m q service l t =
    start_root g p m l.context (new_span m q service l.context none none) t
start_as (some (some (suc n))) g p m q service l t =
    Option.map
      (λ parent_id. (
        below l.parent t.made t.spans (new_span m q service l.context (some (suc n)) parent_id),
        t,
      ))
      (natural l.parent_id)

-- the tags of a span that has no parent in this process
abbrev pub tag_process : Option ℕ → Process → Span → Span
tag_process none p s = with_metrics "system.pid" (int p.pid) (with_meta "runtime-id" p.runtime_id s)
tag_process (some x) p s = s

-- `set_tags` of the span
abbrev pub set_all : Process → ℕ → Dict String Text → Span × Store → Span × Store
set_all p a [] (s, st) = (s, st)
set_all p a ((k, v) ∷ tags) (s, st) =
    set_all p a tags (set_tag p.show_float p.read_float a k (text v) s st)

-- `if config.env`
abbrev pub tag_if_given : String → Option Text → Span → Span
tag_if_given key none s = s
tag_if_given key (some []) s = s
tag_if_given key (some (c ∷ v)) s = set_str_tag key (c ∷ v) s

abbrev same_text : Option Text → Option Text → Bool
same_text none none = true
same_text none (some t) = false
same_text (some t) none = false
same_text (some t) (some u) = t == u

-- whether a span of that service belongs to the application, by the active root span
abbrev is_versioned : Settings → Option Text → Option Span → Bool
is_versioned g service none = same_text service g.service
is_versioned g service (some r) = same_text r.service service && contains version_key r.tags.meta

-- `if config.version`: reading the root span also moves the active item on
abbrev pub tag_version : Option Text → Settings → Option Text → Span → Tracer → Span × Tracer
tag_version none g service s t = (s, t)
tag_version (some []) g service s t = (s, t)
tag_version (some (c ∷ v)) g service s t =
    let (r, t') = current_root_span t in
    (
      if is_versioned g service (Option.map t.spans r)
          then set_str_tag version_key (c ∷ v) s
          else s,
      t',
    )

-- the tags of a new span
unfoldable pub decorate : Settings → Process → Option Text → Span → Tracer → Span × Tracer
decorate g p service s t =
    let (s1, st) = set_all p t.cells t.tags (tag_process s.parent p s, t.store) in
    tag_version g.version g service (tag_if_given "env" g.env s1) (record t { store = st })

-- `_is_span_internal`
abbrev is_internal : Option Text → Bool
is_internal none = true
is_internal (some []) = true
is_internal (some (c ∷ t)) =
    any (λ k. codes k == (c ∷ t)) ("custom" ∷ "template" ∷ "web" ∷ "worker" ∷ [])

abbrev with_service : Option Text → Option Text → List Text → List Text
with_service none span_type l = l
with_service (some []) span_type l = l
with_service (some (c ∷ s)) span_type l =
    if not (any (λ u. u == (c ∷ s)) l) && is_internal span_type then l ++ ((c ∷ s) ∷ []) else l

-- the end of `_start_span`: the span is an object, and the tracer and the aggregator know of it
unfoldable pub enlist : Bool → Option Text → Span → Tracer → ℕ × Tracer
enlist activated service s t =
    let h = set_span t.made s t.spans in
    (
      t.made,
      record t {
        spans = h;
        made = t.made + 1;
        item = if activated then a_span t.made else t.item;
        services = with_service service s.span_type t.services;
        traces = on_span_start h t.made t.traces;
      },
    )

-- `_start_span`: the address of the new span; `none` is an exception of a sampler, or a negative id
unfoldable pub start_span :
    Settings → Process → Moment → Active → Request → Bool → Tracer → Option (ℕ × Tracer)
start_span g p m child_of q activated t =
    let (child_of1, t1) = after_fork t.new_process child_of t in
    let (l, t2) = place child_of1 t1 in
    let service = service_for q.service l.parent g t2.spans in
    Option.map
      (λ (r : Span × Tracer).
        let (s, t3) = decorate g p service r.0 r.1 in enlist activated service s t3)
      (start_as (natural l.trace_id) g p m q (mapped g service) l t2)

-- `trace`
unfoldable pub trace : Settings → Process → Moment → Request → Tracer → Option (ℕ × Tracer)
trace g p m q t = let t' = activate t in start_span g p m t'.item q true t'

-- `_on_span_finish`; the answer is the argument of `writer.write`, if it is called
unfoldable pub on_finish : Settings → ℕ → Tracer → Tracer × Option (Option (List ℕ))
on_finish g x t =
    let t' = activate t in
    let f =
      on_span_finish g.aggregation (tracer_processors t.store g.filters) t'.spans x t'.traces in
    if t.enabled then (record t' { spans = f.spans; traces = f.traces }, f.written) else (t', none)

-- `span.finish(finish_time)` of a span of the tracer
unfoldable pub finish_span :
    Settings → Option ℕ → ℕ → ℕ → Tracer → Tracer × Option (Option (List ℕ))
finish_span g finish_time now x t =
    let (s, ran) = finish finish_time now (t.spans x) in
    let t' = record t { spans = set_span x s t.spans } in
    if ran then on_finish g x t' else (t', none)
