-- ===== src/Integration/Continuing.antt =====
-- A trace goes on in the process that gets the headers: ddtrace/propagation/http.py,
-- ddtrace/contrib/trace_utils.py and ddtrace/tracer.py together.
use dd_trace_py.Base.{
  ℕ, suc, ◌+◌, ◌≡◌, ◌≢◌, refl, ◌∙◌, ap, arith, Bool, true, false, Option, none, some, beq_refl,
  nat_eq,
}
use dd_trace_py.Base.Int.{ℤ, pos}
use dd_trace_py.Base.Dict.{Dict}
use dd_trace_py.Base.Text.{Text}
use dd_trace_py.Context.{Context, Store, sampling_priority}
use dd_trace_py.Span.{Span, init}
use dd_trace_py.Propagation.{extract, inject}
use dd_trace_py.Propagation.RoundTrip.{IsClean, IsInt, extract-inject}
use dd_trace_py.Provider.{a_context, active}
use dd_trace_py.Tracer.{
  Settings, Process, Moment, Request, Tracer, activate, place, set_span, service_for, mapped,
}
use dd_trace_py.Tracer.Starting.{trace, start_span, below, new_span, decorate, enlist}
use dd_trace_py.Tracer.Tags.{decorate-Tagged}
use dd_trace_py.Tracer.Trees.{IsTraced}
use dd_trace_py.Integration.{IntConfig, is_distributed, activate_distributed_headers}

-- The span is in that trace, below that span.
abbrev pub Continues : ℕ → ℕ → ℕ × Tracer → Type 0
Continues trace_id parent_id (x, u) =
    ((u.spans x).trace_id ≡ trace_id) × ((u.spans x).parent_id ≡ some parent_id)

enlist-Continues :
    (b : Bool) (service : Option Text) (n k : ℕ) (s : Span) (t : Tracer)
    → s.trace_id ≡ n
    → s.parent_id ≡ some k
    → Continues n k (enlist b service s t)
unfolding enlist set_span
enlist-Continues b service n k s t e e' = rw (beq_refl t.made) (e, e')

-- What a tracer starts below a context with both ids.
begun : Settings → Process → Moment → Request → (a n k : ℕ) → Tracer → ℕ × Tracer
begun g p m q a n k t =
    let c : Context = record {
      trace_id = some (pos (suc n));
      span_id = some (pos (suc k));
      tags = a;
    } in
    let service = service_for q.service none g t.spans in
    let s =
      below none t.made t.spans (new_span m q (mapped g service) c (some (suc n)) (some (suc k))) in
    let (s', t') = decorate g p service s t in enlist true service s' t'

begun-Continues :
    (g : Settings) (p : Process) (m : Moment) (q : Request) (a n k : ℕ) (t : Tracer)
    → IsTraced t
    → Continues (suc n) (suc k) (begun g p m q a n k t)
unfolding begun init
begun-Continues g p m q a n k t h =
    let c : Context = record {
      trace_id = some (pos (suc n));
      span_id = some (pos (suc k));
      tags = a;
    } in
    let service = service_for q.service none g t.spans in
    let s =
      below none t.made t.spans (new_span m q (mapped g service) c (some (suc n)) (some (suc k))) in
    let (s', t') = decorate g p service s t in
    let (e, k1, h1) = decorate-Tagged g p service _ s t refl h in
    enlist-Continues true service (suc n) (suc k) s' t' (ap (λ l. l.trace_id) e)
      (ap (λ l. l.parent_id) e)

start_span-begun :
    (g : Settings) (p : Process) (m : Moment) (q : Request) (a n k : ℕ) (b : Bool) (t : Tracer)
    → start_span g p m
        (a_context
          (record { trace_id = some (pos (suc n)); span_id = some (pos (suc k)); tags = a }))
        q
        true
        (record t { new_process = b })
      ≡ some (begun g p m q a n k (record t { new_process = false }))
unfolding start_span place begun
start_span-begun g p m q a n k false t = refl
start_span-begun g p m q a n k true t = refl

pos_ne : (n : ℕ) → pos (suc n) ≢ pos 0
pos_ne n e = ground (arith, e)

abbrev with_ids : ℕ → ℕ → Context → Context
with_ids n k d = record d { trace_id = some (pos (suc n)); span_id = some (pos (suc k)) }

same_ids :
    (n k : ℕ) (d : Context)
    → d.trace_id ≡ some (pos (suc n))
    → d.span_id ≡ some (pos (suc k))
    → d ≡ with_ids n k d
same_ids n k d e e' = λ i. record { trace_id = e i; span_id = e' i; tags = d.tags }

trace-begun :
    (g : Settings) (p : Process) (m : Moment) (q : Request) (n k : ℕ) (d : Context) (t : Tracer)
    → d.trace_id ≡ some (pos (suc n))
    → d.span_id ≡ some (pos (suc k))
    → IsTraced t
    → (r : ℕ × Tracer) × (trace g p m q (record t { item = a_context d }) ≡ some r)
      × Continues (suc n) (suc k) r
unfolding trace activate active
trace-begun g p m q n k d t e e' h =
    let u = record t { item = a_context d } in
    let c = with_ids n k d in
    let r = begun g p m q d.tags n k (record u { new_process = false }) in
    (
      r,
      ap (λ c. start_span g p m (a_context c) q true u) (same_ids n k d e e')
          ∙ start_span-begun g p m q d.tags n k t.new_process u,
      begun-Continues g p m q d.tags n k (record u { new_process = false })
          (record { item = record {}; rooted = h.rooted }),
    )

activated :
    (wsgi_first : Text → Bool) (config : IntConfig) (headers : Dict Text Text) (n : ℕ) (t : Tracer)
    → is_distributed config false ≡ true
    → (extract wsgi_first t.cells headers t.store).0.trace_id ≡ some (pos (suc n))
    → activate_distributed_headers wsgi_first none (some config) headers t ≡ record t {
      store = (extract wsgi_first t.cells headers t.store).1;
      cells = t.cells + 1;
      item = a_context (extract wsgi_first t.cells headers t.store).0;
    }
unfolding activate_distributed_headers
activated wsgi_first config headers n t on e = rw (on, e) refl

-- A context with both ids positive, and an int or no sampling priority, is put into clean headers.
-- An integration whose settings let it activates them in another process, whose tracer has a
-- forest of spans. The next span that is traced there starts, and is in the trace that was sent,
-- below the span that was sent.
pub trace-Continues :
    (show_float : ℤ → ℕ → Text) (wsgi_first : Text → Bool) (sender : Store) (c : Context)
    (headers : Dict Text Text) (n k : ℕ) (config : IntConfig) (g : Settings) (p : Process)
    (m : Moment) (q : Request) (t : Tracer)
    → IsClean headers
    → c.trace_id ≡ some (pos (suc n))
    → c.span_id ≡ some (pos (suc k))
    → IsInt (sampling_priority sender c)
    → is_distributed config false ≡ true
    → IsTraced t
    → (r : ℕ × Tracer) × (trace g p m q (
          activate_distributed_headers wsgi_first none
            (some config)
            (inject show_float sender c headers)
            t)
        ≡ some r)
      × Continues (suc n) (suc k) r
trace-Continues show_float wsgi_first sender c headers n k config g p m q t clean e e' int on h =
    let sent = inject show_float sender c headers in
    let (d, st) = extract wsgi_first t.cells sent t.store in
    let (same_trace, same_span, same_priority, same_origin) =
      extract-inject show_float wsgi_first t.cells sender t.store c headers clean (pos (suc n))
        (pos (suc k)) e e' (pos_ne n) (pos_ne k) int in
    let u = record t { store = st; cells = t.cells + 1 } in
    let (r, starts, continues) =
      trace-begun g p m q n k d u same_trace same_span
        (record { item = h.item; rooted = h.rooted }) in
    (r, ap (trace g p m q) (activated wsgi_first config sent n t on same_trace) ∙ starts, continues)
