-- ===== src/Tracer.antt =====
-- ddtrace/tracer.py: spans are started below the active span, a context or nothing, and finished.
-- Spans are objects at addresses, `made` of them so far; the dicts of contexts are cells of the
-- store, `cells` of them. An id in a remote context is not negative: the model has no span for
-- another, and answers `none`. The hooks on the start of a span and the debug log are left out.
pub mod Sampling
pub mod Starting
pub mod Links
pub mod Choices
pub mod Trees
pub mod Preparing
pub mod Growth
pub mod Tags
pub mod Forest
pub mod Life
pub mod Deciding
pub mod Restoring
use mathlib.Core.Option
use dd_trace_py.Base.{
  ℕ, zero, suc, ◌+◌, Bool, true, false, not, ◌&&◌, ◌||◌, Option, none, some, List, [], ◌∷◌, ◌++◌,
  String, string_eq, codes_eq, nat_eq, ◌==◌, if◌then◌else◌, is_some, any, map,
}
use dd_trace_py.Base.Int.{ℤ, pos, negsuc}
use dd_trace_py.Base.Text.{Text, codes}
use dd_trace_py.Base.Decimal.{show_nat}
use dd_trace_py.Base.Dict.{Dict, lookup, insert, update, contains}
use dd_trace_py.Context.{
  Context, Store, Number, int, float, new_context, sampling_priority, no_tags,
}
use dd_trace_py.Span.{Span, init, finish, get_context, set_str_tag}
use dd_trace_py.Span.Tagging.{Value, set_tag, version_key}
use dd_trace_py.Sampler.{ByServiceSampler}
use dd_trace_py.Provider.{Active, nothing, a_span, a_context, active}
use dd_trace_py.Aggregator.{
  Spans, Traces, Config, Processor, on_span_start, on_span_finish, tracer_processors,
}
use dd_trace_py.Tracer.Sampling.{RootSampler, Decision, sample_root, settle}

-- what the tracer reads of the global `config`, and what its aggregator is made of
pub record Settings : Type 0 where
  pub service : Option Text
  pub env : Option Text
  pub version : Option Text
  pub service_mapping : Dict Text Text
  pub report_hostname : Bool
  pub aggregation : Config
  pub filters : List Processor

-- The process: its ids, the ticks of a second, and the conversions of floats.
pub record Process : Type 0 where
  pub runtime_id : Text
  pub hostname : Text
  pub pid : ℤ
  pub res : ℕ
  pub show_float : ℤ → ℕ → Text
  pub read_float : Text → Option Number

pub record Tracer : Type 0 where
  pub spans : Spans
  pub made : ℕ
  pub store : Store
  pub cells : ℕ
  pub item : Active
  pub traces : Traces
  pub services : List Text
  pub sampler : RootSampler
  pub priority_sampler : Option ByServiceSampler
  pub tags : Dict String Text
  pub enabled : Bool
  pub new_process : Bool

-- The clock and two draws of random ids, as one start of a span finds them; the rate limiter reads
-- its clock twice.
pub record Moment : Type 0 where
  pub now : ℕ
  pub random_trace : ℕ
  pub random_span : ℕ
  pub at : ℕ
  pub later : ℕ

-- What a caller gives beside the parent.
pub record Request : Type 0 where
  pub name : Text
  pub service : Option Text
  pub resource : Option Text
  pub span_type : Option Text

unfoldable pub set_span : ℕ → Span → Spans → Spans
set_span x s h y = if y == x then s else h y

-- `context_provider.active()`
unfoldable pub activate : Tracer → Tracer
activate t = record t { item = active t.spans t.item }

-- `current_span`
abbrev pub span_of : Active → Option ℕ
span_of nothing = none
span_of (a_span x) = some x
span_of (a_context c) = none

unfoldable pub current_span : Tracer → Option ℕ × Tracer
current_span t = (span_of (active t.spans t.item), activate t)

-- `current_root_span`
unfoldable pub current_root_span : Tracer → Option ℕ × Tracer
current_root_span t =
    let (o, t') = current_span t in (elim o [ none ↦ none | some x ↦ (t.spans x).local_root ], t')

-- `span.context`, with a new cell at hand
unfoldable pub context_of : ℕ → Tracer → Context × Tracer
context_of x t =
    let (c, s, st) = get_context t.cells (t.spans x) t.store in
    (c, record t { spans = set_span x s t.spans; store = st; cells = t.cells + 1 })

-- `current_trace_context`
unfoldable pub current_trace_context : Tracer → Option Context × Tracer
current_trace_context t = elim (active t.spans t.item) [
  | nothing ↦ (none, activate t)
  | a_context c ↦ (some c, activate t)
  | a_span x ↦ let (c, t') = context_of x (activate t) in (some c, t')
]

-- `Context(...)`
abbrev pub fresh_context : Option ℤ → Option ℤ → Option Number → Tracer → Context × Tracer
fresh_context trace_id span_id priority t =
    let (c, st) = new_context t.cells trace_id span_id none priority t.store in
    (c, record t { store = st; cells = t.cells + 1 })

-- `get_call_context`
unfoldable pub get_call_context : Tracer → Context × Tracer
get_call_context t =
    let (o, t') = current_trace_context t in
    elim o [ none ↦ fresh_context none none none t' | some c ↦ (c, t') ]

abbrev or_nothing : Option Text → Text
or_nothing none = []
or_nothing (some t) = t

abbrev show_id : Option ℕ → Text
show_id none = codes "0"
show_id (some n) = show_nat n

-- `get_log_correlation_context`
unfoldable pub get_log_correlation_context : Settings → Tracer → Dict String Text × Tracer
get_log_correlation_context g t =
    let (o, t') = if t.enabled then current_span t else (none, t) in
    (
      ("trace_id", show_id (Option.map (λ x. (t.spans x).trace_id) o))
          ∷ ("span_id", show_id (Option.map (λ x. (t.spans x).span_id) o))
          ∷ ("service", or_nothing g.service)
          ∷ ("version", or_nothing g.version)
          ∷ ("env", or_nothing g.env)
          ∷ [],
      t',
    )

-- `set_tags` of the tracer
unfoldable pub set_tags : Dict String Text → Tracer → Tracer
set_tags tags t = record t { tags = update t.tags tags }

-- `write`: what the writer is given
unfoldable pub write : List ℕ → Tracer → Option (List Span)
write [] t = none
write (x ∷ spans) t = if t.enabled then some (map t.spans (x ∷ spans)) else none

-- `_child_after_fork`: new processors, whose aggregator has no traces
unfoldable pub child_after_fork : Tracer → Tracer
child_after_fork t = record t { services = []; traces = []; new_process = true }

abbrev pub is_item : ℕ → Active → Bool
is_item x nothing = false
is_item x (a_span y) = y == x
is_item x (a_context c) = false

-- a span of the process before the fork is given up for a context
abbrev pub detach : ℕ → Tracer → Active × Tracer
detach x t =
    let (c, t1) = context_of x t in
    let (new, t2) =
      fresh_context (some (pos (t.spans x).trace_id)) (some (pos (t.spans x).span_id))
        (sampling_priority t1.store c) t1 in
    let t3 = activate t2 in
    (a_context new, if is_item x t3.item then record t3 { item = a_context new } else t3)

-- the head of `_start_span`, after a fork
abbrev pub after_fork : Bool → Active → Tracer → Active × Tracer
after_fork false child_of t = (child_of, t)
after_fork true nothing t = (nothing, record t { new_process = false })
after_fork true (a_context c) t = (a_context c, record t { new_process = false })
after_fork true (a_span x) t = detach x (record t { new_process = false })

-- Where a new span stands.
pub record Place : Type 0 where
  pub context : Context
  pub parent : Option ℕ
  pub trace_id : Option ℤ
  pub parent_id : Option ℤ

-- the context, the parent and the ids of a new span
unfoldable pub place : Active → Tracer → Place × Tracer
place nothing t =
    let (c, t') = fresh_context none none none t in
    (record { context = c; parent = none; trace_id = c.trace_id; parent_id = c.span_id }, t')
place (a_context c) t =
    (record { context = c; parent = none; trace_id = c.trace_id; parent_id = c.span_id }, t)
place (a_span x) t =
    let (c, t') = context_of x t in
    (
      record {
        context = c;
        parent = some x;
        trace_id = some (pos (t.spans x).trace_id);
        parent_id = some (pos (t.spans x).span_id);
      },
      t',
    )

-- the service that a new span is asked for, has from its parent or from the settings
abbrev pub service_for : Option Text → Option ℕ → Settings → Spans → Option Text
service_for (some s) parent g h = some s
service_for none (some x) g h = (h x).service
service_for none none g h = g.service

abbrev pub or_self : Text → Option Text → Text
or_self s none = s
or_self s (some m) = m

-- `config.service_mapping.get(service, service)`
abbrev pub mapped : Settings → Option Text → Option Text
mapped g none = none
mapped g (some s) = some (or_self s (lookup s g.service_mapping))
