-- ===== src/Tests/Tracing.antt =====
-- A tracer with two spans, one below the other.
use mathlib.Core.Option
use dd_trace_py.Base.{ℕ, ◌≡◌, refl, arith, true, false, Option, none, some, [], ◌∷◌, Every}
use dd_trace_py.Base.Int.{pos}
use dd_trace_py.Base.Text.{codes}
use dd_trace_py.Context.{Context, no_tags, sampling_priority, dd_origin, new_context, with_span}
use dd_trace_py.Span.{Span, init, finished, get_context}
use dd_trace_py.Sampler.{default_key}
use dd_trace_py.Provider.{nothing, a_span, active, first_unfinished}
use dd_trace_py.Tracer.{
  Settings, Process, Moment, Request, Tracer, activate, place, context_of, set_span,
}
use dd_trace_py.Tracer.Starting.{trace, start_span, start_root, decorate, enlist, finish_span}
use dd_trace_py.Tracer.Sampling.{all, sample_root, prioritize}
use dd_trace_py.Tracer.Trees.{IsTraced}
use dd_trace_py.Tracer.Life.{Reaches, traces, stays, then_step, Reaches-IsTraced, Reaches-agree}
use dd_trace_py.Tracer.Deciding.{Decided, start_root-Decided}
use dd_trace_py.Tracer.Restoring.{finish_span-restores}
use dd_trace_py.Propagation.{inject}
use dd_trace_py.Integration.{IntConfig, activate_distributed_headers, is_distributed}
use dd_trace_py.Integration.Continuing.{Continues, trace-Continues}
use dd_trace_py.Tests.Traces.{store, here, headers, headers-IsClean, decimal, plain_first}

abbrev settings : Settings
settings = record {
  service = some (codes "web");
  env = none;
  version = none;
  service_mapping = [];
  report_hostname = false;
  aggregation = record { partial_flush_enabled = false; partial_flush_min_spans = pos 500 };
  filters = [];
}

abbrev process : Process
process = record {
  runtime_id = codes "r";
  hostname = codes "h";
  pid = pos 1;
  res = 1000;
  show_float = λ n d. [];
  read_float = λ t. none;
}

abbrev nobody : Span
nobody =
    init
      (record {
        name = [];
        service = none;
        resource = none;
        span_type = none;
        trace_id = some 1;
        span_id = some 1;
        parent_id = none;
        start_ns = none;
        context = none;
      })
      0 1 1

abbrev empty : Tracer
empty = record {
  spans = λ x. nobody;
  made = 0;
  store = λ x. no_tags;
  cells = 0;
  item = nothing;
  traces = [];
  services = [];
  sampler = all;
  priority_sampler = none;
  tags = [];
  enabled = true;
  new_process = false;
}

abbrev moment : ℕ → Moment
moment n = record { now = n; random_trace = 7; random_span = n; at = n; later = n }

abbrev request : Request
request = record {
  name = codes "web.request";
  service = none;
  resource = none;
  span_type = some (codes "web");
}

abbrev or_empty : Option (ℕ × Tracer) → Tracer
or_empty none = empty
or_empty (some (x, t)) = t

abbrev one : Tracer
one = or_empty (trace settings process (moment 100) request empty)

abbrev two : Tracer
two = or_empty (trace settings process (moment 200) request one)

one_started : trace settings process (moment 100) request empty ≡ some (0, one)
unfolding trace start_span activate active place start_root sample_root decorate enlist new_context
    Option.bind prioritize
one_started = refl

two_started : trace settings process (moment 200) request one ≡ some (1, two)
unfolding trace start_span activate active place start_root sample_root decorate enlist context_of
    get_context new_context Option.bind prioritize first_unfinished set_span init
two_started = refl

empty-IsTraced : IsTraced empty
empty-IsTraced = record { item = record {}; rooted = λ x lt. absurd (omega (arith, lt)) }

run : Reaches settings process empty two
run =
    then_step (then_step stays (traces (moment 100) request one_started))
      (traces (moment 200) request two_started)

Reaches-IsTraced_example : IsTraced two
Reaches-IsTraced_example =
    Reaches-IsTraced settings process empty two (record {}) empty-IsTraced run

two-IsTraced : IsTraced two
two-IsTraced = Reaches-IsTraced settings process empty two (record {}) empty-IsTraced run

abbrev context_at : ℕ → Context
context_at n = record { trace_id = some (pos 7); span_id = some (pos n); tags = 0 }

contexts :
    ((two.spans 0).context ≡ some (context_at 100))
    × ((two.spans 1).context ≡ some (context_at 200))
unfolding trace start_span activate active place start_root sample_root decorate enlist context_of
    get_context new_context Option.bind prioritize first_unfinished set_span init with_span
contexts = (refl, refl)

below : ((two.spans 0).local_root ≡ (two.spans 1).local_root) × ((two.spans 1).parent ≡ some 0)
unfolding trace start_span activate active place start_root sample_root decorate enlist context_of
    get_context new_context Option.bind prioritize first_unfinished set_span init
below = (refl, refl)

active_now :
    (two.made ≡ 2)
    × (two.item ≡ a_span 1)
    × (finished (two.spans 0) ≡ false)
    × (finished (two.spans 1) ≡ false)
unfolding trace start_span activate active place start_root sample_root decorate enlist context_of
    get_context new_context Option.bind prioritize first_unfinished set_span init
active_now = (refl, refl, refl, refl)

Reaches-agree_example :
    ((two.spans 0).trace_id ≡ (two.spans 1).trace_id)
    × (sampling_priority two.store (context_at 100) ≡ sampling_priority two.store (context_at 200))
    × (dd_origin two.store (context_at 100) ≡ dd_origin two.store (context_at 200))
Reaches-agree_example =
    Reaches-agree settings process empty two 0 1 (context_at 100) (context_at 200) (record {})
      empty-IsTraced run (omega (arith, active_now.0)) (omega (arith, active_now.0)) below.0
      contexts.0 contexts.1

finish_span-restores_example : (finish_span settings none 300 1 two).0.item ≡ a_span 0
finish_span-restores_example =
    finish_span-restores settings none 300 1 (some 0) two two-IsTraced active_now.1 active_now.3
      below.1 active_now.2

abbrev rated : Tracer
rated = record empty {
  priority_sampler = some (record {
    sample_rate = record { num = pos 1; den = 1 };
    samplers = (default_key, record { sample_rate = record { num = 1; den = 1 } }) ∷ [];
  });
}

start_root-Decided_example :
    Every
      (λ (r : Span × Tracer). Decided (context_at 100) r.0 r.1.store)
      (start_root settings process (moment 100) (context_at 100) nobody rated)
start_root-Decided_example =
    start_root-Decided settings process (moment 100) (context_at 100) nobody rated refl

abbrev distributed : IntConfig
distributed = record {
  distributed_tracing_enabled = none;
  distributed_tracing = some (some true);
  service = none;
  service_name = none;
  default_service = none;
}

trace-Continues_example :
    (r : ℕ × Tracer) × (trace settings process (moment 300) request (
        activate_distributed_headers plain_first none
          (some distributed)
          (inject decimal store here headers)
          two)
      ≡ some r)
    × Continues 12 34 r
unfolding is_distributed sampling_priority dd_trace_py.Base.Dict.lookup
trace-Continues_example =
    trace-Continues decimal plain_first store here headers 11 33 distributed settings process
      (moment 300) request two headers-IsClean refl refl (record {}) refl two-IsTraced
