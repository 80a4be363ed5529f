-- ===== src/Tests/Collecting.antt =====
-- The aggregator, the logger, services, hooks, the provider and the cache at fixed inputs.
use dd_trace_py.Base.{
  ℕ, zero, suc, ◌+◌, ◌<◌, ◌≡◌, refl, arith, Bool, true, false, Option, none, some, List, [], ◌∷◌,
  count_if, length, map, nat_eq, String, string_eq,
}
use dd_trace_py.Base.Int.{ℤ, pos}
use dd_trace_py.Base.Text.{codes}
use dd_trace_py.Base.Dict.{Dict}
use dd_trace_py.Base.{◌++◌}
use dd_trace_py.Base.Dict.{lookup}
use dd_trace_py.Recorder.{Scheduler, Export, or_empty, last_of}
use dd_trace_py.Recorder.Queues.{Use, pushes, pushed}
use dd_trace_py.Recorder.Exports.{run as run_rounds, run_lem}
use dd_trace_py.Context.{no_tags}
use dd_trace_py.Span.{Span}
use dd_trace_py.Aggregator.{Spans, Traces, Config, collect, sampling}
use dd_trace_py.Aggregator.Split.{collect_done, collect_lem}
use dd_trace_py.Aggregator.Ledger.{
  Event, start, finish, change, World, run, times_started, accounted, run-accounted,
}
use dd_trace_py.Logger.{LogRecord, run as run_records, told, bucket_at, handled, run-told}
use dd_trace_py.Service.{Call, start_call, stop_call}
use dd_trace_py.Provider.{active, a_span, of_span, Climbs, IsOrdered, active-Climbs}
use dd_trace_py.Hooks.{Change, add_hook, remove_hook}
use dd_trace_py.Base.{◌⊎◌, if◌then◌else◌}
use dd_trace_py.Context.{Store}
use dd_trace_py.Aggregator.{Processor, run_processors, tracer_processors}
use dd_trace_py.Aggregator.Chain.{is_sampled, tracer_processors-sampled}

-- a span of the trace 12, finished or not, with its parent
abbrev a : Option ℤ → Option ℕ → Span
a duration parent = record {
  name = codes "web.request";
  service = some (codes "web");
  resource = codes "web.request";
  span_type = none;
  tags = no_tags;
  error = 0;
  start_ns = 100;
  duration_ns = duration;
  trace_id = 12;
  span_id = 34;
  parent_id = none;
  sampled = true;
  context = none;
  parent = parent;
  local_root = none;
}

-- the spans 0 and 2 have finished, 1 has not; each is the child of the one before
abbrev heap : Spans
heap zero = a (some (pos 5)) none
heap (suc zero) = a none (some 0)
heap (suc (suc zero)) = a (some (pos 3)) (some 1)
heap (suc (suc (suc n))) = a none none

-- two spans of the trace, of which one is counted as finished
abbrev traces : Traces
traces = (12, record { spans = 0 ∷ 1 ∷ 2 ∷ []; num_finished = pos 1 }) ∷ []

abbrev config : Config
config = record { partial_flush_enabled = true; partial_flush_min_spans = pos 2 }

collect_lem_example : collect config heap 2 traces ≡ collect_done config heap 12 traces
unfolding dd_trace_py.Base.Dict.lookup
collect_lem_example = collect_lem config heap 2 1 traces refl refl

abbrev events : List Event
events = start 0 ∷ start 1 ∷ finish 0 ∷ change (λ h. heap) ∷ finish 1 ∷ []

abbrev world : World
world = record { spans = heap; traces = []; collected = [] }

run-accounted_example :
    accounted 12 0 (run config (sampling ∷ []) events world)
    ≡ times_started config (sampling ∷ []) 12 0 events world + accounted 12 0 world
run-accounted_example = run-accounted config (sampling ∷ []) 12 0 events world

abbrev records : List (LogRecord String)
records =
    (record { key = "x"; created = 100 })
    ∷ (record { key = "x"; created = 101 })
    ∷ (record { key = "y"; created = 101 })
    ∷ (record { key = "x"; created = 900 })
    ∷ []

run-told_example :
    told 10 60 false "x" records []
      + (bucket_at 10 60 false "x" (run_records 10 60 false records [])).skipped
    ≡ handled 10 60 false "x" records + (bucket_at {K = String} 10 60 false "x" []).skipped
run-told_example = run-told 10 60 false "x" records []

abbrev count_up : ℕ → ℕ × Bool
count_up n = (n + 1, true)

abbrev calls : List (Call count_up count_up)
calls = start_call ∷ start_call ∷ stop_call ∷ start_call ∷ []

heap-IsOrdered : IsOrdered heap
heap-IsOrdered zero p e = ground (arith, e)
heap-IsOrdered (suc zero) p e = ground (arith, e)
heap-IsOrdered (suc (suc zero)) p e = ground (arith, e)
heap-IsOrdered (suc (suc (suc n))) p e = ground (arith, e)

active-Climbs_example : (o : Option ℕ) × Climbs heap 2 o × (active heap (a_span 2) ≡ of_span o)
active-Climbs_example = active-Climbs heap 2 heap-IsOrdered

abbrev half_of : ℕ → Option ℕ
half_of zero = none
half_of (suc n) = some n

abbrev changes : List (Change String)
changes =
    add_hook "request" 4 ∷ add_hook "request" 4 ∷ add_hook "other" 5 ∷ remove_hook "request" 5 ∷ []

abbrev store : Store
store address = no_tags

-- a filter that would write everything
abbrev all_of_them : Processor
all_of_them l h = (some (some (0 ∷ 1 ∷ 2 ∷ [])), h)

abbrev unmarked : Spans
unmarked x = record (heap x) { sampled = false }

tracer_processors-sampled_example :
    let rejected =
      (run_processors
        (tracer_processors store (all_of_them ∷ []))
        (some (0 ∷ 1 ∷ []))
        unmarked).0 in
    ((run_processors (tracer_processors store []) (some (2 ∷ [])) unmarked).0
      ≡ some (if is_sampled unmarked (2 ∷ []) then some (2 ∷ []) else none))
    × ((rejected ≡ none) ⊎ (rejected ≡ some none))
tracer_processors-sampled_example =
    tracer_processors-sampled store (all_of_them ∷ []) (2 ∷ []) (0 ∷ 1 ∷ []) unmarked refl

-- Three spans of a trace get their durations before the callbacks come: the second callback flushes
-- them all and deletes the entry, and the third makes a new one, with a count of 1 and no span.
abbrev all_done : Spans
all_done x = a (some (pos 5)) none

late_callback :
    (run config []
      (start 0 ∷ start 1 ∷ start 2 ∷ change (λ h. all_done) ∷ finish 0 ∷ finish 1 ∷ finish 2 ∷ [])
      world).traces
    ≡ (12, record { spans = []; num_finished = pos 1 }) ∷ []
unfolding dd_trace_py.Aggregator.on_span_finish collect dd_trace_py.Aggregator.settle
    dd_trace_py.Aggregator.should_flush dd_trace_py.Base.Int.◌+ℤ◌ dd_trace_py.Base.Dict.lookup
    dd_trace_py.Aggregator.on_span_start dd_trace_py.Base.Dict.insert dd_trace_py.Aggregator.split
    dd_trace_py.Base.Dict.erase run_processors
late_callback = refl

abbrev of_kind : ℕ × ℕ → ℕ
of_kind e = e.0

abbrev profile : Scheduler (ℕ × ℕ)
profile = record {
  recorder = record {
    default_max_events = 2;
    max_events = (1, 3) ∷ [];
    events = [];
    forked = false;
  };
  exporters = 1;
  last_export = 10;
  configured_interval = 60;
  interval = 60;
}

abbrev rounds : List (List (Use (ℕ × ℕ)) × ℕ)
rounds =
    (pushes ((0, 1) ∷ (0, 2) ∷ []) ∷ pushes ((0, 3) ∷ []) ∷ pushes ((1, 4) ∷ []) ∷ [], 70)
    ∷ (pushes ((0, 5) ∷ []) ∷ [], 130)
    ∷ []

run_lem_example :
    (map
        (λ (e : Export (ℕ × ℕ)). or_empty (lookup 0 e.events))
        (run_rounds of_kind rounds profile).1
      ≡ map (λ (r : List (Use (ℕ × ℕ)) × ℕ). last_of 2 (pushed of_kind 0 r.0 [])) rounds)
    × (map (λ (e : Export (ℕ × ℕ)). e.start) (run_rounds of_kind rounds profile).1
          ++ ((run_rounds of_kind rounds profile).0.last_export ∷ [])
        ≡ 10 ∷ map (λ (e : Export (ℕ × ℕ)). e.stop) (run_rounds of_kind rounds profile).1)
unfolding lookup
run_lem_example = run_lem of_kind 0 rounds profile (omega arith) refl refl

last_two :
    last_of 2 (pushed of_kind 0 (pushes ((0, 1) ∷ (0, 2) ∷ []) ∷ pushes ((0, 3) ∷ []) ∷ []) [])
    ≡ (0, 2) ∷ (0, 3) ∷ []
last_two = refl
