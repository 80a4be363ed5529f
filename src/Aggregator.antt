-- ===== src/Aggregator.antt =====
-- ddtrace/internal/processor/trace.py and ddtrace/filters.py: spans are collected by trace until
-- the trace, or enough of it, has finished, then run through the processors and written. Spans are
-- objects at addresses; `Spans` is the heap. The lock makes each callback one step.
pub mod Split
pub mod Ledger
pub mod Chain
use dd_trace_py.Base.{
  ℕ, ◌+◌, Bool, true, false, ◌&&◌, ◌||◌, not, Option, none, some, List, [], ◌∷◌, ◌++◌, ◌==◌, nat_eq,
  if◌then◌else◌, keep, length, any, String,
}
use dd_trace_py.Base.Int.{ℤ, pos, ◌+ℤ◌, ◌-ℤ◌, leb_ℤ, ltb_ℤ, int_beq, int_eq}
use dd_trace_py.Base.Text.{Text}
use dd_trace_py.Base.Dict.{Dict, lookup, insert, erase}
use dd_trace_py.Context.{Store, update_tags}
use dd_trace_py.Span.{Span, finished, get_tag}

abbrev pub Spans : Type 0
Spans = ℕ → Span

-- `_Trace`
pub record Trace : Type 0 where
  pub spans : List ℕ
  pub num_finished : ℤ

abbrev pub Traces : Type 0
Traces = Dict ℕ Trace

-- the fields of `SpanAggregator` that say when to flush
pub record Config : Type 0 where
  pub partial_flush_enabled : Bool
  pub partial_flush_min_spans : ℤ

-- `self._traces[trace_id]` of a defaultdict
abbrev or_fresh : Option Trace → Trace
or_fresh none = record { spans = []; num_finished = pos 0 }
or_fresh (some t) = t

abbrev pub trace_at : ℕ → Traces → Trace
trace_at k d = or_fresh (lookup k d)

-- `on_span_start`
unfoldable pub on_span_start : Spans → ℕ → Traces → Traces
on_span_start h x d =
    let t = trace_at (h x).trace_id d in
    insert (h x).trace_id (record t { spans = t.spans ++ (x ∷ []) }) d

abbrev pub is_done : Spans → ℕ → Bool
is_done h x = finished (h x)

-- `trace.num_finished += 1` and the test whether to flush
unfoldable pub should_flush : Config → ℤ → List ℕ → Bool
should_flush c n spans =
    int_beq n (pos (length spans)) || (c.partial_flush_enabled && leb_ℤ c.partial_flush_min_spans n)

-- the spans that leave, and those that stay
unfoldable pub split : Spans → ℤ → List ℕ → List ℕ × List ℕ
split h n spans =
    if ltb_ℤ n (pos (length spans))
    then (keep (is_done h) spans, keep (λ x. not (is_done h x)) spans)
    else (spans, [])

-- `trace.num_finished -= num_finished`, and the entry goes where no span is left
abbrev put_back : ℕ → List ℕ → ℤ → Traces → Traces
put_back k [] n d = erase k d
put_back k (x ∷ spans) n d = insert k (record { spans = x ∷ spans; num_finished = n }) d

-- the part of `on_span_finish` on the traces, after `num_finished` was counted up to `n`: what is
-- collected to be processed, if anything is
unfoldable pub settle : Config → Spans → ℕ → ℤ → List ℕ → Traces → Traces × Option (List ℕ)
settle c h k n spans d =
    let (leaving, staying) = split h n spans in
    if should_flush c n spans
    then (put_back k staying (n -ℤ pos (length leaving)) d, some leaving)
    else (insert k (record { spans = spans; num_finished = n }) d, none)

unfoldable pub collect : Config → Spans → ℕ → Traces → Traces × Option (List ℕ)
collect c h x d =
    let t = trace_at (h x).trace_id d in
    settle c h (h x).trace_id (t.num_finished +ℤ pos 1) t.spans d

-- `process_trace`: an Exception is `none`, and the answer may be None; spans may be changed
abbrev pub Processor : Type 0
Processor = List ℕ → Spans → Option (Option (List ℕ)) × Spans

-- the loop over the processors: the outer `none` is the early return, any other answer is written
unfoldable pub run_processors :
    List Processor → Option (List ℕ) → Spans → Option (Option (List ℕ)) × Spans
run_processors [] spans h = (some spans, h)
run_processors (p ∷ ps) none h = (none, h)
run_processors (p ∷ ps) (some spans) h =
    let (answer, h') = p spans h in
    run_processors ps (elim answer [ none ↦ some spans | some o ↦ o ]) h'

-- What one call of `on_span_finish` does: `written` is the argument of `writer.write`.
pub record Finished : Type 0 where
  pub spans : Spans
  pub traces : Traces
  pub collected : Option (List ℕ)
  pub written : Option (Option (List ℕ))

-- what was collected goes through the processors and is written
abbrev pub deliver : List Processor → Spans → Traces → Option (List ℕ) → Finished
deliver ps h d none = record { spans = h; traces = d; collected = none; written = none }
deliver ps h d (some l) =
    let (w, h') = run_processors ps (some l) h in
    record { spans = h'; traces = d; collected = some l; written = w }

-- `on_span_finish`
unfoldable pub on_span_finish : Config → List Processor → Spans → ℕ → Traces → Finished
on_span_finish c ps h x d = let (d', o) = collect c h x d in deliver ps h d' o

-- `TraceSamplingProcessor.process_trace`
unfoldable pub sampling : Processor
sampling spans h = (some (if any (λ x. (h x).sampled) spans then some spans else none), h)

-- `TraceTagsProcessor.process_trace`, with the store of the contexts' dicts
unfoldable pub trace_tags : Store → Processor
trace_tags st [] h = (some (some []), h)
trace_tags st (x ∷ spans) h = elim (h x).context [
  | none ↦ (some (some (x ∷ spans)), h)
  | some c ↦ (
    some (some (x ∷ spans)),
    λ y. if y == x then record (h x) { tags = update_tags st c (h x).tags } else h y,
  )
]

abbrev pub url_key : String
url_key = "http.url"

abbrev matched : List (Text → Bool) → Option Text → Bool
matched regexps none = false
matched regexps (some url) = any (λ m. m url) regexps

abbrev is_root : Option ℕ → Bool
is_root none = true
is_root (some p) = false

-- `FilterRequestsOnUrl.process_trace`, with each regular expression as its `match`
unfoldable pub filter_url : List (Text → Bool) → Processor
filter_url regexps spans h = (
  some (
      if any (λ x. is_root (h x).parent_id && matched regexps (get_tag url_key (h x))) spans
      then none
      else some spans),
  h,
)

-- the processors that `Tracer._initialize_span_processors` gives the aggregator
unfoldable pub tracer_processors : Store → List Processor → List Processor
tracer_processors st filters = trace_tags st ∷ sampling ∷ filters
