-- ===== src/Aggregator/Ledger.antt =====
-- No span is lost and none is collected twice, in whatever order the callbacks come.
use dd_trace_py.Base.{
  ℕ, ◌+◌, ◌≡◌, refl, arith, Bool, true, ◌&&◌, not, Option, none, some, List, [], ◌∷◌, if◌then◌else◌,
  keep, length, count_if, count_if-append, nat_beq, nat_beq_iff, ap, nat_eq, Bool-cases, inl, inr,
}
use dd_trace_py.Base.Int.{ℤ, pos, ◌+ℤ◌, ltb_ℤ}
use dd_trace_py.Base.Dict.{insert, lookup-insert, lookup-erase}
use dd_trace_py.Aggregator.{
  Spans, Trace, Traces, Config, trace_at, is_done, should_flush, split, put_back, settle, collect,
  on_span_start, on_span_finish, Processor, deliver,
}

-- What happens to the aggregator: a span starts; the callback of a span's end; and anything else
-- that the program does to its spans.
pub data Event : Type 0 where
  start : ℕ → Event
  finish : ℕ → Event
  change : (Spans → Spans) → Event

-- The heap, the traces, and what was collected so far with the id that it was collected for.
pub record World : Type 0 where
  pub spans : Spans
  pub traces : Traces
  pub collected : List (ℕ × List ℕ)

abbrev add_collected : ℕ → Option (List ℕ) → List (ℕ × List ℕ) → List (ℕ × List ℕ)
add_collected k none l = l
add_collected k (some chunk) l = (k, chunk) ∷ l

abbrev pub step : Config → List Processor → Event → World → World
step c ps (start x) w = record w { traces = on_span_start w.spans x w.traces }
step c ps (finish x) w =
    let f = on_span_finish c ps w.spans x w.traces in
    record {
      spans = f.spans;
      traces = f.traces;
      collected = add_collected (w.spans x).trace_id f.collected w.collected;
    }
step c ps (change f) w = record w { spans = f w.spans }

abbrev pub run : Config → List Processor → List Event → World → World
run c ps [] w = w
run c ps (e ∷ events) w = run c ps events (step c ps e w)

-- how often the span `x` is in a list
abbrev pub times : ℕ → List ℕ → ℕ
times x = count_if (λ y. nat_beq y x)

-- how often it was collected for the trace `k`
abbrev pub times_collected : ℕ → ℕ → List (ℕ × List ℕ) → ℕ
times_collected k x [] = 0
times_collected k x ((j, chunk) ∷ l) =
    let rest = times_collected k x l in if nat_beq j k then times x chunk + rest else rest

-- whether an event starts the span `x` while its trace id is `k`
abbrev pub started : ℕ → ℕ → World → Event → ℕ
started k x w (start y) = if nat_beq y x && nat_beq (w.spans y).trace_id k then 1 else 0
started k x w (finish y) = 0
started k x w (change f) = 0

abbrev pub times_started : Config → List Processor → ℕ → ℕ → List Event → World → ℕ
times_started c ps k x [] w = 0
times_started c ps k x (e ∷ events) w =
    started k x w e + times_started c ps k x events (step c ps e w)

-- in the aggregator and out of it
abbrev pub accounted : ℕ → ℕ → World → ℕ
accounted k x w = times_collected k x w.collected + times x (trace_at k w.traces).spans

times-keep :
    (x : ℕ) (p : ℕ → Bool) (l : List ℕ)
    → times x (keep p l) + times x (keep (λ y. not (p y)) l) ≡ times x l
times-keep x p [] = omega arith
times-keep x p (y ∷ l) = ground (arith, times-keep x p l)

times-split :
    (x : ℕ) (h : Spans) (n : ℤ) (spans : List ℕ)
    → times x (split h n spans).0 + times x (split h n spans).1 ≡ times x spans
unfolding split
times-split x h n spans = elim (Bool-cases (ltb_ℤ n (pos (length spans)))) [
  | inl e ↦ rw e (times-keep x (is_done h) spans)
  | inr e ↦ rw e (omega arith)
]

-- Only the trace that is put back changes.
trace_at-insert :
    (j k : ℕ) (t : Trace) (d : Traces)
    → trace_at k (insert j t d) ≡ (if nat_beq j k then t else trace_at k d)
trace_at-insert j k t d = elim (Bool-cases (nat_beq j k)) [
  | inl e ↦ rw (lookup-insert, e) refl
  | inr e ↦ rw (lookup-insert, e) refl
]

spans-put_back :
    (j k : ℕ) (spans : List ℕ) (n : ℤ) (d : Traces)
    → (trace_at k (put_back j spans n d)).spans
      ≡ (if nat_beq j k then spans else (trace_at k d).spans)
spans-put_back j k [] n d = elim (Bool-cases (nat_beq j k)) [
  | inl e ↦ rw (lookup-erase, e) refl
  | inr e ↦ rw (lookup-erase, e) refl
]
spans-put_back j k (y ∷ spans) n d = elim (Bool-cases (nat_beq j k)) [
  | inl e ↦ rw (trace_at-insert, e) refl
  | inr e ↦ rw (trace_at-insert, e) refl
]

-- `on_span_finish` moves spans from the trace to what is collected.
settle-accounted :
    (c : Config) (h : Spans) (j k x : ℕ) (n : ℤ) (spans : List ℕ) (d : Traces)
    (l : List (ℕ × List ℕ))
    → (trace_at j d).spans ≡ spans
    → let (d', o) = settle c h j n spans d in
      times_collected k x (add_collected j o l) + times x (trace_at k d').spans
      ≡ times_collected k x l + times x (trace_at k d).spans
unfolding settle
settle-accounted c h j k x n spans d l e = elim (Bool-cases (should_flush c n spans)) [
  | inl f ↦ elim (Bool-cases (nat_beq j k)) [
    | inl g ↦
        rw (f, spans-put_back, g) (omega (arith, times-split x h n spans, ap (times x) (same g)))
    | inr g ↦ rw (f, spans-put_back, g) refl
  ]
  | inr f ↦ elim (Bool-cases (nat_beq j k)) [
    | inl g ↦ rw (f, trace_at-insert, g) (rw (same g) refl)
    | inr g ↦ rw (f, trace_at-insert, g) refl
  ]
]
  where
    same : nat_beq j k ≡ true → (trace_at k d).spans ≡ spans
    same g = rw⁻¹ ((nat_beq_iff j k).0 g) e

deliver-traces :
    (ps : List Processor) (h : Spans) (d : Traces) (o : Option (List ℕ))
    → (deliver ps h d o).traces ≡ d
deliver-traces ps h d none = refl
deliver-traces ps h d (some l) = refl

deliver-collected :
    (ps : List Processor) (h : Spans) (d : Traces) (o : Option (List ℕ))
    → (deliver ps h d o).collected ≡ o
deliver-collected ps h d none = refl
deliver-collected ps h d (some l) = refl

on_span_start-accounted :
    (h : Spans) (j k x y : ℕ) (d : Traces)
    → (h y).trace_id ≡ j
    → times x (trace_at k (on_span_start h y d)).spans
      ≡ (if nat_beq y x && nat_beq j k then 1 else 0) + times x (trace_at k d).spans
unfolding on_span_start
on_span_start-accounted h j k x y d e = elim (Bool-cases (nat_beq j k)) [
  | inl g ↦ rw (e, trace_at-insert, g) (rw ((nat_beq_iff j k).0 g, count_if-append) (ground arith))
  | inr g ↦ rw (e, trace_at-insert, g) (ground arith)
]

step-accounted :
    (c : Config) (ps : List Processor) (k x : ℕ) (e : Event) (w : World)
    → accounted k x (step c ps e w) ≡ started k x w e + accounted k x w
unfolding on_span_start on_span_finish collect
step-accounted c ps k x (start y) w =
    omega (arith, on_span_start-accounted w.spans (w.spans y).trace_id k x y w.traces refl)
step-accounted c ps k x (finish y) w =
    let (d', o) = collect c w.spans y w.traces in
    let t = trace_at (w.spans y).trace_id w.traces in
    rw (deliver-traces ps w.spans d' o, deliver-collected ps w.spans d' o)
      (omega (
        arith,
        settle-accounted c w.spans (w.spans y).trace_id k x (t.num_finished +ℤ pos 1) t.spans
            w.traces w.collected refl,
      ))
step-accounted c ps k x (change f) w = omega arith

-- Whatever the configuration and the processors, and however starts, ends and other changes follow
-- each other: a span is in the aggregator or was collected, for each trace, exactly as often as it
-- was started in that trace. Nothing is lost and nothing is collected twice.
pub run-accounted :
    (c : Config) (ps : List Processor) (k x : ℕ) (events : List Event) (w : World)
    → accounted k x (run c ps events w) ≡ times_started c ps k x events w + accounted k x w
run-accounted c ps k x [] w = omega arith
run-accounted c ps k x (e ∷ events) w =
    omega (arith, run-accounted c ps k x events (step c ps e w), step-accounted c ps k x e w)
