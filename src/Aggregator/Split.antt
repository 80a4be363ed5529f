-- ===== src/Aggregator/Split.antt =====
-- The counter `num_finished` against the spans themselves: what `on_span_finish` collects.
use dd_trace_py.Base.{
  ℕ, nat_eq, ◌+◌, ◌≤◌, ◌<◌, ◌≡◌, ◌∙◌, sym, refl, arith, Bool, true, ◌&&◌, not, Option, none, some,
  List, [], ◌∷◌, if◌then◌else◌, keep, length, count_if, length-keep, count_if-le, nat_beq,
  Bool-cases, inl, inr,
}
use dd_trace_py.Base.Int.{ℤ, pos, ◌+ℤ◌, ◌-ℤ◌, leb_ℤ}
use dd_trace_py.Base.Dict.{insert, erase}
use dd_trace_py.Aggregator.{
  Spans, Traces, Config, trace_at, is_done, should_flush, split, put_back, settle, collect,
}

-- The specification: what leaves is decided by the spans alone. All spans, if all have finished;
-- else those that have finished, if there are enough for a partial flush; else none. What stays
-- is counted anew.
abbrev settle_done : Config → Spans → ℕ → List ℕ → Traces → Traces × Option (List ℕ)
settle_done c h k spans d =
    let done = count_if (is_done h) spans in
    if nat_beq done (length spans)
    then (erase k d, some spans)
    else if c.partial_flush_enabled && leb_ℤ c.partial_flush_min_spans (pos done)
    then (
      insert k (record { spans = keep (λ x. not (is_done h x)) spans; num_finished = pos 0 }) d,
      some (keep (is_done h) spans),
    )
    else (insert k (record { spans = spans; num_finished = pos done }) d, none)

abbrev pub collect_done : Config → Spans → ℕ → Traces → Traces × Option (List ℕ)
collect_done c h k d = settle_done c h k (trace_at k d).spans d

add_one : (n : ℕ) → pos n +ℤ pos 1 ≡ pos (n + 1)
unfolding ◌+ℤ◌
add_one n = ground arith

sub_self : (n m : ℕ) → n ≡ m → pos n -ℤ pos m ≡ pos 0
unfolding ◌-ℤ◌
sub_self n m h = ground (arith, h)

-- Where fewer have finished than there are, one stays.
put_back-keep :
    (p : ℕ → Bool) (k : ℕ) (spans : List ℕ) (n : ℤ) (d : Traces)
    → count_if p spans < length spans
    → put_back k (keep (λ x. not (p x)) spans) n d
      ≡ insert k (record { spans = keep (λ x. not (p x)) spans; num_finished = n }) d
put_back-keep p k [] n d h = absurd (omega (arith, h))
put_back-keep p k (x ∷ spans) n d h = elim (Bool-cases (p x)) [
  | inl e ↦ rw e (put_back-keep p k spans n d (below x spans e h))
  | inr e ↦ rw e refl
]
  where
    below :
        (x : ℕ) (spans : List ℕ)
        → p x ≡ true
        → count_if p (x ∷ spans) < length (x ∷ spans)
        → count_if p spans < length spans
    below x spans e h = ground (arith, e, h)

split-all :
    (h : Spans) (n : ℕ) (spans : List ℕ) → length spans ≤ n → split h (pos n) spans ≡ (spans, [])
unfolding split
split-all h n spans le = ground (arith, le)

split-some :
    (h : Spans) (n : ℕ) (spans : List ℕ)
    → n < length spans
    → split h (pos n) spans ≡ (keep (is_done h) spans, keep (λ x. not (is_done h x)) spans)
unfolding split
split-some h n spans lt = ground (arith, lt)

should_flush-all :
    (c : Config) (n : ℕ) (spans : List ℕ) → n ≡ length spans → should_flush c (pos n) spans ≡ true
unfolding should_flush
should_flush-all c n spans e = ground (arith, e)

should_flush-some :
    (c : Config) (n : ℕ) (spans : List ℕ)
    → n < length spans
    → should_flush c (pos n) spans
      ≡ (c.partial_flush_enabled && leb_ℤ c.partial_flush_min_spans (pos n))
unfolding should_flush
should_flush-some c n spans lt = ground (arith, lt)

settle_lem :
    (c : Config) (h : Spans) (k n : ℕ) (spans : List ℕ) (d : Traces)
    → count_if (is_done h) spans ≡ n
    → settle c h k (pos n) spans d ≡ settle_done c h k spans d
unfolding settle
settle_lem c h k n spans d done = elim (Bool-cases (nat_beq n (length spans))) [
  | inl e ↦
      rw
        (
          done,
          e,
          should_flush-all c n spans (ground (arith, e)),
          split-all h n spans (ground (arith, e)),
        )
        refl
  | inr e ↦
      let lt : n < length spans = ground (arith, e, done, count_if-le (is_done h) spans) in
      rw
        (
          done,
          e,
          should_flush-some c n spans lt,
          split-some h n spans lt,
          put_back-keep (is_done h) k spans _ d (rw done lt),
          sub_self n (length (keep (is_done h) spans))
              (sym done ∙ sym (length-keep (is_done h) spans)),
        )
        refl
]

-- When the span's trace counts every finished span but this one, which has its duration already,
-- `collect` does what the specification says, whatever the other traces are.
pub collect_lem :
    (c : Config) (h : Spans) (x n : ℕ) (d : Traces)
    → (trace_at (h x).trace_id d).num_finished ≡ pos n
    → count_if (is_done h) (trace_at (h x).trace_id d).spans ≡ n + 1
    → collect c h x d ≡ collect_done c h (h x).trace_id d
unfolding collect
collect_lem c h x n d counted done =
    rw (counted, add_one n) (settle_lem c h (h x).trace_id (n + 1) _ d done)
