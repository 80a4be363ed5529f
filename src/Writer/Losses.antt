-- ===== src/Writer/Losses.antt =====
-- ddtrace/internal/writer.py: the counts of a put and of an encoding that fails.
use dd_trace_py.Base.{
  ℕ, ◌+◌, ◌-◌, ◌≤◌, ◌≡◌, refl, ◌∙◌, arith, true, false, List, [], ◌∷◌, String, if◌then◌else◌,
  length, ltb, string_eq, Bool-cases, inl, inr, ◌==◌,
}
use dd_trace_py.Base.Text.{Text, codes}
use dd_trace_py.Encoder.{
  Encoder, Put, accepted, item_too_large, buffer_full, not_packed, size, append, put_written,
  encode, flush,
}
use dd_trace_py.Encoder.Packing.{Packer, Written}
use dd_trace_py.Writer.Counts.{Metrics, metric, dist, count-dist, dropped_traces, accepted_traces}
use dd_trace_py.Writer.Refusals.{Moves, Dropped, dist-Moves}
use dd_trace_py.Writer.{Writer, count_put, started}

-- whether a put is taken
abbrev pub taken : Put → ℕ
taken accepted = 1
taken (item_too_large n) = 0
taken (buffer_full n) = 0
taken not_packed = 0

pub put_written-count :
    (w : Written) (e : Encoder) → (put_written w e).0.count ≡ e.count + taken (put_written w e).1
unfolding put_written
put_written-count (t, false) e = omega arith
put_written-count (t, true) e =
    elim (Bool-cases (ltb e.max_item_size (e.position + length t - e.position))) [
      | inl f ↦ rw f (omega arith)
      | inr f ↦ elim (Bool-cases (ltb e.max_size (size (append t e)))) [
        | inl g ↦ rw (f, g) (omega arith)
        | inr g ↦ rw (f, g) refl
      ]
    ]

pub encode-count : (p : Packer) (e : Encoder) → (encode p e).0.count ≡ 0
unfolding encode flush
encode-count p e = ground arith

pub Moves-dropped :
    (d : ℕ) (m m' : Metrics) → Moves d m m' → dropped_traces m' ≡ d + dropped_traces m
Moves-dropped d m m' h = omega (arith, h.buffered, h.encoder, h.http)

-- A trace that the buffer refuses is counted as dropped.
pub refuse-counts :
    (n : ℕ) (tags : List Text) (m : Metrics)
    → (accepted_traces (dist "buffer.dropped.bytes" n tags (dist "buffer.dropped.traces" 1 tags m))
        ≡ accepted_traces m)
      × (dropped_traces (dist "buffer.dropped.bytes" n tags (dist "buffer.dropped.traces" 1 tags m))
          ≡ 1 + dropped_traces m)
refuse-counts n tags m = (
  ground (arith, bytes.writer, one "writer.accepted.traces"),
  ground (
    arith,
    Moves-dropped 0 _ _ bytes,
    one "buffer.dropped.traces",
    one "encoder.dropped.traces",
    one "http.dropped.traces",
  ),
)
  where
    bytes :
        Moves 0
          (dist "buffer.dropped.traces" 1 tags m)
          (dist "buffer.dropped.bytes" n tags (dist "buffer.dropped.traces" 1 tags m))
    bytes = dist-Moves "buffer.dropped.bytes" n tags (dist "buffer.dropped.traces" 1 tags m) refl

    one :
        (j : String)
        → (metric j (dist "buffer.dropped.traces" 1 tags m)).count
          ≡ (if "buffer.dropped.traces" == j then 1 else 0) + (metric j m).count
    one j = count-dist j "buffer.dropped.traces" 1 tags m

-- What a put counts: no more than one trace is dropped or taken.
pub count_put-counts :
    (r : Put) (spans : ℕ) (m : Metrics)
    → (accepted_traces (count_put r spans m) ≡ accepted_traces m)
      × (dropped_traces (count_put r spans m) + taken r ≤ 1 + dropped_traces m)
count_put-counts accepted spans m =
    let m' = dist "buffer.accepted.traces" 1 [] m in
    let h = dist-Moves "buffer.accepted.traces" 1 [] m refl in
    let k = dist-Moves "buffer.accepted.spans" spans [] m' refl in
    (k.writer ∙ h.writer, omega (arith, Moves-dropped 0 _ _ h, Moves-dropped 0 _ _ k))
count_put-counts (item_too_large n) spans m =
    let (a, d) = refuse-counts n (codes "reason:t_too_big" ∷ []) m in (a, omega (arith, d))
count_put-counts (buffer_full n) spans m =
    let (a, d) = refuse-counts n (codes "reason:full" ∷ []) m in (a, omega (arith, d))
count_put-counts not_packed spans m = (refl, omega arith)

-- The trace that is written is counted as accepted first.
pub write-counts :
    (m : Metrics)
    → (accepted_traces (dist "writer.accepted.traces" 1 [] m) ≡ 1 + accepted_traces m)
      × (dropped_traces (dist "writer.accepted.traces" 1 [] m) ≡ dropped_traces m)
write-counts m = (
  one "writer.accepted.traces",
  ground
      (arith, one "buffer.dropped.traces", one "encoder.dropped.traces", one "http.dropped.traces"),
)
  where
    one :
        (j : String)
        → (metric j (dist "writer.accepted.traces" 1 [] m)).count
          ≡ (if "writer.accepted.traces" == j then 1 else 0) + (metric j m).count
    one j = count-dist j "writer.accepted.traces" 1 [] m

pub started-encoder : (w : Writer) → (started w).encoder ≡ w.encoder
started-encoder w = elim (Bool-cases w.sync_mode) [ inl e ↦ rw e refl | inr e ↦ rw e refl ]

pub started-metrics : (w : Writer) → (started w).link.metrics ≡ w.link.metrics
started-metrics w = elim (Bool-cases w.sync_mode) [ inl e ↦ rw e refl | inr e ↦ rw e refl ]

-- Accepted is what was, and up to `n` traces more are dropped.
abbrev pub Loses : ℕ → Metrics → Metrics → Type 0
Loses n m m' = (accepted_traces m' ≡ accepted_traces m) × (dropped_traces m' ≤ n + dropped_traces m)

pub not_encoded-Loses : (n : ℕ) (m : Metrics) → Loses n m (dist "encoder.dropped.traces" n [] m)
not_encoded-Loses n m = (
  ground (arith, one "writer.accepted.traces"),
  ground
      (arith, one "buffer.dropped.traces", one "encoder.dropped.traces", one "http.dropped.traces"),
)
  where
    one :
        (j : String)
        → (metric j (dist "encoder.dropped.traces" n [] m)).count
          ≡ (if "encoder.dropped.traces" == j then n else 0) + (metric j m).count
    one j = count-dist j "encoder.dropped.traces" n [] m

pub Dropped-Loses : (n : ℕ) (m m' : Metrics) → Dropped n m m' → Loses n m m'
Dropped-Loses n m m' (d, le, moves) = (moves.writer, omega (arith, le, Moves-dropped d m m' moves))
