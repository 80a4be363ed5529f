-- ===== src/Writer/Windows.antt =====
-- ddtrace/internal/writer.py: the counts of the writer over sequences of writes and flushes.
use dd_trace_py.Base.{
  ℕ, ◌+◌, ◌≤◌, ◌≡◌, refl, ap, ◌∙◌, arith, Bool, true, false, Option, none, some, List, [], ◌∷◌,
  if◌then◌else◌, length, string_eq, Bool-cases, inl, inr,
}
use dd_trace_py.Base.Dict.{lookup}
use dd_trace_py.Base.Text.{Text}
use dd_trace_py.Sampler.{Given}
use dd_trace_py.Context.{Store}
use dd_trace_py.Span.{Span}
use dd_trace_py.Encoder.{
  Encoder, Put, accepted, item_too_large, buffer_full, not_packed, put, put_written, encode,
}
use dd_trace_py.Encoder.Packing.{Packer, pack_trace}
use dd_trace_py.Writer.Counts.{dist, dropped_traces, accepted_traces, set_keep_rate}
use dd_trace_py.Writer.Sending.{Reply}
use dd_trace_py.Writer.Retry.{Retrying, IsRetrying}
use dd_trace_py.Writer.Accounting.{send_bytes-Dropped}
use dd_trace_py.Writer.{
  Writer, end_window, send_bytes, after_encode, try_flush, flush_queue, after_put, buffer, write,
  started, report,
}
use dd_trace_py.Writer.Losses.{
  put_written-count, encode-count, count_put-counts, write-counts, started-metrics, Loses,
  not_encoded-Loses, Dropped-Loses,
}

-- Every trace that is dropped or in the buffer was accepted in this window.
abbrev pub IsBalanced : Writer → Type 0
IsBalanced w = dropped_traces w.link.metrics + w.encoder.count ≤ accepted_traces w.link.metrics

module _ (p : Packer) (retry : Retrying) (replies : ℕ → Reply)
    (loads : Text → Option (Option (List (Text × Given)))) where
  buffer-IsBalanced :
      (st : Store) (spans : List Span) (w : Writer)
      → IsBalanced w
      → IsBalanced (buffer p retry replies loads st spans w).0
  unfolding buffer put
  buffer-IsBalanced st spans w h =
      let packed = pack_trace p st (set_keep_rate w.drop_sma spans) in
      let r = (put_written packed w.encoder).1 in
      let m = dist "writer.accepted.traces" 1 [] (started w).link.metrics in
      let (a, d) = count_put-counts r (length spans) m in
      let (a', d') = write-counts (started w).link.metrics in
      omega (
        arith,
        h,
        a,
        d,
        a',
        d',
        put_written-count packed w.encoder,
        ap accepted_traces (started-metrics w),
        ap dropped_traces (started-metrics w),
      )

  after_encode-Loses :
      (fails raise_exc : Bool) (o : Option (List ℕ)) (n : ℕ) (w : Writer)
      → IsRetrying retry
      → Loses n w.link.metrics
          (after_encode p retry replies loads fails raise_exc o n w).0.link.metrics
  after_encode-Loses fails raise_exc none n w is = (refl, omega arith)
  after_encode-Loses true raise_exc (some bytes) n w is = not_encoded-Loses n w.link.metrics
  after_encode-Loses false raise_exc (some bytes) n w is =
      Dropped-Loses n w.link.metrics _
        (send_bytes-Dropped replies loads p retry raise_exc bytes n w is)

  try_flush-Loses :
      (fails raise_exc : Bool) (w : Writer)
      → IsRetrying retry
      → Loses w.encoder.count w.link.metrics
          (try_flush p retry replies loads fails raise_exc w).0.link.metrics
  unfolding try_flush
  try_flush-Loses fails raise_exc w is =
      after_encode-Loses fails raise_exc (encode p w.encoder).1 w.encoder.count
        (record w { encoder = (encode p w.encoder).0 }) is

  report-encoder : (n k : ℕ) (w : Writer) → (report n k w).encoder ≡ w.encoder
  report-encoder n k w = elim (Bool-cases w.report_metrics) [
    | inl e ↦ rw e refl
    | inr e ↦ rw e refl
  ]

  after_encode-encoder :
      (fails raise_exc : Bool) (o : Option (List ℕ)) (n : ℕ) (w : Writer)
      → (after_encode p retry replies loads fails raise_exc o n w).0.encoder ≡ w.encoder
  unfolding send_bytes
  after_encode-encoder fails raise_exc none n w = refl
  after_encode-encoder true raise_exc (some bytes) n w = refl
  after_encode-encoder false raise_exc (some bytes) n w = report-encoder (length bytes) n _

  try_flush-empties :
      (fails raise_exc : Bool) (w : Writer)
      → (try_flush p retry replies loads fails raise_exc w).0.encoder.count ≡ 0
  unfolding try_flush
  try_flush-empties fails raise_exc w =
      ap (λ (e : Encoder). e.count)
        (after_encode-encoder fails raise_exc (encode p w.encoder).1 w.encoder.count
          (record w { encoder = (encode p w.encoder).0 }))
      ∙ encode-count p w.encoder

  flush_queue-IsBalanced :
      (fails raise_exc : Bool) (w : Writer)
      → IsBalanced (flush_queue p retry replies loads fails raise_exc w).0
  unfolding flush_queue end_window lookup
  flush_queue-IsBalanced fails raise_exc w = omega (arith, try_flush-empties fails raise_exc w)

  in_sync :
      (sync fails : Bool) (w : Writer)
      → IsBalanced w
      → IsBalanced (if sync then flush_queue p retry replies loads fails false w else (w, false)).0
  in_sync true fails w h = flush_queue-IsBalanced fails false w
  in_sync false fails w h = h

  after_put-IsBalanced :
      (fails : Bool) (r : Put) (w : Writer)
      → IsBalanced w
      → IsBalanced (after_put p retry replies loads fails r w).0
  after_put-IsBalanced fails accepted w h = in_sync w.sync_mode fails w h
  after_put-IsBalanced fails (item_too_large n) w h = h
  after_put-IsBalanced fails (buffer_full n) w h = h
  after_put-IsBalanced fails not_packed w h = h

  write-IsBalanced :
      (fails : Bool) (st : Store) (spans : Option (List Span)) (w : Writer)
      → IsBalanced w
      → IsBalanced (write p retry replies loads fails st spans w).0
  unfolding write
  write-IsBalanced fails st none w h = h
  write-IsBalanced fails st (some spans) w h =
      let (w', r) = buffer p retry replies loads st spans w in
      after_put-IsBalanced fails r w' (buffer-IsBalanced st spans w h)

-- What a thread does with the writer: it writes a trace, or flushes. The first Boolean tells that
-- `encode` fails there.
pub data Use : Type 0 where
  writes : Bool → Store → Option (List Span) → Use
  flushes : Bool → Bool → Use

module _ (p : Packer) (retry : Retrying) (replies : ℕ → Reply)
    (loads : Text → Option (Option (List (Text × Given)))) where
  abbrev pub use_once : Use → Writer → Writer
  use_once (writes fails st spans) w = (write p retry replies loads fails st spans w).0
  use_once (flushes fails raise_exc) w = (flush_queue p retry replies loads fails raise_exc w).0

  abbrev pub use_all : List Use → Writer → Writer
  use_all [] w = w
  use_all (u ∷ us) w = use_all us (use_once u w)

  use_once-IsBalanced : (u : Use) (w : Writer) → IsBalanced w → IsBalanced (use_once u w)
  use_once-IsBalanced (writes fails st spans) w h =
      write-IsBalanced p retry replies loads fails st spans w h
  use_once-IsBalanced (flushes fails raise_exc) w h =
      flush_queue-IsBalanced p retry replies loads fails raise_exc w

  use_all-IsBalanced : (us : List Use) (w : Writer) → IsBalanced w → IsBalanced (use_all us w)
  use_all-IsBalanced [] w h = h
  use_all-IsBalanced (u ∷ us) w h = use_all-IsBalanced us (use_once u w) (use_once-IsBalanced u w h)

  -- From a writer for which this holds, and after any sequence of writes and flushes, whatever the agent answers and wherever packing,
  -- encoding or sending fails, the traces in the buffer and those counted as dropped are together at
  -- most those counted as accepted; and when the next flush has been through, no more traces
  -- are counted as dropped than as accepted, so that the drop rate is computed from the counts
  -- themselves. The retries are assumed to behave as documented.
  pub use_all-counts :
      (fails raise_exc : Bool) (us : List Use) (w : Writer)
      → IsRetrying retry
      → IsBalanced w
      → IsBalanced (use_all us w)
        × (dropped_traces
              (try_flush p retry replies loads fails raise_exc (use_all us w)).0.link.metrics
            ≤ accepted_traces
                (try_flush p retry replies loads fails raise_exc (use_all us w)).0.link.metrics)
  use_all-counts fails raise_exc us w is h =
      let k = use_all-IsBalanced us w h in
      let (a, d) = try_flush-Loses p retry replies loads fails raise_exc (use_all us w) is in
      (k, omega (arith, k, a, d))
