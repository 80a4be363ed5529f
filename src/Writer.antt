-- ===== src/Writer.antt =====
-- ddtrace/internal/writer.py: AgentWriter, which buffers traces and sends them to the agent. The
-- retry policy of tenacity is a parameter. Each method is one step. Logging and the time of a
-- request are left out.
pub mod Counts
pub mod Sending
pub mod Retry
pub mod Refusals
pub mod Accounting
pub mod Losses
pub mod Windows
use dd_trace_py.Base.{
  ℕ, zero, suc, ◌+◌, ◌≡◌, Bool, true, false, not, Option, none, some, List, [], ◌∷◌, ◌++◌, String,
  if◌then◌else◌, length, map, nat_beq,
}
use dd_trace_py.Base.Text.{Text, codes}
use dd_trace_py.Context.{Store}
use dd_trace_py.Span.{Span}
use dd_trace_py.MovingAverage.{Average}
use dd_trace_py.Sampler.{Given}
use dd_trace_py.Service.{Status, stopped, running}
use dd_trace_py.Encoder.{
  Encoder, Put, accepted, item_too_large, buffer_full, not_packed, room, put, encode,
}
use dd_trace_py.Encoder.Packing.{Packer}
use dd_trace_py.Writer.Counts.{Metrics, Metric, dist, set_drop_rate, set_keep_rate}
use dd_trace_py.Writer.Sending.{Reply, Link, Sent, send_payload}
use dd_trace_py.Writer.Retry.{Ending, done, gave_up, passed_on, Retrying}

pub record Writer : Type 0 where
  pub encoder : Encoder
  pub link : Link
  pub drop_sma : Average
  pub sync_mode : Bool
  pub report_metrics : Bool
  pub status : Status
  -- what dogstatsd was told: a name less its prefix "datadog.tracer.", a value and tags
  pub reported : List (String × ℕ × List Text)

abbrev with_metrics : (Metrics → Metrics) → Writer → Writer
with_metrics f w = record w { link = record w.link { metrics = f w.link.metrics } }

-- the outer `finally` of `flush_queue`
unfoldable pub end_window : Writer → Writer
end_window w = record w {
  drop_sma = set_drop_rate w.link.metrics w.drop_sma;
  link = record w.link { metrics = [] };
}

-- the counts after the retries
abbrev pub count_ending : Ending → ℕ → ℕ → Metrics → Metrics
count_ending done size n m = m
count_ending passed_on size n m = m
count_ending gave_up size n m =
    dist "http.dropped.traces" n []
      (dist "http.dropped.bytes" size [] (dist "http.errors" 1 (codes "type:err" ∷ []) m))

-- whether `flush_queue` raises
abbrev raises : Bool → Ending → Bool
raises raise_exc done = false
raises raise_exc passed_on = true
raises raise_exc gave_up = raise_exc

-- the inner `finally`
abbrev pub report : ℕ → ℕ → Writer → Writer
report size n w =
    if w.report_metrics
    then record w {
      reported =
          w.reported
          ++ (("http.sent.bytes", size, [])
              ∷ ("http.sent.traces", n, [])
              ∷ map (λ (e : String × Metric). (e.0, e.1.count, e.1.tags)) w.link.metrics);
    }
    else w

-- the counts of a `put`
abbrev pub count_put : Put → ℕ → Metrics → Metrics
count_put accepted spans m =
    dist "buffer.accepted.spans" spans [] (dist "buffer.accepted.traces" 1 [] m)
count_put (item_too_large size) spans m =
    dist "buffer.dropped.bytes" size (codes "reason:t_too_big" ∷ [])
      (dist "buffer.dropped.traces" 1 (codes "reason:t_too_big" ∷ []) m)
count_put (buffer_full size) spans m =
    dist "buffer.dropped.bytes" size (codes "reason:full" ∷ [])
      (dist "buffer.dropped.traces" 1 (codes "reason:full" ∷ []) m)
count_put not_packed spans m = m

-- the first write starts the service
abbrev pub started : Writer → Writer
started w = if w.sync_mode then w else record w { status = running }

module _ (p : Packer) (retry : Retrying) (replies : ℕ → Reply)
    (loads : Text → Option (Option (List (Text × Given)))) where
  -- the sending part of `flush_queue`, with fuel for one downgrade
  unfoldable pub send_bytes : Bool → List ℕ → ℕ → Writer → Writer × Bool
  send_bytes raise_exc bytes n w =
      let (l, ending) = retry (send_payload replies loads 2 (length bytes) n) w.link in
      (
        report (length bytes) n (record w {
          link = record l { metrics = count_ending ending (length bytes) n l.metrics };
        }),
        raises raise_exc ending,
      )

  -- what follows the `encode`; `fails` tells that `encode` raises
  abbrev pub after_encode : Bool → Bool → Option (List ℕ) → ℕ → Writer → Writer × Bool
  after_encode fails raise_exc none n w = (w, false)
  after_encode fails raise_exc (some bytes) n w =
      if fails
      then (with_metrics (dist "encoder.dropped.traces" n []) w, false)
      else send_bytes raise_exc bytes n w

  -- `flush_queue` up to the outer `finally`; an `encode` that raises empties the buffer too. The
  -- Boolean of the answer tells that `flush_queue` raises.
  unfoldable pub try_flush : Bool → Bool → Writer → Writer × Bool
  try_flush fails raise_exc w =
      let (e, encoded) = encode p w.encoder in
      after_encode fails raise_exc encoded w.encoder.count (record w { encoder = e })

  -- `flush_queue`
  unfoldable pub flush_queue : Bool → Bool → Writer → Writer × Bool
  flush_queue fails raise_exc w =
      let (w', raised) = try_flush fails raise_exc w in (end_window w', raised)

  -- after the `try` of `write`: in the sync mode an accepted trace is sent at once; what the packing
  -- raised goes on to the caller
  abbrev pub after_put : Bool → Put → Writer → Writer × Bool
  after_put fails accepted w = if w.sync_mode then flush_queue fails false w else (w, false)
  after_put fails (item_too_large size) w = (w, false)
  after_put fails (buffer_full size) w = (w, false)
  after_put fails not_packed w = (w, true)

  -- the buffering part of `write`
  unfoldable pub buffer : Store → List Span → Writer → Writer × Put
  buffer st spans w =
      let counted = with_metrics (dist "writer.accepted.traces" 1 []) (started w) in
      let (e, result) = put p st (set_keep_rate w.drop_sma spans) w.encoder in
      (with_metrics (count_put result (length spans)) (record counted { encoder = e }), result)

  -- `write`; the Boolean of the answer tells that it raises
  unfoldable pub write : Bool → Store → Option (List Span) → Writer → Writer × Bool
  write fails st none w = (w, false)
  write fails st (some spans) w = let (w', result) = buffer st spans w in after_put fails result w'
