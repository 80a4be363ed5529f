-- ===== src/Writer/Refusals.antt =====
-- ddtrace/internal/writer.py: the counts of traces in one call of `_send_payload`.
use dd_trace_py.Base.{
  ℕ, zero, suc, ◌+◌, ◌≤◌, ◌≡◌, refl, ◌∙◌, arith, Bool, false, Option, some, List, [], String,
  if◌then◌else◌, leb, Bool-cases, inl, inr, Option-cases, string_eq, ◌==◌, ◌⊎◌, ◌||◌,
}
use dd_trace_py.Base.Text.{Text}
use dd_trace_py.Sampler.{Given}
use dd_trace_py.Writer.Counts.{Metrics, metric, dist, count-dist, accepted_traces}
use dd_trace_py.Writer.Sending.{
  Reply, response, exception, Link, Sent, returned, Endpoint, v04, v03, send_payload,
  after_response, count_response, count_refused, read_rates, get_json, is_priority, is_unsupported,
  downgrade, on_reply,
}

-- From `m` to `m'` the agent's refusals went up by `d`, and the other counts of traces stayed.
pub record Moves (d : ℕ) (m m' : Metrics) : Type 0 where
  pub writer : accepted_traces m' ≡ accepted_traces m
  pub buffered :
      (metric "buffer.dropped.traces" m').count ≡ (metric "buffer.dropped.traces" m).count
  pub encoder :
      (metric "encoder.dropped.traces" m').count ≡ (metric "encoder.dropped.traces" m).count
  pub http : (metric "http.dropped.traces" m').count ≡ d + (metric "http.dropped.traces" m).count

pub Moves-refl : (m : Metrics) → Moves 0 m m
Moves-refl m = record { writer = refl; buffered = refl; encoder = refl; http = omega arith }

-- no refusals before
pub Moves-after : (d : ℕ) (m m' m'' : Metrics) → Moves 0 m m' → Moves d m' m'' → Moves d m m''
Moves-after d m m' m'' h k = record {
  writer = k.writer ∙ h.writer;
  buffered = k.buffered ∙ h.buffered;
  encoder = k.encoder ∙ h.encoder;
  http = omega (arith, h.http, k.http);
}

-- whether a name is one of the counts of traces
abbrev is_traces : String → Bool
is_traces name =
    (name == "writer.accepted.traces")
    || ((name == "buffer.dropped.traces")
        || ((name == "encoder.dropped.traces") || (name == "http.dropped.traces")))

pub dist-Moves :
    (name : String) (k : ℕ) (tags : List Text) (m : Metrics)
    → is_traces name ≡ false
    → Moves 0 m (dist name k tags m)
dist-Moves name k tags m h = record {
  writer = ground (arith, h, count-dist "writer.accepted.traces" name k tags m);
  buffered = ground (arith, h, count-dist "buffer.dropped.traces" name k tags m);
  encoder = ground (arith, h, count-dist "encoder.dropped.traces" name k tags m);
  http = ground (arith, h, count-dist "http.dropped.traces" name k tags m);
}

pub count_refused-Moves : (size n : ℕ) (m : Metrics) → Moves n m (count_refused size n m)
count_refused-Moves size n m = record {
  writer = ground (arith, bytes.writer, count "writer.accepted.traces");
  buffered = ground (arith, bytes.buffered, count "buffer.dropped.traces");
  encoder = ground (arith, bytes.encoder, count "encoder.dropped.traces");
  http = ground (arith, bytes.http, count "http.dropped.traces");
}
  where
    bytes : Moves 0 m (dist "http.dropped.bytes" size [] m)
    bytes = dist-Moves "http.dropped.bytes" size [] m refl

    count :
        (j : String)
        → (metric j (count_refused size n m)).count
          ≡ (if "http.dropped.traces" == j then n else 0)
            + (metric j (dist "http.dropped.bytes" size [] m)).count
    count j = count-dist j "http.dropped.traces" n [] (dist "http.dropped.bytes" size [] m)

count_response-Moves : (status size : ℕ) (m : Metrics) → Moves 0 m (count_response status size m)
count_response-Moves status size m = elim (Bool-cases (leb 400 status)) [
  | inl e ↦ rw e (dist-Moves "http.errors" 1 _ m refl)
  | inr e ↦ rw e (dist-Moves "http.sent.bytes" size [] m refl)
]

-- The counts after the retries: `d` of the `n` traces are counted as dropped, at most all.
abbrev pub Dropped : ℕ → Metrics → Metrics → Type 0
Dropped n m m' = (d : ℕ) × (d ≤ n) × Moves d m m'

-- A call refuses all `n` traces, and then returns, or it changes no count of traces.
abbrev pub Fair : ℕ → Link → Link × Option Sent → Type 0
Fair n l r = (d : ℕ) × Moves d l.metrics r.0.metrics × ((d ≡ 0) ⊎ ((r.1 ≡ some returned) × (d ≡ n)))

module _ (replies : ℕ → Reply) (loads : Text → Option (Option (List (Text × Given)))) where
  read_rates-metrics :
      (body : Text) (l : Link) → (read_rates replies loads body l).metrics ≡ l.metrics
  unfolding read_rates
  read_rates-metrics body l =
      elim (Bool-cases (is_priority l.priority_sampler || is_priority l.sampler)) [
        | inr e ↦ rw e refl
        | inl e ↦ elim (Option-cases (get_json replies loads body)) [
          | inl f ↦ rw (e, f, read_rates) refl
          | inr (r, f) ↦ rw (e, f, read_rates) refl
        ]
      ]

  downgrade-Fair :
      (again : Link → Link × Option Sent) (n : ℕ) (e : Endpoint) (l : Link)
      → ((k : Link) → Fair n k (again k))
      → Fair n l (downgrade replies loads again e l)
  downgrade-Fair again n v04 l fair = fair (record l { endpoint = v03 })
  downgrade-Fair again n v03 l fair = (0, Moves-refl l.metrics, inl refl)

  after_response-Fair :
      (again : Link → Link × Option Sent) (size n status : ℕ) (body : Text) (l : Link)
      → ((k : Link) → Fair n k (again k))
      → Fair n l (after_response replies loads again size n status body l)
  unfolding after_response
  after_response-Fair again size n status body l fair = elim (Bool-cases (is_unsupported status)) [
    | inl e ↦ rw e (downgrade-Fair again n l.endpoint l fair)
    | inr e ↦ elim (Bool-cases (leb 400 status)) [
      | inl f ↦ rw (e, f) (n, count_refused-Moves size n l.metrics, inr (refl, refl))
      | inr f ↦ rw (e, f) (0, rw (read_rates-metrics body l) (Moves-refl l.metrics), inl refl)
    ]
  ]

  -- What came before, counted as the call of `_send_payload` does, changes no count of traces.
  Fair-after :
      (n : ℕ) (l k : Link) (r : Link × Option Sent)
      → Moves 0 l.metrics k.metrics
      → Fair n k r
      → Fair n l r
  Fair-after n l k r before (d, moves, how) =
      (d, Moves-after d l.metrics k.metrics r.0.metrics before moves, how)

  on_reply-Fair :
      (again : Link → Link × Option Sent) (size n : ℕ) (reply : Reply) (l : Link)
      → ((k : Link) → Fair n k (again k))
      → Fair n l (on_reply replies loads again size n reply l)
  on_reply-Fair again size n (exception retried) l fair = (0, Moves-refl l.metrics, inl refl)
  on_reply-Fair again size n (response status body) l fair =
      let k = record l { metrics = count_response status size l.metrics } in
      Fair-after n l k (after_response replies loads again size n status body k)
        (count_response-Moves status size l.metrics)
        (after_response-Fair again size n status body k fair)

  pub send_payload-Fair :
      (fuel size n : ℕ) (l : Link) → Fair n l (send_payload replies loads fuel size n l)
  unfolding send_payload
  send_payload-Fair zero size n l = (0, Moves-refl l.metrics, inl refl)
  send_payload-Fair (suc fuel) size n l =
      let k = record l {
        metrics = dist "http.requests" 1 [] l.metrics;
        requests = l.requests + 1;
      } in
      let again = send_payload replies loads fuel size n in
      Fair-after n l k (on_reply replies loads again size n (replies l.requests) k)
        (dist-Moves "http.requests" 1 [] l.metrics refl)
        (on_reply-Fair again size n (replies l.requests) k (send_payload-Fair fuel size n))
