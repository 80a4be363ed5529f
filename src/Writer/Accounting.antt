-- ===== src/Writer/Accounting.antt =====
-- ddtrace/internal/writer.py: the counts of traces over the retries of one payload.
use dd_trace_py.Base.{
  ℕ, suc, ◌≡◌, refl, arith, Bool, true, false, Option, some, List, [], ◌∷◌, length, leb, Bool-cases,
  inl, inr, string_eq, ◌⊎◌,
}
use mathlib.Core.Path.{subst}
use dd_trace_py.Base.Text.{Text, codes}
use dd_trace_py.Sampler.{Given}
use dd_trace_py.Encoder.Packing.{Packer}
use dd_trace_py.Writer.Counts.{Metrics, dist}
use dd_trace_py.Writer.Sending.{
  Reply, response, exception, Link, Sent, returned, raised, Endpoint, v04, v03, send_payload,
  after_response, count_response, is_unsupported, downgrade, on_reply,
}
use dd_trace_py.Writer.Retry.{
  Ending, done, gave_up, passed_on, Retrying, Tried, returned_now, raised_other, raised_last,
  raised_again, Returns, IsRetrying,
}
use dd_trace_py.Writer.{Writer, count_ending, send_bytes, report}
use dd_trace_py.Writer.Refusals.{
  Moves, Moves-after, dist-Moves, count_refused-Moves, Fair, send_payload-Fair, Dropped,
}

-- A call that ends.
abbrev pub Ends : Option Sent → Type 0
Ends o = (s : Sent) × (o ≡ some s)

-- What the retries do: nothing is refused, or all traces are, and then the retries end so.
abbrev pub TriedFair : ℕ → Link → Link × Ending → Type 0
TriedFair n l r = (d : ℕ) × Moves d l.metrics r.0.metrics × ((d ≡ 0) ⊎ ((r.1 ≡ done) × (d ≡ n)))

module _ (replies : ℕ → Reply) (loads : Text → Option (Option (List (Text × Given)))) where
  after_response-Ends :
      (again : Link → Link × Option Sent) (size n status : ℕ) (body : Text) (l : Link)
      → Ends (downgrade replies loads again l.endpoint l).1
      → Ends (after_response replies loads again size n status body l).1
  unfolding after_response
  after_response-Ends again size n status body l ends = elim (Bool-cases (is_unsupported status)) [
    | inl e ↦ rw e ends
    | inr e ↦ elim (Bool-cases (leb 400 status)) [
      | inl f ↦ rw (e, f) (returned, refl)
      | inr f ↦ rw (e, f) (returned, refl)
    ]
  ]

  on_reply-Ends :
      (again : Link → Link × Option Sent) (size n : ℕ) (reply : Reply) (l : Link)
      → ((m : Metrics)
          → Ends (downgrade replies loads again l.endpoint (record l { metrics = m })).1)
      → Ends (on_reply replies loads again size n reply l).1
  on_reply-Ends again size n (exception retried) l ends = (raised retried, refl)
  on_reply-Ends again size n (response status body) l ends =
      after_response-Ends again size n status body
        (record l { metrics = count_response status size l.metrics })
        (ends (count_response status size l.metrics))

  downgrade-last :
      (again : Link → Link × Option Sent) (e : Endpoint) (l : Link)
      → e ≡ v03
      → Ends (downgrade replies loads again e l).1
  downgrade-last again v03 l h = (returned, refl)
  downgrade-last again v04 l h = absurd (ground (arith, h))

  -- Enough fuel: from the last endpoint there is no downgrade, and from the other there is one.
  send_payload-last :
      (fuel size n : ℕ) (l : Link)
      → l.endpoint ≡ v03
      → Ends (send_payload replies loads (suc fuel) size n l).1
  unfolding send_payload
  send_payload-last fuel size n l e =
      on_reply-Ends (send_payload replies loads fuel size n) size n (replies l.requests) _
        (λ m. downgrade-last (send_payload replies loads fuel size n) l.endpoint _ e)

  downgrade-Ends :
      (size n : ℕ) (e : Endpoint) (l : Link)
      → Ends (downgrade replies loads (send_payload replies loads 1 size n) e l).1
  downgrade-Ends size n v04 l = send_payload-last 0 size n (record l { endpoint = v03 }) refl
  downgrade-Ends size n v03 l = (returned, refl)

  -- `_send_payload` ends after two requests at most: one for each endpoint.
  pub send_payload-Returns : (size n : ℕ) → Returns (send_payload replies loads 2 size n)
  unfolding send_payload
  send_payload-Returns size n l =
      on_reply-Ends (send_payload replies loads 1 size n) size n (replies l.requests) _
        (λ m. downgrade-Ends size n l.endpoint _)

  -- What a call that is known to end so did.
  send_payload-Fair_at :
      (size n : ℕ) (l k : Link) (o : Option Sent)
      → send_payload replies loads 2 size n l ≡ (k, o)
      → Fair n l (k, o)
  send_payload-Fair_at size n l k o e =
      subst (Fair n l) e (send_payload-Fair replies loads 2 size n l)

  send_payload-raised :
      (size n : ℕ) (l k : Link) (b : Bool)
      → send_payload replies loads 2 size n l ≡ (k, some (raised b))
      → Moves 0 l.metrics k.metrics
  send_payload-raised size n l k b e =
      let (d, moves, how) = send_payload-Fair_at size n l k (some (raised b)) e in
      elim how [
        | inl z ↦ subst (λ j. Moves j l.metrics k.metrics) z moves
        | inr (h, _) ↦ absurd (ground (arith, h))
      ]

  Tried-Fair :
      (size n k : ℕ) (l : Link) (r : Link × Ending)
      → Tried (send_payload replies loads 2 size n) k l r
      → TriedFair n l r
  Tried-Fair size n k l r (returned_now {l' = l'} e) =
      let (d, moves, how) = send_payload-Fair_at size n l l' (some returned) e in
      (d, moves, elim how [ inl z ↦ inl z | inr (_, h) ↦ inr (refl, h) ])
  Tried-Fair size n k l r (raised_other {l' = l'} e) =
      (0, send_payload-raised size n l l' false e, inl refl)
  Tried-Fair size n k l r (raised_last {l' = l'} e) =
      (0, send_payload-raised size n l l' true e, inl refl)
  Tried-Fair size n (suc k) l r (raised_again {l' = l'} e rest) =
      let (d, moves, how) = Tried-Fair size n k l' r rest in
      (
        d,
        Moves-after d l.metrics l'.metrics r.0.metrics (send_payload-raised size n l l' true e)
            moves,
        how,
      )

  gave_up-Moves :
      (size n : ℕ) (m m' : Metrics) → Moves 0 m m' → Moves n m (count_ending gave_up size n m')
  gave_up-Moves size n m m' h = Moves-after n m m' _ h (
      Moves-after n m' _ _ (dist-Moves "http.errors" 1 (codes "type:err" ∷ []) m' refl)
        (count_refused-Moves size n (dist "http.errors" 1 (codes "type:err" ∷ []) m')))

  count_ending-Dropped :
      (size n : ℕ) (l l' : Link) (how : Ending)
      → TriedFair n l (l', how)
      → Dropped n l.metrics (count_ending how size n l'.metrics)
  count_ending-Dropped size n l l' done (d, moves, inl z) = (d, omega (arith, z), moves)
  count_ending-Dropped size n l l' done (d, moves, inr (_, z)) = (d, omega (arith, z), moves)
  count_ending-Dropped size n l l' passed_on (d, moves, inl z) = (d, omega (arith, z), moves)
  count_ending-Dropped size n l l' passed_on (d, moves, inr (_, z)) = (d, omega (arith, z), moves)
  count_ending-Dropped size n l l' gave_up (d, moves, inl z) = (
    n,
    omega arith,
    gave_up-Moves size n l.metrics l'.metrics (subst (λ j. Moves j l.metrics l'.metrics) z moves),
  )
  count_ending-Dropped size n l l' gave_up (d, moves, inr (h, _)) = absurd (ground (arith, h))

  report-metrics : (size n : ℕ) (w : Writer) → (report size n w).link.metrics ≡ w.link.metrics
  report-metrics size n w = elim (Bool-cases w.report_metrics) [
    | inl e ↦ rw e refl
    | inr e ↦ rw e refl
  ]

  -- Sending drops no more than the traces that are sent.
  pub send_bytes-Dropped :
      (p : Packer) (retry : Retrying) (raise_exc : Bool) (bytes : List ℕ) (n : ℕ) (w : Writer)
      → IsRetrying retry
      → Dropped n w.link.metrics
          (send_bytes p retry replies loads raise_exc bytes n w).0.link.metrics
  unfolding send_bytes
  send_bytes-Dropped p retry raise_exc bytes n w is =
      let call = send_payload replies loads 2 (length bytes) n in
      let r = retry call w.link in
      let l' = record r.0 { metrics = count_ending r.1 (length bytes) n r.0.metrics } in
      rw (report-metrics (length bytes) n (record w { link = l' })) (
        count_ending-Dropped (length bytes) n w.link r.0 r.1 (
          Tried-Fair (length bytes) n 3 w.link r
            (is call (send_payload-Returns (length bytes) n) w.link)))
