-- ===== src/Writer/Sending.antt =====
-- ddtrace/internal/writer.py: one payload is sent to the agent. The agent is a parameter: the
-- reply to each request, by its number. `loads` is the JSON parser: the value of `rate_by_service`
-- in the object that it finds, if any; its outer `none` is a ValueError or a TypeError.
use dd_trace_py.Base.{
  ℕ, zero, suc, ◌+◌, Bool, true, false, ◌||◌, ◌&&◌, Option, none, some, List, [], ◌∷◌, ◌++◌, nat_eq,
  ◌==◌, if◌then◌else◌, leb,
}
use dd_trace_py.Base.Text.{Text, codes}
use dd_trace_py.Base.Decimal.{show_nat}
use dd_trace_py.Sampler.{Given, ByServiceSampler, DatadogSampler, update_rates, update_datadog}
use dd_trace_py.Writer.Counts.{Metrics, dist}

pub data Endpoint : Type 0 where
  v04 : Endpoint
  v03 : Endpoint

-- What `_put` gives: a response, or an exception, of the types that are tried again or not.
pub data Reply : Type 0 where
  response : ℕ → Text → Reply
  exception : Bool → Reply

-- A sampler as the writer knows it: only the first two are a BasePrioritySampler.
pub data AnySampler : Type 0 where
  priority_by_service : ByServiceSampler → AnySampler
  priority_datadog : DatadogSampler → AnySampler
  other_sampler : AnySampler
  no_sampler : AnySampler

abbrev pub is_priority : AnySampler → Bool
is_priority (priority_by_service s) = true
is_priority (priority_datadog s) = true
is_priority other_sampler = false
is_priority no_sampler = false

abbrev Rates : Type 0
Rates = List (Text × Given)

-- the call of `update_rate_by_service_sample_rates`; the Boolean is false for a ValueError
abbrev pub update_sampler : Rates → AnySampler → AnySampler × Bool
update_sampler rates (priority_by_service s) =
    let (s', done) = update_rates rates s in (priority_by_service s', done)
update_sampler rates (priority_datadog s) =
    let (s', done) = update_datadog rates s in (priority_datadog s', done)
update_sampler rates other_sampler = (other_sampler, true)
update_sampler rates no_sampler = (no_sampler, true)

-- What sending reads and changes; `requests` numbers the requests so far.
pub record Link : Type 0 where
  pub endpoint : Endpoint
  pub metrics : Metrics
  pub sampler : AnySampler
  pub priority_sampler : AnySampler
  pub requests : ℕ

-- `_send_payload` returns or raises what `_put` raises.
pub data Sent : Type 0 where
  returned : Sent
  raised : Bool → Sent

abbrev starts_with_ok : Text → Bool
starts_with_ok [] = false
starts_with_ok (c ∷ []) = false
starts_with_ok (c ∷ d ∷ t) = (c == 79) && (d == 75)

abbrev pub is_unsupported : ℕ → Bool
is_unsupported status = (status == 404) || (status == 415)

-- the counts of a response
abbrev pub count_response : ℕ → ℕ → Metrics → Metrics
count_response status size m =
    if leb 400 status
    then dist "http.errors" 1 ((codes "type:" ++ show_nat status) ∷ []) m
    else dist "http.sent.bytes" size [] m

-- the counts of a payload that the agent refused
abbrev pub count_refused : ℕ → ℕ → Metrics → Metrics
count_refused size n m = dist "http.dropped.traces" n [] (dist "http.dropped.bytes" size [] m)

module _ (replies : ℕ → Reply) (loads : Text → Option (Option (List (Text × Given)))) where
  abbrev or_nothing : Option (Option (List (Text × Given))) → Option (List (Text × Given))
  or_nothing none = none
  or_nothing (some o) = o

  -- `get_json`, and the rates in it
  unfoldable pub get_json : Text → Option (List (Text × Given))
  get_json [] = none
  get_json (c ∷ body) = if starts_with_ok (c ∷ body) then none else or_nothing (loads (c ∷ body))

  -- both samplers, the second only if the first did not raise
  abbrev update_both : List (Text × Given) → Link → Link
  update_both rates l =
      let (p, fine) = update_sampler rates l.priority_sampler in
      let (s, _) = update_sampler rates l.sampler in
      record l { priority_sampler = p; sampler = if fine then s else l.sampler }

  -- the rates of a response, if a sampler wants them
  unfoldable pub read_rates : Text → Link → Link
  read_rates body l =
      if is_priority l.priority_sampler || is_priority l.sampler
      then elim (get_json body) [ none ↦ l | some rates ↦ update_both rates l ]
      else l

  -- `_downgrade`, and the call after it or the end after its ValueError
  abbrev pub downgrade : (Link → Link × Option Sent) → Endpoint → Link → Link × Option Sent
  downgrade again v04 l = again (record l { endpoint = v03 })
  downgrade again v03 l = (l, some returned)

  -- what follows a response; `again` is the call of `_send_payload` after a downgrade
  unfoldable pub after_response :
      (Link → Link × Option Sent) → ℕ → ℕ → ℕ → Text → Link → Link × Option Sent
  after_response again size n status body l =
      if is_unsupported status
      then downgrade again l.endpoint l
      else if leb 400 status
      then (record l { metrics = count_refused size n l.metrics }, some returned)
      else (read_rates body l, some returned)

  -- what follows a request
  abbrev pub on_reply : (Link → Link × Option Sent) → ℕ → ℕ → Reply → Link → Link × Option Sent
  on_reply again size n (exception retried) l = (l, some (raised retried))
  on_reply again size n (response status body) l =
      after_response again size n status body
        (record l { metrics = count_response status size l.metrics })

  -- `_send_payload` of `size` bytes with `n` traces; `none` means that the fuel ran out
  unfoldable pub send_payload : ℕ → ℕ → ℕ → Link → Link × Option Sent
  send_payload zero size n l = (l, none)
  send_payload (suc fuel) size n l =
      on_reply (send_payload fuel size n) size n (replies l.requests)
        (record l { metrics = dist "http.requests" 1 [] l.metrics; requests = l.requests + 1 })
