-- ===== src/Recorder.antt =====
-- ddtrace/profiling/recorder.py and ddtrace/profiling/scheduler.py: the events of a profile are
-- recorded by type, as many of each as its limit, and taken away by each export. An event is of any
-- type, and `kind` numbers its class. The lock makes each method one step.
pub mod Queues
pub mod Exports
use dd_trace_py.Base.{
  ℕ, ◌+◌, ◌-◌, Bool, true, false, Option, none, some, List, [], ◌∷◌, ◌++◌, if◌then◌else◌, length,
  ltb, nat_eq,
}
use dd_trace_py.Base.Dict.{Dict, lookup, insert}

pub record Recorder (A : Type 0) : Type 0 where
  pub default_max_events : ℕ
  pub max_events : Dict ℕ ℕ
  pub events : Dict ℕ (List A)
  -- `push_events` was replaced by `_push_events_noop`
  pub forked : Bool

abbrev or_default : ℕ → Option ℕ → ℕ
or_default d none = d
or_default d (some n) = n

-- the `maxlen` of `_get_deque_for_event_type`
abbrev pub limit : {A : Type 0} → ℕ → Recorder A → ℕ
limit k r = or_default r.default_max_events (lookup k r.max_events)

-- the last `n` elements: what a deque of that `maxlen` holds
abbrev pub last_of : {A : Type 0} → ℕ → List A → List A
last_of n [] = []
last_of n (x ∷ l) = let rest = last_of n l in if ltb n (length (x ∷ l)) then rest else x ∷ l

abbrev pub or_empty : {A : Type 0} → Option (List A) → List A
or_empty none = []
or_empty (some l) = l

-- `self.events[event_type]`: a missing key is an empty deque
abbrev pub queue : {A : Type 0} → ℕ → Recorder A → List A
queue k r = or_empty (lookup k r.events)

-- `_reset_events`
abbrev pub reset_events : {A : Type 0} → Recorder A → Recorder A
reset_events r = record r { events = [] }

-- `reset`
unfoldable pub reset : {A : Type 0} → Recorder A → Dict ℕ (List A) × Recorder A
reset r = (r.events, reset_events r)

-- `_after_fork`
abbrev pub after_fork : {A : Type 0} → Recorder A → Recorder A
after_fork r = record r { forked = true }

module _ {A : Type 0} (kind : A → ℕ) where
  -- `q.extend(events)` of the deque for the class of the first event
  abbrev pub extend : A → List A → Recorder A → Recorder A
  extend x events r = record r {
    events =
        insert (kind x) (last_of (limit (kind x) r) (queue (kind x) r ++ (x ∷ events))) r.events;
  }

  -- `push_events`
  unfoldable pub push_events : List A → Recorder A → Recorder A
  push_events [] r = r
  push_events (x ∷ events) r = if r.forked then r else extend x events r

  -- `push_event`
  abbrev pub push_event : A → Recorder A → Recorder A
  push_event x r = push_events (x ∷ []) r

pub record Scheduler (A : Type 0) : Type 0 where
  pub recorder : Recorder A
  pub exporters : ℕ
  pub last_export : ℕ
  pub configured_interval : ℕ
  pub interval : ℕ

-- What an exporter is given: the events, and the time from the last export to this one.
pub record Export (A : Type 0) : Type 0 where
  pub events : Dict ℕ (List A)
  pub start : ℕ
  pub stop : ℕ

-- `flush` at the time `now`, what each exporter is given; their exceptions and that of the hook
-- before the flush are logged
unfoldable pub flush : {A : Type 0} → ℕ → Scheduler A → Scheduler A × Option (Export A)
flush now s =
    let (events, r) = reset s.recorder in
    if ltb 0 s.exporters
    then (
      record s { recorder = r; last_export = now },
      some (record { events = events; start = s.last_export; stop = now }),
    )
    else (s, none)

-- `periodic`, which took `spent`: the next flush is due so much earlier, at once at the earliest
unfoldable pub periodic : {A : Type 0} → ℕ → ℕ → Scheduler A → Scheduler A × Option (Export A)
periodic now spent s =
    let (s', o) = flush now s in (record s' { interval = s.configured_interval - spent }, o)
