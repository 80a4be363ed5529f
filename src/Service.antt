-- ===== src/Service.antt =====
-- ddtrace/internal/service.py: a service that is started and stopped. What a subclass does in
-- `_start_service` and `_stop_service` is a parameter: it changes the subclass's state, and fails
-- with `none`. The lock makes each call one step.
use dd_trace_py.Base.{ℕ, ◌+◌, ◌≡◌, arith, Bool, List, [], ◌∷◌, if◌then◌else◌}

pub data Status : Type 0 where
  stopped : Status
  running : Status

-- How a call ends: it returns, it raises ServiceStatusError, or the subclass raises.
pub data Outcome : Type 0 where
  done : Outcome
  status_error : Outcome
  failed : Outcome

pub record Service {ℓ} (S : Type ℓ) : Type ℓ where
  pub status : Status
  pub inner : S

module _ {ℓ} {S : Type ℓ} (start_service stop_service : S → S × Bool) where
  -- `start`
  unfoldable pub start : Service S → Service S × Outcome
  start s = elim s.status [
    | running ↦ (s, status_error)
    | stopped ↦
        let (inner, ok) = start_service s.inner in
        if ok
        then (record { status = running; inner = inner }, done)
        else (record { status = stopped; inner = inner }, failed)
  ]

  -- `stop`
  unfoldable pub stop : Service S → Service S × Outcome
  stop s = elim s.status [
    | stopped ↦ (s, status_error)
    | running ↦
        let (inner, ok) = stop_service s.inner in
        if ok
        then (record { status = stopped; inner = inner }, done)
        else (record { status = running; inner = inner }, failed)
  ]

  pub data Call : Type 0 where
    start_call : Call
    stop_call : Call

  abbrev pub call : Call → Service S → Service S × Outcome
  call start_call s = start s
  call stop_call s = stop s

  -- the calls, in order; an exception does not end the sequence
  abbrev pub run : List Call → Service S → Service S
  run [] s = s
  run (c ∷ calls) s = run calls (call c s).0

  -- a call that returned, counted for its kind
  abbrev counted : Outcome → ℕ
  counted done = 1
  counted status_error = 0
  counted failed = 0

  abbrev started_by : Call → Outcome → ℕ
  started_by start_call o = counted o
  started_by stop_call o = 0

  abbrev stopped_by : Call → Outcome → ℕ
  stopped_by start_call o = 0
  stopped_by stop_call o = counted o

  abbrev pub starts : List Call → Service S → ℕ
  starts [] s = 0
  starts (c ∷ calls) s = started_by c (call c s).1 + starts calls (call c s).0

  abbrev pub stops : List Call → Service S → ℕ
  stops [] s = 0
  stops (c ∷ calls) s = stopped_by c (call c s).1 + stops calls (call c s).0

  abbrev pub is_running : Status → ℕ
  is_running stopped = 0
  is_running running = 1

  call-counted :
      (c : Call) (s : Service S)
      → started_by c (call c s).1 + is_running s.status
        ≡ stopped_by c (call c s).1 + is_running (call c s).0.status
  unfolding start stop
  call-counted start_call s = ground arith
  call-counted stop_call s = ground arith

  -- Whatever calls are made and whichever of them raise: the calls of `start` and of `stop` that
  -- succeed alternate, and the status is that of the last of them. From a stopped service, the
  -- starts are as many as the stops, or one more exactly when the service is running.
  pub run-alternates :
      (calls : List Call) (s : Service S)
      → starts calls s + is_running s.status ≡ stops calls s + is_running (run calls s).status
  run-alternates [] s = omega arith
  run-alternates (c ∷ calls) s = omega (arith, call-counted c s, run-alternates calls (call c s).0)
