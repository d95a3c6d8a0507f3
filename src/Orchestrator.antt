-- ===== src/Orchestrator.antt =====
-- The orchestrator (internal/orchestrator/orchestrator.go, temporal.go). Temporal itself is a
-- parameter: whether an execution of a workflow id is open, and whether a request of it fails.
use booking_orchestration_se.Base.{ℕ, String, Bool, true, false, List, ◌∷◌, Option, none, some}
use booking_orchestration_se.Model.Booking.{Error, orchestrator_failed}
use booking_orchestration_se.World.{M, Reply, ok, err}

-- What the client answers to a request.
pub data StartAnswer : Type 0 where
  new_execution already_started start_error : StartAnswer

pub data SignalAnswer : Type 0 where
  delivered not_found signal_error : SignalAnswer

pub record Orchestrator : Type 0 where
  pub execute_workflow : List ℕ → ℕ → StartAnswer
  pub signal_workflow : List (ℕ × String) → ℕ → String → SignalAnswer

-- A duplicate start is success, and not a start.
unfoldable pub started_of : StartAnswer → Reply Bool
started_of new_execution = ok true
started_of already_started = ok false
started_of start_error = err orchestrator_failed

-- `StartBooking`, with the requests kept.
unfoldable pub start_booking : Orchestrator → ℕ → M (Reply Bool)
start_booking orch id w =
    (started_of (orch.execute_workflow w.starts id), record w { starts = id ∷ w.starts })

-- A missing execution is not an error.
unfoldable pub signalled_of : SignalAnswer → Option Error
signalled_of delivered = none
signalled_of not_found = none
signalled_of signal_error = some orchestrator_failed

-- `SignalOutcome`, with the signals kept.
unfoldable pub signal_outcome : Orchestrator → ℕ → String → M (Option Error)
signal_outcome orch id status w = (
  signalled_of (orch.signal_workflow w.signals id status),
  record w { signals = (id, status) ∷ w.signals },
)
