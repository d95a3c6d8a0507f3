-- ===== src/Workflow/Activity.antt =====
-- The activities (internal/workflow/activity.go), each a handler over the repository and the
-- supplier's client. Logging is left out, and with it the latency of an answer.
use booking_orchestration_se.Base.{ℕ, String, Option, none, some}
use booking_orchestration_se.Model.Status.{Status, status_text}
use booking_orchestration_se.Model.Booking.{Booking, bad_id}
use booking_orchestration_se.Supplier.Client.{Outcome, Client}
use booking_orchestration_se.World.{M, ◌>>=◌, pure, Reply, ok, err}
use booking_orchestration_se.Repository.{get_by_id}
use booking_orchestration_se.Repository.Attempts.{resolve_stale_marker}

-- What an activity runs with: `uuid.Parse`, the supplier's client, and the request id of its
-- context.
pub record Deps : Type 0 where
  pub parse_uuid : String → Option ℕ
  pub client : Client
  pub request_id : Option String

pub record Answer : Type 0 where
  pub outcome : Outcome
  pub reference : String
  pub reason : String
  pub attempt : ℕ
  pub from : Status

-- An `Answer{Outcome, From}` literal.
abbrev pub unsent : Outcome → Status → Answer
unsent o from = record { outcome = o; reference = ""; reason = ""; attempt = 0; from = from }

pub data AttemptOutcome : Type 0 where
  confirmed_outcome rejected_outcome ambiguous_outcome not_sent_outcome failed_outcome :
      AttemptOutcome
  settled_outcome in_doubt exit_outcome budget_spent_outcome : AttemptOutcome

pub record AttemptResult : Type 0 where
  pub outcome : AttemptOutcome
  pub attempt : ℕ
  pub reason : String

abbrev pub result_of : AttemptOutcome → Answer → AttemptResult
result_of o a = record { outcome = o; attempt = a.attempt; reason = a.reason }

-- `Activities.Dispatch`.
dispatch_loaded : Reply Booking → Reply String
dispatch_loaded (err e) = err e
dispatch_loaded (ok b) = ok (status_text b.status)

unfoldable pub dispatch_resolved : ℕ → Reply (Option ℕ) → M (Reply String)
unfolding dispatch_loaded
dispatch_resolved id (err e) = pure (err e)
dispatch_resolved id (ok attempt) = get_by_id id >>= λ r. pure (dispatch_loaded r)

unfoldable pub dispatch_parsed : Deps → Option ℕ → M (Reply String)
dispatch_parsed deps none = pure (err bad_id)
dispatch_parsed deps (some id) = resolve_stale_marker id deps.request_id >>= dispatch_resolved id

unfoldable pub dispatch : Deps → String → M (Reply String)
dispatch deps booking_id = dispatch_parsed deps (deps.parse_uuid booking_id)
