-- ===== src/Workflow/Apply.antt =====
-- The activity that persists an answer (internal/workflow/activity.go).
use Prim.Native.String.{◌++◌}
use booking_orchestration_se.Base.{
  ℕ, String, Bool, true, false, Option, none, some, if◌then◌else◌, is_empty,
}
use booking_orchestration_se.Model.Status.{
  Status, pending, unknown, confirmed, rejected, failed, status_eq,
}
use booking_orchestration_se.Model.Booking.{
  Booking, Event, no_event, Error, transition_conflict, attempt_superseded, bad_id, conflict,
  transition, supplier_request, supplier_response, supplier_timeout, EventType,
}
use booking_orchestration_se.Contract.{owned, Transition, plain}
use booking_orchestration_se.Supplier.Client.{Outcome, outcome_text}
use booking_orchestration_se.World.{M, ◌>>=◌, pure, Reply, ok, err}
use booking_orchestration_se.Repository.{
  Applied, get_by_id, apply_transition, clear_marker_of, append_refusal_to,
}
use booking_orchestration_se.Decimal.{decimal}
use booking_orchestration_se.Workflow.Activity.{
  Deps, Answer, AttemptOutcome, confirmed_outcome, rejected_outcome, ambiguous_outcome,
  not_sent_outcome, failed_outcome, settled_outcome, in_doubt, exit_outcome, budget_spent_outcome,
  AttemptResult, result_of,
}

-- `nonEmpty`.
abbrev pub non_empty : String → Option String
non_empty s = if is_empty s then none else some s

unfoldable pub superseded_answer_event : Deps → Answer → Status → Event
superseded_answer_event deps a status = record no_event {
  to_status = status;
  event_type = conflict;
  attempt = some a.attempt;
  request_id = deps.request_id;
  supplier_status_code = some (outcome_text a.outcome);
  supplier_reason = some (
      "attempt "
      ++ decimal a.attempt
      ++ " answered "
      ++ outcome_text a.outcome
      ++ " after the booking moved on");
  payload_digest = non_empty a.reference;
}

abbrev pub settled_result : ℕ → String → AttemptResult
settled_result n why = record { outcome = settled_outcome; attempt = n; reason = why }

abbrev pub recorded : Answer → Option Error → Reply AttemptResult
recorded a none = ok (settled_result a.attempt "superseded")
recorded a (some e) = err e

-- `superseded`, after its read.
unfoldable pub superseded_loaded : Deps → ℕ → Answer → Reply Booking → M (Reply AttemptResult)
superseded_loaded deps id a (err e) = pure (err e)
superseded_loaded deps id a (ok b) =
    append_refusal_to id (superseded_answer_event deps a b.status) >>= λ e. pure (recorded a e)

unfoldable pub superseded : Deps → ℕ → Answer → M (Reply AttemptResult)
superseded deps id a = get_by_id id >>= superseded_loaded deps id a

-- The transition of `settle`.
unfoldable pub settle_transition :
    Deps → Answer → Status → Option String → Option String → Transition
settle_transition deps a to reference why = record (plain a.from to owned supplier_response) {
  attempt = some a.attempt;
  supplier_reference = reference;
  failure_reason = why;
  clear_recovery_flag = true;
  request_id = deps.request_id;
  supplier_status_code = some (outcome_text a.outcome);
}

abbrev pub settle_outcome : Status → AttemptOutcome
settle_outcome to = if status_eq to rejected then rejected_outcome else confirmed_outcome

unfoldable pub settle_applied : Deps → ℕ → Answer → Status → Applied → M (Reply AttemptResult)
settle_applied deps id a to (s, none) = pure (ok (result_of (settle_outcome to) a))
settle_applied deps id a to (s, some attempt_superseded) = pure (ok (settled_result 0 "superseded"))
settle_applied deps id a to (s, some transition_conflict) = superseded deps id a
settle_applied deps id a to (s, some e) = pure (err e)

unfoldable pub settle :
    Deps → ℕ → Answer → Status → Option String → Option String → M (Reply AttemptResult)
settle deps id a to reference why =
    apply_transition id (settle_transition deps a to reference why) >>= settle_applied deps id a to

-- What follows `ClearMarker`: an attempt that no longer owns the marker was overridden.
unfoldable pub cleared : Deps → ℕ → Answer → AttemptOutcome → Reply Bool → M (Reply AttemptResult)
cleared deps id a o (err e) = pure (err e)
cleared deps id a o (ok true) = pure (ok (result_of o a))
cleared deps id a o (ok false) = superseded deps id a

unfoldable pub clear_event : Deps → Answer → EventType → Event
clear_event deps a kind = record no_event {
  event_type = kind;
  request_id = deps.request_id;
  supplier_reason = some a.reason;
}

unfoldable pub end_attempt :
    Deps → ℕ → Answer → EventType → AttemptOutcome → M (Reply AttemptResult)
end_attempt deps id a kind o =
    clear_marker_of id a.attempt (clear_event deps a kind) >>= cleared deps id a o

-- A transition that another one may overtake: that it lost is no failure.
abbrev pub tolerated : Answer → AttemptOutcome → Applied → Reply AttemptResult
tolerated a o (s, none) = ok (result_of o a)
tolerated a o (s, some transition_conflict) = ok (result_of o a)
tolerated a o (s, some attempt_superseded) = ok (result_of o a)
tolerated a o (s, some e) = err e

unfoldable pub doubt_transition : Deps → Answer → Transition
doubt_transition deps a = record (plain pending unknown owned supplier_timeout) {
  attempt = some a.attempt;
  request_id = deps.request_id;
  supplier_reason = some a.reason;
}

-- `ambiguous`: from UNKNOWN only the marker is cleared.
unfoldable pub ambiguous : Deps → ℕ → Answer → M (Reply AttemptResult)
ambiguous deps id a =
    if status_eq a.from unknown
    then end_attempt deps id a supplier_timeout ambiguous_outcome
    else (apply_transition id (doubt_transition deps a) >>= λ r.
        pure (tolerated a ambiguous_outcome r))

unfoldable pub build_failed_transition : Deps → Answer → Transition
build_failed_transition deps a = record (plain pending failed owned transition) {
  attempt = some a.attempt;
  failure_reason = some "request_build_failed";
  request_id = deps.request_id;
  supplier_reason = some a.reason;
}

-- `preSendFailure`: doubt that an earlier attempt created outranks our own failure.
unfoldable pub pre_send_failure : Deps → ℕ → Answer → M (Reply AttemptResult)
pre_send_failure deps id a =
    if status_eq a.from unknown
    then end_attempt deps id a transition in_doubt
    else (apply_transition id (build_failed_transition deps a) >>= λ r.
        pure (tolerated a failed_outcome r))

abbrev pub plain_result : AttemptOutcome → String → AttemptResult
plain_result o why = record { outcome = o; attempt = 0; reason = why }

-- `apply`.
unfoldable pub apply_outcome : Outcome → Deps → ℕ → Answer → M (Reply AttemptResult)
apply_outcome Outcome.already_settled deps id a = pure (ok (plain_result settled_outcome ""))
apply_outcome Outcome.outstanding deps id a =
    pure (ok (plain_result exit_outcome "another attempt is outstanding"))
apply_outcome Outcome.budget_spent deps id a =
    pure (ok (plain_result budget_spent_outcome "attempt budget exhausted"))
apply_outcome Outcome.confirmed deps id a = settle deps id a confirmed (non_empty a.reference) none
apply_outcome Outcome.rejected deps id a = settle deps id a rejected none (some a.reason)
apply_outcome Outcome.not_sent deps id a = end_attempt deps id a supplier_request not_sent_outcome
apply_outcome Outcome.pre_send_failure deps id a = pre_send_failure deps id a
apply_outcome Outcome.ambiguous deps id a = ambiguous deps id a

unfoldable pub apply_parsed : Deps → Answer → Option ℕ → M (Reply AttemptResult)
apply_parsed deps a none = pure (err bad_id)
apply_parsed deps a (some id) = apply_outcome a.outcome deps id a

-- `Activities.Apply`.
unfoldable pub apply_answer : Deps → String → Answer → M (Reply AttemptResult)
apply_answer deps booking_id a = apply_parsed deps a (deps.parse_uuid booking_id)
