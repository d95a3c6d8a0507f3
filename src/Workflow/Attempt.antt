-- ===== src/Workflow/Attempt.antt =====
-- The activity that authorizes one supplier call and makes it (internal/workflow/activity.go).
use booking_orchestration_se.Base.{ℕ, zero, suc, String, Option, none, some, ◌∷◌}
use booking_orchestration_se.Model.Status.{settled}
use booking_orchestration_se.Model.Booking.{
  Booking, booking_not_found, transition_conflict, database, bad_id,
}
use booking_orchestration_se.Contract.{
  granted, budget_spent, attempt_outstanding, already_settled, Authorization,
}
use booking_orchestration_se.Base.{if◌then◌else◌}
use booking_orchestration_se.Supplier.Client.{Outcome, BookRequest, Result, Client, idempotency_key}
use booking_orchestration_se.Store.Rows.{sent_status}
use booking_orchestration_se.World.{M, ◌>>=◌, pure, Reply, ok, err}
use booking_orchestration_se.Repository.{get_by_id, no_status}
use booking_orchestration_se.Repository.Attempts.{Authorized, authorize_attempt}
use booking_orchestration_se.Workflow.Activity.{Deps, Answer, unsent}

-- `readBeforeAuthorizing` with `left` reads after this one. The backoff between two reads, which a
-- cancelled context cuts short, is left out.
unfoldable pub read_again : M (Reply Booking) → ℕ → Reply Booking → M (Reply Booking)
read_again again left (ok b) = pure (ok b)
read_again again left (err booking_not_found) = pure (err booking_not_found)
read_again again zero (err e) = pure (err e)
read_again again (suc left) (err e) = again

unfoldable pub read_before : ℕ → ℕ → M (Reply Booking)
read_before zero id = get_by_id id >>= read_again (pure (err database)) zero
read_before (suc left) id = get_by_id id >>= read_again (read_before left id) (suc left)

-- `preAuthorizeReads - 1`.
abbrev pub reads_left : ℕ
reads_left = 2

-- `supplier.Client.Book`, kept in the record of calls.
unfoldable pub book : Client → BookRequest → M Result
book client request w = (client w.calls request, record w { calls = request ∷ w.calls })

unfoldable pub request_of : String → Booking → BookRequest
request_of booking_id b = record {
  booking_id = booking_id;
  idempotency_key = idempotency_key booking_id;
  property_id = b.property_id;
  room_type_id = b.room_type_id;
  check_in = b.check_in;
  check_out = b.check_out;
  guest_first_name = b.guest_first_name;
  guest_last_name = b.guest_last_name;
}

-- Authorization moves the first attempt out of RECEIVED and leaves every later one where it was.
unfoldable pub answer_from : Authorization → Result → Answer
answer_from auth result = record {
  outcome = result.outcome;
  reference = result.reference;
  reason = result.reason;
  attempt = auth.attempt;
  from = sent_status auth.previous;
}

-- Which of the three refusals it was.
unfoldable pub refused_answer : Authorization → Answer
refused_answer auth = elim auth.refusal [
  | already_settled ↦ unsent Outcome.already_settled no_status
  | budget_spent ↦ unsent Outcome.budget_spent auth.previous
  | attempt_outstanding ↦ unsent Outcome.outstanding auth.previous
  | granted ↦ unsent Outcome.outstanding auth.previous
]

unfoldable pub attempt_authorized : Deps → String → Booking → Authorized → M (Reply Answer)
attempt_authorized deps booking_id b (auth, none) =
    book deps.client (request_of booking_id b) >>= λ result. pure (ok (answer_from auth result))
attempt_authorized deps booking_id b (auth, some transition_conflict) =
    pure (ok (refused_answer auth))
attempt_authorized deps booking_id b (auth, some e) = pure (err e)

unfoldable pub attempt_loaded : Deps → String → ℕ → ℕ → Reply Booking → M (Reply Answer)
attempt_loaded deps booking_id budget id (err e) = pure (err e)
attempt_loaded deps booking_id budget id (ok b) =
    if settled b.status
    then pure (ok (unsent Outcome.already_settled no_status))
    else (authorize_attempt id budget (idempotency_key booking_id) deps.request_id
        >>= attempt_authorized deps booking_id b)

unfoldable pub attempt_parsed : Deps → String → ℕ → Option ℕ → M (Reply Answer)
attempt_parsed deps booking_id budget none = pure (err bad_id)
attempt_parsed deps booking_id budget (some id) =
    read_before reads_left id >>= attempt_loaded deps booking_id budget id

-- `Activities.Attempt`.
unfoldable pub attempt : Deps → String → ℕ → M (Reply Answer)
attempt deps booking_id budget = attempt_parsed deps booking_id budget (deps.parse_uuid booking_id)
