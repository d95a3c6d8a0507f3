-- ===== src/Quiet/Attempt.antt =====
-- The activity `attempt` in a quiet world.
use booking_orchestration_se.Base.{
  ℕ, ◌+◌, ◌≤◌, ◌≡◌, refl, true, false, none, some, String, List, ◌∷◌, arith,
}
use booking_orchestration_se.Model.Status.{Status, is_open, settled}
use booking_orchestration_se.Model.Booking.{Booking}
use booking_orchestration_se.Contract.{Authorization, granted, budget_spent}
use booking_orchestration_se.Supplier.Client.{Outcome, BookRequest, idempotency_key}
use booking_orchestration_se.Store.Table.{Db, find}
use booking_orchestration_se.Store.Rows.{authorizable, authorize_row}
use booking_orchestration_se.Store.Statement.{
  authorize, exec, on_row, clashes, authorize_locked, authorized_key,
}
use booking_orchestration_se.Store.Steps.{row_after, authorize_row-IsStep}
use booking_orchestration_se.World.{◌>>=◌, pure, sql, ok}
use booking_orchestration_se.Repository.{get_by_id}
use booking_orchestration_se.Repository.Attempts.{
  authorize_attempt, authorize_answer, authorize_found, refusal_of,
}
use booking_orchestration_se.Workflow.Activity.{Deps, unsent}
use booking_orchestration_se.Workflow.Attempt.{
  read_again, read_before, book, request_of, answer_from, refused_answer, attempt_authorized,
  attempt_loaded, attempt_parsed, attempt,
}
use booking_orchestration_se.Quiet.Sql.{quiet, At, on_row-At}

-- The row that an authorization leaves.
abbrev pub sent_row : ℕ → Deps → ℕ → String → Booking → Booking
sent_row now deps m key b = row_after (authorize_row now m key deps.request_id b) b

abbrev pub granted_for : Booking → Authorization
granted_for b = record { attempt = b.supplier_attempts + 1; previous = b.status; refusal = granted }

-- Only an open booking is authorized, and none where the budget is spent.
authorizable-open : (m : ℕ) (b : Booking) → authorizable m b ≡ true → settled b.status ≡ false
unfolding authorizable
authorizable-open m b h = ground arith

authorizable-spent : (m : ℕ) (b : Booking) → m ≤ b.supplier_attempts → authorizable m b ≡ false
unfolding authorizable
authorizable-spent m b h = ground arith

open-not-settled : (s : Status) → is_open s ≡ true → settled s ≡ false
open-not-settled s h = ground arith

refusal_of-spent :
    (m : ℕ) (b : Booking)
    → is_open b.status ≡ true
    → b.in_flight_attempt ≡ none
    → m ≤ b.supplier_attempts
    → refusal_of m b ≡ budget_spent
unfolding refusal_of
refusal_of-spent m b o free spent = ground arith

authorized_key-sent :
    (now m : ℕ) (deps : Deps) (key : String) (b : Booking)
    → authorized_key key (sent_row now deps m key b) ≡ authorized_key key b
unfolding authorize_row
authorized_key-sent now m deps key b = ground arith

module _ (deps : Deps) (text : String) (id m : ℕ) (db : Db) (b : Booking)
    (h : At db id (idempotency_key text) b) where
  clashes_not : clashes db m (idempotency_key text) b ≡ false
  unfolding clashes
  clashes_not = ground (arith, h.free, h.named)

  pub authorize-At :
      At
        (exec (authorize id m (idempotency_key text) deps.request_id) db)
        id
        (idempotency_key text)
        (sent_row db.now deps m (idempotency_key text) b)
  unfolding exec
  authorize-At =
      let free : authorize_locked db m (idempotency_key text) deps.request_id b
          ≡ authorize_row db.now m (idempotency_key text) deps.request_id b =
        rw clashes_not refl in
      rw free at (
        on_row-At db id (idempotency_key text) b
          (authorize_locked db m (idempotency_key text) deps.request_id) h
          (rw free (authorize_row-IsStep db.now b m (idempotency_key text) deps.request_id))
          (rw free (authorized_key-sent db.now m deps (idempotency_key text) b)))

  spent_exec :
      authorizable m b ≡ false
      → exec (authorize id m (idempotency_key text) deps.request_id) db ≡ db
  unfolding exec on_row authorize_row
  spent_exec not_may = rw (h.found, exec, on_row) (rw (clashes_not, not_may) refl)

  module _ (parsed : deps.parse_uuid text ≡ some id) (calls : List BookRequest) (starts : List ℕ)
      (signals : List (ℕ × String)) (waits : List ℕ) where
    authorize_attempt-quiet :
        authorize_attempt id m
          (idempotency_key text)
          deps.request_id
          (quiet db calls starts signals waits)
        ≡ (
          authorize_found db m (idempotency_key text) b,
          quiet
              (exec (authorize id m (idempotency_key text) deps.request_id) db)
              calls
              starts
              signals
              waits,
        )
    unfolding authorize_attempt ◌>>=◌ pure sql authorize_answer find exec authorize_found
    authorize_attempt-quiet = rw h.found

    attempt_open :
        settled b.status ≡ false
        → attempt deps text m (quiet db calls starts signals waits)
          ≡ attempt_authorized deps text b (authorize_found db m (idempotency_key text) b) (
              quiet
                (exec (authorize id m (idempotency_key text) deps.request_id) db)
                calls
                starts
                signals
                waits)
    unfolding attempt attempt_parsed read_before read_again attempt_loaded ◌>>=◌ pure sql get_by_id
        exec
    attempt_open not_settled = rw (parsed, h.found, not_settled, authorize_attempt-quiet)

    -- A booking that may be sent is sent, once.
    pub attempt_sends :
        authorizable m b ≡ true
        → attempt deps text m (quiet db calls starts signals waits) ≡ (
          ok (answer_from (granted_for b) (deps.client calls (request_of text b))),
          quiet
              (exec (authorize id m (idempotency_key text) deps.request_id) db)
              (request_of text b ∷ calls)
              starts
              signals
              waits,
        )
    unfolding attempt_authorized book authorize_found ◌>>=◌ pure
    attempt_sends may = rw (attempt_open (authorizable-open m b may)) (rw (clashes_not, may) refl)

    -- With nothing outstanding and the budget spent, nothing is sent.
    pub attempt_spent :
        is_open b.status ≡ true
        → b.in_flight_attempt ≡ none
        → m ≤ b.supplier_attempts
        → attempt deps text m (quiet db calls starts signals waits)
          ≡ (ok (unsent Outcome.budget_spent b.status), quiet db calls starts signals waits)
    unfolding attempt_authorized authorize_found pure refused_answer
    attempt_spent o free spent = rw (attempt_open (open-not-settled b.status o)) (
        rw
          (
            clashes_not,
            authorizable-spent m b spent,
            spent_exec (authorizable-spent m b spent),
            refusal_of-spent m b o free spent,
          )
          refl)
