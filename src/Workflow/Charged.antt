-- ===== src/Workflow/Charged.antt =====
-- An attempt makes its call to the supplier only after its row counts it.
use booking_orchestration_se.Repository.Refines.{authorize_attempt-Refines}
use booking_orchestration_se.Supplier.Client.{BookRequest}
use booking_orchestration_se.Base.{
  ℕ, ◌+◌, ◌≤◌, ◌≡◌, refl, arith, String, Option, none, some, Option-cases, inl, inr, ◌∷◌,
}
use booking_orchestration_se.Model.Booking.{Booking, transition_conflict}
use booking_orchestration_se.Store.Table.{Db, find}
use booking_orchestration_se.Store.Rows.{authorize_row}
use booking_orchestration_se.Store.Steps.{row_after}
use booking_orchestration_se.Store.Effect.{find-on_row, authorize_locked-IsStep}
use booking_orchestration_se.Store.Statement.{authorize, exec, authorize_locked}
use booking_orchestration_se.World.{
  World, Fate, answered, refused, lost, ◌>>=◌, pure, sql, exec_all, next_turn, answer_of, committed,
}
use booking_orchestration_se.World.Charge.{attempts_of, calls_for, IsCharged, exec_all-taken, taken}
use booking_orchestration_se.World.Refines.{IsFair, others-IsIssued, Refines}
use booking_orchestration_se.Repository.Attempts.{
  Authorized, authorize_attempt, authorize_answer, authorize_found, authorized,
}
use booking_orchestration_se.Workflow.Activity.{Deps}
use booking_orchestration_se.Workflow.Attempt.{book, attempt_authorized, request_of}

module _ (id m : ℕ) (key : String) (request_id : Option String) where
  granted_row :
      (db : Db) (b : Booking)
      → (authorize_found db m key b).1 ≡ none
      → (row_after (authorize_locked db m key request_id b) b).supplier_attempts
        ≡ b.supplier_attempts + 1
  unfolding authorize_found authorize_row
  granted_row db b h = ground arith

  -- An authorization that is granted counts one attempt.
  granted_counts :
      (db : Db)
      → (authorize_answer id m key db).1 ≡ none
      → attempts_of id (exec (authorize id m key request_id) db) ≡ attempts_of id db + 1
  unfolding exec attempts_of authorize_answer
  granted_counts db h = elim (Option-cases (find id db.bookings)) [
    | inl missing ↦ ground (arith, missing, h)
    | inr (b, found) ↦
        let granted = granted_row db b (rw (found, authorize_answer) at h) in
        ground (
          arith,
          granted,
          found,
          find-on_row id id (authorize_locked db m key request_id) db
              (authorize_locked-IsStep db m key request_id),
        )
  ]

  module _ (budget : ℕ) where
    committed-counts :
        (f : Fate) (db : Db)
        → (authorized (answer_of f (authorize_answer id m key db))).1 ≡ none
        → attempts_of id (committed f (authorize id m key request_id) db) ≡ attempts_of id db + 1
    committed-counts answered db h = granted_counts db h
    committed-counts refused db h = cc
    committed-counts lost db h = cc

    authorized-counts :
        (w : World)
        → IsFair budget w.schedule
        → (authorize_attempt id m key request_id w).0.1 ≡ none
        → attempts_of id w.db + taken id (authorize_attempt id m key request_id w).1.elsewhere + 1
          ≤ attempts_of id (authorize_attempt id m key request_id w).1.db + taken id w.elsewhere
    unfolding authorize_attempt ◌>>=◌ pure sql
    authorized-counts w fair h =
        let t = next_turn w.schedule in
        let found = exec_all t.others w.db in
        let others =
          exec_all-taken budget id t.others w.db w.elsewhere
            (others-IsIssued budget w.schedule fair) in
        let counted = committed-counts t.fate found h in omega (arith, others, counted)

    authorized-calls : (w : World) → (authorize_attempt id m key request_id w).1.calls ≡ w.calls
    unfolding authorize_attempt ◌>>=◌ pure sql
    authorized-calls w = refl

-- The call that follows an authorization is the one that the row counts.
module _ (budget : ℕ) (deps : Deps) (booking_id : String) (id : ℕ)
    (parsed : deps.parse_uuid booking_id ≡ some id) where
  booked-IsCharged :
      (w w' : World) (c : BookRequest)
      → c.booking_id ≡ booking_id
      → attempts_of id w.db + taken id w'.elsewhere + 1
        ≤ attempts_of id w'.db + taken id w.elsewhere
      → w'.calls ≡ w.calls
      → IsCharged deps.parse_uuid w w'
      → IsCharged deps.parse_uuid w (record w' { calls = c ∷ w'.calls })
  unfolding calls_for
  booked-IsCharged w w' c sent counted same charged k =
      rw (sent, parsed) (ground (arith, counted, same, charged k))

  -- What follows an authorization that was tried in `w` and answered `a` in `w'`.
  answered-IsCharged :
      (a : Authorized) (b : Booking) (w w' : World)
      → (a.1 ≡ none
          → attempts_of id w.db + taken id w'.elsewhere + 1
            ≤ attempts_of id w'.db + taken id w.elsewhere)
      → w'.calls ≡ w.calls
      → IsCharged deps.parse_uuid w w'
      → IsCharged deps.parse_uuid w (attempt_authorized deps booking_id b a w').1
  unfolding attempt_authorized ◌>>=◌ pure book request_of
  answered-IsCharged (auth, none) b w w' counts same charged =
      booked-IsCharged w w' (request_of booking_id b) refl (counts refl) same charged
  answered-IsCharged (auth, some transition_conflict) b w w' counts same charged = charged
  answered-IsCharged (auth, some e) b w w' counts same charged = charged

  answered-db :
      (a : Authorized) (b : Booking) (w : World)
      → ((attempt_authorized deps booking_id b a w).1.db ≡ w.db)
        × ((attempt_authorized deps booking_id b a w).1.schedule ≡ w.schedule)
  unfolding attempt_authorized ◌>>=◌ pure book request_of
  answered-db (auth, none) b w = (refl, refl)
  answered-db (auth, some transition_conflict) b w = (refl, refl)
  answered-db (auth, some e) b w = (refl, refl)

  pub authorized_call-Refines :
      (m : ℕ) (key : String) (b : Booking)
      → m ≤ budget
      → Refines budget deps.parse_uuid
          (authorize_attempt id m key deps.request_id >>= attempt_authorized deps booking_id b)
  unfolding ◌>>=◌
  authorized_call-Refines m key b h = record {
    runs = λ w fair.
        let tried = authorize_attempt id m key deps.request_id w in
        let first =
          (authorize_attempt-Refines budget deps.parse_uuid id m key deps.request_id h).runs w
            fair in
        let kept = answered-db tried.0 b tried.1 in
        (
          rw kept.0 first.0,
          rw kept.1 first.1,
          answered-IsCharged tried.0 b w tried.1
              (authorized-counts id m key deps.request_id budget w fair)
              (authorized-calls id m key deps.request_id budget w) first.2,
        );
  }
