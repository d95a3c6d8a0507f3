-- ===== src/Repository/Attempts.antt =====
-- Attempts and recovery (internal/repository/booking/authorize.go).
use booking_orchestration_se.Base.{
  ℕ, ◌+◌, String, Bool, true, false, not, Option, none, some, is_some, ltb, if◌then◌else◌,
}
use booking_orchestration_se.Model.Status.{settled}
use booking_orchestration_se.Model.Booking.{
  Booking, Error, booking_not_found, transition_conflict, database,
}
use booking_orchestration_se.Contract.{
  Refusal, granted, budget_spent, attempt_outstanding, already_settled, Authorization,
}
use booking_orchestration_se.Store.Table.{Db, find}
use booking_orchestration_se.Store.Rows.{authorizable, resolvable, parkable}
use booking_orchestration_se.Store.Statement.{select, authorize, resolve_stale, park, flag, clashes}
use booking_orchestration_se.World.{M, ◌>>=◌, pure, sql, Reply}
use booking_orchestration_se.Repository.{no_status, or_database}

-- `ResolveStaleMarker`: the attempt that was abandoned, if one was.
unfoldable pub stale_attempt : ℕ → Db → Option ℕ
stale_attempt id db = elim (find id db.bookings) [
  | none ↦ none
  | some b ↦ if resolvable b then b.in_flight_attempt else none
]

unfoldable pub resolve_stale_marker : ℕ → Option String → M (Reply (Option ℕ))
resolve_stale_marker id request_id = do
  r ← sql (resolve_stale id request_id) (stale_attempt id)
  pure (or_database r)

-- Why a row that the UPDATE did not match was not authorized. An attempt that is outstanding comes
-- before a budget that is spent.
unfoldable pub refusal_of : ℕ → Booking → Refusal
refusal_of max_attempts b =
    if settled b.status
    then already_settled
    else if is_some b.in_flight_attempt
    then attempt_outstanding
    else if ltb b.supplier_attempts max_attempts
    then already_settled
    else budget_spent

abbrev pub Authorized : Type 0
Authorized = Authorization × Option Error

abbrev pub no_authorization : Authorization
no_authorization = record { attempt = 0; previous = no_status; refusal = granted }

-- What the statement's answer comes to, on the row that it locked.
unfoldable pub authorize_found : Db → ℕ → String → Booking → Authorized
unfolding refusal_of
authorize_found db max_attempts key b =
    if clashes db max_attempts key b
    then (no_authorization, some database)
    else if authorizable max_attempts b
    then (
      record { attempt = b.supplier_attempts + 1; previous = b.status; refusal = granted },
      none,
    )
    else (
      record { attempt = 0; previous = b.status; refusal = refusal_of max_attempts b },
      some transition_conflict,
    )

unfoldable pub authorize_answer : ℕ → ℕ → String → Db → Authorized
authorize_answer id max_attempts key db = elim (find id db.bookings) [
  | none ↦ (no_authorization, some booking_not_found)
  | some b ↦ authorize_found db max_attempts key b
]

abbrev pub authorized : Option Authorized → Authorized
authorized none = (no_authorization, some database)
authorized (some a) = a

-- `Repo.Authorize`.
unfoldable pub authorize_attempt : ℕ → ℕ → String → Option String → M Authorized
authorize_attempt id max_attempts key request_id = do
  r ← sql (authorize id max_attempts key request_id) (authorize_answer id max_attempts key)
  pure (authorized r)

-- `Repo.ParkIfUnknown`: an already flagged booking still reports parked.
unfoldable pub park_if_unknown : ℕ → Option String → M (Reply Bool)
park_if_unknown id request_id = do
  r ←
      sql (park id request_id)
        (λ db. elim (find id db.bookings) [ none ↦ false | some b ↦ parkable b ])
  pure (or_database r)

abbrev pub existing : Option Bool → Option Error
existing none = some database
existing (some false) = some booking_not_found
existing (some true) = none

-- `mustExist`.
unfoldable pub must_exist : ℕ → M (Option Error)
must_exist id = do r ← sql select (λ db. is_some (find id db.bookings)); pure (existing r)

unfoldable pub after_flag : ℕ → Option Bool → M (Option Error)
after_flag id none = pure (some database)
after_flag id (some true) = pure none
after_flag id (some false) = must_exist id

-- `Repo.Flag`: `RowsAffected` is 0 for a row that is flagged already and for one that is missing.
unfoldable pub flag_booking : ℕ → M (Option Error)
flag_booking id = do
  r ←
      sql (flag id)
        (λ db. elim (find id db.bookings) [ none ↦ false | some b ↦ not b.needs_recovery ])
  after_flag id r
