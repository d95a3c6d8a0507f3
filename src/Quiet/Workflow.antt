-- ===== src/Quiet/Workflow.antt =====
-- The whole workflow in a quiet world.
use booking_orchestration_se.Base.{
  zero, suc, ◌<◌, ℕ, ◌+◌, ◌≡◌, refl, true, false, none, some, String, List, arith,
}
use booking_orchestration_se.Model.Status.{
  Status, received, pending, unknown, confirmed, rejected, failed, cancelled, other, is_open,
  settled, to_status, status_text,
}
use booking_orchestration_se.Model.Booking.{Booking}
use booking_orchestration_se.Supplier.Client.{Client, BookRequest, idempotency_key}
use booking_orchestration_se.Store.Table.{Db, find}
use booking_orchestration_se.Store.Rows.{resolvable, resolve_row}
use booking_orchestration_se.Store.Statement.{resolve_stale, exec, on_row}
use booking_orchestration_se.World.{◌>>=◌, pure, sql, ok}
use booking_orchestration_se.Repository.Attempts.{resolve_stale_marker, stale_attempt}
use booking_orchestration_se.Workflow.Activity.{Deps, dispatch, dispatch_parsed, dispatch_resolved}
use booking_orchestration_se.Workflow.Attempt.{request_of}
use booking_orchestration_se.Workflow.Run.{Config, read_tries, booking_workflow, dispatched}
use booking_orchestration_se.Quiet.Spec.{is_supplied, walk}
use booking_orchestration_se.Quiet.Ends.{is_at_rest, walk-rests}
use booking_orchestration_se.Quiet.Sql.{At, get_by_id-quiet}
use booking_orchestration_se.Quiet.Write.{Rest, over}
use booking_orchestration_se.Quiet.Park.{execute_once, Finishes}
use booking_orchestration_se.Quiet.Walk.{attempts-Finishes}

not_resolvable : (b : Booking) → b.in_flight_attempt ≡ none → resolvable b ≡ false
unfolding resolvable
not_resolvable b h = ground (arith, h)

open_again : (s : Status) → is_open s ≡ true → settled (to_status (status_text s)) ≡ false
unfolding to_status status_text
open_again received h = refl
open_again pending h = refl
open_again unknown h = refl
open_again confirmed h = ground arith
open_again rejected h = ground arith
open_again failed h = ground arith
open_again cancelled h = ground arith
open_again (other t) h = ground arith

module _ (r : Rest) (id : ℕ) (db : Db) (b : Booking) (found : find id db.bookings ≡ some b)
    (free : b.in_flight_attempt ≡ none) where
  nothing_stale : stale_attempt id db ≡ none
  unfolding stale_attempt
  nothing_stale = rw (found, stale_attempt) (rw (not_resolvable b free) refl)

  nothing_resolved : (q : _) → exec (resolve_stale id q) db ≡ db
  unfolding exec on_row resolve_row
  nothing_resolved q = rw (found, exec, on_row) (rw (not_resolvable b free) refl)

  resolve_stale_marker-quiet :
      (q : _) → resolve_stale_marker id q (over r db) ≡ (ok none, over r db)
  unfolding resolve_stale_marker ◌>>=◌ pure sql
  resolve_stale_marker-quiet q = rw (nothing_stale, nothing_resolved q) refl

  dispatch-quiet :
      (deps : Deps) (text : String)
      → deps.parse_uuid text ≡ some id
      → dispatch deps text (over r db) ≡ (ok (status_text b.status), over r db)
  unfolding dispatch dispatch_parsed dispatch_resolved ◌>>=◌ pure
  dispatch-quiet deps text parsed = rw parsed (
      rw (resolve_stale_marker-quiet deps.request_id)
        (rw (get_by_id-quiet db r.calls r.starts r.signals r.waits id found) refl))

walk-rests_positive :
    (left : ℕ) (client : Client) (req : BookRequest)
    → ((calls : List BookRequest) (req : BookRequest)
        → is_supplied (client calls req).outcome ≡ true)
    → (calls : List BookRequest) (s : Status) → is_open s ≡ true
    → 0 < left
    → is_at_rest (walk client req left calls s) ≡ true
walk-rests_positive zero client req real calls s o h = ground arith
walk-rests_positive (suc left) client req real calls s o h =
    walk-rests client req real left calls s o

module _ (cfg : Config) (deps : Deps) (text : String) (id : ℕ) (r : Rest) (db : Db) (b : Booking)
    (remaining : ℕ) where
  -- Where no other session moves and no statement fails, the workflow implements the walk. For a
  -- row that is open, has no attempt outstanding and has `remaining` attempts of its budget left,
  -- and a client that gives a supplier's outcomes, the workflow returns without an error, and
  -- leaves the row with no attempt outstanding, at the status to which the walk over the client's
  -- answers comes.
  pub booking_workflow-Finishes :
      deps.parse_uuid text ≡ some id
      → ((calls : List BookRequest) (req : BookRequest)
          → is_supplied (deps.client calls req).outcome ≡ true)
      → At db id (idempotency_key text) b
      → is_open b.status ≡ true
      → b.in_flight_attempt ≡ none
      → remaining + b.supplier_attempts ≡ cfg.create_attempts
      → Finishes r id
          (idempotency_key text)
          (booking_workflow cfg deps text)
          db
          (walk deps.client (request_of text b) remaining r.calls b.status)
  unfolding booking_workflow dispatched ◌>>=◌
  booking_workflow-Finishes parsed real h o free count =
      let once =
        execute_once read_tries (dispatch deps text) (over r db) (over r db) (status_text b.status)
          (dispatch-quiet r id db b h.found free deps text parsed) in
      let (r', b', db', runs, at, left_row) =
        attempts-Finishes cfg deps text id parsed real cfg.create_attempts remaining 1 r db b h o
          free count (omega arith) in
      (r', b', db', rw once (rw (open_again b.status o) runs), at, left_row)

  -- Where no other session moves and no statement fails, an attempt is left, and the client gives a
  -- supplier's outcomes: the workflow returns without an error and leaves a row with no attempt
  -- outstanding that is CONFIRMED, REJECTED, FAILED or in doubt (UNKNOWN), never one that waits in
  -- RECEIVED or PENDING.
  pub booking_workflow-IsAtRest :
      deps.parse_uuid text ≡ some id
      → ((calls : List BookRequest) (req : BookRequest)
          → is_supplied (deps.client calls req).outcome ≡ true)
      → At db id (idempotency_key text) b
      → is_open b.status ≡ true
      → b.in_flight_attempt ≡ none
      → remaining + b.supplier_attempts ≡ cfg.create_attempts
      → 0 < remaining
      → (r' : Rest) × (b' : Booking) × (db' : Db) × (booking_workflow cfg deps text (over r db)
          ≡ (ok tt, over r' db'))
        × (find id db'.bookings ≡ some b')
        × (is_at_rest b'.status ≡ true)
        × (b'.in_flight_attempt ≡ none)
  booking_workflow-IsAtRest parsed real h o free count some_left =
      let (r', b', db', runs, at, left_row) =
        booking_workflow-Finishes parsed real h o free count in
      let rests : is_at_rest (walk deps.client (request_of text b) remaining r.calls b.status)
          ≡ true =
        walk-rests_positive remaining deps.client (request_of text b) real r.calls b.status o
          some_left in
      (r', b', db', runs, at.found, rw left_row.status rests, left_row.unmarked)
