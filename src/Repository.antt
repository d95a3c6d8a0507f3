-- ===== src/Repository.antt =====
-- The booking repository (internal/repository/booking): each method sends its statement and reads
-- the answer. The methods of authorize.go are in Repository/Attempts.
pub mod Attempts
pub mod Refines
pub mod Lineage
pub mod Replay
use Prim.Native.String.{◌++◌}
use booking_orchestration_se.Base.{
  ℕ, String, Bool, true, false, ◌&&◌, Option, none, some, is_some, if◌then◌else◌,
}
use booking_orchestration_se.Model.Status.{Status, status_text, other, may_move, status_eq}
use booking_orchestration_se.Model.Booking.{
  Booking, Event, no_event, conflict, Error, booking_not_found, invalid_transition,
  transition_conflict, attempt_superseded, database,
}
use booking_orchestration_se.Contract.{unset, clear, owned, supersede, is_owned, Transition}
use booking_orchestration_se.Store.Table.{Db, find, find_key}
use booking_orchestration_se.Store.Rows.{guarded}
use booking_orchestration_se.Store.Statement.{
  select, insert, apply, clear_marker, append_refusal, Insertion, stored, key_exists, violation,
  insertion,
}
use booking_orchestration_se.Base.{holds}
use booking_orchestration_se.World.{M, ◌>>=◌, pure, sql, Reply, ok, err}

-- `scan`.
abbrev pub scan : Option (Option Booking) → Reply Booking
scan none = err database
scan (some none) = err booking_not_found
scan (some (some b)) = ok b

unfoldable pub get_by_id : ℕ → M (Reply Booking)
get_by_id id = do r ← sql select (λ db. find id db.bookings); pure (scan r)

unfoldable pub get_by_key : String → String → M (Reply Booking)
get_by_key distributor key = do
  r ← sql select (λ db. find_key distributor key db.bookings)
  pure (scan r)

abbrev pub loaded : Reply Booking → Reply (Booking × Bool)
loaded (ok b) = ok (b, false)
loaded (err e) = err e

-- What follows the INSERT: the loser of a race reads the winner's row.
unfoldable pub after_insert : Booking → Option Insertion → M (Reply (Booking × Bool))
after_insert b none = pure (err database)
after_insert b (some (stored b')) = pure (ok (b', true))
after_insert b (some violation) = pure (err database)
after_insert b (some key_exists) = do
  r ← get_by_key b.distributor_id b.idempotency_key
  pure (loaded r)

unfoldable pub insert_or_load : Booking → Option String → M (Reply (Booking × Bool))
insert_or_load b request_id = do r ← sql (insert b request_id) (insertion b); after_insert b r

-- A method that may return both a status and an error; `other ""` is the empty status.
abbrev pub Applied : Type 0
Applied = Status × Option Error

abbrev pub no_status : Status
no_status = other ""

-- `markerPredicate`, as to whether it refuses.
abbrev pub states_marker : Transition → Bool
states_marker t = elim t.marker [
  | unset ↦ false
  | clear ↦ true
  | owned ↦ is_some t.attempt
  | supersede ↦ true
]

-- The answer of `guardedTemplate`: what was applied, and the status that was locked.
pub record Guarded : Type 0 where
  pub applied : Option Status
  pub current : Option Status

unfoldable pub guarded_answer : ℕ → Transition → Db → Guarded
guarded_answer id t db = elim (find id db.bookings) [
  | none ↦ record { applied = none; current = none }
  | some b ↦ record { applied = if guarded t b then some t.to else none; current = some b.status }
]

-- The foreign key refuses a lineage row without its booking.
abbrev pub appended : Option Bool → Option Error
appended none = some database
appended (some true) = none
appended (some false) = some database

unfoldable pub append_refusal_to : ℕ → Event → M (Option Error)
append_refusal_to id e = do
  r ← sql (append_refusal id e) (λ db. is_some (find id db.bookings))
  pure (appended r)

-- What `%v` prints of a pointer: its address, of which only the prefix is known.
abbrev pub address_text : String
address_text = "0x"

-- The lineage row of an answer that came after its attempt was overridden.
abbrev pub superseded_event : Status → Transition → Event
superseded_event current t = record no_event {
  to_status = current;
  event_type = conflict;
  attempt = t.attempt;
  request_id = t.request_id;
  supplier_status_code = t.supplier_status_code;
  supplier_reason =
      some
        ("attempt " ++ address_text ++ " superseded before it could record " ++ status_text t.to);
  payload_digest = t.payload_digest;
}

abbrev pub or_superseded : Option Error → Option Error
or_superseded none = some attempt_superseded
or_superseded (some e) = some e

unfoldable pub record_superseded_attempt : ℕ → Status → Transition → M (Option Error)
record_superseded_attempt id current t = do
  e ← append_refusal_to id (superseded_event current t)
  pure (or_superseded e)

unfoldable pub not_applied : ℕ → Transition → Status → M Applied
not_applied id t current =
    if status_eq current t.from && is_owned t.marker
    then (record_superseded_attempt id current t >>= λ e. pure (current, e))
    else pure (current, some transition_conflict)

unfoldable pub after_apply : ℕ → Transition → Option Status → Option Status → M Applied
after_apply id t (some s) current = pure (s, none)
after_apply id t none none = pure (no_status, some booking_not_found)
after_apply id t none (some current) = not_applied id t current

unfoldable pub after_guarded : ℕ → Transition → Option Guarded → M Applied
after_guarded id t none = pure (no_status, some database)
after_guarded id t (some g) = after_apply id t g.applied g.current

-- `Repo.Apply`.
unfoldable pub apply_transition : ℕ → Transition → M Applied
apply_transition id t =
    if may_move t.from t.to
    then if states_marker t
      then (sql (apply id t) (guarded_answer id t) >>= after_guarded id t)
      else pure (no_status, some invalid_transition)
    else pure (no_status, some invalid_transition)

abbrev pub or_database : {A : Type 0} → Option A → Reply A
or_database none = err database
or_database (some a) = ok a

-- `Repo.ClearMarker`.
unfoldable pub clear_marker_of : ℕ → ℕ → Event → M (Reply Bool)
clear_marker_of id attempt e = do
  r ← sql (clear_marker id attempt e) (λ db. elim (find id db.bookings) [
    | none ↦ false
    | some b ↦ holds b.in_flight_attempt attempt
  ])
  pure (or_database r)
