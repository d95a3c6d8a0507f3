-- ===== src/Store/Steps.antt =====
-- What every locked statement keeps of the row that it updates.
use booking_orchestration_se.Base.{
  ℕ, ◌+◌, ◌≤◌, ◌<◌, ◌≡◌, ◌⊎◌, String, true, Option, none, some, is_some, arith,
}
use booking_orchestration_se.Model.Status.{received, may_move, is_valid}
use booking_orchestration_se.Model.Status.Laws.{status_eq_iff}
use booking_orchestration_se.Model.Booking.{Booking, Event}
use booking_orchestration_se.Contract.{Transition}
use booking_orchestration_se.Store.Rows.{
  Locked, is_doubtful, apply_row, clear_marker_row, authorize_row, resolve_row, park_row, flag_row,
}

-- The row that stands after a locked statement.
abbrev pub row_after : Locked → Booking → Booking
row_after none b = b
row_after (some (b', _)) b = b'

-- An update never changes who made the booking, under which key or for which stay; it counts one
-- version, uses up attempts and never gives one back, and writes the supplier's key once.
pub record IsUpdate (b b' : Booking) : Type 0 where
  pub same_id : b'.id ≡ b.id
  pub same_distributor : b'.distributor_id ≡ b.distributor_id
  pub same_key : b'.idempotency_key ≡ b.idempotency_key
  pub same_fingerprint : b'.request_fingerprint ≡ b.request_fingerprint
  pub same_supplier : b'.supplier_id ≡ b.supplier_id
  pub same_property : b'.property_id ≡ b.property_id
  pub same_room_type : b'.room_type_id ≡ b.room_type_id
  pub same_first_name : b'.guest_first_name ≡ b.guest_first_name
  pub same_last_name : b'.guest_last_name ≡ b.guest_last_name
  pub same_check_in : b'.check_in ≡ b.check_in
  pub same_check_out : b'.check_out ≡ b.check_out
  pub counted : b'.version ≡ b.version + 1
  pub attempts_grow : b.supplier_attempts ≤ b'.supplier_attempts
  pub key_kept :
      (b.supplier_idempotency_key ≡ none)
      ⊎ (b'.supplier_idempotency_key ≡ b.supplier_idempotency_key)

-- The lineage row says what the update did, and the update follows an edge or stays.
abbrev pub IsRecorded : Booking → Booking → Option Event → Type 0
IsRecorded b b' none = b'.status ≡ b.status
IsRecorded b b' (some e) =
    (e.booking_id ≡ b.id)
    × (e.from_status ≡ some b.status)
    × (e.to_status ≡ b'.status)
    × ((b'.status ≡ b.status) ⊎ (may_move b.status b'.status ≡ true))

abbrev pub IsStep : Booking → Locked → Type 0
IsStep b none = Unit
IsStep b (some (b', e)) = IsUpdate b b' × IsRecorded b b' e

-- Of the CHECKs and of the marker: an attempt is outstanding only in PENDING or UNKNOWN, and a
-- booking that is RECEIVED was never sent.
pub record IsSound (b : Booking) : Type 0 where
  pub status_known : is_valid b.status ≡ true
  pub stay_positive : b.check_in < b.check_out
  pub marker_within : (n : ℕ) → b.in_flight_attempt ≡ some n → n ≤ b.supplier_attempts
  pub marker_doubtful : is_some b.in_flight_attempt ≡ true → is_doubtful b.status ≡ true
  pub received_fresh : b.status ≡ received → b.supplier_attempts ≡ 0

module _ (now : ℕ) (b : Booking) where
  pub apply_row-IsStep :
      (t : Transition) → may_move t.from t.to ≡ true → IsStep b (apply_row now t b)
  unfolding apply_row
  apply_row-IsStep t h = ground (arith, status_eq_iff b.status t.from)

  pub clear_marker_row-IsStep : (n : ℕ) (e : Event) → IsStep b (clear_marker_row now n e b)
  unfolding clear_marker_row
  clear_marker_row-IsStep n e = ground arith

  pub authorize_row-IsStep :
      (m : ℕ) (k : String) (r : Option String) → IsStep b (authorize_row now m k r b)
  unfolding authorize_row
  authorize_row-IsStep m k r = ground arith

  pub resolve_row-IsStep : (r : Option String) → IsStep b (resolve_row now r b)
  unfolding resolve_row
  resolve_row-IsStep r = ground arith

  pub park_row-IsStep : (r : Option String) → IsStep b (park_row now r b)
  unfolding park_row
  park_row-IsStep r = ground (arith)

  pub flag_row-IsStep : IsStep b (flag_row now b)
  unfolding flag_row
  flag_row-IsStep = ground arith

module _ (now : ℕ) (b : Booking) (s : IsSound b) where
  pub apply_row-IsSound :
      (t : Transition) → may_move t.from t.to ≡ true → IsSound (row_after (apply_row now t b) b)
  unfolding apply_row
  apply_row-IsSound t h = ground (arith, status_eq_iff b.status t.from)

  pub clear_marker_row-IsSound :
      (n : ℕ) (e : Event) → IsSound (row_after (clear_marker_row now n e b) b)
  unfolding clear_marker_row
  clear_marker_row-IsSound n e = ground arith

  pub authorize_row-IsSound :
      (m : ℕ) (k : String) (r : Option String) → IsSound (row_after (authorize_row now m k r b) b)
  unfolding authorize_row
  authorize_row-IsSound m k r = ground arith

  pub resolve_row-IsSound : (r : Option String) → IsSound (row_after (resolve_row now r b) b)
  unfolding resolve_row
  resolve_row-IsSound r = ground arith

  pub park_row-IsSound : (r : Option String) → IsSound (row_after (park_row now r b) b)
  unfolding park_row
  park_row-IsSound r = ground arith

  pub flag_row-IsSound : IsSound (row_after (flag_row now b) b)
  unfolding flag_row
  flag_row-IsSound = ground arith
