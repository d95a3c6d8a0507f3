-- ===== src/Model/Booking.antt =====
-- The row of a booking, its lineage, and the request that makes it (internal/model/booking.go,
-- event.go, fingerprint.go). A UUID is the number that it denotes, a date is a number of days and a
-- time a number of microseconds; a nullable column is an option.
use booking_orchestration_se.Base.{ℕ, String, Bool, Option, none}
use booking_orchestration_se.Model.Status.{Status}

pub record Booking : Type 0 where
  pub id : ℕ
  pub distributor_id : String
  pub idempotency_key : String
  pub request_fingerprint : String
  pub supplier_id : String
  pub supplier_idempotency_key : Option String
  pub supplier_reference : Option String
  pub property_id : String
  pub room_type_id : String
  pub check_in : ℕ
  pub check_out : ℕ
  pub guest_first_name : String
  pub guest_last_name : String
  pub status : Status
  pub failure_reason : Option String
  pub needs_recovery : Bool
  pub supplier_attempts : ℕ
  pub in_flight_attempt : Option ℕ
  pub version : ℕ
  pub created_at : ℕ
  pub updated_at : ℕ

-- The event kinds that a lineage row can carry.
pub data EventType : Type 0 where
  created transition conflict supplier_request supplier_response : EventType
  supplier_timeout supplier_callback callback_rejected parked : EventType
  unset : EventType

pub record Event : Type 0 where
  pub seq : ℕ
  pub booking_id : ℕ
  pub occurred_at : ℕ
  pub from_status : Option Status
  pub to_status : Status
  pub event_type : EventType
  pub attempt : Option ℕ
  pub request_id : Option String
  pub supplier_status_code : Option String
  pub supplier_reason : Option String
  pub payload_digest : Option String

-- An `Event{}` literal, whose fields a caller then sets.
abbrev pub no_event : Event
no_event = record {
  seq = 0;
  booking_id = 0;
  occurred_at = 0;
  from_status = none;
  to_status = Status.other "";
  event_type = unset;
  attempt = none;
  request_id = none;
  supplier_status_code = none;
  supplier_reason = none;
  payload_digest = none;
}

pub record CreateRequest : Type 0 where
  pub distributor_id : String
  pub idempotency_key : String
  pub property_id : String
  pub room_type_id : String
  pub check_in : ℕ
  pub check_out : ℕ
  pub guest_first_name : String
  pub guest_last_name : String

-- The sentinel errors (internal/constant/error.go); `database` is any error of the driver, and
-- `bad_id` the error of `uuid.Parse`.
pub data Error : Type 0 where
  booking_not_found idempotency_key_reused invalid_transition transition_conflict : Error
  unsupported_supplier_status unauthorized invalid_config attempt_superseded callback_conflict :
      Error
  database bad_id supplier_failed orchestrator_failed : Error
