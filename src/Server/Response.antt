-- ===== src/Server/Response.antt =====
-- What is written for a booking: the body (internal/delivery/rest/handler/booking_dto.go) and the
-- headers (internal/delivery/rest/handler/booking.go). The texts of an id, a day and a moment are
-- arguments.
use booking_orchestration_se.Base.{ℕ, String, Bool, Option, none, some, ◌==◌, if◌then◌else◌}
use booking_orchestration_se.Model.Status.{status_text}
use booking_orchestration_se.Model.Booking.{Booking}
use booking_orchestration_se.Handler.Booking.{Response}

pub record Formats : Type 0 where
  pub uuid_text : ℕ → String
  pub format_date : ℕ → String
  pub format_time : ℕ → String

pub record Guest : Type 0 where
  pub first_name : String
  pub last_name : String

pub record BookingResponse : Type 0 where
  pub booking_id : String
  pub status : String
  pub supplier_reference : Option String
  pub distributor_id : String
  pub idempotency_key : String
  pub property_id : String
  pub room_type_id : String
  pub check_in : String
  pub check_out : String
  pub guest : Guest
  pub failure_reason : Option String
  pub needs_recovery : Bool
  pub version : ℕ
  pub created_at : String
  pub updated_at : String

-- `toResponse`.
unfoldable pub to_response : Formats → Booking → BookingResponse
to_response f b = record {
  booking_id = f.uuid_text b.id;
  status = status_text b.status;
  supplier_reference = b.supplier_reference;
  distributor_id = b.distributor_id;
  idempotency_key = b.idempotency_key;
  property_id = b.property_id;
  room_type_id = b.room_type_id;
  check_in = f.format_date b.check_in;
  check_out = f.format_date b.check_out;
  guest = record { first_name = b.guest_first_name; last_name = b.guest_last_name };
  failure_reason = b.failure_reason;
  needs_recovery = b.needs_recovery;
  version = b.version;
  created_at = f.format_time b.created_at;
  updated_at = f.format_time b.updated_at;
}

-- What the client reads of a response. `etag` is the number between the quotes, `location` the id
-- after `/bookings/`.
pub record Written : Type 0 where
  pub status : ℕ
  pub code : String
  pub etag : Option ℕ
  pub location : Option String
  pub replayed : Bool
  pub body : Option BookingResponse

-- Only a creation names the booking's place.
abbrev pub located : Formats → ℕ → ℕ → Option String
located f status id = if status == 201 then some (f.uuid_text id) else none

abbrev pub rendered : Formats → Response → Option Booking → Written
rendered f r none = record {
  status = r.status;
  code = r.code;
  etag = none;
  location = none;
  replayed = r.replayed;
  body = none;
}
rendered f r (some b) = record {
  status = r.status;
  code = r.code;
  etag = some b.version;
  location = located f r.status b.id;
  replayed = r.replayed;
  body = some (to_response f b);
}

unfoldable pub render : Formats → Response → Written
render f r = rendered f r r.booking
