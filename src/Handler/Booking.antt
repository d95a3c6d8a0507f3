-- ===== src/Handler/Booking.antt =====
-- `Create`, `Get` and `parseCreateRequest` (internal/delivery/rest/handler/booking.go). The binding
-- of JSON, `time.Parse` and the day are arguments; a response keeps what its client reads first:
-- the HTTP status, the error code, the replay header and the booking.
use booking_orchestration_se.Base.{
  ℕ, String, Bool, true, false, not, Option, none, some, ltb, if◌then◌else◌,
}
use booking_orchestration_se.Model.Booking.{
  Booking, CreateRequest, booking_not_found, idempotency_key_reused,
}
use booking_orchestration_se.World.{M, ◌>>=◌, pure, Reply, ok, err}
use booking_orchestration_se.Service.Create.{Request, create, get}

pub record CreateBookingRequest : Type 0 where
  pub idempotency_key : String
  pub property_id : String
  pub room_type_id : String
  pub check_in : String
  pub check_out : String
  pub first_name : String
  pub last_name : String

-- `parse_date` is `time.Parse` with the layout of a date, `today` the day of now in UTC.
pub record Clock : Type 0 where
  pub parse_date : String → Option ℕ
  pub today : ℕ

pub record Response : Type 0 where
  pub status : ℕ
  pub code : String
  pub replayed : Bool
  pub booking : Option Booking

-- `respondError`.
abbrev pub respond_error : ℕ → String → Response
respond_error status code = record {
  status = status;
  code = code;
  replayed = false;
  booking = none;
}

abbrev pub stay_of : CreateBookingRequest → ℕ → ℕ → ℕ → Option CreateRequest
stay_of req today check_in check_out =
    if not (ltb check_in check_out)
    then none
    else if ltb check_in today
    then none
    else some (record {
      distributor_id = "";
      idempotency_key = req.idempotency_key;
      property_id = req.property_id;
      room_type_id = req.room_type_id;
      check_in = check_in;
      check_out = check_out;
      guest_first_name = req.first_name;
      guest_last_name = req.last_name;
    })

abbrev pub dated : CreateBookingRequest → ℕ → Option ℕ → Option ℕ → Option CreateRequest
dated req today none check_out = none
dated req today (some check_in) none = none
dated req today (some check_in) (some check_out) = stay_of req today check_in check_out

-- `parseCreateRequest`.
unfoldable pub parse_create_request : Clock → CreateBookingRequest → Option CreateRequest
parse_create_request clock req =
    dated req clock.today (clock.parse_date req.check_in) (clock.parse_date req.check_out)

unfoldable pub create_response : Reply (Booking × Bool) → Response
create_response (err idempotency_key_reused) = respond_error 422 "idempotency_key_reused"
create_response (err e) = respond_error 500 "internal_error"
create_response (ok (b, true)) = record {
  status = 201;
  code = "";
  replayed = false;
  booking = some b;
}
create_response (ok (b, false)) = record {
  status = 200;
  code = "";
  replayed = true;
  booking = some b;
}

unfoldable pub create_parsed : Request → Option CreateRequest → M Response
create_parsed r none = pure (respond_error 400 "invalid_request")
create_parsed r (some req) = create r req >>= λ x. pure (create_response x)

-- `Booking.Create`, with the bound body or none where the binding failed.
unfoldable pub create_handler : Request → Clock → Option CreateBookingRequest → M Response
create_handler r clock none = pure (respond_error 400 "invalid_request")
create_handler r clock (some body) = create_parsed r (parse_create_request clock body)

unfoldable pub get_response : Reply Booking → Response
get_response (err booking_not_found) = respond_error 404 "booking_not_found"
get_response (err e) = respond_error 500 "internal_error"
get_response (ok b) = record { status = 200; code = ""; replayed = false; booking = some b }

-- `Booking.Get`, with the id or none where it is no uuid.
unfoldable pub get_handler : Request → Option ℕ → M Response
get_handler r none = pure (respond_error 400 "invalid_request")
get_handler r (some id) = get r id >>= λ x. pure (get_response x)
