-- ===== src/Handler/Callback.antt =====
-- `Receive` (internal/delivery/rest/handler/callback.go): the token, then the body, then the id, and
-- then the service.
use booking_orchestration_se.Base.{ℕ, String, not, Option, none, some, str_eq, if◌then◌else◌}
use booking_orchestration_se.Model.Booking.{
  booking_not_found, unsupported_supplier_status, callback_conflict,
}
use booking_orchestration_se.World.{M, ◌>>=◌, pure, Reply, ok, err}
use booking_orchestration_se.Service.Create.{Request}
use booking_orchestration_se.Service.Callback.{SupplierOutcome, CallbackResult, apply_callback}

pub record CallbackRequest : Type 0 where
  pub booking_id : String
  pub outcome : SupplierOutcome

pub record CallbackResponse : Type 0 where
  pub status : ℕ
  pub code : String
  pub result : Option CallbackResult

abbrev pub refused_callback : ℕ → String → CallbackResponse
refused_callback status code = record { status = status; code = code; result = none }

unfoldable pub callback_response : Reply CallbackResult → CallbackResponse
callback_response (err booking_not_found) = refused_callback 404 "booking_not_found"
callback_response (err unsupported_supplier_status) =
    refused_callback 400 "unsupported_supplier_status"
callback_response (err callback_conflict) = refused_callback 409 "callback_conflict"
callback_response (err e) = refused_callback 500 "internal_error"
callback_response (ok x) = record { status = 200; code = ""; result = some x }

unfoldable pub receive_identified : Request → SupplierOutcome → Option ℕ → M CallbackResponse
receive_identified r o none = pure (refused_callback 400 "invalid_request")
receive_identified r o (some id) = apply_callback r id o >>= λ x. pure (callback_response x)

unfoldable pub receive_bound :
    Request → (String → Option ℕ) → Option CallbackRequest → M CallbackResponse
receive_bound r parse_uuid none = pure (refused_callback 400 "invalid_request")
receive_bound r parse_uuid (some req) = receive_identified r req.outcome (parse_uuid req.booking_id)

-- `Callback.Receive` of a request with this token and this body.
unfoldable pub receive :
    Request → (String → Option ℕ) → String → String → Option CallbackRequest → M CallbackResponse
receive r parse_uuid token given body =
    if not (str_eq given token)
    then pure (refused_callback 401 "invalid_token")
    else receive_bound r parse_uuid body
