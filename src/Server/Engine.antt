-- ===== src/Server/Engine.antt =====
-- `NewEngine` (internal/delivery/rest/server.go): the routes, what guards each of them, and the
-- handlers of the health probes (handler/health.go). gin's matching of a path, its binding of JSON
-- and the readiness check are arguments.
use booking_orchestration_se.Base.{ℕ, String, Bool, Option, none, some, List, if◌then◌else◌}
use booking_orchestration_se.Model.Booking.{CreateRequest}
use booking_orchestration_se.World.{M, ◌>>=◌, pure}
use booking_orchestration_se.Orchestrator.{Orchestrator}
use booking_orchestration_se.Service.Create.{Request}
use booking_orchestration_se.Auth.Middleware.{Crypto, ApiKey, authenticate}
use booking_orchestration_se.Handler.Booking.{
  CreateBookingRequest, Clock, Response, create_handler, get_handler,
}
use booking_orchestration_se.Handler.Callback.{CallbackRequest, CallbackResponse, receive}
use booking_orchestration_se.Server.Context.{
  Context, background, with_distributor, distributor, request_id_ptr, chosen_id, request_context,
}
use booking_orchestration_se.Server.Response.{Formats, Written, render}

-- The route that the engine's table gives for a method and a path.
pub data Route : Type 0 where
  healthz readyz supplier_callbacks bookings : Route
  booking : String → Route
  swagger unknown_route : Route

pub record HttpRequest : Type 0 where
  pub route : Route
  pub request_id_header : String
  pub authorization : String
  pub callback_token : String
  -- The body as each handler binds it, none where the binding fails.
  pub create_body : Option CreateBookingRequest
  pub callback_body : Option CallbackRequest

-- What the engine is built from, and what a request draws: a new request id and a new booking id.
pub record Server : Type 0 where
  pub crypto : Crypto
  pub decoy : String
  pub keys : Option (List ApiKey)
  pub clock : Clock
  pub formats : Formats
  pub token : String
  pub parse_uuid : String → Option ℕ
  pub supplier_id : String
  pub orchestrator : Orchestrator
  pub fingerprint : CreateRequest → String
  pub is_ready : Bool
  pub swagger_enabled : Bool
  pub new_request_id : String
  pub new_id : Option ℕ

pub data Body : Type 0 where
  -- The probes and the refusals of the middleware and of gin.
  plain_body : ℕ → String → Body
  booking_body : Written → Body
  callback_body_of : CallbackResponse → Body

pub record HttpResponse : Type 0 where
  pub request_id : String
  pub body : Body

-- `Live` and `Ready`.
abbrev pub live : Body
live = plain_body 200 "ok"

unfoldable pub ready : Bool → Body
ready is_ready =
    plain_body (if is_ready then 200 else 503)
      (if is_ready then "ready" else "dependency_unavailable")

-- What the service reads of a context.
unfoldable pub service_request : Server → Context → Request
service_request s ctx = record {
  distributor = distributor ctx;
  request_id = request_id_ptr ctx;
  supplier_id = s.supplier_id;
  orchestrator = s.orchestrator;
  new_id = s.new_id;
  fingerprint = s.fingerprint;
}

-- The group behind `Authenticate`: its handlers run only for a distributor that it names.
unfoldable pub admitted :
    Context → Option String → (Context → M Response) → (Response → Body) → M Body
admitted ctx none handler write = pure (plain_body 401 "unauthorized")
admitted ctx (some d) handler write = handler (with_distributor ctx d) >>= λ r. pure (write r)

unfoldable pub routed : Server → HttpRequest → Context → Route → M Body
routed s q ctx healthz = pure live
routed s q ctx readyz = pure (ready s.is_ready)
routed s q ctx supplier_callbacks =
    receive (service_request s ctx) s.parse_uuid s.token q.callback_token q.callback_body >>= λ r.
    pure (callback_body_of r)
routed s q ctx bookings =
    admitted ctx (authenticate s.crypto s.decoy s.keys q.authorization).distributor
      (λ c. create_handler (service_request s c) s.clock q.create_body)
      (λ r. booking_body (render s.formats r))
routed s q ctx (booking id) =
    admitted ctx (authenticate s.crypto s.decoy s.keys q.authorization).distributor
      (λ c. get_handler (service_request s c) (s.parse_uuid id))
      (λ r. booking_body (render s.formats r))
routed s q ctx swagger = pure (plain_body (if s.swagger_enabled then 200 else 404) "")
routed s q ctx unknown_route = pure (plain_body 404 "")

-- A request through the middleware and its route.
unfoldable pub serve_http : Server → HttpRequest → M HttpResponse
serve_http s q =
    let ctx = request_context q.request_id_header s.new_request_id background in
    routed s q ctx q.route >>= λ b.
    pure (record { request_id = chosen_id q.request_id_header s.new_request_id; body = b })
