-- ===== src/Server/Tests.antt =====
-- The engine at one table of keys and one booking.
use booking_orchestration_se.Base.{◌≡◌, refl, true, false, none, some, [], ◌∷◌}
use booking_orchestration_se.Model.Booking.{Booking}
use booking_orchestration_se.World.{World, ◌>>=◌, pure, sql}
use booking_orchestration_se.Store.Table.{find}
use booking_orchestration_se.Store.Statement.{exec}
use booking_orchestration_se.Repository.{get_by_id}
use booking_orchestration_se.Service.Create.{get}
use booking_orchestration_se.Auth.Key.{parse, cut}
use booking_orchestration_se.Auth.Middleware.{
  authenticate, find_active, cut_prefix, cut_last, verify,
}
use booking_orchestration_se.Auth.Tests.{crypto, table, header}
use booking_orchestration_se.Handler.Booking.{get_handler, get_response}
use booking_orchestration_se.Handler.Tests.{clock}
use booking_orchestration_se.System.Tests.{request, doubtful, in_doubt_world}
use booking_orchestration_se.Server.Context.{distributor}
use booking_orchestration_se.Server.Response.{Formats, Written, to_response, render}
use booking_orchestration_se.Server.Engine.{
  Server, HttpRequest, booking_body, booking, supplier_callbacks, service_request, admitted, routed,
  serve_http,
}
use booking_orchestration_se.Server.Laws.{
  IsCaller, IsRefused, answered, serve_http-IsCaller, serve_http-IsRefused,
}

abbrev formats : Formats
formats = record {
  uuid_text = λ id. "0198f2c4-6d1a-7c3e-9f4b-2f6f0a1d9b10";
  format_date = λ day. "2026-09-10";
  format_time = λ moment. "2026-08-24T10:00:00Z";
}

abbrev server : Server
server = record {
  crypto = crypto;
  decoy = "salt$decoy";
  keys = some table;
  clock = clock;
  formats = formats;
  token = "secret";
  parse_uuid = λ s. some 7;
  supplier_id = "mock-supplier";
  orchestrator = request.orchestrator;
  fingerprint = request.fingerprint;
  is_ready = true;
  swagger_enabled = false;
  new_request_id = "REQ-1";
  new_id = some 7;
}

abbrev read_request : HttpRequest
read_request = record {
  route = booking "0198f2c4-6d1a-7c3e-9f4b-2f6f0a1d9b10";
  request_id_header = "";
  authorization = header;
  callback_token = "";
  create_body = none;
  callback_body = none;
}

abbrev owned : Booking
owned = record doubtful { distributor_id = "d1" }

abbrev world : World
world = record in_doubt_world { db = record in_doubt_world.db { bookings = owned ∷ [] } }

abbrev page : Written
page = record {
  status = 200;
  code = "";
  etag = some 2;
  location = none;
  replayed = false;
  body = some (to_response formats owned);
}

-- The owner reads its booking.
page_served : (serve_http server read_request world).0.body ≡ booking_body page
unfolding serve_http routed admitted authenticate cut_prefix parse cut find_active verify cut_last
    service_request get_handler get_response get get_by_id render distributor ◌>>=◌ pure sql find
    exec
page_served = refl

serve_http-IsCaller_example : IsCaller server read_request "d1"
unfolding to_response
serve_http-IsCaller_example =
    serve_http-IsCaller server read_request world page (to_response formats owned) page_served refl

-- A callback without a token is refused.
serve_http-IsRefused_example :
    IsRefused
      (answered server (record read_request { route = supplier_callbacks }))
      world
      "invalid_token"
    × ((serve_http server (record read_request { route = supplier_callbacks }) world).0.request_id
        ≡ "REQ-1")
serve_http-IsRefused_example =
    serve_http-IsRefused server (record read_request { route = supplier_callbacks }) world refl
