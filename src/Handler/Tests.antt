-- ===== src/Handler/Tests.antt =====
-- The handler of a creation at one body and an empty table.
use booking_orchestration_se.Base.{◌≡◌, refl, [], some, str_eq, if◌then◌else◌}
use booking_orchestration_se.Model.Booking.{Booking}
use booking_orchestration_se.Orchestrator.{start_booking, started_of}
use booking_orchestration_se.Repository.{insert_or_load, after_insert}
use booking_orchestration_se.Store.Table.{find, find_key}
use booking_orchestration_se.Store.Statement.{insertion, inserted_row}
use booking_orchestration_se.World.{◌>>=◌, pure, sql}
use booking_orchestration_se.Service.Create.{
  new_booking, created, create_with, create, report_duplicate_suspect,
}
use booking_orchestration_se.Handler.Booking.{
  Clock, CreateBookingRequest, parse_create_request, create_response, create_parsed, create_handler,
}
use booking_orchestration_se.Handler.Laws.{IsResponse, create_handler-IsResponse}
use booking_orchestration_se.System.Lives.{start}
use booking_orchestration_se.System.Tests.{request, stay}

abbrev pub clock : Clock
clock = record {
  parse_date = λ s. some (if str_eq s "2026-09-10" then 20706 else 20708);
  today = 20700;
}

abbrev pub body : CreateBookingRequest
body = record {
  idempotency_key = "partner-1";
  property_id = "hotel-001";
  room_type_id = "room-deluxe";
  check_in = "2026-09-10";
  check_out = "2026-09-12";
  first_name = "Taro";
  last_name = "Yamada";
}

abbrev first : Booking
unfolding new_booking inserted_row
first = inserted_row 0 (new_booking request 7 stay)

handler_first : (create_handler request clock (some body) (start [])).0.booking ≡ some first
unfolding create_handler create_parsed create_response parse_create_request create create_with
    created insert_or_load after_insert report_duplicate_suspect start_booking started_of ◌>>=◌ pure
    sql insertion inserted_row find find_key new_booking first
handler_first = refl

create_handler-IsResponse_example : IsResponse request clock body first
create_handler-IsResponse_example =
    create_handler-IsResponse request clock body (start []) first handler_first
