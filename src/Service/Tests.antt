-- ===== src/Service/Tests.antt =====
-- A first booking of an empty table.
use booking_orchestration_se.Quiet.History.{
  Creation, AreReady, create_all, register_all, create_all-register,
}
use booking_orchestration_se.Quiet.Register.{register, register_of}
use booking_orchestration_se.Quiet.Create.{
  Registers, create-Registers, get-create, IsAsked, create_then_get,
}
use booking_orchestration_se.Quiet.Tests.{rest, db}
use booking_orchestration_se.Quiet.Write.{over, Rest}
use booking_orchestration_se.Base.{◌≡◌, refl, true, [], none, some, List, ◌∷◌}
use booking_orchestration_se.Model.Booking.{
  Booking, CreateRequest, booking_not_found, idempotency_key_reused,
}
use booking_orchestration_se.Orchestrator.{start_booking, started_of}
use booking_orchestration_se.Repository.{insert_or_load, after_insert}
use booking_orchestration_se.Store.Table.{find, find_key, Db}
use booking_orchestration_se.Store.Statement.{insertion, inserted_row}
use booking_orchestration_se.World.{◌>>=◌, pure, sql, ok, err}
use booking_orchestration_se.Service.Create.{
  new_booking, created, create_with, create, report_duplicate_suspect, Request,
}
use booking_orchestration_se.Service.Idempotent.{IsAnswer, create-IsAnswer}
use booking_orchestration_se.System.Lives.{start}
use booking_orchestration_se.System.Tests.{request, stay}

abbrev first : Booking
unfolding new_booking inserted_row
first = inserted_row 0 (new_booking request 7 stay)

create-first : (create request stay (start [])).0 ≡ ok (first, true)
unfolding create create_with created insert_or_load after_insert report_duplicate_suspect
    start_booking started_of ◌>>=◌ pure sql insertion inserted_row find find_key new_booking first
create-first = refl

create-IsAnswer_example : IsAnswer "distributor-001" "partner-1" "room-deluxe" first
create-IsAnswer_example = create-IsAnswer request stay (start []) first true create-first

-- A second booking beside one that is there, and a reader of another distributor.
abbrev next_request : Request
next_request = record request { new_id = some 8 }

abbrev next_stay : CreateRequest
next_stay = record stay { idempotency_key = "partner-2" }

abbrev stranger : Request
stranger = record request { distributor = "distributor-002" }

next_fresh : find 8 db.bookings ≡ none
unfolding find
next_fresh = refl

next_free : find_key "distributor-001" "partner-2" db.bookings ≡ none
unfolding find_key
next_free = refl

create-Registers_example :
    Registers next_request next_stay 8 rest db refl refl next_fresh
      (register_of db "distributor-001" "partner-2")
      (register (register_of db) "distributor-001" "partner-2" (8, "room-deluxe"))
create-Registers_example = create-Registers next_request next_stay 8 rest db refl refl next_fresh

get-create_example :
    (b : Booking) × IsAsked next_request next_stay 8 rest db refl refl next_fresh b
    × ((create_then_get next_request next_stay 8 rest db refl refl next_fresh stranger
          (over rest db)).0
        ≡ (ok (b, true), err booking_not_found))
get-create_example =
    get-create next_request next_stay 8 rest db refl refl next_fresh stranger next_free

-- A creation, the same one again, and its key with another room.
abbrev repeated : List Creation
repeated =
    record { request = next_request; body = next_stay; id = 8 }
    ∷ record { request = record next_request { new_id = some 9 }; body = next_stay; id = 9 }
    ∷ record {
      request = record next_request { new_id = some 10 };
      body = record next_stay { room_type_id = "room-single" };
      id = 10;
    }
    ∷ []

repeated_ready : AreReady db repeated
unfolding find
repeated_ready = (
  (refl, refl, refl),
  (refl, (refl, tt)),
  ((refl, refl, refl), (refl, tt), ((refl, refl, refl), tt, tt)),
)

create_all-register_example :
    (rest' : Rest) × (db' : Db) × (create_all repeated (over rest db) ≡ (
      ok (8, "room-deluxe") ∷ ok (8, "room-deluxe") ∷ err idempotency_key_reused ∷ [],
      over rest' db',
    ))
    × (register_of db' ≡ (register_all (register_of db) repeated).1)
unfolding find_key
create_all-register_example = create_all-register repeated rest db repeated_ready
