-- ===== src/Handler/Laws.antt =====
-- What a response to a creation promises.
use booking_orchestration_se.Base.{
  ℕ, sym, ◌≤◌, ◌<◌, ◌≡◌, refl, true, false, Bool, Option, none, some, arith,
}
use booking_orchestration_se.Model.Booking.{Booking, CreateRequest}
use booking_orchestration_se.World.{World, ◌>>=◌, pure, Reply, ok, err}
use booking_orchestration_se.Service.Create.{Request, create}
use booking_orchestration_se.Service.Idempotent.{IsAnswer, create-IsAnswer}
use booking_orchestration_se.Handler.Booking.{
  Clock, CreateBookingRequest, dated, parse_create_request, create_response, create_parsed,
  create_handler,
}

-- A stay that a request may ask for.
abbrev pub IsStay : ℕ → CreateRequest → Type 0
IsStay today req = (today ≤ req.check_in) × (req.check_in < req.check_out)

dated-IsStay :
    (body : CreateBookingRequest) (today : ℕ) (x y : Option ℕ) (req : CreateRequest)
    → dated body today x y ≡ some req
    → IsStay today req × (req.idempotency_key ≡ body.idempotency_key)
dated-IsStay body today none y req h = ground arith
dated-IsStay body today (some x) none req h = ground arith
dated-IsStay body today (some x) (some y) req h = ground (arith, h)

create_response-booking :
    (x : Reply (Booking × Bool)) (b : Booking)
    → (create_response x).booking ≡ some b
    → (c : Bool) × (x ≡ ok (b, c))
unfolding create_response
create_response-booking (ok (s, true)) b h = (true, ground (arith, h))
create_response-booking (ok (s, false)) b h = (false, ground (arith, h))
create_response-booking (err e) b h = ground (arith, h)

parse_create_request-IsStay :
    (clock : Clock) (body : CreateBookingRequest) (req : CreateRequest)
    → parse_create_request clock body ≡ some req
    → IsStay clock.today req × (req.idempotency_key ≡ body.idempotency_key)
unfolding parse_create_request
parse_create_request-IsStay clock body req h =
    dated-IsStay body clock.today (clock.parse_date body.check_in) (clock.parse_date body.check_out)
      req h

-- A response that carries a booking for this body: the body asks for a stay, and the booking is of
-- the caller, under the body's key and with the fingerprint of what it asks for.
abbrev pub IsResponse : Request → Clock → CreateBookingRequest → Booking → Type 0
IsResponse r clock body b =
    (req : CreateRequest) × (parse_create_request clock body ≡ some req)
    × IsStay clock.today req
    × IsAnswer r.distributor body.idempotency_key
        (r.fingerprint (record req { distributor_id = r.distributor })) b

create_parsed-IsResponse :
    (r : Request) (clock : Clock) (body : CreateBookingRequest) (parsed : Option CreateRequest)
    (w : World) (b : Booking)
    → parse_create_request clock body ≡ parsed
    → (create_parsed r parsed w).0.booking ≡ some b
    → IsResponse r clock body b
unfolding create_parsed ◌>>=◌ pure
create_parsed-IsResponse r clock body none w b e h = ground arith
create_parsed-IsResponse r clock body (some req) w b e h =
    let (c, answered) = create_response-booking (create r req w).0 b h in
    let (stay, same) = parse_create_request-IsStay clock body req e in
    (req, e, stay, rw (sym same) (create-IsAnswer r req w b c answered))

-- A response to a creation that carries a booking, in any world: the body asked for a stay of at
-- least a day that does not begin before today, and the booking is of the caller's distributor,
-- under the body's idempotency key and with the fingerprint of what the body asks for.
pub create_handler-IsResponse :
    (r : Request) (clock : Clock) (body : CreateBookingRequest) (w : World) (b : Booking)
    → (create_handler r clock (some body) w).0.booking ≡ some b
    → IsResponse r clock body b
unfolding create_handler
create_handler-IsResponse r clock body w b h =
    create_parsed-IsResponse r clock body (parse_create_request clock body) w b refl h
