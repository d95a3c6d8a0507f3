-- ===== src/Service/Create.antt =====
-- Creating and reading a booking (internal/service/booking/service.go).
use booking_orchestration_se.Base.{
  ◌+◌, ℕ, String, Bool, true, false, not, ◌&&◌, Option, none, some, if◌then◌else◌, str_eq, List, [],
  ◌∷◌, ltb,
}
use booking_orchestration_se.Model.Status.{received}
use booking_orchestration_se.Model.Booking.{
  Booking, CreateRequest, booking_not_found, idempotency_key_reused, database,
}
use booking_orchestration_se.Store.Statement.{select}
use booking_orchestration_se.World.{M, ◌>>=◌, pure, sql, Reply, ok, err}
use booking_orchestration_se.Repository.{get_by_id, insert_or_load}
use booking_orchestration_se.Orchestrator.{Orchestrator, start_booking}

-- What a request of the API runs with: its context's distributor and request id, the service's
-- supplier and orchestrator, the id that `uuid.NewV7` draws (none where it fails), and the
-- fingerprint of a request.
pub record Request : Type 0 where
  pub distributor : String
  pub request_id : Option String
  pub supplier_id : String
  pub orchestrator : Orchestrator
  pub new_id : Option ℕ
  pub fingerprint : CreateRequest → String

unfoldable pub new_booking : Request → ℕ → CreateRequest → Booking
new_booking r id req = record {
  id = id;
  distributor_id = r.distributor;
  idempotency_key = req.idempotency_key;
  request_fingerprint = r.fingerprint (record req { distributor_id = r.distributor });
  supplier_id = r.supplier_id;
  supplier_idempotency_key = none;
  supplier_reference = none;
  property_id = req.property_id;
  room_type_id = req.room_type_id;
  check_in = req.check_in;
  check_out = req.check_out;
  guest_first_name = req.guest_first_name;
  guest_last_name = req.guest_last_name;
  status = received;
  failure_reason = none;
  needs_recovery = false;
  supplier_attempts = 0;
  in_flight_attempt = none;
  version = 0;
  created_at = 0;
  updated_at = 0;
}

-- The oldest of two rows, of which the first may be missing.
abbrev older : Option Booking → Booking → Option Booking
older none b = some b
older (some a) b = if ltb b.created_at a.created_at then some b else some a

-- 24 hours, in microseconds.
abbrev pub duplicate_suspect_window : ℕ
duplicate_suspect_window = 86400000000

-- `FindPriorByFingerprint`: the oldest row of the window under another key.
unfoldable pub prior_of : String → String → String → ℕ → List Booking → Option Booking
prior_of d f k now [] = none
prior_of d f k now (b ∷ bs) =
    let rest = prior_of d f k now bs in
    if str_eq b.distributor_id d
      && str_eq b.request_fingerprint f
      && not (str_eq b.idempotency_key k)
      && ltb now (b.created_at + duplicate_suspect_window)
    then older rest b
    else rest

-- `reportDuplicateSuspect`: what is found is logged only.
unfoldable pub report_duplicate_suspect : Booking → M (Option (Option Booking))
report_duplicate_suspect b =
    sql select
      (λ db. prior_of b.distributor_id b.request_fingerprint b.idempotency_key db.now db.bookings)

-- `replay`.
unfoldable pub replay : Booking → String → Reply (Booking × Bool)
replay stored fingerprint =
    if not (str_eq stored.request_fingerprint fingerprint)
    then err idempotency_key_reused
    else ok (stored, false)

-- What follows the row: a failed start costs latency, never the booking.
unfoldable pub created : Request → String → Reply (Booking × Bool) → M (Reply (Booking × Bool))
created r fingerprint (err e) = pure (err e)
created r fingerprint (ok (b, false)) = pure (replay b fingerprint)
created r fingerprint (ok (b, true)) = do
  suspect ← report_duplicate_suspect b
  started ← start_booking r.orchestrator b.id
  pure (ok (b, true))

unfoldable pub create_with : Request → CreateRequest → Option ℕ → M (Reply (Booking × Bool))
create_with r req none = pure (err database)
create_with r req (some id) =
    insert_or_load (new_booking r id req) r.request_id
    >>= created r (new_booking r id req).request_fingerprint

-- `Service.Create`.
unfoldable pub create : Request → CreateRequest → M (Reply (Booking × Bool))
create r req = create_with r req r.new_id

-- `Service.Get`: another distributor's booking is not found.
abbrev pub owned_by : Request → Reply Booking → Reply Booking
owned_by r (err e) = err e
owned_by r (ok b) =
    if not (str_eq b.distributor_id r.distributor) then err booking_not_found else ok b

unfoldable pub get : Request → ℕ → M (Reply Booking)
get r id = get_by_id id >>= λ b. pure (owned_by r b)
