-- ===== src/Service/Own.antt =====
-- Whom `Get` answers.
use booking_orchestration_se.Base.{ℕ, ◌≡◌, true, str_eq, arith}
use booking_orchestration_se.Model.Booking.{Booking}
use booking_orchestration_se.World.{World, ◌>>=◌, pure, Reply, ok}
use booking_orchestration_se.Repository.{get_by_id}
use booking_orchestration_se.Service.Create.{Request, owned_by, get}

owned_by-own :
    (r : Request) (found : Reply Booking) (b : Booking)
    → owned_by r found ≡ ok b
    → str_eq b.distributor_id r.distributor ≡ true
owned_by-own r found b h = ground arith

-- A booking that `Get` returns is the caller's own, in any world: whatever the other sessions do,
-- and whether or not the query is answered.
pub get-own :
    (r : Request) (id : ℕ) (w : World) (b : Booking)
    → (get r id w).0 ≡ ok b
    → str_eq b.distributor_id r.distributor ≡ true
unfolding get ◌>>=◌ pure
get-own r id w b h = owned_by-own r (get_by_id id w).0 b h
