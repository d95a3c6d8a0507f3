-- ===== src/Store/Table.antt =====
-- The tables, and the reads and writes of one row by its id.
use booking_orchestration_se.Base.{
  ℕ, ◌+◌, Option, none, some, List, [], ◌∷◌, ◌&&◌, ◌≡◌, arith, ◌==◌, if◌then◌else◌, refl, str_eq,
  String,
}
use booking_orchestration_se.Model.Booking.{Booking, Event}

pub record Db : Type 0 where
  pub bookings : List Booking
  pub events : List Event
  pub next_seq : ℕ
  pub now : ℕ

unfoldable pub find : ℕ → List Booking → Option Booking
find id [] = none
find id (b ∷ bs) = if b.id == id then some b else find id bs

-- Writes `b` over the row that has its id.
unfoldable pub put : Booking → List Booking → List Booking
put b [] = []
put b (c ∷ bs) = if c.id == b.id then b ∷ bs else c ∷ put b bs

-- The row of a distributor's key, if there is one.
unfoldable pub find_key : String → String → List Booking → Option Booking
find_key d k [] = none
find_key d k (b ∷ bs) =
    if str_eq b.distributor_id d && str_eq b.idempotency_key k then some b else find_key d k bs

-- Appends a lineage row; the sequence and the clock fill in `seq` and `occurred_at`.
unfoldable pub append : Event → Db → Db
append e db = record db {
  events = record e { seq = db.next_seq; occurred_at = db.now } ∷ db.events;
  next_seq = db.next_seq + 1;
}

pub find-put :
    (id : ℕ) (b : Booking) (bs : List Booking) (old : Booking)
    → find b.id bs ≡ some old
    → find id (put b bs) ≡ (if b.id == id then some b else find id bs)
unfolding find put
find-put id b [] old h = ground arith
find-put id b (c ∷ bs) old h = ground (arith, find-put id b bs old)

pub find-id : (id : ℕ) (bs : List Booking) (b : Booking) → find id bs ≡ some b → b.id ≡ id
unfolding find
find-id id [] b h = ground arith
find-id id (c ∷ bs) b h = ground (arith, find-id id bs b)

pub find-cons :
    (id : ℕ) (b : Booking) (bs : List Booking)
    → find id (b ∷ bs) ≡ (if b.id == id then some b else find id bs)
unfolding find
find-cons id b bs = refl

pub find_self :
    (id : ℕ) (bs : List Booking) (b : Booking) → find id bs ≡ some b → find b.id bs ≡ some b
find_self id bs b h = ground (arith, find-id id bs b)

pub find-nil : (id : ℕ) → find id [] ≡ none
unfolding find
find-nil id = refl
