-- ===== src/Store/Lineage.antt =====
-- The lineage against the rows. Replaying a booking's lineage rows, oldest first, gives the status
-- that its row has; a row that records a move starts from the status that stood there and follows
-- an edge of the table.
use booking_orchestration_se.Base.{
  refl, ℕ, ◌≡◌, ◌⊎◌, true, Option, none, some, List, [], ◌∷◌, arith, ◌==◌, if◌then◌else◌,
}
use booking_orchestration_se.Model.Status.{Status, may_move, status_eq}
use booking_orchestration_se.Model.Status.Laws.{status_eq_iff}
use booking_orchestration_se.Model.Booking.{Booking, Event}
use booking_orchestration_se.Store.Table.{Db, find, find-nil, append}
use booking_orchestration_se.Store.Statement.{logged, refusal_event}
use booking_orchestration_se.Store.Steps.{IsRecorded}

-- The status after one more lineage row: one that stays changes nothing.
abbrev pub follow : Option Status → Status → Option Status → Option Status
follow none to old = some to
follow (some from) to old = if status_eq from to then old else some to

unfoldable pub replay : ℕ → List Event → Option Status
replay id [] = none
replay id (e ∷ es) =
    let old = replay id es in
    if e.booking_id == id then follow e.from_status e.to_status old else old

-- What a lineage row may be, after the rows below it: a first one, a stay, or an edge.
abbrev Follows : Option Status → Status → Option Status → Type 0
Follows none to old = old ≡ none
Follows (some from) to old = (from ≡ to) ⊎ ((old ≡ some from) × (may_move from to ≡ true))

abbrev pub IsChained : ℕ → List Event → Type 0
IsChained id [] = Unit
IsChained id (e ∷ es) =
    (e.booking_id ≡ id → Follows e.from_status e.to_status (replay id es)) × IsChained id es

abbrev pub status_of : Option Booking → Option Status
status_of none = none
status_of (some b) = some b.status

pub record IsFaithful (db : Db) : Type 0 where
  pub replays : (id : ℕ) → replay id db.events ≡ status_of (find id db.bookings)
  pub chained : (id : ℕ) → IsChained id db.events

-- The tables before the first statement.
abbrev pub empty : Db
empty = record { bookings = []; events = []; next_seq = 1; now = 0 }

-- One locked statement that appends `e`, seen from booking `id`.
module _ (id : ℕ) (db : Db) (b b' : Booking) (h : IsFaithful db)
    (found : find b.id db.bookings ≡ some b) (bs : List Booking) where
  pub recorded-replay :
      (e : Option Event)
      → IsRecorded b b' e
      → replay id (logged e (record db { bookings = bs })).events
        ≡ (if b.id == id then some b'.status else replay id db.events)
  unfolding append replay
  recorded-replay none r = ground (arith, h.replays b.id, h.replays id)
  recorded-replay (some e) r = ground (arith, h.replays b.id, status_eq_iff b.status b'.status)

  pub recorded-IsChained :
      (e : Option Event)
      → IsRecorded b b' e
      → IsChained id (logged e (record db { bookings = bs })).events
  unfolding append replay
  recorded-IsChained none r = h.chained id
  recorded-IsChained (some e) r = ground (arith, h.chained id, h.replays b.id)

-- A refusal stays where its writer last saw the booking, so it moves nothing.
pub refusal-IsFaithful :
    (id : ℕ) (e : Event) (db : Db) → IsFaithful db → IsFaithful (append (refusal_event id e) db)
unfolding append replay refusal_event
refusal-IsFaithful id e db h = record {
  replays = λ k. ground (arith, h.replays k, status_eq_iff e.to_status e.to_status);
  chained = λ k. ground (arith, h.chained k);
}

pub empty-IsFaithful : IsFaithful empty
unfolding replay
empty-IsFaithful = record { replays = λ id. rw find-nil refl; chained = λ id. tt }
