-- ===== src/Store/Effect.antt =====
-- What a statement does to each row: `on_row` touches the row of its id and no other.
use booking_orchestration_se.Base.{
  ℕ, ◌≡◌, refl, Option, none, some, arith, ◌==◌, if◌then◌else◌, Option-cases, inl, inr, Bool-cases,
  true,
}
use booking_orchestration_se.Model.Booking.{Booking, Event}
use booking_orchestration_se.Model.Status.{may_move}
use booking_orchestration_se.Store.Table.{Db, find, put, find-put, find-id, append}
use booking_orchestration_se.Store.Rows.{Locked}
use booking_orchestration_se.Store.Statement.{
  Statement, apply, on_row, write_locked, logged, clashes, authorize_locked,
}
use booking_orchestration_se.Store.Steps.{row_after, IsStep, authorize_row-IsStep}

-- `Repo.Apply` checks the edge before it sends the statement.
abbrev pub IsChecked : Statement → Type 0
IsChecked (apply _ t) = may_move t.from t.to ≡ true
IsChecked _ = Unit {0}

pub bookings-logged : (e : Option Event) (db : Db) → (logged e db).bookings ≡ db.bookings
unfolding append
bookings-logged none db = refl
bookings-logged (some e) db = refl

pub write_locked-step :
    (id : ℕ) (db : Db) (b : Booking) (l : Locked)
    → find b.id db.bookings ≡ some b
    → IsStep b l
    → find id (write_locked l db).bookings
      ≡ (if b.id == id then some (row_after l b) else find id db.bookings)
write_locked-step id db b none h s = elim (Bool-cases (b.id == id)) [
  | inl same ↦ ground (arith, h)
  | inr differ ↦ rw differ refl
]
write_locked-step id db b (some (b', e)) h s =
    rw (bookings-logged e (record db { bookings = put b' db.bookings }))
      (ground (arith, find-put id b' db.bookings b))

-- The row of `id` after a locked statement on the row of `k`.
pub find-on_row :
    (id k : ℕ) (f : Booking → Locked) (db : Db)
    → ((b : Booking) → IsStep b (f b))
    → find id (on_row k f db).bookings ≡ (
        if k == id
        then elim (find k db.bookings) [ none ↦ none | some b ↦ some (row_after (f b) b) ]
        else find id db.bookings)
unfolding on_row
find-on_row id k f db steps = elim (Option-cases (find k db.bookings)) [
  | inl missing ↦ rw missing (ground (arith, missing))
  | inr (b, found) ↦
      rw found
        (ground (arith, found, find-id k db.bookings b, write_locked-step id db b (f b), steps b))
]

pub authorize_locked-IsStep :
    (db : Db) (m : ℕ) (k : _) (r : _) (b : Booking) → IsStep b (authorize_locked db m k r b)
authorize_locked-IsStep db m k r b = elim (Bool-cases (clashes db m k b)) [
  | inl clash ↦ rw clash tt
  | inr free ↦ rw free (authorize_row-IsStep db.now b m k r)
]
