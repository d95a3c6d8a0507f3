-- ===== src/Quiet/Sql.antt =====
-- Statements and reads in a quiet world, and what a locked statement does to the row it finds.
use booking_orchestration_se.Base.{ℕ, ◌≡◌, refl, false, none, some, String, List, [], ◌∷◌, arith}
use booking_orchestration_se.Model.Booking.{Booking}
use booking_orchestration_se.Supplier.Client.{BookRequest}
use booking_orchestration_se.Store.Table.{Db, find, put, find-put}
use booking_orchestration_se.Store.Rows.{Locked}
use booking_orchestration_se.Store.Statement.{exec, on_row, write_locked, key_taken, authorized_key}
use booking_orchestration_se.Store.Steps.{row_after, IsStep}
use booking_orchestration_se.Store.Effect.{bookings-logged}
use booking_orchestration_se.World.{World, ◌>>=◌, pure, sql, ok}
use booking_orchestration_se.Repository.{get_by_id}

-- A world whose schedule has run out, and nothing has been kept of it.
abbrev pub quiet : Db → List BookRequest → List ℕ → List (ℕ × String) → List ℕ → World
quiet db calls starts signals waits = record {
  db = db;
  schedule = [];
  elsewhere = [];
  calls = calls;
  starts = starts;
  signals = signals;
  waits = waits;
}

-- The keys of the other rows stand.
key_taken-put :
    (id : ℕ) (supplier k : String) (b : Booking) (bs : List Booking)
    → b.id ≡ id
    → key_taken id supplier k (put b bs) ≡ key_taken id supplier k bs
unfolding key_taken put
key_taken-put id supplier k b [] h = refl
key_taken-put id supplier k b (c ∷ bs) h = ground (arith, key_taken-put id supplier k b bs h)

-- The row of `id` is `b`, and no other row has its supplier's key.
pub record At (db : Db) (id : ℕ) (key : String) (b : Booking) : Type 0 where
  pub found : find id db.bookings ≡ some b
  pub named : b.id ≡ id
  pub free : key_taken id b.supplier_id (authorized_key key b) db.bookings ≡ false

write_locked-At :
    (db : Db) (id : ℕ) (key : String) (b : Booking) (l : Locked)
    → At db id key b
    → IsStep b l
    → authorized_key key (row_after l b) ≡ authorized_key key b
    → At (write_locked l db) id key (row_after l b)
write_locked-At db id key b none h s k = h
write_locked-At db id key b (some (b', e)) h s k = record {
  found =
      rw (bookings-logged e (record db { bookings = put b' db.bookings }))
        (ground (arith, find-put id b' db.bookings b, h.found, h.named, s.0.same_id));
  named = ground (arith, h.named, s.0.same_id);
  free = rw (bookings-logged e (record db { bookings = put b' db.bookings })) (
      rw
        (
          key_taken-put id b'.supplier_id (authorized_key key b') b' db.bookings
              (ground (arith, h.named, s.0.same_id)),
          k,
          s.0.same_supplier,
        )
        h.free);
}

-- A locked statement on the row that is found.
pub on_row-At :
    (db : Db) (id : ℕ) (key : String) (b : Booking) (f : Booking → Locked)
    → At db id key b
    → IsStep b (f b)
    → authorized_key key (row_after (f b) b) ≡ authorized_key key b
    → At (on_row id f db) id key (row_after (f b) b)
unfolding on_row
on_row-At db id key b f h s k = rw (h.found, on_row) (write_locked-At db id key b (f b) h s k)

module _ (db : Db) (calls : List BookRequest) (starts : List ℕ) (signals : List (ℕ × String))
    (waits : List ℕ) where
  pub get_by_id-quiet :
      (id : ℕ) {b : Booking}
      → find id db.bookings ≡ some b
      → get_by_id id (quiet db calls starts signals waits)
        ≡ (ok b, quiet db calls starts signals waits)
  unfolding get_by_id ◌>>=◌ pure sql exec
  get_by_id-quiet id h = rw h
