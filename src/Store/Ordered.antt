-- ===== src/Store/Ordered.antt =====
-- The lineage is kept in the order of its sequence.
use booking_orchestration_se.Base.{
  ℕ, ◌<◌, arith, Option, none, some, List, [], ◌∷◌, Option-cases, inl, inr,
}
use booking_orchestration_se.Model.Booking.{Booking, Event}
use booking_orchestration_se.Store.Table.{Db, find, append}
use booking_orchestration_se.Store.Rows.{Locked}
use booking_orchestration_se.Store.Lineage.{empty}
use booking_orchestration_se.Store.Statement.{
  Statement, select, insert, apply, clear_marker, append_refusal, authorize, resolve_stale, park,
  flag, elapse, exec, on_row, write_locked, Insertion, stored, key_exists, violation, insertion,
  write_insertion,
}

-- Newest first, each before the next sequence number and after the rows below it.
abbrev pub IsBelow : ℕ → List Event → Type 0
IsBelow n [] = Unit
IsBelow n (e ∷ es) = (e.seq < n) × IsBelow e.seq es

abbrev pub IsOrdered : Db → Type 0
IsOrdered db = IsBelow db.next_seq db.events

append-IsOrdered : (e : Event) (db : Db) → IsOrdered db → IsOrdered (append e db)
unfolding append
append-IsOrdered e db h = (omega arith, h)

write_locked-IsOrdered : (l : Locked) (db : Db) → IsOrdered db → IsOrdered (write_locked l db)
write_locked-IsOrdered none db h = h
write_locked-IsOrdered (some (b, none)) db h = h
write_locked-IsOrdered (some (b, some e)) db h = append-IsOrdered e (record db { bookings = _ }) h

on_row-IsOrdered :
    (id : ℕ) (f : Booking → Locked) (db : Db) → IsOrdered db → IsOrdered (on_row id f db)
unfolding on_row
on_row-IsOrdered id f db h = elim (Option-cases (find id db.bookings)) [
  | inl missing ↦ rw (missing, on_row) h
  | inr (b, found) ↦ rw (found, on_row) (write_locked-IsOrdered (f b) db h)
]

write_insertion-IsOrdered :
    (i : Insertion) (r : Option _) (db : Db) → IsOrdered db → IsOrdered (write_insertion i r db)
write_insertion-IsOrdered (stored b) r db h = append-IsOrdered _ (record db { bookings = _ }) h
write_insertion-IsOrdered key_exists r db h = h
write_insertion-IsOrdered violation r db h = h

pub exec-IsOrdered : (s : Statement) (db : Db) → IsOrdered db → IsOrdered (exec s db)
unfolding exec
exec-IsOrdered select db h = h
exec-IsOrdered (insert b r) db h = write_insertion-IsOrdered (insertion b db) r db h
exec-IsOrdered (apply id t) db h = on_row-IsOrdered id _ db h
exec-IsOrdered (clear_marker id n e) db h = on_row-IsOrdered id _ db h
exec-IsOrdered (append_refusal id e) db h = elim (Option-cases (find id db.bookings)) [
  | inl missing ↦ rw (missing, exec) h
  | inr (b, found) ↦ rw (found, exec) (append-IsOrdered _ db h)
]
exec-IsOrdered (authorize id m k r) db h = on_row-IsOrdered id _ db h
exec-IsOrdered (resolve_stale id r) db h = on_row-IsOrdered id _ db h
exec-IsOrdered (park id r) db h = on_row-IsOrdered id _ db h
exec-IsOrdered (flag id) db h = on_row-IsOrdered id _ db h
exec-IsOrdered (elapse n) db h = h

pub empty-IsOrdered : IsOrdered empty
empty-IsOrdered = tt
