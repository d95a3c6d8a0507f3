-- ===== src/Store/Faithful.antt =====
-- Every statement keeps the lineage faithful to the rows, and keeps every row sound.
use booking_orchestration_se.Base.{
  ◌<◌, ℕ, ◌≡◌, refl, true, Option, none, some, arith, ◌==◌, Option-cases, Bool-cases, inl, inr,
  String, sym, ◌∙◌,
}
use mathlib.Core.Path.{subst}
use booking_orchestration_se.Model.Status.{is_valid}
use booking_orchestration_se.Model.Booking.{Booking}
use booking_orchestration_se.Store.Table.{Db, find, put, find-cons, find_self, append}
use booking_orchestration_se.Store.Rows.{Locked}
use booking_orchestration_se.Store.Statement.{
  Statement, select, insert, apply, clear_marker, append_refusal, authorize, resolve_stale, park,
  flag, elapse, on_row, write_locked, Insertion, stored, key_exists, violation, insertion,
  inserted_row, write_insertion, exec,
}
use booking_orchestration_se.Store.Steps.{
  row_after, IsStep, apply_row-IsStep, clear_marker_row-IsStep, resolve_row-IsStep, park_row-IsStep,
  flag_row-IsStep,
}
use booking_orchestration_se.Store.Effect.{
  IsChecked, find-on_row, write_locked-step, authorize_locked-IsStep,
}
use booking_orchestration_se.Store.Lineage.{
  replay, IsFaithful, recorded-replay, recorded-IsChained, refusal-IsFaithful,
}

-- Every row that is found has the property.
abbrev pub AllRows : (Booking → Type 0) → Db → Type 0
AllRows P db = (id : ℕ) (b : Booking) → find id db.bookings ≡ some b → P b

pub on_row-AllRows :
    (P : Booking → Type 0) (k : ℕ) (f : Booking → Locked) (db : Db)
    → ((b : Booking) → IsStep b (f b))
    → ((b : Booking) → P b → P (row_after (f b) b))
    → AllRows P db
    → AllRows P (on_row k f db)
on_row-AllRows P k f db steps keep all id c found = elim (Bool-cases (k == id)) [
  | inr differ ↦ all id c (sym (rw (find-on_row id k f db steps, differ)) ∙ found)
  | inl same ↦ elim (Option-cases (find k db.bookings)) [
    | inl missing ↦ cc (rw (find-on_row id k f db steps, same, missing) at found)
    | inr (b, e) ↦
        let moved : some (row_after (f b) b) ≡ some c =
          rw (find-on_row id k f db steps, same, e) at found in
        let same_row : row_after (f b) b ≡ c = cc moved in subst P same_row (keep b (all k b e))
  ]
]

write_locked-IsFaithful :
    (db : Db) (b : Booking) (l : Locked)
    → find b.id db.bookings ≡ some b
    → IsStep b l
    → IsFaithful db
    → IsFaithful (write_locked l db)
write_locked-IsFaithful db b none found s h = h
write_locked-IsFaithful db b (some (b', e)) found s h = record {
  replays = λ id.
      rw (write_locked-step id db b (some (b', e)) found s) (
        ground
          (arith, recorded-replay id db b b' h found (put b' db.bookings) e s.1, h.replays id));
  chained = λ id. recorded-IsChained id db b b' h found (put b' db.bookings) e s.1;
}

on_row-IsFaithful :
    (k : ℕ) (f : Booking → Locked) (db : Db)
    → ((b : Booking) → IsStep b (f b))
    → IsFaithful db
    → IsFaithful (on_row k f db)
unfolding on_row
on_row-IsFaithful k f db steps h = elim (Option-cases (find k db.bookings)) [
  | inl missing ↦ rw (missing, on_row) h
  | inr (b, e) ↦
      rw (e, on_row) (write_locked-IsFaithful db b (f b) (find_self k db.bookings b e) (steps b) h)
]

-- An insertion that is stored is of a new id, and passed the CHECKs.
pub stored_lem :
    (b b' : Booking) (db : Db)
    → insertion b db ≡ stored b'
    → (b' ≡ inserted_row db.now b)
      × (b'.id ≡ b.id)
      × (find b.id db.bookings ≡ none)
      × (is_valid b.status ≡ true)
      × (b.check_in < b.check_out)
unfolding insertion inserted_row
stored_lem b b' db h = ground arith

insert-IsFaithful :
    (l : Insertion) (b : Booking) (r : Option String) (db : Db)
    → insertion b db ≡ l
    → IsFaithful db
    → IsFaithful (write_insertion l r db)
unfolding append replay
insert-IsFaithful key_exists b r db e h = h
insert-IsFaithful violation b r db e h = h
insert-IsFaithful (stored b') b r db e h =
    let s = stored_lem b b' db e in
    record {
      replays = λ id. rw (find-cons id b' db.bookings) (ground (arith, h.replays id));
      chained = λ id. ground (arith, h.chained id, h.replays b.id, h.replays id, s);
    }

-- Every statement that the repository may send keeps the lineage faithful.
pub exec-IsFaithful :
    (s : Statement) (db : Db) → IsChecked s → IsFaithful db → IsFaithful (exec s db)
unfolding exec
exec-IsFaithful select db c h = h
exec-IsFaithful (insert b r) db c h = insert-IsFaithful (insertion b db) b r db refl h
exec-IsFaithful (apply id t) db c h =
    on_row-IsFaithful id _ db (λ b. apply_row-IsStep db.now b t c) h
exec-IsFaithful (clear_marker id n e) db c h =
    on_row-IsFaithful id _ db (λ b. clear_marker_row-IsStep db.now b n e) h
exec-IsFaithful (append_refusal id e) db c h = elim (Option-cases (find id db.bookings)) [
  | inl missing ↦ rw (missing, exec) h
  | inr (b, found) ↦ rw (found, exec) (refusal-IsFaithful id e db h)
]
exec-IsFaithful (authorize id m k r) db c h =
    on_row-IsFaithful id _ db (authorize_locked-IsStep db m k r) h
exec-IsFaithful (resolve_stale id r) db c h =
    on_row-IsFaithful id _ db (λ b. resolve_row-IsStep db.now b r) h
exec-IsFaithful (park id r) db c h = on_row-IsFaithful id _ db (λ b. park_row-IsStep db.now b r) h
exec-IsFaithful (flag id) db c h = on_row-IsFaithful id _ db (λ b. flag_row-IsStep db.now b) h
exec-IsFaithful (elapse n) db c h = record { replays = h.replays; chained = h.chained }
