-- ===== src/Store/Sound.antt =====
-- Every statement keeps every row sound.
use booking_orchestration_se.Base.{
  ℕ, ◌≡◌, ◌<◌, refl, true, some, arith, ◌==◌, Option-cases, Bool-cases, inl, inr,
}
use booking_orchestration_se.Model.Status.{is_valid}
use booking_orchestration_se.Model.Booking.{Booking}
use booking_orchestration_se.Store.Table.{Db, find, find-cons, append}
use booking_orchestration_se.Store.Statement.{
  Statement, select, insert, apply, clear_marker, append_refusal, authorize, resolve_stale, park,
  flag, elapse, Insertion, stored, key_exists, violation, insertion, inserted_row, write_insertion,
  authorize_locked, exec, clashes,
}
use booking_orchestration_se.Store.Steps.{
  row_after, IsSound, apply_row-IsStep, clear_marker_row-IsStep, resolve_row-IsStep,
  park_row-IsStep, flag_row-IsStep, apply_row-IsSound, clear_marker_row-IsSound,
  authorize_row-IsSound, resolve_row-IsSound, park_row-IsSound, flag_row-IsSound,
}
use booking_orchestration_se.Store.Effect.{IsChecked, authorize_locked-IsStep}
use booking_orchestration_se.Store.Faithful.{AllRows, on_row-AllRows, stored_lem}

authorize_locked-IsSound :
    (db : Db) (m : ℕ) (k : _) (r : _) (b : Booking)
    → IsSound b
    → IsSound (row_after (authorize_locked db m k r b) b)
authorize_locked-IsSound db m k r b h = elim (Bool-cases (clashes db m k b)) [
  | inl clash ↦ rw clash h
  | inr free ↦ rw free (authorize_row-IsSound db.now b h m k r)
]

inserted_row-IsSound :
    (now : ℕ) (b : Booking)
    → is_valid b.status ≡ true
    → b.check_in < b.check_out
    → IsSound (inserted_row now b)
unfolding inserted_row
inserted_row-IsSound now b v c = ground arith

insert-AllRows :
    (l : Insertion) (b : Booking) (r : _) (db : Db)
    → insertion b db ≡ l
    → AllRows IsSound db
    → AllRows IsSound (write_insertion l r db)
unfolding append
insert-AllRows key_exists b r db e h id c found = h id c found
insert-AllRows violation b r db e h id c found = h id c found
insert-AllRows (stored b') b r db e h id c found =
    let s = stored_lem b b' db e in
    let sound : IsSound b' = rw s.0 (inserted_row-IsSound db.now b s.3 s.4) in
    elim (Bool-cases (b'.id == id)) [
      | inl same ↦
          let row : some b' ≡ some c = rw (find-cons id b' db.bookings, same) at found in
          let same_row : b' ≡ c = cc row in rw (← same_row) sound
      | inr differ ↦ h id c (rw (find-cons id b' db.bookings, differ) at found)
    ]

-- Every statement that the repository may send keeps every row sound.
pub exec-IsSound :
    (s : Statement) (db : Db) → IsChecked s → AllRows IsSound db → AllRows IsSound (exec s db)
unfolding exec
exec-IsSound select db c h = h
exec-IsSound (insert b r) db c h = insert-AllRows (insertion b db) b r db refl h
exec-IsSound (apply id t) db c h =
    on_row-AllRows IsSound id _ db (λ b. apply_row-IsStep db.now b t c)
      (λ b s. apply_row-IsSound db.now b s t c) h
exec-IsSound (clear_marker id n e) db c h =
    on_row-AllRows IsSound id _ db (λ b. clear_marker_row-IsStep db.now b n e)
      (λ b s. clear_marker_row-IsSound db.now b s n e) h
exec-IsSound (append_refusal id e) db c h = elim (Option-cases (find id db.bookings)) [
  | inl missing ↦ rw (missing, exec) h
  | inr (b, found) ↦ rw (found, exec) (unfold append in h)
]
exec-IsSound (authorize id m k r) db c h =
    on_row-AllRows IsSound id _ db (authorize_locked-IsStep db m k r)
      (authorize_locked-IsSound db m k r) h
exec-IsSound (resolve_stale id r) db c h =
    on_row-AllRows IsSound id _ db (λ b. resolve_row-IsStep db.now b r)
      (λ b s. resolve_row-IsSound db.now b s r) h
exec-IsSound (park id r) db c h =
    on_row-AllRows IsSound id _ db (λ b. park_row-IsStep db.now b r)
      (λ b s. park_row-IsSound db.now b s r) h
exec-IsSound (flag id) db c h =
    on_row-AllRows IsSound id _ db (λ b. flag_row-IsStep db.now b)
      (λ b s. flag_row-IsSound db.now b s) h
exec-IsSound (elapse n) db c h = h
