-- ===== src/System/Invariants.antt =====
-- What holds of the tables at every moment that the program can reach.
use booking_orchestration_se.Base.{ℕ, ◌≡◌, some}
use booking_orchestration_se.Model.Booking.{Booking}
use booking_orchestration_se.Store.Table.{Db, find}
use booking_orchestration_se.Store.Steps.{IsSound}
use booking_orchestration_se.Store.Lineage.{IsFaithful}
use booking_orchestration_se.Store.Faithful.{AllRows, exec-IsFaithful}
use booking_orchestration_se.Store.Sound.{exec-IsSound}
use booking_orchestration_se.Store.Later.{IsLater-refl, IsLater-trans, Persists, exec-Persists}
use booking_orchestration_se.World.Reach.{Reach, here, next, IsIssued-IsChecked}

module _ {budget : ℕ} where
  pub Reach-IsFaithful : {s t : Db} → Reach budget s t → IsFaithful s → IsFaithful t
  Reach-IsFaithful here h = h
  Reach-IsFaithful (next {t = m} r st i e) h =
      rw e (exec-IsFaithful st m (IsIssued-IsChecked budget st i) (Reach-IsFaithful r h))

  pub Reach-IsSound : {s t : Db} → Reach budget s t → AllRows IsSound s → AllRows IsSound t
  Reach-IsSound here h = h
  Reach-IsSound (next {t = m} r st i e) h =
      rw e (exec-IsSound st m (IsIssued-IsChecked budget st i) (Reach-IsSound r h))

  pub Reach-Persists :
      {s t : Db} (id : ℕ) (b : Booking)
      → Reach budget s t
      → find id s.bookings ≡ some b
      → Persists id b t
  Reach-Persists id b here h = (b, h, IsLater-refl b)
  Reach-Persists id b (next {t = m} r st i e) h =
      let (c, found, later) = Reach-Persists id b r h in
      let (d, found', later') = exec-Persists st m id c (IsIssued-IsChecked budget st i) found in
      rw e (d, found', IsLater-trans b c d later later')
