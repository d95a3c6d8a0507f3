-- ===== src/System/Budget.antt =====
-- At every moment that the program can reach, attempts keep to the budget, and a booking in doubt
-- is never called FAILED.
use booking_orchestration_se.Base.{
  ℕ, ◌≡◌, refl, some, arith, Bool-cases, Option-cases, inl, inr, Option, String, ◌==◌,
}
use booking_orchestration_se.Model.Status.{received}
use booking_orchestration_se.Model.Booking.{Booking}
use booking_orchestration_se.Store.Table.{Db, find, find-cons, append}
use booking_orchestration_se.Store.Statement.{
  Statement, select, insert, apply, clear_marker, append_refusal, authorize, resolve_stale, park,
  flag, elapse, exec, Insertion, stored, key_exists, violation, insertion, inserted_row,
  write_insertion,
}
use booking_orchestration_se.Store.Steps.{
  apply_row-IsStep, clear_marker_row-IsStep, resolve_row-IsStep, park_row-IsStep, flag_row-IsStep,
}
use booking_orchestration_se.Store.Effect.{authorize_locked-IsStep}
use booking_orchestration_se.Store.Faithful.{AllRows, on_row-AllRows, stored_lem}
use booking_orchestration_se.World.Reach.{Reach, here, next, IsIssued}
use booking_orchestration_se.System.Doubt.{
  IsBudgeted, Outlives, on_row-Keeps, apply_row-kept, clear_marker_row-kept, authorize_locked-kept,
  resolve_row-kept, park_row-kept, flag_row-kept,
}

module _ (budget : ℕ) where
  insert-IsBudgeted :
      (l : Insertion) (b : Booking) (r : Option String) (db : Db)
      → insertion b db ≡ l
      → b.status ≡ received
      → AllRows (IsBudgeted budget) db
      → AllRows (IsBudgeted budget) (write_insertion l r db)
  unfolding append inserted_row
  insert-IsBudgeted key_exists b r db e i h id c found = h id c found
  insert-IsBudgeted violation b r db e i h id c found = h id c found
  insert-IsBudgeted (stored b') b r db e i h id c found =
      let s = stored_lem b b' db e in
      let fresh : IsBudgeted budget b' = rw s.0 (ground arith) in
      elim (Bool-cases (b'.id == id)) [
        | inl same ↦
            let row : some b' ≡ some c = rw (find-cons id b' db.bookings, same) at found in
            let same_row : b' ≡ c = cc row in rw (← same_row) fresh
        | inr differ ↦ h id c (rw (find-cons id b' db.bookings, differ) at found)
      ]

  exec-IsBudgeted :
      (s : Statement) (db : Db)
      → IsIssued budget s
      → AllRows (IsBudgeted budget) db
      → AllRows (IsBudgeted budget) (exec s db)
  unfolding exec
  exec-IsBudgeted select db i h = h
  exec-IsBudgeted (insert b r) db i h = insert-IsBudgeted (insertion b db) b r db refl i h
  exec-IsBudgeted (apply id t) db i h =
      on_row-AllRows (IsBudgeted budget) id _ db (λ b. apply_row-IsStep db.now b t i.0)
        (λ b. (apply_row-kept db.now budget b id t i).0) h
  exec-IsBudgeted (clear_marker id n e) db i h =
      on_row-AllRows (IsBudgeted budget) id _ db (λ b. clear_marker_row-IsStep db.now b n e)
        (λ b. (clear_marker_row-kept db.now budget b n e).0) h
  exec-IsBudgeted (append_refusal id e) db i h = elim (Option-cases (find id db.bookings)) [
    | inl missing ↦ rw (missing, exec) h
    | inr (b, found) ↦ rw (found, exec) (unfold append in h)
  ]
  exec-IsBudgeted (authorize id m k r) db i h =
      on_row-AllRows (IsBudgeted budget) id _ db (authorize_locked-IsStep db m k r)
        (λ b. (authorize_locked-kept budget db m k r b i).0) h
  exec-IsBudgeted (resolve_stale id r) db i h =
      on_row-AllRows (IsBudgeted budget) id _ db (λ b. resolve_row-IsStep db.now b r)
        (λ b. (resolve_row-kept db.now budget b r).0) h
  exec-IsBudgeted (park id r) db i h =
      on_row-AllRows (IsBudgeted budget) id _ db (λ b. park_row-IsStep db.now b r)
        (λ b. (park_row-kept db.now budget b r).0) h
  exec-IsBudgeted (flag id) db i h =
      on_row-AllRows (IsBudgeted budget) id _ db (λ b. flag_row-IsStep db.now b)
        (λ b. (flag_row-kept db.now budget b).0) h
  exec-IsBudgeted (elapse n) db i h = h

  pub Reach-IsBudgeted :
      {s t : Db} → Reach budget s t → AllRows (IsBudgeted budget) s → AllRows (IsBudgeted budget) t
  Reach-IsBudgeted here h = h
  Reach-IsBudgeted (next {t = m} r st i e) h = rw e (exec-IsBudgeted st m i (Reach-IsBudgeted r h))

  -- The row of an id, in a state that outlives failure.
  abbrev pub Stands : ℕ → Db → Type 0
  Stands id db = (c : Booking) × (find id db.bookings ≡ some c) × Outlives c

  insert-Stands :
      (l : Insertion) (b : Booking) (r : Option String) (db : Db) (id : ℕ) (c : Booking)
      → insertion b db ≡ l
      → find id db.bookings ≡ some c
      → Outlives c
      → Stands id (write_insertion l r db)
  unfolding append
  insert-Stands key_exists b r db id c e found p = (c, found, p)
  insert-Stands violation b r db id c e found p = (c, found, p)
  insert-Stands (stored b') b r db id c e found p =
      (c, rw (find-cons id b' db.bookings) (ground (arith, stored_lem b b' db e)), p)

  exec-Stands :
      (s : Statement) (db : Db) (id : ℕ) (b : Booking)
      → IsIssued budget s
      → find id db.bookings ≡ some b
      → Outlives b
      → Stands id (exec s db)
  unfolding exec
  exec-Stands select db id b i h p = (b, h, p)
  exec-Stands (insert n r) db id b i h p = insert-Stands (insertion n db) n r db id b refl h p
  exec-Stands (apply k t) db id b i h p =
      on_row-Keeps Outlives id k _ db b (λ a. apply_row-IsStep db.now a t i.0)
        (apply_row-kept db.now budget b k t i).1 h p
  exec-Stands (clear_marker k n e) db id b i h p =
      on_row-Keeps Outlives id k _ db b (λ a. clear_marker_row-IsStep db.now a n e)
        (clear_marker_row-kept db.now budget b n e).1 h p
  exec-Stands (append_refusal k e) db id b i h p = elim (Option-cases (find k db.bookings)) [
    | inl missing ↦ rw (missing, exec) (b, h, p)
    | inr (a, found) ↦ rw (found, exec) (unfold append in (b, h, p))
  ]
  exec-Stands (authorize k m key r) db id b i h p =
      on_row-Keeps Outlives id k _ db b (authorize_locked-IsStep db m key r)
        (authorize_locked-kept budget db m key r b i).1 h p
  exec-Stands (resolve_stale k r) db id b i h p =
      on_row-Keeps Outlives id k _ db b (λ a. resolve_row-IsStep db.now a r)
        (resolve_row-kept db.now budget b r).1 h p
  exec-Stands (park k r) db id b i h p =
      on_row-Keeps Outlives id k _ db b (λ a. park_row-IsStep db.now a r)
        (park_row-kept db.now budget b r).1 h p
  exec-Stands (flag k) db id b i h p =
      on_row-Keeps Outlives id k _ db b (λ a. flag_row-IsStep db.now a)
        (flag_row-kept db.now budget b).1 h p
  exec-Stands (elapse n) db id b i h p = (b, h, p)

  pub Reach-Stands :
      {s t : Db} (id : ℕ) (b : Booking)
      → Reach budget s t
      → find id s.bookings ≡ some b
      → Outlives b
      → Stands id t
  Reach-Stands id b here h p = (b, h, p)
  Reach-Stands id b (next {t = m} r st i e) h p =
      let (c, found, q) = Reach-Stands id b r h p in rw e (exec-Stands st m id c i found q)
