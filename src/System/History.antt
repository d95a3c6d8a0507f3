-- ===== src/System/History.antt =====
-- What `Events` shows of a booking's life.
use booking_orchestration_se.Base.{ℕ, ◌≡◌, ◌⊎◌, inl, inr, refl, none, List, All}
use booking_orchestration_se.Model.Booking.{Event, database}
use booking_orchestration_se.Store.Table.{Db, find}
use booking_orchestration_se.Store.Statement.{exec}
use booking_orchestration_se.Store.Lineage.{IsFaithful, status_of, empty-IsFaithful}
use booking_orchestration_se.Store.Ordered.{IsOrdered, exec-IsOrdered, empty-IsOrdered}
use booking_orchestration_se.World.{
  World, Fate, answered, refused, lost, Turn, ◌>>=◌, pure, sql, exec_all, next_turn, ok, err,
}
use booking_orchestration_se.World.Reach.{Reach, here, next, Reach-trans}
use booking_orchestration_se.World.Refines.{IsFair, exec_all-Reach, others-IsIssued}
use booking_orchestration_se.Repository.Lineage.{events, lineage}
use booking_orchestration_se.Repository.Replay.{read_through, read_through-lineage}
use booking_orchestration_se.System.{Job, serve_all, KeepsBudget, serve_all-Reach, serve_all-IsFair}
use booking_orchestration_se.System.Invariants.{Reach-IsFaithful}
use booking_orchestration_se.System.Lives.{start}

Reach-IsOrdered : (budget : ℕ) {s t : Db} → Reach budget s t → IsOrdered s → IsOrdered t
Reach-IsOrdered budget here h = h
Reach-IsOrdered budget (next {t = m} r st i e) h =
    rw e (exec-IsOrdered st m (Reach-IsOrdered budget r h))

-- The query fails, or its rows are read to the status of the booking's row.
abbrev pub IsHistory : ℕ → World → Type 0
IsHistory id w =
    ((events id w).0 ≡ err database)
    ⊎ ((es : List Event) × ((events id w).0 ≡ ok es)
        × (read_through none es ≡ status_of (find id (events id w).1.db.bookings)))

read-IsHistory :
    (id : ℕ) (w : World) (f : Fate)
    → (next_turn w.schedule).fate ≡ f
    → IsFaithful (exec_all (next_turn w.schedule).others w.db)
    → IsOrdered (exec_all (next_turn w.schedule).others w.db)
    → IsHistory id w
unfolding events ◌>>=◌ pure sql exec
read-IsHistory id w answered e faithful ordered = rw e (
    inr (
      lineage id (exec_all (next_turn w.schedule).others w.db).events,
      refl,
      rw (read_through-lineage id _ _ ordered) (faithful.replays id),
    ))
read-IsHistory id w refused e faithful ordered = inl (rw e refl)
read-IsHistory id w lost e faithful ordered = inl (rw e refl)

module _ (budget : ℕ) (js : List Job) (turns : List Turn) (kept : All (KeepsBudget budget) js)
    (fair : IsFair budget turns) where
  -- From an empty database, with fair jobs, sessions and failures as in `lives-IsFaithful`: what
  -- `Events` then answers for any id is an error of the driver, or rows in the order of their
  -- sequence whose statuses, followed from the first row to the last, lead to the status that the
  -- booking's row has when they are read (to none where there is no row).
  pub lives-IsHistory : (id : ℕ) → IsHistory id (serve_all js (start turns))
  lives-IsHistory id =
      let w = serve_all js (start turns) in
      let reached = Reach-trans (serve_all-Reach budget js (start turns) kept fair) (
        exec_all-Reach budget (next_turn w.schedule).others w.db (
          others-IsIssued budget w.schedule
            (serve_all-IsFair budget js (start turns) kept fair))) in
      read-IsHistory id w (next_turn w.schedule).fate refl
        (Reach-IsFaithful reached empty-IsFaithful) (Reach-IsOrdered budget reached empty-IsOrdered)
