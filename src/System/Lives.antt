-- ===== src/System/Lives.antt =====
-- The lives of bookings under any jobs, any interleaving of the sessions and any failures of the
-- database.
use booking_orchestration_se.World.Charge.{calls_for, attempts_of, taken}
use booking_orchestration_se.Base.{
  ℕ, ◌≡◌, some, List, [], All, arith, String, Option, Option-cases, inl, inr, ◌≤◌, ◌+◌,
}
use booking_orchestration_se.Model.Status.{unknown}
use booking_orchestration_se.Model.Booking.{Booking}
use booking_orchestration_se.Store.Table.{find, find-nil, Db}
use booking_orchestration_se.Store.Steps.{IsSound}
use booking_orchestration_se.Store.Lineage.{IsFaithful, empty, empty-IsFaithful}
use booking_orchestration_se.Store.Faithful.{AllRows}
use booking_orchestration_se.Store.Later.{Persists}
use booking_orchestration_se.World.{World, Turn}
use booking_orchestration_se.World.Refines.{IsFair}
use booking_orchestration_se.System.{
  Job, serve_all, KeepsBudget, serve_all-Reach, ReadsIds, serve_all-IsCharged,
}
use booking_orchestration_se.System.Invariants.{Reach-IsFaithful, Reach-IsSound, Reach-Persists}
use booking_orchestration_se.System.Doubt.{IsBudgeted}
use booking_orchestration_se.System.Budget.{Stands, Reach-IsBudgeted, Reach-Stands}
use booking_orchestration_se.System.Unique.{HasUniqueKeys, Reach-HasUniqueKeys}

-- An empty database, with a schedule for what happens to it.
abbrev pub start : List Turn → World
start turns = record {
  db = empty;
  schedule = turns;
  elsewhere = [];
  calls = [];
  starts = [];
  signals = [];
  waits = [];
}

empty-AllRows : (P : Booking → Type 0) → AllRows P empty
empty-AllRows P id b found = cc (rw find-nil at found)

-- A count of attempts is that of a row, or none.
attempts-budgeted :
    {budget : ℕ} (id : ℕ) (db : Db) → AllRows (IsBudgeted budget) db → attempts_of id db ≤ budget
unfolding attempts_of
attempts-budgeted id db h = elim (Option-cases (find id db.bookings)) [
  | inl missing ↦ rw (missing, attempts_of) (omega arith)
  | inr (b, found) ↦ rw (found, attempts_of) (h id b found).within
]

module _ (budget : ℕ) (js : List Job) (turns : List Turn) (kept : All (KeepsBudget budget) js)
    (fair : IsFair budget turns) where
  -- From an empty database, whatever jobs are served (each workflow within the budget), whatever
  -- statements of this program other sessions commit between two statements, and whichever
  -- statements fail, also after they were committed: the lineage of every booking id replays to the
  -- status of its row (to none where there is no row), and each lineage row is a first one, one
  -- that stays, or an edge of the state machine from the status that stood before it.
  pub lives-IsFaithful : IsFaithful (serve_all js (start turns)).db
  lives-IsFaithful =
      Reach-IsFaithful (serve_all-Reach budget js (start turns) kept fair) empty-IsFaithful

  -- From an empty database, with fair jobs, sessions and failures as in `lives-IsFaithful`, every row has a known status and a stay of at least a day, its marker
  -- is at most its count of attempts and is set only in PENDING or UNKNOWN, and a RECEIVED booking
  -- has no attempt.
  pub lives-IsSound : AllRows IsSound (serve_all js (start turns)).db
  lives-IsSound =
      Reach-IsSound (serve_all-Reach budget js (start turns) kept fair) (empty-AllRows IsSound)

  -- From an empty database, with fair jobs, sessions and failures as in `lives-IsFaithful`, no row counts more attempts than the budget, and every row that has
  -- left RECEIVED counts at least one.
  pub lives-IsBudgeted : AllRows (IsBudgeted budget) (serve_all js (start turns)).db
  lives-IsBudgeted =
      Reach-IsBudgeted budget (serve_all-Reach budget js (start turns) kept fair)
        (empty-AllRows (IsBudgeted budget))

  -- From an empty database, with fair jobs, sessions and failures as in `lives-IsFaithful`, two rows of one distributor under one idempotency key are one row.
  pub lives-HasUniqueKeys : HasUniqueKeys (serve_all js (start turns)).db
  lives-HasUniqueKeys =
      Reach-HasUniqueKeys (serve_all-Reach budget js (start turns) kept fair)
        (λ i j b c fb fc d k. cc (rw find-nil at fb))

  -- From an empty database, with fair jobs, sessions and failures as in `lives-IsFaithful`, and
  -- jobs that read booking ids alike: the requests for an id that these jobs sent to the supplier,
  -- and the attempts of it that the statements of other sessions were granted in between, are
  -- together no more than its row counts attempts, which is no more than the budget.
  pub lives-IsCharged :
      (parse : String → Option ℕ) (id : ℕ)
      → All (ReadsIds budget parse) js
      → (calls_for parse id (serve_all js (start turns)).calls
            + taken id (serve_all js (start turns)).elsewhere
          ≤ attempts_of id (serve_all js (start turns)).db)
        × (attempts_of id (serve_all js (start turns)).db ≤ budget)
  unfolding calls_for attempts_of find taken
  lives-IsCharged parse id reads =
      let charged = serve_all-IsCharged budget parse js (start turns) kept reads fair id in
      (omega arith, attempts-budgeted id (serve_all js (start turns)).db lives-IsBudgeted)

module _ (budget : ℕ) (js : List Job) (w : World) (kept : All (KeepsBudget budget) js)
    (fair : IsFair budget w.schedule) (id : ℕ) (b : Booking)
    (found : find id w.db.bookings ≡ some b) where
  -- From any tables, whatever jobs are served and however the sessions interleave and fail, a
  -- booking that stands before them stands after them: under the same id, distributor,
  -- idempotency key and fingerprint, with a version and a count of attempts that are no smaller,
  -- with the supplier's key that it had if it had one, in a status that does not lie before the old
  -- one, and in the same status if that was settled.
  pub lives-Persists : Persists id b (serve_all js w).db
  lives-Persists = Reach-Persists id b (serve_all-Reach budget js w kept fair) found

  -- From any tables, whatever jobs are served and however the sessions interleave and fail, a
  -- booking that is in doubt (UNKNOWN) is UNKNOWN, CONFIRMED or REJECTED afterwards: it is never
  -- called FAILED and never returns to PENDING.
  pub lives-Stands : b.status ≡ unknown → Stands budget id (serve_all js w).db
  lives-Stands h =
      Reach-Stands budget id b (serve_all-Reach budget js w kept fair) found (ground arith)
