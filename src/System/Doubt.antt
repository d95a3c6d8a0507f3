-- ===== src/System/Doubt.antt =====
-- What the statements that the program issues, and no others, keep: the budget, and doubt.
use booking_orchestration_se.Base.{
  ℕ, ◌≤◌, ◌≡◌, ◌≢◌, Bool, some, arith, Bool-cases, inl, inr, true, false, Option, String, ◌==◌,
}
use booking_orchestration_se.Model.Status.{Status, received, unknown, confirmed, rejected}
use booking_orchestration_se.Model.Status.Laws.{status_eq_iff}
use booking_orchestration_se.Model.Booking.{Booking, Event}
use booking_orchestration_se.Contract.{Transition}
use booking_orchestration_se.Store.Table.{Db, find}
use booking_orchestration_se.Store.Rows.{
  Locked, apply_row, clear_marker_row, authorize_row, resolve_row, park_row, flag_row,
}
use booking_orchestration_se.Store.Statement.{apply, on_row, clashes, authorize_locked}
use booking_orchestration_se.Store.Steps.{row_after, IsStep}
use booking_orchestration_se.Store.Effect.{find-on_row}
use booking_orchestration_se.World.Reach.{IsIssued}

-- Attempts keep to the budget, and no booking leaves RECEIVED without one.
pub record IsBudgeted (budget : ℕ) (b : Booking) : Type 0 where
  pub within : b.supplier_attempts ≤ budget
  pub sent : b.status ≢ received → 1 ≤ b.supplier_attempts

-- The states from which a booking is not called FAILED.
abbrev pub outlives_failure : Status → Bool
outlives_failure unknown = true
outlives_failure confirmed = true
outlives_failure rejected = true
outlives_failure _ = false

abbrev pub Outlives : Booking → Type 0
Outlives b = outlives_failure b.status ≡ true

module _ (now budget : ℕ) (b : Booking) where
  pub apply_row-kept :
      (id : ℕ) (t : Transition)
      → IsIssued budget (apply id t)
      → (IsBudgeted budget b → IsBudgeted budget (row_after (apply_row now t b) b))
        × (Outlives b → Outlives (row_after (apply_row now t b) b))
  unfolding apply_row
  apply_row-kept id t i = (
    (λ h. ground (arith, status_eq_iff b.status t.from)),
    λ h. ground (arith, status_eq_iff b.status t.from),
  )

  pub clear_marker_row-kept :
      (n : ℕ) (e : Event)
      → (IsBudgeted budget b → IsBudgeted budget (row_after (clear_marker_row now n e b) b))
        × (Outlives b → Outlives (row_after (clear_marker_row now n e b) b))
  unfolding clear_marker_row
  clear_marker_row-kept n e = ((λ h. ground arith), λ h. ground arith)

  pub authorize_row-kept :
      (m : ℕ) (k : String) (r : Option String)
      → m ≤ budget
      → (IsBudgeted budget b → IsBudgeted budget (row_after (authorize_row now m k r b) b))
        × (Outlives b → Outlives (row_after (authorize_row now m k r b) b))
  unfolding authorize_row
  authorize_row-kept m k r i = ((λ h. ground arith), λ h. ground arith)

  pub resolve_row-kept :
      (r : Option String)
      → (IsBudgeted budget b → IsBudgeted budget (row_after (resolve_row now r b) b))
        × (Outlives b → Outlives (row_after (resolve_row now r b) b))
  unfolding resolve_row
  resolve_row-kept r = ((λ h. ground arith), λ h. ground arith)

  pub park_row-kept :
      (r : Option String)
      → (IsBudgeted budget b → IsBudgeted budget (row_after (park_row now r b) b))
        × (Outlives b → Outlives (row_after (park_row now r b) b))
  unfolding park_row
  park_row-kept r = ((λ h. ground arith), λ h. ground arith)

  pub flag_row-kept :
      (IsBudgeted budget b → IsBudgeted budget (row_after (flag_row now b) b))
      × (Outlives b → Outlives (row_after (flag_row now b) b))
  unfolding flag_row
  flag_row-kept = ((λ h. ground arith), λ h. ground arith)

pub authorize_locked-kept :
    (budget : ℕ) (db : Db) (m : ℕ) (k : String) (r : Option String) (b : Booking)
    → m ≤ budget
    → (IsBudgeted budget b → IsBudgeted budget (row_after (authorize_locked db m k r b) b))
      × (Outlives b → Outlives (row_after (authorize_locked db m k r b) b))
authorize_locked-kept budget db m k r b i = elim (Bool-cases (clashes db m k b)) [
  | inl clash ↦ rw clash ((λ h. h), λ h. h)
  | inr free ↦ rw free (authorize_row-kept db.now budget b m k r i)
]

-- A row that has a property which the statement keeps, has it afterwards.
pub on_row-Keeps :
    (P : Booking → Type 0) (id k : ℕ) (f : Booking → Locked) (db : Db) (b : Booking)
    → ((c : Booking) → IsStep c (f c))
    → (P b → P (row_after (f b) b))
    → find id db.bookings ≡ some b
    → P b
    → (c : Booking) × (find id (on_row k f db).bookings ≡ some c) × P c
on_row-Keeps P id k f db b steps keep found p = elim (Bool-cases (k == id)) [
  | inl same ↦ (
    row_after (f b) b,
    rw (find-on_row id k f db steps, same) (ground (arith, found, same)),
    keep p,
  )
  | inr differ ↦ (b, rw (find-on_row id k f db steps, differ) found, p)
]
