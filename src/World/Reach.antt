-- ===== src/World/Reach.antt =====
-- The statements that the program sends, and the tables that it can reach by them.
use booking_orchestration_se.Base.{ℕ, ◌≡◌, ◌⊎◌, ◌≤◌, true}
use booking_orchestration_se.Model.Status.{received, pending, failed, may_move}
use booking_orchestration_se.Contract.{clear, owned}
use booking_orchestration_se.Store.Table.{Db}
use booking_orchestration_se.Store.Statement.{
  Statement, select, insert, apply, clear_marker, append_refusal, authorize, resolve_stale, park,
  flag, elapse, exec,
}
use booking_orchestration_se.Store.Effect.{IsChecked}

-- A new booking is RECEIVED; a transition is an edge that does not leave RECEIVED, and one that
-- fails a booking fails it from PENDING, without overriding an attempt; an authorization keeps to
-- the budget.
abbrev pub IsIssued : ℕ → Statement → Type 0
IsIssued budget (insert b r) = b.status ≡ received
IsIssued budget (apply id t) =
    (may_move t.from t.to ≡ true)
    × (t.from ≡ received → ⊥)
    × (t.to ≡ failed → (t.from ≡ pending) × ((t.marker ≡ clear) ⊎ (t.marker ≡ owned)))
IsIssued budget (authorize id m k r) = m ≤ budget
IsIssued budget _ = Unit {0}

pub IsIssued-IsChecked : (budget : ℕ) (s : Statement) → IsIssued budget s → IsChecked s
IsIssued-IsChecked budget select h = tt
IsIssued-IsChecked budget (insert b r) h = tt
IsIssued-IsChecked budget (apply id t) h = h.0
IsIssued-IsChecked budget (clear_marker id n e) h = tt
IsIssued-IsChecked budget (append_refusal id e) h = tt
IsIssued-IsChecked budget (authorize id m k r) h = tt
IsIssued-IsChecked budget (resolve_stale id r) h = tt
IsIssued-IsChecked budget (park id r) h = tt
IsIssued-IsChecked budget (flag id) h = tt
IsIssued-IsChecked budget (elapse n) h = tt

pub data Reach (budget : ℕ) (s : Db) : Db → Type 0 where
  here : Reach budget s s
  next :
      {t u : Db}
      → Reach budget s t
      → (st : Statement) → IsIssued budget st
      → u ≡ exec st t
      → Reach budget s u

pub Reach-trans : {budget : ℕ} {s t u : Db} → Reach budget s t → Reach budget t u → Reach budget s u
Reach-trans r here = r
Reach-trans r (next r' st h e) = next (Reach-trans r r') st h e
