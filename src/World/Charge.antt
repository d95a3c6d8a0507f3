-- ===== src/World/Charge.antt =====
-- The supplier calls that were made for a booking, and the attempts that its row counts.
use booking_orchestration_se.Base.{
  ℕ, ◌+◌, ◌≤◌, arith, String, Option, none, some, List, [], ◌∷◌, holds, if◌then◌else◌, Option-cases,
  inl, inr, All, ◌≡◌, refl, ◌-◌,
}
use booking_orchestration_se.Supplier.Client.{BookRequest}
use booking_orchestration_se.Store.Table.{Db, find}
use booking_orchestration_se.Store.Later.{exec-Persists}
use booking_orchestration_se.Store.Statement.{Statement, exec}
use booking_orchestration_se.World.{World, logged_others, exec_all}
use booking_orchestration_se.World.Reach.{Reach, here, next, IsIssued, IsIssued-IsChecked}

-- The attempts of an id's row, none where there is no row.
unfoldable pub attempts_of : ℕ → Db → ℕ
attempts_of id db = elim (find id db.bookings) [ none ↦ 0 | some b ↦ b.supplier_attempts ]

-- The attempts of a booking that other sessions' statements were granted: what each of them added
-- to the count of its row.
unfoldable pub taken : ℕ → List (Statement × Db) → ℕ
taken id [] = 0
taken id ((s, db) ∷ log) = taken id log + (attempts_of id (exec s db) - attempts_of id db)

module _ (parse : String → Option ℕ) where
  -- The calls that carry a booking id that reads as `id`.
  unfoldable pub calls_for : ℕ → List BookRequest → ℕ
  calls_for id [] = 0
  calls_for id (c ∷ cs) =
      if holds (parse c.booking_id) id then calls_for id cs + 1 else calls_for id cs

  -- Between two worlds the calls for a booking and the attempts that other sessions took of it are
  -- together no more than what its row counts in addition.
  abbrev pub IsCharged : World → World → Type 0
  IsCharged w w' =
      (id : ℕ)
      → calls_for id w'.calls + taken id w'.elsewhere + attempts_of id w.db
        ≤ calls_for id w.calls + taken id w.elsewhere + attempts_of id w'.db

exec-attempts_of :
    (budget : ℕ) (s : Statement) (db : Db) (id : ℕ)
    → IsIssued budget s
    → attempts_of id db ≤ attempts_of id (exec s db)
unfolding attempts_of
exec-attempts_of budget s db id issued = elim (Option-cases (find id db.bookings)) [
  | inl missing ↦ rw (missing, attempts_of) (omega arith)
  | inr (b, found) ↦
      let (c, found', later) = exec-Persists s db id b (IsIssued-IsChecked budget s issued) found in
      rw (found, found', attempts_of) later.attempts_grow
]

pub Reach-attempts_of :
    (budget : ℕ) {s t : Db} (id : ℕ) → Reach budget s t → attempts_of id s ≤ attempts_of id t
Reach-attempts_of budget id here = omega arith
Reach-attempts_of budget id (next {t = m} r st i e) =
    let before = Reach-attempts_of budget id r in
    let after = exec-attempts_of budget st m id i in rw e (omega arith)

-- What other sessions add to a row's count is what they took.
pub exec_all-taken :
    (budget id : ℕ) (ss : List Statement) (db : Db) (log : List (Statement × Db))
    → All (IsIssued budget) ss
    → taken id (logged_others ss db log) + attempts_of id db
      ≡ taken id log + attempts_of id (exec_all ss db)
unfolding taken
exec_all-taken budget id [] db log h = refl
exec_all-taken budget id (s ∷ ss) db log (h, hs) =
    let later = exec_all-taken budget id ss (exec s db) ((s, db) ∷ log) hs in
    let grown = exec-attempts_of budget s db id h in omega (arith, later, grown)
