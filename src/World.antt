-- ===== src/World.antt =====
-- The state in which the services run: the database, the other sessions that use it, and what was
-- asked of the supplier and of the orchestrator. A database call takes the next turn of the
-- schedule: the statements that other sessions commit before it, and whether its own is committed
-- and its answer arrives. Past the end of the schedule a call is undisturbed.
pub mod Reach
pub mod Charge
pub mod Refines
use booking_orchestration_se.Base.{ℕ, String, Bool, Option, none, some, List, [], ◌∷◌}
use booking_orchestration_se.Model.Booking.{Error}
use booking_orchestration_se.Store.Table.{Db}
use booking_orchestration_se.Store.Statement.{Statement, exec}
use booking_orchestration_se.Supplier.Client.{BookRequest}

-- `lost` is an error reported for a statement that was committed.
pub data Fate : Type 0 where
  answered refused lost : Fate

pub record Turn : Type 0 where
  pub others : List Statement
  pub fate : Fate

pub record World : Type 0 where
  pub db : Db
  pub schedule : List Turn
  -- What the other sessions committed, each with the tables that it found, newest first. The program
  -- does not see it.
  pub elsewhere : List (Statement × Db)
  -- Newest first.
  pub calls : List BookRequest
  pub starts : List ℕ
  pub signals : List (ℕ × String)
  -- What the workflow's timers were set to.
  pub waits : List ℕ

abbrev pub M : Type 0 → Type 0
M A = World → A × World

infixl 5 ◌>>=◌
unfoldable pub ◌>>=◌ : {A B : Type 0} → M A → (A → M B) → M B
◌>>=◌ m f w = let (a, w') = m w in f a w'

unfoldable pub pure : {A : Type 0} → A → M A
pure a w = (a, w)

abbrev pub exec_all : List Statement → Db → Db
exec_all [] db = db
exec_all (s ∷ ss) db = exec_all ss (exec s db)

abbrev pub logged_others : List Statement → Db → List (Statement × Db) → List (Statement × Db)
logged_others [] db log = log
logged_others (s ∷ ss) db log = logged_others ss (exec s db) ((s, db) ∷ log)

abbrev pub next_turn : List Turn → Turn
next_turn [] = record { others = []; fate = answered }
next_turn (t ∷ ts) = t

abbrev pub later_turns : List Turn → List Turn
later_turns [] = []
later_turns (t ∷ ts) = ts

abbrev pub committed : Fate → Statement → Db → Db
committed answered s db = exec s db
committed refused s db = db
committed lost s db = exec s db

abbrev pub answer_of : {A : Type 0} → Fate → A → Option A
answer_of answered a = some a
answer_of refused a = none
answer_of lost a = none

-- One statement: `answer` reads the tables that the statement finds.
unfoldable pub sql : {A : Type 0} → Statement → (Db → A) → M (Option A)
sql s answer w =
    let t = next_turn w.schedule in
    let found = exec_all t.others w.db in
    (
      answer_of t.fate (answer found),
      record w {
        db = committed t.fate s found;
        schedule = later_turns w.schedule;
        elsewhere = logged_others t.others w.db w.elsewhere;
      },
    )

-- A Go pair of a value and an error of which one is set.
pub data Reply (A : Type 0) : Type 0 where
  ok : A → Reply A
  err : Error → Reply A
