-- ===== src/Quiet/Write.antt =====
-- The repository's writes in a quiet world, on the row that they find.
use booking_orchestration_se.Base.{
  ℕ, ◌≡◌, refl, true, some, String, List, arith, none, Option, holds,
}
use booking_orchestration_se.Model.Status.{may_move}
use booking_orchestration_se.Model.Booking.{Booking, Event}
use booking_orchestration_se.Contract.{Transition}
use booking_orchestration_se.Supplier.Client.{BookRequest}
use booking_orchestration_se.Store.Table.{Db}
use booking_orchestration_se.Store.Rows.{guarded, apply_row, clear_marker_row, park_row, parkable}
use booking_orchestration_se.Store.Statement.{apply, clear_marker, park, exec, authorized_key}
use booking_orchestration_se.Store.Steps.{
  row_after, apply_row-IsStep, clear_marker_row-IsStep, park_row-IsStep,
}
use booking_orchestration_se.World.{World, M, ◌>>=◌, pure, sql, ok}
use booking_orchestration_se.Repository.{
  apply_transition, states_marker, after_guarded, after_apply, guarded_answer, clear_marker_of,
}
use booking_orchestration_se.Repository.Attempts.{park_if_unknown}
use booking_orchestration_se.Quiet.Sql.{quiet, At, on_row-At}

-- What a quiet world holds besides the tables.
pub record Rest : Type 0 where
  pub calls : List BookRequest
  pub starts : List ℕ
  pub signals : List (ℕ × String)
  pub waits : List ℕ

abbrev pub over : Rest → Db → World
over r db = quiet db r.calls r.starts r.signals r.waits

-- `m` answers `a`, touches nothing besides the tables, and leaves the row `b`.
abbrev pub Leaves : {A : Type 0} → Rest → ℕ → String → M A → Db → A → Booking → Type 0
Leaves r id key m db a b = (db' : Db) × (m (over r db) ≡ (a, over r db')) × At db' id key b

module _ (r : Rest) (id : ℕ) (key : String) (db : Db) (b : Booking) (h : At db id key b) where
  apply_key :
      (t : Transition)
      → authorized_key key (row_after (apply_row db.now t b) b) ≡ authorized_key key b
  unfolding apply_row
  apply_key t = ground arith

  guarded_answer_found :
      (t : Transition)
      → guarded t b ≡ true
      → guarded_answer id t db ≡ record { applied = some t.to; current = some b.status }
  unfolding guarded_answer
  guarded_answer_found t g = rw (h.found, guarded_answer) (rw g refl)

  pub apply-Leaves :
      (t : Transition)
      → guarded t b ≡ true
      → may_move t.from t.to ≡ true
      → states_marker t ≡ true
      → Leaves r id key (apply_transition id t) db (t.to, none) (row_after (apply_row db.now t b) b)
  unfolding apply_transition ◌>>=◌ pure sql exec after_guarded after_apply
  apply-Leaves t g m s = (
    exec (apply id t) db,
    rw (m, s, sql) (rw (guarded_answer_found t g) refl),
    on_row-At db id key b (apply_row db.now t) h (apply_row-IsStep db.now b t m) (apply_key t),
  )

  clear_key :
      (n : ℕ) (e : Event)
      → authorized_key key (row_after (clear_marker_row db.now n e b) b) ≡ authorized_key key b
  unfolding clear_marker_row
  clear_key n e = ground arith

  pub clear-Leaves :
      (n : ℕ) (e : Event)
      → holds b.in_flight_attempt n ≡ true
      → Leaves r id key
          (clear_marker_of id n e)
          db
          (ok true)
          (row_after (clear_marker_row db.now n e b) b)
  unfolding clear_marker_of ◌>>=◌ pure sql exec
  clear-Leaves n e held = (
    exec (clear_marker id n e) db,
    rw (h.found, held) refl,
    on_row-At db id key b (clear_marker_row db.now n e) h (clear_marker_row-IsStep db.now b n e)
        (clear_key n e),
  )

  park_key :
      (q : Option String)
      → authorized_key key (row_after (park_row db.now q b) b) ≡ authorized_key key b
  unfolding park_row
  park_key q = ground arith

  pub park-Leaves :
      (q : Option String)
      → Leaves r id key
          (park_if_unknown id q)
          db
          (ok (parkable b))
          (row_after (park_row db.now q b) b)
  unfolding park_if_unknown ◌>>=◌ pure sql exec
  park-Leaves q = (
    exec (park id q) db,
    rw h.found refl,
    on_row-At db id key b (park_row db.now q) h (park_row-IsStep db.now b q) (park_key q),
  )
