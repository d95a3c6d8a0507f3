-- ===== src/Store/Later.antt =====
-- How a row can change over time, by any statements: it is never lost, its settled status stands,
-- and no status is returned to.
use booking_orchestration_se.Base.{
  ℕ, ◌≡◌, ◌≤◌, ◌⊎◌, refl, true, false, none, some, arith, ◌==◌, Option-cases, Bool-cases, inl, inr,
}
use booking_orchestration_se.Model.Status.{Status, received, pending, unknown, settled, may_move}
use booking_orchestration_se.Model.Booking.{Booking}
use booking_orchestration_se.Store.Table.{Db, find, find-cons, append}
use booking_orchestration_se.Store.Rows.{Locked}
use booking_orchestration_se.Store.Statement.{
  Statement, select, insert, apply, clear_marker, append_refusal, authorize, resolve_stale, park,
  flag, elapse, Insertion, stored, key_exists, violation, insertion, write_insertion, exec, on_row,
}
use booking_orchestration_se.Store.Steps.{
  row_after, IsStep, apply_row-IsStep, clear_marker_row-IsStep, resolve_row-IsStep, park_row-IsStep,
  flag_row-IsStep,
}
use booking_orchestration_se.Store.Effect.{IsChecked, find-on_row, authorize_locked-IsStep}
use booking_orchestration_se.Store.Faithful.{stored_lem}

-- The order in which a booking passes through its states.
abbrev pub rank : Status → ℕ
rank received = 0
rank pending = 1
rank unknown = 2
rank _ = 3

pub record IsLater (b b' : Booking) : Type 0 where
  pub same_id : b'.id ≡ b.id
  pub same_distributor : b'.distributor_id ≡ b.distributor_id
  pub same_key : b'.idempotency_key ≡ b.idempotency_key
  pub same_fingerprint : b'.request_fingerprint ≡ b.request_fingerprint
  pub settled_stands : settled b.status ≡ true → b'.status ≡ b.status
  pub no_return : rank b.status ≤ rank b'.status
  pub version_grows : b.version ≤ b'.version
  pub attempts_grow : b.supplier_attempts ≤ b'.supplier_attempts
  pub key_kept :
      (b.supplier_idempotency_key ≡ none)
      ⊎ (b'.supplier_idempotency_key ≡ b.supplier_idempotency_key)

pub IsLater-refl : (b : Booking) → IsLater b b
IsLater-refl b = ground arith

pub IsLater-trans : (a b c : Booking) → IsLater a b → IsLater b c → IsLater a c
IsLater-trans a b c h k = ground arith

edge-rank : (s t : Status) → may_move s t ≡ true → (settled s ≡ false) × (rank s ≤ rank t)
edge-rank s t h = ground arith

IsStep-IsLater : (b : Booking) (l : Locked) → IsStep b l → IsLater b (row_after l b)
IsStep-IsLater b none s = IsLater-refl b
IsStep-IsLater b (some (b', none)) s = ground arith
IsStep-IsLater b (some (b', some e)) s = ground (arith, edge-rank b.status b'.status)

-- The row of an id after more statements.
abbrev pub Persists : ℕ → Booking → Db → Type 0
Persists id b db = (b' : Booking) × (find id db.bookings ≡ some b') × IsLater b b'

on_row-Persists :
    (id k : ℕ) (f : Booking → Locked) (db : Db) (b : Booking)
    → ((c : Booking) → IsStep c (f c))
    → find id db.bookings ≡ some b
    → Persists id b (on_row k f db)
on_row-Persists id k f db b steps found = elim (Bool-cases (k == id)) [
  | inl same ↦ (
    row_after (f b) b,
    rw (find-on_row id k f db steps, same) (ground (arith, found, same)),
    IsStep-IsLater b (f b) (steps b),
  )
  | inr differ ↦ (b, rw (find-on_row id k f db steps, differ) found, IsLater-refl b)
]

insert-Persists :
    (l : Insertion) (b : Booking) (r : _) (db : Db) (id : ℕ) (c : Booking)
    → insertion b db ≡ l
    → find id db.bookings ≡ some c
    → Persists id c (write_insertion l r db)
unfolding append
insert-Persists key_exists b r db id c e found = (c, found, IsLater-refl c)
insert-Persists violation b r db id c e found = (c, found, IsLater-refl c)
insert-Persists (stored b') b r db id c e found =
    (c, rw (find-cons id b' db.bookings) (ground (arith, stored_lem b b' db e)), IsLater-refl c)

pub exec-Persists :
    (s : Statement) (db : Db) (id : ℕ) (b : Booking)
    → IsChecked s
    → find id db.bookings ≡ some b
    → Persists id b (exec s db)
unfolding exec
exec-Persists select db id b c h = (b, h, IsLater-refl b)
exec-Persists (insert n r) db id b c h = insert-Persists (insertion n db) n r db id b refl h
exec-Persists (apply k t) db id b c h =
    on_row-Persists id k _ db b (λ a. apply_row-IsStep db.now a t c) h
exec-Persists (clear_marker k n e) db id b c h =
    on_row-Persists id k _ db b (λ a. clear_marker_row-IsStep db.now a n e) h
exec-Persists (append_refusal k e) db id b c h = elim (Option-cases (find k db.bookings)) [
  | inl missing ↦ rw (missing, exec) (b, h, IsLater-refl b)
  | inr (a, found) ↦ rw (found, exec) (unfold append in (b, h, IsLater-refl b))
]
exec-Persists (authorize k m key r) db id b c h =
    on_row-Persists id k _ db b (authorize_locked-IsStep db m key r) h
exec-Persists (resolve_stale k r) db id b c h =
    on_row-Persists id k _ db b (λ a. resolve_row-IsStep db.now a r) h
exec-Persists (park k r) db id b c h =
    on_row-Persists id k _ db b (λ a. park_row-IsStep db.now a r) h
exec-Persists (flag k) db id b c h = on_row-Persists id k _ db b (λ a. flag_row-IsStep db.now a) h
exec-Persists (elapse n) db id b c h = (b, h, IsLater-refl b)
