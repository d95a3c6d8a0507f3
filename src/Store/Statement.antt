-- ===== src/Store/Statement.antt =====
-- The statements that the repository sends (internal/repository/booking), each one atomic: what it
-- does to the tables, and what it answers. `exec` is the state change alone.
use booking_orchestration_se.Base.{
  ℕ, ◌+◌, String, Bool, true, false, not, ◌&&◌, Option, none, some, is_some, ltb, ◌==◌,
  if◌then◌else◌, List, [], ◌∷◌, str_eq,
}
use booking_orchestration_se.Model.Status.{is_valid}
use booking_orchestration_se.Model.Booking.{Booking, Event, no_event, created}
use booking_orchestration_se.Contract.{Transition}
use booking_orchestration_se.Store.Table.{Db, find, put, find_key, append}
use booking_orchestration_se.Store.Rows.{
  Locked, apply_row, clear_marker_row, authorizable, authorize_row, resolve_row, park_row, flag_row,
}

pub data Statement : Type 0 where
  select : Statement
  insert : Booking → Option String → Statement
  apply : ℕ → Transition → Statement
  clear_marker : ℕ → ℕ → Event → Statement
  append_refusal : ℕ → Event → Statement
  authorize : ℕ → ℕ → String → Option String → Statement
  resolve_stale : ℕ → Option String → Statement
  park : ℕ → Option String → Statement
  flag : ℕ → Statement
  -- The database's clock moves on.
  elapse : ℕ → Statement

-- `SELECT … FOR UPDATE`, the guarded UPDATE, the INSERT of its lineage row.
abbrev pub logged : Option Event → Db → Db
logged none db = db
logged (some e) db = append e db

abbrev pub write_locked : Locked → Db → Db
write_locked none db = db
write_locked (some (b, e)) db = logged e (record db { bookings = put b db.bookings })

unfoldable pub on_row : ℕ → (Booking → Locked) → Db → Db
on_row id f db = elim (find id db.bookings) [ none ↦ db | some b ↦ write_locked (f b) db ]

-- The unique index on (supplier_id, supplier_idempotency_key), at another row than `id`.
abbrev same_key : Option String → String → Bool
same_key none k = false
same_key (some j) k = str_eq j k

unfoldable pub key_taken : ℕ → String → String → List Booking → Bool
key_taken id supplier k [] = false
key_taken id supplier k (b ∷ bs) =
    if not (b.id == id) && str_eq b.supplier_id supplier && same_key b.supplier_idempotency_key k
    then true
    else key_taken id supplier k bs

abbrev pub authorized_key : String → Booking → String
authorized_key k b = elim b.supplier_idempotency_key [ none ↦ k | some j ↦ j ]

-- The unique index would refuse the UPDATE, so the statement fails and changes nothing.
unfoldable pub clashes : Db → ℕ → String → Booking → Bool
unfolding authorizable
clashes db max_attempts k b =
    authorizable max_attempts b && key_taken b.id b.supplier_id (authorized_key k b) db.bookings

abbrev pub authorize_locked : Db → ℕ → String → Option String → Booking → Locked
authorize_locked db max_attempts k request_id b =
    if clashes db max_attempts k b then none else authorize_row db.now max_attempts k request_id b

-- The columns that `InsertOrLoad` lists come from the argument, the others from their defaults.
unfoldable pub inserted_row : ℕ → Booking → Booking
inserted_row now b = record b {
  supplier_idempotency_key = none;
  supplier_reference = none;
  failure_reason = none;
  needs_recovery = false;
  supplier_attempts = 0;
  in_flight_attempt = none;
  version = 0;
  created_at = now;
  updated_at = now;
}

pub data Insertion : Type 0 where
  stored : Booking → Insertion
  -- `ON CONFLICT … DO NOTHING`: no row is returned.
  key_exists : Insertion
  -- A CHECK or the primary key.
  violation : Insertion

-- CHECKs come before the conflict's arbiter, and the arbiter before the primary key.
unfoldable pub insertion : Booking → Db → Insertion
insertion b db =
    if not (is_valid b.status && ltb b.check_in b.check_out)
    then violation
    else if is_some (find_key b.distributor_id b.idempotency_key db.bookings)
    then key_exists
    else if is_some (find b.id db.bookings)
    then violation
    else stored (inserted_row db.now b)

abbrev pub created_event : Booking → Option String → Event
created_event b request_id = record no_event {
  booking_id = b.id;
  to_status = b.status;
  event_type = created;
  request_id = request_id;
}

abbrev pub write_insertion : Insertion → Option String → Db → Db
write_insertion (stored b) request_id db =
    append (created_event b request_id) (record db { bookings = b ∷ db.bookings })
write_insertion key_exists request_id db = db
write_insertion violation request_id db = db

-- `AppendRefusal` and the foreign key of the lineage: from and to are the same.
unfoldable pub refusal_event : ℕ → Event → Event
refusal_event id e = record no_event {
  booking_id = id;
  from_status = some e.to_status;
  to_status = e.to_status;
  event_type = e.event_type;
  attempt = e.attempt;
  request_id = e.request_id;
  supplier_status_code = e.supplier_status_code;
  supplier_reason = e.supplier_reason;
  payload_digest = e.payload_digest;
}

unfoldable pub exec : Statement → Db → Db
exec select db = db
exec (insert b request_id) db = write_insertion (insertion b db) request_id db
exec (apply id t) db = on_row id (apply_row db.now t) db
exec (clear_marker id attempt e) db = on_row id (clear_marker_row db.now attempt e) db
exec (append_refusal id e) db = elim (find id db.bookings) [
  | none ↦ db
  | some _ ↦ append (refusal_event id e) db
]
exec (authorize id max_attempts k request_id) db =
    on_row id (authorize_locked db max_attempts k request_id) db
exec (resolve_stale id request_id) db = on_row id (resolve_row db.now request_id) db
exec (park id request_id) db = on_row id (park_row db.now request_id) db
exec (flag id) db = on_row id (flag_row db.now) db
exec (elapse n) db = record db { now = db.now + n }
