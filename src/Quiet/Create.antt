-- ===== src/Quiet/Create.antt =====
-- A creation in a quiet world (`Create`, `replay` of internal/service/booking/service.go and
-- `InsertOrLoad`), against a register of the keys that are taken.
use booking_orchestration_se.Model.Status.{received}
use booking_orchestration_se.Quiet.Sql.{get_by_id-quiet}
use booking_orchestration_se.Orchestrator.{start_booking}
use booking_orchestration_se.Base.{
  ℕ, String, Bool, true, false, Option, none, some, ◌∷◌, ◌≡◌, refl, ltb, str_eq, if◌then◌else◌,
  arith, List, ◌==◌, is_none, Bool-cases, inl, inr,
}
use booking_orchestration_se.Model.Booking.{
  Booking, CreateRequest, idempotency_key_reused, booking_not_found,
}
use booking_orchestration_se.Store.Table.{Db, find, find_key, append}
use booking_orchestration_se.Store.Statement.{
  stored, key_exists, insertion, inserted_row, created_event, insert, exec,
}
use booking_orchestration_se.World.{◌>>=◌, pure, sql, Reply, ok, err, M}
use booking_orchestration_se.Repository.{get_by_key, after_insert, insert_or_load}
use booking_orchestration_se.Service.Create.{
  Request, new_booking, create, create_with, replay, created, report_duplicate_suspect, get,
}
use booking_orchestration_se.Quiet.Write.{Rest, over}
use booking_orchestration_se.Quiet.Register.{
  Entry, Register, register_of, enter, entered, register, answer_entry, entry_of,
}
use booking_orchestration_se.Quiet.Whole.{sql_quiet}

-- The fingerprint that the service computes for a request.
abbrev pub asked : Request → CreateRequest → String
asked r req = r.fingerprint (record req { distributor_id = r.distributor })

-- The tables after the INSERT of a booking under a free key and id.
abbrev pub with_row : Booking → Option String → Db → Db
with_row b request_id db =
    append (created_event b request_id) (record db { bookings = b ∷ db.bookings })

module _ (r : Request) (req : CreateRequest) (id : ℕ) (rest : Rest) (db : Db)
    (drawn : r.new_id ≡ some id) (dates : ltb req.check_in req.check_out ≡ true)
    (fresh : find id db.bookings ≡ none) where
  abbrev pub new_row : Booking
  new_row = inserted_row db.now (new_booking r id req)

  insertion_free :
      find_key r.distributor req.idempotency_key db.bookings ≡ none
      → insertion (new_booking r id req) db ≡ stored new_row
  unfolding insertion new_booking
  insertion_free free = rw (dates, free, fresh) refl

  insertion_taken :
      (b : Booking)
      → find_key r.distributor req.idempotency_key db.bookings ≡ some b
      → insertion (new_booking r id req) db ≡ key_exists
  unfolding insertion new_booking
  insertion_taken b taken = rw (dates, taken) refl

  insert_free :
      find_key r.distributor req.idempotency_key db.bookings ≡ none
      → insert_or_load (new_booking r id req) r.request_id (over rest db)
        ≡ (ok (new_row, true), over rest (with_row new_row r.request_id db))
  unfolding insert_or_load ◌>>=◌ exec after_insert pure
  insert_free free =
      rw
        (sql_quiet rest db (insert (new_booking r id req) r.request_id)
          (insertion (new_booking r id req)))
        (rw (insertion_free free) refl)

  insert_taken :
      (b : Booking)
      → find_key r.distributor req.idempotency_key db.bookings ≡ some b
      → insert_or_load (new_booking r id req) r.request_id (over rest db)
        ≡ (ok (b, false), over rest db)
  unfolding insert_or_load ◌>>=◌ exec after_insert pure get_by_key sql new_booking
  insert_taken b taken = rw (insertion_taken b taken) (rw taken refl)

  -- What a new booking starts.
  abbrev pub starting : Rest
  starting = record rest { starts = id ∷ rest.starts }

  create_drawn : create r req ≡ create_with r req (some id)
  unfolding create
  create_drawn = rw drawn refl

  create_free :
      find_key r.distributor req.idempotency_key db.bookings ≡ none
      → create r req (over rest db)
        ≡ (ok (new_row, true), over starting (with_row new_row r.request_id db))
  unfolding create_with ◌>>=◌ created report_duplicate_suspect start_booking pure exec sql
      inserted_row new_booking
  create_free free = rw create_drawn (rw (insert_free free) refl)

  create_taken :
      (b : Booking)
      → find_key r.distributor req.idempotency_key db.bookings ≡ some b
      → create r req (over rest db) ≡ (replay b (asked r req), over rest db)
  unfolding create_with ◌>>=◌ created pure new_booking
  create_taken b taken = rw create_drawn (rw (insert_taken b taken) refl)

  register-free :
      (d k : String)
      → find_key r.distributor req.idempotency_key db.bookings ≡ none
      → register_of (with_row new_row r.request_id db) d k
        ≡ enter (register_of db) r.distributor req.idempotency_key (id, asked r req) d k
  unfolding append find_key inserted_row new_booking
  register-free d k free = ground arith

  new_entry : answer_entry (ok (new_row, true)) ≡ ok (id, asked r req)
  unfolding inserted_row new_booking
  new_entry = refl

  answer_replay :
      (b : Booking)
      → answer_entry (replay b (asked r req)) ≡ (
          if str_eq b.request_fingerprint (asked r req)
          then ok (b.id, b.request_fingerprint)
          else err idempotency_key_reused)
  unfolding replay
  answer_replay b = ground arith

  others_fresh :
      (other : ℕ)
      → other == id ≡ false
      → find other db.bookings ≡ none
      → find other (with_row new_row r.request_id db).bookings ≡ none
  unfolding append find inserted_row new_booking
  others_fresh other apart absent = ground arith

  -- The workflows that are asked for, given the entry that the key had: one where it had none.
  abbrev starts_after : Option Entry → List ℕ
  starts_after none = id ∷ rest.starts
  starts_after (some old) = rest.starts

  -- An answer says that the booking is new where the key had no entry.
  abbrev IsMarked : Option Entry → Reply (Booking × Bool) → Type 0
  IsMarked found (err e) = Unit
  IsMarked found (ok (b, made)) = made ≡ is_none found

  replay-IsMarked : (b : Booking) (old : Entry) → IsMarked (some old) (replay b (asked r req))
  unfolding replay
  replay-IsMarked b old = elim (Bool-cases (str_eq b.request_fingerprint (asked r req))) [
    | inl same ↦ rw (same, replay) refl
    | inr different ↦ rw (different, replay) tt
  ]

  -- The creation answers what the register answers and whether the booking is new, leaves tables
  -- that hold the register that it leaves, asks for a workflow where the key had no entry, and uses
  -- no other id.
  abbrev pub Registers : Option Entry → Reply Entry × Register → Type 0
  Registers before after =
      (answer : Reply (Booking × Bool)) × (rest' : Rest) × (db' : Db) × (create r req (over rest db)
        ≡ (answer, over rest' db'))
      × (answer_entry answer ≡ after.0)
      × IsMarked before answer
      × (rest'.starts ≡ starts_after before)
      × ((d k : String) → register_of db' d k ≡ after.1 d k)
      × ((other : ℕ)
          → other == id ≡ false
          → find other db.bookings ≡ none
          → find other db'.bookings ≡ none)

  registers :
      (found : Option Booking)
      → find_key r.distributor req.idempotency_key db.bookings ≡ found
      → Registers (entry_of found) (
          entered
            (register_of db)
            r.distributor
            req.idempotency_key
            (id, asked r req)
            (entry_of found))
  registers none free = (
    ok (new_row, true),
    starting,
    with_row new_row r.request_id db,
    create_free free,
    new_entry,
    refl,
    refl,
    λ d k. register-free d k free,
    others_fresh,
  )
  registers (some b) taken = (
    replay b (asked r req),
    rest,
    db,
    create_taken b taken,
    answer_replay b,
    replay-IsMarked b (b.id, b.request_fingerprint),
    refl,
    λ d k. refl,
    λ other apart absent. absent,
  )

  -- A creation whose id could be drawn and is not in the table, with a check-in before its check-out,
  -- in a quiet world: it is the operation of the register of keys. The first request under a key of
  -- the distributor is entered with its id and its fingerprint and answered as new; a later one is
  -- answered with what was entered and as not new, if it has that fingerprint, and is refused if it
  -- has not; no other entry changes. A workflow is asked for, of the id that was drawn, where the key
  -- had no entry, and none where it had one; no id but the one that was drawn is used.
  pub create-Registers :
      Registers
        (register_of db r.distributor req.idempotency_key)
        (register (register_of db) r.distributor req.idempotency_key (id, asked r req))
  create-Registers = registers (find_key r.distributor req.idempotency_key db.bookings) refl

  find-with_row : find id (with_row new_row r.request_id db).bookings ≡ some new_row
  unfolding append find inserted_row new_booking
  find-with_row = ground arith

  -- A row as it was asked for: RECEIVED, of the caller, under the key, for the stay, the room and the
  -- guest of the request, with no attempt, no supplier's answer and no flag.
  pub record IsAsked (b : Booking) : Type 0 where
    pub drawn_id : b.id ≡ id
    pub owned : b.distributor_id ≡ r.distributor
    pub keyed : b.idempotency_key ≡ req.idempotency_key
    pub fingerprinted : b.request_fingerprint ≡ asked r req
    pub supplied : b.supplier_id ≡ r.supplier_id
    pub stay : (b.check_in ≡ req.check_in) × (b.check_out ≡ req.check_out)
    pub room : (b.property_id ≡ req.property_id) × (b.room_type_id ≡ req.room_type_id)
    pub guest :
        (b.guest_first_name ≡ req.guest_first_name) × (b.guest_last_name ≡ req.guest_last_name)
    pub status : b.status ≡ received
    pub unanswered :
        (b.supplier_reference ≡ none)
        × (b.supplier_idempotency_key ≡ none)
        × (b.failure_reason ≡ none)
    pub untried : (b.supplier_attempts ≡ 0) × (b.in_flight_attempt ≡ none)
    pub unflagged : b.needs_recovery ≡ false

  new_row-IsAsked : IsAsked new_row
  unfolding inserted_row new_booking
  new_row-IsAsked = record {
    drawn_id = refl;
    owned = refl;
    keyed = refl;
    fingerprinted = refl;
    supplied = refl;
    stay = (refl, refl);
    room = (refl, refl);
    guest = (refl, refl);
    status = refl;
    unanswered = (refl, refl, refl);
    untried = (refl, refl);
    unflagged = refl;
  }

  -- A creation, and what a reader then gets for its id, as the two answers.
  abbrev pub create_then_get : Request → M (Reply (Booking × Bool) × Reply Booking)
  create_then_get reader = create r req >>= λ made. get reader id >>= λ read. pure (made, read)

  -- A creation under a free key in a quiet world, whose id could be drawn and is not in the table,
  -- with a check-in before its check-out: it answers, as new, a row that is as it was asked for; a
  -- request of its distributor then reads that same row, and a request of any other distributor finds
  -- none.
  pub get-create :
      (reader : Request)
      → find_key r.distributor req.idempotency_key db.bookings ≡ none
      → (b : Booking) × IsAsked b
        × ((create_then_get reader (over rest db)).0 ≡ (
          ok (b, true),
          if str_eq r.distributor reader.distributor then ok b else err booking_not_found,
        ))
  unfolding ◌>>=◌ get pure new_booking inserted_row
  get-create reader free =
      let w = with_row new_row r.request_id db in
      let read =
        get_by_id-quiet w starting.calls starting.starts starting.signals starting.waits id
          find-with_row in
      (new_row, new_row-IsAsked, rw (create_free free) (rw read (ground arith)))
