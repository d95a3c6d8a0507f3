-- ===== src/Quiet/History.antt =====
-- Creations that are made one after another in a quiet world (`Create` of
-- internal/service/booking/service.go).
use booking_orchestration_se.Base.{
  ℕ, none, some, List, [], ◌∷◌, All, ◌≡◌, refl, true, false, ltb, ◌==◌,
}
use booking_orchestration_se.Model.Booking.{CreateRequest}
use booking_orchestration_se.Store.Table.{Db, find}
use booking_orchestration_se.World.{M, ◌>>=◌, pure, Reply}
use booking_orchestration_se.Service.Create.{Request, create}
use booking_orchestration_se.Quiet.Write.{Rest, over}
use booking_orchestration_se.Quiet.Register.{Entry, Register, register_of, register, answer_entry}
use booking_orchestration_se.Quiet.Create.{asked, create-Registers}

-- A request, its body, and the id that is drawn for it.
pub record Creation : Type 0 where
  pub request : Request
  pub body : CreateRequest
  pub id : ℕ

unfoldable pub create_all : List Creation → M (List (Reply Entry))
create_all [] = pure []
create_all (c ∷ cs) = do
  answer ← create c.request c.body
  answers ← create_all cs
  pure (answer_entry answer ∷ answers)

abbrev pub registered : Register → Creation → Reply Entry × Register
registered reg c =
    register reg c.request.distributor c.body.idempotency_key (c.id, asked c.request c.body)

abbrev pub register_all : Register → List Creation → List (Reply Entry) × Register
register_all reg [] = ([], reg)
register_all reg (c ∷ cs) =
    let step = registered reg c in let later = register_all step.1 cs in (step.0 ∷ later.0, later.1)

-- The id was drawn and is free, and the dates are in order.
abbrev pub IsReady : Db → Creation → Type 0
IsReady db c =
    (c.request.new_id ≡ some c.id)
    × (ltb c.body.check_in c.body.check_out ≡ true)
    × (find c.id db.bookings ≡ none)

-- Every creation is ready, and no id is drawn twice.
abbrev pub AreReady : Db → List Creation → Type 0
AreReady db [] = Unit
AreReady db (c ∷ cs) =
    IsReady db c × All (λ (x : Creation). x.id == c.id ≡ false) cs × AreReady db cs

still_ready :
    (db db' : Db) (id : ℕ) (cs : List Creation)
    → ((other : ℕ)
        → other == id ≡ false
        → find other db.bookings ≡ none
        → find other db'.bookings ≡ none)
    → All (λ (x : Creation). x.id == id ≡ false) cs
    → AreReady db cs
    → AreReady db' cs
still_ready db db' id [] stays apart ready = tt
still_ready db db' id (c ∷ cs) stays apart ready = (
  (ready.0.0, ready.0.1, stays c.id apart.0 ready.0.2),
  ready.1,
  still_ready db db' id cs stays apart.1 ready.2,
)

-- Any number of creations one after another in a quiet world, of any distributors and under any
-- keys, whose ids were drawn, are not in the table and differ from one another, with dates in order:
-- they answer what the register of keys answers to them in that order, and leave tables that hold
-- the register that it comes to.
pub create_all-register :
    (cs : List Creation) (rest : Rest) (db : Db)
    → AreReady db cs
    → (rest' : Rest) × (db' : Db) × (create_all cs (over rest db)
        ≡ ((register_all (register_of db) cs).0, over rest' db'))
      × (register_of db' ≡ (register_all (register_of db) cs).1)
unfolding create_all ◌>>=◌ pure
create_all-register [] rest db ready = (rest, db, refl, refl)
create_all-register (c ∷ cs) rest db ready =
    let (answer, rest_next, db_next, runs, same, marked, starts, registers, stays) =
      create-Registers c.request c.body c.id rest db ready.0.0 ready.0.1 ready.0.2 in
    let held : register_of db_next ≡ (registered (register_of db) c).1 = λ i d k. registers d k i in
    let (rest_last, db_last, later, final) =
      create_all-register cs rest_next db_next
        (still_ready db db_next c.id cs stays ready.1 ready.2) in
    (rest_last, db_last, rw (runs, later, same, held) refl, rw held at final)
