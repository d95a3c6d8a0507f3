-- ===== src/Quiet/Park.antt =====
-- `Park` and the workflow's `park` in a quiet world.
use booking_orchestration_se.Base.{
  some, ◌∷◌, ℕ, zero, suc, ◌≡◌, ◌⊎◌, inl, inr, refl, true, false, none, String, Bool, arith,
}
use booking_orchestration_se.Model.Status.{
  Status, received, pending, unknown, failed, is_open, status_eq,
}
use booking_orchestration_se.Model.Booking.{Booking}
use booking_orchestration_se.Store.Table.{Db}
use booking_orchestration_se.Store.Rows.{guarded, apply_row, park_row, parkable}
use booking_orchestration_se.Store.Steps.{row_after}
use booking_orchestration_se.World.{M, ◌>>=◌, pure, Reply, ok, World}
use booking_orchestration_se.Workflow.Activity.{Deps}
use booking_orchestration_se.Workflow.Park.{
  park_unknown, park_parsed, unreachable_transition, park_applied, park_loaded,
}
use booking_orchestration_se.Workflow.Run.{Config, wait, parked, park, tried, execute}
use booking_orchestration_se.Quiet.Spec.{given_up}
use booking_orchestration_se.Quiet.Sql.{At, get_by_id-quiet}
use booking_orchestration_se.Quiet.Write.{Rest, over, Leaves, apply-Leaves, park-Leaves}

-- A retried activity that answers is run once.
pub execute_once :
    {A : Type 0} (n : ℕ) (m : M (Reply A)) (w w' : World) (a : A)
    → m w ≡ (ok a, w')
    → execute n m w ≡ (ok a, w')
unfolding execute tried ◌>>=◌ pure
execute_once zero m w w' a h = rw h refl
execute_once (suc n) m w w' a h = rw h refl

-- A booking at rest, and a run that answers and leaves one.
pub record IsLeft (b : Booking) (s : Status) : Type 0 where
  pub status : b.status ≡ s
  pub unmarked : b.in_flight_attempt ≡ none

abbrev pub Finishes : Rest → ℕ → String → M (Reply (Unit {0})) → Db → Status → Type 0
Finishes r id key m db s =
    (r' : Rest) × (b' : Booking) × (db' : Db) × (m (over r db) ≡ (ok tt, over r' db'))
    × At db' id key b'
    × IsLeft b' s

open-cases : (s : Status) → is_open s ≡ true → (s ≡ received) ⊎ ((s ≡ pending) ⊎ (s ≡ unknown))
open-cases s h = ground arith

module _ (deps : Deps) (r : Rest) (id : ℕ) (key : String) (db : Db) (b : Booking)
    (h : At db id key b) (o : is_open b.status ≡ true) (free : b.in_flight_attempt ≡ none) where
  unreachable_guarded : b.status ≡ pending → guarded (unreachable_transition deps) b ≡ true
  unfolding guarded unreachable_transition
  unreachable_guarded e = ground (arith, e, free)

  unreachable-IsLeft :
      b.status ≡ pending
      → IsLeft (row_after (apply_row db.now (unreachable_transition deps) b) b) failed
  unfolding apply_row unreachable_transition
  unreachable-IsLeft e = record {
    status = ground (arith, unreachable_guarded e);
    unmarked = ground (arith, unreachable_guarded e);
  }

  park_row-IsLeft : IsLeft (row_after (park_row db.now deps.request_id b) b) b.status
  unfolding park_row
  park_row-IsLeft = record { status = ground arith; unmarked = ground (arith, free) }

  park_loaded-Leaves :
      (parked_now : Bool) × (b' : Booking) × Leaves r id key
        (park_loaded deps id (ok b))
        db
        (ok parked_now)
        b'
      × IsLeft b' (given_up b.status)
  unfolding park_loaded park_applied ◌>>=◌ pure unreachable_transition
  park_loaded-Leaves = elim (open-cases b.status o) [
    | inl e ↦
        let test : status_eq b.status pending ≡ false = ground (arith, e) in
        let stays : given_up b.status ≡ b.status = ground (arith, e) in
        rw (test, stays)
          (parkable b, _, park-Leaves r id key db b h deps.request_id, park_row-IsLeft)
    | inr (inr e) ↦
        let test : status_eq b.status pending ≡ false = ground (arith, e) in
        let stays : given_up b.status ≡ b.status = ground (arith, e) in
        rw (test, stays)
          (parkable b, _, park-Leaves r id key db b h deps.request_id, park_row-IsLeft)
    | inr (inl e) ↦
        let test : status_eq b.status pending ≡ true = ground (arith, e) in
        let fails : given_up b.status ≡ failed = ground (arith, e) in
        let (db', runs, at) =
          apply-Leaves r id key db b h (unreachable_transition deps) (unreachable_guarded e) refl
            refl in
        rw (test, fails) (false, _, (db', rw runs refl, at), unreachable-IsLeft e)
  ]

  park_unknown-Leaves :
      (text : String)
      → deps.parse_uuid text ≡ some id
      → (parked_now : Bool) × (b' : Booking) × Leaves r id key
          (park_unknown deps text)
          db
          (ok parked_now)
          b'
        × IsLeft b' (given_up b.status)
  unfolding park_unknown park_parsed ◌>>=◌
  park_unknown-Leaves text parsed =
      let (flag, b', (db', runs, at), left) = park_loaded-Leaves in
      (
        flag,
        b',
        (
          db',
          rw (parsed, get_by_id-quiet db r.calls r.starts r.signals r.waits id h.found) runs,
          at,
        ),
        left,
      )

  parked-Finishes :
      (cfg : Config) (text : String) (flag : Bool) (b' : Booking) (db' : Db)
      → park_unknown deps text (over r db) ≡ (ok flag, over r db')
      → At db' id key b'
      → IsLeft b' (given_up b.status)
      → Finishes r id key (park cfg deps text) db (given_up b.status)
  unfolding park parked wait ◌>>=◌ pure
  parked-Finishes cfg text true b' db' runs at left = (
    record r { waits = cfg.park_timeout ∷ r.waits },
    b',
    db',
    rw (execute_once cfg.persist_tries (park_unknown deps text) (over r db) (over r db') true runs)
        refl,
    at,
    left,
  )
  parked-Finishes cfg text false b' db' runs at left = (
    r,
    b',
    db',
    rw (execute_once cfg.persist_tries (park_unknown deps text) (over r db) (over r db') false runs)
        refl,
    at,
    left,
  )

  -- An open booking with nothing outstanding fails where it is PENDING and stays otherwise.
  pub park-Finishes :
      (cfg : Config) (text : String)
      → deps.parse_uuid text ≡ some id
      → Finishes r id key (park cfg deps text) db (given_up b.status)
  park-Finishes cfg text parsed =
      let (flag, b', (db', runs, at), left) = park_unknown-Leaves text parsed in
      parked-Finishes cfg text flag b' db' runs at left
