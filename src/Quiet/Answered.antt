-- ===== src/Quiet/Answered.antt =====
-- The workflow's loop in a quiet world is the walk over the supplier's answers.
use mathlib.Core.Path.{subst}
use booking_orchestration_se.Base.{
  ℕ, suc, ◌+◌, ◌≡◌, inl, inr, refl, true, false, some, none, String, ◌∷◌, arith, ltb, Bool-cases,
}
use booking_orchestration_se.Model.Status.{Status, status_eq, unknown, is_open}
use booking_orchestration_se.Model.Booking.{Booking}
use booking_orchestration_se.Supplier.Client.{Outcome, idempotency_key}
use booking_orchestration_se.Store.Table.{Db}
use booking_orchestration_se.Store.Rows.{authorizable, sent_status, authorize_row, is_doubtful}
use booking_orchestration_se.World.{M, ◌>>=◌, pure, Reply, ok}
use booking_orchestration_se.Workflow.Activity.{Deps, Answer, budget_spent_outcome, unsent}
use booking_orchestration_se.Workflow.Attempt.{attempt, request_of}
use booking_orchestration_se.Workflow.Apply.{
  plain_result, apply_answer, apply_parsed, apply_outcome,
}
use booking_orchestration_se.Workflow.Run.{
  Config, send_tries, wait, delay, attempts, sent, persisted, concluded, park,
}
use booking_orchestration_se.Quiet.Spec.{is_supplied, status_after, is_again, given_up}
use booking_orchestration_se.Quiet.Sql.{At}
use booking_orchestration_se.Quiet.Write.{Rest, over}
use booking_orchestration_se.Quiet.Attempt.{sent_row, attempt_spent}
use booking_orchestration_se.Quiet.Ended.{IsAwaited, IsEnded, told}
use booking_orchestration_se.Quiet.Apply.{apply_answer-Ends}
use booking_orchestration_se.Quiet.Park.{execute_once, IsLeft, Finishes, park-Finishes}

-- An open booking with no attempt outstanding may be sent while the budget lasts.
pub authorizable-left :
    (m left : ℕ) (b : Booking)
    → is_open b.status ≡ true
    → b.in_flight_attempt ≡ none
    → suc left + b.supplier_attempts ≡ m
    → authorizable m b ≡ true
unfolding authorizable
authorizable-left m left b o free count = ground arith

-- The row that has just been sent.
pub record IsSent (b b' : Booking) : Type 0 where
  pub status : b'.status ≡ sent_status b.status
  pub marked : b'.in_flight_attempt ≡ some (b.supplier_attempts + 1)
  pub counted : b'.supplier_attempts ≡ b.supplier_attempts + 1
  pub asked : (text : String) → request_of text b' ≡ request_of text b

pub sent_row-IsSent :
    (now m : ℕ) (deps : Deps) (key : String) (b : Booking)
    → authorizable m b ≡ true
    → IsSent b (sent_row now deps m key b)
unfolding authorize_row request_of
sent_row-IsSent now m deps key b may = record {
  status = ground (arith, may);
  marked = ground (arith, may);
  counted = ground (arith, may);
  asked = λ text. ground (arith, may);
}

pub doubtful-sent : (s : Status) → is_open s ≡ true → is_doubtful (sent_status s) ≡ true
doubtful-sent s h = ground arith

pub open-doubtful : (s : Status) → is_doubtful s ≡ true → is_open s ≡ true
open-doubtful s h = ground arith

module _ (cfg : Config) (deps : Deps) (text : String) (id : ℕ)
    (parsed : deps.parse_uuid text ≡ some id) where
  -- What the workflow is told where nothing was sent.
  budget_spent_told :
      (r : Rest) (db : Db) (s : Status)
      → apply_answer deps text (unsent Outcome.budget_spent s) (over r db)
        ≡ (ok (plain_result budget_spent_outcome "attempt budget exhausted"), over r db)
  unfolding apply_answer apply_parsed apply_outcome pure
  budget_spent_told r db s = rw parsed refl

  -- With no attempt left, the loop's body parks.
  pub spent-Finishes :
      (left n : ℕ) (r : Rest) (db : Db) (b : Booking)
      → At db id (idempotency_key text) b
      → is_open b.status ≡ true
      → b.in_flight_attempt ≡ none
      → b.supplier_attempts ≡ cfg.create_attempts
      → Finishes r id
          (idempotency_key text)
          (attempts cfg deps text (suc left) n)
          db
          (given_up b.status)
  unfolding attempts sent persisted concluded ◌>>=◌
  spent-Finishes left n r db b h o free count =
      let asked =
        execute_once send_tries (attempt deps text cfg.create_attempts) (over r db) (over r db)
          (unsent Outcome.budget_spent b.status)
          (attempt_spent deps text id cfg.create_attempts db b h parsed r.calls r.starts r.signals
            r.waits o free (omega arith)) in
      let told_so =
        execute_once cfg.persist_tries
          (apply_answer deps text (unsent Outcome.budget_spent b.status)) (over r db) (over r db) _
          (budget_spent_told r db b.status) in
      let (r', b', db', runs, at, left_row) =
        park-Finishes deps r id (idempotency_key text) db b h o free cfg text parsed in
      (r', b', db', rw asked (rw told_so runs), at, left_row)

  -- After an answer for which another attempt follows.
  again-Finishes :
      (n : ℕ) (r : Rest) (db : Db) (o : Outcome) (s t : Status) (again : M (Reply (Unit {0})))
      → is_again o ≡ true
      → ((r' : Rest) → r'.calls ≡ r.calls → Finishes r' id (idempotency_key text) again db t)
      → Finishes r id (idempotency_key text) (concluded cfg deps text n again (told o s)) db t
  unfolding concluded wait ◌>>=◌
  again-Finishes n r db Outcome.ambiguous s t again e f =
      elim (Bool-cases (ltb n cfg.create_attempts)) [
        | inl more ↦ rw more (f (record r { waits = delay cfg n ∷ r.waits }) refl)
        | inr last ↦ rw last (f r refl)
      ]
  again-Finishes n r db Outcome.not_sent s t again e f =
      elim (Bool-cases (ltb n cfg.create_attempts)) [
        | inl more ↦ rw more (f (record r { waits = delay cfg n ∷ r.waits }) refl)
        | inr last ↦ rw last (f r refl)
      ]
  again-Finishes n r db Outcome.confirmed s t again e f = ground arith
  again-Finishes n r db Outcome.rejected s t again e f = ground arith
  again-Finishes n r db Outcome.pre_send_failure s t again e f = ground arith
  again-Finishes n r db Outcome.already_settled s t again e f = ground arith
  again-Finishes n r db Outcome.budget_spent s t again e f = ground arith
  again-Finishes n r db Outcome.outstanding s t again e f = ground arith

  -- After an answer that ends the loop.
  last-Finishes :
      (n : ℕ) (r : Rest) (db : Db) (b : Booking) (o : Outcome) (s : Status)
      (again : M (Reply (Unit {0})))
      → is_supplied o ≡ true
      → is_again o ≡ false
      → At db id (idempotency_key text) b
      → IsLeft b (status_after o s)
      → Finishes r id
          (idempotency_key text)
          (concluded cfg deps text n again (told o s))
          db
          (status_after o s)
  unfolding concluded pure
  last-Finishes n r db b Outcome.confirmed s again u e h l = (r, b, db, refl, h, l)
  last-Finishes n r db b Outcome.rejected s again u e h l = (r, b, db, refl, h, l)
  last-Finishes n r db b Outcome.pre_send_failure s again u e h l =
      elim (Bool-cases (status_eq s unknown)) [
        | inl doubt ↦
            let same : b.status ≡ unknown = ground (arith, l.status, doubt) in
            let stays : given_up b.status ≡ unknown = rw same refl in
            rw doubt (
              subst (λ t. Finishes r id (idempotency_key text) (park cfg deps text) db t) stays
                (park-Finishes deps r id (idempotency_key text) db b h (rw same refl) l.unmarked cfg
                  text parsed))
        | inr none_sent ↦ rw none_sent (r, b, db, refl, h, rw none_sent at l)
      ]
  last-Finishes n r db b Outcome.ambiguous s again u e h l = ground arith
  last-Finishes n r db b Outcome.not_sent s again u e h l = ground arith
  last-Finishes n r db b Outcome.already_settled s again u e h l = ground arith
  last-Finishes n r db b Outcome.budget_spent s again u e h l = ground arith
  last-Finishes n r db b Outcome.outstanding s again u e h l = ground arith

  -- One answer of the supplier, recorded and told to the loop.
  pub answered-Finishes :
      (n : ℕ) (r : Rest) (db : Db) (b : Booking) (a : Answer) (again : M (Reply (Unit {0})))
      (t : Status)
      → At db id (idempotency_key text) b
      → IsAwaited b a
      → is_supplied a.outcome ≡ true
      → (is_again a.outcome ≡ false → t ≡ status_after a.outcome b.status)
      → (is_again a.outcome ≡ true
          → (db' : Db) (b' : Booking) (r' : Rest) → At db' id (idempotency_key text) b'
          → IsEnded b b' (status_after a.outcome b.status)
          → r'.calls ≡ r.calls
          → Finishes r' id (idempotency_key text) again db' t)
      → Finishes r id (idempotency_key text) (sent cfg deps text n again (ok a)) db t
  unfolding sent persisted ◌>>=◌
  answered-Finishes n r db b a again t h w real stop go =
      let (result, b', (db', runs, at), told_so, ended) =
        apply_answer-Ends deps r id (idempotency_key text) db b a h w text parsed real in
      let once =
        execute_once cfg.persist_tries (apply_answer deps text a) (over r db) (over r db') result
          runs in
      let concludes : Finishes r id (idempotency_key text)
          (concluded cfg deps text n again (told a.outcome b.status)) db' t =
        elim (Bool-cases (is_again a.outcome)) [
          | inl more ↦
              again-Finishes n r db' a.outcome b.status t again more
                (λ r' same. go more db' b' r' at ended same)
          | inr last ↦ rw (stop last) (
              last-Finishes n r db' b' a.outcome b.status again real last at
                (record { status = ended.status; unmarked = ended.unmarked }))
        ] in
      let (r', b'', db'', ends, at', left_row) = concludes in
      (r', b'', db'', rw once (rw told_so ends), at', left_row)
