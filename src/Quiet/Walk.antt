-- ===== src/Quiet/Walk.antt =====
-- The workflow's loop in a quiet world, against the walk over the supplier's answers.
use mathlib.Core.Path.{subst}
use booking_orchestration_se.Base.{
  ℕ, zero, suc, ◌+◌, ◌≤◌, ◌≡◌, refl, sym, ap, ◌∙◌, true, false, some, none, String, List, ◌∷◌,
  arith,
}
use booking_orchestration_se.Model.Status.{Status, is_open}
use booking_orchestration_se.Model.Booking.{Booking}
use booking_orchestration_se.Supplier.Client.{Outcome, Result, BookRequest, Client, idempotency_key}
use booking_orchestration_se.Store.Table.{Db}
use booking_orchestration_se.Store.Rows.{sent_status, is_doubtful}
use booking_orchestration_se.Store.Statement.{authorize, exec}
use booking_orchestration_se.World.{◌>>=◌}
use booking_orchestration_se.Workflow.Activity.{Deps}
use booking_orchestration_se.Workflow.Attempt.{attempt, answer_from, request_of}
use booking_orchestration_se.Workflow.Run.{Config, send_tries, attempts}
use booking_orchestration_se.Quiet.Spec.{is_supplied, status_after, is_again, given_up, walk}
use booking_orchestration_se.Quiet.Sql.{At}
use booking_orchestration_se.Quiet.Write.{Rest, over}
use booking_orchestration_se.Quiet.Attempt.{sent_row, granted_for, authorize-At, attempt_sends}
use booking_orchestration_se.Quiet.Ended.{IsAwaited, IsEnded}
use booking_orchestration_se.Quiet.Park.{execute_once, Finishes, park-Finishes}
use booking_orchestration_se.Quiet.Answered.{
  IsSent, authorizable-left, sent_row-IsSent, doubtful-sent, spent-Finishes, answered-Finishes,
}

module _ (client : Client) (req : BookRequest) (left : ℕ) (calls : List BookRequest)
    (s : Status) where
  pub walk_again :
      is_again (client calls req).outcome ≡ true
      → walk client req (suc left) calls s
        ≡ walk client req left
            (req ∷ calls)
            (status_after (client calls req).outcome (sent_status s))
  unfolding walk
  walk_again e = rw e refl

  pub walk_last :
      is_again (client calls req).outcome ≡ false
      → walk client req (suc left) calls s ≡ status_after (client calls req).outcome (sent_status s)
  unfolding walk
  walk_last e = rw e refl

pub walk_zero :
    (client : Client) (req : BookRequest) (calls : List BookRequest) (s : Status)
    → walk client req 0 calls s ≡ given_up s
unfolding walk
walk_zero client req calls s = refl

again-open :
    (o : Outcome) (s : Status)
    → is_again o ≡ true
    → is_doubtful s ≡ true
    → is_open (status_after o s) ≡ true
again-open o s e d = ground arith

answer_from-IsAwaited :
    (b b1 : Booking) (result : Result)
    → is_open b.status ≡ true
    → IsSent b b1
    → IsAwaited b1 (answer_from (granted_for b) result)
unfolding answer_from
answer_from-IsAwaited b b1 result o s = record {
  doubtful = rw s.status (doubtful-sent b.status o);
  asked_from = sym s.status;
  marked = s.marked;
}

module _ (cfg : Config) (deps : Deps) (text : String) (id : ℕ)
    (parsed : deps.parse_uuid text ≡ some id)
    (real : (calls : List BookRequest) (req : BookRequest)
      → is_supplied (deps.client calls req).outcome ≡ true) where
  pub attempts-Finishes :
      (left remaining n : ℕ) (r : Rest) (db : Db) (b : Booking)
      → At db id (idempotency_key text) b
      → is_open b.status ≡ true
      → b.in_flight_attempt ≡ none
      → remaining + b.supplier_attempts ≡ cfg.create_attempts
      → remaining ≤ left
      → Finishes r id
          (idempotency_key text)
          (attempts cfg deps text left n)
          db
          (walk deps.client (request_of text b) remaining r.calls b.status)
  unfolding attempts ◌>>=◌ answer_from
  attempts-Finishes zero zero n r db b h o free count fits =
      rw (walk_zero deps.client (request_of text b) r.calls b.status)
        (park-Finishes deps r id (idempotency_key text) db b h o free cfg text parsed)
  attempts-Finishes zero (suc k) n r db b h o free count fits = ground arith
  attempts-Finishes (suc left) zero n r db b h o free count fits =
      rw (walk_zero deps.client (request_of text b) r.calls b.status)
        (spent-Finishes cfg deps text id parsed left n r db b h o free (omega arith))
  attempts-Finishes (suc left) (suc k) n r db b h o free count fits =
      let may = authorizable-left cfg.create_attempts k b o free count in
      let b1 = sent_row db.now deps cfg.create_attempts (idempotency_key text) b in
      let sent_now = sent_row-IsSent db.now cfg.create_attempts deps (idempotency_key text) b may in
      let req = request_of text b in
      let r1 : Rest = record r { calls = req ∷ r.calls } in
      let a = answer_from (granted_for b) (deps.client r.calls req) in
      let db1 = exec (authorize id cfg.create_attempts (idempotency_key text) deps.request_id) db in
      let asked =
        execute_once send_tries (attempt deps text cfg.create_attempts) (over r db) (over r1 db1) a
          (attempt_sends deps text id cfg.create_attempts db b h parsed r.calls r.starts r.signals
            r.waits may) in
      let outcome = (deps.client r.calls req).outcome in
      let target = walk deps.client req (suc k) r.calls b.status in
      let stop : is_again outcome ≡ false → target ≡ status_after outcome b1.status = λ e.
        walk_last deps.client req k r.calls b.status e
        ∙ ap (status_after outcome) (sym sent_now.status) in
      let same_walk : (b2 : Booking) (r2 : Rest)
          → is_again outcome ≡ true
          → IsEnded b1 b2 (status_after outcome b1.status)
          → r2.calls ≡ r1.calls
          → walk deps.client (request_of text b2) k r2.calls b2.status ≡ target =
        λ b2 r2 e ended same.
          rw (ended.asked text, sent_now.asked text, same, ended.status, sent_now.status)
            (sym (walk_again deps.client req k r.calls b.status e)) in
      let finishes =
        answered-Finishes cfg deps text id parsed n r1 db1 b1 a
          (attempts cfg deps text left (n + 1)) target
          (authorize-At deps text id cfg.create_attempts db b h)
          (answer_from-IsAwaited b b1 (deps.client r.calls req) o sent_now) (real r.calls req) stop
          (λ e db2 b2 r2 at ended same.
            subst
              (λ t.
                Finishes r2 id (idempotency_key text) (attempts cfg deps text left (n + 1)) db2 t)
              (same_walk b2 r2 e ended same)
              (attempts-Finishes left k (n + 1) r2 db2 b2 at
                (rw ended.status
                  (again-open outcome b1.status e (rw sent_now.status (doubtful-sent b.status o))))
                ended.unmarked (rw (ended.spent, sent_now.counted) (omega arith)) (omega arith))) in
      let (r', b', db', runs, at, left_row) = finishes in (r', b', db', rw asked runs, at, left_row)
