-- ===== src/Quiet/Apply.antt =====
-- `Apply` and `Park` in a quiet world, on a row whose outstanding attempt is the answer's.
use mathlib.Core.Path.{subst}
use booking_orchestration_se.Quiet.Spec.{is_supplied, status_after}
use booking_orchestration_se.Base.{
  ℕ, ◌≡◌, inl, inr, refl, true, false, some, none, String, Option, arith, if◌then◌else◌, holds,
}
use booking_orchestration_se.Model.Status.{
  Status, unknown, confirmed, rejected, failed, may_move, status_eq,
}
use booking_orchestration_se.Model.Booking.{
  Booking, EventType, supplier_request, supplier_timeout, transition,
}
use booking_orchestration_se.Contract.{Transition, owned}
use booking_orchestration_se.Repository.{apply_transition}
use booking_orchestration_se.Supplier.Client.{Outcome}
use booking_orchestration_se.Store.Table.{Db}
use booking_orchestration_se.Store.Rows.{guarded}
use booking_orchestration_se.World.{◌>>=◌, pure}
use booking_orchestration_se.Workflow.Activity.{
  Deps, Answer, AttemptOutcome, result_of, ambiguous_outcome, not_sent_outcome, failed_outcome,
  in_doubt,
}
use booking_orchestration_se.Workflow.Apply.{
  settle_transition, settle, settle_applied, end_attempt, cleared, clear_event, doubt_transition,
  ambiguous, build_failed_transition, pre_send_failure, apply_outcome, apply_parsed, apply_answer,
  settle_outcome, tolerated,
}
use booking_orchestration_se.Quiet.Sql.{At}
use booking_orchestration_se.Quiet.Write.{Rest, Leaves, apply-Leaves, clear-Leaves}
use booking_orchestration_se.Quiet.Ended.{
  IsAwaited, IsEnded, Ends, guarded-IsFor, apply_row-IsEnded, clear_marker_row-IsEnded,
  doubtful-cases, told, may_settle,
}

module _ (deps : Deps) (r : Rest) (id : ℕ) (key : String) (db : Db) (b : Booking) (a : Answer)
    (h : At db id key b) (w : IsAwaited b a) where
  write-Ends :
      (t : Transition)
      → t.from ≡ a.from
      → t.marker ≡ owned
      → t.attempt ≡ some a.attempt
      → may_move t.from t.to ≡ true
      → (b' : Booking) × Leaves r id key (apply_transition id t) db (t.to, none) b'
        × IsEnded b b' t.to
  write-Ends t f o n may =
      let g : guarded t b ≡ true =
        guarded-IsFor t b
          (
            ground (arith, f, w.asked_from),
            o,
            ground (arith, n, w.marked),
            ground (arith, w.marked),
          )
          w.doubtful in
      (
        _,
        apply-Leaves r id key db b h t g may (ground (arith, o, n)),
        apply_row-IsEnded db.now t b g,
      )

  settle-Ends :
      (to : Status) (ref why : Option String)
      → may_move a.from to ≡ true
      → Ends r id key (settle deps id a to ref why) db b (settle_outcome to) to
  unfolding settle settle_applied ◌>>=◌ pure settle_transition
  settle-Ends to ref why may =
      let (b', (db', runs, at), ended) =
        write-Ends (settle_transition deps a to ref why) refl refl refl may in
      (result_of (settle_outcome to) a, b', (db', rw runs refl, at), refl, ended)

  clear-Ends :
      (kind : EventType) (o : AttemptOutcome)
      → Ends r id key (end_attempt deps id a kind o) db b o b.status
  unfolding end_attempt cleared ◌>>=◌ pure
  clear-Ends kind o =
      let held : holds b.in_flight_attempt a.attempt ≡ true = ground (arith, w.marked) in
      let (db', runs, at) = clear-Leaves r id key db b h a.attempt (clear_event deps a kind) held in
      (
        result_of o a,
        _,
        (db', rw runs refl, at),
        refl,
        clear_marker_row-IsEnded db.now a.attempt (clear_event deps a kind) b held,
      )

  -- An attempt that stays where it is, in doubt.
  stays-Ends :
      (kind : EventType) (o : AttemptOutcome)
      → b.status ≡ unknown
      → Ends r id key (end_attempt deps id a kind o) db b o unknown
  stays-Ends kind o e =
      subst (λ s. Ends r id key (end_attempt deps id a kind o) db b o s) e (clear-Ends kind o)

  -- A write from PENDING whose lost race would be tolerated.
  tolerated-Ends :
      (t : Transition) (o : AttemptOutcome)
      → t.from ≡ a.from
      → t.marker ≡ owned
      → t.attempt ≡ some a.attempt
      → may_move t.from t.to ≡ true
      → Ends r id key (apply_transition id t >>= λ x. pure (tolerated a o x)) db b o t.to
  unfolding ◌>>=◌ pure
  tolerated-Ends t o f n m may =
      let (b', (db', runs, at), ended) = write-Ends t f n m may in
      (result_of o a, b', (db', rw runs refl, at), refl, ended)

  -- An ambiguous answer leaves the booking in doubt.
  ambiguous-Ends : Ends r id key (ambiguous deps id a) db b ambiguous_outcome unknown
  unfolding ambiguous doubt_transition
  ambiguous-Ends = elim (doubtful-cases b.status w.doubtful) [
    | inl e ↦
        let test : status_eq a.from unknown ≡ false = ground (arith, e, w.asked_from) in
        rw test (
          tolerated-Ends (doubt_transition deps a) ambiguous_outcome
            (ground (arith, e, w.asked_from)) refl refl refl)
    | inr e ↦
        let test : status_eq a.from unknown ≡ true = ground (arith, e, w.asked_from) in
        rw test (stays-Ends supplier_timeout ambiguous_outcome e)
  ]

  pre_send-Ends :
      Ends r id key
        (pre_send_failure deps id a)
        db
        b
        (if status_eq b.status unknown then in_doubt else failed_outcome)
        (if status_eq b.status unknown then unknown else failed)
  unfolding pre_send_failure build_failed_transition
  pre_send-Ends = elim (doubtful-cases b.status w.doubtful) [
    | inl e ↦
        let test : status_eq a.from unknown ≡ false = ground (arith, e, w.asked_from) in
        let own : status_eq b.status unknown ≡ false = ground (arith, e) in
        rw (test, own)
          (tolerated-Ends (build_failed_transition deps a) failed_outcome
            (ground (arith, e, w.asked_from)) refl refl refl)
    | inr e ↦
        let test : status_eq a.from unknown ≡ true = ground (arith, e, w.asked_from) in
        let own : status_eq b.status unknown ≡ true = ground (arith, e) in
        rw (test, own) (stays-Ends transition in_doubt e)
  ]

  apply_outcome-Ends :
      (o : Outcome)
      → is_supplied o ≡ true
      → Ends r id key (apply_outcome o deps id a) db b (told o b.status) (status_after o b.status)
  unfolding apply_outcome
  apply_outcome-Ends Outcome.confirmed real =
      settle-Ends confirmed _ _
        (may_settle a.from confirmed (ground (arith, w.asked_from, w.doubtful)) (inl refl))
  apply_outcome-Ends Outcome.rejected real =
      settle-Ends rejected _ _
        (may_settle a.from rejected (ground (arith, w.asked_from, w.doubtful)) (inr refl))
  apply_outcome-Ends Outcome.ambiguous real = ambiguous-Ends
  apply_outcome-Ends Outcome.not_sent real = clear-Ends supplier_request not_sent_outcome
  apply_outcome-Ends Outcome.pre_send_failure real = pre_send-Ends
  apply_outcome-Ends Outcome.already_settled real = ground arith
  apply_outcome-Ends Outcome.budget_spent real = ground arith
  apply_outcome-Ends Outcome.outstanding real = ground arith

  -- `Apply` of a supplier's answer.
  pub apply_answer-Ends :
      (text : String)
      → deps.parse_uuid text ≡ some id
      → is_supplied a.outcome ≡ true
      → Ends r id key
          (apply_answer deps text a)
          db
          b
          (told a.outcome b.status)
          (status_after a.outcome b.status)
  unfolding apply_answer apply_parsed
  apply_answer-Ends text parsed real = rw parsed (apply_outcome-Ends a.outcome real)
