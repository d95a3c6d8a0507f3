-- ===== src/Quiet/Superseded.antt =====
-- An answer of the supplier that comes after its attempt was overridden, in a quiet world
-- (`Apply` of internal/workflow/activity.go).
use booking_orchestration_se.Quiet.Redelivery.{on_target_written, valid_mover}
use booking_orchestration_se.Quiet.Verdict.{Decides, Shows, verdict, written}
use booking_orchestration_se.Quiet.Callback.{applicable_status_cases, apply_callback-Decides}
use booking_orchestration_se.Service.Callback.{SupplierOutcome, apply_callback, applicable_status}
use booking_orchestration_se.Service.Create.{Request}
use booking_orchestration_se.Base.{
  ◌≡◌, refl, true, false, some, String, Option, ◌&&◌, arith, inl, inr, Bool-cases, holds, ℕ, subst,
  ◌∷◌,
}
use booking_orchestration_se.Model.Status.{
  Status, unknown, confirmed, rejected, may_move, status_eq, status_text,
}
use booking_orchestration_se.Model.Booking.{
  Booking, Event, EventType, supplier_request, supplier_timeout, transition,
}
use booking_orchestration_se.Contract.{Transition, owned, is_owned}
use booking_orchestration_se.Supplier.Client.{Outcome}
use booking_orchestration_se.World.{M, ◌>>=◌, pure, sql, Reply, ok}
use booking_orchestration_se.Store.Table.{Db, find}
use booking_orchestration_se.Store.Rows.{guarded, clear_marker_row}
use booking_orchestration_se.Store.Statement.{exec, on_row}
use booking_orchestration_se.Repository.{apply_transition, states_marker, clear_marker_of}
use booking_orchestration_se.Workflow.Activity.{
  Deps, Answer, AttemptResult, AttemptOutcome, result_of, ambiguous_outcome, not_sent_outcome,
  failed_outcome, in_doubt,
}
use booking_orchestration_se.Workflow.Apply.{
  settled_result, settle_transition, settle, settle_applied, end_attempt, cleared, clear_event,
  doubt_transition, ambiguous, build_failed_transition, pre_send_failure, apply_outcome, tolerated,
  apply_answer, apply_parsed,
}
use booking_orchestration_se.Quiet.Write.{Rest, over}
use booking_orchestration_se.Quiet.Whole.{Rewrites, bind-Rewrites, pure-Rewrites}
use booking_orchestration_se.Quiet.Lost.{lost-Rewrites, superseded-Rewrites}

module _ (deps : Deps) (a : Answer) (r : Rest) (db : Db) (b : Booking)
    (h : find b.id db.bookings ≡ some b) (late : holds b.in_flight_attempt a.attempt ≡ false) where
  clear_runs : (e : Event) → clear_marker_of b.id a.attempt e (over r db) ≡ (ok false, over r db)
  unfolding clear_marker_of ◌>>=◌ pure sql exec on_row clear_marker_row
  clear_runs e = rw (h, on_row) (rw (late, clear_marker_row) refl)

  -- The answer leaves every row as it was, and the activity returns a result.
  Stays : M (Reply AttemptResult) → Type 0
  Stays m = (x : AttemptResult) × Rewrites r db b m (ok x) r b

  end-Stays : (kind : EventType) (o : AttemptOutcome) → Stays (end_attempt deps b.id a kind o)
  unfolding end_attempt cleared Stays
  end-Stays kind o =
      let cleared_none =
        pure-Rewrites r db b h (clear_marker_of b.id a.attempt (clear_event deps a kind)) (ok false)
          r (clear_runs (clear_event deps a kind)) in
      (
        settled_result a.attempt "superseded",
        bind-Rewrites r r r db b b b _ _ (ok false) _ cleared_none
            (superseded-Rewrites deps a r cleared_none.after b cleared_none.found),
      )

  owned_unmatched :
      (t : Transition) → t.marker ≡ owned → t.attempt ≡ some a.attempt → guarded t b ≡ false
  unfolding guarded
  owned_unmatched t o n = ground (arith, o, n, late)

  settle-Stays :
      (to : Status) (ref why : Option String)
      → may_move a.from to ≡ true
      → Stays (settle deps b.id a to ref why)
  unfolding settle settle_transition Stays settle_applied pure
  settle-Stays to ref why may =
      let t = settle_transition deps a to ref why in
      let u = owned_unmatched t refl refl in
      elim (Bool-cases (status_eq b.status a.from)) [
        | inl same ↦
            let lost = lost-Rewrites r db b h t u true (ground (arith, same)) may refl in
            (
              settled_result 0 "superseded",
              bind-Rewrites r r r db b b b _ _ _ _ lost
                  (pure-Rewrites r lost.after b lost.found _ _ r refl),
            )
        | inr moved ↦
            let lost = lost-Rewrites r db b h t u false (ground (arith, moved)) may refl in
            (
              settled_result a.attempt "superseded",
              bind-Rewrites r r r db b b b _ _ _ _ lost
                  (superseded-Rewrites deps a r lost.after b lost.found),
            )
      ]

  -- A transition that may be overtaken.
  tolerated-Stays :
      (t : Transition) (o : AttemptOutcome)
      → t.marker ≡ owned
      → t.attempt ≡ some a.attempt
      → may_move t.from t.to ≡ true
      → states_marker t ≡ true
      → Stays (apply_transition b.id t >>= λ x. pure (tolerated a o x))
  unfolding Stays pure
  tolerated-Stays t o owner n may states = (
    result_of o a,
    elim (Bool-cases (status_eq b.status t.from && is_owned t.marker)) [
      | inl same ↦
          let lost = lost-Rewrites r db b h t (owned_unmatched t owner n) true same may states in
          bind-Rewrites r r r db b b b _ _ _ _ lost
            (pure-Rewrites r lost.after b lost.found _ _ r refl)
      | inr moved ↦
          let lost = lost-Rewrites r db b h t (owned_unmatched t owner n) false moved may states in
          bind-Rewrites r r r db b b b _ _ _ _ lost
            (pure-Rewrites r lost.after b lost.found _ _ r refl)
    ],
  )

  ambiguous-Stays : Stays (ambiguous deps b.id a)
  unfolding ambiguous doubt_transition
  ambiguous-Stays = elim (Bool-cases (status_eq a.from unknown)) [
    | inl again ↦ rw again (end-Stays supplier_timeout ambiguous_outcome)
    | inr first ↦
        rw first (tolerated-Stays (doubt_transition deps a) ambiguous_outcome refl refl refl refl)
  ]

  pre_send_failure-Stays : Stays (pre_send_failure deps b.id a)
  unfolding pre_send_failure build_failed_transition
  pre_send_failure-Stays = elim (Bool-cases (status_eq a.from unknown)) [
    | inl again ↦ rw again (end-Stays transition in_doubt)
    | inr first ↦
        rw first
          (tolerated-Stays (build_failed_transition deps a) failed_outcome refl refl refl refl)
  ]

  at_once-Stays : (x : AttemptResult) → Stays (pure (ok x))
  unfolding Stays
  at_once-Stays x = (x, pure-Rewrites r db b h (pure (ok x)) (ok x) r (unfold pure in refl))

  apply_outcome-Stays :
      (o : Outcome) → may_move a.from confirmed ≡ true → Stays (apply_outcome o deps b.id a)
  unfolding apply_outcome
  apply_outcome-Stays Outcome.already_settled may = at_once-Stays _
  apply_outcome-Stays Outcome.outstanding may = at_once-Stays _
  apply_outcome-Stays Outcome.budget_spent may = at_once-Stays _
  apply_outcome-Stays Outcome.confirmed may = settle-Stays confirmed _ _ may
  apply_outcome-Stays Outcome.rejected may = settle-Stays rejected _ _ (ground (arith, may))
  apply_outcome-Stays Outcome.not_sent may = end-Stays supplier_request not_sent_outcome
  apply_outcome-Stays Outcome.pre_send_failure may = pre_send_failure-Stays
  apply_outcome-Stays Outcome.ambiguous may = ambiguous-Stays

  apply_answer-Stays :
      (booking_id : String)
      → deps.parse_uuid booking_id ≡ some b.id
      → may_move a.from confirmed ≡ true
      → Stays (apply_answer deps booking_id a)
  unfolding apply_answer apply_parsed
  apply_answer-Stays booking_id parsed may = rw parsed (apply_outcome-Stays a.outcome may)

-- A callback, and then the answer of an attempt that it overrode.
abbrev pub overtaken :
    Request → Deps → ℕ → SupplierOutcome → String → Answer → M (Reply AttemptResult)
overtaken rq deps id o booking_id a =
    apply_callback rq id o >>= λ first. apply_answer deps booking_id a

module _ (rq : Request) (deps : Deps) (o : SupplierOutcome) (a : Answer) (booking_id : String)
    (r : Rest) (db : Db) (b : Booking) (h : find b.id db.bookings ≡ some b) where
  callback-Decides :
      (target : Status)
      → applicable_status o.status ≡ some target
      → may_move b.status target ≡ true
      → Decides r db b (apply_callback rq b.id o) (written b target o)
  unfolding verdict
  callback-Decides target at may =
      let table : verdict b o ≡ written b target o =
        rw at (on_target_written b o target (applicable_status_cases o.status target at) may) in
      subst (λ v. Decides r db b (apply_callback rq b.id o) v) table
        (apply_callback-Decides rq o r db b h (valid_mover b.status target may))

  -- In a quiet world, a callback that settles a row wins over the answer of whichever attempt was
  -- outstanding, whatever that answer is: when the worker persists it afterwards, the activity
  -- returns without an error and the row stays as the callback left it, with the callback's
  -- outcome, no marker and one wake-up of the run, and so do all other rows.
  pub overtaken-Stands :
      (target : Status)
      → applicable_status o.status ≡ some target
      → may_move b.status target ≡ true
      → deps.parse_uuid booking_id ≡ some b.id
      → may_move a.from confirmed ≡ true
      → (x : AttemptResult) × (r' : Rest) × (b' : Booking) × Rewrites r db b
          (overtaken rq deps b.id o booking_id a)
          (ok x)
          r'
          b'
        × Shows (written b target o) b'
        × (r'.signals ≡ (b.id, status_text target) ∷ r.signals)
        × (r'.calls ≡ r.calls)
  unfolding Stays
  overtaken-Stands target at may parsed from =
      let (r', b', first, shows, woken, silent) = callback-Decides target at may in
      let late : holds b'.in_flight_attempt a.attempt ≡ false = rw shows.marker refl in
      let parsed' : deps.parse_uuid booking_id ≡ some b'.id = rw (first.same) parsed in
      let (x, stays) =
        apply_answer-Stays deps a r' first.after b' first.found late booking_id parsed' from in
      (x, r', b', bind-Rewrites r r' r' db b b' b' _ _ _ (ok x) first stays, shows, woken, silent)
