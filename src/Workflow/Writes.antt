-- ===== src/Workflow/Writes.antt =====
-- The activities `Apply` and `Park` as sequences of issued statements.
use booking_orchestration_se.Base.{
  ℕ, ◌≡◌, ◌⊎◌, inl, inr, String, Bool, true, false, Option, none, some, refl, arith,
}
use booking_orchestration_se.Model.Status.{
  Status, received, pending, unknown, confirmed, rejected, failed, may_move, status_eq, settled,
}
use booking_orchestration_se.Model.Booking.{
  Booking, EventType, transition_conflict, attempt_superseded,
}
use booking_orchestration_se.Supplier.Client.{Outcome}
use booking_orchestration_se.World.{Reply, ok, err}
use booking_orchestration_se.World.Refines.{Refines, pure-Refines, bind-Refines, if-Refines}
use booking_orchestration_se.Repository.{Applied}
use booking_orchestration_se.Repository.Refines.{
  get_by_id-Refines, apply_transition-Refines, clear_marker_of-Refines, append_refusal_to-Refines,
  park_if_unknown-Refines,
}
use booking_orchestration_se.Workflow.Activity.{Deps, Answer, AttemptOutcome}
use booking_orchestration_se.Workflow.Apply.{
  superseded_loaded, superseded, superseded_answer_event, settle_transition, settle_applied, settle,
  cleared, clear_event, end_attempt, doubt_transition, ambiguous, build_failed_transition,
  pre_send_failure, apply_outcome, apply_parsed, apply_answer,
}
use booking_orchestration_se.Workflow.Park.{
  unreachable_transition, park_applied, park_loaded, park_parsed, park_unknown,
}

-- A supplier's answer settles a booking only from PENDING or UNKNOWN.
pub to_answer-IsIssued :
    (s t : Status)
    → (t ≡ confirmed) ⊎ (t ≡ rejected)
    → may_move s t ≡ true
    → (s ≡ received → ⊥) × (t ≡ failed → ⊥)
to_answer-IsIssued s t a h = ground arith

module _ (budget : ℕ) (deps : Deps) where
  superseded_loaded-Refines :
      (id : ℕ) (a : Answer) (r : Reply Booking)
      → Refines budget deps.parse_uuid (superseded_loaded deps id a r)
  unfolding superseded_loaded
  superseded_loaded-Refines id a (err e) = pure-Refines budget deps.parse_uuid _
  superseded_loaded-Refines id a (ok b) =
      bind-Refines budget deps.parse_uuid _ _
        (append_refusal_to-Refines budget deps.parse_uuid id
          (superseded_answer_event deps a b.status))
        (λ e. pure-Refines budget deps.parse_uuid _)

  superseded-Refines : (id : ℕ) (a : Answer) → Refines budget deps.parse_uuid (superseded deps id a)
  unfolding superseded
  superseded-Refines id a =
      bind-Refines budget deps.parse_uuid _ _ (get_by_id-Refines budget deps.parse_uuid id)
        (superseded_loaded-Refines id a)

  settle_applied-Refines :
      (id : ℕ) (a : Answer) (to : Status) (r : Applied)
      → Refines budget deps.parse_uuid (settle_applied deps id a to r)
  unfolding settle_applied
  settle_applied-Refines id a to (s, none) = pure-Refines budget deps.parse_uuid _
  settle_applied-Refines id a to (s, some attempt_superseded) =
      pure-Refines budget deps.parse_uuid _
  settle_applied-Refines id a to (s, some transition_conflict) = superseded-Refines id a
  settle_applied-Refines id a to (s, some e) = pure-Refines budget deps.parse_uuid _

  settle-Refines :
      (id : ℕ) (a : Answer) (to : Status) (reference why : Option String)
      → (to ≡ confirmed) ⊎ (to ≡ rejected)
      → Refines budget deps.parse_uuid (settle deps id a to reference why)
  unfolding settle settle_transition
  settle-Refines id a to reference why h =
      bind-Refines budget deps.parse_uuid _ _
        (apply_transition-Refines budget deps.parse_uuid id
          (settle_transition deps a to reference why)
          (λ edge.
            let (open_from, not_failed) = to_answer-IsIssued a.from to h edge in
            (edge, open_from, λ e. absurd (not_failed e))))
        (settle_applied-Refines id a to)

  cleared-Refines :
      (id : ℕ) (a : Answer) (o : AttemptOutcome) (r : Reply Bool)
      → Refines budget deps.parse_uuid (cleared deps id a o r)
  unfolding cleared
  cleared-Refines id a o (err e) = pure-Refines budget deps.parse_uuid _
  cleared-Refines id a o (ok true) = pure-Refines budget deps.parse_uuid _
  cleared-Refines id a o (ok false) = superseded-Refines id a

  end_attempt-Refines :
      (id : ℕ) (a : Answer) (kind : EventType) (o : AttemptOutcome)
      → Refines budget deps.parse_uuid (end_attempt deps id a kind o)
  unfolding end_attempt
  end_attempt-Refines id a kind o =
      bind-Refines budget deps.parse_uuid _ _
        (clear_marker_of-Refines budget deps.parse_uuid id a.attempt (clear_event deps a kind))
        (cleared-Refines id a o)

  ambiguous-Refines : (id : ℕ) (a : Answer) → Refines budget deps.parse_uuid (ambiguous deps id a)
  unfolding ambiguous doubt_transition
  ambiguous-Refines id a =
      if-Refines budget deps.parse_uuid (status_eq a.from unknown) _ _
        (λ _. end_attempt-Refines id a _ _)
        (λ _.
          bind-Refines budget deps.parse_uuid _ _
            (apply_transition-Refines budget deps.parse_uuid id (doubt_transition deps a)
              (λ edge. ground arith))
            (λ r. pure-Refines budget deps.parse_uuid _))

  pre_send_failure-Refines :
      (id : ℕ) (a : Answer) → Refines budget deps.parse_uuid (pre_send_failure deps id a)
  unfolding pre_send_failure build_failed_transition
  pre_send_failure-Refines id a =
      if-Refines budget deps.parse_uuid (status_eq a.from unknown) _ _
        (λ _. end_attempt-Refines id a _ _)
        (λ _.
          bind-Refines budget deps.parse_uuid _ _
            (apply_transition-Refines budget deps.parse_uuid id (build_failed_transition deps a)
              (λ edge. (edge, (λ e. cc), (λ e. (refl, inr refl)))))
            (λ r. pure-Refines budget deps.parse_uuid _))

  apply_outcome-Refines :
      (o : Outcome) (id : ℕ) (a : Answer)
      → Refines budget deps.parse_uuid (apply_outcome o deps id a)
  unfolding apply_outcome
  apply_outcome-Refines Outcome.already_settled id a = pure-Refines budget deps.parse_uuid _
  apply_outcome-Refines Outcome.outstanding id a = pure-Refines budget deps.parse_uuid _
  apply_outcome-Refines Outcome.budget_spent id a = pure-Refines budget deps.parse_uuid _
  apply_outcome-Refines Outcome.confirmed id a = settle-Refines id a _ _ _ (inl refl)
  apply_outcome-Refines Outcome.rejected id a = settle-Refines id a _ _ _ (inr refl)
  apply_outcome-Refines Outcome.not_sent id a = end_attempt-Refines id a _ _
  apply_outcome-Refines Outcome.pre_send_failure id a = pre_send_failure-Refines id a
  apply_outcome-Refines Outcome.ambiguous id a = ambiguous-Refines id a

  apply_parsed-Refines :
      (a : Answer) (id : Option ℕ) → Refines budget deps.parse_uuid (apply_parsed deps a id)
  unfolding apply_parsed
  apply_parsed-Refines a none = pure-Refines budget deps.parse_uuid _
  apply_parsed-Refines a (some id) = apply_outcome-Refines a.outcome id a

  pub apply_answer-Refines :
      (booking_id : String) (a : Answer)
      → Refines budget deps.parse_uuid (apply_answer deps booking_id a)
  unfolding apply_answer
  apply_answer-Refines booking_id a = apply_parsed-Refines a (deps.parse_uuid booking_id)

  park_applied-Refines :
      (id : ℕ) (r : Applied) → Refines budget deps.parse_uuid (park_applied deps id r)
  unfolding park_applied
  park_applied-Refines id (s, none) = pure-Refines budget deps.parse_uuid _
  park_applied-Refines id (s, some transition_conflict) =
      if-Refines budget deps.parse_uuid (settled s) _ _ (λ _. pure-Refines budget deps.parse_uuid _)
        (λ _. park_if_unknown-Refines budget deps.parse_uuid id deps.request_id)
  park_applied-Refines id (s, some e) = pure-Refines budget deps.parse_uuid _

  park_loaded-Refines :
      (id : ℕ) (r : Reply Booking) → Refines budget deps.parse_uuid (park_loaded deps id r)
  unfolding park_loaded unreachable_transition
  park_loaded-Refines id (err e) = pure-Refines budget deps.parse_uuid _
  park_loaded-Refines id (ok b) =
      if-Refines budget deps.parse_uuid (status_eq b.status pending) _ _
        (λ _.
          bind-Refines budget deps.parse_uuid _ _
            (apply_transition-Refines budget deps.parse_uuid id (unreachable_transition deps)
              (λ edge. (edge, (λ e. cc), (λ e. (refl, inl refl)))))
            (park_applied-Refines id))
        (λ _. park_if_unknown-Refines budget deps.parse_uuid id deps.request_id)

  park_parsed-Refines : (id : Option ℕ) → Refines budget deps.parse_uuid (park_parsed deps id)
  unfolding park_parsed
  park_parsed-Refines none = pure-Refines budget deps.parse_uuid _
  park_parsed-Refines (some id) =
      bind-Refines budget deps.parse_uuid _ _ (get_by_id-Refines budget deps.parse_uuid id)
        (park_loaded-Refines id)

  pub park_unknown-Refines :
      (booking_id : String) → Refines budget deps.parse_uuid (park_unknown deps booking_id)
  unfolding park_unknown
  park_unknown-Refines booking_id = park_parsed-Refines (deps.parse_uuid booking_id)
