-- ===== src/Workflow/Run/Refines.antt =====
-- A run of the workflow, with all its retries, refines a sequence of issued statements.
use booking_orchestration_se.Base.{
  ℕ, zero, suc, ◌+◌, ◌≤◌, String, Bool, true, false, ltb, Option, refl,
}
use booking_orchestration_se.World.{M, Reply, ok, err}
use booking_orchestration_se.World.Reach.{here}
use booking_orchestration_se.World.Refines.{
  Refines, pure-Refines, bind-Refines, if-Refines, silent-IsCharged,
}
use booking_orchestration_se.Model.Status.{settled, to_status}
use booking_orchestration_se.Workflow.Activity.{
  Deps, Answer, AttemptOutcome, confirmed_outcome, rejected_outcome, ambiguous_outcome,
  not_sent_outcome, failed_outcome, settled_outcome, in_doubt, exit_outcome, budget_spent_outcome,
  AttemptResult,
}
use booking_orchestration_se.Workflow.Refines.{dispatch-Refines, attempt-Refines}
use booking_orchestration_se.Workflow.Writes.{apply_answer-Refines, park_unknown-Refines}
use booking_orchestration_se.Workflow.Run.{
  Config, tried, execute, read_tries, send_tries, wait, delay, parked, park, concluded, persisted,
  sent, attempts, dispatched, booking_workflow,
}

module _ (budget : ℕ) (parse : String → Option ℕ) where
  tried-Refines :
      {A : Type 0} (again : M (Reply A)) (more : ℕ) (r : Reply A)
      → Refines budget parse again
      → Refines budget parse (tried again more r)
  unfolding tried
  tried-Refines again zero (ok a) h = pure-Refines budget parse _
  tried-Refines again (suc more) (ok a) h = pure-Refines budget parse _
  tried-Refines again zero (err e) h = pure-Refines budget parse _
  tried-Refines again (suc more) (err e) h = h

  execute-Refines :
      {A : Type 0} (more : ℕ) (m : M (Reply A))
      → Refines budget parse m
      → Refines budget parse (execute more m)
  unfolding execute
  execute-Refines zero m h = bind-Refines budget parse _ _ h (λ r. tried-Refines m zero r h)
  execute-Refines (suc more) m h =
      bind-Refines budget parse _ _ h
        (λ r. tried-Refines (execute more m) (suc more) r (execute-Refines more m h))

  wait-Refines : (d : ℕ) → Refines budget parse (wait d)
  unfolding wait
  wait-Refines d = record {
    runs = λ w fair. (here, fair, silent-IsCharged budget parse w (wait d w).1 refl refl here);
  }

module _ (budget : ℕ) (cfg : Config) (deps : Deps) (booking_id : String) where
  parked-Refines : (r : Reply Bool) → Refines budget deps.parse_uuid (parked cfg r)
  unfolding parked
  parked-Refines (err e) = pure-Refines budget deps.parse_uuid _
  parked-Refines (ok false) = pure-Refines budget deps.parse_uuid _
  parked-Refines (ok true) =
      bind-Refines budget deps.parse_uuid _ _ (wait-Refines budget deps.parse_uuid cfg.park_timeout)
        (λ _. pure-Refines budget deps.parse_uuid _)

  park-Refines : Refines budget deps.parse_uuid (park cfg deps booking_id)
  unfolding park
  park-Refines =
      bind-Refines budget deps.parse_uuid _ _
        (execute-Refines budget deps.parse_uuid cfg.persist_tries _
          (park_unknown-Refines budget deps booking_id))
        parked-Refines

  module _ (n : ℕ) (again : M (Reply (Unit {0}))) (h : Refines budget deps.parse_uuid again) where
    retried-Refines :
        Refines budget deps.parse_uuid (concluded cfg deps booking_id n again ambiguous_outcome)
    unfolding concluded
    retried-Refines =
        if-Refines budget deps.parse_uuid (ltb n cfg.create_attempts) _ _
          (λ _.
            bind-Refines budget deps.parse_uuid _ _
              (wait-Refines budget deps.parse_uuid (delay cfg n)) (λ _. h))
          (λ _. h)

    concluded-Refines :
        (o : AttemptOutcome)
        → Refines budget deps.parse_uuid (concluded cfg deps booking_id n again o)
    unfolding concluded
    concluded-Refines confirmed_outcome = pure-Refines budget deps.parse_uuid _
    concluded-Refines rejected_outcome = pure-Refines budget deps.parse_uuid _
    concluded-Refines settled_outcome = pure-Refines budget deps.parse_uuid _
    concluded-Refines failed_outcome = pure-Refines budget deps.parse_uuid _
    concluded-Refines in_doubt = park-Refines
    concluded-Refines budget_spent_outcome = park-Refines
    concluded-Refines exit_outcome = pure-Refines budget deps.parse_uuid _
    concluded-Refines ambiguous_outcome = retried-Refines
    concluded-Refines not_sent_outcome = retried-Refines

    persisted-Refines :
        (r : Reply AttemptResult)
        → Refines budget deps.parse_uuid (persisted cfg deps booking_id n again r)
    unfolding persisted
    persisted-Refines (err e) = pure-Refines budget deps.parse_uuid _
    persisted-Refines (ok result) = concluded-Refines result.outcome

    sent-Refines :
        (r : Reply Answer) → Refines budget deps.parse_uuid (sent cfg deps booking_id n again r)
    unfolding sent
    sent-Refines (err e) = pure-Refines budget deps.parse_uuid _
    sent-Refines (ok answer) =
        bind-Refines budget deps.parse_uuid _ _
          (execute-Refines budget deps.parse_uuid cfg.persist_tries _
            (apply_answer-Refines budget deps booking_id answer))
          persisted-Refines

  module _ (h : cfg.create_attempts ≤ budget) where
    attempts-Refines :
        (left n : ℕ) → Refines budget deps.parse_uuid (attempts cfg deps booking_id left n)
    unfolding attempts
    attempts-Refines zero n = park-Refines
    attempts-Refines (suc left) n =
        bind-Refines budget deps.parse_uuid _ _
          (execute-Refines budget deps.parse_uuid send_tries _
            (attempt-Refines budget deps booking_id cfg.create_attempts h))
          (sent-Refines n _ (attempts-Refines left (n + 1)))

    dispatched-Refines :
        (r : Reply String) → Refines budget deps.parse_uuid (dispatched cfg deps booking_id r)
    unfolding dispatched
    dispatched-Refines (err e) = pure-Refines budget deps.parse_uuid _
    dispatched-Refines (ok status) =
        if-Refines budget deps.parse_uuid (settled (to_status status)) _ _
          (λ _. pure-Refines budget deps.parse_uuid _) (λ _. attempts-Refines cfg.create_attempts 1)

    pub booking_workflow-Refines :
        Refines budget deps.parse_uuid (booking_workflow cfg deps booking_id)
    unfolding booking_workflow
    booking_workflow-Refines =
        bind-Refines budget deps.parse_uuid _ _
          (execute-Refines budget deps.parse_uuid read_tries _
            (dispatch-Refines budget deps booking_id))
          dispatched-Refines
