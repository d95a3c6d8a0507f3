-- ===== src/Workflow/Run.antt =====
-- `BookingWorkflow` (internal/workflow/workflow.go). Durations are in nanoseconds. Temporal runs an
-- activity again until it answers or its policy gives up: a read five times, the call to the
-- supplier once, and a write as often as `persist_tries` says, which stands for the tries that its
-- window leaves room for.
pub mod Refines
use booking_orchestration_se.Base.{
  ℕ, zero, suc, ◌+◌, ◌-◌, String, Bool, true, false, Option, none, some, List, [], ◌∷◌, get_elem?,
  ltb, if◌then◌else◌,
}
use booking_orchestration_se.Model.Status.{settled, to_status}
use booking_orchestration_se.World.{M, ◌>>=◌, pure, Reply, ok, err}
use booking_orchestration_se.Workflow.Activity.{
  Deps, Answer, AttemptOutcome, confirmed_outcome, rejected_outcome, ambiguous_outcome,
  not_sent_outcome, failed_outcome, settled_outcome, in_doubt, exit_outcome, budget_spent_outcome,
  AttemptResult, dispatch,
}
use booking_orchestration_se.Workflow.Attempt.{attempt}
use booking_orchestration_se.Workflow.Apply.{apply_answer}
use booking_orchestration_se.Workflow.Park.{park_unknown}

pub record Config : Type 0 where
  pub create_attempts : ℕ
  pub retry_delays : List ℕ
  pub park_timeout : ℕ
  -- Tries of a write after the first.
  pub persist_tries : ℕ

-- `ExecuteActivity(...).Get` under a policy of `more` tries after the first.
unfoldable pub tried : {A : Type 0} → M (Reply A) → ℕ → Reply A → M (Reply A)
tried again more (ok a) = pure (ok a)
tried again zero (err e) = pure (err e)
tried again (suc more) (err e) = again

unfoldable pub execute : {A : Type 0} → ℕ → M (Reply A) → M (Reply A)
execute zero m = m >>= tried m zero
execute (suc more) m = m >>= tried (execute more m) (suc more)

-- `MaximumAttempts: 5` and `MaximumAttempts: 1`, less the first.
abbrev pub read_tries : ℕ
read_tries = 4

abbrev pub send_tries : ℕ
send_tries = 0

-- `workflow.Sleep`, and the timer of the park.
unfoldable pub wait : ℕ → M (Unit {0})
wait d w = (tt, record w { waits = d ∷ w.waits })

-- The last of a list, and `delay`.
abbrev last_or : ℕ → List ℕ → ℕ
last_or d [] = d
last_or d (x ∷ xs) = last_or x xs

abbrev default_delay : ℕ
default_delay = 30000000000

abbrev delay_at : Option ℕ → List ℕ → ℕ
delay_at (some d) ds = d
delay_at none ds = last_or default_delay ds

unfoldable pub delay : Config → ℕ → ℕ
delay cfg n = delay_at (get_elem? cfg.retry_delays (n - 1)) cfg.retry_delays

-- `park`: a booking in doubt keeps the run alive until a signal or the timer; either ends it.
unfoldable pub parked : Config → Reply Bool → M (Reply (Unit {0}))
parked cfg (err e) = pure (err e)
parked cfg (ok false) = pure (ok tt)
parked cfg (ok true) = wait cfg.park_timeout >>= λ _. pure (ok tt)

unfoldable pub park : Config → Deps → String → M (Reply (Unit {0}))
park cfg deps booking_id = execute cfg.persist_tries (park_unknown deps booking_id) >>= parked cfg

-- The `switch` on an attempt's outcome; `again` is the next round.
unfoldable pub concluded :
    Config → Deps → String → ℕ → M (Reply (Unit {0})) → AttemptOutcome → M (Reply (Unit {0}))
concluded cfg deps booking_id n again confirmed_outcome = pure (ok tt)
concluded cfg deps booking_id n again rejected_outcome = pure (ok tt)
concluded cfg deps booking_id n again settled_outcome = pure (ok tt)
concluded cfg deps booking_id n again failed_outcome = pure (ok tt)
concluded cfg deps booking_id n again in_doubt = park cfg deps booking_id
concluded cfg deps booking_id n again budget_spent_outcome = park cfg deps booking_id
concluded cfg deps booking_id n again exit_outcome = pure (ok tt)
concluded cfg deps booking_id n again ambiguous_outcome =
    if ltb n cfg.create_attempts then (wait (delay cfg n) >>= λ _. again) else again
concluded cfg deps booking_id n again not_sent_outcome =
    if ltb n cfg.create_attempts then (wait (delay cfg n) >>= λ _. again) else again

unfoldable pub persisted :
    Config → Deps → String → ℕ → M (Reply (Unit {0})) → Reply AttemptResult → M (Reply (Unit {0}))
persisted cfg deps booking_id n again (err e) = pure (err e)
persisted cfg deps booking_id n again (ok result) =
    concluded cfg deps booking_id n again result.outcome

unfoldable pub sent :
    Config → Deps → String → ℕ → M (Reply (Unit {0})) → Reply Answer → M (Reply (Unit {0}))
sent cfg deps booking_id n again (err e) = pure (err e)
sent cfg deps booking_id n again (ok answer) =
    execute cfg.persist_tries (apply_answer deps booking_id answer)
    >>= persisted cfg deps booking_id n again

-- The loop, with `left` rounds left, of which the first is attempt `n`.
unfoldable pub attempts : Config → Deps → String → ℕ → ℕ → M (Reply (Unit {0}))
attempts cfg deps booking_id zero n = park cfg deps booking_id
attempts cfg deps booking_id (suc left) n =
    execute send_tries (attempt deps booking_id cfg.create_attempts)
    >>= sent cfg deps booking_id n (attempts cfg deps booking_id left (n + 1))

unfoldable pub dispatched : Config → Deps → String → Reply String → M (Reply (Unit {0}))
dispatched cfg deps booking_id (err e) = pure (err e)
dispatched cfg deps booking_id (ok status) =
    if settled (to_status status)
    then pure (ok tt)
    else attempts cfg deps booking_id cfg.create_attempts 1

unfoldable pub booking_workflow : Config → Deps → String → M (Reply (Unit {0}))
booking_workflow cfg deps booking_id =
    execute read_tries (dispatch deps booking_id) >>= dispatched cfg deps booking_id
