-- ===== src/Workflow/Refines.antt =====
-- The activities `Dispatch` and `Attempt` as sequences of issued statements.
use booking_orchestration_se.Workflow.Charged.{authorized_call-Refines}
use booking_orchestration_se.Base.{ℕ, zero, suc, ◌≤◌, String, Option, none, some, ◌≡◌, refl}
use booking_orchestration_se.Model.Status.{settled}
use booking_orchestration_se.Model.Booking.{Booking, booking_not_found}
use booking_orchestration_se.Supplier.Client.{idempotency_key}
use booking_orchestration_se.World.{M, Reply, ok, err}
use booking_orchestration_se.World.Refines.{Refines, pure-Refines, bind-Refines, if-Refines}
use booking_orchestration_se.Repository.Refines.{get_by_id-Refines, resolve_stale_marker-Refines}
use booking_orchestration_se.Workflow.Activity.{Deps, dispatch_resolved, dispatch_parsed, dispatch}
use booking_orchestration_se.Workflow.Attempt.{
  read_again, read_before, reads_left, attempt_loaded, attempt_parsed, attempt,
}

module _ (budget : ℕ) (deps : Deps) where
  dispatch_resolved-Refines :
      (id : ℕ) (r : _) → Refines budget deps.parse_uuid (dispatch_resolved id r)
  unfolding dispatch_resolved
  dispatch_resolved-Refines id (err e) = pure-Refines budget deps.parse_uuid _
  dispatch_resolved-Refines id (ok a) =
      bind-Refines budget deps.parse_uuid _ _ (get_by_id-Refines budget deps.parse_uuid id)
        (λ r. pure-Refines budget deps.parse_uuid _)

  dispatch_parsed-Refines :
      (id : Option ℕ) → Refines budget deps.parse_uuid (dispatch_parsed deps id)
  unfolding dispatch_parsed
  dispatch_parsed-Refines none = pure-Refines budget deps.parse_uuid _
  dispatch_parsed-Refines (some id) =
      bind-Refines budget deps.parse_uuid _ _
        (resolve_stale_marker-Refines budget deps.parse_uuid id deps.request_id)
        (dispatch_resolved-Refines id)

  pub dispatch-Refines :
      (booking_id : String) → Refines budget deps.parse_uuid (dispatch deps booking_id)
  unfolding dispatch
  dispatch-Refines booking_id = dispatch_parsed-Refines (deps.parse_uuid booking_id)

  read_again-Refines :
      (again : M (Reply Booking)) (left : ℕ) (r : Reply Booking)
      → Refines budget deps.parse_uuid again
      → Refines budget deps.parse_uuid (read_again again left r)
  unfolding read_again
  read_again-Refines again left (ok b) h = pure-Refines budget deps.parse_uuid _
  read_again-Refines again zero (err booking_not_found) h = pure-Refines budget deps.parse_uuid _
  read_again-Refines again (suc left) (err booking_not_found) h =
      pure-Refines budget deps.parse_uuid _
  read_again-Refines again zero (err e) h = pure-Refines budget deps.parse_uuid _
  read_again-Refines again (suc left) (err e) h = h

  read_before-Refines : (left id : ℕ) → Refines budget deps.parse_uuid (read_before left id)
  unfolding read_before
  read_before-Refines zero id =
      bind-Refines budget deps.parse_uuid _ _ (get_by_id-Refines budget deps.parse_uuid id)
        (λ r. read_again-Refines _ zero r (pure-Refines budget deps.parse_uuid _))
  read_before-Refines (suc left) id =
      bind-Refines budget deps.parse_uuid _ _ (get_by_id-Refines budget deps.parse_uuid id)
        (λ r. read_again-Refines _ (suc left) r (read_before-Refines left id))

  attempt_loaded-Refines :
      (booking_id : String) (m id : ℕ) (r : Reply Booking)
      → deps.parse_uuid booking_id ≡ some id
      → m ≤ budget
      → Refines budget deps.parse_uuid (attempt_loaded deps booking_id m id r)
  unfolding attempt_loaded
  attempt_loaded-Refines booking_id m id (err e) parsed h = pure-Refines budget deps.parse_uuid _
  attempt_loaded-Refines booking_id m id (ok b) parsed h =
      if-Refines budget deps.parse_uuid (settled b.status) _ _
        (λ _. pure-Refines budget deps.parse_uuid _)
        (λ _.
          authorized_call-Refines budget deps booking_id id parsed m (idempotency_key booking_id) b
            h)

  attempt_parsed-Refines :
      (booking_id : String) (m : ℕ) (id : Option ℕ)
      → deps.parse_uuid booking_id ≡ id
      → m ≤ budget
      → Refines budget deps.parse_uuid (attempt_parsed deps booking_id m id)
  unfolding attempt_parsed
  attempt_parsed-Refines booking_id m none parsed h = pure-Refines budget deps.parse_uuid _
  attempt_parsed-Refines booking_id m (some id) parsed h =
      bind-Refines budget deps.parse_uuid _ _ (read_before-Refines reads_left id)
        (λ r. attempt_loaded-Refines booking_id m id r parsed h)

  pub attempt-Refines :
      (booking_id : String) (m : ℕ)
      → m ≤ budget
      → Refines budget deps.parse_uuid (attempt deps booking_id m)
  unfolding attempt
  attempt-Refines booking_id m h =
      attempt_parsed-Refines booking_id m (deps.parse_uuid booking_id) refl h
