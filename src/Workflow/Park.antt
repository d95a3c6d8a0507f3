-- ===== src/Workflow/Park.antt =====
-- The activity that closes out an exhausted budget (internal/workflow/activity.go).
use booking_orchestration_se.Base.{ℕ, String, Bool, false, Option, none, some, if◌then◌else◌}
use booking_orchestration_se.Model.Status.{pending, failed, settled, status_eq}
use booking_orchestration_se.Model.Booking.{Booking, transition_conflict, bad_id, transition}
use booking_orchestration_se.Contract.{clear, Transition, plain}
use booking_orchestration_se.World.{M, ◌>>=◌, pure, Reply, ok, err}
use booking_orchestration_se.Repository.{Applied, get_by_id, apply_transition}
use booking_orchestration_se.Repository.Attempts.{park_if_unknown}
use booking_orchestration_se.Workflow.Activity.{Deps}

unfoldable pub unreachable_transition : Deps → Transition
unreachable_transition deps = record (plain pending failed clear transition) {
  failure_reason = some "supplier_unreachable";
  request_id = deps.request_id;
}

-- A booking that moved before it could be called unreachable still has its window armed, unless
-- it is settled.
unfoldable pub park_applied : Deps → ℕ → Applied → M (Reply Bool)
park_applied deps id (s, none) = pure (ok false)
park_applied deps id (s, some transition_conflict) =
    if settled s then pure (ok false) else park_if_unknown id deps.request_id
park_applied deps id (s, some e) = pure (err e)

unfoldable pub park_loaded : Deps → ℕ → Reply Booking → M (Reply Bool)
park_loaded deps id (err e) = pure (err e)
park_loaded deps id (ok b) =
    if status_eq b.status pending
    then (apply_transition id (unreachable_transition deps) >>= park_applied deps id)
    else park_if_unknown id deps.request_id

unfoldable pub park_parsed : Deps → Option ℕ → M (Reply Bool)
park_parsed deps none = pure (err bad_id)
park_parsed deps (some id) = get_by_id id >>= park_loaded deps id

-- `Activities.Park`.
unfoldable pub park_unknown : Deps → String → M (Reply Bool)
park_unknown deps booking_id = park_parsed deps (deps.parse_uuid booking_id)
