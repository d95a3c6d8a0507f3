-- ===== src/Service/Callback.antt =====
-- Applying a supplier's callback (internal/service/booking/service.go).
use booking_orchestration_se.Base.{
  ℕ, String, Bool, true, false, not, ◌&&◌, ◌||◌, Option, none, some, if◌then◌else◌, str_eq,
  is_empty,
}
use booking_orchestration_se.Model.Status.{
  Status, received, confirmed, rejected, settled, may_move, status_eq, status_text,
}
use booking_orchestration_se.Model.Booking.{
  Booking, Event, EventType, no_event, conflict, callback_rejected, supplier_callback, Error,
  transition_conflict, unsupported_supplier_status, callback_conflict,
}
use booking_orchestration_se.Contract.{supersede, Transition, plain}
use booking_orchestration_se.World.{M, ◌>>=◌, pure, Reply, ok, err}
use booking_orchestration_se.Repository.{Applied, get_by_id, apply_transition, append_refusal_to}
use booking_orchestration_se.Repository.Attempts.{flag_booking}
use booking_orchestration_se.Orchestrator.{signal_outcome}
use booking_orchestration_se.Service.Create.{Request}

-- What a callback asserts (internal/service/services.go).
pub record SupplierOutcome : Type 0 where
  pub reference : String
  pub status : String
  pub decline_reason : String

pub record CallbackResult : Type 0 where
  pub status : Status
  pub applied : Bool
  pub duplicate : Bool

abbrev pub duplicate_of : Status → CallbackResult
duplicate_of s = record { status = s; applied = false; duplicate = true }

abbrev pub applied_to : Status → CallbackResult
applied_to s = record { status = s; applied = true; duplicate = false }

-- `applicableStatus`.
unfoldable pub applicable_status : String → Option Status
applicable_status s =
    if str_eq s "CONFIRMED"
    then some confirmed
    else if str_eq s "REJECTED"
    then some rejected
    else none

-- A stored null is not "matches anything".
abbrev pub same_reference : Option String → String → Bool
same_reference none incoming = is_empty incoming
same_reference (some r) incoming = str_eq r incoming

abbrev pub non_empty : String → Option String
non_empty s = if is_empty s then none else some s

-- `outcomeDetail`: the reference and the reason that are written.
unfoldable pub outcome_reference : Status → SupplierOutcome → Option String
outcome_reference target o = if status_eq target rejected then none else non_empty o.reference

unfoldable pub outcome_reason : Status → SupplierOutcome → Option String
outcome_reason target o =
    if status_eq target rejected
    then some (if is_empty o.decline_reason then "supplier_declined" else o.decline_reason)
    else none

unfoldable pub callback_transition : Request → Status → Status → SupplierOutcome → Transition
unfolding outcome_reference outcome_reason
callback_transition r from target o = record (plain from target supersede supplier_callback) {
  supplier_reference = outcome_reference target o;
  failure_reason = outcome_reason target o;
  clear_recovery_flag = true;
  request_id = r.request_id;
  supplier_status_code = some o.status;
}

unfoldable pub refusal_event : Request → Status → EventType → SupplierOutcome → String → Event
refusal_event r current kind o why = record no_event {
  to_status = current;
  event_type = kind;
  request_id = r.request_id;
  supplier_status_code = some o.status;
  supplier_reason = some why;
  payload_digest = non_empty o.reference;
}

-- `recordRefusal`: that it could not be recorded is logged only.
unfoldable pub record_refusal :
    Request → ℕ → Status → EventType → SupplierOutcome → String → M (Option Error)
record_refusal r id current kind o why = append_refusal_to id (refusal_event r current kind o why)

-- A refusal that is recorded and flagged, and the error that answers it.
unfoldable pub refuse_flagged :
    Request → ℕ → Status → EventType → SupplierOutcome → String → Error → M (Reply CallbackResult)
refuse_flagged r id current kind o why e = do
  noted ← record_refusal r id current kind o why
  flagged ← flag_booking id
  pure (err e)

-- `conflict`.
unfoldable pub refuse_conflict :
    Request → ℕ → Status → SupplierOutcome → String → M (Reply CallbackResult)
refuse_conflict r id have o why = refuse_flagged r id have conflict o why callback_conflict

unfoldable pub refuse_received : Request → ℕ → Status → SupplierOutcome → M (Reply CallbackResult)
refuse_received r id current o = do
  noted ← record_refusal r id current conflict o "callback while still RECEIVED"
  pure (err callback_conflict)

-- After the row has moved: a confirmation without a reference is flagged, and the run is woken.
unfoldable pub flag_unreferenced : ℕ → Status → SupplierOutcome → M (Option Error)
flag_unreferenced id target o =
    if status_eq target confirmed && is_empty o.reference then flag_booking id else pure none

unfoldable pub finish : Request → ℕ → Status → SupplierOutcome → M (Reply CallbackResult)
finish r id target o = do
  flagged ← flag_unreferenced id target o
  signalled ← signal_outcome r.orchestrator id (status_text target)
  pure (ok (applied_to target))

-- The answer of the second write.
unfoldable pub applied_twice :
    Request → ℕ → Status → Status → SupplierOutcome → Applied → M (Reply CallbackResult)
applied_twice r id have target o (s, none) = finish r id target o
applied_twice r id have target o (s, some transition_conflict) =
    refuse_conflict r id have o "lost the settle race twice"
applied_twice r id have target o (s, some e) = pure (err e)

-- Whether the row that won says the same.
abbrev pub says_same : Status → Status → SupplierOutcome → Reply Booking → Bool
says_same have target o (err e) = false
says_same have target o (ok winner) =
    status_eq have target && same_reference winner.supplier_reference o.reference

-- After a lost write: a duplicate, a conflict, or one more try from the status that was found.
unfoldable pub retry_apply :
    Request → ℕ → Status → Status → SupplierOutcome → Reply Booking → M (Reply CallbackResult)
retry_apply r id have target o winner =
    if says_same have target o winner
    then pure (ok (duplicate_of have))
    else if settled have || not (may_move have target)
    then refuse_conflict r id have o "booking moved beyond this outcome"
    else (apply_transition id (callback_transition r have target o)
        >>= applied_twice r id have target o)

-- The answer of the first write.
unfoldable pub applied_once :
    Request → ℕ → Status → SupplierOutcome → Applied → M (Reply CallbackResult)
applied_once r id target o (s, none) = finish r id target o
applied_once r id target o (s, some transition_conflict) =
    get_by_id id >>= retry_apply r id s target o
applied_once r id target o (s, some e) = pure (err e)

-- The vocabulary allows the status: the checks of the state, in the source's order.
unfoldable pub apply_target :
    Request → ℕ → Booking → Status → SupplierOutcome → M (Reply CallbackResult)
apply_target r id current target o =
    if status_eq current.status received
    then refuse_received r id current.status o
    else if settled current.status
    then if status_eq current.status target && same_reference current.supplier_reference o.reference
      then pure (ok (duplicate_of current.status))
      else refuse_conflict r id current.status o "settled outcome contradicted"
    else (apply_transition id (callback_transition r current.status target o)
        >>= applied_once r id target o)

unfoldable pub apply_status :
    Request → ℕ → Booking → SupplierOutcome → Option Status → M (Reply CallbackResult)
apply_status r id current o none =
    refuse_flagged r id current.status callback_rejected o
      "status outside this version's vocabulary" unsupported_supplier_status
apply_status r id current o (some target) = apply_target r id current target o

unfoldable pub apply_loaded :
    Request → ℕ → SupplierOutcome → Reply Booking → M (Reply CallbackResult)
apply_loaded r id o (err e) = pure (err e)
apply_loaded r id o (ok current) = apply_status r id current o (applicable_status o.status)

-- `Service.ApplyCallback`.
unfoldable pub apply_callback : Request → ℕ → SupplierOutcome → M (Reply CallbackResult)
apply_callback r id o = get_by_id id >>= apply_loaded r id o
