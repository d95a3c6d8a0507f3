-- ===== src/Contract.antt =====
-- The vocabulary between the services and the repository (internal/repository/repositories.go).
use booking_orchestration_se.Base.{ℕ, String, Bool, Option, none, true, false}
use booking_orchestration_se.Model.Status.{Status}
use booking_orchestration_se.Model.Booking.{EventType}

-- `unset` is the zero value, which every statement refuses.
pub data MarkerRule : Type 0 where
  unset clear owned supersede : MarkerRule

abbrev pub is_owned : MarkerRule → Bool
is_owned owned = true
is_owned _ = false

pub data Refusal : Type 0 where
  granted budget_spent attempt_outstanding already_settled : Refusal

pub record Transition : Type 0 where
  pub from : Status
  pub to : Status
  pub marker : MarkerRule
  pub attempt : Option ℕ
  pub event_type : EventType
  pub supplier_reference : Option String
  pub failure_reason : Option String
  pub clear_recovery_flag : Bool
  pub request_id : Option String
  pub supplier_status_code : Option String
  pub supplier_reason : Option String
  pub payload_digest : Option String

-- A `Transition{From, To, Marker, EventType}` literal, whose other fields a caller then sets.
abbrev pub plain : Status → Status → MarkerRule → EventType → Transition
plain from to marker kind = record {
  from = from;
  to = to;
  marker = marker;
  attempt = none;
  event_type = kind;
  supplier_reference = none;
  failure_reason = none;
  clear_recovery_flag = false;
  request_id = none;
  supplier_status_code = none;
  supplier_reason = none;
  payload_digest = none;
}

pub record Authorization : Type 0 where
  pub attempt : ℕ
  pub previous : Status
  pub refusal : Refusal
