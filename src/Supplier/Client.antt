-- ===== src/Supplier/Client.antt =====
-- What the workflow asks of a supplier and what it can be told (internal/supplier/supplier.go).
use Prim.Native.Char.{Char, code}
use Prim.Native.String.{char_at}
use booking_orchestration_se.Base.{ℕ, ◌-◌, String, List, leb, ◌==◌, ◌&&◌, if◌then◌else◌}

-- The outcomes of a call; the last three are the workflow package's own, which no supplier gives.
pub data Outcome : Type 0 where
  confirmed rejected ambiguous not_sent pre_send_failure : Outcome
  already_settled budget_spent outstanding : Outcome

abbrev pub outcome_text : Outcome → String
outcome_text confirmed = "CONFIRMED"
outcome_text rejected = "REJECTED"
outcome_text ambiguous = "AMBIGUOUS"
outcome_text not_sent = "NOT_SENT"
outcome_text pre_send_failure = "PRE_SEND_FAILURE"
outcome_text already_settled = "ALREADY_SETTLED"
outcome_text budget_spent = "BUDGET_SPENT"
outcome_text outstanding = "ATTEMPT_OUTSTANDING"

pub record BookRequest : Type 0 where
  pub booking_id : String
  pub idempotency_key : String
  pub property_id : String
  pub room_type_id : String
  pub check_in : ℕ
  pub check_out : ℕ
  pub guest_first_name : String
  pub guest_last_name : String

pub record Result : Type 0 where
  pub outcome : Outcome
  pub reference : String
  pub reason : String

-- `supplier.Client`: an answer to a request, which may depend on the requests before it.
abbrev pub Client : Type 0
Client = List BookRequest → BookRequest → Result

-- `strings.ToUpper` at one character of the ASCII, of which a UUID's text consists.
abbrev pub upper : Char → Char
upper c =
    if leb b'a' (code c) && leb (code c) b'z'
    then char_at "ABCDEFGHIJKLMNOPQRSTUVWXYZ" (code c - b'a')
    else c

-- `IdempotencyKey`: the dashes are dropped and the rest is in upper case.
unfoldable pub idempotency_key : String → String
idempotency_key String.[] = String.[]
idempotency_key (String.◌∷◌ c s) =
    let rest = idempotency_key s in if code c == b'-' then rest else String.◌∷◌ (upper c) rest
