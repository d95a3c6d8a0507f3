-- ===== src/Model/Status.antt =====
-- The states of a booking and the edges between them (internal/model/status.go). A `Status` is a
-- string in the source: `other` stands for a string that is none of the seven constants.
pub mod Laws
use booking_orchestration_se.Base.{
  String, Bool, true, false, Option, none, some, str_eq, ◌||◌, ◌&&◌, if◌then◌else◌,
}

pub data Status : Type 0 where
  received pending unknown confirmed rejected failed cancelled : Status
  other : String → Status

unfoldable pub status_text : Status → String
status_text received = "RECEIVED"
status_text pending = "PENDING"
status_text unknown = "UNKNOWN"
status_text confirmed = "CONFIRMED"
status_text rejected = "REJECTED"
status_text failed = "FAILED"
status_text cancelled = "CANCELLED"
status_text (other s) = s

-- `model.Status(s)`.
unfoldable pub to_status : String → Status
to_status s =
    if str_eq s "RECEIVED"
    then received
    else if str_eq s "PENDING"
    then pending
    else if str_eq s "UNKNOWN"
    then unknown
    else if str_eq s "CONFIRMED"
    then confirmed
    else if str_eq s "REJECTED"
    then rejected
    else if str_eq s "FAILED"
    then failed
    else if str_eq s "CANCELLED"
    then cancelled
    else other s

-- The map `settled`.
abbrev pub settled : Status → Bool
settled confirmed = true
settled rejected = true
settled failed = true
settled cancelled = true
settled _ = false

-- `transitions[from]`: whether the table has a row for `from`.
abbrev pub has_row : Status → Bool
has_row received = true
has_row pending = true
has_row unknown = true
has_row _ = false

-- `transitions[from][to]`.
abbrev pub transitions : Status → Status → Bool
transitions received pending = true
transitions received failed = true
transitions pending confirmed = true
transitions pending rejected = true
transitions pending unknown = true
transitions pending failed = true
transitions unknown confirmed = true
transitions unknown rejected = true
transitions unknown failed = true
transitions _ _ = false

abbrev pub is_valid : Status → Bool
is_valid s = if settled s then true else has_row s

-- `Transition(from, to) == nil`.
abbrev pub may_move : Status → Status → Bool
may_move from to = is_valid from && is_valid to && transitions from to

-- `==` of two statuses.
abbrev pub status_eq : Status → Status → Bool
status_eq received received = true
status_eq pending pending = true
status_eq unknown unknown = true
status_eq confirmed confirmed = true
status_eq rejected rejected = true
status_eq failed failed = true
status_eq cancelled cancelled = true
status_eq (other a) (other b) = str_eq a b
status_eq _ _ = false

-- `IN ('RECEIVED', 'PENDING', 'UNKNOWN')`.
abbrev pub is_open : Status → Bool
is_open received = true
is_open pending = true
is_open unknown = true
is_open _ = false
