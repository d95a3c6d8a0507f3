-- ===== src/Quiet/Ended.antt =====
-- The row of an attempt that is answered, and how it may end.
use booking_orchestration_se.Base.{
  ℕ, ◌≡◌, ◌⊎◌, true, some, none, String, arith, if◌then◌else◌, is_some, holds,
}
use booking_orchestration_se.Model.Status.{
  Status, pending, unknown, confirmed, rejected, may_move, status_eq,
}
use booking_orchestration_se.Model.Booking.{Booking, Event}
use booking_orchestration_se.Contract.{Transition, owned}
use booking_orchestration_se.Supplier.Client.{Outcome}
use booking_orchestration_se.Store.Table.{Db}
use booking_orchestration_se.Store.Rows.{guarded, apply_row, clear_marker_row, is_doubtful}
use booking_orchestration_se.Store.Steps.{row_after}
use booking_orchestration_se.World.{M, Reply, ok}
use booking_orchestration_se.Workflow.Activity.{
  Answer, AttemptOutcome, AttemptResult, confirmed_outcome, rejected_outcome, ambiguous_outcome,
  not_sent_outcome, failed_outcome, in_doubt,
}
use booking_orchestration_se.Workflow.Attempt.{request_of}
use booking_orchestration_se.Quiet.Write.{Rest, Leaves}

-- The row of an attempt that has just been answered by `a`.
pub record IsAwaited (b : Booking) (a : Answer) : Type 0 where
  pub doubtful : is_doubtful b.status ≡ true
  pub asked_from : a.from ≡ b.status
  pub marked : b.in_flight_attempt ≡ some a.attempt

-- The row that ends an attempt: no marker, and the attempts as they were.
pub record IsEnded (b b' : Booking) (s : Status) : Type 0 where
  pub status : b'.status ≡ s
  pub unmarked : b'.in_flight_attempt ≡ none
  pub spent : b'.supplier_attempts ≡ b.supplier_attempts
  pub asked : (text : String) → request_of text b' ≡ request_of text b

-- `m` answers `o` and leaves a row that ended at `s`.
abbrev pub Ends :
    Rest → ℕ → String → M (Reply AttemptResult) → Db → Booking → AttemptOutcome → Status → Type 0
Ends r id key m db b o s =
    (result : AttemptResult) × (b' : Booking) × Leaves r id key m db (ok result) b'
    × (result.outcome ≡ o)
    × IsEnded b b' s

abbrev pub IsFor : Transition → Booking → Type 0
IsFor t b =
    (t.from ≡ b.status)
    × (t.marker ≡ owned)
    × (t.attempt ≡ b.in_flight_attempt)
    × (is_some b.in_flight_attempt ≡ true)

pub guarded-IsFor :
    (t : Transition) (b : Booking) → IsFor t b → is_doubtful b.status ≡ true → guarded t b ≡ true
unfolding guarded
guarded-IsFor t b f d = ground (arith, f, d)

pub apply_row-IsEnded :
    (now : ℕ) (t : Transition) (b : Booking)
    → guarded t b ≡ true
    → IsEnded b (row_after (apply_row now t b) b) t.to
unfolding apply_row request_of
apply_row-IsEnded now t b g = record {
  status = ground (arith, g);
  unmarked = ground (arith, g);
  spent = ground (arith, g);
  asked = λ text. ground (arith, g);
}

pub clear_marker_row-IsEnded :
    (now n : ℕ) (e : Event) (b : Booking)
    → holds b.in_flight_attempt n ≡ true
    → IsEnded b (row_after (clear_marker_row now n e b) b) b.status
unfolding clear_marker_row request_of
clear_marker_row-IsEnded now n e b g = record {
  status = ground (arith, g);
  unmarked = ground (arith, g);
  spent = ground (arith, g);
  asked = λ text. ground (arith, g);
}

pub doubtful-cases : (s : Status) → is_doubtful s ≡ true → (s ≡ pending) ⊎ (s ≡ unknown)
doubtful-cases s h = ground arith

-- What the workflow is told of an answer.
abbrev pub told : Outcome → Status → AttemptOutcome
told Outcome.confirmed s = confirmed_outcome
told Outcome.rejected s = rejected_outcome
told Outcome.ambiguous s = ambiguous_outcome
told Outcome.pre_send_failure s = if status_eq s unknown then in_doubt else failed_outcome
told _ s = not_sent_outcome

pub may_settle :
    (s t : Status) → is_doubtful s ≡ true → (t ≡ confirmed) ⊎ (t ≡ rejected) → may_move s t ≡ true
may_settle s t d h = ground arith
