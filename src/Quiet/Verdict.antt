-- ===== src/Quiet/Verdict.antt =====
-- What a callback promises (`ApplyCallback` of internal/service/booking/service.go): a table over the
-- row that stands and the outcome that is asserted.
use booking_orchestration_se.Base.{
  ℕ, ◌≡◌, true, false, some, none, String, Option, Bool, ◌∷◌, ◌&&◌, arith, if◌then◌else◌, is_empty,
  or_else,
}
use booking_orchestration_se.Model.Status.{
  Status, received, confirmed, settled, status_eq, status_text,
}
use booking_orchestration_se.Model.Booking.{Booking, unsupported_supplier_status, callback_conflict}
use booking_orchestration_se.World.{M, Reply, ok, err}
use booking_orchestration_se.Store.Table.{Db}
use booking_orchestration_se.Store.Rows.{flag_row}
use booking_orchestration_se.Store.Steps.{row_after}
use booking_orchestration_se.Service.Callback.{
  SupplierOutcome, CallbackResult, duplicate_of, applied_to, applicable_status, same_reference,
  outcome_reference,
}
use booking_orchestration_se.Quiet.Write.{Rest}
use booking_orchestration_se.Quiet.Whole.{Rewrites}

-- What a callback comes to: the answer, and of the row the status, the reference, whether it is
-- flagged for recovery and whether an attempt is outstanding; and whether the run is woken.
pub record Verdict : Type 0 where
  pub answer : Reply CallbackResult
  pub status : Status
  pub reference : Option String
  pub flagged : Bool
  pub marker : Option ℕ
  pub wakes : Bool

abbrev pub stands : Booking → Reply CallbackResult → Bool → Verdict
stands b answer flagged = record {
  answer = answer;
  status = b.status;
  reference = b.supplier_reference;
  flagged = flagged;
  marker = b.in_flight_attempt;
  wakes = false;
}

-- The outcome is written: a decline never writes a reference, and a confirmation without one keeps
-- the row flagged.
abbrev pub written : Booking → Status → SupplierOutcome → Verdict
written b target o = record {
  answer = ok (applied_to target);
  status = target;
  reference = or_else (outcome_reference target o) b.supplier_reference;
  flagged = status_eq target confirmed && is_empty o.reference;
  marker = none;
  wakes = true;
}

abbrev pub on_target : Booking → SupplierOutcome → Status → Verdict
on_target b o target =
    if status_eq b.status received
    then stands b (err callback_conflict) b.needs_recovery
    else if settled b.status
    then (if status_eq b.status target && same_reference b.supplier_reference o.reference
        then stands b (ok (duplicate_of b.status)) b.needs_recovery
        else stands b (err callback_conflict) true)
    else written b target o

abbrev pub verdict_of : Booking → SupplierOutcome → Option Status → Verdict
verdict_of b o none = stands b (err unsupported_supplier_status) true
verdict_of b o (some target) = on_target b o target

unfoldable pub verdict : Booking → SupplierOutcome → Verdict
verdict b o = verdict_of b o (applicable_status o.status)

-- A row that shows what was decided.
pub record Shows (v : Verdict) (b : Booking) : Type 0 where
  pub status : b.status ≡ v.status
  pub reference : b.supplier_reference ≡ v.reference
  pub flagged : b.needs_recovery ≡ v.flagged
  pub marker : b.in_flight_attempt ≡ v.marker

pub flag_row-Shows :
    (now : ℕ) (b : Booking) (a : Reply CallbackResult)
    → Shows (stands b a true) (row_after (flag_row now b) b)
unfolding flag_row
flag_row-Shows now b a = record {
  status = ground arith;
  reference = ground arith;
  flagged = ground arith;
  marker = ground arith;
}

-- What `m` comes to is `v`.
abbrev pub Decides : Rest → Db → Booking → M (Reply CallbackResult) → Verdict → Type 0
Decides r db b m v =
    (r' : Rest) × (b' : Booking) × Rewrites r db b m v.answer r' b'
    × Shows v b'
    × (r'.signals ≡ (if v.wakes then (b.id, status_text v.status) ∷ r.signals else r.signals))
    × (r'.calls ≡ r.calls)
