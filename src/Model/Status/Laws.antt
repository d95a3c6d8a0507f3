-- ===== src/Model/Status/Laws.antt =====
-- Facts about the table of edges.
use booking_orchestration_se.Base.{◌≡◌, ◌↔◌, true, false, eq_iff, arith, refl}
use booking_orchestration_se.Model.Status.{
  Status, received, pending, unknown, confirmed, rejected, failed, cancelled, other, status_text,
  to_status, settled, may_move, is_valid, status_eq,
}

pub status_eq_iff : (a b : Status) → (status_eq a b ≡ true) ↔ (a ≡ b)
status_eq_iff (other s) (other t) = ground (arith, eq_iff s t)
status_eq_iff received b = ground arith
status_eq_iff pending b = ground arith
status_eq_iff unknown b = ground arith
status_eq_iff confirmed b = ground arith
status_eq_iff rejected b = ground arith
status_eq_iff failed b = ground arith
status_eq_iff cancelled b = ground arith
status_eq_iff (other s) b = ground arith

-- No edge leaves a settled state.
pub may_move-not-settled : (s t : Status) → settled s ≡ true → may_move s t ≡ false
may_move-not-settled s t h = ground arith

-- The text of a known status reads back as that status.
pub to_status-status_text : (s : Status) → is_valid s ≡ true → to_status (status_text s) ≡ s
unfolding to_status status_text
to_status-status_text received h = refl
to_status-status_text pending h = refl
to_status-status_text unknown h = refl
to_status-status_text confirmed h = refl
to_status-status_text rejected h = refl
to_status-status_text failed h = refl
to_status-status_text cancelled h = refl
to_status-status_text (other s) h = cc
