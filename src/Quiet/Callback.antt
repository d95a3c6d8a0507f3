-- ===== src/Quiet/Callback.antt =====
-- `ApplyCallback` (internal/service/booking/service.go) in a quiet world against its table.
use booking_orchestration_se.Store.Statement.{exec}
use booking_orchestration_se.Repository.{states_marker, apply_transition, get_by_id}
use booking_orchestration_se.Contract.{Transition}
use booking_orchestration_se.Model.Status.Laws.{status_eq_iff}
use booking_orchestration_se.Base.{
  ℕ, ◌≡◌, refl, true, false, some, none, String, Option, ◌&&◌, arith, inl, inr, Bool-cases, ◌⊎◌,
  sym,
}
use booking_orchestration_se.Model.Status.{
  Status, received, confirmed, settled, status_eq, is_valid, may_move, rejected,
}
use booking_orchestration_se.Model.Booking.{
  Booking, unsupported_supplier_status, callback_conflict, conflict, callback_rejected,
}
use booking_orchestration_se.World.{pure, ok, ◌>>=◌, sql}
use booking_orchestration_se.Store.Table.{Db, find}
use booking_orchestration_se.Store.Rows.{guarded, apply_row}
use booking_orchestration_se.Store.Steps.{row_after}
use booking_orchestration_se.Service.Create.{Request}
use booking_orchestration_se.Service.Callback.{
  SupplierOutcome, duplicate_of, applied_to, applicable_status, same_reference, callback_transition,
  applied_once, apply_target, refuse_conflict, apply_status, apply_loaded, apply_callback,
}
use booking_orchestration_se.Quiet.Write.{Rest, over}
use booking_orchestration_se.Quiet.Whole.{bind-Rewrites, apply-Rewrites}
use booking_orchestration_se.Quiet.Verdict.{
  stands, written, on_target, verdict_of, verdict, Shows, Decides,
}
use booking_orchestration_se.Quiet.Refusals.{
  answer-Rewrites, refuse_flagged-Decides, refuse_received-Decides, woken, reflagged,
  reflagged-Shows, finish-Rewrites_at,
}

module _ (rq : Request) (o : SupplierOutcome) (b : Booking) (target : Status) where
  move : Transition
  move = callback_transition rq b.status target o

  guarded-move : guarded move b ≡ true
  unfolding guarded move callback_transition
  guarded-move = ground (arith, status_eq_iff b.status b.status)

  states_marker-move : states_marker move ≡ true
  unfolding move callback_transition
  states_marker-move = refl

  move_row-Shows :
      (now : ℕ)
      → Shows (record (written b target o) { flagged = false }) (row_after (apply_row now move b) b)
  unfolding move callback_transition apply_row
  move_row-Shows now = record {
    status = ground (arith, guarded-move);
    reference = ground (arith, guarded-move);
    flagged = ground (arith, guarded-move);
    marker = ground (arith, guarded-move);
  }

pub applicable_status_cases :
    (s : String) (t : Status) → applicable_status s ≡ some t → (t ≡ confirmed) ⊎ (t ≡ rejected)
unfolding applicable_status
applicable_status_cases s t h = ground arith

may_move_open :
    (s t : Status)
    → is_valid s ≡ true
    → status_eq s received ≡ false
    → settled s ≡ false
    → (t ≡ confirmed) ⊎ (t ≡ rejected)
    → may_move s t ≡ true
may_move_open s t v r n c = ground arith

module _ (rq : Request) (o : SupplierOutcome) (r : Rest) (db : Db) (b : Booking)
    (h : find b.id db.bookings ≡ some b) where
  -- The write of an outcome that the row may take.
  write-Decides :
      (target : Status)
      → may_move b.status target ≡ true
      → Decides r db b
          (apply_transition b.id (callback_transition rq b.status target o)
            >>= applied_once rq b.id target o)
          (written b target o)
  unfolding applied_once reflagged woken move callback_transition
  write-Decides target may =
      let t = move rq o b target in
      let c = row_after (apply_row db.now t b) b in
      let first =
        apply-Rewrites r db b h t (guarded-move rq o b target) may
          (states_marker-move rq o b target) in
      let c' = reflagged rq o r first.after c first.found target in
      let second =
        finish-Rewrites_at rq o r first.after c first.found b.id (sym first.same) target in
      let shows =
        reflagged-Shows rq o r first.after c first.found target
          (record (written b target o) { flagged = false }) refl
          (move_row-Shows rq o b target db.now) in
      (
        woken rq o r first.after c first.found target,
        c',
        bind-Rewrites r r (woken rq o r first.after c first.found target) db b c c' _ _
            (target, none) (ok (applied_to target)) first second,
        shows,
        rw first.same refl,
        refl,
      )

  answered :
      (s : Status)
      → Decides r db b
          (pure (ok (duplicate_of s)))
          (stands b (ok (duplicate_of s)) b.needs_recovery)
  answered s = (
    r,
    b,
    answer-Rewrites rq o r db b h (ok (duplicate_of s)),
    record { status = refl; reference = refl; flagged = refl; marker = refl },
    refl,
    refl,
  )

  target-Decides :
      (target : Status)
      → is_valid b.status ≡ true
      → (target ≡ confirmed) ⊎ (target ≡ rejected)
      → Decides r db b (apply_target rq b.id b target o) (on_target b o target)
  unfolding apply_target refuse_conflict
  target-Decides target valid known = elim (Bool-cases (status_eq b.status received)) [
    | inl at_received ↦ rw (at_received) (refuse_received-Decides rq o r db b h b.status)
    | inr sent ↦ rw (sent) (elim (Bool-cases (settled b.status)) [
      | inl closed ↦
          rw (closed)
            (elim (Bool-cases
              (status_eq b.status target && same_reference b.supplier_reference o.reference)) [
                | inl same ↦ rw (same) (answered b.status)
                | inr other ↦ rw (other) (
                    refuse_flagged-Decides rq o r db b h b.status conflict
                      "settled outcome contradicted" callback_conflict)
              ])
      | inr unsettled ↦
          rw (unsettled)
            (write-Decides target (may_move_open b.status target valid sent unsettled known))
    ])
  ]

  status-Decides :
      (t : Option Status)
      → applicable_status o.status ≡ t
      → is_valid b.status ≡ true
      → Decides r db b (apply_status rq b.id b o t) (verdict_of b o t)
  unfolding apply_status
  status-Decides none at valid =
      refuse_flagged-Decides rq o r db b h b.status callback_rejected
        "status outside this version's vocabulary" unsupported_supplier_status
  status-Decides (some target) at valid =
      target-Decides target valid (applicable_status_cases o.status target at)

  get_by_id_runs : get_by_id b.id (over r db) ≡ (ok b, over r db)
  unfolding get_by_id ◌>>=◌ pure sql exec
  get_by_id_runs = rw h refl

  -- In a quiet world a callback for the row that stands comes to what the table says, whatever the
  -- row, as long as its status is one of the seven: the answer, the row, whether the run is woken,
  -- all other rows as they were and no request to the supplier.
  pub apply_callback-Decides :
      is_valid b.status ≡ true → Decides r db b (apply_callback rq b.id o) (verdict b o)
  unfolding apply_callback apply_loaded verdict ◌>>=◌
  apply_callback-Decides valid =
      let (r', b', rewrites, shows, wakes, silent) =
        status-Decides (applicable_status o.status) refl valid in
      (
        r',
        b',
        record {
          after = rewrites.after;
          runs = rw (get_by_id_runs, ◌>>=◌) rewrites.runs;
          bookings = rewrites.bookings;
          found = rewrites.found;
          same = rewrites.same;
        },
        shows,
        wakes,
        silent,
      )
