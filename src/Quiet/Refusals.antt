-- ===== src/Quiet/Refusals.antt =====
-- The parts of `ApplyCallback` in a quiet world: its refusals, and what follows a write.
use booking_orchestration_se.Base.{
  ℕ, ◌≡◌, refl, true, false, some, none, String, ◌∷◌, ◌&&◌, arith, if◌then◌else◌, is_empty, inl,
  inr, Bool-cases,
}
use booking_orchestration_se.Model.Status.{Status, confirmed, status_eq, status_text}
use booking_orchestration_se.Model.Booking.{Booking, Error, EventType, callback_conflict, conflict}
use booking_orchestration_se.World.{pure, Reply, ok, err}
use booking_orchestration_se.Store.Table.{Db, find}
use booking_orchestration_se.Store.Rows.{flag_row}
use booking_orchestration_se.Store.Steps.{row_after}
use booking_orchestration_se.Service.Create.{Request}
use booking_orchestration_se.Service.Callback.{
  SupplierOutcome, CallbackResult, refusal_event, applied_to, record_refusal, refuse_flagged,
  refuse_received, finish, flag_unreferenced,
}
use booking_orchestration_se.Orchestrator.{signalled_of, signal_outcome}
use booking_orchestration_se.Quiet.Write.{Rest}
use booking_orchestration_se.Quiet.Whole.{
  Rewrites, bind-Rewrites, pure-Rewrites, append_refusal-Rewrites, flag-Rewrites,
}
use booking_orchestration_se.Quiet.Verdict.{Verdict, stands, Shows, flag_row-Shows, Decides}

module _ (rq : Request) (o : SupplierOutcome) (r : Rest) (db : Db) (b : Booking)
    (h : find b.id db.bookings ≡ some b) where
  -- What answers at once.
  pub answer-Rewrites : (a : Reply CallbackResult) → Rewrites r db b (pure a) a r b
  unfolding pure
  answer-Rewrites a = pure-Rewrites r db b h (pure a) a r refl

  pub refuse_flagged-Decides :
      (cur : Status) (kind : EventType) (why : String) (e : Error)
      → Decides r db b (refuse_flagged rq b.id cur kind o why e) (stands b (err e) true)
  unfolding refuse_flagged record_refusal pure
  refuse_flagged-Decides cur kind why e =
      let noted = append_refusal-Rewrites r db b h (refusal_event rq cur kind o why) in
      let flagged = flag-Rewrites r noted.after b noted.found in
      let b' = row_after (flag_row noted.after.now b) b in
      let answered =
        pure-Rewrites r flagged.after b' flagged.found (pure {A = Reply CallbackResult} (err e))
          (err e) r refl in
      (
        r,
        b',
        bind-Rewrites r r r db b b b' _ _ none (err e) noted
            (bind-Rewrites r r r noted.after b b' b' _ _ none (err e) flagged answered),
        flag_row-Shows noted.after.now b (err e),
        refl,
        refl,
      )

  pub refuse_received-Decides :
      (cur : Status)
      → Decides r db b
          (refuse_received rq b.id cur o)
          (stands b (err callback_conflict) b.needs_recovery)
  unfolding refuse_received record_refusal pure
  refuse_received-Decides cur =
      let noted =
        append_refusal-Rewrites r db b h
          (refusal_event rq cur conflict o "callback while still RECEIVED") in
      let answered =
        pure-Rewrites r noted.after b noted.found
          (pure {A = Reply CallbackResult} (err callback_conflict)) (err callback_conflict) r
          refl in
      (
        r,
        b,
        bind-Rewrites r r r db b b b _ _ none (err callback_conflict) noted answered,
        record { status = refl; reference = refl; flagged = refl; marker = refl },
        refl,
        refl,
      )

  -- The row after a confirmation without a reference is flagged.
  unfoldable pub reflagged : Status → Booking
  reflagged target =
      if status_eq target confirmed && is_empty o.reference
      then row_after (flag_row db.now b) b
      else b

  flag_unreferenced-Rewrites :
      (target : Status)
      → Rewrites r db b (flag_unreferenced b.id target o) none r (reflagged target)
  unfolding flag_unreferenced reflagged pure
  flag_unreferenced-Rewrites target =
      elim (Bool-cases (status_eq target confirmed && is_empty o.reference)) [
        | inl bare ↦ rw (bare) (flag-Rewrites r db b h)
        | inr named ↦ rw (named) (pure-Rewrites r db b h (pure none) none r refl)
      ]

  unfoldable pub woken : Status → Rest
  woken target = record r { signals = (b.id, status_text target) ∷ r.signals }

  reflagged-id : (target : Status) → (reflagged target).id ≡ b.id
  unfolding reflagged flag_row
  reflagged-id target = ground arith

  pub reflagged-Shows :
      (target : Status) (v : Verdict)
      → v.flagged ≡ false
      → Shows v b
      → Shows
          (record v { flagged = status_eq target confirmed && is_empty o.reference })
          (reflagged target)
  unfolding reflagged flag_row
  reflagged-Shows target v clear shows = record {
    status = ground (arith, shows.status);
    reference = ground (arith, shows.reference);
    flagged = ground (arith, shows.flagged, clear);
    marker = ground (arith, shows.marker);
  }

  finish-Rewrites :
      (target : Status)
      → Rewrites r db b
          (finish rq b.id target o)
          (ok (applied_to target))
          (woken target)
          (reflagged target)
  unfolding finish pure signal_outcome woken
  finish-Rewrites target =
      let flagged = flag_unreferenced-Rewrites target in
      let c = reflagged target in
      let answer = rq.orchestrator.signal_workflow r.signals b.id (status_text target) in
      let signalled =
        pure-Rewrites r flagged.after c flagged.found
          (signal_outcome rq.orchestrator b.id (status_text target)) (signalled_of answer)
          (woken target) refl in
      let answered =
        pure-Rewrites (woken target) signalled.after c signalled.found
          (pure (ok (applied_to target))) (ok (applied_to target)) (woken target) refl in
      bind-Rewrites r r (woken target) db b c c _ _ none (ok (applied_to target)) flagged (
        bind-Rewrites r (woken target) (woken target) flagged.after c c c _ _ (signalled_of answer)
          (ok (applied_to target)) signalled answered)

  pub finish-Rewrites_at :
      (id : ℕ)
      → id ≡ b.id
      → (target : Status)
      → Rewrites r db b
          (finish rq id target o)
          (ok (applied_to target))
          (woken target)
          (reflagged target)
  finish-Rewrites_at id same target = rw same (finish-Rewrites target)
