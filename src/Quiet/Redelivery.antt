-- ===== src/Quiet/Redelivery.antt =====
-- A callback that is delivered twice, in a quiet world (`ApplyCallback` of
-- internal/service/booking/service.go).
use booking_orchestration_se.Quiet.Whole.{bind-Rewrites, Rewrites}
use booking_orchestration_se.Quiet.Write.{Rest}
use booking_orchestration_se.Store.Table.{Db, find}
use booking_orchestration_se.Base.{
  ℕ, ◌≡◌, true, false, none, Bool, ◌||◌, arith, ◌⊎◌, str_eq, is_empty, eq_iff, if◌then◌else◌, subst,
  some, ◌∙◌, refl, ◌∷◌,
}
use booking_orchestration_se.Model.Status.{
  Status, confirmed, rejected, is_valid, may_move, status_text,
}
use booking_orchestration_se.Model.Booking.{Booking, callback_conflict}
use booking_orchestration_se.World.{M, ◌>>=◌, Reply, ok, err}
use booking_orchestration_se.Service.Create.{Request}
use booking_orchestration_se.Service.Callback.{
  SupplierOutcome, CallbackResult, duplicate_of, same_reference, outcome_reference, apply_callback,
  applicable_status, applied_to,
}
use booking_orchestration_se.Quiet.Verdict.{
  Shows, stands, on_target, written, Decides, verdict, Verdict,
}
use booking_orchestration_se.Quiet.Callback.{apply_callback-Decides, applicable_status_cases}

-- A delivery, and the same one again.
abbrev pub delivered_twice : Request → Request → ℕ → SupplierOutcome → M (Reply CallbackResult)
delivered_twice rq again id o = apply_callback rq id o >>= λ first. apply_callback again id o

-- A callback that confirms, or that names no reservation.
abbrev pub coherent : SupplierOutcome → Bool
coherent o = str_eq o.status "CONFIRMED" || is_empty o.reference

-- What a settled row answers, by whether the reference is the one it has.
abbrev settled_verdict : Booking → Bool → Verdict
settled_verdict b same =
    stands b (if same then ok (duplicate_of b.status) else err callback_conflict)
      (if same then b.needs_recovery else true)

-- An outcome that the row may take is written.
pub on_target_written :
    (b : Booking) (o : SupplierOutcome) (target : Status)
    → (target ≡ confirmed) ⊎ (target ≡ rejected)
    → may_move b.status target ≡ true
    → on_target b o target ≡ written b target o
on_target_written b o target known may = ground arith

pub valid_mover : (s t : Status) → may_move s t ≡ true → is_valid s ≡ true
valid_mover s t may = ground arith

-- A row that shows a write answers the same callback as a settled row does.
module _ (b b' : Booking) (o : SupplierOutcome) (target : Status)
    (shows : Shows (written b target o) b') (known : (target ≡ confirmed) ⊎ (target ≡ rejected))
    (bare : b.supplier_reference ≡ none) where
  settled_on_target :
      (same : Bool)
      → same_reference b'.supplier_reference o.reference ≡ same
      → on_target b' o target ≡ (settled_verdict b' same)
  settled_on_target same at = ground (arith, shows.status, at)

  redelivered_reference :
      (target ≡ rejected → is_empty o.reference ≡ true)
      → same_reference b'.supplier_reference o.reference ≡ true
  unfolding outcome_reference
  redelivered_reference c = ground (arith, shows.reference, eq_iff o.reference o.reference)

  declined_reference :
      target ≡ rejected
      → is_empty o.reference ≡ false
      → same_reference b'.supplier_reference o.reference ≡ false
  unfolding outcome_reference
  declined_reference c n = ground (arith, shows.reference)

module _ (rq again : Request) (o : SupplierOutcome) (r : Rest) (db : Db) (b : Booking)
    (h : find b.id db.bookings ≡ some b) (target : Status)
    (at : applicable_status o.status ≡ some target) (may : may_move b.status target ≡ true)
    (bare : b.supplier_reference ≡ none) where
  known : (target ≡ confirmed) ⊎ (target ≡ rejected)
  known = applicable_status_cases o.status target at

  verdict_target : (c : Booking) → verdict c o ≡ on_target c o target
  unfolding verdict
  verdict_target c = rw at refl

  first-Decides : Decides r db b (apply_callback rq b.id o) (written b target o)
  first-Decides =
      subst (λ v. Decides r db b (apply_callback rq b.id o) v)
        (verdict_target b ∙ on_target_written b o target known may)
        (apply_callback-Decides rq o r db b h (valid_mover b.status target may))

  abbrev pub redelivery : Bool → Verdict
  redelivery same = record (written b target o) {
    answer = if same then ok (duplicate_of target) else err callback_conflict;
    flagged = if same then (written b target o).flagged else true;
  }

  -- The second delivery, on a row that the first one left.
  module _ (same : Bool) (r' : Rest) (db' : Db) (b' : Booking)
      (there : find b'.id db'.bookings ≡ some b') (shows : Shows (written b target o) b')
      (compares : same_reference b'.supplier_reference o.reference ≡ same) where
    second_verdict : verdict b' o ≡ (settled_verdict b' same)
    second_verdict =
        verdict_target b' ∙ settled_on_target b b' o target shows known bare same compares

    left_valid : is_valid b'.status ≡ true
    left_valid = ground (arith, shows.status, known)

    second-Decides : Decides r' db' b' (apply_callback again b'.id o) (settled_verdict b' same)
    second-Decides =
        subst (λ v. Decides r' db' b' (apply_callback again b'.id o) v) second_verdict
          (apply_callback-Decides again o r' db' b' there left_valid)

    second_answer : (settled_verdict b' same).answer ≡ (redelivery same).answer
    second_answer = ground (arith, shows.status)

    second-Shows : (c : Booking) → Shows (settled_verdict b' same) c → Shows (redelivery same) c
    second-Shows c s = record {
      status = s.status ∙ shows.status;
      reference = s.reference ∙ shows.reference;
      flagged = ground (arith, s.flagged, shows.flagged);
      marker = s.marker ∙ shows.marker;
    }

    answered_again :
        (r'' : Rest) (c : Booking)
        → b'.id ≡ b.id
        → Rewrites r' db' b' (apply_callback again b'.id o) (settled_verdict b' same).answer r'' c
        → Rewrites r' db' b' (apply_callback again b.id o) (redelivery same).answer r'' c
    answered_again r'' c there_too w =
        subst (λ a. Rewrites r' db' b' (apply_callback again b.id o) a r'' c) second_answer
          (subst
            (λ i.
              Rewrites r' db' b' (apply_callback again i o) (settled_verdict b' same).answer r'' c)
            there_too w)

  -- Both deliveries, with what each of them answers.
  abbrev pub IsDelivered : Bool → Type 0
  IsDelivered same =
      (r' : Rest) × (b' : Booking) × (first : Rewrites r db b (apply_callback rq b.id o)
        (ok (applied_to target)) r' b')
      × (r'' : Rest) × (b'' : Booking) × Rewrites r' first.after b' (apply_callback again b.id o)
          (redelivery same).answer r'' b''
      × Shows (redelivery same) b''
      × (r''.signals ≡ (b.id, status_text target) ∷ r.signals)
      × (r''.calls ≡ r.calls)

  both-IsDelivered :
      (same : Bool)
      → ((b' : Booking)
          → Shows (written b target o) b'
          → same_reference b'.supplier_reference o.reference ≡ same)
      → IsDelivered same
  both-IsDelivered same compares =
      let (r', b', first, shows, woken, silent) = first-Decides in
      let (r'', b'', second, shows', woken', silent') =
        second-Decides same r' first.after b' first.found shows (compares b' shows) in
      (
        r',
        b',
        first,
        r'',
        b'',
        answered_again same r' first.after b' first.found shows (compares b' shows) r'' b''
            first.same second,
        second-Shows same r' first.after b' first.found shows (compares b' shows) b'' shows',
        woken' ∙ woken,
        silent' ∙ silent,
      )

  deliver_twice-Decides :
      (same : Bool)
      → IsDelivered same
      → Decides r db b (delivered_twice rq again b.id o) (redelivery same)
  deliver_twice-Decides same (r', b', first, r'', b'', second, shows, woken, silent) = (
    r'',
    b'',
    bind-Rewrites r r' r'' db b b' b'' _ _ (ok (applied_to target)) (redelivery same).answer first
        second,
    shows,
    woken,
    silent,
  )

  redelivered_names : coherent o ≡ true → target ≡ rejected → is_empty o.reference ≡ true
  unfolding applicable_status
  redelivered_names c declined = ground (arith, at)

  -- The deliveries of a coherent callback.
  pub coherent-IsDelivered : coherent o ≡ true → IsDelivered true
  coherent-IsDelivered c =
      both-IsDelivered true
        (λ b' shows. redelivered_reference b b' o target shows known bare (redelivered_names c))

  -- In a quiet world, where a row may take the outcome that a callback brings and has no supplier
  -- reference yet, and the callback is a confirmation or names no reservation: delivered twice, it
  -- comes to the row, the one signal and the silence towards the supplier that one delivery comes
  -- to, and the second delivery answers that it is a duplicate.
  pub redelivery-IsDuplicate :
      coherent o ≡ true
      → Decides r db b
          (delivered_twice rq again b.id o)
          (record (written b target o) { answer = ok (duplicate_of target) })
  redelivery-IsDuplicate c = deliver_twice-Decides true (coherent-IsDelivered c)

  -- A decline that names a reservation settles the row and keeps no reference, so the same callback
  -- delivered again, in the same quiet world, is answered as a conflict and flags the settled row.
  pub declined_redelivery-IsConflict :
      target ≡ rejected
      → is_empty o.reference ≡ false
      → Decides r db b
          (delivered_twice rq again b.id o)
          (record (written b target o) { answer = err callback_conflict; flagged = true })
  declined_redelivery-IsConflict declined named = deliver_twice-Decides false (
      both-IsDelivered false
        (λ b' shows. declined_reference b b' o target shows known bare declined named))
