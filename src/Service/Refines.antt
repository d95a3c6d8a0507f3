-- ===== src/Service/Refines.antt =====
-- Every operation of the service refines a sequence of issued statements.
use booking_orchestration_se.Base.{
  ℕ, ◌≡◌, ◌⊎◌, String, Bool, true, false, Option, none, some, refl, arith, not, ◌||◌, ◌&&◌,
  is_empty,
}
use booking_orchestration_se.Model.Status.{
  Status, received, confirmed, rejected, settled, may_move, status_eq, status_text,
}
use booking_orchestration_se.Model.Booking.{
  Booking, CreateRequest, Error, EventType, transition_conflict,
}
use booking_orchestration_se.Store.Statement.{select}
use booking_orchestration_se.World.{Reply, ok, err}
use booking_orchestration_se.World.Reach.{here}
use booking_orchestration_se.World.Refines.{
  Refines, sql-Refines, pure-Refines, bind-Refines, if-Refines, silent-IsCharged,
}
use booking_orchestration_se.Repository.{Applied, apply_transition}
use booking_orchestration_se.Repository.Refines.{
  get_by_id-Refines, insert_or_load-Refines, apply_transition-Refines, append_refusal_to-Refines,
  flag_booking-Refines,
}
use booking_orchestration_se.Orchestrator.{Orchestrator, start_booking, signal_outcome}
use booking_orchestration_se.Workflow.Writes.{to_answer-IsIssued}
use booking_orchestration_se.Service.Create.{
  Request, new_booking, report_duplicate_suspect, created, create_with, create, get,
}
use booking_orchestration_se.Service.Callback.{
  SupplierOutcome, applicable_status, callback_transition, record_refusal, refusal_event,
  refuse_flagged, refuse_conflict, refuse_received, flag_unreferenced, finish, applied_twice,
  says_same, retry_apply, applied_once, same_reference, apply_target, apply_status, apply_loaded,
  apply_callback,
}

-- The vocabulary of callbacks has two statuses.
applicable_status_lem :
    (s : String) {t : Status} → applicable_status s ≡ some t → (t ≡ confirmed) ⊎ (t ≡ rejected)
unfolding applicable_status
applicable_status_lem s h = ground arith

module _ (budget : ℕ) (parse : String → Option ℕ) (r : Request) where
  start_booking-Refines : (o : Orchestrator) (id : ℕ) → Refines budget parse (start_booking o id)
  unfolding start_booking
  start_booking-Refines o id = record {
    runs = λ w fair.
        (here, fair, silent-IsCharged budget parse w (start_booking o id w).1 refl refl here);
  }

  signal_outcome-Refines :
      (o : Orchestrator) (id : ℕ) (s : String) → Refines budget parse (signal_outcome o id s)
  unfolding signal_outcome
  signal_outcome-Refines o id s = record {
    runs = λ w fair.
        (here, fair, silent-IsCharged budget parse w (signal_outcome o id s w).1 refl refl here);
  }

  created-Refines : (f : String) (b : Reply (Booking × Bool)) → Refines budget parse (created r f b)
  unfolding created report_duplicate_suspect
  created-Refines f (err e) = pure-Refines budget parse _
  created-Refines f (ok (b, false)) = pure-Refines budget parse _
  created-Refines f (ok (b, true)) =
      bind-Refines budget parse _ _ (sql-Refines budget parse select _ tt) (λ suspect.
        bind-Refines budget parse _ _ (start_booking-Refines r.orchestrator b.id)
          (λ started. pure-Refines budget parse _))

  create_with-Refines :
      (req : CreateRequest) (id : Option ℕ) → Refines budget parse (create_with r req id)
  unfolding create_with new_booking
  create_with-Refines req none = pure-Refines budget parse _
  create_with-Refines req (some id) =
      bind-Refines budget parse _ _
        (insert_or_load-Refines budget parse (new_booking r id req) r.request_id refl)
        (created-Refines (new_booking r id req).request_fingerprint)

  pub create-Refines : (req : CreateRequest) → Refines budget parse (create r req)
  unfolding create
  create-Refines req = create_with-Refines req r.new_id

  pub get-Refines : (id : ℕ) → Refines budget parse (get r id)
  unfolding get
  get-Refines id =
      bind-Refines budget parse _ _ (get_by_id-Refines budget parse id)
        (λ b. pure-Refines budget parse _)

  record_refusal-Refines :
      (id : ℕ) (s : Status) (k : EventType) (o : SupplierOutcome) (why : String)
      → Refines budget parse (record_refusal r id s k o why)
  unfolding record_refusal
  record_refusal-Refines id s k o why =
      append_refusal_to-Refines budget parse id (refusal_event r s k o why)

  refuse_flagged-Refines :
      (id : ℕ) (s : Status) (k : EventType) (o : SupplierOutcome) (why : String) (e : Error)
      → Refines budget parse (refuse_flagged r id s k o why e)
  unfolding refuse_flagged
  refuse_flagged-Refines id s k o why e =
      bind-Refines budget parse _ _ (record_refusal-Refines id s k o why) (λ noted.
        bind-Refines budget parse _ _ (flag_booking-Refines budget parse id)
          (λ flagged. pure-Refines budget parse _))

  refuse_conflict-Refines :
      (id : ℕ) (s : Status) (o : SupplierOutcome) (why : String)
      → Refines budget parse (refuse_conflict r id s o why)
  unfolding refuse_conflict
  refuse_conflict-Refines id s o why = refuse_flagged-Refines id s _ o why _

  refuse_received-Refines :
      (id : ℕ) (s : Status) (o : SupplierOutcome) → Refines budget parse (refuse_received r id s o)
  unfolding refuse_received
  refuse_received-Refines id s o =
      bind-Refines budget parse _ _ (record_refusal-Refines id s _ o _)
        (λ noted. pure-Refines budget parse _)

  flag_unreferenced-Refines :
      (id : ℕ) (t : Status) (o : SupplierOutcome) → Refines budget parse (flag_unreferenced id t o)
  unfolding flag_unreferenced
  flag_unreferenced-Refines id t o =
      if-Refines budget parse (status_eq t confirmed && is_empty o.reference) _ _
        (λ _. flag_booking-Refines budget parse id) (λ _. pure-Refines budget parse _)

  finish-Refines :
      (id : ℕ) (t : Status) (o : SupplierOutcome) → Refines budget parse (finish r id t o)
  unfolding finish
  finish-Refines id t o =
      bind-Refines budget parse _ _ (flag_unreferenced-Refines id t o) (λ flagged.
        bind-Refines budget parse _ _ (signal_outcome-Refines r.orchestrator id (status_text t))
          (λ signalled. pure-Refines budget parse _))

  -- The write of a callback from whatever status was read.
  write-Refines :
      (id : ℕ) (s t : Status) (o : SupplierOutcome)
      → (t ≡ confirmed) ⊎ (t ≡ rejected)
      → Refines budget parse (apply_transition id (callback_transition r s t o))
  unfolding callback_transition
  write-Refines id s t o h =
      apply_transition-Refines budget parse id (callback_transition r s t o) (λ edge.
        let (open_from, not_failed) = to_answer-IsIssued s t h edge in
        (edge, open_from, λ e. absurd (not_failed e)))

  applied_twice-Refines :
      (id : ℕ) (s t : Status) (o : SupplierOutcome) (a : Applied)
      → Refines budget parse (applied_twice r id s t o a)
  unfolding applied_twice
  applied_twice-Refines id s t o (c, none) = finish-Refines id t o
  applied_twice-Refines id s t o (c, some transition_conflict) = refuse_conflict-Refines id s o _
  applied_twice-Refines id s t o (c, some e) = pure-Refines budget parse _

  module _ (t : Status) (h : (t ≡ confirmed) ⊎ (t ≡ rejected)) (id : ℕ) (o : SupplierOutcome) where
    retry_apply-Refines :
        (s : Status) (w : Reply Booking) → Refines budget parse (retry_apply r id s t o w)
    unfolding retry_apply
    retry_apply-Refines s w =
        if-Refines budget parse (says_same s t o w) _ _ (λ _. pure-Refines budget parse _)
          (λ _.
            if-Refines budget parse (settled s || not (may_move s t)) _ _
              (λ _. refuse_conflict-Refines id s o _)
              (λ _.
                bind-Refines budget parse _ _ (write-Refines id s t o h)
                  (applied_twice-Refines id s t o)))

    applied_once-Refines : (a : Applied) → Refines budget parse (applied_once r id t o a)
    unfolding applied_once
    applied_once-Refines (s, none) = finish-Refines id t o
    applied_once-Refines (s, some transition_conflict) =
        bind-Refines budget parse _ _ (get_by_id-Refines budget parse id) (retry_apply-Refines s)
    applied_once-Refines (s, some e) = pure-Refines budget parse _

    apply_target-Refines : (b : Booking) → Refines budget parse (apply_target r id b t o)
    unfolding apply_target
    apply_target-Refines b =
        if-Refines budget parse (status_eq b.status received) _ _
          (λ _. refuse_received-Refines id b.status o)
          (λ _.
            if-Refines budget parse (settled b.status) _ _
              (λ _.
                if-Refines budget parse
                  (status_eq b.status t && same_reference b.supplier_reference o.reference) _ _
                  (λ _. pure-Refines budget parse _) (λ _. refuse_conflict-Refines id b.status o _))
              (λ _.
                bind-Refines budget parse _ _ (write-Refines id b.status t o h)
                  applied_once-Refines))

  apply_status-Refines :
      (id : ℕ) (b : Booking) (o : SupplierOutcome) (t : Option Status)
      → applicable_status o.status ≡ t
      → Refines budget parse (apply_status r id b o t)
  unfolding apply_status
  apply_status-Refines id b o none h = refuse_flagged-Refines id b.status _ o _ _
  apply_status-Refines id b o (some t) h =
      apply_target-Refines t (applicable_status_lem o.status h) id o b

  apply_loaded-Refines :
      (id : ℕ) (o : SupplierOutcome) (b : Reply Booking)
      → Refines budget parse (apply_loaded r id o b)
  unfolding apply_loaded
  apply_loaded-Refines id o (err e) = pure-Refines budget parse _
  apply_loaded-Refines id o (ok b) = apply_status-Refines id b o (applicable_status o.status) refl

  pub apply_callback-Refines :
      (id : ℕ) (o : SupplierOutcome) → Refines budget parse (apply_callback r id o)
  unfolding apply_callback
  apply_callback-Refines id o =
      bind-Refines budget parse _ _ (get_by_id-Refines budget parse id) (apply_loaded-Refines id o)
