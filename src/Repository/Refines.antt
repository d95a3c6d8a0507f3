-- ===== src/Repository/Refines.antt =====
-- Every method of the repository refines a sequence of issued statements.
use booking_orchestration_se.Base.{ℕ, ◌≤◌, ◌≡◌, String, Bool, true, false, Option, none, some, ◌&&◌}
use booking_orchestration_se.Model.Status.{Status, received, may_move, status_eq}
use booking_orchestration_se.Model.Booking.{Booking, Event}
use booking_orchestration_se.Contract.{Transition, is_owned}
use booking_orchestration_se.Store.Table.{Db}
use booking_orchestration_se.Store.Statement.{
  select, insert, apply, clear_marker, append_refusal, authorize, resolve_stale, park, flag,
  Insertion, stored, key_exists, violation,
}
use booking_orchestration_se.World.{◌>>=◌, pure, sql}
use booking_orchestration_se.World.Reach.{IsIssued}
use booking_orchestration_se.World.Refines.{
  Refines, sql-Refines, pure-Refines, bind-Refines, if-Refines,
}
use booking_orchestration_se.Repository.{
  get_by_id, get_by_key, after_insert, insert_or_load, apply_transition, after_guarded, after_apply,
  not_applied, record_superseded_attempt, append_refusal_to, clear_marker_of, Guarded,
  superseded_event, states_marker,
}
use booking_orchestration_se.Repository.Attempts.{
  resolve_stale_marker, authorize_attempt, park_if_unknown, must_exist, after_flag, flag_booking,
}

module _ (budget : ℕ) (parse : String → Option ℕ) where
  -- A statement whose answer is only read.
  reading-Refines :
      {A B : Type 0} (s : _) (answer : Db → A) (f : Option A → B)
      → IsIssued budget s
      → Refines budget parse (sql s answer >>= λ r. pure (f r))
  reading-Refines s answer f h =
      bind-Refines budget parse _ _ (sql-Refines budget parse s answer h)
        (λ r. pure-Refines budget parse (f r))

  pub get_by_id-Refines : (id : ℕ) → Refines budget parse (get_by_id id)
  unfolding get_by_id
  get_by_id-Refines id = reading-Refines select _ _ tt

  pub get_by_key-Refines : (d k : String) → Refines budget parse (get_by_key d k)
  unfolding get_by_key
  get_by_key-Refines d k = reading-Refines select _ _ tt

  after_insert-Refines :
      (b : Booking) (r : Option Insertion) → Refines budget parse (after_insert b r)
  unfolding after_insert
  after_insert-Refines b none = pure-Refines budget parse _
  after_insert-Refines b (some (stored b')) = pure-Refines budget parse _
  after_insert-Refines b (some violation) = pure-Refines budget parse _
  after_insert-Refines b (some key_exists) =
      bind-Refines budget parse _ _ (get_by_key-Refines b.distributor_id b.idempotency_key)
        (λ r. pure-Refines budget parse _)

  pub insert_or_load-Refines :
      (b : Booking) (r : Option String)
      → b.status ≡ received
      → Refines budget parse (insert_or_load b r)
  unfolding insert_or_load
  insert_or_load-Refines b r h =
      bind-Refines budget parse _ _ (sql-Refines budget parse (insert b r) _ h)
        (after_insert-Refines b)

  pub append_refusal_to-Refines :
      (id : ℕ) (e : Event) → Refines budget parse (append_refusal_to id e)
  unfolding append_refusal_to
  append_refusal_to-Refines id e = reading-Refines (append_refusal id e) _ _ tt

  record_superseded_attempt-Refines :
      (id : ℕ) (s : Status) (t : Transition)
      → Refines budget parse (record_superseded_attempt id s t)
  unfolding record_superseded_attempt
  record_superseded_attempt-Refines id s t =
      bind-Refines budget parse _ _ (append_refusal_to-Refines id (superseded_event s t))
        (λ e. pure-Refines budget parse _)

  not_applied-Refines :
      (id : ℕ) (t : Transition) (s : Status) → Refines budget parse (not_applied id t s)
  unfolding not_applied
  not_applied-Refines id t s =
      if-Refines budget parse (status_eq s t.from && is_owned t.marker) _ _
        (λ _.
          bind-Refines budget parse _ _ (record_superseded_attempt-Refines id s t)
            (λ e. pure-Refines budget parse _))
        (λ _. pure-Refines budget parse _)

  after_guarded-Refines :
      (id : ℕ) (t : Transition) (g : Option Guarded) → Refines budget parse (after_guarded id t g)
  unfolding after_guarded
  after_guarded-Refines id t none = pure-Refines budget parse _
  after_guarded-Refines id t (some g) = after_apply-Refines g.applied g.current
    where
      after_apply-Refines : (a c : Option Status) → Refines budget parse (after_apply id t a c)
      after_apply-Refines (some s) c = unfold after_apply in pure-Refines budget parse _
      after_apply-Refines none none = unfold after_apply in pure-Refines budget parse _
      after_apply-Refines none (some s) = unfold after_apply in not_applied-Refines id t s

  -- The edge is checked before the statement is sent, so a transition that is no edge issues nothing.
  pub apply_transition-Refines :
      (id : ℕ) (t : Transition)
      → (may_move t.from t.to ≡ true → IsIssued budget (apply id t))
      → Refines budget parse (apply_transition id t)
  unfolding apply_transition
  apply_transition-Refines id t h =
      if-Refines budget parse (may_move t.from t.to) _ _
        (λ edge.
          if-Refines budget parse (states_marker t) _ _
            (λ _.
              bind-Refines budget parse _ _ (sql-Refines budget parse (apply id t) _ (h edge))
                (after_guarded-Refines id t))
            (λ _. pure-Refines budget parse _))
        (λ _. pure-Refines budget parse _)

  pub clear_marker_of-Refines :
      (id n : ℕ) (e : Event) → Refines budget parse (clear_marker_of id n e)
  unfolding clear_marker_of
  clear_marker_of-Refines id n e = reading-Refines (clear_marker id n e) _ _ tt

  pub resolve_stale_marker-Refines :
      (id : ℕ) (r : Option String) → Refines budget parse (resolve_stale_marker id r)
  unfolding resolve_stale_marker
  resolve_stale_marker-Refines id r = reading-Refines (resolve_stale id r) _ _ tt

  pub authorize_attempt-Refines :
      (id m : ℕ) (k : String) (r : Option String)
      → m ≤ budget
      → Refines budget parse (authorize_attempt id m k r)
  unfolding authorize_attempt
  authorize_attempt-Refines id m k r h = reading-Refines (authorize id m k r) _ _ h

  pub park_if_unknown-Refines :
      (id : ℕ) (r : Option String) → Refines budget parse (park_if_unknown id r)
  unfolding park_if_unknown
  park_if_unknown-Refines id r = reading-Refines (park id r) _ _ tt

  after_flag-Refines : (id : ℕ) (r : Option Bool) → Refines budget parse (after_flag id r)
  unfolding after_flag must_exist
  after_flag-Refines id none = pure-Refines budget parse _
  after_flag-Refines id (some true) = pure-Refines budget parse _
  after_flag-Refines id (some false) = reading-Refines select _ _ tt

  pub flag_booking-Refines : (id : ℕ) → Refines budget parse (flag_booking id)
  unfolding flag_booking
  flag_booking-Refines id =
      bind-Refines budget parse _ _ (sql-Refines budget parse (flag id) _ tt)
        (after_flag-Refines id)
