-- ===== src/Quiet/Lost.antt =====
-- A write that no longer matches its row, in a quiet world (`Apply` of
-- internal/repository/booking/transition.go and `superseded` of internal/workflow/activity.go).
use booking_orchestration_se.Base.{
  ◌≡◌, refl, true, false, some, none, Bool, ◌&&◌, inl, inr, Bool-cases, if◌then◌else◌,
}
use booking_orchestration_se.Model.Status.{Status, may_move, status_eq}
use booking_orchestration_se.Model.Booking.{Booking, attempt_superseded, transition_conflict}
use booking_orchestration_se.Contract.{Transition, is_owned}
use booking_orchestration_se.World.{◌>>=◌, pure, sql, ok}
use booking_orchestration_se.Store.Table.{Db, find}
use booking_orchestration_se.Store.Rows.{guarded, apply_row}
use booking_orchestration_se.Store.Statement.{apply, exec, on_row}
use booking_orchestration_se.Repository.{
  get_by_id, apply_transition, states_marker, guarded_answer, after_guarded, after_apply,
  not_applied, record_superseded_attempt, superseded_event,
}
use booking_orchestration_se.Workflow.Activity.{Deps, Answer}
use booking_orchestration_se.Workflow.Apply.{
  superseded_answer_event, settled_result, superseded_loaded, superseded,
}
use booking_orchestration_se.Quiet.Write.{Rest, over}
use booking_orchestration_se.Quiet.Whole.{
  Rewrites, bind-Rewrites, pure-Rewrites, append_refusal-Rewrites,
}

module _ (r : Rest) (db : Db) (b : Booking) (h : find b.id db.bookings ≡ some b) where
  kept : {A : Type 0} (a : A) → Rewrites r db b (pure a) a r b
  unfolding pure
  kept a = pure-Rewrites r db b h (pure a) a r refl

  recorded-Rewrites :
      (t : Transition) (s : Status)
      → Rewrites r db b (record_superseded_attempt b.id s t) (some attempt_superseded) r b
  unfolding record_superseded_attempt pure
  recorded-Rewrites t s =
      let noted = append_refusal-Rewrites r db b h (superseded_event s t) in
      bind-Rewrites r r r db b b b _ _ none (some attempt_superseded) noted
        (pure-Rewrites r noted.after b noted.found _ _ r refl)

  not_applied-Rewrites :
      (t : Transition) (s : Status)
      → Rewrites r db b
          (not_applied b.id t s)
          (
            s,
            some (
                if status_eq s t.from && is_owned t.marker
                then attempt_superseded
                else transition_conflict),
          )
          r
          b
  unfolding not_applied pure
  not_applied-Rewrites t s = elim (Bool-cases (status_eq s t.from && is_owned t.marker)) [
    | inl owner ↦ rw owner (
        let noted = recorded-Rewrites t s in
        bind-Rewrites r r r db b b b _ _ (some attempt_superseded) (s, some attempt_superseded)
          noted (pure-Rewrites r noted.after b noted.found _ _ r refl))
    | inr other ↦ rw other (kept (s, some transition_conflict))
  ]

-- An owner that no longer owns.
module _ (r : Rest) (db : Db) (b : Booking) (h : find b.id db.bookings ≡ some b) (t : Transition)
    (unmatched : guarded t b ≡ false) where
  apply_exec_kept : exec (apply b.id t) db ≡ db
  unfolding exec on_row apply_row
  apply_exec_kept = rw (h, on_row, unmatched, apply_row) refl

  unmatched_answer : guarded_answer b.id t db ≡ record { applied = none; current = some b.status }
  unfolding guarded_answer
  unmatched_answer = rw (h, guarded_answer) (rw unmatched refl)

  apply_sql :
      sql (apply b.id t) (guarded_answer b.id t) (over r db)
      ≡ (some (record { applied = none; current = some b.status }), over r db)
  unfolding sql
  apply_sql = rw (unmatched_answer, apply_exec_kept) refl

  unmatched-Rewrites :
      may_move t.from t.to ≡ true
      → states_marker t ≡ true
      → Rewrites r db b
          (apply_transition b.id t)
          (
            b.status,
            some (
                if status_eq b.status t.from && is_owned t.marker
                then attempt_superseded
                else transition_conflict),
          )
          r
          b
  unfolding apply_transition after_guarded after_apply
  unmatched-Rewrites may states =
      let read =
        pure-Rewrites r db b h (sql (apply b.id t) (guarded_answer b.id t)) _ r apply_sql in
      let refusal = not_applied-Rewrites r read.after b read.found t b.status in
      rw (may, states) (bind-Rewrites r r r db b b b _ _ _ _ read refusal)

  -- As to whether the row is where the owner saw it.
  pub lost-Rewrites :
      (owner : Bool)
      → (status_eq b.status t.from && is_owned t.marker) ≡ owner
      → may_move t.from t.to ≡ true
      → states_marker t ≡ true
      → Rewrites r db b
          (apply_transition b.id t)
          (b.status, some (if owner then attempt_superseded else transition_conflict))
          r
          b
  lost-Rewrites owner e may states = rw (← e) (unmatched-Rewrites may states)

module _ (deps : Deps) (a : Answer) (r : Rest) (db : Db) (b : Booking)
    (h : find b.id db.bookings ≡ some b) where
  read_runs : get_by_id b.id (over r db) ≡ (ok b, over r db)
  unfolding get_by_id ◌>>=◌ pure sql exec
  read_runs = rw h refl

  loaded-Rewrites :
      Rewrites r db b
        (superseded_loaded deps b.id a (ok b))
        (ok (settled_result a.attempt "superseded"))
        r
        b
  unfolding superseded_loaded pure
  loaded-Rewrites =
      let noted = append_refusal-Rewrites r db b h (superseded_answer_event deps a b.status) in
      bind-Rewrites r r r db b b b _ _ none (ok (settled_result a.attempt "superseded")) noted
        (pure-Rewrites r noted.after b noted.found _ _ r refl)

module _ (deps : Deps) (a : Answer) (r : Rest) (db : Db) (b : Booking)
    (h : find b.id db.bookings ≡ some b) where
  pub superseded-Rewrites :
      Rewrites r db b (superseded deps b.id a) (ok (settled_result a.attempt "superseded")) r b
  unfolding superseded
  superseded-Rewrites =
      let read = pure-Rewrites r db b h (get_by_id b.id) (ok b) r (read_runs deps a r db b h) in
      bind-Rewrites r r r db b b b _ _ (ok b) _ read
        (loaded-Rewrites deps a r read.after b read.found)
