-- ===== src/Quiet/Whole.antt =====
-- The bookings after a write in a quiet world: all rows stand, but for the one that is written.
use booking_orchestration_se.Base.{
  ℕ, ◌≡◌, refl, true, sym, ◌∙◌, Option-cases, Bool-cases, inl, inr, some, none, arith, List, [],
  ◌∷◌,
}
use booking_orchestration_se.Model.Status.{may_move}
use booking_orchestration_se.Contract.{Transition}
use booking_orchestration_se.Model.Booking.{Booking, Event}
use booking_orchestration_se.Store.Table.{Db, find, put, append, find-put}
use booking_orchestration_se.Store.Rows.{Locked, guarded, apply_row, flag_row}
use booking_orchestration_se.Store.Statement.{
  Statement, apply, append_refusal, flag, exec, on_row, write_locked,
}
use booking_orchestration_se.Store.Effect.{bookings-logged}
use booking_orchestration_se.Store.Steps.{row_after}
use booking_orchestration_se.World.{M, ◌>>=◌, pure, sql}
use booking_orchestration_se.Repository.{
  append_refusal_to, apply_transition, states_marker, after_guarded, after_apply, guarded_answer,
}
use booking_orchestration_se.Repository.Attempts.{flag_booking, after_flag, must_exist}
use booking_orchestration_se.Quiet.Write.{Rest, over}

-- Writing a row as it stands changes nothing, and of two writes of one row the second stands.
pub put_self : (bs : List Booking) (b : Booking) → find b.id bs ≡ some b → put b bs ≡ bs
unfolding put find
put_self [] b h = refl
put_self (c ∷ bs) b h = ground (arith, h, put_self bs b)

pub put-put : (bs : List Booking) (b c : Booking) → c.id ≡ b.id → put c (put b bs) ≡ put c bs
unfolding put
put-put [] b c h = refl
put-put (d ∷ bs) b c h = ground (arith, put-put bs b c h)

pub find-put_self :
    (bs : List Booking) (b c : Booking)
    → find b.id bs ≡ some b
    → c.id ≡ b.id
    → find b.id (put c bs) ≡ some c
find-put_self bs b c found same = ground (arith, find-put b.id c bs b, found, same)

-- `m` answers `a`, makes `r` into `r'`, and of the bookings it leaves all as they were but the row
-- of `b`, which becomes `b'`.
pub record Rewrites {A : Type 0} (r : Rest) (db : Db) (b : Booking) (m : M A) (a : A) (r' : Rest)
    (b' : Booking) : Type 0 where
  pub after : Db
  pub runs : m (over r db) ≡ (a, over r' after)
  pub bookings : after.bookings ≡ put b' db.bookings
  pub found : find b'.id after.bookings ≡ some b'
  pub same : b'.id ≡ b.id

pub bind-Rewrites :
    {A B : Type 0} (r r' r'' : Rest) (db : Db) (b b' b'' : Booking) (m : M A) (f : A → M B) (a : A)
    (c : B)
    → (first : Rewrites r db b m a r' b') → Rewrites r' first.after b' (f a) c r'' b''
    → Rewrites r db b (m >>= f) c r'' b''
unfolding ◌>>=◌
bind-Rewrites r r' r'' db b b' b'' m f a c first second = record {
  after = second.after;
  runs = rw first.runs second.runs;
  bookings = second.bookings ∙ rw first.bookings (put-put db.bookings b' b'' second.same);
  found = second.found;
  same = second.same ∙ first.same;
}

-- A statement is answered at once.
pub sql_quiet :
    {A : Type 0} (r : Rest) (db : Db) (s : Statement) (answer : Db → A)
    → sql s answer (over r db) ≡ (some (answer db), over r (exec s db))
unfolding sql
sql_quiet r db s answer = refl

module _ (r : Rest) (db : Db) (b : Booking) (h : find b.id db.bookings ≡ some b) where
  -- What answers without a write.
  pub pure-Rewrites :
      {A : Type 0} (m : M A) (a : A) (r' : Rest)
      → m (over r db) ≡ (a, over r' db)
      → Rewrites r db b m a r' b
  pure-Rewrites m a r' runs = record {
    after = db;
    runs = runs;
    bookings = sym (put_self db.bookings b h);
    found = h;
    same = refl;
  }

  write_locked-put :
      (l : Locked)
      → (row_after l b).id ≡ b.id
      → (write_locked l db).bookings ≡ put (row_after l b) db.bookings
  write_locked-put none s = sym (put_self db.bookings b h)
  write_locked-put (some (b', e)) s =
      bookings-logged e (record db { bookings = put b' db.bookings })

  write_locked-find :
      (l : Locked)
      → (row_after l b).id ≡ b.id
      → find (row_after l b).id (write_locked l db).bookings ≡ some (row_after l b)
  write_locked-find l s =
      rw (write_locked-put l s, s) (find-put_self db.bookings b (row_after l b) h s)

  logged-bookings : (id : ℕ) (e : Event) → (exec (append_refusal id e) db).bookings ≡ db.bookings
  unfolding exec append
  logged-bookings id e = elim (Option-cases (find id db.bookings)) [
    | inl none_there ↦ rw (none_there, exec) refl
    | inr (c, there) ↦ rw (there, exec) refl
  ]

  append_refusal_runs :
      (e : Event)
      → append_refusal_to b.id e (over r db) ≡ (none, over r (exec (append_refusal b.id e) db))
  unfolding append_refusal_to ◌>>=◌ pure sql
  append_refusal_runs e = rw h refl

  pub append_refusal-Rewrites : (e : Event) → Rewrites r db b (append_refusal_to b.id e) none r b
  append_refusal-Rewrites e = record {
    after = exec (append_refusal b.id e) db;
    runs = append_refusal_runs e;
    bookings = logged-bookings b.id e ∙ sym (put_self db.bookings b h);
    found = rw (logged-bookings b.id e) h;
    same = refl;
  }

  flag_same : (row_after (flag_row db.now b) b).id ≡ b.id
  unfolding flag_row
  flag_same = ground arith

  exec-flag : exec (flag b.id) db ≡ write_locked (flag_row db.now b) db
  unfolding exec on_row
  exec-flag = rw (h, on_row) refl

  must_exist_runs : must_exist b.id (over r db) ≡ (none, over r db)
  unfolding must_exist ◌>>=◌ pure sql exec
  must_exist_runs = rw h refl

  flag_runs : flag_booking b.id (over r db) ≡ (none, over r (write_locked (flag_row db.now b) db))
  unfolding flag_booking after_flag ◌>>=◌ pure flag_row
  flag_runs = rw (sql_quiet r db (flag b.id) _) (
      rw (h, exec-flag, flag_row)
        (elim (Bool-cases b.needs_recovery) [
          | inl flagged ↦ rw (flagged) must_exist_runs
          | inr unflagged ↦ rw (unflagged) refl
        ]))

  pub flag-Rewrites : Rewrites r db b (flag_booking b.id) none r (row_after (flag_row db.now b) b)
  flag-Rewrites = record {
    after = write_locked (flag_row db.now b) db;
    runs = flag_runs;
    bookings = write_locked-put (flag_row db.now b) flag_same;
    found = write_locked-find (flag_row db.now b) flag_same;
    same = flag_same;
  }

  guarded_found :
      (t : Transition)
      → guarded t b ≡ true
      → guarded_answer b.id t db ≡ record { applied = some t.to; current = some b.status }
  unfolding guarded_answer
  guarded_found t g = rw (h, guarded_answer) (rw g refl)

  exec-apply : (t : Transition) → exec (apply b.id t) db ≡ write_locked (apply_row db.now t b) db
  unfolding exec on_row
  exec-apply t = rw (h, on_row) refl

  apply_same : (t : Transition) → (row_after (apply_row db.now t b) b).id ≡ b.id
  unfolding apply_row
  apply_same t = ground arith

  apply_transition_runs :
      (t : Transition)
      → guarded t b ≡ true
      → may_move t.from t.to ≡ true
      → states_marker t ≡ true
      → apply_transition b.id t (over r db)
        ≡ ((t.to, none), over r (write_locked (apply_row db.now t b) db))
  unfolding apply_transition ◌>>=◌ pure after_guarded after_apply
  apply_transition_runs t g m s =
      rw (m, s, sql_quiet r db (apply b.id t) (guarded_answer b.id t))
        (rw (guarded_found t g, exec-apply t) refl)

  pub apply-Rewrites :
      (t : Transition)
      → guarded t b ≡ true
      → may_move t.from t.to ≡ true
      → states_marker t ≡ true
      → Rewrites r db b
          (apply_transition b.id t)
          (t.to, none)
          r
          (row_after (apply_row db.now t b) b)
  apply-Rewrites t g m s = record {
    after = write_locked (apply_row db.now t b) db;
    runs = apply_transition_runs t g m s;
    bookings = write_locked-put (apply_row db.now t b) (apply_same t);
    found = write_locked-find (apply_row db.now t b) (apply_same t);
    same = apply_same t;
  }
