-- ===== src/System/Unique.antt =====
-- One row for each key of a distributor, and one for each id, at every moment that the program can
-- reach.
use booking_orchestration_se.Base.{
  ℕ, ◌≡◌, ◌≢◌, refl, none, some, arith, Bool-cases, Option-cases, inl, inr, Option, String, ◌==◌,
  List, [], ◌∷◌, eq_iff,
}
use booking_orchestration_se.Model.Booking.{Booking}
use booking_orchestration_se.Store.Table.{Db, find, find-nil, find-cons, find_key, append}
use booking_orchestration_se.Store.Rows.{Locked}
use booking_orchestration_se.Store.Statement.{
  Statement, select, insert, apply, clear_marker, append_refusal, authorize, resolve_stale, park,
  flag, elapse, exec, on_row, Insertion, stored, key_exists, violation, insertion, inserted_row,
  write_insertion,
}
use booking_orchestration_se.Store.Steps.{
  row_after, IsStep, apply_row-IsStep, clear_marker_row-IsStep, resolve_row-IsStep, park_row-IsStep,
  flag_row-IsStep,
}
use booking_orchestration_se.Store.Effect.{IsChecked, find-on_row, authorize_locked-IsStep}
use booking_orchestration_se.World.Reach.{Reach, here, next, IsIssued-IsChecked}

-- Two rows of one distributor under one key are one row.
abbrev pub HasUniqueKeys : Db → Type 0
HasUniqueKeys db =
    (i j : ℕ) (b c : Booking)
    → find i db.bookings ≡ some b
    → find j db.bookings ≡ some c
    → b.distributor_id ≡ c.distributor_id
    → b.idempotency_key ≡ c.idempotency_key
    → i ≡ j

-- The row of before, of a row that stands after a locked statement.
on_row-origin :
    (id k : ℕ) (f : Booking → Locked) (db : Db) (c : Booking)
    → ((b : Booking) → IsStep b (f b))
    → find id (on_row k f db).bookings ≡ some c
    → (b : Booking) × (find id db.bookings ≡ some b)
      × (c.distributor_id ≡ b.distributor_id)
      × (c.idempotency_key ≡ b.idempotency_key)
on_row-origin id k f db c steps found = elim (Bool-cases (k == id)) [
  | inr differ ↦ (c, (rw (find-on_row id k f db steps, differ) at found), refl, refl)
  | inl same ↦ elim (Option-cases (find k db.bookings)) [
    | inl missing ↦ cc (rw (find-on_row id k f db steps, same, missing) at found)
    | inr (b, e) ↦
        let moved : some (row_after (f b) b) ≡ some c =
          rw (find-on_row id k f db steps, same, e) at found in
        (b, ground (arith, e, same), ground (arith, moved, steps b), ground (arith, moved, steps b))
  ]
]

on_row-HasUniqueKeys :
    (k : ℕ) (f : Booking → Locked) (db : Db)
    → ((b : Booking) → IsStep b (f b))
    → HasUniqueKeys db
    → HasUniqueKeys (on_row k f db)
on_row-HasUniqueKeys k f db steps h i j b c fb fc d e =
    let (b0, fb0, db0, kb0) = on_row-origin i k f db b steps fb in
    let (c0, fc0, dc0, kc0) = on_row-origin j k f db c steps fc in h i j b0 c0 fb0 fc0 (cc) (cc)

-- A row that is found has a key that is found.
find_key-find :
    (bs : List Booking) (i : ℕ) (b : Booking)
    → find i bs ≡ some b
    → find_key b.distributor_id b.idempotency_key bs ≢ none
unfolding find_key
find_key-find [] i b h = cc (rw find-nil at h)
find_key-find (c ∷ bs) i b h = elim (Bool-cases (c.id == i)) [
  | inl same ↦
      let row : some c ≡ some b = rw (find-cons i c bs, same) at h in
      ground (
        arith,
        row,
        eq_iff c.distributor_id b.distributor_id,
        eq_iff c.idempotency_key b.idempotency_key,
      )
  | inr differ ↦
      let rest : find i bs ≡ some b = rw (find-cons i c bs, differ) at h in
      ground (arith, find_key-find bs i b rest)
]

stored_key_lem :
    (b b' : Booking) (db : Db)
    → insertion b db ≡ stored b'
    → (b'.distributor_id ≡ b.distributor_id)
      × (b'.idempotency_key ≡ b.idempotency_key)
      × (find_key b.distributor_id b.idempotency_key db.bookings ≡ none)
unfolding insertion inserted_row
stored_key_lem b b' db h = ground arith

-- A row that was there before the insertion has another key.
other_key :
    (b b' c : Booking) (db : Db) (i : ℕ)
    → insertion b db ≡ stored b'
    → find i db.bookings ≡ some c
    → b'.distributor_id ≡ c.distributor_id
    → b'.idempotency_key ≡ c.idempotency_key
    → ⊥
other_key b b' c db i e found d k =
    let (sd, sk, free) = stored_key_lem b b' db e in
    find_key-find db.bookings i c found (rw (← d, ← k, sd, sk) free)

insert-HasUniqueKeys :
    (l : Insertion) (b : Booking) (r : Option String) (db : Db)
    → insertion b db ≡ l
    → HasUniqueKeys db
    → HasUniqueKeys (write_insertion l r db)
unfolding append
insert-HasUniqueKeys key_exists b r db e h i j x y fx fy d k = h i j x y fx fy d k
insert-HasUniqueKeys violation b r db e h i j x y fx fy d k = h i j x y fx fy d k
insert-HasUniqueKeys (stored b') b r db e h i j x y fx fy d k = elim (Bool-cases (b'.id == i)) [
  | inl si ↦ elim (Bool-cases (b'.id == j)) [
    | inl sj ↦ ground arith
    | inr dj ↦
        let px : some b' ≡ some x = rw (find-cons i b' db.bookings, si) at fx in
        let py : find j db.bookings ≡ some y = rw (find-cons j b' db.bookings, dj) at fy in
        absurd (other_key b b' y db j e py (cc px) (cc px))
  ]
  | inr di ↦
      let px : find i db.bookings ≡ some x = rw (find-cons i b' db.bookings, di) at fx in
      elim (Bool-cases (b'.id == j)) [
        | inl sj ↦
            let py : some b' ≡ some y = rw (find-cons j b' db.bookings, sj) at fy in
            absurd (other_key b b' x db i e px (cc py) (cc py))
        | inr dj ↦ h i j x y px (rw (find-cons j b' db.bookings, dj) at fy) d k
      ]
]

exec-HasUniqueKeys :
    (s : Statement) (db : Db) → IsChecked s → HasUniqueKeys db → HasUniqueKeys (exec s db)
unfolding exec
exec-HasUniqueKeys select db c h = h
exec-HasUniqueKeys (insert b r) db c h = insert-HasUniqueKeys (insertion b db) b r db refl h
exec-HasUniqueKeys (apply id t) db c h =
    on_row-HasUniqueKeys id _ db (λ b. apply_row-IsStep db.now b t c) h
exec-HasUniqueKeys (clear_marker id n e) db c h =
    on_row-HasUniqueKeys id _ db (λ b. clear_marker_row-IsStep db.now b n e) h
exec-HasUniqueKeys (append_refusal id e) db c h = elim (Option-cases (find id db.bookings)) [
  | inl missing ↦ rw (missing, exec) h
  | inr (b, found) ↦ rw (found, exec) (unfold append in h)
]
exec-HasUniqueKeys (authorize id m k r) db c h =
    on_row-HasUniqueKeys id _ db (authorize_locked-IsStep db m k r) h
exec-HasUniqueKeys (resolve_stale id r) db c h =
    on_row-HasUniqueKeys id _ db (λ b. resolve_row-IsStep db.now b r) h
exec-HasUniqueKeys (park id r) db c h =
    on_row-HasUniqueKeys id _ db (λ b. park_row-IsStep db.now b r) h
exec-HasUniqueKeys (flag id) db c h = on_row-HasUniqueKeys id _ db (λ b. flag_row-IsStep db.now b) h
exec-HasUniqueKeys (elapse n) db c h = h

module _ {budget : ℕ} where
  pub Reach-HasUniqueKeys : {s t : Db} → Reach budget s t → HasUniqueKeys s → HasUniqueKeys t
  Reach-HasUniqueKeys here h = h
  Reach-HasUniqueKeys (next {t = m} r st i e) h =
      rw e (exec-HasUniqueKeys st m (IsIssued-IsChecked budget st i) (Reach-HasUniqueKeys r h))
