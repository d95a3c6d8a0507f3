-- ===== src/Sweep/Laws.antt =====
-- What a pass restarts.
use booking_orchestration_se.Base.{
  ℕ, zero, suc, if◌then◌else◌, ◌≤◌, ◌≡◌, inl, inr, refl, true, List, [], ◌∷◌, arith, All, leb,
  length, Bool-cases,
}
use booking_orchestration_se.Model.Booking.{Booking}
use booking_orchestration_se.Store.Table.{Db}
use booking_orchestration_se.World.{◌>>=◌, pure, sql, ok}
use booking_orchestration_se.Orchestrator.{Orchestrator, start_booking}
use booking_orchestration_se.Store.Statement.{exec}
use booking_orchestration_se.Quiet.Write.{Rest, over}
use booking_orchestration_se.Sweep.Stale.{
  StaleThresholds, is_valid_threshold, is_stale, put_by_age, stale_rows, take, ids, find_stale,
}
use booking_orchestration_se.Sweep.Order.{
  IsRow, times_asked, IsByAge, IsServed, take-All, taken_once, take-IsByAge, stale_rows-IsByAge,
  all-IsServed,
}
use booking_orchestration_se.Sweep.Pass.{batch_size, restart, swept, pass}

module _ (P : Booking → Type 0) where
  All-put_by_age : (b : Booking) (cs : List Booking) → P b → All P cs → All P (put_by_age b cs)
  unfolding put_by_age
  All-put_by_age b [] p ps = (p, tt)
  All-put_by_age b (c ∷ cs) p (q, ps) = elim (Bool-cases (leb b.updated_at c.updated_at)) [
    | inl before ↦ rw before (p, (q, ps))
    | inr after ↦ rw after (q, All-put_by_age b cs p ps)
  ]

module _ (now : ℕ) (t : StaleThresholds) where
  stale_rows-All :
      (whole bs : List Booking)
      → ((b : Booking) → IsRow b bs → IsRow b whole)
      → All (λ b. IsRow b whole × (is_stale now t b ≡ true)) (stale_rows now t bs)
  unfolding stale_rows
  stale_rows-All whole [] inside = tt
  stale_rows-All whole (b ∷ bs) inside =
      let rest = stale_rows-All whole bs (λ c h. inside c (inr h)) in
      elim (Bool-cases (is_stale now t b)) [
        | inl stale ↦ rw stale (
            All-put_by_age (λ c. IsRow c whole × (is_stale now t c ≡ true)) b (stale_rows now t bs)
              (inside b (inl refl), stale) rest)
        | inr fresh ↦ rw fresh rest
      ]

-- The smaller of two numbers.
abbrev pub least : ℕ → ℕ → ℕ
least m n = if leb m n then m else n

length-take : (n : ℕ) (bs : List Booking) → length (take n bs) ≡ least (length bs) n
length-take zero bs = ground arith
length-take (suc n) [] = ground arith
length-take (suc n) (b ∷ bs) = ground (arith, length-take n bs)

length-put_by_age : (b : Booking) (cs : List Booking) → length (put_by_age b cs) ≡ suc (length cs)
unfolding put_by_age
length-put_by_age b [] = refl
length-put_by_age b (c ∷ cs) = ground (arith, length-put_by_age b cs)

-- How many rows are stale.
abbrev pub count_stale : ℕ → StaleThresholds → List Booking → ℕ
count_stale now t [] = 0
count_stale now t (b ∷ bs) =
    let rest = count_stale now t bs in if is_stale now t b then suc rest else rest

pub length-stale_rows :
    (now : ℕ) (t : StaleThresholds) (bs : List Booking)
    → length (stale_rows now t bs) ≡ count_stale now t bs
unfolding stale_rows
length-stale_rows now t [] = refl
length-stale_rows now t (b ∷ bs) =
    ground (arith, length-stale_rows now t bs, length-put_by_age b (stale_rows now t bs))

length_taken :
    (reach now : ℕ) (t : StaleThresholds) (bs : List Booking)
    → length (take reach (take batch_size (stale_rows now t bs)))
      ≡ least (count_stale now t bs) (least batch_size reach)
length_taken reach now t bs =
    rw
      (
        length-take reach (take batch_size (stale_rows now t bs)),
        length-take batch_size (stale_rows now t bs),
        length-stale_rows now t bs,
      )
      (ground arith)

-- Requests that are made one after another.
abbrev pub added : List ℕ → List ℕ → List ℕ
added [] before = before
added (id ∷ more) before = added more (id ∷ before)

restart-added :
    (orch : Orchestrator) (reach : ℕ) (bs : List Booking) (r : Rest) (db : Db)
    → (restart orch reach (ids bs) (over r db)).1
      ≡ over (record r { starts = added (ids (take reach bs)) r.starts }) db
unfolding restart ◌>>=◌ pure start_booking
restart-added orch zero [] r db = refl
restart-added orch (suc reach) [] r db = refl
restart-added orch zero (b ∷ bs) r db = refl
restart-added orch (suc reach) (b ∷ bs) r db =
    restart-added orch reach bs (record r { starts = b.id ∷ r.starts }) db

-- The rows that a pass restarts: rows of the table, each of them stale; none more often than it
-- stands in the table; the oldest first, and no stale row left out that is older than one of them;
-- and exactly as many as are stale, as the batch holds and as the pass reaches, whichever is least.
pub record IsBatch (reach : ℕ) (t : StaleThresholds) (db : Db) (found : List Booking) : Type 0 where
  pub stale : All (λ b. IsRow b db.bookings × (is_stale db.now t b ≡ true)) found
  pub no_repeat : (id : ℕ) → times_asked id (ids found) ≤ times_asked id (ids db.bookings)
  pub by_age : IsByAge found
  pub oldest : All (IsServed db.now t found) db.bookings
  pub counted : length found ≡ least (count_stale db.now t db.bookings) (least batch_size reach)

module _ (orch : Orchestrator) (t : StaleThresholds) (reach : ℕ) (r : Rest) (db : Db) where
  find_stale-quiet :
      is_valid_threshold t ≡ true
      → find_stale t batch_size (over r db)
        ≡ (ok (ids (take batch_size (stale_rows db.now t db.bookings))), over r db)
  unfolding find_stale ◌>>=◌ pure sql exec
  find_stale-quiet valid = rw valid refl

  pub pass-quiet :
      is_valid_threshold t ≡ true
      → (pass orch t reach (over r db)).1
        ≡ over
            (record r {
              starts =
                  added
                    (ids (take reach (take batch_size (stale_rows db.now t db.bookings))))
                    r.starts;
            })
            db
  unfolding pass swept ◌>>=◌
  pass-quiet valid =
      rw (find_stale-quiet valid)
        (restart-added orch reach (take batch_size (stale_rows db.now t db.bookings)) r db)

  -- A pass over an undisturbed table, with thresholds that are valid. It writes nothing to the
  -- tables: all it does is to ask for a workflow, one after another, for rows of the table that are
  -- stale (open, not parked, and quiet for longer than the threshold of their kind), none of them
  -- more often than it stands in the table, from the oldest on and passing over none that is older
  -- than one it asks for; it asks for exactly as many as are stale, as a batch holds and as it
  -- reaches in its time, whichever is least.
  pub pass-IsBatch :
      is_valid_threshold t ≡ true
      → (found : List Booking) × ((pass orch t reach (over r db)).1
          ≡ over (record r { starts = added (ids found) r.starts }) db)
        × IsBatch reach t db found
  pass-IsBatch valid =
      let rows = stale_rows db.now t db.bookings in
      let P : Booking → Type 0 = λ b. IsRow b db.bookings × (is_stale db.now t b ≡ true) in
      let all = stale_rows-All db.now t db.bookings db.bookings (λ b h. h) in
      (
        take reach (take batch_size rows),
        pass-quiet valid,
        record {
          stale = take-All P reach (take batch_size rows) (take-All P batch_size rows all);
          no_repeat = λ id. taken_once db.now t reach batch_size id db.bookings;
          by_age =
              take-IsByAge reach (take batch_size rows)
                (take-IsByAge batch_size rows (stale_rows-IsByAge db.now t db.bookings));
          oldest = all-IsServed db.now t reach batch_size db.bookings;
          counted = length_taken reach db.now t db.bookings;
        },
      )
