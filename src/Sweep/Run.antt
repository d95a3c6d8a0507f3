-- ===== src/Sweep/Run.antt =====
-- The loop of the sweep (`Run`, internal/sweep/sweep.go), over the ticks that come before its context
-- ends: for each, how many rows its pass reaches.
use booking_orchestration_se.Quiet.Write.{Rest, over}
use booking_orchestration_se.Store.Table.{Db}
use booking_orchestration_se.Base.{
  ℕ, zero, suc, ◌+◌, ◌≤◌, ◌≡◌, inl, inr, refl, true, List, [], ◌∷◌, arith, length, Bool-cases, ap,
  sym, ◌∙◌, All,
}
use booking_orchestration_se.Model.Booking.{Booking}
use booking_orchestration_se.World.{M, ◌>>=◌, pure, World}
use booking_orchestration_se.Orchestrator.{Orchestrator}
use booking_orchestration_se.Sweep.Stale.{
  StaleThresholds, is_stale, put_by_age, stale_rows, take, ids, is_valid_threshold,
}
use booking_orchestration_se.Sweep.Pass.{pass, batch_size}
use booking_orchestration_se.Sweep.Order.{IsRow, times_asked, times_asked-put_by_age}
use booking_orchestration_se.Sweep.Laws.{added, count_stale, length-stale_rows, pass-quiet}

-- `Run`.
unfoldable pub run_sweeper : Orchestrator → StaleThresholds → List ℕ → M (Unit {0})
run_sweeper orch t [] = pure tt
run_sweeper orch t (reach ∷ ticks) = pass orch t reach >>= λ _. run_sweeper orch t ticks

take_all : (n : ℕ) (bs : List Booking) → length bs ≤ n → take n bs ≡ bs
take_all zero [] h = refl
take_all zero (b ∷ bs) h = ground arith
take_all (suc n) [] h = refl
take_all (suc n) (b ∷ bs) h = ap (λ rest. b ∷ rest) (take_all n bs (omega (arith, h)))

times_asked-added :
    (id : ℕ) (xs ys : List ℕ) → times_asked id (added xs ys) ≡ times_asked id xs + times_asked id ys
times_asked-added id [] ys = omega arith
times_asked-added id (x ∷ xs) ys = ground (arith, times_asked-added id xs (x ∷ ys))

module _ (now : ℕ) (t : StaleThresholds) (b : Booking) (stale : is_stale now t b ≡ true) where
  put_by_age-more :
      (id : ℕ) (c : Booking) (cs : List Booking)
      → times_asked id (ids cs) ≤ times_asked id (ids (put_by_age c cs))
  put_by_age-more id c cs = ground (arith, times_asked-put_by_age id c cs)

  stale_rows-IsAsked :
      (bs : List Booking) → IsRow b bs → 1 ≤ times_asked b.id (ids (stale_rows now t bs))
  unfolding stale_rows
  stale_rows-IsAsked [] h = elim h [ ]
  stale_rows-IsAsked (c ∷ bs) (inl same) =
      rw (sym (ap (is_stale now t) same) ∙ stale)
        (ground (arith, ap (λ x. x.id) same, times_asked-put_by_age b.id c (stale_rows now t bs)))
  stale_rows-IsAsked (c ∷ bs) (inr later) =
      let rest = stale_rows-IsAsked bs later in
      elim (Bool-cases (is_stale now t c)) [
        | inl due ↦ rw due (omega (arith, rest, put_by_age-more b.id c (stale_rows now t bs)))
        | inr fresh ↦ rw fresh rest
      ]

module _ (orch : Orchestrator) (t : StaleThresholds) (db : Db) (b : Booking) where
  run_sweeper-tick :
      (reach : ℕ) (ticks : List ℕ) (w : World)
      → (run_sweeper orch t (reach ∷ ticks) w).1
        ≡ (run_sweeper orch t ticks (pass orch t reach w).1).1
  unfolding run_sweeper ◌>>=◌
  run_sweeper-tick reach ticks w = refl

  -- A pass that reaches every stale row.
  whole_pass :
      (reach : ℕ) (r : Rest)
      → is_valid_threshold t ≡ true
      → length (stale_rows db.now t db.bookings) ≤ batch_size
      → length (stale_rows db.now t db.bookings) ≤ reach
      → (pass orch t reach (over r db)).1
        ≡ over (record r { starts = added (ids (stale_rows db.now t db.bookings)) r.starts }) db
  whole_pass reach r valid fits reached =
      let rows = stale_rows db.now t db.bookings in
      let quiet = pass-quiet orch t reach r db valid in
      rw (take_all batch_size rows fits, take_all reach rows reached) at quiet

  run_sweeper-asked :
      (ticks : List ℕ) (r : Rest)
      → is_valid_threshold t ≡ true
      → 1 ≤ times_asked b.id (ids (stale_rows db.now t db.bookings))
      → length (stale_rows db.now t db.bookings) ≤ batch_size
      → All (λ reach. length (stale_rows db.now t db.bookings) ≤ reach) ticks
      → (starts : List ℕ) × ((run_sweeper orch t ticks (over r db)).1
          ≡ over (record r { starts = starts }) db)
        × (length ticks + times_asked b.id r.starts ≤ times_asked b.id starts)
  unfolding run_sweeper pure
  run_sweeper-asked [] r valid asked fits reaches = (r.starts, refl, omega arith)
  run_sweeper-asked (reach ∷ ticks) r valid asked fits reaches =
      let rows = stale_rows db.now t db.bookings in
      let next = added (ids rows) r.starts in
      let (starts, same, more) =
        run_sweeper-asked ticks (record r { starts = next }) valid asked fits reaches.1 in
      (
        starts,
        run_sweeper-tick reach ticks (over r db)
            ∙ ap (λ w. (run_sweeper orch t ticks w).1) (whole_pass reach r valid fits reaches.0)
            ∙ same,
        omega (arith, more, asked, times_asked-added b.id (ids rows) r.starts),
      )

  -- The loop of the sweep over an undisturbed table, with thresholds that are valid, where no more
  -- rows are stale than a batch holds and every pass has the time to reach them all. A stale row of
  -- the table is asked for at every tick, however many there are, and the loop writes nothing to the
  -- tables.
  pub run_sweeper-IsAsked :
      (ticks : List ℕ) (r : Rest)
      → is_valid_threshold t ≡ true
      → IsRow b db.bookings
      → is_stale db.now t b ≡ true
      → count_stale db.now t db.bookings ≤ batch_size
      → All (λ reach. count_stale db.now t db.bookings ≤ reach) ticks
      → (starts : List ℕ) × ((run_sweeper orch t ticks (over r db)).1
          ≡ over (record r { starts = starts }) db)
        × (length ticks + times_asked b.id r.starts ≤ times_asked b.id starts)
  run_sweeper-IsAsked ticks r valid inside stale fits reaches =
      let counted = length-stale_rows db.now t db.bookings in
      run_sweeper-asked ticks r valid (stale_rows-IsAsked db.now t b stale db.bookings inside)
        (omega (arith, counted, fits)) (rw counted reaches)
