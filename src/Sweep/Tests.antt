-- ===== src/Sweep/Tests.antt =====
-- The sweep at a table of one booking that is quiet.
use booking_orchestration_se.Sweep.Order.{times_asked}
use booking_orchestration_se.Sweep.Run.{run_sweeper, run_sweeper-IsAsked}
use booking_orchestration_se.Base.{◌≡◌, refl, true, List, [], ◌∷◌, ℕ, inl, ◌≤◌, ◌+◌, arith}
use booking_orchestration_se.Model.Booking.{Booking}
use booking_orchestration_se.Orchestrator.{Orchestrator, new_execution, delivered}
use booking_orchestration_se.Store.Table.{Db}
use booking_orchestration_se.Quiet.Write.{Rest, over}
use booking_orchestration_se.Sweep.Stale.{StaleThresholds, is_valid_threshold, is_stale}
use booking_orchestration_se.Sweep.Pass.{pass, batch_size}
use booking_orchestration_se.Sweep.Laws.{IsBatch, added, pass-IsBatch, count_stale}
use booking_orchestration_se.Sweep.Stale.{ids}
use booking_orchestration_se.System.Tests.{doubtful}

abbrev orch : Orchestrator
orch = record {
  execute_workflow = λ starts id. new_execution;
  signal_workflow = λ signals id status. delivered;
}

-- A minute, half a minute and a quarter of an hour.
abbrev thresholds : StaleThresholds
thresholds = record { marker = 60000000000; received_age = 30000000000; idle = 900000000000 }

abbrev rest : Rest
rest = record { calls = []; starts = []; signals = []; waits = [] }

abbrev db : Db
db = record { bookings = doubtful ∷ []; events = []; next_seq = 1; now = 2000000000 }

doubtful_stale : is_stale db.now thresholds doubtful ≡ true
unfolding is_stale
doubtful_stale = refl

-- A threshold of less than a millisecond is valid and is a threshold of none.
abbrev tiny : StaleThresholds
tiny = record { marker = 60000000000; received_age = 30000000000; idle = 1 }

tiny_valid : is_valid_threshold tiny ≡ true
unfolding is_valid_threshold
tiny_valid = refl

tiny_instant : is_stale 21 tiny doubtful ≡ true
unfolding is_stale
tiny_instant = refl

thresholds_valid : is_valid_threshold thresholds ≡ true
unfolding is_valid_threshold
thresholds_valid = refl

pass-IsBatch_example :
    (found : List Booking) × ((pass orch thresholds 10 (over rest db)).1
      ≡ over (record rest { starts = added (ids found) rest.starts }) db)
    × IsBatch 10 thresholds db found
pass-IsBatch_example = pass-IsBatch orch thresholds 10 rest db thresholds_valid

one_stale : count_stale db.now thresholds db.bookings ≡ 1
unfolding is_stale
one_stale = refl

one_reached : (n : ℕ) → 1 ≤ n → count_stale db.now thresholds db.bookings ≤ n
one_reached n h = rw one_stale h

one_fits : count_stale db.now thresholds db.bookings ≤ batch_size
one_fits = one_reached batch_size (omega arith)

run_sweeper-IsAsked_example :
    (starts : List ℕ) × ((run_sweeper orch thresholds (10 ∷ 5 ∷ []) (over rest db)).1
      ≡ over (record rest { starts = starts }) db)
    × (2 + 0 ≤ times_asked doubtful.id starts)
run_sweeper-IsAsked_example =
    run_sweeper-IsAsked orch thresholds db doubtful (10 ∷ 5 ∷ []) rest thresholds_valid (inl refl)
      doubtful_stale one_fits (one_reached 10 (omega arith), (one_reached 5 (omega arith), tt))
