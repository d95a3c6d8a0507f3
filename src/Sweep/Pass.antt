-- ===== src/Sweep/Pass.antt =====
-- A pass of the sweep (internal/sweep/sweep.go). The time that a pass has is an argument: the number
-- of rows that it reaches before its deadline. Logging is left out.
use booking_orchestration_se.Base.{ℕ, zero, suc, List, [], ◌∷◌}
use booking_orchestration_se.World.{M, ◌>>=◌, pure, Reply, ok, err}
use booking_orchestration_se.Orchestrator.{Orchestrator, start_booking}
use booking_orchestration_se.Sweep.Stale.{StaleThresholds, find_stale}

abbrev pub batch_size : ℕ
batch_size = 100

-- The loop over the rows: a start that fails or is refused does not stop it.
unfoldable pub restart : Orchestrator → ℕ → List ℕ → M (Unit {0})
restart orch reach [] = pure tt
restart orch zero (id ∷ rest) = pure tt
restart orch (suc reach) (id ∷ rest) = start_booking orch id >>= λ _. restart orch reach rest

unfoldable pub swept : Orchestrator → ℕ → Reply (List ℕ) → M (Unit {0})
swept orch reach (err e) = pure tt
swept orch reach (ok stale) = restart orch reach stale

-- `pass`.
unfoldable pub pass : Orchestrator → StaleThresholds → ℕ → M (Unit {0})
pass orch t reach = find_stale t batch_size >>= swept orch reach
