-- ===== src/Process/Tests.antt =====
-- A process that is told to end, one whose port is taken, and a worker that connects late.
use booking_orchestration_se.Base.{◌≡◌, refl, true, false, [], ◌∷◌}
use booking_orchestration_se.Process.{
  Circumstances, signalled, server_failed, set_logger, load_config, set_release_mode,
  install_signals, migrate_up, open_pool, build_temporal, build_engine, start_worker, start_sweeper,
  listen, cancel, shut_down, join_background, close_temporal, close_pool, returns_deferred,
  wind_down, ended, serving, built, migrated, serve_process,
}
use booking_orchestration_se.Process.Laws.{held_after, act, act_all}
use booking_orchestration_se.Process.Worker.{
  fails, connects, idle, run_worker, worker_acts, run_worker-idle,
}

abbrev told_to_end : Circumstances
told_to_end = record {
  config_loads = true;
  migrates = true;
  pool_opens = true;
  temporal_builds = true;
  supplier_mock = false;
  ending = signalled;
  shuts_down = true;
}

ended_in_order :
    (serve_process told_to_end).actions
    ≡ set_logger ∷ load_config ∷ set_release_mode ∷ install_signals ∷ migrate_up ∷ open_pool
      ∷ build_temporal ∷ build_engine ∷ start_worker ∷ start_sweeper ∷ listen ∷ cancel ∷ shut_down
      ∷ cancel ∷ join_background ∷ cancel ∷ close_temporal ∷ close_pool ∷ []
unfolding serve_process migrated built serving ended wind_down returns_deferred
ended_in_order = refl

-- The connections are closed under the background.
port_taken :
    (held_after (serve_process (record told_to_end { ending = server_failed })).actions).in_order
    ≡ false
unfolding serve_process migrated built serving ended returns_deferred held_after act_all act
port_taken = refl

run_worker-idle_example : worker_acts (run_worker (fails (fails connects))) (idle false) ≡ idle true
run_worker-idle_example = run_worker-idle (fails (fails connects)) false
