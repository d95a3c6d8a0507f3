-- ===== src/Process.antt =====
-- The process (cmd/serve.go) and what it is built from (internal/app/app.go), as the sequence of
-- what its main goroutine does. What succeeds, and what ends the serving, is an argument.
pub mod Laws
pub mod Worker
pub mod Tests
use booking_orchestration_se.Base.{Bool, List, [], ◌∷◌, ◌++◌, if◌then◌else◌}

pub data Action : Type 0 where
  set_logger load_config set_release_mode install_signals migrate_up : Action
  open_pool build_temporal : Action
  build_engine register_mock start_worker start_sweeper listen : Action
  -- `stop()`: the context is cancelled and the signals are handed back.
  cancel : Action
  shut_down force_close join_background : Action
  close_temporal close_pool : Action

-- What ends the wait: a signal, or the server that ended regularly or with an error.
pub data Ending : Type 0 where
  signalled server_closed server_failed : Ending

pub record Circumstances : Type 0 where
  pub config_loads : Bool
  pub migrates : Bool
  pub pool_opens : Bool
  pub temporal_builds : Bool
  pub supplier_mock : Bool
  pub ending : Ending
  pub shuts_down : Bool

-- How `Serve` returns.
pub data Exit : Type 0 where
  clean load_error migration_error build_error server_error shutdown_error : Exit

pub record Run : Type 0 where
  pub actions : List Action
  pub exit : Exit

abbrev pub returns : Exit → Run
returns e = record { actions = []; exit = e }

infixr 5 ◌then◌
abbrev pub ◌then◌ : List Action → Run → Run
actions then r = record r { actions = actions ++ r.actions }

-- `App.Close`; both are set once `New` has succeeded.
abbrev pub close_app : List Action
close_app = close_temporal ∷ close_pool ∷ []

-- A return with the two deferred calls, the last one registered first.
unfoldable pub returns_deferred : Exit → Run
returns_deferred e = record { actions = cancel ∷ close_app; exit = e }

-- What follows the select.
unfoldable pub wind_down : Bool → Run
wind_down shuts_down =
    (shut_down ∷ (if shuts_down then [] else force_close ∷ []))
    then (cancel ∷ join_background ∷ [])
    then (returns_deferred (if shuts_down then clean else shutdown_error))

unfoldable pub ended : Bool → Ending → Run
ended shuts_down signalled = (cancel ∷ []) then (wind_down shuts_down)
ended shuts_down server_closed = wind_down shuts_down
ended shuts_down server_failed = returns_deferred server_error

unfoldable pub serving : Circumstances → Run
serving c =
    (build_engine ∷ (if c.supplier_mock then register_mock ∷ [] else []))
    then (start_worker ∷ start_sweeper ∷ listen ∷ [])
    then (ended c.shuts_down c.ending)

-- `New`: the pool is closed again where the client cannot be built.
unfoldable pub built : Circumstances → Run
built c =
    if c.pool_opens
    then (open_pool ∷ [])
    then (if c.temporal_builds
        then (build_temporal ∷ [])
        then (serving c)
        else ((close_pool ∷ []) then (returns build_error)))
    else returns build_error

unfoldable pub migrated : Circumstances → Run
migrated c =
    (install_signals ∷ migrate_up ∷ [])
    then (if c.migrates then built c else returns migration_error)

-- `Serve`.
unfoldable pub serve_process : Circumstances → Run
serve_process c =
    (set_logger ∷ load_config ∷ [])
    then (if c.config_loads then (set_release_mode ∷ []) then (migrated c) else returns load_error)
