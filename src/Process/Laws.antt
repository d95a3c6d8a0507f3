-- ===== src/Process/Laws.antt =====
-- What the process holds while it runs, and how it lets go of it.
use booking_orchestration_se.Base.{Bool, true, false, not, ◌&&◌, List, [], ◌∷◌, ◌≡◌, if◌then◌else◌}
use booking_orchestration_se.Process.{
  Action, open_pool, build_temporal, start_worker, start_sweeper, cancel, join_background,
  close_temporal, close_pool, Ending, server_failed, Circumstances, Exit, clean, load_error,
  migration_error, build_error, server_error, shutdown_error, serve_process,
}

-- What is open, whether goroutines in the background may still use it, whether they have been told
-- to end, and whether every action so far was in order.
pub record Held : Type 0 where
  pub pool : Bool
  pub temporal : Bool
  pub background : Bool
  pub cancelled : Bool
  pub in_order : Bool

abbrev requiring : Bool → Held → Held
requiring ok h = record h { in_order = h.in_order && ok }

-- The background starts on open connections, a join needs that the background was told to end, and
-- a connection is closed once, while it is open and nothing in the background uses it.
unfoldable pub act : Action → Held → Held
act open_pool h = requiring (not h.pool) (record h { pool = true })
act build_temporal h = requiring (not h.temporal) (record h { temporal = true })
act start_worker h = requiring (h.pool && h.temporal) (record h { background = true })
act start_sweeper h = requiring (h.pool && h.temporal) (record h { background = true })
act cancel h = record h { cancelled = true }
act join_background h = requiring h.cancelled (record h { background = false })
act close_temporal h = requiring (h.temporal && not h.background) (record h { temporal = false })
act close_pool h = requiring (h.pool && not h.background) (record h { pool = false })
act _ h = h

unfoldable pub act_all : List Action → Held → Held
act_all [] h = h
act_all (a ∷ rest) h = act_all rest (act a h)

-- What the process holds after some actions, from nothing.
unfoldable pub held_after : List Action → Held
held_after actions = act_all actions (record {
  pool = false;
  temporal = false;
  background = false;
  cancelled = false;
  in_order = true;
})

abbrev pub is_failure : Ending → Bool
is_failure server_failed = true
is_failure _ = false

-- The server is reached.
abbrev pub serves : Circumstances → Bool
serves c = c.config_loads && c.migrates && c.pool_opens && c.temporal_builds

-- It is reached, and ends with an error of its own.
abbrev pub fails_serving : Circumstances → Bool
fails_serving c = serves c && is_failure c.ending

-- What is left in the end: both connections are closed, the background was told to end if it was
-- started, and it is joined unless the server failed.
abbrev pub left_behind : Circumstances → Held
left_behind c = record {
  pool = false;
  temporal = false;
  background = fails_serving c;
  cancelled = serves c;
  in_order = not (fails_serving c);
}

-- What the process reports: the first thing that went wrong, if any did.
abbrev pub verdict : Circumstances → Exit
verdict c =
    if not c.config_loads
    then load_error
    else if not c.migrates
    then migration_error
    else if not (c.pool_opens && c.temporal_builds)
    then build_error
    else if is_failure c.ending
    then server_error
    else if c.shuts_down
    then clean
    else shutdown_error

abbrev pub IsReported : Circumstances → Type 0
IsReported c =
    (held_after (serve_process c).actions ≡ left_behind c) × ((serve_process c).exit ≡ verdict c)

abbrev circumstances : Bool → Bool → Bool → Bool → Bool → Ending → Bool → Circumstances
circumstances config_loads migrates pool_opens temporal_builds supplier_mock ending shuts_down =
    record {
      config_loads = config_loads;
      migrates = migrates;
      pool_opens = pool_opens;
      temporal_builds = temporal_builds;
      supplier_mock = supplier_mock;
      ending = ending;
      shuts_down = shuts_down;
    }
