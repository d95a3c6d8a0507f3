-- ===== src/Process/Worker.antt =====
-- `RunWorker` (internal/app/app.go), over what the orchestrator and the context answer to it.
use booking_orchestration_se.Base.{Bool, true, false, not, ◌&&◌, List, [], ◌∷◌, ◌≡◌, refl}

-- How a round goes: the worker starts and runs until the context ends; it does not start and the
-- context ends first; or it does not start and the interval passes first, and the next round goes
-- so.
pub data Dialing : Type 0 where
  connects : Dialing
  ends_waiting : Dialing
  fails : Dialing → Dialing

pub data WorkerAction : Type 0 where
  new_worker register start_worker start_fails wait_for_end stop_worker : WorkerAction

-- The loop.
unfoldable pub run_worker : Dialing → List WorkerAction
run_worker connects = new_worker ∷ register ∷ start_worker ∷ wait_for_end ∷ stop_worker ∷ []
run_worker ends_waiting = new_worker ∷ register ∷ start_fails ∷ []
run_worker (fails next) = new_worker ∷ register ∷ start_fails ∷ run_worker next

-- The worker that was built last: whether it is one that was never started, whether it knows its
-- workflows, and whether it polls.
pub record Polling : Type 0 where
  pub fresh : Bool
  pub registered : Bool
  pub polls : Bool
  pub in_order : Bool

abbrev requires : Bool → Polling → Polling
requires ok p = record p { in_order = p.in_order && ok }

-- A worker is built while none polls; it is started, with success or without, only once it is
-- registered and only if it was not started before; and it is stopped while it polls.
unfoldable pub worker_act : WorkerAction → Polling → Polling
worker_act new_worker p = requires (not p.polls) (record p { fresh = true; registered = false })
worker_act register p = requires p.fresh (record p { registered = true })
worker_act start_worker p =
    requires (p.fresh && p.registered && not p.polls) (record p { fresh = false; polls = true })
worker_act start_fails p =
    requires (p.fresh && p.registered && not p.polls) (record p { fresh = false })
worker_act wait_for_end p = p
worker_act stop_worker p = requires p.polls (record p { polls = false })

unfoldable pub worker_acts : List WorkerAction → Polling → Polling
worker_acts [] p = p
worker_acts (a ∷ rest) p = worker_acts rest (worker_act a p)

-- No worker polls, and the one that was built last, if any, was started.
abbrev pub idle : Bool → Polling
idle registered = record { fresh = false; registered = registered; polls = false; in_order = true }

-- However often the orchestrator cannot be reached, a run of the worker that ends is in order: no
-- worker is started twice, a failed start included, so that each start is of a worker of its own,
-- on which the workflows were registered before; no two poll at once, and none polls in the end.
pub run_worker-idle :
    (d : Dialing) (registered : Bool) → worker_acts (run_worker d) (idle registered) ≡ idle true
unfolding worker_acts worker_act run_worker
run_worker-idle connects registered = refl
run_worker-idle ends_waiting registered = refl
run_worker-idle (fails next) registered = run_worker-idle next true
