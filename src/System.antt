-- ===== src/System.antt =====
-- The program as a whole: the operations that its processes run, one after another, while other
-- sessions commit statements in between (World).
pub mod Invariants
pub mod Doubt
pub mod Budget
pub mod Unique
pub mod Lives
pub mod History
pub mod Tests
use booking_orchestration_se.World.Charge.{IsCharged}
use booking_orchestration_se.Base.{ℕ, ◌≤◌, String, List, [], ◌∷◌, All, ◌≡◌, Option, none, arith}
use booking_orchestration_se.Model.Booking.{CreateRequest}
use booking_orchestration_se.Store.Table.{Db}
use booking_orchestration_se.World.{World, Reply}
use booking_orchestration_se.World.Reach.{Reach, here, Reach-trans}
use booking_orchestration_se.World.Refines.{IsFair, Refines, IsCharged-trans}
use booking_orchestration_se.Workflow.Activity.{Deps}
use booking_orchestration_se.Workflow.Run.{Config, booking_workflow}
use booking_orchestration_se.Workflow.Run.Refines.{booking_workflow-Refines}
use booking_orchestration_se.Service.Create.{Request, create, get}
use booking_orchestration_se.Service.Callback.{SupplierOutcome, apply_callback}
use booking_orchestration_se.Service.Refines.{create-Refines, get-Refines, apply_callback-Refines}

-- What a process is asked to do: the three endpoints, and a run of the workflow.
pub data Job : Type 0 where
  create_booking : Request → CreateRequest → Job
  get_booking : Request → ℕ → Job
  callback : Request → ℕ → SupplierOutcome → Job
  workflow : Config → Deps → String → Job

unfoldable pub serve : Job → World → World
serve (create_booking r req) w = (create r req w).1
serve (get_booking r id) w = (get r id w).1
serve (callback r id o) w = (apply_callback r id o w).1
serve (workflow cfg deps booking_id) w = (booking_workflow cfg deps booking_id w).1

unfoldable pub serve_all : List Job → World → World
serve_all [] w = w
serve_all (j ∷ js) w = serve_all js (serve j w)

module _ (budget : ℕ) where
  -- Every workflow is started with the budget.
  abbrev pub KeepsBudget : Job → Type 0
  KeepsBudget (workflow cfg deps booking_id) = cfg.create_attempts ≤ budget
  KeepsBudget _ = Unit {0}

  serve-Reach :
      (j : Job) (w : World)
      → KeepsBudget j
      → IsFair budget w.schedule
      → Reach budget w.db (serve j w).db × IsFair budget (serve j w).schedule
  unfolding serve
  serve-Reach (create_booking r req) w k fair =
      let served = (create-Refines budget (λ s. none) r req).runs w fair in (served.0, served.1)
  serve-Reach (get_booking r id) w k fair =
      let served = (get-Refines budget (λ s. none) r id).runs w fair in (served.0, served.1)
  serve-Reach (callback r id o) w k fair =
      let served = (apply_callback-Refines budget (λ s. none) r id o).runs w fair in
      (served.0, served.1)
  serve-Reach (workflow cfg deps booking_id) w k fair =
      let served = (booking_workflow-Refines budget cfg deps booking_id k).runs w fair in
      (served.0, served.1)

  -- Whatever is served, and however the sessions interleave and fail, the tables that stand
  -- afterwards are reached by statements that the program issues.
  pub serve_all-Reach :
      (js : List Job) (w : World)
      → All KeepsBudget js
      → IsFair budget w.schedule
      → Reach budget w.db (serve_all js w).db
  unfolding serve_all
  serve_all-Reach [] w k fair = here
  serve_all-Reach (j ∷ js) w k fair =
      let first = serve-Reach j w k.0 fair in
      Reach-trans first.0 (serve_all-Reach js (serve j w) k.1 first.1)

  -- What is left of a fair schedule is fair.
  pub serve_all-IsFair :
      (js : List Job) (w : World)
      → All KeepsBudget js
      → IsFair budget w.schedule
      → IsFair budget (serve_all js w).schedule
  unfolding serve_all
  serve_all-IsFair [] w k fair = fair
  serve_all-IsFair (j ∷ js) w k fair =
      serve_all-IsFair js (serve j w) k.1 (serve-Reach j w k.0 fair).1

  module _ (parse : String → Option ℕ) where
    -- Every process reads booking ids alike.
    abbrev pub ReadsIds : Job → Type 0
    ReadsIds (workflow cfg deps booking_id) = deps.parse_uuid ≡ parse
    ReadsIds _ = Unit {0}

    serve-IsCharged :
        (j : Job) (w : World)
        → KeepsBudget j
        → ReadsIds j
        → IsFair budget w.schedule
        → IsCharged parse w (serve j w)
    unfolding serve
    serve-IsCharged (create_booking r req) w k reads fair =
        ((create-Refines budget parse r req).runs w fair).2
    serve-IsCharged (get_booking r id) w k reads fair =
        ((get-Refines budget parse r id).runs w fair).2
    serve-IsCharged (callback r id o) w k reads fair =
        ((apply_callback-Refines budget parse r id o).runs w fair).2
    serve-IsCharged (workflow cfg deps booking_id) w k reads fair =
        rw (← reads) ((booking_workflow-Refines budget cfg deps booking_id k).runs w fair).2

    -- Whatever is served, no booking is sent more often than its row counts attempts.
    pub serve_all-IsCharged :
        (js : List Job) (w : World)
        → All KeepsBudget js
        → All ReadsIds js
        → IsFair budget w.schedule
        → IsCharged parse w (serve_all js w)
    unfolding serve_all
    serve_all-IsCharged [] w k reads fair = λ id. omega arith
    serve_all-IsCharged (j ∷ js) w k reads fair =
        IsCharged-trans budget parse w (serve j w) (serve_all js (serve j w))
          (serve-IsCharged j w k.0 reads.0 fair)
          (serve_all-IsCharged js (serve j w) k.1 reads.1 (serve-Reach j w k.0 fair).1)
