-- ===== src/Config/Tests.antt =====
-- The configuration of an environment that sets the callback's secret only.
use booking_orchestration_se.Base.{
  ◌≡◌, refl, false, none, [], arith, if◌then◌else◌, str_eq, is_empty,
}
use booking_orchestration_se.Config.Load.{
  Parsers, Env, load, loaded, read, required, refusals, validate, hold, backstop, marker_default,
}
use booking_orchestration_se.Config.Laws.{IsModest, IsSafe, load-IsSafe}

abbrev parsers : Parsers
parsers = record { parse_duration = λ s. none; atoi = λ s. none; parse_bool = λ s. none }

abbrev env : Env
env key = if str_eq key "CALLBACK_TOKEN" then "secret" else ""

env_loads : (load parsers env).1 ≡ []
unfolding load loaded read required refusals validate hold backstop marker_default
env_loads = refl

env-IsModest : IsModest (load parsers env).0
unfolding load loaded read backstop marker_default
env-IsModest =
    (omega arith, omega arith, omega arith, omega arith, omega arith, omega arith, omega arith)

load-IsSafe_example :
    (is_empty (load parsers env).0.callback_token ≡ false) × IsSafe (load parsers env).0
load-IsSafe_example = load-IsSafe parsers env env_loads env-IsModest
