-- ===== src/Config/Laws.antt =====
-- What a configuration that loads without an error guarantees.
use Prim.Native.Nat.{◌^◌}
use booking_orchestration_se.Base.{
  ℕ, ◌+◌, ◌*◌, ◌<◌, ◌≤◌, ◌≡◌, refl, Bool, true, false, not, List, [], ◌∷◌, ◌++◌, arith, ltb, sym,
  is_empty, All,
}
use booking_orchestration_se.Config.Word.{less, plus_small, times_small, less_small}
use booking_orchestration_se.Config.Load.{
  Parsers, Env, required, loaded, load, all_errors, AppConfig, ConfigError, refusals, tests, hold,
  validate,
}

none_failed : (ts : List (Bool × ConfigError)) → refusals ts ≡ [] → All (λ t. t.0 ≡ false) ts
unfolding refusals
none_failed [] h = tt
none_failed ((true, e) ∷ ts) h = ground arith
none_failed ((false, e) ∷ ts) h = (refl, none_failed ts h)

split_left : {A : Type 0} (xs ys : List A) → xs ++ ys ≡ [] → xs ≡ []
split_left [] ys h = refl
split_left (x ∷ xs) ys h = ground arith

split_right : {A : Type 0} (xs ys : List A) → xs ++ ys ≡ [] → ys ≡ []
split_right [] ys h = h
split_right (x ∷ xs) ys h = ground arith

no_errors : (ess : List (List ConfigError)) → all_errors ess ≡ [] → All (λ es. es ≡ []) ess
no_errors [] h = tt
no_errors (es ∷ ess) h =
    (split_left es (all_errors ess) h, no_errors ess (split_right es (all_errors ess) h))

-- Durations of less than 2^58 nanoseconds, which are nine years.
abbrev pub IsModest : AppConfig → Type 0
IsModest c =
    (c.supplier_deadline < 2 ^ 58)
    × (c.activity_start_to_close < 2 ^ 58)
    × (c.persist_window < 2 ^ 58)
    × (c.sweep_interval < 2 ^ 58)
    × (c.sweep_marker_threshold < 2 ^ 62)
    × (c.shutdown_timeout < 2 ^ 62)
    × (c.create_attempts < 2 ^ 63)

-- What the timers of a process that starts must respect.
abbrev pub IsSafe : AppConfig → Type 0
IsSafe c =
    (1 ≤ c.create_attempts)
    × (0 < c.sweep_interval)
    × (c.supplier_deadline < c.shutdown_timeout)
    × (c.activity_start_to_close < c.persist_window)
    × (c.activity_start_to_close + c.persist_window + 5 * c.sweep_interval
        < c.sweep_marker_threshold)

hold_modest :
    (c : AppConfig)
    → IsModest c
    → hold c ≡ c.activity_start_to_close + c.persist_window + 5 * c.sweep_interval
unfolding hold
hold_modest c m =
    rw
      (
        times_small 5 c.sweep_interval (omega arith),
        plus_small c.activity_start_to_close c.persist_window (omega arith),
        plus_small (c.activity_start_to_close + c.persist_window) (5 * c.sweep_interval)
            (omega arith),
      )
      refl

less_true : (a b : ℕ) → a < 2 ^ 63 → b < 2 ^ 63 → not (less a b) ≡ false → a < b
less_true a b ha hb h = let said : less a b ≡ ltb a b = less_small a b ha hb in ground (arith, said)

validate-IsSafe : (c : AppConfig) → IsModest c → validate c ≡ [] → IsSafe c
unfolding validate
validate-IsSafe c m h =
    let passed = none_failed (tests c) h in
    let last = passed.1.1.1.1.1.1.1.1.1.1 in
    (
      ground (arith, last.0, m),
      less_true 0 c.sweep_interval (omega arith) (omega arith) passed.1.1.1.0,
      less_true c.supplier_deadline c.shutdown_timeout (omega arith) (omega arith) last.1.0,
      less_true c.activity_start_to_close c.persist_window (omega arith) (omega arith) last.1.1.0,
      rw (sym (hold_modest c m)) (
          less_true (hold c) c.sweep_marker_threshold (rw (hold_modest c m) (omega arith))
            (omega arith) last.1.1.1.0),
    )

module _ (parsers : Parsers) (env : Env) where
  secret_set :
      all_errors (loaded parsers env).1 ≡ []
      → is_empty (loaded parsers env).0.callback_token ≡ false
  unfolding loaded required
  secret_set h = let token = (no_errors (loaded parsers env).1 h).1.1.0 in ground (arith, token)

  -- Where `Load` gives no error, and the durations that it adds up are below 2^58 nanoseconds (nine
  -- years) and those that it compares below 2^62: the callback's secret is set, the budget is at
  -- least one attempt, the sweep ticks, a shutdown outlasts the supplier's deadline, the persist
  -- window outlasts one attempt, and the marker threshold outlasts both together with five ticks.
  pub load-IsSafe :
      (load parsers env).1 ≡ []
      → IsModest (load parsers env).0
      → (is_empty (load parsers env).0.callback_token ≡ false) × IsSafe (load parsers env).0
  unfolding load
  load-IsSafe h m = (
    secret_set (split_left (all_errors (loaded parsers env).1) _ h),
    validate-IsSafe (loaded parsers env).0 m (split_right (all_errors (loaded parsers env).1) _ h),
  )
