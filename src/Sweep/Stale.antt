-- ===== src/Sweep/Stale.antt =====
-- `StaleThresholds` (internal/repository/repositories.go) and `FindStale`
-- (internal/repository/booking/repository.go). A threshold is a duration in nanoseconds, a word of
-- 64 bits; the query counts it in whole milliseconds, and the tables count microseconds.
use Prim.Native.Nat.{◌/◌}
use booking_orchestration_se.Base.{
  ℕ, zero, suc, ◌+◌, ◌*◌, Bool, not, ◌&&◌, ◌||◌, Option, none, some, List, [], ◌∷◌, is_some,
  is_none, ltb, leb, if◌then◌else◌,
}
use booking_orchestration_se.Config.Word.{less}
use booking_orchestration_se.Model.Status.{received, unknown, status_eq, is_open}
use booking_orchestration_se.Model.Booking.{Booking, invalid_config, database}
use booking_orchestration_se.Store.Statement.{select}
use booking_orchestration_se.World.{M, ◌>>=◌, pure, sql, Reply, ok, err}

pub record StaleThresholds : Type 0 where
  pub marker : ℕ
  pub received_age : ℕ
  pub idle : ℕ

-- `Validate`.
unfoldable pub is_valid_threshold : StaleThresholds → Bool
is_valid_threshold t = less 0 t.marker && less 0 t.received_age && less 0 t.idle

-- `Milliseconds` of a duration that is not negative.
abbrev pub milliseconds : ℕ → ℕ
milliseconds d = d / 1000000

-- `updated_at < now() - d`, as microseconds.
abbrev pub is_older : ℕ → ℕ → Booking → Bool
is_older now d b = ltb (b.updated_at + milliseconds d * 1000) now

-- A row that is outcome recovery's.
abbrev pub is_parked : Booking → Bool
is_parked b = b.needs_recovery && status_eq b.status unknown && is_none b.in_flight_attempt

-- The WHERE of the query.
unfoldable pub is_stale : ℕ → StaleThresholds → Booking → Bool
is_stale now t b =
    is_open b.status
    && not (is_parked b)
    && ((is_some b.in_flight_attempt && is_older now t.marker b)
        || (status_eq b.status received && is_older now t.received_age b)
        || (not (status_eq b.status received)
            && is_none b.in_flight_attempt
            && is_older now t.idle b))

-- ORDER BY updated_at: a row goes before those that are no older.
unfoldable pub put_by_age : Booking → List Booking → List Booking
put_by_age b [] = b ∷ []
put_by_age b (c ∷ cs) =
    let rest = put_by_age b cs in if leb b.updated_at c.updated_at then b ∷ c ∷ cs else c ∷ rest

unfoldable pub stale_rows : ℕ → StaleThresholds → List Booking → List Booking
stale_rows now t [] = []
stale_rows now t (b ∷ bs) =
    let rest = stale_rows now t bs in if is_stale now t b then put_by_age b rest else rest

-- LIMIT.
abbrev pub take : {A : Type 0} → ℕ → List A → List A
take zero xs = []
take (suc n) [] = []
take (suc n) (x ∷ xs) = x ∷ take n xs

abbrev pub ids : List Booking → List ℕ
ids [] = []
ids (b ∷ bs) = b.id ∷ ids bs

abbrev pub listed : Option (List Booking) → Reply (List ℕ)
listed none = err database
listed (some bs) = ok (ids bs)

-- `FindStale`.
unfoldable pub find_stale : StaleThresholds → ℕ → M (Reply (List ℕ))
find_stale t limit =
    if is_valid_threshold t
    then (sql select (λ db. take limit (stale_rows db.now t db.bookings)) >>= λ r. pure (listed r))
    else pure (err invalid_config)
