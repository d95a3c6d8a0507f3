-- ===== src/Repository/Lineage.antt =====
-- Reading a booking's lineage (`Events` of internal/repository/booking/repository.go).
use booking_orchestration_se.Base.{ℕ, List, [], ◌∷◌, ◌==◌, ltb, if◌then◌else◌}
use booking_orchestration_se.Model.Booking.{Event}
use booking_orchestration_se.Store.Statement.{select}
use booking_orchestration_se.World.{M, ◌>>=◌, pure, sql, Reply}
use booking_orchestration_se.Repository.{or_database}

-- `ORDER BY seq`.
unfoldable pub put_by_seq : Event → List Event → List Event
put_by_seq e [] = e ∷ []
put_by_seq e (f ∷ fs) =
    let rest = put_by_seq e fs in if ltb f.seq e.seq then f ∷ rest else e ∷ f ∷ fs

-- The rows of the query.
unfoldable pub lineage : ℕ → List Event → List Event
lineage id [] = []
lineage id (e ∷ es) =
    let rest = lineage id es in if e.booking_id == id then put_by_seq e rest else rest

-- `Repo.Events`: every error is one of the driver's.
unfoldable pub events : ℕ → M (Reply (List Event))
events id = do r ← sql select (λ db. lineage id db.events); pure (or_database r)
