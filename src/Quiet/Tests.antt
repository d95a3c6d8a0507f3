-- ===== src/Quiet/Tests.antt =====
-- The workflow and callbacks at a booking in doubt, with a supplier that answers at its second call.
use booking_orchestration_se.Quiet.Whole.{Rewrites}
use booking_orchestration_se.Quiet.Superseded.{overtaken, overtaken-Stands}
use booking_orchestration_se.Quiet.Redelivery.{
  delivered_twice, redelivery-IsDuplicate, declined_redelivery-IsConflict,
}
use booking_orchestration_se.Quiet.Verdict.{verdict, written, Decides, Shows}
use booking_orchestration_se.Quiet.Callback.{apply_callback-Decides}
use booking_orchestration_se.Service.Callback.{
  SupplierOutcome, applicable_status, applied_to, duplicate_of, apply_callback,
}
use booking_orchestration_se.Base.{◌≡◌, refl, true, none, some, String, List, [], ◌∷◌, arith}
use booking_orchestration_se.Model.Status.{pending, confirmed, unknown, rejected, status_text}
use booking_orchestration_se.Model.Booking.{Booking, callback_conflict}
use booking_orchestration_se.Supplier.Client.{Outcome, BookRequest, Result, idempotency_key}
use booking_orchestration_se.Store.Table.{Db, find}
use booking_orchestration_se.Store.Statement.{key_taken}
use booking_orchestration_se.World.{ok, err}
use booking_orchestration_se.Workflow.Activity.{Deps, Answer, AttemptResult}
use booking_orchestration_se.Workflow.Attempt.{request_of}
use booking_orchestration_se.Workflow.Run.{booking_workflow}
use booking_orchestration_se.Quiet.Spec.{is_supplied, walk}
use booking_orchestration_se.Quiet.Sql.{At}
use booking_orchestration_se.Quiet.Write.{Rest, over}
use booking_orchestration_se.Quiet.Park.{Finishes}
use booking_orchestration_se.Quiet.Ends.{is_at_rest}
use booking_orchestration_se.Quiet.Workflow.{booking_workflow-Finishes, booking_workflow-IsAtRest}
use booking_orchestration_se.System.Tests.{config, doubtful, request}

-- A supplier that is silent at first and then confirms.
abbrev late : List BookRequest → BookRequest → Result
late [] r = record { outcome = Outcome.ambiguous; reference = ""; reason = "deadline exceeded" }
late (c ∷ calls) r = record { outcome = Outcome.confirmed; reference = "MOCK-1"; reason = "" }

late_supplied :
    (calls : List BookRequest) (r : BookRequest) → is_supplied (late calls r).outcome ≡ true
late_supplied [] r = refl
late_supplied (c ∷ calls) r = refl

abbrev deps : Deps
deps = record { parse_uuid = λ s. some 7; client = late; request_id = none }

abbrev text : String
text = "0198f2c4-6d1a-7c3e-9f4b-2f6f0a1d9b10"

abbrev pub waiting : Booking
waiting = record doubtful {
  status = pending;
  supplier_attempts = 0;
  supplier_idempotency_key = none;
}

abbrev pub rest : Rest
rest = record { calls = []; starts = []; signals = []; waits = [] }

abbrev pub db : Db
db = record { bookings = waiting ∷ []; events = []; next_seq = 1; now = 100 }

pub waiting-At : At db 7 (idempotency_key text) waiting
unfolding find key_taken
waiting-At = record { found = refl; named = refl; free = refl }

-- Two attempts: the second confirms.
walk_two : walk late (request_of text waiting) 2 [] pending ≡ confirmed
unfolding walk
walk_two = refl

-- One attempt that was ambiguous leaves the booking in doubt.
walk_one : walk late (request_of text waiting) 1 [] pending ≡ unknown
unfolding walk
walk_one = refl

booking_workflow-Finishes_example :
    Finishes rest 7
      (idempotency_key text)
      (booking_workflow config deps text)
      db
      (walk late (request_of text waiting) 2 [] pending)
booking_workflow-Finishes_example =
    booking_workflow-Finishes config deps text 7 rest db waiting 2 refl late_supplied waiting-At
      refl refl refl

booking_workflow-IsAtRest_example :
    (r' : Rest) × (b' : Booking) × (db' : Db) × (booking_workflow config deps text (over rest db)
      ≡ (ok tt, over r' db'))
    × (find 7 db'.bookings ≡ some b')
    × (is_at_rest b'.status ≡ true)
    × (b'.in_flight_attempt ≡ none)
booking_workflow-IsAtRest_example =
    booking_workflow-IsAtRest config deps text 7 rest db waiting 2 refl late_supplied waiting-At
      refl refl refl (omega arith)

abbrev confirmation : SupplierOutcome
confirmation = record { reference = "MOCK-1"; status = "CONFIRMED"; decline_reason = "" }

abbrev declination : SupplierOutcome
declination = record {
  reference = "MOCK-1";
  status = "REJECTED";
  decline_reason = "NO_AVAILABILITY";
}

-- A confirmation is applied, and one without a reference is applied and flagged.
verdict_confirmed : (verdict waiting confirmation).answer ≡ ok (applied_to confirmed)
unfolding verdict applicable_status
verdict_confirmed = refl

verdict_bare : (verdict waiting (record confirmation { reference = "" })).flagged ≡ true
unfolding verdict applicable_status
verdict_bare = refl

apply_callback-Decides_example :
    Decides rest db waiting (apply_callback request 7 confirmation) (verdict waiting confirmation)
apply_callback-Decides_example =
    apply_callback-Decides request confirmation rest db waiting waiting-At.found refl

redelivery-IsDuplicate_example :
    Decides rest db waiting
      (delivered_twice request request 7 confirmation)
      (record (written waiting confirmed confirmation) { answer = ok (duplicate_of confirmed) })
unfolding applicable_status
redelivery-IsDuplicate_example =
    redelivery-IsDuplicate request request confirmation rest db waiting waiting-At.found confirmed
      refl refl refl refl

declined_redelivery-IsConflict_example :
    Decides rest db waiting
      (delivered_twice request request 7 declination)
      (record (written waiting rejected declination) {
        answer = err callback_conflict;
        flagged = true;
      })
unfolding applicable_status
declined_redelivery-IsConflict_example =
    declined_redelivery-IsConflict request request declination rest db waiting waiting-At.found
      rejected refl refl refl refl refl

-- The answer of the first attempt, after a callback.
abbrev stale : Answer
stale = record {
  outcome = Outcome.ambiguous;
  reference = "";
  reason = "deadline exceeded";
  attempt = 1;
  from = pending;
}

overtaken-Stands_example :
    (x : AttemptResult) × (r' : Rest) × (b' : Booking) × Rewrites rest db waiting
      (overtaken request deps 7 confirmation text stale)
      (ok x)
      r'
      b'
    × Shows (written waiting confirmed confirmation) b'
    × (r'.signals ≡ (7, "CONFIRMED") ∷ [])
    × (r'.calls ≡ [])
unfolding applicable_status status_text
overtaken-Stands_example =
    overtaken-Stands request deps confirmation stale text rest db waiting waiting-At.found confirmed
      refl refl refl refl
