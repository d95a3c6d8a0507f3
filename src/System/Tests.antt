-- ===== src/System/Tests.antt =====
-- The theorems about lives at concrete jobs, worlds and rows.
use booking_orchestration_se.System.History.{IsHistory, lives-IsHistory}
use booking_orchestration_se.World.Charge.{calls_for, attempts_of, taken}
use booking_orchestration_se.Base.{
  ◌≡◌, str_eq, true, refl, false, none, some, List, [], ◌∷◌, arith, All, ◌≤◌, ◌+◌,
}
use booking_orchestration_se.Model.Status.{unknown}
use booking_orchestration_se.Model.Booking.{Booking, CreateRequest}
use booking_orchestration_se.Store.Table.{find}
use booking_orchestration_se.Store.Statement.{Statement, exec}
use booking_orchestration_se.Store.Steps.{IsSound}
use booking_orchestration_se.Store.Lineage.{IsFaithful}
use booking_orchestration_se.Store.Faithful.{AllRows}
use booking_orchestration_se.Store.Later.{Persists}
use booking_orchestration_se.Supplier.Client.{Outcome, Client}
use booking_orchestration_se.World.{World, ◌>>=◌, pure, sql, Turn, answered, refused, lost}
use booking_orchestration_se.World.Refines.{IsFair}
use booking_orchestration_se.Orchestrator.{Orchestrator, new_execution, delivered}
use booking_orchestration_se.Service.Create.{Request, get}
use booking_orchestration_se.Service.Own.{get-own}
use booking_orchestration_se.Repository.{get_by_id}
use booking_orchestration_se.Service.Callback.{SupplierOutcome}
use booking_orchestration_se.Workflow.Activity.{Deps}
use booking_orchestration_se.Workflow.Run.{Config}
use booking_orchestration_se.System.{
  Job, create_booking, callback, workflow, serve_all, KeepsBudget,
}
use booking_orchestration_se.System.Doubt.{IsBudgeted}
use booking_orchestration_se.System.Budget.{Stands}
use booking_orchestration_se.System.Unique.{HasUniqueKeys}
use booking_orchestration_se.System.Lives.{
  start, lives-IsFaithful, lives-IsSound, lives-IsBudgeted, lives-HasUniqueKeys, lives-Persists,
  lives-Stands, lives-IsCharged,
}

abbrev temporal : Orchestrator
temporal = record {
  execute_workflow = λ starts id. new_execution;
  signal_workflow = λ signals id status. delivered;
}

abbrev pub request : Request
request = record {
  distributor = "distributor-001";
  request_id = none;
  supplier_id = "mock-supplier";
  orchestrator = temporal;
  new_id = some 7;
  fingerprint = λ req. req.room_type_id;
}

abbrev pub stay : CreateRequest
stay = record {
  distributor_id = "";
  idempotency_key = "partner-1";
  property_id = "hotel-001";
  room_type_id = "room-deluxe";
  check_in = 20706;
  check_out = 20708;
  guest_first_name = "Taro";
  guest_last_name = "Yamada";
}

-- A supplier that never answers.
abbrev silent : Client
silent calls r = record {
  outcome = Outcome.ambiguous;
  reference = "";
  reason = "deadline exceeded";
}

abbrev deps : Deps
deps = record { parse_uuid = λ s. some 7; client = silent; request_id = none }

abbrev pub config : Config
config = record {
  create_attempts = 2;
  retry_delays = 30 ∷ [];
  park_timeout = 86400;
  persist_tries = 3;
}

abbrev confirmation : SupplierOutcome
confirmation = record { reference = "MOCK-1"; status = "CONFIRMED"; decline_reason = "" }

abbrev jobs : List Job
jobs =
    create_booking request stay
    ∷ workflow config deps "0198f2c4-6d1a-7c3e-9f4b-2f6f0a1d9b10"
    ∷ callback request 7 confirmation
    ∷ []

jobs-KeepsBudget : All (KeepsBudget 2) jobs
jobs-KeepsBudget = (tt, (omega arith, (tt, tt)))

-- Another session takes an attempt of the booking and flags it, and time passes; one statement is
-- lost and one is refused.
abbrev turns : List Turn
turns =
    record { others = []; fate = answered }
    ∷ record {
      others = Statement.authorize 7 2 "OTHER" none ∷ Statement.flag 7 ∷ Statement.elapse 5 ∷ [];
      fate = lost;
    }
    ∷ record { others = []; fate = refused }
    ∷ []

turns-IsFair : IsFair 2 turns
turns-IsFair = (tt, ((omega arith, (tt, (tt, tt))), (tt, tt)))

lives-IsFaithful_example : IsFaithful (serve_all jobs (start turns)).db
lives-IsFaithful_example = lives-IsFaithful 2 jobs turns jobs-KeepsBudget turns-IsFair

lives-IsSound_example : AllRows IsSound (serve_all jobs (start turns)).db
lives-IsSound_example = lives-IsSound 2 jobs turns jobs-KeepsBudget turns-IsFair

lives-IsBudgeted_example : AllRows (IsBudgeted 2) (serve_all jobs (start turns)).db
lives-IsBudgeted_example = lives-IsBudgeted 2 jobs turns jobs-KeepsBudget turns-IsFair

lives-HasUniqueKeys_example : HasUniqueKeys (serve_all jobs (start turns)).db
lives-HasUniqueKeys_example = lives-HasUniqueKeys 2 jobs turns jobs-KeepsBudget turns-IsFair

-- A booking in doubt, with an attempt behind it.
abbrev pub doubtful : Booking
doubtful = record {
  id = 7;
  distributor_id = "distributor-001";
  idempotency_key = "partner-1";
  request_fingerprint = "room-deluxe";
  supplier_id = "mock-supplier";
  supplier_idempotency_key = some "0198F2C46D1A7C3E9F4B2F6F0A1D9B10";
  supplier_reference = none;
  property_id = "hotel-001";
  room_type_id = "room-deluxe";
  check_in = 20706;
  check_out = 20708;
  guest_first_name = "Taro";
  guest_last_name = "Yamada";
  status = unknown;
  failure_reason = none;
  needs_recovery = false;
  supplier_attempts = 1;
  in_flight_attempt = none;
  version = 2;
  created_at = 10;
  updated_at = 20;
}

abbrev pub in_doubt_world : World
in_doubt_world = record (start turns) {
  db = record { bookings = doubtful ∷ []; events = []; next_seq = 1; now = 100 };
}

lives-Persists_example : Persists 7 doubtful (serve_all jobs in_doubt_world).db
unfolding find
lives-Persists_example =
    lives-Persists 2 jobs in_doubt_world jobs-KeepsBudget turns-IsFair 7 doubtful refl

lives-Stands_example : Stands 2 7 (serve_all jobs in_doubt_world).db
unfolding find
lives-Stands_example =
    lives-Stands 2 jobs in_doubt_world jobs-KeepsBudget turns-IsFair 7 doubtful refl refl

get-own_example : str_eq doubtful.distributor_id request.distributor ≡ true
unfolding get get_by_id ◌>>=◌ pure sql find exec
get-own_example = get-own request 7 in_doubt_world doubtful refl

lives-IsCharged_example :
    (calls_for (λ s. some 7) 7 (serve_all jobs (start turns)).calls
        + taken 7 (serve_all jobs (start turns)).elsewhere
      ≤ attempts_of 7 (serve_all jobs (start turns)).db)
    × (attempts_of 7 (serve_all jobs (start turns)).db ≤ 2)
lives-IsCharged_example =
    lives-IsCharged 2 jobs turns jobs-KeepsBudget turns-IsFair (λ s. some 7) 7
      (tt, (refl, (tt, tt)))

lives-IsHistory_example : IsHistory 7 (serve_all jobs (start turns))
lives-IsHistory_example = lives-IsHistory 2 jobs turns jobs-KeepsBudget turns-IsFair 7
