-- ===== src/Lib.antt =====
-- The booking orchestration service, modelled and proved.
--
-- The service sits between travel distributors and hotel suppliers. A distributor creates a booking
-- (internal/service), a durable workflow sends it to the supplier (internal/workflow), the supplier
-- may also report by callback, and a sweep restarts what has gone quiet. PostgreSQL holds the truth
-- of a booking: every change of a row is one guarded statement that also writes the row's lineage
-- (internal/repository/booking). An outcome is ambiguous unless the supplier provably never received
-- the request.
--
-- The parts:
--   Base, Decimal            shared names, Boolean tests and `%d`
--   Model                    internal/model: statuses and their edges, bookings, events; the errors
--                            of internal/constant; Model/Fingerprint is fingerprint.go, the digest of
--                            what a creation asks for
--   Contract                 internal/repository/repositories.go: marker rules, transitions, refusals
--   Store                    the two tables (migrations/0001_bookings.sql) and the statements of
--                            internal/repository/booking: Table, Rows (one locked statement on one
--                            row), Statement (`exec`, all of them), and what each keeps: Steps,
--                            Effect, Lineage, Faithful, Sound, Later, Ordered
--   World                    one process: the tables, and a schedule that says before each of its
--                            statements what other sessions commit, and whether the statement is
--                            answered, refused, or committed with its answer lost; it keeps what
--                            the other sessions committed for the count of attempts. `M` is state
--                            passing over a world; Reach and Refines say that a computation only
--                            ever issues statements of the contract, and Charge counts the
--                            calls of the supplier, and the attempts that other sessions took,
--                            against the attempts of a row
--   Repository               the methods of the repository (`GetByID` is `get_by_id`, `Apply` is
--                            `apply_transition`, `Authorize` is `authorize_attempt`, ...); Lineage is
--                            `Events`, and Replay folds its rows back into the booking
--   Supplier                 internal/supplier: the contract (Client), the HTTP client and the count
--                            of bytes at its socket (Http, Wire), and the evidence of its outcomes (Honest)
--   Workflow                 internal/workflow: the activities (Activity, Attempt, Apply, Park) and
--                            the workflow with its retries (Run)
--   Orchestrator             internal/orchestrator over the Temporal client
--   Service                  internal/service/booking: create, get and the callback
--   Handler                  internal/delivery/rest/handler: creation, reading and the callback
--   Sweep                    internal/sweep (Pass, Run), and `FindStale` of the repository
--   System                   the jobs of the processes over one database, and the invariants of
--                            their lives (Lives, History)
--   Quiet                    the workflow where no other session moves, against a walk over the
--                            supplier's answers (Spec), the creation against a register of keys
--                            (Register, Create, History), and the callback against a table of verdicts
--                            (Verdict), with its redelivery and its overtaking
--   Auth                     internal/auth (Key, Issue), internal/repository/apikey and the middleware
--   Config                   config: defaults, derived values and validation
--   Server                   internal/delivery/rest: the request id and the values of a context
--                            (Context), rendering (Response), the routes with their guards and the
--                            probes (Engine)
--   Logging                  internal/observability/slog.go over a handler of package slog
--   Mock                     internal/supplier/mock.go: the scenarios, and the late confirmation
--   Process                  cmd/serve.go and internal/app: what the process starts, joins and closes,
--                            in order, and the loop of the worker
--
-- Parts interact as in the source: the service and the activities call the methods of Repository,
-- which issue the statements of Store in a World; the workflow calls the activities.
--
-- Numbers are natural numbers; times are in nanoseconds, except that the tables count
-- microseconds, and dates are in days. The byte counter and the durations of the configuration are words
-- of 64 bits whose arithmetic wraps around. Version and attempt counters do not wrap in the model.
-- An identifier is a number, of which `uuid.Parse` gives one for a text. The workflow's loop runs on
-- CREATE_ATTEMPTS, as in the source. Retries of an activity without a bound on their number (bounded
-- by a window in the source) are bounded by `persist_tries`, which the theorems leave open. Fuel
-- stands in `decimal` only, where a number is more than its digits.
--
-- Arguments of the model: Temporal's answers, `uuid.Parse` and the making of ids, SHA-256 and the
-- text of a day, the supplier, the transport and codecs of HTTP, gin, the handlers of package slog,
-- the connections and signals of the process, Argon2id, base64 and `Sscanf`, the parsers of numbers
-- and durations, and the clock. A statement is atomic, as one SQL statement with its row lock is.
--
-- Not modelled: panics, and with them the recovery handler; the messages of errors, log calls and
-- the logger given to Temporal, which decide nothing; the running of migrations, which is input and
-- output; the generated documentation and mocks; latencies, which nothing reads; cancellation of a
-- workflow.
pub mod Base
pub mod Decimal
pub mod Model
pub mod Contract
pub mod Store
pub mod World
pub mod Repository
pub mod Supplier
pub mod Workflow
pub mod Orchestrator
pub mod Service
pub mod Handler
pub mod Sweep
pub mod System
pub mod Quiet
pub mod Auth
pub mod Config
pub mod Server
pub mod Logging
pub mod Mock
pub mod Process
