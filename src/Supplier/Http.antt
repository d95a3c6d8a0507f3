-- ===== src/Supplier/Http.antt =====
-- The HTTP client of the supplier (internal/supplier/http.go). What is not under the repository's
-- root is an argument: the JSON codec, the building of a request and the transport, whose run is
-- the events at its socket and what `Do` and `ReadAll` then give. Latencies are left out.
use booking_orchestration_se.Base.{
  ℕ, String, Bool, ◌&&◌, ◌||◌, not, List, ◌==◌, if◌then◌else◌, is_empty, str_eq,
}
use Prim.Native.String.{◌++◌}
use booking_orchestration_se.Decimal.{decimal}
use booking_orchestration_se.Supplier.Client.{Outcome, BookRequest, Result, Client}
use booking_orchestration_se.Supplier.Wire.{WireEvent, no_trace, observe_all, nothing_sent}

-- `declineCodes`.
abbrev pub decline_codes : String → Bool
decline_codes s =
    str_eq s "NO_AVAILABILITY"
    || str_eq s "RATE_NOT_AVAILABLE"
    || str_eq s "PROPERTY_CLOSED"
    || str_eq s "GUEST_REJECTED"

pub record BookPayload : Type 0 where
  pub client_reference : String
  pub property_id : String
  pub room_type_id : String
  pub check_in : String
  pub check_out : String
  pub guest_first_name : String
  pub guest_last_name : String

pub record BookResponse : Type 0 where
  pub status : String
  pub reference : String
  pub decline_code : String
  pub message : String

-- What `Do` gives, and `ReadAll` of the body where there is one.
pub data Exchange : Type 0 where
  do_failed : String → Exchange
  read_failed : String → Exchange
  responded : ℕ → String → Exchange

pub data Built (A : Type 0) : Type 0 where
  built : A → Built A
  unbuilt : String → Built A

-- `format_date` is `Format(model.DateLayout)`; `unmarshal` gives what the decoder leaves in its
-- argument, also where it fails; `transport` is asked with the requests that were sent before.
pub record HttpDeps : Type 0 where
  pub format_date : ℕ → String
  pub marshal : BookPayload → Built String
  pub unmarshal : String → BookResponse
  pub new_request : String → String → Built String
  pub transport : List BookRequest → String → String → List WireEvent × Exchange

abbrev pub answer : Outcome → String → String → Result
answer o reference reason = record { outcome = o; reference = reference; reason = reason }

unfoldable pub unclassified : BookResponse → ℕ → String
unclassified parsed status =
    if is_empty parsed.message
    then "unclassified answer (http " ++ decimal status ++ ")"
    else ("unclassified answer (http " ++ decimal status ++ "): " ++ parsed.message)

unfoldable pub classify : HttpDeps → ℕ → String → Result
classify deps status raw =
    let parsed = deps.unmarshal raw in
    if decline_codes parsed.decline_code
    then answer Outcome.rejected "" parsed.decline_code
    else if status == 200 || status == 201
    then (if str_eq parsed.status "CONFIRMED" && not (is_empty parsed.reference)
        then answer Outcome.confirmed parsed.reference ""
        else answer Outcome.ambiguous "" (unclassified parsed status))
    else answer Outcome.ambiguous "" (unclassified parsed status)

abbrev pub payload : HttpDeps → BookRequest → BookPayload
payload deps req = record {
  client_reference = req.idempotency_key;
  property_id = req.property_id;
  room_type_id = req.room_type_id;
  check_in = deps.format_date req.check_in;
  check_out = deps.format_date req.check_out;
  guest_first_name = req.guest_first_name;
  guest_last_name = req.guest_last_name;
}

-- What follows `Do`.
unfoldable pub exchanged : HttpDeps → List WireEvent × Exchange → Result
exchanged deps (es, do_failed e) =
    if nothing_sent (observe_all es no_trace)
    then answer Outcome.not_sent "" e
    else answer Outcome.ambiguous "" e
exchanged deps (es, read_failed e) = answer Outcome.ambiguous "" e
exchanged deps (es, responded status raw) = classify deps status raw

unfoldable pub requested :
    HttpDeps → List BookRequest → BookRequest → String → Built String → Result
requested deps before req body (unbuilt e) =
    answer Outcome.pre_send_failure "" ("build request: " ++ e)
requested deps before req body (built url) = exchanged deps (deps.transport before url body)

unfoldable pub marshalled :
    HttpDeps → String → List BookRequest → BookRequest → Built String → Result
marshalled deps base_url before req (unbuilt e) =
    answer Outcome.pre_send_failure "" ("encode request: " ++ e)
marshalled deps base_url before req (built body) =
    requested deps before req body (deps.new_request (base_url ++ "/bookings") body)

-- `HTTPClient.Book` of a client for `base_url`.
unfoldable pub http_book : HttpDeps → String → Client
http_book deps base_url before req =
    marshalled deps base_url before req (deps.marshal (payload deps req))
