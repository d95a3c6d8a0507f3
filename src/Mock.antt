-- ===== src/Mock.antt =====
-- The supplier that the service brings along for demonstrations (internal/supplier/mock.go). The
-- digest of a text, the binding of a body, the clock and the delivery of a callback are arguments.
pub mod Laws
pub mod Late
pub mod Tests
use Prim.Native.String.{◌++◌}
use booking_orchestration_se.Base.{
  ℕ, zero, suc, String, Bool, Option, none, some, List, [], ◌∷◌, ◌||◌, if◌then◌else◌, str_eq,
}
use booking_orchestration_se.World.{M, ◌>>=◌, pure}
use booking_orchestration_se.Supplier.Client.{upper}
use booking_orchestration_se.Supplier.Http.{BookPayload, BookResponse}
use booking_orchestration_se.Handler.Callback.{CallbackRequest}

-- `strings.HasSuffix`.
unfoldable pub has_suffix : String → String → Bool
has_suffix String.[] suffix = str_eq "" suffix
has_suffix (String.◌∷◌ c s) suffix =
    let rest = has_suffix s suffix in str_eq (String.◌∷◌ c s) suffix || rest

-- `strings.ToUpper` of a text in ASCII.
unfoldable pub to_upper : String → String
to_upper String.[] = String.[]
to_upper (String.◌∷◌ c s) = String.◌∷◌ (upper c) (to_upper s)

-- `reference`, over the hexadecimal text of the digest's first five bytes.
unfoldable pub reference : (String → String) → String → String
reference hex_digest client_reference = "MOCK-" ++ to_upper (hex_digest client_reference)

-- What a request comes to: the answer, none where the caller was gone before it, and the booking
-- and the reference of a late confirmation that was started.
pub record Booked : Type 0 where
  pub answer : Option (ℕ × BookResponse)
  pub late : Option (String × String)

abbrev pub response : String → String → String → String → BookResponse
response status ref decline_code message = record {
  status = status;
  reference = ref;
  decline_code = decline_code;
  message = message;
}

abbrev pub at_once : ℕ → BookResponse → Booked
at_once status r = record { answer = some (status, r); late = none }

-- The held connection: `hold_ends` says that the hold is over before the caller gives up.
abbrev pub held : Bool → String → String → Booked
held hold_ends client_reference ref = record {
  answer = if hold_ends then some (200, response "CONFIRMED" ref "" "") else none;
  late = some (client_reference, ref);
}

unfoldable pub scenario : (String → String) → Bool → BookPayload → Booked
scenario hex_digest hold_ends req =
    let ref = reference hex_digest req.client_reference in
    if has_suffix req.room_type_id "-reject"
    then at_once 200 (response "REJECTED" "" "NO_AVAILABILITY" "no rooms for those dates")
    else if has_suffix req.room_type_id "-unclassified"
    then at_once 200 (response "ERROR" "" "" "downstream channel manager unavailable")
    else if has_suffix req.room_type_id "-timeout"
    then held hold_ends req.client_reference ref
    else at_once 200 (response "CONFIRMED" ref "" "")

-- `Mock.book`, with the bound body or none where the binding failed.
unfoldable pub mock_book : (String → String) → Bool → Option BookPayload → Booked
mock_book hex_digest hold_ends none = at_once 400 (response "ERROR" "" "" "malformed request")
mock_book hex_digest hold_ends (some req) = scenario hex_digest hold_ends req

-- The body that `postCallback` sends.
unfoldable pub callback_of : String → String → CallbackRequest
callback_of booking_id ref = record {
  booking_id = booking_id;
  outcome = record { reference = ref; status = "CONFIRMED"; decline_reason = "" };
}

module _ {A : Type 0} (post : CallbackRequest → M A) where
  -- The loop of `confirmLate`, with what each delivery was answered.
  unfoldable pub deliveries : ℕ → String → String → M (List A)
  deliveries zero booking_id ref = pure []
  deliveries (suc left) booking_id ref = do
    answer ← post (callback_of booking_id ref)
    answers ← deliveries left booking_id ref
    pure (answer ∷ answers)

  unfoldable pub confirm_late : String → String → M (List A)
  confirm_late booking_id ref = deliveries 2 booking_id ref
