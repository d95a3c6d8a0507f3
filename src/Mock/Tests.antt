-- ===== src/Mock/Tests.antt =====
-- The mock at one booking of each kind.
use booking_orchestration_se.Base.{◌≡◌, refl, true, false, none, some, [], ◌∷◌}
use booking_orchestration_se.Model.Status.{confirmed}
use booking_orchestration_se.Model.Booking.{Booking}
use booking_orchestration_se.Supplier.Http.{
  HttpDeps, BookPayload, BookResponse, classify, built, responded,
}
use booking_orchestration_se.Quiet.Write.{Rest}
use booking_orchestration_se.Quiet.Whole.{Rewrites}
use booking_orchestration_se.Quiet.Tests.{waiting, rest, db, waiting-At}
use booking_orchestration_se.System.Tests.{request}
use booking_orchestration_se.Mock.{
  mock_book, scenario, has_suffix, reference, to_upper, confirm_late,
}
use booking_orchestration_se.Mock.Laws.{told, classify-mock_book}
use booking_orchestration_se.Mock.Late.{endpoint, answers, confirm_late-IsOnce}

abbrev payload : BookPayload
payload = record {
  client_reference = "0198F2C4";
  property_id = "hotel-001";
  room_type_id = "room-deluxe-reject";
  check_in = "2026-09-10";
  check_out = "2026-09-12";
  guest_first_name = "Taro";
  guest_last_name = "Yamada";
}

abbrev declined : BookResponse
declined = record {
  status = "REJECTED";
  reference = "";
  decline_code = "NO_AVAILABILITY";
  message = "no rooms for those dates";
}

-- A codec that reads one answer.
abbrev deps : HttpDeps
deps = record {
  format_date = λ d. "2026-09-10";
  marshal = λ p. built "{}";
  unmarshal = λ raw. declined;
  new_request = λ url body. built url;
  transport = λ before url body. ([], responded 200 "{}");
}

reference_text : reference (λ s. "ab12cd34ef") "0198F2C4" ≡ "MOCK-AB12CD34EF"
unfolding reference to_upper
reference_text = refl

classify-mock_book_example : classify deps 200 "{}" ≡ told (λ s. "ab12cd34ef") payload
unfolding mock_book scenario has_suffix
classify-mock_book_example =
    classify-mock_book deps (λ s. "ab12cd34ef") true payload 200 declined "{}" refl refl

confirm_late-IsOnce_example :
    (r' : Rest) × (b' : Booking) × Rewrites rest db waiting
      (confirm_late (endpoint request (λ s. some 7) "secret") "0198F2C4" "MOCK-1")
      answers
      r'
      b'
    × (b'.status ≡ confirmed)
    × (b'.supplier_reference ≡ some "MOCK-1")
    × (b'.needs_recovery ≡ false)
    × (b'.in_flight_attempt ≡ none)
    × (r'.signals ≡ (7, "CONFIRMED") ∷ [])
    × (r'.calls ≡ [])
confirm_late-IsOnce_example =
    confirm_late-IsOnce request (λ s. some 7) "secret" "0198F2C4" "MOCK-1" rest db waiting
      waiting-At.found refl refl refl refl
