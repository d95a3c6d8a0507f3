-- ===== src/Supplier/Tests.antt =====
-- The HTTP client at one confirmation and one connection that broke before the request left.
use Prim.Native.String.{◌++◌}
use booking_orchestration_se.Base.{◌≡◌, refl, [], ◌∷◌, arith}
use booking_orchestration_se.Supplier.Client.{Outcome, BookRequest}
use booking_orchestration_se.Supplier.Wire.{
  wrote, got_conn, observe_all, observe, nothing_sent, request_bytes,
}
use booking_orchestration_se.Supplier.Http.{
  HttpDeps, BookResponse, do_failed, responded, built, http_book, marshalled, requested, exchanged,
}
use booking_orchestration_se.Supplier.Honest.{Proves, http_book-Proves, http_book-redirected}

abbrev request : BookRequest
request = record {
  booking_id = "7";
  idempotency_key = "7";
  property_id = "hotel-001";
  room_type_id = "room-deluxe";
  check_in = 20706;
  check_out = 20708;
  guest_first_name = "Taro";
  guest_last_name = "Yamada";
}

abbrev confirmation : BookResponse
confirmation = record {
  status = "CONFIRMED";
  reference = "MOCK-1";
  decline_code = "";
  message = "";
}

-- The handshake writes 300 bytes and the request 200.
abbrev deps : HttpDeps
deps = record {
  format_date = λ d. "2026-09-10";
  marshal = λ p. built "{}";
  unmarshal = λ raw. confirmation;
  new_request = λ url body. built url;
  transport = λ before url body. (wrote 300 ∷ got_conn ∷ wrote 200 ∷ [], responded 201 "{}");
}

-- The handshake of this one fails.
abbrev broken : HttpDeps
broken = record deps {
  transport = λ before url body. (wrote 300 ∷ [], do_failed "handshake failure");
}

broken_not_sent : (http_book broken "http://supplier" [] request).outcome ≡ Outcome.not_sent
unfolding http_book marshalled requested exchanged nothing_sent observe_all observe
broken_not_sent = refl

http_book-Proves_example :
    Proves deps
      (wrote 300 ∷ got_conn ∷ wrote 200 ∷ [])
      (responded 201 "{}")
      (http_book deps "http://supplier" [] request).outcome
http_book-Proves_example =
    http_book-Proves deps "http://supplier" "{}" ("http://supplier" ++ "/bookings") [] request
      (wrote 300 ∷ got_conn ∷ wrote 200 ∷ []) (responded 201 "{}") refl refl refl (omega arith)
      (omega arith)

-- The request of 200 bytes is answered by a redirect, and the second connection breaks.
abbrev redirected : HttpDeps
redirected = record deps {
  transport = λ before url body.
      (wrote 300 ∷ got_conn ∷ wrote 200 ∷ wrote 300 ∷ got_conn ∷ [], do_failed "broken pipe");
}

http_book-redirected_example :
    ((http_book redirected "http://supplier" [] request).outcome ≡ Outcome.not_sent)
    × (request_bytes (wrote 300 ∷ got_conn ∷ wrote 200 ∷ wrote 300 ∷ got_conn ∷ []) ≡ 500)
http_book-redirected_example =
    http_book-redirected redirected "http://supplier" "{}" ("http://supplier" ++ "/bookings") []
      request (wrote 300 ∷ got_conn ∷ wrote 200 ∷ wrote 300 ∷ []) "broken pipe" refl refl refl
