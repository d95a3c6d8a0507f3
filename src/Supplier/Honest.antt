-- ===== src/Supplier/Honest.antt =====
-- What an outcome of the HTTP client proves of the call behind it.
use Prim.Native.Nat.{◌^◌}
use Prim.Native.String.{◌++◌}
use booking_orchestration_se.Base.{
  ℕ, ◌<◌, String, true, false, List, ◌==◌, ◌≡◌, refl, ◌↔◌, ◌⊎◌, arith, is_empty, str_eq, ◌≤◌,
}
use booking_orchestration_se.Supplier.Client.{Outcome, BookRequest}
use booking_orchestration_se.Supplier.Wire.{
  WireEvent, no_trace, nothing_sent, observe_all, total_bytes, request_bytes,
  nothing_sent-observe_all, connections, reconnected, nothing_sent-last, request_bytes-last,
}
use booking_orchestration_se.Supplier.Http.{
  HttpDeps, Exchange, do_failed, read_failed, responded, built, decline_codes, classify, payload,
  exchanged, requested, marshalled, http_book, BookResponse,
}

-- A confirmation: the answer says so with a reference, under a status of success, and carries no
-- decline that is recognized.
abbrev pub IsConfirmation : ℕ → BookResponse → Type 0
IsConfirmation status parsed =
    (decline_codes parsed.decline_code ≡ false)
    × ((status ≡ 200) ⊎ (status ≡ 201))
    × (str_eq parsed.status "CONFIRMED" ≡ true)
    × (is_empty parsed.reference ≡ false)

classify-confirmed :
    (deps : HttpDeps) (status : ℕ) (raw : String)
    → ((classify deps status raw).outcome ≡ Outcome.confirmed)
      ↔ IsConfirmation status (deps.unmarshal raw)
unfolding classify
classify-confirmed deps status raw = ground arith

classify-rejected :
    (deps : HttpDeps) (status : ℕ) (raw : String)
    → ((classify deps status raw).outcome ≡ Outcome.rejected)
      ↔ (decline_codes (deps.unmarshal raw).decline_code ≡ true)
unfolding classify
classify-rejected deps status raw = ground arith

classify-answers :
    (deps : HttpDeps) (status : ℕ) (raw : String)
    → ((classify deps status raw).outcome ≡ Outcome.not_sent → ⊥)
unfolding classify
classify-answers deps status raw = ground arith

abbrev pub IsFailed : Exchange → Type 0
IsFailed (do_failed e) = Unit
IsFailed (read_failed e) = ⊥
IsFailed (responded status raw) = ⊥

abbrev pub IsConfirmed : HttpDeps → Exchange → Type 0
IsConfirmed deps (do_failed e) = ⊥
IsConfirmed deps (read_failed e) = ⊥
IsConfirmed deps (responded status raw) = IsConfirmation status (deps.unmarshal raw)

abbrev pub IsDeclined : HttpDeps → Exchange → Type 0
IsDeclined deps (do_failed e) = ⊥
IsDeclined deps (read_failed e) = ⊥
IsDeclined deps (responded status raw) = decline_codes (deps.unmarshal raw).decline_code ≡ true

-- What each outcome of a call proves, and is proved by.
abbrev pub Proves : HttpDeps → List WireEvent → Exchange → Outcome → Type 0
Proves deps es x o =
    ((o ≡ Outcome.not_sent) ↔ (IsFailed x × (request_bytes es ≡ 0)))
    × ((o ≡ Outcome.confirmed) ↔ IsConfirmed deps x)
    × ((o ≡ Outcome.rejected) ↔ IsDeclined deps x)

exchanged-Proves :
    (deps : HttpDeps) (es : List WireEvent) (x : Exchange)
    → connections es ≤ 1
    → total_bytes es < 2 ^ 63
    → Proves deps es x (exchanged deps (es, x)).outcome
unfolding exchanged
exchanged-Proves deps es (do_failed e) single small =
    let sent : nothing_sent (observe_all es no_trace) ≡ request_bytes es == 0 =
      nothing_sent-observe_all es no_trace single refl (omega arith) in
    ground (arith, sent)
exchanged-Proves deps es (read_failed e) single small = ground arith
exchanged-Proves deps es (responded status raw) single small = (
  ground (arith, classify-answers deps status raw),
  classify-confirmed deps status raw,
  classify-rejected deps status raw,
)

-- Where the request was built and the transport made at most one connection, as it does unless it
-- follows a redirect, and wrote fewer than 2^63 bytes, an outcome of `Book` is exact evidence:
-- NOT_SENT exactly where `Do` failed and no byte was written after the connection; CONFIRMED exactly
-- where a 200 or a 201 says CONFIRMED with a reference and no recognized decline; REJECTED exactly
-- where the answer carries a recognized decline code, whatever its HTTP status.
pub http_book-Proves :
    (deps : HttpDeps) (base_url body url : String) (before : List BookRequest) (req : BookRequest)
    (es : List WireEvent) (x : Exchange)
    → deps.marshal (payload deps req) ≡ built body
    → deps.new_request (base_url ++ "/bookings") body ≡ built url
    → deps.transport before url body ≡ (es, x)
    → connections es ≤ 1
    → total_bytes es < 2 ^ 63
    → Proves deps es x (http_book deps base_url before req).outcome
unfolding http_book marshalled requested
http_book-Proves deps base_url body url before req es x m b t single small =
    rw (m, b, t) (exchanged-Proves deps es x single small)

-- Where the request was built, and `Do` fails right after one more connection, before a byte goes
-- over it, as it can where a redirect is followed: the outcome is NOT_SENT whatever was written
-- before, and the bytes that were written after the first connection are as many as without the
-- further one.
pub http_book-redirected :
    (deps : HttpDeps) (base_url body url : String) (before : List BookRequest) (req : BookRequest)
    (es : List WireEvent) (e : String)
    → deps.marshal (payload deps req) ≡ built body
    → deps.new_request (base_url ++ "/bookings") body ≡ built url
    → deps.transport before url body ≡ (reconnected es, do_failed e)
    → ((http_book deps base_url before req).outcome ≡ Outcome.not_sent)
      × (request_bytes (reconnected es) ≡ request_bytes es)
unfolding http_book marshalled requested exchanged
http_book-redirected deps base_url body url before req es e m b t =
    (rw (m, b, t) (rw (nothing_sent-last es no_trace) refl), request_bytes-last es)
