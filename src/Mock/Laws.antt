-- ===== src/Mock/Laws.antt =====
-- What the client makes of the mock's answers, and what comes of its late confirmation.

use Prim.Native.Char.{Char}
use booking_orchestration_se.Decimal.{decimal}
use Prim.Native.String.{char_at}
use Prim.Native.String.append
use booking_orchestration_se.Base.{
  ℕ, String, Bool, false, Option, some, ◌≡◌, refl, if◌then◌else◌, is_empty, Bool-cases, inl, inr,
  eq_iff,
}
use booking_orchestration_se.Supplier.Client.{Outcome, Result}
use booking_orchestration_se.Supplier.Http.{
  HttpDeps, BookPayload, BookResponse, classify, answer, unclassified,
}
use booking_orchestration_se.Mock.{reference, response, scenario, has_suffix, mock_book, to_upper}

-- A text with a character is not empty, so a reference never is.
is_empty-cons : (c : Char) (s : String) → is_empty (String.◌∷◌ c s) ≡ false
is_empty-cons c s = elim (Bool-cases (is_empty (String.◌∷◌ c s))) [
  | inl empty ↦
      let same : String.◌∷◌ c s ≡ String.[] = (eq_iff (String.◌∷◌ c s) "").0 empty in cc same
  | inr named ↦ named
]

reference_named :
    (hex_digest : String → String) (c : String) → is_empty (reference hex_digest c) ≡ false
unfolding reference
reference_named hex_digest c =
    rw (append.cons (char_at "M" 0) "OCK-" (to_upper (hex_digest c)))
      (is_empty-cons (char_at "M" 0) _)

module _ (deps : HttpDeps) where
  classify_declined :
      (raw : String)
      → deps.unmarshal raw ≡ response "REJECTED" "" "NO_AVAILABILITY" "no rooms for those dates"
      → classify deps 200 raw ≡ answer Outcome.rejected "" "NO_AVAILABILITY"
  unfolding classify
  classify_declined raw h = rw h refl

  classify_unclassified :
      (raw : String)
      → deps.unmarshal raw ≡ response "ERROR" "" "" "downstream channel manager unavailable"
      → classify deps 200 raw
        ≡ answer Outcome.ambiguous ""
            "unclassified answer (http 200): downstream channel manager unavailable"
  unfolding classify unclassified decimal
  classify_unclassified raw h = rw h refl

  classify_confirmation :
      (ref raw : String)
      → is_empty ref ≡ false
      → deps.unmarshal raw ≡ response "CONFIRMED" ref "" ""
      → classify deps 200 raw ≡ answer Outcome.confirmed ref ""
  unfolding classify
  classify_confirmation ref raw named h = rw (h, named) refl

  answered_with :
      (status : ℕ) (x r : BookResponse) (raw : String) (expected : Result)
      → ◌≡◌ {A = Option (ℕ × BookResponse)} (some (200, x)) (some (status, r))
      → deps.unmarshal raw ≡ r
      → (deps.unmarshal raw ≡ x → classify deps 200 raw ≡ expected)
      → classify deps status raw ≡ expected
  answered_with status x r raw expected h decoded classified =
      let same_status : 200 ≡ status = cc h in
      let same : x ≡ r = cc h in rw (← same_status) (classified (rw same decoded))

-- What the client is to be told, by the ending of the room type.
abbrev pub told : (String → String) → BookPayload → Result
told hex_digest req =
    if has_suffix req.room_type_id "-reject"
    then answer Outcome.rejected "" "NO_AVAILABILITY"
    else if has_suffix req.room_type_id "-unclassified"
    then answer Outcome.ambiguous ""
        "unclassified answer (http 200): downstream channel manager unavailable"
    else answer Outcome.confirmed (reference hex_digest req.client_reference) ""

-- An answer of the mock, decoded as it was written, is classified by the ending of the room type:
-- a decline, an ambiguity, or a confirmation under the booking's one reference; a held connection
-- that is answered at all is a confirmation.
pub classify-mock_book :
    (deps : HttpDeps) (hex_digest : String → String) (hold_ends : Bool) (req : BookPayload)
    (status : ℕ) (r : BookResponse) (raw : String)
    → (mock_book hex_digest hold_ends (some req)).answer ≡ some (status, r)
    → deps.unmarshal raw ≡ r
    → classify deps status raw ≡ told hex_digest req
unfolding classify mock_book scenario
classify-mock_book deps hex_digest hold_ends req status r raw h decoded =
    let ref = reference hex_digest req.client_reference in
    let named =
      classify_confirmation deps ref raw (reference_named hex_digest req.client_reference) in
    elim (Bool-cases (has_suffix req.room_type_id "-reject")) [
      | inl declines ↦ rw declines (
          answered_with deps status _ r raw _ (rw (declines) at h) decoded
            (classify_declined deps raw))
      | inr next ↦ elim (Bool-cases (has_suffix req.room_type_id "-unclassified")) [
        | inl unclear ↦
            rw (next, unclear)
              (answered_with deps status _ r raw _ (rw (next, unclear) at h) decoded
                (classify_unclassified deps raw))
        | inr last ↦ elim (Bool-cases (has_suffix req.room_type_id "-timeout")) [
          | inl slow ↦ elim (Bool-cases hold_ends) [
            | inl ends ↦
                rw (next, last)
                  (answered_with deps status _ r raw _ (rw (next, last, slow, ends) at h) decoded
                    named)
            | inr gone ↦ cc (rw (next, last, slow, gone) at h)
          ]
          | inr quick ↦
              rw (next, last)
                (answered_with deps status _ r raw _ (rw (next, last, quick) at h) decoded named)
        ]
      ]
    ]
