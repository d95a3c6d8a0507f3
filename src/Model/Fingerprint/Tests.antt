-- ===== src/Model/Fingerprint/Tests.antt =====
-- Fingerprints of one stay, with a digest that is the text itself and days as tallies.
use Prim.Native.Char.{Char}
use Prim.Native.String.{char_at}
use booking_orchestration_se.Base.{ℕ, zero, suc, String, ◌≡◌, ◌↔◌, refl, false, ap}
use booking_orchestration_se.Model.Booking.{CreateRequest}
use booking_orchestration_se.Model.Fingerprint.{
  trim_space, trim_left, trim_right, is_space, canonical, fingerprint, fields, sorted, put_by_name,
  written,
}
use booking_orchestration_se.Model.Fingerprint.Laws.{
  has_newline, IsDayFormat, IsOneLined, IsSameStay, guest, fingerprint-IsSameStay,
  fingerprint-guest,
}

abbrev stroke : Char
stroke = char_at "I" 0

unfoldable tally : ℕ → String
tally zero = ""
tally (suc n) = String.◌∷◌ stroke (tally n)

tally_one_line : (n : ℕ) → has_newline (tally n) ≡ false
unfolding tally
tally_one_line zero = refl
tally_one_line (suc n) = tally_one_line n

tally_distinct : (m n : ℕ) → tally m ≡ tally n → m ≡ n
unfolding tally
tally_distinct zero zero h = refl
tally_distinct zero (suc n) h = let apart : String.[] ≡ String.◌∷◌ stroke (tally n) = h in cc apart
tally_distinct (suc m) zero h = let apart : String.◌∷◌ stroke (tally m) ≡ String.[] = h in cc apart
tally_distinct (suc m) (suc n) h =
    let rest : tally m ≡ tally n = cc h in ap suc (tally_distinct m n rest)

tally-IsDayFormat : IsDayFormat tally
tally-IsDayFormat = record { one_line = tally_one_line; distinct = tally_distinct }

abbrev stay : CreateRequest
stay = record {
  distributor_id = "d1";
  idempotency_key = "partner-1";
  property_id = "hotel-001";
  room_type_id = "room-deluxe";
  check_in = 1;
  check_out = 3;
  guest_first_name = "Taro";
  guest_last_name = "Yamada";
}

-- The same stay under another key, with space around a name.
abbrev padded : CreateRequest
padded = record stay { idempotency_key = "partner-2"; guest_first_name = " Taro " }

canonical-stay :
    canonical tally stay
    ≡ "checkIn=I\ncheckOut=III\ndistributorId=d1\nguestFirstName=Taro\nguestLastName=Yamada\npropertyId=hotel-001\nroomTypeId=room-deluxe\n"
unfolding canonical written sorted put_by_name fields trim_space trim_left trim_right is_space tally
canonical-stay = refl

stay-IsOneLined : IsOneLined stay
unfolding trim_space trim_left trim_right is_space
stay-IsOneLined = record {
  distributor = refl;
  first_name = refl;
  last_name = refl;
  property = refl;
  room_type = refl;
}

padded-IsOneLined : IsOneLined padded
unfolding trim_space trim_left trim_right is_space
padded-IsOneLined = record {
  distributor = refl;
  first_name = refl;
  last_name = refl;
  property = refl;
  room_type = refl;
}

fingerprint-IsSameStay_example :
    (fingerprint (λ s. s) tally stay ≡ fingerprint (λ s. s) tally padded) ↔ IsSameStay stay padded
fingerprint-IsSameStay_example =
    fingerprint-IsSameStay tally (λ s. s) tally-IsDayFormat stay padded stay-IsOneLined
      padded-IsOneLined (λ h. h)

-- Two guests, one fingerprint.
fingerprint-guest_example :
    fingerprint (λ s. s) tally (guest stay "Taro" "Yamada\nguestLastName=Sato")
    ≡ fingerprint (λ s. s) tally (guest stay "Taro\nguestLastName=Yamada" "Sato")
unfolding trim_space trim_left trim_right is_space
fingerprint-guest_example =
    fingerprint-guest (λ s. s) tally stay "Taro" "Yamada" "Sato" refl refl refl refl
