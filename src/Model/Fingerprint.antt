-- ===== src/Model/Fingerprint.antt =====
-- The fingerprint of a creation (internal/model/fingerprint.go). The text of a day and the digest,
-- which is the hexadecimal text of SHA-256, are arguments.
pub mod Laws
pub mod Tests
use Prim.Native.Char.{Char, code}
use Prim.Native.Nat.{Ordering}
use Prim.Native.String.{◌++◌, compare}
use booking_orchestration_se.Base.{
  ℕ, String, Bool, List, [], ◌∷◌, ◌||◌, ◌&&◌, ◌==◌, leb, if◌then◌else◌, is_empty,
}
use booking_orchestration_se.Model.Booking.{CreateRequest}

-- `unicode.IsSpace`.
unfoldable pub is_space : Char → Bool
is_space c =
    (leb 9 (code c) && leb (code c) 13)
    || code c == 32
    || code c == 133
    || code c == 160
    || code c == 5760
    || (leb 8192 (code c) && leb (code c) 8202)
    || code c == 8232
    || code c == 8233
    || code c == 8239
    || code c == 8287
    || code c == 12288

unfoldable pub trim_left : String → String
trim_left String.[] = String.[]
trim_left (String.◌∷◌ c s) = let rest = trim_left s in if is_space c then rest else String.◌∷◌ c s

unfoldable pub trim_right : String → String
trim_right String.[] = String.[]
trim_right (String.◌∷◌ c s) =
    let rest = trim_right s in if is_empty rest && is_space c then String.[] else String.◌∷◌ c rest

-- `strings.TrimSpace`.
unfoldable pub trim_space : String → String
trim_space s = trim_right (trim_left s)

-- The map `fields`.
unfoldable pub fields : (ℕ → String) → CreateRequest → List (String × String)
fields format_date r =
    ("checkIn", format_date r.check_in)
    ∷ ("checkOut", format_date r.check_out)
    ∷ ("distributorId", trim_space r.distributor_id)
    ∷ ("guestFirstName", trim_space r.guest_first_name)
    ∷ ("guestLastName", trim_space r.guest_last_name)
    ∷ ("propertyId", trim_space r.property_id)
    ∷ ("roomTypeId", trim_space r.room_type_id)
    ∷ []

-- `slices.Sorted` of a map's keys, with their values.
unfoldable pub put_by_name : String × String → List (String × String) → List (String × String)
put_by_name f [] = f ∷ []
put_by_name f (g ∷ gs) =
    let rest = put_by_name f gs in
    elim (compare f.0 g.0) [ Ordering.gt ↦ g ∷ rest | _ ↦ f ∷ g ∷ gs ]

unfoldable pub sorted : List (String × String) → List (String × String)
sorted [] = []
sorted (f ∷ fs) = put_by_name f (sorted fs)

-- The loop that writes the canonical text.
unfoldable pub written : List (String × String) → String
written [] = ""
written (f ∷ fs) = f.0 ++ ("=" ++ (f.1 ++ ("\n" ++ written fs)))

unfoldable pub canonical : (ℕ → String) → CreateRequest → String
canonical format_date r = written (sorted (fields format_date r))

-- `CreateRequest.Fingerprint`.
unfoldable pub fingerprint : (String → String) → (ℕ → String) → CreateRequest → String
fingerprint digest format_date r = digest (canonical format_date r)
