-- ===== src/Model/Fingerprint/Laws.antt =====
-- Which creations have one canonical text.
use Prim.Native.Char.{Char, code}
use Prim.Native.String.{◌++◌, char_at}
use Prim.Native.String.append
use text.Mathlib.TextLemmas.{append_cancel_left, append_assoc}
use booking_orchestration_se.Base.{
  ℕ, String, Bool, true, false, ◌||◌, ◌==◌, ◌≡◌, refl, sym, ap, ◌∙◌, arith, ◌↔◌,
}
use booking_orchestration_se.Model.Booking.{CreateRequest}
use booking_orchestration_se.Model.Fingerprint.{
  trim_space, fields, put_by_name, sorted, written, canonical, fingerprint,
}

-- Whether a text has a line break.
abbrev pub has_newline : String → Bool
has_newline String.[] = false
has_newline (String.◌∷◌ c s) = (code c == 10) || has_newline s

abbrev newline : Char
newline = char_at "\n" 0

newline-append : (s : String) → "\n" ++ s ≡ String.◌∷◌ newline s
newline-append s = append.cons newline "" s ∙ ap (String.◌∷◌ newline) (append.nil s)

cons_inj : (c d : Char) (s t : String) → String.◌∷◌ c s ≡ String.◌∷◌ d t → (c ≡ d) × (s ≡ t)
cons_inj c d s t h = (cc h, cc h)

newline_code : (c : Char) → c ≡ newline → code c == 10 ≡ true
newline_code c h = rw h refl

-- Where neither value has a line break, the values before the first one agree, and what follows.
value_cut :
    (v w s t : String)
    → has_newline v ≡ false
    → has_newline w ≡ false
    → v ++ String.◌∷◌ newline s ≡ w ++ String.◌∷◌ newline t
    → (v ≡ w) × (s ≡ t)
value_cut String.[] String.[] s t hv hw h =
    let same =
      cons_inj newline newline s t
        (sym (append.nil (String.◌∷◌ newline s)) ∙ h ∙ append.nil (String.◌∷◌ newline t)) in
    (refl, same.1)
value_cut String.[] (String.◌∷◌ d w) s t hv hw h =
    let same =
      cons_inj newline d s (w ++ String.◌∷◌ newline t)
        (sym (append.nil (String.◌∷◌ newline s)) ∙ h ∙ append.cons d w (String.◌∷◌ newline t)) in
    ground (arith, hw, newline_code d (sym same.0))
value_cut (String.◌∷◌ c v) String.[] s t hv hw h =
    let same =
      cons_inj c newline (v ++ String.◌∷◌ newline s) t
        (sym (append.cons c v (String.◌∷◌ newline s)) ∙ h ∙ append.nil (String.◌∷◌ newline t)) in
    ground (arith, hv, newline_code c same.0)
value_cut (String.◌∷◌ c v) (String.◌∷◌ d w) s t hv hw h =
    let same =
      cons_inj c d (v ++ String.◌∷◌ newline s) (w ++ String.◌∷◌ newline t) (
        sym (append.cons c v (String.◌∷◌ newline s))
        ∙ h
        ∙ append.cons d w (String.◌∷◌ newline t)) in
    let rest = value_cut v w s t (ground (arith, hv)) (ground (arith, hw)) same.1 in
    (rw (same.0, rest.0) refl, rest.1)

-- One written field.
field_cut :
    (name v w s t : String)
    → has_newline v ≡ false
    → has_newline w ≡ false
    → name ++ ("=" ++ (v ++ ("\n" ++ s))) ≡ name ++ ("=" ++ (w ++ ("\n" ++ t)))
    → (v ≡ w) × (s ≡ t)
field_cut name v w s t hv hw h =
    let bare = append_cancel_left "=" _ _ (append_cancel_left name _ _ h) in
    value_cut v w s t hv hw (rw (newline-append s, newline-append t) at bare)

-- What the text of a day is to be: one line, and another one for another day.
pub record IsDayFormat (format_date : ℕ → String) : Type 0 where
  pub one_line : (day : ℕ) → has_newline (format_date day) ≡ false
  pub distinct : (x y : ℕ) → format_date x ≡ format_date y → x ≡ y

-- Every text of a creation, without the space around it, is one line.
pub record IsOneLined (r : CreateRequest) : Type 0 where
  pub distributor : has_newline (trim_space r.distributor_id) ≡ false
  pub first_name : has_newline (trim_space r.guest_first_name) ≡ false
  pub last_name : has_newline (trim_space r.guest_last_name) ≡ false
  pub property : has_newline (trim_space r.property_id) ≡ false
  pub room_type : has_newline (trim_space r.room_type_id) ≡ false

-- Two creations ask for the same: all but the key agrees, up to the space around a text.
abbrev pub IsSameStay : CreateRequest → CreateRequest → Type 0
IsSameStay r s =
    (r.check_in ≡ s.check_in)
    × (r.check_out ≡ s.check_out)
    × (trim_space r.distributor_id ≡ trim_space s.distributor_id)
    × (trim_space r.guest_first_name ≡ trim_space s.guest_first_name)
    × (trim_space r.guest_last_name ≡ trim_space s.guest_last_name)
    × (trim_space r.property_id ≡ trim_space s.property_id)
    × (trim_space r.room_type_id ≡ trim_space s.room_type_id)

module _ (format_date : ℕ → String) where
  -- The fields are written in the order of their names.
  canonical_order : (r : CreateRequest) → canonical format_date r ≡ written (fields format_date r)
  unfolding canonical sorted put_by_name fields
  canonical_order r = refl

  same_canonical :
      (r s : CreateRequest) → IsSameStay r s → canonical format_date r ≡ canonical format_date s
  unfolding fields
  same_canonical r s h =
      rw (canonical_order r, canonical_order s, h.0, h.1, h.2, h.3, h.4, h.5, h.6) refl

  different_canonical :
      IsDayFormat format_date
      → (r s : CreateRequest) → IsOneLined r
      → IsOneLined s
      → canonical format_date r ≡ canonical format_date s
      → IsSameStay r s
  unfolding fields written
  different_canonical days r s one two h =
      let all = sym (canonical_order r) ∙ h ∙ canonical_order s in
      let (check_in, after_check_in) =
        field_cut "checkIn" _ _ _ _ (days.one_line r.check_in) (days.one_line s.check_in) all in
      let (check_out, after_check_out) =
        field_cut "checkOut" _ _ _ _ (days.one_line r.check_out) (days.one_line s.check_out)
          after_check_in in
      let (distributor, after_distributor) =
        field_cut "distributorId" _ _ _ _ one.distributor two.distributor after_check_out in
      let (first_name, after_first_name) =
        field_cut "guestFirstName" _ _ _ _ one.first_name two.first_name after_distributor in
      let (last_name, after_last_name) =
        field_cut "guestLastName" _ _ _ _ one.last_name two.last_name after_first_name in
      let (property, after_property) =
        field_cut "propertyId" _ _ _ _ one.property two.property after_last_name in
      let (room_type, after_room_type) =
        field_cut "roomTypeId" _ _ "" "" one.room_type two.room_type after_property in
      (
        days.distinct _ _ check_in,
        days.distinct _ _ check_out,
        distributor,
        first_name,
        last_name,
        property,
        room_type,
      )

  -- For a digest that tells the two canonical texts apart where they differ, and a format of days
  -- that is one line and tells days apart: two creations whose texts hold no line break between
  -- the spaces around them have one fingerprint exactly where they ask for the same stay, whatever
  -- their idempotency keys and the space around their texts.
  pub fingerprint-IsSameStay :
      (digest : String → String)
      → IsDayFormat format_date
      → (r s : CreateRequest) → IsOneLined r
      → IsOneLined s
      → (digest (canonical format_date r) ≡ digest (canonical format_date s)
          → canonical format_date r ≡ canonical format_date s)
      → (fingerprint digest format_date r ≡ fingerprint digest format_date s) ↔ IsSameStay r s
  unfolding fingerprint
  fingerprint-IsSameStay digest days r s one two apart = (
    (λ h. different_canonical days r s one two (apart h)),
    λ same. ap digest (same_canonical r s same),
  )

-- A line that starts the next field.
forged_line : (x : String) → "\n" ++ ("guestLastName" ++ ("=" ++ x)) ≡ "\nguestLastName=" ++ x
forged_line x =
    sym (append_assoc "\n" "guestLastName" ("=" ++ x)) ∙ sym (append_assoc "\nguestLastName" "=" x)

module _ (a b c tail : String) where
  moved :
      a ++ ("\n" ++ ("guestLastName" ++ ("=" ++ ((b ++ ("\nguestLastName=" ++ c)) ++ tail))))
      ≡ (a ++ ("\nguestLastName=" ++ b)) ++ ("\n" ++ ("guestLastName" ++ ("=" ++ (c ++ tail))))
  moved =
      rw
        (
          forged_line ((b ++ ("\nguestLastName=" ++ c)) ++ tail),
          forged_line (c ++ tail),
          append_assoc b ("\nguestLastName=" ++ c) tail,
          append_assoc "\nguestLastName=" c tail,
          append_assoc a ("\nguestLastName=" ++ b) ("\nguestLastName=" ++ (c ++ tail)),
          append_assoc "\nguestLastName=" b ("\nguestLastName=" ++ (c ++ tail)),
        )
        refl

-- The guest whose names are `a` and the rest.
abbrev pub guest : CreateRequest → String → String → CreateRequest
guest r first last = record r { guest_first_name = first; guest_last_name = last }

written_guest :
    (format_date : ℕ → String) (r : CreateRequest) (a b c : String)
    → trim_space a ≡ a
    → trim_space c ≡ c
    → trim_space (b ++ ("\nguestLastName=" ++ c)) ≡ b ++ ("\nguestLastName=" ++ c)
    → trim_space (a ++ ("\nguestLastName=" ++ b)) ≡ a ++ ("\nguestLastName=" ++ b)
    → written (fields format_date (guest r a (b ++ ("\nguestLastName=" ++ c))))
      ≡ written (fields format_date (guest r (a ++ ("\nguestLastName=" ++ b)) c))
unfolding fields written
written_guest format_date r a b c ta tc tl tf =
    let rest =
      "propertyId"
      ++ ("="
          ++ (trim_space r.property_id
              ++ ("\n"
                  ++ ("roomTypeId" ++ ("=" ++ (trim_space r.room_type_id ++ ("\n" ++ ""))))))) in
    rw (ta, tc, tl, tf, moved a b c ("\n" ++ rest)) refl

-- Where a guest's name holds a line break, two different guests can have one fingerprint: the line
-- that separates the names may stand in the last name or in the first, for any texts that have no
-- space around them.
pub fingerprint-guest :
    (digest : String → String) (format_date : ℕ → String) (r : CreateRequest) (a b c : String)
    → trim_space a ≡ a
    → trim_space c ≡ c
    → trim_space (b ++ ("\nguestLastName=" ++ c)) ≡ b ++ ("\nguestLastName=" ++ c)
    → trim_space (a ++ ("\nguestLastName=" ++ b)) ≡ a ++ ("\nguestLastName=" ++ b)
    → fingerprint digest format_date (guest r a (b ++ ("\nguestLastName=" ++ c)))
      ≡ fingerprint digest format_date (guest r (a ++ ("\nguestLastName=" ++ b)) c)
unfolding fingerprint
fingerprint-guest digest format_date r a b c ta tc tl tf =
    let one = canonical_order format_date (guest r a (b ++ ("\nguestLastName=" ++ c))) in
    let two = canonical_order format_date (guest r (a ++ ("\nguestLastName=" ++ b)) c) in
    ap digest (one ∙ written_guest format_date r a b c ta tc tl tf ∙ sym two)
