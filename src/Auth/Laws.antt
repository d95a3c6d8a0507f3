-- ===== src/Auth/Laws.antt =====
-- Keys are read as they are written.
use Prim.Native.Char.{Char, code}
use Prim.Native.String.{◌++◌, char_at}
use Prim.Native.String.append
use text.Mathlib.TextEquality.{Char-path}
use booking_orchestration_se.Base.{
  String, Bool, true, false, some, none, ◌==◌, ◌≡◌, inl, inr, ◌↔◌, refl, sym, ap, ◌∙◌, is_empty,
  arith, ◌||◌, Bool-cases, eq_iff, str_eq, Option,
}
use booking_orchestration_se.Auth.Key.{Key, cut, checked, cut_again, cut_once, parse}

-- Whether a text has the separator.
abbrev pub has_separator : String → Bool
has_separator String.[] = false
has_separator (String.◌∷◌ c s) = (code c == b'_') || has_separator s

abbrev separator : Char
separator = char_at "_" 0

cons-append : (b : String) → "_" ++ b ≡ String.◌∷◌ separator b
cons-append b = append.cons separator "" b ∙ ap (String.◌∷◌ separator) (append.nil b)

cut-separator : (b : String) → cut (String.◌∷◌ separator b) ≡ some ("", b)
unfolding cut
cut-separator b = refl

cut-append :
    (a b : String) → has_separator a ≡ false → cut (a ++ String.◌∷◌ separator b) ≡ some (a, b)
unfolding cut
cut-append String.[] b h = rw (append.nil (String.◌∷◌ separator b)) (cut-separator b)
cut-append (String.◌∷◌ c a) b h =
    rw (append.cons c a (String.◌∷◌ separator b)) (ground (arith, cut-append a b, h))

-- What a cut finds is the text itself.
abbrev IsCut : String → Option (String × String) → Type 0
IsCut s none = Unit
IsCut s (some (a, b)) = (has_separator a ≡ false) × (s ≡ a ++ String.◌∷◌ separator b)

IsCut-later :
    (c : Char) (s : String) (r : Option (String × String))
    → code c == b'_' ≡ false
    → IsCut s r
    → IsCut (String.◌∷◌ c s) (elim r [ none ↦ none | some p ↦ some (String.◌∷◌ c p.0, p.1) ])
IsCut-later c s none not_here h = tt
IsCut-later c s (some (a, b)) not_here h = (
  ground (arith, not_here, h),
  rw (append.cons c a (String.◌∷◌ separator b)) (ap (String.◌∷◌ c) h.1),
)

cut-IsCut : (s : String) → IsCut s (cut s)
unfolding cut
cut-IsCut String.[] = tt
cut-IsCut (String.◌∷◌ c s) = elim (Bool-cases (code c == b'_')) [
  | inl here ↦ rw here (
    refl,
    ap (λ d. String.◌∷◌ d s) (Char-path c separator (ground (arith, here)))
        ∙ sym (append.nil (String.◌∷◌ separator s)),
  )
  | inr not_here ↦ rw not_here (IsCut-later c s (cut s) not_here (cut-IsCut s))
]

-- A key as it is issued.
abbrev pub written : Key → String
written k = "bok" ++ ("_" ++ (k.id ++ ("_" ++ k.secret)))

abbrev pub IsWellFormed : Key → Type 0
IsWellFormed k =
    (has_separator k.id ≡ false) × (is_empty k.id ≡ false) × (is_empty k.secret ≡ false)

parse-written : (k : Key) → IsWellFormed k → parse (written k) ≡ some k
unfolding parse
parse-written k h =
    rw
      (
        cons-append (k.id ++ ("_" ++ k.secret)),
        cut-append "bok" (k.id ++ ("_" ++ k.secret)) refl,
        cons-append k.secret,
        cut-append k.id k.secret h.0,
      )
      (ground (arith, h))

checked-IsWellFormed :
    (head id secret : String) (k : Key)
    → checked head id secret ≡ some k
    → (str_eq head "bok" ≡ true)
      × (is_empty id ≡ false)
      × (is_empty secret ≡ false)
      × (record { id = id; secret = secret } ≡ k)
checked-IsWellFormed head id secret k h = ground arith

again-IsWritten :
    (raw head rest : String) (r : Option (String × String)) (k : Key)
    → raw ≡ head ++ String.◌∷◌ separator rest
    → IsCut rest r
    → cut_again head r ≡ some k
    → IsWellFormed k × (raw ≡ written k)
again-IsWritten raw head rest none k w c h = ground arith
again-IsWritten raw head rest (some (id, secret)) k w c h =
    let (is_head, has_id, has_secret, same) = checked-IsWellFormed head id secret k h in
    rw (sym same) (
      (c.0, has_id, has_secret),
      rw
          (
            w,
            (eq_iff head "bok").0 is_head,
            c.1,
            cons-append secret,
            cons-append (id ++ String.◌∷◌ separator secret),
          )
          refl,
    )

once-IsWritten :
    (raw : String) (r : Option (String × String)) (k : Key)
    → IsCut raw r
    → cut_once r ≡ some k
    → IsWellFormed k × (raw ≡ written k)
once-IsWritten raw none k c h = ground arith
once-IsWritten raw (some (head, rest)) k c h =
    again-IsWritten raw head rest (cut rest) k c.1 (cut-IsCut rest) h

-- `Parse` reads exactly the keys that are written `bok_<id>_<secret>` with an id and a secret that
-- are not empty and no underscore in the id, and gives their parts.
pub parse_lem :
    (raw : String) (k : Key) → (parse raw ≡ some k) ↔ (IsWellFormed k × (raw ≡ written k))
unfolding parse
parse_lem raw k =
    (λ h. once-IsWritten raw (cut raw) k (cut-IsCut raw) h, λ h. rw h.1 (parse-written k h.0))
