-- ===== src/Auth/Key.antt =====
-- An API key and its parts (internal/auth/key.go). `strings.SplitN(raw, "_", 3)` is a cut at the
-- first separator, and one more of what follows it.
use Prim.Native.Char.{code}
use booking_orchestration_se.Base.{
  String, Option, none, some, ◌==◌, ◌||◌, if◌then◌else◌, is_empty, str_eq, not,
}

pub record Key : Type 0 where
  pub id : String
  pub secret : String

-- The text before the first `_` and the text after it.
unfoldable pub cut : String → Option (String × String)
cut String.[] = none
cut (String.◌∷◌ c s) =
    let rest = cut s in
    if code c == b'_'
    then some (String.[], s)
    else elim rest [ none ↦ none | some p ↦ some (String.◌∷◌ c p.0, p.1) ]

abbrev pub checked : String → String → String → Option Key
checked head id secret =
    if not (str_eq head "bok") || is_empty id || is_empty secret
    then none
    else some (record { id = id; secret = secret })

abbrev pub cut_again : String → Option (String × String) → Option Key
cut_again head none = none
cut_again head (some (id, secret)) = checked head id secret

abbrev pub cut_once : Option (String × String) → Option Key
cut_once none = none
cut_once (some (head, rest)) = cut_again head (cut rest)

-- `Parse`.
unfoldable pub parse : String → Option Key
unfolding cut
parse raw = cut_once (cut raw)
