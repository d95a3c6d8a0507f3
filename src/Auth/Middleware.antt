-- ===== src/Auth/Middleware.antt =====
-- Verification of a secret (internal/auth/key.go), the lookup of a key (internal/repository/apikey)
-- and `Authenticate` (internal/delivery/rest/middleware/auth.go). Argon2id, base64 and `Sscanf`
-- are arguments.
use Prim.Native.Char.{code}
use booking_orchestration_se.Base.{
  ℕ, String, Bool, false, Option, none, some, List, [], ◌∷◌, ◌==◌, ◌&&◌, not, if◌then◌else◌, str_eq,
}
use booking_orchestration_se.Auth.Key.{Key, parse}

-- What `Sscanf` reads of an encoded hash: the parameters and the rest.
pub record Scanned : Type 0 where
  pub memory : ℕ
  pub time : ℕ
  pub threads : ℕ
  pub rest : String

pub record Crypto : Type 0 where
  pub scan_hash : String → Option Scanned
  pub decode_base64 : String → Option String
  pub id_key : String → String → ℕ → ℕ → ℕ → ℕ → String
  pub size : String → ℕ
  pub trim_space : String → String

-- The text before the last `$` and the text after it.
unfoldable pub cut_last : String → Option (String × String)
cut_last String.[] = none
cut_last (String.◌∷◌ c s) =
    let rest = cut_last s in
    elim rest [
      | some p ↦ some (String.◌∷◌ c p.0, p.1)
      | none ↦ if code c == b'$' then some (String.[], s) else none
    ]

module _ (crypto : Crypto) where
  abbrev compared : String → Scanned → Option String → Option String → Bool
  compared secret p none want = false
  compared secret p (some salt) none = false
  compared secret p (some salt) (some want) =
      str_eq (crypto.id_key secret salt p.time p.memory p.threads (crypto.size want)) want

  abbrev decoded : String → Scanned → Option (String × String) → Bool
  decoded secret p none = false
  decoded secret p (some (salt, hash)) =
      compared secret p (crypto.decode_base64 salt) (crypto.decode_base64 hash)

  abbrev scanned : String → Option Scanned → Bool
  scanned secret none = false
  scanned secret (some p) = decoded secret p (cut_last p.rest)

  -- `Verify`.
  unfoldable pub verify : String → String → Bool
  unfolding cut_last
  verify secret encoded = scanned secret (crypto.scan_hash encoded)

-- A row of distributor_api_keys.
pub record ApiKey : Type 0 where
  pub key_id : String
  pub distributor_id : String
  pub secret_hash : String
  pub revoked : Bool

-- The query of `FindActive`; key_id is the table's key.
unfoldable pub find_active : String → List ApiKey → Option ApiKey
find_active id [] = none
find_active id (k ∷ ks) = if str_eq k.key_id id && not k.revoked then some k else find_active id ks

-- What is done for a request: lookups of a key id, and verifications of a secret against a hash.
pub data Effect : Type 0 where
  looked_for : String → Effect
  verified : String → String → Effect

-- What a request leads to: the distributor it is let through as, or none, and what was done.
pub record Verdict : Type 0 where
  pub distributor : Option String
  pub effects : List Effect

abbrev pub unauthorized : List Effect → Verdict
unauthorized done = record { distributor = none; effects = done }

-- `strings.CutPrefix`.
unfoldable pub cut_prefix : String → String → Option String
cut_prefix String.[] s = some s
cut_prefix (String.◌∷◌ c p) String.[] = none
cut_prefix (String.◌∷◌ c p) (String.◌∷◌ d s) =
    let rest = cut_prefix p s in if code c == code d then rest else none

module _ (crypto : Crypto) (decoy : String) (keys : Option (List ApiKey)) where
  -- The answer to a lookup, which also fails where the table gives an error: then the secret is
  -- verified against the decoy.
  abbrev pub found : Key → Option ApiKey → Verdict
  found key none = unauthorized (looked_for key.id ∷ verified key.secret decoy ∷ [])
  found key (some stored) =
      let done = looked_for key.id ∷ verified key.secret stored.secret_hash ∷ [] in
      if verify crypto key.secret stored.secret_hash
      then record { distributor = some stored.distributor_id; effects = done }
      else unauthorized done

  abbrev pub looked_up : String → Option ApiKey
  looked_up id = elim keys [ none ↦ none | some ks ↦ find_active id ks ]

  abbrev pub credential : Option Key → Verdict
  credential none = unauthorized []
  credential (some key) = found key (looked_up key.id)

  abbrev pub bearer : Option String → Verdict
  bearer none = unauthorized []
  bearer (some raw) = credential (parse (crypto.trim_space raw))

  -- `Authenticate` of a request with this Authorization header.
  unfoldable pub authenticate : String → Verdict
  authenticate header = bearer (cut_prefix "Bearer " header)
