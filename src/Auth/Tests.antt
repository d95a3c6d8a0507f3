-- ===== src/Auth/Tests.antt =====
-- Keys and the middleware at one table.
use booking_orchestration_se.Base.{
  ◌≡◌, ◌↔◌, refl, true, false, none, some, Option, String, List, [], ◌∷◌, sym, ◌∙◌,
}
use Prim.Native.String.{◌++◌}
use text.Mathlib.TextLemmas.{append_assoc}
use booking_orchestration_se.Decimal.{decimal}
use booking_orchestration_se.Auth.Key.{Key, cut, parse}
use booking_orchestration_se.Auth.Issue.{hash, with_cost, argon_memory, argon_time, argon_threads}
use booking_orchestration_se.Auth.Issued.{
  IsPackage, IsIssued, cut_prefix-append, authenticate-issued,
}
use booking_orchestration_se.Auth.Middleware.{
  Crypto, ApiKey, Scanned, authenticate, find_active, cut_prefix, cut_last, verify,
}
use booking_orchestration_se.Auth.Laws.{IsWellFormed, written, parse_lem}
use booking_orchestration_se.Auth.Admission.{IsJust, key_in, authenticate-IsJust}

abbrev key : Key
key = record { id = "demo01"; secret = "right_secret" }

parse-key : parse "bok_demo01_right_secret" ≡ some key
unfolding parse cut
parse-key = refl

parse_lem_example :
    (parse "bok_demo01_right_secret" ≡ some key)
    ↔ (IsWellFormed key × ("bok_demo01_right_secret" ≡ written key))
parse_lem_example = parse_lem "bok_demo01_right_secret" key

-- A digest that is the secret itself.
abbrev pub crypto : Crypto
crypto = record {
  scan_hash = λ s. some (record { memory = 65536; time = 1; threads = 4; rest = s });
  decode_base64 = λ s. some s;
  id_key = λ secret salt time memory threads size. secret;
  size = λ s. 32;
  trim_space = λ s. s;
}

abbrev pub table : List ApiKey
table =
    record { key_id = "old"; distributor_id = "d0"; secret_hash = "salt$x"; revoked = true }
    ∷ record {
      key_id = "demo01";
      distributor_id = "d1";
      secret_hash = "salt$right_secret";
      revoked = false;
    }
    ∷ []

abbrev pub header : String
header = "Bearer bok_demo01_right_secret"

authenticate_key : (authenticate crypto "salt$decoy" (some table) header).distributor ≡ some "d1"
unfolding authenticate cut_prefix parse cut find_active verify cut_last
authenticate_key = refl

authenticate-IsJust_example :
    IsJust crypto "salt$decoy"
      (some table)
      (key_in crypto (cut_prefix "Bearer " header))
      (authenticate crypto "salt$decoy" (some table) header)
authenticate-IsJust_example = authenticate-IsJust crypto "salt$decoy" (some table) header

-- Packages at which keys are issued: a digest that writes the salt and the secret one after
-- the other, and an encoding that is the text itself.
abbrev parameters : String
parameters = "$argon2id$v=19$m=65536,t=1,p=4$"

abbrev scan : Option String → Option Scanned
scan none = none
scan (some rest) = some (record { memory = 65536; time = 1; threads = 4; rest = rest })

abbrev packages : Crypto
packages = record {
  scan_hash = λ s. scan (cut_prefix parameters s);
  decode_base64 = λ s. some s;
  id_key = λ secret salt time memory threads size. salt ++ secret;
  size = λ s. 32;
  trim_space = λ s. s;
}

abbrev issued : Key
issued = record { id = "demo02"; secret = "c2VjcmV0" }

abbrev issued_row : ApiKey
issued_row = record {
  key_id = "demo02";
  distributor_id = "d2";
  secret_hash = "$argon2id$v=19$m=65536,t=1,p=4$SALT$SALTc2VjcmV0";
  revoked = false;
}

hash_issued : hash packages (λ s. s) (some "SALT") issued.secret ≡ some issued_row.secret_hash
unfolding hash with_cost decimal
hash_issued = refl

hash_no_salt : hash packages (λ s. s) none issued.secret ≡ none
unfolding hash
hash_no_salt = refl

with_cost-parameters :
    (rest : String) → with_cost argon_memory argon_time argon_threads rest ≡ parameters ++ rest
unfolding with_cost decimal
with_cost-parameters rest =
    sym (append_assoc "$argon2id$v=19$m=" "65536" _)
    ∙ sym (append_assoc "$argon2id$v=19$m=65536" ",t=" _)
    ∙ sym (append_assoc "$argon2id$v=19$m=65536,t=" "1" _)
    ∙ sym (append_assoc "$argon2id$v=19$m=65536,t=1" ",p=" _)
    ∙ sym (append_assoc "$argon2id$v=19$m=65536,t=1,p=" "4" _)
    ∙ sym (append_assoc "$argon2id$v=19$m=65536,t=1,p=4" "$" rest)

packages-IsPackage : IsPackage packages
packages-IsPackage = record {
  scans = λ rest word. rw (with_cost-parameters rest, cut_prefix-append parameters rest) refl;
  sized = λ secret salt. refl;
}

issued-IsIssued : IsIssued packages (λ s. s) packages-IsPackage issued "SALT" issued_row
unfolding hash with_cost decimal
issued-IsIssued = record {
  salt_coded = record { decodes = refl; alphabet = refl };
  digest_coded = record { decodes = refl; alphabet = refl };
  hashed = refl;
}

issued_found : find_active issued.id (issued_row ∷ table) ≡ some issued_row
unfolding find_active
issued_found = refl

authenticate-issued_example :
    (authenticate packages "decoy"
      (some (issued_row ∷ table))
      ("Bearer " ++ written issued)).distributor
    ≡ some "d2"
authenticate-issued_example =
    authenticate-issued packages (λ s. s) packages-IsPackage "decoy" "SALT" (issued_row ∷ table)
      issued_row issued issued issued-IsIssued issued_found (refl, refl, refl) refl
