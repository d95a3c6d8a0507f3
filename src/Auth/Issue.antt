-- ===== src/Auth/Issue.antt =====
-- The hash that is stored for a secret (`Hash`, internal/auth/key.go). The salt that is drawn, which
-- can fail, and the encoding of base64 are arguments, as Argon2id is.
use Prim.Native.String.{◌++◌}
use booking_orchestration_se.Base.{ℕ, ◌*◌, String, Option, none, some}
use booking_orchestration_se.Decimal.{decimal}
use booking_orchestration_se.Auth.Middleware.{Crypto}

abbrev pub hash_bytes : ℕ
hash_bytes = 32

abbrev pub argon_time : ℕ
argon_time = 1

abbrev pub argon_memory : ℕ
argon_memory = 64 * 1024

abbrev pub argon_threads : ℕ
argon_threads = 4

-- `$argon2id$v=19$m=%d,t=%d,p=%d$`, and what follows it.
unfoldable pub with_cost : ℕ → ℕ → ℕ → String → String
with_cost memory time threads rest =
    "$argon2id$v=19$m="
    ++ (decimal memory
        ++ (",t=" ++ (decimal time ++ (",p=" ++ (decimal threads ++ ("$" ++ rest))))))

module _ (crypto : Crypto) (encode_base64 : String → String) where
  abbrev pub digest : String → String → String
  digest secret salt = crypto.id_key secret salt argon_time argon_memory argon_threads hash_bytes

  -- `Hash`, with the salt that was drawn.
  unfoldable pub hash : Option String → String → Option String
  hash none secret = none
  hash (some salt) secret = some (
      with_cost argon_memory argon_time argon_threads
        (encode_base64 salt ++ ("$" ++ encode_base64 (digest secret salt))))
