-- ===== src/Auth/Issued.antt =====
-- A hash verifies the secret that it was made of, and the key that it is stored for is let through.
use Prim.Native.Char.{Char, code}
use Prim.Native.String.{◌++◌, char_at}
use Prim.Native.String.append
use booking_orchestration_se.Base.{
  String, Bool, true, false, some, none, List, if◌then◌else◌, ap, ◌∙◌, sym, str_eq, ◌==◌, ◌&&◌,
  ◌||◌, ◌≡◌, refl, arith, leb,
}
use booking_orchestration_se.Auth.Middleware.{
  Crypto, ApiKey, cut_last, verify, find_active, cut_prefix, authenticate,
}
use booking_orchestration_se.Auth.Key.{Key}
use booking_orchestration_se.Auth.Laws.{IsWellFormed, written, parse_lem}
use booking_orchestration_se.Auth.Issue.{
  with_cost, hash, digest, hash_bytes, argon_time, argon_memory, argon_threads,
}

-- A character that is seen: neither a space nor a control character.
abbrev pub is_visible_char : Char → Bool
is_visible_char c = leb 33 (code c) && leb (code c) 126

abbrev pub is_visible : String → Bool
is_visible String.[] = true
is_visible (String.◌∷◌ c s) = is_visible_char c && is_visible s

-- One word, as `%s` reads it.
abbrev pub is_word : String → Bool
is_word String.[] = false
is_word (String.◌∷◌ c s) = is_visible_char c && is_visible s

-- The alphabet of base64.
abbrev pub is_base64_char : Char → Bool
is_base64_char c =
    (leb 65 (code c) && leb (code c) 90)
    || (leb 97 (code c) && leb (code c) 122)
    || (leb 48 (code c) && leb (code c) 57)
    || (code c == 43)
    || (code c == 47)

abbrev pub is_base64 : String → Bool
is_base64 String.[] = true
is_base64 (String.◌∷◌ c s) = is_base64_char c && is_base64 s

-- What the packages are to do. Some bytes are encoded in the alphabet, and decoded again.
pub record IsEncoded (crypto : Crypto) (encode_base64 : String → String) (s : String) : Type 0 where
  pub decodes : crypto.decode_base64 (encode_base64 s) ≡ some s
  pub alphabet : is_base64 (encode_base64 s) ≡ true

-- The scan reads back the parameters that the format writes and the one word that follows them, and
-- a digest is as long as asked for.
pub record IsPackage (crypto : Crypto) : Type 0 where
  pub scans :
      (rest : String)
      → is_word rest ≡ true
      → crypto.scan_hash (with_cost argon_memory argon_time argon_threads rest)
        ≡ some (record {
          memory = argon_memory;
          time = argon_time;
          threads = argon_threads;
          rest = rest;
        })
  pub sized :
      (secret salt : String)
      → crypto.size (crypto.id_key secret salt argon_time argon_memory argon_threads hash_bytes)
        ≡ hash_bytes

dollar : Char
dollar = char_at "$" 0

is_visible-base64 : (s : String) → is_base64 s ≡ true → is_visible s ≡ true
is_visible-base64 String.[] h = refl
is_visible-base64 (String.◌∷◌ c s) h = ground (arith, is_visible-base64 s, h)

has_dollar : String → Bool
has_dollar String.[] = false
has_dollar (String.◌∷◌ c s) = (code c == b'$') || has_dollar s

has_dollar-base64 : (s : String) → is_base64 s ≡ true → has_dollar s ≡ false
unfolding has_dollar
has_dollar-base64 String.[] h = refl
has_dollar-base64 (String.◌∷◌ c s) h = ground (arith, has_dollar-base64 s, h)

cut_last-none : (s : String) → has_dollar s ≡ false → cut_last s ≡ none
unfolding has_dollar cut_last
cut_last-none String.[] h = refl
cut_last-none (String.◌∷◌ c s) h = rw (cut_last-none s (ground (arith, h))) (ground (arith, h))

dollar-append : (s : String) → "$" ++ s ≡ String.◌∷◌ dollar s
unfolding dollar
dollar-append s = append.cons (char_at "$" 0) "" s ∙ ap (String.◌∷◌ (char_at "$" 0)) (append.nil s)

cut_last-dollar : (s : String) → cut_last s ≡ none → cut_last (String.◌∷◌ dollar s) ≡ some ("", s)
unfolding cut_last dollar
cut_last-dollar s h = rw h refl

cut_last-append : (a b : String) → has_dollar b ≡ false → cut_last (a ++ ("$" ++ b)) ≡ some (a, b)
unfolding cut_last
cut_last-append String.[] b h =
    rw (append.nil ("$" ++ b), dollar-append b) (cut_last-dollar b (cut_last-none b h))
cut_last-append (String.◌∷◌ c a) b h =
    rw (append.cons c a ("$" ++ b)) (ground (arith, cut_last-append a b h))

is_visible-joined :
    (a b : String) → is_visible a ≡ true → is_visible b ≡ true → is_visible (a ++ ("$" ++ b)) ≡ true
unfolding dollar
is_visible-joined String.[] b ha hb = rw (append.nil ("$" ++ b), dollar-append b) hb
is_visible-joined (String.◌∷◌ c a) b ha hb =
    rw (append.cons c a ("$" ++ b)) (ground (arith, is_visible-joined a b, ha, hb))

is_word-append :
    (a b : String) → is_visible a ≡ true → is_visible b ≡ true → is_word (a ++ ("$" ++ b)) ≡ true
unfolding dollar
is_word-append String.[] b ha hb = rw (append.nil ("$" ++ b), dollar-append b) hb
is_word-append (String.◌∷◌ c a) b ha hb =
    rw (append.cons c a ("$" ++ b)) (ground (arith, is_visible-joined a b, ha, hb))

pub cut_prefix-append : (p s : String) → cut_prefix p (p ++ s) ≡ some s
unfolding cut_prefix
cut_prefix-append String.[] s = rw (append.nil s) refl
cut_prefix-append (String.◌∷◌ c p) s =
    rw (append.cons c p s) (ground (arith, cut_prefix-append p s))

module _ (crypto : Crypto) (encode_base64 : String → String) (packages : IsPackage crypto) where
  -- The two texts that follow the parameters.
  scan-hashed :
      (salt bytes : String)
      → IsEncoded crypto encode_base64 salt
      → IsEncoded crypto encode_base64 bytes
      → crypto.scan_hash (
          with_cost argon_memory argon_time argon_threads
            (encode_base64 salt ++ ("$" ++ encode_base64 bytes)))
        ≡ some (record {
          memory = argon_memory;
          time = argon_time;
          threads = argon_threads;
          rest = encode_base64 salt ++ ("$" ++ encode_base64 bytes);
        })
  scan-hashed salt bytes one two =
      packages.scans (encode_base64 salt ++ ("$" ++ encode_base64 bytes)) (
        is_word-append (encode_base64 salt) (encode_base64 bytes)
          (is_visible-base64 (encode_base64 salt) one.alphabet)
          (is_visible-base64 (encode_base64 bytes) two.alphabet))

  -- A hash that is made of a secret and a salt verifies another secret exactly where the digests of
  -- the two with that salt are the same text, and so it verifies its own secret.
  verify-hash :
      (salt secret other encoded : String)
      → IsEncoded crypto encode_base64 salt
      → IsEncoded crypto encode_base64 (digest crypto encode_base64 secret salt)
      → hash crypto encode_base64 (some salt) secret ≡ some encoded
      → verify crypto other encoded
        ≡ str_eq (digest crypto encode_base64 other salt) (digest crypto encode_base64 secret salt)
  unfolding verify hash
  verify-hash salt secret other encoded one two h =
      let bytes = digest crypto encode_base64 secret salt in
      let made : with_cost argon_memory argon_time argon_threads
            (encode_base64 salt ++ ("$" ++ encode_base64 bytes))
          ≡ encoded =
        cc h in
      rw
        (
          sym made,
          scan-hashed salt bytes one two,
          cut_last-append (encode_base64 salt) (encode_base64 bytes)
              (has_dollar-base64 (encode_base64 bytes) two.alphabet),
          one.decodes,
          two.decodes,
          packages.sized secret salt,
        )
        refl

  -- A row for a key that was issued: `Hash` gave the row's hash for the key's secret, with a salt
  -- that is encoded and decoded again, as the digest is.
  pub record IsIssued (key : Key) (salt : String) (row : ApiKey) : Type 0 where
    pub salt_coded : IsEncoded crypto encode_base64 salt
    pub digest_coded : IsEncoded crypto encode_base64 (digest crypto encode_base64 key.secret salt)
    pub hashed : hash crypto encode_base64 (some salt) key.secret ≡ some row.secret_hash

  -- A key was issued, and a request carries a well-formed key without space around it, for whose id
  -- the table gives the row of the issued key. The request is let through, as the row's distributor,
  -- where the digest of the secret that it carries is the digest of the issued secret under the same
  -- salt, and so where it carries the issued secret; with any other digest it is refused.
  pub authenticate-issued :
      (decoy salt : String) (keys : List ApiKey) (row : ApiKey) (key used : Key)
      → IsIssued key salt row
      → find_active used.id keys ≡ some row
      → IsWellFormed used
      → crypto.trim_space (written used) ≡ written used
      → (authenticate crypto decoy (some keys) ("Bearer " ++ written used)).distributor ≡ (
          if str_eq
            (digest crypto encode_base64 used.secret salt)
            (digest crypto encode_base64 key.secret salt)
          then some row.distributor_id
          else none)
  unfolding authenticate
  authenticate-issued decoy salt keys row key used issued there formed trimmed =
      rw
        (
          cut_prefix-append "Bearer " (written used),
          trimmed,
          (parse_lem (written used) used).1 (formed, refl),
          there,
          verify-hash salt key.secret used.secret row.secret_hash issued.salt_coded
              issued.digest_coded issued.hashed,
        )
        (ground arith)
