-- ===== src/Auth/Admission.antt =====
-- Whom the middleware lets through.
use booking_orchestration_se.Base.{
  String, true, false, Option, none, some, List, [], ◌∷◌, ◌≡◌, ◌⊎◌, inl, inr, refl, arith, str_eq,
  Bool-cases, false,
}
use booking_orchestration_se.Auth.Key.{Key, parse}
use booking_orchestration_se.Auth.Middleware.{
  Crypto, ApiKey, Verdict, Effect, looked_for, verified, verify, find_active, authenticate,
  cut_prefix, found, credential, bearer, looked_up,
}

abbrev pub IsIn : ApiKey → List ApiKey → Type 0
IsIn k [] = ⊥
IsIn k (j ∷ ks) = (k ≡ j) ⊎ IsIn k ks

find_active-IsIn :
    (id : String) (ks : List ApiKey) (k : ApiKey)
    → find_active id ks ≡ some k
    → IsIn k ks × (str_eq k.key_id id ≡ true) × (k.revoked ≡ false)
unfolding find_active
find_active-IsIn id [] k h = ground arith
find_active-IsIn id (j ∷ ks) k h = ground (arith, find_active-IsIn id ks k)

-- A table's row that vouches for a credential.
abbrev pub IsVouched : Crypto → List ApiKey → Key → String → Type 0
IsVouched crypto ks key d =
    (row : ApiKey) × IsIn row ks
    × (str_eq row.key_id key.id ≡ true)
    × (row.revoked ≡ false)
    × (verify crypto key.secret row.secret_hash ≡ true)
    × (row.distributor_id ≡ d)

-- One lookup of the id and one verification of the secret.
abbrev pub IsOneTrial : Key → List Effect → Type 0
IsOneTrial key done = (hash : String) × (done ≡ looked_for key.id ∷ verified key.secret hash ∷ [])

-- The credential of a header, if it has one.
abbrev pub key_in : Crypto → Option String → Option Key
key_in crypto none = none
key_in crypto (some raw) = parse (crypto.trim_space raw)

module _ (crypto : Crypto) (decoy : String) (keys : Option (List ApiKey)) where
  -- Refused: the table gives no row for the id, or its hash is not the secret's.
  abbrev pub IsRefused : Key → Verdict → Type 0
  IsRefused key v =
      (v.distributor ≡ none)
      × ((looked_up crypto decoy keys key.id ≡ none)
          ⊎ ((row : ApiKey) × (looked_up crypto decoy keys key.id ≡ some row)
              × (verify crypto key.secret row.secret_hash ≡ false)))

  abbrev pub IsAdmitted : Key → Verdict → Type 0
  IsAdmitted key v =
      (d : String) × (ks : List ApiKey) × (v.distributor ≡ some d)
      × (keys ≡ some ks)
      × IsVouched crypto ks key d

  -- What is to happen with a credential, or without one.
  abbrev pub IsJust : Option Key → Verdict → Type 0
  IsJust none v = (v.distributor ≡ none) × (v.effects ≡ [])
  IsJust (some key) v = IsOneTrial key v.effects × (IsRefused key v ⊎ IsAdmitted key v)

  bearer-credential :
      (r : Option String)
      → bearer crypto decoy keys r ≡ credential crypto decoy keys (key_in crypto r)
  bearer-credential none = refl
  bearer-credential (some raw) = refl

  found-IsOneTrial :
      (key : Key) (r : Option ApiKey) → IsOneTrial key (found crypto decoy keys key r).effects
  found-IsOneTrial key none = (decoy, refl)
  found-IsOneTrial key (some row) = (row.secret_hash, ground arith)

  looked_up-IsIn :
      (all : Option (List ApiKey)) (id : String) (row : ApiKey)
      → looked_up crypto decoy all id ≡ some row
      → (ks : List ApiKey) × (all ≡ some ks)
        × IsIn row ks
        × (str_eq row.key_id id ≡ true)
        × (row.revoked ≡ false)
  looked_up-IsIn none id row h = ground arith
  looked_up-IsIn (some ks) id row h =
      let (inside, named, active) = find_active-IsIn id ks row h in
      (ks, refl, inside, named, active)

  found-IsJust :
      (key : Key) (r : Option ApiKey)
      → looked_up crypto decoy keys key.id ≡ r
      → IsRefused key (found crypto decoy keys key r)
        ⊎ IsAdmitted key (found crypto decoy keys key r)
  found-IsJust key none e = inl (refl, inl e)
  found-IsJust key (some row) e = elim (Bool-cases (verify crypto key.secret row.secret_hash)) [
    | inl right ↦ inr (
        let (ks, whole, inside, named, active) = looked_up-IsIn keys key.id row e in
        (row.distributor_id, ks, rw right refl, whole, (row, inside, named, active, right, refl)))
    | inr wrong ↦ inl (rw wrong refl, inr (row, e, wrong))
  ]

  credential-IsJust : (k : Option Key) → IsJust k (credential crypto decoy keys k)
  credential-IsJust none = (refl, refl)
  credential-IsJust (some key) = (
    found-IsOneTrial key (looked_up crypto decoy keys key.id),
    found-IsJust key (looked_up crypto decoy keys key.id) refl,
  )

  -- The middleware over the table of keys, or over a table that gives an error. A header without a
  -- credential is refused and asks nothing of the table. With one, the work is one lookup of its id
  -- and one verification of its secret, whether or not the id is known; the request is let through
  -- where an unrevoked row of the table has the id and its hash verifies the secret, as that row's
  -- distributor, and is refused where the lookup gives no row or the secret does not verify.
  pub authenticate-IsJust :
      (header : String)
      → IsJust (key_in crypto (cut_prefix "Bearer " header)) (authenticate crypto decoy keys header)
  unfolding authenticate
  authenticate-IsJust header =
      rw (bearer-credential (cut_prefix "Bearer " header))
        (credential-IsJust (key_in crypto (cut_prefix "Bearer " header)))
