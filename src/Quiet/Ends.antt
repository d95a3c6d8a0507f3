-- ===== src/Quiet/Ends.antt =====
-- Where the walk ends.
use booking_orchestration_se.Base.{
  ℕ, zero, suc, ◌≡◌, inl, inr, true, false, List, ◌∷◌, arith, Bool-cases, Bool,
}
use booking_orchestration_se.Model.Status.{Status, unknown, confirmed, rejected, failed, is_open}
use booking_orchestration_se.Supplier.Client.{BookRequest, Client, Outcome}
use booking_orchestration_se.Store.Rows.{sent_status, is_doubtful}
use booking_orchestration_se.Quiet.Spec.{is_supplied, is_again, status_after, given_up, walk}
use booking_orchestration_se.Quiet.Walk.{walk_again, walk_last, walk_zero}

abbrev pub is_at_rest : Status → Bool
is_at_rest confirmed = true
is_at_rest rejected = true
is_at_rest failed = true
is_at_rest unknown = true
is_at_rest _ = false

given_up-rests : (s : Status) → is_doubtful s ≡ true → is_at_rest (given_up s) ≡ true
given_up-rests s d = ground arith

sent-doubtful : (s : Status) → is_open s ≡ true → is_doubtful (sent_status s) ≡ true
sent-doubtful s h = ground arith

doubtful-open : (s : Status) → is_doubtful s ≡ true → is_open s ≡ true
doubtful-open s h = ground arith

status_after-rests :
    (o : Outcome) (s : Status)
    → is_supplied o ≡ true
    → is_again o ≡ false
    → is_at_rest (status_after o s) ≡ true
status_after-rests o s u e = ground arith

status_after-doubtful :
    (o : Outcome) (s : Status)
    → is_again o ≡ true
    → is_doubtful s ≡ true
    → is_doubtful (status_after o s) ≡ true
status_after-doubtful o s e d = ground arith

module _ (client : Client) (req : BookRequest)
    (real : (calls : List BookRequest) (req : BookRequest)
      → is_supplied (client calls req).outcome ≡ true) where
  doubtful_rests :
      (left : ℕ) (calls : List BookRequest) (s : Status)
      → is_doubtful s ≡ true
      → is_at_rest (walk client req left calls s) ≡ true
  doubtful_rests zero calls s d = rw (walk_zero client req calls s) (given_up-rests s d)
  doubtful_rests (suc left) calls s d = elim (Bool-cases (is_again (client calls req).outcome)) [
    | inl e ↦ rw (walk_again client req left calls s e) (
        doubtful_rests left (req ∷ calls) (status_after (client calls req).outcome (sent_status s))
          (status_after-doubtful (client calls req).outcome (sent_status s) e
            (sent-doubtful s (doubtful-open s d))))
    | inr e ↦
        rw (walk_last client req left calls s e)
          (status_after-rests (client calls req).outcome (sent_status s) (real calls req) e)
  ]

  -- A walk of one attempt or more comes to rest.
  pub walk-rests :
      (left : ℕ) (calls : List BookRequest) (s : Status)
      → is_open s ≡ true
      → is_at_rest (walk client req (suc left) calls s) ≡ true
  walk-rests left calls s o = elim (Bool-cases (is_again (client calls req).outcome)) [
    | inl e ↦ rw (walk_again client req left calls s e) (
        doubtful_rests left (req ∷ calls) (status_after (client calls req).outcome (sent_status s))
          (status_after-doubtful (client calls req).outcome (sent_status s) e (sent-doubtful s o)))
    | inr e ↦
        rw (walk_last client req left calls s e)
          (status_after-rests (client calls req).outcome (sent_status s) (real calls req) e)
  ]
