-- ===== src/Decimal/Laws.antt =====
-- The decimal text of a number reads as that number: the fuel of `decimal` is enough.
use Prim.Native.Char.{code}
use Prim.Native.String.{char_at}
use Prim.Native.Nat.{◌%◌, ◌/◌}
use booking_orchestration_se.Base.{
  ℕ, zero, suc, ◌+◌, ◌*◌, ◌-◌, ◌<◌, String, ◌==◌, ◌≡◌, refl, arith, inl, inr, Bool-cases, ◌∙◌, ap,
}
use booking_orchestration_se.Decimal.{digits_of, decimal}

-- What a text of digits reads as, after digits that read as `before`.
abbrev pub read_after : ℕ → String → ℕ
read_after before String.[] = before
read_after before (String.◌∷◌ c s) = read_after (before * 10 + (code c - 48)) s

digit_code : (d : ℕ) → d < 10 → code (char_at "0123456789" d) - 48 ≡ d
digit_code zero h = refl
digit_code (suc zero) h = refl
digit_code (suc (suc zero)) h = refl
digit_code (suc (suc (suc zero))) h = refl
digit_code (suc (suc (suc (suc zero)))) h = refl
digit_code (suc (suc (suc (suc (suc zero))))) h = refl
digit_code (suc (suc (suc (suc (suc (suc zero)))))) h = refl
digit_code (suc (suc (suc (suc (suc (suc (suc zero))))))) h = refl
digit_code (suc (suc (suc (suc (suc (suc (suc (suc zero)))))))) h = refl
digit_code (suc (suc (suc (suc (suc (suc (suc (suc (suc zero))))))))) h = refl
digit_code (suc (suc (suc (suc (suc (suc (suc (suc (suc (suc d)))))))))) h = ground arith

digit_read :
    (before n : ℕ) (rest : String)
    → read_after before (String.◌∷◌ (char_at "0123456789" (n % 10)) rest)
      ≡ read_after (before * 10 + n % 10) rest
digit_read before n rest = rw (digit_code (n % 10) (omega arith)) refl

parts : (n : ℕ) → n / 10 * 10 + n % 10 ≡ n
parts n = omega arith

all_of : (n : ℕ) → n / 10 ≡ 0 → 0 * 10 + n % 10 ≡ n
all_of n h = omega (arith, h)

smaller : (n fuel : ℕ) → n < suc fuel → 0 < n / 10 → n / 10 < fuel
smaller n fuel h long = omega (arith, h, long)

digits_of-read :
    (fuel n : ℕ) (rest : String)
    → n < fuel
    → read_after 0 (digits_of fuel n rest) ≡ read_after n rest
unfolding digits_of
digits_of-read zero n rest h = ground arith
digits_of-read (suc fuel) n rest h =
    let shown = String.◌∷◌ (char_at "0123456789" (n % 10)) rest in
    elim (Bool-cases (n / 10 == 0)) [
      | inl short ↦
          rw short
            (digit_read 0 n rest ∙ ap (λ k. read_after k rest) (all_of n (ground (arith, short))))
      | inr long ↦ rw long (
          digits_of-read fuel (n / 10) shown (smaller n fuel h (ground (arith, long)))
          ∙ digit_read (n / 10) n rest
          ∙ ap (λ k. read_after k rest) (parts n))
    ]

-- Every number is written in digits that read as it.
pub decimal-read : (n : ℕ) → read_after 0 (decimal n) ≡ n
unfolding decimal
decimal-read n = digits_of-read (suc n) n "" (omega arith)
