-- ===== src/Config/Word.antt =====
-- The 64-bit words of durations and counts, in two's complement: a word is a number below 2^64, and
-- one from 2^63 on stands for a negative number.
use Prim.Native.Nat.{◌%◌, ◌^◌}
use booking_orchestration_se.Base.{ℕ, ◌+◌, ◌*◌, ◌<◌, ◌≡◌, Bool, ltb, arith}

abbrev pub plus : ℕ → ℕ → ℕ
plus a b = (a + b) % 2 ^ 64

abbrev pub times : ℕ → ℕ → ℕ
times k a = (k * a) % 2 ^ 64

-- The order of the numbers that the words stand for.
abbrev pub less : ℕ → ℕ → Bool
less a b = ltb ((a + 2 ^ 63) % 2 ^ 64) ((b + 2 ^ 63) % 2 ^ 64)

pub plus_small : (a b : ℕ) → a + b < 2 ^ 63 → plus a b ≡ a + b
plus_small a b h = omega arith

pub times_small : (k a : ℕ) → k * a < 2 ^ 63 → times k a ≡ k * a
times_small k a h = ground arith

pub less_small : (a b : ℕ) → a < 2 ^ 63 → b < 2 ^ 63 → less a b ≡ ltb a b
less_small a b ha hb = ground arith
