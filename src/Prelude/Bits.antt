-- ===== src/Prelude/Bits.antt =====
-- Flags in a machine word: the conditions `a & f` of C, and `|`.
use Prim.Native.Nat.{
  ℕ, zero, suc, ◌+◌, ◌*◌, ◌/◌, ◌%◌, ◌≤◌, min, max, digits, bit_and-bitwise, bit_or-bitwise,
}
pub use Prim.Native.Nat.{bit_and, bit_or}
use mathlib.Core.Path.{◌≡◌, refl, ap}
use mathlib.Core.Bool.{Bool, not, ◌||◌}
use native.Mathlib.Omega.{arith}
use telepathy_haze.Prelude.Tests.{◌==◌}

-- The condition `a & f`.
abbrev pub has : ℕ → ℕ → Bool
has a f = not (bit_and a f == 0)

-- An operation on words, by one on digits, splits off the lowest digit.
module _ (z : ℕ → ℕ) (f : ℕ → ℕ → ℕ) (runs_out : (b : ℕ) → z b ≡ z (b / 2) * 2 + f 0 (b % 2)) where
  -- A word has no more digits than the word itself: two counts that are large enough agree.
  counts_agree : (a n m b : ℕ) → a ≤ n → a ≤ m → digits z f n a b ≡ digits z f m a b
  counts_agree (suc a) (suc n) (suc m) b p q =
      ap (λ d. d * 2 + f (suc a % 2) (b % 2))
        (counts_agree (suc a / 2) n m (b / 2) (omega arith) (omega arith))
  counts_agree (suc a) zero m b p q = absurd (omega arith)
  counts_agree (suc a) (suc n) zero b p q = absurd (omega arith)
  counts_agree zero (suc n) (suc m) b p q = refl
  counts_agree zero (suc n) zero b p q = refl
  counts_agree zero zero (suc m) b p q = refl
  counts_agree zero zero zero b p q = refl

  lowest_digit :
      (a b : ℕ) → digits z f a a b ≡ digits z f (a / 2) (a / 2) (b / 2) * 2 + f (a % 2) (b % 2)
  lowest_digit zero b = runs_out b
  lowest_digit (suc a) b =
      ap (λ d. d * 2 + f (suc a % 2) (b % 2))
        (counts_agree (suc a / 2) a (suc a / 2) (b / 2) (omega arith) (omega arith))

split_and : (a b : ℕ) → bit_and a b ≡ bit_and (a / 2) (b / 2) * 2 + min (a % 2) (b % 2)
split_and a b =
    let whole = bit_and-bitwise a b in
    let half = bit_and-bitwise (a / 2) (b / 2) in
    omega (arith, whole, half, lowest_digit (λ _. 0) min (λ b. omega arith) a b)

split_or : (a b : ℕ) → bit_or a b ≡ bit_or (a / 2) (b / 2) * 2 + max (a % 2) (b % 2)
split_or a b =
    let whole = bit_or-bitwise a b in
    let half = bit_or-bitwise (a / 2) (b / 2) in
    omega (arith, whole, half, lowest_digit (λ b. b) max (λ b. omega arith) a b)

-- The flags of the source, as digits.
no_flags : (n a : ℕ) → a ≤ n → bit_and a 0 ≡ 0
no_flags n zero p = bit_and-bitwise 0 0
no_flags (suc n) (suc a) p =
    let half = no_flags n (suc a / 2) (omega arith) in omega (arith, half, split_and (suc a) 0)
no_flags zero (suc a) p = absurd (omega arith)

flag_one : (a : ℕ) → bit_and a 1 ≡ a % 2
flag_one a = omega (arith, no_flags a (a / 2) (omega arith), split_and a 1)

flag_two : (a : ℕ) → bit_and a 2 ≡ a / 2 % 2 * 2
flag_two a = omega (arith, flag_one (a / 2), split_and a 2)

pub flag_four : (a : ℕ) → bit_and a 4 ≡ a / 4 % 2 * 4
flag_four a = omega (arith, flag_two (a / 2), split_and a 4)

pub has-one_or : (a b : ℕ) → has (bit_or a b) 1 ≡ (has a 1 || has b 1)
has-one_or a b = ground (arith, split_or a b, flag_one a, flag_one b, flag_one (bit_or a b))

pub has_four_or : (a b : ℕ) → has (bit_or a b) 4 ≡ (has a 4 || has b 4)
has_four_or a b =
    let second = split_or (a / 2) (b / 2) in
    let third = split_or (a / 2 / 2) (b / 2 / 2) in
    ground (arith, split_or a b, second, third, flag_four a, flag_four b, flag_four (bit_or a b))
