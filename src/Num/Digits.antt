-- ===== src/Num/Digits.antt =====
-- The binary digits of numbers, and what `bit_and` and `bit_or` do to them.
use Prim.Native.Nat.{min, max, bit_and, bit_or, digits, bit_and-bitwise, bit_or-bitwise}
use bare_metal_blasterball.Base.{
  ℕ, zero, suc, ◌+◌, ◌*◌, ◌/◌, ◌%◌, ◌^◌, ◌≤◌, ◌<◌, ◌≡◌, refl, sym, ap, ◌∙◌, arith,
}

-- Any operation on digits, where `z` is what it does once the first number has run out.
module _ (z : ℕ → ℕ) (f : ℕ → ℕ → ℕ) (out : (b : ℕ) → z b ≡ z (b / 2) * 2 + f 0 (b % 2)) where
  -- The count of digits to go does not matter, if it is large enough.
  count_irrelevant : (n m a b : ℕ) → a ≤ n → a ≤ m → digits z f n a b ≡ digits z f m a b
  count_irrelevant zero zero a b p q = refl
  count_irrelevant zero (suc m) zero b p q = refl
  count_irrelevant zero (suc m) (suc a) b p q = absurd (omega arith)
  count_irrelevant (suc n) zero zero b p q = refl
  count_irrelevant (suc n) zero (suc a) b p q = absurd (omega arith)
  count_irrelevant (suc n) (suc m) zero b p q = refl
  count_irrelevant (suc n) (suc m) (suc a) b p q =
      let rest = count_irrelevant n m (suc a / 2) (b / 2) (omega arith) (omega arith) in
      ap (λ r. r * 2 + f (suc a % 2) (b % 2)) rest

  pub digits_step :
      (a b : ℕ) → digits z f a a b ≡ digits z f (a / 2) (a / 2) (b / 2) * 2 + f (a % 2) (b % 2)
  digits_step zero b = out b
  digits_step (suc a) b =
      let rest = count_irrelevant a (suc a / 2) (suc a / 2) (b / 2) (omega arith) (omega arith) in
      ap (λ r. r * 2 + f (suc a % 2) (b % 2)) rest

and_step : (a b : ℕ) → bit_and a b ≡ bit_and (a / 2) (b / 2) * 2 + min (a % 2) (b % 2)
and_step a b =
    bit_and-bitwise a b
    ∙ digits_step (λ b. 0) min (λ b. omega arith) a b
    ∙ ap (λ r. r * 2 + min (a % 2) (b % 2)) (sym (bit_and-bitwise (a / 2) (b / 2)))

or_step : (a b : ℕ) → bit_or a b ≡ bit_or (a / 2) (b / 2) * 2 + max (a % 2) (b % 2)
or_step a b =
    bit_or-bitwise a b
    ∙ digits_step (λ b. b) max (λ b. omega arith) a b
    ∙ ap (λ r. r * 2 + max (a % 2) (b % 2)) (sym (bit_or-bitwise (a / 2) (b / 2)))

-- The digit with index `i`, the lowest first.
unfoldable pub bit : ℕ → ℕ → ℕ
bit n zero = n % 2
bit n (suc i) = bit (n / 2) i

pub bit_small : (n i : ℕ) → bit n i ≤ 1
unfolding bit
bit_small n zero = omega arith
bit_small n (suc i) = bit_small (n / 2) i

pub bit-bit_and : (a b i : ℕ) → bit (bit_and a b) i ≡ min (bit a i) (bit b i)
unfolding bit
bit-bit_and a b zero = omega (arith, and_step a b)
bit-bit_and a b (suc i) =
    let half : bit_and a b / 2 ≡ bit_and (a / 2) (b / 2) = omega (arith, and_step a b) in
    rw half (bit-bit_and (a / 2) (b / 2) i)

pub bit-bit_or : (a b i : ℕ) → bit (bit_or a b) i ≡ max (bit a i) (bit b i)
unfolding bit
bit-bit_or a b zero = omega (arith, or_step a b)
bit-bit_or a b (suc i) =
    let half : bit_or a b / 2 ≡ bit_or (a / 2) (b / 2) = omega (arith, or_step a b) in
    rw half (bit-bit_or (a / 2) (b / 2) i)

-- Two numbers of `w` digits are the same if their digits are.
pub bits_ext : (w a b : ℕ) → a < 2 ^ w → b < 2 ^ w → ((i : ℕ) → i < w → bit a i ≡ bit b i) → a ≡ b
unfolding bit
bits_ext zero a b p q h = omega arith
bits_ext (suc w) a b p q h =
    let low = h 0 (omega arith) in
    let high =
      bits_ext w (a / 2) (b / 2) (omega arith) (omega arith) (λ i l. h (suc i) (omega arith)) in
    omega arith

pub bit_or_lt : (w a b : ℕ) → a < 2 ^ w → b < 2 ^ w → bit_or a b < 2 ^ w
bit_or_lt zero a b p q =
    let left : a ≡ 0 = omega arith in
    let right : b ≡ 0 = omega arith in rw (left, right) (omega arith)
bit_or_lt (suc w) a b p q =
    omega (arith, or_step a b, bit_or_lt w (a / 2) (b / 2) (omega arith) (omega arith))

pub bit_and_lt : (w a b : ℕ) → a < 2 ^ w → b < 2 ^ w → bit_and a b < 2 ^ w
bit_and_lt zero a b p q =
    let left : a ≡ 0 = omega arith in
    let right : b ≡ 0 = omega arith in rw (left, right) (omega arith)
bit_and_lt (suc w) a b p q =
    omega (arith, and_step a b, bit_and_lt w (a / 2) (b / 2) (omega arith) (omega arith))

-- A number below `2 ^ w` has no digit from index `w` on.
pub bit_high : (w a i : ℕ) → a < 2 ^ w → w ≤ i → bit a i ≡ 0
unfolding bit
bit_high zero a zero p q = omega arith
bit_high zero a (suc i) p q = bit_high zero (a / 2) i (omega arith) (omega arith)
bit_high (suc w) a zero p q = absurd (omega arith)
bit_high (suc w) a (suc i) p q = bit_high w (a / 2) i (omega arith) (omega arith)

-- A number of `w` digits that has none from index `v` on is below `2 ^ v`.
pub bits_lt : (v w n : ℕ) → n < 2 ^ w → ((i : ℕ) → v ≤ i → i < w → bit n i ≡ 0) → n < 2 ^ v
unfolding bit
bits_lt zero w n h none =
    let gone : n ≡ 0 =
      bits_ext w n 0 h (omega arith)
        (λ i l. none i (omega arith) l ∙ sym (bit_high 0 0 i (omega arith) (omega arith))) in
    omega arith
bits_lt (suc v) zero n h none = omega (arith, power (suc v))
  where
    power : (k : ℕ) → 0 < 2 ^ k
    power zero = omega arith
    power (suc k) = omega (arith, power k)
bits_lt (suc v) (suc w) n h none =
    let half =
      bits_lt v w (n / 2) (omega arith) (λ i p q. none (suc i) (omega arith) (omega arith)) in
    omega arith
