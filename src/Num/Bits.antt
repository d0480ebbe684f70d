-- ===== src/Num/Bits.antt =====
-- num/src/lib.rs: which bits the shifts, masks and inversions have.
use bare_metal_blasterball.Base.{
  ℕ, zero, suc, ◌+◌, ◌-◌, ◌*◌, ◌/◌, ◌%◌, ◌^◌, ◌≤◌, ◌<◌, ◌≡◌, refl, sym, ap, ◌∙◌, arith, dec_lt,
}
use bare_metal_blasterball.Num.Digits.{bit}
use bare_metal_blasterball.Num.Words.{shr, shl, invert}

pub bit-shr : (n k i : ℕ) → bit (shr n k) i ≡ bit n (k + i)
unfolding shr bit
bit-shr n zero i = let sum : i ≡ 0 + i = omega arith in ap (bit n) sum
bit-shr n (suc k) i =
    let sum : suc k + i ≡ suc (k + i) = omega arith in bit-shr (n / 2) k i ∙ sym (ap (bit n) sum)

pub shr_le : (n k : ℕ) → shr n k ≤ n
unfolding shr
shr_le n zero = omega arith
shr_le n (suc k) = omega (arith, shr_le (n / 2) k)

-- Twice a word, less what falls out at the top.
mod_high : (x m : ℕ) → m ≤ x → x < m + m → x % m ≡ x - m
mod_high x m h l = grind arith

mod_low : (x m : ℕ) → x < m → x % m ≡ x
mod_low x m h = grind arith

double_lt : (w n : ℕ) → n < 2 ^ w → n * 2 % 2 ^ w < 2 ^ w
double_lt w n h = grind arith

bit-sub : (v n j : ℕ) → j < v → 2 ^ v ≤ n → bit (n - 2 ^ v) j ≡ bit n j
unfolding bit
bit-sub zero n j l h = absurd (omega arith)
bit-sub (suc v) n zero l h = omega arith
bit-sub (suc v) n (suc j) l h =
    let half : (n - 2 ^ suc v) / 2 ≡ n / 2 - 2 ^ v = omega arith in
    rw half (bit-sub v (n / 2) j (omega arith) (omega arith))

double_low : (w n : ℕ) → n < 2 ^ suc w → bit (n * 2 % 2 ^ suc w) 0 ≡ 0
unfolding bit
double_low w n h = elim (dec_lt (n * 2) (2 ^ suc w)) [
  | yes l ↦ omega (arith, mod_low (n * 2) (2 ^ suc w) l)
  | no l ↦ omega (arith, mod_high (n * 2) (2 ^ suc w) (omega arith) (omega arith))
]

double_high : (w n j : ℕ) → n < 2 ^ suc w → j < w → bit (n * 2 % 2 ^ suc w) (suc j) ≡ bit n j
unfolding bit
double_high w n j h k = elim (dec_lt (n * 2) (2 ^ suc w)) [
  | yes l ↦ ap (λ x. bit x j) (omega (arith, mod_low (n * 2) (2 ^ suc w) l))
  | no l ↦
      (let half : n * 2 % 2 ^ suc w / 2 ≡ n - 2 ^ w =
          omega (arith, mod_high (n * 2) (2 ^ suc w) (omega arith) (omega arith)) in
        ap (λ x. bit x j) half ∙ bit-sub w n j k (omega arith))
]

pub shl_lt : (w n k : ℕ) → n < 2 ^ w → shl w n k < 2 ^ w
unfolding shl
shl_lt w n zero h = h
shl_lt w n (suc k) h = shl_lt w (n * 2 % 2 ^ w) k (double_lt w n h)

-- Bit `i` of a word shifted to the left by `k` is bit `i - k` of the word.
pub shl-high : (w n k i : ℕ) → n < 2 ^ w → k + i < w → bit (shl w n k) (k + i) ≡ bit n i
unfolding shl
shl-high w n zero i h l = ap (bit n) (omega arith)
shl-high zero n (suc k) i h l = absurd (omega arith)
shl-high (suc w) n (suc k) i h l =
    let sum : suc k + i ≡ k + suc i = omega arith in
    ap (bit (shl (suc w) (n * 2 % 2 ^ suc w) k)) sum
    ∙ shl-high (suc w) (n * 2 % 2 ^ suc w) k (suc i) (double_lt (suc w) n h) (omega arith)
    ∙ double_high w n i h (omega arith)

pub shl-low : (w n k i : ℕ) → n < 2 ^ w → k < w → i < k → bit (shl w n k) i ≡ 0
unfolding shl
shl-low w n zero i h m l = absurd (omega arith)
shl-low zero n (suc k) i h m l = absurd (omega arith)
shl-low (suc w) n (suc k) i h m l = elim (dec_lt i k) [
  | yes j ↦ shl-low (suc w) (n * 2 % 2 ^ suc w) k i (double_lt (suc w) n h) (omega arith) j
  | no j ↦
      (let same : i ≡ k + 0 = omega arith in
        ap (bit (shl (suc w) (n * 2 % 2 ^ suc w) k)) same
        ∙ shl-high (suc w) (n * 2 % 2 ^ suc w) k 0 (double_lt (suc w) n h) (omega arith)
        ∙ double_low w n h)
]

pub bit-invert : (w n i : ℕ) → n < 2 ^ w → i < w → bit (invert w n) i ≡ 1 - bit n i
unfolding bit
bit-invert zero n i h l = absurd (omega arith)
bit-invert (suc w) n zero h l = omega arith
bit-invert (suc w) n (suc i) h l =
    let half : invert (suc w) n / 2 ≡ invert w (n / 2) = omega arith in
    rw half (bit-invert w (n / 2) i (omega arith) (omega arith))

pub pow_pos : (w : ℕ) → 0 < 2 ^ w
pow_pos zero = omega arith
pow_pos (suc w) = omega (arith, pow_pos w)

pub pow_le : (a b : ℕ) → a ≤ b → 2 ^ a ≤ 2 ^ b
pow_le zero b h = pow_pos b
pow_le (suc a) zero h = absurd (omega arith)
pow_le (suc a) (suc b) h = omega (arith, pow_le a b (omega arith))

pub invert_lt : (w n : ℕ) → invert w n < 2 ^ w
invert_lt w n = omega (arith, pow_pos w)

zero-bit : (i : ℕ) → bit 0 i ≡ 0
unfolding bit
zero-bit zero = refl
zero-bit (suc i) = zero-bit i

-- `!0` has every bit.
pub bit-ones : (w i : ℕ) → i < w → bit (invert w 0) i ≡ 1
bit-ones w i l = omega (arith, bit-invert w 0 i (pow_pos w) l, zero-bit i)
