-- ===== src/Memory/Addr.antt =====
-- machine/src/memory.rs: `Addr`, a 64-bit address of which the upper 17 bits are equal. An address is
-- the number that it wraps. `none` is a panic; an overflow of 64 bits is one too, in the profile
-- `dev`, in which cargo builds by default.
use bare_metal_blasterball.Base.{
  ℕ, ◌+◌, ◌-◌, ◌/◌, ◌%◌, ◌^◌, ◌≤◌, ◌<◌, ◌≡◌, Option, none, some, ◌==◌, ltb, leb, if◌then◌else◌,
  ◌>>=◌, arith, ◌⊎◌, inl, inr, dec_lt, ==_true, ==_false, leb-true, ltb-false, lt→ltb,
}

-- `Addr::new`: `n & 0xffff000000000000 != 0` asks for a bit from 48 on.
unfoldable pub new : ℕ → Option ℕ
new n =
    if n / 2 ^ 48 == 0
    then (if n / 2 ^ 47 % 2 == 1 then some (n + 0xffff000000000000) else some n)
    else none

-- `Addr::new_trunc`
unfoldable pub new_trunc : ℕ → Option ℕ
unfolding new
new_trunc n = new (n % 2 ^ 48)

-- `u64` addition and subtraction with overflow checks
abbrev pub add_u64 : ℕ → ℕ → Option ℕ
add_u64 a b = if ltb (a + b) (2 ^ 64) then some (a + b) else none

abbrev pub sub_u64 : ℕ → ℕ → Option ℕ
sub_u64 a b = if leb b a then some (a - b) else none

-- `Addr + u64`, `Addr + usize` and `+=`
unfoldable pub add : ℕ → ℕ → Option ℕ
unfolding new
add a n = do sum ← add_u64 a n; new sum

-- `Addr - u64`, and `Addr - Addr`
unfoldable pub sub : ℕ → ℕ → Option ℕ
unfolding new
sub a n = do diff ← sub_u64 a n; new diff

-- The addresses below 2^47 are the ones that the program runs in.
abbrev pub low_half : ℕ
low_half = 2 ^ 47

pub new_low : (n : ℕ) → n < low_half → new n ≡ some n
unfolding new
new_low n h = rw (==_true (n / 2 ^ 48) 0 (omega arith), ==_false (n / 2 ^ 47 % 2) 1 (omega arith))

pub add_low : (a n : ℕ) → a + n < low_half → add a n ≡ some (a + n)
unfolding add
add_low a n h = rw (lt→ltb (a + n) (2 ^ 64) (omega arith), new_low (a + n) h)

pub sub_low : (a n : ℕ) → n ≤ a → a < low_half → sub a n ≡ some (a - n)
unfolding sub
sub_low a n h k = rw (leb-true n a h, new_low (a - n) (omega arith))

new_high : (n : ℕ) → low_half ≤ n → n < 2 ^ 48 → new n ≡ some (n + 0xffff000000000000)
unfolding new
new_high n h k = rw (==_true (n / 2 ^ 48) 0 (omega arith), ==_true (n / 2 ^ 47 % 2) 1 (omega arith))

new_past : (n : ℕ) → 2 ^ 48 ≤ n → new n ≡ none
unfolding new
new_past n h = rw (==_false (n / 2 ^ 48) 0 (omega arith))

-- Of a number below 2^48 `new` makes an address with these low 48 bits whose upper 17 bits are all 0
-- or all 1, and it panics on every other number.
pub new_canonical :
    (n : ℕ)
    → ((n < 2 ^ 48)
        × (a : ℕ) × (new n ≡ some a)
        × (a % 2 ^ 48 ≡ n)
        × ((a / 2 ^ 47 ≡ 0) ⊎ (a / 2 ^ 47 ≡ 2 ^ 17 - 1)))
      ⊎ ((2 ^ 48 ≤ n) × (new n ≡ none))
new_canonical n = elim (dec_lt n low_half) [
  | yes k ↦ inl (omega arith, n, new_low n k, omega arith, omega arith)
  | no k ↦ elim (dec_lt n (2 ^ 48)) [
    | yes h ↦ inl (h, n + 0xffff000000000000, new_high n (omega arith) h, omega arith, omega arith)
    | no h ↦ inr (omega arith, new_past n (omega arith))
  ]
]

-- No offset, 0 included, can be added to an address of the upper half: `add` panics.
pub add_high : (n k : ℕ) → low_half ≤ n → n < 2 ^ 48 → (a : ℕ) × (new n ≡ some a) × (add a k ≡ none)
unfolding add
add_high n k h below = (
  n + 0xffff000000000000,
  new_high n h below,
  elim (dec_lt (n + 0xffff000000000000 + k) (2 ^ 64)) [
    | yes p ↦ rw (lt→ltb _ _ p) (new_past (n + 0xffff000000000000 + k) (omega arith))
    | no p ↦ rw (ltb-false (n + 0xffff000000000000 + k) (2 ^ 64) (omega arith))
  ],
)
