-- ===== src/Num/Words.antt =====
-- num/src/lib.rs: `impl_int` and `to_range`, for an unsigned type of `w` bits. `none` is a panic.
use Prim.Native.Nat.{bit_and, bit_or}
use bare_metal_blasterball.Base.{
  ℕ, zero, suc, ◌+◌, ◌-◌, ◌*◌, ◌/◌, ◌%◌, ◌^◌, Option, none, some, Bool, if◌then◌else◌, ltb, leb,
  ◌==◌, ◌>>=◌, ◌>>◌, assert,
}

-- `>>` and `<<` by less than `w` places, one place at a time.
unfoldable pub shr : ℕ → ℕ → ℕ
shr n zero = n
shr n (suc k) = shr (n / 2) k

unfoldable pub shl : ℕ → ℕ → ℕ → ℕ
shl w n zero = n
shl w n (suc k) = shl w (n * 2 % 2 ^ w) k

-- `!`
abbrev pub invert : ℕ → ℕ → ℕ
invert w n = 2 ^ w - 1 - n

pub data BitState : Type 0 where
  set : BitState
  unset : BitState

pub data Bound : Type 0 where
  included : ℕ → Bound
  excluded : ℕ → Bound
  unbounded : Bound

pub record Range : Type 0 where
  pub start : ℕ
  pub end : ℕ

-- `i + 1` of a `usize`
abbrev pub checked_suc : ℕ → Option ℕ
checked_suc i = if ltb (i + 1) (2 ^ 64) then some (i + 1) else none

unfoldable pub to_range : Bound → Bound → ℕ → Option Range
to_range start_bound end_bound max_length = do
  start ← elim start_bound [ included i ↦ some i | excluded i ↦ checked_suc i | unbounded ↦ some 0 ]
  end ← elim end_bound [
    | included i ↦ checked_suc i
    | excluded i ↦ some i
    | unbounded ↦ some (max_length - 1)
  ]
  some (record { start = start; end = end })

-- The three assertions about a range.
abbrev pub check_range : ℕ → Range → Option (Unit {0})
check_range w range = do
  assert (ltb range.start w)
  assert (leb range.end w)
  assert (ltb range.start range.end)

-- The assertion that the value fits the range: its bits above would be lost.
abbrev pub fits : ℕ → Range → ℕ → Bool
fits w range value =
    let unused = w - (range.end - range.start) in shr (shl w value unused) unused == value

abbrev pub mask_of : ℕ → Range → ℕ
mask_of w range =
    invert w (bit_and (shl w (invert w 0) range.start) (shr (invert w 0) (w - range.end)))

-- `*self & mask | (value << range.start)`
abbrev pub merge : ℕ → Range → ℕ → ℕ → ℕ
merge w range value n = bit_or (bit_and n (mask_of w range)) (shl w value range.start)

unfoldable pub set_bits : ℕ → Bound → Bound → ℕ → ℕ → Option ℕ
unfolding to_range
set_bits w start_bound end_bound value n = do
  range ← to_range start_bound end_bound w
  check_range w range
  assert (fits w range value)
  some (merge w range value n)

-- The five shifts
abbrev pub extract : ℕ → Range → ℕ → ℕ
extract w range n =
    let right_shift = range.start in
    let left_shift = w - range.end in
    shr (shr (shl w (shl w (shr n right_shift) right_shift) left_shift) left_shift) right_shift

unfoldable pub get_bits : ℕ → Bound → Bound → ℕ → Option ℕ
unfolding to_range
get_bits w start_bound end_bound n = do
  range ← to_range start_bound end_bound w
  check_range w range
  some (extract w range n)

unfoldable pub set_bit : ℕ → ℕ → ℕ → Option ℕ
set_bit w i n = do assert (ltb i w); some (bit_or n (shl w 1 i))

unfoldable pub unset_bit : ℕ → ℕ → ℕ → Option ℕ
unfolding set_bits
unset_bit w i n = do next ← checked_suc i; set_bits w (included i) (excluded next) 0 n

abbrev pub bit_state : ℕ → Option BitState
bit_state n = if n == 0 then some unset else if n == 1 then some set else none

unfoldable pub get_bit : ℕ → ℕ → ℕ → Option BitState
get_bit w i n = do assert (ltb i w); bit_state (bit_and (shr n i) 1)
