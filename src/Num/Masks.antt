-- ===== src/Num/Masks.antt =====
-- num/src/lib.rs: the mask of `set_bits`, and shifts there and back.
use Prim.Native.Nat.{bit_and}
use bare_metal_blasterball.Base.{ℕ, ◌+◌, ◌-◌, ◌^◌, ◌≤◌, ◌<◌, ◌≡◌, ◌⊎◌, inl, inr, ap, ◌∙◌, arith}
use bare_metal_blasterball.Num.Digits.{bit, bit-bit_and, bit_high, bit_and_lt}
use bare_metal_blasterball.Num.Words.{shr, shl, invert, Range, mask_of}
use bare_metal_blasterball.Num.Bits.{
  bit-shr, shr_le, shl_lt, shl-high, shl-low, bit-invert, invert_lt, bit-ones,
}

-- A range of bits of a word
pub record IsRange (w start end : ℕ) : Type 0 where
  pub word : w < 2 ^ 64
  pub order : start < end
  pub bound : end ≤ w

abbrev pub range_of : ℕ → ℕ → Range
range_of start end = record { start = start; end = end }

module _ {w start end : ℕ} (r : IsRange w start end) where
  open r use {word, order, bound}

  -- Bits that are shifted out at the top, and back, are lost; the others stay.
  pub round_trip : (n k i : ℕ) → n < 2 ^ w → k < w → k + i < w → bit (shr (shl w n k) k) i ≡ bit n i
  round_trip n k i h l m = bit-shr (shl w n k) k i ∙ shl-high w n k i h m

  pub lost : (n k i : ℕ) → n < 2 ^ w → w ≤ k + i → bit (shr (shl w n k) k) i ≡ 0
  lost n k i h l = bit-shr (shl w n k) k i ∙ bit_high w (shl w n k) (k + i) (shl_lt w n k h) l

  abbrev ones : ℕ
  ones = invert w 0

  abbrev high : ℕ
  high = shl w ones start

  abbrev low : ℕ
  low = shr ones (w - end)

  high_set : (i : ℕ) → start ≤ i → i < w → bit high i ≡ 1
  high_set i p l =
      let sum : i ≡ start + (i - start) = omega arith in
      ap (bit high) sum
      ∙ shl-high w ones start (i - start) (invert_lt w 0) (omega arith)
      ∙ bit-ones w (i - start) (omega arith)

  high_unset : (i : ℕ) → i < start → bit high i ≡ 0
  high_unset i l = shl-low w ones start i (invert_lt w 0) (omega arith) l

  low_set : (i : ℕ) → i < end → bit low i ≡ 1
  low_set i l = bit-shr ones (w - end) i ∙ bit-ones w (w - end + i) (omega arith)

  low_unset : (i : ℕ) → end ≤ i → bit low i ≡ 0
  low_unset i l =
      bit-shr ones (w - end) i ∙ bit_high w ones (w - end + i) (invert_lt w 0) (omega arith)

  both_lt : bit_and high low < 2 ^ w
  both_lt =
      bit_and_lt w high low (shl_lt w ones start (invert_lt w 0))
        (omega (arith, shr_le ones (w - end), invert_lt w 0))

  pub mask_inside : (i : ℕ) → start ≤ i → i < end → bit (mask_of w (range_of start end)) i ≡ 0
  mask_inside i p q = omega (
    arith,
    bit-invert w (bit_and high low) i both_lt (omega arith),
    bit-bit_and high low i,
    high_set i p (omega arith),
    low_set i q,
  )

  pub mask_outside :
      (i : ℕ) → i < w → (i < start) ⊎ (end ≤ i) → bit (mask_of w (range_of start end)) i ≡ 1
  mask_outside i l (inl a) =
      omega
        (arith, bit-invert w (bit_and high low) i both_lt l, bit-bit_and high low i, high_unset i a)
  mask_outside i l (inr a) =
      omega
        (arith, bit-invert w (bit_and high low) i both_lt l, bit-bit_and high low i, low_unset i a)

  pub mask_lt : mask_of w (range_of start end) < 2 ^ w
  mask_lt = invert_lt w _
