-- ===== src/Num/Ranges.antt =====
-- num/src/lib.rs: what `set_bits` promises.
use Prim.Native.Nat.{min, max}
use bare_metal_blasterball.Base.{
  ℕ, ◌+◌, ◌-◌, ◌^◌, ◌≤◌, ◌<◌, ◌≡◌, ◌⊎◌, inl, inr, sym, ap, ◌∙◌, arith, dec_lt, some, true, lt→ltb,
  leb-true, ==_true,
}
use bare_metal_blasterball.Num.Digits.{
  bit, bit_small, bit-bit_and, bit-bit_or, bit_high, bit_and_lt, bit_or_lt, bits_ext,
}
use bare_metal_blasterball.Num.Words.{
  shr, shl, included, excluded, to_range, check_range, fits, mask_of, merge, set_bits,
}
use bare_metal_blasterball.Num.Bits.{shr_le, shl_lt, shl-high, shl-low, pow_le}
use bare_metal_blasterball.Num.Masks.{
  IsRange, range_of, round_trip, lost, mask_inside, mask_outside, mask_lt,
}

-- The word has the bits of the value in the range, and those of another word outside it.
pub record IsMerged (w start end value n y : ℕ) : Type 0 where
  pub small : y < 2 ^ w
  pub inside : (i : ℕ) → start ≤ i → i < end → bit y i ≡ bit value (i - start)
  pub outside : (i : ℕ) → i < w → (i < start) ⊎ (end ≤ i) → bit y i ≡ bit n i

module _ {w start end : ℕ} (r : IsRange w start end) where
  open r use {word, order, bound}

  pub checks : check_range w (range_of start end) ≡ some tt
  checks = rw (lt→ltb start w (omega arith), leb-true end w bound, lt→ltb start end order)

  -- A value of as many bits as the range is a word.
  is_word : (value : ℕ) → value < 2 ^ (end - start) → value < 2 ^ w
  is_word value small = omega (arith, pow_le (end - start) w (omega arith))

  value_fits : (value : ℕ) → value < 2 ^ (end - start) → fits w (range_of start end) value ≡ true
  value_fits value small = ==_true _ value (bits_ext w _ value back_lt fit same)
    where
      fit : value < 2 ^ w
      fit = is_word value small

      back_lt : shr (shl w value (w - (end - start))) (w - (end - start)) < 2 ^ w
      back_lt = omega (
        arith,
        shr_le (shl w value (w - (end - start))) (w - (end - start)),
        shl_lt w value (w - (end - start)) fit,
      )

      same :
          (i : ℕ)
          → i < w
          → bit (shr (shl w value (w - (end - start))) (w - (end - start))) i ≡ bit value i
      same i l = elim (dec_lt i (end - start)) [
        | yes a ↦ round_trip r value (w - (end - start)) i fit (omega arith) (omega arith)
        | no a ↦
            lost r value (w - (end - start)) i fit (omega arith)
            ∙ sym (bit_high (end - start) value i small (omega arith))
      ]

  -- The word shifted to its place
  pub placed :
      (value i : ℕ)
      → value < 2 ^ w
      → start ≤ i
      → i < w
      → bit (shl w value start) i ≡ bit value (i - start)
  placed value i fit p l =
      let sum : i ≡ start + (i - start) = omega arith in
      ap (bit (shl w value start)) sum ∙ shl-high w value start (i - start) fit (omega arith)

  merged_bit :
      (value n i : ℕ)
      → bit (merge w (range_of start end) value n) i
        ≡ max (min (bit n i) (bit (mask_of w (range_of start end)) i)) (bit (shl w value start) i)
  merged_bit value n i =
      bit-bit_or _ _ i ∙ ap (λ x. max x (bit (shl w value start) i)) (bit-bit_and n _ i)

  merged_inside :
      (value n i : ℕ)
      → value < 2 ^ (end - start)
      → start ≤ i
      → i < end
      → bit (merge w (range_of start end) value n) i ≡ bit value (i - start)
  merged_inside value n i small p q = omega (
    arith,
    merged_bit value n i,
    mask_inside r i p q,
    placed value i (is_word value small) p (omega arith),
  )

  pub placed_outside :
      (value i : ℕ)
      → value < 2 ^ (end - start)
      → i < w
      → (i < start) ⊎ (end ≤ i)
      → bit (shl w value start) i ≡ 0
  placed_outside value i small l (inl a) =
      shl-low w value start i (is_word value small) (omega arith) a
  placed_outside value i small l (inr a) =
      placed value i (is_word value small) (omega arith) l
      ∙ bit_high (end - start) value (i - start) small (omega arith)

  merged_outside :
      (value n i : ℕ)
      → value < 2 ^ (end - start)
      → i < w
      → (i < start) ⊎ (end ≤ i)
      → bit (merge w (range_of start end) value n) i ≡ bit n i
  merged_outside value n i small l side = omega (
    arith,
    merged_bit value n i,
    mask_outside r i l side,
    placed_outside value i small l side,
    bit_small n i,
  )

  -- For a range of bits of a word, and a value of as many bits, `set_bits` returns without a panic. The
  -- word that it returns has the bits of the value in the range, and all other bits as before.
  pub set_bits_lem :
      (value n : ℕ)
      → value < 2 ^ (end - start)
      → n < 2 ^ w
      → (y : ℕ) × (set_bits w (included start) (excluded end) value n ≡ some y)
        × IsMerged w start end value n y
  unfolding set_bits to_range
  set_bits_lem value n small h = (
    merge w (range_of start end) value n,
    rw (checks, value_fits value small),
    record {
      small =
          bit_or_lt w _ _ (bit_and_lt w n _ h (mask_lt r))
            (shl_lt w value start (is_word value small));
      inside = λ i p q. merged_inside value n i small p q;
      outside = λ i l side. merged_outside value n i small l side;
    },
  )
