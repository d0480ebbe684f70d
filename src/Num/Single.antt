-- ===== src/Num/Single.antt =====
-- num/src/lib.rs: `set_bit`, `unset_bit` and `get_bit`.
use Prim.Native.Nat.{bit_and, bit_or}
use bare_metal_blasterball.Base.{
  ℕ, zero, suc, ◌+◌, ◌-◌, ◌%◌, ◌^◌, ◌≤◌, ◌<◌, ◌≡◌, ◌≢◌, ◌⊎◌, inl, inr, refl, sym, ap, ◌∙◌, arith,
  dec_lt, Option, some, lt→ltb, Bool, true, false, if◌then◌else◌,
}
use bare_metal_blasterball.Num.Digits.{
  bit, bit_small, bit-bit_and, bit-bit_or, bit_high, bit_and_lt, bit_or_lt, bits_ext,
}
use bare_metal_blasterball.Num.Words.{
  shr, shl, BitState, set, unset, set_bit, unset_bit, get_bit, bit_state,
}
use bare_metal_blasterball.Num.Bits.{bit-shr, shr_le, shl_lt, pow_le}
use bare_metal_blasterball.Num.Masks.{IsRange}
use bare_metal_blasterball.Num.Fields.{IsStored, IsMerged-IsStored}
use bare_metal_blasterball.Num.Ranges.{IsMerged, set_bits_lem, placed, placed_outside}

-- `if enable { n.set_bit(i) } else { n.unset_bit(i) }`
unfoldable pub put_bit : ℕ → ℕ → Bool → ℕ → Option ℕ
put_bit w i enable n = if enable then set_bit w i n else unset_bit w i n

abbrev pub digit_of : Bool → ℕ
digit_of true = 1
digit_of false = 0

abbrev pub state_of : Bool → BitState
state_of true = set
state_of false = unset

module _ {w i : ℕ} (word : w < 2 ^ 64) (l : i < w) where
  pub is_range : IsRange w i (i + 1)
  is_range = record { word = word; order = omega arith; bound = omega arith }

  digit_lt : (b : Bool) → digit_of b < 2 ^ (i + 1 - i)
  digit_lt true = omega (arith, pow_le 1 (i + 1 - i) (omega arith))
  digit_lt false = omega (arith, pow_le 0 (i + 1 - i) (omega arith))

  one_lt : 1 < 2 ^ w
  one_lt = omega (arith, pow_le 1 w (omega arith))

  one-bit : (j : ℕ) → j ≡ 0 → bit 1 j ≡ 1
  unfolding bit
  one-bit j e = rw e

  digit-bit : (b : Bool) (j : ℕ) → j ≡ 0 → bit (digit_of b) j ≡ digit_of b
  digit-bit true j e = one-bit j e
  digit-bit false j e = bit_high 0 0 j (omega arith) (omega arith)

  set-IsMerged : (n : ℕ) → n < 2 ^ w → IsMerged w i (i + 1) 1 n (bit_or n (shl w 1 i))
  set-IsMerged n h = record {
    small = bit_or_lt w n _ h (shl_lt w 1 i one_lt);
    inside = λ j p q. omega (
      arith,
      bit-bit_or n (shl w 1 i) j,
      placed is_range 1 j one_lt p (omega arith),
      one-bit (j - i) (omega arith),
      bit_small n j,
    );
    outside = λ j p side.
        omega
          (arith, bit-bit_or n (shl w 1 i) j, placed_outside is_range 1 j (digit_lt true) p side);
  }

  pub put_bit_lem :
      (enable : Bool) (n : ℕ)
      → n < 2 ^ w
      → (y : ℕ) × (put_bit w i enable n ≡ some y) × IsMerged w i (i + 1) (digit_of enable) n y
  unfolding put_bit set_bit unset_bit
  put_bit_lem true n h = (bit_or n (shl w 1 i), rw (lt→ltb i w l), set-IsMerged n h)
  put_bit_lem false n h =
      let (y, e, m) = set_bits_lem is_range 0 n (digit_lt false) h in
      let next = lt→ltb (i + 1) (2 ^ 64) (omega arith) in (y, rw next e, m)

  and_one : (x : ℕ) → x < 2 ^ w → bit_and x 1 ≡ bit x 0
  unfolding bit
  and_one x h = bits_ext w _ _ (bit_and_lt w x 1 h one_lt) (omega (arith, one_lt)) same
    where
      same : (j : ℕ) → j < w → bit (bit_and x 1) j ≡ bit (x % 2) j
      same zero q = omega (arith, bit-bit_and x 1 0)
      same (suc j) q = omega (
        arith,
        bit-bit_and x 1 (suc j),
        bit_high 1 1 (suc j) (omega arith) (omega arith),
        bit_high 1 (x % 2) (suc j) (omega arith) (omega arith),
      )

  pub get_bit_lem :
      (n : ℕ) (b : Bool) → n < 2 ^ w → bit n i ≡ digit_of b → get_bit w i n ≡ some (state_of b)
  unfolding get_bit
  get_bit_lem n b h e =
      let here : i + 0 ≡ i = omega arith in
      let low : bit_and (shr n i) 1 ≡ digit_of b =
        and_one (shr n i) (omega (arith, shr_le n i)) ∙ bit-shr n i 0 ∙ ap (bit n) here ∙ e in
      rw (lt→ltb i w l, low) (state b)
    where
      state : (b : Bool) → bit_state (digit_of b) ≡ some (state_of b)
      state true = refl
      state false = refl

  -- `get_bit` of a word that was merged at the bit.
  pub get_bit_merged :
      (b : Bool) (n y : ℕ)
      → IsMerged w i (i + 1) (digit_of b) n y
      → get_bit w i y ≡ some (state_of b)
  get_bit_merged b n y m =
      get_bit_lem y b m.small
        (m.inside i (omega arith) (omega arith) ∙ digit-bit b (i - i) (omega arith))

bool_of : (d : ℕ) → d ≤ 1 → (b : Bool) × (d ≡ digit_of b)
bool_of zero h = (false, refl)
bool_of (suc d) h = (true, omega arith)

-- Where a bit of two words is the same, `get_bit` returns the same.
pub get_bit_same :
    {w j : ℕ} (n y : ℕ)
    → w < 2 ^ 64
    → j < w
    → n < 2 ^ w
    → y < 2 ^ w
    → bit y j ≡ bit n j
    → get_bit w j y ≡ get_bit w j n
get_bit_same {j = j} n y word k h h' same =
    let (c, e) = bool_of (bit n j) (bit_small n j) in
    get_bit_lem word k y c h' (same ∙ e) ∙ sym (get_bit_lem word k n c h e)

side : {i j : ℕ} → j ≢ i → Dec (j < i) → (j < i) ⊎ (i + 1 ≤ j)
side ne (yes l) = inl l
side ne (no l) = inr (omega arith)

-- Of a bit of a word, `get_bit` after `set_bit` or `unset_bit` returns what was set, and no other bit
-- changes; neither call panics.
pub get_bit-put_bit :
    {w i : ℕ} (enable : Bool) (n : ℕ)
    → w < 2 ^ 64
    → i < w
    → n < 2 ^ w
    → (y : ℕ) × (put_bit w i enable n ≡ some y)
      × (get_bit w i y ≡ some (state_of enable))
      × ((j : ℕ) → j < w → j ≢ i → get_bit w j y ≡ get_bit w j n)
get_bit-put_bit enable n word l h =
    let (y, e, m) = put_bit_lem word l enable n h in
    (
      y,
      e,
      get_bit_merged word l enable n y m,
      λ j k ne. get_bit_same n y word k h m.small (m.outside j k (side ne (dec_lt j _))),
    )

-- A bit that was written, as a range of one bit.
pub put_bit-IsStored :
    {w i : ℕ} (enable : Bool) (n : ℕ)
    → w < 2 ^ 64
    → i < w
    → n < 2 ^ w
    → (y : ℕ) × (put_bit w i enable n ≡ some y)
      × (get_bit w i y ≡ some (state_of enable))
      × IsStored w i (i + 1) (digit_of enable) n y
put_bit-IsStored enable n word l h =
    let (y, e, m) = put_bit_lem word l enable n h in
    (
      y,
      e,
      get_bit_merged word l enable n y m,
      IsMerged-IsStored (is_range word l) (digit_lt word l enable) h m,
    )
