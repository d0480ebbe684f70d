-- ===== src/Num/Fields.antt =====
-- num/src/lib.rs: what `get_bits` returns, also after `set_bits`.
use bare_metal_blasterball.Base.{
  ℕ, ◌+◌, ◌-◌, ◌^◌, ◌≤◌, ◌<◌, ◌≡◌, ◌⊎◌, inl, inr, sym, ap, ◌∙◌, arith, dec_lt, some,
}
use bare_metal_blasterball.Num.Digits.{bit, bit_high, bits_lt, bits_ext}
use bare_metal_blasterball.Num.Words.{
  shr, shl, included, excluded, to_range, extract, set_bits, get_bits,
}
use bare_metal_blasterball.Num.Bits.{bit-shr, shr_le, shl_lt, shl-high, pow_le}
use bare_metal_blasterball.Num.Masks.{IsRange, range_of, round_trip, lost}
use bare_metal_blasterball.Num.Ranges.{IsMerged, checks, set_bits_lem}

module _ {w start end : ℕ} (r : IsRange w start end) where
  open r use {word, order, bound}

  bit-extract :
      (n i : ℕ)
      → n < 2 ^ w
      → bit (extract w (range_of start end) n) i
        ≡ bit (shr (shl w (shl w (shr n start) start) (w - end)) (w - end)) (start + i)
  bit-extract n i h = bit-shr _ start i

  shifted_lt : (n : ℕ) → n < 2 ^ w → shl w (shr n start) start < 2 ^ w
  shifted_lt n h = shl_lt w (shr n start) start (omega (arith, shr_le n start))

  pub extract_inside :
      (n i : ℕ)
      → n < 2 ^ w
      → start + i < end
      → bit (extract w (range_of start end) n) i ≡ bit n (start + i)
  extract_inside n i h l =
      bit-extract n i h
      ∙ round_trip r _ (w - end) (start + i) (shifted_lt n h) (omega arith) (omega arith)
      ∙ shl-high w (shr n start) start i (omega (arith, shr_le n start)) (omega arith)
      ∙ bit-shr n start i

  pub extract_outside :
      (n i : ℕ) → n < 2 ^ w → end ≤ start + i → bit (extract w (range_of start end) n) i ≡ 0
  extract_outside n i h l =
      bit-extract n i h ∙ lost r _ (w - end) (start + i) (shifted_lt n h) (omega arith)

  pub extract_lt : (n : ℕ) → n < 2 ^ w → extract w (range_of start end) n < 2 ^ w
  extract_lt n h = omega (
    arith,
    shr_le (shr (shl w (shl w (shr n start) start) (w - end)) (w - end)) start,
    shr_le (shl w (shl w (shr n start) start) (w - end)) (w - end),
    shl_lt w _ (w - end) (shifted_lt n h),
  )

  pub get_bits-extract :
      (n : ℕ)
      → get_bits w (included start) (excluded end) n ≡ some (extract w (range_of start end) n)
  unfolding get_bits to_range
  get_bits-extract n = rw checks

  -- The bits of a word that was merged are the value.
  pub extract_merged :
      (value n y : ℕ)
      → value < 2 ^ (end - start)
      → IsMerged w start end value n y
      → extract w (range_of start end) y ≡ value
  extract_merged value n y small m =
      bits_ext w _ value (extract_lt y m.small)
        (omega (arith, pow_le (end - start) w (omega arith))) same
    where
      same : (i : ℕ) → i < w → bit (extract w (range_of start end) y) i ≡ bit value i
      same i l = elim (dec_lt i (end - start)) [
        | yes a ↦
            (let back : start + i - start ≡ i = omega arith in
              extract_inside y i m.small (omega arith)
              ∙ m.inside (start + i) (omega arith) (omega arith)
              ∙ ap (bit value) back)
        | no a ↦
            extract_outside y i m.small (omega arith)
            ∙ sym (bit_high (end - start) value i small (omega arith))
      ]

  -- Of a range of bits of a word, `get_bits` after `set_bits` returns the value that was set.
  pub get_bits-set_bits :
      (value n : ℕ)
      → value < 2 ^ (end - start)
      → n < 2 ^ w
      → (y : ℕ) × (set_bits w (included start) (excluded end) value n ≡ some y)
        × (get_bits w (included start) (excluded end) y ≡ some value)
  get_bits-set_bits value n small h =
      let (y, e, m) = set_bits_lem r value n small h in
      (y, e, get_bits-extract y ∙ ap some (extract_merged value n y small m))

-- A word that was merged in another range has the same bits in this one.
pub extract_apart :
    {w start end start' end' : ℕ} (value n y : ℕ)
    → IsRange w start end
    → IsRange w start' end'
    → (end ≤ start') ⊎ (end' ≤ start)
    → n < 2 ^ w
    → IsMerged w start' end' value n y
    → extract w (range_of start end) y ≡ extract w (range_of start end) n
extract_apart {w} {start} {end} {start' = start'} {end' = end'} value n y r r' apart h m =
    bits_ext w _ _ (extract_lt r y m.small) (extract_lt r n h) same
  where
    away : (i : ℕ) → start + i < end → (start + i < start') ⊎ (end' ≤ start + i)
    away i l = elim apart [ inl a ↦ inl (omega arith) | inr a ↦ inr (omega arith) ]

    same :
        (i : ℕ)
        → i < w
        → bit (extract w (range_of start end) y) i ≡ bit (extract w (range_of start end) n) i
    same i l = elim (dec_lt (start + i) end) [
      | yes a ↦
          extract_inside r y i m.small a
          ∙ m.outside (start + i) (omega (arith, r.bound)) (away i a)
          ∙ sym (extract_inside r n i h a)
      | no a ↦
          extract_outside r y i m.small (omega arith) ∙ sym (extract_outside r n i h (omega arith))
    ]

-- Where two ranges of bits do not meet, `set_bits` of one leaves what `get_bits` of the other returns.
pub get_bits_apart :
    {w start end start' end' : ℕ} (value n : ℕ)
    → IsRange w start end
    → IsRange w start' end'
    → (end ≤ start') ⊎ (end' ≤ start)
    → value < 2 ^ (end' - start')
    → n < 2 ^ w
    → (y : ℕ) × (set_bits w (included start') (excluded end') value n ≡ some y)
      × (get_bits w (included start) (excluded end) y
          ≡ get_bits w (included start) (excluded end) n)
get_bits_apart value n r r' apart small h =
    let (y, e, m) = set_bits_lem r' value n small h in
    (
      y,
      e,
      get_bits-extract r y
          ∙ ap some (extract_apart value n y r r' apart h m)
          ∙ sym (get_bits-extract r n),
    )

-- A range inside the one that was merged has bits of the value.
extract_within :
    {w start end s e : ℕ} (value n y : ℕ)
    → IsRange w start end
    → IsRange w s e
    → start ≤ s
    → e ≤ end
    → value < 2 ^ (end - start)
    → IsMerged w start end value n y
    → extract w (range_of s e) y ≡ extract w (range_of (s - start) (e - start)) value
extract_within {w} {start} {end} {s} {e} value n y r r' p q small m =
    bits_ext w _ _ (extract_lt r' y m.small) (extract_lt inner value fit) same
  where
    fit : value < 2 ^ w
    fit = omega (arith, pow_le (end - start) w (omega (arith, r.bound)))

    inner : IsRange w (s - start) (e - start)
    inner = record {
      word = r.word;
      order = omega (arith, r'.order);
      bound = omega (arith, r'.bound);
    }

    same :
        (i : ℕ)
        → i < w
        → bit (extract w (range_of s e) y) i
          ≡ bit (extract w (range_of (s - start) (e - start)) value) i
    same i l = elim (dec_lt (s + i) e) [
      | yes a ↦
          (let back : s + i - start ≡ s - start + i = omega arith in
            extract_inside r' y i m.small a
            ∙ m.inside (s + i) (omega arith) (omega arith)
            ∙ ap (bit value) back
            ∙ sym (extract_inside inner value i fit (omega arith)))
      | no a ↦
          extract_outside r' y i m.small (omega arith)
          ∙ sym (extract_outside inner value i fit (omega arith))
    ]

merged_lt :
    {w start end : ℕ} (v value n y : ℕ)
    → IsRange w start end
    → end ≤ v
    → n < 2 ^ v
    → IsMerged w start end value n y
    → y < 2 ^ v
merged_lt {w} v value n y r p h m =
    bits_lt v w y m.small (λ i q l. m.outside i l (inr (omega arith)) ∙ bit_high v n i h q)

-- What a store of a value in a range of bits leaves: the range reads back as the value, and a range
-- apart from it as it did before.
pub record IsStored (w start end value n y : ℕ) : Type 0 where
  pub small : y < 2 ^ w
  pub same : get_bits w (included start) (excluded end) y ≡ some value
  pub others :
      {s e : ℕ}
      → IsRange w s e
      → (e ≤ start) ⊎ (end ≤ s)
      → get_bits w (included s) (excluded e) y ≡ get_bits w (included s) (excluded e) n
  pub within :
      {s e : ℕ}
      → IsRange w s e
      → start ≤ s
      → e ≤ end
      → get_bits w (included s) (excluded e) y
        ≡ get_bits w (included (s - start)) (excluded (e - start)) value
  pub outside : (i : ℕ) → i < w → (i < start) ⊎ (end ≤ i) → bit y i ≡ bit n i
  pub bounded : (v : ℕ) → end ≤ v → n < 2 ^ v → y < 2 ^ v

pub IsMerged-IsStored :
    {w start end : ℕ} {value n y : ℕ}
    → IsRange w start end
    → value < 2 ^ (end - start)
    → n < 2 ^ w
    → IsMerged w start end value n y
    → IsStored w start end value n y
IsMerged-IsStored {value = value} {n = n} {y = y} r small h m = record {
  small = m.small;
  same = get_bits-extract r y ∙ ap some (extract_merged r value n y small m);
  others = λ r' apart.
      get_bits-extract r' y
      ∙ ap some (extract_apart value n y r' r apart h m)
      ∙ sym (get_bits-extract r' n);
  within = λ r' p q.
      get_bits-extract r' y
      ∙ ap some (extract_within value n y r r' p q small m)
      ∙ sym (
          get_bits-extract
            (record {
              word = r'.word;
              order = omega (arith, r'.order);
              bound = omega (arith, r'.bound);
            })
            value);
  outside = m.outside;
  bounded = λ v p k. merged_lt v value n y r p k m;
}

pub store :
    {w start end : ℕ} (value n : ℕ)
    → IsRange w start end
    → value < 2 ^ (end - start)
    → n < 2 ^ w
    → (y : ℕ) × (set_bits w (included start) (excluded end) value n ≡ some y)
      × IsStored w start end value n y
store value n r small h =
    let (y, e, m) = set_bits_lem r value n small h in (y, e, IsMerged-IsStored r small h m)
