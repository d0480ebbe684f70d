-- ===== src/Sound/FormatLaws.antt =====
-- sound/src/lib.rs: the settings that were written to the format register are read back.
use bare_metal_blasterball.Base.{
  ℕ, ◌^◌, ◌<◌, ◌≤◌, ◌≡◌, Option, some, ◌>>=◌, arith, refl, ◌∙◌, inr, Bool, true, false,
}
use bare_metal_blasterball.Num.Words.{get_bit}
use bare_metal_blasterball.Num.Masks.{IsRange}
use bare_metal_blasterball.Num.Fields.{IsStored, store}
use bare_metal_blasterball.Num.Single.{put_bit, digit_of, state_of, get_bit_same, put_bit-IsStored}
use bare_metal_blasterball.Sound.Format.{
  SampleBaseRate, SampleBaseRateMultiple, multiple_bits, multiple_of, SampleBaseRateDivisor,
  divisor_bits, divisor_of, BitsPerSample, sample_size_bits, sample_size_of, NumOfChannels,
  channels_bits, channels_of, sample_base_rate, set_sample_base_rate, sample_base_rate_multiple,
  set_sample_base_rate_multiple, sample_base_rate_divisor, set_sample_base_rate_divisor,
  bits_per_sample, set_bits_per_sample, number_of_channels, set_number_of_channels, StreamFormat,
  set_format, khz44_p1, khz48, khz48_or_less, x2, x3, x4, by_one, by_two, by_three, by_four,
  by_five, by_six, by_seven, by_eight, bits_8, bits_16, bits_20, bits_24, bits_32, channels_one,
  channels_two, channels_three, channels_four, channels_five, channels_six, channels_seven,
  channels_eight, channels_nine, channels_ten, channels_eleven, channels_twelve, channels_thirteen,
  channels_fourteen, channels_fifteen, channels_sixteen,
}

multiple_of-multiple_bits : (x : SampleBaseRateMultiple) → multiple_of (multiple_bits x) ≡ some x
unfolding multiple_of
multiple_of-multiple_bits khz48_or_less = refl
multiple_of-multiple_bits x2 = refl
multiple_of-multiple_bits x3 = refl
multiple_of-multiple_bits x4 = refl

multiple_bits_lt : (x : SampleBaseRateMultiple) → multiple_bits x < 2 ^ 3
multiple_bits_lt khz48_or_less = omega arith
multiple_bits_lt x2 = omega arith
multiple_bits_lt x3 = omega arith
multiple_bits_lt x4 = omega arith

divisor_of-divisor_bits : (x : SampleBaseRateDivisor) → divisor_of (divisor_bits x) ≡ some x
unfolding divisor_of
divisor_of-divisor_bits by_one = refl
divisor_of-divisor_bits by_two = refl
divisor_of-divisor_bits by_three = refl
divisor_of-divisor_bits by_four = refl
divisor_of-divisor_bits by_five = refl
divisor_of-divisor_bits by_six = refl
divisor_of-divisor_bits by_seven = refl
divisor_of-divisor_bits by_eight = refl

divisor_bits_lt : (x : SampleBaseRateDivisor) → divisor_bits x < 2 ^ 3
divisor_bits_lt by_one = omega arith
divisor_bits_lt by_two = omega arith
divisor_bits_lt by_three = omega arith
divisor_bits_lt by_four = omega arith
divisor_bits_lt by_five = omega arith
divisor_bits_lt by_six = omega arith
divisor_bits_lt by_seven = omega arith
divisor_bits_lt by_eight = omega arith

sample_size_of-sample_size_bits : (x : BitsPerSample) → sample_size_of (sample_size_bits x) ≡ some x
unfolding sample_size_of
sample_size_of-sample_size_bits bits_8 = refl
sample_size_of-sample_size_bits bits_16 = refl
sample_size_of-sample_size_bits bits_20 = refl
sample_size_of-sample_size_bits bits_24 = refl
sample_size_of-sample_size_bits bits_32 = refl

sample_size_bits_lt : (x : BitsPerSample) → sample_size_bits x < 2 ^ 3
sample_size_bits_lt bits_8 = omega arith
sample_size_bits_lt bits_16 = omega arith
sample_size_bits_lt bits_20 = omega arith
sample_size_bits_lt bits_24 = omega arith
sample_size_bits_lt bits_32 = omega arith

channels_of-channels_bits : (x : NumOfChannels) → channels_of (channels_bits x) ≡ some x
unfolding channels_of
channels_of-channels_bits channels_one = refl
channels_of-channels_bits channels_two = refl
channels_of-channels_bits channels_three = refl
channels_of-channels_bits channels_four = refl
channels_of-channels_bits channels_five = refl
channels_of-channels_bits channels_six = refl
channels_of-channels_bits channels_seven = refl
channels_of-channels_bits channels_eight = refl
channels_of-channels_bits channels_nine = refl
channels_of-channels_bits channels_ten = refl
channels_of-channels_bits channels_eleven = refl
channels_of-channels_bits channels_twelve = refl
channels_of-channels_bits channels_thirteen = refl
channels_of-channels_bits channels_fourteen = refl
channels_of-channels_bits channels_fifteen = refl
channels_of-channels_bits channels_sixteen = refl

channels_bits_lt : (x : NumOfChannels) → channels_bits x < 2 ^ 4
channels_bits_lt channels_one = omega arith
channels_bits_lt channels_two = omega arith
channels_bits_lt channels_three = omega arith
channels_bits_lt channels_four = omega arith
channels_bits_lt channels_five = omega arith
channels_bits_lt channels_six = omega arith
channels_bits_lt channels_seven = omega arith
channels_bits_lt channels_eight = omega arith
channels_bits_lt channels_nine = omega arith
channels_bits_lt channels_ten = omega arith
channels_bits_lt channels_eleven = omega arith
channels_bits_lt channels_twelve = omega arith
channels_bits_lt channels_thirteen = omega arith
channels_bits_lt channels_fourteen = omega arith
channels_bits_lt channels_fifteen = omega arith
channels_bits_lt channels_sixteen = omega arith

word16 : 16 < 2 ^ 64
word16 = omega arith

range16 : (start end : ℕ) → start < end → end ≤ 16 → IsRange 16 start end
range16 start end o b = record { word = omega arith; order = o; bound = b }

abbrev is_khz44 : SampleBaseRate → Bool
is_khz44 khz44_p1 = true
is_khz44 khz48 = false

set_rate-IsStored :
    (r : SampleBaseRate) (n : ℕ)
    → n < 2 ^ 16
    → (y : ℕ) × (set_sample_base_rate r n ≡ some y)
      × (get_bit 16 14 y ≡ some (state_of (is_khz44 r)))
      × IsStored 16 14 15 (digit_of (is_khz44 r)) n y
unfolding set_sample_base_rate put_bit
set_rate-IsStored khz44_p1 n h = put_bit-IsStored true n word16 (omega arith) h
set_rate-IsStored khz48 n h = put_bit-IsStored false n word16 (omega arith) h

rate_read :
    (r : SampleBaseRate) (y : ℕ)
    → get_bit 16 14 y ≡ some (state_of (is_khz44 r))
    → sample_base_rate y ≡ some r
unfolding sample_base_rate
rate_read khz44_p1 y h = rw h
rate_read khz48 y h = rw h

-- A field of the register, that holds one of some settings.
field_read :
    {A : Type 0} (read : ℕ → Option A) (x : A) (v : ℕ) {o : Option ℕ}
    → read v ≡ some x
    → o ≡ some v
    → (o >>= read) ≡ some x
field_read read x v e h = rw h e

-- Whatever the register held, after the writes of `OutputStream::init` it reads back each setting that
-- was written: the rate, its multiple and divisor, the bits of a sample and the channels; none of
-- the writes panics.
pub set_format_lem :
    (f : StreamFormat) (n : ℕ)
    → n < 2 ^ 16
    → (y : ℕ) × (set_format f n ≡ some y)
      × (sample_base_rate y ≡ some f.rate)
      × (sample_base_rate_multiple y ≡ some f.rate_multiple)
      × (sample_base_rate_divisor y ≡ some f.rate_divisor)
      × (bits_per_sample y ≡ some f.sample_bits)
      × (number_of_channels y ≡ some f.channel_count)
unfolding set_format set_sample_base_rate_multiple set_sample_base_rate_divisor set_bits_per_sample
    set_number_of_channels sample_base_rate_multiple sample_base_rate_divisor bits_per_sample
    number_of_channels
set_format_lem f n h =
    let (a, ea, ra, sa) = set_rate-IsStored f.rate n h in
    let (b, eb, sb) =
      store (multiple_bits f.rate_multiple) a r11 (multiple_bits_lt f.rate_multiple) sa.small in
    let (c, ec, sc) =
      store (divisor_bits f.rate_divisor) b r8 (divisor_bits_lt f.rate_divisor) sb.small in
    let (d, ed, sd) =
      store (sample_size_bits f.sample_bits) c r4 (sample_size_bits_lt f.sample_bits) sc.small in
    let (y, ey, sy) =
      store (channels_bits f.channel_count) d r0 (channels_bits_lt f.channel_count) sd.small in
    let kept =
      sy.outside 14 (omega arith) (inr (omega arith))
      ∙ sd.outside 14 (omega arith) (inr (omega arith))
      ∙ sc.outside 14 (omega arith) (inr (omega arith))
      ∙ sb.outside 14 (omega arith) (inr (omega arith)) in
    (
      y,
      rw (ea, eb, ec, ed, ey),
      rate_read f.rate y (get_bit_same a y word16 (omega arith) sa.small sy.small kept ∙ ra),
      field_read multiple_of f.rate_multiple _ (multiple_of-multiple_bits f.rate_multiple) (
          sy.others r11 (inr (omega arith))
          ∙ sd.others r11 (inr (omega arith))
          ∙ sc.others r11 (inr (omega arith))
          ∙ sb.same),
      field_read divisor_of f.rate_divisor _ (divisor_of-divisor_bits f.rate_divisor)
          (sy.others r8 (inr (omega arith)) ∙ sd.others r8 (inr (omega arith)) ∙ sc.same),
      field_read sample_size_of f.sample_bits _ (sample_size_of-sample_size_bits f.sample_bits)
          (sy.others r4 (inr (omega arith)) ∙ sd.same),
      field_read channels_of f.channel_count _ (channels_of-channels_bits f.channel_count) sy.same,
    )
  where
    r0 : IsRange 16 0 4
    r0 = range16 0 4 (omega arith) (omega arith)

    r4 : IsRange 16 4 7
    r4 = range16 4 7 (omega arith) (omega arith)

    r8 : IsRange 16 8 11
    r8 = range16 8 11 (omega arith) (omega arith)

    r11 : IsRange 16 11 14
    r11 = range16 11 14 (omega arith) (omega arith)
