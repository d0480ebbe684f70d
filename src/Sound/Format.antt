-- ===== src/Sound/Format.antt =====
-- sound/src/lib.rs: `HDAStreamDescriptorFormatReg`, and the settings that it holds. `none` is a panic, of
-- `unwrap`.
use bare_metal_blasterball.Base.{ℕ, Option, none, some, ◌>>=◌, ◌==◌, if◌then◌else◌}
use bare_metal_blasterball.Num.Words.{
  set, unset, included, excluded, set_bits, get_bits, set_bit, unset_bit, get_bit,
}

pub data SampleBaseRate : Type 0 where
  khz44_p1 : SampleBaseRate
  khz48 : SampleBaseRate

pub data SampleBaseRateMultiple : Type 0 where
  khz48_or_less : SampleBaseRateMultiple
  x2 : SampleBaseRateMultiple
  x3 : SampleBaseRateMultiple
  x4 : SampleBaseRateMultiple

abbrev pub multiple_bits : SampleBaseRateMultiple → ℕ
multiple_bits khz48_or_less = 0
multiple_bits x2 = 1
multiple_bits x3 = 2
multiple_bits x4 = 3

-- `try_into`
unfoldable pub multiple_of : ℕ → Option SampleBaseRateMultiple
multiple_of n =
    if n == 0
    then some khz48_or_less
    else if n == 1
    then some x2
    else if n == 2
    then some x3
    else if n == 3
    then some x4
    else none

pub data SampleBaseRateDivisor : Type 0 where
  by_one : SampleBaseRateDivisor
  by_two : SampleBaseRateDivisor
  by_three : SampleBaseRateDivisor
  by_four : SampleBaseRateDivisor
  by_five : SampleBaseRateDivisor
  by_six : SampleBaseRateDivisor
  by_seven : SampleBaseRateDivisor
  by_eight : SampleBaseRateDivisor

abbrev pub divisor_bits : SampleBaseRateDivisor → ℕ
divisor_bits by_one = 0
divisor_bits by_two = 1
divisor_bits by_three = 2
divisor_bits by_four = 3
divisor_bits by_five = 4
divisor_bits by_six = 5
divisor_bits by_seven = 6
divisor_bits by_eight = 7

-- `try_into`
unfoldable pub divisor_of : ℕ → Option SampleBaseRateDivisor
divisor_of n =
    if n == 0
    then some by_one
    else if n == 1
    then some by_two
    else if n == 2
    then some by_three
    else if n == 3
    then some by_four
    else if n == 4
    then some by_five
    else if n == 5
    then some by_six
    else if n == 6
    then some by_seven
    else if n == 7
    then some by_eight
    else none

pub data BitsPerSample : Type 0 where
  bits_8 : BitsPerSample
  bits_16 : BitsPerSample
  bits_20 : BitsPerSample
  bits_24 : BitsPerSample
  bits_32 : BitsPerSample

abbrev pub sample_size_bits : BitsPerSample → ℕ
sample_size_bits bits_8 = 0
sample_size_bits bits_16 = 1
sample_size_bits bits_20 = 2
sample_size_bits bits_24 = 3
sample_size_bits bits_32 = 4

-- `try_into`
unfoldable pub sample_size_of : ℕ → Option BitsPerSample
sample_size_of n =
    if n == 0
    then some bits_8
    else if n == 1
    then some bits_16
    else if n == 2
    then some bits_20
    else if n == 3
    then some bits_24
    else if n == 4
    then some bits_32
    else none

pub data NumOfChannels : Type 0 where
  channels_one : NumOfChannels
  channels_two : NumOfChannels
  channels_three : NumOfChannels
  channels_four : NumOfChannels
  channels_five : NumOfChannels
  channels_six : NumOfChannels
  channels_seven : NumOfChannels
  channels_eight : NumOfChannels
  channels_nine : NumOfChannels
  channels_ten : NumOfChannels
  channels_eleven : NumOfChannels
  channels_twelve : NumOfChannels
  channels_thirteen : NumOfChannels
  channels_fourteen : NumOfChannels
  channels_fifteen : NumOfChannels
  channels_sixteen : NumOfChannels

abbrev pub channels_bits : NumOfChannels → ℕ
channels_bits channels_one = 0
channels_bits channels_two = 1
channels_bits channels_three = 2
channels_bits channels_four = 3
channels_bits channels_five = 4
channels_bits channels_six = 5
channels_bits channels_seven = 6
channels_bits channels_eight = 7
channels_bits channels_nine = 8
channels_bits channels_ten = 9
channels_bits channels_eleven = 10
channels_bits channels_twelve = 11
channels_bits channels_thirteen = 12
channels_bits channels_fourteen = 13
channels_bits channels_fifteen = 14
channels_bits channels_sixteen = 15

-- `try_into`
unfoldable pub channels_of : ℕ → Option NumOfChannels
channels_of n =
    if n == 0
    then some channels_one
    else if n == 1
    then some channels_two
    else if n == 2
    then some channels_three
    else if n == 3
    then some channels_four
    else if n == 4
    then some channels_five
    else if n == 5
    then some channels_six
    else if n == 6
    then some channels_seven
    else if n == 7
    then some channels_eight
    else if n == 8
    then some channels_nine
    else if n == 9
    then some channels_ten
    else if n == 10
    then some channels_eleven
    else if n == 11
    then some channels_twelve
    else if n == 12
    then some channels_thirteen
    else if n == 13
    then some channels_fourteen
    else if n == 14
    then some channels_fifteen
    else if n == 15
    then some channels_sixteen
    else none

unfoldable pub sample_base_rate : ℕ → Option SampleBaseRate
sample_base_rate n = do
  state ← get_bit 16 14 n
  elim state [ set ↦ some khz44_p1 | unset ↦ some khz48 ]

unfoldable pub set_sample_base_rate : SampleBaseRate → ℕ → Option ℕ
set_sample_base_rate khz44_p1 n = set_bit 16 14 n
set_sample_base_rate khz48 n = unset_bit 16 14 n

unfoldable pub sample_base_rate_multiple : ℕ → Option SampleBaseRateMultiple
unfolding multiple_of
sample_base_rate_multiple n = do b ← get_bits 16 (included 11) (excluded 14) n; multiple_of b

unfoldable pub set_sample_base_rate_multiple : SampleBaseRateMultiple → ℕ → Option ℕ
set_sample_base_rate_multiple x n = set_bits 16 (included 11) (excluded 14) (multiple_bits x) n

unfoldable pub sample_base_rate_divisor : ℕ → Option SampleBaseRateDivisor
unfolding divisor_of
sample_base_rate_divisor n = do b ← get_bits 16 (included 8) (excluded 11) n; divisor_of b

unfoldable pub set_sample_base_rate_divisor : SampleBaseRateDivisor → ℕ → Option ℕ
set_sample_base_rate_divisor x n = set_bits 16 (included 8) (excluded 11) (divisor_bits x) n

unfoldable pub bits_per_sample : ℕ → Option BitsPerSample
unfolding sample_size_of
bits_per_sample n = do b ← get_bits 16 (included 4) (excluded 7) n; sample_size_of b

unfoldable pub set_bits_per_sample : BitsPerSample → ℕ → Option ℕ
set_bits_per_sample x n = set_bits 16 (included 4) (excluded 7) (sample_size_bits x) n

unfoldable pub number_of_channels : ℕ → Option NumOfChannels
unfolding channels_of
number_of_channels n = do b ← get_bits 16 (included 0) (excluded 4) n; channels_of b

unfoldable pub set_number_of_channels : NumOfChannels → ℕ → Option ℕ
set_number_of_channels x n = set_bits 16 (included 0) (excluded 4) (channels_bits x) n

pub record StreamFormat : Type 0 where
  pub rate : SampleBaseRate
  pub rate_multiple : SampleBaseRateMultiple
  pub rate_divisor : SampleBaseRateDivisor
  pub sample_bits : BitsPerSample
  pub channel_count : NumOfChannels

-- The lines of `OutputStream::init` that fill the register, for any settings.
unfoldable pub set_format : StreamFormat → ℕ → Option ℕ
set_format f n = do
  a ← set_sample_base_rate f.rate n
  b ← set_sample_base_rate_multiple f.rate_multiple a
  c ← set_sample_base_rate_divisor f.rate_divisor b
  d ← set_bits_per_sample f.sample_bits c
  set_number_of_channels f.channel_count d

-- The settings of `OutputStream::init`
abbrev pub output_stream_format : StreamFormat
output_stream_format = record {
  rate = khz44_p1;
  rate_multiple = khz48_or_less;
  rate_divisor = by_one;
  sample_bits = bits_16;
  channel_count = channels_two;
}
