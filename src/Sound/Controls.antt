-- ===== src/Sound/Controls.antt =====
-- sound/src/lib.rs: the words of settings that commands carry, built one bit or range at a time, and what
-- their readers return.
use bare_metal_blasterball.Base.{ℕ, Bool, Option, ◌>>◌, ◌==◌, ltb, assert, if◌then◌else◌}
use Prim.Native.Nat.{bit_and}
use bare_metal_blasterball.Num.Words.{included, excluded, set_bits, set_bit, unset_bit}
use bare_metal_blasterball.Num.Single.{put_bit}
use bare_metal_blasterball.Sound.Access.{bit_is_set, bit_is_unset}

-- `PinControl`
abbrev pub input_enabled : ℕ → Bool → Option ℕ
input_enabled val enable = put_bit 8 5 enable val

abbrev pub output_enabled : ℕ → Bool → Option ℕ
output_enabled val enable = put_bit 8 6 enable val

-- `ConverterControl`
unfoldable pub stream : ℕ → ℕ → Option ℕ
stream val stream_tag = do
  assert (ltb stream_tag 16)
  set_bits 8 (included 4) (excluded 8) stream_tag val

unfoldable pub channel : ℕ → ℕ → Option ℕ
channel val channel_number = set_bits 8 (included 0) (excluded 4) channel_number val

-- `AmpGain`
abbrev pub mute : ℕ → Bool → Option ℕ
mute val enable = put_bit 16 7 enable val

abbrev pub output_amp : ℕ → Bool → Option ℕ
output_amp val enable = put_bit 16 15 enable val

abbrev pub left_amp : ℕ → Bool → Option ℕ
left_amp val enable = put_bit 16 13 enable val

abbrev pub right_amp : ℕ → Bool → Option ℕ
right_amp val enable = put_bit 16 12 enable val

unfoldable pub gain : ℕ → ℕ → Option ℕ
gain val steps = set_bits 16 (included 0) (excluded 7) steps val

unfoldable pub index : ℕ → ℕ → Option ℕ
index val idx = do assert (bit_and idx 0xf == idx); set_bits 16 (included 8) (excluded 12) idx val

-- `DigitalConverterControlBuilder`
abbrev pub set_pro : ℕ → Bool → Option ℕ
set_pro val enable = put_bit 32 6 enable val

-- 0 indicates PCM.
abbrev pub set_pcm : ℕ → Bool → Option ℕ
set_pcm val set = if set then unset_bit 32 5 val else set_bit 32 5 val

abbrev pub set_digital_enabled : ℕ → Bool → Option ℕ
set_digital_enabled val set = put_bit 32 0 set val

-- `DigitalConverterControl`
abbrev pub pro : ℕ → Option Bool
pro val = bit_is_set 32 6 val

abbrev pub pcm : ℕ → Option Bool
pcm val = bit_is_unset 32 5 val

abbrev pub digital_enabled : ℕ → Option Bool
digital_enabled val = bit_is_set 32 0 val

-- `EAPDEnableBuilder`
abbrev pub set_eapd : ℕ → Bool → Option ℕ
set_eapd val enable = put_bit 8 1 enable val

abbrev pub set_lr_swap : ℕ → Bool → Option ℕ
set_lr_swap val enable = put_bit 8 2 enable val

abbrev pub set_btl : ℕ → Bool → Option ℕ
set_btl val enable = put_bit 8 0 enable val

-- `EAPDEnable`
abbrev pub lr_swap : ℕ → Option Bool
lr_swap val = bit_is_set 8 2 val

abbrev pub eapd : ℕ → Option Bool
eapd val = bit_is_set 8 1 val

abbrev pub btl : ℕ → Option Bool
btl val = bit_is_set 8 0 val
