-- ===== src/Sound/Registers/Global.antt =====
-- sound/src/lib.rs: the registers that control the whole device, and its interrupts. `none` is a panic.
use Prim.Native.Nat.{bit_and, bit_or}
use bare_metal_blasterball.Base.{
  ℕ, ◌+◌, ◌-◌, ◌*◌, ◌%◌, ◌^◌, Bool, Option, none, some, ◌>>◌, ◌==◌, ltb, assert, if◌then◌else◌,
}
use bare_metal_blasterball.Num.Words.{shr, shl, invert}
use bare_metal_blasterball.Num.Single.{put_bit}
use bare_metal_blasterball.Sound.Access.{bit_is_set}

-- `HDAGlobalCapabilitiesReg`
unfoldable pub num_of_output_streams : ℕ → ℕ
num_of_output_streams n = shr n 12 % 2 ^ 8

unfoldable pub num_of_input_streams : ℕ → ℕ
num_of_input_streams n = bit_and (shr n 8) 0b1111 % 2 ^ 8

unfoldable pub num_of_bidirectional_streams : ℕ → ℕ
num_of_bidirectional_streams n = bit_and (shr n 3) 0b11111 % 2 ^ 8

unfoldable pub num_of_serial_data_out_signals : ℕ → ℕ
num_of_serial_data_out_signals n = bit_and (shr n 1) 0b11 % 2 ^ 8

unfoldable pub addr_64bit_supported : ℕ → Bool
addr_64bit_supported n = bit_and n 1 == 1

-- `SoundDevice::output_stream_descriptor_offset_base`, from the word of the capabilities
unfoldable pub output_stream_descriptor_offset : ℕ → ℕ → Option ℕ
unfolding num_of_output_streams num_of_input_streams
output_stream_descriptor_offset capabilities n =
    if ltb 15 n
    then none
    else if ltb (num_of_output_streams capabilities) n
    then none
    else some (0x80 + num_of_input_streams capabilities * 0x20 + n * 0x20)

-- `if enable { self.0 | (1 << i) } else { self.0 & !(1 << i) }` of a `u32`
unfoldable pub mask_bit : ℕ → Bool → ℕ → ℕ
mask_bit i enable n = if enable then bit_or n (shl 32 1 i) else bit_and n (invert 32 (shl 32 1 i))

-- `HDAGlobalControlReg`
unfoldable pub unsolicited_response_accepted : ℕ → Bool
unsolicited_response_accepted n = bit_and (shr n 8) 1 == 1

abbrev pub set_unsolicited_response_accepted : Bool → ℕ → ℕ
set_unsolicited_response_accepted enable n = mask_bit 8 enable n

unfoldable pub set_flush_control : ℕ → ℕ
set_flush_control n = bit_or n (shl 32 1 1)

abbrev pub controller_reset : ℕ → Option Bool
controller_reset n = bit_is_set 32 0 n

abbrev pub set_controller_reset : Bool → ℕ → Option ℕ
set_controller_reset set n = put_bit 32 0 set n

-- `HDAWakeEnableReg`
unfoldable pub sdin_wake_enable : ℕ → ℕ
sdin_wake_enable n = shr (shl 16 n 1) 1

unfoldable pub set_sdin_wake_enable : ℕ → ℕ → Option ℕ
set_sdin_wake_enable bit n = do assert (ltb bit 16); some (bit_or n (shl 32 1 bit % 2 ^ 16))

-- `HDAStateChangeStatusReg`
unfoldable pub sdin_state_change_status : ℕ → ℕ
sdin_state_change_status n = shr (shl 16 n 1) 1

abbrev pub clear_sdin_state_change_status : ℕ → ℕ
clear_sdin_state_change_status n = 0xffff

-- `HDAInterruptControlReg`
unfoldable pub global_interrupt_enable : ℕ → Bool
global_interrupt_enable n = shr n 31 == 1

abbrev pub set_global_interrupt_enable : Bool → ℕ → ℕ
set_global_interrupt_enable enable n = mask_bit 31 enable n

unfoldable pub controller_interrupt_enable : ℕ → Bool
controller_interrupt_enable n = bit_and (shr n 30) 1 == 1

abbrev pub set_controller_interrupt_enable : Bool → ℕ → ℕ
set_controller_interrupt_enable enable n = mask_bit 30 enable n

unfoldable pub stream_interrupt_enable : ℕ → ℕ
stream_interrupt_enable n = shr (shl 32 n 2) 2

-- A shift by 32 places or more overflows.
unfoldable pub set_stream_interrupt_enable : ℕ → ℕ → Option ℕ
set_stream_interrupt_enable stream_bit n = do
  assert (ltb stream_bit 32)
  some (bit_or n (shl 32 1 stream_bit))

-- `HDAInterruptStatusReg`
unfoldable pub global_interrupt_status : ℕ → Bool
global_interrupt_status n = shr n 31 == 1

unfoldable pub controller_interrupt_status : ℕ → Bool
controller_interrupt_status n = bit_and (shr n 30) 1 == 1

unfoldable pub stream_interrupt_status : ℕ → ℕ
stream_interrupt_status n = shr (shl 32 n 2) 2

-- `StreamSyncReg`
unfoldable pub set_stream_bit : ℕ → Bool → ℕ → Option ℕ
set_stream_bit n set reg = do assert (ltb n 30); put_bit 32 n set reg

unfoldable pub set_stream_sync : ℕ → ℕ → Option ℕ
set_stream_sync n reg = do assert (ltb n (shr (shl 32 (2 ^ 32 - 1) 2) 2)); some n

abbrev pub unblock_all_streams : ℕ → ℕ
unblock_all_streams reg = 0
