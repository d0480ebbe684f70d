-- ===== src/Sound/Registers/Stream.antt =====
-- sound/src/lib.rs: the registers of a stream. `none` is a panic.
use Prim.Native.Nat.{bit_and, bit_or}
use bare_metal_blasterball.Base.{
  ℕ, ◌-◌, ◌%◌, ◌^◌, Bool, true, false, Option, some, ◌>>=◌, ◌>>◌, ltb, leb, assert, ◌&&◌,
}
use bare_metal_blasterball.Num.Words.{shr, shl, included, excluded, set_bits, set_bit}
use bare_metal_blasterball.Num.Single.{put_bit}
use bare_metal_blasterball.Sound.Access.{bit_is_set, byte_of}

-- `HDAStreamDescriptorControlReg`
pub record StreamDescriptorControl : Type 0 where
  pub low : ℕ
  pub high : ℕ

unfoldable pub as_u32 : StreamDescriptorControl → ℕ
as_u32 r = bit_or r.low (shl 32 r.high 16)

unfoldable pub set_u32 : ℕ → StreamDescriptorControl
set_u32 n = record { low = bit_and n 0xffff % 2 ^ 16; high = bit_and (shr n 16) 0xff % 2 ^ 8 }

-- A reader and a writer of one bit of the 24
unfoldable pub flag : ℕ → StreamDescriptorControl → Option Bool
unfolding as_u32
flag i r = bit_is_set 32 i (as_u32 r)

unfoldable pub set_flag : ℕ → Bool → StreamDescriptorControl → Option StreamDescriptorControl
unfolding as_u32 set_u32
set_flag i enable r = do val ← put_bit 32 i enable (as_u32 r); some (set_u32 val)

unfoldable pub stream_number : StreamDescriptorControl → Option ℕ
unfolding as_u32
stream_number r = byte_of 32 20 24 (as_u32 r)

unfoldable pub set_stream_number : ℕ → StreamDescriptorControl → Option StreamDescriptorControl
unfolding as_u32 set_u32
set_stream_number n r = do
  assert (ltb 0 n && ltb n 16)
  val ← set_bits 32 (included 20) (excluded 24) n (as_u32 r)
  some (set_u32 val)

abbrev pub descriptor_error_interrupt_enabled : StreamDescriptorControl → Option Bool
descriptor_error_interrupt_enabled r = flag 4 r

abbrev pub enable_descriptor_error_interrupt :
    Bool → StreamDescriptorControl → Option StreamDescriptorControl
enable_descriptor_error_interrupt enable r = set_flag 4 enable r

abbrev pub fifo_interrupt_enabled : StreamDescriptorControl → Option Bool
fifo_interrupt_enabled r = flag 3 r

abbrev pub enable_fifo_interrupt : Bool → StreamDescriptorControl → Option StreamDescriptorControl
enable_fifo_interrupt enable r = set_flag 3 enable r

abbrev pub interrupt_on_completion_enabled : StreamDescriptorControl → Option Bool
interrupt_on_completion_enabled r = flag 2 r

abbrev pub set_interrupt_on_completion_enable :
    Bool → StreamDescriptorControl → Option StreamDescriptorControl
set_interrupt_on_completion_enable enable r = set_flag 2 enable r

abbrev pub stream_run : StreamDescriptorControl → Option Bool
stream_run r = flag 1 r

abbrev pub set_stream_run : Bool → StreamDescriptorControl → Option StreamDescriptorControl
set_stream_run run r = set_flag 1 run r

abbrev pub stream_reset : StreamDescriptorControl → Option Bool
stream_reset r = flag 0 r

abbrev pub enter_stream_reset : StreamDescriptorControl → Option StreamDescriptorControl
enter_stream_reset r = set_flag 0 true r

abbrev pub exit_stream_reset : StreamDescriptorControl → Option StreamDescriptorControl
exit_stream_reset r = set_flag 0 false r

-- `HDAStreamDescriptorStatusReg`
abbrev pub fifo_ready : ℕ → Option Bool
fifo_ready n = bit_is_set 8 5 n

abbrev pub descriptor_error : ℕ → Option Bool
descriptor_error n = bit_is_set 8 4 n

abbrev pub fifo_error : ℕ → Option Bool
fifo_error n = bit_is_set 8 3 n

abbrev pub clear_fifo_error : ℕ → Option ℕ
clear_fifo_error n = set_bit 8 3 n

abbrev pub buffer_completion_interrupt_status : ℕ → Option Bool
buffer_completion_interrupt_status n = bit_is_set 8 2 n

-- `HDAStreamDescriptorCyclicBufferLenReg`
unfoldable pub set_cyclic_buffer_len : ℕ → Option ℕ
set_cyclic_buffer_len len = do assert (leb len (2 ^ 32 - 1)); some (len % 2 ^ 32)

-- `HDAStreamDescriptorLastValidIndexReg`
unfoldable pub last_valid_index : ℕ → ℕ
last_valid_index n = n % 2 ^ 8

unfoldable pub set_last_valid_index : ℕ → ℕ → Option ℕ
set_last_valid_index idx n = set_bits 16 (included 0) (excluded 8) idx n
