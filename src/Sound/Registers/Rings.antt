-- ===== src/Sound/Registers/Rings.antt =====
-- sound/src/lib.rs: the registers of the two rings, of commands and of responses. `none` is a panic.
use Prim.Native.Nat.{bit_and, bit_or}
use bare_metal_blasterball.Base.{ℕ, ◌%◌, ◌^◌, Bool, Option, none, some, ◌>>=◌, ◌==◌, if◌then◌else◌}
use bare_metal_blasterball.Num.Words.{
  shr, shl, included, excluded, set_bits, get_bits, set_bit, unset_bit,
}
use bare_metal_blasterball.Num.Single.{put_bit}
use bare_metal_blasterball.Sound.Access.{bit_is_set}

-- `HDACORBWritePointerReg`
unfoldable pub corb_write_pointer : ℕ → ℕ
corb_write_pointer n = n % 2 ^ 8

unfoldable pub set_corb_write_pointer : ℕ → ℕ → Option ℕ
set_corb_write_pointer wp n = set_bits 16 (included 0) (excluded 8) wp n

-- `HDACORBReadPointerReg`
abbrev pub read_pointer_reset : ℕ → Option Bool
read_pointer_reset n = bit_is_set 16 15 n

abbrev pub set_read_pointer_reset : Bool → ℕ → Option ℕ
set_read_pointer_reset set n = put_bit 16 15 set n

unfoldable pub read_pointer : ℕ → Option ℕ
read_pointer n = do p ← get_bits 16 (included 0) (excluded 8) n; some (bit_and p 0xff % 2 ^ 8)

-- `HDACORBControlReg`
abbrev pub enable_corb_dma_engine : Bool → ℕ → Option ℕ
enable_corb_dma_engine enable n = put_bit 8 1 enable n

abbrev pub corb_dma_engine_enabled : ℕ → Option Bool
corb_dma_engine_enabled n = bit_is_set 8 1 n

abbrev pub enable_memory_error_interrupt : Bool → ℕ → Option ℕ
enable_memory_error_interrupt enable n = put_bit 8 0 enable n

abbrev pub memory_error_interrupt_enabled : ℕ → Option Bool
memory_error_interrupt_enabled n = bit_is_set 8 0 n

-- `HDACORBStatusReg`
unfoldable pub memory_error_indication : ℕ → Bool
memory_error_indication n = bit_and n 1 == 1

pub data RingBufferSize : Type 0 where
  two : RingBufferSize
  sixteen : RingBufferSize
  two_fifty_six : RingBufferSize

-- The discriminants
abbrev pub size_bits : RingBufferSize → ℕ
size_bits two = 0b00
size_bits sixteen = 0b01
size_bits two_fifty_six = 0b10

abbrev pub entries_as_u16 : RingBufferSize → ℕ
entries_as_u16 two = 2
entries_as_u16 sixteen = 16
entries_as_u16 two_fifty_six = 256

unfoldable pub size_of_bits : ℕ → Option RingBufferSize
size_of_bits n =
    if n == 0b00
    then some two
    else if n == 0b01
    then some sixteen
    else if n == 0b10
    then some two_fifty_six
    else none

-- `HDARingBufferSizeCapability`
unfoldable pub size_capability : ℕ → ℕ
size_capability n = shr n 4

abbrev pub size2_supported : ℕ → Option Bool
size2_supported n = bit_is_set 8 0 n

abbrev pub size16_supported : ℕ → Option Bool
size16_supported n = bit_is_set 8 1 n

abbrev pub size256_supported : ℕ → Option Bool
size256_supported n = bit_is_set 8 2 n

-- The choice of a size, in `CORB::new` and in `RIRB::new`
unfoldable pub choose_size : ℕ → Option RingBufferSize
unfolding size_capability
choose_size n =
    let capability = size_capability n in
    do
      large ← size256_supported capability
      medium ← size16_supported capability
      some (if large then two_fifty_six else if medium then sixteen else two)

-- `HDACORBSizeReg`, and `HDARIRBSizeReg` with the mask in place of the range
unfoldable pub corb_size : ℕ → Option RingBufferSize
unfolding size_of_bits
corb_size n = do b ← get_bits 8 (included 0) (excluded 2) n; size_of_bits b

unfoldable pub set_corb_size : RingBufferSize → ℕ → Option ℕ
set_corb_size size n = set_bits 8 (included 0) (excluded 2) (size_bits size) n

unfoldable pub rirb_size : ℕ → Option RingBufferSize
unfolding size_of_bits
rirb_size n = size_of_bits (bit_and n 0b11)

unfoldable pub set_rirb_size : RingBufferSize → ℕ → Option ℕ
set_rirb_size size n = set_bits 8 (included 0) (excluded 2) (size_bits size) n

-- `HDARIRBWritePointerReg`
abbrev pub reset_write_pointer : ℕ → Option ℕ
reset_write_pointer n = set_bit 16 15 n

unfoldable pub rirb_write_pointer : ℕ → ℕ
rirb_write_pointer n = n % 2 ^ 8

-- `HDAResponseInterruptCountReg`
unfoldable pub response_interrupt_count : ℕ → ℕ
response_interrupt_count n = if n % 2 ^ 8 == 0 then 256 else n % 2 ^ 8

unfoldable pub set_response_interrupt_count : ℕ → ℕ → Option ℕ
set_response_interrupt_count val n = set_bits 16 (included 0) (excluded 8) val n

-- `HDARIRBControlReg`
abbrev pub response_overrun_interrupt_control : ℕ → Option Bool
response_overrun_interrupt_control n = bit_is_set 8 2 n

unfoldable pub set_response_overrun_interrupt_control : Bool → ℕ → Option ℕ
set_response_overrun_interrupt_control set n = if set then unset_bit 8 2 n else set_bit 8 2 n

abbrev pub rirb_dma_engine_enabled : ℕ → Option Bool
rirb_dma_engine_enabled n = bit_is_set 8 1 n

abbrev pub enable_rirb_dma_engine : Bool → ℕ → Option ℕ
enable_rirb_dma_engine enable n = put_bit 8 1 enable n

abbrev pub enable_interrupt : Bool → ℕ → Option ℕ
enable_interrupt enable n = put_bit 8 0 enable n

-- `HDARIRBStatusReg`
unfoldable pub response_overrun_interrupt_status : ℕ → Bool
response_overrun_interrupt_status n = bit_and (shr n 2) 1 == 1

unfoldable pub clear_response_overrun_interrupt_status : ℕ → ℕ
clear_response_overrun_interrupt_status n = bit_or n (shl 8 1 2)

unfoldable pub response_interrupt_flag : ℕ → Bool
response_interrupt_flag n = bit_and n 1 == 1

unfoldable pub clear_response_interrupt_flag : ℕ → ℕ
clear_response_interrupt_flag n = bit_or n 0b1

-- `HDADMAPosLowerBaseAddrReg`
unfoldable pub lower_base_addr : ℕ → Option ℕ
lower_base_addr n = get_bits 32 (included 7) (excluded 32) n

unfoldable pub set_lower_base_addr : ℕ → ℕ → Option ℕ
set_lower_base_addr addr n = set_bits 32 (included 7) (excluded 32) (shr addr 7) n

abbrev pub dma_position_buffer_enabled : ℕ → Option Bool
dma_position_buffer_enabled n = bit_is_set 32 0 n

abbrev pub enable_dma_position_buffer : Bool → ℕ → Option ℕ
enable_dma_position_buffer enable n = put_bit 32 0 enable n
