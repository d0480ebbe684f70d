-- ===== src/Sound/Registers/Pci.antt =====
-- sound/src/lib.rs: the words of the PCI configuration. `none` is a panic.
use Prim.Native.Nat.{bit_and, bit_or}
use bare_metal_blasterball.Base.{
  ℕ, ◌+◌, ◌%◌, ◌^◌, Bool, true, false, Option, none, some, ◌>>=◌, ◌==◌, if◌then◌else◌, Result, ok,
  err,
}
use bare_metal_blasterball.Num.Words.{shr, shl, included, excluded, set_bits, get_bits, set_bit}

-- `PCIHeaderTypeReg`
unfoldable pub has_multiple_funcs : ℕ → Bool
has_multiple_funcs n = shr n 7 == 1

pub data PciHeaderType : Type 0 where
  standard : PciHeaderType
  pci_to_pci_bridge : PciHeaderType
  card_bus_bridge : PciHeaderType

unfoldable pub header_type : ℕ → Result PciHeaderType (Unit {0})
header_type n =
    let kind = bit_and n 0b01111111 in
    if kind == 0
    then ok standard
    else if kind == 1
    then ok pci_to_pci_bridge
    else if kind == 2
    then ok card_bus_bridge
    else err tt

-- `PCIBaseAddrReg`
pub data PciBaseAddr : Type 0 where
  memory : ℕ → ℕ → PciBaseAddr
  io : ℕ → PciBaseAddr

unfoldable pub base_addr_try_from : ℕ → ℕ → Result PciBaseAddr (Unit {0})
base_addr_try_from low high =
    let kind = bit_and low 1 in
    if kind == 0 then ok (memory low high) else if kind == 1 then ok (io low) else err tt

unfoldable pub mem_addr : ℕ → ℕ → Option ℕ
mem_addr low high = do
  kind ← get_bits 32 (included 1) (excluded 3) low
  if kind == 0
      then some (bit_and low 0xfffffff0)
      else if kind == 2
      then some (bit_and low 0xfffffff0 + shl 64 (bit_and high 0xffffffff) 32)
      else none

unfoldable pub io_addr : ℕ → ℕ
io_addr n = bit_and n 0xfffffffc

unfoldable pub base_addr : PciBaseAddr → Option ℕ
unfolding mem_addr io_addr
base_addr (memory low high) = mem_addr low high
base_addr (io n) = some (io_addr n)

-- `PCIDevice`
pub record PciDevice : Type 0 where
  pub bus : ℕ
  pub device : ℕ
  pub func : ℕ

unfoldable pub reg_addr : PciDevice → ℕ → ℕ
reg_addr d reg_offset =
    bit_or
      (bit_or (bit_or (bit_or (shl 32 d.bus 16) (shl 32 d.device 11)) (shl 32 d.func 8))
        (bit_and reg_offset 0xfc))
      0x80000000

-- What the readers take from the word that the data port returns.
abbrev pub vendor_id_of : ℕ → ℕ
vendor_id_of val = val % 2 ^ 16

abbrev pub is_valid_of : ℕ → Bool
is_valid_of val = if vendor_id_of val == 0xfff then false else true

unfoldable pub classcode_subclass_of : ℕ → ℕ × ℕ
classcode_subclass_of val = (shr val 24 % 2 ^ 8, bit_and (shr val 16) 0xff % 2 ^ 8)

unfoldable pub interrupt_pin_of : ℕ → ℕ
interrupt_pin_of val = shr val 8 % 2 ^ 8

unfoldable pub interrupt_line_of : ℕ → ℕ
interrupt_line_of val = val % 2 ^ 8

-- What `set_interrupt_line` writes in place of a word that it read.
unfoldable pub with_interrupt_line : ℕ → ℕ → Option ℕ
with_interrupt_line line val = set_bits 32 (included 8) (excluded 16) (line % 2 ^ 8) val

-- What `enable_memory_space_accesses` writes in place of a command word that it read.
unfoldable pub with_memory_space_accesses : ℕ → Option ℕ
with_memory_space_accesses val = do
  a ← set_bit 16 0 val
  b ← set_bit 16 2 a
  c ← set_bit 16 3 b
  d ← set_bit 16 4 c
  e ← set_bit 16 8 d
  set_bit 16 1 e
