-- ===== src/Memory/Map/Regions.antt =====
-- machine/src/memory.rs: the regions of memory, and how the firmware's regions become the map's.
-- `none` is a panic, of a range's bounds or of a sum of 64 bits.
use bare_metal_blasterball.Base.{
  ℕ, ◌-◌, ◌*◌, ◌^◌, Bool, true, false, Option, none, some, ◌==◌, ltb, if◌then◌else◌, ◌>>=◌,
}
use bare_metal_blasterball.Memory.Addr.{new, add, sub, add_u64}

pub record AddrRange : Type 0 where
  pub start_addr : ℕ
  pub end_addr : ℕ

-- `AddrRange::new`, which stores the last address as the end
unfoldable pub addr_range : (start_addr end_addr : ℕ) → Option AddrRange
addr_range start_addr end_addr = do
  start ← new start_addr
  last ← new (end_addr - 1)
  some (record { start_addr = start; end_addr = last })

unfoldable pub is_empty : AddrRange → Bool
is_empty r = r.start_addr == r.end_addr

unfoldable pub range_size : AddrRange → Option ℕ
range_size r = sub r.end_addr r.start_addr

pub data MemRegionType : Type 0 where
  usable : MemRegionType
  in_use : MemRegionType
  reserved : MemRegionType
  acpi_reclaimable : MemRegionType
  acpi_nvs : MemRegionType
  bad_mem : MemRegionType
  app : MemRegionType
  app_stack : MemRegionType
  page_table : MemRegionType
  bootloader : MemRegionType
  empty : MemRegionType
  heap : MemRegionType

unfoldable pub is_usable : MemRegionType → Bool
is_usable MemRegionType.usable = true
is_usable _ = false

pub record MemRegion : Type 0 where
  pub range : AddrRange
  pub region_type : MemRegionType

-- `MemRegion::empty`
abbrev pub empty_region : MemRegion
empty_region = record {
  range = record { start_addr = 0; end_addr = 0 };
  region_type = MemRegionType.empty;
}

pub record E820MemRegion : Type 0 where
  pub start_addr : ℕ
  pub len : ℕ
  pub region_type : ℕ
  pub acpi_extended_attrs : ℕ

unfoldable pub e820_type : ℕ → Option MemRegionType
e820_type t =
    if t == 1
    then some MemRegionType.usable
    else if t == 2
    then some MemRegionType.reserved
    else if t == 3
    then some MemRegionType.acpi_reclaimable
    else if t == 4
    then some MemRegionType.acpi_nvs
    else if t == 5
    then some MemRegionType.bad_mem
    else none

unfoldable pub from_e820 : E820MemRegion → Option MemRegion
from_e820 region = do
  region_type ← e820_type region.region_type
  past ← add_u64 region.start_addr region.len
  range ← addr_range region.start_addr past
  some (record { range = range; region_type = region_type })

pub data EfiMemRegionType : Type 0 where
  reserved : EfiMemRegionType
  loader_code : EfiMemRegionType
  loader_data : EfiMemRegionType
  boot_services_code : EfiMemRegionType
  boot_services_data : EfiMemRegionType
  runtime_services_code : EfiMemRegionType
  runtime_services_data : EfiMemRegionType
  conventional : EfiMemRegionType
  unusable : EfiMemRegionType
  acpi_reclaimable : EfiMemRegionType
  acpi_nvs : EfiMemRegionType
  mem_mapped_io : EfiMemRegionType
  mem_mapped_io_port_space : EfiMemRegionType
  pal_code : EfiMemRegionType
  persistent : EfiMemRegionType

pub record EfiMemRegion : Type 0 where
  pub type_ : EfiMemRegionType
  pub physical_start : ℕ
  pub virtual_start : ℕ
  pub no_of_pages : ℕ
  pub attribute : ℕ

unfoldable pub efi_type : EfiMemRegionType → MemRegionType
efi_type EfiMemRegionType.reserved = MemRegionType.reserved
efi_type EfiMemRegionType.loader_code = MemRegionType.app
efi_type EfiMemRegionType.loader_data = MemRegionType.app
efi_type EfiMemRegionType.boot_services_code = MemRegionType.in_use
efi_type EfiMemRegionType.boot_services_data = MemRegionType.in_use
efi_type EfiMemRegionType.runtime_services_code = MemRegionType.in_use
efi_type EfiMemRegionType.runtime_services_data = MemRegionType.in_use
efi_type EfiMemRegionType.conventional = MemRegionType.usable
efi_type EfiMemRegionType.unusable = MemRegionType.bad_mem
efi_type EfiMemRegionType.acpi_reclaimable = MemRegionType.acpi_reclaimable
efi_type EfiMemRegionType.acpi_nvs = MemRegionType.acpi_nvs
efi_type EfiMemRegionType.mem_mapped_io = MemRegionType.in_use
efi_type EfiMemRegionType.mem_mapped_io_port_space = MemRegionType.in_use
efi_type EfiMemRegionType.pal_code = MemRegionType.in_use
efi_type EfiMemRegionType.persistent = MemRegionType.in_use

-- `u64` multiplication with an overflow check
abbrev mul_u64 : ℕ → ℕ → Option ℕ
mul_u64 a b = if ltb (a * b) (2 ^ 64) then some (a * b) else none

unfoldable pub from_efi : EfiMemRegion → Option MemRegion
from_efi region = do
  bytes ← mul_u64 region.no_of_pages 4096
  past ← add region.physical_start bytes
  range ← addr_range region.physical_start past
  some (record { range = range; region_type = efi_type region.type_ })
