-- ===== src/Memory/Map/Allocator.antt =====
-- machine/src/memory.rs: `MemAllocator`, with which the bootloader takes regions of the map. The loops
-- over the entries run over the indices, with the rounds that are left first. `none` is a panic.
use bare_metal_blasterball.Base.{
  ℕ, zero, suc, Bool, false, not, ◌&&◌, Option, none, some, ok, err, ◌==◌, ltb, leb, if◌then◌else◌,
  ◌>>=◌, length, get_or, set,
}
use bare_metal_blasterball.Memory.Addr.{add, sub_u64}
use bare_metal_blasterball.Memory.Map.Regions.{
  AddrRange, MemRegion, MemRegionType, empty_region, is_usable, range_size,
}
use bare_metal_blasterball.Memory.Map.Defs.{MemMap, add_region}
use bare_metal_blasterball.Collections.FreeList.Defs.{MemChunk}

-- `add_region(..).unwrap()`
abbrev pub unwrap_add : MemMap → MemRegion → Option MemMap
unwrap_add m region = elim (add_region m region) [ ok m' ↦ some m' | err e ↦ none ]

abbrev pub with_start : MemRegion → ℕ → MemRegion
with_start r a = record r { range = record r.range { start_addr = a } }

abbrev pub with_end : MemRegion → ℕ → MemRegion
with_end r a = record r { range = record r.range { end_addr = a } }

abbrev pub put_entry : MemMap → ℕ → MemRegion → MemMap
put_entry m i r = record m { entries = set m.entries i r }

unfoldable pub overlaps : MemRegion → MemRegion → Bool
overlaps region r =
    ltb region.range.start_addr r.range.end_addr && ltb r.range.start_addr region.range.end_addr

-- The body of the loop of `mark_alloc_region`, at an entry that overlaps the region.
unfoldable pub mark_entry : MemMap → ℕ → MemRegion → MemRegion → Option MemMap
unfolding add_region is_usable
mark_entry m i r region =
    if not (is_usable r.region_type)
    then none
    else if region.range.start_addr == r.range.start_addr
    then (if ltb region.range.end_addr r.range.end_addr
        then unwrap_add (put_entry m i (with_start r region.range.end_addr)) region
        else some (put_entry m i region))
    else if ltb r.range.start_addr region.range.start_addr
    then (if ltb region.range.end_addr r.range.end_addr
        then (do
          m' ←
              unwrap_add (put_entry m i (with_start r region.range.end_addr))
                (with_end r region.range.start_addr)
          unwrap_add m' region)
        else unwrap_add (put_entry m i (with_end r region.range.start_addr)) region)
    else unwrap_add (put_entry m i (with_start r region.range.end_addr)) region

unfoldable pub mark_from : ℕ → ℕ → MemMap → MemRegion → Option MemMap
unfolding overlaps mark_entry
mark_from zero i m region = none
mark_from (suc rounds) i m region =
    let r = get_or m.entries i empty_region in
    let rest = mark_from rounds (suc i) m region in
    if overlaps region r then mark_entry m i r region else rest

unfoldable pub mark_alloc_region : MemMap → MemRegion → Option MemMap
unfolding mark_from
mark_alloc_region m region = mark_from (length m.entries) 0 m region

-- The place of a type in the enum; the derived `==` compares it.
unfoldable pub discriminant : MemRegionType → ℕ
discriminant MemRegionType.usable = 0
discriminant MemRegionType.in_use = 1
discriminant MemRegionType.reserved = 2
discriminant MemRegionType.acpi_reclaimable = 3
discriminant MemRegionType.acpi_nvs = 4
discriminant MemRegionType.bad_mem = 5
discriminant MemRegionType.app = 6
discriminant MemRegionType.app_stack = 7
discriminant MemRegionType.page_table = 8
discriminant MemRegionType.bootloader = 9
discriminant MemRegionType.empty = 10
discriminant MemRegionType.heap = 11

-- The test of the first loop of `alloc_mem` on the next entry, and what it does where it holds.
unfoldable pub room_behind : MemRegion → MemRegion → ℕ → Option Bool
unfolding range_size is_usable
room_behind region next space_left =
    if next.range.start_addr == region.range.end_addr
    then (do size ← range_size next.range; some (leb space_left size && is_usable next.region_type))
    else some false

unfoldable pub extend_entry :
    MemMap → ℕ → MemRegion → MemRegion → (space_left size : ℕ) → Option (Option MemChunk × MemMap)
extend_entry m i region next space_left size = do
  new_end ← add region.range.end_addr space_left
  new_start ← add next.range.start_addr space_left
  some (
    some (record { start_addr = region.range.start_addr; size = size }),
    put_entry (put_entry m i (with_end region new_end)) (suc i) (with_start next new_start),
  )

unfoldable pub extend_from : ℕ → ℕ → MemMap → MemRegionType → ℕ → Option (Option MemChunk × MemMap)
unfolding discriminant room_behind extend_entry range_size
extend_from zero i m region_type size = some (none, m)
extend_from (suc rounds) i m region_type size =
    let region = get_or m.entries i empty_region in
    let next = get_or m.entries (suc i) empty_region in
    let rest = extend_from rounds (suc i) m region_type size in
    if discriminant region.region_type == discriminant region_type && ltb (suc i) (length m.entries)
    then (do
      old ← range_size region.range
      space_left ← sub_u64 size old
      fits ← room_behind region next space_left
      if fits then extend_entry m i region next space_left size else rest)
    else rest

-- `split_usable_region`
unfoldable pub split_from : ℕ → ℕ → MemMap → ℕ → Option (Option (MemChunk × AddrRange) × MemMap)
unfolding is_usable range_size
split_from zero i m size = some (none, m)
split_from (suc rounds) i m size =
    let region = get_or m.entries i empty_region in
    let rest = split_from rounds (suc i) m size in
    if is_usable region.region_type
    then (do
      available ← range_size region.range
      if leb size available
          then (do
            allocd_end ← add region.range.start_addr size
            some (
              some (
                record { start_addr = region.range.start_addr; size = size },
                record { start_addr = region.range.start_addr; end_addr = allocd_end },
              ),
              put_entry m i (with_start region allocd_end),
            ))
          else rest)
    else rest

unfoldable pub alloc_mem : MemMap → MemRegionType → ℕ → Option (Option MemChunk × MemMap)
unfolding extend_from split_from add_region
alloc_mem m region_type size = do
  (extended, m') ← extend_from (length m.entries) 0 m region_type size
  elim extended [
    | some chunk ↦ some (some chunk, m')
    | none ↦ (do
      (allocd_mem, m'') ← split_from (length m.entries) 0 m' size
      elim allocd_mem [
        | none ↦ some (none, m'')
        | some c ↦ (do
          m''' ← unwrap_add m'' (record { range = c.1; region_type = region_type })
          some (some c.0, m'''))
      ])
  ]
