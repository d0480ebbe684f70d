-- ===== src/Memory/Map/Defs.antt =====
-- machine/src/memory.rs: `MemMap`, its insertion sort, and the pass that removes overlaps. The map's
-- array is the list of its entries, and the loops that run down an array run down the index.
use bare_metal_blasterball.Base.{
  ℕ, zero, suc, ◌-◌, Bool, true, false, not, ◌&&◌, Option, some, List, [], ◌∷◌, Result, ok, err,
  ◌==◌, ltb, leb, if◌then◌else◌, ◌>>=◌, length, get_or, set, replicate,
}
use bare_metal_blasterball.Memory.Map.Regions.{
  is_empty, MemRegion, empty_region, is_usable, E820MemRegion, from_e820, EfiMemRegion, from_efi,
}

-- `MAX_MEM_MAP_SIZE`
abbrev pub max_mem_map_size : ℕ
max_mem_map_size = 100

pub record MemMap : Type 0 where
  pub entries : List MemRegion
  pub next_entry_index : ℕ

pub data MemMapError : Type 0 where
  entries_full : MemMapError

-- `MemMap::new`
unfoldable pub new_map : MemMap
new_map = record { entries = replicate max_mem_map_size empty_region; next_entry_index = 0 }

-- `is_less` of `sort`: by the start, then by the end, and the empty ranges last
unfoldable pub is_less : MemRegion → MemRegion → Bool
unfolding is_empty
is_less r1 r2 =
    if is_empty r1.range
    then false
    else if is_empty r2.range
    then true
    else if not (r1.range.start_addr == r2.range.start_addr)
    then ltb r1.range.start_addr r2.range.start_addr
    else ltb r1.range.end_addr r2.range.end_addr

-- The inner loop of `sort` with the write after it: the entries below index `j` that `key` comes
-- before move up by one, and `key` takes the place that is left; `j` is one more than in the source.
unfoldable pub insert_key : MemRegion → ℕ → List MemRegion → List MemRegion
insert_key key zero a = set a 0 key
insert_key key (suc j) a =
    let here = get_or a j empty_region in
    let rest = insert_key key j (set a (suc j) here) in
    if is_less key here then rest else set a (suc j) key

-- The outer loop, with `n` rounds left, at index `i`.
unfoldable pub sort_from : (n i : ℕ) → List MemRegion → List MemRegion
unfolding insert_key
sort_from zero i a = a
sort_from (suc n) i a = sort_from n (suc i) (insert_key (get_or a i empty_region) i a)

unfoldable pub sort : List MemRegion → List MemRegion
unfolding sort_from
sort a = sort_from (length a - 1) 1 a

unfoldable pub add_region : MemMap → MemRegion → Result MemMap MemMapError
unfolding sort
add_region m region =
    if leb max_mem_map_size m.next_entry_index
    then err entries_full
    else ok (record {
      entries = sort (set m.entries m.next_entry_index region);
      next_entry_index = suc m.next_entry_index;
    })

-- The body of the loop of `remove_usable_region_overlaps`, at a region and the one after it.
unfoldable pub trimmed : MemRegion → MemRegion → MemRegion
unfolding is_usable
trimmed region next =
    if ltb next.range.start_addr region.range.end_addr && is_usable region.region_type
    then record region { range = record region.range { end_addr = next.range.start_addr } }
    else region

unfoldable pub remove_usable_region_overlaps : List MemRegion → List MemRegion
unfolding trimmed
remove_usable_region_overlaps [] = []
remove_usable_region_overlaps (region ∷ []) = region ∷ []
remove_usable_region_overlaps (region ∷ next ∷ rest) =
    trimmed region next ∷ remove_usable_region_overlaps (next ∷ rest)

-- The loops of the two `From` implementations of `MemMap`: they stop when the map is full.
unfoldable pub add_all_or_stop {ℓ} :
    {R : Type ℓ} → (R → Option MemRegion) → MemMap → List R → Option MemMap
unfolding add_region
add_all_or_stop convert m [] = some m
add_all_or_stop convert m (r ∷ rs) = do
  region ← convert r
  elim (add_region m region) [ ok m' ↦ add_all_or_stop convert m' rs | err e ↦ some m ]

unfoldable pub finish : MemMap → MemMap
unfolding sort remove_usable_region_overlaps
finish m = record m { entries = remove_usable_region_overlaps (sort m.entries) }

-- `From<E820MemMapDescriptor>` and `From<EFIMemMapDescriptor>`, on the regions that the descriptor
-- points at
unfoldable pub from_e820_map : List E820MemRegion → Option MemMap
unfolding new_map add_all_or_stop finish from_e820
from_e820_map regions = do m ← add_all_or_stop from_e820 new_map regions; some (finish m)

unfoldable pub from_efi_map : List EfiMemRegion → Option MemMap
unfolding new_map add_all_or_stop finish from_efi
from_efi_map regions = do m ← add_all_or_stop from_efi new_map regions; some (finish m)
