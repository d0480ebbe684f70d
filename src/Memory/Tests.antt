-- ===== src/Memory/Tests.antt =====
-- machine/src/memory.rs: the theorems at concrete addresses and regions.
use bare_metal_blasterball.Base.{
  ℕ, suc, ◌+◌, ◌%◌, ◌/◌, ◌^◌, ◌-◌, ◌≤◌, ◌<◌, ◌≡◌, ◌⊎◌, refl, Bool, ltb, none, some, List, [], ◌∷◌,
  ok, arith, if◌then◌else◌, replicate,
}
use bare_metal_blasterball.Memory.Addr.{new, new_canonical}
use bare_metal_blasterball.Memory.Map.Regions.{
  MemRegion, MemRegionType, empty_region, is_empty, is_usable,
}
use bare_metal_blasterball.Memory.Map.Defs.{
  MemMap, is_less, sort, add_region, new_map, remove_usable_region_overlaps,
}
use bare_metal_blasterball.Memory.Map.Allocator.{mark_alloc_region}
use bare_metal_blasterball.Memory.Map.Mark.{one_if, mark_alloc_region_lem}
use bare_metal_blasterball.Memory.Map.Sort.{Sorted, sort_lem, count}
use bare_metal_blasterball.Memory.Map.Add.{IsValid, live, live_and, add_region_lem}

abbrev region : ℕ → ℕ → MemRegionType → MemRegion
region a b t = record { range = record { start_addr = a; end_addr = b }; region_type = t }

-- Two regions that overlap, out of order, and an empty one before them.
abbrev three : List MemRegion
three =
    empty_region ∷ region 300 500 MemRegionType.reserved ∷ region 100 400 MemRegionType.usable ∷ []

abbrev starts_low : MemRegion → Bool
starts_low r = ltb r.range.start_addr 200

sort_lem_example :
    Sorted (sort three) × ((p : MemRegion → Bool) → count p (sort three) ≡ count p three)
sort_lem_example = sort_lem three

-- The sort and the pass after it, of these regions.
three_finished :
    remove_usable_region_overlaps (sort three)
    ≡ region 100 300 MemRegionType.usable
      ∷ region 300 500 MemRegionType.reserved
      ∷ empty_region
      ∷ []
unfolding remove_usable_region_overlaps sort is_less is_empty
three_finished = refl

new_map-IsValid : IsValid new_map
unfolding new_map live is_empty
new_map-IsValid = record { full_length = refl; free = refl }

add_region_lem_example :
    (m' : MemMap) × (add_region new_map (region 100 400 MemRegionType.usable) ≡ ok m')
    × IsValid m'
    × Sorted m'.entries
    × (m'.next_entry_index ≡ suc new_map.next_entry_index)
    × (count (live_and starts_low) m'.entries
        ≡ count (live_and starts_low) new_map.entries
          + (if live_and starts_low (region 100 400 MemRegionType.usable) then 1 else 0))
unfolding new_map
add_region_lem_example =
    add_region_lem new_map (region 100 400 MemRegionType.usable) starts_low new_map-IsValid
      (omega arith)

new_canonical_example :
    ((0xfee00000 < 2 ^ 48)
      × (a : ℕ) × (new 0xfee00000 ≡ some a)
      × (a % 2 ^ 48 ≡ 0xfee00000)
      × ((a / 2 ^ 47 ≡ 0) ⊎ (a / 2 ^ 47 ≡ 2 ^ 17 - 1)))
    ⊎ ((2 ^ 48 ≤ 0xfee00000) × (new 0xfee00000 ≡ none))
new_canonical_example = new_canonical 0xfee00000

-- One usable region.
abbrev one_region : MemMap
one_region = record {
  entries = region 100 400 MemRegionType.usable ∷ replicate 99 empty_region;
  next_entry_index = 1;
}

one_region-IsValid : IsValid one_region
unfolding live is_empty
one_region-IsValid = record { full_length = refl; free = refl }

-- Of it the middle is taken for the app.
mark_alloc_region_lem_example :
    (m' : MemMap) × (mark_alloc_region one_region (region 200 300 MemRegionType.app) ≡ some m')
    × IsValid m'
    × Sorted m'.entries
    × (m'.next_entry_index ≡ 3)
    × (count (live_and starts_low) m'.entries
          + one_if (live_and starts_low (region 100 400 MemRegionType.usable))
        ≡ count (live_and starts_low) one_region.entries
          + one_if (live_and starts_low (region 100 200 MemRegionType.usable))
          + one_if (live_and starts_low (region 200 300 MemRegionType.app))
          + one_if (live_and starts_low (region 300 400 MemRegionType.usable)))
unfolding is_usable
mark_alloc_region_lem_example =
    mark_alloc_region_lem one_region (region 200 300 MemRegionType.app) 0 one_region-IsValid
      (omega arith) (omega arith) starts_low (λ j h. absurd (omega arith)) refl (omega arith)
      (omega arith) (omega arith)
