-- ===== src/Memory/Map/Overlaps.antt =====
-- machine/src/memory.rs: what `remove_usable_region_overlaps` leaves.
use bare_metal_blasterball.Base.{◌≤◌, ◌<◌, true, ◌≡◌, ◌⊎◌, false, List, [], ◌∷◌, ℕ}
use bare_metal_blasterball.Memory.Map.Regions.{MemRegion, MemRegionType, is_usable}

-- Each region that is usable ends no later than the next one starts.
abbrev pub Apart : List MemRegion → Type 0
Apart [] = Unit
Apart (x ∷ []) = Unit
Apart (x ∷ y ∷ ys) =
    ((is_usable x.region_type ≡ false) ⊎ (x.range.end_addr ≤ y.range.start_addr)) × Apart (y ∷ ys)

-- What the pass keeps of a region.
abbrev pub kept : MemRegion → ℕ × MemRegionType
kept x = (x.range.start_addr, x.region_type)

-- What becomes of a region `x` that stands before `y`: a usable one that reaches into `y` ends where `y`
-- starts, any other stays as it is.
pub record IsTrimmed (x y z : MemRegion) : Type 0 where
  pub same : kept z ≡ kept x
  pub ends :
      ((is_usable x.region_type ≡ true)
        × (y.range.start_addr < x.range.end_addr)
        × (z.range.end_addr ≡ y.range.start_addr))
      ⊎ (((is_usable x.region_type ≡ false) ⊎ (x.range.end_addr ≤ y.range.start_addr))
          × (z.range.end_addr ≡ x.range.end_addr))

abbrev pub Trims : List MemRegion → List MemRegion → Type 0
Trims [] zs = zs ≡ []
Trims (x ∷ []) zs = zs ≡ x ∷ []
Trims (x ∷ y ∷ ys) [] = ⊥
Trims (x ∷ y ∷ ys) (z ∷ zs) = IsTrimmed x y z × Trims (y ∷ ys) zs
