-- ===== src/Memory/Map/Mark.antt =====
-- machine/src/memory.rs: what `mark_alloc_region` does with a region inside a usable one.
use bare_metal_blasterball.Base.{
  ℕ, zero, suc, ◌+◌, ◌≤◌, ◌<◌, ◌≡◌, refl, ap, ◌∙◌, Bool, true, false, some, List, [], ◌∷◌, ok,
  if◌then◌else◌, ◌>>=◌, arith, length, get_or, set, drop, lt→ltb, ==_false, length-set,
}
use bare_metal_blasterball.Memory.Map.Regions.{MemRegion, empty_region, is_empty, is_usable}
use bare_metal_blasterball.Memory.Map.Defs.{MemMap, max_mem_map_size, add_region}
use bare_metal_blasterball.Memory.Map.Sort.{Sorted, count}
use bare_metal_blasterball.Memory.Map.Add.{IsValid, live, live_and, add_region_lem}
use bare_metal_blasterball.Memory.Map.Allocator.{
  unwrap_add, with_start, with_end, put_entry, overlaps, mark_entry, mark_from, mark_alloc_region,
}

-- The loop runs up to the first entry that overlaps the region.
mark_from_lem :
    (m : MemMap) (region : MemRegion) (d k i rounds : ℕ)
    → i ≡ k + d
    → d < rounds
    → ((j : ℕ) → k ≤ j → j < i → overlaps region (get_or m.entries j empty_region) ≡ false)
    → overlaps region (get_or m.entries i empty_region) ≡ true
    → mark_from rounds k m region ≡ mark_entry m i (get_or m.entries i empty_region) region
unfolding mark_from
mark_from_lem m region d k i zero e h before here = absurd (omega arith)
mark_from_lem m region zero k i (suc rounds) e h before here =
    let same : k ≡ i = omega arith in rw (same, here)
mark_from_lem m region (suc d) k i (suc rounds) e h before here =
    rw (before k (omega arith) (omega arith)) (
      mark_from_lem m region d (suc k) i rounds (omega arith) (omega arith)
        (λ j a b. before j (omega arith) b) here)

count-set_any :
    (q : MemRegion → Bool) (a : List MemRegion) (i : ℕ) (v : MemRegion)
    → i < length a
    → count q (set a i v) + (if q (get_or a i empty_region) then 1 else 0)
      ≡ count q a + (if q v then 1 else 0)
count-set_any q [] i v h = absurd (omega arith)
count-set_any q (x ∷ xs) zero v h = omega arith
count-set_any q (x ∷ xs) (suc i) v h = omega (arith, count-set_any q xs i v (omega arith))

-- A region that spans some address stands before the free entries.
live_before :
    (a : List MemRegion) (i k : ℕ)
    → i < length a
    → live (get_or a i empty_region) ≡ true
    → count live (drop k a) ≡ 0
    → i < k
live_before [] i k h l f = absurd (omega arith)
live_before (x ∷ xs) zero (suc k) h l f = omega arith
live_before (x ∷ xs) (suc i) (suc k) h l f = omega (arith, live_before xs i k (omega arith) l f)
live_before (x ∷ xs) zero zero h l f = absurd (omega (arith, rw l at f))
live_before (x ∷ xs) (suc i) zero h l f =
    absurd (omega (arith, live_before xs i 0 (omega arith) l (omega (arith, f))))

drop-set : (a : List MemRegion) (i k : ℕ) (v : MemRegion) → i < k → drop k (set a i v) ≡ drop k a
drop-set [] i k v h = refl
drop-set (x ∷ xs) i zero v h = absurd (omega arith)
drop-set (x ∷ xs) zero (suc k) v h = refl
drop-set (x ∷ xs) (suc i) (suc k) v h = drop-set xs i k v (omega arith)

put_entry-IsValid :
    (m : MemMap) (i : ℕ) (v : MemRegion)
    → IsValid m
    → i < max_mem_map_size
    → live (get_or m.entries i empty_region) ≡ true
    → IsValid (put_entry m i v)
put_entry-IsValid m i v valid h l =
    let early =
      live_before m.entries i m.next_entry_index (omega (arith, valid.full_length)) l valid.free in
    record {
      full_length = length-set m.entries i v ∙ valid.full_length;
      free = ap (λ a. count live a) (drop-set m.entries i m.next_entry_index v early) ∙ valid.free;
    }

unwrap_add-ok : (a b : MemMap) (l : MemRegion) → add_region a l ≡ ok b → unwrap_add a l ≡ some b
unwrap_add-ok a b l h = rw (unwrap_add, h)

two_adds :
    (a b c : MemMap) (l r : MemRegion)
    → add_region a l ≡ ok b
    → add_region b r ≡ ok c
    → (do m' ← unwrap_add a l; unwrap_add m' r) ≡ some c
two_adds a b c l r h k = rw (unwrap_add-ok a b l h) (unwrap_add-ok b c r k)

-- The number of regions, 0 or 1, that a region counts for.
abbrev pub one_if : Bool → ℕ
one_if b = if b then 1 else 0

module _ (m : MemMap) (region : MemRegion) (i : ℕ) (valid : IsValid m)
    (room : m.next_entry_index + 2 ≤ max_mem_map_size) (bound : i < max_mem_map_size) where
  abbrev around : MemRegion
  around = get_or m.entries i empty_region

  abbrev right : MemRegion
  right = with_start around region.range.end_addr

  abbrev left : MemRegion
  left = with_end around region.range.start_addr

  live-around :
      around.range.start_addr < region.range.start_addr
      → region.range.start_addr < region.range.end_addr
      → region.range.end_addr < around.range.end_addr
      → live around ≡ true
  unfolding live is_empty
  live-around a b c = rw (==_false around.range.start_addr around.range.end_addr (omega arith))

  meets :
      around.range.start_addr < region.range.start_addr
      → region.range.start_addr < region.range.end_addr
      → region.range.end_addr < around.range.end_addr
      → overlaps region around ≡ true
  unfolding overlaps
  meets a b c = rw (
    lt→ltb region.range.start_addr around.range.end_addr (omega arith),
    lt→ltb around.range.start_addr region.range.end_addr (omega arith),
  )

  mark_entry_inside :
      (q : MemRegion → Bool)
      → is_usable around.region_type ≡ true
      → around.range.start_addr < region.range.start_addr
      → region.range.start_addr < region.range.end_addr
      → region.range.end_addr < around.range.end_addr
      → (m' : MemMap) × (mark_entry m i around region ≡ some m')
        × IsValid m'
        × Sorted m'.entries
        × (m'.next_entry_index ≡ suc (suc m.next_entry_index))
        × (count (live_and q) m'.entries + one_if (live_and q around)
            ≡ count (live_and q) m.entries
              + one_if (live_and q left)
              + one_if (live_and q region)
              + one_if (live_and q right))
  unfolding mark_entry
  mark_entry_inside q u a b c =
      let inside : i < length m.entries = omega (arith, bound, valid.full_length) in
      let alive = live-around a b c in
      let m₁ = put_entry m i right in
      let valid₁ = put_entry-IsValid m i right valid bound alive in
      let (m₂, e₂, valid₂, s₂, n₂, c₂) = add_region_lem m₁ left q valid₁ (omega (arith, room)) in
      let (m₃, e₃, valid₃, s₃, n₃, c₃) =
        add_region_lem m₂ region q valid₂ (omega (arith, room, n₂)) in
      let c₁ = count-set_any (live_and q) m.entries i right inside in
      (
        m₃,
        rw
            (
              u,
              ==_false region.range.start_addr around.range.start_addr (omega arith),
              lt→ltb around.range.start_addr region.range.start_addr a,
              lt→ltb region.range.end_addr around.range.end_addr c,
            )
            (two_adds m₁ m₂ m₃ left region e₂ e₃),
        valid₃,
        s₃,
        omega (arith, n₂, n₃),
        omega (arith, c₁, c₂, c₃),
      )

  -- The map is valid, two of its entries are free at least, and a region that is not empty lies
  -- inside an entry that is usable and begins before it and ends behind it; no entry ahead of that one
  -- overlaps the region. Then `mark_alloc_region` returns without a panic, with a valid and sorted
  -- map. Of the entries that span some address, that one is gone, the region, what was left of it
  -- and what was right of it have come, and all others are there as often as before.
  pub mark_alloc_region_lem :
      (q : MemRegion → Bool)
      → ((j : ℕ) → j < i → overlaps region (get_or m.entries j empty_region) ≡ false)
      → is_usable around.region_type ≡ true
      → around.range.start_addr < region.range.start_addr
      → region.range.start_addr < region.range.end_addr
      → region.range.end_addr < around.range.end_addr
      → (m' : MemMap) × (mark_alloc_region m region ≡ some m')
        × IsValid m'
        × Sorted m'.entries
        × (m'.next_entry_index ≡ suc (suc m.next_entry_index))
        × (count (live_and q) m'.entries + one_if (live_and q around)
            ≡ count (live_and q) m.entries
              + one_if (live_and q left)
              + one_if (live_and q region)
              + one_if (live_and q right))
  unfolding mark_alloc_region
  mark_alloc_region_lem q before u a b c =
      let (m', e, valid', sorted, next, total) = mark_entry_inside q u a b c in
      let reach =
        mark_from_lem m region i 0 i (length m.entries) (omega arith)
          (omega (arith, bound, valid.full_length)) (λ j p h. before j h) (meets a b c) in
      (m', reach ∙ e, valid', sorted, next, total)
