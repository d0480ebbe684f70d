-- ===== src/Memory/Map/Add.antt =====
-- machine/src/memory.rs: what `add_region` keeps of the memory map.
use bare_metal_blasterball.Base.{
  ℕ, zero, suc, ◌+◌, ◌≤◌, ◌<◌, ◌≡◌, refl, sym, ◌∙◌, inl, inr, Bool, true, false, not, ◌&&◌, List,
  [], ◌∷◌, ok, if◌then◌else◌, arith, length, set, drop, Bool-cases, leb-false, length-set,
}
use bare_metal_blasterball.Memory.Map.Regions.{MemRegion, is_empty}
use bare_metal_blasterball.Memory.Map.Defs.{MemMap, max_mem_map_size, is_less, sort, add_region}
use bare_metal_blasterball.Memory.Map.Sort.{Sorted, sort-Sorted, count, count-sort}

-- The regions that span some address.
unfoldable pub live : MemRegion → Bool
live r = not (is_empty r.range)

-- The regions that span some address and that a test holds of.
abbrev pub live_and : (MemRegion → Bool) → MemRegion → Bool
live_and p r = live r && p r

-- The map has its hundred entries, and those from the next index on span no address.
pub record IsValid (m : MemMap) : Type 0 where
  pub full_length : length m.entries ≡ max_mem_map_size
  pub free : count live (drop m.next_entry_index m.entries) ≡ 0

count_all : (a : List MemRegion) → count (λ r. true) a ≡ length a
count_all [] = refl
count_all (x ∷ xs) = omega (arith, count_all xs)

length-sort : (a : List MemRegion) → length (sort a) ≡ length a
length-sort a = sym (count_all (sort a)) ∙ count-sort (λ r. true) a ∙ count_all a

-- Behind a region that spans no address, a sorted list has no other.
dead_behind :
    (x : MemRegion) (ys : List MemRegion)
    → live x ≡ false
    → Sorted (x ∷ ys)
    → count live (x ∷ ys) ≡ 0
unfolding live is_less is_empty
dead_behind x [] d s = rw d
dead_behind x (y ∷ ys) d (p, s) =
    let dead : live y ≡ false = ground arith in rw d (omega (arith, dead_behind y ys dead s))

Sorted-tail : (x : MemRegion) (ys : List MemRegion) → Sorted (x ∷ ys) → Sorted ys
Sorted-tail x [] s = tt
Sorted-tail x (y ∷ ys) (p, s) = s

drop_dead : (n : ℕ) (xs : List MemRegion) → count live xs ≡ 0 → count live (drop n xs) ≡ 0
drop_dead zero xs h = h
drop_dead (suc n) [] h = refl
drop_dead (suc n) (x ∷ xs) h = drop_dead n xs (omega (arith, h))

-- A sorted list with at most `k` live regions has none from index `k` on.
drop-live : (k : ℕ) (a : List MemRegion) → Sorted a → count live a ≤ k → count live (drop k a) ≡ 0
drop-live zero a s h = omega (arith, h)
drop-live (suc k) [] s h = refl
drop-live (suc k) (x ∷ xs) s h = elim (Bool-cases (live x)) [
  | inl l ↦
      let fewer : 1 + count live xs ≤ suc k = rw l at h in
      drop-live k xs (Sorted-tail x xs s) (omega (arith, fewer))
  | inr d ↦ drop_dead (suc k) (x ∷ xs) (dead_behind x xs d s)
]

count_le : (k : ℕ) (a : List MemRegion) → count live (drop k a) ≡ 0 → count live a ≤ k
count_le zero a h = omega (arith, h)
count_le (suc k) [] h = omega arith
count_le (suc k) (x ∷ xs) h = elim (Bool-cases (live x)) [
  | inl l ↦ rw l (omega (arith, count_le k xs h))
  | inr l ↦ rw l (omega (arith, count_le k xs h))
]

-- A write over an entry that spans no address.
count-set :
    (q : MemRegion → Bool) (a : List MemRegion) (i : ℕ) (r : MemRegion)
    → i < length a
    → count live (drop i a) ≡ 0
    → count (live_and q) (set a i r) ≡ count (live_and q) a + (if live_and q r then 1 else 0)
count-set q [] i r h d = absurd (omega arith)
count-set q (x ∷ xs) zero r h d = elim (Bool-cases (live x)) [
  | inl l ↦ absurd (omega (arith, rw l at d))
  | inr l ↦ rw l (omega arith)
]
count-set q (x ∷ xs) (suc i) r h d = omega (arith, count-set q xs i r (omega arith) d)

count_and_true : (a : List MemRegion) → count (live_and (λ r. true)) a ≡ count live a
count_and_true [] = refl
count_and_true (x ∷ xs) = elim (Bool-cases (live x)) [
  | inl l ↦ rw l (omega (arith, count_and_true xs))
  | inr l ↦ rw l (omega (arith, count_and_true xs))
]

one_le : (b : Bool) → (if b then 1 else 0) ≤ 1
one_le true = omega arith
one_le false = omega arith

-- A map with room takes a region: the map stays valid, its entries are sorted, and the entries that
-- span some address are those of before and the region, if it spans one. None is lost or repeated:
-- any test holds of as many as before, and one more if it holds of the region.
pub add_region_lem :
    (m : MemMap) (r : MemRegion) (q : MemRegion → Bool)
    → IsValid m
    → m.next_entry_index < max_mem_map_size
    → (m' : MemMap) × (add_region m r ≡ ok m')
      × IsValid m'
      × Sorted m'.entries
      × (m'.next_entry_index ≡ suc m.next_entry_index)
      × (count (live_and q) m'.entries
          ≡ count (live_and q) m.entries + (if live_and q r then 1 else 0))
unfolding add_region
add_region_lem m r q v h =
    let written = set m.entries m.next_entry_index r in
    let room : m.next_entry_index < length m.entries = omega (arith, v.full_length) in
    let total = count-set (λ x. true) m.entries m.next_entry_index r room v.free in
    let bound : count live (sort written) ≤ suc m.next_entry_index = omega (
      arith,
      count-sort live written,
      count_and_true written,
      total,
      count_and_true m.entries,
      count_le m.next_entry_index m.entries v.free,
      one_le (live_and (λ x. true) r),
    ) in
    (
      _,
      rw (leb-false max_mem_map_size m.next_entry_index h),
      record {
        full_length =
            length-sort written ∙ length-set m.entries m.next_entry_index r ∙ v.full_length;
        free = drop-live (suc m.next_entry_index) (sort written) (sort-Sorted written) bound;
      },
      sort-Sorted written,
      refl,
      count-sort (live_and q) written ∙ count-set q m.entries m.next_entry_index r room v.free,
    )
