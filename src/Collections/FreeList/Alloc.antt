-- ===== src/Collections/FreeList/Alloc.antt =====
-- collections/src/allocator.rs: `alloc` and `dealloc` of the whole allocator, from its head node.
use bare_metal_blasterball.Base.{
  ℕ, suc, ◌+◌, ◌*◌, ◌^◌, lt→ltb, ◌≤◌, ◌<◌, ◌≡◌, inl, sym, ◌∙◌, some, List, arith, length,
}
use bare_metal_blasterball.Collections.FreeList.Defs.{
  Mem, MemChunk, node_size, mul_usize, alloc, dealloc, iter_from,
}
use bare_metal_blasterball.Collections.FreeList.Spec.{
  chunk, Clean, Ordered, Fits, Fits-le, fit_addr, fit_rest, give_back, free_bytes, bytes_of,
  fit_rest-Ordered, fit_addr-Disjoint, give_back-Ordered, Disjoint,
}
use bare_metal_blasterball.Collections.FreeList.Chain.{Chain, iter_from-Chain}
use bare_metal_blasterball.Collections.FreeList.Refine.{Listed, Updated, find_from_lem}
use bare_metal_blasterball.Collections.FreeList.Release.{add_from_lem, end_addr_lem, Fits-end}
use bare_metal_blasterball.Memory.Addr.{low_half, new_low}

-- The nodes after the head, which is no free region itself, are those of the regions: these lie
-- between the bounds in ascending order without overlap, each has room for a node, and the head lies below them.
pub record Heap (m : Mem) (head lo hi : ℕ) (cs : List MemChunk) : Type 0 where
  pub low : hi < low_half
  pub ordered : Ordered lo hi cs
  pub below : head + node_size ≤ lo
  pub chain : Chain m head cs
  pub head_size : (m.read head).size ≡ 0

module _ (m : Mem) (head lo hi : ℕ) (cs : List MemChunk) (h : Heap m head lo hi cs) where
  Heap-Listed : Listed m head lo hi cs
  Heap-Listed = record { low = h.low; ordered = h.ordered; outside = inl h.below; chain = h.chain }

  Updated-Heap :
      (m' : Mem) (ds : List MemChunk)
      → Ordered lo hi ds
      → Updated m m' head lo hi ds
      → Heap m' head lo hi ds
  Updated-Heap m' ds o u = record {
    low = h.low;
    ordered = o;
    below = h.below;
    chain = u.chain;
    head_size = u.same_size ∙ h.head_size;
  }

-- On a heap, and with fuel for more rounds than there are free regions, let a `usize` hold the size of a
-- block, which has room for a node, and let what the first region that is large enough has behind the
-- block, if anything, have room for a node too. Then `alloc` returns without a panic, with the address of that
-- region, or none if there is none. It leaves a heap of the regions without that block, and the free
-- bytes of before are those of after and the ones handed out.
pub alloc_lem :
    (m : Mem) (head lo hi : ℕ) (cs : List MemChunk) (fuel size_of_type n : ℕ)
    → length cs < fuel
    → Heap m head lo hi cs
    → size_of_type * n < 2 ^ 64
    → node_size ≤ size_of_type * n
    → Clean (size_of_type * n) cs
    → (m' : Mem) × (alloc fuel head m size_of_type n ≡ some (fit_addr (size_of_type * n) cs, m'))
      × Heap m' head lo hi (fit_rest (size_of_type * n) cs)
      × (free_bytes cs
          ≡ free_bytes (fit_rest (size_of_type * n) cs)
            + bytes_of (fit_addr (size_of_type * n) cs) (size_of_type * n))
unfolding alloc mul_usize
alloc_lem m head lo hi cs fuel size_of_type n f h w g k =
    let (m', e, u) =
      find_from_lem m (size_of_type * n) head lo hi cs fuel f g k (Heap-Listed m head lo hi cs h) in
    let (o, bytes) = fit_rest-Ordered (size_of_type * n) lo hi cs k h.ordered in
    (
      m',
      rw (lt→ltb (size_of_type * n) (2 ^ 64) w) e,
      Updated-Heap m head lo hi cs h m' (fit_rest (size_of_type * n) cs) o u,
      bytes,
    )

-- Under the conditions of `alloc_lem`, if `alloc` hands out an address, the block that starts there lies
-- between the bounds of the heap, and it overlaps none of the regions that a walk over the heap still
-- yields.
pub alloc-Disjoint :
    (m : Mem) (head lo hi : ℕ) (cs : List MemChunk) (fuel size_of_type n a : ℕ) (m' : Mem)
    → length cs < fuel
    → Heap m head lo hi cs
    → size_of_type * n < 2 ^ 64
    → node_size ≤ size_of_type * n
    → Clean (size_of_type * n) cs
    → alloc fuel head m size_of_type n ≡ some (some a, m')
    → (lo ≤ a)
      × (a + size_of_type * n ≤ hi)
      × (rest : List MemChunk) × (iter_from (suc (length rest)) m' (m'.read head).next ≡ some rest)
      × Disjoint a (size_of_type * n) rest
alloc-Disjoint m head lo hi cs fuel size_of_type n a m' f h w g k e =
    let (m'', e', h', _) = alloc_lem m head lo hi cs fuel size_of_type n f h w g k in
    let same : some (fit_addr (size_of_type * n) cs, m'') ≡ some (some a, m') = sym e' ∙ e in
    let first : fit_addr (size_of_type * n) cs ≡ some a = cc in
    let after : m'' ≡ m' = cc in
    let (above, below, apart) = fit_addr-Disjoint (size_of_type * n) lo hi a cs h.ordered first in
    let rest = fit_rest (size_of_type * n) cs in
    (
      above,
      below,
      rest,
      rw after at (
          iter_from-Chain m'' head lo hi rest (suc (length rest)) (omega arith) h'.low h'.ordered
            h'.chain),
      apart,
    )

-- On a heap, and with fuel for two more rounds than there are free regions, `dealloc` of a block that
-- has room for a node, lies between the bounds and overlaps no free region returns without a panic. It leaves
-- a heap of the regions with the block given back, which has as many more free bytes.
pub dealloc_lem :
    (m : Mem) (head lo hi : ℕ) (cs : List MemChunk) (fuel ptr n : ℕ)
    → suc (length cs) < fuel
    → Heap m head lo hi cs
    → node_size ≤ n
    → Fits lo hi (chunk ptr n) cs
    → (m' : Mem) × (dealloc fuel head m ptr n ≡ some m')
      × Heap m' head lo hi (give_back (chunk ptr n) cs)
      × (free_bytes (give_back (chunk ptr n) cs) ≡ free_bytes cs + n)
unfolding dealloc
dealloc_lem m head lo hi cs fuel ptr n f h pos fits =
    let above = Fits-le lo hi (chunk ptr n) cs fits in
    let under = Fits-end lo hi (chunk ptr n) cs h.ordered fits in
    let at_head = end_addr_lem m head 0 h.head_size (omega (arith, h.below, h.low)) in
    let (m', e, u) =
      add_from_lem m (chunk ptr n) head lo hi cs fuel (head + 0) f pos
        (Heap-Listed m head lo hi cs h) fits at_head (omega (arith, h.below)) in
    let (o, bytes) = give_back-Ordered (chunk ptr n) lo hi cs pos h.ordered fits in
    (
      m',
      rw (new_low ptr (omega (arith, h.low))) e,
      Updated-Heap m head lo hi cs h m' (give_back (chunk ptr n) cs) o u,
      bytes,
    )
