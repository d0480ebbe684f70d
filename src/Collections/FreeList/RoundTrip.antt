-- ===== src/Collections/FreeList/RoundTrip.antt =====
-- collections/src/allocator.rs: a block that was handed out can be given back.
use bare_metal_blasterball.Base.{
  ℕ, suc, ◌+◌, ◌*◌, ◌^◌, ◌≤◌, ◌<◌, ◌≡◌, inl, inr, sym, ap, ◌∙◌, some, List, [], ◌∷◌, arith, length,
  dec_lt, ℕ_discrete, lt→ltb, ltb-false, ==_true, ==_false,
}
use bare_metal_blasterball.Collections.FreeList.Defs.{Mem, MemChunk, node_size, alloc, dealloc}
use bare_metal_blasterball.Collections.FreeList.Spec.{
  chunk, Clean, Ordered, Fits, Fits-le, fit_addr, fit_rest, give_back, free_bytes, bytes_of,
}
use bare_metal_blasterball.Collections.FreeList.Alloc.{Heap, alloc_lem, dealloc_lem}

Fits-front :
    (lo mid hi : ℕ) (c : MemChunk) (cs : List MemChunk)
    → lo ≤ c.start_addr
    → c.start_addr + c.size ≤ mid
    → Ordered mid hi cs
    → Fits lo hi c cs
Fits-front lo mid hi c [] a b o = (a, omega arith)
Fits-front lo mid hi c (r ∷ rs) a b (p, q, o) = (a, inl (omega arith))

-- What an allocation hands out fits among the regions that it leaves.
fit_addr-Fits :
    (size lo hi a : ℕ) (cs : List MemChunk)
    → Ordered lo hi cs
    → fit_addr size cs ≡ some a
    → Fits lo hi (chunk a size) (fit_rest size cs)
unfolding fit_addr fit_rest
fit_addr-Fits size lo hi a [] o h = cc
fit_addr-Fits size lo hi a (c ∷ cs) (p, q, o) h = elim (dec_lt c.size size) [
  | yes l ↦
      let later =
        fit_addr-Fits size (c.start_addr + c.size) hi a cs o (rw (lt→ltb c.size size l) at h) in
      let above = Fits-le (c.start_addr + c.size) hi (chunk a size) (fit_rest size cs) later in
      rw (lt→ltb c.size size l) (omega (arith, above), inr later)
  | no l ↦
      let first : some c.start_addr ≡ some a = rw (ltb-false c.size size (omega arith)) at h in
      let e : c.start_addr ≡ a = cc in
      elim (ℕ_discrete c.size size) [
        | yes m ↦
            rw (ltb-false c.size size (omega arith), ==_true c.size size m)
              (Fits-front lo (c.start_addr + c.size) hi (chunk a size) cs (omega arith)
                (omega arith) o)
        | no m ↦
            rw (ltb-false c.size size (omega arith), ==_false c.size size m)
              (omega arith, inl (omega arith))
      ]
]

length-fit_rest : (size : ℕ) (cs : List MemChunk) → length (fit_rest size cs) ≤ length cs
unfolding fit_rest
length-fit_rest size [] = omega arith
length-fit_rest size (c ∷ cs) = elim (dec_lt c.size size) [
  | yes l ↦ rw (lt→ltb c.size size l) (omega (arith, length-fit_rest size cs))
  | no l ↦ elim (ℕ_discrete c.size size) [
    | yes m ↦ rw (ltb-false c.size size (omega arith), ==_true c.size size m) (omega arith)
    | no m ↦ rw (ltb-false c.size size (omega arith), ==_false c.size size m) (omega arith)
  ]
]

-- Under the conditions of `alloc_lem`, and with fuel for two more rounds than there are free regions, let
-- `alloc` hand out an address. Then `dealloc` of that block, in the memory that `alloc` left, returns
-- without a panic and leaves a heap with as many free bytes as there were before both.
pub dealloc-alloc :
    (m : Mem) (head lo hi : ℕ) (cs : List MemChunk) (fuel size_of_type n a : ℕ) (m' : Mem)
    → suc (length cs) < fuel
    → Heap m head lo hi cs
    → size_of_type * n < 2 ^ 64
    → node_size ≤ size_of_type * n
    → Clean (size_of_type * n) cs
    → alloc fuel head m size_of_type n ≡ some (some a, m')
    → (m'' : Mem) × (cs' : List MemChunk) × (dealloc fuel head m' a (size_of_type * n) ≡ some m'')
      × Heap m'' head lo hi cs'
      × (free_bytes cs' ≡ free_bytes cs)
dealloc-alloc m head lo hi cs fuel size_of_type n a m' f h w pos k e =
    let size = size_of_type * n in
    let rest = fit_rest size cs in
    let (m₁, e₁, h₁, bytes) =
      alloc_lem m head lo hi cs fuel size_of_type n (omega arith) h w pos k in
    let same : some (fit_addr size cs, m₁) ≡ some (some a, m') = sym e₁ ∙ e in
    let first : fit_addr size cs ≡ some a = cc in
    let after : m₁ ≡ m' = cc in
    let taken : free_bytes cs ≡ free_bytes rest + size =
      bytes ∙ ap (λ o. free_bytes rest + bytes_of o size) first in
    let (m₂, e₂, h₂, back) =
      dealloc_lem m₁ head lo hi rest fuel a size (omega (arith, length-fit_rest size cs)) h₁ pos
        (fit_addr-Fits size lo hi a cs h.ordered first) in
    (
      m₂,
      give_back (chunk a size) rest,
      ap (λ (t : Mem). dealloc fuel head t a size) (sym after) ∙ e₂,
      h₂,
      omega (arith, back, taken),
    )
