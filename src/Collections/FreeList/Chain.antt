-- ===== src/Collections/FreeList/Chain.antt =====
-- collections/src/allocator.rs: which regions the nodes in memory stand for.
use bare_metal_blasterball.Base.{
  ℕ, zero, suc, ◌+◌, ◌≤◌, ◌<◌, ◌≡◌, ◌⊎◌, inl, inr, refl, ap, ◌∙◌, Option, none, some, List, [], ◌∷◌,
  arith, ==_true, ==_false, lt→ltb, ltb-false, length,
}
use bare_metal_blasterball.Collections.FreeList.Defs.{
  ListNode, Mem, MemChunk, set_size, set_next, written, write, node_size, start_addr, iter_from,
}
use bare_metal_blasterball.Collections.FreeList.Spec.{Ordered, Ordered-le}
use bare_metal_blasterball.Memory.Addr.{low_half, new_low}

pub write_self : (m : Mem) (p : ℕ) (n : ListNode) → (write m p n).read p ≡ n
unfolding written
write_self m p n = rw (==_true p p refl)

-- Two nodes that do not overlap
abbrev pub Apart : ℕ → ℕ → Type 0
Apart p q = (p + node_size ≤ q) ⊎ (q + node_size ≤ p)

pub write_ne :
    (m : Mem) (p : ℕ) (n : ListNode) (q : ℕ) → Apart q p → (write m p n).read q ≡ m.read q
unfolding written
write_ne m p n q (inl h) = rw (
  ==_false q p (omega arith),
  lt→ltb q (p + node_size) (omega arith),
  ltb-false p (q + node_size) h,
)
write_ne m p n q (inr h) = rw (==_false q p (omega arith), ltb-false q (p + node_size) h)

-- The nodes after `prev` are those of the regions, in order.
abbrev pub Chain : Mem → ℕ → List MemChunk → Type 0
Chain m prev [] = (m.read prev).next ≡ none
Chain m prev (c ∷ cs) =
    ((m.read prev).next ≡ some c.start_addr)
    × ((m.read c.start_addr).size ≡ c.size)
    × Chain m c.start_addr cs

-- A node that lies outside the bytes from `lo` to `hi`.
abbrev pub Outside : ℕ → ℕ → ℕ → Type 0
Outside lo hi p = (p + node_size ≤ lo) ⊎ (hi ≤ p)

-- The two memories agree on every node between `lo` and `hi`.
abbrev pub Agree : Mem → Mem → ℕ → ℕ → Type 0
Agree m m' lo hi = (q : ℕ) → lo ≤ q → q + node_size ≤ hi → m'.read q ≡ m.read q

-- A write elsewhere moves no region: a node `prev'` that points where `prev` did, in a memory that
-- agrees on the regions' addresses, stands before the same regions.
pub Chain-Agree :
    (m m' : Mem) (prev prev' lo hi : ℕ) (cs : List MemChunk)
    → (m'.read prev').next ≡ (m.read prev).next
    → Agree m m' lo hi
    → Ordered lo hi cs
    → Chain m prev cs
    → Chain m' prev' cs
Chain-Agree m m' prev prev' lo hi [] e agree o ch = e ∙ ch
Chain-Agree m m' prev prev' lo hi (c ∷ cs) e agree (p, q, o) (here, size, ch) =
    let same = agree c.start_addr p (omega (arith, Ordered-le (c.start_addr + c.size) hi cs o)) in
    (
      e ∙ here,
      ap (λ (n : ListNode). n.size) same ∙ size,
      Chain-Agree m m' c.start_addr c.start_addr (c.start_addr + c.size) hi cs
          (ap (λ (n : ListNode). n.next) same) (λ t l h. agree t (omega arith) h) o ch,
    )

pub next-set_size :
    (m : Mem) (p n q : ℕ) → Apart q p → ((set_size m p n).read q).next ≡ (m.read q).next
next-set_size m p n q h =
    ap (λ (k : ListNode). k.next) (write_ne m p (record (m.read p) { size = n }) q h)

pub size-set_next :
    (m : Mem) (p : ℕ) (r : Option ℕ) → ((set_next m p r).read p).size ≡ (m.read p).size
size-set_next m p r =
    ap (λ (k : ListNode). k.size) (write_self m p (record (m.read p) { next = r }))

-- The iterator over the free regions yields exactly the regions that the nodes stand for.
pub iter_from-Chain :
    (m : Mem) (prev lo hi : ℕ) (cs : List MemChunk) (fuel : ℕ)
    → length cs < fuel
    → hi < low_half
    → Ordered lo hi cs
    → Chain m prev cs
    → iter_from fuel m (m.read prev).next ≡ some cs
unfolding iter_from start_addr
iter_from-Chain m prev lo hi [] zero f t o ch = absurd (omega arith)
iter_from-Chain m prev lo hi [] (suc fuel) f t o ch = rw ch
iter_from-Chain m prev lo hi (c ∷ cs) zero f t o ch = absurd (omega arith)
iter_from-Chain m prev lo hi (c ∷ cs) (suc fuel) f t (p, q, o) (here, size, ch) =
    let low = new_low c.start_addr (omega (arith, Ordered-le (c.start_addr + c.size) hi cs o)) in
    rw (
      here,
      low,
      iter_from-Chain m c.start_addr (c.start_addr + c.size) hi cs fuel (omega arith) t o ch,
      size,
    )
