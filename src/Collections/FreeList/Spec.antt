-- ===== src/Collections/FreeList/Spec.antt =====
-- collections/src/allocator.rs: what the allocator promises, on the list of the free regions in the
-- order of their addresses.
use bare_metal_blasterball.Base.{
  ℕ, ◌+◌, ◌-◌, ◌≤◌, ◌<◌, ◌≡◌, ◌⊎◌, refl, Option, none, some, List, [], ◌∷◌, ◌==◌, ltb,
  if◌then◌else◌, arith, dec_lt, ℕ_discrete, lt→ltb, ltb-false, ==_true, ==_false, subst, inl, inr,
}
use bare_metal_blasterball.Collections.FreeList.Defs.{MemChunk, node_size}

abbrev pub chunk : ℕ → ℕ → MemChunk
chunk a n = record { start_addr = a; size = n }

-- First fit: the address of the first region that is large enough, and the regions that are left.
unfoldable pub fit_addr : ℕ → List MemChunk → Option ℕ
fit_addr size [] = none
fit_addr size (c ∷ cs) = if ltb c.size size then fit_addr size cs else some c.start_addr

unfoldable pub fit_rest : ℕ → List MemChunk → List MemChunk
fit_rest size [] = []
fit_rest size (c ∷ cs) =
    if ltb c.size size
    then c ∷ fit_rest size cs
    else if c.size == size
    then cs
    else chunk (c.start_addr + size) (c.size - size) ∷ cs

-- The regions with a chunk given back: it extends the region that ends where it starts, or else the
-- one that starts where it ends, or else stands by itself.
unfoldable pub give_back : MemChunk → List MemChunk → List MemChunk
give_back c [] = c ∷ []
give_back c (r ∷ rs) =
    if ltb (c.start_addr + c.size) r.start_addr
    then c ∷ r ∷ rs
    else if c.start_addr + c.size == r.start_addr
    then chunk c.start_addr (r.size + c.size) ∷ rs
    else if r.start_addr + r.size == c.start_addr
    then chunk r.start_addr (r.size + c.size) ∷ rs
    else r ∷ give_back c rs

-- The regions have room for a node, do not overlap, ascend, and lie between the bounds.
abbrev pub Ordered : ℕ → ℕ → List MemChunk → Type 0
Ordered lo hi [] = lo ≤ hi
Ordered lo hi (c ∷ cs) =
    (lo ≤ c.start_addr) × (node_size ≤ c.size) × Ordered (c.start_addr + c.size) hi cs

-- The chunk lies between the bounds and overlaps no region.
abbrev pub Fits : ℕ → ℕ → MemChunk → List MemChunk → Type 0
Fits lo hi c [] = (lo ≤ c.start_addr) × (c.start_addr + c.size ≤ hi)
Fits lo hi c (r ∷ rs) =
    (lo ≤ c.start_addr)
    × ((c.start_addr + c.size ≤ r.start_addr) ⊎ Fits (r.start_addr + r.size) hi c rs)

-- The first region that is large enough is as large as asked for, or has room for a node behind the
-- block, if there is such a region.
abbrev pub Clean : ℕ → List MemChunk → Type 0
Clean size [] = Unit
Clean size (c ∷ cs) =
    ((c.size < size) × Clean size cs) ⊎ ((c.size ≡ size) ⊎ (size + node_size ≤ c.size))

pub Clean-next :
    (size : ℕ) (c : MemChunk) (cs : List MemChunk)
    → Clean size (c ∷ cs)
    → c.size < size
    → Clean size cs
Clean-next size c cs (inl (l, k)) h = k
Clean-next size c cs (inr (inl e)) h = absurd (omega (arith, e, h))
Clean-next size c cs (inr (inr e)) h = absurd (omega (arith, e, h))

pub Clean-larger :
    (size : ℕ) (c : MemChunk) (cs : List MemChunk)
    → Clean size (c ∷ cs)
    → size < c.size
    → size + node_size ≤ c.size
Clean-larger size c cs (inl (l, k)) h = absurd (omega (arith, l, h))
Clean-larger size c cs (inr (inl e)) h = absurd (omega (arith, e, h))
Clean-larger size c cs (inr (inr e)) h = e

-- The number of free bytes.
abbrev pub free_bytes : List MemChunk → ℕ
free_bytes [] = 0
free_bytes (c ∷ cs) = c.size + free_bytes cs

abbrev pub bytes_of : Option ℕ → ℕ → ℕ
bytes_of none size = 0
bytes_of (some a) size = size

Ordered-weaken :
    (lo lo' hi : ℕ) (cs : List MemChunk) → lo' ≤ lo → Ordered lo hi cs → Ordered lo' hi cs
Ordered-weaken lo lo' hi [] h o = omega arith
Ordered-weaken lo lo' hi (c ∷ cs) h (p, q, o) = (omega arith, q, o)

pub Ordered-le : (lo hi : ℕ) (cs : List MemChunk) → Ordered lo hi cs → lo ≤ hi
Ordered-le lo hi [] o = o
Ordered-le lo hi (c ∷ cs) (p, q, o) = omega (arith, Ordered-le (c.start_addr + c.size) hi cs o)

pub Fits-le : (lo hi : ℕ) (c : MemChunk) (cs : List MemChunk) → Fits lo hi c cs → lo ≤ c.start_addr
Fits-le lo hi c [] (f, g) = f
Fits-le lo hi c (r ∷ rs) (f, g) = f

-- The regions behind a chunk that fits among them start where it ends, or later.
pub Fits-Ordered :
    (lo hi : ℕ) (c : MemChunk) (cs : List MemChunk)
    → c.start_addr ≡ lo
    → node_size ≤ c.size
    → Ordered lo hi cs
    → Fits lo hi c cs
    → Ordered (c.start_addr + c.size) hi cs
Fits-Ordered lo hi c [] e h o (f, g) = g
Fits-Ordered lo hi c (r ∷ rs) e h (p, q, o) (f, inl g) = (g, q, o)
Fits-Ordered lo hi c (r ∷ rs) e h (p, q, o) (f, inr g) =
    absurd (omega (arith, Fits-le (r.start_addr + r.size) hi c rs g))

-- An allocation keeps the regions ordered, if what it leaves of a region has room for a node, and takes as many free bytes as it hands out.
pub fit_rest-Ordered :
    (size lo hi : ℕ) (cs : List MemChunk)
    → Clean size cs
    → Ordered lo hi cs
    → Ordered lo hi (fit_rest size cs)
      × (free_bytes cs ≡ free_bytes (fit_rest size cs) + bytes_of (fit_addr size cs) size)
unfolding fit_rest fit_addr
fit_rest-Ordered size lo hi [] k o = (o, refl)
fit_rest-Ordered size lo hi (c ∷ cs) k (p, q, o) = elim (dec_lt c.size size) [
  | yes h ↦
      (let (later, bytes) =
          fit_rest-Ordered size (c.start_addr + c.size) hi cs (Clean-next size c cs k h) o in
        rw (lt→ltb c.size size h) ((p, q, later), omega (arith, bytes)))
  | no h ↦ elim (ℕ_discrete c.size size) [
    | yes e ↦
        rw (ltb-false c.size size (omega arith), ==_true c.size size e)
          (Ordered-weaken (c.start_addr + c.size) lo hi cs (omega arith) o, omega arith)
    | no e ↦
        let room = Clean-larger size c cs k (omega arith) in
        rw (ltb-false c.size size (omega arith), ==_false c.size size e)
          (
            (omega arith, omega (arith, room), subst (λ t. Ordered t hi cs) (omega arith) o),
            omega arith,
          )
  ]
]

-- The regions that are left overlap nothing of a block that was handed out, if it is not empty.
unfoldable pub Disjoint : ℕ → ℕ → List MemChunk → Type 0
Disjoint a n [] = Unit
Disjoint a n (c ∷ cs) = ((a + n ≤ c.start_addr) ⊎ (c.start_addr + c.size ≤ a)) × Disjoint a n cs

Disjoint-Ordered :
    (a n lo hi : ℕ) (cs : List MemChunk) → a + n ≤ lo → Ordered lo hi cs → Disjoint a n cs
unfolding Disjoint
Disjoint-Ordered a n lo hi [] h o = tt
Disjoint-Ordered a n lo hi (c ∷ cs) h (p, q, o) =
    (inl (omega arith), Disjoint-Ordered a n (c.start_addr + c.size) hi cs (omega arith) o)

-- What an allocation hands out lies between the bounds and overlaps no region that stays free.
pub fit_addr-Disjoint :
    (size lo hi a : ℕ) (cs : List MemChunk)
    → Ordered lo hi cs
    → fit_addr size cs ≡ some a
    → (lo ≤ a) × (a + size ≤ hi) × Disjoint a size (fit_rest size cs)
unfolding fit_addr fit_rest Disjoint
fit_addr-Disjoint size lo hi a [] o h = cc
fit_addr-Disjoint size lo hi a (c ∷ cs) (p, q, o) h = elim (dec_lt c.size size) [
  | yes l ↦
      let (above, below, apart) =
        fit_addr-Disjoint size (c.start_addr + c.size) hi a cs o (rw (lt→ltb c.size size l) at h) in
      rw (lt→ltb c.size size l) (omega arith, below, (inr above, apart))
  | no l ↦
      let first : some c.start_addr ≡ some a = rw (ltb-false c.size size (omega arith)) at h in
      let e : c.start_addr ≡ a = cc in
      let top = Ordered-le (c.start_addr + c.size) hi cs o in
      elim (ℕ_discrete c.size size) [
        | yes m ↦
            rw (ltb-false c.size size (omega arith), ==_true c.size size m)
              (
                omega arith,
                omega (arith, top),
                Disjoint-Ordered a size (c.start_addr + c.size) hi cs (omega arith) o,
              )
        | no m ↦
            rw (ltb-false c.size size (omega arith), ==_false c.size size m)
              (
                omega arith,
                omega (arith, top),
                (
                  inl (omega arith),
                  Disjoint-Ordered a size (c.start_addr + c.size) hi cs (omega arith) o,
                ),
              )
      ]
]

-- Giving back a chunk that overlaps no region keeps the regions ordered, and adds its bytes to the
-- free ones.
pub give_back-Ordered :
    (c : MemChunk) (lo hi : ℕ) (cs : List MemChunk)
    → node_size ≤ c.size
    → Ordered lo hi cs
    → Fits lo hi c cs
    → Ordered lo hi (give_back c cs) × (free_bytes (give_back c cs) ≡ free_bytes cs + c.size)
unfolding give_back
give_back-Ordered c lo hi [] h o (f, g) = ((f, h, g), omega arith)
give_back-Ordered c lo hi (r ∷ rs) h (p, q, o) (f, inl below) =
    elim (ℕ_discrete (c.start_addr + c.size) r.start_addr) [
      | yes e ↦
          rw
            (
              ltb-false (c.start_addr + c.size) r.start_addr (omega arith),
              ==_true (c.start_addr + c.size) r.start_addr e,
            )
            ((f, omega arith, subst (λ t. Ordered t hi rs) (omega arith) o), omega arith)
      | no e ↦
          rw (lt→ltb (c.start_addr + c.size) r.start_addr (omega arith))
            ((f, h, (below, q, o)), omega arith)
    ]
give_back-Ordered c lo hi (r ∷ rs) h (p, q, o) (f, inr g) =
    let above = Fits-le (r.start_addr + r.size) hi c rs g in
    let (later, bytes) = give_back-Ordered c (r.start_addr + r.size) hi rs h o g in
    elim (ℕ_discrete (r.start_addr + r.size) c.start_addr) [
      | yes e ↦
          rw
            (
              ltb-false (c.start_addr + c.size) r.start_addr (omega arith),
              ==_false (c.start_addr + c.size) r.start_addr (omega arith),
              ==_true (r.start_addr + r.size) c.start_addr e,
            )
            (
              (
                p,
                omega arith,
                subst (λ t. Ordered t hi rs) (omega arith)
                    (Fits-Ordered (r.start_addr + r.size) hi c rs (omega arith) h o g),
              ),
              omega arith,
            )
      | no e ↦
          rw
            (
              ltb-false (c.start_addr + c.size) r.start_addr (omega arith),
              ==_false (c.start_addr + c.size) r.start_addr (omega arith),
              ==_false (r.start_addr + r.size) c.start_addr e,
            )
            ((p, q, later), omega (arith, bytes))
    ]
