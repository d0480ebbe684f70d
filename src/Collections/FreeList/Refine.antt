-- ===== src/Collections/FreeList/Refine.antt =====
-- collections/src/allocator.rs: the loops over the nodes do what the specification does on the list
-- of the regions.
use bare_metal_blasterball.Base.{
  ℕ, zero, suc, ◌+◌, ◌-◌, ◌≤◌, ◌<◌, ◌≡◌, inl, refl, ap, ◌∙◌, some, List, [], ◌∷◌, arith, ==_true,
  ==_false, lt→ltb, ltb-false, length, dec_lt, ℕ_discrete,
}
use bare_metal_blasterball.Collections.FreeList.Defs.{
  ListNode, Mem, MemChunk, node_size, set_size, set_next, start_addr, find_from, take_whole,
  split_off,
}
use bare_metal_blasterball.Collections.FreeList.Spec.{
  chunk, Clean, Clean-next, Clean-larger, Ordered, Ordered-le, fit_addr, fit_rest,
}
use bare_metal_blasterball.Collections.FreeList.Chain.{
  Chain, Outside, Apart, Chain-Agree, write_self, write_ne, next-set_size, size-set_next,
}
use bare_metal_blasterball.Memory.Addr.{low_half, new_low, add_low}

-- What a search or a release from the node `prev` on leaves: the regions, the size of `prev`, and
-- every node outside the bounds.
pub record Updated (m m' : Mem) (prev lo hi : ℕ) (cs : List MemChunk) : Type 0 where
  pub chain : Chain m' prev cs
  pub same_size : (m'.read prev).size ≡ (m.read prev).size
  pub same : (q : ℕ) → Apart q prev → Outside lo hi q → m'.read q ≡ m.read q

-- What holds of the regions after `prev` before it.
pub record Listed (m : Mem) (prev lo hi : ℕ) (cs : List MemChunk) : Type 0 where
  pub low : hi < low_half
  pub ordered : Ordered lo hi cs
  pub outside : Outside lo hi prev
  pub chain : Chain m prev cs

module _ (m : Mem) (prev lo hi : ℕ) (c : MemChunk) (cs : List MemChunk)
    (l : Listed m prev lo hi (c ∷ cs)) where
  abbrev pub cur : ℕ
  cur = c.start_addr

  pub top : cur + c.size ≤ hi
  top = Ordered-le (cur + c.size) hi cs l.ordered.2

  pub cur-ne-prev : Apart cur prev
  cur-ne-prev = omega (arith, l.outside, l.ordered.0, l.ordered.1, top)

  -- The search goes on at the next node.
  pub Listed-next : Listed m cur (cur + c.size) hi cs
  Listed-next = record {
    low = l.low;
    ordered = l.ordered.2;
    outside = inl (omega (arith, l.ordered.1));
    chain = l.chain.2;
  }

  -- What an update from the next node on leaves is an update from `prev` on.
  pub Updated-next :
      (m' : Mem) (ds : List MemChunk)
      → Updated m m' cur (cur + c.size) hi ds
      → Updated m m' prev lo hi (c ∷ ds)
  Updated-next m' ds u =
      let kept : m'.read prev ≡ m.read prev =
        u.same prev (omega (arith, cur-ne-prev)) (omega (arith, l.outside, l.ordered.0)) in
      record {
        chain = (ap (λ (n : ListNode). n.next) kept ∙ l.chain.0, u.same_size ∙ l.chain.1, u.chain);
        same_size = ap (λ (n : ListNode). n.size) kept;
        same = λ q ne out.
            u.same q (omega (arith, out, l.ordered.0, l.ordered.1, top))
              (omega (arith, out, l.ordered.0));
      }

  pub start_low : start_addr cur ≡ some cur
  unfolding start_addr
  start_low = new_low cur (omega (arith, top, l.ordered.1, l.low))

  -- A region of the size asked for leaves the list.
  take_whole_lem :
      (m' : Mem) × (take_whole m prev cur ≡ some (some cur, m')) × Updated m m' prev lo hi cs
  unfolding take_whole
  take_whole_lem =
      let m₁ = set_next m prev (m.read cur).next in
      let m₂ = set_next m₁ cur (m.read prev).next in
      let at_prev : m₂.read prev ≡ m₁.read prev =
        write_ne m₁ cur _ prev (omega (arith, cur-ne-prev)) in
      (
        m₂,
        rw start_low,
        record {
          chain =
              Chain-Agree m m₂ cur prev (cur + c.size) hi cs
                (ap (λ (n : ListNode). n.next) (at_prev ∙ write_self m prev _))
                (λ q a b.
                  write_ne m₁ cur _ q (omega (arith, l.ordered.1))
                  ∙ write_ne m prev _ q (omega (arith, l.outside, l.ordered.0)))
                l.ordered.2 l.chain.2;
          same_size = ap (λ (n : ListNode). n.size) (at_prev ∙ write_self m prev _);
          same = λ q ne out.
              write_ne m₁ cur _ q (omega (arith, l.ordered.0, l.ordered.1, top))
              ∙ write_ne m prev _ q ne;
        },
      )

  -- Of a larger region the end stays free, under a new node.
  split_off_lem :
      (size : ℕ)
      → node_size ≤ size
      → size + node_size ≤ c.size
      → (m' : Mem) × (split_off m size prev cur ≡ some (some cur, m'))
        × Updated m m' prev lo hi (chunk (cur + size) (c.size - size) ∷ cs)
  unfolding split_off
  split_off_lem size g h =
      let new_node = cur + size in
      let m₁ = set_size m new_node ((m.read cur).size - size) in
      let m₂ = set_next m₁ new_node (m₁.read cur).next in
      let m₃ = set_next m₂ prev (some new_node) in
      let apart : Apart new_node prev = omega (arith, l.outside, l.ordered.0, top) in
      let at_new : m₃.read new_node ≡ m₂.read new_node = write_ne m₂ prev _ new_node apart in
      let at_prev : m₂.read prev ≡ m.read prev =
        write_ne m₁ new_node _ prev (omega (arith, apart))
        ∙ write_ne m new_node _ prev (omega (arith, apart)) in
      (
        m₃,
        rw (start_low, add_low cur size (omega (arith, top, l.low))),
        record {
          chain = (
            ap (λ (n : ListNode). n.next) (write_self m₂ prev _),
            ap (λ (n : ListNode). n.size) at_new
                ∙ size-set_next m₁ new_node (m₁.read cur).next
                ∙ ap (λ (n : ListNode). n.size) (write_self m new_node _)
                ∙ ap (λ k. k - size) l.chain.1,
            Chain-Agree m m₃ cur new_node (cur + c.size) hi cs
                (ap (λ (n : ListNode). n.next) (at_new ∙ write_self m₁ new_node _)
                  ∙ next-set_size m new_node ((m.read cur).size - size) cur (omega arith))
                (λ q a b.
                  write_ne m₂ prev _ q (omega (arith, l.outside, l.ordered.0))
                  ∙ write_ne m₁ new_node _ q (omega arith)
                  ∙ write_ne m new_node _ q (omega arith))
                l.ordered.2 l.chain.2,
          );
          same_size =
              ap (λ (n : ListNode). n.size) (write_self m₂ prev _)
              ∙ ap (λ (n : ListNode). n.size) at_prev;
          same = λ q ne out.
              write_ne m₂ prev _ q ne
              ∙ write_ne m₁ new_node _ q (omega (arith, l.ordered.0, top))
              ∙ write_ne m new_node _ q (omega (arith, l.ordered.0, top));
        },
      )

-- With fuel for the regions that are left, and for a size with room for a node, the search returns, without a panic, the address that first
-- fit gives, and leaves the nodes standing for the regions that first fit leaves; the size of the node
-- that it starts from and every node outside the bounds stay as they are.
pub find_from_lem :
    (m : Mem) (size prev lo hi : ℕ) (cs : List MemChunk) (fuel : ℕ)
    → length cs < fuel
    → node_size ≤ size
    → Clean size cs
    → Listed m prev lo hi cs
    → (m' : Mem) × (find_from fuel m size prev ≡ some (fit_addr size cs, m'))
      × Updated m m' prev lo hi (fit_rest size cs)
unfolding find_from fit_addr fit_rest
find_from_lem m size prev lo hi cs zero f g k l = absurd (omega arith)
find_from_lem m size prev lo hi [] (suc fuel) f g k l = (
  m,
  rw (l.chain, find_from),
  record { chain = l.chain; same_size = refl; same = λ q ne out. refl },
)
find_from_lem m size prev lo hi (c ∷ cs) (suc fuel) f g k l = elim (dec_lt c.size size) [
  | yes h ↦
      let (m', e, u) =
        find_from_lem m size c.start_addr (c.start_addr + c.size) hi cs fuel (omega arith) g
          (Clean-next size c cs k h) (Listed-next m prev lo hi c cs l) in
      (
        m',
        rw
            (
              l.chain.0,
              find_from,
              ==_false (m.read c.start_addr).size size (omega (arith, l.chain.1)),
              ltb-false size (m.read c.start_addr).size (omega (arith, l.chain.1)),
              lt→ltb c.size size h,
            )
            e,
        rw (lt→ltb c.size size h) (Updated-next m prev lo hi c cs l m' (fit_rest size cs) u),
      )
  | no h ↦ elim (ℕ_discrete c.size size) [
    | yes e ↦
        let (m', t, u) = take_whole_lem m prev lo hi c cs l in
        (
          m',
          rw
              (
                l.chain.0,
                find_from,
                ==_true (m.read c.start_addr).size size (l.chain.1 ∙ e),
                ltb-false c.size size (omega arith),
              )
              t,
          rw (ltb-false c.size size (omega arith), ==_true c.size size e) u,
        )
    | no e ↦
        let (m', t, u) =
          split_off_lem m prev lo hi c cs l size g (Clean-larger size c cs k (omega arith)) in
        (
          m',
          rw
              (
                l.chain.0,
                find_from,
                ==_false (m.read c.start_addr).size size (omega (arith, l.chain.1)),
                lt→ltb size (m.read c.start_addr).size (omega (arith, l.chain.1)),
                ltb-false c.size size (omega arith),
              )
              t,
          rw (ltb-false c.size size (omega arith), ==_false c.size size e) u,
        )
  ]
]
