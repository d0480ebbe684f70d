-- ===== src/Collections/FreeList/Release.antt =====
-- collections/src/allocator.rs: `add_free_region` over the nodes does what the specification does on
-- the list of the regions.
use bare_metal_blasterball.Base.{
  ◌^◌, assert, ◌>>◌, ℕ, zero, suc, ◌+◌, ◌≤◌, ◌<◌, ◌≡◌, ◌≢◌, inl, inr, refl, ap, ◌∙◌, none, some,
  List, [], ◌∷◌, ◌==◌, ltb, if◌then◌else◌, arith, ==_true, ==_false, lt→ltb, ltb-false, length,
  dec_lt, ℕ_discrete,
}
use bare_metal_blasterball.Collections.FreeList.Defs.{
  ListNode, Mem, MemChunk, node_size, fits_u64, write, set_size, set_next, start_addr, end_addr,
  chunk_end, add_from, extend_node, insert_node, absorb_next,
}
use bare_metal_blasterball.Collections.FreeList.Spec.{
  chunk, Ordered, Ordered-le, Fits, Fits-le, give_back,
}
use bare_metal_blasterball.Collections.FreeList.Chain.{
  Apart, Chain-Agree, write_self, write_ne, next-set_size, size-set_next,
}
use bare_metal_blasterball.Collections.FreeList.Refine.{
  Listed, Updated, Listed-next, Updated-next, start_low, cur-ne-prev, top,
}
use bare_metal_blasterball.Memory.Addr.{low_half, new_low, add_low}

pub Fits-end :
    (lo hi : ℕ) (c : MemChunk) (cs : List MemChunk)
    → Ordered lo hi cs
    → Fits lo hi c cs
    → c.start_addr + c.size ≤ hi
Fits-end lo hi c [] o (f, g) = g
Fits-end lo hi c (r ∷ rs) (p, q, o) (f, inl g) =
    omega (arith, Ordered-le (r.start_addr + r.size) hi rs o)
Fits-end lo hi c (r ∷ rs) (p, q, o) (f, inr g) = Fits-end (r.start_addr + r.size) hi c rs o g

-- A chunk that lies between the node and the regions after it becomes a node.
insert_node_lem :
    (m : Mem) (c : MemChunk) (cur lo hi : ℕ) (cs : List MemChunk)
    → Listed m cur lo hi cs
    → lo ≤ c.start_addr
    → node_size ≤ c.size
    → Ordered (c.start_addr + c.size) hi cs
    → Updated m (insert_node m cur c) cur lo hi (c ∷ cs)
unfolding insert_node
insert_node_lem m c cur lo hi cs l above pos o =
    let p = c.start_addr in
    let under = Ordered-le (p + c.size) hi cs o in
    let apart : Apart p cur = omega (arith, l.outside) in
    let m₁ = set_next m cur none in
    let m₂ = write m₁ p (record { size = c.size; next = (m.read cur).next }) in
    let m₃ = set_next m₂ cur (some p) in
    let at_p : m₃.read p ≡ m₂.read p = write_ne m₂ cur _ p apart in
    let at_cur : m₂.read cur ≡ m₁.read cur = write_ne m₁ p _ cur (omega (arith, apart)) in
    record {
      chain = (
        ap (λ (n : ListNode). n.next) (write_self m₂ cur _),
        ap (λ (n : ListNode). n.size) (at_p ∙ write_self m₁ p _),
        Chain-Agree m m₃ cur p (p + c.size) hi cs
            (ap (λ (n : ListNode). n.next) (at_p ∙ write_self m₁ p _))
            (λ q a b.
              write_ne m₂ cur _ q (omega (arith, l.outside))
              ∙ write_ne m₁ p _ q (omega arith)
              ∙ write_ne m cur _ q (omega (arith, l.outside)))
            o l.chain,
      );
      same_size =
          ap (λ (n : ListNode). n.size) (write_self m₂ cur _)
          ∙ ap (λ (n : ListNode). n.size) at_cur
          ∙ size-set_next m cur none;
      same = λ q ne out.
          write_ne m₂ cur _ q ne ∙ write_ne m₁ p _ q (omega (arith, out)) ∙ write_ne m cur _ q ne;
    }

module _ (m : Mem) (c : MemChunk) (prev lo hi : ℕ) (r : MemChunk) (rs : List MemChunk)
    (l : Listed m prev lo hi (r ∷ rs)) where
  -- A chunk that ends where the next region starts takes that region's place, with both sizes.
  absorb_next_lem :
      lo ≤ c.start_addr
      → node_size ≤ c.size
      → c.start_addr + c.size ≡ r.start_addr
      → Updated m
          (absorb_next m prev r.start_addr c)
          prev
          lo
          hi
          (chunk c.start_addr (r.size + c.size) ∷ rs)
  unfolding absorb_next
  absorb_next_lem above pos e =
      let p = c.start_addr in
      let under = top m prev lo hi r rs l in
      let apart : Apart p prev = omega (arith, l.outside, l.ordered.1) in
      let m₁ = set_size m p ((m.read r.start_addr).size + c.size) in
      let m₂ = set_next m₁ p (m₁.read r.start_addr).next in
      let m₃ = set_next m₂ prev (some p) in
      let at_p : m₃.read p ≡ m₂.read p = write_ne m₂ prev _ p apart in
      let at_prev : m₂.read prev ≡ m.read prev =
        write_ne m₁ p _ prev (omega (arith, apart)) ∙ write_ne m p _ prev (omega (arith, apart)) in
      record {
        chain = (
          ap (λ (n : ListNode). n.next) (write_self m₂ prev _),
          ap (λ (n : ListNode). n.size) at_p
              ∙ size-set_next m₁ p (m₁.read r.start_addr).next
              ∙ ap (λ (n : ListNode). n.size) (write_self m p _)
              ∙ ap (λ k. k + c.size) l.chain.1,
          Chain-Agree m m₃ r.start_addr p (r.start_addr + r.size) hi rs
              (ap (λ (n : ListNode). n.next) (at_p ∙ write_self m₁ p _)
                ∙ next-set_size m p ((m.read r.start_addr).size + c.size) r.start_addr
                    (omega arith))
              (λ q a b.
                write_ne m₂ prev _ q (omega (arith, l.outside, l.ordered.0))
                ∙ write_ne m₁ p _ q (omega arith)
                ∙ write_ne m p _ q (omega arith))
              l.ordered.2 l.chain.2,
        );
        same_size =
            ap (λ (n : ListNode). n.size) (write_self m₂ prev _)
            ∙ ap (λ (n : ListNode). n.size) at_prev;
        same = λ q ne out.
            write_ne m₂ prev _ q ne
            ∙ write_ne m₁ p _ q (omega (arith, out, l.ordered.1, under))
            ∙ write_ne m p _ q (omega (arith, out, l.ordered.1, under));
      }

  -- A chunk that starts where the next region ends makes that region larger.
  extend_node_lem :
      Updated m
        (extend_node m r.start_addr c)
        prev
        lo
        hi
        (chunk r.start_addr (r.size + c.size) ∷ rs)
  unfolding extend_node
  extend_node_lem =
      let p = r.start_addr in
      let under = top m prev lo hi r rs l in
      let at_prev : (extend_node m p c).read prev ≡ m.read prev =
        write_ne m p _ prev (omega (arith, cur-ne-prev m prev lo hi r rs l)) in
      record {
        chain = (
          ap (λ (n : ListNode). n.next) at_prev ∙ l.chain.0,
          ap (λ (n : ListNode). n.size) (write_self m p _) ∙ ap (λ k. k + c.size) l.chain.1,
          Chain-Agree m (extend_node m p c) p p (p + r.size) hi rs
              (ap (λ (n : ListNode). n.next) (write_self m p _))
              (λ q a b. write_ne m p _ q (omega (arith, l.ordered.1))) l.ordered.2 l.chain.2,
        );
        same_size = ap (λ (n : ListNode). n.size) at_prev;
        same = λ q ne out. write_ne m p _ q (omega (arith, out, l.ordered.0, l.ordered.1, under));
      }

pub end_addr_lem :
    (m : Mem) (p n : ℕ) → (m.read p).size ≡ n → p + n < low_half → end_addr m p ≡ some (p + n)
unfolding end_addr start_addr
end_addr_lem m p n e h = rw (new_low p (omega arith), e) (add_low p n h)

chunk_end_lem :
    (c : MemChunk) → c.start_addr + c.size < low_half → chunk_end c ≡ some (c.start_addr + c.size)
unfolding chunk_end
chunk_end_lem c h = add_low c.start_addr c.size h

-- Which side of a region a chunk that fits lies on.
Fits-before :
    (lo hi : ℕ) (c r : MemChunk) (rs : List MemChunk)
    → Fits lo hi c (r ∷ rs)
    → c.start_addr < r.start_addr + r.size
    → c.start_addr + c.size ≤ r.start_addr
Fits-before lo hi c r rs (f, inl g) h = g
Fits-before lo hi c r rs (f, inr g) h =
    absurd (omega (arith, Fits-le (r.start_addr + r.size) hi c rs g))

Fits-after :
    (lo hi : ℕ) (c r : MemChunk) (rs : List MemChunk)
    → Fits lo hi c (r ∷ rs)
    → r.start_addr + r.size ≤ c.start_addr
    → 0 < r.size
    → Fits (r.start_addr + r.size) hi c rs
Fits-after lo hi c r rs (f, inl g) h pos = absurd (omega arith)
Fits-after lo hi c r rs (f, inr g) h pos = g

-- One round at a node that does not end where the chunk starts.
add_from_round :
    (m : Mem) (c : MemChunk) (cur : ℕ) (fuel e next : ℕ)
    → end_addr m cur ≡ some e
    → e ≢ c.start_addr
    → (m.read cur).next ≡ some next
    → start_addr next ≡ some next
    → c.start_addr + c.size < low_half
    → add_from (suc fuel) m c cur ≡ (
        if ltb (c.start_addr + c.size) next
        then some (insert_node m cur c)
        else if c.start_addr + c.size == next
        then (do assert (fits_u64 ((m.read next).size + c.size)); some (absorb_next m cur next c))
        else add_from fuel m c next)
unfolding add_from
add_from_round m c cur fuel e next h ne n s low =
    rw (h, ==_false e c.start_addr ne, n, s, chunk_end_lem c low)

add_from_extend :
    (m : Mem) (c : MemChunk) (cur : ℕ) (fuel : ℕ)
    → 0 < fuel
    → end_addr m cur ≡ some c.start_addr
    → (m.read cur).size + c.size < 2 ^ 64
    → add_from fuel m c cur ≡ some (extend_node m cur c)
unfolding add_from
add_from_extend m c cur zero f h k = absurd (omega arith)
add_from_extend m c cur (suc fuel) f h k =
    rw (h, ==_true c.start_addr c.start_addr refl, lt→ltb ((m.read cur).size + c.size) (2 ^ 64) k)

add_from_last :
    (m : Mem) (c : MemChunk) (cur : ℕ) (fuel e : ℕ)
    → end_addr m cur ≡ some e
    → e ≢ c.start_addr
    → (m.read cur).next ≡ none
    → add_from (suc fuel) m c cur ≡ some (insert_node m cur c)
unfolding add_from
add_from_last m c cur fuel e h ne n = rw (h, ==_false e c.start_addr ne, n)

-- From a node that does not end where the chunk starts, with fuel for the regions that are left, the
-- loop returns without a panic, and leaves the nodes standing for the regions with the chunk given
-- back; the size of that node and every node outside the bounds stay as they are.
pub add_from_lem :
    (m : Mem) (c : MemChunk) (prev lo hi : ℕ) (cs : List MemChunk) (fuel e : ℕ)
    → suc (length cs) < fuel
    → node_size ≤ c.size
    → Listed m prev lo hi cs
    → Fits lo hi c cs
    → end_addr m prev ≡ some e
    → e ≢ c.start_addr
    → (m' : Mem) × (add_from fuel m c prev ≡ some m') × Updated m m' prev lo hi (give_back c cs)
unfolding give_back
add_from_lem m c prev lo hi cs zero e f pos l fits at ne = absurd (omega arith)
add_from_lem m c prev lo hi [] (suc fuel) e f pos l (above, below) at ne = (
  insert_node m prev c,
  add_from_last m c prev fuel e at ne l.chain,
  insert_node_lem m c prev lo hi [] l above pos below,
)
add_from_lem m c prev lo hi (r ∷ rs) (suc fuel) e f pos l fits at ne =
    let under = top m prev lo hi r rs l in
    let c_end = Fits-end lo hi c (r ∷ rs) l.ordered fits in
    let sum : (m.read r.start_addr).size + c.size < 2 ^ 64 =
      omega (arith, l.chain.1, c_end, under, l.low) in
    let round =
      add_from_round m c prev fuel e r.start_addr at ne l.chain.0 (start_low m prev lo hi r rs l)
        (omega (arith, c_end, l.low)) in
    elim (dec_lt c.start_addr (r.start_addr + r.size)) [
      | yes before ↦
          let left = Fits-before lo hi c r rs fits before in
          elim (ℕ_discrete (c.start_addr + c.size) r.start_addr) [
            | yes touch ↦ (
              absorb_next m prev r.start_addr c,
              rw (
                round,
                ltb-false (c.start_addr + c.size) r.start_addr (omega arith),
                ==_true (c.start_addr + c.size) r.start_addr touch,
                lt→ltb ((m.read r.start_addr).size + c.size) (2 ^ 64) sum,
              ),
              rw
                  (
                    ltb-false (c.start_addr + c.size) r.start_addr (omega arith),
                    ==_true (c.start_addr + c.size) r.start_addr touch,
                  )
                  (absorb_next_lem m c prev lo hi r rs l (Fits-le lo hi c (r ∷ rs) fits) pos touch),
            )
            | no gap ↦
                let under_next = lt→ltb (c.start_addr + c.size) r.start_addr (omega arith) in
                (
                  insert_node m prev c,
                  rw (round, under_next),
                  rw under_next (
                      insert_node_lem m c prev lo hi (r ∷ rs) l (Fits-le lo hi c (r ∷ rs) fits) pos
                        (left, l.ordered.1, l.ordered.2)),
                )
          ]
      | no after ↦
          let not_below = ltb-false (c.start_addr + c.size) r.start_addr (omega arith) in
          let not_at = ==_false (c.start_addr + c.size) r.start_addr (omega (arith, l.ordered.1)) in
          let r_end = end_addr_lem m r.start_addr r.size l.chain.1 (omega (arith, under, l.low)) in
          elim (ℕ_discrete (r.start_addr + r.size) c.start_addr) [
            | yes touch ↦ (
              extend_node m r.start_addr c,
              rw (round, not_below, not_at)
                  (add_from_extend m c r.start_addr fuel (omega arith) (r_end ∙ ap some touch) sum),
              rw (not_below, not_at, ==_true (r.start_addr + r.size) c.start_addr touch)
                  (extend_node_lem m c prev lo hi r rs l),
            )
            | no gap ↦
                let later =
                  Fits-after lo hi c r rs fits (omega arith) (omega (arith, l.ordered.1)) in
                let (m', t, u) =
                  add_from_lem m c r.start_addr (r.start_addr + r.size) hi rs fuel
                    (r.start_addr + r.size) (omega arith) pos (Listed-next m prev lo hi r rs l)
                    later r_end gap in
                (
                  m',
                  rw (round, not_below, not_at) t,
                  rw (not_below, not_at, ==_false (r.start_addr + r.size) c.start_addr gap)
                      (Updated-next m prev lo hi r rs l m' (give_back c rs) u),
                )
          ]
    ]
