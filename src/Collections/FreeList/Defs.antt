-- ===== src/Collections/FreeList/Defs.antt =====
-- collections/src/allocator.rs: `LinkedListAllocator`. Memory maps an address to the `ListNode` that is
-- read there; the allocator is the address of its head node. A write to a node changes what is read of
-- each node that overlaps it, less than the size of a node apart, in a way that is a parameter.
-- `none` is a panic of an address operation or of a product, or a loop that ran out of fuel.
use bare_metal_blasterball.Base.{
  ℕ, zero, suc, ◌+◌, ◌-◌, ◌*◌, ◌^◌, ◌&&◌, Bool, assert, ◌>>◌, Option, none, some, List, [], ◌∷◌,
  ◌==◌, ltb, if◌then◌else◌, ◌>>=◌,
}
use bare_metal_blasterball.Memory.Addr.{new, add}

pub record ListNode : Type 0 where
  pub size : ℕ
  pub next : Option ℕ

-- The bytes of a `ListNode`: 8 of `size`, 16 of `next`
abbrev pub node_size : ℕ
node_size = 24

-- The memory, and what a node reads as after a write to another one that it overlaps: `torn nodes p n q`
-- is what is read at `q` after the write of `n` at `p`. It hangs on the layout that the compiler chooses,
-- so that nothing is assumed of it.
pub record Mem : Type 0 where
  pub read : ℕ → ListNode
  pub torn : (ℕ → ListNode) → ℕ → ListNode → ℕ → ListNode

unfoldable pub written : Mem → ℕ → ListNode → ℕ → ListNode
written m p n q =
    if q == p
    then n
    else if ltb q (p + node_size) && ltb p (q + node_size)
    then m.torn m.read p n q
    else m.read q

abbrev pub write : Mem → ℕ → ListNode → Mem
write m p n = record m { read = written m p n }

-- `(*p).size = n` and `(*p).next = q`
abbrev pub set_size : Mem → ℕ → ℕ → Mem
set_size m p n = write m p (record (m.read p) { size = n })

abbrev pub set_next : Mem → ℕ → Option ℕ → Mem
set_next m p q = write m p (record (m.read p) { next = q })

-- `memory::MemChunk`
pub record MemChunk : Type 0 where
  pub start_addr : ℕ
  pub size : ℕ

-- `ListNode::start_addr` and `end_addr`, and `MemChunk::end_addr`
unfoldable pub start_addr : ℕ → Option ℕ
start_addr p = new p

unfoldable pub end_addr : Mem → ℕ → Option ℕ
unfolding start_addr
end_addr m p = do start ← start_addr p; add start (m.read p).size

unfoldable pub chunk_end : MemChunk → Option ℕ
chunk_end c = add c.start_addr c.size

-- The body of the loop of `find_free_region` at a free node `cur` that is as large as asked for, and
-- at one that is larger.
unfoldable pub take_whole : Mem → (prev cur : ℕ) → Option (Option ℕ × Mem)
unfolding start_addr
take_whole m prev cur =
    let swapped = set_next (set_next m prev (m.read cur).next) cur (m.read prev).next in
    (do start ← start_addr cur; some (some start, swapped))

unfoldable pub split_off : Mem → ℕ → (prev cur : ℕ) → Option (Option ℕ × Mem)
unfolding start_addr
split_off m size prev cur = do
  start ← start_addr cur
  new_node ← add start size
  let sized = set_size m new_node ((m.read cur).size - size)
  let linked = set_next sized new_node (sized.read cur).next
  let entered = set_next linked prev (some new_node)
  some (some start, entered)

-- The loop of `find_free_region`, from the node `prev` on.
unfoldable pub find_from : ℕ → Mem → ℕ → ℕ → Option (Option ℕ × Mem)
unfolding take_whole split_off
find_from zero m size prev = none
find_from (suc fuel) m size prev = elim ((m.read prev).next) [
  | none ↦ some (none, m)
  | some cur ↦
      let rest = find_from fuel m size cur in
      if (m.read cur).size == size
      then take_whole m prev cur
      else if ltb size (m.read cur).size
      then split_off m size prev cur
      else rest
]

-- The bodies of the loop of `add_free_region`: the chunk extends the node `cur`, becomes a node after
-- it, or takes the place of the node after it.
unfoldable pub extend_node : Mem → ℕ → MemChunk → Mem
extend_node m cur c = set_size m cur ((m.read cur).size + c.size)

unfoldable pub insert_node : Mem → ℕ → MemChunk → Mem
insert_node m cur c =
    let next = (m.read cur).next in
    let taken = set_next m cur none in
    let created = write taken c.start_addr (record { size = c.size; next = next }) in
    set_next created cur (some c.start_addr)

unfoldable pub absorb_next : Mem → ℕ → ℕ → MemChunk → Mem
absorb_next m cur next c =
    let sized = set_size m c.start_addr ((m.read next).size + c.size) in
    let linked = set_next sized c.start_addr (sized.read next).next in
    set_next linked cur (some c.start_addr)

-- A sum that a `u64` holds
abbrev pub fits_u64 : ℕ → Bool
fits_u64 n = ltb n (2 ^ 64)

unfoldable pub add_from : ℕ → Mem → MemChunk → ℕ → Option Mem
add_from zero m c cur = none
add_from (suc fuel) m c cur = do
  cur_end ← end_addr m cur
  if cur_end == c.start_addr
      then (do assert (fits_u64 ((m.read cur).size + c.size)); some (extend_node m cur c))
      else elim ((m.read cur).next) [
        | none ↦ some (insert_node m cur c)
        | some next ↦
            let rest = add_from fuel m c next in
            (do
              c_end ← chunk_end c
              next_start ← start_addr next
              if ltb c_end next_start
                  then some (insert_node m cur c)
                  else if c_end == next_start
                  then (do
                    assert (fits_u64 ((m.read next).size + c.size))
                    some (absorb_next m cur next c))
                  else rest)
      ]

-- The product of two `usize`
unfoldable pub mul_usize : ℕ → ℕ → Option ℕ
mul_usize a b = if ltb (a * b) (2 ^ 64) then some (a * b) else none

-- `alloc` and `dealloc` of the trait, on an allocator whose lock is free; `fuel` bounds the loops.
unfoldable pub alloc : ℕ → ℕ → Mem → (size_of_type size_to_alloc : ℕ) → Option (Option ℕ × Mem)
unfolding find_from mul_usize
alloc fuel head m size_of_type size_to_alloc = do
  size ← mul_usize size_of_type size_to_alloc
  find_from fuel m size head

unfoldable pub dealloc : ℕ → ℕ → Mem → (ptr size_to_dealloc : ℕ) → Option Mem
unfolding add_from
dealloc fuel head m ptr size_to_dealloc = do
  start ← new ptr
  add_from fuel m (record { start_addr = start; size = size_to_dealloc }) head

-- `FreeRegionIter`: the chunks that the iterator yields, from the node that it stands at.
unfoldable pub iter_from : ℕ → Mem → Option ℕ → Option (List MemChunk)
iter_from zero m p = none
iter_from (suc fuel) m none = some []
iter_from (suc fuel) m (some p) = do
  start ← start_addr p
  rest ← iter_from fuel m (m.read p).next
  some (record { start_addr = start; size = (m.read p).size } ∷ rest)
