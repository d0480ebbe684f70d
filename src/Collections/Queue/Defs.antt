-- ===== src/Collections/Queue/Defs.antt =====
-- collections/src/queue.rs: `Queue` and its operations. `front_ptr` and `back_ptr` are kept as
-- offsets from `start_ptr`, counted in items, and the block that `start_ptr` points to as its cells.
-- `none` is a panic, or an access outside the block.
use bare_metal_blasterball.Base.{
  ℕ, zero, suc, ◌+◌, ◌-◌, ◌*◌, Option, none, some, List, ◌==◌, leb, if◌then◌else◌, ◌>>=◌, take,
  replicate,
}
use bare_metal_blasterball.Collections.Interface.{Allocator, write_cell, read_cell}

pub record Queue {ℓ} (T : Type ℓ) : Type ℓ where
  pub len : ℕ
  pub capacity : ℕ
  pub start_ptr : ℕ
  pub front : ℕ
  pub back : ℕ
  pub cells : List (Option T)

-- The offset after `i`: past the last item of the block it goes back to the start.
abbrev pub next : ℕ → ℕ → ℕ
next capacity i = if i + 1 == capacity then 0 else i + 1

module _ {ℓ} {T : Type ℓ} where
  unfoldable pub dequeue : Queue T → Option (Option T × Queue T)
  dequeue q = if q.len == 0 then some (none, q) else (do
    val ← read_cell q.cells q.front
    some (some val, record q { front = next q.capacity q.front; len = q.len - 1 }))

  -- `for i in 0..self.len { new_start_ptr.offset(i).write(self.dequeue().unwrap()) }`, with the
  -- rounds that are left first.
  unfoldable pub move_items : ℕ → ℕ → Queue T → List (Option T) → Option (List (Option T))
  move_items zero i q new_cells = some new_cells
  move_items (suc rounds) i q new_cells = do
    (item, q') ← dequeue q
    val ← item
    new_cells' ← write_cell new_cells i val
    move_items rounds (suc i) q' new_cells'

  -- The lines of `enqueue` after the growth.
  unfoldable pub put_back : Queue T → T → Option (Queue T)
  put_back q item = do
    cells ← write_cell q.cells q.back item
    some (record q { cells = cells; back = next q.capacity q.back; len = q.len + 1 })

  -- What `Drop` passes to `drop_in_place`: the first `len` cells of the block.
  unfoldable pub dropped_cells : Queue T → List (Option T)
  dropped_cells q = take q.len q.cells

module _ {ℓ} (al : Allocator) {T : Type ℓ} (size_of : ℕ) where
  open al use {State, alloc, dealloc}

  unfoldable pub with_capacity : ℕ → State → Option (Queue T × State)
  with_capacity capacity s = do
    (ptr, s') ← alloc s size_of capacity
    some (
      record {
        len = 0;
        capacity = capacity;
        start_ptr = ptr;
        front = 0;
        back = 0;
        cells = replicate capacity none;
      },
      s',
    )

  -- The block of twice the size that a full queue moves to.
  unfoldable pub grow : Queue T → State → Option (Queue T × State)
  unfolding move_items dequeue
  grow q s = do
    (new_start_ptr, s') ← alloc s size_of (q.capacity * 2)
    cells ← move_items q.len 0 q (replicate (q.capacity * 2) none)
    s'' ← dealloc s' q.start_ptr (q.capacity * size_of)
    some (
      record {
        len = q.len;
        capacity = q.capacity * 2;
        start_ptr = new_start_ptr;
        front = 0;
        back = q.len;
        cells = cells;
      },
      s'',
    )

  unfoldable pub make_room : Queue T → State → Option (Queue T × State)
  unfolding grow
  make_room q s = if leb q.capacity q.len then grow q s else some (q, s)

  unfoldable pub enqueue : Queue T → T → State → Option (Queue T × State)
  unfolding make_room put_back
  enqueue q item s = do (q', s') ← make_room q s; q'' ← put_back q' item; some (q'', s')

  -- `Drop`: the block goes back to the allocator.
  unfoldable pub drop_queue : Queue T → State → Option State
  drop_queue q s = dealloc s q.start_ptr (size_of * q.capacity)
