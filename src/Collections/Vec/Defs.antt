-- ===== src/Collections/Vec/Defs.antt =====
-- collections/src/vec.rs: `Vec` and its operations, over the cells of the block that `start_ptr`
-- points to. `none` is a panic, or an access outside the block.
use bare_metal_blasterball.Base.{
  ℕ, zero, suc, ◌+◌, ◌-◌, ◌*◌, Bool, true, false, Option, none, some, List, [], ◌∷◌, ◌==◌, leb, ltb,
  if◌then◌else◌, ◌>>=◌, ◌>>◌, assert, replicate,
}
use bare_metal_blasterball.Collections.Interface.{Allocator, write_cell, read_cell}

pub record Vec {ℓ} (T : Type ℓ) : Type ℓ where
  pub len : ℕ
  pub capacity : ℕ
  pub start_ptr : ℕ
  pub cells : List (Option T)

module _ {ℓ} {T : Type ℓ} where
  -- The copying loop of `push`: the rounds that are left, and the index of the next.
  unfoldable pub copy_items : ℕ → ℕ → List (Option T) → List (Option T) → Option (List (Option T))
  copy_items zero i cells new_cells = some new_cells
  copy_items (suc rounds) i cells new_cells = do
    val ← read_cell cells i
    new_cells' ← write_cell new_cells i val
    copy_items rounds (suc i) cells new_cells'

  -- The last two lines of `push`.
  unfoldable pub append_item : Vec T → T → Option (Vec T)
  append_item v item = do
    cells ← write_cell v.cells v.len item
    some (record v { cells = cells; len = v.len + 1 })

  unfoldable pub pop : Vec T → Option (T × Vec T)
  pop v =
      if v.len == 0
      then none
      else (do val ← read_cell v.cells (v.len - 1); some (val, record v { len = v.len - 1 }))

  unfoldable pub try_pop : Vec T → Option (Option T × Vec T)
  unfolding pop
  try_pop v = if v.len == 0 then some (none, v) else (do (val, v') ← pop v; some (some val, v'))

  -- The shifting loop of `remove`, `for i in idx + 1..len`.
  unfoldable pub shift_items : ℕ → ℕ → List (Option T) → Option (List (Option T))
  shift_items zero i cells = some cells
  shift_items (suc rounds) i cells = do
    val ← read_cell cells i
    cells' ← write_cell cells (i - 1) val
    shift_items rounds (suc i) cells'

  unfoldable pub remove : Vec T → ℕ → Option (T × Vec T)
  unfolding shift_items
  remove v idx = if leb v.len idx then none else (do
    value ← read_cell v.cells idx
    cells ← shift_items (v.len - (idx + 1)) (idx + 1) v.cells
    some (value, record v { len = v.len - 1; cells = cells }))

  -- `v[idx]`
  unfoldable pub index : Vec T → ℕ → Option T
  index v idx = do assert (ltb idx v.len); read_cell v.cells idx

  -- `PartialEq::eq` over what the two `iter`s yield: the loop over the zipped iterators.
  unfoldable pub vec_eq : (T → T → Bool) → List T → List T → Bool
  vec_eq eq (x ∷ xs) (y ∷ ys) = if eq x y then vec_eq eq xs ys else false
  vec_eq eq _ _ = true

module _ {ℓ} (al : Allocator) {T : Type ℓ} (size_of : ℕ) where
  open al use {State, alloc, dealloc}

  unfoldable pub with_capacity : ℕ → State → Option (Vec T × State)
  with_capacity capacity s = do
    (ptr, s') ← alloc s size_of capacity
    some (
      record { len = 0; capacity = capacity; start_ptr = ptr; cells = replicate capacity none },
      s',
    )

  unfoldable pub grow : Vec T → State → Option (Vec T × State)
  unfolding copy_items
  grow v s = do
    (new_start_ptr, s') ← alloc s size_of (v.capacity * 2)
    cells ← copy_items v.len 0 v.cells (replicate (v.capacity * 2) none)
    s'' ← dealloc s' v.start_ptr (v.capacity * size_of)
    some (
      record { len = v.len; capacity = v.capacity * 2; start_ptr = new_start_ptr; cells = cells },
      s'',
    )

  unfoldable pub push : Vec T → T → State → Option (Vec T × State)
  unfolding grow append_item
  push v item s = do
    (v', s') ← if leb v.capacity v.len then grow v s else some (v, s)
    v'' ← append_item v' item
    some (v'', s')

  unfoldable pub push_each : List T → Vec T → State → Option (Vec T × State)
  push_each [] v s = some (v, s)
  push_each (x ∷ xs) v s = do (v', s') ← push v x s; push_each xs v' s'

  -- `Clone::clone`, given what `iter` yields. An item's own `clone` is the item.
  unfoldable pub clone : Vec T → List T → State → Option (Vec T × State)
  unfolding with_capacity push_each
  clone v items s = do (new_vec, s') ← with_capacity v.capacity s; push_each items new_vec s'

  -- `Drop`: the block goes back to the allocator.
  unfoldable pub drop_vec : Vec T → State → Option State
  drop_vec v s = dealloc s v.start_ptr (v.capacity * size_of)
