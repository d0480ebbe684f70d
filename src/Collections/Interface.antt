-- ===== src/Collections/Interface.antt =====
-- collections/src/allocator.rs: the trait `Allocator`, by which the containers get their memory, and
-- the cells of a block of memory.
use bare_metal_blasterball.Base.{
  ℕ, Option, none, some, List, length, get_elem?, set, ltb, if◌then◌else◌,
}

-- `alloc(size_of_type, size_to_alloc)` and `dealloc(ptr, size_to_dealloc)`; `none` is an `Err`.
pub record Allocator : Type 1 where
  pub State : Type 0
  pub alloc : State → ℕ → ℕ → Option (ℕ × State)
  pub dealloc : State → ℕ → ℕ → Option State

-- A cell that nothing has been written to is `none`. A write or a read outside the block is a fault.
module _ {ℓ} {A : Type ℓ} where
  abbrev pub write_cell : List (Option A) → ℕ → A → Option (List (Option A))
  write_cell buf i v = if ltb i (length buf) then some (set buf i (some v)) else none

  abbrev pub read_cell : List (Option A) → ℕ → Option A
  read_cell buf i = elim (get_elem? buf i) [ none ↦ none | some c ↦ c ]
