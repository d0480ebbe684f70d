-- ===== src/Collections/Queue/Faults.antt =====
-- collections/src/queue.rs: the capacity 0, and what `Drop` drops.
use bare_metal_blasterball.Base.{
  ℕ, ◌*◌, ◌≡◌, refl, ◌∙◌, Option, none, some, Option-cases, inl, inr, replicate, get_elem?, suc,
  List, [], ◌∷◌, length, take,
}
use bare_metal_blasterball.Collections.Interface.{Allocator}
use bare_metal_blasterball.Collections.Queue.Defs.{
  Queue, dequeue, enqueue, with_capacity, grow, make_room, put_back, dropped_cells, move_items,
}
use bare_metal_blasterball.Collections.Queue.Refine.{Represents, dequeue_cons}

module _ {ℓ} (al : Allocator) {T : Type ℓ} (size_of : ℕ) where
  open al use {State, alloc, dealloc}

  blank_lem :
      (n x : ℕ) (s : State) {q : Queue T} {s' : State}
      → with_capacity al size_of n s ≡ some (q, s')
      → (ptr : ℕ) × (q ≡ record {
        len = 0;
        capacity = n;
        start_ptr = ptr;
        front = 0;
        back = 0;
        cells = replicate n none;
      })
  unfolding with_capacity
  blank_lem n x s e = elim (Option-cases (alloc s size_of n)) [
    | inl h ↦ cc (rw h at e)
    | inr (a, h) ↦ (a.0, cc (rw h at e))
  ]

  -- A queue that `with_capacity` made with the capacity 0 never takes an item: the block of twice the
  -- size has no cell either, so `enqueue` panics or writes outside it, whatever the allocator does.
  pub enqueue_zero_capacity :
      (q : Queue T) (x : T) (s s' s'' : State)
      → with_capacity al size_of 0 s ≡ some (q, s')
      → enqueue al size_of q x s'' ≡ none
  unfolding enqueue make_room grow put_back move_items
  enqueue_zero_capacity q x s s' s'' e =
      let (ptr, p) = blank_lem 0 0 s e in
      rw p (elim (Option-cases (alloc s'' size_of 0)) [
        | inl h ↦ rw h
        | inr ((np, t), h) ↦ elim (Option-cases (dealloc t ptr (0 * size_of))) [
          | inl k ↦ rw (h, k)
          | inr (t', k) ↦ rw (h, k)
        ]
      ])

module _ {ℓ} {T : Type ℓ} where
  head_of_take :
      (n : ℕ) (cells : List (Option T)) → get_elem? (take (suc n) cells) 0 ≡ get_elem? cells 0
  head_of_take n [] = refl
  head_of_take n (c ∷ cells) = refl

  -- `Drop` is given the first `len` cells of the block. Of a queue whose front is the start of the
  -- block and that holds two items or more, `dequeue` hands out the first, and leaves a queue in
  -- which the first cell that `Drop` drops is again that item.
  pub dropped-dequeue :
      (q : Queue T) (x y : T) (ys : List T)
      → Represents q (x ∷ y ∷ ys)
      → q.front ≡ 0
      → (q' : Queue T) × (dequeue q ≡ some (some x, q'))
        × Represents q' (y ∷ ys)
        × (get_elem? (dropped_cells q') 0 ≡ some (some x))
  unfolding dropped_cells
  dropped-dequeue q x y ys r f =
      let (q', e, r', _, _, same) = dequeue_cons q x (y ∷ ys) r in
      (q', e, r', rw (r'.counted, same) (head_of_take (length ys) q.cells ∙ (rw f at r.holds.0)))
