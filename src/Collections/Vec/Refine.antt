-- ===== src/Collections/Vec/Refine.antt =====
-- collections/src/vec.rs: a vector behaves as the list of its items.
use bare_metal_blasterball.Base.{
  ℕ, zero, suc, ◌+◌, ◌-◌, ◌*◌, ◌≤◌, ◌<◌, ◌≡◌, refl, sym, ap, ◌∙◌, Option, none, some, List, [], ◌∷◌,
  ◌++◌, map, length, get_elem?, replicate, drop, length-append, length-replicate, drop-replicate,
  length-map, drop-replicate, get_elem?-append, set-append, arith, lt→ltb, ==_false, ==_true,
  leb-true, leb-false, ltb-false, dec_lt, subst,
}
use mathlib.Core.List.{append_assoc, append-nil}
use bare_metal_blasterball.Collections.Interface.{Allocator, write_cell, read_cell}
use bare_metal_blasterball.Collections.Vec.Defs.{
  Vec, copy_items, append_item, pop, try_pop, index, grow, push, push_each, clone,
}

module _ {ℓ} {T : Type ℓ} where
  -- The first cells of the block hold the items, and `rest` are the others.
  pub record Represents (v : Vec T) (xs : List T) (rest : List (Option T)) : Type ℓ where
    pub counted : v.len ≡ length xs
    pub laid_out : v.cells ≡ map some xs ++ rest
    pub sized : v.capacity ≡ length xs + length rest

  -- The cells of a list with one more item at its end.
  cells_snoc :
      (xs : List T) (x : T) (rest : List (Option T))
      → map some (xs ++ (x ∷ [])) ++ rest ≡ map some xs ++ (some x ∷ rest)
  cells_snoc [] x rest = refl
  cells_snoc (y ∷ xs) x rest = ap (λ r. some y ∷ r) (cells_snoc xs x rest)

  pub read_at :
      (before : List (Option T)) (x : T) (after : List (Option T)) (i : ℕ)
      → i ≡ length before
      → read_cell (before ++ (some x ∷ after)) i ≡ some x
  read_at before x after i e = rw (get_elem?-append before (some x) after i e, read_cell)

  pub write_at :
      (before : List (Option T)) (c : Option T) (after : List (Option T)) (i : ℕ) (x : T)
      → i ≡ length before
      → write_cell (before ++ (c ∷ after)) i x ≡ some (before ++ (some x ∷ after))
  write_at before c after i x e = rw (
    lt→ltb i (length (before ++ (c ∷ after))) (omega (arith, length-append before (c ∷ after))),
    set-append before c after (some x) i e,
  )

  -- A vector with room takes an item at its end.
  append_item_lem :
      (v : Vec T) (xs : List T) (c : Option T) (rest : List (Option T)) (x : T)
      → Represents v xs (c ∷ rest)
      → (v' : Vec T) × (append_item v x ≡ some v')
        × Represents v' (xs ++ (x ∷ [])) rest
        × (v'.capacity ≡ v.capacity)
  unfolding append_item
  append_item_lem v xs c rest x r = (
    record v { cells = map some xs ++ (some x ∷ rest); len = v.len + 1 },
    rw (r.laid_out, write_at (map some xs) c rest v.len x (r.counted ∙ sym (length-map some xs))),
    record {
      counted = omega (arith, r.counted, length-append xs (x ∷ []));
      laid_out = sym (cells_snoc xs x rest);
      sized = omega (arith, r.sized, length-append xs (x ∷ []));
    },
    refl,
  )

  -- Of a vector that is not empty `pop` and `try_pop` return the last item and keep the others.
  pub pop_snoc :
      (v : Vec T) (xs : List T) (x : T) (rest : List (Option T))
      → Represents v (xs ++ (x ∷ [])) rest
      → (v' : Vec T) × (pop v ≡ some (x, v'))
        × Represents v' xs (some x ∷ rest)
        × (try_pop v ≡ some (some x, v'))
        × (v'.capacity ≡ v.capacity)
  unfolding pop try_pop
  pop_snoc v xs x rest r =
      let n : v.len ≡ suc (length xs) = omega (arith, r.counted, length-append xs (x ∷ [])) in
      let at : v.len - 1 ≡ length (map some xs) = omega (arith, n, length-map some xs) in
      let cells : v.cells ≡ map some xs ++ (some x ∷ rest) = r.laid_out ∙ cells_snoc xs x rest in
      let last : read_cell v.cells (v.len - 1) ≡ some x =
        subst (λ c. read_cell c (v.len - 1) ≡ some x) (sym cells)
          (read_at (map some xs) x rest (v.len - 1) at) in
      (
        record v { len = v.len - 1 },
        rw (==_false v.len 0 (omega (arith, n)), last),
        record {
          counted = omega (arith, n);
          laid_out = cells;
          sized = omega (arith, r.sized, length-append xs (x ∷ []));
        },
        rw (==_false v.len 0 (omega (arith, n)), last),
        refl,
      )

  -- Of an empty vector `pop` panics, and `try_pop` returns `None` and leaves it as it is.
  pub pop_empty :
      (v : Vec T) (rest : List (Option T))
      → Represents v [] rest
      → (pop v ≡ none) × (try_pop v ≡ some (none, v))
  unfolding pop try_pop
  pop_empty v rest r = (rw (==_true v.len 0 r.counted), rw (==_true v.len 0 r.counted))

  read_items :
      (xs : List T) (rest : List (Option T)) (i : ℕ)
      → i < length xs
      → read_cell (map some xs ++ rest) i ≡ get_elem? xs i
  read_items [] rest i h = absurd (omega arith)
  read_items (x ∷ xs) rest zero h = refl
  read_items (x ∷ xs) rest (suc i) h = read_items xs rest i (omega arith)

  get_elem?_past : (xs : List T) (i : ℕ) → length xs ≤ i → get_elem? xs i ≡ none
  get_elem?_past [] i h = refl
  get_elem?_past (x ∷ xs) zero h = absurd (omega arith)
  get_elem?_past (x ∷ xs) (suc i) h = get_elem?_past xs i (omega arith)

  -- `v[idx]` is the item at `idx`, and panics where the list ends.
  pub index_lem :
      (v : Vec T) (xs : List T) (rest : List (Option T)) (idx : ℕ)
      → Represents v xs rest
      → index v idx ≡ get_elem? xs idx
  unfolding index
  index_lem v xs rest idx r = elim (dec_lt idx v.len) [
    | yes h ↦
        rw (lt→ltb idx v.len h, r.laid_out) (read_items xs rest idx (omega (arith, r.counted)))
    | no h ↦
        rw (ltb-false idx v.len (omega arith))
          (sym (get_elem?_past xs idx (omega (arith, r.counted))))
  ]

  copy_items_lem :
      (xs : List T) (i : ℕ) (before rest new_before blanks : List (Option T))
      → i ≡ length before
      → i ≡ length new_before
      → length xs ≤ length blanks
      → copy_items (length xs) i (before ++ (map some xs ++ rest)) (new_before ++ blanks)
        ≡ some (new_before ++ (map some xs ++ drop (length xs) blanks))
  unfolding copy_items
  copy_items_lem [] i before rest new_before blanks e f h = refl
  copy_items_lem (x ∷ xs) i before rest new_before [] e f h = absurd (omega arith)
  copy_items_lem (x ∷ xs) i before rest new_before (b ∷ blanks) e f h =
      let further =
        copy_items_lem xs (suc i) (before ++ (some x ∷ [])) rest (new_before ++ (some x ∷ []))
          blanks (omega (arith, length-append before (some x ∷ [])))
          (omega (arith, length-append new_before (some x ∷ []))) (omega arith) in
      rw (read_at before x (map some xs ++ rest) i e, write_at new_before b blanks i x f)
        (rw (append_assoc, append_assoc, append_assoc) at further)

  grow_cells :
      (v : Vec T) (xs : List T)
      → Represents v xs []
      → copy_items v.len 0 v.cells (replicate (v.capacity * 2) none)
        ≡ some (map some xs ++ replicate (length xs) none)
  grow_cells v xs r =
      let n = length xs in
      let double : v.capacity * 2 ≡ n + n = omega (arith, r.sized) in
      let moved =
        copy_items_lem xs 0 [] [] [] (replicate (n + n) none) refl refl
          (omega (arith, length-replicate {A = Option T} (n + n) none)) in
      rw (r.counted, r.laid_out, double)
        (moved ∙ ap (λ b. some (map some xs ++ b)) (drop-replicate n n none))

module _ {ℓ} (al : Allocator) {T : Type ℓ} (size_of : ℕ) where
  open al use {State, alloc, dealloc}

  -- A vector with room takes the item at its end, without a call of the allocator.
  pub push_room :
      (v : Vec T) (xs : List T) (c : Option T) (rest : List (Option T)) (x : T) (s : State)
      → Represents v xs (c ∷ rest)
      → (v' : Vec T) × (push al size_of v x s ≡ some (v', s))
        × Represents v' (xs ++ (x ∷ [])) rest
        × (v'.capacity ≡ v.capacity)
  unfolding push
  push_room v xs c rest x s r =
      let (v', e, r', k) = append_item_lem v xs c rest x r in
      (v', rw (leb-false v.capacity v.len (omega (arith, r.counted, r.sized)), e), r', k)

  grow_lem :
      (v : Vec T) (xs : List T) (s : State) {ptr : ℕ} {s₁ s₂ : State}
      → Represents v xs []
      → alloc s size_of (v.capacity * 2) ≡ some (ptr, s₁)
      → dealloc s₁ v.start_ptr (v.capacity * size_of) ≡ some s₂
      → (v' : Vec T) × (grow al size_of v s ≡ some (v', s₂))
        × Represents v' xs (replicate (length xs) none)
        × (v'.capacity ≡ v.capacity * 2)
  unfolding grow
  grow_lem v xs s {ptr} r a d =
      let size : v.capacity ≡ length xs = omega (arith, r.sized) in
      (
        record {
          len = v.len;
          capacity = v.capacity * 2;
          start_ptr = ptr;
          cells = map some xs ++ replicate (length xs) none;
        },
        rw (a, grow_cells v xs r, d),
        record {
          counted = r.counted;
          laid_out = refl;
          sized = omega (arith, size, length-replicate {A = Option T} (length xs) none);
        },
        refl,
      )

  -- A full vector of which the allocator serves both calls moves to a block of twice the size, gives
  -- the old block back, and takes the item at its end, all others kept in their places.
  pub push_full :
      (v : Vec T) (x₀ : T) (xs : List T) (x : T) (s : State) {ptr : ℕ} {s₁ s₂ : State}
      → Represents v (x₀ ∷ xs) []
      → alloc s size_of (v.capacity * 2) ≡ some (ptr, s₁)
      → dealloc s₁ v.start_ptr (v.capacity * size_of) ≡ some s₂
      → (v' : Vec T) × (push al size_of v x s ≡ some (v', s₂))
        × Represents v' (x₀ ∷ xs ++ (x ∷ [])) (replicate (length xs) none)
        × (v'.capacity ≡ v.capacity * 2)
  unfolding push
  push_full v x₀ xs x s r a d =
      let (v₁, e₁, r₁, c₁) = grow_lem v (x₀ ∷ xs) s r a d in
      let (v₂, e₂, r₂, c₂) = append_item_lem v₁ (x₀ ∷ xs) none (replicate (length xs) none) x r₁ in
      (v₂, rw (leb-true v.capacity v.len (omega (arith, r.counted, r.sized)), e₁, e₂), r₂, c₂ ∙ c₁)

  push_each_lem :
      (ys : List T) (v : Vec T) (xs : List T) (rest : List (Option T)) (s : State)
      → Represents v xs rest
      → length ys ≤ length rest
      → (v' : Vec T) × (push_each al size_of ys v s ≡ some (v', s))
        × Represents v' (xs ++ ys) (drop (length ys) rest)
        × (v'.capacity ≡ v.capacity)
  unfolding push_each
  push_each_lem [] v xs rest s r h = (v, refl, rw append-nil r, refl)
  push_each_lem (y ∷ ys) v xs [] s r h = absurd (omega arith)
  push_each_lem (y ∷ ys) v xs (c ∷ rest) s r h =
      let (v₁, e₁, r₁, c₁) = push_room v xs c rest y s r in
      let (v₂, e₂, r₂, c₂) = push_each_lem ys v₁ (xs ++ (y ∷ [])) rest s r₁ (omega arith) in
      (v₂, rw (e₁, e₂), rw append_assoc at r₂, c₂ ∙ c₁)

  -- A clone has the items and the capacity of its original, and takes one block from the allocator.
  pub clone_lem :
      (v : Vec T) (xs : List T) (rest : List (Option T)) (s : State) {ptr : ℕ} {s' : State}
      → Represents v xs rest
      → alloc s size_of v.capacity ≡ some (ptr, s')
      → (v' : Vec T) × (clone al size_of v xs s ≡ some (v', s'))
        × Represents v' xs (drop (length xs) (replicate v.capacity none))
        × (v'.capacity ≡ v.capacity)
  unfolding clone
  clone_lem v xs rest s {ptr} {s'} r a =
      let blank : List (Option T) = replicate v.capacity none in
      let new_vec : Vec T = record {
        len = 0;
        capacity = v.capacity;
        start_ptr = ptr;
        cells = blank;
      } in
      let size : length blank ≡ v.capacity = length-replicate v.capacity none in
      let fresh : Represents new_vec [] blank = record {
        counted = refl;
        laid_out = refl;
        sized = omega (arith, size);
      } in
      let (v', e, r', c) =
        push_each_lem xs new_vec [] blank s' fresh (omega (arith, size, r.sized)) in
      (v', rw (a, e), r', c)
