-- ===== src/Collections/Queue/Refine.antt =====
-- collections/src/queue.rs: a queue behaves as the list of the items that it holds, oldest first.
use bare_metal_blasterball.Base.{
  ℕ, suc, ◌+◌, ◌-◌, ◌*◌, ◌≤◌, ◌<◌, ◌≡◌, refl, sym, ap, ◌∙◌, Option, none, some, List, [], ◌∷◌, ◌++◌,
  length, get_elem?, set, replicate, length-set, length-append, length-replicate,
  get_elem?-set_self, get_elem?-set_ne, arith, lt→ltb, ==_false, ==_true, leb-true, leb-false,
  subst,
}
use bare_metal_blasterball.Collections.Interface.{Allocator, read_cell}
use bare_metal_blasterball.Collections.Queue.Defs.{
  Queue, next, dequeue, move_items, put_back, grow, enqueue, with_capacity,
}
use bare_metal_blasterball.Collections.Queue.Window.{
  advance, next-lt, next-advance, advance-lt, advance_lem, Holds, Holds-set,
}

module _ {ℓ} {T : Type ℓ} where
  -- The queue is well formed and holds the items of the list, oldest first.
  pub record Represents (q : Queue T) (xs : List T) : Type ℓ where
    pub sized : q.capacity ≡ length q.cells
    pub front_in : q.front < q.capacity
    pub counted : q.len ≡ length xs
    pub fits : q.len ≤ q.capacity
    pub back_at : q.back ≡ advance q.capacity q.front (length xs)
    pub holds : Holds q.cells q.capacity q.front xs

  -- Of an empty queue `dequeue` returns `None` and leaves the queue as it is.
  pub dequeue_empty : (q : Queue T) → Represents q [] → dequeue q ≡ some (none, q)
  unfolding dequeue
  dequeue_empty q r = rw (==_true q.len 0 r.counted)

  pub read_front :
      (q : Queue T) (x : T) (xs : List T)
      → Represents q (x ∷ xs)
      → read_cell q.cells q.front ≡ some x
  read_front q x xs r = rw (r.holds.0, read_cell)

  -- Of a queue that is not empty `dequeue` returns the oldest item, and what is left holds the rest.
  pub dequeue_cons :
      (q : Queue T) (x : T) (xs : List T)
      → Represents q (x ∷ xs)
      → (q' : Queue T) × (dequeue q ≡ some (some x, q'))
        × Represents q' xs
        × (q'.capacity ≡ q.capacity)
        × (q'.start_ptr ≡ q.start_ptr)
        × (q'.cells ≡ q.cells)
  unfolding dequeue
  dequeue_cons q x xs r = (
    record q { front = next q.capacity q.front; len = q.len - 1 },
    rw (==_false q.len 0 (omega (arith, r.counted)), read_front q x xs r),
    record {
      sized = r.sized;
      front_in = next-lt _ _ r.front_in;
      counted = omega (arith, r.counted);
      fits = omega (arith, r.fits);
      back_at = r.back_at;
      holds = r.holds.1;
    },
    refl,
    refl,
    refl,
  )

  -- A queue with room takes an item at the back.
  put_back_lem :
      (q : Queue T) (x : T) (xs : List T)
      → Represents q xs
      → q.len < q.capacity
      → (q' : Queue T) × (put_back q x ≡ some q')
        × Represents q' (xs ++ (x ∷ []))
        × (q'.capacity ≡ q.capacity)
  unfolding put_back
  put_back_lem q x xs r room =
      let length_snoc : suc (length xs) ≡ length (xs ++ (x ∷ [])) =
        omega (arith, length-append xs (x ∷ [])) in
      let inside : q.back < length q.cells = rw r.back_at (
        subst (λ n. advance q.capacity q.front (length xs) < n) r.sized
          (advance-lt q.capacity q.front (length xs) r.front_in)) in
      (
        record q {
          cells = set q.cells q.back (some x);
          back = next q.capacity q.back;
          len = q.len + 1;
        },
        rw (lt→ltb _ _ inside),
        record {
          sized = r.sized ∙ sym (length-set q.cells q.back (some x));
          front_in = r.front_in;
          counted = omega (arith, r.counted, length_snoc);
          fits = omega arith;
          back_at =
              ap (next q.capacity) r.back_at
              ∙ next-advance q.capacity q.front (length xs)
              ∙ ap (advance q.capacity q.front) length_snoc;
          holds = rw r.back_at (
              Holds-set q.cells q.capacity q.front xs x r.sized r.front_in
                (omega (arith, r.counted)) r.holds);
        },
        refl,
      )

  -- What a run of `write` leaves in a block: the items of the list from `i` on.
  abbrev write_all : List (Option T) → ℕ → List T → List (Option T)
  write_all cells i [] = cells
  write_all cells i (x ∷ xs) = write_all (set cells i (some x)) (suc i) xs

  length-write_all :
      (cells : List (Option T)) (i : ℕ) (xs : List T) → length (write_all cells i xs) ≡ length cells
  length-write_all cells i [] = refl
  length-write_all cells i (x ∷ xs) =
      length-write_all (set cells i (some x)) (suc i) xs ∙ length-set cells i (some x)

  write_all_before :
      (cells : List (Option T)) (i j : ℕ) (xs : List T)
      → j < i
      → get_elem? (write_all cells i xs) j ≡ get_elem? cells j
  write_all_before cells i j [] h = refl
  write_all_before cells i j (x ∷ xs) h =
      write_all_before (set cells i (some x)) (suc i) j xs (omega arith)
      ∙ get_elem?-set_ne cells (some x) (omega arith)

  write_all-Holds :
      (cells : List (Option T)) (size i : ℕ) (xs : List T)
      → size ≡ length cells
      → i + length xs < size
      → Holds (write_all cells i xs) size i xs
  write_all-Holds cells size i [] e h = tt
  write_all-Holds cells size i (x ∷ xs) e h = (
    write_all_before (set cells i (some x)) (suc i) i xs (omega arith)
        ∙ get_elem?-set_self cells i (some x) (omega arith),
    subst (λ j. Holds (write_all (set cells i (some x)) (suc i) xs) size j xs) (ground arith)
        (write_all-Holds (set cells i (some x)) size (suc i) xs
          (e ∙ sym (length-set cells i (some x))) (omega arith)),
  )

  move_items_lem :
      (xs : List T) (i : ℕ) (q : Queue T) (cells : List (Option T))
      → Represents q xs
      → i + length xs ≤ length cells
      → move_items (length xs) i q cells ≡ some (write_all cells i xs)
  unfolding move_items
  move_items_lem [] i q cells r h = refl
  move_items_lem (x ∷ xs) i q cells r h =
      let (q', e, r', _, _, _) = dequeue_cons q x xs r in
      rw (e, lt→ltb i (length cells) (omega arith))
        (move_items_lem xs (suc i) q' (set cells i (some x)) r'
          (omega (arith, length-set cells i (some x))))

advance_straight : (size n : ℕ) → n < size → n ≡ advance size 0 n
advance_straight size n h = omega (arith, advance_lem size 0 n)

module _ {ℓ} (al : Allocator) {T : Type ℓ} (size_of : ℕ) where
  open al use {State, alloc, dealloc}

  -- A queue of a positive capacity starts out empty.
  pub with_capacity_lem :
      (capacity : ℕ) (s : State) {ptr : ℕ} {s' : State}
      → 0 < capacity
      → alloc s size_of capacity ≡ some (ptr, s')
      → (q : Queue T) × (with_capacity al size_of capacity s ≡ some (q, s'))
        × Represents q []
        × (q.capacity ≡ capacity)
  unfolding with_capacity
  with_capacity_lem capacity s {ptr} h a = (
    record {
      len = 0;
      capacity = capacity;
      start_ptr = ptr;
      front = 0;
      back = 0;
      cells = replicate capacity none;
    },
    rw a,
    record {
      sized = sym (length-replicate capacity none);
      front_in = h;
      counted = refl;
      fits = omega arith;
      back_at = refl;
      holds = tt;
    },
    refl,
  )

  grow_lem :
      (q : Queue T) (xs : List T) (s : State) {ptr : ℕ} {s₁ s₂ : State}
      → Represents q xs
      → alloc s size_of (q.capacity * 2) ≡ some (ptr, s₁)
      → dealloc s₁ q.start_ptr (q.capacity * size_of) ≡ some s₂
      → (q' : Queue T) × (grow al size_of q s ≡ some (q', s₂))
        × Represents q' xs
        × (q'.capacity ≡ q.capacity * 2)
        × (q'.len < q'.capacity)
        × (q'.start_ptr ≡ ptr)
  unfolding grow
  grow_lem q xs s {ptr} r a d =
      let blank : List (Option T) = replicate (q.capacity * 2) none in
      let blank_size : length blank ≡ q.capacity * 2 = length-replicate (q.capacity * 2) none in
      (
        record {
          len = q.len;
          capacity = q.capacity * 2;
          start_ptr = ptr;
          front = 0;
          back = q.len;
          cells = write_all blank 0 xs;
        },
        rw (a, moved blank blank_size, d),
        record {
          sized = sym (length-write_all blank 0 xs ∙ blank_size);
          front_in = omega (arith, r.front_in);
          counted = r.counted;
          fits = omega (arith, r.fits);
          back_at =
              r.counted
              ∙ advance_straight (q.capacity * 2) (length xs)
                  (omega (arith, r.counted, r.fits, r.front_in));
          holds =
              write_all-Holds blank (q.capacity * 2) 0 xs (sym blank_size)
                (omega (arith, r.counted, r.fits, r.front_in));
        },
        refl,
        omega (arith, r.fits, r.front_in),
        refl,
      )
    where
      moved :
          (cells : List (Option T))
          → length cells ≡ q.capacity * 2
          → move_items q.len 0 q cells ≡ some (write_all cells 0 xs)
      moved cells e =
          subst (λ n. move_items n 0 q cells ≡ some (write_all cells 0 xs)) (sym r.counted)
            (move_items_lem xs 0 q cells r (omega (arith, e, r.counted, r.fits)))

  -- A queue with room takes the item at the back, without a call of the allocator.
  pub enqueue_room :
      (q : Queue T) (xs : List T) (x : T) (s : State)
      → Represents q xs
      → q.len < q.capacity
      → (q' : Queue T) × (enqueue al size_of q x s ≡ some (q', s))
        × Represents q' (xs ++ (x ∷ []))
        × (q'.capacity ≡ q.capacity)
  unfolding enqueue
  enqueue_room q xs x s r room =
      let (q', e, r', c) = put_back_lem q x xs r room in
      (q', rw (leb-false q.capacity q.len room, e), r', c)

  -- A full queue of which the allocator serves both calls moves to a block of twice the size that
  -- `alloc` returned, gives the old block back, and takes the item at the back, all others kept in
  -- their order.
  pub enqueue_full :
      (q : Queue T) (xs : List T) (x : T) (s : State) {ptr : ℕ} {s₁ s₂ : State}
      → Represents q xs
      → q.len ≡ q.capacity
      → alloc s size_of (q.capacity * 2) ≡ some (ptr, s₁)
      → dealloc s₁ q.start_ptr (q.capacity * size_of) ≡ some s₂
      → (q' : Queue T) × (enqueue al size_of q x s ≡ some (q', s₂))
        × Represents q' (xs ++ (x ∷ []))
        × (q'.capacity ≡ q.capacity * 2)
  unfolding enqueue
  enqueue_full q xs x s r full a d =
      let (q₁, e₁, r₁, c₁, room, _) = grow_lem q xs s r a d in
      let (q₂, e₂, r₂, c₂) = put_back_lem q₁ x xs r₁ room in
      (q₂, rw (leb-true q.capacity q.len (omega (arith, full)), e₁, e₂), r₂, c₂ ∙ c₁)
