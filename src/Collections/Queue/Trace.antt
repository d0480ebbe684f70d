-- ===== src/Collections/Queue/Trace.antt =====
-- collections/src/queue.rs: no sequence of calls tells a queue from the list of its items, as long as
-- the allocator serves its calls.
use bare_metal_blasterball.Base.{
  ℕ, ◌*◌, ◌≡◌, refl, Option, none, some, List, [], ◌∷◌, ◌++◌, ◌>>=◌, arith, run, run-step, run_nil,
  dec_lt,
}
use bare_metal_blasterball.Collections.Interface.{Allocator}
use bare_metal_blasterball.Collections.Queue.Defs.{Queue, dequeue, enqueue}
use bare_metal_blasterball.Collections.Queue.Refine.{
  Represents, dequeue_empty, dequeue_cons, enqueue_room, enqueue_full,
}

pub data Call (T : Type 0) : Type 0 where
  put : T → Call T
  get : Call T

-- The specification: a call on the list of the items, oldest first. `put` replies nothing.
pub serve_list : {T : Type 0} → List T → Call T → Option (List T × Option T)
serve_list xs (put x) = some (xs ++ (x ∷ []), none)
serve_list [] get = some ([], none)
serve_list (x ∷ xs) get = some (xs, some x)

module _ (al : Allocator) {T : Type 0} (size_of : ℕ) where
  open al use {State, alloc, dealloc}

  -- A call on the queue and the allocator's state.
  pub serve : Queue T × State → Call T → Option ((Queue T × State) × Option T)
  serve (q, s) (put x) = do (q', s') ← enqueue al size_of q x s; some ((q', s'), none)
  serve (q, s) get = do (out, q') ← dequeue q; some ((q', s), out)

-- An allocator with memory for every request.
pub record Serves (al : Allocator) : Type 0 where
  pub gives :
      (s : al.State) (size n : ℕ) → (p : ℕ) × (s' : al.State) × (al.alloc s size n ≡ some (p, s'))
  pub takes : (s : al.State) (p n : ℕ) → (s' : al.State) × (al.dealloc s p n ≡ some s')

module _ (al : Allocator) (ample : Serves al) {T : Type 0} (size_of : ℕ) where
  enqueue_lem :
      (q : Queue T) (xs : List T) (x : T) (s : al.State)
      → Represents q xs
      → (q' : Queue T) × (s' : al.State) × (enqueue al size_of q x s ≡ some (q', s'))
        × Represents q' (xs ++ (x ∷ []))
  enqueue_lem q xs x s r = elim (dec_lt q.len q.capacity) [
    | yes h ↦ let (q', e, r', _) = enqueue_room al size_of q xs x s r h in (q', s, e, r')
    | no h ↦
        let (p, s₁, a) = ample.gives s size_of (q.capacity * 2) in
        let (s₂, d) = ample.takes s₁ q.start_ptr (q.capacity * size_of) in
        let (q', e, r', _) = enqueue_full al size_of q xs x s r (omega (arith, r.fits)) a d in
        (q', s₂, e, r')
  ]

  serve-serve_list :
      (q : Queue T) (xs : List T) (s : al.State) (c : Call T)
      → Represents q xs
      → (q' : Queue T) × (s' : al.State) × (xs' : List T) × (out : Option T) × (serve al size_of
            (q, s)
            c
          ≡ some ((q', s'), out))
        × (serve_list xs c ≡ some (xs', out))
        × Represents q' xs'
  unfolding serve serve_list
  serve-serve_list q xs s (put x) r =
      let (q', s', e, r') = enqueue_lem q xs x s r in (q', s', xs ++ (x ∷ []), none, rw e, refl, r')
  serve-serve_list q [] s get r = (q, s, [], none, rw (dequeue_empty q r), refl, r)
  serve-serve_list q (x ∷ xs) s get r =
      let (q', e, r', _, _, _) = dequeue_cons q x xs r in (q', s, xs, some x, rw e, refl, r')

  -- From a queue that holds the items of a list, with an allocator that serves every request, any
  -- sequence of calls runs without a panic, returns the replies of the same calls on the list, and
  -- leaves the queue holding the items that are left on the list.
  pub serve_refines :
      (calls : List (Call T)) (q : Queue T) (xs : List T) (s : al.State)
      → Represents q xs
      → (q' : Queue T) × (s' : al.State) × (xs' : List T) × (outs : List (Option T)) × (run
            (serve al size_of)
            calls
            (q, s)
          ≡ some ((q', s'), outs))
        × (run serve_list calls xs ≡ some (xs', outs))
        × Represents q' xs'
  serve_refines [] q xs s r = (q, s, xs, [], run_nil _ _, run_nil _ _, r)
  serve_refines (c ∷ cs) q xs s r =
      let (q₁, s₁, xs₁, out, e, f, r₁) = serve-serve_list q xs s c r in
      let (q₂, s₂, xs₂, outs, es, fs, r₂) = serve_refines cs q₁ xs₁ s₁ r₁ in
      (q₂, s₂, xs₂, out ∷ outs, run-step _ cs e es, run-step _ cs f fs, r₂)
