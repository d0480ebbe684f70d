-- ===== src/Collections/Tests.antt =====
-- collections/src: the theorems at concrete heaps, queues and vectors.
use bare_metal_blasterball.Base.{
  ℕ, suc, ◌+◌, ◌*◌, ◌≤◌, ◌≡◌, inr, refl, Bool, ◌==◌, Option, none, some, List, [], ◌∷◌, ◌++◌, arith,
  if◌then◌else◌, length, run,
}
use bare_metal_blasterball.Memory.Addr.{new, add}
use bare_metal_blasterball.Collections.FreeList.Defs.{
  ListNode, Mem, MemChunk, written, mul_usize, set_size, set_next, split_off, find_from, alloc,
  dealloc, iter_from, start_addr,
}
use bare_metal_blasterball.Collections.FreeList.Spec.{
  chunk, Clean, fit_addr, fit_rest, give_back, free_bytes, bytes_of, Disjoint,
}
use bare_metal_blasterball.Collections.FreeList.Alloc.{Heap, alloc_lem, alloc-Disjoint, dealloc_lem}
use bare_metal_blasterball.Collections.FreeList.RoundTrip.{dealloc-alloc}
use bare_metal_blasterball.Collections.Interface.{Allocator}
use bare_metal_blasterball.Collections.Queue.Defs as Q
use bare_metal_blasterball.Collections.Queue.Refine as QRefine
use bare_metal_blasterball.Collections.Queue.Trace.{
  Call, put, get, serve, serve_list, Serves, serve_refines,
}
use bare_metal_blasterball.Collections.Vec.Defs as V
use bare_metal_blasterball.Collections.Vec.Refine as VRefine
use bare_metal_blasterball.Collections.Vec.Remove.{remove_lem}

-- A head at 8, and two free regions. What a torn node reads as is nothing that matters here.
abbrev heap_nodes : ℕ → ListNode
heap_nodes q =
    if q == 8
    then record { size = 0; next = some 64 }
    else if q == 64
    then record { size = 64; next = some 192 }
    else record { size = 32; next = none }

abbrev heap_mem : Mem
heap_mem = record { read = heap_nodes; torn = λ nodes p n q. record { size = 0; next = none } }

abbrev regions : List MemChunk
regions = chunk 64 64 ∷ chunk 192 32 ∷ []

heap_mem-Heap : Heap heap_mem 8 64 256 regions
heap_mem-Heap = record {
  low = omega arith;
  ordered = (omega arith, omega arith, (omega arith, omega arith, omega arith));
  below = omega arith;
  chain = (refl, refl, (refl, refl, refl));
  head_size = refl;
}

block_is_Clean : Clean (8 * 4) regions
block_is_Clean = inr (inr (omega arith))

alloc_lem_example :
    (m' : Mem) × (alloc 3 8 heap_mem 8 4 ≡ some (fit_addr (8 * 4) regions, m'))
    × Heap m' 8 64 256 (fit_rest (8 * 4) regions)
    × (free_bytes regions
        ≡ free_bytes (fit_rest (8 * 4) regions) + bytes_of (fit_addr (8 * 4) regions) (8 * 4))
alloc_lem_example =
    alloc_lem heap_mem 8 64 256 regions 3 8 4 (omega arith) heap_mem-Heap (omega arith)
      (omega arith) block_is_Clean

-- The memory after that call.
abbrev after_alloc : Mem
after_alloc = set_next (set_next (set_size heap_mem 96 32) 96 (some 192)) 8 (some 96)

alloc-Disjoint_example :
    (64 ≤ 64)
    × (64 + 8 * 4 ≤ 256)
    × (rest : List MemChunk) × (iter_from (suc (length rest)) after_alloc (after_alloc.read 8).next
        ≡ some rest)
    × Disjoint 64 (8 * 4) rest
unfolding alloc mul_usize find_from split_off start_addr new add written
alloc-Disjoint_example =
    alloc-Disjoint heap_mem 8 64 256 regions 3 8 4 64 after_alloc (omega arith) heap_mem-Heap
      (omega arith) (omega arith) block_is_Clean refl

dealloc-alloc_example :
    (m'' : Mem) × (cs' : List MemChunk) × (dealloc 4 8 after_alloc 64 (8 * 4) ≡ some m'')
    × Heap m'' 8 64 256 cs'
    × (free_bytes cs' ≡ free_bytes regions)
unfolding alloc mul_usize find_from split_off start_addr new add written
dealloc-alloc_example =
    dealloc-alloc heap_mem 8 64 256 regions 4 8 4 64 after_alloc (omega arith) heap_mem-Heap
      (omega arith) (omega arith) block_is_Clean refl

dealloc_lem_example :
    (m' : Mem) × (dealloc 4 8 heap_mem 224 32 ≡ some m')
    × Heap m' 8 64 256 (give_back (chunk 224 32) regions)
    × (free_bytes (give_back (chunk 224 32) regions) ≡ free_bytes regions + 32)
dealloc_lem_example =
    dealloc_lem heap_mem 8 64 256 regions 4 224 32 (omega arith) heap_mem-Heap (omega arith)
      (omega arith, inr (omega arith, inr (omega arith, omega arith)))

-- An allocator that hands out ever higher addresses.
abbrev bump : Allocator
bump = record { State = ℕ; alloc = λ s size n. some (s, s + size * n); dealloc = λ s p n. some s }

bump-Serves : Serves bump
bump-Serves = record { gives = λ s size n. (s, s + size * n, refl); takes = λ s p n. (s, refl) }

-- A queue with one cell, empty and full.
abbrev empty_queue : Q.Queue ℕ
empty_queue = record {
  len = 0;
  capacity = 1;
  start_ptr = 16;
  front = 0;
  back = 0;
  cells = none ∷ [];
}

abbrev full_queue : Q.Queue ℕ
full_queue = record empty_queue { len = 1; cells = some 7 ∷ [] }

-- Two items in three cells.
abbrev two_items : Q.Queue ℕ
two_items = record {
  len = 2;
  capacity = 3;
  start_ptr = 16;
  front = 0;
  back = 2;
  cells = some 5 ∷ some 6 ∷ none ∷ [];
}

empty_queue-Represents : QRefine.Represents empty_queue []
empty_queue-Represents = record {
  sized = refl;
  front_in = omega arith;
  counted = refl;
  fits = omega arith;
  back_at = refl;
  holds = tt;
}

full_queue-Represents : QRefine.Represents full_queue (7 ∷ [])
full_queue-Represents = record {
  sized = refl;
  front_in = omega arith;
  counted = refl;
  fits = omega arith;
  back_at = refl;
  holds = (refl, tt);
}

two_items-Represents : QRefine.Represents two_items (5 ∷ 6 ∷ [])
two_items-Represents = record {
  sized = refl;
  front_in = omega arith;
  counted = refl;
  fits = omega arith;
  back_at = refl;
  holds = (refl, (refl, tt));
}

abbrev three_calls : List (Call ℕ)
three_calls = put 1 ∷ put 2 ∷ get ∷ []

serve_refines_example :
    (q' : Q.Queue ℕ) × (s' : ℕ) × (xs' : List ℕ) × (outs : List (Option ℕ)) × (run
        (serve bump 8)
        three_calls
        (empty_queue, 100)
      ≡ some ((q', s'), outs))
    × (run serve_list three_calls [] ≡ some (xs', outs))
    × QRefine.Represents q' xs'
serve_refines_example =
    serve_refines bump bump-Serves 8 three_calls empty_queue [] 100 empty_queue-Represents

abbrev no_cells : Q.Queue ℕ
no_cells = record { len = 0; capacity = 0; start_ptr = 100; front = 0; back = 0; cells = [] }

-- A full vector with two items.
abbrev full_vec : V.Vec ℕ
full_vec = record { len = 2; capacity = 2; start_ptr = 16; cells = some 5 ∷ some 6 ∷ [] }

full_vec-Represents : VRefine.Represents full_vec (5 ∷ 6 ∷ []) []
full_vec-Represents = record { counted = refl; laid_out = refl; sized = refl }

remove_lem_example :
    (v' : V.Vec ℕ) × (V.remove full_vec (length {A = ℕ} []) ≡ some (5, v'))
    × VRefine.Represents v' ([] ++ (6 ∷ [])) (some 6 ∷ [])
    × (v'.capacity ≡ full_vec.capacity)
remove_lem_example = remove_lem full_vec [] 5 (6 ∷ []) [] full_vec-Represents

abbrev equal : ℕ → ℕ → Bool
equal a b = a == b
