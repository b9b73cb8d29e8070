-- ===== src/Pool/Tests.antt =====
-- The functions of src/PoolAllocator.h on a pool of 4 chunks of 16 bytes, and the theorems there.
use memory_allocators.Base.{
  same, count, ◌+◌, ◌*◌, ◌≤◌, ◌≡◌, refl, [], ◌∷◌, ◌++◌, none, arith, null, true, false, update,
  debug, release, ok, ◌>>=◌, total, pos,
}
use memory_allocators.Interface.{interface_of}
use memory_allocators.SystemHeap.{owned}
use memory_allocators.Pool.{
  PoolAllocator, c_pool_alloc_thread_policy, pool_allocator, copy, destroy, fill, allocate, free,
  reset,
}
use memory_allocators.Pool.Invariant.{Accounted}
use memory_allocators.Pool.Chunks.{started, init-Accounted, lends, allocate-Accounted}
use memory_allocators.Pool.Contents.{contents, put, reset-contents}
use memory_allocators.Pool.Giving.{takes_back, free-Accounted, free-allocate}
use memory_allocators.Pool.History.{Reach, Reach-Accounted, Reach-lent, inits, allocates, frees}
use memory_allocators.Pool.Faults.{destroy-copy}

abbrev fresh_pool : PoolAllocator
fresh_pool = record {
  base = interface_of 64;
  free_chunks_ptr = null;
  free_chunks = λ _. null;
  start_ptr = null;
  chunks_num = 4;
  chunk_size = 16;
  curr_free_chunks_idx = pos 3;
  spinlock = false;
}

constructed : pool_allocator debug 4 16 ≡ ok fresh_pool
unfolding pool_allocator
constructed = refl

abbrev ready : PoolAllocator
ready = started 4096 8192 fresh_pool

ready-Accounted : Accounted ready 4 []
ready-Accounted =
    (init-Accounted 4096 8192 fresh_pool (omega arith) (omega arith) refl (omega arith)
      (omega arith) (omega arith)).1

abbrev one_lent : PoolAllocator
one_lent = lends 3 ready

one_lent-Accounted : Accounted one_lent 3 (4144 ∷ [])
unfolding fill update
one_lent-Accounted =
    (allocate-Accounted ready 3 [] ready-Accounted debug 12 8 (omega arith) (omega arith) refl).1

free-allocate_example :
    (allocate debug c_pool_alloc_thread_policy 12 8 ready >>= λ r.
    free c_pool_alloc_thread_policy r.0 r.1)
    ≡ ok (true, ready)
unfolding fill update
free-allocate_example =
    free-allocate ready 3 [] ready-Accounted debug 12 8 (omega arith) (omega arith) refl

ready-Reach : Reach fresh_pool 4096 8192 ready 4 []
ready-Reach =
    inits
      (init-Accounted 4096 8192 fresh_pool (omega arith) (omega arith) refl (omega arith)
        (omega arith) (omega arith)).0

one_lent-Reach : Reach fresh_pool 4096 8192 one_lent 3 (4144 ∷ [])
unfolding fill update
one_lent-Reach =
    allocates 12 8 ready-Reach (omega arith) (omega arith) refl
      (allocate-Accounted ready 3 [] ready-Accounted release 12 8 (omega arith) (omega arith)
        refl).0

again-Reach : Reach fresh_pool 4096 8192 (takes_back 4144 3 one_lent) 4 []
again-Reach =
    frees [] 4144 [] one_lent-Reach refl (free-Accounted one_lent 3 [] 4144 [] one_lent-Accounted).0

Reach-Accounted_example : Accounted (takes_back 4144 3 one_lent) 4 []
Reach-Accounted_example =
    Reach-Accounted fresh_pool 4096 8192 (omega arith) (omega arith) refl (omega arith)
      (omega arith) (omega arith) again-Reach

Reach-lent_example :
    (count 4144 [] ≡ 0)
    × (total (same 4144) 3 one_lent.free_chunks ≡ 0)
    × (4096 ≤ 4144)
    × (4144 + 16 ≤ 4096 + 64)
    × (16 ≡ 1 * 16)
    × (16 + 3 * 16 ≡ 64)
Reach-lent_example =
    Reach-lent fresh_pool 4096 8192 (omega arith) (omega arith) refl (omega arith) (omega arith)
      (omega arith) one_lent-Reach

-- A pool of one chunk of 16 bytes, which is lent.
abbrev single : PoolAllocator
single = started 4096 8192 (record fresh_pool { base = interface_of 16; chunks_num = 1 })

single-Accounted : Accounted single 1 []
single-Accounted =
    (init-Accounted 4096 8192 (record fresh_pool { base = interface_of 16; chunks_num = 1 })
      (omega arith) (omega arith) refl (omega arith) (omega arith) (omega arith)).1

empty-Accounted : Accounted (lends 0 single) 0 (4096 ∷ [])
unfolding fill update
empty-Accounted =
    (allocate-Accounted single 0 [] single-Accounted release 16 8 (omega arith) (omega arith)
      refl).1

destroy-copy_example : owned (4096 ∷ 8192 ∷ []) (destroy ready ++ destroy (copy ready)) ≡ none
destroy-copy_example = destroy-copy ready (omega arith) (omega arith) (omega arith)

reset-contents_example :
    (s' : PoolAllocator) × (reset c_pool_alloc_thread_policy one_lent ≡ ok s')
    × (contents 4 s' ≡ put (4144 ∷ []) (contents 3 one_lent))
    × (s'.used ≡ 0)
    × Accounted s' 4 []
reset-contents_example = reset-contents one_lent 3 (4144 ∷ []) one_lent-Accounted
