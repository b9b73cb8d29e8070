-- ===== src/Sharing/ListMethods/Agreement.antt =====
-- The statements of a method, with no other thread between them, are the method of the free list.
use native.Mathlib.Decide.{ℕ_discrete}
use memory_allocators.Base.{
  update_ne, fun_ext, ap, ◌∙◌, ℕ, ◌+◌, ◌-◌, ◌<◌, ◌≡◌, refl, sym, arith, Bool, true, false, not, ltb,
  ltb-true, Option, none, some, Ptr, null, add64, sub64, to_u32, ◌==◌, if◌then◌else◌, release,
  Outcome, ok, faulted, update, update_self, inl, inr, Bool-cases, swap, ◌⊎◌, ◌&&◌,
}
use memory_allocators.Interface.{ThreadPolicy}
use memory_allocators.Lock.{enter, leave}
use memory_allocators.FreeList.Table.{
  FreeMemBlocks, MemBlock, mem_block, should_full_merge, max_free_mem_blocks,
}
use memory_allocators.FreeList.{
  FreeListAllocator, c_merge_policy, allocation_header_size, required_size,
  find_free_mem_block_index, allocate, allocate_found, allocate_at, take_front, free, free_at,
}
use memory_allocators.Sharing.{finish}
use memory_allocators.Sharing.ListMethods.{
  Call, allocates, frees, Local, nothing_read, statements, is_none, gives, takes_back, list_methods,
}

abbrev pub outcome : Call → FreeListAllocator → Local × FreeListAllocator
outcome call s = finish list_methods (statements call) nothing_read s

-- How the statements end under a policy, with the lock's flag behind `lock`
abbrev pub concluded :
    {A : Type 0}
    → A
    → ThreadPolicy
    → Bool
    → Local × FreeListAllocator
    → Outcome (A × FreeListAllocator)
concluded a policy flag r =
    if r.0.fault
    then faulted
    else ok (a, record (r.1) { spinlock = if r.0.early then flag else leave policy flag })

take_front-cases :
    (required i : ℕ) (t : FreeMemBlocks)
    → (take_front required i t ≡ faulted)
      ⊎ ((t' : FreeMemBlocks) × (take_front required i t ≡ ok t'))
unfolding take_front
take_front-cases required i t = elim (Bool-cases (ltb 0 (sub64 (t.block i).block_size required))) [
  | inl e ↦ inr (
    record t {
      block = update t.block i (
          mem_block (add64 (t.block i).mem_block_offset (to_u32 required))
            (to_u32 (sub64 (t.block i).block_size required)));
    },
    rw e refl,
  )
  | inr e ↦ elim (Bool-cases (ltb 0 i && ltb t.curr_size max_free_mem_blocks)) [
    | inl d ↦ inr (
      record { curr_size = t.curr_size - 1; block = swap t.block (i - 1) t.curr_size },
      rw (e, d) refl,
    )
    | inr d ↦ inl (rw (e, d) refl)
  ]
]

-- An entry that is written, and then its size
update_twice :
    (f : ℕ → MemBlock) (i offset size : ℕ)
    → (let g = update f i (mem_block offset 0) in update g i (record (g i) { block_size = size }))
      ≡ update f i (mem_block offset size)
update_twice f i offset size = fun_ext (λ j. elim (ℕ_discrete j i) [
  | yes e ↦
      rw
        (
          e,
          update_self f i (mem_block offset 0),
          update_self (update f i (mem_block offset 0)) i (mem_block offset size),
          update_self f i (mem_block offset size),
        )
        refl
  | no e ↦
      let g = update f i (mem_block offset 0) in
      update_ne g i (record (g i) { block_size = size }) j e
      ∙ update_ne f i (mem_block offset 0) j e
      ∙ sym (update_ne f i (mem_block offset size) j e)
])

module _ (policy : ThreadPolicy) (flag : Bool) (s : FreeListAllocator) where
  -- Allocate behind the search
  abbrev pub found_by : ℕ → Option ℕ → Local × FreeListAllocator
  found_by required found =
      finish list_methods (gives required)
        (record nothing_read { index = found; early = is_none found }) s

  allocates_at :
      (required alignment i : ℕ)
      → allocate_at release policy required alignment i (record s { spinlock = flag })
        ≡ concluded (found_by required (some i)).0.address policy flag (found_by required (some i))
  unfolding allocate_at finish
  allocates_at required alignment i = elim (take_front-cases required i s.free_mem_blocks) [
    | inl e ↦ rw e refl
    | inr (t, e) ↦ elim (Bool-cases (s.start_ptr == null)) [
      | inl d ↦ rw (e, d) refl
      | inr d ↦ rw (e, d) refl
    ]
  ]

  allocates_found :
      (required alignment : ℕ) (found : Option ℕ)
      → allocate_found release policy required alignment found (record s { spinlock = flag })
        ≡ concluded (found_by required found).0.address policy flag (found_by required found)
  unfolding allocate_found finish
  allocates_found required alignment none = refl
  allocates_found required alignment (some i) = allocates_at required alignment i

  -- Allocate in a release build, of any free list under either policy that gets the lock, for an
  -- alignment that is not 0: its statements, done one by one, end as it does, with the same address,
  -- the same free list and the same lock, which stays held where no block is found.
  pub allocate-statements :
      enter policy s.spinlock ≡ ok flag
      → (size alignment : ℕ) → 0 < alignment
      → allocate release policy size alignment s
        ≡ concluded
            (outcome (allocates size alignment) s).0.address
            policy
            flag
            (outcome (allocates size alignment) s)
  unfolding allocate finish find_free_mem_block_index
  allocate-statements enters size alignment positive =
      rw (ltb-true 0 alignment positive, enters)
        (allocates_found (required_size size alignment) alignment
          (find_free_mem_block_index (required_size size alignment) s))

  frees_at :
      (header : Ptr) (size : Option ℕ)
      → s.memory header ≡ size
      → free_at c_merge_policy policy header size (record s { spinlock = flag })
        ≡ concluded true policy flag (finish list_methods (takes_back header) nothing_read s)
  unfolding free_at finish
  frees_at header none e = rw e refl
  frees_at header (some n) e =
      let offset : ℕ = to_u32 (sub64 header s.start_ptr) in
      let last : s.curr_size + 1 - 1 ≡ s.curr_size = omega arith in
      rw
        (
          e,
          last,
          update_twice s.block s.curr_size offset n,
          update_self s.block s.curr_size (mem_block offset n),
        )
        refl

  keeps_early :
      (header : Ptr) (size : Option ℕ)
      → s.memory header ≡ size
      → (finish list_methods (takes_back header) nothing_read s).0.early ≡ false
  unfolding finish
  keeps_early header none e = rw e refl
  keeps_early header (some n) e = rw e refl

  -- Free behind `lock`, by the answer of the test
  frees_tested :
      (header : Ptr) (full : Bool)
      → (if full
          then ok (false, record s { spinlock = flag })
          else free_at c_merge_policy policy header
              (s.memory header)
              (record s { spinlock = flag }))
        ≡ concluded
            (not
              (finish list_methods
                (takes_back header)
                (record nothing_read { early = full })
                s).0.early)
            policy
            flag
            (finish list_methods (takes_back header) (record nothing_read { early = full }) s)
  unfolding finish
  frees_tested header true = refl
  frees_tested header false =
      let r = finish list_methods (takes_back header) nothing_read s in
      frees_at header (s.memory header) refl
      ∙ ap (λ b. concluded (not b) policy flag r) (sym (keeps_early header (s.memory header) refl))

  -- Free in a release build, of any address and any free list, under either policy that gets the lock:
  -- its statements, done one by one, end as it does, with the same answer, the same free list and the
  -- same lock, which stays held where the table is full.
  pub free-statements :
      enter policy s.spinlock ≡ ok flag
      → (ptr : Ptr)
      → free release c_merge_policy policy ptr s
        ≡ concluded (not (outcome (frees ptr) s).0.early) policy flag (outcome (frees ptr) s)
  unfolding free finish
  free-statements enters ptr =
      rw enters
        (frees_tested (sub64 ptr allocation_header_size) (should_full_merge s.free_mem_blocks))
