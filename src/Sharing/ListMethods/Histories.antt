-- ===== src/Sharing/ListMethods/Histories.antt =====
-- What threads that share a free list of src/FreeListAllocator.h do to it, one method after the other.
use memory_allocators.Base.{
  not, if◌then◌else◌, ℕ, ◌+◌, ◌^◌, ◌<◌, ◌≡◌, refl, sym, subst, ap, ◌∙◌, Bool, true, false, List, [],
  ◌∷◌, ◌++◌, none, some, Ptr, Outcome, ok, faulted, release, inl, inr, Bool-cases,
}
use memory_allocators.Lock.{leave}
use memory_allocators.FreeList.Table.{MemBlock, max_free_mem_blocks}
use memory_allocators.FreeList.{
  FreeListAllocator, required_size, find_free_mem_block_index, c_free_list_thread_policy,
}
use memory_allocators.FreeList.Invariant.{Inv, AllUsed}
use memory_allocators.FreeList.Split.{front}
use memory_allocators.FreeList.Allocate.{allocate-Inv}
use memory_allocators.FreeList.Free.{free-Inv}
use memory_allocators.Sharing.{Turn, finish, in_turn, perform, run, new}
use memory_allocators.Sharing.Serial.{run-Serial, Serial-resting}
use memory_allocators.Sharing.ListMethods.{Call, allocates, frees, Local, list_methods}
use memory_allocators.Sharing.ListMethods.Agreement.{
  outcome, concluded, found_by, allocate-statements, free-statements,
}

AllUsed-spinlock :
    (b : Bool) (s : FreeListAllocator) (bs : List MemBlock)
    → AllUsed (record s { spinlock = b }) bs
    → AllUsed s bs
AllUsed-spinlock b s [] all = tt
AllUsed-spinlock b s (c ∷ bs) all = (
  record { header = all.0.header; room = all.0.room; inside = all.0.inside },
  AllUsed-spinlock b s bs all.1,
)

-- The invariant does not look at the lock.
Inv-spinlock :
    (b : Bool) (s : FreeListAllocator) (bs : List MemBlock)
    → Inv (record s { spinlock = b }) bs
    → Inv s bs
Inv-spinlock b s bs inv = record {
  held = inv.held;
  fits = inv.fits;
  small = inv.small;
  room = inv.room;
  entries = inv.entries;
  once = inv.once;
  accounted = inv.accounted;
  counted = inv.counted;
  all_used = AllUsed-spinlock b s bs inv.all_used;
}

-- Where the method ends well, so have its statements.
concluded-Inv :
    {A : Type 0} (a b : A) (flag : Bool) (r : Local × FreeListAllocator) (s : FreeListAllocator)
    (bs : List MemBlock)
    → concluded a c_free_list_thread_policy flag r ≡ ok (b, s)
    → Inv s bs
    → Inv r.1 bs
concluded-Inv {A} a b flag r s bs e inv =
    let flag' : Bool = if r.0.early then flag else leave c_free_list_thread_policy flag in
    let t : FreeListAllocator = record (r.1) { spinlock = flag' } in
    let branch : Bool → Outcome (A × FreeListAllocator) = λ f. if f then faulted else ok (a, t) in
    elim (Bool-cases r.0.fault) [
      | inl d ↦
          let c : branch true ≡ ok (b, s) = subst (λ f. branch f ≡ ok (b, s)) d e in absurd (cc)
      | inr d ↦
          let c : branch false ≡ ok (b, s) = subst (λ f. branch f ≡ ok (b, s)) d e in
          let same : s ≡ t = cc in Inv-spinlock flag' r.1 bs (subst (λ u. Inv u bs) same inv)
    ]

-- Calls on a free list, one after the other, in which each request with a result is met from a block
-- larger than it needs, and only blocks in use are given back, while the table has room; from the
-- blocks in use to those that there are behind the calls.
pub data Calls : FreeListAllocator → List MemBlock → List Call → List MemBlock → Type 0 where
  stops : {s : FreeListAllocator} {bs : List MemBlock} → Calls s bs [] bs
  finds_none :
      {s : FreeListAllocator} {bs bs' : List MemBlock} {calls : List Call} (size alignment : ℕ)
      → find_free_mem_block_index (required_size size alignment) s ≡ none
      → Calls s bs calls bs'
      → Calls s bs (allocates size alignment ∷ calls) bs'
  takes :
      {s : FreeListAllocator} {bs bs' : List MemBlock} {calls : List Call} (size alignment i : ℕ)
      → 0 < alignment
      → size + alignment < 2 ^ 31
      → find_free_mem_block_index (required_size size alignment) s ≡ some i
      → required_size size alignment < (s.block i).block_size
      → Calls
          (perform list_methods (allocates size alignment) s)
          (front (required_size size alignment) i s.free_mem_blocks ∷ bs)
          calls
          bs'
      → Calls s bs (allocates size alignment ∷ calls) bs'
  gives_back :
      {s : FreeListAllocator} {bs bs' : List MemBlock} {calls : List Call} (xs : List MemBlock)
      (b : MemBlock) (ys : List MemBlock) (p : Ptr)
      → bs ≡ xs ++ b ∷ ys
      → s.start_ptr + b.mem_block_offset + 8 ≡ p
      → s.curr_size < max_free_mem_blocks
      → Calls (perform list_methods (frees p) s) (xs ++ ys) calls bs'
      → Calls s bs (frees p ∷ calls) bs'

allocates-none :
    (s : FreeListAllocator) (size alignment : ℕ)
    → find_free_mem_block_index (required_size size alignment) s ≡ none
    → perform list_methods (allocates size alignment) s ≡ s
unfolding finish
allocates-none s size alignment e =
    ap
      (λ found. (found_by c_free_list_thread_policy false s (required_size size alignment) found).1)
      e

allocates-Inv :
    (s : FreeListAllocator) (bs : List MemBlock) (size alignment i : ℕ)
    → Inv s bs
    → 0 < alignment
    → size + alignment < 2 ^ 31
    → find_free_mem_block_index (required_size size alignment) s ≡ some i
    → required_size size alignment < (s.block i).block_size
    → Inv
        (perform list_methods (allocates size alignment) s)
        (front (required_size size alignment) i s.free_mem_blocks ∷ bs)
allocates-Inv s bs size alignment i inv positive small e larger =
    let met = allocate-Inv size alignment i s bs inv positive small e larger in
    let r = outcome (allocates size alignment) s in
    let run =
      allocate-statements c_free_list_thread_policy s.spinlock s refl size alignment positive in
    concluded-Inv r.0.address _ s.spinlock r _ _ (sym run ∙ met.0) met.1

frees-Inv :
    (s : FreeListAllocator) (xs : List MemBlock) (b : MemBlock) (ys : List MemBlock)
    → Inv s (xs ++ b ∷ ys)
    → s.curr_size < max_free_mem_blocks
    → Inv (perform list_methods (frees (s.start_ptr + b.mem_block_offset + 8)) s) (xs ++ ys)
frees-Inv s xs b ys inv space =
    let (s', run, inv', _, _, _, _) = free-Inv release s xs b ys inv space in
    let p : Ptr = s.start_ptr + b.mem_block_offset + 8 in
    let r = outcome (frees p) s in
    let own = free-statements c_free_list_thread_policy s.spinlock s refl p in
    concluded-Inv (not r.0.early) true s.spinlock r s' (xs ++ ys) (sym own ∙ run) inv'

in_turn-Inv :
    {s : FreeListAllocator} {bs bs' : List MemBlock} {calls : List Call}
    → Calls s bs calls bs'
    → Inv s bs
    → Inv (in_turn list_methods calls s) bs'
unfolding in_turn
in_turn-Inv stops inv = inv
in_turn-Inv (finds_none {s} {bs} {bs'} {calls} size alignment e rest) inv =
    subst (λ u. Inv (in_turn list_methods calls u) bs') (sym (allocates-none s size alignment e))
      (in_turn-Inv rest inv)
in_turn-Inv (takes {s} {bs} {bs'} {calls} size alignment i positive small e larger rest) inv =
    in_turn-Inv rest (allocates-Inv s bs size alignment i inv positive small e larger)
in_turn-Inv (gives_back {s} {bs} {bs'} {calls} xs b ys p parts here space rest) inv =
    in_turn-Inv rest (
      subst (λ q. Inv (perform list_methods (frees q) s) (xs ++ ys)) here
        (frees-Inv s xs b ys (subst (Inv s) parts inv) space))

-- Threads that share a free list which holds its invariant, under `ENABLE_SPIN_LOCK` in a release build,
-- for any number of threads, any order of their single statements and from a new lock on: where the
-- methods that have got the lock, in that order, meet requests from blocks larger than they need, never
-- exactly, and give back only blocks in use, while the table has room, and where the lock is free:
-- every byte lies in one free block or in one block in use, with the blocks in use that those calls
-- leave.
pub run-Inv :
    (s₀ : FreeListAllocator) (bs : List MemBlock)
    → Inv s₀ bs
    → (turns : List (Turn list_methods)) (bs' : List MemBlock)
    → Calls s₀ bs (run list_methods turns (new list_methods s₀)).entered bs'
    → (run list_methods turns (new list_methods s₀)).flag ≡ false
    → Inv (run list_methods turns (new list_methods s₀)).shared bs'
run-Inv s₀ bs inv turns bs' calls clear =
    let t = run list_methods turns (new list_methods s₀) in
    subst (λ u. Inv u bs')
      (sym (Serial-resting list_methods s₀ t (run-Serial list_methods s₀ turns) clear))
      (in_turn-Inv calls inv)
