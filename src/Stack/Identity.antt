-- ===== src/Stack/Identity.antt =====
-- src/StackAllocator.h and src/LinearAllocator.h are one type with one set of operations, Free and Reset
-- apart: what holds of the linear allocator's holds of the stack allocator's.
use std.Equiv.{iso_to_equiv, ◌≃◌, id_equiv}
use std.Univalence.{equiv_j}
use memory_allocators.Base.{
  ℕ, ◌+◌, ◌^◌, ◌≤◌, ◌<◌, ◌≡◌, ◌%◌, refl, sym, subst, ap, ◌∙◌, fun_ext, List, [], ◌∷◌, Ptr, null,
  ◌==◌, if◌then◌else◌, Build, release, Outcome, ok, aborted, faulted, blocked, ◌>>=◌,
}
use memory_allocators.Interface.{get_total_size, get_used_size}
use memory_allocators.SystemHeap.{Call}
use memory_allocators.Linear
use memory_allocators.Linear.{LinearAllocator, linear_allocator, Block}
use memory_allocators.Linear.Layout.{Small, Layout, allocate_all-Layout}
use memory_allocators.Stack.{StackAllocator, stack_allocator, init, allocate, destroy}
use memory_allocators.Stack.Equivalence.{to_linear, of_linear, allocate-to_linear}

-- The operations that the two classes share
record Bump (A : Type 0) : Type 0 where
  construct : ℕ → A
  total : A → ℕ
  used : A → ℕ
  start : A → Ptr
  offset : A → ℕ
  init : Ptr → A → A × List Call
  allocate : Build → ℕ → ℕ → A → Outcome (Ptr × A)
  destroy : A → A × List Call

abbrev stack_bump : Bump StackAllocator
stack_bump = record {
  construct = stack_allocator;
  total = λ s. get_total_size s.base;
  used = λ s. get_used_size s.base;
  start = λ s. s.start_ptr;
  offset = λ s. s.offset;
  init = init;
  allocate = allocate;
  destroy = destroy;
}

abbrev linear_bump : Bump LinearAllocator
linear_bump = record {
  construct = linear_allocator;
  total = λ s. get_total_size s.base;
  used = λ s. get_used_size s.base;
  start = λ s. s.start_ptr;
  offset = λ s. s.offset;
  init = Linear.init;
  allocate = Linear.allocate;
  destroy = Linear.destroy;
}

abbrev on_result : {A B : Type 0} → (A → B) → Outcome (Ptr × A) → Outcome (Ptr × B)
on_result f o = o >>= λ r. ok (r.0, f r.1)

-- A function that takes the operations of `a` to those of `b`
record Keeps {A B : Type 0} (f : A → B) (a : Bump A) (b : Bump B) : Type 0 where
  constructs : (n : ℕ) → f (a.construct n) ≡ b.construct n
  totals : (s : A) → a.total s ≡ b.total (f s)
  useds : (s : A) → a.used s ≡ b.used (f s)
  starts : (s : A) → a.start s ≡ b.start (f s)
  offsets : (s : A) → a.offset s ≡ b.offset (f s)
  inits : (p : Ptr) (s : A) → (f (a.init p s).0, (a.init p s).1) ≡ b.init p (f s)
  allocates :
      (build : Build) (size alignment : ℕ) (s : A)
      → on_result f (a.allocate build size alignment s) ≡ b.allocate build size alignment (f s)
  destroys : (s : A) → (f (a.destroy s).0, (a.destroy s).1) ≡ b.destroy (f s)

on_result_id : {A : Type 0} (o : Outcome (Ptr × A)) → on_result (λ s. s) o ≡ o
on_result_id (ok r) = refl
on_result_id aborted = refl
on_result_id faulted = refl
on_result_id blocked = refl

-- Where the function is the identity, the operations are the same.
same_operations : {A : Type 0} (a b : Bump A) → Keeps (λ s. s) a b → a ≡ b
same_operations a b k = λ i. record {
  construct = λ n. k.constructs n i;
  total = λ s. k.totals s i;
  used = λ s. k.useds s i;
  start = λ s. k.starts s i;
  offset = λ s. k.offsets s i;
  init = λ p s. k.inits p s i;
  allocate = λ build size alignment s.
      (sym (on_result_id (a.allocate build size alignment s)) ∙ k.allocates build size alignment s)
        i;
  destroy = λ s. k.destroys s i;
}

abbrev AnyBump : Type 1
AnyBump = (A : Type 0) × Bump A

-- Equivalent types with the same operations are equal as such.
identity :
    {A B : Type 0} (e : A ≃ B) (a : Bump A) (b : Bump B)
    → Keeps e.0 a b
    → ◌≡◌ {A = AnyBump} (A, a) (B, b)
unfolding id_equiv
identity {A} {B} e =
    equiv_j (λ X f. (a : Bump X) (b : Bump B) → Keeps f.0 a b → ◌≡◌ {A = AnyBump} (X, a) (B, b))
      (λ a b k. ap (λ x. (B, x)) (same_operations a b k)) e

abbrev to_linear_equiv : StackAllocator ≃ LinearAllocator
to_linear_equiv =
    iso_to_equiv (record { fun = to_linear; inv = of_linear; rinv = λ s. refl; linv = λ s. refl })

there_and_back :
    (o : Outcome (Ptr × LinearAllocator)) → on_result to_linear (on_result of_linear o) ≡ o
there_and_back (ok r) = refl
there_and_back aborted = refl
there_and_back faulted = refl
there_and_back blocked = refl

to_linear-Keeps : Keeps to_linear stack_bump linear_bump
unfolding init Linear.init destroy Linear.destroy
to_linear-Keeps = record {
  constructs = λ n. refl;
  totals = λ s. refl;
  useds = λ s. refl;
  starts = λ s. refl;
  offsets = λ s. refl;
  inits = λ p s. refl;
  allocates = λ build size alignment s.
      ap (on_result to_linear) (allocate-to_linear build size alignment s)
      ∙ there_and_back (Linear.allocate build size alignment (to_linear s));
  destroys = λ s. refl;
}

-- The constructor, Init, Allocate in both builds, the destructor and the accessors of the stack
-- allocator are those of the linear allocator: as types with these operations the two are equal.
stack_bump-linear_bump :
    ◌≡◌ {A = AnyBump} (StackAllocator, stack_bump) (LinearAllocator, linear_bump)
stack_bump-linear_bump = identity to_linear_equiv stack_bump linear_bump to_linear-Keeps

-- Allocate(n, alignment) for each `n` of a list, in a release build, and the blocks that were given
module _ {A : Type 0} (a : Bump A) where
  allocate_each : ℕ → List ℕ → A → Outcome (List Block × A)
  allocate_each alignment [] s = ok ([], s)
  allocate_each alignment (n ∷ ns) s = do
    (p, s') ← a.allocate release n alignment s
    (bs, s'') ← allocate_each alignment ns s'
    ok (if p == null then bs else record { address = p; size = n } ∷ bs, s'')

  -- Requests to an allocator with memory, at aligned addresses, whose sums do not wrap around: all are
  -- answered, and the blocks are aligned, lie apart in the memory, and stay below the offset.
  abbrev LaysOut : Type 0
  LaysOut =
      (alignment : ℕ) (ns : List ℕ) (s : A)
      → 0 < a.start s
      → a.start s + a.total s < 2 ^ 64
      → a.offset s ≤ a.total s
      → 0 < alignment
      → a.start s % alignment ≡ 0
      → a.offset s % alignment ≡ 0
      → Small alignment (a.total s) ns
      → (bs : List Block) × (s' : A) × (allocate_each alignment ns s ≡ ok (bs, s'))
        × Layout alignment (a.start s + a.offset s) (a.start s' + a.offset s') bs
        × (a.start s' ≡ a.start s)
        × (a.offset s' ≤ a.total s)

each-all :
    (alignment : ℕ) (ns : List ℕ) (s : LinearAllocator)
    → allocate_each linear_bump alignment ns s ≡ Linear.allocate_all release alignment ns s
unfolding allocate_each Linear.allocate_all
each-all alignment [] s = refl
each-all alignment (n ∷ ns) s =
    ap
      (λ f. Linear.allocate release n alignment s >>= λ r. f r.1 >>= λ q.
        ok (if r.0 == null then q.0 else record { address = r.0; size = n } ∷ q.0, q.1))
      (fun_ext (λ t. each-all alignment ns t))

linear-LaysOut : LaysOut linear_bump
linear-LaysOut alignment ns s held fits within positive at_start at_offset small =
    let (bs, s', run, laid, start, below) =
      allocate_all-Layout alignment ns s (record { held = held; fits = fits; within = within })
        positive at_start at_offset small in
    (bs, s', each-all alignment ns s ∙ run, laid, start, below)

-- The stack allocator lays its blocks out as the linear allocator does, because they are equal.
stack-LaysOut : LaysOut stack_bump
stack-LaysOut = subst (λ (x : AnyBump). LaysOut x.1) (sym stack_bump-linear_bump) linear-LaysOut
