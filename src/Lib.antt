-- ===== src/Lib.antt =====
-- The allocators of src/: a bump allocator (src/LinearAllocator.h), a stack allocator
-- (src/StackAllocator.h), a pool of chunks of one size (src/PoolAllocator.h) and a free list with
-- best fit and merging (src/FreeListAllocator.h), over the base class, the spin lock and the helpers
-- of src/AllocatorInterface.h.
--
-- Files:
--   Base          shared names: 64-bit words, signed numbers, the result of a call (`Outcome`),
--                 arrays as functions of an index
--   Interface     AllocatorInterface, ThreadPolicy
--   SystemHeap    the calls of malloc and free that an operation makes, and what is owned after them
--   Lock          the switch over a ThreadPolicy that opens and closes a method
--   Padding       CalculatePadding, and `alignment - size % alignment` of the Allocate methods
--   Linear        LinearAllocator; Layout, Memory and Faults hold the proofs
--   Stack         StackAllocator; Equivalence and Identity with Linear (Free and Reset apart), Frames,
--                 Faults
--   Pool          PoolAllocator; Invariant, Chunks, Giving, History, Faults
--   FreeList      FreeListAllocator; Table has the array of free blocks with FindFreeMemBlockIndex,
--                 FastMergeMemBlocks and FullMergeMemBlocks, the others hold the proofs
--   LinkedLists   StackLinkedList and SinglyLinkedList, which the allocators do not use
--   Spinlock      Spinlock, as steps of any number of threads; Exclusion, Entry
--   Sharing       threads that call methods on one object between lock and unlock, a piece of a method at
--                 a time; Serial and Guard for any methods, PoolMethods for Allocate and Free of the
--                 pool, one access at a time, ListMethods for those of the free list, one statement at a
--                 time, Several for threads that share several objects
--   Pools         PoolAllocators of src/PoolAllocatorTest.cpp, nine pools in front of malloc; Holdings,
--                 Serving, Fallback, Locked; Threads is RunMultiThreadTest: Ownership is about one
--                 thread and its addresses, Entry, Orderly, Entering, Steps and Start about all
--                 that the threads hold, in every state, Exclusion about the whole test
--   Workload      the loops of the tests (src/*AllocatorTest.cpp), for any allocator; Contract is what an
--                 allocator fills for the loops to return. FreeList.Workload, Stack.Workload,
--                 Linear.Workload, Pools.Workload and MallocTest are RunTest of the five files
--   Benchmarks    the loops of the BM_ functions of the same files
--   Registry      the set of tests and the table of results: src/Test.h, src/Test.cpp; Order and Sets are
--                 about a std::set that is filled
--   Report        what the tests print: the lines and verdicts of src/*AllocatorTest.cpp, the colours of
--                 src/Test.h, PrintResults of src/Test.cpp; Decimal, Table, Verdicts, Colours
--   Suite         the six tests with what they print and report, Test::Run and main (src/main.cpp);
--                 Passes, Whole and Colours are about the whole program
-- The Tests modules run the functions on small inputs and apply the theorems there.
--
-- An object is a record with the source's members. A method takes the object and gives its result and
-- the object behind it; the name is the source's in lower case (Allocate is `allocate`). A call ends
-- as an `Outcome`: a value, a failed assertion (with assertions compiled in, `debug`), undefined
-- behaviour (an index out of an array, `% 0`, an access through null), or a wait for a lock that the
-- same thread holds. Pointers and std::size_t are natural numbers below 2 ^ 64 with the wrap-around
-- written out; the target has 64 bits, so the table of free blocks has 2045 entries. What `malloc`
-- answers is an argument of Init. No loop takes fuel: each is structural recursion over the index that it
-- counts.
--
-- A thread policy is an argument, and the constants of the sources are one value of it. Under
-- ENABLE_SPIN_LOCK the methods of the allocators are functions of a thread that is alone; Sharing splits
-- those of the pool and of the free list into pieces, for any number of threads. A relaxed load of the
-- lock's flag may answer anything, and `yield` does nothing.
--
-- What `rand` and `malloc` answer in the tests are arguments, for each thread its own, and so is the
-- number of rounds, 1000 in the sources; how often a benchmark repeats is up to the benchmark library.
--
-- The output is a list of texts and of calls of SetConsoleTextAttribute, which windows.h declares; its
-- constants and the durations that the clock measures are arguments. `digits` prints a number with fuel
-- for 20 digits, enough below 10 ^ 20; every std::size_t is below 2 ^ 64.
--
-- Plain arithmetic stands for `nullptr + offset` in LinearAllocator::Allocate, which its test reaches
-- without Init. The counter of the loop of returns is a natural number: in the sources it is an `int`,
-- which holds the 1000 rounds there and any number up to 2 ^ 31.
--
-- Not modelled: the single reads and writes inside the search and the
-- merging of the free list when threads share it; Reset and Init while threads share an allocator; the
-- vendored benchmark library and what main does with it.
pub mod Base
pub mod Benchmarks
pub mod FreeList
pub mod Interface
pub mod Linear
pub mod LinkedLists
pub mod Lock
pub mod MallocTest
pub mod Padding
pub mod PaddingTests
pub mod Pool
pub mod Pools
pub mod Registry
pub mod Report
pub mod Sharing
pub mod Spinlock
pub mod Stack
pub mod Suite
pub mod SystemHeap
pub mod Workload
