-- ===== src/Sharing/Several.antt =====
-- Threads that share several objects, each with a Spinlock of its own of src/AllocatorInterface.h, and
-- call their methods one after the other: what a thread calls next depends on what the calls before
-- have given it.
pub mod View
pub mod Kept
pub mod Stuck
use memory_allocators.Base.{ℕ, Bool, false, ◌==◌, if◌then◌else◌, List, [], ◌∷◌, ◌++◌, update}
use memory_allocators.SystemHeap.{Call}
use memory_allocators.Sharing.{
  Methods, Place, outside, at_load, at_exchange, at_decrement, inside, Threads, Effect, act,
}

module _ (m : Methods) where
  open m use {Shared, Local, Method, locals}

  -- What a thread has left to do: nothing; something undefined; a call of the system's heap; or a
  -- method of the object with a number, and more that depends on the method's local variables.
  pub data Process : Type 0 where
    ends undefined : Process
    asks : Call → Process → Process
    calls : ℕ → Method → (Local → Process) → Process

  -- Where a thread stands: between two calls, or in one.
  pub data Stand : Type 0 where
    between : Process → Stand
    calling : ℕ → Method → Place m → (Local → Process) → Stand

  pub record System : Type 0 where
    pub flag : ℕ → Bool
    pub shared : ℕ → Shared
    pub entered : ℕ → List Method
    pub stand : ℕ → Stand
    pub heap_calls : List Call

  -- Where a thread stands, as the object with the number `i` sees it
  abbrev pub place_at : ℕ → Stand → Place m
  place_at i (between q) = outside
  place_at i (calling j method p next) = if j == i then p else outside

  -- What the object sees of the system
  abbrev pub view : ℕ → System → Threads m
  view i s = record {
    flag = s.flag i;
    shared = s.shared i;
    place = λ j. place_at i (s.stand j);
    entered = s.entered i;
  }

  -- The local variables, which a method leaves behind when it returns
  abbrev pub left_by : Place m → Local
  left_by (inside l rest) = l
  left_by _ = locals

  abbrev pub goes_on : ℕ → Method → (Local → Process) → Local → Place m → Stand
  goes_on j method next l outside = between (next l)
  goes_on j method next l p = calling j method p next

  -- A step of a thread at an object
  abbrev pub takes_effect :
      ℕ → ℕ → Method → (Local → Process) → Place m → Effect m → System → System
  takes_effect i j method next p e s = record {
    flag = update s.flag j e.flag_after;
    shared = update s.shared j e.shared_after;
    entered = update s.entered j e.entered_after;
    stand = update s.stand i (goes_on j method next (left_by p) e.next);
    heap_calls = s.heap_calls;
  }

  -- A thread, and what a load of it answers
  pub record Turn : Type 0 where
    pub thread : ℕ
    pub seen : Bool

  abbrev pub moves : ℕ → Bool → Stand → System → System
  moves i seen (between ends) s = s
  moves i seen (between undefined) s = s
  moves i seen (between (asks call rest)) s = record s {
    stand = update s.stand i (between rest);
    heap_calls = s.heap_calls ++ call ∷ [];
  }
  moves i seen (between (calls j method next)) s =
      takes_effect i j method next outside (act m method seen outside (view j s)) s
  moves i seen (calling j method p next) s =
      takes_effect i j method next p (act m method seen p (view j s)) s

  unfoldable pub step : Turn → System → System
  step turn s = moves turn.thread turn.seen (s.stand turn.thread) s

  unfoldable pub run : List Turn → System → System
  run [] s = s
  run (turn ∷ turns) s = run turns (step turn s)

  -- New locks, and the threads in front of what they do
  abbrev pub start : (ℕ → Shared) → (ℕ → Process) → System
  start objects threads = record {
    flag = λ _. false;
    shared = objects;
    entered = λ _. [];
    stand = λ i. between (threads i);
    heap_calls = [];
  }
