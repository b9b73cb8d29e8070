-- ===== src/Sharing.antt =====
-- Threads that call methods on one object, each method between `lock` and `unlock` of the Spinlock of
-- src/AllocatorInterface.h. A method is a list of actions; between two of them other
-- threads may run.
pub mod Serial
pub mod Guard
pub mod Abandoned
pub mod PoolMethods
pub mod ListMethods
pub mod Several
mod Tests
use memory_allocators.Base.{ℕ, Bool, true, false, List, [], ◌∷◌, ◌++◌, update, if◌then◌else◌}
use memory_allocators.Spinlock.{counter_start, retry}

-- Methods on objects of the type `Shared`, with the local variables `Local`. A method that has
-- returned early has left out its `unlock`.
pub record Methods : Type 1 where
  pub Shared : Type 0
  pub Local : Type 0
  pub Method : Type 0
  pub locals : Local
  pub actions : Method → List (Local → Shared → Local × Shared)
  pub returned_early : Local → Bool

module _ (m : Methods) where
  open m use {Shared, Local, Method, locals, actions, returned_early}

  abbrev pub Action : Type 0
  Action = Local → Shared → Local × Shared

  -- Where a thread stands: outside, in the loop of `lock` with its counter, or inside with its local
  -- variables and the actions that are left.
  pub data Place : Type 0 where
    outside : Place
    at_load at_exchange at_decrement : Method → ℕ → Place
    inside : Local → List Action → Place

  -- `entered` is the methods that have got the lock, in order.
  pub record Threads : Type 0 where
    pub flag : Bool
    pub shared : Shared
    pub place : ℕ → Place
    pub entered : List Method

  -- What a thread does next: its new place, and what becomes of the lock, the object and the history.
  pub record Effect : Type 0 where
    pub next : Place
    pub flag_after : Bool
    pub shared_after : Shared
    pub entered_after : List Method

  abbrev pub stays : Place → Threads → Effect
  stays p t = record {
    next = p;
    flag_after = t.flag;
    shared_after = t.shared;
    entered_after = t.entered;
  }

  abbrev pub exchange : Method → ℕ → Bool → Threads → Effect
  exchange method c true t = stays (at_decrement method c) t
  exchange method c false t = record {
    next = inside locals (actions method);
    flag_after = true;
    shared_after = t.shared;
    entered_after = t.entered ++ method ∷ [];
  }

  -- The next operation of a thread at a place. `method` is what it calls next; `seen` is what a relaxed
  -- load answers, which may be old.
  abbrev pub act : Method → Bool → Place → Threads → Effect
  act method seen outside t = stays (at_load method counter_start) t
  act _ true (at_load method c) t = stays (at_decrement method c) t
  act _ false (at_load method c) t = stays (at_exchange method c) t
  act _ seen (at_exchange method c) t = exchange method c t.flag t
  act _ seen (at_decrement method c) t = stays (at_load method (retry c)) t
  act _ seen (inside l (a ∷ rest)) t = record {
    next = inside (a l t.shared).0 rest;
    flag_after = t.flag;
    shared_after = (a l t.shared).1;
    entered_after = t.entered;
  }
  act _ seen (inside l []) t = record {
    next = outside;
    flag_after = (if returned_early l then t.flag else false);
    shared_after = t.shared;
    entered_after = t.entered;
  }

  pub record Turn : Type 0 where
    pub thread : ℕ
    pub method : Method
    pub seen : Bool

  abbrev pub takes_effect : ℕ → Effect → Threads → Threads
  takes_effect i e t = record {
    flag = e.flag_after;
    shared = e.shared_after;
    place = update t.place i e.next;
    entered = e.entered_after;
  }

  unfoldable pub step : Turn → Threads → Threads
  step turn t = takes_effect turn.thread (act turn.method turn.seen (t.place turn.thread) t) t

  unfoldable pub run : List Turn → Threads → Threads
  run [] t = t
  run (turn ∷ turns) t = run turns (step turn t)

  -- A new lock, and all threads outside
  abbrev pub new : Shared → Threads
  new s = record { flag = false; shared = s; place = λ _. outside; entered = [] }

  -- Without other threads: the actions in their order, and methods one after the other
  unfoldable pub finish : List Action → Local → Shared → Local × Shared
  finish [] l s = (l, s)
  finish (a ∷ rest) l s = finish rest (a l s).0 (a l s).1

  abbrev pub perform : Method → Shared → Shared
  perform method s = (finish (actions method) locals s).1

  unfoldable pub in_turn : List Method → Shared → Shared
  in_turn [] s = s
  in_turn (method ∷ methods) s = in_turn methods (perform method s)
