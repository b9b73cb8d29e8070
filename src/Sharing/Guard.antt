-- ===== src/Sharing/Guard.antt =====
-- SpinlockGuard of src/AllocatorInterface.h: a method that holds one for its whole body.
use native.Mathlib.Decide.{ℕ_discrete}
use memory_allocators.Base.{
  ℕ, ◌≡◌, ◌⊎◌, inl, inr, refl, sym, ap, ◌∙◌, Bool, true, false, List, [], ◌∷◌, update, update_self,
  update_ne,
}
use memory_allocators.Sharing.{
  Methods, Place, outside, at_load, at_exchange, at_decrement, inside, Threads, Turn, act, exchange,
  takes_effect, step, run, new,
}
use memory_allocators.Sharing.Serial.{is_inside}

-- The destructor calls `unlock` wherever the body returns.
abbrev pub guarded : Methods → Methods
guarded m = record m { returned_early = λ _. false }

module _ (m : Methods) where
  -- The lock is free, or somebody is inside.
  abbrev pub HeldInside : Threads (guarded m) → Type 0
  HeldInside t = (t.flag ≡ false) ⊎ ((j : ℕ) × (is_inside (guarded m) (t.place j) ≡ true))

  -- A thread that is not inside stays outside.
  waits-HeldInside :
      (t : Threads (guarded m)) (i : ℕ) (p : Place (guarded m))
      → is_inside (guarded m) (t.place i) ≡ false
      → HeldInside t
      → HeldInside (record t { place = update t.place i p })
  waits-HeldInside t i p out (inl free) = inl free
  waits-HeldInside t i p out (inr (j, within)) = elim (ℕ_discrete j i) [
    | yes e ↦
        let d : true ≡ false = sym within ∙ ap (is_inside (guarded m)) (ap t.place e) ∙ out in
        absurd (cc)
    | no e ↦ inr (j, ap (is_inside (guarded m)) (update_ne t.place i p j e) ∙ within)
  ]

  enters-HeldInside :
      (t : Threads (guarded m)) (i : ℕ) (method : m.Method) (c : ℕ) (b : Bool)
      → t.flag ≡ b
      → is_inside (guarded m) (t.place i) ≡ false
      → HeldInside t
      → HeldInside (takes_effect (guarded m) i (exchange (guarded m) method c b t) t)
  enters-HeldInside t i method c true set out h = waits-HeldInside t i (at_decrement method c) out h
  enters-HeldInside t i method c false clear out h =
      inr (i, ap (is_inside (guarded m)) (update_self t.place i _))

  act-HeldInside :
      (turn : Turn (guarded m)) (t : Threads (guarded m)) (p : Place (guarded m))
      → t.place turn.thread ≡ p
      → HeldInside t
      → HeldInside
          (takes_effect (guarded m) turn.thread (act (guarded m) turn.method turn.seen p t) t)
  act-HeldInside turn t outside here h =
      waits-HeldInside t turn.thread _ (ap (is_inside (guarded m)) here) h
  act-HeldInside turn t (at_load method c) here h = load turn.seen
    where
      load :
          (b : Bool)
          → HeldInside (
              takes_effect
                (guarded m)
                turn.thread
                (act (guarded m) turn.method b (at_load method c) t)
                t)
      load true = waits-HeldInside t turn.thread _ (ap (is_inside (guarded m)) here) h
      load false = waits-HeldInside t turn.thread _ (ap (is_inside (guarded m)) here) h
  act-HeldInside turn t (at_exchange method c) here h =
      enters-HeldInside t turn.thread method c t.flag refl (ap (is_inside (guarded m)) here) h
  act-HeldInside turn t (at_decrement method c) here h =
      waits-HeldInside t turn.thread _ (ap (is_inside (guarded m)) here) h
  act-HeldInside turn t (inside l []) here h = inl refl
  act-HeldInside turn t (inside l (a ∷ rest)) here h =
      inr (turn.thread, ap (is_inside (guarded m)) (update_self t.place turn.thread _))

  run_from-HeldInside :
      (turns : List (Turn (guarded m))) (t : Threads (guarded m))
      → HeldInside t
      → HeldInside (run (guarded m) turns t)
  unfolding run step
  run_from-HeldInside [] t h = h
  run_from-HeldInside (turn ∷ turns) t h =
      run_from-HeldInside turns (step (guarded m) turn t)
        (act-HeldInside turn t (t.place turn.thread) refl h)

  -- Methods whose bodies hold a SpinlockGuard, also where they return early, for any number of threads
  -- and any order of their steps, from a new lock on: wherever the lock is held, some thread is inside.
  -- No method leaves it held behind its end.
  pub run-HeldInside :
      (s₀ : m.Shared) (turns : List (Turn (guarded m)))
      → HeldInside (run (guarded m) turns (new (guarded m) s₀))
  run-HeldInside s₀ turns = run_from-HeldInside turns (new (guarded m) s₀) (inl refl)
