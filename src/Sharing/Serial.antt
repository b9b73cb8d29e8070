-- ===== src/Sharing/Serial.antt =====
-- Methods between `lock` and `unlock` happen one after the other, for any order of the threads' steps.
use native.Mathlib.Decide.{ℕ_discrete}
use memory_allocators.Base.{
  ℕ, ◌≡◌, ◌≢◌, refl, sym, subst, ap, ◌∙◌, Bool, true, false, List, [], ◌∷◌, ◌++◌, update,
  update_self, update_ne,
}
use memory_allocators.Sharing.{
  Methods, Place, outside, at_load, at_exchange, at_decrement, inside, Threads, Turn, act, exchange,
  takes_effect, step, run, new, finish, perform, in_turn,
}

module _ (m : Methods) where
  open m use {Shared, Local, Method, locals, actions, returned_early}

  abbrev pub is_inside : Place m → Bool
  is_inside (inside l rest) = true
  is_inside _ = false

  -- Nobody is inside, and the methods that have got the lock have happened in their order; or one
  -- thread is inside, and they will have when it has done what is left.
  pub data Serial (s₀ : Shared) (t : Threads m) : Type 0 where
    resting :
        ((j : ℕ) → is_inside (t.place j) ≡ false) → t.shared ≡ in_turn m t.entered s₀ → Serial s₀ t
    working :
        (i : ℕ) (l : Local) (rest : List (Local → Shared → Local × Shared))
        → t.flag ≡ true
        → t.place i ≡ inside l rest
        → ((j : ℕ) → j ≢ i → is_inside (t.place j) ≡ false)
        → (finish m rest l t.shared).1 ≡ in_turn m t.entered s₀
        → Serial s₀ t

  pub in_turn-append :
      (xs : List Method) (method : Method) (s : Shared)
      → in_turn m (xs ++ method ∷ []) s ≡ perform m method (in_turn m xs s)
  unfolding in_turn
  in_turn-append [] method s = refl
  in_turn-append (x ∷ xs) method s = in_turn-append xs method (perform m x s)

  -- The effect of a step from a place
  abbrev after : Turn m → Threads m → Place m → Threads m
  after turn t p = takes_effect m turn.thread (act m turn.method turn.seen p t) t

  -- A thread that stays outside changes who is inside for nobody.
  pub outside-update :
      (place : ℕ → Place m) (i : ℕ) (p : Place m) (j : ℕ)
      → is_inside p ≡ false
      → (j ≢ i → is_inside (place j) ≡ false)
      → is_inside (update place i p j) ≡ false
  outside-update place i p j out h = elim (ℕ_discrete j i) [
    | yes e ↦ ap is_inside (ap (update place i p) e ∙ update_self place i p) ∙ out
    | no e ↦ ap is_inside (update_ne place i p j e) ∙ h e
  ]

  module _ (s₀ : Shared) (turn : Turn m) (t : Threads m) where
    -- A thread waits while nobody is inside.
    rests :
        (p : Place m)
        → is_inside p ≡ false
        → ((j : ℕ) → is_inside (t.place j) ≡ false)
        → t.shared ≡ in_turn m t.entered s₀
        → Serial s₀ (record t { place = update t.place turn.thread p })
    rests p out quiet done =
        resting (λ j. outside-update t.place turn.thread p j out (λ e. quiet j)) done

    enters :
        (method : Method) (c : ℕ) (b : Bool)
        → t.flag ≡ b
        → ((j : ℕ) → is_inside (t.place j) ≡ false)
        → t.shared ≡ in_turn m t.entered s₀
        → Serial s₀ (takes_effect m turn.thread (exchange m method c b t) t)
    enters method c true set quiet done = rests (at_decrement method c) refl quiet done
    enters method c false clear quiet done =
        working turn.thread locals (actions method) refl
          (update_self t.place turn.thread (inside locals (actions method)))
          (λ j e.
            ap is_inside (update_ne t.place turn.thread (inside locals (actions method)) j e)
            ∙ quiet j)
          (ap (perform m method) done ∙ sym (in_turn-append t.entered method s₀))

    after-resting :
        (p : Place m)
        → is_inside p ≡ false
        → ((j : ℕ) → is_inside (t.place j) ≡ false)
        → t.shared ≡ in_turn m t.entered s₀
        → Serial s₀ (after turn t p)
    after-resting outside out quiet done = rests _ refl quiet done
    after-resting (at_load method c) out quiet done = load turn.seen
      where
        load :
            (b : Bool)
            → Serial s₀ (takes_effect m turn.thread (act m turn.method b (at_load method c) t) t)
        load true = rests (at_decrement method c) refl quiet done
        load false = rests (at_exchange method c) refl quiet done
    after-resting (at_exchange method c) out quiet done = enters method c t.flag refl quiet done
    after-resting (at_decrement method c) out quiet done = rests _ refl quiet done
    after-resting (inside l rest) out quiet done = absurd (cc)

    -- A thread waits while another one is inside.
    waits :
        (p : Place m) (i : ℕ) (l : Local) (rest : List (Local → Shared → Local × Shared))
        → is_inside p ≡ false
        → turn.thread ≢ i
        → t.flag ≡ true
        → t.place i ≡ inside l rest
        → ((j : ℕ) → j ≢ i → is_inside (t.place j) ≡ false)
        → (finish m rest l t.shared).1 ≡ in_turn m t.entered s₀
        → Serial s₀ (record t { place = update t.place turn.thread p })
    waits p i l rest out other set here quiet left =
        working i l rest set (update_ne t.place turn.thread p i (λ e. other (sym e)) ∙ here)
          (λ j e. outside-update t.place turn.thread p j out (λ d. quiet j e)) left

    module _ (i : ℕ) (l : Local) (rest : List (Local → Shared → Local × Shared))
        (other : turn.thread ≢ i) (set : t.flag ≡ true) (here : t.place i ≡ inside l rest)
        (quiet : (j : ℕ) → j ≢ i → is_inside (t.place j) ≡ false)
        (left : (finish m rest l t.shared).1 ≡ in_turn m t.entered s₀) where
      refused :
          (method : Method) (c : ℕ) (b : Bool)
          → t.flag ≡ b
          → Serial s₀ (takes_effect m turn.thread (exchange m method c b t) t)
      refused method c true e =
          waits (at_decrement method c) i l rest refl other set here quiet left
      refused method c false e = absurd (cc)

      loads :
          (method : Method) (c : ℕ) (b : Bool)
          → Serial s₀ (takes_effect m turn.thread (act m turn.method b (at_load method c) t) t)
      loads method c true = waits (at_decrement method c) i l rest refl other set here quiet left
      loads method c false = waits (at_exchange method c) i l rest refl other set here quiet left

      after_other : (p : Place m) → is_inside p ≡ false → Serial s₀ (after turn t p)
      after_other outside out = waits _ i l rest refl other set here quiet left
      after_other (at_load method c) out = loads method c turn.seen
      after_other (at_exchange method c) out = refused method c t.flag refl
      after_other (at_decrement method c) out = waits _ i l rest refl other set here quiet left
      after_other (inside l' rest') out = absurd (cc)

    -- The thread that is inside does its next action, or leaves.
    after_own :
        (l : Local) (rest : List (Local → Shared → Local × Shared))
        → t.flag ≡ true
        → ((j : ℕ) → j ≢ turn.thread → is_inside (t.place j) ≡ false)
        → (finish m rest l t.shared).1 ≡ in_turn m t.entered s₀
        → Serial s₀ (after turn t (inside l rest))
    unfolding finish
    after_own l [] set quiet left =
        resting (λ j. outside-update t.place turn.thread outside j refl (quiet j)) left
    after_own l (a ∷ rest) set quiet left =
        let next = inside (a l t.shared).0 rest in
        working turn.thread (a l t.shared).0 rest set (update_self t.place turn.thread next)
          (λ j e. ap is_inside (update_ne t.place turn.thread next j e) ∙ quiet j e) left

  step-Serial :
      (s₀ : Shared) (turn : Turn m) (t : Threads m) → Serial s₀ t → Serial s₀ (step m turn t)
  unfolding step
  step-Serial s₀ turn t (resting quiet done) =
      after-resting s₀ turn t (t.place turn.thread) (quiet turn.thread) quiet done
  step-Serial s₀ turn t (working i l rest set here quiet left) = elim (ℕ_discrete turn.thread i) [
    | yes own ↦
        let here' : t.place turn.thread ≡ inside l rest = ap t.place own ∙ here in
        subst (λ p. Serial s₀ (after turn t p)) (sym here')
          (after_own s₀ turn t l rest set (λ j e. quiet j (λ d. e (d ∙ sym own))) left)
    | no other ↦
        after_other s₀ turn t i l rest other set here quiet left (t.place turn.thread)
          (quiet turn.thread other)
  ]

  -- Where the lock is free, nobody is inside.
  pub Serial-resting :
      (s₀ : Shared) (t : Threads m)
      → Serial s₀ t
      → t.flag ≡ false
      → t.shared ≡ in_turn m t.entered s₀
  Serial-resting s₀ t (resting quiet done) clear = done
  Serial-resting s₀ t (working i l rest set here quiet left) clear = absurd (cc)

  pub run_from-Serial :
      (s₀ : Shared) (turns : List (Turn m)) (t : Threads m)
      → Serial s₀ t
      → Serial s₀ (run m turns t)
  unfolding run
  run_from-Serial s₀ [] t h = h
  run_from-Serial s₀ (turn ∷ turns) t h =
      run_from-Serial s₀ turns (step m turn t) (step-Serial s₀ turn t h)

  -- For any number of threads, any methods and any order of the threads' steps, from a new lock on, with
  -- loads that may answer anything: at most one thread is inside, and the object is, or will be when
  -- that thread has done what is left, as if the methods had been called one after the other, in the
  -- order in which they got the lock.
  pub run-Serial : (s₀ : Shared) (turns : List (Turn m)) → Serial s₀ (run m turns (new m s₀))
  unfolding in_turn
  run-Serial s₀ turns = run_from-Serial s₀ turns (new m s₀) (resting (λ j. refl) refl)
