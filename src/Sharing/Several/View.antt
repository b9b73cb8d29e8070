-- ===== src/Sharing/Several/View.antt =====
-- What one of several shared objects sees of the threads is what threads do that share it alone.
use native.Mathlib.Decide.{ℕ_discrete}
use memory_allocators.Base.{
  ℕ, ◌≡◌, ◌≢◌, ◌⊎◌, inl, inr, refl, sym, subst, ap, ◌∙◌, fun_ext, Bool, ==_refl, ==_false, List, [],
  ◌∷◌, update, update_self, update_ne,
}
use memory_allocators.Sharing
use memory_allocators.Sharing.{
  Methods, Place, outside, at_load, at_exchange, at_decrement, inside, Threads, Effect, act,
}
use memory_allocators.Sharing.Serial.{Serial, run_from-Serial, run-Serial}
use memory_allocators.Sharing.Several.{
  Process, ends, undefined, asks, calls, Stand, between, calling, System, place_at, view, left_by,
  goes_on, takes_effect, Turn, moves, step, run, start,
}

module _ {A B : Type 0} (f : A → B) (g : ℕ → A) (i : ℕ) where
  map-update : (v : A) → ◌≡◌ {A = ℕ → B} (λ j. f (update g i v j)) (update (λ j. f (g j)) i (f v))
  map-update v = fun_ext (λ j. elim (ℕ_discrete j i) [
    | yes e ↦ rw e (ap f (update_self g i v) ∙ sym (update_self (λ k. f (g k)) i (f v)))
    | no e ↦ ap f (update_ne g i v j e) ∙ sym (update_ne (λ k. f (g k)) i (f v) j e)
  ])

  -- A write that `f` does not see
  map-update_same :
      (v : A) → f v ≡ f (g i) → ◌≡◌ {A = ℕ → B} (λ j. f (update g i v j)) (λ j. f (g j))
  map-update_same v h = fun_ext (λ j. elim (ℕ_discrete j i) [
    | yes e ↦ rw e (ap f (update_self g i v) ∙ h)
    | no e ↦ ap f (update_ne g i v j e)
  ])

module _ (m : Methods) where
  open m use {Shared, Local, Method, locals}

  place_at-goes_on :
      (i : ℕ) (method : Method) (next : Local → Process m) (l : Local) (p : Place m)
      → place_at m i (goes_on m i method next l p) ≡ p
  place_at-goes_on i method next l outside = refl
  place_at-goes_on i method next l (at_load method' c) = rw (==_refl i) refl
  place_at-goes_on i method next l (at_exchange method' c) = rw (==_refl i) refl
  place_at-goes_on i method next l (at_decrement method' c) = rw (==_refl i) refl
  place_at-goes_on i method next l (inside l' rest) = rw (==_refl i) refl

  -- Another object does not see it.
  place_at-other :
      (i j : ℕ) (method : Method) (next : Local → Process m) (l : Local) (p : Place m)
      → j ≢ i
      → place_at m i (goes_on m j method next l p) ≡ outside
  place_at-other i j method next l outside h = refl
  place_at-other i j method next l (at_load method' c) h = rw (==_false j i h) refl
  place_at-other i j method next l (at_exchange method' c) h = rw (==_false j i h) refl
  place_at-other i j method next l (at_decrement method' c) h = rw (==_false j i h) refl
  place_at-other i j method next l (inside l' rest) h = rw (==_false j i h) refl

  -- A step, as an object sees it: none, or one of threads that share it alone.
  abbrev pub Seen : ℕ → System m → System m → Type 0
  Seen i s t =
      (view m i t ≡ view m i s)
      ⊎ ((turn : Sharing.Turn m) × (view m i t ≡ Sharing.step m turn (view m i s)))

  module _ (seen : Bool) (s : System m) (thread j : ℕ) (method : Method) (next : Local → Process m)
      (p : Place m) (here : place_at m j (s.stand thread) ≡ p) where
    abbrev effect : Effect m
    effect = act m method seen p (view m j s)

    abbrev after : System m
    after = takes_effect m thread j method next p effect s

    -- The object that the thread is at
    pub view-takes_effect :
        view m j after
        ≡ Sharing.step m (record { thread = thread; method = method; seen = seen }) (view m j s)
    unfolding Sharing.step
    view-takes_effect =
        let stands =
          map-update (place_at m j) s.stand thread
            (goes_on m j method next (left_by m p) effect.next)
          ∙ ap (update (λ k. place_at m j (s.stand k)) thread)
              (place_at-goes_on j method next (left_by m p) effect.next) in
        let same : view m j after ≡ Sharing.takes_effect m thread effect (view m j s) = λ k.
          record {
            flag = update_self s.flag j effect.flag_after k;
            shared = update_self s.shared j effect.shared_after k;
            place = stands k;
            entered = update_self s.entered j effect.entered_after k;
          } in
        same
        ∙ ap (λ q. Sharing.takes_effect m thread (act m method seen q (view m j s)) (view m j s))
            (sym here)

    view-other :
        (i : ℕ) → j ≢ i → place_at m i (s.stand thread) ≡ outside → view m i after ≡ view m i s
    view-other i e nowhere =
        let away : i ≢ j = λ d. e (sym d) in
        let stands =
          map-update_same (place_at m i) s.stand thread
            (goes_on m j method next (left_by m p) effect.next)
            (place_at-other i j method next (left_by m p) effect.next e ∙ sym nowhere) in
        λ k. record {
          flag = update_ne s.flag j effect.flag_after i away k;
          shared = update_ne s.shared j effect.shared_after i away k;
          place = stands k;
          entered = update_ne s.entered j effect.entered_after i away k;
        }

    effect-Seen : (i : ℕ) → (j ≢ i → place_at m i (s.stand thread) ≡ outside) → Seen i s after
    effect-Seen i nowhere = elim (ℕ_discrete j i) [
      | yes e ↦ inr (
        record { thread = thread; method = method; seen = seen },
        subst
            (λ k.
              view m k after
              ≡ Sharing.step m (record { thread = thread; method = method; seen = seen })
                  (view m k s))
            e view-takes_effect,
      )
      | no e ↦ inl (view-other i e (nowhere e))
    ]

  moves-Seen :
      (i thread : ℕ) (seen : Bool) (s : System m) (d : Stand m)
      → s.stand thread ≡ d
      → Seen i s (moves m thread seen d s)
  moves-Seen i thread seen s (between ends) e = inl refl
  moves-Seen i thread seen s (between undefined) e = inl refl
  moves-Seen i thread seen s (between (asks call rest)) e =
      let stands =
        map-update_same (place_at m i) s.stand thread (between rest) (ap (place_at m i) (sym e)) in
      inl (λ k. record (view m i s) { place = stands k })
  moves-Seen i thread seen s (between (calls j method next)) e =
      effect-Seen seen s thread j method next outside (ap (place_at m j) e) i
        (λ d. ap (place_at m i) e)
  moves-Seen i thread seen s (calling j method p next) e =
      effect-Seen seen s thread j method next p (ap (place_at m j) e ∙ rw (==_refl j) refl) i
        (λ d. ap (place_at m i) e ∙ rw (==_false j i d) refl)

  -- For any number of threads and objects, any methods and any order of the threads' steps: what an
  -- object sees is a run of threads that share this object alone. So everything that holds of those
  -- runs holds of each of several objects.
  pub view-run :
      (i : ℕ) (turns : List (Turn m)) (s : System m)
      → (own_turns : List (Sharing.Turn m)) × (view m i (run m turns s)
          ≡ Sharing.run m own_turns (view m i s))
  unfolding run step Sharing.run
  view-run i [] s = ([], refl)
  view-run i (turn ∷ turns) s =
      let (own_turns, e) = view-run i turns (step m turn s) in
      continue own_turns e (moves-Seen i turn.thread turn.seen s (s.stand turn.thread) refl)
    where
      continue :
          (own_turns : List (Sharing.Turn m))
          → view m i (run m turns (step m turn s))
            ≡ Sharing.run m own_turns (view m i (step m turn s))
          → Seen i s (step m turn s)
          → (all_turns : List (Sharing.Turn m)) × (view m i (run m turns (step m turn s))
              ≡ Sharing.run m all_turns (view m i s))
      continue own_turns e (inl same) = (own_turns, e ∙ ap (Sharing.run m own_turns) same)
      continue own_turns e (inr (own, same)) =
          (own ∷ own_turns, e ∙ ap (Sharing.run m own_turns) same)

  -- An object on which methods happen one after the other stays so.
  pub view_from-Serial :
      (s₀ : Shared) (i : ℕ) (turns : List (Turn m)) (s : System m)
      → Serial m s₀ (view m i s)
      → Serial m s₀ (view m i (run m turns s))
  view_from-Serial s₀ i turns s h =
      let (own_turns, e) = view-run i turns s in
      subst (Serial m s₀) (sym e) (run_from-Serial m s₀ own_turns (view m i s) h)

  -- For any number of threads and objects, each with a new lock of its own, whatever methods of which object
  -- the threads call next and next, in any order of their steps, with loads that may answer anything:
  -- at most one thread is inside an object at a time, and the object is, or will be when that thread
  -- has done what is left, as if its methods had been called one after the other, in the order in
  -- which they got its lock.
  pub view-Serial :
      (objects : ℕ → Shared) (threads : ℕ → Process m) (turns : List (Turn m)) (i : ℕ)
      → Serial m (objects i) (view m i (run m turns (start m objects threads)))
  view-Serial objects threads turns i =
      let (own_turns, e) = view-run i turns (start m objects threads) in
      subst (Serial m (objects i)) (sym e) (run-Serial m (objects i) own_turns)
