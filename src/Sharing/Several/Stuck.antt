-- ===== src/Sharing/Several/Stuck.antt =====
-- A lock of several that a method has left held: who needs it never gets past it.
use memory_allocators.Base.{
  ℕ, ◌≡◌, refl, sym, subst, ap, ◌∙◌, Bool, true, false, ==_refl, List, [], ◌∷◌, update_self,
}
use memory_allocators.Sharing
use memory_allocators.Sharing.{
  Methods, Place, outside, at_load, at_exchange, at_decrement, inside, Threads, Effect, act,
  exchange,
}
use memory_allocators.Sharing.Serial.{is_inside}
use memory_allocators.Sharing.Abandoned.{
  waiting, act-Waits, Abandoned, run_from-Abandoned, leaves-Abandoned,
}
use memory_allocators.Sharing.Several.{
  Process, ends, undefined, asks, calls, Stand, between, calling, System, place_at, view, left_by,
  goes_on, takes_effect, Turn, moves, step, run, start,
}
use memory_allocators.Sharing.Several.Kept.{step-keeps}
use memory_allocators.Sharing.Several.View.{view-run, view-Serial, view-takes_effect}

module _ (m : Methods) where
  open m use {Local, Method, returned_early}

  -- A thread whose next call, or whose call now, is one of the object `i`, and which is not inside.
  abbrev pub Needs : ℕ → Stand m → Type 0
  Needs i (between (calls j method next)) = j ≡ i
  Needs i (between _) = ⊥
  Needs i (calling j method p next) = (j ≡ i) × (is_inside m p ≡ false)

  goes_on-Needs :
      (i : ℕ) (method : Method) (next : Local → Process m) (l : Local) (p : Place m)
      → waiting m p ≡ true
      → Needs i (goes_on m i method next l p)
  goes_on-Needs i method next l outside e = absurd (cc)
  goes_on-Needs i method next l (at_load method' c) e = (refl, refl)
  goes_on-Needs i method next l (at_exchange method' c) e = (refl, refl)
  goes_on-Needs i method next l (at_decrement method' c) e = (refl, refl)
  goes_on-Needs i method next l (inside l' rest) e = absurd (cc)

  effect-Needs :
      (i k : ℕ) (seen : Bool) (s : System m) (j : ℕ) (method : Method) (next : Local → Process m)
      (p : Place m)
      → s.flag i ≡ true
      → j ≡ i
      → is_inside m p ≡ false
      → Needs i ((takes_effect m k j method next p (act m method seen p (view m j s)) s).stand k)
  effect-Needs i k seen s j method next p held e out =
      let w = act-Waits m method seen p (view m j s) (ap s.flag e ∙ held) out in
      let d = act m method seen p (view m j s) in
      subst (Needs i) (sym (update_self s.stand k _)) (
        subst (λ n. Needs n (goes_on m j method next (left_by m p) d.next)) e
          (goes_on-Needs j method next (left_by m p) d.next w.1))

  moves-Needs :
      (i k : ℕ) (seen : Bool) (s : System m) (d : Stand m)
      → s.flag i ≡ true
      → Needs i d
      → Needs i ((moves m k seen d s).stand k)
  moves-Needs i k seen s (between ends) held n = absurd n
  moves-Needs i k seen s (between undefined) held n = absurd n
  moves-Needs i k seen s (between (asks call rest)) held n = absurd n
  moves-Needs i k seen s (between (calls j method next)) held n =
      effect-Needs i k seen s j method next outside held n refl
  moves-Needs i k seen s (calling j method p next) held n =
      effect-Needs i k seen s j method next p held n.0 n.1

  step-Needs :
      (i t : ℕ) (turn : Turn m) (s : System m)
      → s.flag i ≡ true
      → Needs i (s.stand t)
      → Needs i ((step m turn s).stand t)
  step-Needs i t turn s held =
      step-keeps m (Needs i) turn s (λ d here. moves-Needs i turn.thread turn.seen s d held) t

  -- A lock that is held with nobody inside stays so.
  run-Abandoned :
      (i : ℕ) (turns : List (Turn m)) (s : System m)
      → Abandoned m (view m i s)
      → Abandoned m (view m i (run m turns s))
  run-Abandoned i turns s h =
      let (own_turns, e) = view-run m i turns s in
      subst (Abandoned m) (sym e) (run_from-Abandoned m own_turns (view m i s) h)

  -- Who needs it goes on needing it.
  run-Needs :
      (i t : ℕ) (turns : List (Turn m)) (s : System m)
      → Abandoned m (view m i s)
      → Needs i (s.stand t)
      → Needs i ((run m turns s).stand t)
  unfolding run
  run-Needs i t [] s h n = n
  run-Needs i t (turn ∷ turns) s h n =
      run-Needs i t turns (step m turn s) (run-Abandoned i (turn ∷ []) s h)
        (step-Needs i t turn s h.0 n)

  -- The state behind the last step of a method
  abbrev pub left : (ℕ → m.Shared) → (ℕ → Process m) → List (Turn m) → ℕ → Bool → System m
  left objects threads before k seen =
      step m (record { thread = k; seen = seen }) (run m before (start m objects threads))

  -- For any number of threads and objects, any methods and any order of the threads' steps, from new
  -- locks on: once a method of an object has returned early, without its `unlock`, the lock of the
  -- object is held in every later state, with nobody inside; and a thread whose call in some later
  -- state, now or next, is one of that object never gets to the end of that call.
  pub early_return_hangs :
      (objects : ℕ → m.Shared) (threads : ℕ → Process m) (before : List (Turn m)) (i k : ℕ)
      (method : Method) (l : Local) (next : Local → Process m) (seen : Bool)
      → (run m before (start m objects threads)).stand k ≡ calling i method (inside l []) next
      → returned_early l ≡ true
      → (middle : List (Turn m)) (t : ℕ)
      → Needs i ((run m middle (left objects threads before k seen)).stand t)
      → (after : List (Turn m))
      → Abandoned m (view m i (run m after (run m middle (left objects threads before k seen))))
        × Needs i ((run m after (run m middle (left objects threads before k seen))).stand t)
  unfolding step
  early_return_hangs objects threads before i k method l next seen here early middle t needs after =
      let s = run m before (start m objects threads) in
      let place : place_at m i (s.stand k) ≡ inside l [] =
        ap (place_at m i) here ∙ rw (==_refl i) refl in
      let left_held =
        leaves-Abandoned m (objects i) k method seen l (view m i s)
          (view-Serial m objects threads before i) place early in
      let moved : view m i (left objects threads before k seen)
          ≡ Sharing.step m (record { thread = k; method = method; seen = seen }) (view m i s) =
        ap (λ d. view m i (moves m k seen d s)) here
        ∙ view-takes_effect m seen s k i method next (inside l []) place in
      let held =
        run-Abandoned i middle (left objects threads before k seen)
          (subst (Abandoned m) (sym moved) left_held) in
      (
        run-Abandoned i after (run m middle (left objects threads before k seen)) held,
        run-Needs i t after (run m middle (left objects threads before k seen)) held needs,
      )
