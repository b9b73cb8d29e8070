-- ===== src/Sharing/Abandoned.antt =====
-- A lock that a method has left held: nobody gets past it.
use native.Mathlib.Decide.{ℕ_discrete}
use memory_allocators.Base.{ℕ, ◌≡◌, refl, sym, subst, ap, ◌∙◌, Bool, true, false, List, [], ◌∷◌}
use memory_allocators.Sharing
use memory_allocators.Sharing.{
  Methods, Place, outside, at_load, at_exchange, at_decrement, inside, Threads, Effect, act,
  exchange,
}
use memory_allocators.Sharing.Serial.{Serial, resting, working, is_inside, outside-update}

module _ (m : Methods) where
  open m use {Local, Method, returned_early}

  -- In the loop of `lock`
  abbrev pub waiting : Place m → Bool
  waiting (inside l rest) = false
  waiting outside = false
  waiting _ = true

  pub waiting-outside : (p : Place m) → waiting p ≡ true → is_inside m p ≡ false
  waiting-outside outside e = refl
  waiting-outside (at_load method c) e = refl
  waiting-outside (at_exchange method c) e = refl
  waiting-outside (at_decrement method c) e = refl
  waiting-outside (inside l rest) e = absurd (cc)

  -- The lock is held, and nobody is inside.
  abbrev pub Abandoned : Threads m → Type 0
  Abandoned t = (t.flag ≡ true) × ((j : ℕ) → is_inside m (t.place j) ≡ false)

  abbrev pub Waits : Effect m → Type 0
  Waits e = (e.flag_after ≡ true) × (waiting e.next ≡ true)

  exchange-Waits :
      (method : Method) (c : ℕ) (t : Threads m) (b : Bool)
      → t.flag ≡ true
      → b ≡ true
      → Waits (exchange m method c b t)
  exchange-Waits method c t true held e = (held, refl)
  exchange-Waits method c t false held e = absurd (cc)

  pub act-Waits :
      (method : Method) (seen : Bool) (p : Place m) (t : Threads m)
      → t.flag ≡ true
      → is_inside m p ≡ false
      → Waits (act m method seen p t)
  act-Waits method seen outside t held out = (held, refl)
  act-Waits method true (at_load method' c) t held out = (held, refl)
  act-Waits method false (at_load method' c) t held out = (held, refl)
  act-Waits method seen (at_exchange method' c) t held out =
      exchange-Waits method' c t t.flag held held
  act-Waits method seen (at_decrement method' c) t held out = (held, refl)
  act-Waits method seen (inside l rest) t held out = absurd (cc)

  step-Abandoned :
      (turn : Sharing.Turn m) (t : Threads m) → Abandoned t → Abandoned (Sharing.step m turn t)
  unfolding Sharing.step
  step-Abandoned turn t h =
      let w = act-Waits turn.method turn.seen (t.place turn.thread) t h.0 (h.1 turn.thread) in
      (w.0, λ j. outside-update m t.place turn.thread _ j (waiting-outside _ w.1) (λ e. h.1 j))

  pub run_from-Abandoned :
      (turns : List (Sharing.Turn m)) (t : Threads m)
      → Abandoned t
      → Abandoned (Sharing.run m turns t)
  unfolding Sharing.run
  run_from-Abandoned [] t h = h
  run_from-Abandoned (turn ∷ turns) t h =
      run_from-Abandoned turns (Sharing.step m turn t) (step-Abandoned turn t h)

  -- The last step of a method that has returned early
  pub leaves-Abandoned :
      (s₀ : m.Shared) (k : ℕ) (method : Method) (seen : Bool) (l : Local) (t : Threads m)
      → Serial m s₀ t
      → t.place k ≡ inside l []
      → returned_early l ≡ true
      → Abandoned (Sharing.step m (record { thread = k; method = method; seen = seen }) t)
  unfolding Sharing.step
  leaves-Abandoned s₀ k method seen l t (resting quiet done) here early =
      let d : true ≡ false = sym (ap (is_inside m) here) ∙ quiet k in absurd (cc)
  leaves-Abandoned s₀ k method seen l t (working i l' rest held there quiet remains) here early =
      elim (ℕ_discrete k i) [
        | yes e ↦
            subst (λ p. Abandoned (Sharing.takes_effect m k (act m method seen p t) t)) (sym here)
              (
                rw early held,
                λ j. outside-update m t.place k outside j refl (λ d. quiet j (λ c. d (c ∙ sym e))),
              )
        | no e ↦ let d : true ≡ false = sym (ap (is_inside m) here) ∙ quiet k e in absurd (cc)
      ]
