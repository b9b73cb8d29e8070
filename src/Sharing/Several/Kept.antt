-- ===== src/Sharing/Several/Kept.antt =====
-- What a step of one of several threads does to where the others stand: nothing.
use native.Mathlib.Decide.{ℕ_discrete}
use memory_allocators.Base.{ℕ, ◌≡◌, ◌≢◌, Bool, refl, sym, subst, List, [], ◌∷◌, update_ne}
use memory_allocators.Sharing.{Methods}
use memory_allocators.Sharing.Several.{
  ends, undefined, asks, calls, Stand, between, calling, System, Turn, moves, step, run,
}

module _ (m : Methods) where
  moves-other :
      (k t : ℕ) (seen : Bool) (s : System m) (d : Stand m)
      → t ≢ k
      → (moves m k seen d s).stand t ≡ s.stand t
  moves-other k t seen s (between ends) h = refl
  moves-other k t seen s (between undefined) h = refl
  moves-other k t seen s (between (asks call rest)) h = update_ne s.stand k _ t h
  moves-other k t seen s (between (calls j method next)) h = update_ne s.stand k _ t h
  moves-other k t seen s (calling j method p next) h = update_ne s.stand k _ t h

  module _ (P : Stand m → Type 0) where
    -- What holds of every thread, and the moves of a thread keep of it, a step keeps.
    pub step-keeps :
        (turn : Turn m) (s : System m)
        → ((d : Stand m)
            → s.stand turn.thread ≡ d
            → P d
            → P ((moves m turn.thread turn.seen d s).stand turn.thread))
        → (t : ℕ) → P (s.stand t)
        → P ((step m turn s).stand t)
    unfolding step
    step-keeps turn s moved t h = elim (ℕ_discrete t turn.thread) [
      | yes e ↦
          subst (λ k. P ((moves m turn.thread turn.seen (s.stand turn.thread) s).stand k)) (sym e)
            (moved (s.stand turn.thread) refl (subst (λ k. P (s.stand k)) e h))
      | no e ↦ subst P (sym (moves-other turn.thread t turn.seen s (s.stand turn.thread) e)) h
    ]

    pub run-keeps :
        ((k : ℕ) (seen : Bool) (s : System m) (d : Stand m)
          → s.stand k ≡ d
          → P d
          → P ((moves m k seen d s).stand k))
        → (turns : List (Turn m)) (s : System m) (t : ℕ) → P (s.stand t)
        → P ((run m turns s).stand t)
    unfolding run
    run-keeps moved [] s t h = h
    run-keeps moved (turn ∷ turns) s t h =
        run-keeps moved turns (step m turn s) t
          (step-keeps turn s (moved turn.thread turn.seen s) t h)
