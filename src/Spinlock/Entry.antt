-- ===== src/Spinlock/Entry.antt =====
-- A thread gets into a free Spinlock, and not into one that is held.
use memory_allocators.Base.{
  ℕ, ◌≡◌, refl, ap, ◌∙◌, arith, Bool, true, false, List, [], ◌∷◌, update_self,
}
use memory_allocators.Spinlock.{
  Phase, outside, at_load, at_exchange, at_decrement, inside, act, Spinlock, step, Turn, run,
}
use memory_allocators.Spinlock.Exclusion.{within}

-- What a step does to the thread that takes it
step_self :
    (i : ℕ) (seen : Bool) (s : Spinlock)
    → ((step i seen s).flag ≡ (act seen s.flag (s.phase i)).0)
      × ((step i seen s).phase i ≡ (act seen s.flag (s.phase i)).1)
unfolding step
step_self i seen s = (refl, update_self s.phase i (act seen s.flag (s.phase i)).1)

-- The turns of one thread alone
abbrev pub alone : ℕ → List Bool → List Turn
alone i [] = []
alone i (seen ∷ rest) = record { thread = i; seen = seen } ∷ alone i rest

-- The same, without the other threads
unfoldable pub solo : List Bool → Bool → Phase → Bool × Phase
solo [] flag p = (flag, p)
solo (seen ∷ rest) flag p = solo rest (act seen flag p).0 (act seen flag p).1

run-alone :
    (i : ℕ) (answers : List Bool) (s : Spinlock)
    → ((run (alone i answers) s).flag, (run (alone i answers) s).phase i)
      ≡ solo answers s.flag (s.phase i)
unfolding run solo
run-alone i [] s = refl
run-alone i (seen ∷ rest) s =
    let (flag, phase) = step_self i seen s in
    run-alone i rest (step i seen s) ∙ rw (flag, phase) refl

solo_waits :
    (answers : List Bool) (p : Phase)
    → within p ≡ 0
    → ((solo answers true p).0 ≡ true) × (within (solo answers true p).1 ≡ 0)
unfolding solo
solo_waits [] p h = (refl, h)
solo_waits (seen ∷ rest) outside h = solo_waits rest _ refl
solo_waits (true ∷ rest) (at_load c) h = solo_waits rest _ refl
solo_waits (false ∷ rest) (at_load c) h = solo_waits rest _ refl
solo_waits (seen ∷ rest) (at_exchange c) h = solo_waits rest _ refl
solo_waits (seen ∷ rest) (at_decrement c) h = solo_waits rest _ refl
solo_waits (seen ∷ rest) inside h = absurd (omega (arith, h))

-- A thread that is not inside takes any number of steps alone while the flag is set, whatever its
-- loads answer: it does not get inside, and the flag stays set.
pub run_waits :
    (i : ℕ) (answers : List Bool) (s : Spinlock)
    → s.flag ≡ true
    → within (s.phase i) ≡ 0
    → ((run (alone i answers) s).flag ≡ true) × (within ((run (alone i answers) s).phase i) ≡ 0)
run_waits i answers s set out =
    let e = run-alone i answers s ∙ ap (λ b. solo answers b (s.phase i)) set in
    let (flag, phase) = solo_waits answers (s.phase i) out in
    (ap (λ r. r.0) e ∙ flag, ap (λ r. within r.1) e ∙ phase)

-- A thread that stands outside takes four steps alone while the flag is clear, and its load answers
-- so: it gets inside with the flag set by the third step, and the fourth step, unlock, clears the
-- flag.
pub run_enters :
    (i : ℕ) (first last : Bool) (s : Spinlock)
    → s.flag ≡ false
    → s.phase i ≡ outside
    → (((run (alone i (first ∷ false ∷ last ∷ [])) s).flag ≡ true)
        × ((run (alone i (first ∷ false ∷ last ∷ [])) s).phase i ≡ inside))
      × (((run (alone i (first ∷ false ∷ last ∷ first ∷ [])) s).flag ≡ false)
          × ((run (alone i (first ∷ false ∷ last ∷ first ∷ [])) s).phase i ≡ outside))
unfolding solo
run_enters i first last s clear out =
    let e =
      run-alone i (first ∷ false ∷ last ∷ []) s
      ∙ ap (λ b. solo (first ∷ false ∷ last ∷ []) b (s.phase i)) clear
      ∙ ap (solo (first ∷ false ∷ last ∷ []) false) out in
    let e' =
      run-alone i (first ∷ false ∷ last ∷ first ∷ []) s
      ∙ ap (λ b. solo (first ∷ false ∷ last ∷ first ∷ []) b (s.phase i)) clear
      ∙ ap (solo (first ∷ false ∷ last ∷ first ∷ []) false) out in
    ((ap (λ r. r.0) e, ap (λ r. r.1) e), (ap (λ r. r.0) e', ap (λ r. r.1) e'))
