-- ===== src/Report/Colours.antt =====
-- The colours of the console on Windows, src/Test.h: what is tidy about an output.
use memory_allocators.Base.{
  ℕ, ◌≡◌, refl, sym, subst, ap, ◌∙◌, Bool, true, false, if◌then◌else◌, Option, none, some, ℤ, pos,
  negsuc, List, [], ◌∷◌, ◌++◌,
}
use Prim.Native.String.{String}
use memory_allocators.Registry.{TestResult}
use memory_allocators.SystemHeap.{Call, malloc, free}
use memory_allocators.Report.{
  text, attribute, Output, Terminal, codes, in_colour, white_attribute, red_attribute,
  green_attribute, verdict, warnings, start_lines, time_line, report_of, result_lines,
  print_results,
}
use memory_allocators.Report.Verdicts.{
  read_verdict, join, verdicts_in, Plain, warnings-Plain, start_lines-Plain, time_line-Plain,
}

-- The attribute of the console behind some output
abbrev pub attribute_after : ℕ → Output → ℕ
attribute_after a [] = a
attribute_after a (text t ∷ out) = attribute_after a out
attribute_after a (attribute b ∷ out) = attribute_after b out

-- An output that does not touch the attribute
abbrev pub Uncoloured : Output → Type 0
Uncoloured [] = Unit {0}
Uncoloured (text t ∷ out) = Uncoloured out
Uncoloured (attribute a ∷ out) = ⊥

Uncoloured-append : (xs ys : Output) → Uncoloured xs → Uncoloured ys → Uncoloured (xs ++ ys)
Uncoloured-append [] ys h k = k
Uncoloured-append (text t ∷ xs) ys h k = Uncoloured-append xs ys h k
Uncoloured-append (attribute a ∷ xs) ys h k = absurd h

result_lines-Uncoloured : (rs : List TestResult) → Uncoloured (result_lines rs)
unfolding result_lines
result_lines-Uncoloured [] = tt
result_lines-Uncoloured (r ∷ rs) = result_lines-Uncoloured rs

pub print_results-Uncoloured : (rs : List TestResult) → Uncoloured (print_results rs)
unfolding print_results
print_results-Uncoloured rs = Uncoloured-append (result_lines rs) _ (result_lines-Uncoloured rs) tt

warnings-Uncoloured : (calls : List Call) → Uncoloured (warnings calls)
unfolding warnings
warnings-Uncoloured [] = tt
warnings-Uncoloured (malloc size answer ∷ calls) = warnings-Uncoloured calls
warnings-Uncoloured (free p ∷ calls) = warnings-Uncoloured calls

time_line-Uncoloured : (took : ℤ) → Uncoloured (time_line took)
unfolding time_line
time_line-Uncoloured (pos n) = tt
time_line-Uncoloured (negsuc n) = tt

-- A text without a verdict comes first where there is no verdict.
join-none : (v : Option Bool) (vs : List Bool) → join v vs ≡ [] → (v ≡ none) × (vs ≡ [])
join-none none vs e = (refl, e)
join-none (some v) vs e = absurd (cc)

module _ (terminal : Terminal) where
  -- On Windows a verdict is green if it is good and red if it is bad; all else is white.
  abbrev pub colour_of : Option Bool → ℕ
  colour_of none = white_attribute terminal
  colour_of (some true) =
      if terminal.win32 then green_attribute terminal else white_attribute terminal
  colour_of (some false) =
      if terminal.win32 then red_attribute terminal else white_attribute terminal

  -- Every text of an output has its colour, where `a` is the attribute in front of it.
  abbrev pub AllColoured : ℕ → Output → Type 0
  AllColoured a [] = Unit {0}
  AllColoured a (text t ∷ out) = (a ≡ colour_of (read_verdict t)) × AllColoured a out
  AllColoured a (attribute b ∷ out) = AllColoured b out

  -- An output that starts in white, is coloured, and leaves the console white
  abbrev pub Tidy : Output → Type 0
  Tidy out =
      AllColoured (white_attribute terminal) out
      × (attribute_after (white_attribute terminal) out ≡ white_attribute terminal)

  attribute_after-append :
      (a : ℕ) (xs ys : Output)
      → attribute_after a (xs ++ ys) ≡ attribute_after (attribute_after a xs) ys
  attribute_after-append a [] ys = refl
  attribute_after-append a (text t ∷ xs) ys = attribute_after-append a xs ys
  attribute_after-append a (attribute b ∷ xs) ys = attribute_after-append b xs ys

  AllColoured-append :
      (a : ℕ) (xs ys : Output)
      → AllColoured a xs
      → AllColoured (attribute_after a xs) ys
      → AllColoured a (xs ++ ys)
  AllColoured-append a [] ys h k = k
  AllColoured-append a (text t ∷ xs) ys h k = (h.0, AllColoured-append a xs ys h.1 k)
  AllColoured-append a (attribute b ∷ xs) ys h k = AllColoured-append b xs ys h k

  pub Tidy-append : (xs ys : Output) → Tidy xs → Tidy ys → Tidy (xs ++ ys)
  Tidy-append xs ys h k = (
    AllColoured-append (white_attribute terminal) xs ys h.0
        (subst (λ a. AllColoured a ys) (sym h.1) k.0),
    attribute_after-append (white_attribute terminal) xs ys
        ∙ ap (λ a. attribute_after a ys) h.1
        ∙ k.1,
  )

  -- Texts without a verdict need no colour.
  pub Plain-Tidy : (out : Output) → Uncoloured out → Plain out → Tidy out
  Plain-Tidy [] u p = (tt, refl)
  Plain-Tidy (text t ∷ out) u p =
      let (no_verdict, plain) = join-none (read_verdict t) (verdicts_in out) p in
      let (colours, after) = Plain-Tidy out u plain in
      ((ap colour_of (sym no_verdict), colours), after)
  Plain-Tidy (attribute a ∷ out) u p = absurd u

  pub Tidy-verdict :
      (passed : Bool) (good bad : String)
      → read_verdict (codes good) ≡ some true
      → read_verdict (codes bad) ≡ some false
      → Tidy (verdict terminal passed good bad)
  unfolding verdict in_colour
  Tidy-verdict passed good bad g b = by_platform terminal.win32 refl passed
    where
      by_platform :
          (w : Bool)
          → terminal.win32 ≡ w
          → (passed : Bool) → Tidy (verdict terminal passed good bad)
      by_platform true e true = rw (e, g) ((refl, tt), refl)
      by_platform true e false = rw (e, b) ((refl, tt), refl)
      by_platform false e true = rw (e, g) ((refl, tt), refl)
      by_platform false e false = rw (e, b) ((refl, tt), refl)

  pub Tidy-warnings : (calls : List Call) → Tidy (warnings calls)
  Tidy-warnings calls =
      Plain-Tidy (warnings calls) (warnings-Uncoloured calls) (warnings-Plain calls)

  pub Tidy-report_of :
      (title description : String) (n : ℕ) (during : Output) (took : ℤ) (verdicts : Output)
      (name : String)
      → read_verdict (codes title) ≡ none
      → read_verdict (codes description) ≡ none
      → Tidy during
      → Tidy verdicts
      → Tidy (report_of title description n during took verdicts name).output
  unfolding report_of start_lines
  Tidy-report_of title description n during took verdicts name t d h k =
      let start = start_lines title description n in
      Tidy-append start (during ++ (time_line took ++ verdicts))
        (Plain-Tidy start tt (start_lines-Plain title description n t d))
        (Tidy-append during (time_line took ++ verdicts) h (
          Tidy-append (time_line took) verdicts
            (Plain-Tidy (time_line took) (time_line-Uncoloured took) (time_line-Plain took)) k))
