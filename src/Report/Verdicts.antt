-- ===== src/Report/Verdicts.antt =====
-- The verdicts in what the tests of src/*AllocatorTest.cpp print, as a reader finds them: the four texts
-- that say that a test or a merge has passed or failed.
use Prim.Native.String.{String}
use memory_allocators.Base.{
  ℕ, zero, suc, ◌+◌, ◌/◌, ◌%◌, ◌<◌, arith, ==_false, ◌≡◌, refl, Bool, true, false, ◌==◌, ◌&&◌,
  if◌then◌else◌, Option, none, some, ℤ, pos, negsuc, List, [], ◌∷◌, ◌++◌, Bool-cases, inl, inr, ◌∙◌,
  ap,
}
use memory_allocators.SystemHeap.{Call, malloc, free}
use memory_allocators.Workload.{max_chunk_size}
use memory_allocators.Report.{
  text, attribute, Output, Terminal, codes, in_colour, verdict, warnings, time_line, start_lines,
  report_of,
}
use memory_allocators.Report.Decimal.{Text, decimal, digits}

abbrev same_text : Text → Text → Bool
same_text [] [] = true
same_text [] (d ∷ ds) = false
same_text (c ∷ cs) [] = false
same_text (c ∷ cs) (d ∷ ds) = (c == d) && same_text cs ds

-- Whether a text says that something has passed, or failed, or neither
abbrev pub read_verdict : Text → Option Bool
read_verdict t =
    if same_text t (codes "Test Passed!\n")
    then some true
    else if same_text t (codes "FullMerge Test Passed!\n")
    then some true
    else if same_text t (codes "Test Failed!\n")
    then some false
    else if same_text t (codes "FullMerge Test Failed!\n")
    then some false
    else none

abbrev pub join : Option Bool → List Bool → List Bool
join none vs = vs
join (some v) vs = v ∷ vs

-- The verdicts of an output, in order
abbrev pub verdicts_in : Output → List Bool
verdicts_in [] = []
verdicts_in (text t ∷ out) = join (read_verdict t) (verdicts_in out)
verdicts_in (attribute a ∷ out) = verdicts_in out

join-append : (v : Option Bool) (vs ws : List Bool) → join v (vs ++ ws) ≡ join v vs ++ ws
join-append none vs ws = refl
join-append (some v) vs ws = refl

pub verdicts_in-append :
    (xs ys : Output) → verdicts_in (xs ++ ys) ≡ verdicts_in xs ++ verdicts_in ys
verdicts_in-append [] ys = refl
verdicts_in-append (text t ∷ xs) ys =
    ap (join (read_verdict t)) (verdicts_in-append xs ys)
    ∙ join-append (read_verdict t) (verdicts_in xs) (verdicts_in ys)
verdicts_in-append (attribute a ∷ xs) ys = verdicts_in-append xs ys

-- An output without a verdict
abbrev pub Plain : Output → Type 0
Plain out = verdicts_in out ≡ []

Plain-append : (xs ys : Output) → Plain xs → Plain ys → Plain (xs ++ ys)
Plain-append xs ys h k = rw (verdicts_in-append xs ys, h, k) refl

pub verdicts_in-verdict :
    (terminal : Terminal) (passed : Bool) (good bad : String)
    → read_verdict (codes good) ≡ some true
    → read_verdict (codes bad) ≡ some false
    → verdicts_in (verdict terminal passed good bad) ≡ passed ∷ []
unfolding verdict in_colour
verdicts_in-verdict terminal passed good bad g b = by_platform terminal.win32 refl passed
  where
    by_platform :
        (w : Bool)
        → terminal.win32 ≡ w
        → (passed : Bool) → verdicts_in (verdict terminal passed good bad) ≡ passed ∷ []
    by_platform true e true = rw (e, g) refl
    by_platform true e false = rw (e, b) refl
    by_platform false e true = rw (e, g) refl
    by_platform false e false = rw (e, b) refl

pub warnings-Plain : (calls : List Call) → Plain (warnings calls)
unfolding warnings
warnings-Plain [] = refl
warnings-Plain (malloc size answer ∷ calls) = warnings-Plain calls
warnings-Plain (free p ∷ calls) = warnings-Plain calls

-- A text that does not begin with a letter
abbrev Low : Text → Type 0
Low [] = Unit {0}
Low (c ∷ cs) = c < b'A'

Low-read_verdict : (t : Text) → Low t → read_verdict t ≡ none
Low-read_verdict [] low = refl
Low-read_verdict (c ∷ cs) low =
    rw (==_false c b'T' (omega (arith, low)), ==_false c b'F' (omega (arith, low))) refl

Low-digits : (fuel n : ℕ) (out : Text) → Low out → Low (digits fuel n out)
unfolding digits
Low-digits zero n out low = low
Low-digits (suc fuel) n out low = elim (Bool-cases (n == 0)) [
  | inl e ↦ rw e low
  | inr e ↦ rw e (Low-digits fuel (n / 10) ((b'0' + n % 10) ∷ out) (omega arith))
]

read_verdict-decimal : (n : ℕ) → read_verdict (decimal n) ≡ none
unfolding decimal
read_verdict-decimal n = elim (Bool-cases (n == 0)) [
  | inl e ↦ rw e refl
  | inr e ↦ rw e (Low-read_verdict (digits 20 n []) (Low-digits 20 n [] tt))
]

pub time_line-Plain : (took : ℤ) → Plain (time_line took)
unfolding time_line
time_line-Plain (pos n) = rw (read_verdict-decimal n) refl
time_line-Plain (negsuc n) = refl

pub start_lines-Plain :
    (title description : String) (n : ℕ)
    → read_verdict (codes title) ≡ none
    → read_verdict (codes description) ≡ none
    → Plain (start_lines title description n)
unfolding start_lines
start_lines-Plain title description n t d =
    rw (t, d, read_verdict-decimal n, read_verdict-decimal max_chunk_size) refl

-- A test prints the verdicts behind its loops, and no others.
pub verdicts_in-report_of :
    (title description : String) (n : ℕ) (during : Output) (took : ℤ) (verdicts : Output)
    (name : String)
    → read_verdict (codes title) ≡ none
    → read_verdict (codes description) ≡ none
    → Plain during
    → verdicts_in (report_of title description n during took verdicts name).output
      ≡ verdicts_in verdicts
unfolding report_of
verdicts_in-report_of title description n during took verdicts name t d plain =
    let start = start_lines-Plain title description n t d in
    rw
      (
        verdicts_in-append (start_lines title description n)
            (during ++ (time_line took ++ verdicts)),
        verdicts_in-append during (time_line took ++ verdicts),
        verdicts_in-append (time_line took) verdicts,
        start,
        plain,
        time_line-Plain took,
      )
      refl
