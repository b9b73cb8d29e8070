-- ===== src/Report/Table.antt =====
-- The table of results of src/Test.cpp, read back.
use memory_allocators.Base.{
  ℕ, zero, suc, ◌+◌, ◌-◌, ◌*◌, ◌/◌, ◌%◌, ◌^◌, ◌<◌, ◌≡◌, ◌≢◌, refl, sym, ap, ◌∙◌, arith, Bool, true,
  false, ◌==◌, ==_false, if◌then◌else◌, List, [], ◌∷◌, ◌++◌, map,
}
use mathlib.Core.List.{append-nil, append_assoc}
use memory_allocators.Registry.{TestResult}
use memory_allocators.Report.{text, attribute, Output, codes, say, result_lines, print_results}
use memory_allocators.Report.Decimal.{
  Text, decimal, digits, digits_step, digits_zero, digits-append,
}
use native.Mathlib.Decide.{ℕ_discrete}

-- The characters that are printed
abbrev pub characters : Output → Text
characters [] = []
characters (text t ∷ out) = t ++ characters out
characters (attribute a ∷ out) = characters out

-- A reader of the table: where it stands in a line, with the name and the number so far
pub data Position : Type 0 where
  in_name : Text → Position
  behind_colon : Text → Position
  in_number : Text → ℕ → Position
  to_next_line : Position

abbrev emit : Bool → Text × ℕ → List (Text × ℕ) → List (Text × ℕ)
emit true entry entries = entry ∷ entries
emit false entry entries = entries

pub read : Position → Text → List (Text × ℕ)
read p [] = []
read (in_name name) (c ∷ cs) =
    read (if c == b':' then behind_colon name else in_name (name ++ c ∷ [])) cs
read (behind_colon name) (c ∷ cs) = read (in_number name 0) cs
read (in_number name n) (c ∷ cs) =
    emit (c == b' ') (name, n)
      (read (if c == b' ' then to_next_line else in_number name (n * 10 + (c - b'0'))) cs)
read to_next_line (c ∷ cs) = read (if c == b'\n' then in_name [] else to_next_line) cs

-- The table as it is read from its title on
abbrev pub read_table : Text → List (Text × ℕ)
read_table = read to_next_line

abbrev pub NoColon : Text → Type 0
NoColon [] = Unit {0}
NoColon (c ∷ cs) = (c ≢ b':') × NoColon cs

read_name :
    (s acc rest : Text)
    → NoColon s
    → read (in_name acc) (s ++ b':' ∷ rest) ≡ read (behind_colon (acc ++ s)) rest
unfolding read
read_name [] acc rest h = ap (λ x. read (behind_colon x) rest) (sym (append-nil acc))
read_name (c ∷ s) acc rest h =
    rw (==_false c b':' h.0, read)
      (read_name s (acc ++ c ∷ []) rest h.1
        ∙ ap (λ x. read (behind_colon x) rest) (append_assoc acc (c ∷ []) s))

read_digit :
    (name : Text) (n d : ℕ) (rest : Text)
    → d < 10
    → read (in_number name n) ((b'0' + d) ∷ rest) ≡ read (in_number name (n * 10 + d)) rest
unfolding read
read_digit name n d rest h =
    let digit : (b'0' + d - b'0') ≡ d = omega arith in
    rw (==_false (b'0' + d) b' ' (omega arith), digit) refl

read-digits :
    (fuel n : ℕ) (name rest : Text)
    → n < 10 ^ fuel
    → read (in_number name 0) (digits fuel n rest) ≡ read (in_number name n) rest
unfolding digits
read-digits zero n name rest h = let e : n ≡ 0 = omega arith in rw e refl
read-digits (suc fuel) n name rest h = elim (ℕ_discrete n 0) [
  | yes e ↦ rw (e, digits_zero (suc fuel) rest) refl
  | no e ↦ rw (digits_step fuel n rest e) (
      read-digits fuel (n / 10) name ((b'0' + n % 10) ∷ rest) (omega arith)
      ∙ read_digit name (n / 10) (n % 10) rest (omega arith)
      ∙ ap (λ k. read (in_number name k) rest) (omega arith))
]

read-decimal :
    (n : ℕ) (name rest : Text)
    → n < 10 ^ 20
    → read (in_number name 0) (decimal n ++ b' ' ∷ rest) ≡ (name, n) ∷ read to_next_line rest
unfolding decimal read
read-decimal n name rest h = elim (ℕ_discrete n 0) [
  | yes e ↦ rw e refl
  | no e ↦
      rw (==_false n 0 e, digits-append 20 n [] (b' ' ∷ rest))
        (read-digits 20 n name (b' ' ∷ rest) h)
]

abbrev pub Printable : TestResult → Type 0
Printable r = NoColon (codes r.name) × (r.duration < 10 ^ 20)

abbrev pub AllPrintable : List TestResult → Type 0
AllPrintable [] = Unit {0}
AllPrintable (r ∷ rs) = Printable r × AllPrintable rs

abbrev pub entry : TestResult → Text × ℕ
entry r = (codes r.name, r.duration)

read_line :
    (r : TestResult) (rest : Text)
    → Printable r
    → read
        (in_name [])
        (codes r.name ++ b':' ∷ b' ' ∷ (decimal r.duration ++ b' ' ∷ b'n' ∷ b's' ∷ b'\n' ∷ rest))
      ≡ entry r ∷ read (in_name []) rest
unfolding read
read_line r rest h =
    read_name (codes r.name) [] _ h.0
    ∙ read-decimal r.duration (codes r.name) (b'n' ∷ b's' ∷ b'\n' ∷ rest) h.1

read-result_lines :
    (rs : List TestResult)
    → AllPrintable rs
    → read (in_name []) (characters (result_lines rs ++ say "\n")) ≡ map entry rs
unfolding result_lines read
read-result_lines [] h = refl
read-result_lines (r ∷ rs) h =
    read_line r (characters (result_lines rs ++ say "\n")) h.0
    ∙ ap (◌∷◌ (entry r)) (read-result_lines rs h.1)

-- Where no name has a colon and every duration is below 10 ^ 20 (each std::size_t is): a reader that
-- looks for colons, digits and ends of lines finds in the printed table the names and the durations of
-- the results, all of them, in order.
pub read_table-print_results :
    (results : List TestResult)
    → AllPrintable results
    → read_table (characters (print_results results)) ≡ map entry results
unfolding print_results read
read_table-print_results results h = read-result_lines results h
