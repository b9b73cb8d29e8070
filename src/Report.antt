-- ===== src/Report.antt =====
-- What the tests of src/ print: the lines of a RunTest (src/*AllocatorTest.cpp), the colours of the
-- console (src/Test.h) and the table of results (src/Test.cpp). Output is a list of what goes to
-- std::cout and of the calls of SetConsoleTextAttribute, in order.
pub mod Decimal
pub mod Table
pub mod Colours
pub mod Verdicts
use Prim.Native.Char.{code}
use Prim.Native.String.{String}
use Prim.Native.Nat.{bit_or}
use memory_allocators.Base.{
  ℕ, suc, ◌-◌, ◌%◌, ◌^◌, Bool, true, false, if◌then◌else◌, List, [], ◌∷◌, ◌++◌, ℤ, pos, negsuc,
}
use memory_allocators.Workload.{max_chunk_size}
use memory_allocators.Registry.{TestResult}
use memory_allocators.SystemHeap.{Call, malloc, free}
use memory_allocators.Report.Decimal.{Text, decimal}

-- The characters of a literal
abbrev pub codes : String → Text
codes String.[] = []
codes (String.◌∷◌ c s) = code c ∷ codes s

pub data Piece : Type 0 where
  text : Text → Piece
  attribute : ℕ → Piece

abbrev pub Output : Type 0
Output = List Piece

-- Whether `_WIN32` is defined, and the constants of windows.h
pub record Terminal : Type 0 where
  pub win32 : Bool
  pub foreground_red : ℕ
  pub foreground_green : ℕ
  pub foreground_blue : ℕ
  pub foreground_intensity : ℕ

abbrev pub say : String → Output
say s = text (codes s) ∷ []

-- std::cout << n, of a std::size_t
abbrev pub say_number : ℕ → Output
say_number n = text (decimal n) ∷ []

-- std::cout << n, of a signed number
abbrev pub say_integer : ℤ → Output
say_integer (pos n) = text (decimal n) ∷ []
say_integer (negsuc n) = text (b'-' ∷ decimal (suc n)) ∷ []

-- SetConsoleTextAttribute, on Windows only
abbrev pub set_attribute : Terminal → ℕ → Output
set_attribute t a = if t.win32 then attribute a ∷ [] else []

abbrev pub white_attribute : Terminal → ℕ
white_attribute t = bit_or (bit_or t.foreground_red t.foreground_green) t.foreground_blue

abbrev pub red_attribute : Terminal → ℕ
red_attribute t = bit_or t.foreground_red t.foreground_intensity

abbrev pub green_attribute : Terminal → ℕ
green_attribute t = bit_or t.foreground_green t.foreground_intensity

abbrev pub white : Terminal → Output
white t = set_attribute t (white_attribute t)

abbrev pub red : Terminal → Output
red t = set_attribute t (red_attribute t)

abbrev pub green : Terminal → Output
green t = set_attribute t (green_attribute t)

-- std::cout << colour << s << white
unfoldable pub in_colour : Terminal → Output → String → Output
in_colour t colour s = colour ++ (say s ++ white t)

-- The branches behind a test: `good` is what it prints when it has passed.
unfoldable pub verdict : Terminal → Bool → String → String → Output
unfolding in_colour
verdict t true good bad = in_colour t (green t) good
verdict t false good bad = in_colour t (red t) bad

-- The lines in front of a test. `n` is sMaxChunksNum.
unfoldable pub start_lines : String → String → ℕ → Output
start_lines title description n =
    say title
    ++ (say description
        ++ (say "MaxChunksNum "
            ++ (say_number n
                ++ (say "\n" ++ (say "MaxChunkSize " ++ (say_number max_chunk_size ++ say "\n"))))))

-- The line behind the measured part
unfoldable pub time_line : ℤ → Output
time_line took = say "Time = " ++ (say_integer took ++ say "ns\n")

-- The conversion of a duration, which is signed, to the std::size_t of the table
abbrev pub to_size : ℤ → ℕ
to_size (pos n) = n % 2 ^ 64
to_size (negsuc n) = 2 ^ 64 - 1 - n % 2 ^ 64

-- What a test leaves: what it has printed, and what it has put into the table of results
pub record Report : Type 0 where
  pub output : Output
  pub results : List TestResult

abbrev pub silent : Report
silent = record { output = []; results = [] }

-- The warning of PoolAllocators::Allocate, in front of every `malloc` that stands in for a chunk. `free`
-- prints nothing.
unfoldable pub warnings : List Call → Output
warnings [] = []
warnings (malloc size answer ∷ calls) =
    say "Warning[RedNetPhotonAllocator]: All allocators are full! Fallback to system call\n"
    ++ warnings calls
warnings (free p ∷ calls) = warnings calls

-- A test that has printed `during` while it measured, and `verdicts`, and its result
unfoldable pub report_of : String → String → ℕ → Output → ℤ → Output → String → Report
unfolding start_lines time_line
report_of title description n during took verdicts name = record {
  output = start_lines title description n ++ (during ++ (time_line took ++ verdicts));
  results = record { name = name; duration = to_size took } ∷ [];
}

-- PrintResults, the loop
unfoldable pub result_lines : List TestResult → Output
result_lines [] = []
result_lines (r ∷ rs) =
    say r.name ++ (say ": " ++ (say_number r.duration ++ (say " ns\n" ++ result_lines rs)))

unfoldable pub print_results : List TestResult → Output
unfolding result_lines
print_results results = say "Test results:\n" ++ (result_lines results ++ say "\n")
