-- ===== src/FunctionState.antt =====
-- `_FunctionState` (build_support/cpplint.py): the function that is being read, and the number of
-- lines of its body.
pub mod Levels
use falcon_link.Prelude.{
  ℕ, zero, suc, ◌+◌, ◌-◌, ◌*◌, ◌/◌, ◌%◌, ◌^◌, ◌≤◌, ◌<◌, ◌≡◌, ◌∙◌, ◌≡⟨◌⟩◌, ◌∎, ◌≢◌, ◌↔◌, ◌⊎◌, Bool,
  true, false, not, ◌&&◌, ◌||◌, none, some, List, [], ◌∷◌, ◌++◌, codes, count, decimal, Text, ltb,
  ◌==◌, if◌then◌else◌,
}
use falcon_link.Regex.{Regex, one, word, ◌▸◌, ◌∣◌, match_start}
use falcon_link.Report.{Report, report}

pub record FunctionState : Type 0 where
  pub in_a_function : Bool
  pub lines_in_function : ℕ
  pub current_function : Text

-- _NORMAL_TRIGGER and _TEST_TRIGGER
abbrev pub normal_trigger : ℕ
normal_trigger = 250

abbrev pub test_trigger : ℕ
test_trigger = 400

-- __init__
abbrev pub new_function_state : FunctionState
new_function_state = record { in_a_function = false; lines_in_function = 0; current_function = [] }

-- Begin
unfoldable pub begin : Text → FunctionState → FunctionState
begin name s = record { in_a_function = true; lines_in_function = 0; current_function = name }

-- Count
unfoldable pub count_line : FunctionState → FunctionState
count_line s =
    if s.in_a_function then record s { lines_in_function = s.lines_in_function + 1 } else s

-- End
unfoldable pub end_function : FunctionState → FunctionState
end_function s = record s { in_a_function = false }

-- T(EST|est)
pub test_name : Regex
unfolding word
test_name = one b'T' ▸ (word "EST" ∣ word "est")

pub is_test : Text → Bool
unfolding match_start test_name
is_test name = elim (match_start test_name name) [ some _ ↦ true | none ↦ false ]

pub base_trigger : Text → ℕ
unfolding is_test
base_trigger name = if is_test name then test_trigger else normal_trigger

-- int(math.log(n, 2)) of a number that is not 0; the fuel is more than the logarithm
unfoldable pub log2_go : ℕ → ℕ → ℕ
log2_go zero n = 0
log2_go (suc fuel) n = elim (ltb n 2) [ true ↦ 0 | false ↦ 1 + log2_go fuel (n / 2) ]

unfoldable pub log2 : ℕ → ℕ
unfolding log2_go
log2 n = log2_go n n

-- The confidence of the report: the logarithm, at most 5.
unfoldable pub error_level : ℕ → ℕ → ℕ
unfolding log2
error_level lines base = if ltb 5 (log2 (lines / base)) then 5 else log2 (lines / base)

-- Check, with the verbosity of the module
unfoldable pub check : Text → ℕ → ℕ → FunctionState → List Report
unfolding error_level base_trigger decimal
check filename linenum verbose_level s =
    let base = base_trigger s.current_function in
    let trigger = base * 2 ^ verbose_level in
    if not s.in_a_function
    then []
    else if ltb trigger s.lines_in_function
    then report filename linenum "readability/fn_size" (error_level s.lines_in_function base) (
        codes "Small and focused functions are preferred: "
        ++ (s.current_function
            ++ (codes " has "
                ++ (decimal s.lines_in_function
                    ++ (codes " non-comment lines (error triggered by exceeding "
                        ++ (decimal trigger ++ codes " lines)."))))))
      ∷ []
    else []
