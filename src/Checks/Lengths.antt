-- ===== src/Checks/Lengths.antt =====
-- CheckForFunctionLengths (build_support/cpplint.py).
use falcon_link.Prelude.{
  ℕ, Bool, true, false, not, ◌&&◌, ◌||◌, Option, none, some, List, [], ◌∷◌, ◌++◌, codes, text_eq,
  lstrip, Text, leb, ◌==◌, if◌then◌else◌, get_elem?, take, drop,
}
use falcon_link.Prelude.Options.{◌>>=◌}
use falcon_link.Regex.{
  Regex, letter, star, group, start, finish, match_start, search_in, word, one, dot, space,
  word_letter, plus, ◌▸◌, ◌∣◌,
}
use falcon_link.Report.{Report, report}
use falcon_link.Nolint.{matches}
use falcon_link.Nesting.Blocks.{starts}
use falcon_link.RawStrings.{group_text}
use falcon_link.CleansedLines.{CleansedLines}
use falcon_link.FunctionState.{FunctionState, begin, check, count_line, end_function}
use falcon_link.HeaderGuard.Checks.{split_words}

-- (\w(\w|::|\*|\&|\s)*)\(
unfoldable pub function_start : Regex
unfolding word
function_start =
    group 1 (word_letter ▸ star (group 2 (word_letter ∣ word "::" ∣ one b'*' ∣ one b'&' ∣ space)))
    ▸ one b'('

-- [A-Z_]+$
unfoldable pub all_caps : Regex
all_caps = plus (letter (λ c. (leb b'A' c && leb c b'Z') || c == b'_')) ▸ finish

-- group(1).split()[-1]
pub last_word : List Text → Text
last_word [] = []
last_word (w ∷ []) = w
last_word (w ∷ v ∷ ws) = last_word (v ∷ ws)

-- Whether a function starts on the line.
unfoldable pub starting_func : Text → Bool
unfolding match_start last_word split_words text_eq starts
starting_func line = elim (match_start function_start line) [
  | none ↦ false
  | some m ↦
      let name = last_word (split_words [] (group_text m 1)) in
      text_eq name (codes "TEST") || text_eq name (codes "TEST_F") || not (starts all_caps name)
]

-- What the loop over the lines found: nothing, a declaration, or the body of a function.
pub data Body : Type 0 where
  no_body declared : Body
  body_of : Text → Body

-- (;|})
unfoldable pub declaration_end : Regex
declaration_end = group 1 (one b';' ∣ one b'}')

-- {
unfoldable pub opening_brace : Regex
opening_brace = one b'{'

-- ((\w|:)*)\(
unfoldable pub call_name : Regex
call_name = group 1 (star (group 2 (word_letter ∣ one b':'))) ▸ one b'('

-- TEST
unfoldable pub test_macro : Regex
unfolding word
test_macro = word "TEST"

-- (\(.*\))
unfoldable pub parameters : Regex
parameters = group 1 (one b'(' ▸ star dot ▸ one b')')

-- The name with which the body begins; `none` is an AttributeError.
unfoldable pub function_name : Text → Text → Option Text
unfolding search_in starts
function_name line joined_line = search_in call_name line >>= λ m. some (
    if starts test_macro (group_text m 1)
    then elim (search_in parameters joined_line) [
      | some p ↦ group_text m 1 ++ group_text p 1
      | none ↦ group_text m 1
    ]
    else group_text m 1 ++ codes "()")

-- The loop, over the lines from `linenum` on.
unfoldable pub find_body : Text → Text → List Text → Option Body
unfolding lstrip matches function_name
find_body line joined_line [] = some no_body
find_body line joined_line (start_line ∷ lines) =
    let joined = joined_line ++ (b' ' ∷ lstrip start_line) in
    elim (matches declaration_end start_line) [
      | true ↦ some declared
      | false ↦ elim (matches opening_brace start_line) [
        | true ↦ function_name line joined >>= λ name. some (body_of name)
        | false ↦ find_body line joined lines
      ]
    ]

-- ^\}\s*$
unfoldable pub function_end : Regex
function_end = start ▸ one b'}' ▸ star space ▸ finish

-- ^\s*$
unfoldable pub blank_line : Regex
blank_line = start ▸ star space ▸ finish

-- What the body found does to the state.
unfoldable pub begin_body : Text → ℕ → FunctionState → Body → FunctionState × List Report
unfolding begin
begin_body filename linenum s no_body = (
  s,
  report filename linenum "readability/fn_size" 5
        (codes "Lint failed to find start of function body.")
      ∷ [],
)
begin_body filename linenum s declared = (s, [])
begin_body filename linenum s (body_of name) = (begin name s, [])

-- CheckForFunctionLengths, with the verbosity of the module
unfoldable pub check_for_function_lengths :
    Text → ℕ → CleansedLines → ℕ → FunctionState → Option (FunctionState × List Report)
unfolding starting_func find_body begin_body starts check count_line end_function
check_for_function_lengths filename verbose_level clean_lines linenum s =
    get_elem? clean_lines.lines linenum >>= λ line.
    if starting_func line
    then (find_body line [] (drop linenum (take clean_lines.num_lines clean_lines.lines))
        >>= λ body. some (begin_body filename linenum s body))
    else if starts function_end line
    then some (end_function s, check filename linenum verbose_level s)
    else if starts blank_line line
    then some (s, [])
    else some (count_line s, [])
