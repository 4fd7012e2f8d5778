-- ===== src/Checks/Operators.antt =====
-- CheckOperatorSpacing (build_support/cpplint.py).
pub mod Hidden
pub mod Returns
use falcon_link.Prelude.{
  ℕ, zero, suc, ◌+◌, ◌-◌, ◌*◌, ◌/◌, ◌%◌, ◌^◌, ◌≤◌, ◌<◌, ◌≡◌, ◌∙◌, ◌≡⟨◌⟩◌, ◌∎, ◌≢◌, ◌↔◌, ◌⊎◌, Bool,
  true, false, not, ◌&&◌, ◌||◌, Option, none, some, List, [], ◌∷◌, ◌++◌, map, reverse, all, codes,
  text_eq, is_space, Text, leb, ◌==◌, if◌then◌else◌, length, get_elem?, take,
}
use falcon_link.Prelude.Options.{◌>>=◌}
use falcon_link.Regex.{
  Regex, empty, letter, seq, alt, star, lazy, group, start, finish, boundary, ahead, not_ahead,
  Found, match_start, search_in, group_of, remove_all, contains, word_of, word, one, one_of,
  none_of, dot, space, non_space, word_letter, digit, plus, opt, ◌▸◌, ◌∣◌, is_word, is_digit,
}
use falcon_link.Report.{Report, report}
use falcon_link.Nolint.{matches}
use falcon_link.Nesting.Blocks.{starts}
use falcon_link.RawStrings.{group_text}
use falcon_link.CleansedLines.{CleansedLines}
use falcon_link.Expression.{close_expression, reverse_close_expression}
use falcon_link.Checks.{when}

-- ^(.*\boperator\b)(\S+)(\s*\(.*)$
unfoldable pub operator_call : Regex
unfolding word
operator_call =
    start
    ▸ group 1 (star dot ▸ boundary ▸ word "operator" ▸ boundary)
    ▸ group 2 (plus non_space)
    ▸ group 3 (star space ▸ one b'(' ▸ star dot)
    ▸ finish

-- The loop that hides the names of operator methods; each round takes letters that are not `_`, so
-- that the letters of the line are fuel enough. `none` is fuel that ran out.
unfoldable pub hide_operators : ℕ → Text → Option Text
unfolding match_start
hide_operators zero line = none
hide_operators (suc fuel) line = elim (match_start operator_call line) [
  | none ↦ some line
  | some m ↦
      hide_operators fuel (group_text m 1 ++ (map (λ c. b'_') (group_text m 2) ++ group_text m 3))
]

-- [\w.]=
unfoldable pub assign_behind : Regex
assign_behind = letter (λ c. is_word c || c == b'.') ▸ one b'='

-- =[\w.]
unfoldable pub assign_before : Regex
assign_before = one b'=' ▸ letter (λ c. is_word c || c == b'.')

-- \b(if|while|for)
unfoldable pub condition_word : Regex
unfolding word
condition_word = boundary ▸ group 1 (word "if" ∣ word "while" ∣ word "for") ▸ one b' '

-- (>=|<=|==|!=|&=|\^=|\|=|\+=|\*=|\/=|\%=)
unfoldable pub assign_operators : Regex
unfolding word
assign_operators = group 1 (
    word ">="
    ∣ word "<="
    ∣ word "=="
    ∣ word "!="
    ∣ word "&="
    ∣ word "^="
    ∣ word "|="
    ∣ word "+="
    ∣ word "*="
    ∣ word "/="
    ∣ word "%=")

-- operator=
unfoldable pub operator_assign : Regex
unfolding word
operator_assign = word "operator="

-- [^<>=!\s](==|!=|<=|>=|\|\|)[^<>=!\s,;\)]
unfoldable pub tight_comparison : Regex
unfolding word
tight_comparison =
    letter (λ c. not (is_space c || c == b'<' || c == b'>' || c == b'=' || c == b'!'))
    ▸ group 1 (word "==" ∣ word "!=" ∣ word "<=" ∣ word ">=" ∣ word "||")
    ▸ letter (λ c. not (
        is_space c
        || c == b'<'
        || c == b'>'
        || c == b'='
        || c == b'!'
        || c == b','
        || c == b';'
        || c == b')'))

-- #.*include
unfoldable pub include_directive : Regex
unfolding word
include_directive = one b'#' ▸ star dot ▸ word "include"

-- ^(.*[^\s<])<[^\s=<,]
unfoldable pub tight_less : Regex
tight_less =
    start
    ▸ group 1 (star dot ▸ letter (λ c. not (is_space c || c == b'<')))
    ▸ one b'<'
    ▸ letter (λ c. not (is_space c || c == b'=' || c == b'<' || c == b','))

-- ^(.*[^-\s>])>[^\s=>,]
unfoldable pub tight_greater : Regex
tight_greater =
    start
    ▸ group 1 (star dot ▸ letter (λ c. not (is_space c || c == b'-' || c == b'>')))
    ▸ one b'>'
    ▸ letter (λ c. not (is_space c || c == b'=' || c == b'>' || c == b','))

-- (operator|[^\s(<])(?:L|UL|LL|ULL|l|ul|ll|ull)?<<([^\s,=<])
unfoldable pub tight_shift_left : Regex
unfolding word
tight_shift_left =
    group 1 (word "operator" ∣ letter (λ c. not (is_space c || c == b'(' || c == b'<')))
    ▸ opt (
        one b'L'
        ∣ word "UL"
        ∣ word "LL"
        ∣ word "ULL"
        ∣ one b'l'
        ∣ word "ul"
        ∣ word "ll"
        ∣ word "ull")
    ▸ word "<<"
    ▸ group 2 (letter (λ c. not (is_space c || c == b',' || c == b'=' || c == b'<')))

-- >>[a-zA-Z_]
unfoldable pub tight_shift_right : Regex
unfolding word
tight_shift_right =
    word ">>" ▸ letter (λ c. (leb b'a' c && leb c b'z') || (leb b'A' c && leb c b'Z') || c == b'_')

-- (!\s|~\s|[\s]--[\s;]|[\s]\+\+[\s;])
unfoldable pub spaced_unary : Regex
unfolding word
spaced_unary = group 1 (
    one b'!' ▸ space
    ∣ one b'~' ▸ space
    ∣ letter (λ c. is_space c) ▸ word "--" ▸ letter (λ c. is_space c || c == b';')
    ∣ letter (λ c. is_space c) ▸ word "++" ▸ letter (λ c. is_space c || c == b';'))

unfoldable pub assign_reports : Text → ℕ → Text → List Report
unfolding matches
assign_reports filename linenum line =
    when
      ((matches assign_behind line || matches assign_before line)
        && not (matches condition_word line)
        && not (matches assign_operators line)
        && not (matches operator_assign line))
      (report filename linenum "whitespace/operators" 4 (codes "Missing spaces around ="))

-- A position of None is -1.
pub missing : Option ℕ → Bool
missing none = true
missing (some p) = false

-- A `<` with no spaces that is not closed.
unfoldable pub less_reports : Text → CleansedLines → ℕ → Text → Option (List Report)
unfolding match_start close_expression missing
less_reports filename clean_lines linenum line = elim (match_start tight_less line) [
  | none ↦ some []
  | some m ↦ close_expression clean_lines linenum (length (group_text m 1)) >>= λ r. some (
      when (missing r.2)
        (report filename linenum "whitespace/operators" 3 (codes "Missing spaces around <")))
]

-- A `>` with no spaces that is not opened.
unfoldable pub greater_reports : Text → CleansedLines → ℕ → Text → Option (List Report)
unfolding match_start reverse_close_expression missing
greater_reports filename clean_lines linenum line = elim (match_start tight_greater line) [
  | none ↦ some []
  | some m ↦ reverse_close_expression clean_lines linenum (length (group_text m 1)) >>= λ r. some (
      when (missing r.2)
        (report filename linenum "whitespace/operators" 3 (codes "Missing spaces around >")))
]

unfoldable pub comparison_reports : Text → CleansedLines → ℕ → Text → Option (List Report)
unfolding search_in starts less_reports greater_reports
comparison_reports filename clean_lines linenum line = elim (search_in tight_comparison line) [
  | some m ↦ some (
      report filename linenum "whitespace/operators" 3
        (codes "Missing spaces around " ++ group_text m 1)
      ∷ [])
  | none ↦
      if starts include_directive line
      then some []
      else less_reports filename clean_lines linenum line >>= λ less.
          greater_reports filename clean_lines linenum line >>= λ greater. some (less ++ greater)
]

-- t.isdigit()
pub is_number : Text → Bool
unfolding all is_digit text_eq
is_number t = not (text_eq t []) && all is_digit t

unfoldable pub shift_reports : Text → ℕ → Text → List Report
unfolding search_in is_number text_eq matches
shift_reports filename linenum line =
    elim (search_in tight_shift_left line) [
      | none ↦ []
      | some m ↦
          when
            (not (is_number (group_text m 1) && is_number (group_text m 2))
              && not (
                  text_eq (group_text m 1) (codes "operator")
                  && text_eq (group_text m 2) (codes ";")))
            (report filename linenum "whitespace/operators" 3 (codes "Missing spaces around <<"))
    ]
    ++ when (matches tight_shift_right line)
        (report filename linenum "whitespace/operators" 3 (codes "Missing spaces around >>"))

unfoldable pub unary_reports : Text → ℕ → Text → List Report
unfolding search_in
unary_reports filename linenum line = elim (search_in spaced_unary line) [
  | none ↦ []
  | some m ↦
      report filename linenum "whitespace/operators" 4
        (codes "Extra space for operator " ++ group_text m 1)
      ∷ []
]

-- CheckOperatorSpacing
unfoldable pub check_operator_spacing : Text → CleansedLines → ℕ → Option (List Report)
unfolding hide_operators assign_reports comparison_reports shift_reports unary_reports
check_operator_spacing filename clean_lines linenum =
    get_elem? clean_lines.elided linenum >>= λ elided.
    hide_operators (length elided + 1) elided >>= λ line.
    comparison_reports filename clean_lines linenum line >>= λ comparisons. some (
      assign_reports filename linenum line
      ++ (comparisons
          ++ (shift_reports filename linenum line ++ unary_reports filename linenum line)))
