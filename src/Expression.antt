-- ===== src/Expression.antt =====
-- Matching parentheses (build_support/cpplint.py): FindEndOfExpressionInLine, CloseExpression,
-- FindStartOfExpressionInLine and ReverseCloseExpression. A stack has its top first. An index out of
-- range, an IndexError, is `none`.
pub mod Bounds
pub mod Balanced
pub mod Inverse
pub mod Progress
use falcon_link.Prelude.{
  ℕ, zero, suc, ◌+◌, ◌-◌, ◌*◌, ◌/◌, ◌%◌, ◌^◌, ◌≤◌, ◌<◌, ◌≡◌, ◌∙◌, ◌≡⟨◌⟩◌, ◌∎, ◌≢◌, ◌↔◌, ◌⊎◌, Bool,
  true, false, not, ◌&&◌, ◌||◌, Option, none, some, List, [], ◌∷◌, ◌++◌, reverse, find, Text, ltb,
  ◌==◌, if◌then◌else◌, length, get_elem?, get_or, take, drop,
}
use falcon_link.Regex.{
  Regex, one, one_of, word, boundary, star, space, finish, ◌▸◌, match_start, search_in,
}
use falcon_link.CleansedLines.{CleansedLines}

-- What a scan of a line says: the index, (-1, None), or (-1, stack).
pub data Scan : Type 0 where
  at_index : ℕ → Scan
  unclosed : Scan
  pending : List ℕ → Scan

-- One letter: the scan ends, goes on, or goes on past the next letter too.
pub data Step : Type 0 where
  stop : Scan → Step
  go : List ℕ → Step
  go_twice : List ℕ → Step

abbrev pub is_open : ℕ → Bool
is_open c = c == b'(' || c == b'[' || c == b'{'

abbrev pub is_close : ℕ → Bool
is_close c = c == b')' || c == b']' || c == b'}'

-- The two letters are a pair of parentheses.
abbrev pub is_pair : ℕ → ℕ → Bool
is_pair o c = (o == b'(' && c == b')') || (o == b'[' && c == b']') || (o == b'{' && c == b'}')

-- \boperator\s*$
pub operator_end : Regex
unfolding word
operator_end = boundary ▸ word "operator" ▸ star space ▸ finish

-- The text, given backwards, ends in `operator`.
unfoldable pub ends_operator : Text → Bool
unfolding search_in operator_end
ends_operator before = elim (search_in operator_end (reverse before)) [
  | some _ ↦ true
  | none ↦ false
]

-- `while stack and stack[-1] == a: stack.pop()`
unfoldable pub pop_all : ℕ → List ℕ → List ℕ
pop_all a [] = []
pop_all a (s ∷ stack) = let rest = pop_all a stack in if s == a then rest else s ∷ stack

-- A pop after which an empty stack ends the scan.
pub popped : Scan → List ℕ → Step
popped s [] = stop s
popped s (t ∷ stack) = go (t ∷ stack)

pub close_bracket : ℕ → ℕ → List ℕ → Step
unfolding popped
close_bracket c i [] = stop unclosed
close_bracket c i (s ∷ stack) =
    if is_pair s c then popped (at_index (i + 1)) stack else stop unclosed

-- `<` behind another one: a shift operator
pub shift_left : List ℕ → Step
unfolding popped
shift_left [] = go []
shift_left (s ∷ stack) = if s == b'<' then popped unclosed stack else go (s ∷ stack)

pub close_angle : ℕ → List ℕ → Step
unfolding popped
close_angle i [] = go []
close_angle i (s ∷ stack) = if s == b'<' then popped (at_index (i + 1)) stack else go (s ∷ stack)

-- `line[i - 1] == c`, where `before` is `line[0:i]` backwards
abbrev pub previous_is : ℕ → Text → Bool
previous_is c [] = false
previous_is c (p ∷ before) = p == c

-- The body of the loop of FindEndOfExpressionInLine; `before` is `line[0:i]` backwards.
unfoldable pub end_step : Text → ℕ → ℕ → List ℕ → Step
unfolding ends_operator pop_all popped close_bracket shift_left close_angle
end_step before c i stack =
    if is_open c
    then go (c ∷ stack)
    else if c == b'<'
    then (if previous_is b'<' before
        then shift_left stack
        else if ltb 0 i && ends_operator before
        then go stack
        else go (b'<' ∷ stack))
    else if is_close c
    then close_bracket c i (pop_all b'<' stack)
    else if c == b'>'
    then (if ltb 0 i && (previous_is b'-' before || ends_operator (drop 1 before))
        then go stack
        else close_angle i stack)
    else if c == b';'
    then popped unclosed (pop_all b'<' stack)
    else go stack

unfoldable pub scan_end : Text → Text → ℕ → List ℕ → Scan
unfolding end_step
scan_end before [] i stack = pending stack
scan_end before (c ∷ rest) i stack = elim (end_step before c i stack) [
  | stop s ↦ s
  | go next ↦ scan_end (c ∷ before) rest (i + 1) next
  | go_twice next ↦ scan_end (c ∷ before) rest (i + 1) next
]

-- FindEndOfExpressionInLine
unfoldable pub find_end_of_expression_in_line : Text → ℕ → List ℕ → Scan
unfolding scan_end
find_end_of_expression_in_line line startpos stack =
    scan_end (reverse (take startpos line)) (drop startpos line) startpos stack

-- The loop over the lines behind `linenum`; the index `none` is -1.
unfoldable pub close_forward : ℕ → List Text → Text → ℕ → List ℕ → Text × ℕ × Option ℕ
unfolding find_end_of_expression_in_line
close_forward total [] line linenum stack = (line, total, none)
close_forward total (next ∷ lines) line linenum [] = (line, total, none)
close_forward total (next ∷ lines) line linenum (s ∷ stack) =
    elim (find_end_of_expression_in_line next 0 (s ∷ stack)) [
      | at_index end_pos ↦ (next, linenum + 1, some end_pos)
      | unclosed ↦ (next, total, none)
      | pending rest ↦ close_forward total lines next (linenum + 1) rest
    ]

-- <[<=]
pub shift_or_le : Regex
unfolding one_of
shift_or_le = one b'<' ▸ one_of "<="

pub is_shift_or_le : Text → Bool
unfolding match_start shift_or_le
is_shift_or_le t = elim (match_start shift_or_le t) [ some _ ↦ true | none ↦ false ]

pub close_at : CleansedLines → ℕ → ℕ → Text → ℕ → Text × ℕ × Option ℕ
unfolding find_end_of_expression_in_line close_forward is_shift_or_le
close_at lines linenum pos line c =
    if not (is_open c || c == b'<') || is_shift_or_le (drop pos line)
    then (line, lines.num_lines, none)
    else elim (find_end_of_expression_in_line line pos []) [
      | at_index end_pos ↦ (line, linenum, some end_pos)
      | unclosed ↦ (line, lines.num_lines, none)
      | pending stack ↦
          close_forward lines.num_lines (drop (linenum + 1) lines.elided) line linenum stack
    ]

-- CloseExpression: the line, its number, and the position behind the closing parenthesis, -1 if none
unfoldable pub close_expression : CleansedLines → ℕ → ℕ → Option (Text × ℕ × Option ℕ)
unfolding close_at
close_expression lines linenum pos = elim (get_elem? lines.elided linenum) [
  | none ↦ none
  | some line ↦ elim (get_elem? line pos) [
    | none ↦ none
    | some c ↦ some (close_at lines linenum pos line c)
  ]
]

-- \s>=\s
pub spaced_ge : Regex
unfolding word
spaced_ge = space ▸ word ">=" ▸ space

-- The `>` at this place is that of `->`, of ` >= ` or of `operator>`.
pub is_no_angle : Text → Text → Bool
unfolding match_start spaced_ge ends_operator
is_no_angle [] after = false
is_no_angle (p ∷ before) after =
    p == b'-'
    || elim (match_start spaced_ge (p ∷ b'>' ∷ after)) [ some _ ↦ true | none ↦ false ]
    || ends_operator (p ∷ before)

pub open_bracket : ℕ → ℕ → List ℕ → Step
unfolding popped
open_bracket c i [] = stop unclosed
open_bracket c i (s ∷ stack) = if is_pair c s then popped (at_index i) stack else stop unclosed

pub open_angle : ℕ → List ℕ → Step
unfolding popped
open_angle i [] = go []
open_angle i (s ∷ stack) = if s == b'>' then popped (at_index i) stack else go (s ∷ stack)

-- The body of the loop of FindStartOfExpressionInLine: `before` is `line[0:i]` backwards, `after` is
-- `line[i + 1:]`.
unfoldable pub start_step : Text → ℕ → Text → ℕ → List ℕ → Step
unfolding pop_all popped is_no_angle open_bracket open_angle
start_step before c after i stack =
    if is_close c
    then go (c ∷ stack)
    else if c == b'>'
    then (if is_no_angle before after then go_twice stack else go (b'>' ∷ stack))
    else if c == b'<'
    then (if previous_is b'<' before then go_twice stack else open_angle i stack)
    else if is_open c
    then open_bracket c i (pop_all b'>' stack)
    else if c == b';'
    then popped unclosed (pop_all b'>' stack)
    else go stack

-- The loop, over `line[0:i + 1]` backwards.
unfoldable pub scan_start : Text → Text → List ℕ → Scan
unfolding start_step
scan_start [] after stack = pending stack
scan_start (c ∷ []) after stack = elim (start_step [] c after 0 stack) [
  | stop s ↦ s
  | go next ↦ pending next
  | go_twice next ↦ pending next
]
scan_start (c ∷ d ∷ before) after stack =
    elim (start_step (d ∷ before) c after (length before + 1) stack) [
      | stop s ↦ s
      | go next ↦ scan_start (d ∷ before) (c ∷ after) next
      | go_twice next ↦ scan_start before (d ∷ c ∷ after) next
    ]

-- FindStartOfExpressionInLine, with the number of letters from the beginning up to `endpos`
unfoldable pub find_start_of_expression_in_line : Text → ℕ → List ℕ → Scan
unfolding scan_start
find_start_of_expression_in_line line letters stack =
    scan_start (reverse (take letters line)) (drop letters line) stack

-- The loop over the lines before `linenum`.
unfoldable pub close_backward : List Text → Text → ℕ → List ℕ → Text × ℕ × Option ℕ
unfolding find_start_of_expression_in_line
close_backward elided line zero stack = (line, 0, none)
close_backward elided line (suc linenum) [] = (line, 0, none)
close_backward elided line (suc linenum) (s ∷ stack) =
    let previous = get_or elided linenum [] in
    elim (find_start_of_expression_in_line previous (length previous) (s ∷ stack)) [
      | at_index start_pos ↦ (previous, linenum, some start_pos)
      | unclosed ↦ (previous, 0, none)
      | pending rest ↦ close_backward elided previous linenum rest
    ]

pub reverse_close_at : CleansedLines → ℕ → ℕ → Text → ℕ → Text × ℕ × Option ℕ
unfolding find_start_of_expression_in_line close_backward
reverse_close_at lines linenum pos line c =
    if not (is_close c || c == b'>')
    then (line, 0, none)
    else elim (find_start_of_expression_in_line line (pos + 1) []) [
      | at_index start_pos ↦ (line, linenum, some start_pos)
      | unclosed ↦ (line, 0, none)
      | pending stack ↦ close_backward lines.elided line linenum stack
    ]

-- ReverseCloseExpression
unfoldable pub reverse_close_expression : CleansedLines → ℕ → ℕ → Option (Text × ℕ × Option ℕ)
unfolding reverse_close_at
reverse_close_expression lines linenum pos = elim (get_elem? lines.elided linenum) [
  | none ↦ none
  | some line ↦ elim (get_elem? line pos) [
    | none ↦ none
    | some c ↦ some (reverse_close_at lines linenum pos line c)
  ]
]
