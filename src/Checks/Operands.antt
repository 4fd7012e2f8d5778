-- ===== src/Checks/Operands.antt =====
-- The expression of CheckCheck (build_support/cpplint.py) and its operands.
use falcon_link.Prelude.{
  ℕ, zero, suc, Bool, ◌||◌, Option, none, some, [], ◌∷◌, ◌++◌, any, codes, text_eq, Text,
  if◌then◌else◌, take, drop,
}
use falcon_link.Regex.{
  Regex, star, group, start, finish, match_start, word, one, none_of, dot, space, non_space, plus,
  ◌▸◌, ◌∣◌,
}
use falcon_link.RawStrings.{group_text}
use falcon_link.Expression.{at_index, unclosed, pending, find_end_of_expression_in_line}

-- ^\s*(<<|<<=|>>|>>=|->\*|->|&&|\|\||==|!=|>=|>|<=|<|\()(.*)$
unfoldable pub operand_operator : Regex
unfolding word
operand_operator =
    start
    ▸ star space
    ▸ group 1 (
        word "<<"
        ∣ word "<<="
        ∣ word ">>"
        ∣ word ">>="
        ∣ word "->*"
        ∣ word "->"
        ∣ word "&&"
        ∣ word "||"
        ∣ word "=="
        ∣ word "!="
        ∣ word ">="
        ∣ one b'>'
        ∣ word "<="
        ∣ one b'<'
        ∣ one b'(')
    ▸ group 2 (star dot)
    ▸ finish

-- ^([^-=!<>()&|]+)(.*)$
unfoldable pub operand_text : Regex
unfolding none_of
operand_text = start ▸ group 1 (plus (none_of "-=!<>()&|")) ▸ group 2 (star dot) ▸ finish

-- ^(\s*\S)(.*)$
unfoldable pub operand_letter : Regex
operand_letter = start ▸ group 1 (star space ▸ non_space) ▸ group 2 (star dot) ▸ finish

-- The parts of the expression: lhs, operator and rhs; the first constructor is an early return.
pub data Parts : Type 0 where
  unfit : Parts
  parts : Text → Option Text → Text → Parts

-- A parenthesised operand: what is added to lhs, and the rest.
unfoldable pub parenthesised : Text → Option (Text × Text)
unfolding find_end_of_expression_in_line
parenthesised expression = elim (find_end_of_expression_in_line expression 0 (b'(' ∷ [])) [
  | at_index e ↦ some (codes "(" ++ take e expression, drop e expression)
  | unclosed ↦ none
  | pending stack ↦ none
]

unfoldable pub is_logical : Text → Bool
unfolding text_eq
is_logical token = text_eq token (codes "&&") || text_eq token (codes "||")

unfoldable pub is_other_operator : Text → Bool
unfolding any text_eq
is_other_operator token =
    any (text_eq token)
      (codes "<<" ∷ codes "<<=" ∷ codes ">>" ∷ codes ">>=" ∷ codes "->*" ∷ codes "->" ∷ [])

-- The operand with no operator before it: its text, and the rest.
unfoldable pub plain_operand : Text → Option (Text × Text)
unfolding match_start
plain_operand expression = elim (match_start operand_text expression) [
  | some m ↦ some (group_text m 1, group_text m 2)
  | none ↦ elim (match_start operand_letter expression) [
    | some m ↦ some (group_text m 1, group_text m 2)
    | none ↦ none
  ]
]

-- The loop, with the lhs so far. Each round takes a letter, so that the letters of the expression are
-- fuel enough; `none` is fuel that ran out.
unfoldable pub parse_expression : ℕ → Text → Text → Option Parts
unfolding text_eq match_start parenthesised is_logical is_other_operator plain_operand
parse_expression zero lhs expression = none
parse_expression (suc fuel) lhs expression =
    if text_eq expression []
    then some (parts lhs none [])
    else elim (match_start operand_operator expression) [
      | none ↦ elim (plain_operand expression) [
        | none ↦ some (parts lhs none [])
        | some (operand, rest) ↦ parse_expression fuel (lhs ++ operand) rest
      ]
      | some m ↦
          let token = group_text m 1 in
          let go_on = parse_expression fuel (lhs ++ token) (group_text m 2) in
          if text_eq token (codes "(")
          then elim (parenthesised (group_text m 2)) as (λ o. Option Parts) [
            | none ↦ some unfit
            | some (operand, rest) ↦ parse_expression fuel (lhs ++ operand) rest
          ]
          else if is_logical token
          then some unfit
          else if is_other_operator token
          then go_on
          else some (parts lhs (some token) (group_text m 2))
    ]
