-- ===== src/Examples/Checks.antt =====
-- Line checks on lines of C++ code.
use falcon_link.Regex.{group_of, is_digit}
use falcon_link.Prelude.{
  ◌≡◌, refl, some, List, [], ◌∷◌, arith, codes, text_eq, find, is_space, strip, join, Text,
}
use falcon_link.Report.{Report, report}
use falcon_link.CleansedLines.{CleansedLines, cleanse_lines}
use falcon_link.CleansedLines.Copies.{SameLengths}
use falcon_link.Checks.Operators.{
  check_operator_spacing, hide_operators, operator_call, tight_comparison, include_directive,
  tight_less, tight_greater, assign_behind, condition_word, assign_operators, operator_assign,
  tight_shift_left, tight_shift_right, spaced_unary, assign_before,
}
use falcon_link.Checks.Operators.Returns.{On, check_operator_spacing-Returns}
use falcon_link.Checks.Macros.{check_check, semicolon_behind, constant}
use falcon_link.Checks.Operands.{operand_operator, operand_text}
use falcon_link.Checks.Tokens.{check_alt_tokens, hash_line, alt_tokens}
use falcon_link.Checks.Macros.Returns.{AtMostOneOn, check_check-Returns}

abbrev source : List Text
source =
    codes "// marker"
    ∷ codes "CHECK(x == 42);"
    ∷ codes "bool operator==(T a) { b=1; }"
    ∷ codes "if (a<b) while (not c);"
    ∷ []

abbrev copies : CleansedLines
copies = record {
  elided =
      codes ""
      ∷ codes "CHECK(x == 42);"
      ∷ codes "bool operator==(T a) { b=1; }"
      ∷ codes "if (a<b) while (not c);"
      ∷ [];
  lines =
      codes ""
      ∷ codes "CHECK(x == 42);"
      ∷ codes "bool operator==(T a) { b=1; }"
      ∷ codes "if (a<b) while (not c);"
      ∷ [];
  raw_lines = source;
  num_lines = 4;
  lines_without_raw_strings = source;
}

copies-SameLengths : SameLengths copies
copies-SameLengths = record {
  elided = refl;
  lines = refl;
  raw_lines = refl;
  without_raw_strings = refl;
}

copies_made : cleanse_lines source ≡ some copies
unfolding cleanse_lines codes is_space text_eq
copies_made = refl

abbrev file : Text
file = codes "a.cc"

check_replaced :
    check_check file copies 1
    ≡ some (
        report file 1 "readability/check" 2
          (codes "Consider using CHECK_EQ instead of CHECK(a == b)")
        ∷ [])
unfolding check_check codes is_space text_eq find strip join group_of semicolon_behind
    operand_operator operand_text constant is_digit
check_replaced = refl

operator_hidden :
    hide_operators 30 (codes "bool operator==(T a) { b=1; }")
    ≡ some (codes "bool operator__(T a) { b=1; }")
unfolding hide_operators codes is_space operator_call group_of
operator_hidden = refl

assignment_reported :
    check_operator_spacing file copies 2
    ≡ some (report file 2 "whitespace/operators" 4 (codes "Missing spaces around =") ∷ [])
unfolding check_operator_spacing codes is_space text_eq operator_call group_of tight_comparison
    include_directive tight_less tight_greater assign_behind condition_word assign_operators
    operator_assign tight_shift_left tight_shift_right spaced_unary
assignment_reported = refl

less_reported :
    check_operator_spacing file copies 3
    ≡ some (report file 3 "whitespace/operators" 3 (codes "Missing spaces around <") ∷ [])
unfolding check_operator_spacing codes is_space text_eq operator_call tight_comparison
    include_directive tight_less group_of tight_greater assign_behind assign_before tight_shift_left
    tight_shift_right spaced_unary
less_reported = refl

not_reported :
    check_alt_tokens file copies 3
    ≡ some (report file 3 "readability/alt_tokens" 2 (codes "Use operator ! instead of not") ∷ [])
unfolding check_alt_tokens codes is_space text_eq find hash_line alt_tokens group_of
not_reported = refl

check_operator_spacing-Returns_example :
    (reports : List Report) × (check_operator_spacing file copies 2 ≡ some reports) × On 2 reports
check_operator_spacing-Returns_example =
    check_operator_spacing-Returns file copies 2 copies-SameLengths (omega arith)

check_check-Returns_example :
    (reports : List Report) × (check_check file copies 1 ≡ some reports) × AtMostOneOn 1 reports
check_check-Returns_example = check_check-Returns file copies 1 copies-SameLengths (omega arith)
