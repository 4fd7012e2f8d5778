-- ===== src/Examples/Layout.antt =====
-- Checks of braces and spaces on lines of C++ code.
use falcon_link.Regex.{search_in, group_of}
use falcon_link.Prelude.{
  ◌≡◌, refl, some, List, [], ◌∷◌, codes, text_eq, find, count, is_space, Text, leb, ◌==◌,
}
use falcon_link.Report.{report}
use falcon_link.CleansedLines.{CleansedLines}
use falcon_link.Checks.Width.{Unicode, get_line_width}
use falcon_link.Checks.Calls.{
  check_spacing_for_function_call, if_call, for_call, while_call, switch_call, control_words,
  function_pointer, array_pointer, space_after_call, space_before_paren, space_before_closing,
}
use falcon_link.Checks.Comments.{
  check_comment, escaped, brace_comment, todo, letter_comment, doxygen,
}
use falcon_link.Checks.Parentheses.{
  check_parenthesis_spacing, check_comma_spacing, operator_comma, tight_comma, tight_semicolon,
  word_paren, control_spaces,
}
use falcon_link.Checks.Braces.{
  check_braces, only_opening, else_line_start, else_if, if_or_else, open_ended, preprocessor_line,
  brace_else_end, else_brace, else_code, do_code, if_start, only_closing_brace, opening_next,
}
use falcon_link.Checks.Bodies.{check_empty_block_body, loop_start}

abbrev source : List Text
source =
    codes ""
    ∷ codes "void f(int a,int b)"
    ∷ codes "{"
    ∷ codes "  if(a) {"
    ∷ codes "    g( b);"
    ∷ codes "  }"
    ∷ codes "  else {"
    ∷ codes "    for (;;);"
    ∷ codes "    int c{1};"
    ∷ []

abbrev copies : CleansedLines
copies = record {
  elided = source;
  lines = source;
  raw_lines = source;
  num_lines = 9;
  lines_without_raw_strings = source;
}

abbrev file : Text
file = codes "a.cc"

-- Two letters from U+4E00 on are as wide as four.
abbrev unicode : Unicode
unicode = record { normalize = λ t. t; is_wide = λ c. leb 19968 c; is_combining = λ c. c == 769 }

width : get_line_width unicode (19968 ∷ 101 ∷ 769 ∷ 19969 ∷ []) ≡ 5
unfolding get_line_width
width = refl

comma_reported :
    check_comma_spacing file copies 1
    ≡ some (report file 1 "whitespace/comma" 3 (codes "Missing space after ,") ∷ [])
unfolding check_comma_spacing codes is_space text_eq search_in operator_comma tight_comma
    tight_semicolon
comma_reported = refl

brace_reported :
    check_braces (get_line_width unicode) 80 file copies 2
    ≡ some (
        report file 2 "whitespace/braces" 4
          (codes "{ should almost always be at the end of the previous line")
        ∷ [])
unfolding check_braces get_line_width codes is_space text_eq only_opening else_line_start else_if
    if_or_else open_ended preprocessor_line brace_else_end else_brace else_code do_code
brace_reported = refl

condition_reported :
    check_parenthesis_spacing file copies 3
    ≡ some (report file 3 "whitespace/parens" 5 (codes "Missing space before ( in if(") ∷ [])
unfolding check_parenthesis_spacing codes is_space text_eq word_paren group_of control_spaces
condition_reported = refl

call_reported :
    check_spacing_for_function_call file copies 4
    ≡ some (report file 4 "whitespace/parens" 4 (codes "Extra space after ( in function call") ∷ [])
unfolding check_spacing_for_function_call codes is_space text_eq if_call for_call while_call
    switch_call control_words function_pointer array_pointer space_after_call space_before_paren
    space_before_closing
call_reported = refl

else_reported :
    check_braces (get_line_width unicode) 80 file copies 6
    ≡ some (
        report file 6 "whitespace/newline" 4
          (codes "An else should appear on the same line as the preceding }")
        ∷ report file 6 "readability/braces" 5
            (codes "If an else has a brace on one side, it should have it on both")
        ∷ [])
unfolding check_braces get_line_width codes is_space text_eq only_opening else_line_start else_if
    if_or_else preprocessor_line if_start only_closing_brace brace_else_end else_brace else_code
    do_code opening_next
else_reported = refl

empty_loop_reported :
    check_empty_block_body file copies 7
    ≡ some (
        report file 7 "whitespace/empty_loop_body" 5
          (codes "Empty loop bodies should use {} or continue")
        ∷ [])
unfolding check_empty_block_body codes is_space text_eq find loop_start group_of
empty_loop_reported = refl

comment_reported :
    check_comment (codes "f(); //x") file 1 1
    ≡ report file 1 "whitespace/comments" 2
        (codes "At least two spaces is best between code and comments")
      ∷ report file 1 "whitespace/comments" 4 (codes "Should have a space between // and comment")
      ∷ []
unfolding check_comment codes is_space text_eq find count escaped brace_comment todo letter_comment
    doxygen
comment_reported = refl
