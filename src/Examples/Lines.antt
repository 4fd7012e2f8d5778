-- ===== src/Examples/Lines.antt =====
-- Lines of C++ code: raw strings, comments, strings and parentheses.
use falcon_link.Prelude.{
  ℕ, ◌≤◌, ◌<◌, ◌≡◌, refl, ◌⊎◌, Option, some, List, [], ◌∷◌, arith, codes, text_eq, is_space, Text,
  length,
}
use falcon_link.Report.{Report}
use falcon_link.RawStrings.{cleanse_raw_strings}
use falcon_link.RawStrings.Lines.{cleanse_raw_strings-Returns}
use falcon_link.Comments.{
  cleanse_comments, remove_multi_line_comments, find_next_multi_line_comment_start,
  find_next_multi_line_comment_end, remove_range,
}
use falcon_link.Comments.MultiLine.{remove_multi_line_comments-Removed}
use falcon_link.CleansedLines.{CleansedLines, collapse_strings, cleanse_lines}
use falcon_link.CleansedLines.Collapse.{collapse_strings-length}
use falcon_link.CleansedLines.Copies.{SameLengths, cleanse_lines-SameLengths}
use falcon_link.Expression.{close_expression, reverse_close_expression}
use falcon_link.Expression.Balanced.{Balanced, nil, letter, nest}
use falcon_link.Expression.Inverse.{close_expression-reverse_close_expression, enclosed}
use falcon_link.Expression.Bounds.{close_expression-PointsInto, PointsInto}

abbrev raw_source : List Text
raw_source = codes "auto s = R\"x(a \" b" ∷ codes "  )y\" )x\";" ∷ codes "f(\"a(\", 'b'); // c" ∷ []

raw_strings :
    cleanse_raw_strings raw_source
    ≡ some (codes "auto s = \"\"" ∷ codes "  \"\";" ∷ codes "f(\"a(\", 'b'); // c" ∷ [])
unfolding cleanse_raw_strings codes is_space
raw_strings = refl

collapsed : collapse_strings (codes "f(\"a(\", 'b', 1'000)") ≡ some (codes "f(\"\", '', 1000)")
unfolding collapse_strings codes is_space text_eq
collapsed = refl

comments : cleanse_comments (codes "a /* b */ c // d") ≡ codes "a c"
unfolding cleanse_comments codes
comments = refl

abbrev commented : List Text
commented = codes "int a; " ∷ codes "/* one" ∷ codes "two */" ∷ codes "int b;" ∷ []

without_comment :
    remove_multi_line_comments (codes "a.cc") commented
    ≡ some (codes "int a; " ∷ codes "/**/" ∷ codes "/**/" ∷ codes "int b;" ∷ [], [])
unfolding remove_multi_line_comments find_next_multi_line_comment_start
    find_next_multi_line_comment_end remove_range codes is_space
without_comment = refl

cleanse_lines-SameLengths_example :
    (c : CleansedLines) × (cleanse_lines raw_source ≡ some c)
    × (c.raw_lines ≡ raw_source)
    × SameLengths c
cleanse_lines-SameLengths_example = cleanse_lines-SameLengths raw_source

cleanse_raw_strings-Returns_example :
    (out : List Text) × (cleanse_raw_strings raw_source ≡ some out)
    × (length out ≡ length raw_source)
cleanse_raw_strings-Returns_example = cleanse_raw_strings-Returns raw_source

collapse_strings-length_example :
    (out : Text) × (collapse_strings (codes "f(\"a(\", 'b', 1'000)") ≡ some out)
    × (length out ≤ length (codes "f(\"a(\", 'b', 1'000)"))
collapse_strings-length_example = collapse_strings-length (codes "f(\"a(\", 'b', 1'000)")

remove_multi_line_comments-Removed_example :
    (after : List Text) × (reports : List Report) × (remove_multi_line_comments
        (codes "a.cc")
        commented
      ≡ some (after, reports))
    × (length after ≡ length commented)
    × ((length reports ≡ 1)
        ⊎ ((reports ≡ []) × (find_next_multi_line_comment_start after 0 ≡ length after)))
remove_multi_line_comments-Removed_example =
    remove_multi_line_comments-Removed (codes "a.cc") commented

-- f(a[1], {b})
abbrev inside : Text
inside = b'a' ∷ b'[' ∷ b'1' ∷ b']' ∷ b',' ∷ b'{' ∷ b'b' ∷ b'}' ∷ []

abbrev call : Text
call = enclosed (b'f' ∷ []) b'(' inside b')' (b';' ∷ [])

abbrev one_line : CleansedLines
one_line = record {
  elided = call ∷ [];
  lines = call ∷ [];
  raw_lines = call ∷ [];
  num_lines = 1;
  lines_without_raw_strings = call ∷ [];
}

inside-Balanced : Balanced inside
inside-Balanced = letter refl (
    nest b'[' b']' (b'1' ∷ []) (b',' ∷ b'{' ∷ b'b' ∷ b'}' ∷ []) refl (letter refl nil)
      (letter refl (nest b'{' b'}' (b'b' ∷ []) [] refl (letter refl nil) nil)))

close_expression-reverse_close_expression_example :
    (close_expression one_line 0 1 ≡ some (call, 0, some 11))
    × (reverse_close_expression one_line 0 10 ≡ some (call, 0, some 1))
close_expression-reverse_close_expression_example =
    close_expression-reverse_close_expression one_line 0 (b'f' ∷ []) inside (b';' ∷ []) b'(' b')'
      refl inside-Balanced refl

-- A call that goes on in the next line.
abbrev two_lines : CleansedLines
two_lines =
    let ls = codes "f(a," ∷ codes "  b);" ∷ [] in
    record {
      elided = ls;
      lines = ls;
      raw_lines = ls;
      num_lines = 2;
      lines_without_raw_strings = ls;
    }

two_lines-SameLengths : SameLengths two_lines
two_lines-SameLengths = record {
  elided = refl;
  lines = refl;
  raw_lines = refl;
  without_raw_strings = refl;
}

one_lt_length : 1 < length (codes "f(a,")
unfolding codes
one_lt_length = omega arith

close_expression-PointsInto_example :
    (r : Text × ℕ × Option ℕ) × (close_expression two_lines 0 1 ≡ some r) × PointsInto two_lines 0 r
close_expression-PointsInto_example =
    close_expression-PointsInto two_lines 0 1 (codes "f(a,") two_lines-SameLengths refl
      one_lt_length
