-- ===== src/Checks/Comments.antt =====
-- CheckComment (build_support/cpplint.py).
use falcon_link.Prelude.{
  ℕ, ◌-◌, ◌%◌, Bool, true, false, not, ◌&&◌, ◌||◌, Option, none, some, List, [], ◌++◌, codes,
  text_eq, find, count, Text, ltb, leb, ◌==◌, if◌then◌else◌, length, get_elem?, take, drop,
}
use falcon_link.Regex.{
  Regex, star, lazy, group, start, finish, match_start, group_of, remove_all, word, one, none_of,
  dot, space, word_letter, plus, opt, ◌▸◌, ◌∣◌,
}
use falcon_link.Report.{Report, report}
use falcon_link.Nesting.Blocks.{starts}
use falcon_link.RawStrings.{group_text}
use falcon_link.Checks.{when}

-- c in string.whitespace
pub in_whitespace : ℕ → Bool
in_whitespace c = c == b' ' || (leb 9 c && leb c 13)

-- ^//(\s*)TODO(\(.+?\))?:?(\s|$)?
unfoldable pub todo : Regex
unfolding word
todo =
    start
    ▸ word "//"
    ▸ group 1 (star space)
    ▸ word "TODO"
    ▸ opt (group 2 (one b'(' ▸ dot ▸ lazy dot ▸ one b')'))
    ▸ opt (one b':')
    ▸ opt (group 3 (space ∣ finish))

-- \\.
unfoldable pub escaped : Regex
escaped = one b'\\' ▸ dot

-- ^.*{ *//
unfoldable pub brace_comment : Regex
unfolding word
brace_comment = start ▸ star dot ▸ one b'{' ▸ star (one b' ') ▸ word "//"

-- //[^ ]*\w
unfoldable pub letter_comment : Regex
unfolding word none_of
letter_comment = word "//" ▸ star (none_of " ") ▸ word_letter

-- (///|//\!)(\s+|$)
unfoldable pub doxygen : Regex
unfolding word
doxygen = group 1 (word "///" ∣ word "//!") ▸ group 2 (plus space ∣ finish)

-- `line[i]` is there and is not white space.
pub code_at : Text → ℕ → Bool
unfolding in_whitespace
code_at line i = elim (get_elem? line i) [ none ↦ false | some c ↦ not (in_whitespace c) ]

-- The distance between code and comment: one space for a new scope, and two otherwise.
unfoldable pub distance_reports : Text → ℕ → Text → ℕ → ℕ → List Report
unfolding starts code_at
distance_reports filename linenum line commentpos next_line_start =
    when
      (not (starts brace_comment line && next_line_start == commentpos)
        && ((leb 1 commentpos && code_at line (commentpos - 1))
            || (leb 2 commentpos && code_at line (commentpos - 2))))
      (report filename linenum "whitespace/comments" 2
        (codes "At least two spaces is best between code and comments"))

-- `not (group == ' ' or group == '')`, of a group that may be None
pub bad_middle : Option Text → Bool
unfolding text_eq
bad_middle none = true
bad_middle (some t) = not (text_eq t (codes " ")) && not (text_eq t [])

-- The mistakes in a TODO comment.
unfoldable pub todo_reports : Text → ℕ → Text → List Report
unfolding match_start group_of bad_middle text_eq
todo_reports filename linenum comment = elim (match_start todo comment) [
  | none ↦ []
  | some m ↦
      when (ltb 1 (length (group_text m 1)))
        (report filename linenum "whitespace/todo" 2 (codes "Too many spaces before TODO"))
      ++ (when (text_eq (group_text m 2) []) (
            report filename linenum "readability/todo" 2 (
              codes
                "Missing username in TODO; it should look like \"// TODO(my_username): Stuff.\""))
          ++ when (bad_middle (group_of m 3)) (
              report filename linenum "whitespace/todo" 2
                (codes "TODO(my_username) should be followed by a space")))
]

-- CheckComment
unfoldable pub check_comment : Text → Text → ℕ → ℕ → List Report
unfolding find count remove_all distance_reports todo_reports starts
check_comment line filename linenum next_line_start = elim (find line (codes "//")) [
  | none ↦ []
  | some commentpos ↦
      if count (remove_all escaped (take commentpos line)) (codes "\"") % 2 == 0
      then distance_reports filename linenum line commentpos next_line_start
        ++ (todo_reports filename linenum (drop commentpos line)
            ++ when
                (starts letter_comment (drop commentpos line)
                  && not (starts doxygen (drop commentpos line)))
                (report filename linenum "whitespace/comments" 4
                  (codes "Should have a space between // and comment")))
      else []
]
