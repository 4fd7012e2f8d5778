-- ===== src/Checks.antt =====
-- Checks of the lines of a file (build_support/cpplint.py), one module for each group of them. A check
-- gives the calls of the error handler in their order; `none` is an exception. Here: the shorthands
-- that they share, and CheckForNewlineAtEOF.
pub mod Calls
pub mod Lengths
pub mod Comments
pub mod Spacing
pub mod Operators
pub mod Parentheses
pub mod Namespaces
pub mod Width
pub mod Sections
pub mod Initializers
pub mod Braces
pub mod Semicolons
pub mod Bodies
pub mod Operands
pub mod Macros
pub mod Tokens
pub mod Style
use falcon_link.Prelude.{
  ◌+◌, ◌-◌, ◌*◌, ◌/◌, ◌%◌, ◌^◌, ◌≤◌, ◌<◌, ◌≡◌, ◌∙◌, ◌≡⟨◌⟩◌, ◌∎, ◌≢◌, ◌↔◌, ◌⊎◌, Bool, true, false,
  not, ◌&&◌, ◌||◌, none, List, [], ◌∷◌, ◌++◌, codes, text_eq, find, Text, ltb, ◌==◌, if◌then◌else◌,
  length,
}
use falcon_link.Report.{Report, report}

-- `if b: error(...)`
abbrev pub when : Bool → Report → List Report
when true r = r ∷ []
when false r = []

-- lines[-2], of two lines or more
abbrev pub last_but_one : List Text → Text
last_but_one [] = []
last_but_one (a ∷ []) = []
last_but_one (a ∷ b ∷ []) = a
last_but_one (a ∷ b ∷ c ∷ lines) = last_but_one (b ∷ c ∷ lines)

-- CheckForNewlineAtEOF; it is called with two lines or more.
unfoldable pub check_for_newline_at_eof : Text → List Text → List Report
unfolding text_eq
check_for_newline_at_eof filename lines =
    when (ltb (length lines) 3 || not (text_eq (last_but_one lines) [])) (
      report filename (length lines - 2) "whitespace/ending_newline" 5
        (codes "Could not find a newline character at the end of the file."))
