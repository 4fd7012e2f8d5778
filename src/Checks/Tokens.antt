-- ===== src/Checks/Tokens.antt =====
-- CheckAltTokens (build_support/cpplint.py).
use falcon_link.Prelude.{
  ℕ, true, false, ◌||◌, Option, none, some, List, [], ◌∷◌, ◌++◌, map, codes, find, Text,
  if◌then◌else◌, get_elem?,
}
use falcon_link.Prelude.Options.{◌>>=◌}
use falcon_link.Regex.{Regex, star, group, start, finish, ahead, word, one, one_of, space, ◌▸◌, ◌∣◌}
use falcon_link.Report.{Report, report}
use falcon_link.Nesting.Blocks.{starts}
use falcon_link.RawStrings.{group_text}
use falcon_link.CleansedLines.{CleansedLines}
use falcon_link.Regex.Replace.{find_all}
use falcon_link.Checks.Macros.{lookup_text}

abbrev pub alt_token_replacement : List (Text × Text)
alt_token_replacement =
    (codes "and", codes "&&")
    ∷ (codes "bitor", codes "|")
    ∷ (codes "or", codes "||")
    ∷ (codes "xor", codes "^")
    ∷ (codes "compl", codes "~")
    ∷ (codes "bitand", codes "&")
    ∷ (codes "and_eq", codes "&=")
    ∷ (codes "or_eq", codes "|=")
    ∷ (codes "xor_eq", codes "^=")
    ∷ (codes "not", codes "!")
    ∷ (codes "not_eq", codes "!=")
    ∷ []

-- [ =()](and|bitor|or|xor|compl|bitand|and_eq|or_eq|xor_eq|not|not_eq)(?=[ (]|$)
unfoldable pub alt_tokens : Regex
unfolding word one_of
alt_tokens =
    one_of " =()"
    ▸ group 1 (
        word "and"
        ∣ word "bitor"
        ∣ word "or"
        ∣ word "xor"
        ∣ word "compl"
        ∣ word "bitand"
        ∣ word "and_eq"
        ∣ word "or_eq"
        ∣ word "xor_eq"
        ∣ word "not"
        ∣ word "not_eq")
    ▸ ahead (one_of " (" ∣ finish)

-- ^\s*#
unfoldable pub hash_line : Regex
hash_line = start ▸ star space ▸ one b'#'

-- CheckAltTokens
unfoldable pub check_alt_tokens : Text → CleansedLines → ℕ → Option (List Report)
unfolding starts find find_all lookup_text
check_alt_tokens filename clean_lines linenum = get_elem? clean_lines.elided linenum >>= λ line.
    some (
      if starts hash_line line
        || elim (find line (codes "/*")) [ none ↦ false | some _ ↦ true ]
        || elim (find line (codes "*/")) [ none ↦ false | some _ ↦ true ]
      then []
      else map
          (λ m. report filename linenum "readability/alt_tokens" 2 (
            codes "Use operator "
            ++ (lookup_text (group_text m 1) alt_token_replacement
                ++ (codes " instead of " ++ group_text m 1))))
          (find_all alt_tokens line))
