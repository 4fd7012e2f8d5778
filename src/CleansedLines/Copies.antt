-- ===== src/CleansedLines/Copies.antt =====
-- The copies of a file's lines: they are made for every file, and are of one length.
use falcon_link.Prelude.{
  suc, ◌≡◌, refl, ap, ◌∙◌, some, List, [], ◌∷◌, map, Text, length, length-map,
}
use falcon_link.RawStrings.Lines.{cleanse_raw_strings-Returns}
use falcon_link.Comments.{cleanse_comments}
use falcon_link.CleansedLines.{CleansedLines, cleanse_lines, elide_lines}
use falcon_link.CleansedLines.Collapse.{collapse_strings-length}

-- All members are of the same length.
pub record SameLengths (c : CleansedLines) : Type 0 where
  pub elided : length c.elided ≡ c.num_lines
  pub lines : length c.lines ≡ c.num_lines
  pub raw_lines : length c.raw_lines ≡ c.num_lines
  pub without_raw_strings : length c.lines_without_raw_strings ≡ c.num_lines

elide_lines-Returns :
    (lines : List Text)
    → (out : List Text) × (elide_lines lines ≡ some out) × (length out ≡ length lines)
unfolding elide_lines
elide_lines-Returns [] = ([], refl, refl)
elide_lines-Returns (line ∷ lines) =
    let (e, q, le) = collapse_strings-length line in
    let (es, r, same) = elide_lines-Returns lines in
    (cleanse_comments e ∷ es, rw (q, r, elide_lines), ap suc same)

-- For every list of lines the copies are made, with no exception and with loops that end; the raw lines
-- are those given, and all four copies are as long as they are.
pub cleanse_lines-SameLengths :
    (lines : List Text)
    → (c : CleansedLines) × (cleanse_lines lines ≡ some c) × (c.raw_lines ≡ lines) × SameLengths c
unfolding cleanse_lines
cleanse_lines-SameLengths lines =
    let (without, q, same) = cleanse_raw_strings-Returns lines in
    let (elided, r, as_many) = elide_lines-Returns without in
    (
      record {
        elided = elided;
        lines = map cleanse_comments without;
        raw_lines = lines;
        num_lines = length lines;
        lines_without_raw_strings = without;
      },
      rw (q, r, cleanse_lines),
      refl,
      record {
        elided = as_many ∙ same;
        lines = length-map cleanse_comments without ∙ same;
        raw_lines = refl;
        without_raw_strings = same;
      },
    )
