-- ===== src/Nesting/Blocks/Returns.antt =====
-- CheckBegin and CheckEnd return on the lines of a file, and their reports are about lines of the file.
use falcon_link.Prelude.{
  ℕ, zero, suc, ◌+◌, ◌-◌, ◌≤◌, ◌<◌, ◌≡◌, refl, inl, inr, Bool, true, false, not, ◌&&◌, ◌||◌, some,
  List, [], ◌∷◌, ◌++◌, arith, text_eq, Text, ltb, ◌==◌, if◌then◌else◌, Bool-cases, Option-cases,
  length, get_elem?, All, All-append, get_elem?-some,
}
use falcon_link.Regex.{search_in, match_start}
use falcon_link.Nolint.{matches}
use falcon_link.RawStrings.{group_text}
use falcon_link.Report.{Report}
use falcon_link.CleansedLines.{CleansedLines}
use falcon_link.CleansedLines.Copies.{SameLengths}
use falcon_link.Nesting.{
  Block, Kind, ClassInfo, plain, extern_c, class_info, namespace_info, incomplete,
  incomplete_blocks, new_class, class_block,
}
use falcon_link.Nesting.Blocks.{
  check_begin_of, check_end_of, check_begin, bare_colon, disallow, blank_pattern, check_disallow,
  lines_down, closing_indent, check_indent, check_end_class, starts, named_namespace,
  unnamed_namespace, anonymous, any_namespace, check_end_comment, check_end_namespace, check_end,
}

-- The block begins on a line of the file, and so the report is about one.
abbrev pub BeginsWithin : ℕ → Block → Type 0
BeginsWithin n b = b.starting_linenum < n

abbrev pub ReportsWithin : ℕ → List Report → Type 0
ReportsWithin n reports = All (λ (r : Report). r.linenum < n) reports

lines_down-Returns :
    (n i : ℕ) (lines : List Text) (bound : ℕ)
    → 0 < length lines
    → i ≤ length lines
    → length lines ≤ bound
    → (out : List (ℕ × Text)) × (lines_down n i lines ≡ some out)
      × All (λ (item : ℕ × Text). item.0 < bound) out
unfolding lines_down
lines_down-Returns zero i lines bound some_line le most = ([], refl, tt)
lines_down-Returns (suc n) i lines bound some_line le most =
    let (line, e) = get_elem?-some lines (i - 1) (omega arith) in
    let (out, q, all_of) = lines_down-Returns n (i - 1) lines bound some_line (omega arith) most in
    ((i - 1, line) ∷ out, rw (e, q, lines_down), (omega arith, all_of))

check_disallow-ReportsWithin :
    (n : ℕ) (filename name : Text) (seen : Bool) (lines : List (ℕ × Text))
    → All (λ (item : ℕ × Text). item.0 < n) lines
    → ReportsWithin n (check_disallow filename name seen lines)
unfolding check_disallow
check_disallow-ReportsWithin n filename name seen [] h = tt
check_disallow-ReportsWithin n filename name seen ((i, line) ∷ lines) (lt, h) =
    elim (Option-cases (search_in (disallow name) line)) [
      | inl e ↦
          rw (e, check_disallow)
            (check_disallow-ReportsWithin n filename name (seen || not (matches blank_pattern line))
              lines h)
      | inr (m, e) ↦ elim (Bool-cases seen) [
        | inl t ↦ rw (e, check_disallow) (rw t (lt, tt))
        | inr f ↦ rw (e, check_disallow) (rw f tt)
      ]
    ]

check_indent-ReportsWithin :
    (n : ℕ) (filename : Text) (linenum : ℕ) (c : ClassInfo) (line : Text)
    → linenum < n
    → ReportsWithin n (check_indent filename linenum c line)
unfolding check_indent
check_indent-ReportsWithin n filename linenum c line lt =
    elim (Option-cases (match_start closing_indent line)) [
      | inl e ↦ rw (e, check_indent) tt
      | inr (m, e) ↦ elim (Bool-cases (length (group_text m 1) == c.class_indent)) [
        | inl t ↦ rw (e, check_indent) (rw t tt)
        | inr f ↦ rw (e, check_indent) (rw f (lt, tt))
      ]
    ]

one_of_four-ReportsWithin :
    (n : ℕ) (a b c d : Bool) (r1 r2 r3 : Report)
    → r1.linenum < n
    → r2.linenum < n
    → r3.linenum < n
    → ReportsWithin n (
        if a then (if b then [] else r1 ∷ []) else if c then [] else if d then r2 ∷ [] else r3 ∷ [])
one_of_four-ReportsWithin n true true c d r1 r2 r3 h1 h2 h3 = tt
one_of_four-ReportsWithin n true false c d r1 r2 r3 h1 h2 h3 = (h1, tt)
one_of_four-ReportsWithin n false b true d r1 r2 r3 h1 h2 h3 = tt
one_of_four-ReportsWithin n false b false true r1 r2 r3 h1 h2 h3 = (h2, tt)
one_of_four-ReportsWithin n false b false false r1 r2 r3 h1 h2 h3 = (h3, tt)

check_end_comment-ReportsWithin :
    (n : ℕ) (filename : Text) (linenum : ℕ) (name line : Text)
    → linenum < n
    → ReportsWithin n (check_end_comment filename linenum name line)
unfolding check_end_comment
check_end_comment-ReportsWithin n filename linenum name line lt =
    one_of_four-ReportsWithin n (not (text_eq name [])) (starts (named_namespace name) line)
      (starts unnamed_namespace line) (starts anonymous line) _ _ _ lt lt lt

module _ (lines : CleansedLines) (same : SameLengths lines) (linenum : ℕ)
    (within : linenum < lines.num_lines) where
  elided_line : (line : Text) × (get_elem? lines.elided linenum ≡ some line)
  elided_line = get_elem?-some lines.elided linenum (omega (arith, same.elided))

  raw_line : (line : Text) × (get_elem? lines.raw_lines linenum ≡ some line)
  raw_line = get_elem?-some lines.raw_lines linenum (omega (arith, same.raw_lines))

  check_begin_of-Returns :
      (b : Block) (k : Kind)
      → BeginsWithin lines.num_lines b
      → (b' : Block) × (check_begin_of lines linenum b k ≡ some b')
        × BeginsWithin lines.num_lines b'
  unfolding check_begin_of
  check_begin_of-Returns b plain h = (b, refl, h)
  check_begin_of-Returns b extern_c h = (b, refl, h)
  check_begin_of-Returns b (namespace_info name) h = (b, refl, h)
  check_begin_of-Returns b (class_info c) h =
      let (line, here) = elided_line in
      elim (Bool-cases (matches bare_colon line)) [
        | inl t ↦ (
          record b { kind = class_info (record c { is_derived = true }) },
          rw (here, check_begin_of) (rw t),
          h,
        )
        | inr f ↦ (b, rw (here, check_begin_of) (rw f), h)
      ]

  pub check_begin-Returns :
      (b : Block)
      → BeginsWithin lines.num_lines b
      → (b' : Block) × (check_begin lines linenum b ≡ some b') × BeginsWithin lines.num_lines b'
  unfolding check_begin
  check_begin-Returns b h = check_begin_of-Returns b b.kind h

  check_end_class-Returns :
      (filename : Text) (b : Block) (c : ClassInfo)
      → (out : List Report) × (check_end_class filename lines linenum b c ≡ some out)
        × ReportsWithin lines.num_lines out
  unfolding check_end_class
  check_end_class-Returns filename b c =
      let (between, e, all_of) =
        lines_down-Returns (linenum - 1 - b.starting_linenum) linenum lines.elided lines.num_lines
          (omega (arith, same.elided)) (omega (arith, same.elided)) (omega (arith, same.elided)) in
      let (line, here) = elided_line in
      (
        check_disallow filename c.name false between ++ check_indent filename linenum c line,
        rw (e, here, check_end_class),
        All-append (λ (r : Report). r.linenum < lines.num_lines)
            (check_disallow filename c.name false between) (check_indent filename linenum c line)
            (check_disallow-ReportsWithin lines.num_lines filename c.name false between all_of)
            (check_indent-ReportsWithin lines.num_lines filename linenum c line within),
      )

  check_end_namespace-Returns :
      (filename : Text) (b : Block) (name : Text)
      → (out : List Report) × (check_end_namespace filename lines linenum b name ≡ some out)
        × ReportsWithin lines.num_lines out
  unfolding check_end_namespace
  check_end_namespace-Returns filename b name =
      let (line, here) = raw_line in
      elim (Bool-cases (ltb linenum (b.starting_linenum + 10) && not (starts any_namespace line))) [
        | inl t ↦ ([], rw (here, check_end_namespace) (rw t), tt)
        | inr f ↦ (
          check_end_comment filename linenum name line,
          rw (here, check_end_namespace) (rw f),
          check_end_comment-ReportsWithin lines.num_lines filename linenum name line within,
        )
      ]

  check_end_of-Returns :
      (filename : Text) (b : Block) (k : Kind)
      → (out : List Report) × (check_end_of filename lines linenum b k ≡ some out)
        × ReportsWithin lines.num_lines out
  unfolding check_end_of
  check_end_of-Returns filename b plain = ([], refl, tt)
  check_end_of-Returns filename b extern_c = ([], refl, tt)
  check_end_of-Returns filename b (class_info c) = check_end_class-Returns filename b c
  check_end_of-Returns filename b (namespace_info name) =
      check_end_namespace-Returns filename b name

  -- The checks at the end of a block return, and each of their reports is about a line of the file.
  pub check_end-Returns :
      (filename : Text) (b : Block)
      → (out : List Report) × (check_end filename lines linenum b ≡ some out)
        × ReportsWithin lines.num_lines out
  unfolding check_end
  check_end-Returns filename b = check_end_of-Returns filename b b.kind

  -- A class is made from the raw line.
  pub new_class-Returns :
      (name key : Text)
      → (b : Block) × (new_class name key lines linenum ≡ some b) × BeginsWithin lines.num_lines b
  unfolding new_class class_block
  new_class-Returns name key =
      let (line, here) = raw_line in
      (class_block name key lines linenum line, rw (here, new_class), within)

incomplete-ReportsWithin :
    (n : ℕ) (filename : Text) (linenum : ℕ) (k : Kind)
    → linenum < n
    → ReportsWithin n (incomplete filename linenum k)
unfolding incomplete
incomplete-ReportsWithin n filename linenum plain lt = tt
incomplete-ReportsWithin n filename linenum extern_c lt = tt
incomplete-ReportsWithin n filename linenum (class_info c) lt = (lt, tt)
incomplete-ReportsWithin n filename linenum (namespace_info name) lt = (lt, tt)

-- What is left open at the end is reported at lines of the file.
pub incomplete_blocks-ReportsWithin :
    (n : ℕ) (filename : Text) (stack : List Block)
    → All (BeginsWithin n) stack
    → ReportsWithin n (incomplete_blocks filename stack)
unfolding incomplete_blocks
incomplete_blocks-ReportsWithin n filename [] h = tt
incomplete_blocks-ReportsWithin n filename (b ∷ stack) (lt, h) =
    All-append (λ (r : Report). r.linenum < n) (incomplete_blocks filename stack)
      (incomplete filename b.starting_linenum b.kind)
      (incomplete_blocks-ReportsWithin n filename stack h)
      (incomplete-ReportsWithin n filename b.starting_linenum b.kind lt)
