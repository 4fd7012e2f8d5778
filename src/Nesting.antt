-- ===== src/Nesting.antt =====
-- The blocks of NestingState (build_support/cpplint.py): _BlockInfo, _ExternCInfo, _ClassInfo and
-- _NamespaceInfo, and the questions about the stack.
pub mod Blocks
pub mod Templates
pub mod Update
pub mod Braces
pub mod Files
use falcon_link.Prelude.{
  ℕ, ◌+◌, ◌-◌, ◌*◌, ◌/◌, ◌%◌, ◌^◌, ◌≤◌, ◌<◌, ◌≡◌, ◌∙◌, ◌≡⟨◌⟩◌, ◌∎, ◌≢◌, ◌↔◌, ◌⊎◌, inl, Bool, true,
  false, ◌&&◌, ◌||◌, Option, none, some, List, [], ◌∷◌, ◌++◌, map, codes, text_eq, find, count,
  Text, ◌==◌, if◌then◌else◌, get_elem?, take, drop,
}
use mathlib.Core.Option
use falcon_link.Prelude.Int.{ℤ, pos, change, is_ℕ}
use falcon_link.Report.{Report, report}
use falcon_link.CleansedLines.{CleansedLines}
use falcon_link.FileChecks.{get_indent_level}
use falcon_link.Preprocessor.{Nesting}

-- _NO_ASM, _INSIDE_ASM, _END_ASM, _BLOCK_ASM
pub data Asm : Type 0 where
  no_asm inside_asm end_asm block_asm : Asm

-- The fields of _ClassInfo beside those of _BlockInfo.
pub record ClassInfo : Type 0 where
  pub name : Text
  pub is_derived : Bool
  pub access : Text
  pub is_struct : Bool
  pub class_indent : ℕ
  pub last_line : ℕ

-- The class of a block: _BlockInfo, _ExternCInfo, _ClassInfo, or _NamespaceInfo with its name.
pub data Kind : Type 0 where
  plain extern_c : Kind
  class_info : ClassInfo → Kind
  namespace_info : Text → Kind

pub record Block : Type 0 where
  pub starting_linenum : ℕ
  pub seen_open_brace : Bool
  pub open_parentheses : ℤ
  pub inline_asm : Asm
  pub check_namespace_indentation : Bool
  pub kind : Kind

-- _BlockInfo.__init__, for an object of the class
abbrev pub new_block : Kind → ℕ → Bool → Block
new_block kind linenum seen_open_brace = record {
  starting_linenum = linenum;
  seen_open_brace = seen_open_brace;
  open_parentheses = pos 0;
  inline_asm = no_asm;
  check_namespace_indentation = false;
  kind = kind;
}

-- _ExternCInfo.__init__
abbrev pub new_extern_c : ℕ → Block
new_extern_c linenum = new_block extern_c linenum true

-- _NamespaceInfo.__init__; the name None is the empty text
abbrev pub new_namespace : Text → ℕ → Block
new_namespace name linenum = record (new_block (namespace_info name) linenum false) {
  check_namespace_indentation = true;
}

-- The loop of _ClassInfo.__init__ over the lines from a number on: the line on which the braces are
-- even, 0 if there is none.
unfoldable pub last_line_from : ℕ → ℤ → List Text → ℕ
unfolding count
last_line_from i depth [] = 0
last_line_from i depth (line ∷ lines) =
    let depth' = change depth (count line (codes "{")) (count line (codes "}")) in
    let rest = last_line_from (i + 1) depth' lines in if is_ℕ depth' 0 then i else rest

-- _ClassInfo.__init__, with the raw line
pub class_block : Text → Text → CleansedLines → ℕ → Text → Block
unfolding get_indent_level last_line_from text_eq
class_block name class_or_struct clean_lines linenum raw =
    let is_struct = text_eq class_or_struct (codes "struct") in
    record (new_block
      (class_info (record {
        name = name;
        is_derived = false;
        access = if is_struct then codes "public" else codes "private";
        is_struct = is_struct;
        class_indent = get_indent_level raw;
        last_line =
            last_line_from linenum (pos 0)
              (drop linenum (take clean_lines.num_lines clean_lines.elided));
      }))
      linenum false) { check_namespace_indentation = true }

-- _ClassInfo.__init__; `none` is an IndexError
unfoldable pub new_class : Text → Text → CleansedLines → ℕ → Option Block
unfolding class_block
new_class name class_or_struct clean_lines linenum =
    Option.map (class_block name class_or_struct clean_lines linenum)
      (get_elem? clean_lines.raw_lines linenum)

-- NestingState. The object that `previous_stack_top` names is also the item of the stack at the
-- height `previous_at`, counted from 0 at the bottom, as long as it stands there; of its own fields
-- only the class is read through this name, and that never changes.
pub record NestingState : Type 0 where
  pub nesting : Nesting Block
  pub previous_stack_top : Option Block
  pub previous_at : Option ℕ

-- __init__; the empty list there is no block
abbrev pub new_nesting_state : NestingState
new_nesting_state = record {
  nesting = record { stack = []; pp_stack = [] };
  previous_stack_top = none;
  previous_at = none;
}

abbrev pub is_namespace : Block → Bool
is_namespace b = elim b.kind [
  | plain ↦ false
  | extern_c ↦ false
  | class_info _ ↦ false
  | namespace_info _ ↦ true
]

abbrev pub is_class : Block → Bool
is_class b = elim b.kind [
  | plain ↦ false
  | extern_c ↦ false
  | class_info _ ↦ true
  | namespace_info _ ↦ false
]

abbrev pub is_extern_c : Block → Bool
is_extern_c b = elim b.kind [
  | plain ↦ false
  | extern_c ↦ true
  | class_info _ ↦ false
  | namespace_info _ ↦ false
]

-- `self.stack and f(self.stack[-1])`
abbrev pub top_is : (Block → Bool) → List Block → Bool
top_is f [] = false
top_is f (b ∷ stack) = f b

-- SeenOpenBrace
unfoldable pub seen_open_brace : List Block → Bool
seen_open_brace [] = true
seen_open_brace (b ∷ stack) = b.seen_open_brace

-- InNamespaceBody
abbrev pub in_namespace_body : NestingState → Bool
in_namespace_body s = top_is is_namespace s.nesting.stack

-- InExternC
abbrev pub in_extern_c : NestingState → Bool
in_extern_c s = top_is is_extern_c s.nesting.stack

-- InClassDeclaration
abbrev pub in_class_declaration : NestingState → Bool
in_class_declaration s = top_is is_class s.nesting.stack

pub in_asm : Block → Bool
in_asm b = elim b.inline_asm [
  | no_asm ↦ false
  | inside_asm ↦ true
  | end_asm ↦ true
  | block_asm ↦ true
]

-- InAsmBlock
abbrev pub in_asm_block : NestingState → Bool
in_asm_block s = top_is in_asm s.nesting.stack

pub class_of : Block → Option ClassInfo
class_of b = elim b.kind [
  | plain ↦ none
  | extern_c ↦ none
  | class_info c ↦ some c
  | namespace_info _ ↦ none
]

unfoldable pub innermost_class_in : List Block → Option (Block × ClassInfo)
unfolding class_of
innermost_class_in [] = none
innermost_class_in (b ∷ stack) = elim (class_of b) [
  | some c ↦ some (b, c)
  | none ↦ innermost_class_in stack
]

-- InnermostClass, with the fields of the class
unfoldable pub innermost_class : NestingState → Option (Block × ClassInfo)
unfolding innermost_class_in
innermost_class s = innermost_class_in s.nesting.stack

-- What CheckCompletedBlocks says of one block.
pub incomplete : Text → ℕ → Kind → List Report
incomplete filename linenum plain = []
incomplete filename linenum extern_c = []
incomplete filename linenum (class_info c) =
    report filename linenum "build/class" 5
      (codes "Failed to find complete declaration of class " ++ c.name)
    ∷ []
incomplete filename linenum (namespace_info name) =
    report filename linenum "build/namespaces" 5
      (codes "Failed to find complete declaration of namespace " ++ name)
    ∷ []

-- CheckCompletedBlocks goes from the bottom of the stack to its top.
unfoldable pub incomplete_blocks : Text → List Block → List Report
unfolding incomplete
incomplete_blocks filename [] = []
incomplete_blocks filename (b ∷ stack) =
    incomplete_blocks filename stack ++ incomplete filename b.starting_linenum b.kind

-- CheckCompletedBlocks
unfoldable pub check_completed_blocks : Text → NestingState → List Report
unfolding incomplete_blocks
check_completed_blocks filename s = incomplete_blocks filename s.nesting.stack
