-- ===== src/Checks/Namespaces.antt =====
-- CheckForNamespaceIndentation, ShouldCheckNamespaceIndentation, IsBlockInNameSpace and
-- CheckItemIndentationInNamespace (build_support/cpplint.py).
use falcon_link.Prelude.{
  ℕ, ◌+◌, Bool, false, not, ◌&&◌, ◌||◌, Option, none, some, List, [], ◌∷◌, codes, Text, ◌==◌,
  if◌then◌else◌, length, get_elem?,
}
use falcon_link.Prelude.Options.{◌>>=◌}
use falcon_link.Regex.{Regex, start, space, plus, ◌▸◌}
use falcon_link.Report.{Report, report}
use falcon_link.Nesting.Blocks.{starts}
use falcon_link.CleansedLines.{CleansedLines}
use falcon_link.FileChecks.{is_forward_class_declaration, is_macro_definition}
use falcon_link.Nesting.{Block, NestingState, is_namespace}
use falcon_link.Checks.{when}

-- IsBlockInNameSpace
unfoldable pub is_block_in_name_space : List Block → Bool → Bool
is_block_in_name_space [] is_forward = false
is_block_in_name_space (b ∷ []) is_forward = is_forward && is_namespace b
is_block_in_name_space (b ∷ outer ∷ stack) is_forward =
    if is_forward then is_namespace b else b.check_namespace_indentation && is_namespace outer

-- ShouldCheckNamespaceIndentation
unfoldable pub should_check_namespace_indentation : List Block → Bool → List Text → ℕ → Option Bool
unfolding is_forward_class_declaration is_macro_definition is_block_in_name_space
should_check_namespace_indentation stack is_item lines linenum =
    is_forward_class_declaration lines linenum >>= λ is_forward.
    if not (is_item || is_forward)
    then some false
    else is_macro_definition lines linenum >>= λ is_macro.
        some (if is_macro then false else is_block_in_name_space stack is_forward)

-- ^\s+
unfoldable pub indented_item : Regex
indented_item = start ▸ plus space

-- CheckItemIndentationInNamespace
unfoldable pub check_item_indentation_in_namespace : Text → List Text → ℕ → Option (List Report)
unfolding starts
check_item_indentation_in_namespace filename lines linenum = get_elem? lines linenum >>= λ line.
    some (
      when (starts indented_item line) (
        report filename linenum "runtime/indentation_namespace" 4
          (codes "Do not indent within a namespace")))

-- The object that `previous_stack_top` names is a namespace, and it is `stack[-2]`.
pub previous_is_outer : NestingState → List Block → Bool
previous_is_outer s outer = elim s.previous_stack_top [
  | none ↦ false
  | some previous ↦
      is_namespace previous
      && elim s.previous_at [ none ↦ false | some height ↦ height + 1 == length outer ]
]

unfoldable pub is_namespace_indent_item : NestingState → List Block → Bool
unfolding previous_is_outer
is_namespace_indent_item s [] = false
is_namespace_indent_item s (b ∷ []) = false
is_namespace_indent_item s (b ∷ outer ∷ stack) =
    b.check_namespace_indentation && previous_is_outer s (outer ∷ stack)

-- CheckForNamespaceIndentation
unfoldable pub check_for_namespace_indentation :
    Text → NestingState → CleansedLines → ℕ → Option (List Report)
unfolding is_namespace_indent_item should_check_namespace_indentation
    check_item_indentation_in_namespace
check_for_namespace_indentation filename s clean_lines line =
    should_check_namespace_indentation s.nesting.stack (is_namespace_indent_item s s.nesting.stack)
      clean_lines.elided line
    >>= λ should_check.
        if should_check
        then check_item_indentation_in_namespace filename clean_lines.elided line
        else some []
