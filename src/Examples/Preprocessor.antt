-- ===== src/Examples/Preprocessor.antt =====
-- A class whose head depends on a condition.
use falcon_link.Prelude.{ℕ, ◌≡◌, refl, List, [], ◌∷◌, codes, is_space}
use falcon_link.Preprocessor.{directive, opening, alternative, closing, no_directive}
use falcon_link.Preprocessor.Groups.{
  Line, Nested, nothing, line, conditional, no_branch, branch, read_lines, nesting,
  update_preprocessor-Nested,
}

abbrev push : ℕ → List ℕ → List ℕ
push n stack = n ∷ stack

abbrev keep : List ℕ → List ℕ
keep stack = stack

abbrev class_lines : List (Line ℕ)
class_lines =
    (codes "#ifdef SWIG", keep)
    ∷ (codes "struct A {", push 1)
    ∷ (codes "# else", keep)
    ∷ (codes "struct A : public B {", push 2)
    ∷ (codes "#endif  // SWIG", keep)
    ∷ (codes "if (x) {", push 3)
    ∷ []

is_opening : directive (codes "#ifdef SWIG") ≡ opening
unfolding directive codes is_space
is_opening = refl

is_alternative : directive (codes "# else") ≡ alternative
unfolding directive codes is_space
is_alternative = refl

is_closing : directive (codes "#endif  // SWIG") ≡ closing
unfolding directive codes is_space
is_closing = refl

first_head : directive (codes "struct A {") ≡ no_directive
unfolding directive codes is_space
first_head = refl

second_head : directive (codes "struct A : public B {") ≡ no_directive
unfolding directive codes is_space
second_head = refl

no_if : directive (codes "if (x) {") ≡ no_directive
unfolding directive codes is_space
no_if = refl

class_lines-Nested : Nested class_lines (λ s. 3 ∷ 1 ∷ s)
class_lines-Nested =
    conditional (codes "#ifdef SWIG") keep (codes "#endif  // SWIG") keep is_opening
      (line (codes "struct A {") (push 1) first_head nothing)
      (branch (codes "# else") keep is_alternative
        (line (codes "struct A : public B {") (push 2) second_head nothing) no_branch)
      is_closing (line (codes "if (x) {") (push 3) no_if nothing)

update_preprocessor-Nested_example :
    read_lines class_lines (nesting [] []) ≡ nesting (3 ∷ 1 ∷ []) []
update_preprocessor-Nested_example = update_preprocessor-Nested class_lines-Nested [] []
