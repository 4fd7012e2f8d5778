-- ===== src/SameModule/Prefix.antt =====
-- The prefix that FilesBelongToSameModule gives leads from the header's module to the source file's.
use falcon_link.Prelude.{
  ◌-◌, ◌≡◌, refl, ◌⊎◌, inl, inr, false, ◌&&◌, [], ◌∷◌, ◌++◌, arith, ends_with, Text, ◌==◌,
  Bool-cases, length, length-append, take-length,
}
use falcon_link.Prelude.Ends.{ends_with-some}
use falcon_link.Extensions.{Extensions, is_header_extension, is_source_extension}
use falcon_link.SameModule.{
  before_last, drop_dots, module_of_source, module_of_header, compare_modules,
  files_belong_to_same_module,
}

before_last-append : (r p : Text) → (p ≡ []) ⊎ (before_last (length p) (r ++ p) ++ p ≡ r ++ p)
unfolding before_last
before_last-append r [] = inl refl
before_last-append r (c ∷ p) =
    let size : length (r ++ (c ∷ p)) - length (c ∷ p) ≡ length r =
      omega (arith, length-append {0} r (c ∷ p)) in
    let some_letters : (length (c ∷ p) == 0) ≡ false = ground arith in
    inr (rw (some_letters, size, take-length r (c ∷ p)) refl)

compare_modules-prefix :
    (cc h : Text)
    → ((compare_modules cc h).0 ≡ ends_with cc h)
      × (((compare_modules cc h).0 ≡ false) ⊎ (h ≡ []) ⊎ ((compare_modules cc h).1 ++ h ≡ cc))
unfolding compare_modules
compare_modules-prefix cc h = elim (Bool-cases (ends_with cc h)) [
  | inr no_end ↦ (rw no_end refl, rw no_end (inl refl))
  | inl end ↦
      let (r, e) = ends_with-some cc h end in
      (
        rw end refl,
        rw end (elim (before_last-append r h) [
          | inl nothing ↦ inr (inl nothing)
          | inr q ↦ inr (inr (rw e q))
        ]),
      )
]

-- A source file and a header belong to one module exactly if their extensions are of these kinds and
-- the source file's module ends in the header's; then, unless the header's module is the empty text,
-- the prefix that is given, followed by the header's module, is the source file's.
pub files_belong_to_same_module_lem :
    (g : Extensions) (cc ecc bcc h eh : Text)
    → ((files_belong_to_same_module g cc ecc bcc h eh).0 ≡ (
        is_source_extension (drop_dots ecc) g
        && (is_header_extension (drop_dots eh) g
            && ends_with (module_of_source cc ecc bcc) (module_of_header h eh))))
      × (((files_belong_to_same_module g cc ecc bcc h eh).0 ≡ false)
          ⊎ (module_of_header h eh ≡ [])
          ⊎ ((files_belong_to_same_module g cc ecc bcc h eh).1 ++ module_of_header h eh
              ≡ module_of_source cc ecc bcc))
unfolding files_belong_to_same_module
files_belong_to_same_module_lem g cc ecc bcc h eh =
    let c = compare_modules-prefix (module_of_source cc ecc bcc) (module_of_header h eh) in
    elim (Bool-cases (is_source_extension (drop_dots ecc) g)) [
      | inr a ↦
          (rw (a, files_belong_to_same_module) refl, inl (rw (a, files_belong_to_same_module) refl))
      | inl a ↦ elim (Bool-cases (is_header_extension (drop_dots eh) g)) [
        | inr b ↦ (
          rw (a, b, files_belong_to_same_module) refl,
          inl (rw (a, b, files_belong_to_same_module) refl),
        )
        | inl b ↦ rw (a, b, files_belong_to_same_module) c
      ]
    ]
