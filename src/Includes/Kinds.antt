-- ===== src/Includes/Kinds.antt =====
-- The kinds of includes: system headers by their brackets, own headers by their names.
use falcon_link.Prelude.{
  ◌≡◌, refl, sym, ap, ◌∙◌, ◌≢◌, ◌↔◌, ◌⊎◌, inl, inr, Bool, true, false, arith, text_eq, Text,
  text_eq_iff, text_eq_refl, if◌then◌else◌, Bool-cases,
}
use falcon_link.IncludeState.{
  HeaderType, c_sys_header, cpp_sys_header, likely_my_header, possible_my_header, other_header,
}
use falcon_link.Extensions.{Extensions}
use falcon_link.Dict.{member, text_keys}
use falcon_link.Includes.CppHeaders.{cpp_headers}
use falcon_link.Includes.Extension.{HasCppExtension, splits_off, splits_off_iff}
use falcon_link.Includes.{
  path_split, drop_common_suffixes, stays_system, classify_own, classify_include, is_cpp_h,
}

-- The header is from a system directory.
abbrev pub is_system_header : HeaderType → Bool
is_system_header c_sys_header = true
is_system_header cpp_sys_header = true
is_system_header likely_my_header = false
is_system_header possible_my_header = false
is_system_header other_header = false

classify_own-is_system_header :
    (g : Extensions) (name include : Text) → is_system_header (classify_own g name include) ≡ false
unfolding classify_own
classify_own-is_system_header g name include = ground arith

classify_own-likely :
    (g : Extensions) (name include : Text)
    → (drop_common_suffixes g include ≢ drop_common_suffixes g name)
      ⊎ (classify_own g name include ≡ likely_my_header)
unfolding classify_own
classify_own-likely g name include =
    let a = drop_common_suffixes g include in
    let b = drop_common_suffixes g name in
    elim (Bool-cases (text_eq a b)) [
      | inr other ↦ inl (λ e. absurd (ground (arith, e, text_eq_refl b)))
      | inl same ↦
          let e = (text_eq_iff a b).0 same in
          inr (rw (e, text_eq_refl (path_split b).0, text_eq_refl (path_split b).1) refl)
    ]

table_kind : (m : Bool) → is_system_header (if m then cpp_sys_header else c_sys_header) ≡ true
table_kind true = refl
table_kind false = refl

table_kind-cpp :
    (m : Bool) → ((if m then cpp_sys_header else c_sys_header) ≡ cpp_sys_header) ↔ (m ≡ true)
table_kind-cpp true = (λ e. refl, λ e. refl)
table_kind-cpp false = (λ e. absurd (ground (arith, e)), λ e. absurd (ground (arith, e)))

own_kind-cpp : {t : HeaderType} → is_system_header t ≡ false → (t ≡ cpp_sys_header) ↔ (false ≡ true)
own_kind-cpp own = (λ e. sym own ∙ ap is_system_header e, λ e. absurd (ground (arith, e)))

classify_include-is_system_header :
    (g : Extensions) (name include : Text) (is_system : Bool)
    → is_system_header (classify_include g name include is_system) ≡ stays_system include is_system
unfolding classify_include
classify_include-is_system_header g name include is_system =
    elim (Bool-cases (stays_system include is_system)) [
      | inl system ↦ rw (system, classify_include) (table_kind (is_cpp_h include))
      | inr user ↦ rw (user, classify_include) (classify_own-is_system_header g name include)
    ]

classify_include-cpp :
    (g : Extensions) (name include : Text) (is_system : Bool)
    → (classify_include g name include is_system ≡ cpp_sys_header)
      ↔ ((stays_system include is_system ≡ true) × (member include cpp_headers ≡ true))
unfolding classify_include is_cpp_h
classify_include-cpp g name include is_system = elim (Bool-cases (stays_system include is_system)) [
  | inl system ↦
      let (to, from) = table_kind-cpp (is_cpp_h include) in
      rw (system, classify_include) (λ e. (refl, to e), λ h. from h.1)
  | inr user ↦
      let (to, from) = own_kind-cpp (classify_own-is_system_header g name include) in
      rw (user, classify_include) (λ e. (to e, absurd (ground (arith, to e))), λ h. from h.0)
]

classify_include-own :
    (g : Extensions) (name include : Text) (is_system : Bool)
    → (stays_system include is_system ≡ true)
      ⊎ (drop_common_suffixes g include ≢ drop_common_suffixes g name)
      ⊎ (classify_include g name include is_system ≡ likely_my_header)
unfolding classify_include
classify_include-own g name include is_system = elim (Bool-cases (stays_system include is_system)) [
  | inl system ↦ inl system
  | inr user ↦ elim (classify_own-likely g name include) [
    | inl differ ↦ inr (inl differ)
    | inr likely ↦ inr (inr (rw (user, classify_include) likely))
  ]
]

stays_system_iff :
    (include : Text) (is_system : Bool)
    → (stays_system include is_system ≡ true) ↔ ((is_system ≡ true) × ¬ (HasCppExtension include))
unfolding stays_system
stays_system_iff include is_system =
    let (to, from) = splits_off_iff include in
    (
      λ h. (ground arith, λ has. absurd (let e = from has in ground arith)),
      λ (system, lacks). elim (Bool-cases (splits_off include)) [
        | inl t ↦ absurd (lacks (to t))
        | inr f ↦ ground arith
      ],
    )

-- An include is classed as a system header exactly if it is in angle brackets and does not have one of
-- the extensions .hpp, .hxx and .h++ (its last component is not a stem, with more than dots, and one of
-- them); as one of C++ exactly if it also stands in the table of these. One that is no system header,
-- and of which _DropCommonSuffixes leaves the same as of the file's name, is likely the header that the
-- file implements.
pub classify_include_lem :
    (g : Extensions) (name include : Text) (is_system : Bool)
    → ((is_system_header (classify_include g name include is_system) ≡ true)
        ↔ ((is_system ≡ true) × ¬ (HasCppExtension include)))
      × ((classify_include g name include is_system ≡ cpp_sys_header) ↔ (
          (is_system_header (classify_include g name include is_system) ≡ true)
          × (member include cpp_headers ≡ true)))
      × ((is_system_header (classify_include g name include is_system) ≡ true)
          ⊎ (drop_common_suffixes g include ≢ drop_common_suffixes g name)
          ⊎ (classify_include g name include is_system ≡ likely_my_header))
classify_include_lem g name include is_system =
    let e = classify_include-is_system_header g name include is_system in
    rw e (
      stays_system_iff include is_system,
      classify_include-cpp g name include is_system,
      classify_include-own g name include is_system,
    )
