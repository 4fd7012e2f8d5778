-- ===== src/LintState/JUnit/Grouping.antt =====
-- The failures of the JUnit report, file by file.
use falcon_link.Prelude.{
  ◌≡◌, refl, subst, inl, inr, true, false, ◌||◌, none, some, List, [], ◌∷◌, ◌++◌, append-nil,
  append_assoc, arith, any, text_eq, Text, text_eq_iff, text_eq_refl, if◌then◌else◌, Bool-cases,
}
use mathlib.Core.Option.{get_or as option_or}
use falcon_link.Dict.{get, put, get-put, member, text_keys}
use falcon_link.LintState.{Failure}
use falcon_link.LintState.JUnit.{Groups, group_failure, group_failures, no_groups}

-- The failures of one file, in the order in which they were recorded.
abbrev pub of_file : Text → List Failure → List Failure
of_file k [] = []
of_file k (f ∷ fs) = elim (text_eq f.filename k) [ true ↦ f ∷ of_file k fs | false ↦ of_file k fs ]

-- No file twice.
abbrev pub Distinct : List Text → Type 0
Distinct [] = Unit
Distinct (k ∷ ks) = (member k ks ≡ false) × Distinct ks

-- The groups hold these failures: an entry for each file in the order, and for no other.
record Holds (fs : List Failure) (g : Groups) : Type 0 where
  listed : (k : Text) → member k g.order ≡ any (λ f. text_eq f.filename k) fs
  grouped : (k : Text) → get g.by_file k ≡ (if member k g.order then some (of_file k fs) else none)
  distinct : Distinct g.order

any-append :
    (k : Text) (fs : List Failure) (f : Failure)
    → any (λ x. text_eq x.filename k) (fs ++ f ∷ [])
      ≡ (any (λ x. text_eq x.filename k) fs || text_eq f.filename k)
unfolding any
any-append k [] f = ground arith
any-append k (x ∷ fs) f = ground (arith, any-append k fs f)

of_file-append :
    (k : Text) (fs : List Failure) (f : Failure)
    → of_file k (fs ++ f ∷ []) ≡ of_file k fs ++ (if text_eq f.filename k then f ∷ [] else [])
of_file-append k [] f = ground arith
of_file-append k (x ∷ fs) f = ground (arith, of_file-append k fs f)

of_file-none :
    (k : Text) (fs : List Failure) → any (λ x. text_eq x.filename k) fs ≡ false → of_file k fs ≡ []
unfolding any
of_file-none k [] h = refl
of_file-none k (x ∷ fs) h = ground (arith, of_file-none k fs)

member-append :
    (k j : Text) (ks : List Text) → member k (ks ++ j ∷ []) ≡ (member k ks || text_eq j k)
unfolding member
member-append k j [] = ground arith
member-append k j (x ∷ ks) = ground (arith, member-append k j ks)

Distinct-append :
    (k : Text) (ks : List Text) → member k ks ≡ false → Distinct ks → Distinct (ks ++ k ∷ [])
unfolding member
Distinct-append k [] h d = (refl, tt)
Distinct-append k (j ∷ ks) h d = (
  ground (arith, member-append j k ks, text_eq_iff j k, text_eq_iff k j),
  Distinct-append k ks (ground arith) d.1,
)

group_failure-order :
    (f : Failure) (g : Groups)
    → (group_failure f g).order
      ≡ (if member f.filename g.order then g.order else g.order ++ f.filename ∷ [])
unfolding group_failure
group_failure-order f g = elim (Bool-cases (member f.filename g.order)) [
  | inl h ↦ rw (h, group_failure)
  | inr h ↦ rw (h, group_failure)
]

group_failure-by_file :
    (f : Failure) (g : Groups) (k : Text)
    → get (group_failure f g).by_file k ≡ (
        if text_eq f.filename k
        then some (
            (if member f.filename g.order then option_or (get g.by_file f.filename) [] else [])
            ++ f ∷ [])
        else get g.by_file k)
unfolding group_failure
group_failure-by_file f g k = elim (Bool-cases (member f.filename g.order)) [
  | inl h ↦
      rw (h, group_failure)
        (get-put g.by_file f.filename k (option_or (get g.by_file f.filename) [] ++ f ∷ []))
  | inr h ↦
      rw (h, group_failure)
        (ground (
          arith,
          text_eq_refl f.filename,
          get-put g.by_file f.filename k [],
          get-put g.by_file f.filename f.filename [],
          get-put (put g.by_file f.filename []) f.filename k
              (option_or (get (put g.by_file f.filename []) f.filename) [] ++ f ∷ []),
        ))
]

group_failure-Holds :
    (fs : List Failure) (f : Failure) (g : Groups)
    → Holds fs g
    → Holds (fs ++ f ∷ []) (group_failure f g)
group_failure-Holds fs f g h = record {
  listed = λ k. ground (
    arith,
    group_failure-order f g,
    h.listed k,
    h.listed f.filename,
    any-append k fs f,
    member-append k f.filename g.order,
    text_eq_iff f.filename k,
  );
  grouped = λ k. ground (
    arith,
    group_failure-order f g,
    group_failure-by_file f g k,
    h.grouped k,
    h.grouped f.filename,
    h.listed f.filename,
    of_file-append k fs f,
    of_file-none k fs,
    append-nil (of_file k fs),
    member-append k f.filename g.order,
    text_eq_iff f.filename k,
  );
  distinct = elim (Bool-cases (member f.filename g.order)) [
    | inl q ↦ rw (group_failure-order f g, q) h.distinct
    | inr q ↦ rw (group_failure-order f g, q) (Distinct-append f.filename g.order q h.distinct)
  ];
}

group_failures-Holds :
    (gs fs : List Failure) (g : Groups) → Holds fs g → Holds (fs ++ gs) (group_failures gs g)
unfolding group_failures
group_failures-Holds [] fs g h = rw append-nil h
group_failures-Holds (f ∷ gs) fs g h =
    subst (λ l. Holds l (group_failures (f ∷ gs) g)) (append_assoc fs (f ∷ []) gs)
      (group_failures-Holds gs (fs ++ f ∷ []) (group_failure f g) (group_failure-Holds fs f g h))

Holds-no_groups : Holds [] no_groups
unfolding get member any
Holds-no_groups = record { listed = λ k. refl; grouped = λ k. refl; distinct = tt }

-- The loop of FormatJUnitXML over the failures lists each file once, those that have a failure and no
-- other, and files under it all failures of that file, in the order in which they were recorded.
pub group_failures-of_file :
    (fs : List Failure) (k : Text)
    → Distinct (group_failures fs no_groups).order
      × (member k (group_failures fs no_groups).order ≡ any (λ f. text_eq f.filename k) fs)
      × (get (group_failures fs no_groups).by_file k
          ≡ (if any (λ f. text_eq f.filename k) fs then some (of_file k fs) else none))
group_failures-of_file fs k =
    let h = group_failures-Holds fs [] no_groups Holds-no_groups in
    (h.distinct, h.listed k, ground (arith, h.grouped k, h.listed k))
