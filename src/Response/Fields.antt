-- ===== src/Response/Fields.antt =====
-- The fields of one name in a head, as `response_framing` of src/proxy.rs filters them.
use mathlib.Core.List.{map}
use polyform_polyguard.Base.{
  true, List, [], ◌∷◌, ◌++◌, ◌≡◌, ◌≢◌, ◌↔◌, refl, sym, ap, ◌∙◌, arith, inl, inr, Bytes, Bool-cases,
  keep_if, equal, equal_iff, eq_ignore_ascii_case, to_ascii_lowercase, All,
}
use polyform_polyguard.Types.{HeaderField}

-- No field has the name.
abbrev pub Lacks : Bytes → List HeaderField → Type 0
Lacks name = All (λ field. field.name ≢ name)

-- Just one field has the name.
abbrev pub HasOne : Bytes → HeaderField → List HeaderField → Type 0
HasOne name field fields =
    (before : List HeaderField) × (after : List HeaderField) × (fields ≡ before ++ field ∷ after)
    × (field.name ≡ name)
    × Lacks name before
    × Lacks name after

pub ignore_case_iff :
    (s t : Bytes)
    → (eq_ignore_ascii_case s t ≡ true) ↔ (map to_ascii_lowercase s ≡ map to_ascii_lowercase t)
unfolding eq_ignore_ascii_case
ignore_case_iff [] [] = (λ h. refl, λ h. refl)
ignore_case_iff (c ∷ s) (d ∷ t) = let rest = ignore_case_iff s t in ground arith
ignore_case_iff [] (d ∷ t) = (λ h. cc, λ h. cc)
ignore_case_iff (c ∷ s) [] = (λ h. cc, λ h. cc)

module _ (name : Bytes) where
  abbrev pub of_name : List HeaderField → List HeaderField
  of_name = keep_if (λ field. equal field.name name)

  pub of_name-nil : (fields : List HeaderField) → of_name fields ≡ [] → Lacks name fields
  of_name-nil [] h = tt
  of_name-nil (f ∷ fs) h = elim (Bool-cases (equal f.name name)) [
    | inl y ↦ absurd (ground arith)
    | inr n ↦ (λ e. (let y = (equal_iff f.name name).1 e in cc), of_name-nil fs (ground arith))
  ]

  pub Lacks-of_name : (fields : List HeaderField) → Lacks name fields → of_name fields ≡ []
  Lacks-of_name [] h = refl
  Lacks-of_name (f ∷ fs) (p, ps) = elim (Bool-cases (equal f.name name)) [
    | inl y ↦ absurd (p ((equal_iff f.name name).0 y))
    | inr n ↦ rw n (Lacks-of_name fs ps)
  ]

  pub of_name-one :
      (fields : List HeaderField) (field : HeaderField)
      → of_name fields ≡ field ∷ []
      → HasOne name field fields
  of_name-one [] field h = absurd (ground arith)
  of_name-one (f ∷ fs) field h = elim (Bool-cases (equal f.name name)) [
    | inl y ↦
        let this : f ≡ field = ground arith in
        let others : of_name fs ≡ [] = ground arith in
        (
          [],
          fs,
          ap (λ g. g ∷ fs) this,
          ap (λ g. g.name) (sym this) ∙ (equal_iff f.name name).0 y,
          tt,
          of_name-nil fs others,
        )
    | inr n ↦
        let (before, after, split, is_named, p, q) = of_name-one fs field (ground arith) in
        (
          f ∷ before,
          after,
          ap (◌∷◌ f) split,
          is_named,
          (λ e. (let y = (equal_iff f.name name).1 e in cc), p),
          q,
        )
  ]

  pub HasOne-of_name :
      (before after : List HeaderField) (field : HeaderField)
      → field.name ≡ name
      → Lacks name before
      → Lacks name after
      → of_name (before ++ field ∷ after) ≡ field ∷ []
  HasOne-of_name [] after field h p q =
      rw ((equal_iff field.name name).1 h, Lacks-of_name after q) refl
  HasOne-of_name (f ∷ before) after field h (p, ps) q = elim (Bool-cases (equal f.name name)) [
    | inl y ↦ absurd (p ((equal_iff f.name name).0 y))
    | inr n ↦ rw n (HasOne-of_name before after field h ps q)
  ]

  pub All-of_name :
      (P : HeaderField → Type 0) (fields : List HeaderField)
      → All P (of_name fields) ↔ All (λ field. field.name ≡ name → P field) fields
  All-of_name P [] = (λ h. tt, λ h. tt)
  All-of_name P (f ∷ fs) = elim (Bool-cases (equal f.name name)) [
    | inl y ↦ rw y (
      λ (p, ps). (λ _. p, (All-of_name P fs).0 ps),
      λ (p, ps). (p ((equal_iff f.name name).0 y), (All-of_name P fs).1 ps),
    )
    | inr n ↦ rw n (
      λ ps. (λ e. absurd (let y = (equal_iff f.name name).1 e in cc), (All-of_name P fs).0 ps),
      λ (_, ps). (All-of_name P fs).1 ps,
    )
  ]
