-- ===== src/Telemetry/Codes.antt =====
-- A code is one of the nine, or it differs from each.
use polyform_polyguard.Base.{
  Bool, false, List, [], ◌∷◌, ◌≡◌, ◌⊎◌, inl, inr, arith, Bytes, Bool-cases, equal, equal_iff, err,
}
use polyform_polyguard.Telemetry.{code_of, all_categories, classification}
use polyform_polyguard.Types.{OutcomeCategory, serialization_invariant}

-- The code differs from each of these.
abbrev pub Unknown : Bytes → List OutcomeCategory → Type 0
Unknown code [] = Unit
Unknown code (c ∷ cs) = (equal code (code_of c) ≡ false) × Unknown code cs

pub Code-cases-in :
    (code : Bytes) (cs : List OutcomeCategory)
    → ((c : OutcomeCategory) × (code ≡ code_of c)) ⊎ Unknown code cs
Code-cases-in code [] = inr tt
Code-cases-in code (c ∷ cs) = elim (Bool-cases (equal code (code_of c))) [
  | inl e ↦ inl (c, (equal_iff code (code_of c)).0 e)
  | inr e ↦ elim (Code-cases-in code cs) [ inl known ↦ inl known | inr rest ↦ inr (e, rest) ]
]

-- Every code is the code of a category, or unknown.
pub Code-cases :
    (code : Bytes) → ((c : OutcomeCategory) × (code ≡ code_of c)) ⊎ Unknown code all_categories
Code-cases code = Code-cases-in code all_categories

pub classification-Unknown :
    (code : Bytes) (reached : Bool)
    → Unknown code all_categories
    → classification code reached ≡ err serialization_invariant
unfolding classification
classification-Unknown code reached u = ground arith
