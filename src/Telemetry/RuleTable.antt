-- ===== src/Telemetry/RuleTable.antt =====
-- src/implementations/telemetry_rule_table.rs: a bounded code is looked up in a table of rules.
use polyform_polyguard.Base.{
  ℕ, Bool, true, false, ◌&&◌, List, [], ◌∷◌, ◌≡◌, refl, inl, inr, arith, Bytes, codes, ltb, length,
  equal, find, ok, ◌>>=◌, ◌>>◌, ok_or, refuse_if,
}
use polyform_polyguard.Telemetry.Codes.{Unknown, Code-cases}
use polyform_polyguard.Telemetry.{code_of, all_categories, classification}
use polyform_polyguard.Types.{
  OutcomeCategory, TelemetryOutcome, PolyguardResult, serialization_invariant,
}

abbrev max_code_bytes : ℕ
max_code_bytes = length (codes "implementation_disagreement")

data UpstreamConstraint : Type 0 where
  either must_not_be_reached : UpstreamConstraint

record OutcomeRule : Type 0 where
  rule_code : Bytes
  rule_category : OutcomeCategory
  rule_success : Bool
  upstream : UpstreamConstraint

abbrev rule : Bytes → OutcomeCategory → Bool → UpstreamConstraint → OutcomeRule
rule code category success constraint = record {
  rule_code = code;
  rule_category = category;
  rule_success = success;
  upstream = constraint;
}

abbrev rules : List OutcomeRule
rules =
    rule (codes "accepted") OutcomeCategory.accepted true either
    ∷ rule (codes "client_syntax") OutcomeCategory.client_syntax false must_not_be_reached
    ∷ rule (codes "ambiguous_framing") OutcomeCategory.ambiguous_framing false must_not_be_reached
    ∷ rule (codes "policy_rejected") OutcomeCategory.policy_rejected false must_not_be_reached
    ∷ rule (codes "route_missing") OutcomeCategory.route_missing false must_not_be_reached
    ∷ rule (codes "upstream_failure") OutcomeCategory.upstream_failure false either
    ∷ rule (codes "timeout") OutcomeCategory.timeout false either
    ∷ rule (codes "implementation_disagreement") OutcomeCategory.implementation_disagreement false
        must_not_be_reached
    ∷ rule (codes "internal_failure") OutcomeCategory.internal_failure false either
    ∷ []

-- `RecognizedOutcome::parse`
parse : Bytes → PolyguardResult OutcomeRule
parse code = do
  refuse_if (ltb max_code_bytes (length code)) serialization_invariant
  ok_or (find (λ r. equal code r.rule_code) rules) serialization_invariant

forbids_upstream : UpstreamConstraint → Bool
forbids_upstream either = false
forbids_upstream must_not_be_reached = true

validate_upstream : OutcomeRule → Bool → PolyguardResult OutcomeRule
unfolding forbids_upstream
validate_upstream recognized upstream_reached = do
  refuse_if (upstream_reached && forbids_upstream recognized.upstream) serialization_invariant
  ok recognized

into_public : OutcomeRule → TelemetryOutcome
into_public recognized = record {
  category = recognized.rule_category;
  success = recognized.rule_success;
}

pub classify_telemetry_outcome : Bytes → Bool → PolyguardResult TelemetryOutcome
unfolding parse validate_upstream into_public
classify_telemetry_outcome code upstream_reached = do
  recognized ← parse code
  consistent ← validate_upstream recognized upstream_reached
  ok (into_public consistent)

known :
    (c : OutcomeCategory) (reached : Bool)
    → classify_telemetry_outcome (code_of c) reached ≡ classification (code_of c) reached
unfolding classify_telemetry_outcome classification equal
known OutcomeCategory.accepted true = refl
known OutcomeCategory.accepted false = refl
known _ true = refl
known _ false = refl

unknown :
    (code : Bytes) (reached : Bool)
    → Unknown code all_categories
    → classify_telemetry_outcome code reached ≡ classification code reached
unfolding classify_telemetry_outcome classification
unknown code reached u = ground arith

-- The table implementation reports the category that the code names.
pub rule_table-eq-classification :
    (code : Bytes) (reached : Bool)
    → classify_telemetry_outcome code reached ≡ classification code reached
rule_table-eq-classification code reached = elim (Code-cases code) [
  | inl (c, e) ↦ rw e (known c reached)
  | inr u ↦ unknown code reached u
]
