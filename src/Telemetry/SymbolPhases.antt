-- ===== src/Telemetry/SymbolPhases.antt =====
-- src/implementations/telemetry_symbol_phases.rs: a code is decoded to a symbol, which is
-- checked and projected.
use polyform_polyguard.Base.{
  Bool, true, false, not, ◌&&◌, ◌≡◌, refl, inl, inr, arith, Bytes, codes, if◌then◌else◌, equal, ok,
  err, ◌>>=◌, ◌>>◌, refuse_if,
}
use polyform_polyguard.Telemetry.Codes.{Unknown, Code-cases}
use polyform_polyguard.Telemetry.{code_of, all_categories, classification}
use polyform_polyguard.Types.{
  OutcomeCategory, TelemetryOutcome, PolyguardResult, serialization_invariant,
}

data OutcomeSymbol : Type 0 where
  accepted client_syntax ambiguous_framing policy_rejected route_missing : OutcomeSymbol
  upstream_failure timeout implementation_disagreement internal_failure : OutcomeSymbol

decode_boundary : Bytes → PolyguardResult OutcomeSymbol
decode_boundary code =
    if equal code (codes "accepted")
    then ok accepted
    else if equal code (codes "client_syntax")
    then ok client_syntax
    else if equal code (codes "ambiguous_framing")
    then ok ambiguous_framing
    else if equal code (codes "policy_rejected")
    then ok policy_rejected
    else if equal code (codes "route_missing")
    then ok route_missing
    else if equal code (codes "upstream_failure")
    then ok upstream_failure
    else if equal code (codes "timeout")
    then ok timeout
    else if equal code (codes "implementation_disagreement")
    then ok implementation_disagreement
    else if equal code (codes "internal_failure")
    then ok internal_failure
    else err serialization_invariant

permits_upstream : OutcomeSymbol → Bool
permits_upstream accepted = true
permits_upstream upstream_failure = true
permits_upstream timeout = true
permits_upstream internal_failure = true
permits_upstream _ = false

project : OutcomeSymbol → TelemetryOutcome
project accepted = record { category = OutcomeCategory.accepted; success = true }
project client_syntax = record { category = OutcomeCategory.client_syntax; success = false }
project ambiguous_framing = record { category = OutcomeCategory.ambiguous_framing; success = false }
project policy_rejected = record { category = OutcomeCategory.policy_rejected; success = false }
project route_missing = record { category = OutcomeCategory.route_missing; success = false }
project upstream_failure = record { category = OutcomeCategory.upstream_failure; success = false }
project timeout = record { category = OutcomeCategory.timeout; success = false }
project implementation_disagreement = record {
  category = OutcomeCategory.implementation_disagreement;
  success = false;
}
project internal_failure = record { category = OutcomeCategory.internal_failure; success = false }

pub classify_telemetry_outcome : Bytes → Bool → PolyguardResult TelemetryOutcome
unfolding decode_boundary permits_upstream project
classify_telemetry_outcome code upstream_reached = do
  symbol ← decode_boundary code
  refuse_if (upstream_reached && not (permits_upstream symbol)) serialization_invariant
  ok (project symbol)

known :
    (c : OutcomeCategory) (reached : Bool)
    → classify_telemetry_outcome (code_of c) reached ≡ classification (code_of c) reached
unfolding classify_telemetry_outcome classification equal
known OutcomeCategory.accepted true = refl
known OutcomeCategory.accepted false = refl
known _ true = refl
known _ false = refl

unknown :
    (code : Bytes) (reached : Bool)
    → Unknown code all_categories
    → classify_telemetry_outcome code reached ≡ classification code reached
unfolding classify_telemetry_outcome classification
unknown code reached u = ground arith

-- The symbol implementation reports the category that the code names.
pub symbol_phases-eq-classification :
    (code : Bytes) (reached : Bool)
    → classify_telemetry_outcome code reached ≡ classification code reached
symbol_phases-eq-classification code reached = elim (Code-cases code) [
  | inl (c, e) ↦ rw e (known c reached)
  | inr u ↦ unknown code reached u
]
