-- ===== src/Telemetry.antt =====
-- `classify_telemetry_outcome`: a fixed outcome code becomes a category and a success bit. This
-- file lists the nine codes; the children are implementations of
-- src/implementations/telemetry_*.rs.
pub mod Codes
pub mod RuleTable
pub mod SymbolPhases
pub mod LengthDispatch
pub mod FingerprintIndex
pub mod WordComposition
use polyform_polyguard.Base.{
  ℕ, Bool, true, false, not, ◌&&◌, ◌||◌, Option, none, some, List, [], ◌∷◌, Bytes, codes,
  if◌then◌else◌, equal, find, ok, err,
}
use polyform_polyguard.Types.{
  OutcomeCategory, accepted, client_syntax, ambiguous_framing, policy_rejected, route_missing,
  upstream_failure, timeout, implementation_disagreement, internal_failure, TelemetryOutcome,
  PolyguardResult, serialization_invariant,
}

abbrev pub all_categories : List OutcomeCategory
all_categories =
    accepted ∷ client_syntax ∷ ambiguous_framing ∷ policy_rejected ∷ route_missing
    ∷ upstream_failure ∷ timeout ∷ implementation_disagreement ∷ internal_failure ∷ []

-- The code of each category.
abbrev pub code_of : OutcomeCategory → Bytes
code_of accepted = codes "accepted"
code_of client_syntax = codes "client_syntax"
code_of ambiguous_framing = codes "ambiguous_framing"
code_of policy_rejected = codes "policy_rejected"
code_of route_missing = codes "route_missing"
code_of upstream_failure = codes "upstream_failure"
code_of timeout = codes "timeout"
code_of implementation_disagreement = codes "implementation_disagreement"
code_of internal_failure = codes "internal_failure"

-- Whether the category may be reported once upstream was reached.
abbrev pub allows_upstream : OutcomeCategory → Bool
allows_upstream accepted = true
allows_upstream upstream_failure = true
allows_upstream timeout = true
allows_upstream internal_failure = true
allows_upstream _ = false

abbrev pub is_accepted : OutcomeCategory → Bool
is_accepted accepted = true
is_accepted _ = false

abbrev pub category_of : Bytes → Option OutcomeCategory
category_of code = find (λ category. equal code (code_of category)) all_categories

abbrev pub report : Option OutcomeCategory → Bool → PolyguardResult TelemetryOutcome
report none upstream_reached = err serialization_invariant
report (some category) upstream_reached =
    if upstream_reached && not (allows_upstream category)
    then err serialization_invariant
    else ok (record { category = category; success = is_accepted category })

unfoldable pub classification : Bytes → Bool → PolyguardResult TelemetryOutcome
classification code = report (category_of code)
