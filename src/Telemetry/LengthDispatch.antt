-- ===== src/Telemetry/LengthDispatch.antt =====
-- src/implementations/telemetry_length_dispatch.rs: the length of a code selects its rule.
use polyform_polyguard.Base.{
  ℕ, Bool, true, false, Option, none, some, List, [], ◌∷◌, ◌≡◌, refl, inl, inr, arith, Bytes, codes,
  if◌then◌else◌, ltb, ◌==◌, length, equal, find, ok, err, ◌>>=◌, ok_or,
}
use polyform_polyguard.Telemetry.Codes.{Unknown, Code-cases}
use polyform_polyguard.Telemetry.{code_of, all_categories, classification}
use polyform_polyguard.Types.{
  OutcomeCategory, TelemetryOutcome, PolyguardResult, serialization_invariant,
}

abbrev longest_code : ℕ
longest_code = length (codes "implementation_disagreement")

-- `BoundedCode::new`
bounded_code : Bytes → PolyguardResult Bytes
bounded_code code = if ltb longest_code (length code) then err serialization_invariant else ok code

data ReachabilityChecked : Type 0 where
  any : TelemetryOutcome → ReachabilityChecked
  before_upstream : TelemetryOutcome → ReachabilityChecked

release : ReachabilityChecked → Bool → PolyguardResult TelemetryOutcome
release (before_upstream outcome) true = err serialization_invariant
release (before_upstream outcome) false = ok outcome
release (any outcome) upstream_reached = ok outcome

abbrev outcome : OutcomeCategory → Bool → TelemetryOutcome
outcome category success = record { category = category; success = success }

seven_byte_code : Bytes → Option ReachabilityChecked
seven_byte_code code =
    if equal code (codes "timeout")
    then some (any (outcome OutcomeCategory.timeout false))
    else none

eight_byte_code : Bytes → Option ReachabilityChecked
eight_byte_code code =
    if equal code (codes "accepted")
    then some (any (outcome OutcomeCategory.accepted true))
    else none

thirteen_byte_code : Bytes → Option ReachabilityChecked
thirteen_byte_code code =
    if equal code (codes "client_syntax")
    then some (before_upstream (outcome OutcomeCategory.client_syntax false))
    else if equal code (codes "route_missing")
    then some (before_upstream (outcome OutcomeCategory.route_missing false))
    else none

fifteen_byte_code : Bytes → Option ReachabilityChecked
fifteen_byte_code code =
    if equal code (codes "policy_rejected")
    then some (before_upstream (outcome OutcomeCategory.policy_rejected false))
    else none

sixteen_byte_code : Bytes → Option ReachabilityChecked
sixteen_byte_code code =
    if equal code (codes "upstream_failure")
    then some (any (outcome OutcomeCategory.upstream_failure false))
    else if equal code (codes "internal_failure")
    then some (any (outcome OutcomeCategory.internal_failure false))
    else none

seventeen_byte_code : Bytes → Option ReachabilityChecked
seventeen_byte_code code =
    if equal code (codes "ambiguous_framing")
    then some (before_upstream (outcome OutcomeCategory.ambiguous_framing false))
    else none

twenty_seven_byte_code : Bytes → Option ReachabilityChecked
twenty_seven_byte_code code =
    if equal code (codes "implementation_disagreement")
    then some (before_upstream (outcome OutcomeCategory.implementation_disagreement false))
    else none

length_rules : List (ℕ × (Bytes → Option ReachabilityChecked))
length_rules =
    (7, seven_byte_code)
    ∷ (8, eight_byte_code)
    ∷ (13, thirteen_byte_code)
    ∷ (15, fifteen_byte_code)
    ∷ (16, sixteen_byte_code)
    ∷ (17, seventeen_byte_code)
    ∷ (27, twenty_seven_byte_code)
    ∷ []

by_length : Bytes → PolyguardResult (ℕ × (Bytes → Option ReachabilityChecked))
unfolding length_rules
by_length code = ok_or (find (λ r. r.0 == length code) length_rules) serialization_invariant

pub classify_telemetry_outcome : Bytes → Bool → PolyguardResult TelemetryOutcome
unfolding bounded_code by_length release seven_byte_code eight_byte_code thirteen_byte_code
    fifteen_byte_code sixteen_byte_code seventeen_byte_code twenty_seven_byte_code
classify_telemetry_outcome code upstream_reached = do
  text ← bounded_code code
  selected ← by_length text
  classified ← ok_or (selected.1 text) serialization_invariant
  release classified upstream_reached

known :
    (c : OutcomeCategory) (reached : Bool)
    → classify_telemetry_outcome (code_of c) reached ≡ classification (code_of c) reached
unfolding classify_telemetry_outcome classification equal
known OutcomeCategory.accepted true = refl
known OutcomeCategory.accepted false = refl
known _ true = refl
known _ false = refl

unknown :
    (code : Bytes) (reached : Bool)
    → Unknown code all_categories
    → classify_telemetry_outcome code reached ≡ classification code reached
unfolding classify_telemetry_outcome classification
unknown code reached u = ground arith

-- The length-dispatching implementation reports the category that the code names.
pub length_dispatch-eq-classification :
    (code : Bytes) (reached : Bool)
    → classify_telemetry_outcome code reached ≡ classification code reached
length_dispatch-eq-classification code reached = elim (Code-cases code) [
  | inl (c, e) ↦ rw e (known c reached)
  | inr u ↦ unknown code reached u
]
