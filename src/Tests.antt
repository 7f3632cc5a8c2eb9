-- ===== src/Tests.antt =====
-- Runs of the model on small inputs, and the theorems at inputs that meet their hypotheses.
mod Memory
mod Faults
mod Routing
mod Response
mod Body
mod Lines
mod Hop
use Prim.Native.String.{String}
use mathlib.Core.List.{map}
use polyform_polyguard.Agreement.Asked.{asked_first, Unanimous, run-eq-ok}
use polyform_polyguard.Agreement.Counts.{distinct}
use polyform_polyguard.Agreement.Quarantined.{run-quarantined}
use polyform_polyguard.Agreement.Registry.{
  ContractFunction, Implementation, determine_body_framing, parse_request_line, provided,
  candidates_of, candidates_of-Gives, registered_implementations,
}
use polyform_polyguard.Agreement.Soundness.{Gives, run_agreed}
use polyform_polyguard.Agreement.Verdict.{in_order, verdict, run-verdict}
use polyform_polyguard.Agreement.{Candidate, Agreement, ResultEq, internal, to_fault, run}
use polyform_polyguard.Base.{
  Bool, true, false, some, none, List, [], ◌∷◌, ◌≡◌, refl, ◌∙◌, ◌↔◌, arith, ℕ_discrete, Bytes,
  codes, leb, length, take, keep_if, equal, eq_ignore_ascii_case, if◌then◌else◌, All, ok, err,
}
use polyform_polyguard.Base.Split.{split}
use polyform_polyguard.Base.Trim.{trim}
use polyform_polyguard.BodyFraming.Agreed.{
  FramingVariant, transition, bounded, stream, matrix, direct, determine, determine-eq-framing,
  determine_sound, framing_candidates, framing_agreed,
}
use polyform_polyguard.BodyFraming.Bounded
use polyform_polyguard.BodyFraming.Matrix
use polyform_polyguard.BodyFraming.Sound.{Describes}
use polyform_polyguard.BodyFraming.Stream
use polyform_polyguard.BodyFraming.Transition
use polyform_polyguard.BodyFraming.{framing}
use polyform_polyguard.Telemetry.FingerprintIndex
use polyform_polyguard.Telemetry.LengthDispatch
use polyform_polyguard.Telemetry.RuleTable
use polyform_polyguard.Telemetry.SymbolPhases
use polyform_polyguard.Telemetry.{classification}
use polyform_polyguard.Types.{
  HeaderField, HeaderBlock, RequestLine, http11, BodyFraming, PolyguardError, PolyguardResult,
}

framing_result_discrete : Discrete (PolyguardResult BodyFraming)
framing_result_discrete = hlevel ℕ_discrete

is_yes : {P : Type 0} → Dec P → Bool
is_yes (yes _) = true
is_yes (no _) = false

is_yes_iff : {P : Type 0} (d : Dec P) → (is_yes d ≡ true) ↔ P
unfolding is_yes
is_yes_iff (yes p) = (λ _. p, λ _. refl)
is_yes_iff (no n) = (λ h. cc, λ p. absurd (n p))

same_framing : PolyguardResult BodyFraming → PolyguardResult BodyFraming → Bool
same_framing a b = is_yes (framing_result_discrete a b)

same_framing_iff : (a b : PolyguardResult BodyFraming) → (same_framing a b ≡ true) ↔ (a ≡ b)
unfolding same_framing
same_framing_iff a b = is_yes_iff (framing_result_discrete a b)

instance abbrev framing_eq : ResultEq BodyFraming
framing_eq = record { same = same_framing; same_iff = same_framing_iff }

abbrev request : RequestLine
request = record {
  method = codes "post";
  target = codes "/";
  version = http11;
  bytes_consumed = 17;
}

abbrev field : String → String → HeaderField
field name value = record { name = codes name; value = codes value }

abbrev block : List HeaderField → HeaderBlock
block fields = record { fields = fields; bytes_consumed = 0 }

abbrev sized : HeaderBlock
sized = block (field "host" "a" ∷ field "content-length" " 12,12" ∷ [])

abbrev ambiguous : HeaderBlock
ambiguous = block (field "transfer-encoding" "chunked" ∷ field "content-length" "5" ∷ [])

abbrev streamed : HeaderBlock
streamed = block (field "transfer-encoding" "\tChunked " ∷ [])

framing_runs :
    (framing sized.fields ≡ ok (BodyFraming.content_length 12))
    × (framing ambiguous.fields ≡ err PolyguardError.ambiguous_framing)
    × (framing streamed.fields ≡ ok BodyFraming.chunked)
    × (framing (block (field "content-length" "1,2" ∷ [])).fields
        ≡ err PolyguardError.conflicting_content_length)
    × (framing (block (field "content-length" "0" ∷ [])).fields ≡ ok BodyFraming.none)
unfolding framing equal split trim eq_ignore_ascii_case
framing_runs = (refl, refl, refl, refl, refl)

transition-eq-framing_example :
    Transition.determine_body_framing request sized ≡ framing sized.fields
transition-eq-framing_example = Transition.transition-eq-framing request sized

bounded-eq-framing_example : Bounded.determine_body_framing request sized ≡ framing sized.fields
bounded-eq-framing_example = Bounded.bounded-eq-framing request sized

stream-eq-framing_example :
    Stream.determine_body_framing request ambiguous ≡ framing ambiguous.fields
stream-eq-framing_example = Stream.stream-eq-framing request ambiguous

matrix-eq-framing_example : Matrix.determine_body_framing request streamed ≡ framing streamed.fields
matrix-eq-framing_example = Matrix.matrix-eq-framing request streamed

determine_runs : determine matrix request sized ≡ ok (BodyFraming.content_length 12)
determine_runs = determine-eq-framing matrix request sized ∙ framing_runs.0

determine_sound_example : Describes sized.fields (BodyFraming.content_length 12)
determine_sound_example =
    determine_sound matrix request sized (BodyFraming.content_length 12) determine_runs

rule_table-eq-classification_example :
    RuleTable.classify_telemetry_outcome (codes "timeout") true
    ≡ classification (codes "timeout") true
rule_table-eq-classification_example = RuleTable.rule_table-eq-classification (codes "timeout") true

symbol_phases-eq-classification_example :
    SymbolPhases.classify_telemetry_outcome (codes "route_missing") true
    ≡ classification (codes "route_missing") true
symbol_phases-eq-classification_example =
    SymbolPhases.symbol_phases-eq-classification (codes "route_missing") true

length_dispatch-eq-classification_example :
    LengthDispatch.classify_telemetry_outcome (codes "accepted") false
    ≡ classification (codes "accepted") false
length_dispatch-eq-classification_example =
    LengthDispatch.length_dispatch-eq-classification (codes "accepted") false

fingerprint_index-eq-classification_example :
    FingerprintIndex.classify_telemetry_outcome (codes "overloaded") false
    ≡ classification (codes "overloaded") false
fingerprint_index-eq-classification_example =
    FingerprintIndex.fingerprint_index-eq-classification (codes "overloaded") false

abbrev two : Agreement
two = record { width = 2; quarantined = codes "b" ∷ []; primary = (codes "f", codes "c") ∷ [] }

abbrev entries : List (Bytes × FramingVariant)
entries =
    (codes "a", transition) ∷ (codes "b", bounded) ∷ (codes "c", stream) ∷ (codes "d", matrix) ∷ []

abbrev differing : List (Candidate BodyFraming)
differing =
    record { id = codes "a"; answer = some (ok BodyFraming.none) }
    ∷ record { id = codes "c"; answer = some (ok BodyFraming.chunked) }
    ∷ []

abbrev same_twice : List (Candidate BodyFraming)
same_twice =
    record { id = codes "a"; answer = some (ok BodyFraming.none) }
    ∷ record { id = codes "b"; answer = some (ok BodyFraming.chunked) }
    ∷ record { id = codes "c"; answer = some (ok BodyFraming.none) }
    ∷ []

run-verdict_example :
    (run two (codes "f") differing []).0
    ≡ verdict 2 (codes "f") (take 2 (in_order two (codes "f") differing))
run-verdict_example = run-verdict two (codes "f") differing [] (omega arith)

Gives-none :
    All
      (Gives (ok BodyFraming.none))
      (record { id = codes "a"; answer = some (ok BodyFraming.none) } ∷ [])
Gives-none = (λ o h. ground arith, tt)

run_agreed_example :
    (run two (codes "f") (record { id = codes "a"; answer = some (ok BodyFraming.none) } ∷ []) []).0
    ≡ (if leb 2 (
          length (
            in_order two
              (codes "f")
              (record { id = codes "a"; answer = some (ok BodyFraming.none) } ∷ [])))
        then to_fault (ok BodyFraming.none)
        else err internal)
run_agreed_example = run_agreed two (codes "f") _ [] (ok BodyFraming.none) (omega arith) Gives-none

same_twice_runs : (run two (codes "f") same_twice []).0 ≡ ok BodyFraming.none
unfolding run equal same_framing is_yes framing_result_discrete
same_twice_runs = refl

run-eq-ok_example :
    Unanimous
      (codes "f")
      BodyFraming.none
      2
      (asked_first two (codes "f") same_twice)
      []
      (run two (codes "f") same_twice []).1
run-eq-ok_example = run-eq-ok two (codes "f") same_twice [] (omega arith) same_twice_runs

same_twice_calls :
    map (λ call. call.implementation_id) (run two (codes "f") same_twice []).1
    ≡ codes "c" ∷ codes "a" ∷ []
unfolding run equal same_framing is_yes framing_result_discrete
same_twice_calls = refl

framing_agreed_example : (run two (codes "f") (framing_candidates request sized entries) []).0 ≡ (
    if leb 2 (length (in_order two (codes "f") (framing_candidates request sized entries)))
    then to_fault (framing sized.fields)
    else err internal)
framing_agreed_example = framing_agreed two (codes "f") request sized entries [] (omega arith)

-- The paths that are registered for a function
paths_for : ContractFunction → List Implementation → List Bytes
paths_for f [] = []
paths_for f (i ∷ is) = elim (provided f i) [
  | none ↦ paths_for f is
  | some path ↦ path ∷ paths_for f is
]

paths_distinct : (f : ContractFunction) → distinct (paths_for f registered_implementations) ≡ true
unfolding paths_for registered_implementations equal
paths_distinct parse_request_line = refl
paths_distinct _ = refl

abbrev three : Agreement
three = record { width = 3; quarantined = []; primary = [] }

-- A primary of the function, and two ids quarantined
abbrev degraded : Agreement
degraded = record {
  width = 3;
  quarantined = codes "body-framing-rule-matrix" ∷ codes "body-framing-direct-wrappers" ∷ [];
  primary = (codes "determine_body_framing", codes "body-framing-stream-machine") ∷ [];
}

-- The implementations of the framing by the paths at which the table has them
variant_at : Bytes → FramingVariant
variant_at path =
    if equal path (codes "implementations::body_framing_transition::determine_body_framing")
    then transition
    else if equal path (codes "implementations::body_framing_direct::determine_body_framing")
    then direct
    else if equal path (codes "implementations::body_framing_rule_matrix::determine_body_framing")
    then matrix
    else if equal path
        (codes "implementations::body_framing_stream_machine::determine_body_framing")
    then stream
    else bounded

abbrev framing_at : Bytes → PolyguardResult BodyFraming
framing_at path = determine (variant_at path) request sized

run-quarantined_example :
    (run degraded
      (codes "determine_body_framing")
      (candidates_of determine_body_framing framing_at registered_implementations)
      []).0
    ≡ to_fault (framing sized.fields)
run-quarantined_example =
    run-quarantined determine_body_framing framing_at degraded (codes "determine_body_framing") []
      (framing sized.fields) (omega arith) (omega arith)
      (candidates_of-Gives determine_body_framing framing_at (framing sized.fields)
        (λ path. determine-eq-framing (variant_at path) request sized) registered_implementations)
