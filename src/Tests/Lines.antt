-- ===== src/Tests/Lines.antt =====
-- Request lines that are read, printed and read back.
use polyform_polyguard.Base.{
  Bytes, List, [], ◌∷◌, ◌++◌, ◌≡◌, refl, codes, arith, ok, err, leb, length, if◌then◌else◌, Bool,
  true, false, ◌↔◌, ℕ_discrete,
}
use polyform_polyguard.Agreement.Verdict.{in_order}
use polyform_polyguard.Agreement.{Agreement, ResultEq, internal, to_fault, run}
use polyform_polyguard.Types.{RequestLine, PolyguardResult}
use polyform_polyguard.RequestLine.Agreed.{line_candidates, request_line_agreed}
use polyform_polyguard.RequestLine.Accepted.{parse-ok}
use polyform_polyguard.RequestLine.DecisionMachine
use polyform_polyguard.RequestLine.Direct
use polyform_polyguard.RequestLine.Printed.{Writable, printed, line_of, parse-printed}
use polyform_polyguard.RequestLine.ReverseOffsets
use polyform_polyguard.RequestLine.RuleWrappers
use polyform_polyguard.RequestLine.State
use polyform_polyguard.RequestLine.Variants.{RequestLineVariant, decision_machine, state, parse}
use polyform_polyguard.RequestLine.{request_line}

abbrev get : Bytes
get = codes "GET"

abbrev target : Bytes
target = codes "/a?b=c"

abbrev host : Bytes
host = codes "Host: a"

get-Writable : Writable get target
get-Writable = record {
  method_some = refl;
  method_bytes = refl;
  method_fits = omega arith;
  target_some = refl;
  target_bytes = refl;
  line_fits = omega arith;
}

abbrev input : Bytes
input = printed get target ++ host

parse-printed_example :
    parse decision_machine (printed get target ++ host) ≡ ok (line_of get target)
parse-printed_example = parse-printed decision_machine get target host get-Writable

abbrev accepted : parse state (printed get target ++ host) ≡ ok (line_of get target)
accepted = parse-printed state get target host get-Writable

parse-ok_example :
    (m : Bytes) × (t : Bytes) × (rest : Bytes) × Writable m t
    × (printed get target ++ host ≡ printed m t ++ rest)
    × (line_of get target ≡ line_of m t)
parse-ok_example = parse-ok state (printed get target ++ host) (line_of get target) accepted

direct-eq-request_line_example :
    Direct.parse_request_line (codes "GET  HTTP/1.1") ≡ request_line (codes "GET  HTTP/1.1")
direct-eq-request_line_example = Direct.direct-eq-request_line (codes "GET  HTTP/1.1")

state-eq-request_line_example :
    State.parse_request_line (printed get target ++ host)
    ≡ request_line (printed get target ++ host)
state-eq-request_line_example = State.state-eq-request_line (printed get target ++ host)

reverse_offsets-eq-request_line_example :
    ReverseOffsets.parse_request_line (printed get target ++ host)
    ≡ request_line (printed get target ++ host)
reverse_offsets-eq-request_line_example =
    ReverseOffsets.reverse_offsets-eq-request_line (printed get target ++ host)

rule_wrappers-eq-request_line_example :
    RuleWrappers.parse_request_line (printed get target ++ host)
    ≡ request_line (printed get target ++ host)
rule_wrappers-eq-request_line_example =
    RuleWrappers.rule_wrappers-eq-request_line (printed get target ++ host)

decision_machine-eq-request_line_example :
    DecisionMachine.parse_request_line (printed get target ++ host)
    ≡ request_line (printed get target ++ host)
decision_machine-eq-request_line_example =
    DecisionMachine.decision_machine-eq-request_line (printed get target ++ host)

line_result_discrete : Discrete (PolyguardResult RequestLine)
line_result_discrete = hlevel ℕ_discrete

same_line : PolyguardResult RequestLine → PolyguardResult RequestLine → Bool
same_line a b = elim (line_result_discrete a b) [ yes _ ↦ true | no _ ↦ false ]

same_line_iff : (a b : PolyguardResult RequestLine) → (same_line a b ≡ true) ↔ (a ≡ b)
unfolding same_line
same_line_iff a b = by_decision (line_result_discrete a b)
  where
    by_decision : (d : Dec (a ≡ b)) → ((elim d [ yes _ ↦ true | no _ ↦ false ]) ≡ true) ↔ (a ≡ b)
    by_decision (yes p) = (λ _. p, λ _. refl)
    by_decision (no n) = (λ h. cc, λ p. absurd (n p))

instance abbrev line_eq : ResultEq RequestLine
line_eq = record { same = same_line; same_iff = same_line_iff }

abbrev two : Agreement
two = record { width = 2; quarantined = []; primary = [] }

abbrev entries : List (Bytes × RequestLineVariant)
entries = (codes "a", state) ∷ (codes "b", decision_machine) ∷ []

request_line_agreed_example : (run two (codes "f") (line_candidates (codes "GET") entries) []).0 ≡ (
    if leb 2 (length (in_order two (codes "f") (line_candidates (codes "GET") entries)))
    then to_fault (request_line (codes "GET"))
    else err internal)
request_line_agreed_example =
    request_line_agreed two (codes "f") (codes "GET") entries [] (omega arith)
