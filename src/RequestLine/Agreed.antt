-- ===== src/RequestLine/Agreed.antt =====
-- The implementations of `parse_request_line` under the agreement.
use polyform_polyguard.Agreement.Soundness.{Gives, run_agreed}
use polyform_polyguard.Agreement.Verdict.{in_order}
use polyform_polyguard.Agreement.{
  Candidate, Agreement, ResultEq, CallTelemetry, internal, to_fault, run,
}
use polyform_polyguard.Base.{
  ◌<◌, some, List, [], ◌∷◌, ◌≡◌, Bytes, leb, length, if◌then◌else◌, All, err,
}
use polyform_polyguard.RequestLine.{request_line}
use polyform_polyguard.RequestLine.Variants.{RequestLineVariant, parse, parse-eq-request_line}
use polyform_polyguard.Types.{RequestLine}

-- Registered implementations of the function, by id, on one input.
pub line_candidates : Bytes → List (Bytes × RequestLineVariant) → List (Candidate RequestLine)
line_candidates input [] = []
line_candidates input ((id, v) ∷ rest) =
    record { id = id; answer = some (parse v input) } ∷ line_candidates input rest

line_candidates-Gives :
    ⦃e : ResultEq RequestLine⦄ (input : Bytes) (entries : List (Bytes × RequestLineVariant))
    → All (Gives (request_line input)) (line_candidates input entries)
unfolding line_candidates
line_candidates-Gives input [] = tt
line_candidates-Gives input ((id, v) ∷ rest) =
    (λ o h. cc (h, parse-eq-request_line v input), line_candidates-Gives input rest)

-- For every input and every selection of the five implementations, a call of `parse_request_line`
-- under a width that is not zero never reports a disagreement: it gives the described request
-- line, or its error, if as many implementations as the width are not quarantined, and an
-- internal fault if they are fewer.
pub request_line_agreed :
    ⦃e : ResultEq RequestLine⦄ (agreement : Agreement) (function input : Bytes)
    (entries : List (Bytes × RequestLineVariant)) (trace : List CallTelemetry)
    → 0 < agreement.width
    → (run agreement function (line_candidates input entries) trace).0 ≡ (
        if leb agreement.width
          (length (in_order agreement function (line_candidates input entries)))
        then to_fault (request_line input)
        else err internal)
request_line_agreed agreement function input entries trace w =
    run_agreed agreement function _ trace (request_line input) w
      (line_candidates-Gives input entries)
