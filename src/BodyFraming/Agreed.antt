-- ===== src/BodyFraming/Agreed.antt =====
-- The implementations of `determine_body_framing` under the agreement.
use polyform_polyguard.Agreement.Soundness.{Gives, run_agreed}
use polyform_polyguard.Agreement.Verdict.{in_order}
use polyform_polyguard.Agreement.{
  Candidate, Agreement, ResultEq, CallTelemetry, internal, to_fault, run,
}
use polyform_polyguard.Base.{
  ◌<◌, some, List, [], ◌∷◌, ◌≡◌, sym, ◌∙◌, Bytes, leb, length, if◌then◌else◌, All, ok, err,
}
use polyform_polyguard.BodyFraming.{framing}
use polyform_polyguard.BodyFraming.Sound.{Describes, framing_sound}
use polyform_polyguard.BodyFraming.Direct
use polyform_polyguard.BodyFraming.Transition
use polyform_polyguard.BodyFraming.Bounded
use polyform_polyguard.BodyFraming.Stream
use polyform_polyguard.BodyFraming.Matrix
use polyform_polyguard.Types.{RequestLine, HeaderBlock, BodyFraming, PolyguardResult}

pub data FramingVariant : Type 0 where
  direct transition bounded stream matrix : FramingVariant

unfoldable pub determine : FramingVariant → RequestLine → HeaderBlock → PolyguardResult BodyFraming
determine direct = Direct.determine_body_framing
determine transition = Transition.determine_body_framing
determine bounded = Bounded.determine_body_framing
determine stream = Stream.determine_body_framing
determine matrix = Matrix.determine_body_framing

pub determine-eq-framing :
    (v : FramingVariant) (request : RequestLine) (headers : HeaderBlock)
    → determine v request headers ≡ framing headers.fields
unfolding determine
determine-eq-framing direct request headers = Direct.direct-eq-framing request headers
determine-eq-framing transition request headers = Transition.transition-eq-framing request headers
determine-eq-framing bounded request headers = Bounded.bounded-eq-framing request headers
determine-eq-framing stream request headers = Stream.stream-eq-framing request headers
determine-eq-framing matrix request headers = Matrix.matrix-eq-framing request headers

-- Each of the five implementations that gives a framing gives one that describes the
-- fields: a request has at most one of the two fields; without a body or with a length n, there is
-- no transfer coding and every member of every length field reads n (0 for no body), and n is
-- positive and within the limit; chunked, there is no length field and one coding.
pub determine_sound :
    (v : FramingVariant) (request : RequestLine) (headers : HeaderBlock) (r : BodyFraming)
    → determine v request headers ≡ ok r
    → Describes headers.fields r
determine_sound v request headers r h =
    framing_sound headers.fields r (sym (determine-eq-framing v request headers) ∙ h)

-- Registered implementations of the function, by id, on one request.
pub framing_candidates :
    RequestLine → HeaderBlock → List (Bytes × FramingVariant) → List (Candidate BodyFraming)
framing_candidates request headers [] = []
framing_candidates request headers ((id, v) ∷ rest) =
    record { id = id; answer = some (determine v request headers) }
    ∷ framing_candidates request headers rest

framing_candidates-Gives :
    ⦃e : ResultEq BodyFraming⦄ (request : RequestLine) (headers : HeaderBlock)
    (entries : List (Bytes × FramingVariant))
    → All (Gives (framing headers.fields)) (framing_candidates request headers entries)
unfolding framing_candidates
framing_candidates-Gives request headers [] = tt
framing_candidates-Gives request headers ((id, v) ∷ rest) = (
  λ o h. cc (h, determine-eq-framing v request headers),
  framing_candidates-Gives request headers rest,
)

-- For every request and every selection of the five implementations, a call of
-- `determine_body_framing` under a width that is not zero never reports a disagreement: it gives
-- the described framing, or its error, if as many implementations as the width are not
-- quarantined, and an internal fault if they are fewer.
pub framing_agreed :
    ⦃e : ResultEq BodyFraming⦄ (agreement : Agreement) (function : Bytes) (request : RequestLine)
    (headers : HeaderBlock) (entries : List (Bytes × FramingVariant)) (trace : List CallTelemetry)
    → 0 < agreement.width
    → (run agreement function (framing_candidates request headers entries) trace).0 ≡ (
        if leb agreement.width
          (length (in_order agreement function (framing_candidates request headers entries)))
        then to_fault (framing headers.fields)
        else err internal)
framing_agreed agreement function request headers entries trace w =
    run_agreed agreement function _ trace (framing headers.fields) w
      (framing_candidates-Gives request headers entries)
