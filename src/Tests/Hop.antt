-- ===== src/Tests/Hop.antt =====
-- Header blocks that the implementations sanitize or refuse, and the implementations that complete
-- the telemetry and the body framing.
use Prim.Native.String.{String}
use polyform_polyguard.Base.{codes, List, [], ◌∷◌, ◌≡◌, refl, true, ◌∙◌, ok, err, equal}
use polyform_polyguard.Base.Names.{of_names, insert, less}
use polyform_polyguard.Base.Split.{split}
use polyform_polyguard.Base.Trim.{trim}
use polyform_polyguard.BodyFraming.Direct
use polyform_polyguard.BodyFraming.{framing}
use polyform_polyguard.HopByHop.Sound.{Sanitizes, remove-Sanitizes}
use polyform_polyguard.HopByHop.Variants.{composable, typed_pipeline, remove, remove-eq-sanitized}
use polyform_polyguard.HopByHop.{sanitized, bad_token}
use polyform_polyguard.Telemetry.WordComposition
use polyform_polyguard.Telemetry.{classification}
use polyform_polyguard.Types.{HeaderField, HeaderBlock, RequestLine, SanitizedHeaders, http11}

abbrev field : String → String → HeaderField
field name value = record { name = codes name; value = codes value }

abbrev block : List HeaderField → HeaderBlock
block fields = record { fields = fields; bytes_consumed = 0 }

abbrev nominating : HeaderBlock
nominating =
    block
      (field "host" "a" ∷ field "x-y" "1" ∷ field "connection" " X-Y ,close" ∷ field "te" "" ∷ [])

abbrev trailing_comma : HeaderBlock
trailing_comma = block (field "host" "a" ∷ field "connection" "close," ∷ [])

abbrev outcome : SanitizedHeaders
outcome = record {
  fields = field "host" "a" ∷ [];
  removed_names = codes "close" ∷ codes "connection" ∷ codes "te" ∷ codes "x-y" ∷ [];
}

sanitized_runs : sanitized nominating ≡ ok outcome
unfolding sanitized equal split trim of_names insert less
sanitized_runs = refl

sanitized_refuses : sanitized trailing_comma ≡ err (bad_token 1)
unfolding sanitized equal split trim
sanitized_refuses = refl

remove-eq-sanitized_example : remove typed_pipeline trailing_comma ≡ sanitized trailing_comma
remove-eq-sanitized_example = remove-eq-sanitized typed_pipeline trailing_comma

remove_runs : remove composable nominating ≡ ok outcome
remove_runs = remove-eq-sanitized composable nominating ∙ sanitized_runs

remove-Sanitizes_example : Sanitizes nominating outcome
remove-Sanitizes_example = remove-Sanitizes composable nominating outcome remove_runs

word_composition-eq-classification_example :
    WordComposition.classify_telemetry_outcome (codes "route_missing") true
    ≡ classification (codes "route_missing") true
word_composition-eq-classification_example =
    WordComposition.word_composition-eq-classification (codes "route_missing") true

abbrev request : RequestLine
request = record {
  method = codes "post";
  target = codes "/";
  version = http11;
  bytes_consumed = 17;
}

abbrev sized : HeaderBlock
sized = block (field "host" "a" ∷ field "content-length" " 12,12" ∷ [])

direct-eq-framing_example : Direct.determine_body_framing request sized ≡ framing sized.fields
direct-eq-framing_example = Direct.direct-eq-framing request sized
