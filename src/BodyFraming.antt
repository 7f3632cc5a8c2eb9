-- ===== src/BodyFraming.antt =====
-- `determine_body_framing`: how the body of a request is delimited. This file describes the
-- outcome from the list of all members of the two fields; the children are the five
-- implementations of src/implementations/body_framing_*.rs.
pub mod Decimal
pub mod Members
pub mod Codings
pub mod Transition
pub mod Bounded
pub mod Stream
pub mod Matrix
pub mod Direct
pub mod Sound
pub mod Agreed
use polyform_polyguard.Base.{
  ℕ, ◌*◌, ◌+◌, ◌-◌, Bool, true, false, not, ◌&&◌, ◌||◌, Option, none, some, List, [], ◌∷◌, ◌++◌,
  Bytes, codes, ltb, ◌==◌, if◌then◌else◌, all, is_empty, is_ascii_digit, equal,
  eq_ignore_ascii_case, ok, err, ◌>>=◌, ◌>>◌, refuse_if, try_fold, map_or, u64_max, to_usize,
}
use polyform_polyguard.Base.Split.{split}
use polyform_polyguard.Base.Trim.{trim}
use polyform_polyguard.Types.{
  HeaderField, BodyFraming, PolyguardError, PolyguardResult, invalid_content_length,
  conflicting_content_length, invalid_transfer_encoding, limit_exceeded,
}

abbrev pub content_length_limit : ℕ
content_length_limit = 16_777_216

abbrev pub content_length_name : Bytes
content_length_name = codes "content-length"

abbrev pub transfer_encoding_name : Bytes
transfer_encoding_name = codes "transfer-encoding"

abbrev pub is_ows : ℕ → Bool
is_ows c = c == b' ' || c == b'\t'

abbrev pub is_named : Bytes → HeaderField → Bool
is_named n f = equal f.name n

-- The number that digits spell behind `v`, with no bound.
abbrev pub decimal : ℕ → Bytes → ℕ
decimal v [] = v
decimal v (c ∷ s) = decimal (v * 10 + (c - b'0')) s

-- All comma-separated members of the fields of one name, in order.
pub members : Bytes → List HeaderField → List Bytes
members n [] = []
members n (f ∷ fs) = if is_named n f then split b',' f.value ++ members n fs else members n fs

abbrev pub present : Bytes → List HeaderField → Bool
present n [] = false
present n (f ∷ fs) = is_named n f || present n fs

abbrev pub excessive_length : ℕ → PolyguardError
excessive_length v = limit_exceeded (codes "content_length") content_length_limit (to_usize v)

-- The length that one member spells.
pub read_length : Bytes → PolyguardResult ℕ
read_length raw =
    let digits = trim is_ows raw in
    if is_empty digits || not (all is_ascii_digit digits) || ltb u64_max (decimal 0 digits)
    then err invalid_content_length
    else if ltb content_length_limit (decimal 0 digits)
    then err (excessive_length (decimal 0 digits))
    else ok (decimal 0 digits)

abbrev pub conflicts : Option ℕ → ℕ → Bool
conflicts none v = false
conflicts (some agreed) v = not (agreed == v)

pub agree : Option ℕ → Bytes → PolyguardResult (Option ℕ)
unfolding read_length
agree agreed raw = do
  v ← read_length raw
  refuse_if (conflicts agreed v) conflicting_content_length
  ok (some v)

abbrev pub of_length : ℕ → BodyFraming
of_length v = if v == 0 then BodyFraming.none else BodyFraming.content_length v

abbrev pub of_agreed : Option ℕ → PolyguardResult BodyFraming
of_agreed agreed = map_or agreed (err invalid_content_length) (λ v. ok (of_length v))

abbrev pub is_chunked : Bytes → Bool
is_chunked raw = eq_ignore_ascii_case (trim is_ows raw) (codes "chunked")

abbrev pub of_codings : List Bytes → PolyguardResult BodyFraming
of_codings [] = err invalid_transfer_encoding
of_codings (m ∷ []) = if is_chunked m then ok BodyFraming.chunked else err invalid_transfer_encoding
of_codings (m ∷ _ ∷ _) = err invalid_transfer_encoding

-- The framing, by the presence of a content length and of a transfer encoding.
pub frame : Bool → Bool → List HeaderField → PolyguardResult BodyFraming
unfolding members agree
frame true true fs = err PolyguardError.ambiguous_framing
frame false true fs = of_codings (members transfer_encoding_name fs)
frame true false fs = try_fold agree none (members content_length_name fs) >>= of_agreed
frame false false fs = ok BodyFraming.none

unfoldable pub framing : List HeaderField → PolyguardResult BodyFraming
unfolding frame
framing fs = frame (present content_length_name fs) (present transfer_encoding_name fs) fs
