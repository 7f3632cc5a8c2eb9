-- ===== src/BodyFraming/Transition.antt =====
-- src/implementations/body_framing_transition.rs: the presence of the two fields is folded into
-- two bits, and the members are folded with `try_fold`.
use Prim.Native.Nat.{bit_or}
use mathlib.Core.List.{foldl}
use mathlib.Core.Path.{fun_ext}
use polyform_polyguard.Base.{
  ℕ, suc, ◌+◌, ◌-◌, Bool, true, false, not, ◌||◌, Option, some, none, List, [], ◌∷◌, ◌++◌, ◌≡◌,
  refl, ap, ◌∙◌, arith, Bytes, ltb, ◌==◌, if◌then◌else◌, length, position, rposition, map_or,
  unwrap_or, slice, all, is_empty, is_ascii_digit, equal, eq_ignore_ascii_case, codes, ok, err,
  ◌>>=◌, ◌>>◌, ok_or, try_fold, checked_mul, checked_add, and_then, refuse_if, to_usize,
}
use polyform_polyguard.Base.Split.{split}
use polyform_polyguard.Base.Trim.{trim, slice-positions}
use polyform_polyguard.BodyFraming.Decimal.{fold-read_digit, fold-push_digit}
use polyform_polyguard.BodyFraming.Members.{names_exclusive, consensus_default, bits, bits-or}
use polyform_polyguard.BodyFraming.{
  of_length as framing_of_length, content_length_limit, content_length_name, transfer_encoding_name,
  is_ows, is_named, members, present, agree, of_codings, frame, framing,
}
use polyform_polyguard.Types.{
  HeaderField, HeaderBlock, RequestLine, BodyFraming, PolyguardError, PolyguardResult,
  invalid_content_length, conflicting_content_length, invalid_transfer_encoding, limit_exceeded,
}

abbrev has_content_length : ℕ
has_content_length = 0b01

abbrev has_transfer_encoding : ℕ
has_transfer_encoding = 0b10

abbrev has_both : ℕ
has_both = bit_or has_content_length has_transfer_encoding

abbrev flag : Bytes → ℕ
flag name =
    if equal name (codes "content-length")
    then has_content_length
    else if equal name (codes "transfer-encoding")
    then has_transfer_encoding
    else 0

metadata_state : List HeaderField → ℕ
metadata_state = foldl (λ state field. bit_or state (flag field.name)) 0

-- the iterator of `content_length_members`, and its like in `validate_transfer_encoding`
field_members : Bytes → List HeaderField → List Bytes
field_members name [] = []
field_members name (f ∷ fs) =
    if equal f.name name then split b',' f.value ++ field_members name fs else field_members name fs

content_length_members : HeaderBlock → List Bytes
unfolding field_members
content_length_members headers = field_members (codes "content-length") headers.fields

trim_ows : Bytes → Bytes
trim_ows bytes =
    let start = unwrap_or (position (λ byte. not (is_ows byte)) bytes) (length bytes) in
    let end = map_or (rposition (λ byte. not (is_ows byte)) bytes) start suc in
    slice bytes start end

abbrev push_digit : ℕ → ℕ → PolyguardResult ℕ
push_digit value digit =
    ok_or (and_then (checked_mul value 10) (λ v. checked_add v (digit - b'0')))
      invalid_content_length

accept_content_length : Option ℕ → Bytes → PolyguardResult (Option ℕ)
accept_content_length accepted raw = do
  let member = trim_ows raw
  refuse_if (is_empty member || not (all is_ascii_digit member)) invalid_content_length
  value ← try_fold push_digit 0 member
  refuse_if (ltb content_length_limit value)
      (limit_exceeded (codes "content_length") content_length_limit (to_usize value))
  refuse_if (map_or accepted false (λ previous. not (previous == value))) conflicting_content_length
  ok (some value)

count_member : ℕ → Bytes → PolyguardResult ℕ
count_member count raw =
    let member = trim_ows raw in
    if not (eq_ignore_ascii_case member (codes "chunked")) || not (count == 0)
    then err invalid_transfer_encoding
    else ok (count + 1)

validate_transfer_encoding : HeaderBlock → PolyguardResult (Unit {0})
unfolding count_member field_members
validate_transfer_encoding headers = do
  member_count ← try_fold count_member 0 (field_members (codes "transfer-encoding") headers.fields)
  if member_count == 1 then ok tt else err invalid_transfer_encoding

of_length : ℕ → PolyguardResult BodyFraming
of_length length =
    if length == 0 then ok BodyFraming.none else ok (BodyFraming.content_length length)

-- the match on the two bits
by_state : ℕ → HeaderBlock → PolyguardResult BodyFraming
unfolding accept_content_length validate_transfer_encoding of_length
by_state state headers =
    if state == has_both
    then err PolyguardError.ambiguous_framing
    else if state == has_transfer_encoding
    then validate_transfer_encoding headers >>= (λ _. ok BodyFraming.chunked)
    else if state == has_content_length
    then try_fold accept_content_length none (content_length_members headers)
      >>= (λ agreed. map_or agreed (ok BodyFraming.none) of_length)
    else ok BodyFraming.none

pub determine_body_framing : RequestLine → HeaderBlock → PolyguardResult BodyFraming
unfolding metadata_state by_state content_length_members trim_ows
determine_body_framing _ headers = by_state (metadata_state headers.fields) headers

foldl-bits :
    (fs : List HeaderField) (a b : Bool)
    → foldl (λ state field. bit_or state (flag field.name)) (bits a b) fs
      ≡ bits (a || present content_length_name fs) (b || present transfer_encoding_name fs)
foldl-bits [] a b = ground arith
foldl-bits (f ∷ fs) a b =
    rw
      (bits-or a b (is_named content_length_name f) (is_named transfer_encoding_name f)
        (names_exclusive f))
      (foldl-bits fs (a || is_named content_length_name f) (b || is_named transfer_encoding_name f)
        ∙ ground arith)

trim_ows-eq-trim : (s : Bytes) → trim_ows s ≡ trim is_ows s
unfolding trim_ows
trim_ows-eq-trim s = slice-positions is_ows s

accept_content_length-eq-agree :
    (a : Option ℕ) (raw : Bytes) → accept_content_length a raw ≡ agree a raw
unfolding accept_content_length agree
accept_content_length-eq-agree a raw =
    let m = trim is_ows raw in
    rw (trim_ows-eq-trim raw) (
      ground (
        arith,
        fold-read_digit invalid_content_length m 0 (omega arith),
        fold-push_digit invalid_content_length m 0,
      ))

field_members-eq-members : (n : Bytes) (fs : List HeaderField) → field_members n fs ≡ members n fs
unfolding field_members members
field_members-eq-members n [] = refl
field_members-eq-members n (f ∷ fs) = rw (field_members-eq-members n fs)

validate-of_codings :
    (ms : List Bytes)
    → (try_fold count_member 0 ms
        >>= (λ n. if n == 1 then ok tt else err invalid_transfer_encoding)
        >>= (λ (_ : Unit {0}). ok BodyFraming.chunked))
      ≡ of_codings ms
unfolding count_member
validate-of_codings [] = refl
validate-of_codings (m ∷ []) = rw (trim_ows-eq-trim m) (ground arith)
validate-of_codings (m ∷ m' ∷ ms) = rw (trim_ows-eq-trim m) (ground arith)

of_length_lem : (v : ℕ) → of_length v ≡ ok (framing_of_length v)
unfolding of_length
of_length_lem v = ground arith

by_state-bits :
    (headers : HeaderBlock) (a b : Bool)
    → present content_length_name headers.fields ≡ a
    → by_state (bits a b) headers ≡ frame a b headers.fields
by_state-bits headers true true h = unfold by_state frame in refl
by_state-bits headers false false h = unfold by_state frame in refl
by_state-bits headers false true h =
    unfold by_state validate_transfer_encoding frame in
    rw (field_members-eq-members transfer_encoding_name headers.fields)
      (validate-of_codings (members transfer_encoding_name headers.fields))
by_state-bits headers true false h =
    unfold by_state content_length_members frame in
    rw
      (
        field_members-eq-members content_length_name headers.fields,
        fun_ext (λ a. fun_ext (λ raw. accept_content_length-eq-agree a raw)),
      )
      (consensus_default headers.fields (ok BodyFraming.none) (err invalid_content_length) of_length
          h
        ∙ ap
            (λ g.
              try_fold agree none (members content_length_name headers.fields)
              >>= (λ b. map_or b (err invalid_content_length) g))
            (fun_ext of_length_lem))

-- The two-bit implementation gives the framing that the members of the two fields describe.
pub transition-eq-framing :
    (request : RequestLine) (headers : HeaderBlock)
    → determine_body_framing request headers ≡ framing headers.fields
unfolding determine_body_framing metadata_state framing
transition-eq-framing request headers =
    ap (λ s. by_state s headers) (foldl-bits headers.fields false false)
    ∙ by_state-bits headers (present content_length_name headers.fields)
        (present transfer_encoding_name headers.fields) refl
