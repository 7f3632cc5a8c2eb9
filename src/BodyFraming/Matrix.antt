-- ===== src/BodyFraming/Matrix.antt =====
-- src/implementations/body_framing_rule_matrix.rs: an inventory of the fields selects a rule of a
-- matrix, and the rule validates them.
use mathlib.Core.List.{foldl}
use mathlib.Core.Path.{fun_ext}
use polyform_polyguard.Base.{
  ℕ, zero, suc, ◌+◌, ◌-◌, ◌≤◌, Bool, true, false, not, ◌&&◌, Option, some, none, List, [], ◌∷◌,
  ◌++◌, ◌≡◌, refl, sym, ap, ◌∙◌, inl, inr, arith, Bytes, ltb, ◌==◌, if◌then◌else◌, Bool-cases,
  length, drop, get_elem?, drop-cons, slice-suc, drop-take_ge, find, map_or, slice, is_empty,
  is_ascii_digit, equal, eq_ignore_ascii_case, codes, ok, err, ◌>>=◌, ◌>>◌, ok_or, try_fold,
  try_fold-append, append-nil, append_assoc, checked_mul, checked_add, and_then, refuse_if,
  to_usize,
}
use mathlib.Core.List.{reverse}
use polyform_polyguard.Base.Split.{split, extend, split-cons}
use polyform_polyguard.Base.Trim.{trim, count_leading, slice-counts}
use polyform_polyguard.BodyFraming.Codings.{count_named, count_named-present, one_coding}
use polyform_polyguard.BodyFraming.Decimal.{fold-read_digit}
use polyform_polyguard.BodyFraming.Members.{names_exclusive, consensus-some}
use polyform_polyguard.BodyFraming.{
  content_length_limit, content_length_name, transfer_encoding_name, is_ows, is_named, members,
  present, read_length, agree, of_agreed, is_chunked, frame, framing, conflicts,
}
use polyform_polyguard.Types.{
  HeaderField, HeaderBlock, RequestLine, BodyFraming, PolyguardError, PolyguardResult,
  invalid_content_length, conflicting_content_length, invalid_transfer_encoding, limit_exceeded,
}

record PresenceKey : Type 0 where
  content_length : Bool
  transfer_encoding : Bool

record HeaderInventory : Type 0 where
  key : PresenceKey
  content_length_fields : ℕ
  transfer_encoding_fields : ℕ

data ValidationRule : Type 0 where
  no_metadata content_length transfer_encoding ambiguous : ValidationRule

record RuleRow : Type 0 where
  key : PresenceKey
  validation : ValidationRule

abbrev presence_key : Bool → Bool → PresenceKey
presence_key a b = record { content_length = a; transfer_encoding = b }

abbrev row : Bool → Bool → ValidationRule → RuleRow
row a b rule = record { key = presence_key a b; validation = rule }

abbrev rule_matrix : List RuleRow
rule_matrix =
    row false false no_metadata
    ∷ row true false content_length
    ∷ row false true transfer_encoding
    ∷ row true true ambiguous
    ∷ []

data ValidatedFraming : Type 0 where
  no_body : ValidatedFraming
  fixed : ℕ → ValidatedFraming
  chunked : ValidatedFraming

count_field : ℕ × ℕ → HeaderField → ℕ × ℕ
count_field (content_lengths, transfer_encodings) field =
    if equal field.name (codes "content-length")
    then (content_lengths + 1, transfer_encodings)
    else if equal field.name (codes "transfer-encoding")
    then (content_lengths, transfer_encodings + 1)
    else (content_lengths, transfer_encodings)

inventory : HeaderBlock → HeaderInventory
unfolding count_field
inventory headers =
    let counts = foldl count_field (0, 0) headers.fields in
    record {
      key = presence_key (not (counts.0 == 0)) (not (counts.1 == 0));
      content_length_fields = counts.0;
      transfer_encoding_fields = counts.1;
    }

same_bit : Bool → Bool → Bool
same_bit true b = b
same_bit false b = not b

same_key : PresenceKey → PresenceKey → Bool
same_key a b =
    same_bit a.content_length b.content_length && same_bit a.transfer_encoding b.transfer_encoding

-- `expect`: the matrix has a row for every key, so the default stands for no case.
lookup_rule : PresenceKey → ValidationRule
unfolding same_key same_bit
lookup_rule key = map_or (find (λ r. same_key r.key key) rule_matrix) ambiguous (λ r. r.validation)

trim_ows : Bytes → Bytes
trim_ows bytes =
    let leading = count_leading is_ows bytes in
    let trailing = count_leading is_ows (reverse (drop leading bytes)) in
    slice bytes leading (length bytes - trailing)

abbrev read_digit : ℕ → ℕ → PolyguardResult ℕ
read_digit value byte =
    if not (is_ascii_digit byte)
    then err invalid_content_length
    else ok_or (and_then (checked_mul value 10) (λ prefix. checked_add prefix (byte - b'0')))
        invalid_content_length

parse_decimal_member : Bytes → PolyguardResult ℕ
parse_decimal_member raw = do
  let member = trim_ows raw
  refuse_if (is_empty member) invalid_content_length
  value ← try_fold read_digit 0 member
  refuse_if (ltb content_length_limit value)
      (limit_exceeded (codes "content_length") content_length_limit (to_usize value))
  ok value

-- `for boundary in 0..=raw.len()`, with `left` boundaries to go; the state is `member_start` and
-- `agreed`.
boundaries : ℕ → ℕ → Bytes → ℕ → Option ℕ → PolyguardResult (Option ℕ)
boundaries zero boundary raw member_start agreed = ok agreed
boundaries (suc left) boundary raw member_start agreed =
    let skip = boundaries left (suc boundary) raw member_start agreed in
    let cut = parse_decimal_member (slice raw member_start boundary) >>= λ value.
    refuse_if (conflicts agreed value) conflicting_content_length
    >> boundaries left (suc boundary) raw (boundary + 1) (some value) in
    if not (boundary == length raw) && map_or (get_elem? raw boundary) true (λ c. not (c == b','))
    then skip
    else cut

validate_content_length_field : Bytes → Option ℕ → PolyguardResult ℕ
unfolding boundaries parse_decimal_member
validate_content_length_field raw agreed =
    boundaries (suc (length raw)) 0 raw 0 agreed >>= λ agreed'. ok_or agreed' invalid_content_length

length_fields : List HeaderField → Option ℕ → PolyguardResult (Option ℕ)
length_fields [] agreed = ok agreed
length_fields (field ∷ fields) agreed =
    if not (equal field.name (codes "content-length"))
    then length_fields fields agreed
    else validate_content_length_field field.value agreed >>= λ value.
        length_fields fields (some value)

validate_content_lengths : HeaderBlock → PolyguardResult ℕ
unfolding length_fields validate_content_length_field
validate_content_lengths headers =
    length_fields headers.fields none >>= λ agreed. ok_or agreed invalid_content_length

validate_transfer_encoding : HeaderInventory → HeaderBlock → PolyguardResult (Unit {0})
validate_transfer_encoding counted headers = do
  refuse_if (not (counted.transfer_encoding_fields == 1)) invalid_transfer_encoding
  field ←
      ok_or (find (λ field. equal field.name (codes "transfer-encoding")) headers.fields)
        invalid_transfer_encoding
  if eq_ignore_ascii_case (trim_ows field.value) (codes "chunked")
      then ok tt
      else err invalid_transfer_encoding

validate_rule : ValidationRule → HeaderInventory → HeaderBlock → PolyguardResult ValidatedFraming
validate_rule no_metadata counted headers = ok no_body
validate_rule ambiguous counted headers = err PolyguardError.ambiguous_framing
validate_rule content_length counted headers = validate_content_lengths headers >>= λ length.
    ok (if length == 0 then no_body else fixed length)
validate_rule transfer_encoding counted headers =
    validate_transfer_encoding counted headers >>= λ (_ : Unit {0}). ok chunked

render : ValidatedFraming → BodyFraming
render no_body = BodyFraming.none
render (fixed length) = BodyFraming.content_length length
render chunked = BodyFraming.chunked

pub determine_body_framing : RequestLine → HeaderBlock → PolyguardResult BodyFraming
determine_body_framing _ headers =
    let counted = inventory headers in
    validate_rule (lookup_rule counted.key) counted headers >>= λ validated. ok (render validated)

trim_ows-eq-trim : (s : Bytes) → trim_ows s ≡ trim is_ows s
unfolding trim_ows
trim_ows-eq-trim s = slice-counts is_ows s

parse-eq-read_length : (raw : Bytes) → parse_decimal_member raw ≡ read_length raw
unfolding parse_decimal_member read_length
parse-eq-read_length raw =
    let m = trim is_ows raw in
    rw (trim_ows-eq-trim raw)
      (ground (arith, fold-read_digit invalid_content_length m 0 (omega arith)))

-- The parts behind a part that is being read.
split_from : Bytes → Bytes → List Bytes
split_from cur [] = cur ∷ []
split_from cur (c ∷ rest) = elim (c == b',') [
  | true ↦ cur ∷ split_from [] rest
  | false ↦ split_from (cur ++ c ∷ []) rest
]

prepend : Bytes → List Bytes → List Bytes
prepend cur [] = cur ∷ []
prepend cur (p ∷ ps) = (cur ++ p) ∷ ps

prepend-extend :
    (cur : Bytes) (c : ℕ) (ps : List Bytes) → prepend (cur ++ c ∷ []) ps ≡ prepend cur (extend c ps)
unfolding prepend
prepend-extend cur c [] = refl
prepend-extend cur c (p ∷ ps) = rw append_assoc

prepend-nil : (s : Bytes) → prepend [] (split b',' s) ≡ split b',' s
prepend-nil s = let (a, rest, e) = split-cons b',' s in rw e (unfold prepend in refl)

split_from-nil : (cur : Bytes) → split_from cur [] ≡ cur ∷ []
unfolding split_from
split_from-nil cur = refl

split_from-comma :
    (cur : Bytes) (c : ℕ) (rest : Bytes)
    → (c == b',') ≡ true
    → split_from cur (c ∷ rest) ≡ cur ∷ split_from [] rest
split_from-comma cur c rest h = unfold split_from in rw (h, split_from)

split_from-other :
    (cur : Bytes) (c : ℕ) (rest : Bytes)
    → (c == b',') ≡ false
    → split_from cur (c ∷ rest) ≡ split_from (cur ++ c ∷ []) rest
split_from-other cur c rest h = unfold split_from in rw (h, split_from)

split_from-prepend : (rest cur : Bytes) → split_from cur rest ≡ prepend cur (split b',' rest)
unfolding split prepend
split_from-prepend [] cur = rw (split_from-nil cur, append-nil)
split_from-prepend (c ∷ rest) cur = elim (Bool-cases (c == b',')) [
  | inl e ↦
      rw (split_from-comma cur c rest e, e, append-nil)
        (ap (◌∷◌ cur) (split_from-prepend rest [] ∙ prepend-nil rest))
  | inr e ↦
      rw (split_from-other cur c rest e, e)
        (split_from-prepend rest (cur ++ c ∷ []) ∙ prepend-extend cur c (split b',' rest))
]

cut-agree :
    {B : Type 0} (r : PolyguardResult ℕ) (a : Option ℕ) (k : Option ℕ → PolyguardResult B)
    → (r >>= λ v. refuse_if (conflicts a v) conflicting_content_length >> k (some v))
      ≡ ((r >>= λ v. refuse_if (conflicts a v) conflicting_content_length >> ok (some v)) >>= k)
cut-agree (err e) a k = refl
cut-agree (ok v) a k = elim (Bool-cases (conflicts a v)) [ inl h ↦ rw h | inr h ↦ rw h ]

parse-agree :
    {B : Type 0} (m : Bytes) (a : Option ℕ) (k : Option ℕ → PolyguardResult B)
    → (parse_decimal_member m >>= λ v.
        refuse_if (conflicts a v) conflicting_content_length >> k (some v))
      ≡ (agree a m >>= k)
unfolding agree
parse-agree m a k = rw (parse-eq-read_length m) (cut-agree (read_length m) a k)

boundaries-agree :
    (rest raw : Bytes) (m b : ℕ) (a : Option ℕ)
    → drop b raw ≡ rest
    → m ≤ b
    → b + length rest ≡ length raw
    → boundaries (suc (length rest)) b raw m a ≡ try_fold agree a (split_from (slice raw m b) rest)
unfolding boundaries
boundaries-agree [] raw m b a d h e =
    let at_end : (b == length raw) ≡ true = ground arith in
    rw (split_from-nil (slice raw m b), at_end) (parse-agree (slice raw m b) a ok)
boundaries-agree (c ∷ rest) raw m b a d h e =
    let (here, later) = drop-cons b raw d in
    let inside : (b == length raw) ≡ false = ground arith in
    elim (Bool-cases (c == b',')) [
      | inl comma ↦
          let empty : slice raw (b + 1) (suc b) ≡ [] =
            drop-take_ge (b + 1) (suc b) raw (omega arith) in
          rw (split_from-comma (slice raw m b) c rest comma) (
            rw (inside, here, comma)
              (parse-agree (slice raw m b) a (boundaries (suc (length rest)) (suc b) raw (b + 1))
                ∙ ap (◌>>=◌ (agree a (slice raw m b))) (
                    fun_ext λ a'.
                      boundaries-agree rest raw (b + 1) (suc b) a' later (omega arith) (omega arith)
                      ∙ ap (λ t. try_fold agree a' (split_from t rest)) empty)))
      | inr other ↦
          rw
            (
              split_from-other (slice raw m b) c rest other,
              ← slice-suc m b raw h (omega arith) here,
            )
            (rw (inside, here, other)
              (boundaries-agree rest raw m (suc b) a later (omega arith) (omega arith)))
    ]

field-agree :
    (raw : Bytes) (a : Option ℕ)
    → validate_content_length_field raw a
      ≡ (try_fold agree a (split b',' raw) >>= λ b. ok_or b invalid_content_length)
unfolding validate_content_length_field
field-agree raw a =
    ap (λ r. r >>= λ b. ok_or b invalid_content_length)
      (boundaries-agree raw raw 0 0 a refl (omega arith) (omega arith)
        ∙ ap (try_fold agree a) (split_from-prepend raw [] ∙ prepend-nil raw))

agreed_then :
    {B : Type 0} (r : PolyguardResult (Option ℕ)) (k : Option ℕ → PolyguardResult B)
    → ((b : Option ℕ) → r ≡ ok b → (v : ℕ) × (b ≡ some v))
    → ((r >>= λ b. ok_or b invalid_content_length) >>= λ v. k (some v)) ≡ (r >>= k)
agreed_then (err e) k h = refl
agreed_then (ok b) k h = let (v, e) = h b refl in rw e

length_fields-agree :
    (fs : List HeaderField) (a : Option ℕ)
    → length_fields fs a ≡ try_fold agree a (members content_length_name fs)
unfolding length_fields members
length_fields-agree [] a = refl
length_fields-agree (f ∷ fs) a = elim (Bool-cases (is_named content_length_name f)) [
  | inr e ↦ rw e (length_fields-agree fs a)
  | inl e ↦
      let here = split b',' f.value in
      let later = members content_length_name fs in
      let (m, rest, g) = split-cons b',' f.value in
      rw (e, field-agree f.value a, try_fold-append agree a here later)
        (agreed_then (try_fold agree a here) (length_fields fs)
            (λ b r. consensus-some a m rest (ap (try_fold agree a) (sym g) ∙ r))
          ∙ ap (◌>>=◌ (try_fold agree a here)) (fun_ext (length_fields-agree fs)))
]

foldl-count_field :
    (fs : List HeaderField) (a b : ℕ)
    → foldl count_field (a, b) fs
      ≡ (a + count_named content_length_name fs, b + count_named transfer_encoding_name fs)
unfolding count_field count_named
foldl-count_field [] a b = ground arith
foldl-count_field (f ∷ fs) a b = elim (Bool-cases (is_named content_length_name f)) [
  | inl e ↦ rw (e, names_exclusive f e, foldl-count_field fs (a + 1) b) (ground arith)
  | inr e ↦ elim (Bool-cases (is_named transfer_encoding_name f)) [
    | inl t ↦ rw (e, t, foldl-count_field fs a (b + 1)) (ground arith)
    | inr t ↦ rw (e, t, foldl-count_field fs a b) refl
  ]
]

counts_of : List HeaderField → ℕ × ℕ
counts_of fs = (count_named content_length_name fs, count_named transfer_encoding_name fs)

foldl-counts_of : (fs : List HeaderField) → foldl count_field (0, 0) fs ≡ counts_of fs
unfolding counts_of
foldl-counts_of fs = ground (arith, foldl-count_field fs 0 0)

-- The validation from the two counts.
by_counts : HeaderBlock → ℕ × ℕ → PolyguardResult BodyFraming
by_counts headers counts =
    let counted : HeaderInventory = record {
      key = presence_key (not (counts.0 == 0)) (not (counts.1 == 0));
      content_length_fields = counts.0;
      transfer_encoding_fields = counts.1;
    } in
    validate_rule (lookup_rule counted.key) counted headers >>= λ validated. ok (render validated)

check_transfer :
    (counted : HeaderInventory) (headers : HeaderBlock) (first : Option HeaderField)
    → find (is_named transfer_encoding_name) headers.fields ≡ first
    → ((validate_transfer_encoding counted headers >>= λ (_ : Unit {0}).
          ok ValidatedFraming.chunked)
        >>= λ validated. ok (render validated))
      ≡ (if counted.transfer_encoding_fields == 1
          then map_or first (err invalid_transfer_encoding) (λ f.
            if is_chunked f.value then ok BodyFraming.chunked else err invalid_transfer_encoding)
          else err invalid_transfer_encoding)
unfolding validate_transfer_encoding render
check_transfer counted headers none h = rw h (ground arith)
check_transfer counted headers (some f) h = rw (h, trim_ows-eq-trim f.value) (ground arith)

lengths_result :
    (r : PolyguardResult (Option ℕ))
    → (((r >>= λ agreed. ok_or agreed invalid_content_length) >>= λ length.
          ok (if length == 0 then no_body else fixed length))
        >>= λ validated. ok (render validated))
      ≡ (r >>= of_agreed)
unfolding render
lengths_result (err e) = refl
lengths_result (ok none) = refl
lengths_result (ok (some v)) = ground arith

by_counts-frame :
    (headers : HeaderBlock) (a b : Bool)
    → present content_length_name headers.fields ≡ a
    → present transfer_encoding_name headers.fields ≡ b
    → by_counts headers (counts_of headers.fields) ≡ frame a b headers.fields
unfolding by_counts counts_of lookup_rule validate_rule frame
by_counts-frame headers true true h k =
    rw
      (
        count_named-present content_length_name headers.fields,
        h,
        count_named-present transfer_encoding_name headers.fields,
        k,
      )
      refl
by_counts-frame headers false true h k =
    rw
      (
        count_named-present content_length_name headers.fields,
        h,
        count_named-present transfer_encoding_name headers.fields,
        k,
      )
      (check_transfer _ headers (find (is_named transfer_encoding_name) headers.fields) refl
        ∙ sym (one_coding transfer_encoding_name headers.fields))
by_counts-frame headers true false h k =
    rw
      (
        count_named-present content_length_name headers.fields,
        h,
        count_named-present transfer_encoding_name headers.fields,
        k,
      )
      (unfold validate_content_lengths in
        rw (length_fields-agree headers.fields none)
          (lengths_result (try_fold agree none (members content_length_name headers.fields))))
by_counts-frame headers false false h k =
    rw
      (
        count_named-present content_length_name headers.fields,
        h,
        count_named-present transfer_encoding_name headers.fields,
        k,
      )
      (unfold render in refl)

-- The rule-matrix implementation gives the framing that the members of the two fields describe.
pub matrix-eq-framing :
    (request : RequestLine) (headers : HeaderBlock)
    → determine_body_framing request headers ≡ framing headers.fields
unfolding determine_body_framing inventory framing by_counts
matrix-eq-framing request headers =
    ap (by_counts headers) (foldl-counts_of headers.fields)
    ∙ by_counts-frame headers (present content_length_name headers.fields)
        (present transfer_encoding_name headers.fields) refl refl
