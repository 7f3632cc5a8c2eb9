-- ===== src/BodyFraming/Direct.antt =====
-- src/implementations/body_framing_direct.rs: the fields are classified in one pass, and loops over
-- positions read their members.
use polyform_polyguard.Base.{
  ℕ, zero, suc, ◌+◌, ◌-◌, ◌≤◌, ◌<◌, Bool, true, false, not, ◌&&◌, ◌||◌, Option, some, none, List,
  [], ◌∷◌, ◌≡◌, refl, ap, ◌∙◌, inl, inr, arith, Bytes, codes, ltb, ◌==◌, if◌then◌else◌, Bool-cases,
  Option-cases, length, take, drop, position, map_or, slice, is_empty, is_ascii_digit, equal,
  eq_ignore_ascii_case, ok, err, ◌>>=◌, ◌>>◌, ok_or, try_fold, try_fold-append, length-drop,
  take-length, drop-take_add, drop-add, checked_mul, checked_add, and_then, refuse_if, to_usize,
  bind_agree,
}
use polyform_polyguard.Base.Split.{split, split-none, split-some, position-lt}
use polyform_polyguard.Base.Trim.{trim, skip, shrink, slice-moved}
use polyform_polyguard.BodyFraming.Decimal.{fold-read_digit}
use polyform_polyguard.BodyFraming.Members.{names_exclusive}
use polyform_polyguard.BodyFraming.{
  content_length_name, transfer_encoding_name, is_ows, is_named, members, present, read_length,
  agree, of_agreed, of_codings, is_chunked, frame, framing, conflicts,
}
use polyform_polyguard.Types.{
  HeaderField, HeaderBlock, RequestLine, BodyFraming, PolyguardError, PolyguardResult,
  invalid_content_length, conflicting_content_length, invalid_transfer_encoding, limit_exceeded,
}

abbrev content_length_limit : ℕ
content_length_limit = 16_777_216

record ContentLengthFields : Type 0 where
  length_headers : HeaderBlock

record TransferEncodingFields : Type 0 where
  coding_headers : HeaderBlock

data FramingMetadata : Type 0 where
  absent : FramingMetadata
  content_length : ContentLengthFields → FramingMetadata
  transfer_encoding : TransferEncodingFields → FramingMetadata
  ambiguous : FramingMetadata

record DecimalLength : Type 0 where
  decimal_value : ℕ

-- What the two flags say at the end of the loop.
by_flags : HeaderBlock → Bool → Bool → FramingMetadata
by_flags headers true transfer_encoding_present =
    content_length (record { length_headers = headers })
by_flags headers false true = transfer_encoding (record { coding_headers = headers })
by_flags headers false false = absent

-- `for field in &headers.fields` with the two flags
classify_fields : HeaderBlock → List HeaderField → Bool → Bool → FramingMetadata
unfolding by_flags
classify_fields headers [] lengths codings = by_flags headers lengths codings
classify_fields headers (field ∷ fields) lengths codings =
    let is_length = equal field.name (codes "content-length") in
    let lengths' = if is_length then true else lengths in
    let codings' =
      if is_length
      then codings
      else if equal field.name (codes "transfer-encoding")
      then true
      else codings in
    let rest = classify_fields headers fields lengths' codings' in
    if lengths' && codings' then ambiguous else rest

classify_metadata : HeaderBlock → FramingMetadata
unfolding classify_fields
classify_metadata headers = classify_fields headers headers.fields false false

without_ows : Bytes → Bytes
without_ows bytes =
    let first = skip is_ows bytes (length bytes) 0 in
    let end = shrink is_ows bytes first (length bytes) in slice bytes first end

abbrev read_digit : ℕ → ℕ → PolyguardResult ℕ
read_digit value byte =
    if not (is_ascii_digit byte)
    then err invalid_content_length
    else ok_or (and_then (checked_mul value 10) (λ prefix. checked_add prefix (byte - b'0')))
        invalid_content_length

parse_decimal_length : Bytes → PolyguardResult DecimalLength
unfolding without_ows
parse_decimal_length raw = do
  let member = without_ows raw
  refuse_if (is_empty member) invalid_content_length
  value ← try_fold read_digit 0 member
  refuse_if (ltb content_length_limit value)
      (limit_exceeded (codes "content_length") content_length_limit (to_usize value))
  ok (record { decimal_value = value })

abbrev member_end : Bytes → ℕ → ℕ
member_end value member_start =
    map_or (position (λ byte. byte == b',') (drop member_start value)) (length value)
      (λ offset. member_start + offset)

module _ {S : Type 0} (body : S → Bytes → PolyguardResult S) where
  -- The `loop` over the members of a value, of which at most one stands at each position; `body` is
  -- what it does with a member and its variable.
  each_member : ℕ → Bytes → ℕ → S → PolyguardResult S
  each_member zero value member_start state = ok state
  each_member (suc fuel) value member_start state =
      let end = member_end value member_start in
      body state (slice value member_start end) >>= λ next.
      let rest = each_member fuel value (end + 1) next in
      if end == length value then ok next else rest

  -- `for field in &self.0.fields`, where the fields of other names are skipped
  each_field : Bytes → List HeaderField → S → PolyguardResult S
  unfolding each_member
  each_field name [] state = ok state
  each_field name (field ∷ fields) state =
      if not (equal field.name name)
      then each_field name fields state
      else each_member (suc (length field.value)) field.value 0 state >>= each_field name fields

-- `accepted` behind a member
accept_member : Option ℕ → Bytes → PolyguardResult (Option ℕ)
unfolding parse_decimal_length
accept_member accepted raw = do
  parsed ← parse_decimal_length raw
  refuse_if (map_or accepted false (λ previous. not (previous == parsed.decimal_value)))
      conflicting_content_length
  ok (some parsed.decimal_value)

validate_consistent : ContentLengthFields → PolyguardResult DecimalLength
unfolding accept_member each_field
validate_consistent fields = do
  accepted ← each_field accept_member (codes "content-length") fields.length_headers.fields none
  ok_or (map_or accepted none (λ value. some (record { decimal_value = value })))
      invalid_content_length

-- `members_seen` behind a member
see_member : ℕ → Bytes → PolyguardResult ℕ
unfolding without_ows
see_member members_seen raw =
    if not (members_seen + 1 == 1) || not (eq_ignore_ascii_case (without_ows raw) (codes "chunked"))
    then err invalid_transfer_encoding
    else ok (members_seen + 1)

validate_chunked : TransferEncodingFields → PolyguardResult Unit
unfolding see_member each_field
validate_chunked fields = do
  members_seen ← each_field see_member (codes "transfer-encoding") fields.coding_headers.fields 0
  refuse_if (not (members_seen == 1)) invalid_transfer_encoding

of_metadata : FramingMetadata → PolyguardResult BodyFraming
unfolding validate_chunked validate_consistent
of_metadata ambiguous = err PolyguardError.ambiguous_framing
of_metadata (transfer_encoding fields) = validate_chunked fields >> ok BodyFraming.chunked
of_metadata (content_length fields) = validate_consistent fields >>= λ length. ok (
    if length.decimal_value == 0
    then BodyFraming.none
    else BodyFraming.content_length length.decimal_value)
of_metadata absent = ok BodyFraming.none

pub determine_body_framing : RequestLine → HeaderBlock → PolyguardResult BodyFraming
unfolding classify_metadata of_metadata
determine_body_framing _ headers = of_metadata (classify_metadata headers)

without_ows-eq-trim : (s : Bytes) → without_ows s ≡ trim is_ows s
unfolding without_ows
without_ows-eq-trim s = slice-moved is_ows s

direct_length : ℕ → DecimalLength
direct_length v = record { decimal_value = v }

parse-eq-read_length :
    (raw : Bytes) → parse_decimal_length raw ≡ (read_length raw >>= λ v. ok (direct_length v))
unfolding parse_decimal_length read_length direct_length
parse-eq-read_length raw =
    let m = trim is_ows raw in
    rw (without_ows-eq-trim raw)
      (ground (arith, fold-read_digit invalid_content_length m 0 (omega arith)))

accept_read :
    (a : Option ℕ) (r : PolyguardResult ℕ)
    → ((r >>= λ v. ok (direct_length v)) >>= λ parsed.
        refuse_if
          (map_or a false (λ previous. not (previous == parsed.decimal_value)))
          conflicting_content_length
        >> ok (some parsed.decimal_value))
      ≡ (r >>= λ v. refuse_if (conflicts a v) conflicting_content_length >> ok (some v))
unfolding direct_length
accept_read none (ok v) = refl
accept_read (some p) (ok v) = refl
accept_read a (err e) = refl

accept_member-eq-agree : (a : Option ℕ) (m : Bytes) → accept_member a m ≡ agree a m
unfolding accept_member agree
accept_member-eq-agree a m = rw (parse-eq-read_length m) (accept_read a (read_length m))

module _ {S : Type 0} (body step : S → Bytes → PolyguardResult S)
    (same : (s : S) (m : Bytes) → body s m ≡ step s m) where
  -- The loop reads the members that are left, in order.
  each_member-fold :
      (fuel : ℕ) (value : Bytes) (start : ℕ) (state : S)
      → start ≤ length value
      → length value < start + fuel
      → each_member body fuel value start state
        ≡ try_fold step state (split b',' (drop start value))
  unfolding each_member
  each_member-fold zero value start state low h = absurd (omega arith)
  each_member-fold (suc fuel) value start state low h =
      elim (Option-cases (position (λ byte. byte == b',') (drop start value))) [
        | inl e ↦
            let whole : slice value start (length value) ≡ drop start value =
              ap (drop start) (take-length value) in
            let last : (length value == length value) ≡ true = ground arith in
            rw (e, whole, last, split-none b',' (drop start value) e, same state (drop start value))
              refl
        | inr (i, e) ↦
            let inside : i < length (drop start value) = position-lt b',' (drop start value) i e in
            let more : (start + i == length value) ≡ false =
              ground (arith, length-drop start value) in
            let next : start + i + 1 ≡ start + suc i = omega arith in
            let behind : drop (start + i + 1) value ≡ drop (suc i) (drop start value) =
              ap (λ n. drop n value) next ∙ drop-add start (suc i) value in
            rw
              (
                e,
                more,
                drop-take_add start i value,
                split-some b',' (drop start value) i e,
                same state (take i (drop start value)),
                ← behind,
              )
              (bind_agree (step state (take i (drop start value)))
                (λ s. each_member body fuel value (start + i + 1) s)
                (λ s. try_fold step s (split b',' (drop (start + i + 1) value)))
                (λ s _.
                  each_member-fold fuel value (start + i + 1) s
                    (omega (arith, length-drop start value)) (omega arith)))
      ]

  each_field-fold :
      (name : Bytes) (fs : List HeaderField) (state : S)
      → each_field body name fs state ≡ try_fold step state (members name fs)
  unfolding each_field members
  each_field-fold name [] state = refl
  each_field-fold name (f ∷ fs) state = elim (Bool-cases (is_named name f)) [
    | inr e ↦ rw e (each_field-fold name fs state)
    | inl e ↦
        rw
          (
            e,
            each_member-fold (suc (length f.value)) f.value 0 state (omega arith) (omega arith),
            try_fold-append step state (split b',' f.value) (members name fs),
          )
          (bind_agree (try_fold step state (split b',' f.value)) (each_field body name fs)
            (λ s. try_fold step s (members name fs)) (λ s _. each_field-fold name fs s))
  ]

agreed_result :
    (r : PolyguardResult (Option ℕ))
    → ((r >>= λ accepted.
          ok_or (map_or accepted none (λ value. some (direct_length value))) invalid_content_length)
        >>= λ length. ok (
            if length.decimal_value == 0
            then BodyFraming.none
            else BodyFraming.content_length length.decimal_value))
      ≡ (r >>= of_agreed)
unfolding direct_length
agreed_result (err e) = refl
agreed_result (ok none) = refl
agreed_result (ok (some v)) = refl

counted : ℕ → Bytes → PolyguardResult ℕ
counted seen m =
    if not (seen + 1 == 1) || not (is_chunked m)
    then err invalid_transfer_encoding
    else ok (seen + 1)

see_member-eq-counted : (seen : ℕ) (m : Bytes) → see_member seen m ≡ counted seen m
unfolding see_member counted
see_member-eq-counted seen m = rw (without_ows-eq-trim m) refl

counted-of_codings :
    (ms : List Bytes)
    → ((try_fold counted 0 ms >>= λ seen. refuse_if (not (seen == 1)) invalid_transfer_encoding)
        >> ok BodyFraming.chunked)
      ≡ of_codings ms
unfolding counted
counted-of_codings [] = refl
counted-of_codings (m ∷ []) = elim (Bool-cases (is_chunked m)) [
  | inl e ↦ rw e refl
  | inr e ↦ rw e refl
]
counted-of_codings (m ∷ n ∷ ms) = elim (Bool-cases (is_chunked m)) [
  | inl e ↦ rw e refl
  | inr e ↦ rw e refl
]

by_presence : HeaderBlock → Bool → Bool → FramingMetadata
unfolding by_flags
by_presence headers lengths codings =
    if lengths && codings then ambiguous else by_flags headers lengths codings

module _ (headers : HeaderBlock) (p q : Bool) (rest : Bool → Bool → FramingMetadata)
    (same : (a b : Bool)
      → (a && b) ≡ false
      → rest a b ≡ by_presence headers (a || p) (b || q)) where
  at_length :
      (a b : Bool)
      → (a && b) ≡ false
      → (if b then ambiguous else rest true b) ≡ by_presence headers (a || true) (b || q)
  at_length true true h = cc
  at_length true false h = same true false refl
  at_length false true h = unfold by_presence in refl
  at_length false false h = same true false refl

  at_coding :
      (a b : Bool)
      → (a && b) ≡ false
      → (if a then ambiguous else rest a true) ≡ by_presence headers (a || p) (b || true)
  at_coding true true h = cc
  at_coding true false h = unfold by_presence in refl
  at_coding false true h = same false true refl
  at_coding false false h = same false true refl

  at_other :
      (a b : Bool)
      → (a && b) ≡ false
      → (if a && b then ambiguous else rest a b) ≡ by_presence headers (a || p) (b || q)
  at_other a b h = rw h (same a b h)

and_true : (a : Bool) → (a && true) ≡ a
and_true true = refl
and_true false = refl

classify_fields-presence :
    (headers : HeaderBlock) (fs : List HeaderField) (a b : Bool)
    → (a && b) ≡ false
    → classify_fields headers fs a b
      ≡ by_presence headers
          (a || present content_length_name fs)
          (b || present transfer_encoding_name fs)
unfolding classify_fields
classify_fields-presence headers [] true true h = cc
classify_fields-presence headers [] true false h = unfold by_presence in refl
classify_fields-presence headers [] false true h = unfold by_presence in refl
classify_fields-presence headers [] false false h = unfold by_presence in refl
classify_fields-presence headers (f ∷ fs) a b h =
    let p = present content_length_name fs in
    let q = present transfer_encoding_name fs in
    let rest = classify_fields headers fs in
    let same = classify_fields-presence headers fs in
    elim (Bool-cases (is_named content_length_name f)) [
      | inl e ↦ rw (e, names_exclusive f e) (at_length headers p q rest same a b h)
      | inr e ↦ elim (Bool-cases (is_named transfer_encoding_name f)) [
        | inl g ↦ rw (e, g, and_true) (at_coding headers p q rest same a b h)
        | inr g ↦ rw (e, g) (at_other headers p q rest same a b h)
      ]
    ]

of_presence :
    (headers : HeaderBlock) (a b : Bool)
    → of_metadata (by_presence headers a b) ≡ frame a b headers.fields
unfolding of_metadata by_presence frame direct_length
of_presence headers true true = refl
of_presence headers false false = refl
of_presence headers true false =
    unfold validate_consistent in
    rw
      (each_field-fold accept_member agree accept_member-eq-agree (codes "content-length")
        headers.fields none)
      (agreed_result (try_fold agree none (members content_length_name headers.fields)))
of_presence headers false true =
    unfold validate_chunked in
    rw
      (each_field-fold see_member counted see_member-eq-counted (codes "transfer-encoding")
        headers.fields 0)
      (counted-of_codings (members transfer_encoding_name headers.fields))

-- The direct implementation gives the framing that the members of the two fields describe.
pub direct-eq-framing :
    (request : RequestLine) (headers : HeaderBlock)
    → determine_body_framing request headers ≡ framing headers.fields
unfolding determine_body_framing classify_metadata framing
direct-eq-framing request headers =
    ap of_metadata (classify_fields-presence headers headers.fields false false refl)
    ∙ of_presence headers (present content_length_name headers.fields)
        (present transfer_encoding_name headers.fields)
