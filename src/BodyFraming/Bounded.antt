-- ===== src/BodyFraming/Bounded.antt =====
-- src/implementations/body_framing_bounded_domain.rs: the fields are counted, lengths go through
-- a bounded type and a consensus object, and members through an iterator.
use mathlib.Core.Path.{fun_ext}
use polyform_polyguard.Base.{
  ℕ, zero, suc, ◌+◌, ◌-◌, ◌<◌, Bool, true, false, not, ◌&&◌, Option, some, none, List, [], ◌∷◌, ◌≡◌,
  refl, sym, ap, ◌∙◌, inl, inr, arith, Bytes, ltb, ◌==◌, if◌then◌else◌, Bool-cases, Option-cases,
  length, take, drop, position, rposition, find, map_or, unwrap_or, slice, is_empty, is_ascii_digit,
  equal, eq_ignore_ascii_case, codes, ok, err, ◌>>=◌, ◌>>◌, ok_or, try_fold, try_fold-append,
  bind_assoc, length-drop, checked_mul, checked_add, and_then, refuse_if, to_usize,
}
use polyform_polyguard.Base.Split.{split, split-none, split-some, position-lt}
use polyform_polyguard.Base.Trim.{trim, slice-positions}
use polyform_polyguard.BodyFraming.Codings.{count_named, count_named-present, one_coding}
use polyform_polyguard.BodyFraming.Decimal.{fold-read_digit}
use polyform_polyguard.BodyFraming.{
  content_length_name, transfer_encoding_name, is_ows, is_named, members, present, read_length,
  agree, of_agreed, is_chunked, frame, framing, conflicts, of_length,
}
use polyform_polyguard.Types.{
  HeaderField, HeaderBlock, RequestLine, BodyFraming, PolyguardError, PolyguardResult,
  invalid_content_length, conflicting_content_length, invalid_transfer_encoding, limit_exceeded,
}

abbrev max_content_length : ℕ
max_content_length = 16_777_216

-- `BoundedLength`
record BoundedLength : Type 0 where
  length_value : ℕ

record LengthConsensus : Type 0 where
  agreed : Option BoundedLength

record CommaMembers : Type 0 where
  remainder : Option Bytes

data ValidatedMetadata : Type 0 where
  no_body : ValidatedMetadata
  fixed : BoundedLength → ValidatedMetadata
  chunked : ValidatedMetadata

trim_ows : Bytes → Bytes
trim_ows bytes =
    let start = unwrap_or (position (λ byte. not (is_ows byte)) bytes) (length bytes) in
    let end = map_or (rposition (λ byte. not (is_ows byte)) bytes) start suc in
    slice bytes start end

abbrev read_digit : ℕ → ℕ → PolyguardResult ℕ
read_digit value digit =
    if not (is_ascii_digit digit)
    then err invalid_content_length
    else ok_or (and_then (checked_mul value 10) (λ prefix. checked_add prefix (digit - b'0')))
        invalid_content_length

-- `BoundedLength::parse`
parse : Bytes → PolyguardResult BoundedLength
parse raw = do
  let digits = trim_ows raw
  refuse_if (is_empty digits) invalid_content_length
  value ← try_fold read_digit 0 digits
  refuse_if (ltb max_content_length value)
      (limit_exceeded (codes "content_length") max_content_length (to_usize value))
  ok (record { length_value = value })

-- `LengthConsensus::accept`
accept : LengthConsensus → BoundedLength → PolyguardResult LengthConsensus
accept consensus candidate = do
  refuse_if
      (map_or consensus.agreed false
        (λ accepted. not (accepted.length_value == candidate.length_value)))
      conflicting_content_length
  ok (record { agreed = some candidate })

-- `CommaMembers::next`: what it yields, and the iterator after it
next : CommaMembers → Option (Bytes × CommaMembers)
next members = map_or members.remainder none λ remaining.
    elim (position (λ byte. byte == b',') remaining) [
      | some comma ↦
          some (take comma remaining, record { remainder = some (drop (suc comma) remaining) })
      | none ↦ some (remaining, record { remainder = none })
    ]

-- `for raw_member in members { consensus.accept(BoundedLength::parse(raw_member)?)? }`; the fuel
-- bounds the number of members left.
accept_members : ℕ → CommaMembers → LengthConsensus → PolyguardResult LengthConsensus
unfolding parse accept next
accept_members zero members consensus = ok consensus
accept_members (suc fuel) members consensus = elim (next members) [
  | none ↦ ok consensus
  | some (raw_member, rest) ↦ parse raw_member >>= λ candidate.
      accept consensus candidate >>= λ agreed. accept_members fuel rest agreed
]

-- `for field in &headers.fields`; a value of n bytes has at most n + 1 members.
accept_fields : List HeaderField → LengthConsensus → PolyguardResult LengthConsensus
unfolding accept_members
accept_fields [] consensus = ok consensus
accept_fields (field ∷ fields) consensus =
    if not (equal field.name (codes "content-length"))
    then accept_fields fields consensus
    else accept_members (suc (suc (length field.value))) (record { remainder = some field.value })
        consensus
      >>= λ agreed. accept_fields fields agreed

validate_content_lengths : HeaderBlock → PolyguardResult ValidatedMetadata
unfolding accept_fields trim_ows
validate_content_lengths headers = do
  consensus ← accept_fields headers.fields (record { agreed = none })
  length ← ok_or consensus.agreed invalid_content_length
  ok (if length.length_value == 0 then no_body else fixed length)

validate_chunked : HeaderBlock → ℕ → PolyguardResult ValidatedMetadata
unfolding trim_ows
validate_chunked headers transfer_encoding_fields = do
  refuse_if (not (transfer_encoding_fields == 1)) invalid_transfer_encoding
  field ←
      ok_or (find (λ field. equal field.name (codes "transfer-encoding")) headers.fields)
        invalid_transfer_encoding
  refuse_if (not (eq_ignore_ascii_case (trim_ows field.value) (codes "chunked")))
      invalid_transfer_encoding
  ok chunked

-- The loop that counts the fields of both names.
count_fields : List HeaderField → ℕ → ℕ → ℕ × ℕ
count_fields [] content_length_fields transfer_encoding_fields =
    (content_length_fields, transfer_encoding_fields)
count_fields (field ∷ fields) content_length_fields transfer_encoding_fields =
    count_fields fields
      (if equal field.name (codes "content-length")
        then content_length_fields + 1
        else content_length_fields)
      (if equal field.name (codes "transfer-encoding")
        then transfer_encoding_fields + 1
        else transfer_encoding_fields)

validate_counted : HeaderBlock → ℕ × ℕ → PolyguardResult ValidatedMetadata
validate_counted headers (content_length_fields, transfer_encoding_fields) =
    if not (content_length_fields == 0) && not (transfer_encoding_fields == 0)
    then err PolyguardError.ambiguous_framing
    else if not (transfer_encoding_fields == 0)
    then validate_chunked headers transfer_encoding_fields
    else if content_length_fields == 0
    then ok no_body
    else validate_content_lengths headers

validate_boundary : HeaderBlock → PolyguardResult ValidatedMetadata
unfolding count_fields validate_counted validate_chunked validate_content_lengths
validate_boundary headers = validate_counted headers (count_fields headers.fields 0 0)

of_metadata : ValidatedMetadata → BodyFraming
of_metadata no_body = BodyFraming.none
of_metadata (fixed length) = BodyFraming.content_length length.length_value
of_metadata chunked = BodyFraming.chunked

pub determine_body_framing : RequestLine → HeaderBlock → PolyguardResult BodyFraming
unfolding validate_boundary of_metadata
determine_body_framing _ headers =
    validate_boundary headers >>= λ metadata. ok (of_metadata metadata)

trim_ows-eq-trim : (s : Bytes) → trim_ows s ≡ trim is_ows s
unfolding trim_ows
trim_ows-eq-trim s = slice-positions is_ows s

bounded : ℕ → BoundedLength
bounded v = record { length_value = v }

parse-eq-read_length : (raw : Bytes) → parse raw ≡ (read_length raw >>= λ v. ok (bounded v))
unfolding parse read_length bounded
parse-eq-read_length raw =
    let m = trim is_ows raw in
    rw (trim_ows-eq-trim raw)
      (ground (arith, fold-read_digit invalid_content_length m 0 (omega arith)))

-- The consensus on a length that was agreed.
consensus_on : Option ℕ → LengthConsensus
unfolding bounded
consensus_on a = record { agreed = map_or a none (λ v. some (bounded v)) }

module _ {B : Type 0} (a : Option ℕ) (k : LengthConsensus → PolyguardResult B) where
  accept_read :
      (r : PolyguardResult ℕ)
      → ((r >>= λ v. ok (bounded v)) >>= λ candidate. accept (consensus_on a) candidate >>= k) ≡ (
          (r >>= λ v. refuse_if (conflicts a v) conflicting_content_length >> ok (some v)) >>= λ b.
          k (consensus_on b))
  unfolding accept consensus_on
  accept_read (err e) = refl
  accept_read (ok v) = by_agreed a
    where
      by_agreed :
          (a' : Option ℕ)
          → (accept (consensus_on a') (bounded v) >>= k) ≡ (
              (refuse_if (conflicts a' v) conflicting_content_length >> ok (some v)) >>= λ b.
              k (consensus_on b))
      by_agreed none = refl
      by_agreed (some p) = ground arith

  accept-eq-agree :
      (m : Bytes)
      → (parse m >>= λ candidate. accept (consensus_on a) candidate >>= k)
        ≡ (agree a m >>= λ b. k (consensus_on b))
  unfolding agree
  accept-eq-agree m = rw (parse-eq-read_length m) (accept_read (read_length m))

abbrev left : Option Bytes → CommaMembers
left r = record { remainder = r }

accept_members-done : (fuel : ℕ) (c : LengthConsensus) → accept_members fuel (left none) c ≡ ok c
unfolding accept_members
accept_members-done zero c = refl
accept_members-done (suc fuel) c = refl

next-none :
    (s : Bytes)
    → position (λ byte. byte == b',') s ≡ none
    → next (left (some s)) ≡ some (s, left none)
unfolding next
next-none s e = ground arith

next-some :
    (s : Bytes) (i : ℕ)
    → position (λ byte. byte == b',') s ≡ some i
    → next (left (some s)) ≡ some (take i s, left (some (drop (suc i) s)))
unfolding next
next-some s i e = ground arith

accept_members-step :
    (fuel : ℕ) (it : CommaMembers) (c : LengthConsensus) (m : Bytes) (rest : CommaMembers)
    → next it ≡ some (m, rest)
    → accept_members (suc fuel) it c
      ≡ (parse m >>= λ candidate. accept c candidate >>= λ c'. accept_members fuel rest c')
accept_members-step fuel it c m rest h = unfold accept_members in rw (h, accept_members)

accept_members-eq-agree :
    (fuel : ℕ) (s : Bytes) (a : Option ℕ)
    → length s < fuel
    → accept_members fuel (left (some s)) (consensus_on a)
      ≡ (try_fold agree a (split b',' s) >>= λ b. ok (consensus_on b))
accept_members-eq-agree zero s a h = absurd (omega arith)
accept_members-eq-agree (suc fuel) s a h = elim (Option-cases (position (λ byte. byte == b',') s)) [
  | inl e ↦ rw (split-none b',' s e) (
      accept_members-step fuel _ _ s _ (next-none s e)
      ∙ accept-eq-agree a (λ c. accept_members fuel (left none) c) s
      ∙ ap (◌>>=◌ (agree a s)) (fun_ext λ b. accept_members-done fuel (consensus_on b))
      ∙ sym (bind_assoc (agree a s) ok (λ b. ok (consensus_on b))))
  | inr (i, e) ↦
      let rest = drop (suc i) s in
      let fits : length rest < fuel =
        omega (arith, length-drop (suc i) s, position-lt b',' s i e) in
      rw (split-some b',' s i e) (
        accept_members-step fuel _ _ (take i s) _ (next-some s i e)
        ∙ accept-eq-agree a (λ c. accept_members fuel (left (some rest)) c) (take i s)
        ∙ ap (◌>>=◌ (agree a (take i s))) (fun_ext λ b. accept_members-eq-agree fuel rest b fits)
        ∙ sym (
            bind_assoc (agree a (take i s)) (λ b. try_fold agree b (split b',' rest))
              (λ b. ok (consensus_on b))))
]

accept_fields-eq-agree :
    (fs : List HeaderField) (a : Option ℕ)
    → accept_fields fs (consensus_on a)
      ≡ (try_fold agree a (members content_length_name fs) >>= λ b. ok (consensus_on b))
unfolding accept_fields members
accept_fields-eq-agree [] a = refl
accept_fields-eq-agree (f ∷ fs) a = elim (Bool-cases (is_named content_length_name f)) [
  | inr e ↦ rw e (accept_fields-eq-agree fs a)
  | inl e ↦
      let here = split b',' f.value in
      let later = members content_length_name fs in
      rw
        (
          e,
          accept_members-eq-agree (suc (suc (length f.value))) f.value a (omega arith),
          try_fold-append agree a here later,
        )
        (bind_assoc (try_fold agree a here) (λ b. ok (consensus_on b)) (accept_fields fs)
          ∙ ap (◌>>=◌ (try_fold agree a here)) (fun_ext (accept_fields-eq-agree fs))
          ∙ sym (
              bind_assoc (try_fold agree a here) (λ b. try_fold agree b later)
                (λ b. ok (consensus_on b))))
]

count_fields-eq-count_named :
    (fs : List HeaderField) (a b : ℕ)
    → count_fields fs a b
      ≡ (a + count_named content_length_name fs, b + count_named transfer_encoding_name fs)
unfolding count_fields count_named
count_fields-eq-count_named [] a b = ground arith
count_fields-eq-count_named (f ∷ fs) a b = rw (count_fields-eq-count_named fs) (ground arith)

count_fields_start :
    (fs : List HeaderField)
    → count_fields fs 0 0
      ≡ (count_named content_length_name fs, count_named transfer_encoding_name fs)
count_fields_start fs = ground (arith, count_fields-eq-count_named fs 0 0)

of_metadata-fixed :
    (v : ℕ)
    → of_metadata (if (bounded v).length_value == 0 then no_body else fixed (bounded v))
      ≡ of_length v
unfolding of_metadata bounded
of_metadata-fixed v = ground arith

check_chunked :
    (headers : HeaderBlock) (n : ℕ) (first : Option HeaderField)
    → find (is_named transfer_encoding_name) headers.fields ≡ first
    → (validate_chunked headers n >>= λ metadata. ok (of_metadata metadata)) ≡ (
        if n == 1
        then map_or first (err invalid_transfer_encoding) (λ f.
          if is_chunked f.value then ok BodyFraming.chunked else err invalid_transfer_encoding)
        else err invalid_transfer_encoding)
unfolding validate_chunked of_metadata
check_chunked headers n none h = rw h (ground arith)
check_chunked headers n (some f) h = rw (h, trim_ows-eq-trim f.value) (ground arith)

agreed_result :
    (r : PolyguardResult (Option ℕ))
    → (((r >>= λ b. ok (consensus_on b)) >>= λ consensus.
          ok_or consensus.agreed invalid_content_length >>= λ length.
          ok (if length.length_value == 0 then no_body else fixed length))
        >>= λ metadata. ok (of_metadata metadata))
      ≡ (r >>= of_agreed)
agreed_result (err e) = refl
agreed_result (ok none) = unfold consensus_on in refl
agreed_result (ok (some v)) = unfold consensus_on in ap ok (of_metadata-fixed v)

accept_fields_start :
    (headers : HeaderBlock)
    → accept_fields headers.fields (record { agreed = none }) ≡ (
        try_fold agree none (members content_length_name headers.fields) >>= λ b.
        ok (consensus_on b))
unfolding consensus_on
accept_fields_start headers = accept_fields-eq-agree headers.fields none

lengths-of_agreed :
    (headers : HeaderBlock)
    → (validate_content_lengths headers >>= λ metadata. ok (of_metadata metadata))
      ≡ (try_fold agree none (members content_length_name headers.fields) >>= of_agreed)
unfolding validate_content_lengths
lengths-of_agreed headers =
    rw (accept_fields_start headers)
      (agreed_result (try_fold agree none (members content_length_name headers.fields)))

by_counts :
    (headers : HeaderBlock) (a b : Bool)
    → present content_length_name headers.fields ≡ a
    → present transfer_encoding_name headers.fields ≡ b
    → (validate_counted headers (
      count_named content_length_name headers.fields,
      count_named transfer_encoding_name headers.fields,
    )
        >>= λ metadata. ok (of_metadata metadata))
      ≡ frame a b headers.fields
unfolding validate_counted frame
by_counts headers true true h k =
    rw
      (
        count_named-present content_length_name headers.fields,
        h,
        count_named-present transfer_encoding_name headers.fields,
        k,
      )
      refl
by_counts headers false true h k =
    rw
      (
        count_named-present content_length_name headers.fields,
        h,
        count_named-present transfer_encoding_name headers.fields,
        k,
      )
      (check_chunked headers (count_named transfer_encoding_name headers.fields)
          (find (is_named transfer_encoding_name) headers.fields) refl
        ∙ sym (one_coding transfer_encoding_name headers.fields))
by_counts headers true false h k =
    rw
      (
        count_named-present content_length_name headers.fields,
        h,
        count_named-present transfer_encoding_name headers.fields,
        k,
      )
      (lengths-of_agreed headers)
by_counts headers false false h k =
    rw
      (
        count_named-present content_length_name headers.fields,
        h,
        count_named-present transfer_encoding_name headers.fields,
        k,
      )
      (unfold of_metadata in refl)

-- The counting implementation gives the framing that the members of the two fields describe.
pub bounded-eq-framing :
    (request : RequestLine) (headers : HeaderBlock)
    → determine_body_framing request headers ≡ framing headers.fields
unfolding determine_body_framing validate_boundary framing
bounded-eq-framing request headers =
    ap (λ n. validate_counted headers n >>= λ metadata. ok (of_metadata metadata))
      (count_fields_start headers.fields)
    ∙ by_counts headers (present content_length_name headers.fields)
        (present transfer_encoding_name headers.fields) refl refl
