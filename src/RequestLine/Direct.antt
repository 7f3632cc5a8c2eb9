-- ===== src/RequestLine/Direct.antt =====
-- src/implementations/request_line_direct.rs: searches with positions, and guards with returns.
use mathlib.Core.List.{map}
use native.Mathlib.Numerals.{add-one}
use polyform_polyguard.Base.{
  ℕ, zero, suc, ◌+◌, ◌≤◌, Bool, false, not, ◌&&◌, ◌||◌, Option, none, some, [], ◌∷◌, ◌++◌, ◌≡◌,
  refl, ap, inl, inr, arith, Bytes, codes, leb, ltb, ◌==◌, if◌then◌else◌, within, contains, all,
  get_elem?, map_or, position, slice, take, drop, length, equal, Option-cases, drop-cons_get,
  drop-nil_get, get_elem?_ge, is_ascii_alphanumeric, to_ascii_lowercase, ok, err, ◌>>=◌, ◌>>◌,
  refuse_if, ok_or,
}
use polyform_polyguard.RequestLine.Ends.{lf_at-drop}
use polyform_polyguard.RequestLine.Parts.{pair_line, triple_line, of_pair, misplaced, agrees}
use polyform_polyguard.RequestLine.Words.{
  position-word, position-append, take-word, drop-word, slice-word, drop-two_words, is_empty-length,
}
use polyform_polyguard.RequestLine.{
  request_line, line_end, end_step, next_is_lf, of_words, is_token, check_target, check_method,
}
use polyform_polyguard.Types.{
  RequestLine, http11, PolyguardError, PolyguardResult, incomplete, limit_exceeded,
  invalid_request_line, unsupported_version, invalid_method, invalid_target,
}

abbrev max_line_content : ℕ
max_line_content = 8192

abbrev max_method_bytes : ℕ
max_method_bytes = 32

abbrev invalid_line : Bytes → PolyguardError
invalid_line reason = invalid_request_line reason

abbrev is_token_byte : ℕ → Bool
is_token_byte byte =
    is_ascii_alphanumeric byte
    || (byte == b'!'
        || byte == b'#'
        || byte == b'$'
        || byte == b'%'
        || byte == b'&'
        || byte == b'\''
        || byte == b'*'
        || byte == b'+'
        || byte == b'-'
        || byte == b'.'
        || byte == b'^'
        || byte == b'_'
        || byte == b'`'
        || byte == b'|'
        || byte == b'~')

abbrev is_lf_at : Bytes → ℕ → Bool
is_lf_at input i = map_or (get_elem? input i) false (λ c. c == b'\n')

-- The body of the loop at a byte, with a line feed behind it or not.
at_byte : ℕ → ℕ → Bool → PolyguardResult ℕ → PolyguardResult ℕ
at_byte offset byte lf_follows rest =
    if offset == max_line_content
    then (if byte == b'\r' && lf_follows
        then ok offset
        else err
            (limit_exceeded (codes "request_line_bytes") max_line_content (max_line_content + 1)))
    else if byte == b'\r'
    then (if lf_follows then ok offset else err (invalid_line (codes "bare_line_ending")))
    else if byte == b'\n'
    then err (invalid_line (codes "bare_line_ending"))
    else if leb byte 8 || within 11 12 byte || within 14 31 byte || byte == 127
    then err (invalid_line (codes "control_character"))
    else rest

-- `offset < input.len()`, or what the loop does there
at_offset : Bytes → ℕ → Option ℕ → PolyguardResult ℕ → PolyguardResult ℕ
unfolding at_byte
at_offset input offset none rest = err incomplete
at_offset input offset (some byte) rest = at_byte offset byte (is_lf_at input (offset + 1)) rest

-- The loop `while offset < input.len()`; the fuel is the number of bytes left.
terminator_from : Bytes → ℕ → ℕ → PolyguardResult ℕ
unfolding at_offset
terminator_from input zero offset = err incomplete
terminator_from input (suc fuel) offset =
    at_offset input offset (get_elem? input offset) (terminator_from input fuel (offset + 1))

find_terminator : Bytes → PolyguardResult ℕ
unfolding terminator_from
find_terminator input = terminator_from input (length input) 0

-- `for &byte in target_bytes`
check_bytes : Bytes → PolyguardResult Unit
check_bytes [] = ok tt
check_bytes (byte ∷ bytes) =
    let rest = check_bytes bytes in
    if byte == b'#'
    then err (invalid_target (codes "fragment_not_allowed"))
    else if not (within b'!' b'~' byte)
    then err (invalid_target (codes "non_visible_ascii"))
    else rest

-- The three positions: where the method ends, where the target starts and ends.
record Bounds : Type 0 where
  method_end : ℕ
  target_start : ℕ
  target_end : ℕ

find_bounds : Bytes → ℕ → PolyguardResult Bounds
find_bounds line line_length = do
  refuse_if (contains line b'\t') (invalid_line (codes "invalid_spacing"))
  method_end ← ok_or (position (λ byte. byte == b' ') line) (invalid_line (codes "invalid_spacing"))
  refuse_if (method_end == 0) (invalid_line (codes "invalid_spacing"))
  let target_start = method_end + 1
  relative_target_end ← ok_or (position (λ byte. byte == b' ') (drop target_start line)) (
      if ltb target_start line_length
      then unsupported_version
      else invalid_line (codes "invalid_spacing"))
  let target_end = target_start + relative_target_end
  refuse_if (target_end == target_start) (invalid_line (codes "invalid_spacing"))
  refuse_if (target_end + 1 == line_length || contains (drop (target_end + 1) line) b' ')
      (invalid_line (codes "invalid_spacing"))
  ok (record { method_end = method_end; target_start = target_start; target_end = target_end })

read_line : Bytes → ℕ → Bounds → PolyguardResult RequestLine
unfolding check_bytes
read_line line line_length bounds = do
  let method_bytes = take bounds.method_end line
  refuse_if (ltb max_method_bytes (length method_bytes) || not (all is_token_byte method_bytes))
      invalid_method
  let target_bytes = slice line bounds.target_start bounds.target_end
  refuse_if (ltb max_line_content (length target_bytes))
      (invalid_target (codes "non_visible_ascii"))
  check_bytes target_bytes
  refuse_if (not (equal (drop (bounds.target_end + 1) line) (codes "HTTP/1.1"))) unsupported_version
  ok (record {
    method = map to_ascii_lowercase method_bytes;
    target = target_bytes;
    version = http11;
    bytes_consumed = line_length + 2;
  })

pub parse_request_line : Bytes → PolyguardResult RequestLine
unfolding find_terminator find_bounds read_line
parse_request_line input = do
  line_length ← find_terminator input
  let line = take line_length input
  bounds ← find_bounds line line_length
  read_line line line_length bounds

at_byte-eq-end_step :
    (offset c : ℕ) (followed : Bool) (rest : PolyguardResult ℕ)
    → at_byte offset c followed rest ≡ end_step offset c followed rest
unfolding at_byte end_step
at_byte-eq-end_step offset c followed rest = ground arith

terminator-eq-line_end :
    (input : Bytes) (fuel offset : ℕ)
    → length input ≤ offset + fuel
    → terminator_from input fuel offset ≡ line_end offset (drop offset input)
unfolding terminator_from line_end
terminator-eq-line_end input zero offset h =
    rw (drop-nil_get offset input (get_elem?_ge offset input (omega arith))) refl
terminator-eq-line_end input (suc fuel) offset h = elim (Option-cases (get_elem? input offset)) [
  | inl e ↦ rw (terminator_from, e, drop-nil_get offset input e) refl
  | inr (c, e) ↦
      rw
        (
          terminator_from,
          e,
          drop-cons_get offset input e,
          add-one offset,
          lf_at-drop input (suc offset),
          at_byte-eq-end_step,
        )
        (ap (end_step offset c (next_is_lf (drop (suc offset) input)))
          (terminator-eq-line_end input fuel (suc offset) (omega arith)))
]

check_bytes-eq-check_target : (t : Bytes) → check_bytes t ≡ check_target t
unfolding check_bytes check_target
check_bytes-eq-check_target [] = refl
check_bytes-eq-check_target (c ∷ t) = ground (arith, check_bytes-eq-check_target t)

all-is_token : (m : Bytes) → all is_token_byte m ≡ all is_token m
all-is_token [] = refl
all-is_token (c ∷ m) = rw (all-is_token m) (ground arith)

read : ℕ → Bytes → PolyguardResult RequestLine
read n line = find_bounds line n >>= read_line line n

find_bounds-word :
    (n : ℕ) (line : Bytes)
    → contains line b' ' ≡ false
    → find_bounds line n ≡ err (invalid_line (codes "invalid_spacing"))
unfolding find_bounds
find_bounds-word n line h = rw (position-word line h) (ground arith)

read-pair :
    (n : ℕ) (m t : Bytes)
    → contains m b' ' ≡ false
    → contains t b' ' ≡ false
    → n ≡ length m + 1 + length t
    → read n (pair_line m t) ≡ of_pair (contains (pair_line m t) b'\t') m t
unfolding read find_bounds
read-pair n m t h k w =
    rw
      (
        position-append m t h,
        drop-word m b' ' t,
        position-word t k,
        is_empty-length m,
        is_empty-length t,
        w,
      )
      (ground arith)

bounds_of : Bytes → Bytes → Bounds
bounds_of m t = record {
  method_end = length m;
  target_start = length m + 1;
  target_end = length m + 1 + length t;
}

find_bounds-triple :
    (n : ℕ) (m t v : Bytes)
    → contains m b' ' ≡ false
    → contains t b' ' ≡ false
    → n ≡ length m + 1 + length t + 1 + length v
    → find_bounds (triple_line m t v) n ≡ (
        if misplaced (contains (triple_line m t v) b'\t') m t v
        then err (invalid_line (codes "invalid_spacing"))
        else ok (bounds_of m t))
unfolding find_bounds bounds_of
find_bounds-triple n m t v h k w =
    rw
      (
        position-append m (t ++ b' ' ∷ v) h,
        drop-word m b' ' (t ++ b' ' ∷ v),
        position-append t v k,
        drop-two_words m t v,
        is_empty-length m,
        is_empty-length t,
        is_empty-length v,
        w,
      )
      (ground arith)

read_line-words :
    (n : ℕ) (m t v : Bytes)
    → length t ≤ max_line_content
    → read_line (triple_line m t v) n (bounds_of m t) ≡ of_words n m t v
unfolding read_line of_words check_method bounds_of
read_line-words n m t v h =
    rw
      (
        take-word m (b' ' ∷ (t ++ b' ' ∷ v)),
        slice-word m t (b' ' ∷ v),
        drop-two_words m t v,
        check_bytes-eq-check_target t,
        all-is_token m,
      )
      (ground arith)

-- The implementation by guards and positions gives on every input the outcome
-- that the description gives.
pub direct-eq-request_line : (input : Bytes) → parse_request_line input ≡ request_line input
unfolding parse_request_line find_terminator read
direct-eq-request_line =
    agrees find_terminator read
      (λ input. terminator-eq-line_end input (length input) 0 (omega arith))
      (λ n line h. rw (find_bounds-word n line h) refl) read-pair
      (λ n m t v h k w fits.
        rw (find_bounds-triple n m t v h k w, ← read_line-words n m t v fits) (ground arith))
