-- ===== src/RequestLine/ReverseOffsets.antt =====
-- src/implementations/request_line_reverse_offsets.rs: one pass from the back counts the spaces
-- and keeps the offsets of the leftmost and the rightmost.
use mathlib.Core.List.{map}
use native.Mathlib.Numerals.{add-one}
use polyform_polyguard.Base.{
  ℕ, zero, suc, ◌+◌, ◌≤◌, Bool, true, false, not, ◌&&◌, ◌||◌, Option, none, some, [], ◌∷◌, ◌++◌,
  ◌≡◌, refl, ap, ◌∙◌, inl, inr, arith, Bytes, codes, leb, ltb, ◌==◌, if◌then◌else◌, Bool-cases,
  within, contains, all, get_elem?, map_or, slice, take, drop, length, equal, Option-cases,
  drop-cons_get, drop-nil_get, get_elem?_ge, is_ascii_alphanumeric, to_ascii_lowercase, ok, err,
  ◌>>=◌, ◌>>◌, refuse_if, bind_if,
}
use polyform_polyguard.RequestLine.Ends.{lf_at-drop, end_step-agree}
use polyform_polyguard.RequestLine.Parts.{
  pair_line, triple_line, of_pair, of_triple, misplaced, agrees,
}
use polyform_polyguard.RequestLine.Words.{take-word, slice-word, drop-two_words, is_empty-length}
use polyform_polyguard.RequestLine.{
  request_line, line_end, end_step, next_is_lf, line_limit, of_words, is_token, check_target,
  check_method,
}
use polyform_polyguard.Types.{
  RequestLine, http11, PolyguardError, PolyguardResult, incomplete, limit_exceeded,
  unsupported_version, invalid_method,
}
use polyform_polyguard.Types

abbrev max_request_line_bytes : ℕ
max_request_line_bytes = 8192

abbrev max_method_bytes : ℕ
max_method_bytes = 32

abbrev invalid_request_line : Bytes → PolyguardError
invalid_request_line reason = Types.invalid_request_line reason

abbrev invalid_target : Bytes → PolyguardError
invalid_target reason = Types.invalid_target reason

abbrev is_method_token : ℕ → Bool
is_method_token byte =
    is_ascii_alphanumeric byte
    || (byte == b'!'
        || byte == b'#'
        || byte == b'$'
        || byte == b'%'
        || byte == b'&'
        || byte == b'\''
        || byte == b'*'
        || byte == b'+'
        || byte == b'-'
        || byte == b'.'
        || byte == b'^'
        || byte == b'_'
        || byte == b'`'
        || byte == b'|'
        || byte == b'~')

abbrev is_lf_at : Bytes → ℕ → Bool
is_lf_at input i = map_or (get_elem? input i) false (λ c. c == b'\n')

-- The body of the loop at a byte, with a line feed behind it or not.
at_byte : ℕ → ℕ → Bool → PolyguardResult ℕ → PolyguardResult ℕ
at_byte offset byte lf_follows rest =
    if offset == max_request_line_bytes
    then (if byte == b'\r' && lf_follows
        then ok offset
        else err (
            limit_exceeded (codes "request_line_bytes") max_request_line_bytes
              (max_request_line_bytes + 1)))
    else if byte == b'\r'
    then (if lf_follows then ok offset else err (invalid_request_line (codes "bare_line_ending")))
    else if byte == b'\n'
    then err (invalid_request_line (codes "bare_line_ending"))
    else if ltb byte b' ' && not (byte == b'\t') || byte == 127
    then err (invalid_request_line (codes "control_character"))
    else rest

-- `offset < input.len()`, or what the loop does there
at_offset : Bytes → ℕ → Option ℕ → PolyguardResult ℕ → PolyguardResult ℕ
unfolding at_byte
at_offset input offset none rest = err incomplete
at_offset input offset (some byte) rest = at_byte offset byte (is_lf_at input (offset + 1)) rest

-- `while offset < input.len() && offset <= MAX_REQUEST_LINE_BYTES`; the fuel is the number of
-- bytes left.
end_from : Bytes → ℕ → ℕ → PolyguardResult ℕ
unfolding at_offset
end_from input zero offset = err incomplete
end_from input (suc fuel) offset =
    let rest = end_from input fuel (offset + 1) in
    if leb offset max_request_line_bytes
    then at_offset input offset (get_elem? input offset) rest
    else err incomplete

request_line_end : Bytes → PolyguardResult ℕ
unfolding end_from
request_line_end input = end_from input (length input) 0

record Spaces : Type 0 where
  spaces : ℕ
  left_space : ℕ
  right_space : ℕ

visit : ℕ → ℕ → Spaces → PolyguardResult Spaces
visit offset byte seen =
    if byte == b'\t'
    then err (invalid_request_line (codes "invalid_spacing"))
    else if byte == b' '
    then ok (record {
      spaces = seen.spaces + 1;
      left_space = offset;
      right_space = if seen.spaces + 1 == 1 then offset else seen.right_space;
    })
    else ok seen

-- `for (offset, &byte) in line.iter().enumerate().rev()`: the bytes behind are visited before.
visit_back : ℕ → Bytes → PolyguardResult Spaces
unfolding visit
visit_back offset [] = ok (record { spaces = 0; left_space = 0; right_space = 0 })
visit_back offset (byte ∷ line) = visit_back (suc offset) line >>= λ seen. visit offset byte seen

-- `for &byte in method_bytes` and `for &byte in target_bytes`
check_method_bytes : Bytes → PolyguardResult Unit
check_method_bytes [] = ok tt
check_method_bytes (byte ∷ bytes) =
    let rest = check_method_bytes bytes in
    if not (is_method_token byte) then err invalid_method else rest

check_target_bytes : Bytes → PolyguardResult Unit
check_target_bytes [] = ok tt
check_target_bytes (byte ∷ bytes) =
    let rest = check_target_bytes bytes in
    if byte == b'#'
    then err (invalid_target (codes "fragment_not_allowed"))
    else if not (within b'!' b'~' byte)
    then err (invalid_target (codes "non_visible_ascii"))
    else rest

check_spaces : ℕ → Spaces → PolyguardResult Unit
check_spaces line_end seen = do
  refuse_if (seen.spaces == 1 && not (seen.left_space == 0) && ltb (seen.left_space + 1) line_end)
      unsupported_version
  refuse_if
      (not (seen.spaces == 2)
        || seen.left_space == 0
        || seen.right_space == seen.left_space + 1
        || seen.right_space + 1 == line_end)
      (invalid_request_line (codes "invalid_spacing"))

read_words : Bytes → ℕ → Spaces → PolyguardResult RequestLine
unfolding check_method_bytes check_target_bytes
read_words line line_end seen = do
  let method_bytes = take seen.left_space line
  refuse_if (ltb max_method_bytes (length method_bytes)) invalid_method
  check_method_bytes method_bytes
  let target_bytes = slice line (seen.left_space + 1) seen.right_space
  refuse_if (ltb max_request_line_bytes (length target_bytes))
      (invalid_target (codes "non_visible_ascii"))
  check_target_bytes target_bytes
  refuse_if (not (equal (drop (seen.right_space + 1) line) (codes "HTTP/1.1"))) unsupported_version
  ok (record {
    method = map to_ascii_lowercase method_bytes;
    target = target_bytes;
    version = http11;
    bytes_consumed = line_end + 2;
  })

pub parse_request_line : Bytes → PolyguardResult RequestLine
unfolding request_line_end visit_back check_spaces read_words
parse_request_line input = do
  line_end ← request_line_end input
  let line = take line_end input
  seen ← visit_back 0 line
  check_spaces line_end seen
  read_words line line_end seen

at_byte-eq-end_step :
    (offset c : ℕ) (followed : Bool) (rest : PolyguardResult ℕ)
    → at_byte offset c followed rest ≡ end_step offset c followed rest
unfolding at_byte end_step
at_byte-eq-end_step offset c followed rest = ground arith

end_from-eq-line_end :
    (input : Bytes) (fuel offset : ℕ)
    → length input ≤ offset + fuel
    → offset ≤ line_limit
    → end_from input fuel offset ≡ line_end offset (drop offset input)
unfolding end_from line_end
end_from-eq-line_end input zero offset h _ =
    rw (drop-nil_get offset input (get_elem?_ge offset input (omega arith))) refl
end_from-eq-line_end input (suc fuel) offset h low = elim (Option-cases (get_elem? input offset)) [
  | inl e ↦
      let inside : leb offset max_request_line_bytes ≡ true = ground arith in
      rw (end_from, e, inside, drop-nil_get offset input e) refl
  | inr (c, e) ↦
      let inside : leb offset max_request_line_bytes ≡ true = ground arith in
      let followed = next_is_lf (drop (suc offset) input) in
      rw
        (
          end_from,
          e,
          inside,
          drop-cons_get offset input e,
          add-one offset,
          lf_at-drop input (suc offset),
          at_byte-eq-end_step,
        )
        (end_step-agree offset c followed (end_from input fuel (suc offset))
          (line_end (suc offset) (drop (suc offset) input)) low
          (λ before. end_from-eq-line_end input fuel (suc offset) (omega arith) (omega arith)))
]

-- The spaces of a line without tabs
add_space : ℕ → Spaces → Spaces
add_space offset seen = record {
  spaces = seen.spaces + 1;
  left_space = offset;
  right_space = if seen.spaces + 1 == 1 then offset else seen.right_space;
}

spaces_from : ℕ → Bytes → Spaces
unfolding add_space
spaces_from offset [] = record { spaces = 0; left_space = 0; right_space = 0 }
spaces_from offset (c ∷ s) =
    let later = spaces_from (suc offset) s in if c == b' ' then add_space offset later else later

visit_back-spaces_from :
    (offset : ℕ) (s : Bytes)
    → visit_back offset s ≡ (
        if contains s b'\t'
        then err (invalid_request_line (codes "invalid_spacing"))
        else ok (spaces_from offset s))
unfolding visit_back visit spaces_from add_space
visit_back-spaces_from offset [] = refl
visit_back-spaces_from offset (c ∷ s) = rw (visit_back-spaces_from (suc offset) s) (ground arith)

spaces_from-append :
    (offset : ℕ) (m s : Bytes)
    → contains m b' ' ≡ false
    → spaces_from offset (m ++ s) ≡ spaces_from (offset + length m) s
unfolding spaces_from
spaces_from-append offset [] s h = ap (λ o. spaces_from o s) (omega arith)
spaces_from-append offset (c ∷ m) s h =
    let here : (c == b' ') ≡ false = ground arith in
    let next : suc offset + length m ≡ offset + suc (length m) = omega arith in
    rw here (spaces_from-append (suc offset) m s (ground arith) ∙ ap (λ o. spaces_from o s) next)

spaces_from-word :
    (offset : ℕ) (m : Bytes) → contains m b' ' ≡ false → (spaces_from offset m).spaces ≡ 0
unfolding spaces_from
spaces_from-word offset [] h = refl
spaces_from-word offset (c ∷ m) h = ground (arith, spaces_from-word (suc offset) m)

spaces_from-some :
    (offset : ℕ) (s : Bytes) → contains s b' ' ≡ true → 1 ≤ (spaces_from offset s).spaces
unfolding spaces_from add_space
spaces_from-some offset [] h = cc
spaces_from-some offset (c ∷ s) h = ground (arith, spaces_from-some (suc offset) s)

spaces_from-space :
    (offset : ℕ) (s : Bytes)
    → spaces_from offset (b' ' ∷ s) ≡ add_space offset (spaces_from (suc offset) s)
unfolding spaces_from
spaces_from-space offset s = refl

abbrev spaces_at : ℕ → ℕ → ℕ → Spaces
spaces_at n left right = record { spaces = n; left_space = left; right_space = right }

one_space : (a : ℕ) (later : Spaces) → later.spaces ≡ 0 → add_space a later ≡ spaces_at 1 a a
unfolding add_space
one_space a later h = rw h refl

two_spaces :
    (a b : ℕ) (later : Spaces)
    → later.spaces ≡ 0
    → add_space a (add_space b later) ≡ spaces_at 2 a b
unfolding add_space
two_spaces a b later h = rw h refl

spaces_from-pair :
    (m t : Bytes)
    → contains m b' ' ≡ false
    → contains t b' ' ≡ false
    → spaces_from 0 (pair_line m t) ≡ spaces_at 1 (length m) (length m)
spaces_from-pair m t h k =
    spaces_from-append 0 m (b' ' ∷ t) h
    ∙ ap (λ o. spaces_from o (b' ' ∷ t)) (omega arith)
    ∙ spaces_from-space (length m) t
    ∙ one_space (length m) (spaces_from (suc (length m)) t) (spaces_from-word (suc (length m)) t k)

-- What stands in the spaces behind the second.
abbrev later_spaces : Bytes → Bytes → Bytes → Spaces
later_spaces m t v = spaces_from (suc (length m + 1 + length t)) v

spaces_from-triple :
    (m t v : Bytes)
    → contains m b' ' ≡ false
    → contains t b' ' ≡ false
    → spaces_from 0 (triple_line m t v)
      ≡ add_space (length m) (add_space (length m + 1 + length t) (later_spaces m t v))
spaces_from-triple m t v h k =
    let second : suc (length m) + length t ≡ length m + 1 + length t = omega arith in
    spaces_from-append 0 m (b' ' ∷ (t ++ b' ' ∷ v)) h
    ∙ ap (λ o. spaces_from o (b' ' ∷ (t ++ b' ' ∷ v))) (omega arith)
    ∙ spaces_from-space (length m) (t ++ b' ' ∷ v)
    ∙ ap (add_space (length m)) (
        spaces_from-append (suc (length m)) t (b' ' ∷ v) k
        ∙ ap (λ o. spaces_from o (b' ' ∷ v)) second
        ∙ spaces_from-space (length m + 1 + length t) v)

check_spaces-more :
    (n a b : ℕ) (later : Spaces)
    → 1 ≤ later.spaces
    → check_spaces n (add_space a (add_space b later))
      ≡ err (invalid_request_line (codes "invalid_spacing"))
unfolding check_spaces add_space
check_spaces-more n a b later h = ground arith

all-is_token : (m : Bytes) → all is_method_token m ≡ all is_token m
all-is_token [] = refl
all-is_token (c ∷ m) = rw (all-is_token m) (ground arith)

check_method_bytes-all :
    (m : Bytes) → check_method_bytes m ≡ refuse_if (not (all is_method_token m)) invalid_method
unfolding check_method_bytes
check_method_bytes-all [] = refl
check_method_bytes-all (c ∷ m) = rw (check_method_bytes-all m) (ground arith)

check_target_bytes-eq-check_target : (t : Bytes) → check_target_bytes t ≡ check_target t
unfolding check_target_bytes check_target
check_target_bytes-eq-check_target [] = refl
check_target_bytes-eq-check_target (c ∷ t) = ground (arith, check_target_bytes-eq-check_target t)

read_words-eq-of_words :
    (n : ℕ) (m t v : Bytes)
    → length t ≤ max_request_line_bytes
    → read_words (triple_line m t v) n (spaces_at 2 (length m) (length m + 1 + length t))
      ≡ of_words n m t v
unfolding read_words of_words check_method
read_words-eq-of_words n m t v h =
    rw
      (
        take-word m (b' ' ∷ (t ++ b' ' ∷ v)),
        slice-word m t (b' ' ∷ v),
        drop-two_words m t v,
        check_method_bytes-all m,
        check_target_bytes-eq-check_target t,
        all-is_token m,
      )
      (ground arith)

read : ℕ → Bytes → PolyguardResult RequestLine
read n line = visit_back 0 line >>= λ seen. check_spaces n seen >> read_words line n seen

read-word :
    (n : ℕ) (line : Bytes)
    → contains line b' ' ≡ false
    → read n line ≡ err (invalid_request_line (codes "invalid_spacing"))
unfolding read check_spaces
read-word n line h = rw (visit_back-spaces_from 0 line) (ground (arith, spaces_from-word 0 line h))

read-pair :
    (n : ℕ) (m t : Bytes)
    → contains m b' ' ≡ false
    → contains t b' ' ≡ false
    → n ≡ length m + 1 + length t
    → read n (pair_line m t) ≡ of_pair (contains (pair_line m t) b'\t') m t
unfolding read check_spaces
read-pair n m t h k w =
    rw
      (
        visit_back-spaces_from 0 (pair_line m t),
        spaces_from-pair m t h k,
        is_empty-length m,
        is_empty-length t,
        w,
      )
      (ground arith)

check_spaces-two :
    (n : ℕ) (m t v : Bytes)
    → contains v b' ' ≡ false
    → n ≡ length m + 1 + length t + 1 + length v
    → check_spaces n (spaces_at 2 (length m) (length m + 1 + length t))
      ≡ refuse_if (misplaced false m t v) (invalid_request_line (codes "invalid_spacing"))
unfolding check_spaces
check_spaces-two n m t v h w =
    rw (is_empty-length m, is_empty-length t, is_empty-length v, w) (ground arith)

read-triple :
    (n : ℕ) (m t v : Bytes)
    → contains m b' ' ≡ false
    → contains t b' ' ≡ false
    → n ≡ length m + 1 + length t + 1 + length v
    → length t ≤ line_limit
    → read n (triple_line m t v) ≡ of_triple (contains (triple_line m t v) b'\t') n m t v
unfolding read
read-triple n m t v h k w fits = elim (Bool-cases (contains v b' ')) [
  | inl e ↦
      rw
        (
          visit_back-spaces_from 0 (triple_line m t v),
          spaces_from-triple m t v h k,
          bind_if,
          check_spaces-more n (length m) (length m + 1 + length t) (later_spaces m t v)
              (spaces_from-some (suc (length m + 1 + length t)) v e),
          e,
        )
        (ground arith)
  | inr e ↦
      rw
        (
          visit_back-spaces_from 0 (triple_line m t v),
          spaces_from-triple m t v h k,
          bind_if,
          two_spaces (length m) (length m + 1 + length t) (later_spaces m t v)
              (spaces_from-word (suc (length m + 1 + length t)) v e),
          check_spaces-two n m t v e w,
          read_words-eq-of_words n m t v fits,
        )
        (ground arith)
]

-- The pass from the back gives on every input the outcome
-- that the description gives.
pub reverse_offsets-eq-request_line :
    (input : Bytes) → parse_request_line input ≡ request_line input
unfolding parse_request_line request_line_end read
reverse_offsets-eq-request_line =
    agrees request_line_end read
      (λ input. end_from-eq-line_end input (length input) 0 (omega arith) (omega arith)) read-word
      read-pair read-triple
