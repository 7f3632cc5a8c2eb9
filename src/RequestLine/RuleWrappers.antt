-- ===== src/RequestLine/RuleWrappers.antt =====
-- src/implementations/request_line_rule_wrappers.rs: byte rules in tables, the boundary and the
-- grammar in phases, and validated wrappers for the method and the target.
use mathlib.Core.List.{map}
use native.Mathlib.Numerals.{add-one}
use polyform_polyguard.Base.{
  ℕ, suc, ◌+◌, ◌-◌, ◌≤◌, Bool, true, false, not, ◌&&◌, ◌||◌, List, [], ◌∷◌, ◌++◌, ◌≡◌, refl, ap,
  sym, ◌∙◌, inl, inr, arith, Bytes, codes, leb, ltb, ◌==◌, if◌then◌else◌, Bool-cases, within,
  contains, all, is_empty, get_elem?, map_or, slice, take, drop, length, equal, to_ascii_lowercase,
  ok, err, ◌>>=◌, ◌>>◌, refuse_if, ◌<◌, subst, take-nil, drop-cons, drop-take_add, length-drop,
  bind_assoc,
}
use polyform_polyguard.Base.Split.{split, split-any}
use polyform_polyguard.RequestLine.Ends.{lf_at-drop}
use polyform_polyguard.RequestLine.Parts.{
  pair_line, triple_line, of_pair, of_triple, misplaced, agrees,
}
use polyform_polyguard.RequestLine.Words.{split-word, split-append, is_empty-length}
use polyform_polyguard.RequestLine.{
  request_line, line_end, end_step, next_is_lf, line_limit, of_words, is_token, check_target,
  check_method,
}
use polyform_polyguard.RequestLine.Tables.{set, set_range, set_all}
use polyform_polyguard.Types.{
  RequestLine, http11, PolyguardError, PolyguardResult, incomplete, limit_exceeded,
  unsupported_version, invalid_method,
}
use polyform_polyguard.Types

abbrev request_line_limit : ℕ
request_line_limit = 8192

abbrev method_limit : ℕ
method_limit = 32

data BoundaryRule : Type 0 where
  data_byte carriage_return line_feed forbidden_control : BoundaryRule

data TargetRule : Type 0 where
  allowed fragment non_visible : TargetRule

boundary_rules : ℕ → BoundaryRule
boundary_rules = set 127 forbidden_control (
    set b'\n' line_feed (
      set b'\r' carriage_return
        (set b'\t' data_byte (set_range 0 31 forbidden_control (λ _. data_byte)))))

method_rules : ℕ → Bool
method_rules =
    set_all (codes "!#$%&'*+-.^_`|~") true
      (set_range b'a' b'z' true (set_range b'A' b'Z' true (set_range b'0' b'9' true (λ _. false))))

target_rules : ℕ → TargetRule
target_rules = set b'#' fragment (set_range b'!' b'~' allowed (λ _. non_visible))

record BoundaryCheckedLine : Type 0 where
  content : Bytes
  bytes_consumed : ℕ

record GrammarParts : Type 0 where
  method : Bytes
  target : Bytes
  version : Bytes
  bytes_consumed : ℕ

record ValidMethod : Type 0 where
  method_text : Bytes

record ValidTarget : Type 0 where
  target_text : Bytes

abbrev invalid_request_line : Bytes → PolyguardError
invalid_request_line reason = Types.invalid_request_line reason

abbrev invalid_target : Bytes → PolyguardError
invalid_target reason = Types.invalid_target reason

abbrev is_ascii : ℕ → Bool
is_ascii byte = leb byte 127

abbrev checked_line : Bytes → ℕ → BoundaryCheckedLine
checked_line input offset = record { content = take offset input; bytes_consumed = offset + 2 }

by_rule :
    Bytes
    → ℕ
    → BoundaryRule
    → Bool
    → PolyguardResult BoundaryCheckedLine
    → PolyguardResult BoundaryCheckedLine
by_rule input offset carriage_return lf_follows rest =
    if lf_follows
    then ok (checked_line input offset)
    else err (invalid_request_line (codes "bare_line_ending"))
by_rule input offset line_feed lf_follows rest =
    err (invalid_request_line (codes "bare_line_ending"))
by_rule input offset forbidden_control lf_follows rest =
    err (invalid_request_line (codes "control_character"))
by_rule input offset data_byte lf_follows rest = rest

-- `input.get(offset..offset + 2) == Some(b"\r\n")`
abbrev ends_at : Bytes → ℕ → Bool
ends_at input offset =
    leb (offset + 2) (length input) && equal (slice input offset (offset + 2)) (b'\r' ∷ b'\n' ∷ [])

abbrev is_lf_at : Bytes → ℕ → Bool
is_lf_at input i = map_or (get_elem? input i) false (λ byte. byte == b'\n')

-- The body of the loop; `ended` and `lf_follows` are the two tests on the bytes ahead.
at_byte :
    Bytes
    → ℕ
    → ℕ
    → Bool
    → Bool
    → PolyguardResult BoundaryCheckedLine
    → PolyguardResult BoundaryCheckedLine
unfolding boundary_rules by_rule
at_byte input offset byte ended lf_follows rest =
    if offset == request_line_limit
    then (if ended
        then ok (checked_line input offset)
        else err (
            limit_exceeded (codes "request_line_bytes") request_line_limit
              (request_line_limit + 1)))
    else by_rule input offset (if is_ascii byte then boundary_rules byte else data_byte) lf_follows
        rest

-- `for (offset, &byte) in input.iter().take(REQUEST_LINE_LIMIT + 1).enumerate()`
check_from : Bytes → ℕ → Bytes → PolyguardResult BoundaryCheckedLine
unfolding at_byte
check_from input offset [] = err incomplete
check_from input offset (byte ∷ bytes) =
    at_byte input offset byte (ends_at input offset) (is_lf_at input (offset + 1))
      (check_from input (suc offset) bytes)

validate_boundary : Bytes → PolyguardResult BoundaryCheckedLine
unfolding check_from
validate_boundary input = check_from input 0 (take (request_line_limit + 1) input)

grammar_parts : ℕ → List Bytes → PolyguardResult GrammarParts
grammar_parts consumed (method ∷ target ∷ version ∷ []) =
    if not (is_empty method) && not (is_empty target) && not (is_empty version)
    then ok
        (record { method = method; target = target; version = version; bytes_consumed = consumed })
    else err (invalid_request_line (codes "invalid_spacing"))
grammar_parts consumed (method ∷ target ∷ []) =
    if not (is_empty method) && not (is_empty target)
    then err unsupported_version
    else err (invalid_request_line (codes "invalid_spacing"))
grammar_parts consumed _ = err (invalid_request_line (codes "invalid_spacing"))

apply_grammar : BoundaryCheckedLine → PolyguardResult GrammarParts
unfolding grammar_parts
apply_grammar line =
    refuse_if (contains line.content b'\t') (invalid_request_line (codes "invalid_spacing"))
    >> grammar_parts line.bytes_consumed (split b' ' line.content)

-- `ValidMethod::try_from`
valid_method : Bytes → PolyguardResult ValidMethod
unfolding method_rules
valid_method bytes = do
  let valid_length = within 1 method_limit (length bytes)
  let valid_bytes = all (λ byte. is_ascii byte && method_rules byte) bytes
  refuse_if (not valid_length || not valid_bytes) invalid_method
  ok (record { method_text = map to_ascii_lowercase bytes })

-- `for &byte in bytes`
check_target_rules : Bytes → PolyguardResult Unit
unfolding target_rules
check_target_rules [] = ok tt
check_target_rules (byte ∷ bytes) =
    let rest = check_target_rules bytes in
    elim (if is_ascii byte then target_rules byte else non_visible) [
      | allowed ↦ rest
      | fragment ↦ err (invalid_target (codes "fragment_not_allowed"))
      | non_visible ↦ err (invalid_target (codes "non_visible_ascii"))
    ]

-- `ValidTarget::try_from`
valid_target : Bytes → PolyguardResult ValidTarget
unfolding check_target_rules
valid_target bytes = do
  refuse_if (is_empty bytes || ltb request_line_limit (length bytes))
      (invalid_target (codes "non_visible_ascii"))
  check_target_rules bytes
  ok (record { target_text = bytes })

validate_version : Bytes → PolyguardResult Unit
validate_version version =
    if equal version (codes "HTTP/1.1") then ok tt else err unsupported_version

read_grammar : GrammarParts → PolyguardResult RequestLine
unfolding valid_method valid_target validate_version
read_grammar parts = do
  method ← valid_method parts.method
  target ← valid_target parts.target
  validate_version parts.version
  ok (record {
    method = method.method_text;
    target = target.target_text;
    version = http11;
    bytes_consumed = parts.bytes_consumed;
  })

pub parse_request_line : Bytes → PolyguardResult RequestLine
unfolding validate_boundary apply_grammar read_grammar
parse_request_line input = do
  line ← validate_boundary input
  parts ← apply_grammar line
  read_grammar parts

ends_at-drop :
    (input : Bytes) (offset c : ℕ) (s : Bytes)
    → drop offset input ≡ c ∷ s
    → ends_at input offset ≡ (c == b'\r' && next_is_lf s)
unfolding equal
ends_at-drop input offset c s h =
    let size : length input ≡ offset + suc (length s) =
      omega (arith, length-drop offset input, ap length h) in
    let bytes : slice input offset (offset + 2) ≡ c ∷ take 1 s =
      drop-take_add offset 2 input ∙ ap (take 2) h in
    ap (λ b. leb (offset + 2) (length input) && equal b (b'\r' ∷ b'\n' ∷ [])) bytes ∙ by_rest s size
  where
    by_rest :
        (u : Bytes)
        → length input ≡ offset + suc (length u)
        → (leb (offset + 2) (length input) && equal (c ∷ take 1 u) (b'\r' ∷ b'\n' ∷ []))
          ≡ (c == b'\r' && next_is_lf u)
    by_rest [] size = ground arith
    by_rest (d ∷ u) size = ground arith

at_byte-eq-end_step :
    (input : Bytes) (offset c : ℕ) (followed : Bool) (rest : PolyguardResult ℕ)
    → at_byte input offset c
        (c == b'\r' && followed)
        followed
        (rest >>= λ n. ok (checked_line input n))
      ≡ (end_step offset c followed rest >>= λ n. ok (checked_line input n))
unfolding at_byte end_step by_rule boundary_rules
at_byte-eq-end_step input offset c followed rest = ground arith

at_limit :
    (input : Bytes) (c : ℕ) (e f : Bool) (r s : PolyguardResult BoundaryCheckedLine)
    → at_byte input line_limit c e f r ≡ at_byte input line_limit c e f s
unfolding at_byte
at_limit input c e f r s = ground arith

at_byte-agree :
    (input : Bytes) (offset c : ℕ) (f : Bool) (r s : PolyguardResult BoundaryCheckedLine)
    → offset ≤ line_limit
    → (offset < line_limit → r ≡ s)
    → at_byte input offset c (c == b'\r' && f) f r ≡ at_byte input offset c (c == b'\r' && f) f s
at_byte-agree input offset c f r s low same = elim (Bool-cases (offset == line_limit)) [
  | inl last ↦
      let here : offset ≡ line_limit = ground arith in
      subst (λ o. at_byte input o c (c == b'\r' && f) f r ≡ at_byte input o c (c == b'\r' && f) f s)
        (sym here) (at_limit input c (c == b'\r' && f) f r s)
  | inr before ↦ ap (at_byte input offset c (c == b'\r' && f) f) (same (ground arith))
]

check_from-eq-line_end :
    (input : Bytes) (offset : ℕ) (s : Bytes)
    → drop offset input ≡ s
    → offset ≤ line_limit
    → check_from input offset (take (suc line_limit - offset) s)
      ≡ (line_end offset s >>= λ n. ok (checked_line input n))
unfolding check_from line_end
check_from-eq-line_end input offset [] e low =
    ap (check_from input offset) (take-nil (suc line_limit - offset))
check_from-eq-line_end input offset (c ∷ s) e low =
    let (_, behind) = drop-cons offset input e in
    let more : suc line_limit - offset ≡ suc (line_limit - offset) = omega arith in
    let followed : is_lf_at input (offset + 1) ≡ next_is_lf s =
      ap (is_lf_at input) (add-one offset) ∙ lf_at-drop input (suc offset) ∙ ap next_is_lf behind in
    let fewer : line_limit - offset ≡ suc line_limit - suc offset = omega arith in
    let f = next_is_lf s in
    let later = line_end (suc offset) s >>= λ n. ok (checked_line input n) in
    rw (more, ends_at-drop input offset c s e, followed)
      (at_byte-agree input offset c f (check_from input (suc offset) (take (line_limit - offset) s))
          later low
          (λ before.
            ap (λ k. check_from input (suc offset) (take k s)) fewer
            ∙ check_from-eq-line_end input (suc offset) s behind (omega arith))
        ∙ at_byte-eq-end_step input offset c f (line_end (suc offset) s))

check_target_rules-eq-check_target : (t : Bytes) → check_target_rules t ≡ check_target t
unfolding check_target_rules check_target target_rules
check_target_rules-eq-check_target [] = refl
check_target_rules-eq-check_target (c ∷ t) = ground (arith, check_target_rules-eq-check_target t)

all-method_rules : (m : Bytes) → all (λ byte. is_ascii byte && method_rules byte) m ≡ all is_token m
unfolding method_rules
all-method_rules [] = refl
all-method_rules (c ∷ m) = rw (all-method_rules m) (ground arith)

read : ℕ → Bytes → PolyguardResult RequestLine
unfolding apply_grammar read_grammar
read n line = apply_grammar (record { content = line; bytes_consumed = n + 2 }) >>= read_grammar

parts_of : ℕ → Bytes → Bytes → Bytes → GrammarParts
parts_of n m t v = record { method = m; target = t; version = v; bytes_consumed = n + 2 }

read_grammar-eq-of_words :
    (n : ℕ) (m t v : Bytes)
    → is_empty m ≡ false
    → is_empty t ≡ false
    → length t ≤ line_limit
    → read_grammar (parts_of n m t v) ≡ of_words n m t v
unfolding read_grammar valid_method valid_target validate_version of_words check_method parts_of
read_grammar-eq-of_words n m t v h k fits =
    rw (check_target_rules-eq-check_target t, all-method_rules m)
      (ground (arith, is_empty-length m))

read-word :
    (n : ℕ) (line : Bytes)
    → contains line b' ' ≡ false
    → read n line ≡ err (invalid_request_line (codes "invalid_spacing"))
unfolding read apply_grammar grammar_parts
read-word n line h = rw (split-word line h) (ground arith)

read-pair :
    (n : ℕ) (m t : Bytes)
    → contains m b' ' ≡ false
    → contains t b' ' ≡ false
    → n ≡ length m + 1 + length t
    → read n (pair_line m t) ≡ of_pair (contains (pair_line m t) b'\t') m t
unfolding read apply_grammar grammar_parts
read-pair n m t h k _ = rw (split-append m t h, split-word t k) (ground arith)

apply_grammar-triple :
    (n : ℕ) (m t v : Bytes)
    → contains m b' ' ≡ false
    → contains t b' ' ≡ false
    → apply_grammar (record { content = triple_line m t v; bytes_consumed = n + 2 }) ≡ (
        if misplaced (contains (triple_line m t v) b'\t') m t v
        then err (invalid_request_line (codes "invalid_spacing"))
        else ok (parts_of n m t v))
unfolding apply_grammar grammar_parts parts_of
apply_grammar-triple n m t v h k = elim (Bool-cases (contains v b' ')) [
  | inl e ↦
      let (a, b, rest, s) = split-any b' ' v e in
      rw (split-append m (t ++ b' ' ∷ v) h, split-append t v k, s, e) (ground arith)
  | inr e ↦
      rw (split-append m (t ++ b' ' ∷ v) h, split-append t v k, split-word v e, e) (ground arith)
]

read-triple :
    (n : ℕ) (m t v : Bytes)
    → contains m b' ' ≡ false
    → contains t b' ' ≡ false
    → n ≡ length m + 1 + length t + 1 + length v
    → length t ≤ line_limit
    → read n (triple_line m t v) ≡ of_triple (contains (triple_line m t v) b'\t') n m t v
unfolding read
read-triple n m t v h k _ fits =
    elim (Bool-cases (misplaced (contains (triple_line m t v) b'\t') m t v)) [
      | inl e ↦ rw (apply_grammar-triple n m t v h k, e) refl
      | inr e ↦
          rw (apply_grammar-triple n m t v h k, e)
            (read_grammar-eq-of_words n m t v (ground arith) (ground arith) fits)
    ]

-- The implementation by tables, phases and wrappers gives on every input the outcome
-- that the description gives.
pub rule_wrappers-eq-request_line : (input : Bytes) → parse_request_line input ≡ request_line input
unfolding parse_request_line validate_boundary read
rule_wrappers-eq-request_line input =
    ap (λ r. r >>= λ line. apply_grammar line >>= read_grammar)
      (check_from-eq-line_end input 0 input refl (omega arith))
    ∙ bind_assoc (line_end 0 input) (λ n. ok (checked_line input n))
        (λ line. apply_grammar line >>= read_grammar)
    ∙ agrees (line_end 0) read (λ _. refl) read-word read-pair read-triple input
