-- ===== src/RequestLine/DecisionMachine.antt =====
-- src/implementations/request_line_decision_machine.rs: a machine over the bytes that judges each
-- part while it reads it.
use mathlib.Core.List.{map}
use native.Mathlib.Numerals.{add-one}
use polyform_polyguard.Base.{
  ℕ, suc, ◌+◌, ◌-◌, ◌≤◌, Bool, true, false, not, ◌&&◌, ◌||◌, Option, none, some, List, [], ◌∷◌,
  ◌++◌, ◌≡◌, refl, ap, sym, ◌∙◌, inl, inr, arith, Bytes, codes, ltb, ◌==◌, if◌then◌else◌,
  Bool-cases, within, contains, all, is_empty, get_elem?, map_or, slice, take, drop, length, equal,
  to_ascii_lowercase, Result, ok, err, ◌>>=◌, ◌>>◌, refuse_if, take-nil, get_elem?_lt, get_elem?_ge,
  drop-cons_get, drop-nil_get, ◌≢◌, append-nil,
}
use polyform_polyguard.RequestLine.Ends.{lf_at-drop, end_step-agree}
use polyform_polyguard.RequestLine.Parts.{
  pair_line, triple_line, of_pair, of_triple, misplaced, agrees,
}
use polyform_polyguard.RequestLine.Words.{take-word, slice-word, is_empty-length, contains-append}
use polyform_polyguard.RequestLine.{
  request_line, line_end, end_step, next_is_lf, line_limit, of_words, is_token, check_target,
  check_method,
}
use polyform_polyguard.RequestLine.Tables.{set_range, set_all}
use polyform_polyguard.Types.{
  RequestLine, http11, PolyguardError, PolyguardResult, incomplete, limit_exceeded,
  unsupported_version, invalid_method,
}
use polyform_polyguard.Types

abbrev max_request_line_bytes : ℕ
max_request_line_bytes = 8192

abbrev max_method_bytes : ℕ
max_method_bytes = 32

abbrev http_11_bytes : Bytes
http_11_bytes = codes "HTTP/1.1"

token_byte_lookup : ℕ → Bool
token_byte_lookup =
    set_all (codes "!#$%&'*+-.^_`|~") true
      (set_range b'a' b'z' true (set_range b'A' b'Z' true (set_range b'0' b'9' true (λ _. false))))

data TargetFault : Type 0 where
  no_fault fragment non_visible : TargetFault

record SemanticRecord : Type 0 where
  method_end : ℕ
  method_is_token : Bool
  target_end : ℕ
  target_fault : TargetFault
  version_len : ℕ
  version_matches : Bool

data Machine : Type 0 where
  in_method : (length : ℕ) (is_token : Bool) → Machine
  in_target : (method_end : ℕ) (method_is_token : Bool) (length : ℕ) (fault : TargetFault) → Machine
  in_version : SemanticRecord → Machine

data GrammarFailure : Type 0 where
  invalid_spacing : GrammarFailure

abbrev invalid_line : Bytes → PolyguardError
invalid_line reason = Types.invalid_request_line reason

abbrev invalid_target : Bytes → PolyguardError
invalid_target reason = Types.invalid_target reason

-- Each byte with the one that follows.
observations : Bytes → List (ℕ × Option ℕ)
observations [] = []
observations (byte ∷ bytes) = (byte, get_elem? bytes 0) ∷ observations bytes

-- The body of the loop at a byte, with a line feed behind it or not.
at_byte : ℕ → ℕ → Bool → PolyguardResult ℕ → PolyguardResult ℕ
at_byte offset byte lf_follows later =
    if offset == max_request_line_bytes
    then (if byte == b'\r' && lf_follows
        then ok offset
        else err (
            limit_exceeded (codes "request_line_bytes") max_request_line_bytes
              (max_request_line_bytes + 1)))
    else if byte == b'\r' && lf_follows
    then ok offset
    else if byte == b'\r' || byte == b'\n'
    then err (invalid_line (codes "bare_line_ending"))
    else if within 0 8 byte || within 11 12 byte || within 14 31 byte || byte == 127
    then err (invalid_line (codes "control_character"))
    else later

boundary_from : ℕ → List (ℕ × Option ℕ) → PolyguardResult ℕ
unfolding at_byte
boundary_from offset [] = err incomplete
boundary_from offset ((byte, following) ∷ rest) =
    at_byte offset byte (map_or following false (λ c. c == b'\n')) (boundary_from (suc offset) rest)

request_line_boundary : Bytes → PolyguardResult ℕ
unfolding observations boundary_from
request_line_boundary input =
    boundary_from 0 (take (max_request_line_bytes + 1) (observations input))

next_target_fault : TargetFault → ℕ → TargetFault
next_target_fault fragment byte = fragment
next_target_fault non_visible byte = non_visible
next_target_fault no_fault byte =
    if byte == b'#' then fragment else if not (within b'!' b'~' byte) then non_visible else no_fault

transition : Machine → ℕ → ℕ → Result GrammarFailure Machine
unfolding token_byte_lookup next_target_fault
transition (in_method length is_token) offset byte =
    if byte == b'\t'
    then err invalid_spacing
    else if byte == b' '
    then (if length == 0 then err invalid_spacing else ok (in_target offset is_token 0 no_fault))
    else ok (in_method (length + 1) (is_token && token_byte_lookup byte))
transition (in_target method_end method_is_token length fault) offset byte =
    if byte == b'\t'
    then err invalid_spacing
    else if byte == b' '
    then (if length == 0
        then err invalid_spacing
        else ok (
            in_version (record {
              method_end = method_end;
              method_is_token = method_is_token;
              target_end = offset;
              target_fault = fault;
              version_len = 0;
              version_matches = true;
            })))
    else ok (in_target method_end method_is_token (length + 1) (next_target_fault fault byte))
transition (in_version r) offset byte =
    if byte == b'\t' || byte == b' '
    then err invalid_spacing
    else ok (
        in_version (record {
          method_end = r.method_end;
          method_is_token = r.method_is_token;
          target_end = r.target_end;
          target_fault = r.target_fault;
          version_len = r.version_len + 1;
          version_matches =
              r.version_matches
              && map_or (get_elem? http_11_bytes r.version_len) false (λ c. c == byte);
        }))

-- `line.iter().copied().enumerate().try_fold(..)`
run_machine : Machine → ℕ → Bytes → Result GrammarFailure Machine
unfolding transition
run_machine machine offset [] = ok machine
run_machine machine offset (byte ∷ line) =
    transition machine offset byte >>= λ next. run_machine next (suc offset) line

terminal_record : Result GrammarFailure Machine → PolyguardResult SemanticRecord
terminal_record (err invalid_spacing) = err (invalid_line (codes "invalid_spacing"))
terminal_record (ok (in_method _ _)) = err (invalid_line (codes "invalid_spacing"))
terminal_record (ok (in_target _ _ length _)) =
    if length == 0 then err (invalid_line (codes "invalid_spacing")) else err unsupported_version
terminal_record (ok (in_version r)) =
    if r.version_len == 0 then err (invalid_line (codes "invalid_spacing")) else ok r

run_decision_machine : Bytes → PolyguardResult SemanticRecord
unfolding run_machine terminal_record
run_decision_machine line = terminal_record (run_machine (in_method 0 true) 0 line)

check_fault : TargetFault → PolyguardResult Unit
check_fault fragment = err (invalid_target (codes "fragment_not_allowed"))
check_fault non_visible = err (invalid_target (codes "non_visible_ascii"))
check_fault no_fault = ok tt

read_record : Bytes → ℕ → SemanticRecord → PolyguardResult RequestLine
unfolding check_fault
read_record line content_length r = do
  refuse_if (ltb max_method_bytes r.method_end || not r.method_is_token) invalid_method
  check_fault r.target_fault
  refuse_if (not (r.version_len == length http_11_bytes) || not r.version_matches)
      unsupported_version
  let target_start = r.method_end + 1
  ok (record {
    method = map to_ascii_lowercase (take r.method_end line);
    target = slice line target_start r.target_end;
    version = http11;
    bytes_consumed = content_length + 2;
  })

pub parse_request_line : Bytes → PolyguardResult RequestLine
unfolding request_line_boundary run_decision_machine read_record
parse_request_line input = do
  content_length ← request_line_boundary input
  let line = take content_length input
  r ← run_decision_machine line
  read_record line content_length r

at_byte-eq-end_step :
    (offset c : ℕ) (followed : Bool) (later : PolyguardResult ℕ)
    → at_byte offset c followed later ≡ end_step offset c followed later
unfolding at_byte end_step
at_byte-eq-end_step offset c followed later = ground arith

boundary-eq-line_end :
    (offset : ℕ) (s : Bytes)
    → offset ≤ line_limit
    → boundary_from offset (take (suc line_limit - offset) (observations s)) ≡ line_end offset s
unfolding boundary_from line_end observations
boundary-eq-line_end offset [] low = ap (boundary_from offset) (take-nil (suc line_limit - offset))
boundary-eq-line_end offset (c ∷ s) low =
    let more : suc line_limit - offset ≡ suc (line_limit - offset) = omega arith in
    let fewer : line_limit - offset ≡ suc line_limit - suc offset = omega arith in
    rw (more, lf_at-drop s 0)
      (at_byte-eq-end_step offset c (next_is_lf s)
          (boundary_from (suc offset) (take (line_limit - offset) (observations s)))
        ∙ end_step-agree offset c (next_is_lf s)
            (boundary_from (suc offset) (take (line_limit - offset) (observations s)))
            (line_end (suc offset) s) low
            (λ before.
              ap (λ k. boundary_from (suc offset) (take k (observations s))) fewer
              ∙ boundary-eq-line_end (suc offset) s (omega arith)))

transition-tab :
    (machine : Machine) (offset : ℕ) → transition machine offset b'\t' ≡ err invalid_spacing
unfolding transition
transition-tab (in_method k b) offset = refl
transition-tab (in_target e b k f) offset = refl
transition-tab (in_version r) offset = refl

always_invalid :
    (r : Result GrammarFailure Machine) (f : Machine → Result GrammarFailure Machine)
    → ((next : Machine) → f next ≡ err invalid_spacing)
    → (r >>= f) ≡ err invalid_spacing
always_invalid (ok next) f h = h next
always_invalid (err invalid_spacing) f h = refl

run_machine-tab :
    (machine : Machine) (offset : ℕ) (s : Bytes)
    → contains s b'\t' ≡ true
    → run_machine machine offset s ≡ err invalid_spacing
unfolding run_machine
run_machine-tab machine offset [] h = cc
run_machine-tab machine offset (c ∷ s) h = elim (Bool-cases (c == b'\t')) [
  | inl e ↦
      let same : c ≡ b'\t' = ground arith in
      ap (λ d. transition machine offset d >>= λ next. run_machine next (suc offset) s) same
      ∙ ap (λ r. r >>= λ next. run_machine next (suc offset) s) (transition-tab machine offset)
  | inr e ↦
      always_invalid (transition machine offset c) (λ next. run_machine next (suc offset) s)
        (λ next. run_machine-tab next (suc offset) s (ground arith))
]

abbrev plain : Bytes → Bool
plain s = not (contains s b' ' || contains s b'\t')

tokens-eq : (c : ℕ) → token_byte_lookup c ≡ is_token c
unfolding token_byte_lookup
tokens-eq c = ground arith

run_machine-method :
    (k offset : ℕ) (b : Bool) (m s : Bytes)
    → plain m ≡ true
    → run_machine (in_method k b) offset (m ++ s)
      ≡ run_machine (in_method (k + length m) (b && all is_token m)) (offset + length m) s
unfolding run_machine transition
run_machine-method k offset b [] s h =
    ap (λ i. run_machine (in_method i b) offset s) {y = k + 0} (omega arith)
    ∙ ap (λ t. run_machine (in_method (k + 0) t) offset s) {y = b && true} (ground arith)
    ∙ ap (λ i. run_machine (in_method (k + 0) (b && true)) i s) {y = offset + 0} (omega arith)
run_machine-method k offset b (c ∷ m) s h =
    let step : transition (in_method k b) offset c ≡ ok (in_method (k + 1) (b && is_token c)) =
      ground (arith, tokens-eq c) in
    ap (λ r. r >>= λ next. run_machine next (suc offset) (m ++ s)) step
    ∙ run_machine-method (k + 1) (suc offset) (b && is_token c) m s (ground arith)
    ∙ ap
        (λ i.
          run_machine (in_method i ((b && is_token c) && all is_token m)) (suc offset + length m) s)
        {y = k + suc (length m)} (omega arith)
    ∙ ap (λ t. run_machine (in_method (k + suc (length m)) t) (suc offset + length m) s)
        {y = b && (is_token c && all is_token m)} (ground arith)
    ∙ ap
        (λ i.
          run_machine (in_method (k + suc (length m)) (b && (is_token c && all is_token m))) i s)
        {y = offset + suc (length m)} (omega arith)

faults : TargetFault → Bytes → TargetFault
unfolding next_target_fault
faults f [] = f
faults f (c ∷ t) = faults (next_target_fault f c) t

run_machine-target :
    (e k offset : ℕ) (b : Bool) (f : TargetFault) (t s : Bytes)
    → plain t ≡ true
    → run_machine (in_target e b k f) offset (t ++ s)
      ≡ run_machine (in_target e b (k + length t) (faults f t)) (offset + length t) s
unfolding run_machine transition faults
run_machine-target e k offset b f [] s h =
    ap (λ i. run_machine (in_target e b i f) offset s) {y = k + 0} (omega arith)
    ∙ ap (λ i. run_machine (in_target e b (k + 0) f) i s) {y = offset + 0} (omega arith)
run_machine-target e k offset b f (c ∷ t) s h =
    let not_tab : (c == b'\t') ≡ false = ground arith in
    let not_space : (c == b' ') ≡ false = ground arith in
    let step : transition (in_target e b k f) offset c
        ≡ ok (in_target e b (k + 1) (next_target_fault f c)) =
      rw (not_tab, not_space) refl in
    ap (λ r. r >>= λ next. run_machine next (suc offset) (t ++ s)) step
    ∙ run_machine-target e (k + 1) (suc offset) b (next_target_fault f c) t s (ground arith)
    ∙ ap
        (λ i.
          run_machine (in_target e b i (faults (next_target_fault f c) t)) (suc offset + length t)
            s)
        {y = k + suc (length t)} (omega arith)
    ∙ ap
        (λ i.
          run_machine (in_target e b (k + suc (length t)) (faults (next_target_fault f c) t)) i s)
        {y = offset + suc (length t)} (omega arith)

faults-kept : (f : TargetFault) (t : Bytes) → f ≢ no_fault → faults f t ≡ f
unfolding faults next_target_fault
faults-kept no_fault t h = absurd (h refl)
faults-kept fragment [] h = refl
faults-kept fragment (c ∷ t) h = faults-kept fragment t h
faults-kept non_visible [] h = refl
faults-kept non_visible (c ∷ t) h = faults-kept non_visible t h

check_fault-eq-check_target : (t : Bytes) → check_fault (faults no_fault t) ≡ check_target t
unfolding check_fault faults next_target_fault check_target
check_fault-eq-check_target [] = refl
check_fault-eq-check_target (c ∷ t) = ground (
  arith,
  faults-kept fragment t (λ e. cc),
  faults-kept non_visible t (λ e. cc),
  check_fault-eq-check_target t,
)

text_at : ℕ → ℕ → Bool
text_at k c = map_or (get_elem? http_11_bytes k) false (λ d. d == c)

matching : ℕ → Bytes → Bool
unfolding text_at
matching k [] = true
matching k (c ∷ v) = text_at k c && matching (k + 1) v

start_version : ℕ → Bool → ℕ → TargetFault → ℕ → Bool → SemanticRecord
start_version e b a f k w = record {
  method_end = e;
  method_is_token = b;
  target_end = a;
  target_fault = f;
  version_len = k;
  version_matches = w;
}

run_machine-version :
    (e a k offset : ℕ) (b w : Bool) (f : TargetFault) (v : Bytes)
    → run_machine (in_version (start_version e b a f k w)) offset v ≡ (
        if plain v
        then ok (in_version (start_version e b a f (k + length v) (w && matching k v)))
        else err invalid_spacing)
unfolding run_machine transition matching start_version text_at
run_machine-version e a k offset b w f [] =
    ap (λ i. ok (in_version (start_version e b a f i w))) {y = k + 0} (omega arith)
    ∙ ap (λ t. ok (in_version (start_version e b a f (k + 0) t))) {y = w && true} (ground arith)
run_machine-version e a k offset b w f (c ∷ v) = elim (Bool-cases (c == b'\t' || c == b' ')) [
  | inl h ↦
      let not_plain : plain (c ∷ v) ≡ false = ground arith in
      ap
        (λ t.
          (if t
            then err invalid_spacing
            else ok (in_version (start_version e b a f (k + 1) (w && text_at k c))))
          >>= λ next. run_machine next (suc offset) v)
        h
      ∙ sym (
          ap
            (λ t.
              if t
              then ok (
                  in_version (start_version e b a f (k + length (c ∷ v)) (w && matching k (c ∷ v))))
              else err invalid_spacing)
            not_plain)
  | inr h ↦
      let same : plain (c ∷ v) ≡ plain v = ground arith in
      let count : k + 1 + length v ≡ k + suc (length v) = omega arith in
      let judged : ((w && text_at k c) && matching (k + 1) v)
          ≡ (w && (text_at k c && matching (k + 1) v)) =
        ground arith in
      ap
        (λ t.
          (if t
            then err invalid_spacing
            else ok (in_version (start_version e b a f (k + 1) (w && text_at k c))))
          >>= λ next. run_machine next (suc offset) v)
        h
      ∙ run_machine-version e a (k + 1) (suc offset) b (w && text_at k c) f v
      ∙ ap
          (λ t.
            if plain v
            then ok (in_version (start_version e b a f (k + 1 + length v) t))
            else err invalid_spacing)
          judged
      ∙ ap
          (λ i.
            if plain v
            then ok
                (in_version (start_version e b a f i (w && (text_at k c && matching (k + 1) v))))
            else err invalid_spacing)
          count
      ∙ ap
          (λ t.
            if t
            then ok (
                in_version (
                  start_version e b a f (k + suc (length v))
                    (w && (text_at k c && matching (k + 1) v))))
            else err invalid_spacing)
          (sym same)
]

matching_past :
    (i : ℕ) (u : Bytes)
    → get_elem? http_11_bytes i ≡ none
    → i ≡ length http_11_bytes
    → ((i + length u == length http_11_bytes) && matching i u) ≡ equal u []
unfolding matching equal
matching_past i [] none_left e = ground arith
matching_past i (c ∷ u) none_left e = ground arith

matching-cons :
    (i c d : ℕ) (u rest : Bytes)
    → get_elem? http_11_bytes i ≡ some d
    → ((suc i + length u == length http_11_bytes) && matching (suc i) u) ≡ equal u rest
    → ((i + length (c ∷ u) == length http_11_bytes) && matching i (c ∷ u))
      ≡ equal (c ∷ u) (d ∷ rest)
unfolding matching equal text_at
matching-cons i c d u rest found same =
    let count : i + suc (length u) ≡ suc i + length u = omega arith in
    rw (found, add-one i, count, ← same) (ground arith)

matching-equal :
    (k : ℕ) (v : Bytes)
    → k ≤ length http_11_bytes
    → ((k + length v == length http_11_bytes) && matching k v) ≡ equal v (drop k http_11_bytes)
matching-equal k [] h = elim (Bool-cases (ltb k (length http_11_bytes))) [
  | inr e ↦
      let behind = get_elem?_ge k http_11_bytes (ground arith) in
      rw (drop-nil_get k http_11_bytes behind) (matching_past k [] behind (ground arith))
  | inl e ↦
      let (d, found) = get_elem?_lt k http_11_bytes (ground arith) in
      rw (drop-cons_get k http_11_bytes found) (unfold matching equal in ground arith)
]
matching-equal k (c ∷ v) h = elim (Bool-cases (ltb k (length http_11_bytes))) [
  | inr e ↦
      let behind = get_elem?_ge k http_11_bytes (ground arith) in
      rw (drop-nil_get k http_11_bytes behind) (matching_past k (c ∷ v) behind (ground arith))
  | inl e ↦
      let (d, found) = get_elem?_lt k http_11_bytes (ground arith) in
      rw (drop-cons_get k http_11_bytes found) (
        matching-cons k c d v (drop (suc k) http_11_bytes) found
          (matching-equal (suc k) v (ground arith)))
]

read : ℕ → Bytes → PolyguardResult RequestLine
unfolding run_decision_machine read_record
read n line = run_decision_machine line >>= read_record line n

read-tab :
    (n : ℕ) (line : Bytes)
    → contains line b'\t' ≡ true
    → read n line ≡ err (invalid_line (codes "invalid_spacing"))
unfolding read run_decision_machine
read-tab n line h =
    rw (run_machine-tab (in_method 0 true) 0 line h) (unfold terminal_record in refl)

run_machine-word :
    (line : Bytes)
    → plain line ≡ true
    → run_machine (in_method 0 true) 0 line ≡ ok (in_method (0 + length line) (all is_token line))
run_machine-word line h =
    ap (run_machine (in_method 0 true) 0) (sym (append-nil line))
    ∙ run_machine-method 0 0 true line [] h
    ∙ (unfold run_machine in refl)

read-word :
    (n : ℕ) (line : Bytes)
    → contains line b' ' ≡ false
    → read n line ≡ err (invalid_line (codes "invalid_spacing"))
read-word n line h = elim (Bool-cases (contains line b'\t')) [
  | inl e ↦ read-tab n line e
  | inr e ↦
      let ends = run_machine-word line (ground arith) in
      unfold read run_decision_machine in rw ends (unfold terminal_record in refl)
]

-- The machine behind the first space, and behind the second
run_machine-first :
    (m s : Bytes)
    → plain m ≡ true
    → run_machine (in_method 0 true) 0 (m ++ b' ' ∷ s) ≡ (
        if is_empty m
        then err invalid_spacing
        else run_machine (in_target (length m) (all is_token m) 0 no_fault) (suc (length m)) s)
unfolding run_machine transition
run_machine-first [] s h = refl
run_machine-first (c ∷ m) s h =
    let start : 0 + length (c ∷ m) ≡ suc (length m) = omega arith in
    let b = all is_token (c ∷ m) in
    let step : transition (in_method (suc (length m)) b) (suc (length m)) b' '
        ≡ ok (in_target (suc (length m)) b 0 no_fault) =
      ground arith in
    run_machine-method 0 0 true (c ∷ m) (b' ' ∷ s) h
    ∙ ap (λ i. run_machine (in_method i b) i (b' ' ∷ s)) start
    ∙ ap (λ r. r >>= λ next. run_machine next (suc (suc (length m))) s) step

run_machine-second :
    (e offset : ℕ) (b : Bool) (t s : Bytes)
    → plain t ≡ true
    → run_machine (in_target e b 0 no_fault) offset (t ++ b' ' ∷ s) ≡ (
        if is_empty t
        then err invalid_spacing
        else run_machine
            (in_version (start_version e b (offset + length t) (faults no_fault t) 0 true))
            (suc (offset + length t))
            s)
unfolding run_machine transition start_version faults
run_machine-second e offset b [] s h = refl
run_machine-second e offset b (c ∷ t) s h =
    let start : 0 + length (c ∷ t) ≡ suc (length t) = omega arith in
    let f = faults no_fault (c ∷ t) in
    let at = offset + length (c ∷ t) in
    let step : transition (in_target e b (suc (length t)) f) at b' '
        ≡ ok (in_version (start_version e b at f 0 true)) =
      ap
        (λ test.
          if test then err invalid_spacing else ok (in_version (start_version e b at f 0 true)))
        {x = suc (length t) == 0} {y = false} (ground arith) in
    run_machine-target e 0 offset b no_fault (c ∷ t) (b' ' ∷ s) h
    ∙ ap (λ i. run_machine (in_target e b i f) at (b' ' ∷ s)) start
    ∙ ap (λ r. r >>= λ next. run_machine next (suc at) s) step

terminal-target :
    (e offset : ℕ) (b : Bool) (t : Bytes)
    → plain t ≡ true
    → terminal_record (run_machine (in_target e b 0 no_fault) offset t)
      ≡ err (if is_empty t then invalid_line (codes "invalid_spacing") else unsupported_version)
unfolding terminal_record
terminal-target e offset b t h =
    let whole : run_machine (in_target e b 0 no_fault) offset t
        ≡ ok (in_target e b (0 + length t) (faults no_fault t)) =
      ap (run_machine (in_target e b 0 no_fault) offset) (sym (append-nil t))
      ∙ run_machine-target e 0 offset b no_fault t [] h
      ∙ (unfold run_machine in refl) in
    rw whole (ground (arith, is_empty-length t))

read-pair :
    (n : ℕ) (m t : Bytes)
    → contains m b' ' ≡ false
    → contains t b' ' ≡ false
    → n ≡ length m + 1 + length t
    → read n (pair_line m t) ≡ of_pair (contains (pair_line m t) b'\t') m t
read-pair n m t h k _ = elim (Bool-cases (contains (pair_line m t) b'\t')) [
  | inl e ↦ rw e (read-tab n (pair_line m t) e)
  | inr e ↦
      let apart = contains-append b'\t' m (b' ' ∷ t) in
      let first = run_machine-first m t (ground arith) in
      let last = terminal-target (length m) (suc (length m)) (all is_token m) t (ground arith) in
      rw e (by_first first last)
]
  where
    by_first :
        run_machine (in_method 0 true) 0 (pair_line m t) ≡ (
          if is_empty m
          then err invalid_spacing
          else run_machine (in_target (length m) (all is_token m) 0 no_fault) (suc (length m)) t)
        → terminal_record
            (run_machine (in_target (length m) (all is_token m) 0 no_fault) (suc (length m)) t)
          ≡ err (if is_empty t then invalid_line (codes "invalid_spacing") else unsupported_version)
        → read n (pair_line m t) ≡ of_pair false m t
    by_first first last = elim (Bool-cases (is_empty m)) [
      | inl e ↦ unfold read run_decision_machine in rw (first, e) (unfold terminal_record in refl)
      | inr e ↦ unfold read run_decision_machine in rw (first, e, last) (ground arith)
    ]

read_record-eq-of_words :
    (n : ℕ) (m t v : Bytes)
    → read_record (triple_line m t v) n (
        start_version
          (length m)
          (all is_token m)
          (suc (length m) + length t)
          (faults no_fault t)
          (0 + length v)
          (true && matching 0 v))
      ≡ of_words n m t v
unfolding read_record of_words check_method start_version
read_record-eq-of_words n m t v =
    let there : suc (length m) + length t ≡ length m + 1 + length t = omega arith in
    rw
      (
        there,
        take-word m (b' ' ∷ (t ++ b' ' ∷ v)),
        slice-word m t (b' ' ∷ v),
        check_fault-eq-check_target t,
        ← matching-equal 0 v (omega arith),
      )
      (ground arith)

-- The record at the end of a line of three words
whole_record : Bytes → Bytes → Bytes → SemanticRecord
whole_record m t v =
    start_version (length m) (all is_token m) (suc (length m) + length t) (faults no_fault t)
      (0 + length v) (true && matching 0 v)

run_machine-triple :
    (m t v : Bytes)
    → plain m ≡ true
    → plain t ≡ true
    → run_machine (in_method 0 true) 0 (triple_line m t v) ≡ (
        if is_empty m || is_empty t || not (plain v)
        then err invalid_spacing
        else ok (in_version (whole_record m t v)))
unfolding whole_record
run_machine-triple m t v h k =
    rw
      (
        run_machine-first m (t ++ b' ' ∷ v) h,
        run_machine-second (length m) (suc (length m)) (all is_token m) t v k,
        run_machine-version (length m) (suc (length m) + length t) 0
            (suc (suc (length m) + length t)) (all is_token m) true (faults no_fault t) v,
      )
      (ground arith)

terminal-whole :
    (m t v : Bytes) (bad : Bool)
    → terminal_record (if bad then err invalid_spacing else ok (in_version (whole_record m t v)))
      ≡ (if bad || is_empty v
          then err (invalid_line (codes "invalid_spacing"))
          else ok (whole_record m t v))
unfolding terminal_record
terminal-whole m t v true = refl
terminal-whole m t v false =
    unfold whole_record start_version in rw (is_empty-length v) (ground arith)

read-whole :
    (n : ℕ) (m t v : Bytes)
    → contains v b'\t' ≡ false
    → ((if (is_empty m || is_empty t || not (plain v)) || is_empty v
          then err (invalid_line (codes "invalid_spacing"))
          else ok (whole_record m t v))
        >>= read_record (triple_line m t v) n)
      ≡ of_triple false n m t v
read-whole n m t v clear = elim (Bool-cases (misplaced false m t v)) [
  | inl e ↦
      let same : ((is_empty m || is_empty t || not (plain v)) || is_empty v) ≡ true =
        ground arith in
      rw (same, e) refl
  | inr e ↦
      let same : ((is_empty m || is_empty t || not (plain v)) || is_empty v) ≡ false =
        ground arith in
      rw (same, e) (unfold whole_record in read_record-eq-of_words n m t v)
]

read-triple :
    (n : ℕ) (m t v : Bytes)
    → contains m b' ' ≡ false
    → contains t b' ' ≡ false
    → n ≡ length m + 1 + length t + 1 + length v
    → length t ≤ line_limit
    → read n (triple_line m t v) ≡ of_triple (contains (triple_line m t v) b'\t') n m t v
read-triple n m t v h k _ _ = elim (Bool-cases (contains (triple_line m t v) b'\t')) [
  | inl e ↦ rw e (read-tab n (triple_line m t v) e)
  | inr e ↦
      let apart = contains-append b'\t' m (b' ' ∷ (t ++ b' ' ∷ v)) in
      let apart' = contains-append b'\t' t (b' ' ∷ v) in
      let run = run_machine-triple m t v (ground arith) (ground arith) in
      let last = terminal-whole m t v (is_empty m || is_empty t || not (plain v)) in
      let final = read-whole n m t v (ground arith) in
      rw e (
        unfold read run_decision_machine in
        ap (λ r. terminal_record r >>= read_record (triple_line m t v) n) run
        ∙ ap (λ r. r >>= read_record (triple_line m t v) n) last
        ∙ final)
]

-- The decision machine gives on every input the outcome
-- that the description gives.
pub decision_machine-eq-request_line :
    (input : Bytes) → parse_request_line input ≡ request_line input
unfolding parse_request_line request_line_boundary read
decision_machine-eq-request_line =
    agrees request_line_boundary read (λ input. boundary-eq-line_end 0 input (omega arith))
      read-word read-pair read-triple
