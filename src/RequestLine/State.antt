-- ===== src/RequestLine/State.antt =====
-- src/implementations/request_line_state.rs: a peeking iterator finds the boundary, and a fold
-- over part states finds the parts.
use mathlib.Core.List.{map}
use polyform_polyguard.Base.{
  ℕ, suc, ◌+◌, ◌-◌, ◌≤◌, Bool, true, false, not, ◌&&◌, ◌||◌, Option, none, some, [], ◌∷◌, ◌++◌, ◌≡◌,
  refl, ap, sym, ◌∙◌, inl, inr, arith, Bytes, codes, ltb, ◌==◌, if◌then◌else◌, Bool-cases, within,
  contains, all, find, is_empty, get_elem?, map_or, slice, take, drop, length, equal,
  is_ascii_alphanumeric, to_ascii_lowercase, ok, err, ◌>>=◌, ◌>>◌, refuse_if, append-nil,
}
use polyform_polyguard.RequestLine.Parts.{
  pair_line, triple_line, of_pair, of_triple, misplaced, agrees,
}
use polyform_polyguard.RequestLine.Words.{
  take-word, slice-word, drop-two_words, is_empty-length, contains-append, before_second_space,
  length-pair, length-triple,
}
use polyform_polyguard.RequestLine.{
  request_line, line_end, end_step, next_is_lf, line_limit, of_words, check_target, check_method,
}
use polyform_polyguard.Types.{
  RequestLine, http11, PolyguardError, PolyguardResult, limit_exceeded, invalid_request_line,
  unsupported_version, invalid_method, invalid_target,
}

abbrev request_line_limit : ℕ
request_line_limit = 8192

abbrev method_limit : ℕ
method_limit = 32

abbrev http_11 : Bytes
http_11 = codes "HTTP/1.1"

abbrev token_punctuation : Bytes
token_punctuation = codes "!#$%&'*+-.^_`|~"

data LineBoundary : Type 0 where
  complete : ℕ → LineBoundary
  incomplete : LineBoundary
  over_limit : ℕ → LineBoundary
  bare_ending : LineBoundary
  control : LineBoundary

data RequestParts : Type 0 where
  complete_parts : (method target version : Bytes) → RequestParts
  missing_version : RequestParts
  invalid_spacing : RequestParts

data PartState : Type 0 where
  in_method : PartState
  in_target : (method_end : ℕ) → PartState
  in_version : (method_end target_end : ℕ) → PartState
  invalid : PartState

abbrev request_line_error : Bytes → PolyguardError
request_line_error reason = invalid_request_line reason

abbrev is_token : ℕ → Bool
is_token byte = is_ascii_alphanumeric byte || contains token_punctuation byte

-- `matches!(bytes.peek(), Some((_, b'\n')))`
abbrev peeks_lf : Bytes → Bool
peeks_lf [] = false
peeks_lf (byte ∷ _) = byte == b'\n'

-- The body of the loop at a byte, with a line feed behind it or not.
at_byte : ℕ → ℕ → Bool → LineBoundary → LineBoundary
at_byte index byte lf_follows rest =
    if index == request_line_limit
    then (if byte == b'\r' && lf_follows
        then complete index
        else over_limit (request_line_limit + 1))
    else if byte == b'\r' && lf_follows
    then complete index
    else if byte == b'\r' || byte == b'\n'
    then bare_ending
    else if within 0 8 byte || within 11 31 byte || byte == 127
    then control
    else rest

-- `while let Some((index, byte)) = bytes.next()`
boundary_from : ℕ → Bytes → LineBoundary
unfolding at_byte
boundary_from index [] = incomplete
boundary_from index (byte ∷ bytes) =
    at_byte index byte (peeks_lf bytes) (boundary_from (suc index) bytes)

locate_boundary : Bytes → LineBoundary
unfolding boundary_from
locate_boundary input = boundary_from 0 input

-- The closure of the fold, by the state before the byte.
next_part : Bytes → PartState → ℕ → ℕ → PartState
next_part line in_method index byte =
    if byte == b'\t'
    then invalid
    else if byte == b' '
    then (if index == 0 then invalid else in_target index)
    else in_method
next_part line (in_target method_end) index byte =
    if byte == b'\t'
    then invalid
    else if byte == b' '
    then (if map_or (get_elem? line (index - 1)) false (λ before. before == b' ')
        then invalid
        else in_version method_end index)
    else in_target method_end
next_part line (in_version method_end target_end) index byte =
    if byte == b'\t' || byte == b' ' then invalid else in_version method_end target_end
next_part line invalid index byte = invalid

fold_parts : Bytes → PartState → ℕ → Bytes → PartState
unfolding next_part
fold_parts line state index [] = state
fold_parts line state index (byte ∷ bytes) =
    fold_parts line (next_part line state index byte) (suc index) bytes

parts_of : Bytes → PartState → RequestParts
parts_of line (in_version method_end target_end) =
    if ltb (target_end + 1) (length line)
    then complete_parts (take method_end line) (slice line (method_end + 1) target_end)
        (drop (target_end + 1) line)
    else invalid_spacing
parts_of line (in_target method_end) =
    if ltb (method_end + 1) (length line) then missing_version else invalid_spacing
parts_of line in_method = invalid_spacing
parts_of line invalid = invalid_spacing

partition : Bytes → RequestParts
unfolding fold_parts parts_of
partition line = parts_of line (fold_parts line in_method 0 line)

end_of : LineBoundary → PolyguardResult ℕ
end_of (complete index) = ok index
end_of incomplete = err PolyguardError.incomplete
end_of (over_limit actual) =
    err (limit_exceeded (codes "request_line_bytes") request_line_limit actual)
end_of bare_ending = err (request_line_error (codes "bare_line_ending"))
end_of control = err (request_line_error (codes "control_character"))

-- The first byte of the target that is a hash or not graphic
check_offending : Option ℕ → PolyguardResult Unit
check_offending (some byte) = err (
    invalid_target
      (if byte == b'#' then codes "fragment_not_allowed" else codes "non_visible_ascii"))
check_offending none = ok tt

read_parts : ℕ → RequestParts → PolyguardResult RequestLine
unfolding check_offending
read_parts line_end missing_version = err unsupported_version
read_parts line_end invalid_spacing = err (request_line_error (codes "invalid_spacing"))
read_parts line_end (complete_parts method target version) = do
  refuse_if (not (within 1 method_limit (length method)) || not (all is_token method))
      invalid_method
  refuse_if (is_empty target) (request_line_error (codes "invalid_spacing"))
  check_offending (find (λ byte. byte == b'#' || not (within b'!' b'~' byte)) target)
  refuse_if (not (equal version http_11)) unsupported_version
  ok (record {
    method = map to_ascii_lowercase method;
    target = target;
    version = http11;
    bytes_consumed = line_end + 2;
  })

pub parse_request_line : Bytes → PolyguardResult RequestLine
unfolding end_of locate_boundary read_parts partition
parse_request_line input = do
  line_end ← end_of (locate_boundary input)
  read_parts line_end (partition (take line_end input))

at_byte-eq-end_step :
    (index c : ℕ) (followed : Bool) (rest : LineBoundary)
    → end_of (at_byte index c followed rest) ≡ end_step index c followed (end_of rest)
unfolding end_of at_byte end_step
at_byte-eq-end_step index c followed rest = ground arith

peeks-eq-next : (s : Bytes) → peeks_lf s ≡ next_is_lf s
peeks-eq-next [] = refl
peeks-eq-next (c ∷ s) = refl

boundary-eq-line_end : (index : ℕ) (s : Bytes) → end_of (boundary_from index s) ≡ line_end index s
unfolding end_of boundary_from line_end
boundary-eq-line_end index [] = refl
boundary-eq-line_end index (c ∷ s) =
    at_byte-eq-end_step index c (peeks_lf s) (boundary_from (suc index) s)
    ∙ ap (λ f. end_step index c f (end_of (boundary_from (suc index) s))) (peeks-eq-next s)
    ∙ ap (end_step index c (next_is_lf s)) (boundary-eq-line_end (suc index) s)

fold_parts-invalid :
    (line : Bytes) (index : ℕ) (s : Bytes) → fold_parts line invalid index s ≡ invalid
unfolding fold_parts next_part
fold_parts-invalid line index [] = refl
fold_parts-invalid line index (c ∷ s) = fold_parts-invalid line (suc index) s

next_part-tab :
    (line : Bytes) (state : PartState) (index : ℕ) → next_part line state index b'\t' ≡ invalid
unfolding next_part
next_part-tab line in_method index = refl
next_part-tab line (in_target e) index = refl
next_part-tab line (in_version e f) index = refl
next_part-tab line invalid index = refl

fold_parts-tab :
    (line : Bytes) (state : PartState) (index : ℕ) (s : Bytes)
    → contains s b'\t' ≡ true
    → fold_parts line state index s ≡ invalid
unfolding fold_parts
fold_parts-tab line state index [] h = cc
fold_parts-tab line state index (c ∷ s) h = elim (Bool-cases (c == b'\t')) [
  | inl e ↦
      let same : c ≡ b'\t' = ground arith in
      ap (λ d. fold_parts line (next_part line state index d) (suc index) s) same
      ∙ ap (λ next. fold_parts line next (suc index) s) (next_part-tab line state index)
      ∙ fold_parts-invalid line (suc index) s
  | inr e ↦ fold_parts-tab line (next_part line state index c) (suc index) s (ground arith)
]

-- A word keeps the state.
abbrev plain : Bytes → Bool
plain s = not (contains s b' ' || contains s b'\t')

fold_parts-method :
    (line : Bytes) (index : ℕ) (m s : Bytes)
    → plain m ≡ true
    → fold_parts line in_method index (m ++ s) ≡ fold_parts line in_method (index + length m) s
unfolding fold_parts next_part
fold_parts-method line index [] s h = ap (λ i. fold_parts line in_method i s) (omega arith)
fold_parts-method line index (c ∷ m) s h =
    let next : suc index + length m ≡ index + suc (length m) = omega arith in
    let same : next_part line in_method index c ≡ in_method = ground arith in
    ap (λ state. fold_parts line state (suc index) (m ++ s)) same
    ∙ fold_parts-method line (suc index) m s (ground arith)
    ∙ ap (λ i. fold_parts line in_method i s) next

fold_parts-target :
    (line : Bytes) (e index : ℕ) (t s : Bytes)
    → plain t ≡ true
    → fold_parts line (in_target e) index (t ++ s)
      ≡ fold_parts line (in_target e) (index + length t) s
unfolding fold_parts next_part
fold_parts-target line e index [] s h = ap (λ i. fold_parts line (in_target e) i s) (omega arith)
fold_parts-target line e index (c ∷ t) s h =
    let next : suc index + length t ≡ index + suc (length t) = omega arith in
    let not_tab : (c == b'\t') ≡ false = ground arith in
    let not_space : (c == b' ') ≡ false = ground arith in
    let same : next_part line (in_target e) index c ≡ in_target e = rw (not_tab, not_space) refl in
    ap (λ state. fold_parts line state (suc index) (t ++ s)) same
    ∙ fold_parts-target line e (suc index) t s (ground arith)
    ∙ ap (λ i. fold_parts line (in_target e) i s) next

fold_parts-version :
    (line : Bytes) (e f index : ℕ) (v : Bytes)
    → fold_parts line (in_version e f) index v ≡ (if plain v then in_version e f else invalid)
unfolding fold_parts next_part
fold_parts-version line e f index [] = refl
fold_parts-version line e f index (c ∷ v) = elim (Bool-cases (c == b'\t' || c == b' ')) [
  | inl h ↦ rw (h, fold_parts-invalid line (suc index) v) (ground arith)
  | inr h ↦ rw (h, fold_parts-version line e f (suc index) v) (ground arith)
]

method_ends :
    (line : Bytes) (k : ℕ) (s : Bytes)
    → fold_parts line in_method (suc k) (b' ' ∷ s)
      ≡ fold_parts line (in_target (suc k)) (suc (suc k)) s
unfolding fold_parts next_part
method_ends line k s =
    let later : next_part line in_method (suc k) b' ' ≡ in_target (suc k) = ground arith in
    ap (λ state. fold_parts line state (suc (suc k)) s) later

fold_parts-pair :
    (m t : Bytes)
    → plain m ≡ true
    → plain t ≡ true
    → fold_parts (pair_line m t) in_method 0 (pair_line m t)
      ≡ (if is_empty m then invalid else in_target (length m))
unfolding fold_parts next_part
fold_parts-pair [] t h k = fold_parts-invalid (pair_line [] t) 1 t
fold_parts-pair (c ∷ m) t h k =
    let line = pair_line (c ∷ m) t in
    fold_parts-method line 0 (c ∷ m) (b' ' ∷ t) h
    ∙ ap (λ i. fold_parts line in_method i (b' ' ∷ t)) {y = suc (length m)} (omega arith)
    ∙ method_ends line (length m) t
    ∙ (ap (λ r. fold_parts line (in_target (suc (length m))) (suc (suc (length m))) r)
          (sym (append-nil t))
        ∙ fold_parts-target line (suc (length m)) (suc (suc (length m))) t [] k)

fold_parts-triple :
    (m t v : Bytes)
    → plain m ≡ true
    → plain t ≡ true
    → fold_parts (triple_line m t v) in_method 0 (triple_line m t v) ≡ (
        if is_empty m || is_empty t || not (plain v)
        then invalid
        else in_version (length m) (length m + 1 + length t))
unfolding fold_parts next_part
fold_parts-triple [] t v h k = fold_parts-invalid (triple_line [] t v) 1 (t ++ b' ' ∷ v)
fold_parts-triple (c ∷ m) t v h k =
    let line = triple_line (c ∷ m) t v in
    let a = suc (length m) in
    let b = a + 1 + length t in
    let second : next_part line (in_target a) b b' '
        ≡ (if is_empty t then invalid else in_version a b) =
      ap (λ test. if test then invalid else in_version a b)
        (before_second_space (c ∷ m) t (b' ' ∷ v) (ground arith)) in
    fold_parts-method line 0 (c ∷ m) (b' ' ∷ (t ++ b' ' ∷ v)) h
    ∙ ap (λ i. fold_parts line in_method i (b' ' ∷ (t ++ b' ' ∷ v))) {y = a} (omega arith)
    ∙ method_ends line (length m) (t ++ b' ' ∷ v)
    ∙ fold_parts-target line a (suc a) t (b' ' ∷ v) k
    ∙ ap (λ i. fold_parts line (in_target a) i (b' ' ∷ v)) {y = b} (omega arith)
    ∙ ap (λ state. fold_parts line state (suc b) v) second
    ∙ by_target t
  where
    by_target :
        (u : Bytes)
        → fold_parts
            (triple_line (c ∷ m) t v)
            (if is_empty u
              then invalid
              else in_version (suc (length m)) (suc (length m) + 1 + length t))
            (suc (suc (length m) + 1 + length t))
            v
          ≡ (if is_empty u || not (plain v)
              then invalid
              else in_version (suc (length m)) (suc (length m) + 1 + length t))
    by_target [] =
        fold_parts-invalid (triple_line (c ∷ m) t v) (suc (suc (length m) + 1 + length t)) v
    by_target (d ∷ u) =
        fold_parts-version (triple_line (c ∷ m) t v) (suc (length m))
          (suc (length m) + 1 + length t) (suc (suc (length m) + 1 + length t)) v
        ∙ ground arith

all-within :
    (t : Bytes)
    → check_offending (find (λ byte. byte == b'#' || not (within b'!' b'~' byte)) t)
      ≡ check_target t
unfolding check_offending check_target
all-within [] = refl
all-within (c ∷ t) = ground (arith, all-within t)

read : ℕ → Bytes → PolyguardResult RequestLine
unfolding read_parts partition
read n line = read_parts n (partition line)

partition-tab : (line : Bytes) → contains line b'\t' ≡ true → partition line ≡ invalid_spacing
unfolding partition parts_of
partition-tab line h = rw (fold_parts-tab line in_method 0 line h) refl

read-word :
    (n : ℕ) (line : Bytes)
    → contains line b' ' ≡ false
    → read n line ≡ err (request_line_error (codes "invalid_spacing"))
unfolding read
read-word n line h = elim (Bool-cases (contains line b'\t')) [
  | inl e ↦ rw (partition-tab line e) (unfold read_parts in refl)
  | inr e ↦
      let whole : fold_parts line in_method 0 line ≡ in_method =
        ap (fold_parts line in_method 0) (sym (append-nil line))
        ∙ fold_parts-method line 0 line [] (ground arith)
        ∙ (unfold fold_parts in refl) in
      let none_found : partition line ≡ invalid_spacing =
        unfold partition in rw whole (unfold parts_of in refl) in
      rw none_found (unfold read_parts in refl)
]

parts_of-pair :
    (m t : Bytes)
    → parts_of (pair_line m t) (if is_empty m then invalid else in_target (length m))
      ≡ (if is_empty m || is_empty t then invalid_spacing else missing_version)
unfolding parts_of
parts_of-pair [] t = refl
parts_of-pair (c ∷ m) t = ground (arith, is_empty-length t, length-pair (c ∷ m) t)

parts_of-version :
    (m t v : Bytes)
    → parts_of (triple_line m t v) (in_version (length m) (length m + 1 + length t))
      ≡ (if is_empty v then invalid_spacing else complete_parts m t v)
unfolding parts_of
parts_of-version m t v =
    let inside : ltb (length m + 1 + length t + 1) (length (triple_line m t v)) ≡ not (is_empty v) =
      ground (arith, is_empty-length v, length-triple m t v) in
    rw
      (
        take-word m (b' ' ∷ (t ++ b' ' ∷ v)),
        slice-word m t (b' ' ∷ v),
        drop-two_words m t v,
        inside,
      )
      (ground arith)

parts_of-triple :
    (m t v : Bytes) (bad : Bool)
    → parts_of
        (triple_line m t v)
        (if bad then invalid else in_version (length m) (length m + 1 + length t))
      ≡ (if bad || is_empty v then invalid_spacing else complete_parts m t v)
parts_of-triple m t v true = unfold parts_of in refl
parts_of-triple m t v false = parts_of-version m t v

read-pair :
    (n : ℕ) (m t : Bytes)
    → contains m b' ' ≡ false
    → contains t b' ' ≡ false
    → n ≡ length m + 1 + length t
    → read n (pair_line m t) ≡ of_pair (contains (pair_line m t) b'\t') m t
unfolding read read_parts
read-pair n m t h k _ = elim (Bool-cases (contains (pair_line m t) b'\t')) [
  | inl e ↦ rw (partition-tab (pair_line m t) e, e) refl
  | inr e ↦
      let apart = contains-append b'\t' m (b' ' ∷ t) in
      let found : partition (pair_line m t)
          ≡ (if is_empty m || is_empty t then invalid_spacing else missing_version) =
        unfold partition in
        ap (parts_of (pair_line m t)) (fold_parts-pair m t (ground arith) (ground arith))
        ∙ parts_of-pair m t in
      rw (found, e) (ground arith)
]

read_parts_complete :
    (n : ℕ) (m t v : Bytes)
    → read_parts n (complete_parts m t v) ≡ (
        if is_empty m
        then err invalid_method
        else if is_empty t
        then (check_method m >> err (request_line_error (codes "invalid_spacing")))
        else of_words n m t v)
unfolding read_parts of_words check_method
read_parts_complete n m t v = rw (all-within t, is_empty-length m) (ground arith)

read-triple :
    (n : ℕ) (m t v : Bytes)
    → contains m b' ' ≡ false
    → contains t b' ' ≡ false
    → n ≡ length m + 1 + length t + 1 + length v
    → length t ≤ line_limit
    → read n (triple_line m t v) ≡ of_triple (contains (triple_line m t v) b'\t') n m t v
unfolding read
read-triple n m t v h k _ _ = elim (Bool-cases (contains (triple_line m t v) b'\t')) [
  | inl e ↦ rw (partition-tab (triple_line m t v) e, e) (unfold read_parts in refl)
  | inr e ↦
      let apart = contains-append b'\t' m (b' ' ∷ (t ++ b' ' ∷ v)) in
      let apart' = contains-append b'\t' t (b' ' ∷ v) in
      let bad = is_empty m || is_empty t || not (plain v) in
      let found : partition (triple_line m t v)
          ≡ (if bad || is_empty v then invalid_spacing else complete_parts m t v) =
        unfold partition in
        ap (parts_of (triple_line m t v)) (fold_parts-triple m t v (ground arith) (ground arith))
        ∙ parts_of-triple m t v bad in
      rw (found, e) (by_misplaced n m t v (ground arith))
]
  where
    by_misplaced :
        (n : ℕ) (m t v : Bytes)
        → contains v b'\t' ≡ false
        → read_parts n (
            if (is_empty m || is_empty t || not (plain v)) || is_empty v
            then invalid_spacing
            else complete_parts m t v)
          ≡ of_triple false n m t v
    by_misplaced n m t v clear = elim (Bool-cases (misplaced false m t v)) [
      | inl e ↦
          let same : ((is_empty m || is_empty t || not (plain v)) || is_empty v) ≡ true =
            ground arith in
          rw (same, e) (unfold read_parts in refl)
      | inr e ↦
          let same : ((is_empty m || is_empty t || not (plain v)) || is_empty v) ≡ false =
            ground arith in
          rw (same, e) (read_parts_complete n m t v ∙ ground arith)
    ]

-- The fold over part states gives on every input the outcome
-- that the description gives.
pub state-eq-request_line : (input : Bytes) → parse_request_line input ≡ request_line input
unfolding parse_request_line locate_boundary read
state-eq-request_line =
    agrees (λ input. end_of (locate_boundary input)) read (λ input. boundary-eq-line_end 0 input)
      read-word read-pair read-triple
