-- ===== src/Telemetry/WordComposition.antt =====
-- src/implementations/telemetry_word_composition.rs: a code is split at its underscores, the words
-- are read one by one, and the pair of them selects the category.
use polyform_polyguard.Base.{
  ℕ, Bool, true, false, not, ◌&&◌, ◌||◌, Option, none, some, List, [], ◌∷◌, ◌++◌, ◌≡◌, ◌⊎◌, refl,
  ap, sym, ◌∙◌, subst, inl, inr, arith, Bytes, codes, if◌then◌else◌, Bool-cases, ltb, ◌==◌, length,
  all, is_empty, is_ascii_lowercase, equal, equal_iff, ok, err, ◌>>=◌, ◌>>◌, refuse_if,
}
use polyform_polyguard.Base.Split.{split, joined, joined-split}
use polyform_polyguard.Telemetry.Codes.{Unknown, Code-cases, classification-Unknown}
use polyform_polyguard.Telemetry.{code_of, all_categories, classification}
use polyform_polyguard.Types.{
  OutcomeCategory, TelemetryOutcome, PolyguardResult, serialization_invariant,
}

abbrev max_code_bytes : ℕ
max_code_bytes = length (codes "implementation_disagreement")

data Word : Type 0 where
  accepted ambiguous client disagreement failure framing implementation internal : Word
  missing policy rejected route syntax timeout upstream : Word

record Words : Type 0 where
  first : Word
  second : Option Word

data Reachability : Type 0 where
  either before_upstream : Reachability

record ValidatedOutcome : Type 0 where
  category : OutcomeCategory
  reachability : Reachability

parse_word : Bytes → PolyguardResult Word
parse_word word =
    if equal word (codes "accepted")
    then ok Word.accepted
    else if equal word (codes "ambiguous")
    then ok Word.ambiguous
    else if equal word (codes "client")
    then ok Word.client
    else if equal word (codes "disagreement")
    then ok Word.disagreement
    else if equal word (codes "failure")
    then ok Word.failure
    else if equal word (codes "framing")
    then ok Word.framing
    else if equal word (codes "implementation")
    then ok Word.implementation
    else if equal word (codes "internal")
    then ok Word.internal
    else if equal word (codes "missing")
    then ok Word.missing
    else if equal word (codes "policy")
    then ok Word.policy
    else if equal word (codes "rejected")
    then ok Word.rejected
    else if equal word (codes "route")
    then ok Word.route
    else if equal word (codes "syntax")
    then ok Word.syntax
    else if equal word (codes "timeout")
    then ok Word.timeout
    else if equal word (codes "upstream")
    then ok Word.upstream
    else err serialization_invariant

-- `pieces.next()`, mapped and transposed
parse_second : List Bytes → PolyguardResult (Option Word)
unfolding parse_word
parse_second [] = ok none
parse_second (piece ∷ _) = parse_word piece >>= λ word. ok (some word)

more_than_one : List Bytes → Bool
more_than_one (_ ∷ _ ∷ _) = true
more_than_one _ = false

-- The pieces, of which there is always a first.
words_of : List Bytes → PolyguardResult Words
unfolding parse_second more_than_one
words_of [] = parse_word [] >>= λ word. ok (record { first = word; second = none })
words_of (piece ∷ pieces) = do
  word ← parse_word piece
  next ← parse_second pieces
  refuse_if (more_than_one pieces) serialization_invariant
  ok (record { first = word; second = next })

split_words : Bytes → PolyguardResult Words
unfolding words_of
split_words code =
    if is_empty code
      || ltb max_code_bytes (length code)
      || not (all (λ byte. byte == b'_' || is_ascii_lowercase byte) code)
    then err serialization_invariant
    else words_of (split b'_' code)

abbrev validated : OutcomeCategory → Reachability → PolyguardResult ValidatedOutcome
validated category reachability = ok (record { category = category; reachability = reachability })

compose_pair : Word → Option Word → PolyguardResult ValidatedOutcome
compose_pair Word.accepted none = validated OutcomeCategory.accepted either
compose_pair Word.client (some Word.syntax) =
    validated OutcomeCategory.client_syntax before_upstream
compose_pair Word.ambiguous (some Word.framing) =
    validated OutcomeCategory.ambiguous_framing before_upstream
compose_pair Word.policy (some Word.rejected) =
    validated OutcomeCategory.policy_rejected before_upstream
compose_pair Word.route (some Word.missing) =
    validated OutcomeCategory.route_missing before_upstream
compose_pair Word.upstream (some Word.failure) = validated OutcomeCategory.upstream_failure either
compose_pair Word.timeout none = validated OutcomeCategory.timeout either
compose_pair Word.implementation (some Word.disagreement) =
    validated OutcomeCategory.implementation_disagreement before_upstream
compose_pair Word.internal (some Word.failure) = validated OutcomeCategory.internal_failure either
compose_pair _ _ = err serialization_invariant

compose : Words → PolyguardResult ValidatedOutcome
unfolding compose_pair
compose words = compose_pair words.first words.second

validate_boundary : Bytes → PolyguardResult ValidatedOutcome
unfolding split_words compose
validate_boundary code = split_words code >>= compose

is_before_upstream : Reachability → Bool
is_before_upstream either = false
is_before_upstream before_upstream = true

validate_reachability : ValidatedOutcome → Bool → PolyguardResult Unit
unfolding is_before_upstream
validate_reachability outcome upstream_reached =
    refuse_if (upstream_reached && is_before_upstream outcome.reachability) serialization_invariant

is_success : OutcomeCategory → Bool
is_success OutcomeCategory.accepted = true
is_success _ = false

project : ValidatedOutcome → TelemetryOutcome
unfolding is_success
project outcome = record { category = outcome.category; success = is_success outcome.category }

pub classify_telemetry_outcome : Bytes → Bool → PolyguardResult TelemetryOutcome
unfolding validate_boundary validate_reachability project
classify_telemetry_outcome code upstream_reached = do
  outcome ← validate_boundary code
  validate_reachability outcome upstream_reached
  ok (project outcome)

known :
    (c : OutcomeCategory) (reached : Bool)
    → classify_telemetry_outcome (code_of c) reached ≡ classification (code_of c) reached
unfolding classify_telemetry_outcome classification equal split
known OutcomeCategory.accepted true = refl
known OutcomeCategory.accepted false = refl
known _ true = refl
known _ false = refl

abbrev text_of : Word → Bytes
text_of Word.accepted = codes "accepted"
text_of Word.ambiguous = codes "ambiguous"
text_of Word.client = codes "client"
text_of Word.disagreement = codes "disagreement"
text_of Word.failure = codes "failure"
text_of Word.framing = codes "framing"
text_of Word.implementation = codes "implementation"
text_of Word.internal = codes "internal"
text_of Word.missing = codes "missing"
text_of Word.policy = codes "policy"
text_of Word.rejected = codes "rejected"
text_of Word.route = codes "route"
text_of Word.syntax = codes "syntax"
text_of Word.timeout = codes "timeout"
text_of Word.upstream = codes "upstream"

abbrev all_words : List Word
all_words =
    Word.accepted ∷ Word.ambiguous ∷ Word.client ∷ Word.disagreement ∷ Word.failure ∷ Word.framing
    ∷ Word.implementation ∷ Word.internal ∷ Word.missing ∷ Word.policy ∷ Word.rejected ∷ Word.route
    ∷ Word.syntax ∷ Word.timeout ∷ Word.upstream ∷ []

abbrev UnknownWord : Bytes → List Word → Type 0
UnknownWord s [] = Unit
UnknownWord s (w ∷ ws) = (equal s (text_of w) ≡ false) × UnknownWord s ws

Word-cases-in : (s : Bytes) (ws : List Word) → ((w : Word) × (s ≡ text_of w)) ⊎ UnknownWord s ws
Word-cases-in s [] = inr tt
Word-cases-in s (w ∷ ws) = elim (Bool-cases (equal s (text_of w))) [
  | inl e ↦ inl (w, (equal_iff s (text_of w)).0 e)
  | inr e ↦ elim (Word-cases-in s ws) [ inl found ↦ inl found | inr rest ↦ inr (e, rest) ]
]

parse_word-text : (w : Word) → parse_word (text_of w) ≡ ok w
unfolding parse_word equal
parse_word-text Word.accepted = refl
parse_word-text Word.ambiguous = refl
parse_word-text Word.client = refl
parse_word-text Word.disagreement = refl
parse_word-text Word.failure = refl
parse_word-text Word.framing = refl
parse_word-text Word.implementation = refl
parse_word-text Word.internal = refl
parse_word-text Word.missing = refl
parse_word-text Word.policy = refl
parse_word-text Word.rejected = refl
parse_word-text Word.route = refl
parse_word-text Word.syntax = refl
parse_word-text Word.timeout = refl
parse_word-text Word.upstream = refl

parse_word-UnknownWord :
    (s : Bytes) → UnknownWord s all_words → parse_word s ≡ err serialization_invariant
unfolding parse_word
parse_word-UnknownWord s u = ground arith

abbrev spelled : Word → Option Word → Bytes
spelled w none = text_of w
spelled w (some v) = text_of w ++ b'_' ∷ text_of v

compose_pair-Unknown :
    (w : Word) (v : Option Word)
    → Unknown (spelled w v) all_categories
    → compose_pair w v ≡ err serialization_invariant
unfolding compose_pair equal
compose_pair-Unknown Word.accepted none u = absurd (ground arith)
compose_pair-Unknown Word.timeout none u = absurd (ground arith)
compose_pair-Unknown Word.client (some Word.syntax) u = absurd (ground arith)
compose_pair-Unknown Word.ambiguous (some Word.framing) u = absurd (ground arith)
compose_pair-Unknown Word.policy (some Word.rejected) u = absurd (ground arith)
compose_pair-Unknown Word.route (some Word.missing) u = absurd (ground arith)
compose_pair-Unknown Word.upstream (some Word.failure) u = absurd (ground arith)
compose_pair-Unknown Word.implementation (some Word.disagreement) u = absurd (ground arith)
compose_pair-Unknown Word.internal (some Word.failure) u = absurd (ground arith)
compose_pair-Unknown _ _ u = refl

abbrev Known : Bytes → Type 0
Known s = (w : Word) × (s ≡ text_of w)

Word-cases : (s : Bytes) → Known s ⊎ (parse_word s ≡ err serialization_invariant)
Word-cases s = elim (Word-cases-in s all_words) [
  | inl found ↦ inl found
  | inr u ↦ inr (parse_word-UnknownWord s u)
]

parse_word-Known : (s : Bytes) (k : Known s) → parse_word s ≡ ok k.0
parse_word-Known s (w, e) = ap parse_word e ∙ parse_word-text w

words_of-Unknown :
    (pieces : List Bytes)
    → Unknown (joined b'_' pieces) all_categories
    → (words_of pieces >>= compose) ≡ err serialization_invariant
unfolding words_of compose parse_second more_than_one
words_of-Unknown [] u = unfold parse_word equal in refl
words_of-Unknown (a ∷ []) u = elim (Word-cases a) [
  | inr e ↦ rw e refl
  | inl (w, e) ↦
      rw (parse_word-Known a (w, e))
        (compose_pair-Unknown w none (subst (λ s. Unknown s all_categories) e u))
]
words_of-Unknown (a ∷ b ∷ []) u = elim (Word-cases a) [
  | inr e ↦ rw e refl
  | inl (w, e) ↦ elim (Word-cases b) [
    | inr f ↦ rw (parse_word-Known a (w, e), f) refl
    | inl (v, f) ↦
        let whole : a ++ b'_' ∷ b ≡ spelled w (some v) =
          ap (λ s. s ++ b'_' ∷ b) e ∙ ap (λ s. text_of w ++ b'_' ∷ s) f in
        rw (parse_word-Known a (w, e), parse_word-Known b (v, f))
          (compose_pair-Unknown w (some v) (subst (λ s. Unknown s all_categories) whole u))
  ]
]
words_of-Unknown (a ∷ b ∷ c ∷ rest) u = elim (Word-cases a) [
  | inr e ↦ rw e refl
  | inl (w, e) ↦ elim (Word-cases b) [
    | inr f ↦ rw (parse_word-Known a (w, e), f) refl
    | inl (v, f) ↦ rw (parse_word-Known a (w, e), parse_word-Known b (v, f)) refl
  ]
]

validate_boundary-Unknown :
    (code : Bytes)
    → Unknown code all_categories
    → validate_boundary code ≡ err serialization_invariant
unfolding validate_boundary split_words
validate_boundary-Unknown code u =
    let pieces =
      words_of-Unknown (split b'_' code)
        (subst (λ s. Unknown s all_categories) (sym (joined-split b'_' code)) u) in
    let refused =
      is_empty code
      || ltb max_code_bytes (length code)
      || not (all (λ byte. byte == b'_' || is_ascii_lowercase byte) code) in
    elim (Bool-cases refused) [ inl e ↦ rw e refl | inr e ↦ rw e pieces ]

-- The implementation by words reports the category that the code names.
pub word_composition-eq-classification :
    (code : Bytes) (reached : Bool)
    → classify_telemetry_outcome code reached ≡ classification code reached
word_composition-eq-classification code reached = elim (Code-cases code) [
  | inl (c, e) ↦ rw e (known c reached)
  | inr u ↦
      unfold classify_telemetry_outcome in
      rw (validate_boundary-Unknown code u, classification-Unknown code reached u) refl
]
