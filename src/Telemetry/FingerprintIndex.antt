-- ===== src/Telemetry/FingerprintIndex.antt =====
-- src/implementations/telemetry_fingerprint_index.rs: length, first and last byte of a code make
-- a key that is looked up by binary search. The fuel of the search is the table's length, and
-- each round at least halves the range.
use polyform_polyguard.Base.{
  ℕ, zero, suc, ◌+◌, ◌-◌, ◌/◌, Bool, true, false, not, ◌&&◌, ◌||◌, Option, none, some, List, [],
  ◌∷◌, ◌≡◌, refl, inl, inr, arith, Bytes, codes, if◌then◌else◌, ltb, ◌==◌, length, get_elem?,
  is_empty, equal, map_or, ok, err, ◌>>=◌, ◌>>◌, ok_or, refuse_if, Bool-cases,
}
use polyform_polyguard.Telemetry.Codes.{Unknown, Code-cases, classification-Unknown}
use polyform_polyguard.Telemetry.{code_of, all_categories, classification}
use polyform_polyguard.Types.{
  OutcomeCategory, TelemetryOutcome, PolyguardResult, serialization_invariant,
}

abbrev max_code_bytes : ℕ
max_code_bytes = length (codes "implementation_disagreement")

record CodeKey : Type 0 where
  key_length : ℕ
  first_byte : ℕ
  last_byte : ℕ

abbrev code_key : ℕ → ℕ → ℕ → CodeKey
code_key n a b = record { key_length = n; first_byte = a; last_byte = b }

-- the derived order
key_lt : CodeKey → CodeKey → Bool
key_lt a b =
    ltb a.key_length b.key_length
    || a.key_length == b.key_length
      && (ltb a.first_byte b.first_byte
          || a.first_byte == b.first_byte && ltb a.last_byte b.last_byte)

-- `BoundedCode::new`
bounded_code : Bytes → PolyguardResult Bytes
bounded_code code =
    if is_empty code || ltb max_code_bytes (length code)
    then err serialization_invariant
    else ok code

-- `BoundedCode::key`; a bounded code is not empty, so both bytes are there.
key : Bytes → CodeKey
key code =
    code_key (length code) (map_or (get_elem? code 0) 0 (λ b. b))
      (map_or (get_elem? code (length code - 1)) 0 (λ b. b))

data FixedCategory : Type 0 where
  accepted client_syntax ambiguous_framing policy_rejected route_missing : FixedCategory
  upstream_failure timeout implementation_disagreement internal_failure : FixedCategory

category_outcome : FixedCategory → OutcomeCategory
category_outcome accepted = OutcomeCategory.accepted
category_outcome client_syntax = OutcomeCategory.client_syntax
category_outcome ambiguous_framing = OutcomeCategory.ambiguous_framing
category_outcome policy_rejected = OutcomeCategory.policy_rejected
category_outcome route_missing = OutcomeCategory.route_missing
category_outcome upstream_failure = OutcomeCategory.upstream_failure
category_outcome timeout = OutcomeCategory.timeout
category_outcome implementation_disagreement = OutcomeCategory.implementation_disagreement
category_outcome internal_failure = OutcomeCategory.internal_failure

is_accepted : FixedCategory → Bool
is_accepted accepted = true
is_accepted _ = false

-- `FixedCategory::emit`
emit_category : FixedCategory → TelemetryOutcome
unfolding category_outcome is_accepted
emit_category c = record { category = category_outcome c; success = is_accepted c }

record Rule : Type 0 where
  rule_key : CodeKey
  literal : Bytes
  rule_category : FixedCategory
  permits_upstream : Bool

abbrev rule : CodeKey → Bytes → FixedCategory → Bool → Rule
rule k text c permits = record {
  rule_key = k;
  literal = text;
  rule_category = c;
  permits_upstream = permits;
}

abbrev rules : List Rule
rules =
    rule (code_key 7 b't' b't') (codes "timeout") timeout true
    ∷ rule (code_key 8 b'a' b'd') (codes "accepted") accepted true
    ∷ rule (code_key 13 b'c' b'x') (codes "client_syntax") client_syntax false
    ∷ rule (code_key 13 b'r' b'g') (codes "route_missing") route_missing false
    ∷ rule (code_key 15 b'p' b'd') (codes "policy_rejected") policy_rejected false
    ∷ rule (code_key 16 b'i' b'e') (codes "internal_failure") internal_failure true
    ∷ rule (code_key 16 b'u' b'e') (codes "upstream_failure") upstream_failure true
    ∷ rule (code_key 17 b'a' b'g') (codes "ambiguous_framing") ambiguous_framing false
    ∷ rule (code_key 27 b'i' b't') (codes "implementation_disagreement") implementation_disagreement
        false
    ∷ []

-- `RULES.binary_search_by_key`, on the range from `lo` to `hi`
search_key : ℕ → CodeKey → ℕ → ℕ → Option ℕ
search_key zero k lo hi = none
search_key (suc fuel) k lo hi =
    let mid = lo + (hi - lo) / 2 in
    let left = search_key fuel k lo mid in
    let right = search_key fuel k (mid + 1) hi in
    if not (ltb lo hi)
    then none
    else map_or (get_elem? rules mid) none
        λ r. if key_lt r.rule_key k then right else if key_lt k r.rule_key then left else some mid

-- the code is compared with the literal of the rule at an index
check_literal : Bytes → ℕ → PolyguardResult Rule
check_literal code index = do
  found ← ok_or (get_elem? rules index) serialization_invariant
  refuse_if (not (equal code found.literal)) serialization_invariant
  ok found

-- `MatchedRule::locate`
locate : Bytes → PolyguardResult Rule
locate code = do
  index ← ok_or (search_key (length rules) (key code) 0 (length rules)) serialization_invariant
  check_literal code index

-- `MatchedRule::emit`
emit_rule : Rule → Bool → PolyguardResult TelemetryOutcome
unfolding emit_category
emit_rule matched upstream_reached = do
  refuse_if (upstream_reached && not matched.permits_upstream) serialization_invariant
  ok (emit_category matched.rule_category)

pub classify_telemetry_outcome : Bytes → Bool → PolyguardResult TelemetryOutcome
classify_telemetry_outcome code upstream_reached = do
  text ← bounded_code code
  matched ← locate text
  emit_rule matched upstream_reached

known :
    (c : OutcomeCategory) (reached : Bool)
    → classify_telemetry_outcome (code_of c) reached ≡ classification (code_of c) reached
unfolding classify_telemetry_outcome bounded_code locate key key_lt search_key check_literal
    emit_rule classification equal
known OutcomeCategory.accepted true = refl
known OutcomeCategory.accepted false = refl
known _ true = refl
known _ false = refl

-- Whatever index the search yields, an unknown code differs from the literal there.
check_literal-Unknown :
    (code : Bytes) (index : ℕ)
    → Unknown code all_categories
    → check_literal code index ≡ err serialization_invariant
unfolding check_literal
check_literal-Unknown code zero u = ground arith
check_literal-Unknown code (suc zero) u = ground arith
check_literal-Unknown code (suc (suc zero)) u = ground arith
check_literal-Unknown code (suc (suc (suc zero))) u = ground arith
check_literal-Unknown code (suc (suc (suc (suc zero)))) u = ground arith
check_literal-Unknown code (suc (suc (suc (suc (suc zero))))) u = ground arith
check_literal-Unknown code (suc (suc (suc (suc (suc (suc zero)))))) u = ground arith
check_literal-Unknown code (suc (suc (suc (suc (suc (suc (suc zero))))))) u = ground arith
check_literal-Unknown code (suc (suc (suc (suc (suc (suc (suc (suc zero)))))))) u = ground arith
check_literal-Unknown code (suc (suc (suc (suc (suc (suc (suc (suc (suc n))))))))) u = refl

found-Unknown :
    (code : Bytes) (index : Option ℕ)
    → Unknown code all_categories
    → (ok_or index serialization_invariant >>= check_literal code) ≡ err serialization_invariant
found-Unknown code none u = refl
found-Unknown code (some i) u = check_literal-Unknown code i u

unknown :
    (code : Bytes) (reached : Bool)
    → Unknown code all_categories
    → classify_telemetry_outcome code reached ≡ classification code reached
unfolding classify_telemetry_outcome bounded_code locate
unknown code reached u =
    rw (classification-Unknown code reached u)
      (elim (Bool-cases (is_empty code || ltb max_code_bytes (length code))) [
        | inl e ↦ rw e
        | inr e ↦ rw (e, found-Unknown code _ u)
      ])

-- The fingerprint implementation reports the category that the code names.
pub fingerprint_index-eq-classification :
    (code : Bytes) (reached : Bool)
    → classify_telemetry_outcome code reached ≡ classification code reached
fingerprint_index-eq-classification code reached = elim (Code-cases code) [
  | inl (c, e) ↦ rw e (known c reached)
  | inr u ↦ unknown code reached u
]
