-- ===== src/HopByHop/RuleTable.antt =====
-- src/implementations/hop_by_hop_rule_table.rs: a table of field policies fills an ordered set.
use mathlib.Core.List.{map}
use mathlib.Core.Path.{fun_ext}
use polyform_polyguard.Base.{
  ℕ, suc, Bool, not, ◌||◌, Option, some, none, List, [], ◌∷◌, ◌≡◌, refl, ap, ◌∙◌, inl, inr, arith,
  Bytes, codes, ◌==◌, if◌then◌else◌, Bool-cases, length, position, rposition, map_or, unwrap_or,
  slice, is_empty, all, keep_if, equal, is_ascii_alphanumeric, to_ascii_lowercase, ok, err, ◌>>=◌,
  try_fold,
}
use polyform_polyguard.Base.Names.{insert, has, equal_comm}
use polyform_polyguard.Base.Split.{split}
use polyform_polyguard.Base.Trim.{trim, slice-positions}
use polyform_polyguard.HopByHop
use polyform_polyguard.HopByHop.Walk.{
  walk, add_all, fold-tokens_of, walk-names_from, connection-is_fixed, of_set,
}
use polyform_polyguard.HopByHop.{
  is_fixed, is_connection, bad_token, token_of, tokens_of, nominated, with_own, names_from,
  survivors, without, sanitized,
}
use polyform_polyguard.Types.{
  HeaderField, HeaderBlock, SanitizedHeaders, PolyguardError, PolyguardResult, invalid_header,
}

data FieldPolicy : Type 0 where
  connection_list always_remove : FieldPolicy

hop_by_hop_rules : List (Bytes × FieldPolicy)
hop_by_hop_rules =
    (codes "connection", connection_list)
    ∷ (codes "proxy-connection", always_remove)
    ∷ (codes "keep-alive", always_remove)
    ∷ (codes "transfer-encoding", always_remove)
    ∷ (codes "te", always_remove)
    ∷ (codes "trailer", always_remove)
    ∷ (codes "upgrade", always_remove)
    ∷ (codes "proxy-authenticate", always_remove)
    ∷ (codes "proxy-authorization", always_remove)
    ∷ []

policy_in : List (Bytes × FieldPolicy) → Bytes → Option FieldPolicy
policy_in [] name = none
policy_in ((candidate, policy) ∷ rules) name =
    if equal candidate name then some policy else policy_in rules name

field_policy : Bytes → Option FieldPolicy
unfolding hop_by_hop_rules policy_in
field_policy name = policy_in hop_by_hop_rules name

trim_ows : Bytes → Bytes
trim_ows bytes =
    let first =
      unwrap_or (position (λ byte. not (byte == b' ' || byte == b'\t')) bytes) (length bytes) in
    let after_last =
      map_or (rposition (λ byte. not (byte == b' ' || byte == b'\t')) bytes) first suc in
    slice bytes first after_last

abbrev is_token_byte : ℕ → Bool
is_token_byte byte =
    is_ascii_alphanumeric byte
    || (byte == b'!'
        || byte == b'#'
        || byte == b'$'
        || byte == b'%'
        || byte == b'&'
        || byte == b'\''
        || byte == b'*'
        || byte == b'+'
        || byte == b'-'
        || byte == b'.'
        || byte == b'^'
        || byte == b'_'
        || byte == b'`'
        || byte == b'|'
        || byte == b'~')

abbrev invalid_connection_token : ℕ → PolyguardError
invalid_connection_token index = invalid_header index (codes "invalid_connection_token")

-- The closure of `try_for_each` over the members
add_member : ℕ → List Bytes → Bytes → PolyguardResult (List Bytes)
unfolding trim_ows
add_member field_index names raw =
    let member = trim_ows raw in
    if is_empty member || not (all is_token_byte member)
    then err (invalid_connection_token field_index)
    else ok (insert (map to_ascii_lowercase member) names)

add_connection_nominations : List Bytes → Bytes → ℕ → PolyguardResult (List Bytes)
unfolding add_member
add_connection_nominations names value field_index =
    try_fold (add_member field_index) names (split b',' value)

by_policy : ℕ → HeaderField → List Bytes → Option FieldPolicy → PolyguardResult (List Bytes)
unfolding add_connection_nominations
by_policy index field names none = ok names
by_policy index field names (some connection_list) =
    add_connection_nominations (insert field.name names) field.value index
by_policy index field names (some always_remove) = ok (insert field.name names)

-- The fields with a policy are visited in order.
visit : ℕ → HeaderField → List Bytes → PolyguardResult (List Bytes)
unfolding by_policy field_policy
visit index field names = by_policy index field names (field_policy field.name)

-- `RemovalPlan::from_headers`; the plan is its set of names.
removal_plan : HeaderBlock → PolyguardResult (List Bytes)
unfolding visit
removal_plan headers = walk visit 0 headers.fields []

pub remove_hop_by_hop_headers : HeaderBlock → PolyguardResult SanitizedHeaders
unfolding removal_plan
remove_hop_by_hop_headers headers = do
  plan ← removal_plan headers
  ok (record {
    fields = keep_if (λ field. not (has field.name plan)) headers.fields;
    removed_names = plan;
  })

all-is_token_byte : (m : Bytes) → all is_token_byte m ≡ all HopByHop.is_token_byte m
all-is_token_byte [] = refl
all-is_token_byte (c ∷ m) = rw (all-is_token_byte m) (ground arith)

add_member-eq-token_of :
    (index : ℕ) (names : List Bytes) (raw : Bytes)
    → add_member index names raw ≡ (token_of index raw >>= λ t. ok (insert t names))
unfolding add_member token_of trim_ows
add_member-eq-token_of index names raw =
    rw (slice-positions HopByHop.is_ows raw, all-is_token_byte (trim HopByHop.is_ows raw))
      (ground arith)

field_policy_cases :
    (n : Bytes)
    → field_policy n ≡ (
        if equal n HopByHop.connection
        then some connection_list
        else if is_fixed n
        then some always_remove
        else none)
unfolding field_policy policy_in hop_by_hop_rules
field_policy_cases n = rw (equal_comm n HopByHop.connection) (ground arith)

add_nominations-tokens_of :
    (index : ℕ) (value : Bytes) (names : List Bytes)
    → add_connection_nominations names value index
      ≡ (tokens_of index (split b',' value) >>= λ ts. ok (add_all insert ts names))
unfolding add_connection_nominations
add_nominations-tokens_of index value names =
    ap (λ body. try_fold body names (split b',' value))
      (fun_ext λ s. fun_ext λ raw. add_member-eq-token_of index s raw)
    ∙ fold-tokens_of insert index (split b',' value) names

visit-nominated :
    (index : ℕ) (f : HeaderField) (names : List Bytes)
    → visit index f names ≡ (nominated index f >>= λ ts. ok (add_all insert (with_own f ts) names))
unfolding visit by_policy nominated
visit-nominated index f names =
    rw (field_policy_cases f.name) (elim (Bool-cases (is_connection f)) [
      | inl e ↦
          rw (e, connection-is_fixed f.name e)
            (add_nominations-tokens_of index f.value (insert f.name names))
      | inr e ↦ elim (Bool-cases (is_fixed f.name)) [
        | inl g ↦ rw (e, g) refl
        | inr g ↦ rw (e, g) refl
      ]
    ])

-- The rule table gives the outcome that the names of the fields describe.
pub rule_table-eq-sanitized :
    (headers : HeaderBlock) → remove_hop_by_hop_headers headers ≡ sanitized headers
unfolding remove_hop_by_hop_headers
rule_table-eq-sanitized headers =
    of_set headers (removal_plan headers)
      (unfold removal_plan in walk-names_from insert visit visit-nominated 0 headers.fields [])
