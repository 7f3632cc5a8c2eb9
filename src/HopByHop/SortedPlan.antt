-- ===== src/HopByHop/SortedPlan.antt =====
-- src/implementations/hop_by_hop_sorted_plan.rs: all names are collected, sorted and deduplicated.
use Prim.Native.String.{String}
use mathlib.Core.List.{map}
use native.Mathlib.Numerals.{add-one}
use polyform_polyguard.HopByHop.Apart.{own_names, nominations_from, sanitized-apart}
use polyform_polyguard.Base.{
  ℕ, suc, ◌+◌, Bool, true, false, not, ◌||◌, Option, some, none, List, [], ◌∷◌, ◌++◌, ◌≡◌, refl,
  sym, ap, ◌∙◌, inl, inr, arith, Bytes, codes, ◌==◌, if◌then◌else◌, Bool-cases, position, rposition,
  map_or, slice, is_empty, all, keep_if, find, equal, is_ascii_alphanumeric, to_ascii_lowercase, ok,
  err, ◌>>=◌, bind_assoc, bind_unit, equal_iff,
}
use polyform_polyguard.Base.Names.{has, equal_comm, sort, dedup, dedup-sort}
use polyform_polyguard.Base.Split.{split}
use polyform_polyguard.Base.Trim.{trim, slice-positions, is_empty-trim, rposition-position}
use polyform_polyguard.HopByHop
use polyform_polyguard.HopByHop.Walk.{survivors-of_names}
use polyform_polyguard.HopByHop.{
  is_fixed, is_connection, bad_token, token_of, tokens_of, nominated, with_own, names_from,
  survivors, without, sanitized,
}
use polyform_polyguard.Types.{
  HeaderField, HeaderBlock, SanitizedHeaders, PolyguardError, PolyguardResult, invalid_header,
}

data HeaderAction : Type 0 where
  remove remove_and_nominate : HeaderAction

record HeaderRule : Type 0 where
  name : Bytes
  action : HeaderAction

abbrev rule : String → HeaderAction → HeaderRule
rule text action = record { name = codes text; action = action }

header_rules : List HeaderRule
header_rules =
    rule "connection" remove_and_nominate
    ∷ rule "proxy-connection" remove
    ∷ rule "keep-alive" remove
    ∷ rule "transfer-encoding" remove
    ∷ rule "te" remove
    ∷ rule "trailer" remove
    ∷ rule "upgrade" remove
    ∷ rule "proxy-authenticate" remove
    ∷ rule "proxy-authorization" remove
    ∷ []

rule_for : Bytes → Option HeaderRule
unfolding header_rules
rule_for name = find (λ r. equal r.name name) header_rules

data ConnectionMember : Type 0 where
  token : Bytes → ConnectionMember
  empty : ConnectionMember
  invalid : ConnectionMember

abbrev is_ows : ℕ → Bool
is_ows byte = byte == b' ' || byte == b'\t'

abbrev is_token_byte : ℕ → Bool
is_token_byte byte =
    is_ascii_alphanumeric byte
    || (byte == b'!'
        || byte == b'#'
        || byte == b'$'
        || byte == b'%'
        || byte == b'&'
        || byte == b'\''
        || byte == b'*'
        || byte == b'+'
        || byte == b'-'
        || byte == b'.'
        || byte == b'^'
        || byte == b'_'
        || byte == b'`'
        || byte == b'|'
        || byte == b'~')

-- The member without the white space around it, if there is more.
trimmed : Bytes → Option ℕ → Option ℕ → Option Bytes
trimmed raw (some start) (some end) = some (slice raw start (end + 1))
trimmed raw (some start) none = none
trimmed raw none _ = none

by_bytes : Option Bytes → ConnectionMember
by_bytes none = empty
by_bytes (some bytes) = if all is_token_byte bytes then token bytes else invalid

classify : Bytes → ConnectionMember
unfolding trimmed by_bytes
classify raw = by_bytes (
    trimmed raw (position (λ byte. not (is_ows byte)) raw)
      (rposition (λ byte. not (is_ows byte)) raw))

abbrev lowercase_ascii : Bytes → Bytes
lowercase_ascii bytes = map to_ascii_lowercase bytes

abbrev invalid_connection_token : ℕ → PolyguardError
invalid_connection_token index = invalid_header index (codes "invalid_connection_token")

read_member : ℕ → ConnectionMember → PolyguardResult Bytes
read_member index (token bytes) = ok (lowercase_ascii bytes)
read_member index empty = err (invalid_connection_token index)
read_member index invalid = err (invalid_connection_token index)

-- `filter_map` with the rule's own name
fixed_names : List HeaderField → List Bytes
unfolding rule_for
fixed_names [] = []
fixed_names (field ∷ fields) =
    let rest = fixed_names fields in map_or (rule_for field.name) rest (λ r. r.name ∷ rest)

nominates : Option HeaderRule → Bool
nominates none = false
nominates (some r) = elim r.action [ remove ↦ false | remove_and_nominate ↦ true ]

read_members : ℕ → List Bytes → List (PolyguardResult Bytes)
unfolding classify read_member
read_members index [] = []
read_members index (raw ∷ rest) = read_member index (classify raw) ∷ read_members index rest

-- `filter`, `flat_map` and `map` over the enumerated fields
nominated_names : ℕ → List HeaderField → List (PolyguardResult Bytes)
unfolding nominates rule_for read_members
nominated_names index [] = []
nominated_names index (field ∷ fields) =
    let rest = nominated_names (suc index) fields in
    if nominates (rule_for field.name)
    then read_members index (split b',' field.value) ++ rest
    else rest

-- `collect::<Result<Vec<_>>>()`
collect : List (PolyguardResult Bytes) → PolyguardResult (List Bytes)
collect [] = ok []
collect (r ∷ rs) = r >>= λ n. collect rs >>= λ ns. ok (n ∷ ns)

-- `RemovalPlan::compile`; the plan is its sorted names.
compile : HeaderBlock → PolyguardResult (List Bytes)
unfolding collect fixed_names nominated_names
compile headers =
    collect (map ok (fixed_names headers.fields) ++ nominated_names 0 headers.fields) >>= λ names.
    ok (dedup (sort names))

-- `RemovalPlan::removes`: the search of the sorted names
removes : List Bytes → Bytes → Bool
removes plan name = has name plan

pub remove_hop_by_hop_headers : HeaderBlock → PolyguardResult SanitizedHeaders
unfolding compile removes
remove_hop_by_hop_headers headers = do
  plan ← compile headers
  ok (record {
    fields = keep_if (λ field. not (removes plan field.name)) headers.fields;
    removed_names = plan;
  })

all-is_token_byte : (m : Bytes) → all is_token_byte m ≡ all HopByHop.is_token_byte m
all-is_token_byte [] = refl
all-is_token_byte (c ∷ m) = rw (all-is_token_byte m) (ground arith)

by_positions :
    (raw : Bytes) (first last : Option ℕ)
    → position (λ byte. not (is_ows byte)) raw ≡ first
    → rposition (λ byte. not (is_ows byte)) raw ≡ last
    → trimmed raw first last ≡ (if is_empty (trim is_ows raw) then none else some (trim is_ows raw))
unfolding trimmed
by_positions raw none last e f = rw (is_empty-trim is_ows raw, e) refl
by_positions raw (some i) none e f = cc (rposition-position is_ows raw, e, f)
by_positions raw (some i) (some j) e f =
    let whole : slice raw i (suc j) ≡ trim is_ows raw = rw (e, f) at (slice-positions is_ows raw) in
    rw (is_empty-trim is_ows raw, e, add-one j, whole) refl

read_by_bytes :
    (index : ℕ) (m : Bytes)
    → read_member index (by_bytes (if is_empty m then none else some m)) ≡ (
        if is_empty m || not (all HopByHop.is_token_byte m)
        then err (bad_token index)
        else ok (HopByHop.lowercase m))
unfolding read_member by_bytes
read_by_bytes index [] = refl
read_by_bytes index (c ∷ m) =
    rw (sym (all-is_token_byte (c ∷ m)))
      (elim (Bool-cases (all is_token_byte (c ∷ m))) [ inl e ↦ rw e refl | inr e ↦ rw e refl ])

read_member-eq-token_of :
    (index : ℕ) (raw : Bytes) → read_member index (classify raw) ≡ token_of index raw
unfolding classify token_of
read_member-eq-token_of index raw =
    ap (λ b. read_member index (by_bytes b))
      (by_positions raw (position (λ byte. not (is_ows byte)) raw)
        (rposition (λ byte. not (is_ows byte)) raw) refl refl)
    ∙ read_by_bytes index (trim is_ows raw)

named_in : List HeaderRule → Bytes → Bool
named_in [] n = false
named_in (r ∷ rs) n = equal r.name n || named_in rs n

find-name :
    (rs : List HeaderRule) (n : Bytes) (rest : List Bytes)
    → map_or (find (λ r. equal r.name n) rs) rest (λ r. r.name ∷ rest)
      ≡ (if named_in rs n then n ∷ rest else rest)
unfolding named_in
find-name [] n rest = refl
find-name (r ∷ rs) n rest = elim (Bool-cases (equal r.name n)) [
  | inl e ↦ rw e (ap (λ m. m ∷ rest) ((equal_iff r.name n).0 e))
  | inr e ↦ rw e (find-name rs n rest)
]

fixed_names-own_names : (fs : List HeaderField) → fixed_names fs ≡ own_names fs
unfolding fixed_names own_names rule_for named_in equal
fixed_names-own_names [] = refl
fixed_names-own_names (f ∷ fs) =
    find-name header_rules f.name (fixed_names fs)
    ∙ ap (λ rest. if is_fixed f.name then f.name ∷ rest else rest) (fixed_names-own_names fs)

nominates-is_connection : (f : HeaderField) → nominates (rule_for f.name) ≡ is_connection f
unfolding nominates rule_for header_rules
nominates-is_connection f = rw (equal_comm f.name HopByHop.connection) (ground arith)

collect-ok :
    (ns : List Bytes) (rs : List (PolyguardResult Bytes))
    → collect (map ok ns ++ rs) ≡ (collect rs >>= λ us. ok (ns ++ us))
unfolding collect
collect-ok [] rs = sym (bind_unit (collect rs))
collect-ok (n ∷ ns) rs =
    ap (λ r. r >>= λ all_names. ok (n ∷ all_names)) (collect-ok ns rs)
    ∙ bind_assoc (collect rs) (λ us. ok (ns ++ us)) (λ all_names. ok (n ∷ all_names))

one_member :
    (t : PolyguardResult Bytes) (ts us whole : PolyguardResult (List Bytes))
    → whole ≡ (ts >>= λ ms. us >>= λ ns. ok (ms ++ ns))
    → (t >>= λ n. whole >>= λ ns. ok (n ∷ ns))
      ≡ ((t >>= λ n. ts >>= λ ms. ok (n ∷ ms)) >>= λ ms. us >>= λ ns. ok (ms ++ ns))
one_member (err e) ts us whole h = refl
one_member (ok n) (err e) us whole h = rw h refl
one_member (ok n) (ok ms) (err e) whole h = rw h refl
one_member (ok n) (ok ms) (ok ns) whole h = rw h refl

collect-read :
    (index : ℕ) (ms : List Bytes) (rs : List (PolyguardResult Bytes))
    → collect (read_members index ms ++ rs)
      ≡ (tokens_of index ms >>= λ ts. collect rs >>= λ us. ok (ts ++ us))
unfolding collect read_members tokens_of
collect-read index [] rs = sym (bind_unit (collect rs))
collect-read index (m ∷ ms) rs =
    ap (λ t. t >>= λ n. collect (read_members index ms ++ rs) >>= λ ns. ok (n ∷ ns))
      (read_member-eq-token_of index m)
    ∙ one_member (token_of index m) (tokens_of index ms) (collect rs)
        (collect (read_members index ms ++ rs)) (collect-read index ms rs)

collect-nominations_from :
    (index : ℕ) (fs : List HeaderField)
    → collect (nominated_names index fs) ≡ nominations_from index fs
unfolding nominated_names nominations_from nominated
collect-nominations_from index [] = unfold collect in refl
collect-nominations_from index (f ∷ fs) =
    let rest = nominated_names (suc index) fs in
    let here = read_members index (split b',' f.value) in
    ap (λ b. collect (if b then here ++ rest else rest)) (nominates-is_connection f)
    ∙ elim (Bool-cases (is_connection f)) [
      | inl e ↦ rw e (
          collect-read index (split b',' f.value) rest
          ∙ ap (λ r. tokens_of index (split b',' f.value) >>= λ ts. r >>= λ us. ok (ts ++ us))
              (collect-nominations_from (suc index) fs))
      | inr e ↦ rw e (
          collect-nominations_from (suc index) fs
          ∙ sym (bind_unit (nominations_from (suc index) fs)))
    ]

plan_of : HeaderBlock → List Bytes → SanitizedHeaders
plan_of headers plan = record { fields = survivors plan headers.fields; removed_names = plan }

compiled :
    (headers : HeaderBlock) (r : PolyguardResult (List Bytes)) (own : List Bytes)
    → (((r >>= λ us. ok (own ++ us)) >>= λ names. ok (dedup (sort names))) >>= λ plan.
        ok (plan_of headers plan))
      ≡ (r >>= λ us. ok (without headers.fields (own ++ us)))
unfolding plan_of without
compiled headers (err e) own = refl
compiled headers (ok us) own =
    rw (dedup-sort (own ++ us), survivors-of_names (own ++ us) headers.fields) refl

-- The sorted plan gives the outcome that the names of the fields describe.
pub sorted_plan-eq-sanitized :
    (headers : HeaderBlock) → remove_hop_by_hop_headers headers ≡ sanitized headers
unfolding remove_hop_by_hop_headers removes compile plan_of
sorted_plan-eq-sanitized headers =
    let names : collect (map ok (fixed_names headers.fields) ++ nominated_names 0 headers.fields)
        ≡ (nominations_from 0 headers.fields >>= λ us. ok (own_names headers.fields ++ us)) =
      collect-ok (fixed_names headers.fields) (nominated_names 0 headers.fields)
      ∙ ap (λ r. r >>= λ us. ok (fixed_names headers.fields ++ us))
          (collect-nominations_from 0 headers.fields)
      ∙ ap (λ own. nominations_from 0 headers.fields >>= λ us. ok (own ++ us))
          (fixed_names-own_names headers.fields) in
    ap (λ r. (r >>= λ ns. ok (dedup (sort ns))) >>= λ plan. ok (plan_of headers plan)) names
    ∙ compiled headers (nominations_from 0 headers.fields) (own_names headers.fields)
    ∙ sym (sanitized-apart headers)
