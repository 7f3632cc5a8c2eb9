-- ===== src/HopByHop/Composable.antt =====
-- src/implementations/hop_by_hop_composable.rs: a hash set is filled field by field, a loop over
-- positions reads the nominations, and the set is sorted at the end.
use mathlib.Core.List.{map}
use polyform_polyguard.Base.{
  ℕ, zero, suc, ◌+◌, ◌≤◌, ◌<◌, Bool, not, ◌&&◌, ◌||◌, Option, some, none, List, [], ◌∷◌, ◌≡◌, refl,
  sym, ap, ◌∙◌, inl, inr, arith, Bytes, codes, ◌==◌, if◌then◌else◌, Bool-cases, Option-cases,
  length, take, drop, position, map_or, unwrap_or, slice, is_empty, all, any, contains, equal,
  is_ascii_alphanumeric, to_ascii_lowercase, ok, err, ◌>>=◌, try_fold, bind_assoc, bind_agree,
  drop-add, drop-take_add, take-length, length-drop,
}
use polyform_polyguard.Base.Names.{
  insert, less, of_names, has, hash_insert, of_names-hash_insert, sort, sort-hash_insert,
}
use polyform_polyguard.Base.Split.{split, split-none, split-some, position-lt}
use polyform_polyguard.Base.Trim.{trim, skip, shrink, slice-moved}
use polyform_polyguard.HopByHop
use polyform_polyguard.HopByHop.Walk.{
  walk, add_all, fold-tokens_of, walk-names_from, add_all-of_names, survivors-of_names,
  connection-is_fixed,
}
use polyform_polyguard.HopByHop.{
  is_fixed, is_connection, bad_token, token_of, tokens_of, nominated, with_own, names_from,
  survivors, without, sanitized,
}
use polyform_polyguard.Types.{
  HeaderField, HeaderBlock, SanitizedHeaders, PolyguardError, PolyguardResult, invalid_header,
}

abbrev fixed_hop_by_hop_names : List Bytes
fixed_hop_by_hop_names =
    codes "connection"
    ∷ codes "keep-alive"
    ∷ codes "proxy-authenticate"
    ∷ codes "proxy-authorization"
    ∷ codes "proxy-connection"
    ∷ codes "te"
    ∷ codes "trailer"
    ∷ codes "transfer-encoding"
    ∷ codes "upgrade"
    ∷ []

-- The table stands in ascending order, so that its binary search is a test for membership.
of_names-fixed_hop_by_hop_names : of_names fixed_hop_by_hop_names ≡ fixed_hop_by_hop_names
unfolding of_names insert less equal
of_names-fixed_hop_by_hop_names = refl

abbrev token_punctuation : Bytes
token_punctuation = codes "!#$%&'*+-.^_`|~"

-- The search of the sorted table
is_fixed_hop_by_hop : Bytes → Bool
is_fixed_hop_by_hop name = has name fixed_hop_by_hop_names

-- The two loops drop one byte of the slice at a time, at the front and then at the back.
strip_optional_whitespace : Bytes → Bytes
strip_optional_whitespace member =
    let first = skip HopByHop.is_ows member (length member) 0 in
    slice member first (shrink HopByHop.is_ows member first (length member))

validated_canonical_token : Bytes → Option Bytes
validated_canonical_token member =
    if is_empty member
    then none
    else if any (λ byte. not (is_ascii_alphanumeric byte) && not (contains token_punctuation byte))
        member
    then none
    else some (map to_ascii_lowercase member)

abbrev invalid_connection_token : ℕ → PolyguardError
invalid_connection_token index = invalid_header index (codes "invalid_connection_token")

-- What the loop does with a member
add_validated : ℕ → List Bytes → Option Bytes → PolyguardResult (List Bytes)
add_validated field_index removals none = err (invalid_connection_token field_index)
add_validated field_index removals (some name) = ok (hash_insert name removals)

add_member : ℕ → List Bytes → Bytes → PolyguardResult (List Bytes)
unfolding strip_optional_whitespace validated_canonical_token add_validated
add_member field_index removals raw =
    add_validated field_index removals (validated_canonical_token (strip_optional_whitespace raw))

abbrev comma_from : Bytes → ℕ → Option ℕ
comma_from value member_start =
    map_or (position (λ byte. byte == b',') (drop member_start value)) none
      (λ offset. some (member_start + offset))

-- The `loop` of `add_connection_value`: with the comma behind the member, or without
members_from : ℕ → Bytes → ℕ → ℕ → List Bytes → PolyguardResult (List Bytes)
unfolding add_member
members_from zero value field_index member_start removals = ok removals
members_from (suc fuel) value field_index member_start removals =
    let comma = comma_from value member_start in
    let member_end = unwrap_or comma (length value) in
    add_member field_index removals (slice value member_start member_end) >>= λ next.
    map_or comma (ok next)
      (λ comma_index. members_from fuel value field_index (comma_index + 1) next)

add_connection_value : Bytes → ℕ → List Bytes → PolyguardResult (List Bytes)
unfolding members_from
add_connection_value value field_index removals =
    members_from (suc (length value)) value field_index 0 removals

visit : ℕ → HeaderField → List Bytes → PolyguardResult (List Bytes)
unfolding is_fixed_hop_by_hop add_connection_value
visit index field removals =
    let next =
      if is_fixed_hop_by_hop field.name then hash_insert field.name removals else removals in
    if not (equal field.name (codes "connection"))
    then ok next
    else add_connection_value field.value index next

discover_removals : HeaderBlock → PolyguardResult (List Bytes)
unfolding visit
discover_removals headers = walk visit 0 headers.fields []

copy_survivors : List HeaderField → List Bytes → List HeaderField
copy_survivors [] removals = []
copy_survivors (field ∷ fields) removals =
    let rest = copy_survivors fields removals in
    if has field.name removals then rest else field ∷ rest

pub remove_hop_by_hop_headers : HeaderBlock → PolyguardResult SanitizedHeaders
unfolding discover_removals copy_survivors
remove_hop_by_hop_headers headers = do
  removals ← discover_removals headers
  ok (record { fields = copy_survivors headers.fields removals; removed_names = sort removals })

all-token :
    (m : Bytes)
    → any (λ byte. not (is_ascii_alphanumeric byte) && not (contains token_punctuation byte)) m
      ≡ not (all HopByHop.is_token_byte m)
all-token [] = refl
all-token (c ∷ m) = rw (all-token m) (ground arith)

abbrev add_token : ℕ → List Bytes → Bytes → PolyguardResult (List Bytes)
add_token index removals raw = token_of index raw >>= λ t. ok (hash_insert t removals)

add_validated-token :
    (index : ℕ) (removals : List Bytes) (m : Bytes)
    → add_validated index removals (validated_canonical_token m) ≡ (
        (if is_empty m || not (all HopByHop.is_token_byte m)
          then err (bad_token index)
          else ok (map to_ascii_lowercase m))
        >>= λ t. ok (hash_insert t removals))
unfolding add_validated validated_canonical_token
add_validated-token index removals m = rw (all-token m) (ground arith)

add_member-eq-add_token :
    (index : ℕ) (removals : List Bytes) (raw : Bytes)
    → add_member index removals raw ≡ add_token index removals raw
unfolding add_member token_of strip_optional_whitespace
add_member-eq-add_token index removals raw =
    ap (λ m. add_validated index removals (validated_canonical_token m))
      (slice-moved HopByHop.is_ows raw)
    ∙ add_validated-token index removals (trim HopByHop.is_ows raw)

members_from-fold :
    (fuel : ℕ) (value : Bytes) (index start : ℕ) (removals : List Bytes)
    → start ≤ length value
    → length value < start + fuel
    → members_from fuel value index start removals
      ≡ try_fold (add_token index) removals (split b',' (drop start value))
unfolding members_from
members_from-fold zero value index start removals low h = absurd (omega arith)
members_from-fold (suc fuel) value index start removals low h =
    elim (Option-cases (position (λ byte. byte == b',') (drop start value))) [
      | inl e ↦
          let whole : slice value start (length value) ≡ drop start value =
            ap (drop start) (take-length value) in
          rw
            (
              e,
              whole,
              split-none b',' (drop start value) e,
              add_member-eq-add_token index removals (drop start value),
            )
            refl
      | inr (i, e) ↦
          let inside : i < length (drop start value) = position-lt b',' (drop start value) i e in
          let next : start + i + 1 ≡ start + suc i = omega arith in
          let behind : drop (start + i + 1) value ≡ drop (suc i) (drop start value) =
            ap (λ n. drop n value) next ∙ drop-add start (suc i) value in
          let member = take i (drop start value) in
          rw
            (
              e,
              drop-take_add start i value,
              split-some b',' (drop start value) i e,
              add_member-eq-add_token index removals member,
              ← behind,
            )
            (bind_agree (add_token index removals member)
              (λ s. members_from fuel value index (start + i + 1) s)
              (λ s. try_fold (add_token index) s (split b',' (drop (start + i + 1) value)))
              (λ s _.
                members_from-fold fuel value index (start + i + 1) s
                  (omega (arith, length-drop start value)) (omega arith)))
    ]

same_table : (n : Bytes) → is_fixed_hop_by_hop n ≡ is_fixed n
unfolding is_fixed_hop_by_hop
same_table n = ground arith

visit-nominated :
    (index : ℕ) (f : HeaderField) (removals : List Bytes)
    → visit index f removals
      ≡ (nominated index f >>= λ ts. ok (add_all hash_insert (with_own f ts) removals))
unfolding visit nominated add_connection_value
visit-nominated index f removals = rw (same_table f.name) (elim (Bool-cases (is_connection f)) [
  | inl e ↦
      rw (e, connection-is_fixed f.name e)
        (members_from-fold (suc (length f.value)) f.value index 0 (hash_insert f.name removals)
            (omega arith) (omega arith)
          ∙ fold-tokens_of hash_insert index (split b',' f.value) (hash_insert f.name removals))
  | inr e ↦ elim (Bool-cases (is_fixed f.name)) [ inl g ↦ rw (e, g) refl | inr g ↦ rw (e, g) refl ]
])

copy_survivors-survivors :
    (fs : List HeaderField) (removals : List Bytes)
    → copy_survivors fs removals ≡ survivors removals fs
unfolding copy_survivors
copy_survivors-survivors [] removals = refl
copy_survivors-survivors (f ∷ fs) removals = ground (arith, copy_survivors-survivors fs removals)

-- The hash set as the ordered set of its names
sort-add_all :
    (ns s : List Bytes)
    → sort s ≡ of_names s
    → sort (add_all hash_insert ns s) ≡ of_names (add_all hash_insert ns s)
sort-add_all [] s h = h
sort-add_all (n ∷ ns) s h = sort-add_all ns (hash_insert n s) (sort-hash_insert n s h)

of_names-add_all :
    (ns s : List Bytes) → of_names (add_all hash_insert ns s) ≡ add_all insert ns (of_names s)
of_names-add_all [] s = refl
of_names-add_all (n ∷ ns) s =
    of_names-add_all ns (hash_insert n s) ∙ ap (add_all insert ns) (of_names-hash_insert n s)

hash_set-without :
    (fs : List HeaderField) (ns : List Bytes)
    → (let removals = add_all hash_insert ns [] in
        ◌≡◌ {A = SanitizedHeaders}
          (record { fields = copy_survivors fs removals; removed_names = sort removals })
          (without fs ns))
unfolding without
hash_set-without fs ns =
    let removals = add_all hash_insert ns [] in
    let names : of_names removals ≡ of_names ns =
      of_names-add_all ns [] ∙ (unfold of_names in add_all-of_names ns) in
    let kept : copy_survivors fs removals ≡ survivors ns fs =
      copy_survivors-survivors fs removals
      ∙ sym (survivors-of_names removals fs)
      ∙ ap (λ s. survivors s fs) names
      ∙ survivors-of_names ns fs in
    let sorted : sort removals ≡ of_names ns =
      sort-add_all ns [] (unfold sort of_names in refl) ∙ names in
    rw (kept, sorted) refl

-- The composable implementation gives the outcome that the names of the fields describe.
pub composable-eq-sanitized :
    (headers : HeaderBlock) → remove_hop_by_hop_headers headers ≡ sanitized headers
unfolding remove_hop_by_hop_headers discover_removals sanitized
composable-eq-sanitized headers =
    ap
      (λ r. r >>= λ removals.
        ok (record {
          fields = copy_survivors headers.fields removals;
          removed_names = sort removals;
        }))
      (walk-names_from hash_insert visit visit-nominated 0 headers.fields [])
    ∙ bind_assoc (names_from 0 headers.fields) (λ ns. ok (add_all hash_insert ns []))
        (λ removals. ok (record {
          fields = copy_survivors headers.fields removals;
          removed_names = sort removals;
        }))
    ∙ bind_agree (names_from 0 headers.fields) _ _
        (λ ns _. ap ok (hash_set-without headers.fields ns))
