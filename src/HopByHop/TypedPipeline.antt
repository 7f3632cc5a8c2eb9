-- ===== src/HopByHop/TypedPipeline.antt =====
-- src/implementations/hop_by_hop_typed_pipeline.rs: the fields become events, a ledger applies them,
-- and an iterator with a scan position reads the nominations.
use Prim.Native.String.{String}
use mathlib.Core.List.{map}
use polyform_polyguard.Base.{
  ℕ, zero, suc, ◌+◌, ◌<◌, Bool, true, false, not, ◌||◌, Option, some, none, List, [], ◌∷◌, ◌++◌,
  ◌≡◌, ◌⊎◌, refl, sym, ap, ◌∙◌, inl, inr, arith, Bytes, codes, ◌==◌, if◌then◌else◌, Bool-cases,
  length, get_elem?, take, drop, position, map_or, slice, is_empty, all, any, keep_if, find, equal,
  is_ascii_alphanumeric, to_ascii_lowercase, ok, err, ◌>>=◌, try_fold, equal_iff, drop-add,
  drop-take_add, append-nil, length-append,
}
use polyform_polyguard.Base.Names.{insert, has, equal_comm}
use polyform_polyguard.Base.Split.{split, split-none, first_part, split-append, any-position}
use polyform_polyguard.Base.Trim.{
  trim, count_leading, count_leading-le, drop-count_leading, trim_end,
}
use polyform_polyguard.HopByHop
use polyform_polyguard.HopByHop.Scan.{
  count_leading-append, drop-count_append, take-count_append, any-drop, get_elem?-drop,
  all-behind_token, take-token, is_empty-take,
}
use polyform_polyguard.HopByHop.Walk.{walk, add_all, fold-tokens_of, walk-names_from, of_set}
use polyform_polyguard.HopByHop.{
  is_fixed, is_connection, bad_token, token_of, tokens_of, nominated, with_own, names_from,
  survivors, without, sanitized,
}
use polyform_polyguard.Types.{
  HeaderField, HeaderBlock, SanitizedHeaders, PolyguardError, PolyguardResult, invalid_header,
}

data RuleEffect : Type 0 where
  drop_field read_connection_tokens : RuleEffect

record HeaderRule : Type 0 where
  name : Bytes
  effect : RuleEffect

abbrev rule : String → RuleEffect → HeaderRule
rule text effect = record { name = codes text; effect = effect }

header_rules : List HeaderRule
header_rules =
    rule "connection" read_connection_tokens
    ∷ rule "proxy-connection" drop_field
    ∷ rule "keep-alive" drop_field
    ∷ rule "transfer-encoding" drop_field
    ∷ rule "te" drop_field
    ∷ rule "trailer" drop_field
    ∷ rule "upgrade" drop_field
    ∷ rule "proxy-authenticate" drop_field
    ∷ rule "proxy-authorization" drop_field
    ∷ []

data HeaderEvent : Type 0 where
  end_to_end : HeaderEvent
  fixed_hop_by_hop : Bytes → HeaderEvent
  connection_event : (index : ℕ) (value : Bytes) → HeaderEvent

by_rule : ℕ → HeaderField → Option HeaderRule → HeaderEvent
by_rule index field none = end_to_end
by_rule index field (some r) = elim r.effect [
  | drop_field ↦ fixed_hop_by_hop r.name
  | read_connection_tokens ↦ connection_event index field.value
]

classify : ℕ → HeaderField → HeaderEvent
unfolding by_rule header_rules
classify index field = by_rule index field (find (λ r. equal r.name field.name) header_rules)

data ScanPosition : Type 0 where
  member_start : ℕ → ScanPosition
  complete : ScanPosition
  rejected : ScanPosition

record ConnectionMembers : Type 0 where
  value : Bytes
  position : ScanPosition

abbrev is_ows : ℕ → Bool
is_ows byte = byte == b' ' || byte == b'\t'

abbrev is_token_byte : ℕ → Bool
is_token_byte byte =
    is_ascii_alphanumeric byte
    || (byte == b'!'
        || byte == b'#'
        || byte == b'$'
        || byte == b'%'
        || byte == b'&'
        || byte == b'\''
        || byte == b'*'
        || byte == b'+'
        || byte == b'-'
        || byte == b'.'
        || byte == b'^'
        || byte == b'_'
        || byte == b'`'
        || byte == b'|'
        || byte == b'~')

abbrev lowercase_token : Bytes → Bytes
lowercase_token token = map to_ascii_lowercase token

abbrev invalid_connection_token : ℕ → PolyguardError
invalid_connection_token index = invalid_header index (codes "invalid_connection_token")

-- `self.value[cursor..].iter().take_while(..).count()`
abbrev leading : (ℕ → Bool) → Bytes → ℕ → ℕ
leading p value cursor = count_leading p (drop cursor value)

-- What `next` yields behind a token: a token or a refusal, and the iterator after it
after_token : Bytes → ℕ → ℕ → ℕ → Option ℕ → Option Bytes × ConnectionMembers
after_token value token_start token_end cursor none =
    (some (slice value token_start token_end), record { value = value; position = complete })
after_token value token_start token_end cursor (some byte) =
    if byte == b','
    then (
      some (slice value token_start token_end),
      record { value = value; position = member_start (cursor + 1) },
    )
    else (none, record { value = value; position = rejected })

-- `ConnectionMembers::next`
next : ConnectionMembers → Option (Option Bytes × ConnectionMembers)
unfolding after_token
next members = elim members.position [
  | member_start start ↦
      let token_start = start + leading is_ows members.value start in
      let token_end = token_start + leading is_token_byte members.value token_start in
      let cursor = token_end + leading is_ows members.value token_end in
      if token_start == token_end
      then some (none, record { value = members.value; position = rejected })
      else some
          (after_token members.value token_start token_end cursor (get_elem? members.value cursor))
  | complete ↦ none
  | rejected ↦ none
]

-- The closure of the fold
fold_step :
    ℕ
    → Option Bytes
    → (List Bytes → PolyguardResult (List Bytes))
    → List Bytes
    → PolyguardResult (List Bytes)
fold_step index none rest names = err (invalid_connection_token index)
fold_step index (some member) rest names = rest (insert (lowercase_token member) names)

-- `try_fold` over the iterator; each member but the last ends at a comma.
fold_members : ℕ → ℕ → ConnectionMembers → List Bytes → PolyguardResult (List Bytes)
unfolding next fold_step
fold_members zero index members names = ok names
fold_members (suc fuel) index members names =
    map_or (next members) (ok names)
      (λ (member, after). fold_step index member (fold_members fuel index after) names)

-- `RemovalLedger::apply`; the ledger is its set of names. A value of n bytes has at most n + 1
-- members.
apply : HeaderEvent → List Bytes → PolyguardResult (List Bytes)
unfolding fold_members
apply end_to_end names = ok names
apply (fixed_hop_by_hop name) names = ok (insert name names)
apply (connection_event index value) names =
    fold_members (suc (suc (length value))) index
      (record { value = value; position = member_start 0 }) (insert (codes "connection") names)

visit : ℕ → HeaderField → List Bytes → PolyguardResult (List Bytes)
unfolding classify apply
visit index field names = apply (classify index field) names

ledger : HeaderBlock → PolyguardResult (List Bytes)
unfolding visit
ledger headers = walk visit 0 headers.fields []

pub remove_hop_by_hop_headers : HeaderBlock → PolyguardResult SanitizedHeaders
unfolding ledger
remove_hop_by_hop_headers headers = do
  names ← ledger headers
  ok (record {
    fields = keep_if (λ field. not (has field.name names)) headers.fields;
    removed_names = names;
  })

all-is_token_byte : (m : Bytes) → all is_token_byte m ≡ all HopByHop.is_token_byte m
all-is_token_byte [] = refl
all-is_token_byte (c ∷ m) = rw (all-is_token_byte m) (ground arith)

abbrev at : Bytes → ScanPosition → ConnectionMembers
at value position = record { value = value; position = position }

-- What stands behind a member: nothing, or a comma
abbrev Cut : Bytes → Type 0
Cut r = (r ≡ []) ⊎ ((rest : Bytes) × (r ≡ b',' ∷ rest))

abbrev behind : (ℕ → Bool) → Bytes → Bytes
behind p m = drop (count_leading p m) m

advance :
    (p : ℕ → Bool) (value : Bytes) (n : ℕ) (m r : Bytes)
    → p b',' ≡ false
    → Cut r
    → drop n value ≡ m ++ r
    → (leading p value n ≡ count_leading p m)
      × (drop (n + count_leading p m) value ≡ behind p m ++ r)
advance p value n m r h cut e = (
  ap (count_leading p) e ∙ count_leading-append p h m r cut,
  drop-add n (count_leading p m) value ∙ ap (drop (count_leading p m)) e ∙ drop-count_append p m r,
)

-- The four places of a member: its token, the white space behind it, and what follows
abbrev token_from : Bytes → Bytes
token_from m = behind is_ows m

abbrev token_size : Bytes → ℕ
token_size m = count_leading is_token_byte (token_from m)

abbrev space_from : Bytes → Bytes
space_from m = behind is_token_byte (token_from m)

abbrev left_over : Bytes → Bytes
left_over m = behind is_ows (space_from m)

abbrev token_at : ℕ → Bytes → ℕ
token_at start m = start + count_leading is_ows m

abbrev end_at : ℕ → Bytes → ℕ
end_at start m = token_at start m + token_size m

abbrev cursor_at : ℕ → Bytes → ℕ
cursor_at start m = end_at start m + count_leading is_ows (space_from m)

module _ (value : Bytes) (start : ℕ) (m r : Bytes) (cut : Cut r)
    (here : drop start value ≡ m ++ r) where
  cursor-drop : drop (cursor_at start m) value ≡ left_over m ++ r
  cursor-drop =
      let (_, first) = advance is_ows value start m r refl cut here in
      let (_, second) =
        advance is_token_byte value (token_at start m) (token_from m) r refl cut first in
      let (_, third) = advance is_ows value (end_at start m) (space_from m) r refl cut second in
      third

  token-slice : slice value (token_at start m) (end_at start m) ≡ take (token_size m) (token_from m)
  token-slice =
      let (_, first) = advance is_ows value start m r refl cut here in
      drop-take_add (token_at start m) (token_size m) value
      ∙ ap (take (token_size m)) first
      ∙ take-count_append is_token_byte (token_from m) r

  next-scanned : next (at value (member_start start)) ≡ (
      if token_size m == 0
      then some (none, at value rejected)
      else some (
          after_token value
            (token_at start m)
            (end_at start m)
            (cursor_at start m)
            (get_elem? (left_over m ++ r) 0)))
  unfolding next
  next-scanned =
      let (count, first) = advance is_ows value start m r refl cut here in
      let (count', second) =
        advance is_token_byte value (token_at start m) (token_from m) r refl cut first in
      let (count'', third) =
        advance is_ows value (end_at start m) (space_from m) r refl cut second in
      let following : get_elem? value (cursor_at start m) ≡ get_elem? (left_over m ++ r) 0 =
        get_elem?-drop (cursor_at start m) value ∙ ap (λ s. get_elem? s 0) third in
      let empty : (token_at start m == end_at start m) ≡ (token_size m == 0) = ground arith in
      rw (count, count', count'', following, empty) refl

separate : (c : ℕ) → is_token_byte c ≡ true → is_ows c ≡ false
separate c h = ground arith

trim-token_from : (m : Bytes) → trim is_ows m ≡ trim_end is_ows (token_from m)
unfolding trim
trim-token_from m = ap (trim_end is_ows) (sym (drop-count_leading is_ows m))

judged : (m : Bytes) → all is_token_byte (trim is_ows m) ≡ is_empty (left_over m)
judged m =
    ap (all is_token_byte) (trim-token_from m)
    ∙ all-behind_token is_ows is_token_byte separate (token_from m)
    ∙ ap is_empty (sym (drop-count_leading is_ows (space_from m)))

taken :
    (m : Bytes)
    → all is_token_byte (trim is_ows m) ≡ true
    → take (token_size m) (token_from m) ≡ trim is_ows m
taken m h =
    take-token is_ows is_token_byte separate (token_from m)
      (ap (all is_token_byte) (sym (trim-token_from m)) ∙ h)
    ∙ sym (trim-token_from m)

empty_size :
    (m : Bytes)
    → all is_token_byte (trim is_ows m) ≡ true
    → is_empty (trim is_ows m) ≡ (token_size m == 0)
empty_size m h =
    ap is_empty (sym (taken m h))
    ∙ is_empty-take (token_size m) (token_from m) (count_leading-le is_token_byte (token_from m))

left_over-comma :
    (m : Bytes) → any (λ d. d == b',') m ≡ false → any (λ d. d == b',') (left_over m) ≡ false
left_over-comma m h =
    any-drop b',' (count_leading is_ows (space_from m)) (space_from m)
      (any-drop b',' (token_size m) (token_from m) (any-drop b',' (count_leading is_ows m) m h))

-- What `next` yields for a token, and how the fold goes on
good_step :
    (fuel index : ℕ) (names : List Bytes) (members after : ConnectionMembers) (token : Bytes)
    → next members ≡ some (some token, after)
    → fold_members (suc fuel) index members names
      ≡ fold_members fuel index after (insert (lowercase_token token) names)
unfolding fold_members fold_step
good_step fuel index names members after token h = rw (fold_members, h) refl

bad_step :
    (fuel index : ℕ) (names : List Bytes) (members after : ConnectionMembers)
    → next members ≡ some (none, after)
    → fold_members (suc fuel) index members names ≡ err (invalid_connection_token index)
unfolding fold_members fold_step
bad_step fuel index names members after h = rw (fold_members, h) refl

empty_nil : (s : Bytes) → is_empty s ≡ true → s ≡ []
empty_nil [] h = refl
empty_nil (c ∷ s) h = cc

fold_members-complete :
    (fuel index : ℕ) (value : Bytes) (names : List Bytes)
    → fold_members fuel index (at value complete) names ≡ ok names
unfolding fold_members next
fold_members-complete zero index value names = refl
fold_members-complete (suc fuel) index value names = refl

rejects_byte :
    (value s : Bytes) (a b c : ℕ) (r : Bytes)
    → is_empty s ≡ false
    → any (λ d. d == b',') s ≡ false
    → after_token value a b c (get_elem? (s ++ r) 0) ≡ (none, at value rejected)
unfolding after_token
rejects_byte value [] a b c r h k = cc
rejects_byte value (x ∷ s) a b c r h k = ground arith

module _ (value : Bytes) (start : ℕ) (m r : Bytes) (cut : Cut r)
    (here : drop start value ≡ m ++ r) where
  next-invalid :
      any (λ d. d == b',') m ≡ false
      → (is_empty (trim is_ows m) || not (all is_token_byte (trim is_ows m))) ≡ true
      → next (at value (member_start start)) ≡ some (none, at value rejected)
  next-invalid clear bad = elim (Bool-cases (token_size m == 0)) [
    | inl e ↦ next-scanned value start m r cut here ∙ rw e refl
    | inr e ↦
        let not_token : all is_token_byte (trim is_ows m) ≡ false =
          elim (Bool-cases (all is_token_byte (trim is_ows m))) [
            | inr f ↦ f
            | inl f ↦ absurd (ground (arith, empty_size m f))
          ] in
        next-scanned value start m r cut here
        ∙ rw e (
            ap some (
              rejects_byte value (left_over m) (token_at start m) (end_at start m)
                (cursor_at start m) r (sym (judged m) ∙ not_token) (left_over-comma m clear)))
  ]

  next-valid :
      (is_empty (trim is_ows m) || not (all is_token_byte (trim is_ows m))) ≡ false
      → next (at value (member_start start))
        ≡ some (
            after_token value
              (token_at start m)
              (end_at start m)
              (cursor_at start m)
              (get_elem? r 0))
  next-valid good =
      let tokens : all is_token_byte (trim is_ows m) ≡ true = ground arith in
      let some_size : (token_size m == 0) ≡ false = sym (empty_size m tokens) ∙ ground arith in
      let nothing_left : left_over m ≡ [] = empty_nil (left_over m) (sym (judged m) ∙ tokens) in
      next-scanned value start m r cut here ∙ rw (some_size, nothing_left) refl

  left_nothing :
      (is_empty (trim is_ows m) || not (all is_token_byte (trim is_ows m))) ≡ false
      → drop (cursor_at start m) value ≡ r
  left_nothing good =
      cursor-drop value start m r cut here
      ∙ ap (λ s. s ++ r) (empty_nil (left_over m) (sym (judged m) ∙ ground arith))

  member-slice :
      (is_empty (trim is_ows m) || not (all is_token_byte (trim is_ows m))) ≡ false
      → slice value (token_at start m) (end_at start m) ≡ trim is_ows m
  member-slice good = token-slice value start m r cut here ∙ taken m (ground arith)

abbrev refuses : Bytes → Bool
refuses m = is_empty (trim is_ows m) || not (all is_token_byte (trim is_ows m))

token_of-refuses :
    (index : ℕ) (m : Bytes)
    → token_of index m
      ≡ (if refuses m then err (bad_token index) else ok (lowercase_token (trim is_ows m)))
unfolding token_of
token_of-refuses index m = rw (all-is_token_byte (trim is_ows m)) refl

abbrev add_token : ℕ → List Bytes → Bytes → PolyguardResult (List Bytes)
add_token index names raw = token_of index raw >>= λ t. ok (insert t names)

after_last :
    (value : Bytes) (a b c : ℕ)
    → after_token value a b c none ≡ (some (slice value a b), at value complete)
unfolding after_token
after_last value a b c = refl

after_comma :
    (value : Bytes) (a b c : ℕ)
    → after_token value a b c (some b',')
      ≡ (some (slice value a b), at value (member_start (c + 1)))
unfolding after_token
after_comma value a b c = refl

bad_member :
    (fuel index start : ℕ) (value m r : Bytes) (names : List Bytes)
    → Cut r
    → drop start value ≡ m ++ r
    → any (λ d. d == b',') m ≡ false
    → refuses m ≡ true
    → fold_members (suc fuel) index (at value (member_start start)) names ≡ err (bad_token index)
bad_member fuel index start value m r names cut here clear bad =
    bad_step fuel index names (at value (member_start start)) (at value rejected)
      (next-invalid value start m r cut here clear bad)

last_member :
    (fuel index start : ℕ) (value m : Bytes) (names : List Bytes)
    → drop start value ≡ m
    → any (λ d. d == b',') m ≡ false
    → fold_members (suc fuel) index (at value (member_start start)) names
      ≡ (add_token index names m >>= ok)
last_member fuel index start value m names here clear =
    let whole : drop start value ≡ m ++ [] = here ∙ sym (append-nil m) in
    rw (token_of-refuses index m) (elim (Bool-cases (refuses m)) [
      | inl bad ↦ rw bad (bad_member fuel index start value m [] names (inl refl) whole clear bad)
      | inr good ↦
          let token = slice value (token_at start m) (end_at start m) in
          rw good (
            good_step fuel index names (at value (member_start start)) (at value complete) token (
              next-valid value start m [] (inl refl) whole good
              ∙ ap some (after_last value (token_at start m) (end_at start m) (cursor_at start m)))
            ∙ fold_members-complete fuel index value (insert (lowercase_token token) names)
            ∙ ap (λ t. ok (insert (lowercase_token t) names))
                (member-slice value start m [] (inl refl) whole good))
    ])

fold_members-split :
    (fuel index start : ℕ) (value s : Bytes) (names : List Bytes)
    → drop start value ≡ s
    → length s < fuel
    → fold_members fuel index (at value (member_start start)) names
      ≡ try_fold (add_token index) names (split b',' s)
fold_members-split zero index start value s names here h = absurd (omega arith)
fold_members-split (suc fuel) index start value s names here h =
    elim (Bool-cases (any (λ d. d == b',') s)) [
      | inr clear ↦
          rw (split-none b',' s (any-position b',' s clear))
            (last_member fuel index start value s names here clear)
      | inl found ↦
          let (m, rest, clear, eq) = first_part b',' s found in
          let r = b',' ∷ rest in
          let cut : Cut r = inr (rest, refl) in
          let whole : drop start value ≡ m ++ r = here ∙ eq in
          rw (eq, split-append b',' m rest clear, token_of-refuses index m)
            (elim (Bool-cases (refuses m)) [
              | inl bad ↦ rw bad (bad_member fuel index start value m r names cut whole clear bad)
              | inr good ↦
                  let token = slice value (token_at start m) (end_at start m) in
                  let next_start = cursor_at start m + 1 in
                  let behind_comma : drop next_start value ≡ rest =
                    drop-add (cursor_at start m) 1 value
                    ∙ ap (drop 1) (left_nothing value start m r cut whole good) in
                  let fewer : length rest < fuel = omega (arith, ap length eq, length-append m r) in
                  let added = insert (lowercase_token token) names in
                  rw good (
                    good_step fuel index names (at value (member_start start))
                      (at value (member_start next_start)) token
                      (next-valid value start m r cut whole good
                        ∙ ap some (
                            after_comma value (token_at start m) (end_at start m)
                              (cursor_at start m)))
                    ∙ fold_members-split fuel index next_start value rest added behind_comma fewer
                    ∙ ap
                        (λ t.
                          try_fold (add_token index) (insert (lowercase_token t) names)
                            (split b',' rest))
                        (member-slice value start m r cut whole good))
            ])
    ]

drop_rules : List Bytes → List HeaderRule
drop_rules [] = []
drop_rules (n ∷ ns) = record { name = n; effect = drop_field } ∷ drop_rules ns

by_drop_rules :
    (index : ℕ) (f : HeaderField) (names : List Bytes)
    → by_rule index f (find (λ r. equal r.name f.name) (drop_rules names))
      ≡ (if has f.name names then fixed_hop_by_hop f.name else end_to_end)
unfolding by_rule drop_rules
by_drop_rules index f [] = refl
by_drop_rules index f (n ∷ ns) = elim (Bool-cases (equal n f.name)) [
  | inl e ↦ rw e (ap fixed_hop_by_hop ((equal_iff n f.name).0 e))
  | inr e ↦ rw e (by_drop_rules index f ns)
]

abbrev other_names : List Bytes
other_names =
    codes "proxy-connection"
    ∷ codes "keep-alive"
    ∷ codes "transfer-encoding"
    ∷ codes "te"
    ∷ codes "trailer"
    ∷ codes "upgrade"
    ∷ codes "proxy-authenticate"
    ∷ codes "proxy-authorization"
    ∷ []

classify_cases :
    (index : ℕ) (f : HeaderField)
    → classify index f ≡ (
        if equal HopByHop.connection f.name
        then connection_event index f.value
        else if has f.name other_names
        then fixed_hop_by_hop f.name
        else end_to_end)
unfolding classify
classify_cases index f = elim (Bool-cases (equal HopByHop.connection f.name)) [
  | inl e ↦ unfold header_rules by_rule in rw e refl
  | inr e ↦ unfold header_rules in rw e (unfold drop_rules in by_drop_rules index f other_names)
]

add_members-tokens_of :
    (index : ℕ) (value : Bytes) (names : List Bytes)
    → fold_members (suc (suc (length value))) index (at value (member_start 0)) names
      ≡ (tokens_of index (split b',' value) >>= λ ts. ok (add_all insert ts names))
add_members-tokens_of index value names =
    fold_members-split (suc (suc (length value))) index 0 value value names refl (omega arith)
    ∙ fold-tokens_of insert index (split b',' value) names

visit-nominated :
    (index : ℕ) (f : HeaderField) (names : List Bytes)
    → visit index f names ≡ (nominated index f >>= λ ts. ok (add_all insert (with_own f ts) names))
unfolding visit nominated
visit-nominated index f names =
    rw (classify_cases index f, equal_comm f.name HopByHop.connection)
      (elim (Bool-cases (equal HopByHop.connection f.name)) [
        | inl e ↦
            let name : codes "connection" ≡ f.name = (equal_iff HopByHop.connection f.name).0 e in
            rw e (
              unfold apply in
              add_members-tokens_of index f.value (insert (codes "connection") names)
              ∙ ap
                  (λ n. tokens_of index (split b',' f.value) >>= λ ts.
                    ok (add_all insert ts (insert n names)))
                  name)
        | inr e ↦ elim (Bool-cases (has f.name other_names)) [
          | inl g ↦ rw (e, g) (unfold apply in refl)
          | inr g ↦ rw (e, g) (unfold apply in refl)
        ]
      ])

-- The typed pipeline gives the outcome that the names of the fields describe.
pub typed_pipeline-eq-sanitized :
    (headers : HeaderBlock) → remove_hop_by_hop_headers headers ≡ sanitized headers
unfolding remove_hop_by_hop_headers
typed_pipeline-eq-sanitized headers =
    of_set headers (ledger headers)
      (unfold ledger in walk-names_from insert visit visit-nominated 0 headers.fields [])
