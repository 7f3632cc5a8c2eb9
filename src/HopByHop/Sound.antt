-- ===== src/HopByHop/Sound.antt =====
-- What a sanitized header block holds, and what it does not.
use polyform_polyguard.Base.{
  ℕ, suc, Bool, true, false, not, ◌&&◌, ◌||◌, List, [], ◌∷◌, ◌++◌, ◌≡◌, refl, sym, ap, ◌∙◌, inl,
  inr, arith, Bytes, if◌then◌else◌, Bool-cases, all, is_empty, ok, ◌>>=◌, bind-eq-ok,
}
use polyform_polyguard.Base.Names.{
  has, has-of_names, has-append, of_names, ascending, of_names-ascending, equal_refl,
}
use polyform_polyguard.Base.Split.{split}
use polyform_polyguard.Base.Trim.{trim}
use polyform_polyguard.HopByHop.Variants.{HopByHopVariant, remove, remove-eq-sanitized}
use polyform_polyguard.HopByHop.Walk.{survivors-of_names}
use polyform_polyguard.HopByHop.{
  is_ows, is_fixed, is_connection, lowercase, token_of, tokens_of, nominated, with_own, names_from,
  survivors, without, sanitized, is_token_byte,
}
use polyform_polyguard.Types.{HeaderField, HeaderBlock, SanitizedHeaders, PolyguardResult}

-- The members of a connection field
abbrev pub members_of : HeaderField → List Bytes
members_of f = if is_connection f then split b',' f.value else []

abbrev pub nominee : Bytes → Bytes
nominee raw = lowercase (trim is_ows raw)

-- The names hold that of the field, if it is fixed, and all that it nominates.
abbrev pub covers : List Bytes → HeaderField → Bool
covers names f =
    (not (is_fixed f.name) || has f.name names)
    && all (λ raw. has (nominee raw) names) (members_of f)

pub record Sanitizes (headers : HeaderBlock) (r : SanitizedHeaders) : Type 0 where
  pub kept : r.fields ≡ survivors r.removed_names headers.fields
  pub covered : all (covers r.removed_names) headers.fields ≡ true
  pub none_fixed : all (λ f. not (is_fixed f.name)) r.fields ≡ true
  pub sorted : ascending r.removed_names ≡ true

token_of-nominee : (index : ℕ) (m t : Bytes) → token_of index m ≡ ok t → t ≡ nominee m
unfolding token_of
token_of-nominee index m t h =
    elim (Bool-cases (is_empty (trim is_ows m) || not (all is_token_byte (trim is_ows m)))) [
      | inl e ↦ absurd (ground (arith, e, h))
      | inr e ↦ ground (arith, e, h)
    ]

-- Where one list of names is part of another, so is all that has its names.
abbrev Within : List Bytes → List Bytes → Type 0
Within ts names = (n : Bytes) → has n ts ≡ true → has n names ≡ true

Within-head : (t : Bytes) (ts names : List Bytes) → Within (t ∷ ts) names → has t names ≡ true
Within-head t ts names sub = sub t (rw (equal_refl t) refl)

Within-tail : (t : Bytes) (ts names : List Bytes) → Within (t ∷ ts) names → Within ts names
Within-tail t ts names sub n h = sub n (ground (arith, h))

Within-left : (ss ts names : List Bytes) → Within (ss ++ ts) names → Within ss names
Within-left ss ts names sub n h = sub n (ground (arith, has-append n ss ts, h))

Within-right : (ss ts names : List Bytes) → Within (ss ++ ts) names → Within ts names
Within-right ss ts names sub n h = sub n (ground (arith, has-append n ss ts, h))

Within-made :
    (ss ts names : List Bytes)
    → ◌≡◌ {A = PolyguardResult (List Bytes)} (ok ss) (ok ts)
    → Within ts names
    → Within ss names
Within-made ss ts names made sub n h = let same : ss ≡ ts = cc in sub n (ap (has n) (sym same) ∙ h)

and_left : (a b : Bool) → (a && b) ≡ true → a ≡ true
and_left true b h = refl
and_left false b h = absurd cc

tokens_of-nominees :
    (index : ℕ) (ms ts names : List Bytes)
    → tokens_of index ms ≡ ok ts
    → Within ts names
    → all (λ raw. has (nominee raw) names) ms ≡ true
unfolding tokens_of
tokens_of-nominees index [] ts names h sub = refl
tokens_of-nominees index (m ∷ ms) ts names h sub =
    let (t, token, read) =
      bind-eq-ok (token_of index m) (λ t. tokens_of index ms >>= λ us. ok (t ∷ us)) h in
    let (us, tokens, made) = bind-eq-ok (tokens_of index ms) (λ us. ok (t ∷ us)) read in
    let all_in : Within (t ∷ us) names = Within-made (t ∷ us) ts names made sub in
    let first : has (nominee m) names ≡ true =
      ap (λ u. has u names) (sym (token_of-nominee index m t token))
      ∙ Within-head t us names all_in in
    rw (first, tokens_of-nominees index ms us names tokens (Within-tail t us names all_in)) refl

nominated-members :
    (index : ℕ) (f : HeaderField) (ts names : List Bytes)
    → nominated index f ≡ ok ts
    → Within ts names
    → all (λ raw. has (nominee raw) names) (members_of f) ≡ true
unfolding nominated
nominated-members index f ts names h sub = elim (Bool-cases (is_connection f)) [
  | inl e ↦ rw e (
      tokens_of-nominees index (split b',' f.value) ts names
        (ap (λ c. if c then tokens_of index (split b',' f.value) else ok []) (sym e) ∙ h) sub)
  | inr e ↦ rw e refl
]

own_covered :
    (fixed : Bool) (name : Bytes) (ts names : List Bytes) (members : Bool)
    → Within (if fixed then name ∷ ts else ts) names
    → (Within ts names → members ≡ true)
    → ((not fixed || has name names) && members) ≡ true
own_covered true name ts names members sub rest =
    rw (Within-head name ts names sub, rest (Within-tail name ts names sub)) refl
own_covered false name ts names members sub rest = rest sub

covers_own :
    (index : ℕ) (f : HeaderField) (ts names : List Bytes)
    → nominated index f ≡ ok ts
    → Within (with_own f ts) names
    → covers names f ≡ true
covers_own index f ts names h sub =
    own_covered (is_fixed f.name) f.name ts names
      (all (λ raw. has (nominee raw) names) (members_of f)) sub
      (nominated-members index f ts names h)

names_from-covers :
    (index : ℕ) (fs : List HeaderField) (ns names : List Bytes)
    → names_from index fs ≡ ok ns
    → Within ns names
    → all (covers names) fs ≡ true
unfolding names_from
names_from-covers index [] ns names h sub = refl
names_from-covers index (f ∷ fs) ns names h sub =
    let (ts, tokens, read) =
      bind-eq-ok (nominated index f)
        (λ ts. names_from (suc index) fs >>= λ ns. ok (with_own f ts ++ ns)) h in
    let (us, rest, made) =
      bind-eq-ok (names_from (suc index) fs) (λ ns. ok (with_own f ts ++ ns)) read in
    let all_in : Within (with_own f ts ++ us) names =
      Within-made (with_own f ts ++ us) ns names made sub in
    let own : covers names f ≡ true =
      covers_own index f ts names tokens (Within-left (with_own f ts) us names all_in) in
    rw
      (
        own,
        names_from-covers (suc index) fs us names rest
            (Within-right (with_own f ts) us names all_in),
      )
      refl

spared :
    (fixed present rest : Bool)
    → ((not fixed || present) && rest) ≡ true
    → present ≡ false
    → fixed ≡ false
spared false p r h e = refl
spared true true r h e = absurd cc
spared true false r h e = absurd cc

survivors-none_fixed :
    (names : List Bytes) (fs : List HeaderField)
    → all (covers names) fs ≡ true
    → all (λ f. not (is_fixed f.name)) (survivors names fs) ≡ true
survivors-none_fixed names [] h = refl
survivors-none_fixed names (f ∷ fs) h = elim (Bool-cases (has f.name names)) [
  | inl e ↦ rw e (survivors-none_fixed names fs (ground arith))
  | inr e ↦
      let rest = survivors-none_fixed names fs (ground arith) in
      let end_to_end : is_fixed f.name ≡ false =
        spared (is_fixed f.name) (has f.name names)
          (all (λ raw. has (nominee raw) names) (members_of f))
          (and_left (covers names f) (all (covers names) fs) h) e in
      rw (e, end_to_end) rest
]

without-Sanitizes :
    (headers : HeaderBlock) (ns : List Bytes)
    → names_from 0 headers.fields ≡ ok ns
    → Sanitizes headers (without headers.fields ns)
unfolding without
without-Sanitizes headers ns h =
    let covered : all (covers (of_names ns)) headers.fields ≡ true =
      names_from-covers 0 headers.fields ns (of_names ns) h (λ n k. has-of_names n ns ∙ k) in
    record {
      kept = sym (survivors-of_names ns headers.fields);
      covered = covered;
      none_fixed =
          ap (all (λ f. not (is_fixed f.name))) (sym (survivors-of_names ns headers.fields))
          ∙ survivors-none_fixed (of_names ns) headers.fields covered;
      sorted = of_names-ascending ns;
    }

-- For a header block that an implementation sanitizes: the names that it reports are sorted without
-- repeats, hold those of the block's fixed hop-by-hop fields and all that its connection fields
-- nominate, in lower case; the fields that are left are those of the block with other names, in
-- order; and none of these is a fixed hop-by-hop field.
pub remove-Sanitizes :
    (variant : HopByHopVariant) (headers : HeaderBlock) (r : SanitizedHeaders)
    → remove variant headers ≡ ok r
    → Sanitizes headers r
unfolding sanitized
remove-Sanitizes variant headers r h =
    let (ns, names, made) =
      bind-eq-ok (names_from 0 headers.fields) (λ names. ok (without headers.fields names))
        (sym (remove-eq-sanitized variant headers) ∙ h) in
    let same : without headers.fields ns ≡ r = cc in
    rw (sym same) (without-Sanitizes headers ns names)
