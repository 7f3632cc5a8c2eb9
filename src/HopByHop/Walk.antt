-- ===== src/HopByHop/Walk.antt =====
-- A pass over the fields that adds the names to a set.
use polyform_polyguard.Base.{
  ℕ, suc, true, List, [], ◌∷◌, ◌++◌, ◌≡◌, refl, sym, ap, ◌∙◌, Bytes, ok, err, ◌>>=◌, try_fold,
  bind_assoc, bind_agree, equal,
}
use polyform_polyguard.Base.Names.{insert, insert_comm, of_names, has, has-of_names, equal_comm}
use polyform_polyguard.HopByHop.{
  token_of, tokens_of, nominated, with_own, names_from, survivors, without, sanitized, connection,
  is_fixed,
}
use polyform_polyguard.Types.{HeaderField, HeaderBlock, SanitizedHeaders, PolyguardResult}

module _ {S : Type 0} where
  -- `for (index, field) in fields.iter().enumerate()` with a body that may fail
  abbrev pub walk :
      (ℕ → HeaderField → S → PolyguardResult S) → ℕ → List HeaderField → S → PolyguardResult S
  walk visit index [] state = ok state
  walk visit index (f ∷ fs) state = visit index f state >>= λ next. walk visit (suc index) fs next

  module _ (add : Bytes → S → S) where
    abbrev pub add_all : List Bytes → S → S
    add_all [] state = state
    add_all (n ∷ ns) state = add_all ns (add n state)

    pub add_all-append :
        (ns ms : List Bytes) (state : S) → add_all (ns ++ ms) state ≡ add_all ms (add_all ns state)
    add_all-append [] ms state = refl
    add_all-append (n ∷ ns) ms state = add_all-append ns ms (add n state)

    abbrev add_token : ℕ → S → Bytes → PolyguardResult S
    add_token index state raw = token_of index raw >>= λ t. ok (add t state)

    after_token :
        (index : ℕ) (ms : List Bytes) (state : S) (r : PolyguardResult Bytes)
        → ((s : S)
            → try_fold (add_token index) s ms ≡ (tokens_of index ms >>= λ ts. ok (add_all ts s)))
        → ((r >>= λ t. ok (add t state)) >>= λ s. try_fold (add_token index) s ms)
          ≡ ((r >>= λ t. tokens_of index ms >>= λ ts. ok (t ∷ ts)) >>= λ ts. ok (add_all ts state))
    after_token index ms state (err e) rest = refl
    after_token index ms state (ok t) rest =
        rest (add t state)
        ∙ sym (bind_assoc (tokens_of index ms) (λ ts. ok (t ∷ ts)) (λ ts. ok (add_all ts state)))

    -- Reading a list of members into the set
    pub fold-tokens_of :
        (index : ℕ) (ms : List Bytes) (state : S)
        → try_fold (add_token index) state ms ≡ (tokens_of index ms >>= λ ts. ok (add_all ts state))
    unfolding tokens_of
    fold-tokens_of index [] state = refl
    fold-tokens_of index (m ∷ ms) state =
        after_token index ms state (token_of index m) (fold-tokens_of index ms)

    after_field :
        (visit : ℕ → HeaderField → S → PolyguardResult S) (index : ℕ) (f : HeaderField)
        (fs : List HeaderField) (state : S) (r : PolyguardResult (List Bytes))
        → ((s : S)
            → walk visit (suc index) fs s ≡ (names_from (suc index) fs >>= λ ns. ok (add_all ns s)))
        → ((r >>= λ ts. ok (add_all (with_own f ts) state)) >>= walk visit (suc index) fs) ≡ (
            (r >>= λ ts. names_from (suc index) fs >>= λ ns. ok (with_own f ts ++ ns)) >>= λ ns.
            ok (add_all ns state))
    after_field visit index f fs state (err e) rest = refl
    after_field visit index f fs state (ok ts) rest =
        rest (add_all (with_own f ts) state)
        ∙ bind_agree (names_from (suc index) fs)
            (λ ns. ok (add_all ns (add_all (with_own f ts) state)))
            (λ ns. ok (add_all (with_own f ts ++ ns) state))
            (λ ns _. ap ok (sym (add_all-append (with_own f ts) ns state)))
        ∙ sym (
            bind_assoc (names_from (suc index) fs) (λ ns. ok (with_own f ts ++ ns))
              (λ ns. ok (add_all ns state)))

    -- A pass whose body adds what a field gives, or fails where its nominations do, adds all names.
    pub walk-names_from :
        (visit : ℕ → HeaderField → S → PolyguardResult S)
        → ((index : ℕ) (f : HeaderField) (state : S)
            → visit index f state
              ≡ (nominated index f >>= λ ts. ok (add_all (with_own f ts) state)))
        → (index : ℕ) (fs : List HeaderField) (state : S)
        → walk visit index fs state ≡ (names_from index fs >>= λ ns. ok (add_all ns state))
    unfolding names_from
    walk-names_from visit each index [] state = refl
    walk-names_from visit each index (f ∷ fs) state =
        ap (λ r. r >>= walk visit (suc index) fs) (each index f state)
        ∙ after_field visit index f fs state (nominated index f)
            (walk-names_from visit each (suc index) fs)

add_all-insert :
    (n : Bytes) (ns s : List Bytes)
    → add_all insert ns (insert n s) ≡ insert n (add_all insert ns s)
add_all-insert n [] s = refl
add_all-insert n (m ∷ ns) s =
    ap (add_all insert ns) (insert_comm m n s) ∙ add_all-insert n ns (insert m s)

-- Inserting a list of names one by one
pub add_all-of_names : (ns : List Bytes) → add_all insert ns [] ≡ of_names ns
unfolding of_names
add_all-of_names [] = refl
add_all-of_names (n ∷ ns) = add_all-insert n ns [] ∙ ap (insert n) (add_all-of_names ns)

-- Only membership decides what survives.
pub survivors_agree :
    (s t : List Bytes) (fs : List HeaderField)
    → ((n : Bytes) → has n s ≡ has n t)
    → survivors s fs ≡ survivors t fs
survivors_agree s t [] same = refl
survivors_agree s t (f ∷ fs) same = rw (same f.name, survivors_agree s t fs same) refl

pub survivors-of_names :
    (ns : List Bytes) (fs : List HeaderField) → survivors (of_names ns) fs ≡ survivors ns fs
survivors-of_names ns fs = survivors_agree (of_names ns) ns fs (λ n. has-of_names n ns)

pub connection-is_fixed : (n : Bytes) → equal n connection ≡ true → is_fixed n ≡ true
connection-is_fixed n h = rw (equal_comm connection n, h) refl

-- The ordered set of the names, filled one by one, and what survives it
set-without :
    (fs : List HeaderField) (ns : List Bytes)
    → (let plan = add_all insert ns [] in
        ◌≡◌ {A = SanitizedHeaders}
          (record { fields = survivors plan fs; removed_names = plan })
          (without fs ns))
unfolding without
set-without fs ns = rw (add_all-of_names ns, survivors-of_names ns fs) refl

-- A pass that fills an ordered set with all names
pub of_set :
    (headers : HeaderBlock) (plan : PolyguardResult (List Bytes))
    → plan ≡ (names_from 0 headers.fields >>= λ ns. ok (add_all insert ns []))
    → (plan >>= λ set. ok (record { fields = survivors set headers.fields; removed_names = set }))
      ≡ sanitized headers
unfolding sanitized
of_set headers plan h =
    ap
      (λ r. r >>= λ set. ok (record { fields = survivors set headers.fields; removed_names = set }))
      h
    ∙ bind_assoc (names_from 0 headers.fields) (λ ns. ok (add_all insert ns []))
        (λ set. ok (record { fields = survivors set headers.fields; removed_names = set }))
    ∙ bind_agree (names_from 0 headers.fields) _ _ (λ ns _. ap ok (set-without headers.fields ns))
