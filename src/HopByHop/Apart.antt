-- ===== src/HopByHop/Apart.antt =====
-- The fixed names first and the nominations after them make the same set.
use polyform_polyguard.Base.{
  ℕ, suc, List, [], ◌∷◌, ◌++◌, ◌≡◌, refl, sym, ap, ◌∙◌, Bytes, if◌then◌else◌, inl, inr, arith,
  Bool-cases, ok, err, ◌>>=◌,
}
use polyform_polyguard.Base.Names.{insert, insert_comm, of_names}
use polyform_polyguard.HopByHop.Walk.{survivors-of_names}
use polyform_polyguard.HopByHop.{
  nominated, with_own, names_from, is_fixed, survivors, without, sanitized,
}
use polyform_polyguard.Types.{HeaderField, HeaderBlock, SanitizedHeaders, PolyguardResult}

-- The fixed names among those of the fields
unfoldable pub own_names : List HeaderField → List Bytes
own_names [] = []
own_names (f ∷ fs) = if is_fixed f.name then f.name ∷ own_names fs else own_names fs

-- All nominations
unfoldable pub nominations_from : ℕ → List HeaderField → PolyguardResult (List Bytes)
nominations_from index [] = ok []
nominations_from index (f ∷ fs) =
    nominated index f >>= λ ts. nominations_from (suc index) fs >>= λ us. ok (ts ++ us)

of_names-swap :
    (t : Bytes) (os us : List Bytes) → of_names (os ++ t ∷ us) ≡ insert t (of_names (os ++ us))
unfolding of_names
of_names-swap t [] us = refl
of_names-swap t (o ∷ os) us =
    ap (insert o) (of_names-swap t os us) ∙ insert_comm o t (of_names (os ++ us))

of_names-exchange :
    (ts os us : List Bytes) → of_names (ts ++ (os ++ us)) ≡ of_names (os ++ (ts ++ us))
unfolding of_names
of_names-exchange [] os us = refl
of_names-exchange (t ∷ ts) os us =
    ap (insert t) (of_names-exchange ts os us) ∙ sym (of_names-swap t os (ts ++ us))

of_names-behind :
    (ts ns ms : List Bytes) → of_names ns ≡ of_names ms → of_names (ts ++ ns) ≡ of_names (ts ++ ms)
unfolding of_names
of_names-behind [] ns ms h = h
of_names-behind (t ∷ ts) ns ms h = ap (insert t) (of_names-behind ts ns ms h)

one_field :
    (f : HeaderField) (fs : List HeaderField) (ts ns us : List Bytes)
    → of_names ns ≡ of_names (own_names fs ++ us)
    → of_names (with_own f ts ++ ns) ≡ of_names (own_names (f ∷ fs) ++ (ts ++ us))
unfolding own_names
one_field f fs ts ns us h = elim (Bool-cases (is_fixed f.name)) [
  | inl e ↦ rw e (
      unfold of_names in
      ap (insert f.name)
        (of_names-behind ts ns (own_names fs ++ us) h ∙ of_names-exchange ts (own_names fs) us))
  | inr e ↦
      rw e (of_names-behind ts ns (own_names fs ++ us) h ∙ of_names-exchange ts (own_names fs) us)
]

abbrev Same :
    List HeaderField → PolyguardResult (List Bytes) → PolyguardResult (List Bytes) → Type 0
Same fs r q = (r >>= λ ns. ok (of_names ns)) ≡ (q >>= λ us. ok (of_names (own_names fs ++ us)))

one_step :
    (f : HeaderField) (fs : List HeaderField) (given r q : PolyguardResult (List Bytes))
    → Same fs r q
    → Same
        (f ∷ fs)
        (given >>= λ ts. r >>= λ ns. ok (with_own f ts ++ ns))
        (given >>= λ ts. q >>= λ us. ok (ts ++ us))
one_step f fs (err e) r q h = refl
one_step f fs (ok ts) (err e) (err e') h = cc
one_step f fs (ok ts) (err e) (ok us) h = cc
one_step f fs (ok ts) (ok ns) (err e) h = cc
one_step f fs (ok ts) (ok ns) (ok us) h = ap ok (one_field f fs ts ns us (ground arith))

pub names_from-apart :
    (index : ℕ) (fs : List HeaderField)
    → (names_from index fs >>= λ ns. ok (of_names ns))
      ≡ (nominations_from index fs >>= λ us. ok (of_names (own_names fs ++ us)))
unfolding names_from nominations_from
names_from-apart index [] = unfold own_names in refl
names_from-apart index (f ∷ fs) =
    one_step f fs (nominated index f) (names_from (suc index) fs) (nominations_from (suc index) fs)
      (names_from-apart (suc index) fs)

finish : List HeaderField → List Bytes → SanitizedHeaders
finish fs set = record { fields = survivors set fs; removed_names = set }

without-finish : (fs : List HeaderField) (ns : List Bytes) → without fs ns ≡ finish fs (of_names ns)
unfolding without finish
without-finish fs ns = rw (survivors-of_names ns fs) refl

via_set :
    (fs : List HeaderField) (r : PolyguardResult (List Bytes)) (g : List Bytes → List Bytes)
    → (r >>= λ ns. ok (without fs (g ns)))
      ≡ ((r >>= λ ns. ok (of_names (g ns))) >>= λ set. ok (finish fs set))
via_set fs (err e) g = refl
via_set fs (ok ns) g = ap ok (without-finish fs (g ns))

-- The outcome, from the fixed names and then the nominations
pub sanitized-apart :
    (headers : HeaderBlock)
    → sanitized headers ≡ (
        nominations_from 0 headers.fields >>= λ us.
        ok (without headers.fields (own_names headers.fields ++ us)))
unfolding sanitized
sanitized-apart headers =
    via_set headers.fields (names_from 0 headers.fields) (λ ns. ns)
    ∙ ap (λ r. r >>= λ set. ok (finish headers.fields set)) (names_from-apart 0 headers.fields)
    ∙ sym (
        via_set headers.fields (nominations_from 0 headers.fields)
          (λ us. own_names headers.fields ++ us))
