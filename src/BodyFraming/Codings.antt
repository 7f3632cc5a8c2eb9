-- ===== src/BodyFraming/Codings.antt =====
-- A list of transfer codings with one member comes from one field, with no comma in it.
use polyform_polyguard.Base.{
  ℕ, suc, Bool, true, false, not, List, [], ◌∷◌, ◌++◌, ◌≡◌, refl, ◌∙◌, inl, inr, arith, append-nil,
  Bytes, codes, ◌==◌, if◌then◌else◌, Bool-cases, any, find, map_or, eq_ignore_ascii_case, ok, err,
}
use polyform_polyguard.Base.Split.{split, split-none, split-any, split-cons, any-position}
use polyform_polyguard.Base.Trim.{trim, trim_start, trim_end}
use polyform_polyguard.BodyFraming.Members.{members-present}
use polyform_polyguard.BodyFraming.{is_ows, is_named, members, present, of_codings, is_chunked}
use polyform_polyguard.Types.{HeaderField, BodyFraming, PolyguardResult, invalid_transfer_encoding}

abbrev has_comma : Bytes → Bool
has_comma = any (λ c. c == b',')

trim_start-comma : (s : Bytes) → has_comma (trim_start is_ows s) ≡ has_comma s
unfolding trim_start
trim_start-comma [] = refl
trim_start-comma (c ∷ s) = ground (arith, trim_start-comma s)

end_cons-comma :
    (c : ℕ) (s r : Bytes)
    → trim_end is_ows s ≡ r
    → has_comma r ≡ has_comma s
    → has_comma (trim_end is_ows (c ∷ s)) ≡ has_comma (c ∷ s)
unfolding trim_end
end_cons-comma c s [] e h = rw e (ground arith)
end_cons-comma c s (d ∷ r) e h = rw e (ground arith)

trim_end-comma : (s : Bytes) → has_comma (trim_end is_ows s) ≡ has_comma s
trim_end-comma [] = unfold trim_end in refl
trim_end-comma (c ∷ s) = end_cons-comma c s (trim_end is_ows s) refl (trim_end-comma s)

trim-comma : (s : Bytes) → has_comma (trim is_ows s) ≡ has_comma s
unfolding trim
trim-comma s = trim_end-comma (trim_start is_ows s) ∙ trim_start-comma s

eq_ignore_case-comma :
    (s t : Bytes) → eq_ignore_ascii_case s t ≡ true → has_comma t ≡ false → has_comma s ≡ false
unfolding eq_ignore_ascii_case
eq_ignore_case-comma [] t h k = refl
eq_ignore_case-comma (x ∷ s) [] h k = cc
eq_ignore_case-comma (x ∷ s) (y ∷ t) h k = ground (arith, eq_ignore_case-comma s t)

is_chunked-comma : (s : Bytes) → has_comma s ≡ true → is_chunked s ≡ false
is_chunked-comma s h = elim (Bool-cases (is_chunked s)) [
  | inr e ↦ e
  | inl e ↦ cc (trim-comma s, eq_ignore_case-comma (trim is_ows s) (codes "chunked") e refl)
]

-- One field's members are one coding exactly when the whole field is.
abbrev of_coding : Bytes → PolyguardResult BodyFraming
of_coding s = if is_chunked s then ok BodyFraming.chunked else err invalid_transfer_encoding

of_codings-split : (s : Bytes) → of_codings (split b',' s) ≡ of_coding s
of_codings-split s = elim (Bool-cases (has_comma s)) [
  | inl h ↦ let (a, b, rest, e) = split-any b',' s h in rw (e, is_chunked-comma s h)
  | inr h ↦ rw (split-none b',' s (any-position b',' s h))
]

unfoldable pub count_named : Bytes → List HeaderField → ℕ
count_named n [] = 0
count_named n (f ∷ fs) = if is_named n f then suc (count_named n fs) else count_named n fs

pub count_named-present :
    (n : Bytes) (fs : List HeaderField) → (count_named n fs == 0) ≡ not (present n fs)
unfolding count_named
count_named-present n [] = refl
count_named-present n (f ∷ fs) = ground (arith, count_named-present n fs)

pub members-absent : (n : Bytes) (fs : List HeaderField) → present n fs ≡ false → members n fs ≡ []
unfolding members
members-absent n [] h = refl
members-absent n (f ∷ fs) h = ground (arith, members-absent n fs)

of_codings-two :
    (s : Bytes) (m : Bytes) (rest : List Bytes)
    → of_codings (split b',' s ++ m ∷ rest) ≡ err invalid_transfer_encoding
of_codings-two s m rest = let (a, l, e) = split-cons b',' s in rw e (by_rest a l)
  where
    by_rest :
        (a : Bytes) (l : List Bytes)
        → of_codings ((a ∷ l) ++ m ∷ rest) ≡ err invalid_transfer_encoding
    by_rest a [] = refl
    by_rest a (_ ∷ _) = refl

-- The members of a coding field that is present, judged by the count of the fields and the first.
pub one_coding :
    (n : Bytes) (fs : List HeaderField)
    → of_codings (members n fs) ≡ (
        if count_named n fs == 1
        then map_or (find (is_named n) fs) (err invalid_transfer_encoding) (λ f. of_coding f.value)
        else err invalid_transfer_encoding)
unfolding members count_named
one_coding n [] = refl
one_coding n (f ∷ fs) = elim (Bool-cases (is_named n f)) [
  | inr e ↦ rw e (one_coding n fs)
  | inl e ↦ elim (Bool-cases (present n fs)) [
    | inl h ↦
        let (m, rest, g) = members-present n fs h in
        rw (e, g, of_codings-two f.value m rest) (ground (arith, count_named-present n fs))
    | inr h ↦
        rw (e, members-absent n fs h, append-nil, of_codings-split f.value)
          (ground (arith, count_named-present n fs))
  ]
]
