-- ===== src/HopByHop/Scan.antt =====
-- Reading a member by counting: white space, token bytes, white space.
use polyform_polyguard.Base.{
  ℕ, zero, suc, ◌≤◌, Bool, true, false, ◌&&◌, [], ◌∷◌, ◌++◌, ◌≡◌, ◌⊎◌, refl, sym, ap, ◌∙◌, inl, inr,
  arith, Bytes, ◌==◌, Bool-cases, length, take, drop, get_elem?, any, all, is_empty, drop-append_le,
  take-append_le,
}
use polyform_polyguard.Base.Trim.{
  trim_start, trim_end, trim_end-cons, count_leading, count_leading-le,
}

module _ (p : ℕ → Bool) (no_comma : p b',' ≡ false) where
  pub count_leading-append :
      (m r : Bytes)
      → (r ≡ []) ⊎ ((rest : Bytes) × (r ≡ b',' ∷ rest))
      → count_leading p (m ++ r) ≡ count_leading p m
  count_leading-append [] r (inl e) = ap (count_leading p) e
  count_leading-append [] r (inr (rest, e)) = ap (count_leading p) e ∙ rw no_comma refl
  count_leading-append (c ∷ m) r h = ground (arith, count_leading-append m r h)

pub drop-count_append :
    (p : ℕ → Bool) (m r : Bytes)
    → drop (count_leading p m) (m ++ r) ≡ drop (count_leading p m) m ++ r
drop-count_append p m r = drop-append_le (count_leading p m) m r (count_leading-le p m)

pub take-count_append :
    (p : ℕ → Bool) (m r : Bytes) → take (count_leading p m) (m ++ r) ≡ take (count_leading p m) m
take-count_append p m r = take-append_le (count_leading p m) m r (count_leading-le p m)

pub any-drop :
    (c n : ℕ) (m : Bytes) → any (λ d. d == c) m ≡ false → any (λ d. d == c) (drop n m) ≡ false
any-drop c zero m h = h
any-drop c (suc n) [] h = refl
any-drop c (suc n) (d ∷ m) h = any-drop c n m (ground arith)

pub get_elem?-drop : (n : ℕ) (s : Bytes) → get_elem? s n ≡ get_elem? (drop n s) 0
get_elem?-drop zero s = refl
get_elem?-drop (suc n) [] = refl
get_elem?-drop (suc n) (c ∷ s) = get_elem?-drop n s

module _ (o t : ℕ → Bool) (apart : (c : ℕ) → t c ≡ true → o c ≡ false) where
  abbrev behind_token : Bytes → Bytes
  behind_token m = drop (count_leading t m) m

  trim_ends : (m : Bytes) → is_empty (trim_end o m) ≡ is_empty (trim_start o m)
  unfolding trim_start
  trim_ends [] = unfold trim_end in refl
  trim_ends (c ∷ m) = rw (trim_end-cons o c m, trim_ends m) (ground arith)

  -- A trimmed member is a token just if nothing but white space follows the token bytes.
  pub all-behind_token :
      (m : Bytes) → all t (trim_end o m) ≡ is_empty (trim_start o (behind_token m))
  all-behind_token [] = unfold trim_end trim_start in refl
  all-behind_token (c ∷ m) = elim (Bool-cases (t c)) [
    | inl e ↦ rw (trim_end-cons o c m, apart c e, e) (all-behind_token m)
    | inr e ↦
        rw (e, ← trim_ends (c ∷ m), trim_end-cons o c m)
          (elim (Bool-cases (o c && is_empty (trim_end o m))) [
            | inl f ↦ rw f refl
            | inr f ↦ rw (f, e) refl
          ])
  ]

  pub take-token :
      (m : Bytes) → all t (trim_end o m) ≡ true → take (count_leading t m) m ≡ trim_end o m
  take-token [] h = unfold trim_end in refl
  take-token (c ∷ m) h = elim (Bool-cases (t c)) [
    | inl e ↦
        let rest : all t (trim_end o m) ≡ true =
          sym (rw (trim_end-cons o c m, apart c e, e) refl) ∙ h in
        rw (trim_end-cons o c m, apart c e, e) (ap (◌∷◌ c) (take-token m rest))
    | inr e ↦ elim (Bool-cases (o c && is_empty (trim_end o m))) [
      | inl f ↦ rw (e, trim_end-cons o c m, f) refl
      | inr f ↦
          let none_there : all t (trim_end o (c ∷ m)) ≡ false =
            rw (trim_end-cons o c m, f, e) refl in
          cc
    ]
  ]

pub is_empty-take : (n : ℕ) (m : Bytes) → n ≤ length m → is_empty (take n m) ≡ (n == 0)
is_empty-take zero m h = refl
is_empty-take (suc n) [] h = absurd (omega arith)
is_empty-take (suc n) (c ∷ m) h = ground arith
