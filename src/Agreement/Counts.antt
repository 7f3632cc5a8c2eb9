-- ===== src/Agreement/Counts.antt =====
-- Counting in lists whose elements have different ids, such as the table of src/lib.rs.
use mathlib.Core.List.{map}
use mathlib.Core.Path.{fun_ext}
use polyform_polyguard.Base.{
  ℕ, ◌+◌, ◌≤◌, Bool, true, false, not, ◌&&◌, ◌||◌, List, [], ◌∷◌, ◌++◌, ◌≡◌, refl, ap, ◌∙◌, arith,
  inl, inr, Bytes, Bool-cases, any, keep_if, length, equal, equal_iff,
}

module _ {A : Type 0} where
  abbrev pub count : (A → Bool) → List A → ℕ
  count p xs = length (keep_if p xs)

  pub count-append : (p : A → Bool) (xs ys : List A) → count p (xs ++ ys) ≡ count p xs + count p ys
  count-append p [] ys = omega arith
  count-append p (x ∷ xs) ys = elim (Bool-cases (p x)) [
    | inl y ↦ rw y (omega (arith, count-append p xs ys))
    | inr n ↦ rw n (count-append p xs ys)
  ]

  count-or : (p q : A → Bool) (xs : List A) → count (λ x. p x || q x) xs ≤ count p xs + count q xs
  count-or p q [] = omega arith
  count-or p q (x ∷ xs) = ground (arith, count-or p q xs)

  -- What passes one test is quarantined or passes the other.
  pub count-split :
      (p q : A → Bool) (xs : List A) → count p xs ≤ count (λ x. not (q x) && p x) xs + count q xs
  count-split p q [] = omega arith
  count-split p q (x ∷ xs) = ground (arith, count-split p q xs)

count-never : {A : Type 0} (xs : List A) → count (λ _. false) xs ≡ 0
count-never [] = refl
count-never (x ∷ xs) = count-never xs

pub equal_comm : (s t : Bytes) → equal s t ≡ equal t s
unfolding equal
equal_comm [] [] = refl
equal_comm [] (d ∷ t) = refl
equal_comm (c ∷ s) [] = refl
equal_comm (c ∷ s) (d ∷ t) = ground (arith, equal_comm s t)

module _ {A : Type 0} (p : A → Bool) where
  count-first : (x : A) (xs : List A) → count p (x ∷ xs) ≡ count p (x ∷ []) + count p xs
  count-first x xs = elim (Bool-cases (p x)) [
    | inl y ↦ rw y (omega arith)
    | inr n ↦ rw n (omega arith)
  ]

  pub count-move :
      (xs : List A) (x : A) (ys zs : List A)
      → count p (xs ++ ys) ≡ count p zs
      → count p (xs ++ x ∷ ys) ≡ count p (x ∷ zs)
  count-move xs x ys zs h =
      count-append p xs (x ∷ ys)
      ∙ omega (arith, count-append p xs ys, count-first x ys, count-first x zs)

-- No id stands twice.
abbrev pub distinct : List Bytes → Bool
distinct [] = true
distinct (x ∷ xs) = not (any (λ y. equal y x) xs) && distinct xs

module _ {A : Type 0} (id_of : A → Bytes) where
  count-absent :
      (x : Bytes) (xs : List A)
      → any (λ y. equal y x) (map id_of xs) ≡ false
      → count (λ c. equal (id_of c) x) xs ≡ 0
  count-absent x [] h = refl
  count-absent x (c ∷ xs) h = ground (arith, count-absent x xs)

  count-distinct :
      (x : Bytes) (xs : List A)
      → distinct (map id_of xs) ≡ true
      → count (λ c. equal (id_of c) x) xs ≤ 1
  count-distinct x [] h = omega arith
  count-distinct x (c ∷ xs) h = elim (Bool-cases (equal (id_of c) x)) [
    | inl y ↦
        let same : id_of c ≡ x = (equal_iff (id_of c) x).0 y in
        let absent : any (λ y. equal y x) (map id_of xs) ≡ false = rw (← same) (ground arith) in
        rw y (omega (arith, count-absent x xs absent))
    | inr n ↦ rw n (count-distinct x xs (ground arith))
  ]

  -- A list of names takes no more of them than it has.
  pub count-names :
      (names : List Bytes) (xs : List A)
      → distinct (map id_of xs) ≡ true
      → count (λ c. any (λ q. equal q (id_of c)) names) xs ≤ length names
  count-names [] xs h = omega (arith, count-never xs)
  count-names (q ∷ names) xs h =
      let first = count-or (λ c. equal q (id_of c)) (λ c. any (λ n. equal n (id_of c)) names) xs in
      let one = count-distinct q xs h in
      let turned = ap (λ g. count g xs) (fun_ext (λ c. equal_comm q (id_of c))) in
      omega (arith, first, one, turned, count-names names xs h)
