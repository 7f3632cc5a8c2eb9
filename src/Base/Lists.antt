-- ===== src/Base/Lists.antt =====
-- Lists measured and indexed by native numbers, under the library's names, and searches in them.
use Prim.Native.Nat.{ℕ, zero, suc, ◌+◌, ◌-◌, ◌≤◌, ◌<◌}
use mathlib.Core.Bool.{Bool, true, false, ◌&&◌, ◌||◌}
use mathlib.Core.List.{List, [], ◌∷◌, ◌++◌, reverse, reverse-cons}
use mathlib.Core.Option
use mathlib.Core.Option.{Option, none, some}
use mathlib.Core.Logic.{inl, inr}
use mathlib.Core.Path.{◌≡◌, refl, ap, sym, ◌∙◌, subst}
use native.Mathlib.Omega.{arith}
use package.polyform_polyguard.Base.Tests.{leb, ◌==◌, if◌then◌else◌, Bool-cases}

module _ {ℓ} {A : Type ℓ} where
  abbrev pub length : List A → ℕ
  length [] = 0
  length (x ∷ xs) = suc (length xs)

  abbrev pub get_elem? : List A → ℕ → Option A
  get_elem? [] i = none
  get_elem? (x ∷ xs) zero = some x
  get_elem? (x ∷ xs) (suc i) = get_elem? xs i

  abbrev pub take : ℕ → List A → List A
  take zero xs = []
  take (suc n) [] = []
  take (suc n) (x ∷ xs) = x ∷ take n xs

  abbrev pub drop : ℕ → List A → List A
  drop zero xs = xs
  drop (suc n) [] = []
  drop (suc n) (x ∷ xs) = drop n xs

  abbrev pub any : (A → Bool) → List A → Bool
  any p [] = false
  any p (x ∷ xs) = p x || any p xs

  abbrev pub all : (A → Bool) → List A → Bool
  all p [] = true
  all p (x ∷ xs) = p x && all p xs

  -- The index of the first element that passes the test.
  abbrev pub position : (A → Bool) → List A → Option ℕ
  position p [] = none
  position p (x ∷ xs) = if p x then some 0 else Option.map suc (position p xs)

  -- The index of the last one.
  abbrev pub rposition : (A → Bool) → List A → Option ℕ
  rposition p [] = none
  rposition p (x ∷ xs) = elim (rposition p xs) [
    | some i ↦ some (suc i)
    | none ↦ if p x then some 0 else none
  ]

  abbrev pub find : (A → Bool) → List A → Option A
  find p [] = none
  find p (x ∷ xs) = if p x then some x else find p xs

  abbrev pub keep_if : (A → Bool) → List A → List A
  keep_if p [] = []
  keep_if p (x ∷ xs) = if p x then x ∷ keep_if p xs else keep_if p xs

suc_add : (a b : ℕ) → suc a + b ≡ suc (a + b)
suc_add a b = omega arith

module _ {ℓ} {A : Type ℓ} where
  pub length-append : (xs ys : List A) → length (xs ++ ys) ≡ length xs + length ys
  length-append [] ys = omega arith
  length-append (x ∷ xs) ys = omega (arith, length-append xs ys)

  pub take-length : (xs : List A) → take (length xs) xs ≡ xs
  take-length [] = refl
  take-length (x ∷ xs) = ap (◌∷◌ x) (take-length xs)

  pub take-append_le : (n : ℕ) (xs ys : List A) → n ≤ length xs → take n (xs ++ ys) ≡ take n xs
  take-append_le zero xs ys h = refl
  take-append_le (suc n) [] ys h = absurd (omega arith)
  take-append_le (suc n) (x ∷ xs) ys h = ap (◌∷◌ x) (take-append_le n xs ys (omega arith))

  pub drop-length : (xs : List A) → drop (length xs) xs ≡ []
  drop-length [] = refl
  drop-length (x ∷ xs) = drop-length xs

  pub take-suc :
      (n : ℕ) (xs : List A) {x : A}
      → get_elem? xs n ≡ some x
      → take (suc n) xs ≡ take n xs ++ x ∷ []
  take-suc n [] h = ground arith
  take-suc zero (y ∷ xs) h = ground arith
  take-suc (suc n) (y ∷ xs) h = ap (◌∷◌ y) (take-suc n xs h)

  pub take-nil : (n : ℕ) → ◌≡◌ {A = List A} (take n []) []
  take-nil zero = refl
  take-nil (suc n) = refl

  pub drop-nil : (n : ℕ) → ◌≡◌ {A = List A} (drop n []) []
  drop-nil zero = refl
  drop-nil (suc n) = refl

  pub drop-cons_get :
      (i : ℕ) (xs : List A) {x : A} → get_elem? xs i ≡ some x → drop i xs ≡ x ∷ drop (suc i) xs
  drop-cons_get i [] h = ground arith
  drop-cons_get zero (y ∷ xs) h = ground arith
  drop-cons_get (suc i) (y ∷ xs) h = drop-cons_get i xs h

  pub drop-nil_get : (i : ℕ) (xs : List A) → get_elem? xs i ≡ none → drop i xs ≡ []
  drop-nil_get i [] h = drop-nil i
  drop-nil_get zero (y ∷ xs) h = ground arith
  drop-nil_get (suc i) (y ∷ xs) h = drop-nil_get i xs h

  pub get_elem?_lt : (i : ℕ) (xs : List A) → i < length xs → (x : A) × (get_elem? xs i ≡ some x)
  get_elem?_lt i [] h = absurd (omega arith)
  get_elem?_lt zero (y ∷ xs) h = (y, refl)
  get_elem?_lt (suc i) (y ∷ xs) h = get_elem?_lt i xs (omega arith)

  pub get_elem?_ge : (i : ℕ) (xs : List A) → length xs ≤ i → get_elem? xs i ≡ none
  get_elem?_ge i [] h = refl
  get_elem?_ge zero (y ∷ xs) h = absurd (omega arith)
  get_elem?_ge (suc i) (y ∷ xs) h = get_elem?_ge i xs (omega arith)

  pub drop-append_le :
      (n : ℕ) (xs ys : List A) → n ≤ length xs → drop n (xs ++ ys) ≡ drop n xs ++ ys
  drop-append_le zero xs ys h = refl
  drop-append_le (suc n) [] ys h = absurd (omega arith)
  drop-append_le (suc n) (x ∷ xs) ys h = drop-append_le n xs ys (omega arith)

  pub length-take_le : (n : ℕ) (xs : List A) → n ≤ length xs → length (take n xs) ≡ n
  length-take_le zero xs h = refl
  length-take_le (suc n) [] h = absurd (omega arith)
  length-take_le (suc n) (x ∷ xs) h = ap suc (length-take_le n xs (omega arith))

  pub drop-take_ge : (n m : ℕ) (xs : List A) → m ≤ n → drop n (take m xs) ≡ []
  drop-take_ge n zero xs h = drop-nil n
  drop-take_ge n (suc m) [] h = drop-nil n
  drop-take_ge zero (suc m) (x ∷ xs) h = absurd (omega arith)
  drop-take_ge (suc n) (suc m) (x ∷ xs) h = drop-take_ge n m xs (omega arith)

  pub length-reverse : (xs : List A) → length (reverse xs) ≡ length xs
  length-reverse [] = refl
  length-reverse (x ∷ xs) =
      rw (reverse-cons x xs) (omega (arith, length-append (reverse xs) (x ∷ []), length-reverse xs))

  pub drop-take_add : (a w : ℕ) (xs : List A) → drop a (take (a + w) xs) ≡ take w (drop a xs)
  drop-take_add zero w xs = ap (λ n. take n xs) (omega arith)
  drop-take_add (suc a) w [] = ap (drop (suc a)) (take-nil (suc a + w)) ∙ sym (take-nil w)
  drop-take_add (suc a) w (x ∷ xs) =
      ap (λ n. drop (suc a) (take n (x ∷ xs))) (suc_add a w) ∙ drop-take_add a w xs

  pub length-drop_le : (n : ℕ) (xs : List A) → length (drop n xs) ≤ length xs
  length-drop_le zero xs = omega arith
  length-drop_le (suc n) [] = omega arith
  length-drop_le (suc n) (x ∷ xs) = omega (arith, length-drop_le n xs)

  pub length-drop : (n : ℕ) (xs : List A) → length (drop n xs) ≡ length xs - n
  length-drop zero xs = omega arith
  length-drop (suc n) [] = omega arith
  length-drop (suc n) (x ∷ xs) = omega (arith, length-drop n xs)

module _ {ℓ} {A : Type ℓ} where
  pub take_fits : (n : ℕ) (xs : List A) → (length (take n xs) == n) ≡ leb n (length xs)
  take_fits zero xs = ground arith
  take_fits (suc n) [] = ground arith
  take_fits (suc n) (x ∷ xs) = ground (arith, take_fits n xs)

module _ {ℓ κ} {A : Type ℓ} (P : A → Type κ) where
  abbrev pub All : List A → Type κ
  All [] = Unit
  All (x ∷ xs) = P x × All xs

module _ {ℓ κ} {A : Type ℓ} (P : A → Type κ) where
  pub All-append : (xs ys : List A) → All P xs → All P ys → All P (xs ++ ys)
  All-append [] ys _ h = h
  All-append (x ∷ xs) ys (p, ps) h = (p, All-append xs ys ps h)

  pub All-keep_if : (t : A → Bool) (xs : List A) → All P xs → All P (keep_if t xs)
  All-keep_if t [] h = tt
  All-keep_if t (x ∷ xs) (p, ps) = elim (Bool-cases (t x)) [
    | inl e ↦ rw e (p, All-keep_if t xs ps)
    | inr e ↦ rw e (All-keep_if t xs ps)
  ]

  pub All-find : (t : A → Bool) (xs : List A) {y : A} → All P xs → find t xs ≡ some y → P y
  All-find t [] h e = cc
  All-find t (x ∷ xs) {y = x'} (p, ps) e = elim (Bool-cases (t x)) [
    | inl found ↦ (let same : x ≡ x' = ground arith in subst P same p)
    | inr missed ↦ All-find t xs ps (ground arith)
  ]

module _ {ℓ} {A : Type ℓ} where
  pub drop-cons :
      (i : ℕ) (xs : List A) {x : A} {rest : List A}
      → drop i xs ≡ x ∷ rest
      → (get_elem? xs i ≡ some x) × (drop (suc i) xs ≡ rest)
  drop-cons zero [] h = cc
  drop-cons zero (y ∷ xs) h = (ground arith, ground arith)
  drop-cons (suc i) [] h = cc
  drop-cons (suc i) (y ∷ xs) h = drop-cons i xs h

  pub drop-add : (a b : ℕ) (xs : List A) → drop (a + b) xs ≡ drop b (drop a xs)
  drop-add zero b xs = ap (λ n. drop n xs) (omega arith)
  drop-add (suc a) b [] = drop-nil (suc a + b) ∙ sym (drop-nil b)
  drop-add (suc a) b (x ∷ xs) = ap (λ n. drop n (x ∷ xs)) (suc_add a b) ∙ drop-add a b xs

  pub take-append_ge :
      (n : ℕ) (xs ys : List A) → length xs ≤ n → take n (xs ++ ys) ≡ xs ++ take (n - length xs) ys
  take-append_ge n [] ys h = ap (λ m. take m ys) (omega arith)
  take-append_ge zero (x ∷ xs) ys h = absurd (omega arith)
  take-append_ge (suc n) (x ∷ xs) ys h =
      ap (◌∷◌ x) (take-append_ge n xs ys (omega arith) ∙ ap (λ m. xs ++ take m ys) (omega arith))

  pub drop-append_ge :
      (n : ℕ) (xs ys : List A) → length xs ≤ n → drop n (xs ++ ys) ≡ drop (n - length xs) ys
  drop-append_ge n [] ys h = ap (λ m. drop m ys) (omega arith)
  drop-append_ge zero (x ∷ xs) ys h = absurd (omega arith)
  drop-append_ge (suc n) (x ∷ xs) ys h =
      drop-append_ge n xs ys (omega arith) ∙ ap (λ m. drop m ys) (omega arith)

  pub slice-suc :
      (m b : ℕ) (xs : List A) {x : A}
      → m ≤ b
      → b ≤ length xs
      → get_elem? xs b ≡ some x
      → drop m (take (suc b) xs) ≡ drop m (take b xs) ++ x ∷ []
  slice-suc m b xs {x} h k g =
      ap (drop m) (take-suc b xs g)
      ∙ drop-append_le m (take b xs) (x ∷ []) (rw (length-take_le b xs k) h)
