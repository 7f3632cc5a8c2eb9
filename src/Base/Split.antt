-- ===== src/Base/Split.antt =====
-- `slice::split` on a separator, and the loops over positions that the implementations use for it.
use Prim.Native.Nat.{ℕ, zero, suc, ◌<◌}
use mathlib.Core.Bool.{true, false}
use mathlib.Core.List.{List, [], ◌∷◌, ◌++◌}
use mathlib.Core.Logic.{inl, inr}
use mathlib.Core.Option.{none, some}
use mathlib.Core.Path.{◌≡◌, refl, ap, sym, ◌∙◌}
use native.Mathlib.Omega.{arith}
use package.polyform_polyguard.Base.Tests.{◌==◌, if◌then◌else◌, Bool-cases}
use package.polyform_polyguard.Base.Lists.{length, take, drop, any, position}
use package.polyform_polyguard.Base.Text.{Bytes}

-- A byte before the first part.
abbrev pub extend : ℕ → List Bytes → List Bytes
extend c [] = (c ∷ []) ∷ []
extend c (p ∷ ps) = (c ∷ p) ∷ ps

module _ (sep : ℕ) where
  unfoldable pub split : Bytes → List Bytes
  split [] = [] ∷ []
  split (c ∷ s) = if c == sep then [] ∷ split s else extend c (split s)

  pub split-none : (s : Bytes) → position (λ c. c == sep) s ≡ none → split s ≡ s ∷ []
  unfolding split
  split-none [] h = refl
  split-none (c ∷ s) h = ground (arith, split-none s)

  pub split-some :
      (s : Bytes) (i : ℕ)
      → position (λ c. c == sep) s ≡ some i
      → split s ≡ take i s ∷ split (drop (suc i) s)
  unfolding split
  split-some [] i h = ground arith
  split-some (c ∷ s) zero h = ground arith
  split-some (c ∷ s) (suc i) h = ground (arith, split-some s i)

  pub position-lt : (s : Bytes) (i : ℕ) → position (λ c. c == sep) s ≡ some i → i < length s
  position-lt [] i h = ground arith
  position-lt (c ∷ s) zero h = omega arith
  position-lt (c ∷ s) (suc i) h = ground (arith, position-lt s i)

  pub any-position : (s : Bytes) → any (λ c. c == sep) s ≡ false → position (λ c. c == sep) s ≡ none
  any-position [] h = refl
  any-position (c ∷ s) h = ground (arith, any-position s)

  pub split-cons : (s : Bytes) → (a : Bytes) × (rest : List Bytes) × (split s ≡ a ∷ rest)
  unfolding split
  split-cons [] = ([], [], refl)
  split-cons (c ∷ s) =
      let (a, rest, e) = split-cons s in
      elim (Bool-cases (c == sep)) [
        | inl h ↦ ([], split s, rw h)
        | inr h ↦ (c ∷ a, rest, rw (h, e))
      ]

  pub position-any :
      (s : Bytes) → any (λ c. c == sep) s ≡ true → (i : ℕ) × (position (λ c. c == sep) s ≡ some i)
  position-any [] h = cc
  position-any (c ∷ s) h = elim (Bool-cases (c == sep)) [
    | inl e ↦ (0, rw e)
    | inr e ↦ let (i, g) = position-any s (ground arith) in (suc i, rw (e, g))
  ]

  pub split-any :
      (s : Bytes)
      → any (λ c. c == sep) s ≡ true
      → (a : Bytes) × (b : Bytes) × (rest : List Bytes) × (split s ≡ a ∷ b ∷ rest)
  split-any s h =
      let (i, e) = position-any s h in
      let (b, rest, g) = split-cons (drop (suc i) s) in
      (take i s, b, rest, split-some s i e ∙ ap (◌∷◌ (take i s)) g)

  -- The parts with the separator between them
  abbrev pub joined : List Bytes → Bytes
  joined [] = []
  joined (p ∷ []) = p
  joined (p ∷ q ∷ ps) = p ++ sep ∷ joined (q ∷ ps)

  joined-extend :
      (c : ℕ) (p : Bytes) (ps : List Bytes) → joined ((c ∷ p) ∷ ps) ≡ c ∷ joined (p ∷ ps)
  joined-extend c p [] = refl
  joined-extend c p (q ∷ ps) = refl

  pub joined-split : (s : Bytes) → joined (split s) ≡ s
  unfolding split
  joined-split [] = refl
  joined-split (c ∷ s) =
      let (p, ps, e) = split-cons s in
      let rest : joined (p ∷ ps) ≡ s = ap joined (sym e) ∙ joined-split s in
      elim (Bool-cases (c == sep)) [
        | inl h ↦
            let same : sep ≡ c = ground arith in
            rw (h, e) (ap (◌∷◌ sep) rest ∙ ap (λ d. d ∷ s) same)
        | inr h ↦ rw (h, e) (joined-extend c p ps ∙ ap (◌∷◌ c) rest)
      ]

  -- The bytes before the first separator
  pub first_part :
      (s : Bytes)
      → any (λ c. c == sep) s ≡ true
      → (m : Bytes) × (rest : Bytes) × (any (λ c. c == sep) m ≡ false) × (s ≡ m ++ sep ∷ rest)
  first_part [] h = cc
  first_part (c ∷ s) h = elim (Bool-cases (c == sep)) [
    | inl e ↦ ([], s, refl, (let same : c ≡ sep = ground arith in ap (λ d. d ∷ s) same))
    | inr e ↦
        let (m, rest, clear, eq) = first_part s (ground arith) in
        (c ∷ m, rest, ground arith, ap (◌∷◌ c) eq)
  ]

  pub split-append :
      (m s : Bytes) → any (λ c. c == sep) m ≡ false → split (m ++ sep ∷ s) ≡ m ∷ split s
  unfolding split
  split-append [] s h = ground arith
  split-append (c ∷ m) s h = ground (arith, split-append m s)
