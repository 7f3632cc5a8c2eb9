-- ===== src/Base/Trim.antt =====
-- Trimming the bytes that pass a test off both ends, by recursion, and the ways in which the
-- implementations write it: by the positions of what stays, by counts, and by moving indices.
use Prim.Native.Nat.{ℕ, zero, suc, ◌+◌, ◌-◌, ◌≤◌}
use mathlib.Core.Bool.{Bool, true, false, not, ◌&&◌}
use mathlib.Core.List.{[], ◌∷◌, ◌++◌, reverse, reverse-reverse, reverse-cons}
use mathlib.Core.Logic.{inl, inr}
use mathlib.Core.Option.{none, some}
use mathlib.Core.Path.{◌≡◌, refl, ap, sym, ◌∙◌, subst}
use native.Mathlib.Omega.{arith}
use package.polyform_polyguard.Base.Tests.{ltb, if◌then◌else◌, Bool-cases, Option-cases}
use package.polyform_polyguard.Base.Lists.{
  length, take, drop, get_elem?, position, rposition, length-append, take-length, take-append_le,
  take-suc, drop-nil, drop-cons_get, drop-nil_get, get_elem?_lt, get_elem?_ge, drop-append_le,
  length-take_le, drop-take_add, length-drop_le, drop-take_ge, length-reverse,
}
use package.polyform_polyguard.Base.Text.{Bytes, is_empty}
use package.polyform_polyguard.Base.Slices.{slice, map_or, unwrap_or}

module _ (p : ℕ → Bool) where
  unfoldable pub trim_start : Bytes → Bytes
  trim_start [] = []
  trim_start (c ∷ s) = if p c then trim_start s else c ∷ s

  end_cons : ℕ → Bytes → Bytes
  end_cons c [] = if p c then [] else c ∷ []
  end_cons c (d ∷ r) = c ∷ d ∷ r

  unfoldable pub trim_end : Bytes → Bytes
  unfolding end_cons
  trim_end [] = []
  trim_end (c ∷ s) = end_cons c (trim_end s)

  unfoldable pub trim : Bytes → Bytes
  unfolding trim_start trim_end
  trim s = trim_end (trim_start s)

  end_cons-if : (c : ℕ) (r : Bytes) → end_cons c r ≡ (if p c && is_empty r then [] else c ∷ r)
  unfolding end_cons
  end_cons-if c [] = ground arith
  end_cons-if c (d ∷ r) = ground arith

  pub trim_end-cons :
      (c : ℕ) (s : Bytes)
      → trim_end (c ∷ s) ≡ (if p c && is_empty (trim_end s) then [] else c ∷ trim_end s)
  trim_end-cons c s = unfold trim_end in end_cons-if c (trim_end s)

  -- How many bytes at the front pass the test.
  abbrev pub count_leading : Bytes → ℕ
  count_leading [] = 0
  count_leading (c ∷ s) = if p c then suc (count_leading s) else 0

  -- By position
  take-rposition : (s : Bytes) → take (map_or (rposition (λ c. not (p c)) s) 0 suc) s ≡ trim_end s
  unfolding trim_end
  take-rposition [] = refl
  take-rposition (c ∷ []) = ground arith
  take-rposition (c ∷ d ∷ s) = ground (arith, take-rposition (d ∷ s))

  first_kept : Bytes → ℕ
  first_kept s = unwrap_or (position (λ c. not (p c)) s) (length s)

  first_kept-cons :
      (c : ℕ) (s : Bytes) → first_kept (c ∷ s) ≡ (if p c then suc (first_kept s) else 0)
  unfolding first_kept
  first_kept-cons c s = ground arith

  drop-first_kept : (s : Bytes) → drop (first_kept s) s ≡ trim_start s
  unfolding trim_start
  drop-first_kept [] = unfold first_kept in refl
  drop-first_kept (c ∷ s) = rw (first_kept-cons c s) (ground (arith, drop-first_kept s))

  first_kept-eq-count : (s : Bytes) → first_kept s ≡ count_leading s
  first_kept-eq-count [] = unfold first_kept in refl
  first_kept-eq-count (c ∷ s) = rw (first_kept-cons c s) (ground (arith, first_kept-eq-count s))

  abbrev last_kept : Bytes → ℕ → ℕ
  last_kept s d = map_or (rposition (λ c. not (p c)) s) d suc

  trim-cons : (c : ℕ) (s : Bytes) → trim (c ∷ s) ≡ (if p c then trim s else trim_end (c ∷ s))
  unfolding trim
  trim-cons c s = ground arith

  -- What stays stands between the first and the last byte that fail the test.
  pub slice-positions :
      (s : Bytes)
      → slice s (unwrap_or (position (λ c. not (p c)) s) (length s)) (
          map_or
            (rposition (λ c. not (p c)) s)
            (unwrap_or (position (λ c. not (p c)) s) (length s))
            suc)
        ≡ trim s
  unfolding trim
  slice-positions [] = refl
  slice-positions (c ∷ s) = ground (arith, slice-positions s, take-rposition (c ∷ s), trim-cons c s)

  -- Whether a byte fails the test, searched from either end
  pub rposition-position :
      (s : Bytes)
      → map_or (rposition (λ c. not (p c)) s) true (λ _. false)
        ≡ map_or (position (λ c. not (p c)) s) true (λ _. false)
  rposition-position [] = refl
  rposition-position (c ∷ s) = ground (arith, rposition-position s)

  pub is_empty-trim :
      (s : Bytes) → is_empty (trim s) ≡ map_or (position (λ c. not (p c)) s) true (λ _. false)
  unfolding trim
  is_empty-trim [] = refl
  is_empty-trim (c ∷ s) = ground (arith, is_empty-trim s, trim-cons c s)

  pub drop-count_leading : (s : Bytes) → drop (count_leading s) s ≡ trim_start s
  unfolding trim_start
  drop-count_leading [] = refl
  drop-count_leading (c ∷ s) = ground (arith, drop-count_leading s)

  -- By moving indices
  abbrev pub skip : Bytes → ℕ → ℕ → ℕ
  skip s zero first = first
  skip s (suc fuel) first = elim (get_elem? s first) [
    | none ↦ first
    | some c ↦ if p c then skip s fuel (suc first) else first
  ]

  end_cons-snoc : (d : ℕ) (s : Bytes) (c : ℕ) → end_cons d (s ++ c ∷ []) ≡ d ∷ (s ++ c ∷ [])
  unfolding end_cons
  end_cons-snoc d [] c = refl
  end_cons-snoc d (x ∷ s) c = refl

  trim_end-snoc :
      (s : Bytes) (c : ℕ) → trim_end (s ++ c ∷ []) ≡ (if p c then trim_end s else s ++ c ∷ [])
  unfolding trim_end
  trim_end-snoc [] c = ground arith
  trim_end-snoc (d ∷ s) c = ground (arith, trim_end-snoc s c, end_cons-snoc d s c)

  -- `while first < len && test(bytes[first]) { first += 1 }`
  pub drop-skip :
      (s : Bytes) (fuel first : ℕ)
      → length s ≤ first + fuel
      → drop (skip s fuel first) s ≡ trim_start (drop first s)
  unfolding trim_start
  drop-skip s zero first h = rw (drop-nil_get first s (get_elem?_ge first s (omega arith)))
  drop-skip s (suc fuel) first h = elim (Option-cases (get_elem? s first)) [
    | inl e ↦ ground (arith, drop-nil_get first s e)
    | inr (c, e) ↦
        ground (arith, drop-cons_get first s e, drop-skip s fuel (suc first) (omega arith))
  ]

  -- `while end > first && test(bytes[end - 1]) { end -= 1 }`
  abbrev pub shrink : Bytes → ℕ → ℕ → ℕ
  shrink s first zero = zero
  shrink s first (suc e) =
      let rest = shrink s first e in
      if ltb first (suc e) && map_or (get_elem? s e) false p then rest else suc e

  drop-shrink :
      (s : Bytes) (first e : ℕ)
      → e ≤ length s
      → drop first (take (shrink s first e) s) ≡ trim_end (drop first (take e s))
  drop-shrink s first zero h = unfold trim_end in rw (drop-nil {A = ℕ} first)
  drop-shrink s first (suc e) h =
      let (c, g) = get_elem?_lt e s (omega arith) in
      elim (Bool-cases (ltb first (suc e))) [
        | inl inside ↦
            let snoc =
              drop-append_le first (take e s) (c ∷ [])
                (rw (length-take_le e s (omega arith)) (ground arith)) in
            rw (g, inside, take-suc e s g)
              (ground (
                arith,
                snoc,
                take-suc e s g,
                trim_end-snoc (drop first (take e s)) c,
                drop-shrink s first e (omega arith),
              ))
        | inr outside ↦
            rw (g, outside, drop-take_ge first (suc e) s (ground arith)) (unfold trim_end in refl)
      ]

  -- By counts from both ends
  take-count_leading :
      (s : Bytes) → take (length s - count_leading s) (reverse s) ≡ trim_end (reverse s)
  take-count_leading [] = unfold trim_end in refl
  take-count_leading (c ∷ s) =
      rw (reverse-cons c s, trim_end-snoc (reverse s) c)
        (elim (Bool-cases (p c)) [
          | inl e ↦ rw e (
              take-append_le _ (reverse s) (c ∷ []) (rw (length-reverse s) (omega arith))
              ∙ ap (λ n. take n (reverse s)) (omega arith)
              ∙ take-count_leading s)
          | inr e ↦ rw e (
              ap (λ n. take n (reverse s ++ c ∷ []))
                (omega (arith, length-append (reverse s) (c ∷ []), length-reverse s))
              ∙ take-length (reverse s ++ c ∷ []))
        ])

  pub count_leading-le : (s : Bytes) → count_leading s ≤ length s
  count_leading-le [] = omega arith
  count_leading-le (c ∷ s) = ground (arith, count_leading-le s)

  tail_count-le : (n : ℕ) (s : Bytes) → count_leading (reverse (drop n s)) ≤ length s
  tail_count-le n s =
      omega (
        arith,
        count_leading-le (reverse (drop n s)),
        length-reverse (drop n s),
        length-drop_le n s,
      )

  take-tail_count : (s : Bytes) → take (length s - count_leading (reverse s)) s ≡ trim_end s
  take-tail_count s =
      subst (λ t. take (length s - count_leading (reverse s)) t ≡ trim_end t) (reverse-reverse s)
        (ap (λ n. take (n - count_leading (reverse s)) (reverse (reverse s)))
            (sym (length-reverse s))
          ∙ take-count_leading (reverse s))

  abbrev count_slice : Bytes → ℕ → Bytes
  count_slice s n = slice s n (length s - count_leading (reverse (drop n s)))

  count_slice-suc : (c n : ℕ) (s : Bytes) → count_slice (c ∷ s) (suc n) ≡ count_slice s n
  count_slice-suc c n s =
      let k = count_leading (reverse (drop n s)) in
      let e : suc (length s) - k ≡ suc (length s - k) = omega (arith, tail_count-le n s) in
      ap (λ m. drop (suc n) (take m (c ∷ s))) e

  pub slice-counts : (s : Bytes) → count_slice s (count_leading s) ≡ trim s
  slice-counts [] = unfold trim in refl
  slice-counts (c ∷ s) = elim (Bool-cases (p c)) [
    | inl e ↦ rw (trim-cons c s, e) (count_slice-suc c (count_leading s) s ∙ slice-counts s)
    | inr e ↦ rw (trim-cons c s, e) (take-tail_count (c ∷ s))
  ]

  pub slice-moved :
      (s : Bytes)
      → slice s (skip s (length s) 0) (shrink s (skip s (length s) 0) (length s)) ≡ trim s
  unfolding trim
  slice-moved s =
      drop-shrink s (skip s (length s) 0) (length s) (omega arith)
      ∙ ap (λ t. trim_end (drop (skip s (length s) 0) t)) (take-length s)
      ∙ ap trim_end (drop-skip s (length s) 0 (omega arith))

  pub slice-width :
      (s : Bytes)
      → (let first = unwrap_or (position (λ c. not (p c)) s) (length s) in
          slice s first (first + map_or (rposition (λ c. not (p c)) (drop first s)) 0 suc))
        ≡ trim s
  unfolding trim first_kept
  slice-width s =
      drop-take_add (first_kept s) _ s
      ∙ take-rposition (drop (first_kept s) s)
      ∙ ap trim_end (drop-first_kept s)
