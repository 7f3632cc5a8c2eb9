-- ===== src/Agreement/Soundness.antt =====
-- What an agreement protects: implementations that agree are never reported to disagree.
use polyform_polyguard.Base.{
  ℕ, zero, suc, ◌<◌, false, not, Option, none, some, List, [], ◌∷◌, ◌≡◌, refl, sym, ap, subst, ◌∙◌,
  inl, inr, arith, Bytes, ◌==◌, leb, if◌then◌else◌, equal, Bool-cases, Option-cases, any, find,
  length, take, take_fits, ok, err, All, All-append, All-find, All-keep_if,
}
use polyform_polyguard.Agreement.Verdict.{answers, in_order, verdict, run-verdict}
use polyform_polyguard.Agreement.{
  internal, Candidate, Agreement, ResultEq, is_quarantined, candidates, found_first, primary_of,
  CallTelemetry, to_fault, run,
}
use polyform_polyguard.Types.{PolyguardResult}

module _ {T : Type 0} ⦃e : ResultEq T⦄ where
  pub to_fault-eq-ok : (r : PolyguardResult T) {t : T} → to_fault r ≡ ok t → r ≡ ok t
  to_fault-eq-ok (ok t) h = cc
  to_fault-eq-ok (err x) h = cc

  All-any :
      (r : PolyguardResult T) (xs : List (PolyguardResult T))
      → All (λ x. x ≡ r) xs
      → any (λ x. not (e.same r x)) xs ≡ false
  All-any r [] h = refl
  All-any r (x ∷ xs) (p, ps) = ground (arith, All-any r xs ps, e.same_iff r x)

  verdict-All :
      (width : ℕ) (function : Bytes) (r : PolyguardResult T) (xs : List (PolyguardResult T))
      → 0 < width
      → All (λ x. x ≡ r) xs
      → verdict width function xs ≡ (if length xs == width then to_fault r else err internal)
  verdict-All width function r [] w h = ground arith
  verdict-All width function r (x ∷ xs) w (p, ps) =
      let same : All (λ y. y ≡ x) xs = subst (λ z. All (λ y. y ≡ z) xs) (sym p) ps in
      rw (All-any x xs same, p) (ground arith)

  take-All :
      (r : PolyguardResult T) (n : ℕ) (xs : List (PolyguardResult T))
      → All (λ x. x ≡ r) xs
      → All (λ x. x ≡ r) (take n xs)
  take-All r zero xs h = tt
  take-All r (suc n) [] h = tt
  take-All r (suc n) (x ∷ xs) (p, ps) = (p, take-All r n xs ps)

  -- What every candidate answers, where it answers.
  abbrev pub Gives : PolyguardResult T → Candidate T → Type 0
  Gives r c = (o : PolyguardResult T) → c.answer ≡ some o → o ≡ r

  candidates-All :
      (r : PolyguardResult T) (primary : Option Bytes) (registry : List (Candidate T))
      → All (Gives r) registry
      → All (Gives r) (candidates primary registry)
  unfolding candidates
  candidates-All r none registry h = h
  candidates-All r (some p) registry h =
      All-append (Gives r) (found_first (find (λ c. equal c.id p) registry)) _
        (first (find (λ c. equal c.id p) registry) refl) (All-keep_if (Gives r) _ registry h)
    where
      first :
          (o : Option (Candidate T))
          → find (λ c. equal c.id p) registry ≡ o
          → All (Gives r) (found_first o)
      first none g = tt
      first (some c) g = (All-find (Gives r) _ registry h g, tt)

  answers-All :
      (agreement : Agreement) (r : PolyguardResult T) (cs : List (Candidate T))
      → All (Gives r) cs
      → All (λ x. x ≡ r) (answers agreement cs)
  unfolding answers
  answers-All agreement r [] h = tt
  answers-All agreement r (c ∷ cs) (p, ps) = elim (Bool-cases (is_quarantined agreement c.id)) [
    | inl q ↦ rw q (answers-All agreement r cs ps)
    | inr q ↦ elim (Option-cases c.answer) [
      | inl absent ↦ rw (q, absent) (answers-All agreement r cs ps)
      | inr (o, here) ↦ rw (q, here) (p o here, answers-All agreement r cs ps)
    ]
  ]

  -- Where all registered implementations that have the function give one result `r`, a call never
  -- reports a disagreement, whatever the primary and the quarantine: it gives `r` if as many as
  -- the width are not quarantined, and an internal fault if they are fewer.
  pub run_agreed :
      (agreement : Agreement) (function : Bytes) (registry : List (Candidate T))
      (trace : List CallTelemetry) (r : PolyguardResult T)
      → 0 < agreement.width
      → All (Gives r) registry
      → (run agreement function registry trace).0 ≡ (
          if leb agreement.width (length (in_order agreement function registry))
          then to_fault r
          else err internal)
  run_agreed agreement function registry trace r w h =
      let all_same =
        answers-All agreement r _
          (candidates-All r (primary_of function agreement.primary) registry h) in
      run-verdict agreement function registry trace w
      ∙ verdict-All agreement.width function r _ w (take-All r agreement.width _ all_same)
      ∙ ap (λ b. if b then to_fault r else err internal)
          (take_fits agreement.width (in_order agreement function registry))
