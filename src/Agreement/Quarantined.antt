-- ===== src/Agreement/Quarantined.antt =====
-- How much of the table of src/lib.rs a composition of src/proxy.rs may quarantine.
use mathlib.Core.List.{map}
use polyform_polyguard.Agreement.Asked.{has_answer, may_be_asked}
use polyform_polyguard.Agreement.Counts.{count, count-split, count-move, distinct, count-names}
use polyform_polyguard.Agreement.Registry.{
  ContractFunction, Implementation, implements, provided, registered_implementations, candidates_of,
  five_implementations,
}
use polyform_polyguard.Agreement.Soundness.{Gives, run_agreed}
use polyform_polyguard.Agreement.Verdict.{answers, in_order}
use polyform_polyguard.Agreement.{
  Candidate, Agreement, ResultEq, is_quarantined, candidates, found_first, primary_of,
  CallTelemetry, to_fault, run,
}
use polyform_polyguard.Base.{
  suc, ◌+◌, ◌≤◌, ◌<◌, Bool, true, false, not, Option, none, some, List, [], ◌∷◌, ◌≡◌, refl, ap, ◌∙◌,
  arith, inl, inr, Bytes, All, Bool-cases, Option-cases, any, find, keep_if, length, equal,
  equal_iff,
}
use polyform_polyguard.Types.{PolyguardResult}

module _ {T : Type 0} where
  abbrev pub ids : List (Candidate T) → List Bytes
  ids = map (λ c. c.id)

  keep_if-absent :
      (p : Bytes) (cs : List (Candidate T))
      → any (λ y. equal y p) (ids cs) ≡ false
      → keep_if (λ c. not (equal c.id p)) cs ≡ cs
  keep_if-absent p [] h = refl
  keep_if-absent p (c ∷ cs) h =
      let n : equal c.id p ≡ false = ground arith in
      rw n (ap (◌∷◌ c) (keep_if-absent p cs (ground arith)))

  -- Moving the primary to the front neither drops nor repeats a candidate.
  count-candidates :
      (r : Candidate T → Bool) (p : Option Bytes) (registry : List (Candidate T))
      → distinct (ids registry) ≡ true
      → count r (candidates p registry) ≡ count r registry
  unfolding candidates
  count-candidates r none registry h = refl
  count-candidates r (some p) [] h = refl
  count-candidates r (some p) (c ∷ cs) h = elim (Bool-cases (equal c.id p)) [
    | inl y ↦
        let same : c.id ≡ p = (equal_iff c.id p).0 y in
        let absent : any (λ x. equal x p) (ids cs) ≡ false = rw (← same) (ground arith) in
        rw (y, keep_if-absent p cs absent) refl
    | inr n ↦
        let here = find (λ x. equal x.id p) cs in
        let others = keep_if (λ x. not (equal x.id p)) cs in
        rw n (
          count-move r (found_first here) c others cs
            (count-candidates r (some p) cs (ground arith)))
  ]

  length-answers :
      (agreement : Agreement) (cs : List (Candidate T))
      → length (answers agreement cs) ≡ count (may_be_asked agreement) cs
  unfolding answers
  length-answers agreement [] = refl
  length-answers agreement (c ∷ cs) = elim (Bool-cases (is_quarantined agreement c.id)) [
    | inl q ↦ rw q (length-answers agreement cs)
    | inr q ↦ elim (Option-cases c.answer) [
      | inl absent ↦ rw (q, absent) (length-answers agreement cs)
      | inr (o, here) ↦ rw (q, here) (ap suc (length-answers agreement cs))
    ]
  ]

-- The ids of the table are all different.
ids_distinct : distinct (map (λ i. i.id) registered_implementations) ≡ true
unfolding registered_implementations equal
ids_distinct = refl

module _ {T : Type 0} (f : ContractFunction) (answer : Bytes → PolyguardResult T) where
  ids-candidates_of :
      (is : List Implementation) → ids (candidates_of f answer is) ≡ map (λ i. i.id) is
  unfolding candidates_of
  ids-candidates_of [] = refl
  ids-candidates_of (i ∷ is) = ap (◌∷◌ i.id) (ids-candidates_of is)

  count-candidates_of :
      (is : List Implementation)
      → count (λ c. has_answer c.answer) (candidates_of f answer is) ≡ count (implements f) is
  unfolding candidates_of
  count-candidates_of [] = refl
  count-candidates_of (i ∷ is) = elim (Option-cases (provided f i)) [
    | inl absent ↦ rw absent (count-candidates_of is)
    | inr (path, there) ↦ rw there (ap suc (count-candidates_of is))
  ]

  -- Of the five candidates for the function, a composition keeps all but those it quarantines.
  count-in_order :
      (agreement : Agreement) (function : Bytes)
      → 5
        ≤ length (in_order agreement function (candidates_of f answer registered_implementations))
          + length agreement.quarantined
  unfolding is_quarantined
  count-in_order agreement function =
      let registry = candidates_of f answer registered_implementations in
      let names = ids-candidates_of registered_implementations in
      let apart : distinct (ids registry) ≡ true = ap distinct names ∙ ids_distinct in
      let may =
        length-answers agreement (candidates (primary_of function agreement.primary) registry) in
      let moved =
        count-candidates (may_be_asked agreement) (primary_of function agreement.primary) registry
          apart in
      let split =
        count-split (λ c. has_answer c.answer) (λ c. is_quarantined agreement c.id) registry in
      let few = count-names (λ c. c.id) agreement.quarantined registry apart in
      let five = count-candidates_of registered_implementations ∙ five_implementations f in
      omega arith

module _ {T : Type 0} ⦃e : ResultEq T⦄ (f : ContractFunction)
    (answer : Bytes → PolyguardResult T) where
  -- Where the functions registered for a function of the contract all give `r`, a call of it over
  -- the whole table gives `r`, whatever primary the composition has, as long as its width is not
  -- zero and its width and the number of ids that it quarantines are five at most.
  pub run-quarantined :
      (agreement : Agreement) (function : Bytes) (trace : List CallTelemetry)
      (r : PolyguardResult T)
      → 0 < agreement.width
      → agreement.width + length agreement.quarantined ≤ 5
      → All (Gives r) (candidates_of f answer registered_implementations)
      → (run agreement function (candidates_of f answer registered_implementations) trace).0
        ≡ to_fault r
  run-quarantined agreement function trace r w fits h =
      run_agreed agreement function _ trace r w h
      ∙ ground (arith, count-in_order f answer agreement function)
