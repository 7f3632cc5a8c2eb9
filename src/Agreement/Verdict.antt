-- ===== src/Agreement/Verdict.antt =====
-- What a call answers, described from the list of the answers that count.
use polyform_polyguard.Base.{
  ℕ, zero, suc, ◌+◌, ◌-◌, ◌<◌, not, none, some, List, [], ◌∷◌, ◌≡◌, sym, ap, ◌∙◌, inl, inr, arith,
  Bytes, ◌==◌, if◌then◌else◌, Bool-cases, Option-cases, any, length, take, Result, err, is_ok,
}
use polyform_polyguard.Agreement.{
  Fault, disagreement, internal, Candidate, Agreement, ResultEq, is_quarantined, candidates,
  primary_of, CallTelemetry, trace_call, telemetry_call_outcome, to_fault, conclude, run_loop, run,
}
use polyform_polyguard.Types.{PolyguardResult}

module _ {T : Type 0} where
  -- The answers of the implementations that are not quarantined and have the function.
  unfoldable pub answers : Agreement → List (Candidate T) → List (PolyguardResult T)
  answers agreement [] = []
  answers agreement (c ∷ cs) =
      let rest = answers agreement cs in
      if is_quarantined agreement c.id
      then rest
      else elim c.answer [ none ↦ rest | some outcome ↦ outcome ∷ rest ]

  abbrev pub in_order : Agreement → Bytes → List (Candidate T) → List (PolyguardResult T)
  in_order agreement function registry =
      answers agreement (candidates (primary_of function agreement.primary) registry)

module _ {T : Type 0} ⦃e : ResultEq T⦄ where
  -- The verdict on the first answer `r` and the later ones, of which `n` are wanted.
  abbrev pub verdict_on : Bytes → PolyguardResult T → ℕ → List (PolyguardResult T) → Result Fault T
  verdict_on function r n rest =
      if any (λ x. not (e.same r x)) rest
      then err (disagreement function)
      else if length rest == n
      then to_fault r
      else err internal

  -- Of at most `width` answers: any that differs from the first is a disagreement, and too few
  -- are an internal fault.
  abbrev pub verdict : ℕ → Bytes → List (PolyguardResult T) → Result Fault T
  verdict width function [] = err internal
  verdict width function (r ∷ rest) = verdict_on function r (width - 1) rest

  run_loop-verdict_on :
      (agreement : Agreement) (function : Bytes) (cs : List (Candidate T)) (r : PolyguardResult T)
      (called k : ℕ) (trace : List CallTelemetry)
      → called + suc k ≡ agreement.width
      → (run_loop agreement function cs (some r) called trace).0
        ≡ verdict_on function r (suc k) (take (suc k) (answers agreement cs))
  unfolding run_loop answers
  run_loop-verdict_on agreement function [] r called k trace h = ground arith
  run_loop-verdict_on agreement function (c ∷ cs) r called zero trace h =
      elim (Bool-cases (is_quarantined agreement c.id)) [
        | inl q ↦ rw q (run_loop-verdict_on agreement function cs r called zero trace h)
        | inr q ↦ elim (Option-cases c.answer) [
          | inl none_here ↦
              rw (q, none_here) (run_loop-verdict_on agreement function cs r called zero trace h)
          | inr (o, here) ↦
              rw (q, here)
                (elim (Bool-cases (e.same r o)) [
                  | inl same ↦ rw same (unfold conclude in ground arith)
                  | inr differs ↦ rw differs
                ])
        ]
      ]
  run_loop-verdict_on agreement function (c ∷ cs) r called (suc k) trace h =
      elim (Bool-cases (is_quarantined agreement c.id)) [
        | inl q ↦ rw q (run_loop-verdict_on agreement function cs r called (suc k) trace h)
        | inr q ↦ elim (Option-cases c.answer) [
          | inl none_here ↦
              rw (q, none_here) (run_loop-verdict_on agreement function cs r called (suc k) trace h)
          | inr (o, here) ↦
              rw (q, here)
                (elim (Bool-cases (e.same r o)) [
                  | inl same ↦
                      let later =
                        run_loop-verdict_on agreement function cs r (suc called) k
                          (trace_call function c.id (telemetry_call_outcome (is_ok o)) trace)
                          (omega arith) in
                      ground (arith, later)
                  | inr differs ↦ rw differs
                ])
        ]
      ]

  run_loop-verdict :
      (agreement : Agreement) (function : Bytes) (cs : List (Candidate T)) (w : ℕ)
      (trace : List CallTelemetry)
      → agreement.width ≡ suc w
      → (run_loop agreement function cs none 0 trace).0
        ≡ verdict (suc w) function (take (suc w) (answers agreement cs))
  unfolding run_loop answers
  run_loop-verdict agreement function [] w trace h = unfold conclude in ground arith
  run_loop-verdict agreement function (c ∷ cs) w trace h =
      elim (Bool-cases (is_quarantined agreement c.id)) [
        | inl q ↦ rw q (run_loop-verdict agreement function cs w trace h)
        | inr q ↦ elim (Option-cases c.answer) [
          | inl none_here ↦ rw (q, none_here) (run_loop-verdict agreement function cs w trace h)
          | inr (o, here) ↦
              rw (q, here)
                (first_answer w o
                  (trace_call function c.id (telemetry_call_outcome (is_ok o)) trace) h)
        ]
      ]
    where
      first_answer :
          (v : ℕ) (o : PolyguardResult T) (trace' : List CallTelemetry)
          → agreement.width ≡ suc v
          → (if suc 0 == agreement.width
              then (conclude agreement (some o) 1, trace')
              else run_loop agreement function cs (some o) 1 trace').0
            ≡ verdict_on function o (suc v - 1) (take v (answers agreement cs))
      first_answer zero o trace' g = unfold conclude in ground arith
      first_answer (suc v) o trace' g =
          ground (arith, run_loop-verdict_on agreement function cs o 1 v trace' (omega (arith, g)))

  -- For a width that is not zero, a call answers what the first answers of the candidates, as
  -- many as the width, decide: a difference from the first of them is a disagreement, fewer of
  -- them are an internal fault, and otherwise the first is the result.
  pub run-verdict :
      (agreement : Agreement) (function : Bytes) (registry : List (Candidate T))
      (trace : List CallTelemetry)
      → 0 < agreement.width
      → (run agreement function registry trace).0
        ≡ verdict agreement.width function
            (take agreement.width (in_order agreement function registry))
  unfolding run
  run-verdict agreement function registry trace h =
      let w = agreement.width - 1 in
      let g : agreement.width ≡ suc w = omega arith in
      run_loop-verdict agreement function
        (candidates (primary_of function agreement.primary) registry) w trace g
      ∙ ap (λ n. verdict n function (take n (in_order agreement function registry))) (sym g)
