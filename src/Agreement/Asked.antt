-- ===== src/Agreement/Asked.antt =====
-- Which implementations `Agreement::run` asks before it gives a result, and what it traces of them.
use mathlib.Core.List.{map}
use polyform_polyguard.Base.{
  ℕ, zero, suc, ◌+◌, ◌-◌, ◌<◌, Bool, true, false, not, ◌&&◌, Option, none, some, List, [], ◌∷◌,
  ◌++◌, ◌≡◌, refl, sym, ap, ◌∙◌, append-nil, append_assoc, inl, inr, arith, Bytes, codes, ◌==◌,
  if◌then◌else◌, Bool-cases, Option-cases, keep_if, subst, length, take, Result, ok, err, is_ok,
  unwrap_or, All,
}
use polyform_polyguard.Agreement.Soundness.{to_fault-eq-ok}
use polyform_polyguard.Agreement.{
  Fault, Candidate, Agreement, ResultEq, is_quarantined, candidates, primary_of, CallTelemetry,
  disagrees, conclude, trace_call, telemetry_call_outcome, disagreement, run_loop, run,
}
use polyform_polyguard.Types.{PolyguardResult}

module _ {T : Type 0} where
  abbrev pub has_answer : Option (PolyguardResult T) → Bool
  has_answer none = false
  has_answer (some _) = true

  -- Whether a candidate may be asked: it is not quarantined and has the function.
  abbrev pub may_be_asked : Agreement → Candidate T → Bool
  may_be_asked agreement c = not (is_quarantined agreement c.id) && has_answer c.answer

  -- The candidates that may be asked, in the order in which they are, up to the width.
  abbrev pub asked_first : Agreement → Bytes → List (Candidate T) → List (Candidate T)
  asked_first agreement function registry = take agreement.width (
      keep_if (may_be_asked agreement)
        (candidates (primary_of function agreement.primary) registry))

  -- What the trace has of a call that succeeded.
  abbrev pub succeeded : Bytes → Candidate T → CallTelemetry
  succeeded function c = record {
    spec_function = function;
    implementation_id = c.id;
    outcome = codes "ok";
  }

  -- `n` candidates each gave `t`, and the trace grew by their calls and no other.
  abbrev pub Unanimous :
      Bytes → T → ℕ → List (Candidate T) → List CallTelemetry → List CallTelemetry → Type 0
  Unanimous function t n asked before after =
      (length asked ≡ n)
      × All (λ c. c.answer ≡ some (ok t)) asked
      × (after ≡ before ++ map (succeeded function) asked)

  abbrev Refers : Option (PolyguardResult T) → T → Type 0
  Refers none t = Unit {0}
  Refers (some r) t = r ≡ ok t

  Unanimous-cons :
      (function : Bytes) (t : T) (n : ℕ) (c : Candidate T) (asked : List (Candidate T))
      (before after : List CallTelemetry)
      → c.answer ≡ some (ok t)
      → Unanimous function t n asked (before ++ succeeded function c ∷ []) after
      → Unanimous function t (suc n) (c ∷ asked) before after
  Unanimous-cons function t n c asked before after p (fits, same, grew) =
      (ap suc fits, (p, same), grew ∙ append_assoc before _ _)

module _ {T : Type 0} ⦃e : ResultEq T⦄ where
  -- The answer that is compared is the reference, where there is one.
  answer-eq-reference :
      (reference : Option (PolyguardResult T)) (o : PolyguardResult T)
      → disagrees reference o ≡ false
      → unwrap_or reference o ≡ o
  answer-eq-reference none o h = refl
  answer-eq-reference (some r) o h = ground (arith, e.same_iff r o)

  Refers-unwrap_or :
      (reference : Option (PolyguardResult T)) (o : PolyguardResult T) (t : T)
      → unwrap_or reference o ≡ ok t
      → Refers reference t
  Refers-unwrap_or none o t h = tt
  Refers-unwrap_or (some r) o t h = h

  -- An outcome that gives `t` had it from the asked candidates and from the reference.
  abbrev GivesOf :
      Bytes
      → T
      → Option (PolyguardResult T)
      → ℕ
      → List (Candidate T)
      → List CallTelemetry
      → Result Fault T × List CallTelemetry
      → Type 0
  GivesOf function t reference n asked trace out =
      out.0 ≡ ok t → Refers reference t × Unanimous function t n asked trace out.1

  -- A candidate that is asked, agrees and leaves `n` to ask.
  GivesOf-asked :
      (function : Bytes) (t : T) (reference : Option (PolyguardResult T)) (n : ℕ) (c : Candidate T)
      (o : PolyguardResult T) (asked : List (Candidate T)) (trace : List CallTelemetry)
      (out : Result Fault T × List CallTelemetry)
      → c.answer ≡ some o
      → disagrees reference o ≡ false
      → GivesOf function t
          (some (unwrap_or reference o))
          n
          asked
          (trace_call function c.id (telemetry_call_outcome (is_ok o)) trace)
          out
      → GivesOf function t reference (suc n) (c ∷ asked) trace out
  GivesOf-asked function t reference n c o asked trace out here agrees more h =
      let (first, calls) = more h in
      let given : o ≡ ok t = sym (answer-eq-reference reference o agrees) ∙ first in
      let traced : Unanimous function t n asked (trace ++ succeeded function c ∷ []) out.1 =
        rw given at calls in
      (
        Refers-unwrap_or reference o t first,
        Unanimous-cons function t n c asked trace out.1 (here ∙ ap some given) traced,
      )

  GivesOf-conclude :
      (agreement : Agreement) (function : Bytes) (t : T) (r : PolyguardResult T)
      (trace : List CallTelemetry) (called : ℕ)
      → GivesOf function t (some r) 0 [] trace (conclude agreement (some r) called, trace)
  unfolding conclude
  GivesOf-conclude agreement function t r trace called h =
      (to_fault-eq-ok r (ground arith), (refl, tt, sym (append-nil trace)))

  -- Behind a call that agrees, the loop ends at the width or goes on.
  GivesOf-next :
      (agreement : Agreement) (function : Bytes) (t : T) (r : PolyguardResult T) (called k : ℕ)
      (cs : List (Candidate T)) (trace : List CallTelemetry)
      (more : Result Fault T × List CallTelemetry)
      → suc called + k ≡ agreement.width
      → ((n : ℕ) → k ≡ suc n → GivesOf function t (some r) (suc n) (take (suc n) cs) trace more)
      → GivesOf function t (some r) k (take k cs) trace (
          if suc called == agreement.width
          then (conclude agreement (some r) (suc called), trace)
          else more)
  GivesOf-next agreement function t r called zero cs trace more w go =
      let done : (suc called == agreement.width) ≡ true = ground arith in
      rw done (GivesOf-conclude agreement function t r trace (suc called))
  GivesOf-next agreement function t r called (suc n) cs trace more w go =
      let on : (suc called == agreement.width) ≡ false = ground arith in rw on (go n refl)

  run_loop-skipped :
      (agreement : Agreement) (function : Bytes) (c : Candidate T) (cs : List (Candidate T))
      (reference : Option (PolyguardResult T)) (called : ℕ) (trace : List CallTelemetry)
      → may_be_asked agreement c ≡ false
      → run_loop agreement function (c ∷ cs) reference called trace
        ≡ run_loop agreement function cs reference called trace
  unfolding run_loop
  run_loop-skipped agreement function c cs reference called trace h =
      elim (Bool-cases (is_quarantined agreement c.id)) [
        | inl q ↦ rw q
        | inr q ↦ elim (Option-cases c.answer) [
          | inl absent ↦ rw (q, absent)
          | inr (o, here) ↦ absurd (ground (arith, here))
        ]
      ]

  run_loop-agreed :
      (agreement : Agreement) (function : Bytes) (c : Candidate T) (cs : List (Candidate T))
      (reference : Option (PolyguardResult T)) (called : ℕ) (trace : List CallTelemetry)
      (o : PolyguardResult T)
      → may_be_asked agreement c ≡ true
      → c.answer ≡ some o
      → disagrees reference o ≡ false
      → (let trace' = trace_call function c.id (telemetry_call_outcome (is_ok o)) trace in
          let r = unwrap_or reference o in
          run_loop agreement function (c ∷ cs) reference called trace ≡ (
            if suc called == agreement.width
            then (conclude agreement (some r) (suc called), trace')
            else run_loop agreement function cs (some r) (suc called) trace'))
  unfolding run_loop
  run_loop-agreed agreement function c cs reference called trace o h here agrees =
      let q : is_quarantined agreement c.id ≡ false = ground arith in rw (q, here, agrees)

  run_loop-differs :
      (agreement : Agreement) (function : Bytes) (c : Candidate T) (cs : List (Candidate T))
      (reference : Option (PolyguardResult T)) (called : ℕ) (trace : List CallTelemetry)
      (o : PolyguardResult T)
      → may_be_asked agreement c ≡ true
      → c.answer ≡ some o
      → disagrees reference o ≡ true
      → (run_loop agreement function (c ∷ cs) reference called trace).0
        ≡ err (disagreement function)
  unfolding run_loop
  run_loop-differs agreement function c cs reference called trace o h here differs =
      let q : is_quarantined agreement c.id ≡ false = ground arith in rw (q, here, differs)

  answer_of :
      (agreement : Agreement) (c : Candidate T)
      → may_be_asked agreement c ≡ true
      → (o : PolyguardResult T) × (c.answer ≡ some o)
  answer_of agreement c h = elim (Option-cases c.answer) [
    | inl absent ↦ absurd (ground (arith, absent))
    | inr found ↦ found
  ]

  run_loop-GivesOf :
      (agreement : Agreement) (function : Bytes) (t : T) (cs : List (Candidate T))
      (reference : Option (PolyguardResult T)) (called k : ℕ) (trace : List CallTelemetry)
      → called + suc k ≡ agreement.width
      → GivesOf function t reference
          (suc k)
          (take (suc k) (keep_if (may_be_asked agreement) cs))
          trace
          (run_loop agreement function cs reference called trace)
  run_loop-GivesOf agreement function t [] reference called k trace w =
      λ h. unfold run_loop conclude in absurd (ground arith)
  run_loop-GivesOf agreement function t (c ∷ cs) reference called k trace w =
      elim (Bool-cases (may_be_asked agreement c)) [
        | inr skips ↦
            rw (skips, run_loop-skipped agreement function c cs reference called trace skips)
              (run_loop-GivesOf agreement function t cs reference called k trace w)
        | inl may ↦
            let (o, here) = answer_of agreement c may in
            rw may (elim (Bool-cases (disagrees reference o)) [
              | inl differs ↦ λ h.
                  let d =
                    run_loop-differs agreement function c cs reference called trace o may here
                      differs in
                  cc
              | inr agrees ↦
                  rw
                    (run_loop-agreed agreement function c cs reference called trace o may here
                      agrees)
                    (GivesOf-asked function t reference k c o _ trace _ here agrees (
                      GivesOf-next agreement function t (unwrap_or reference o) called k _ _ _
                        (omega arith)
                        (λ n d.
                          run_loop-GivesOf agreement function t cs (some (unwrap_or reference o))
                            (suc called) n _ (omega arith))))
            ])
      ]

  -- A call that gives a result `t`, for a width that is not zero, asked as many implementations as
  -- the width: the first of the candidates that are not quarantined and have the function. Each
  -- of them gave `t`, and the trace grew by one successful call of each of them, in their order,
  -- and by nothing else.
  pub run-eq-ok :
      (agreement : Agreement) (function : Bytes) (registry : List (Candidate T))
      (trace : List CallTelemetry) {t : T}
      → 0 < agreement.width
      → (run agreement function registry trace).0 ≡ ok t
      → Unanimous function t agreement.width
          (asked_first agreement function registry)
          trace
          (run agreement function registry trace).1
  unfolding run
  run-eq-ok agreement function registry trace {t} w h =
      let k = agreement.width - 1 in
      let width : suc k ≡ agreement.width = omega arith in
      let outcome =
        run_loop-GivesOf agreement function t
          (candidates (primary_of function agreement.primary) registry) none 0 k trace (omega arith)
          h in
      subst
        (λ n.
          Unanimous function t n
            (take n (
              keep_if (may_be_asked agreement)
                (candidates (primary_of function agreement.primary) registry)))
            trace (run agreement function registry trace).1)
        width outcome.1
