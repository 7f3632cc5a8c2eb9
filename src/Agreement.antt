-- ===== src/Agreement.antt =====
-- `Agreement` of src/proxy.rs: a call of a protocol function runs `width` registered
-- implementations and answers only if all of them give the same result. The implementations are
-- those of the registry (src/lib.rs); the composition's primary goes first, the quarantined are
-- passed over.
pub mod Verdict
pub mod Soundness
pub mod Asked
pub mod Registry
pub mod Counts
pub mod Quarantined
pub mod Faults
use polyform_polyguard.Base.{
  ℕ, suc, ◌+◌, Bool, true, false, not, Option, none, some, List, [], ◌∷◌, ◌++◌, ◌≡◌, ◌↔◌, Bytes,
  codes, ◌==◌, if◌then◌else◌, any, find, keep_if, equal, Result, ok, err, is_ok, map_or, unwrap_or,
}
use polyform_polyguard.Types.{PolyguardError, PolyguardResult}

pub data Fault : Type 0 where
  protocol : PolyguardError → Fault
  disagreement : (function : Bytes) → Fault
  timeout upstream_timeout too_large expectation_failed busy forbidden : Fault
  client_closed client_io upstream internal : Fault

-- A registered implementation, by its id and what it answers to the call at hand: `none` where
-- it does not implement the function.
pub record Candidate (T : Type 0) : Type 0 where
  pub id : Bytes
  pub answer : Option (PolyguardResult T)

pub record Agreement : Type 0 where
  pub width : ℕ
  pub quarantined : List Bytes
  pub primary : List (Bytes × Bytes)

-- `T: Eq`, for the results that are compared
pub record ResultEq (T : Type 0) : Type 0 where
  pub same : PolyguardResult T → PolyguardResult T → Bool
  pub same_iff : (a b : PolyguardResult T) → (same a b ≡ true) ↔ (a ≡ b)

-- the composition's implementation of a function
unfoldable pub primary_of : Bytes → List (Bytes × Bytes) → Option Bytes
primary_of function [] = none
primary_of function ((f, id) ∷ rest) =
    if equal f function then some id else primary_of function rest

pub is_quarantined : Agreement → Bytes → Bool
is_quarantined agreement id = any (λ q. equal q id) agreement.quarantined

module _ {T : Type 0} where
  -- `if let Some(primary) = registry.iter().find(..) { candidates.push(primary) }`
  abbrev pub found_first : Option (Candidate T) → List (Candidate T)
  found_first none = []
  found_first (some c) = c ∷ []

  -- The primary, where it is registered, and then the others in the registry's order.
  pub candidates : Option Bytes → List (Candidate T) → List (Candidate T)
  candidates none registry = registry
  candidates (some primary_id) registry =
      found_first (find (λ c. equal c.id primary_id) registry)
      ++ keep_if (λ c. not (equal c.id primary_id)) registry

-- `CallTelemetry`: the function, the implementation and how the call went.
pub record CallTelemetry : Type 0 where
  pub spec_function : Bytes
  pub implementation_id : Bytes
  pub outcome : Bytes

abbrev pub telemetry_call_outcome : Bool → Bytes
telemetry_call_outcome success = if success then codes "ok" else codes "error"

-- What `trace_call` appends.
abbrev pub trace_call : Bytes → Bytes → Bytes → List CallTelemetry → List CallTelemetry
trace_call function id how trace =
    trace ++ record { spec_function = function; implementation_id = id; outcome = how } ∷ []

pub mark_trace_disagreement : Bytes → List CallTelemetry → List CallTelemetry
mark_trace_disagreement function [] = []
mark_trace_disagreement function (call ∷ calls) =
    (if equal call.spec_function function then record call { outcome = codes "error" } else call)
    ∷ mark_trace_disagreement function calls

module _ {T : Type 0} where
  -- `reference.map_err(Fault::Protocol)`
  abbrev pub to_fault : PolyguardResult T → Result Fault T
  to_fault (ok t) = ok t
  to_fault (err e) = err (protocol e)

  -- What stands behind the loop. For width zero and no call the source panics at its `expect`;
  -- the model has an internal fault there, and the theorems ask for a width that is not zero.
  pub conclude : Agreement → Option (PolyguardResult T) → ℕ → Result Fault T
  conclude agreement reference called =
      if not (called == agreement.width)
      then err internal
      else map_or reference (err internal) to_fault

module _ {T : Type 0} ⦃e : ResultEq T⦄ where
  abbrev pub disagrees : Option (PolyguardResult T) → PolyguardResult T → Bool
  disagrees none outcome = false
  disagrees (some expected) outcome = not (e.same expected outcome)

  -- The loop over the candidates; the last three arguments are `reference`, `called` and the
  -- trace.
  pub run_loop :
      Agreement
      → Bytes
      → List (Candidate T)
      → Option (PolyguardResult T)
      → ℕ
      → List CallTelemetry
      → Result Fault T × List CallTelemetry
  unfolding conclude is_quarantined mark_trace_disagreement
  run_loop agreement function [] reference called trace =
      (conclude agreement reference called, trace)
  run_loop agreement function (c ∷ cs) reference called trace =
      let skip = run_loop agreement function cs reference called trace in
      if is_quarantined agreement c.id then skip else elim c.answer [
        | none ↦ skip
        | some outcome ↦
            let trace' = trace_call function c.id (telemetry_call_outcome (is_ok outcome)) trace in
            let reference' = some (unwrap_or reference outcome) in
            let more = run_loop agreement function cs reference' (suc called) trace' in
            if disagrees reference outcome
            then (err (disagreement function), mark_trace_disagreement function trace')
            else if suc called == agreement.width
            then (conclude agreement reference' (suc called), trace')
            else more
      ]

  unfoldable pub run :
      Agreement
      → Bytes
      → List (Candidate T)
      → List CallTelemetry
      → Result Fault T × List CallTelemetry
  unfolding run_loop candidates primary_of
  run agreement function registry =
      run_loop agreement function (candidates (primary_of function agreement.primary) registry) none
        0
