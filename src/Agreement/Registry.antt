-- ===== src/Agreement/Registry.antt =====
-- `registered_implementations` of src/lib.rs: the table of the implementations, and the calls over
-- it.
mod Entry
mod Messages
mod Policies
pub use Entry.*
use Messages.*
use Policies.*
use mathlib.Core.Option
use polyform_polyguard.Base.{
  ℕ, Bool, Option, none, some, List, [], ◌∷◌, ◌++◌, ◌≡◌, refl, arith, Bytes, keep_if, length, All,
}
use polyform_polyguard.Agreement.Soundness.{Gives}
use polyform_polyguard.Agreement.{Candidate, Agreement, ResultEq}
use polyform_polyguard.Types.{PolyguardResult}

unfoldable pub registered_implementations : List Implementation
registered_implementations =
    request_line_implementations ++ header_section_implementations ++ body_framing_implementations
    ++ chunk_metadata_implementations ++ trailer_section_implementations
    ++ request_target_implementations ++ authority_implementations ++ hop_by_hop_implementations
    ++ canonical_head_implementations ++ route_implementations ++ forwarding_implementations
    ++ upgrade_implementations ++ telemetry_implementations

-- `|implementation| implementation.f.map(|function| function(..))`: the implementations as the
-- candidates of a call, where `answer` is what the function at a path gives at its arguments.
module _ {T : Type 0} (f : ContractFunction) (answer : Bytes → PolyguardResult T) where
  unfoldable pub candidates_of : List Implementation → List (Candidate T)
  candidates_of [] = []
  candidates_of (i ∷ is) =
      record { id = i.id; answer = Option.map answer (provided f i) } ∷ candidates_of is

-- Every function of the contract has five registered implementations.
pub five_implementations :
    (f : ContractFunction) → length (keep_if (implements f) registered_implementations) ≡ 5
unfolding registered_implementations
five_implementations parse_request_line = refl
five_implementations _ = refl

module _ {T : Type 0} ⦃e : ResultEq T⦄ (f : ContractFunction)
    (answer : Bytes → PolyguardResult T) where
  pub candidates_of-Gives :
      (r : PolyguardResult T)
      → ((path : Bytes) → answer path ≡ r)
      → (is : List Implementation) → All (Gives r) (candidates_of f answer is)
  unfolding candidates_of
  candidates_of-Gives r h [] = tt
  candidates_of-Gives r h (i ∷ is) = (this (provided f i), candidates_of-Gives r h is)
    where
      this : (p : Option Bytes) (o : PolyguardResult T) → Option.map answer p ≡ some o → o ≡ r
      this none o g = cc
      this (some path) o g = ground (arith, h path)
