-- ===== src/Routing/Sorted.antt =====
-- `select_route_sorted` of src/proxy.rs. The sorting is the standard library's
-- `sort_unstable_by`, a parameter that is asked for a sorted list of the same elements.
use Prim.Native.Nat.{compare, Ordering}
use polyform_polyguard.Base.{
  ℕ, suc, Bool, true, false, Option, none, some, List, [], ◌∷◌, ◌≢◌, Bytes, if◌then◌else◌, length,
  All,
}
use polyform_polyguard.Routing.Fold.{is_exact}
use polyform_polyguard.Routing.{RuntimeRoute, runtime_host_specificity, runtime_route_eligible}
use polyform_polyguard.Types.{EffectiveAuthority, NormalizedTarget}

-- The tuple that is sorted.
pub record Candidate : Type 0 where
  pub index : ℕ
  pub host_kind : ℕ
  pub host_length : ℕ
  pub exact : Bool
  pub path_length : ℕ
  pub declaration_order : ℕ

abbrev pub candidate : ℕ → RuntimeRoute → Candidate
candidate index route = record {
  index = index;
  host_kind = (runtime_host_specificity route.host).0;
  host_length = (runtime_host_specificity route.host).1;
  exact = is_exact route.match_kind;
  path_length = length route.path;
  declaration_order = route.declaration_order;
}

-- `Ordering::then_with`
abbrev pub then_with : Ordering → Ordering → Ordering
then_with Ordering.eq second = second
then_with first _ = first

abbrev pub compare_bool : Bool → Bool → Ordering
compare_bool false true = Ordering.lt
compare_bool true false = Ordering.gt
compare_bool _ _ = Ordering.eq

-- The comparison of two candidates: the more specific host, the exact match, the longer path and
-- the earlier declaration go first.
unfoldable pub precedence : Candidate → Candidate → Ordering
precedence left right =
    then_with
      (then_with (compare right.host_kind left.host_kind)
        (compare right.host_length left.host_length))
      (then_with (compare_bool right.exact left.exact) (
        then_with (compare right.path_length left.path_length)
          (compare left.declaration_order right.declaration_order)))

unfoldable pub eligible_from :
    EffectiveAuthority → NormalizedTarget → Bytes → Bytes → ℕ → List RuntimeRoute → List Candidate
eligible_from authority target method scheme index [] = []
eligible_from authority target method scheme index (route ∷ rest) =
    let others = eligible_from authority target method scheme (suc index) rest in
    if runtime_route_eligible route authority target method scheme
    then candidate index route ∷ others
    else others

abbrev pub first_index : List Candidate → Option ℕ
first_index [] = none
first_index (c ∷ cs) = some c.index

abbrev pub IsSorted : List Candidate → Type 0
IsSorted [] = Unit
IsSorted (c ∷ cs) = All (λ d. precedence c d ≢ Ordering.gt) cs × IsSorted cs

-- What `sort_unstable_by` promises: the elements that it was given, in order.
pub record Sorts (sort : List Candidate → List Candidate) : Type 1 where
  pub sorted : (cs : List Candidate) → IsSorted (sort cs)
  pub all_kept : (P : Candidate → Type 0) (cs : List Candidate) → All P (sort cs) → All P cs
  pub none_added : (P : Candidate → Type 0) (cs : List Candidate) → All P cs → All P (sort cs)

unfoldable pub select_route_sorted :
    (List Candidate → List Candidate)
    → List RuntimeRoute
    → EffectiveAuthority
    → NormalizedTarget
    → Bytes
    → Bytes
    → Option ℕ
unfolding eligible_from
select_route_sorted sort routes authority target method scheme =
    first_index (sort (eligible_from authority target method scheme 0 routes))
