-- ===== src/Routing/Fold.antt =====
-- `select_route_fold` of src/proxy.rs, and the order on candidates by which it is described.
use polyform_polyguard.Base.{
  ℕ, suc, Bool, true, false, not, ◌&&◌, ◌||◌, Option, none, some, List, [], ◌∷◌, Bytes, ltb, ◌==◌,
  if◌then◌else◌, length, get_elem?,
}
use polyform_polyguard.Routing.{
  RouteMatchKind, exact, RuntimeRoute, runtime_host_specificity, runtime_route_eligible,
}
use polyform_polyguard.Types.{EffectiveAuthority, NormalizedTarget}

abbrev pub is_exact : RouteMatchKind → Bool
is_exact exact = true
is_exact _ = false

abbrev same_pair : ℕ × ℕ → ℕ × ℕ → Bool
same_pair a b = a.0 == b.0 && a.1 == b.1

-- the order of Rust's pairs
abbrev pair_lt : ℕ × ℕ → ℕ × ℕ → Bool
pair_lt a b = ltb a.0 b.0 || a.0 == b.0 && ltb a.1 b.1

abbrev same_bit : Bool → Bool → Bool
same_bit true b = b
same_bit false b = not b

-- Whether an eligible route takes the place of the current winner.
unfoldable pub replaces : RuntimeRoute → RuntimeRoute → Bool
replaces route current =
    let route_host_specificity = runtime_host_specificity route.host in
    let current_host_specificity = runtime_host_specificity current.host in
    let route_exact = is_exact route.match_kind in
    let current_exact = is_exact current.match_kind in
    if not (same_pair route_host_specificity current_host_specificity)
    then pair_lt current_host_specificity route_host_specificity
    else if not (same_bit route_exact current_exact)
    then route_exact
    else if not (length route.path == length current.path)
    then ltb (length current.path) (length route.path)
    else ltb route.declaration_order current.declaration_order

-- `winner = match winner { .. }`. An index is always one of a route, where the source would panic.
unfoldable pub next_winner : List RuntimeRoute → ℕ → RuntimeRoute → Option ℕ → Option ℕ
unfolding replaces
next_winner routes index route none = some index
next_winner routes index route (some current_index) = elim (get_elem? routes current_index) [
  | none ↦ none
  | some current ↦ if replaces route current then some index else some current_index
]

-- The loop from `index` on, where `rest` is what is left of the routes.
unfoldable pub fold_from :
    List RuntimeRoute
    → EffectiveAuthority
    → NormalizedTarget
    → Bytes
    → Bytes
    → ℕ
    → List RuntimeRoute
    → Option ℕ
    → Option ℕ
unfolding next_winner
fold_from routes authority target method scheme index [] winner = winner
fold_from routes authority target method scheme index (route ∷ rest) winner =
    fold_from routes authority target method scheme (suc index) rest (
      if not (runtime_route_eligible route authority target method scheme)
      then winner
      else next_winner routes index route winner)

unfoldable pub select_route_fold :
    List RuntimeRoute → EffectiveAuthority → NormalizedTarget → Bytes → Bytes → Option ℕ
unfolding fold_from
select_route_fold routes authority target method scheme =
    fold_from routes authority target method scheme 0 routes none
