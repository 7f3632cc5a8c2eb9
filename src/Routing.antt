-- ===== src/Routing.antt =====
-- The choice of a route in src/proxy.rs: a request's host, path, method and scheme select one of
-- the configured routes, in two ways that must agree (`select_route_fold`, `select_route_sorted`).
pub mod Fold
pub mod Sorted
pub mod Order
pub mod Select
pub mod Winner
use polyform_polyguard.Base.{
  ℕ, suc, ◌+◌, ◌-◌, strip_prefix, starts_with, ends_with, Bool, true, false, not, ◌&&◌, ◌||◌,
  Option, none, some, List, [], ◌∷◌, Bytes, codes, ltb, ◌==◌, if◌then◌else◌, length, get_elem?,
  drop, any, is_empty, equal, eq_ignore_ascii_case,
}
use polyform_polyguard.Types.{EffectiveAuthority, NormalizedTarget}

pub data RouteMatchKind : Type 0 where
  exact prefix boundary_prefix : RouteMatchKind

-- The part of a route that the selection reads.
pub record RuntimeRoute : Type 0 where
  pub id : Bytes
  pub host : Bytes
  pub path : Bytes
  pub match_kind : RouteMatchKind
  pub methods : List Bytes
  pub schemes : List Bytes
  pub declaration_order : ℕ

unfoldable pub runtime_host_matches : Bytes → Bytes → Bool
unfolding strip_prefix
runtime_host_matches pattern host =
    if equal pattern (codes "*") then true else elim (strip_prefix pattern (codes "*.")) [
      | some suffix ↦
          ltb (length suffix) (length host)
          && ends_with host suffix
          && elim (get_elem? host (length host - length suffix - 1)) [
            | some c ↦ c == b'.'
            | none ↦ false
          ]
      | none ↦ eq_ignore_ascii_case pattern host
    ]

unfoldable pub runtime_host_specificity : Bytes → ℕ × ℕ
unfolding strip_prefix
runtime_host_specificity pattern =
    if equal pattern (codes "*") then (0, 0) else elim (strip_prefix pattern (codes "*.")) [
      | some suffix ↦ (1, length suffix)
      | none ↦ (2, length pattern)
    ]

path_matches : RouteMatchKind → Bytes → Bytes → Bool
unfolding strip_prefix
path_matches exact route_path path = equal path route_path
path_matches prefix route_path path = starts_with path route_path
path_matches boundary_prefix route_path path =
    equal route_path (codes "/") || equal path route_path || elim (strip_prefix path route_path) [
      | some remainder ↦ starts_with remainder (codes "/")
      | none ↦ false
    ]

unfoldable pub runtime_path_matches : RuntimeRoute → Bytes → Bool
unfolding path_matches
runtime_path_matches route path = path_matches route.match_kind route.path path

unfoldable pub runtime_route_eligible :
    RuntimeRoute → EffectiveAuthority → NormalizedTarget → Bytes → Bytes → Bool
unfolding runtime_host_matches runtime_path_matches
runtime_route_eligible route authority target method scheme =
    runtime_host_matches route.host authority.host
    && runtime_path_matches route target.routing_path
    && (is_empty route.methods || any (λ item. equal item method) route.methods)
    && (is_empty route.schemes || any (λ item. equal item scheme) route.schemes)
