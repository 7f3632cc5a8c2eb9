-- ===== src/Tests/Routing.antt =====
-- A sorting that meets its contract, and the selection theorems on a list of routes.
use Prim.Native.Nat.{Ordering}
use polyform_polyguard.Base.{
  zero, suc, Bool, true, false, some, none, List, [], ◌∷◌, ◌≡◌, refl, arith, inl, inr, codes,
  Bool-cases, equal, eq_ignore_ascii_case, strip_prefix, starts_with, ends_with, if◌then◌else◌, All,
}
use polyform_polyguard.Routing.Fold.{select_route_fold}
use polyform_polyguard.Routing.Order.{GoesFirst, precedence_trans}
use polyform_polyguard.Routing.Select.{Numbered, select_route_agree}
use polyform_polyguard.Routing.Sorted.{Candidate, precedence, IsSorted, Sorts, select_route_sorted}
use polyform_polyguard.Routing.Winner.{Selects, select_route_fold-Selects}
use polyform_polyguard.Routing.{
  prefix, boundary_prefix, RuntimeRoute, runtime_route_eligible, runtime_host_matches,
  runtime_path_matches, runtime_host_specificity,
}
use polyform_polyguard.Types.{EffectiveAuthority, NormalizedTarget, origin}

abbrev not_behind : Candidate → Candidate → Bool
not_behind c d = elim (precedence c d) [ Ordering.gt ↦ false | _ ↦ true ]

insert : Candidate → List Candidate → List Candidate
insert c [] = c ∷ []
insert c (d ∷ ds) = if not_behind c d then c ∷ d ∷ ds else d ∷ insert c ds

insertion_sort : List Candidate → List Candidate
unfolding insert
insertion_sort [] = []
insertion_sort (c ∷ cs) = insert c (insertion_sort cs)

not_behind-GoesFirst : (c d : Candidate) → not_behind c d ≡ true → GoesFirst c d
not_behind-GoesFirst c d h = ground arith

behind-GoesFirst : (c d : Candidate) → not_behind c d ≡ false → GoesFirst d c
unfolding precedence
behind-GoesFirst c d h = ground arith

module _ (P : Candidate → Type 0) where
  insert-All : (c : Candidate) (ds : List Candidate) → P c → All P ds → All P (insert c ds)
  unfolding insert
  insert-All c [] p h = (p, tt)
  insert-All c (d ∷ ds) p (q, h) = elim (Bool-cases (not_behind c d)) [
    | inl e ↦ rw e (p, (q, h))
    | inr e ↦ rw e (q, insert-All c ds p h)
  ]

  All-insert : (c : Candidate) (ds : List Candidate) → All P (insert c ds) → P c × All P ds
  unfolding insert
  All-insert c [] h = h
  All-insert c (d ∷ ds) h = elim (Bool-cases (not_behind c d)) [
    | inl e ↦ rw e at h
    | inr e ↦
        let there = rw e at h in let (p, rest) = All-insert c ds there.1 in (p, (there.0, rest))
  ]

  sort-All : (cs : List Candidate) → All P cs → All P (insertion_sort cs)
  unfolding insertion_sort
  sort-All [] h = tt
  sort-All (c ∷ cs) (p, h) = insert-All c (insertion_sort cs) p (sort-All cs h)

  All-sort : (cs : List Candidate) → All P (insertion_sort cs) → All P cs
  unfolding insertion_sort
  All-sort [] h = tt
  All-sort (c ∷ cs) h = let (p, rest) = All-insert c (insertion_sort cs) h in (p, All-sort cs rest)

GoesFirst-trans_All :
    (c d : Candidate) (ds : List Candidate)
    → GoesFirst c d
    → All (GoesFirst d) ds
    → All (GoesFirst c) ds
GoesFirst-trans_All c d [] h hs = tt
GoesFirst-trans_All c d (x ∷ ds) h (k, hs) =
    (precedence_trans c d x h k, GoesFirst-trans_All c d ds h hs)

insert-IsSorted : (c : Candidate) (ds : List Candidate) → IsSorted ds → IsSorted (insert c ds)
unfolding insert
insert-IsSorted c [] h = (tt, tt)
insert-IsSorted c (d ∷ ds) (over, h) = elim (Bool-cases (not_behind c d)) [
  | inl e ↦
      let first = not_behind-GoesFirst c d e in
      rw e ((first, GoesFirst-trans_All c d ds first over), (over, h))
  | inr e ↦
      rw e (insert-All (GoesFirst d) c ds (behind-GoesFirst c d e) over, insert-IsSorted c ds h)
]

sort-IsSorted : (cs : List Candidate) → IsSorted (insertion_sort cs)
unfolding insertion_sort
sort-IsSorted [] = tt
sort-IsSorted (c ∷ cs) = insert-IsSorted c (insertion_sort cs) (sort-IsSorted cs)

insertion_sort-Sorts : Sorts insertion_sort
insertion_sort-Sorts = record { sorted = sort-IsSorted; all_kept = All-sort; none_added = sort-All }

abbrev any_path : RuntimeRoute
any_path = record {
  id = codes "action-0";
  host = codes "*";
  path = codes "/";
  match_kind = prefix;
  methods = [];
  schemes = [];
  declaration_order = 0;
}

abbrev api : RuntimeRoute
api = record {
  id = codes "action-1";
  host = codes "*.example.org";
  path = codes "/api";
  match_kind = boundary_prefix;
  methods = codes "get" ∷ [];
  schemes = [];
  declaration_order = 1;
}

abbrev routes : List RuntimeRoute
routes = any_path ∷ api ∷ []

abbrev authority : EffectiveAuthority
authority = record { host = codes "www.example.org"; port = none }

abbrev target : NormalizedTarget
target = record {
  form = origin;
  scheme = none;
  authority = none;
  path_and_query = codes "/api/v1?q";
  routing_path = codes "/api/v1";
}

select_run : select_route_fold routes authority target (codes "get") (codes "https") ≡ some 1
unfolding select_route_fold runtime_route_eligible runtime_host_matches runtime_path_matches
    runtime_host_specificity equal ends_with starts_with strip_prefix eq_ignore_ascii_case
select_run = refl

numbered : Numbered routes authority target (codes "get") (codes "https")
numbered zero r h = ground arith
numbered (suc zero) r h = ground arith
numbered (suc (suc i)) r h = cc

select_route_agree_example :
    select_route_fold routes authority target (codes "get") (codes "https")
    ≡ select_route_sorted insertion_sort routes authority target (codes "get") (codes "https")
select_route_agree_example =
    select_route_agree insertion_sort routes authority target (codes "get") (codes "https")
      insertion_sort-Sorts numbered

select_route_fold-Selects_example :
    Selects routes authority target
      (codes "get")
      (codes "https")
      (select_route_fold routes authority target (codes "get") (codes "https"))
select_route_fold-Selects_example =
    select_route_fold-Selects routes authority target (codes "get") (codes "https")
