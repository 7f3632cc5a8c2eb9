-- ===== src/Routing/Winner.antt =====
-- The route that is selected is eligible, and no eligible one goes before it.
use Prim.Native.Nat.{zero}
use polyform_polyguard.Base.{
  ℕ, suc, Bool, true, Option, none, some, List, [], ◌∷◌, ◌≡◌, refl, sym, ap, subst, drop, drop-cons,
  ◌+◌, ◌∙◌, arith, Bytes, get_elem?, All, inl, inr, Bool-cases,
}
use polyform_polyguard.Routing.Fold.{select_route_fold}
use polyform_polyguard.Routing.Order.{GoesFirst, best, best-All, best-GoesFirst, best_index}
use polyform_polyguard.Routing.Select.{fold_from-none, eligible}
use polyform_polyguard.Routing.Sorted.{Candidate, candidate, eligible_from}
use polyform_polyguard.Routing.{RuntimeRoute, runtime_route_eligible}
use polyform_polyguard.Types.{EffectiveAuthority, NormalizedTarget}

module _ (routes : List RuntimeRoute) (authority : EffectiveAuthority) (target : NormalizedTarget)
    (method scheme : Bytes) where
  abbrev candidates_from : ℕ → List RuntimeRoute → List Candidate
  candidates_from = eligible_from authority target method scheme

  abbrev is_eligible : RuntimeRoute → Bool
  is_eligible route = runtime_route_eligible route authority target method scheme

  -- A candidate that stands for an eligible route.
  abbrev Stands : Candidate → Type 0
  Stands c =
      (r : RuntimeRoute) × (get_elem? routes c.index ≡ some r)
      × (is_eligible r ≡ true)
      × (c ≡ candidate c.index r)

  eligible_from-Stands :
      (index : ℕ) (rest : List RuntimeRoute)
      → drop index routes ≡ rest
      → All Stands (candidates_from index rest)
  unfolding eligible_from
  eligible_from-Stands index [] d = tt
  eligible_from-Stands index (s ∷ rest) d =
      let (here, next) = drop-cons index routes d in
      let others = eligible_from-Stands (suc index) rest next in
      elim (Bool-cases (is_eligible s)) [
        | inl e ↦ rw e ((s, here, e, refl), others)
        | inr e ↦ rw e others
      ]

  eligible_from-at :
      (P : Candidate → Type 0) (index k : ℕ) (rest : List RuntimeRoute) (s : RuntimeRoute)
      → All P (candidates_from index rest)
      → get_elem? rest k ≡ some s
      → is_eligible s ≡ true
      → P (candidate (index + k) s)
  unfolding eligible_from
  eligible_from-at P index k [] s h g e = cc
  eligible_from-at P index zero (r ∷ rest) s h g e =
      let same : r ≡ s = ground arith in
      let here = rw (ap is_eligible same ∙ e) at h in
      subst (λ n. P (candidate n s)) {x = index} (omega arith)
        (subst (λ q. P (candidate index q)) same here.0)
  eligible_from-at P index (suc k) (r ∷ rest) s h g e = elim (Bool-cases (is_eligible r)) [
    | inl t ↦
        let later = rw t at h in
        subst (λ n. P (candidate n s)) {x = suc index + k} (omega arith)
          (eligible_from-at P (suc index) k rest s later.1 g e)
    | inr t ↦
        let later = rw t at h in
        subst (λ n. P (candidate n s)) {x = suc index + k} (omega arith)
          (eligible_from-at P (suc index) k rest s later g e)
  ]

  -- The route at `i` is eligible, and no eligible route goes before it.
  abbrev pub IsFirst : ℕ → Type 0
  IsFirst i =
      (r : RuntimeRoute) × (get_elem? routes i ≡ some r)
      × (is_eligible r ≡ true)
      × ((j : ℕ) (s : RuntimeRoute)
          → get_elem? routes j ≡ some s
          → is_eligible s ≡ true
          → GoesFirst (candidate i r) (candidate j s))

  abbrev pub Selects : Option ℕ → Type 0
  Selects none = (j : ℕ) (s : RuntimeRoute) → get_elem? routes j ≡ some s → is_eligible s ≡ true → ⊥
  Selects (some i) = IsFirst i

  best_index-Selects :
      (cs : List Candidate)
      → candidates_from 0 routes ≡ cs
      → All Stands cs
      → Selects (best_index cs)
  best_index-Selects [] e h = λ j s g t. eligible_from-at (λ _. ⊥) 0 j routes s (rw e tt) g t
  best_index-Selects (c ∷ cs) e h =
      let (r, here, eligible, same) = best-All Stands c cs h.0 h.1 in
      let first = best-GoesFirst c cs in
      (
        r,
        here,
        eligible,
        λ j s g t.
            subst (λ n. GoesFirst (candidate (best c cs).index r) (candidate n s)) {x = 0 + j}
              (omega arith)
              (eligible_from-at (GoesFirst (candidate (best c cs).index r)) 0 j routes s
                (rw e (subst (λ b. All (GoesFirst b) (c ∷ cs)) same first)) g t),
      )

  -- If a route is selected, it is eligible and no eligible route goes before it: one with a more
  -- specific host, then an exact match, then a longer path, then an earlier declaration. If none
  -- is selected, no route is eligible.
  pub select_route_fold-Selects : Selects (select_route_fold routes authority target method scheme)
  unfolding select_route_fold
  select_route_fold-Selects =
      subst Selects (sym (fold_from-none routes authority target method scheme 0 routes refl))
        (best_index-Selects (candidates_from 0 routes) refl (eligible_from-Stands 0 routes refl))
