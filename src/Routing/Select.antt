-- ===== src/Routing/Select.antt =====
-- The two selections agree.
use polyform_polyguard.Base.{
  ℕ, suc, Bool, true, false, none, some, List, [], ◌∷◌, ◌≡◌, refl, sym, ap, subst, drop, drop-cons,
  ◌∙◌, Bytes, if◌then◌else◌, get_elem?, All, inl, inr, Bool-cases,
}
use polyform_polyguard.Routing.Fold.{next_winner, fold_from, select_route_fold}
use polyform_polyguard.Routing.Order.{
  is_before, replaces-is_before, precedence_antisym, precedence_self, GoesFirst, best, best-All,
  best-step, best-GoesFirst, best_index,
}
use polyform_polyguard.Routing.Sorted.{
  Candidate, candidate, eligible_from, first_index, IsSorted, Sorts, select_route_sorted,
}
use polyform_polyguard.Routing.{RuntimeRoute, runtime_route_eligible}
use polyform_polyguard.Types.{EffectiveAuthority, NormalizedTarget}

module _ (routes : List RuntimeRoute) (authority : EffectiveAuthority) (target : NormalizedTarget)
    (method scheme : Bytes) where
  abbrev pub eligible : RuntimeRoute → Bool
  eligible route = runtime_route_eligible route authority target method scheme

  next_winner_lem :
      (index i : ℕ) (r s : RuntimeRoute) (t : Bool)
      → get_elem? routes i ≡ some r
      → is_before (candidate index s) (candidate i r) ≡ t
      → next_winner routes index s (some i) ≡ (if t then some index else some i)
  unfolding next_winner
  next_winner_lem index i r s t g e =
      rw (g, next_winner)
        (ap (λ b. if b then some index else some i) (replaces-is_before index i s r ∙ e))

  best_index-cons :
      (i : ℕ) (r s : RuntimeRoute) (index : ℕ) (rest : List RuntimeRoute) (t : Bool)
      → is_before (candidate index s) (candidate i r) ≡ t
      → some
          (best
            (if t then candidate index s else candidate i r)
            (eligible_from authority target method scheme (suc index) rest)).index
        ≡ some
            (best (candidate i r) (
              candidate index s
              ∷ eligible_from authority target method scheme (suc index) rest)).index
  best_index-cons i r s index rest t e =
      ap (λ (c : Candidate). some c.index)
        (sym (
          best-step (candidate i r) (candidate index s)
            (eligible_from authority target method scheme (suc index) rest) t e))

  fold_from-best :
      (index : ℕ) (rest : List RuntimeRoute) (i : ℕ) (r : RuntimeRoute)
      → drop index routes ≡ rest
      → get_elem? routes i ≡ some r
      → fold_from routes authority target method scheme index rest (some i)
        ≡ some
            (best (candidate i r) (eligible_from authority target method scheme index rest)).index
  unfolding fold_from eligible_from
  fold_from-best index [] i r d g = unfold best in refl
  fold_from-best index (s ∷ rest) i r d g =
      let (here, next) = drop-cons index routes d in
      elim (Bool-cases (eligible s)) [
        | inr e ↦ rw e (fold_from-best (suc index) rest i r next g)
        | inl e ↦ rw e (elim (Bool-cases (is_before (candidate index s) (candidate i r))) [
          | inl b ↦ rw (next_winner_lem index i r s true g b) (
              fold_from-best (suc index) rest index s next here
              ∙ best_index-cons i r s index rest true b)
          | inr b ↦ rw (next_winner_lem index i r s false g b) (
              fold_from-best (suc index) rest i r next g ∙ best_index-cons i r s index rest false b)
        ])
      ]

  pub fold_from-none :
      (index : ℕ) (rest : List RuntimeRoute)
      → drop index routes ≡ rest
      → fold_from routes authority target method scheme index rest none
        ≡ best_index (eligible_from authority target method scheme index rest)
  unfolding fold_from eligible_from
  fold_from-none index [] d = refl
  fold_from-none index (s ∷ rest) d =
      let (here, next) = drop-cons index routes d in
      elim (Bool-cases (eligible s)) [
        | inr e ↦ rw e (fold_from-none (suc index) rest next)
        | inl e ↦ rw e (unfold next_winner in fold_from-best (suc index) rest index s next here)
      ]

  -- Each route has its place as its declaration order, as `compile_runtime_routes` gives it.
  abbrev pub Numbered : Type 0
  Numbered = (i : ℕ) (r : RuntimeRoute) → get_elem? routes i ≡ some r → r.declaration_order ≡ i

  eligible_from-numbered :
      (index : ℕ) (rest : List RuntimeRoute)
      → Numbered
      → drop index routes ≡ rest
      → All
          (λ c. c.declaration_order ≡ c.index)
          (eligible_from authority target method scheme index rest)
  unfolding eligible_from
  eligible_from-numbered index [] n d = tt
  eligible_from-numbered index (s ∷ rest) n d =
      let (here, next) = drop-cons index routes d in
      let others = eligible_from-numbered (suc index) rest n next in
      elim (Bool-cases (eligible s)) [ inr e ↦ rw e others | inl e ↦ rw e (n index s here, others) ]

first-best :
    (sort : List Candidate → List Candidate)
    → Sorts sort
    → (cs : List Candidate) → All (λ c. c.declaration_order ≡ c.index) cs
    → first_index (sort cs) ≡ best_index cs
first-best sort s cs n = by_sorted (sort cs) refl cs refl
  where
    by_sorted :
        (out : List Candidate)
        → sort cs ≡ out
        → (given : List Candidate) → cs ≡ given
        → first_index (sort cs) ≡ best_index cs
    by_sorted [] o [] g = rw (o, g)
    by_sorted [] o (c ∷ rest) g =
        absurd (subst (All (λ _. ⊥)) g (s.all_kept (λ _. ⊥) cs (rw o tt))).0
    by_sorted (h ∷ out) o [] g =
        absurd (subst (All (λ _. ⊥)) o (s.none_added (λ _. ⊥) cs (rw g tt))).0
    by_sorted (h ∷ out) o (c ∷ rest) g =
        let b = best c rest in
        let (b_first, b_rest) = best-GoesFirst c rest in
        let over_out : All (GoesFirst b) (h ∷ out) =
          subst (All (GoesFirst b)) o (s.none_added (GoesFirst b) cs (rw g (b_first, b_rest))) in
        let in_order : IsSorted (h ∷ out) = subst IsSorted o (s.sorted cs) in
        let over_cs : All (GoesFirst h) (c ∷ rest) =
          subst (All (GoesFirst h)) g
            (s.all_kept (GoesFirst h) cs (rw o (precedence_self h, in_order.0))) in
        let h_over : GoesFirst h b = best-All (GoesFirst h) c rest over_cs.0 over_cs.1 in
        let numbered : All (λ d. d.declaration_order ≡ d.index) (c ∷ rest) =
          subst (All (λ d. d.declaration_order ≡ d.index)) g n in
        let b_number : b.declaration_order ≡ b.index =
          best-All (λ d. d.declaration_order ≡ d.index) c rest numbered.0 numbered.1 in
        let h_number : h.declaration_order ≡ h.index =
          (subst (All (λ d. d.declaration_order ≡ d.index)) o
            (s.none_added (λ d. d.declaration_order ≡ d.index) cs n)).0 in
        let same = precedence_antisym h b h_over over_out.0 in
        rw (o, g) (ap some (sym h_number ∙ same ∙ b_number))

-- For every sorting that gives a sorted list of the same elements, and routes whose declaration
-- orders are their places, both ways select the same route.
pub select_route_agree :
    (sort : List Candidate → List Candidate) (routes : List RuntimeRoute)
    (authority : EffectiveAuthority) (target : NormalizedTarget) (method scheme : Bytes)
    → Sorts sort
    → Numbered routes authority target method scheme
    → select_route_fold routes authority target method scheme
      ≡ select_route_sorted sort routes authority target method scheme
unfolding select_route_fold select_route_sorted
select_route_agree sort routes authority target method scheme s n =
    fold_from-none routes authority target method scheme 0 routes refl
    ∙ sym (
        first-best sort s _
          (eligible_from-numbered routes authority target method scheme 0 routes n refl))
