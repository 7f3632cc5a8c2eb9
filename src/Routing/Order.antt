-- ===== src/Routing/Order.antt =====
-- The order on candidates, and the fold that keeps the first of them.
use Prim.Native.Nat.{Ordering}
use polyform_polyguard.Base.{
  ℕ, Bool, true, false, Option, none, some, List, [], ◌∷◌, ◌≡◌, ◌≢◌, sym, ap, subst, arith,
  if◌then◌else◌, All, inl, inr, Bool-cases,
}
use polyform_polyguard.Routing.Fold.{replaces}
use polyform_polyguard.Routing.Sorted.{Candidate, candidate, precedence}
use polyform_polyguard.Routing.{RuntimeRoute}

-- Neither goes behind the other only if they were declared at one place.
pub precedence_antisym :
    (a b : Candidate)
    → precedence a b ≢ Ordering.gt
    → precedence b a ≢ Ordering.gt
    → a.declaration_order ≡ b.declaration_order
unfolding precedence
precedence_antisym a b h k = ground arith

pub precedence_trans :
    (a b c : Candidate)
    → precedence a b ≢ Ordering.gt
    → precedence b c ≢ Ordering.gt
    → precedence a c ≢ Ordering.gt
unfolding precedence
precedence_trans a b c h k = ground arith

abbrev pub is_before : Candidate → Candidate → Bool
is_before a b = elim (precedence a b) [ Ordering.lt ↦ true | _ ↦ false ]

pub replaces-is_before :
    (i j : ℕ) (r s : RuntimeRoute) → replaces r s ≡ is_before (candidate i r) (candidate j s)
unfolding replaces precedence
replaces-is_before i j r s = ground arith

abbrev pub GoesFirst : Candidate → Candidate → Type 0
GoesFirst a b = precedence a b ≢ Ordering.gt

pub precedence_self : (a : Candidate) → GoesFirst a a
unfolding precedence
precedence_self a = ground arith

-- The fold on the candidates themselves.
unfoldable pub best : Candidate → List Candidate → Candidate
best b [] = b
best b (c ∷ cs) = best (if is_before c b then c else b) cs

pub best-All :
    (P : Candidate → Type 0) (b : Candidate) (cs : List Candidate) → P b → All P cs → P (best b cs)
unfolding best
best-All P b [] p h = p
best-All P b (c ∷ cs) p (q, h) = elim (Bool-cases (is_before c b)) [
  | inl e ↦ rw e (best-All P c cs q h)
  | inr e ↦ rw e (best-All P b cs p h)
]

before_first : (a b : Candidate) → is_before a b ≡ true → GoesFirst a b
before_first a b h = ground arith

not_before_first : (a b : Candidate) → is_before a b ≡ false → GoesFirst b a
unfolding precedence
not_before_first a b h = ground arith

pub best-step :
    (b c : Candidate) (cs : List Candidate) (t : Bool)
    → is_before c b ≡ t
    → best b (c ∷ cs) ≡ best (if t then c else b) cs
unfolding best
best-step b c cs t e = ap (λ u. best (if u then c else b) cs) e

abbrev First : Candidate → Candidate → List Candidate → Type 0
First a b cs = GoesFirst a b × All (GoesFirst a) cs

pub best-GoesFirst : (b : Candidate) (cs : List Candidate) → First (best b cs) b cs
best-GoesFirst b [] = unfold best in (precedence_self b, tt)
best-GoesFirst b (c ∷ cs) = elim (Bool-cases (is_before c b)) [
  | inl e ↦
      let (first, rest) = best-GoesFirst c cs in
      subst (λ a. First a b (c ∷ cs)) (sym (best-step b c cs true e))
        (precedence_trans (best c cs) c b first (before_first c b e), (first, rest))
  | inr e ↦
      let (first, rest) = best-GoesFirst b cs in
      subst (λ a. First a b (c ∷ cs)) (sym (best-step b c cs false e))
        (first, (precedence_trans (best b cs) b c first (not_before_first c b e), rest))
]

abbrev pub best_index : List Candidate → Option ℕ
best_index [] = none
best_index (c ∷ cs) = some (best c cs).index
