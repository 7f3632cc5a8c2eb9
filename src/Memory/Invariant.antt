-- ===== src/Memory/Invariant.antt =====
-- What holds however the calls on a memory budget interleave.
use polyform_polyguard.Base.{
  ℕ, ◌+◌, ◌-◌, ◌≤◌, some, List, [], ◌∷◌, ◌++◌, ◌≡◌, refl, sym, ap, ◌∙◌, arith, subst, ◌==◌,
  if◌then◌else◌, usize_max, All, ok,
}
use polyform_polyguard.Memory.Steps.{
  Reserving, System, fresh, Step, enter, pass, refuse, exchange, retry, drop_permit, finish, merge,
  store_limit, Reach, here, later,
}
use polyform_polyguard.Memory.{
  MemoryBudget, MemoryPermit, next_used, release, take_over, finish_grow, absorb,
}

-- What a permit holds of the budget `id`.
abbrev pub held : ℕ → MemoryPermit → ℕ
held id p = if p.budget == id then p.bytes else 0

abbrev pub total_held : ℕ → List MemoryPermit → ℕ
total_held id [] = 0
total_held id (p ∷ ps) = held id p + total_held id ps

total_held-middle :
    (id : ℕ) (before after : List MemoryPermit) (p : MemoryPermit)
    → total_held id (before ++ p ∷ after) ≡ held id p + total_held id (before ++ after)
total_held-middle id [] after p = refl
total_held-middle id (q ∷ before) after p = omega (arith, total_held-middle id before after p)

All-middle {ℓ} :
    {A : Type 0} (P : A → Type ℓ) (before after : List A) {x : A}
    → All P (before ++ x ∷ after)
    → P x × All P (before ++ after)
All-middle P [] after h = h
All-middle P (y ∷ before) after (q, h) =
    let (p, rest) = All-middle P before after h in (p, (q, rest))

-- What passed the limit is the sum that it will store, and no more than `top`.
abbrev Checked : ℕ → Reserving → Type 0
Checked top r = (n : ℕ) → r.next ≡ some n → (n ≡ r.current + r.bytes) × (n ≤ top)

pub record Accounted (top : ℕ) (s : System) : Type 0 where
  pub used_is : s.budget.used ≡ total_held s.budget.id s.live
  pub used_fits : s.budget.used ≤ top
  pub limit_fits : s.budget.limit ≤ top
  pub checked : All (Checked top) s.waiting

next_used-sum :
    (limit current bytes : ℕ) {n : ℕ}
    → next_used limit current bytes ≡ ok n
    → (n ≡ current + bytes) × (n ≤ limit)
unfolding next_used
next_used-sum limit current bytes h = ground arith

module _ (top : ℕ) (small : top ≤ usize_max) where
  -- Giving back what a permit holds never wraps.
  release-used :
      (b : MemoryBudget) (p : MemoryPermit)
      → held b.id p ≤ b.used
      → b.used ≤ top
      → (release b p).used ≡ b.used - held b.id p
  unfolding release
  release-used b p h k = ground arith

  release-rest :
      (b : MemoryBudget) (p : MemoryPermit)
      → ((release b p).id ≡ b.id) × ((release b p).limit ≡ b.limit)
  unfolding release
  release-rest b p = ground arith

  -- Taking over another permit of the same budget moves its bytes.
  take_over-used :
      (b : MemoryBudget) (self other : MemoryPermit)
      → self.budget ≡ other.budget
      → held b.id self + held b.id other ≤ b.used
      → b.used ≤ top
      → ((take_over b self other other.bytes).budget.used + held b.id self + held b.id other
          ≡ b.used + held b.id (take_over b self other other.bytes).permit)
        × (held b.id (take_over b self other other.bytes).permit ≤ held b.id self + held b.id other)
  unfolding take_over release
  take_over-used b self other e h k = ground arith

  take_over-rest :
      (b : MemoryBudget) (self other : MemoryPermit) (n : ℕ)
      → ((take_over b self other n).budget.id ≡ b.id)
        × ((take_over b self other n).budget.limit ≡ b.limit)
  unfolding take_over release
  take_over-rest b self other n = ground arith

  absorb-used :
      (b : MemoryBudget) (self other : MemoryPermit)
      → held b.id self + held b.id other ≤ b.used
      → b.used ≤ top
      → ((absorb b self other).budget.used + held b.id self + held b.id other
          ≡ b.used + held b.id (absorb b self other).permit)
        × (held b.id (absorb b self other).permit ≤ held b.id self + held b.id other)
  unfolding absorb
  absorb-used b self other h k = ground (arith, take_over-used b self other, release-used b other)

  absorb-rest :
      (b : MemoryBudget) (self other : MemoryPermit)
      → ((absorb b self other).budget.id ≡ b.id) × ((absorb b self other).budget.limit ≡ b.limit)
  unfolding absorb
  absorb-rest b self other =
      ground (arith, take_over-rest b self other other.bytes, release-rest b other)

  -- Two live permits hold no more than all of them.
  two_held :
      (id : ℕ) (live before after before' after' : List MemoryPermit) (self other : MemoryPermit)
      → live ≡ before ++ self ∷ after
      → before ++ after ≡ before' ++ other ∷ after'
      → total_held id live ≡ held id self + held id other + total_held id (before' ++ after')
  two_held id live before after before' after' self other e f =
      ap (total_held id) e
      ∙ total_held-middle id before after self
      ∙ ap (λ n. held id self + n)
          (ap (total_held id) f ∙ total_held-middle id before' after' other)
      ∙ omega arith

  merged-Accounted :
      (s : System) (live : List MemoryPermit) (b : MemoryBudget) (p self other : MemoryPermit)
      → Accounted top s
      → total_held s.budget.id s.live
        ≡ held s.budget.id self + held s.budget.id other + total_held s.budget.id live
      → (b.id ≡ s.budget.id) × (b.limit ≡ s.budget.limit)
      → (b.used + held s.budget.id self + held s.budget.id other
          ≡ s.budget.used + held s.budget.id p)
        × (held s.budget.id p ≤ held s.budget.id self + held s.budget.id other)
      → Accounted top (record s { budget = b; live = p ∷ live })
  merged-Accounted s live b p self other a e (i, l) (u, v) = record {
    used_is = omega (arith, a.used_is, ap (λ k. total_held k (p ∷ live)) i);
    used_fits = omega (arith, a.used_is, a.used_fits);
    limit_fits = omega (arith, a.limit_fits);
    checked = a.checked;
  }

  Step-Accounted : {s t : System} → Step top s t → Accounted top s → Accounted top t
  Step-Accounted {s} (enter bytes current e) a = rw e (record {
    used_is = a.used_is;
    used_fits = a.used_fits;
    limit_fits = a.limit_fits;
    checked = (λ n h. cc, a.checked);
  })
  Step-Accounted {s} (pass before after r n w e g) a =
      let (_, rest) =
        All-middle (Checked top) before after (subst (All (Checked top)) w a.checked) in
      let sum = next_used-sum s.budget.limit r.current r.bytes e in
      rw g (record {
        used_is = a.used_is;
        used_fits = a.used_fits;
        limit_fits = a.limit_fits;
        checked = (λ m h. ground (arith, sum, a.limit_fits), rest);
      })
  Step-Accounted {s} (refuse before after r fault w e g) a =
      let (_, rest) =
        All-middle (Checked top) before after (subst (All (Checked top)) w a.checked) in
      rw g (record {
        used_is = a.used_is;
        used_fits = a.used_fits;
        limit_fits = a.limit_fits;
        checked = rest;
      })
  Step-Accounted {s} (exchange before after r n w h c g) a =
      let (here_checked, rest) =
        All-middle (Checked top) before after (subst (All (Checked top)) w a.checked) in
      let sum = here_checked n h in
      rw g (record {
        used_is = ground (arith, a.used_is);
        used_fits = sum.1;
        limit_fits = a.limit_fits;
        checked = rest;
      })
  Step-Accounted {s} (retry before after r w g) a =
      let (_, rest) =
        All-middle (Checked top) before after (subst (All (Checked top)) w a.checked) in
      rw g (record {
        used_is = a.used_is;
        used_fits = a.used_fits;
        limit_fits = a.limit_fits;
        checked = (λ n h. cc, rest);
      })
  Step-Accounted {s} (drop_permit before after p l g) a =
      let sum = ap (total_held s.budget.id) l ∙ total_held-middle s.budget.id before after p in
      let used = release-used s.budget p (omega (arith, a.used_is)) a.used_fits in
      let (i, k) = release-rest s.budget p in
      rw g (record {
        used_is = rw i (omega (arith, a.used_is));
        used_fits = omega (arith, a.used_fits);
        limit_fits = omega (arith, a.limit_fits);
        checked = a.checked;
      })
  Step-Accounted {s} (finish before after before' after' self additional l l' i j g) a =
      let sum = two_held s.budget.id s.live before after before' after' self additional l l' in
      rw g (
        unfold finish_grow in
        merged-Accounted s (before' ++ after') _ _ self additional a sum
          (take_over-rest s.budget self additional additional.bytes)
          (take_over-used s.budget self additional (i ∙ sym j) (omega (arith, a.used_is))
            a.used_fits))
  Step-Accounted {s} (merge before after before' after' self other l l' g) a =
      let sum = two_held s.budget.id s.live before after before' after' self other l l' in
      rw g (
        merged-Accounted s (before' ++ after') _ _ self other a sum
          (absorb-rest s.budget self other)
          (absorb-used s.budget self other (omega (arith, a.used_is)) a.used_fits))
  Step-Accounted {s} (store_limit limit h g) a =
      rw g (record {
        used_is = a.used_is;
        used_fits = a.used_fits;
        limit_fits = h;
        checked = a.checked;
      })

  -- From a fresh budget on, for a `top` that is a machine number and that no limit exceeds, and
  -- however the calls interleave: the bytes in use are those that the live permits hold, they and
  -- the limit never exceed `top`, and what passed the limit is the sum of its parts.
  pub Reach-Accounted :
      (id limit : ℕ) {t : System} → limit ≤ top → Reach top (fresh id limit) t → Accounted top t
  Reach-Accounted id limit h here = record {
    used_is = refl;
    used_fits = omega arith;
    limit_fits = h;
    checked = tt;
  }
  Reach-Accounted id limit h (later r st) = Step-Accounted st (Reach-Accounted id limit h r)
