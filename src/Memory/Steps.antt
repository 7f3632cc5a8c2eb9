-- ===== src/Memory/Steps.antt =====
-- The calls on a memory budget as steps that interleave: each thread that reserves loads `used`,
-- checks the limit and exchanges in steps of its own, and the others may step between.
use polyform_polyguard.Agreement.{Fault}
use polyform_polyguard.Base.{ℕ, ◌≤◌, Option, none, some, List, [], ◌∷◌, ◌++◌, ◌≡◌, ok, err}
use polyform_polyguard.Memory.{
  MemoryBudget, MemoryPermit, permit_of, next_used, release, finish_grow, absorb,
}

-- A thread in the loop of `reserve`: what it last saw, and what it would store once the limit has
-- let it pass.
pub record Reserving : Type 0 where
  pub bytes : ℕ
  pub current : ℕ
  pub next : Option ℕ

pub record System : Type 0 where
  pub budget : MemoryBudget
  pub live : List MemoryPermit
  pub waiting : List Reserving

-- A budget that `new` makes.
abbrev pub fresh : ℕ → ℕ → System
fresh id limit = record {
  budget = record { id = id; used = 0; limit = limit };
  live = [];
  waiting = [];
}

-- One step, for limits that never exceed `top`. A relaxed load may see any value that was there,
-- so `enter` takes any; an exchange may fail for no reason, so `retry` asks nothing.
pub data Step (top : ℕ) (s t : System) : Type 0 where
  enter :
      (bytes current : ℕ)
      → t ≡ record s {
        waiting = record { bytes = bytes; current = current; next = none } ∷ s.waiting;
      }
      → Step top s t
  pass :
      (before after : List Reserving) (r : Reserving) (n : ℕ)
      → s.waiting ≡ before ++ r ∷ after
      → next_used s.budget.limit r.current r.bytes ≡ ok n
      → t ≡ record s { waiting = record r { next = some n } ∷ before ++ after }
      → Step top s t
  refuse :
      (before after : List Reserving) (r : Reserving) (fault : Fault)
      → s.waiting ≡ before ++ r ∷ after
      → next_used s.budget.limit r.current r.bytes ≡ err fault
      → t ≡ record s { waiting = before ++ after }
      → Step top s t
  exchange :
      (before after : List Reserving) (r : Reserving) (n : ℕ)
      → s.waiting ≡ before ++ r ∷ after
      → r.next ≡ some n
      → s.budget.used ≡ r.current
      → t ≡ record {
        budget = record { id = s.budget.id; used = n; limit = s.budget.limit };
        live = permit_of s.budget r.bytes ∷ s.live;
        waiting = before ++ after;
      }
      → Step top s t
  retry :
      (before after : List Reserving) (r : Reserving)
      → s.waiting ≡ before ++ r ∷ after
      → t ≡ record s {
        waiting =
            record { bytes = r.bytes; current = s.budget.used; next = none } ∷ before ++ after;
      }
      → Step top s t
  drop_permit :
      (before after : List MemoryPermit) (p : MemoryPermit)
      → s.live ≡ before ++ p ∷ after
      → t ≡ record s { budget = release s.budget p; live = before ++ after }
      → Step top s t
  finish :
      (before after before' after' : List MemoryPermit) (self additional : MemoryPermit)
      → s.live ≡ before ++ self ∷ after
      → before ++ after ≡ before' ++ additional ∷ after'
      → self.budget ≡ s.budget.id
      → additional.budget ≡ s.budget.id
      → t ≡ record s {
        budget = (finish_grow s.budget self additional additional.bytes).budget;
        live = (finish_grow s.budget self additional additional.bytes).permit ∷ before' ++ after';
      }
      → Step top s t
  merge :
      (before after before' after' : List MemoryPermit) (self other : MemoryPermit)
      → s.live ≡ before ++ self ∷ after
      → before ++ after ≡ before' ++ other ∷ after'
      → t ≡ record s {
        budget = (absorb s.budget self other).budget;
        live = (absorb s.budget self other).permit ∷ before' ++ after';
      }
      → Step top s t
  store_limit :
      (limit : ℕ)
      → limit ≤ top
      → t ≡ record s { budget = record { id = s.budget.id; used = s.budget.used; limit = limit } }
      → Step top s t

pub data Reach (top : ℕ) (s : System) : System → Type 0 where
  here : Reach top s s
  later : {t u : System} → Reach top s t → Step top t u → Reach top s u
