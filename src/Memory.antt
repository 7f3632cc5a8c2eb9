-- ===== src/Memory.antt =====
-- `MemoryBudget` and `MemoryPermit` of src/proxy.rs: the bytes that all buffered bodies share.
-- `used` and `limit` are atomics that several threads touch, so the calls are also given as the
-- steps that may interleave (Memory/Steps).
pub mod Steps
pub mod Invariant
pub mod Calls
use polyform_polyguard.Agreement.{Fault, busy, internal}
use polyform_polyguard.Base.{
  ℕ, ◌+◌, ◌-◌, ◌%◌, ◌^◌, Option, none, some, ltb, ◌==◌, not, if◌then◌else◌, Result, ok, err, ◌>>=◌,
  ◌>>◌, refuse_if, ok_or, checked_add,
}

-- The `id` stands for the address that `Arc::ptr_eq` compares.
pub record MemoryBudget : Type 0 where
  pub id : ℕ
  pub used : ℕ
  pub limit : ℕ

pub record MemoryPermit : Type 0 where
  pub budget : ℕ
  pub bytes : ℕ

-- `AtomicUsize::fetch_sub` wraps.
abbrev pub wrapping_sub : ℕ → ℕ → ℕ
wrapping_sub a b = (a + 2 ^ 64 - b) % 2 ^ 64

-- The body of the loop of `reserve` up to the exchange: what it would store.
unfoldable pub next_used : ℕ → ℕ → ℕ → Result Fault ℕ
next_used limit current bytes = do
  next ← ok_or (checked_add current bytes) busy
  refuse_if (ltb limit next) busy
  ok next

abbrev pub permit_of : MemoryBudget → ℕ → MemoryPermit
permit_of b n = record { budget = b.id; bytes = n }

-- `reserve` where no other thread interferes: the first exchange succeeds.
unfoldable pub reserve : MemoryBudget → ℕ → Result Fault (MemoryBudget × MemoryPermit)
unfolding next_used
reserve b bytes = do
  next ← next_used b.limit b.used bytes
  ok (record b { used = next }, permit_of b bytes)

-- `Drop`, as this budget sees it.
unfoldable pub release : MemoryBudget → MemoryPermit → MemoryBudget
release b p = if p.budget == b.id then record b { used = wrapping_sub b.used p.bytes } else b

-- What a method that consumes a second permit leaves: the budget, the permit and the result.
pub record Merged : Type 0 where
  pub budget : MemoryBudget
  pub permit : MemoryPermit
  pub result : Result Fault (Unit {0})

-- The second permit keeps its bytes on an error and gives them back when it is dropped; else its
-- bytes are set to zero first.
pub take_over : MemoryBudget → MemoryPermit → MemoryPermit → ℕ → Merged
unfolding release
take_over b self other bytes = elim (checked_add self.bytes bytes) [
  | none ↦ record { budget = release b other; permit = self; result = err busy }
  | some sum ↦ record {
    budget = release b (record other { bytes = 0 });
    permit = record self { bytes = sum };
    result = ok tt;
  }
]

-- `grow` behind its call of `reserve`, which gave `additional`.
pub finish_grow : MemoryBudget → MemoryPermit → MemoryPermit → ℕ → Merged
unfolding take_over
finish_grow b self additional bytes = take_over b self additional bytes

unfoldable pub grow : MemoryBudget → MemoryPermit → ℕ → Merged
unfolding reserve finish_grow
grow b self bytes = elim (reserve b bytes) [
  | err fault ↦ record { budget = b; permit = self; result = err fault }
  | ok (b', additional) ↦ finish_grow b' self additional bytes
]

unfoldable pub absorb : MemoryBudget → MemoryPermit → MemoryPermit → Merged
unfolding take_over release
absorb b self other =
    if not (self.budget == other.budget)
    then record { budget = release b other; permit = self; result = err internal }
    else take_over b self other other.bytes
