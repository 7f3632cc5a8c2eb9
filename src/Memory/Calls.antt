-- ===== src/Memory/Calls.antt =====
-- What one call on a memory budget does where no other thread steps between.
use polyform_polyguard.Agreement.{busy, internal}
use polyform_polyguard.Base.{ℕ, ◌+◌, ◌≤◌, ◌≡◌, arith, leb, ◌==◌, if◌then◌else◌, usize_max, ok, err}
use polyform_polyguard.Memory.{
  MemoryBudget, MemoryPermit, permit_of, reserve, release, take_over, finish_grow, grow, absorb,
}

module _ (b : MemoryBudget) (small : b.limit ≤ usize_max) where
  reserve_lem :
      (n : ℕ)
      → reserve b n ≡ (
          if leb (b.used + n) b.limit
          then ok (record b { used = b.used + n }, permit_of b n)
          else err busy)
  unfolding reserve
  reserve_lem n = ground arith

  -- Where the limit is a machine number, dropping what was just reserved restores the budget.
  pub release-reserve :
      (n : ℕ) {b' : MemoryBudget} {p : MemoryPermit} → reserve b n ≡ ok (b', p) → release b' p ≡ b
  unfolding reserve release
  release-reserve n h = ground arith

  -- Where the limit is a machine number, growing a permit of the budget, whose bytes are in use,
  -- adds the bytes to both counts if the limit allows it, and else is refused as busy and changes
  -- nothing.
  pub grow_lem :
      (self : MemoryPermit) (n : ℕ)
      → self.budget ≡ b.id
      → self.bytes ≤ b.used
      → grow b self n ≡ (
          if leb (b.used + n) b.limit
          then record {
            budget = record b { used = b.used + n };
            permit = record self { bytes = self.bytes + n };
            result = ok tt;
          }
          else record { budget = b; permit = self; result = err busy })
  unfolding grow reserve finish_grow take_over release
  grow_lem self n e h = ground arith

-- Where the bytes in use are a machine number and hold those of two permits, the first of them of
-- this budget, absorbing the second moves its bytes if it is of the same budget; else it is an
-- internal fault and this budget keeps its count.
pub absorb_lem :
    (b : MemoryBudget) (self other : MemoryPermit)
    → b.used ≤ usize_max
    → self.budget ≡ b.id
    → self.bytes + other.bytes ≤ b.used
    → absorb b self other ≡ (
        if other.budget == b.id
        then record {
          budget = b;
          permit = record self { bytes = self.bytes + other.bytes };
          result = ok tt;
        }
        else record { budget = b; permit = self; result = err internal })
unfolding absorb take_over release
absorb_lem b self other small e h = ground arith

-- A permit that grows has the bytes.
pub grow-ok :
    (b : MemoryBudget) (self : MemoryPermit) (n : ℕ)
    → (grow b self n).result ≡ ok tt
    → (grow b self n).permit ≡ record self { bytes = self.bytes + n }
unfolding grow reserve finish_grow take_over
grow-ok b self n h = ground arith
