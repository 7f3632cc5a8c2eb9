-- ===== src/BodyFraming/Decimal.antt =====
-- The digit loops compute the unbounded value, and refuse exactly what exceeds a `u64`.
use polyform_polyguard.Base.{
  ℕ, ◌*◌, ◌+◌, ◌-◌, ◌≤◌, true, not, ◌&&◌, [], ◌∷◌, ◌≡◌, refl, arith, Bytes, leb, if◌then◌else◌, all,
  is_ascii_digit, Result, ok, err, ok_or, try_fold, u64_max, checked_mul, checked_add, and_then,
}
use polyform_polyguard.BodyFraming.{decimal}

pub le-decimal : (s : Bytes) (v : ℕ) → v ≤ decimal v s
le-decimal [] v = omega arith
le-decimal (c ∷ s) v = omega (arith, le-decimal s (v * 10 + (c - b'0')))

module _ {E : Type 0} (e : E) where
  -- `value.checked_mul(10).and_then(|v| v.checked_add(digit)).ok_or(e)`
  abbrev pub push_digit : ℕ → ℕ → Result E ℕ
  push_digit v c = ok_or (and_then (checked_mul v 10) (λ w. checked_add w (c - b'0'))) e

  -- The same behind the test for a digit.
  abbrev pub read_digit : ℕ → ℕ → Result E ℕ
  read_digit v c = if not (is_ascii_digit c) then err e else push_digit v c

  pub fold-read_digit :
      (s : Bytes) (v : ℕ)
      → v ≤ u64_max
      → try_fold read_digit v s
        ≡ (if all is_ascii_digit s && leb (decimal v s) u64_max then ok (decimal v s) else err e)
  fold-read_digit [] v h = ground arith
  fold-read_digit (c ∷ s) v h =
      let w = v * 10 + (c - b'0') in ground (arith, fold-read_digit s w, le-decimal s w)

  pub fold-push_digit :
      (s : Bytes) (v : ℕ)
      → all is_ascii_digit s ≡ true
      → try_fold push_digit v s ≡ try_fold read_digit v s
  fold-push_digit [] v h = refl
  fold-push_digit (c ∷ s) v h = ground (arith, fold-push_digit s (v * 10 + (c - b'0')))
