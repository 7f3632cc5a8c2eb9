-- ===== src/Response/Decimal.antt =====
-- `parse_decimal` of src/proxy.rs against the positional value of decimal digits.
use polyform_polyguard.Base.{
  ℕ, suc, ◌+◌, ◌*◌, ◌-◌, ◌^◌, ◌≤◌, true, false, none, some, [], ◌∷◌, ◌≡◌, ◌↔◌, refl, sym, ap, ◌∙◌,
  inl, inr, arith, Bytes, leb, if◌then◌else◌, Bool-cases, all, length, is_ascii_digit, is_empty,
  usize_max, All,
}
use polyform_polyguard.BodyFraming.Decimal.{le-decimal}
use polyform_polyguard.BodyFraming.{decimal}
use polyform_polyguard.Response.{add_digits, parse_decimal}

-- Each digit counts by its place from the right.
abbrev pub place_value : Bytes → ℕ
place_value [] = 0
place_value (c ∷ s) = (c - b'0') * 10 ^ length s + place_value s

-- One digit at least, nothing but digits, and their positional value.
abbrev pub Spells : Bytes → ℕ → Type 0
Spells s n = (is_empty s ≡ false) × All (λ c. (b'0' ≤ c) × (c ≤ b'9')) s × (place_value s ≡ n)

ten_pow-suc : (n : ℕ) → 10 ^ suc n ≡ 10 * 10 ^ n
ten_pow-suc n = omega arith

shift_digit : (v d p rest : ℕ) → (v * 10 + d) * p + rest ≡ v * (10 * p) + (d * p + rest)
shift_digit v d p rest = grind arith

decimal-place_value : (s : Bytes) (v : ℕ) → decimal v s ≡ v * 10 ^ length s + place_value s
decimal-place_value [] v = omega arith
decimal-place_value (c ∷ s) v =
    decimal-place_value s (v * 10 + (c - b'0'))
    ∙ shift_digit v (c - b'0') (10 ^ length s) (place_value s)
    ∙ ap (λ p. v * p + place_value (c ∷ s)) (sym (ten_pow-suc (length s)))

add_digits-decimal :
    (s : Bytes) (v : ℕ)
    → v ≤ usize_max
    → add_digits v s ≡ (if leb (decimal v s) usize_max then some (decimal v s) else none)
add_digits-decimal [] v h = ground arith
add_digits-decimal (c ∷ s) v h =
    let w = v * 10 + (c - b'0') in ground (arith, add_digits-decimal s w, le-decimal s w)

all_digits_iff : (s : Bytes) → (all is_ascii_digit s ≡ true) ↔ All (λ c. (b'0' ≤ c) × (c ≤ b'9')) s
all_digits_iff [] = (λ h. tt, λ h. refl)
all_digits_iff (c ∷ s) =
    let rest = all_digits_iff s in
    (λ h. (ground arith, rest.0 (ground arith)), λ (p, ps). (let d = rest.1 ps in ground arith))

pub parse_decimal_iff :
    (s : Bytes) (n : ℕ) → (parse_decimal s ≡ some n) ↔ (Spells s n × (n ≤ usize_max))
unfolding parse_decimal
parse_decimal_iff [] n = (λ h. cc, λ h. cc)
parse_decimal_iff (c ∷ r) n =
    let s = c ∷ r in
    let number = add_digits-decimal s 0 (omega arith) in
    let value : decimal 0 s ≡ place_value s = decimal-place_value s 0 ∙ omega arith in
    let digits = all_digits_iff s in
    (
      λ h. elim (Bool-cases (all is_ascii_digit s)) [
        | inl d ↦ ((refl, digits.0 d, ground (arith, number, value)), ground (arith, number, value))
        | inr d ↦ absurd (ground arith)
      ],
      λ ((_, d, v), fits). (let all_digits = digits.1 d in ground (arith, number, value)),
    )
