-- ===== src/RequestLine/Ends.antt =====
-- Where the line ends: bounds on it, and what an implementation of two steps has to agree on.
use polyform_polyguard.Base.{
  ℕ, suc, ◌+◌, ◌≤◌, ◌<◌, ◌≡◌, refl, ap, ◌∙◌, subst, sym, inl, inr, Option-cases, arith, Bytes, [],
  ◌∷◌, Bool, map_or, get_elem?, ◌==◌, false, Bool-cases, take, drop, length, length-take_le, ok,
  ◌>>=◌, drop-cons_get, drop-nil_get, bind_agree,
}
use polyform_polyguard.RequestLine.{
  line_end, end_step, line_limit, request_line, of_line, next_is_lf,
}
use polyform_polyguard.Types.{RequestLine, PolyguardResult}

pub line_end-bounds :
    (offset : ℕ) (s : Bytes) (n : ℕ)
    → offset ≤ line_limit
    → line_end offset s ≡ ok n
    → (n ≤ line_limit) × (n < offset + length s)
unfolding line_end
line_end-bounds offset [] n fits h = cc
line_end-bounds offset (c ∷ s) n fits h = ground (arith, line_end-bounds (suc offset) s n)

pub lf_at-drop :
    (input : Bytes) (i : ℕ)
    → map_or (get_elem? input i) false (λ c. c == b'\n') ≡ next_is_lf (drop i input)
lf_at-drop input i = elim (Option-cases (get_elem? input i)) [
  | inl e ↦ rw (e, drop-nil_get i input e) refl
  | inr (c, e) ↦ rw (e, drop-cons_get i input e) refl
]

past_limit :
    (c : ℕ) (followed : Bool) (r s : PolyguardResult ℕ)
    → end_step line_limit c followed r ≡ end_step line_limit c followed s
unfolding end_step
past_limit c followed r s = ground arith

-- At the limit, what stands behind does not matter.
pub end_step-agree :
    (offset c : ℕ) (followed : Bool) (r s : PolyguardResult ℕ)
    → offset ≤ line_limit
    → (offset < line_limit → r ≡ s)
    → end_step offset c followed r ≡ end_step offset c followed s
end_step-agree offset c followed r s low same = elim (Bool-cases (offset == line_limit)) [
  | inl last ↦
      let at_limit : offset ≡ line_limit = ground arith in
      subst (λ o. end_step o c followed r ≡ end_step o c followed s) (sym at_limit)
        (past_limit c followed r s)
  | inr before ↦ ap (end_step offset c followed) (same (ground arith))
]

-- An implementation that finds the end of the line and then reads the line before it.
pub in_two_steps :
    (end : Bytes → PolyguardResult ℕ) (read : ℕ → Bytes → PolyguardResult RequestLine)
    → ((input : Bytes) → end input ≡ line_end 0 input)
    → ((line : Bytes)
        → length line ≤ line_limit
        → read (length line) line ≡ of_line (length line) line)
    → (input : Bytes) → (end input >>= λ n. read n (take n input)) ≡ request_line input
unfolding request_line
in_two_steps end read ends reads input =
    ap (λ r. r >>= λ n. read n (take n input)) (ends input)
    ∙ bind_agree (line_end 0 input) _ _ λ n e.
      let (fits, inside) = line_end-bounds 0 input n (omega arith) e in
      let whole : length (take n input) ≡ n = length-take_le n input (omega arith) in
      ap (λ k. read k (take n input)) (sym whole)
      ∙ reads (take n input) (omega (arith, whole))
      ∙ ap (λ k. of_line k (take n input)) whole
