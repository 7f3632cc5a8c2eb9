-- ===== src/RequestLine/Parts.antt =====
-- The outcome of a line by its words, and what an implementation has to agree on.
use polyform_polyguard.Base.{
  ℕ, ◌+◌, ◌≤◌, ◌≡◌, sym, ap, ◌∙◌, subst, inl, inr, arith, Bytes, ◌∷◌, ◌++◌, Bool, false, ◌||◌,
  Bool-cases, if◌then◌else◌, contains, is_empty, length, take, err, ◌>>=◌,
}
use polyform_polyguard.Base.Split.{split-any}
use polyform_polyguard.RequestLine.Ends.{in_two_steps}
use polyform_polyguard.RequestLine.Words.{
  Shape, word, pair, triple, shape, split-word, split-append, length-pair, length-triple,
}
use polyform_polyguard.RequestLine.{
  request_line, line_end, line_limit, of_line, of_parts, of_words, bad_spacing,
}
use polyform_polyguard.Types.{RequestLine, PolyguardResult, unsupported_version}

abbrev pub pair_line : Bytes → Bytes → Bytes
pair_line m t = m ++ b' ' ∷ t

abbrev pub triple_line : Bytes → Bytes → Bytes → Bytes
triple_line m t v = m ++ b' ' ∷ (t ++ b' ' ∷ v)

-- `tab` tells whether a tab stands anywhere in the line.
abbrev pub of_pair : Bool → Bytes → Bytes → PolyguardResult RequestLine
of_pair tab m t =
    if tab || is_empty m || is_empty t then err bad_spacing else err unsupported_version

abbrev pub misplaced : Bool → Bytes → Bytes → Bytes → Bool
misplaced tab m t v = tab || contains v b' ' || is_empty m || is_empty t || is_empty v

abbrev pub of_triple : Bool → ℕ → Bytes → Bytes → Bytes → PolyguardResult RequestLine
of_triple tab n m t v = if misplaced tab m t v then err bad_spacing else of_words n m t v

pub of_line-word :
    (n : ℕ) (line : Bytes) → contains line b' ' ≡ false → of_line n line ≡ err bad_spacing
unfolding of_line of_parts
of_line-word n line h = rw (split-word line h) (ground arith)

pub of_line-pair :
    (n : ℕ) (m t : Bytes)
    → contains m b' ' ≡ false
    → contains t b' ' ≡ false
    → of_line n (pair_line m t) ≡ of_pair (contains (pair_line m t) b'\t') m t
unfolding of_line of_parts
of_line-pair n m t h k = rw (split-append m t h, split-word t k) (ground arith)

pub of_line-triple :
    (n : ℕ) (m t v : Bytes)
    → contains m b' ' ≡ false
    → contains t b' ' ≡ false
    → of_line n (triple_line m t v) ≡ of_triple (contains (triple_line m t v) b'\t') n m t v
unfolding of_line of_parts
of_line-triple n m t v h k = elim (Bool-cases (contains v b' ')) [
  | inl e ↦
      let (a, b, rest, s) = split-any b' ' v e in
      rw (split-append m (t ++ b' ' ∷ v) h, split-append t v k, s, e) (ground arith)
  | inr e ↦
      rw (split-append m (t ++ b' ' ∷ v) h, split-append t v k, split-word v e, e) (ground arith)
]

-- An implementation that finds the end of the line and reads the line before it, by what it gives
-- on a line without a space, with one, and with two or more.
module _ (end : Bytes → PolyguardResult ℕ) (read : ℕ → Bytes → PolyguardResult RequestLine)
    (ends : (input : Bytes) → end input ≡ line_end 0 input)
    (words : (n : ℕ) (line : Bytes) → contains line b' ' ≡ false → read n line ≡ err bad_spacing)
    (pairs : (n : ℕ) (m t : Bytes)
      → contains m b' ' ≡ false
      → contains t b' ' ≡ false
      → n ≡ length m + 1 + length t
      → read n (pair_line m t) ≡ of_pair (contains (pair_line m t) b'\t') m t)
    (triples : (n : ℕ) (m t v : Bytes)
      → contains m b' ' ≡ false
      → contains t b' ' ≡ false
      → n ≡ length m + 1 + length t + 1 + length v
      → length t ≤ line_limit
      → read n (triple_line m t v) ≡ of_triple (contains (triple_line m t v) b'\t') n m t v) where
  by-Shape :
      (line : Bytes)
      → Shape line
      → length line ≤ line_limit
      → read (length line) line ≡ of_line (length line) line
  by-Shape line (word h) _ = words (length line) line h ∙ sym (of_line-word (length line) line h)
  by-Shape line (pair m t h k e) _ =
      subst (λ l. read (length l) l ≡ of_line (length l) l) (sym e)
        (pairs (length (pair_line m t)) m t h k (length-pair m t)
          ∙ sym (of_line-pair (length (pair_line m t)) m t h k))
  by-Shape line (triple m t v h k e) fits =
      subst (λ l. read (length l) l ≡ of_line (length l) l) (sym e)
        (triples (length (triple_line m t v)) m t v h k (length-triple m t v) (
            let whole : length line ≡ length m + 1 + length t + 1 + length v =
              ap length e ∙ length-triple m t v in
            omega arith)
          ∙ sym (of_line-triple (length (triple_line m t v)) m t v h k))

  pub agrees : (input : Bytes) → (end input >>= λ n. read n (take n input)) ≡ request_line input
  agrees = in_two_steps end read ends (λ line fits. by-Shape line (shape line) fits)
