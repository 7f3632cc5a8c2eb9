-- ===== src/RequestLine/Accepted.antt =====
-- What an accepted request line looks like.
use polyform_polyguard.Base.{
  ℕ, suc, ◌+◌, ◌≤◌, ◌≡◌, refl, sym, ap, ◌∙◌, subst, arith, Bool, true, false, not, ◌&&◌, ◌||◌,
  Bytes, [], ◌∷◌, ◌++◌, ltb, ◌==◌, Bool-cases, inl, inr, all, contains, is_empty, length, take,
  equal, equal_iff, append_assoc, ok, err, bind-eq-ok, refuse_if, ◌>>◌,
}
use polyform_polyguard.RequestLine.Words.{word, pair, triple, shape, take-word}
use polyform_polyguard.RequestLine.Parts.{
  of_line-word, of_line-pair, of_line-triple, triple_line, pair_line, of_pair, of_triple, misplaced,
}
use polyform_polyguard.RequestLine.Printed.{
  Writable, printed, line_of, is_target_byte, check_target-ok,
}
use polyform_polyguard.RequestLine.Ends.{line_end-bounds}
use polyform_polyguard.RequestLine.Variants.{RequestLineVariant, parse, parse-eq-request_line}
use polyform_polyguard.RequestLine.{
  request_line, line_end, end_step, line_limit, method_limit, is_token, next_is_lf, lowercase,
  version_text, check_method, check_target, of_words, of_line,
}
use polyform_polyguard.Types.{
  RequestLine, http11, invalid_method, unsupported_version, PolyguardResult,
}

lf_head : (s : Bytes) → next_is_lf s ≡ true → (rest : Bytes) × (s ≡ b'\n' ∷ rest)
lf_head [] h = cc
lf_head (c ∷ s) h = (s, (let same : c ≡ b'\n' = ground arith in ap (λ d. d ∷ s) same))

end_step-ok :
    (offset c n : ℕ) (followed : Bool) (rest : PolyguardResult ℕ)
    → (c == b'\r' && followed) ≡ false
    → end_step offset c followed rest ≡ ok n
    → rest ≡ ok n
unfolding end_step
end_step-ok offset c n followed rest h e = ground arith

end_step-here :
    (offset c n : ℕ) (followed : Bool) (rest : PolyguardResult ℕ)
    → (c == b'\r' && followed) ≡ true
    → end_step offset c followed rest ≡ ok n
    → n ≡ offset
unfolding end_step
end_step-here offset c n followed rest h e = ground arith

line_end-ok :
    (offset : ℕ) (s : Bytes) (n : ℕ)
    → line_end offset s ≡ ok n
    → (line : Bytes) × (rest : Bytes) × (s ≡ line ++ b'\r' ∷ (b'\n' ∷ rest))
      × (n ≡ offset + length line)
unfolding line_end
line_end-ok offset [] n h = cc
line_end-ok offset (c ∷ s) n h = elim (Bool-cases (c == b'\r' && next_is_lf s)) [
  | inl e ↦
      let (rest, behind) = lf_head s (ground arith) in
      let same : c ≡ b'\r' = ground arith in
      let here = end_step-here offset c n (next_is_lf s) (line_end (suc offset) s) e h in
      ([], rest, ap (λ d. d ∷ s) same ∙ ap (◌∷◌ b'\r') behind, omega (arith, here))
  | inr e ↦
      let (line, rest, eq, count) =
        line_end-ok (suc offset) s n
          (end_step-ok offset c n (next_is_lf s) (line_end (suc offset) s) e h) in
      (c ∷ line, rest, ap (◌∷◌ c) eq, omega (arith, count))
]

checked_method :
    (long valid : Bool) (next : PolyguardResult RequestLine) (r : RequestLine)
    → (refuse_if (long || not valid) invalid_method >> next) ≡ ok r
    → (long ≡ false) × (valid ≡ true) × (next ≡ ok r)
checked_method true valid next r h = cc
checked_method false false next r h = cc
checked_method false true next r h = (refl, refl, h)

checked_rest :
    (target : PolyguardResult Unit) (other : Bool) (q r : RequestLine)
    → (target >> (refuse_if other unsupported_version >> ok q)) ≡ ok r
    → (target ≡ ok tt) × (other ≡ false) × (r ≡ q)
checked_rest (err e) other q r h = cc
checked_rest (ok tt) true q r h = cc
checked_rest (ok tt) false q r h = (refl, refl, (let same : q ≡ r = ground arith in sym same))

read_words : ℕ → Bytes → Bytes → RequestLine
read_words n m t = record {
  method = lowercase m;
  target = t;
  version = http11;
  bytes_consumed = n + 2;
}

of_words-ok :
    (n : ℕ) (m t v : Bytes) (r : RequestLine)
    → of_words n m t v ≡ ok r
    → (length m ≤ method_limit)
      × (all is_token m ≡ true)
      × (all is_target_byte t ≡ true)
      × (v ≡ version_text)
      × (r ≡ read_words n m t)
unfolding of_words check_method read_words
of_words-ok n m t v r h =
    let next =
      check_target t
      >> (refuse_if (not (equal v version_text)) unsupported_version >> ok (read_words n m t)) in
    let (short, valid, later) =
      checked_method (ltb method_limit (length m)) (all is_token m) next r h in
    let (target, same, result) =
      checked_rest (check_target t) (not (equal v version_text)) (read_words n m t) r later in
    (
      ground (arith, short),
      valid,
      check_target-ok t target,
      (equal_iff v version_text).0 (ground (arith, same)),
      result,
    )

-- Two words behind a method, none misplaced
of_triple-ok :
    (tab : Bool) (n : ℕ) (m t v : Bytes) (r : RequestLine)
    → of_triple tab n m t v ≡ ok r
    → (is_empty m ≡ false) × (is_empty t ≡ false) × (of_words n m t v ≡ ok r)
of_triple-ok tab n m t v r h = elim (Bool-cases (misplaced tab m t v)) [
  | inl e ↦ absurd (ground arith)
  | inr e ↦ (ground arith, ground arith, ground arith)
]

of_line-ok :
    (line : Bytes) (r : RequestLine)
    → length line ≤ line_limit
    → of_line (length line) line ≡ ok r
    → (m : Bytes) × (t : Bytes) × Writable m t
      × (line ≡ triple_line m t version_text)
      × (r ≡ line_of m t)
of_line-ok line r fits h = elim (shape line) [
  | word clear ↦ absurd (ground (arith, of_line-word (length line) line clear))
  | pair m t clear clear' e ↦
      let refused = of_line-pair (length line) m t clear clear' in
      absurd (
        not_pair (contains (pair_line m t) b'\t') m t r
          (sym refused ∙ ap (of_line (length line)) (sym e) ∙ h))
  | triple m t v clear clear' e ↦
      let read = of_line-triple (length line) m t v clear clear' in
      let (some_m, some_t, words) =
        of_triple-ok (contains (triple_line m t v) b'\t') (length line) m t v r
          (sym read ∙ ap (of_line (length line)) (sym e) ∙ h) in
      let (short, tokens, visible, same, result) = of_words-ok (length line) m t v r words in
      let whole : line ≡ triple_line m t version_text = e ∙ ap (triple_line m t) same in
      (
        m,
        t,
        record {
          method_some = some_m;
          method_bytes = tokens;
          method_fits = short;
          target_some = some_t;
          target_bytes = visible;
          line_fits = subst (λ l. length l ≤ line_limit) whole fits;
        },
        whole,
        result ∙ (unfold read_words in ap (λ l. read_words (length l) m t) whole),
      )
]
  where
    not_pair : (tab : Bool) (m t : Bytes) (q : RequestLine) → of_pair tab m t ≡ ok q → ⊥
    not_pair tab m t q k = elim (Bool-cases (tab || is_empty m || is_empty t)) [
      | inl e ↦ ground arith
      | inr e ↦ ground arith
    ]

request_line-ok :
    (input : Bytes) (r : RequestLine)
    → request_line input ≡ ok r
    → (m : Bytes) × (t : Bytes) × (rest : Bytes) × Writable m t
      × (input ≡ printed m t ++ rest)
      × (r ≡ line_of m t)
unfolding request_line printed
request_line-ok input r h =
    let (n, ended, read) = bind-eq-ok (line_end 0 input) (λ k. of_line k (take k input)) h in
    let (fits, _) = line_end-bounds 0 input n (omega arith) ended in
    let (line, rest, whole, count) = line_end-ok 0 input n ended in
    let size : n ≡ length line = omega (arith, count) in
    let content : take n input ≡ line =
      ap (λ k. take k input) size
      ∙ ap (take (length line)) whole
      ∙ take-word line (b'\r' ∷ (b'\n' ∷ rest)) in
    let of_content : of_line (length line) line ≡ ok r =
      ap (of_line (length line)) (sym content)
      ∙ ap (λ k. of_line k (take n input)) (sym size)
      ∙ read in
    let (m, t, writable, same, result) = of_line-ok line r (omega (arith, size)) of_content in
    (
      m,
      t,
      rest,
      writable,
      whole
          ∙ ap (λ l. l ++ b'\r' ∷ (b'\n' ∷ rest)) same
          ∙ sym (append_assoc (triple_line m t version_text) (b'\r' ∷ b'\n' ∷ []) rest),
      result,
    )

-- An input that one of the five implementations accepts begins with a method of 1 to 32 token bytes
-- and a target of visible bytes without `#`, printed in a line within its limit, and the request line is theirs: the method in lower case,
-- the target, and the number of bytes that were printed.
pub parse-ok :
    (variant : RequestLineVariant) (input : Bytes) (r : RequestLine)
    → parse variant input ≡ ok r
    → (m : Bytes) × (t : Bytes) × (rest : Bytes) × Writable m t
      × (input ≡ printed m t ++ rest)
      × (r ≡ line_of m t)
parse-ok variant input r h = request_line-ok input r (sym (parse-eq-request_line variant input) ∙ h)
