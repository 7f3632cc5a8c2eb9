-- ===== src/RequestLine/Printed.antt =====
-- Request lines as they are written, and that parsing gives back just what was written.
use polyform_polyguard.Base.{
  ℕ, suc, ◌+◌, ◌≤◌, ◌<◌, ◌≡◌, refl, ap, ◌∙◌, arith, Bool, true, false, not, ◌&&◌, ◌||◌, Bytes, [],
  ◌∷◌, ◌++◌, ltb, ◌==◌, Bool-cases, inl, inr, all, contains, is_empty, length, take, equal,
  append_assoc, ok, ◌>>=◌,
}
use polyform_polyguard.RequestLine.Words.{take-word}
use polyform_polyguard.RequestLine.Parts.{of_line-triple, triple_line}
use polyform_polyguard.RequestLine.Variants.{RequestLineVariant, parse, parse-eq-request_line}
use polyform_polyguard.RequestLine.{
  request_line, line_end, end_step, line_limit, method_limit, is_token, is_visible, is_control,
  next_is_lf, lowercase, version_text, check_method, check_target, of_words, of_line,
}
use polyform_polyguard.Types.{RequestLine, http11, PolyguardResult}

-- `method target HTTP/1.1` with its line ending
unfoldable pub printed : Bytes → Bytes → Bytes
printed m t = triple_line m t version_text ++ b'\r' ∷ b'\n' ∷ []

abbrev pub is_target_byte : ℕ → Bool
is_target_byte c = is_visible c && not (c == b'#')

-- A method and a target that may be written: not empty, of the bytes allowed, and within the
-- limits.
pub record Writable (m t : Bytes) : Type 0 where
  pub method_some : is_empty m ≡ false
  pub method_bytes : all is_token m ≡ true
  pub method_fits : length m ≤ method_limit
  pub target_some : is_empty t ≡ false
  pub target_bytes : all is_target_byte t ≡ true
  pub line_fits : length (triple_line m t version_text) ≤ line_limit

-- A byte that may stand in a line
abbrev is_line_byte : ℕ → Bool
is_line_byte c = not (is_control c || c == b'\r' || c == b'\n')

end_step-line_byte :
    (offset c : ℕ) (followed : Bool) (rest : PolyguardResult ℕ)
    → is_line_byte c ≡ true
    → offset < line_limit
    → end_step offset c followed rest ≡ rest
unfolding end_step
end_step-line_byte offset c followed rest h low = ground arith

line_end-append :
    (offset : ℕ) (line rest : Bytes)
    → all is_line_byte line ≡ true
    → offset + length line ≤ line_limit
    → line_end offset (line ++ b'\r' ∷ (b'\n' ∷ rest)) ≡ ok (offset + length line)
unfolding line_end end_step
line_end-append offset [] rest h fits = ground arith
line_end-append offset (c ∷ line) rest h fits =
    let s = line ++ b'\r' ∷ (b'\n' ∷ rest) in
    end_step-line_byte offset c (next_is_lf s) (line_end (suc offset) s) (ground arith)
      (omega arith)
    ∙ line_end-append (suc offset) line rest (ground arith) (omega arith)
    ∙ ap ok {x = suc offset + length line} (omega arith)

all-not : (p : ℕ → Bool) (c : ℕ) (s : Bytes) → p c ≡ false → all p s ≡ true → contains s c ≡ false
all-not p c [] h k = refl
all-not p c (d ∷ s) h k = elim (Bool-cases (d == c)) [
  | inl e ↦
      let same : d ≡ c = ground arith in
      let both : p d ≡ false = ap p same ∙ h in absurd (ground arith)
  | inr e ↦ ground (arith, all-not p c s h)
]

all-implies :
    (p q : ℕ → Bool) (s : Bytes)
    → ((c : ℕ) → p c ≡ true → q c ≡ true)
    → all p s ≡ true
    → all q s ≡ true
all-implies p q [] h k = refl
all-implies p q (c ∷ s) h k =
    let here : p c ≡ true = ground arith in
    let there : all p s ≡ true = ground arith in rw (h c here) (all-implies p q s h there)

all-append : (p : ℕ → Bool) (s t : Bytes) → all p (s ++ t) ≡ (all p s && all p t)
all-append p [] t = refl
all-append p (c ∷ s) t = ground (arith, all-append p s t)

check_target-all : (t : Bytes) → all is_target_byte t ≡ true → check_target t ≡ ok tt
unfolding check_target
check_target-all [] h = refl
check_target-all (c ∷ t) h = ground (arith, check_target-all t)

pub check_target-ok : (t : Bytes) → check_target t ≡ ok tt → all is_target_byte t ≡ true
unfolding check_target
check_target-ok [] h = refl
check_target-ok (c ∷ t) h = ground (arith, check_target-ok t)

abbrev written_line : Bytes → Bytes → Bytes
written_line m t = triple_line m t version_text

-- A test that the bytes of methods and of targets, the space and the version pass
line_all :
    (q : ℕ → Bool) (m t : Bytes)
    → ((c : ℕ) → is_token c ≡ true → q c ≡ true)
    → ((c : ℕ) → is_target_byte c ≡ true → q c ≡ true)
    → all q (b' ' ∷ version_text) ≡ true
    → all is_token m ≡ true
    → all is_target_byte t ≡ true
    → all q (written_line m t) ≡ true
line_all q m t tokens targets others h k =
    let front = all-implies is_token q m tokens h in
    let middle = all-implies is_target_byte q t targets k in
    let parts = all-append q m (b' ' ∷ (t ++ b' ' ∷ version_text)) in
    let parts' = all-append q t (b' ' ∷ version_text) in
    parts ∙ rw (front, parts', middle) (ground arith)

-- The record of what was written
abbrev pub line_of : Bytes → Bytes → RequestLine
line_of m t = record {
  method = lowercase m;
  target = t;
  version = http11;
  bytes_consumed = length (triple_line m t version_text) + 2;
}

abbrev not_tab : ℕ → Bool
not_tab c = not (c == b'\t')

of_words-written :
    (n : ℕ) (m t : Bytes)
    → Writable m t
    → of_words n m t version_text
      ≡ ok (record { method = lowercase m; target = t; version = http11; bytes_consumed = n + 2 })
unfolding of_words check_method equal
of_words-written n m t w =
    let fits : ltb method_limit (length m) ≡ false = ground (arith, w.method_fits) in
    rw (fits, w.method_bytes, check_target-all t w.target_bytes) refl

of_line-written :
    (m t : Bytes)
    → Writable m t
    → of_line (length (written_line m t)) (written_line m t) ≡ ok (line_of m t)
of_line-written m t w =
    let n = length (written_line m t) in
    let tabs =
      line_all not_tab m t (λ c e. ground arith) (λ c e. ground arith) refl w.method_bytes
        w.target_bytes in
    let no_tab = all-not not_tab b'\t' (written_line m t) refl tabs in
    let m_clear = all-not is_token b' ' m refl w.method_bytes in
    let t_clear = all-not is_target_byte b' ' t refl w.target_bytes in
    of_line-triple n m t version_text m_clear t_clear
    ∙ rw (no_tab, w.method_some, w.target_some) (of_words-written n m t w)

request_line-printed :
    (m t rest : Bytes) → Writable m t → request_line (printed m t ++ rest) ≡ ok (line_of m t)
unfolding request_line printed
request_line-printed m t rest w =
    let line = written_line m t in
    let bytes =
      line_all is_line_byte m t (λ c e. ground arith) (λ c e. ground arith) refl w.method_bytes
        w.target_bytes in
    ap request_line (append_assoc line (b'\r' ∷ b'\n' ∷ []) rest)
    ∙ ap (λ r. r >>= λ n. of_line n (take n (line ++ b'\r' ∷ (b'\n' ∷ rest))))
        (line_end-append 0 line rest bytes (omega (arith, w.line_fits))
          ∙ ap ok {x = 0 + length line} {y = length line} (omega arith))
    ∙ ap (of_line (length line)) (take-word line (b'\r' ∷ (b'\n' ∷ rest)))
    ∙ of_line-written m t w

-- For each of the five implementations: printing a method of 1 to 32 token bytes and a target of
-- visible bytes without `#`, whose line is within its limit, with any bytes behind, and parsing
-- it gives the method in lower case and the target back, and
-- consumes just what was printed.
pub parse-printed :
    (variant : RequestLineVariant) (m t rest : Bytes)
    → Writable m t
    → parse variant (printed m t ++ rest) ≡ ok (line_of m t)
parse-printed variant m t rest w =
    parse-eq-request_line variant (printed m t ++ rest) ∙ request_line-printed m t rest w
