-- ===== src/RequestLine/Words.antt =====
-- A line by its spaces, and what searches and slices give on it.
use polyform_polyguard.Base.{
  ℕ, suc, ◌+◌, Bool, true, false, ◌||◌, none, some, [], ◌∷◌, ◌++◌, ◌≡◌, refl, ap, ◌∙◌, inl, inr,
  arith, Bytes, Bool-cases, ◌==◌, position, length, take, drop, contains, slice, drop-take_add,
  drop-add, length-append, is_empty, get_elem?, map_or, ◌-◌,
}
use polyform_polyguard.Base.Split.{split}

-- `line` without a space, with one, with two, or with more.
pub data Shape (line : Bytes) : Type 0 where
  word : contains line b' ' ≡ false → Shape line
  pair :
      (m t : Bytes)
      → contains m b' ' ≡ false
      → contains t b' ' ≡ false
      → line ≡ m ++ b' ' ∷ t
      → Shape line
  triple :
      (m t v : Bytes)
      → contains m b' ' ≡ false
      → contains t b' ' ≡ false
      → line ≡ m ++ b' ' ∷ (t ++ b' ' ∷ v)
      → Shape line

first_word :
    (s : Bytes)
    → contains s b' ' ≡ true
    → (m : Bytes) × (rest : Bytes) × (contains m b' ' ≡ false) × (s ≡ m ++ b' ' ∷ rest)
first_word [] h = cc
first_word (c ∷ s) h = elim (Bool-cases (c == b' ')) [
  | inl e ↦ ([], s, refl, (let same : c ≡ b' ' = ground arith in ap (λ d. d ∷ s) same))
  | inr e ↦
      let (m, rest, clear, eq) = first_word s (ground arith) in
      (c ∷ m, rest, ground arith, ap (◌∷◌ c) eq)
]

pub shape : (line : Bytes) → Shape line
shape line = elim (Bool-cases (contains line b' ')) [
  | inr e ↦ word e
  | inl e ↦
      let (m, rest, clear, eq) = first_word line e in
      elim (Bool-cases (contains rest b' ')) [
        | inr f ↦ pair m rest clear f eq
        | inl f ↦
            let (t, v, clear', eq') = first_word rest f in
            triple m t v clear clear' (eq ∙ ap (λ r. m ++ b' ' ∷ r) eq')
      ]
]

pub split-word : (m : Bytes) → contains m b' ' ≡ false → split b' ' m ≡ m ∷ []
unfolding split
split-word [] h = refl
split-word (c ∷ m) h = ground (arith, split-word m)

pub split-append :
    (m s : Bytes) → contains m b' ' ≡ false → split b' ' (m ++ b' ' ∷ s) ≡ m ∷ split b' ' s
unfolding split
split-append [] s h = refl
split-append (c ∷ m) s h = ground (arith, split-append m s)

pub position-word : (m : Bytes) → contains m b' ' ≡ false → position (λ c. c == b' ') m ≡ none
position-word [] h = refl
position-word (c ∷ m) h = ground (arith, position-word m)

pub position-append :
    (m s : Bytes)
    → contains m b' ' ≡ false
    → position (λ c. c == b' ') (m ++ b' ' ∷ s) ≡ some (length m)
position-append [] s h = refl
position-append (c ∷ m) s h = ground (arith, position-append m s)

pub contains-append : (c : ℕ) (m s : Bytes) → contains (m ++ s) c ≡ (contains m c || contains s c)
contains-append c [] s = refl
contains-append c (d ∷ m) s = ground (arith, contains-append c m s)

pub take-word : (m s : Bytes) → take (length m) (m ++ s) ≡ m
take-word [] s = refl
take-word (c ∷ m) s = ap (◌∷◌ c) (take-word m s)

drop-suc_word : (m : Bytes) (c : ℕ) (s : Bytes) → drop (suc (length m)) (m ++ c ∷ s) ≡ s
drop-suc_word [] c s = refl
drop-suc_word (d ∷ m) c s = drop-suc_word m c s

pub drop-word : (m : Bytes) (c : ℕ) (s : Bytes) → drop (length m + 1) (m ++ c ∷ s) ≡ s
drop-word m c s =
    let next : length m + 1 ≡ suc (length m) = omega arith in
    ap (λ n. drop n (m ++ c ∷ s)) next ∙ drop-suc_word m c s

pub slice-word :
    (m t s : Bytes) → slice (m ++ b' ' ∷ (t ++ s)) (length m + 1) (length m + 1 + length t) ≡ t
slice-word m t s =
    drop-take_add (length m + 1) (length t) (m ++ b' ' ∷ (t ++ s))
    ∙ ap (take (length t)) (drop-word m b' ' (t ++ s))
    ∙ take-word t s

-- The rest behind the second space
pub drop-two_words :
    (m t v : Bytes) → drop (length m + 1 + length t + 1) (m ++ b' ' ∷ (t ++ b' ' ∷ v)) ≡ v
drop-two_words m t v =
    let line = m ++ b' ' ∷ (t ++ b' ' ∷ v) in
    let there : length m + 1 + length t + 1 ≡ (length m + 1) + (length t + 1) = omega arith in
    ap (λ n. drop n line) there
    ∙ drop-add (length m + 1) (length t + 1) line
    ∙ ap (drop (length t + 1)) (drop-word m b' ' (t ++ b' ' ∷ v))
    ∙ drop-word t b' ' v

pub length-pair : (m s : Bytes) → length (m ++ b' ' ∷ s) ≡ length m + 1 + length s
length-pair m s = omega (arith, length-append m (b' ' ∷ s))

pub length-triple :
    (m t v : Bytes) → length (m ++ b' ' ∷ (t ++ b' ' ∷ v)) ≡ length m + 1 + length t + 1 + length v
length-triple m t v =
    omega (arith, length-append m (b' ' ∷ (t ++ b' ' ∷ v)), length-append t (b' ' ∷ v))

pub is_empty-length : (s : Bytes) → is_empty s ≡ (length s == 0)
is_empty-length [] = refl
is_empty-length (c ∷ s) = ground arith

get_elem?-append : (m s : Bytes) (i : ℕ) → get_elem? (m ++ s) (length m + i) ≡ get_elem? s i
get_elem?-append [] s i = ap (get_elem? s) (omega arith)
get_elem?-append (c ∷ m) s i =
    let next : suc (length m) + i ≡ suc (length m + i) = omega arith in
    ap (get_elem? (c ∷ (m ++ s))) next ∙ get_elem?-append m s i

abbrev is_space_at : Bytes → ℕ → Bool
is_space_at s i = map_or (get_elem? s i) false (λ c. c == b' ')

last_of_word :
    (t s : Bytes) → contains t b' ' ≡ false → is_space_at (b' ' ∷ (t ++ s)) (length t) ≡ is_empty t
last_of_word [] s h = refl
last_of_word (c ∷ []) s h = ground arith
last_of_word (c ∷ d ∷ t) s h = ground (arith, last_of_word (d ∷ t) s)

-- The byte before the second space is a space just if the word between them is empty.
pub before_second_space :
    (m t s : Bytes)
    → contains t b' ' ≡ false
    → is_space_at (m ++ b' ' ∷ (t ++ s)) (length m + 1 + length t - 1) ≡ is_empty t
before_second_space m t s h =
    let there : length m + 1 + length t - 1 ≡ length m + length t = omega arith in
    ap (is_space_at (m ++ b' ' ∷ (t ++ s))) there
    ∙ ap (λ o. map_or o false (λ c. c == b' ')) (get_elem?-append m (b' ' ∷ (t ++ s)) (length t))
    ∙ last_of_word t s h
