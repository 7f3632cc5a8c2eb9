-- ===== src/Base/Names.antt =====
-- Sets of names: a `BTreeSet<String>` is the list of its names in the order of their bytes, and the
-- list that `sort_unstable` and `dedup` leave is the same.
use mathlib.Core.Bool.{Bool, true, false, ◌&&◌, ◌||◌}
use mathlib.Core.List.{List, [], ◌∷◌, ◌++◌}
use mathlib.Core.Logic.{◌⊎◌, inl, inr}
use mathlib.Core.Path.{◌≡◌, refl, sym, ap, ◌∙◌}
use native.Mathlib.Omega.{arith}
use package.polyform_polyguard.Base.Tests.{ltb, ◌==◌, if◌then◌else◌, Bool-cases}
use package.polyform_polyguard.Base.Lists.{any}
use package.polyform_polyguard.Base.Text.{Bytes, equal, equal_iff}

-- The order of byte strings
unfoldable pub less : Bytes → Bytes → Bool
less [] [] = false
less [] (y ∷ ys) = true
less (x ∷ xs) [] = false
less (x ∷ xs) (y ∷ ys) = ltb x y || x == y && less xs ys

pub equal_refl : (a : Bytes) → equal a a ≡ true
equal_refl a = (equal_iff a a).1 refl

pub equal_comm : (a b : Bytes) → equal a b ≡ equal b a
equal_comm a b = elim (Bool-cases (equal a b)) [
  | inl e ↦ let same : a ≡ b = (equal_iff a b).0 e in rw same refl
  | inr e ↦ elim (Bool-cases (equal b a)) [
    | inr f ↦ e ∙ sym f
    | inl f ↦ let same : b ≡ a = (equal_iff b a).0 f in cc (ap (equal a) same, equal_refl a)
  ]
]

less_irrefl : (a : Bytes) → less a a ≡ false
unfolding less
less_irrefl [] = refl
less_irrefl (x ∷ a) = ground (arith, less_irrefl a)

less_trans : (a b c : Bytes) → less a b ≡ true → less b c ≡ true → less a c ≡ true
unfolding less
less_trans [] [] c h k = cc
less_trans [] (y ∷ b) [] h k = cc
less_trans [] (y ∷ b) (z ∷ c) h k = refl
less_trans (x ∷ a) [] c h k = cc
less_trans (x ∷ a) (y ∷ b) [] h k = cc
less_trans (x ∷ a) (y ∷ b) (z ∷ c) h k = ground (arith, less_trans a b c)

less_total : (a b : Bytes) → (a ≡ b) ⊎ ((less a b ≡ true) ⊎ (less b a ≡ true))
unfolding less
less_total [] [] = inl refl
less_total [] (y ∷ b) = inr (inl refl)
less_total (x ∷ a) [] = inr (inr refl)
less_total (x ∷ a) (y ∷ b) = elim (Bool-cases (x == y)) [
  | inl e ↦
      let same : x ≡ y = ground arith in
      elim (less_total a b) [
        | inl f ↦ inl (ap (λ c. c ∷ a) same ∙ ap (◌∷◌ y) f)
        | inr (inl f) ↦ inr (inl (ground arith))
        | inr (inr f) ↦ inr (inr (ground arith))
      ]
  | inr e ↦ elim (Bool-cases (ltb x y)) [
    | inl f ↦ inr (inl (ground arith))
    | inr f ↦ inr (inr (ground arith))
  ]
]

less-equal : (a b : Bytes) → less a b ≡ true → equal a b ≡ false
less-equal a b h = elim (Bool-cases (equal a b)) [
  | inr e ↦ e
  | inl e ↦ let same : a ≡ b = (equal_iff a b).0 e in cc (ap (less a) same, less_irrefl a)
]

less-greater : (a b : Bytes) → less a b ≡ true → less b a ≡ false
less-greater a b h = elim (Bool-cases (less b a)) [
  | inr e ↦ e
  | inl e ↦ cc (less_trans a b a h e, less_irrefl a)
]

equal-greater : (a b : Bytes) → less a b ≡ true → equal b a ≡ false
equal-greater a b h = elim (Bool-cases (equal b a)) [
  | inr e ↦ e
  | inl e ↦ let same : b ≡ a = (equal_iff b a).0 e in cc (ap (λ c. less c b) same, less_irrefl b)
]

-- `BTreeSet::insert`
unfoldable pub insert : Bytes → List Bytes → List Bytes
insert a [] = a ∷ []
insert a (x ∷ s) =
    let rest = insert a s in if equal a x then x ∷ s else if less a x then a ∷ x ∷ s else x ∷ rest

insert-nil : (a : Bytes) → insert a [] ≡ a ∷ []
unfolding insert
insert-nil a = refl

insert-before : (a x : Bytes) (s : List Bytes) → less a x ≡ true → insert a (x ∷ s) ≡ a ∷ x ∷ s
unfolding insert
insert-before a x s h = rw (less-equal a x h, h) refl

insert-behind : (a x : Bytes) (s : List Bytes) → less x a ≡ true → insert a (x ∷ s) ≡ x ∷ insert a s
unfolding insert
insert-behind a x s h = rw (equal-greater x a h, less-greater x a h) refl

insert_present : (a : Bytes) (s : List Bytes) → insert a (a ∷ s) ≡ a ∷ s
unfolding insert
insert_present a s = rw (equal_refl a) refl

pub insert_again : (a : Bytes) (s : List Bytes) → insert a (insert a s) ≡ insert a s
insert_again a [] = rw (insert-nil a) (insert_present a [])
insert_again a (x ∷ s) = elim (less_total a x) [
  | inl e ↦ rw e (rw (insert_present x s, insert_present x s) refl)
  | inr (inl h) ↦ rw (insert-before a x s h, insert_present a (x ∷ s)) refl
  | inr (inr h) ↦
      rw (insert-behind a x s h, insert-behind a x (insert a s) h, insert_again a s) refl
]

insert_behind_smaller :
    (a b x : Bytes) (s : List Bytes)
    → less a b ≡ true
    → less a x ≡ true
    → insert a (insert b (x ∷ s)) ≡ a ∷ insert b (x ∷ s)
insert_behind_smaller a b x s h k = elim (less_total b x) [
  | inl e ↦ rw e (rw (insert_present x s, insert-before a x s k) refl)
  | inr (inl l) ↦ rw (insert-before b x s l, insert-before a b (x ∷ s) h) refl
  | inr (inr l) ↦ rw (insert-behind b x s l, insert-before a x (insert b s) k) refl
]

insert_comm_less :
    (a b : Bytes) (s : List Bytes) → less a b ≡ true → insert a (insert b s) ≡ insert b (insert a s)
insert_comm_less a b [] h =
    rw (insert-nil a, insert-nil b, insert-before a b [] h, insert-behind b a [] h, insert-nil b)
      refl
insert_comm_less a b (x ∷ s) h = elim (less_total a x) [
  | inl e ↦
      let k : less x b ≡ true = ap (λ c. less c b) (sym e) ∙ h in
      rw e (
        rw
          (
            insert-behind b x s k,
            insert_present x s,
            insert_present x (insert b s),
            insert-behind b x s k,
          )
          refl)
  | inr (inl k) ↦
      insert_behind_smaller a b x s h k
      ∙ sym (insert-behind b a (x ∷ s) h)
      ∙ ap (insert b) (sym (insert-before a x s k))
  | inr (inr k) ↦
      rw
        (
          insert-behind b x s (less_trans x a b k h),
          insert-behind a x (insert b s) k,
          insert-behind a x s k,
          insert-behind b x (insert a s) (less_trans x a b k h),
          insert_comm_less a b s h,
        )
        refl
]

pub insert_comm : (a b : Bytes) (s : List Bytes) → insert a (insert b s) ≡ insert b (insert a s)
insert_comm a b s = elim (less_total a b) [
  | inl e ↦ rw e refl
  | inr (inl h) ↦ insert_comm_less a b s h
  | inr (inr h) ↦ sym (insert_comm_less b a s h)
]

abbrev pub has : Bytes → List Bytes → Bool
has n = any (λ m. equal m n)

pub has-insert : (n a : Bytes) (s : List Bytes) → has n (insert a s) ≡ (equal a n || has n s)
has-insert n a [] = unfold insert in refl
has-insert n a (x ∷ s) = elim (less_total a x) [
  | inl e ↦ rw e (rw (insert_present x s) (ground arith))
  | inr (inl h) ↦ rw (insert-before a x s h) refl
  | inr (inr h) ↦ rw (insert-behind a x s h, has-insert n a s) (ground arith)
]

-- The set of the names of a list
unfoldable pub of_names : List Bytes → List Bytes
of_names [] = []
of_names (a ∷ s) = insert a (of_names s)

pub has-of_names : (n : Bytes) (s : List Bytes) → has n (of_names s) ≡ has n s
unfolding of_names
has-of_names n [] = refl
has-of_names n (a ∷ s) = has-insert n a (of_names s) ∙ ap (λ t. equal a n || t) (has-of_names n s)

pub insert_known :
    (a : Bytes) (s : List Bytes) → has a s ≡ true → insert a (of_names s) ≡ of_names s
unfolding of_names
insert_known a [] h = cc
insert_known a (x ∷ s) h = elim (Bool-cases (equal x a)) [
  | inl e ↦ rw ((equal_iff x a).0 e) (insert_again a (of_names s))
  | inr e ↦ insert_comm a x (of_names s) ∙ ap (insert x) (insert_known a s (ground arith))
]

-- `sort_unstable`, by insertion
unfoldable pub place : Bytes → List Bytes → List Bytes
place a [] = a ∷ []
place a (x ∷ s) = let rest = place a s in if less x a then x ∷ rest else a ∷ x ∷ s

unfoldable pub sort : List Bytes → List Bytes
unfolding place
sort [] = []
sort (a ∷ s) = place a (sort s)

-- `Vec::dedup`
unfoldable pub push_new : Bytes → List Bytes → List Bytes
push_new x [] = x ∷ []
push_new x (y ∷ s) = if equal x y then y ∷ s else x ∷ y ∷ s

unfoldable pub dedup : List Bytes → List Bytes
unfolding push_new
dedup [] = []
dedup (x ∷ s) = push_new x (dedup s)

push_new_present : (x : Bytes) (s : List Bytes) → push_new x (x ∷ s) ≡ x ∷ s
unfolding push_new
push_new_present x s = rw (equal_refl x) refl

push_new-less : (x y : Bytes) (s : List Bytes) → less x y ≡ true → push_new x (y ∷ s) ≡ x ∷ y ∷ s
unfolding push_new
push_new-less x y s h = rw (less-equal x y h) refl

-- The head of what is pushed
push_new_head : (x : Bytes) (s : List Bytes) → (rest : List Bytes) × (push_new x s ≡ x ∷ rest)
unfolding push_new
push_new_head x [] = ([], refl)
push_new_head x (y ∷ s) = elim (Bool-cases (equal x y)) [
  | inl e ↦ (s, rw e (ap (λ z. z ∷ s) (sym ((equal_iff x y).0 e))))
  | inr e ↦ (y ∷ s, rw e refl)
]

push_new-insert :
    (a x : Bytes) (s : List Bytes)
    → less x a ≡ true
    → push_new x (insert a s) ≡ insert a (push_new x s)
push_new-insert a x [] h =
    rw (insert-nil a, push_new-less x a [] h)
      (unfold push_new in rw (insert-behind a x [] h, insert-nil a) refl)
push_new-insert a x (y ∷ s) h = elim (less_total a y) [
  | inl e ↦
      let k : less x y ≡ true = ap (less x) (sym e) ∙ h in
      rw e (
        rw
          (
            insert_present y s,
            push_new-less x y s k,
            insert-behind y x (y ∷ s) k,
            insert_present y s,
          )
          refl)
  | inr (inl k) ↦
      rw
        (
          insert-before a y s k,
          push_new-less x a (y ∷ s) h,
          push_new-less x y s (less_trans x a y h k),
          insert-behind a x (y ∷ s) h,
          insert-before a y s k,
        )
        refl
  | inr (inr k) ↦ rw (insert-behind a y s k) (elim (Bool-cases (equal x y)) [
    | inl e ↦ unfold push_new in rw (e, insert-behind a y s k) refl
    | inr e ↦ unfold push_new in rw (e, insert-behind a x (y ∷ s) h, insert-behind a y s k) refl
  ])
]

push_new-front :
    (a x : Bytes) (s : List Bytes)
    → less x a ≡ false
    → push_new a (push_new x s) ≡ insert a (push_new x s)
push_new-front a x s h =
    let (rest, e) = push_new_head x s in
    rw e (elim (less_total a x) [
      | inl f ↦ rw f (rw (push_new_present x rest, insert_present x rest) refl)
      | inr (inl k) ↦ rw (push_new-less a x rest k, insert-before a x rest k) refl
      | inr (inr k) ↦ cc
    ])

dedup-place : (a : Bytes) (s : List Bytes) → dedup (place a s) ≡ insert a (dedup s)
unfolding dedup place
dedup-place a [] = rw (insert-nil a) (unfold push_new in refl)
dedup-place a (x ∷ s) = elim (Bool-cases (less x a)) [
  | inl h ↦ rw (h, dedup-place a s) (push_new-insert a x (dedup s) h)
  | inr h ↦ rw h (push_new-front a x (dedup s) h)
]

-- Sorting and dropping repeated neighbours leaves the set.
pub dedup-sort : (s : List Bytes) → dedup (sort s) ≡ of_names s
unfolding sort of_names
dedup-sort [] = unfold dedup in refl
dedup-sort (a ∷ s) = dedup-place a (sort s) ∙ ap (insert a) (dedup-sort s)

-- `HashSet::insert`; a hash set is the list of its elements in the order of their insertion.
unfoldable pub hash_insert : Bytes → List Bytes → List Bytes
hash_insert a s = if has a s then s else a ∷ s

pub has-hash_insert :
    (n a : Bytes) (s : List Bytes) → has n (hash_insert a s) ≡ (equal a n || has n s)
unfolding hash_insert
has-hash_insert n a s = elim (Bool-cases (has a s)) [
  | inr e ↦ rw e refl
  | inl e ↦ rw e (elim (Bool-cases (equal a n)) [
    | inr f ↦ rw f refl
    | inl f ↦ rw f (ap (λ m. has m s) (sym ((equal_iff a n).0 f)) ∙ e)
  ])
]

pub of_names-hash_insert :
    (a : Bytes) (s : List Bytes) → of_names (hash_insert a s) ≡ insert a (of_names s)
unfolding hash_insert
of_names-hash_insert a s = elim (Bool-cases (has a s)) [
  | inl e ↦ rw e (sym (insert_known a s e))
  | inr e ↦ rw e (unfold of_names in refl)
]

place-insert : (a : Bytes) (s : List Bytes) → has a s ≡ false → place a s ≡ insert a s
unfolding place
place-insert a [] h = sym (insert-nil a)
place-insert a (x ∷ s) h = elim (less_total a x) [
  | inl e ↦ absurd (known_head a x s e h)
  | inr (inl k) ↦ rw (less-greater a x k, insert-before a x s k) refl
  | inr (inr k) ↦ rw (k, insert-behind a x s k, place-insert a s (ground arith)) refl
]
  where
    known_head : (b y : Bytes) (r : List Bytes) → b ≡ y → has b (y ∷ r) ≡ false → ⊥
    known_head b y r e k = cc (ap (equal y) e, equal_refl y, k)

-- Sorting a hash set leaves the set.
pub sort-hash_insert :
    (a : Bytes) (s : List Bytes)
    → sort s ≡ of_names s
    → sort (hash_insert a s) ≡ of_names (hash_insert a s)
unfolding hash_insert
sort-hash_insert a s h = elim (Bool-cases (has a s)) [
  | inl e ↦ rw e h
  | inr e ↦
      rw e (
        unfold sort of_names in ap (place a) h ∙ place-insert a (of_names s) (has-of_names a s ∙ e))
]

-- Strictly in the order of the bytes
abbrev pub ascending : List Bytes → Bool
ascending [] = true
ascending (x ∷ []) = true
ascending (x ∷ y ∷ s) = less x y && ascending (y ∷ s)

insert-ascending : (a : Bytes) (s : List Bytes) → ascending s ≡ true → ascending (insert a s) ≡ true
insert-ascending a [] h = rw (insert-nil a) refl
insert-ascending a (x ∷ []) h = elim (less_total a x) [
  | inl e ↦ rw e (rw (insert_present x []) refl)
  | inr (inl k) ↦ rw (insert-before a x [] k, k) refl
  | inr (inr k) ↦ rw (insert-behind a x [] k, insert-nil a, k) refl
]
insert-ascending a (x ∷ y ∷ s) h = elim (less_total a x) [
  | inl e ↦ rw e (rw (insert_present x (y ∷ s)) h)
  | inr (inl k) ↦ rw (insert-before a x (y ∷ s) k, k) h
  | inr (inr k) ↦
      let later = insert-ascending a (y ∷ s) (ground arith) in
      let first : less x y ≡ true = ground arith in
      elim (less_total a y) [
        | inl e ↦ rw e (rw (insert-behind y x (y ∷ s) first, insert_present y s) h)
        | inr (inl l) ↦ rw (insert-behind a x (y ∷ s) k, insert-before a y s l, k, l) (ground arith)
        | inr (inr l) ↦
            rw (insert-behind a x (y ∷ s) k, insert-behind a y s l, first)
              (ap ascending (sym (insert-behind a y s l)) ∙ later)
      ]
]

pub of_names-ascending : (s : List Bytes) → ascending (of_names s) ≡ true
unfolding of_names
of_names-ascending [] = refl
of_names-ascending (a ∷ s) = insert-ascending a (of_names s) (of_names-ascending s)

pub has-append : (n : Bytes) (s t : List Bytes) → has n (s ++ t) ≡ (has n s || has n t)
has-append n [] t = refl
has-append n (a ∷ s) t = ground (arith, has-append n s t)
