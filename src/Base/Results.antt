-- ===== src/Base/Results.antt =====
-- Rust's `Result` with its `?` operator, and `Option`'s `ok_or`.
use mathlib.Core.Bool.{Bool, true, false}
use mathlib.Core.List.{List, [], ◌∷◌, ◌++◌}
use mathlib.Core.Option.{Option, none, some}
use package.polyform_polyguard.Base.Tests.{if◌then◌else◌}
use mathlib.Core.Path.{◌≡◌, refl, sym, ap, ◌∙◌, fun_ext}

pub data Result {ℓ κ} (E : Type ℓ) (A : Type κ) : Type (ℓ ⊔ κ) where
  ok : A → Result E A
  err : E → Result E A

infixl 5 ◌>>=◌ ◌>>◌
abbrev pub ◌>>=◌ {ℓ κ μ} :
    {E : Type ℓ} {A : Type κ} {B : Type μ} → Result E A → (A → Result E B) → Result E B
ok a >>= f = f a
err e >>= f = err e

abbrev pub ◌>>◌ {ℓ μ} : {E : Type ℓ} {B : Type μ} → Result E (Unit {0}) → Result E B → Result E B
m >> k = m >>= λ _. k

abbrev pub ok_or {ℓ κ} : {E : Type ℓ} {A : Type κ} → Option A → E → Result E A
ok_or none e = err e
ok_or (some a) e = ok a

abbrev pub is_ok {ℓ κ} : {E : Type ℓ} {A : Type κ} → Result E A → Bool
is_ok (ok a) = true
is_ok (err e) = false

-- `if test { return Err(e) }`
abbrev pub refuse_if {ℓ} : {E : Type ℓ} → Bool → E → Result E (Unit {0})
refuse_if true e = err e
refuse_if false e = ok tt

pub bind_assoc {ℓ κ μ ν} :
    {E : Type ℓ} {A : Type κ} {B : Type μ} {C : Type ν} (m : Result E A) (f : A → Result E B)
    (g : B → Result E C)
    → ((m >>= f) >>= g) ≡ (m >>= λ a. f a >>= g)
bind_assoc (ok a) f g = refl
bind_assoc (err e) f g = refl

pub bind_unit {ℓ κ} : {E : Type ℓ} {A : Type κ} (m : Result E A) → (m >>= ok) ≡ m
bind_unit (ok a) = refl
bind_unit (err e) = refl

pub bind-eq-ok {ℓ κ μ} :
    {E : Type ℓ} {A : Type κ} {B : Type μ} (r : Result E A) (next : A → Result E B) {b : B}
    → (r >>= next) ≡ ok b
    → (x : A) × (r ≡ ok x) × (next x ≡ ok b)
bind-eq-ok (ok x) next given = (x, refl, given)
bind-eq-ok (err e) next given = cc

-- Two continuations that agree on the result
pub bind_agree {ℓ κ μ} :
    {E : Type ℓ} {A : Type κ} {B : Type μ} (r : Result E A) (f g : A → Result E B)
    → ((a : A) → r ≡ ok a → f a ≡ g a)
    → (r >>= f) ≡ (r >>= g)
bind_agree (ok a) f g same = same a refl
bind_agree (err e) f g same = refl

pub bind_if {ℓ κ μ} :
    {E : Type ℓ} {A : Type κ} {B : Type μ} (test : Bool) (e : E) (a : A) (f : A → Result E B)
    → ((if test then err e else ok a) >>= f) ≡ (if test then err e else f a)
bind_if true e a f = refl
bind_if false e a f = refl

module _ {ℓ κ μ} {E : Type ℓ} {A : Type κ} {S : Type μ} where
  -- `Iterator::try_fold`
  abbrev pub try_fold : (S → A → Result E S) → S → List A → Result E S
  try_fold f s [] = ok s
  try_fold f s (x ∷ xs) = f s x >>= λ t. try_fold f t xs

  pub try_fold-append :
      (f : S → A → Result E S) (s : S) (xs ys : List A)
      → try_fold f s (xs ++ ys) ≡ (try_fold f s xs >>= λ t. try_fold f t ys)
  try_fold-append f s [] ys = refl
  try_fold-append f s (x ∷ xs) ys =
      ap (◌>>=◌ (f s x)) (fun_ext (λ t. try_fold-append f t xs ys))
      ∙ sym (bind_assoc (f s x) (λ t. try_fold f t xs) (λ t. try_fold f t ys))
