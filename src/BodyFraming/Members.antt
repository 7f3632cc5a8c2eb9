-- ===== src/BodyFraming/Members.antt =====
-- Facts about the two fields and their members that the implementations share.
use Prim.Native.Nat.{bit_or}
use polyform_polyguard.Base.{
  ℕ, ◌+◌, Bool, true, false, ◌||◌, Option, none, some, List, [], ◌∷◌, ◌++◌, ◌≡◌, refl, inl, inr,
  arith, Bytes, if◌then◌else◌, Bool-cases, equal, equal_iff, ok, err, ◌>>=◌, bind-eq-ok, try_fold,
  map_or, ◌>>◌, refuse_if,
}
use polyform_polyguard.Base.Split.{split-cons}
use polyform_polyguard.BodyFraming.{
  content_length_name, transfer_encoding_name, is_named, members, present, agree, read_length,
  conflicts,
}
use polyform_polyguard.Types.{HeaderField, PolyguardResult, conflicting_content_length}

pub names_exclusive :
    (f : HeaderField)
    → is_named content_length_name f ≡ true
    → is_named transfer_encoding_name f ≡ false
names_exclusive f h = rw ((equal_iff f.name content_length_name).0 h) (unfold equal in refl)

-- A field that is present has a member.
pub members-present :
    (n : Bytes) (fs : List HeaderField)
    → present n fs ≡ true
    → (m : Bytes) × (rest : List Bytes) × (members n fs ≡ m ∷ rest)
unfolding members
members-present n [] h = cc
members-present n (f ∷ fs) h = elim (Bool-cases (is_named n f)) [
  | inl e ↦ let (m, rest, g) = split-cons b',' f.value in (m, rest ++ members n fs, rw (e, g))
  | inr e ↦ rw e (members-present n fs (ground arith))
]

-- Agreeing on one member or more leaves a length.
pub agree-some :
    (a : Option ℕ) (m : Bytes) {b : Option ℕ} → agree a m ≡ ok b → (v : ℕ) × (b ≡ some v)
unfolding agree
agree-some a m h =
    let (v, e, g) =
      bind-eq-ok (read_length m)
        (λ v. refuse_if (conflicts a v) conflicting_content_length >> ok (some v)) h in
    (v, ground arith)

pub consensus-some :
    (a : Option ℕ) (m : Bytes) (rest : List Bytes) {b : Option ℕ}
    → try_fold agree a (m ∷ rest) ≡ ok b
    → (v : ℕ) × (b ≡ some v)
consensus-some a m [] h =
    let (c, e, g) = bind-eq-ok (agree a m) ok h in let (v, s) = agree-some a m e in (v, cc)
consensus-some a m (m' ∷ rest) h =
    let (c, e, g) = bind-eq-ok (agree a m) (λ c. try_fold agree c (m' ∷ rest)) h in
    consensus-some c m' rest g

bind_default :
    {B : Type 0} (r : PolyguardResult (Option ℕ)) (k k' : PolyguardResult B)
    (g : ℕ → PolyguardResult B)
    → ((b : Option ℕ) → r ≡ ok b → (v : ℕ) × (b ≡ some v))
    → (r >>= λ b. map_or b k g) ≡ (r >>= λ b. map_or b k' g)
bind_default (err e) k k' g h = refl
bind_default (ok b) k k' g h = let (v, e) = h b refl in rw e

-- What a length field that is present leaves to the case of no agreed length is never used.
pub consensus_default :
    {B : Type 0} (fs : List HeaderField) (k k' : PolyguardResult B) (g : ℕ → PolyguardResult B)
    → present content_length_name fs ≡ true
    → (try_fold agree none (members content_length_name fs) >>= λ b. map_or b k g)
      ≡ (try_fold agree none (members content_length_name fs) >>= λ b. map_or b k' g)
consensus_default fs k k' g h =
    let (m, rest, e) = members-present content_length_name fs h in
    rw e
      (bind_default (try_fold agree none (m ∷ rest)) k k' g (λ b r. consensus-some none m rest r))

-- The two bits tell which fields are present.
abbrev pub bits : Bool → Bool → ℕ
bits a b = (if a then 1 else 0) + (if b then 2 else 0)

pub bits-or :
    (a b c t : Bool)
    → (c ≡ true → t ≡ false)
    → bit_or (bits a b) (if c then 1 else if t then 2 else 0) ≡ bits (a || c) (b || t)
bits-or false false false false _ = refl
bits-or false false false true _ = refl
bits-or false false true false _ = refl
bits-or false true false false _ = refl
bits-or false true false true _ = refl
bits-or false true true false _ = refl
bits-or true false false false _ = refl
bits-or true false false true _ = refl
bits-or true false true false _ = refl
bits-or true true false false _ = refl
bits-or true true false true _ = refl
bits-or true true true false _ = refl
bits-or _ _ true true h = cc (h refl)

pub bits-false : (a b : Bool) → bits a b ≡ bits (a || false) (b || false)
bits-false a b = ground arith

pub bits_assoc :
    (a c p b t q : Bool)
    → bits ((a || c) || p) ((b || t) || q) ≡ bits (a || (c || p)) (b || (t || q))
bits_assoc a c p b t q = ground arith
