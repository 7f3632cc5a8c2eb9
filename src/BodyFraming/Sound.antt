-- ===== src/BodyFraming/Sound.antt =====
-- What a framing promises of the fields that it was read from.
use polyform_polyguard.Base.{
  ℕ, ◌≤◌, ◌<◌, Bool, true, false, Option, none, some, List, [], ◌∷◌, ◌≡◌, refl, ap, subst, ◌∙◌, inl,
  inr, arith, Bytes, Bool-cases, All, ok, ◌>>◌, bind-eq-ok, refuse_if, try_fold,
}
use polyform_polyguard.BodyFraming.Codings.{members-absent}
use polyform_polyguard.BodyFraming.{
  content_length_limit, content_length_name, transfer_encoding_name, members, present, read_length,
  agree, conflicts, of_agreed, of_codings, is_chunked, frame, framing,
}
use polyform_polyguard.Types.{HeaderField, BodyFraming, conflicting_content_length}

read_length-le : (m : Bytes) {v : ℕ} → read_length m ≡ ok v → v ≤ content_length_limit
unfolding read_length
read_length-le m h = ground arith

agree-eq-ok :
    (a : Option ℕ) (m : Bytes) {b : Option ℕ}
    → agree a m ≡ ok b
    → (v : ℕ) × (b ≡ some v) × (read_length m ≡ ok v) × (conflicts a v ≡ false)
unfolding agree
agree-eq-ok a m h =
    let (v, e, g) =
      bind-eq-ok (read_length m)
        (λ v. refuse_if (conflicts a v) conflicting_content_length >> ok (some v)) h in
    (v, ground arith, e, ground arith)

fold-agreed :
    (ms : List Bytes) (p : ℕ) {b : Option ℕ}
    → try_fold agree (some p) ms ≡ ok b
    → (b ≡ some p) × All (λ m. read_length m ≡ ok p) ms
fold-agreed [] p h = (ground arith, tt)
fold-agreed (m ∷ ms) p {b} h =
    let (c, e, g) = bind-eq-ok (agree (some p) m) (λ c. try_fold agree c ms) h in
    let (v, s, reads, same) = agree-eq-ok (some p) m e in
    let q : v ≡ p = ground arith in
    let (bs, rest) = fold-agreed ms p (subst (λ x. try_fold agree x ms ≡ ok b) (s ∙ ap some q) g) in
    (bs, (reads ∙ ap ok q, rest))

fold-lengths :
    (ms : List Bytes) {n : ℕ}
    → try_fold agree none ms ≡ ok (some n)
    → All (λ m. read_length m ≡ ok n) ms × (n ≤ content_length_limit)
fold-lengths [] h = cc
fold-lengths (m ∷ ms) {n} h =
    let (c, e, g) = bind-eq-ok (agree none m) (λ c. try_fold agree c ms) h in
    let (v, s, reads, same) = agree-eq-ok none m e in
    let (ns, rest) = fold-agreed ms v (subst (λ x. try_fold agree x ms ≡ ok (some n)) s g) in
    let q : v ≡ n = ground arith in
    (
      (reads ∙ ap ok q, subst (λ x. All (λ k. read_length k ≡ ok x) ms) q rest),
      read_length-le m (reads ∙ ap ok q),
    )

of_codings-eq-ok :
    (ms : List Bytes) {r : BodyFraming}
    → of_codings ms ≡ ok r
    → (r ≡ BodyFraming.chunked) × ((m : Bytes) × (ms ≡ m ∷ []) × (is_chunked m ≡ true))
of_codings-eq-ok [] h = cc
of_codings-eq-ok (m ∷ []) h = elim (Bool-cases (is_chunked m)) [
  | inl y ↦ (ground arith, (m, refl, y))
  | inr n ↦ ground arith
]
of_codings-eq-ok (m ∷ _ ∷ _) h = cc

-- What the fields hold when they have this framing.
abbrev pub Describes : List HeaderField → BodyFraming → Type 0
Describes fs BodyFraming.none =
    (present transfer_encoding_name fs ≡ false)
    × All (λ m. read_length m ≡ ok 0) (members content_length_name fs)
Describes fs (BodyFraming.content_length n) =
    (present transfer_encoding_name fs ≡ false)
    × (present content_length_name fs ≡ true)
    × All (λ m. read_length m ≡ ok n) (members content_length_name fs)
    × (0 < n)
    × (n ≤ content_length_limit)
Describes fs BodyFraming.chunked =
    (present content_length_name fs ≡ false)
    × ((m : Bytes) × (members transfer_encoding_name fs ≡ m ∷ []) × (is_chunked m ≡ true))

from_agreed :
    (fs : List HeaderField)
    → present content_length_name fs ≡ true
    → present transfer_encoding_name fs ≡ false
    → (b : Option ℕ) (r : BodyFraming) → try_fold agree none (members content_length_name fs) ≡ ok b
    → of_agreed b ≡ ok r
    → Describes fs r
from_agreed fs h k none r f g = cc
from_agreed fs h k (some v) BodyFraming.none f g =
    let q : v ≡ 0 = ground arith in
    (k, (fold-lengths (members content_length_name fs) (f ∙ ap (λ x. ok (some x)) q)).0)
from_agreed fs h k (some v) (BodyFraming.content_length n) f g =
    let q : v ≡ n = ground arith in
    let (reads, fits) =
      fold-lengths (members content_length_name fs) (f ∙ ap (λ x. ok (some x)) q) in
    (k, h, reads, ground arith, fits)
from_agreed fs h k (some v) BodyFraming.chunked f g = ground arith

frame_sound :
    (fs : List HeaderField) (a b : Bool) (r : BodyFraming)
    → present content_length_name fs ≡ a
    → present transfer_encoding_name fs ≡ b
    → frame a b fs ≡ ok r
    → Describes fs r
unfolding frame
frame_sound fs true true r h k e = cc
frame_sound fs false true BodyFraming.none h k e = cc (of_codings-eq-ok _ e).0
frame_sound fs false true (BodyFraming.content_length n) h k e = cc (of_codings-eq-ok _ e).0
frame_sound fs false true BodyFraming.chunked h k e = (h, (of_codings-eq-ok _ e).1)
frame_sound fs true false r h k e =
    let (b, f, g) = bind-eq-ok (try_fold agree none (members content_length_name fs)) of_agreed e in
    from_agreed fs h k b r f g
frame_sound fs false false BodyFraming.none h k e =
    (k, rw (members-absent content_length_name fs h) tt)
frame_sound fs false false (BodyFraming.content_length n) h k e = cc
frame_sound fs false false BodyFraming.chunked h k e = cc

-- What has a framing is described by it.
pub framing_sound : (fs : List HeaderField) (r : BodyFraming) → framing fs ≡ ok r → Describes fs r
unfolding framing
framing_sound fs r = frame_sound fs _ _ r refl refl
