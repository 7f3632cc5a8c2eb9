-- ===== src/Body/Fuel.antt =====
-- The rounds that the loops are given are enough: any further ones change nothing.
use polyform_polyguard.Agreement.{Fault}
use polyform_polyguard.Base.{
  ℕ, zero, suc, ◌+◌, ◌-◌, ◌≤◌, ◌<◌, ◌≡◌, refl, arith, inl, inr, List, [], ◌∷◌, ◌++◌, Bytes, codes,
  ap, ends_with, ltb, equal, ◌==◌, length, length-append, Bool-cases, Result, ok, err,
}
use polyform_polyguard.Body.Chunked.{
  Reading, chunk_size, chunk_data, chunks_from, on_input, grow_permit,
}
use polyform_polyguard.Body.{StateResult, ◌>>=◌, resume, line_from, line_up_to, trailers_from}
use polyform_polyguard.Types.{ChunkMeta, TrailerBlock}

module _ {S A B : Type 0} where
  -- Two continuations that agree where the first part succeeds.
  pub bind-agree :
      (m : StateResult S A) (f g : A → StateResult S B) (s : S)
      → ((a : A) (t : S) → m s ≡ (ok a, t) → f a t ≡ g a t)
      → (m >>= f) s ≡ (m >>= g) s
  bind-agree m f g s h = by_result (m s).0 (m s).1 refl
    where
      by_result : (r : Result Fault A) (t : S) → m s ≡ (r, t) → resume r f t ≡ resume r g t
      by_result (ok a) t e = h a t e
      by_result (err fault) t e = refl

  -- What stands behind a bind that succeeds.
  pub bind-ok :
      (m : StateResult S A) (f : A → StateResult S B) (s : S) {b : B} {u : S}
      → (m >>= f) s ≡ (ok b, u)
      → (a : A) × (t : S) × (m s ≡ (ok a, t)) × (f a t ≡ (ok b, u))
  bind-ok m f s {b} {u} h = by_result (m s).0 (m s).1 refl h
    where
      by_result :
          (r : Result Fault A) (t : S)
          → m s ≡ (r, t)
          → resume r f t ≡ (ok b, u)
          → (a : A) × (t' : S) × (m s ≡ (ok a, t')) × (f a t' ≡ (ok b, u))
      by_result (ok a) t e k = (a, t, e, k)
      by_result (err fault) t e k = cc

abbrev pub Gives : {S A : Type 0} → (A → Type 0) → StateResult S A → Type 0
Gives {S} {A} P m = (s : S) (a : A) (t : S) → m s ≡ (ok a, t) → P a

module _ {S : Type 0} (next_byte : StateResult S ℕ) (exact : ℕ → StateResult S Bytes)
    (parse_chunk_metadata : Bytes → Result Fault ChunkMeta) (declared : Result Fault (List Bytes))
    (parse_trailer_section : Bytes → List Bytes → Result Fault TrailerBlock) where
  abbrev pub size_of : ℕ → Bytes → StateResult (Reading S) ℕ
  size_of = chunk_size next_byte exact parse_chunk_metadata declared parse_trailer_section

  abbrev pub data_of : ℕ → Bytes → StateResult (Reading S) Bytes
  data_of = chunk_data next_byte exact parse_chunk_metadata declared parse_trailer_section

  -- A size that passes keeps the body within its limit.
  pub chunk_size-fits :
      (max : ℕ) (decoded : Bytes)
      → Gives (λ size. length decoded + size ≤ max) (size_of max decoded)
  unfolding chunk_size
  chunk_size-fits max decoded s size t h = ground arith

  pub chunk_data-length :
      ((n : ℕ) → Gives (λ chunk. length chunk ≡ n) (exact n))
      → (size : ℕ) (decoded : Bytes)
      → Gives (λ longer. length longer ≡ length decoded + size) (data_of size decoded)
  unfolding chunk_data grow_permit on_input
  chunk_data-length whole size decoded s longer t h =
      let (_, t1, e1, h1) = bind-ok (grow_permit size) _ s h in
      let (chunk, t2, e2, h2) = bind-ok (on_input (exact size)) _ t1 h1 in
      let read : exact size t1.input ≡ (ok chunk, t2.input) = ground arith in
      ground (arith, length-append decoded chunk, whole size t1.input chunk t2.input read)

  abbrev pub loop : ℕ → ℕ → Bytes → StateResult (Reading S) Bytes
  loop = chunks_from next_byte exact parse_chunk_metadata declared parse_trailer_section

  module _ (whole : (n : ℕ) → Gives (λ chunk. length chunk ≡ n) (exact n)) (max : ℕ) where
    -- Rounds that agree behind every chunk agree before it.
    rounds-step :
        (f g : ℕ) (decoded : Bytes)
        → ((size : ℕ) (longer : Bytes) (u : Reading S)
            → length decoded + size ≤ max
            → 0 < size
            → length longer ≡ length decoded + size
            → loop f max longer u ≡ loop g max longer u)
        → (s : Reading S) → loop (suc f) max decoded s ≡ loop (suc g) max decoded s
    unfolding chunks_from
    rounds-step f g decoded h s = bind-agree (size_of max decoded) _ _ s (λ size t e.
        elim (Bool-cases (size == 0)) [
          | inl z ↦ rw z refl
          | inr z ↦ rw z (
              bind-agree (data_of size decoded) _ _ t (λ longer u d.
                h size longer u (chunk_size-fits max decoded s size t e) (ground arith)
                  (chunk_data-length whole size decoded t longer u d)))
        ])

    -- From a body of `decoded` bytes on, any two numbers of rounds that cover the bytes that may
    -- still come give the same.
    pub chunks_from-rounds :
        (f g : ℕ) (decoded : Bytes)
        → max ≤ length decoded + f
        → max ≤ length decoded + g
        → (s : Reading S) → loop (suc f) max decoded s ≡ loop (suc g) max decoded s
    chunks_from-rounds zero g decoded p q =
        rounds-step zero g decoded (λ size longer u fits pos long. absurd (omega arith))
    chunks_from-rounds (suc f) zero decoded p q =
        rounds-step (suc f) zero decoded (λ size longer u fits pos long. absurd (omega arith))
    chunks_from-rounds (suc f) (suc g) decoded p q =
        rounds-step (suc f) (suc g) decoded (λ size longer u fits pos long.
          chunks_from-rounds f g longer (omega arith) (omega arith) u)

module _ {S : Type 0} (next_byte : StateResult S ℕ) where
  -- A line that is read has a byte at least.
  line_from-longer :
      (rounds : ℕ) (output : Bytes)
      → Gives (λ line. length output < length line) (line_from next_byte rounds output)
  unfolding line_from
  line_from-longer zero output s line t h = cc
  line_from-longer (suc rounds) output s line t h =
      let (byte, u, e, k) = bind-ok next_byte _ s h in
      let longer = output ++ byte ∷ [] in
      let grew = length-append output (byte ∷ []) in
      elim (Bool-cases (ends_with longer (codes "\r\n"))) [
        | inl ends ↦
            (let given : longer ≡ line = ground arith in omega (arith, grew, ap length given))
        | inr open_line ↦
            let rest = line_from-longer rounds longer u line t (rw open_line at (k)) in omega arith
      ]

  line_up_to-longer : (max : ℕ) → Gives (λ line. 0 < length line) (line_up_to next_byte max)
  unfolding line_up_to
  line_up_to-longer max = line_from-longer (suc max) []

  abbrev trailers_loop : ℕ → ℕ → Bytes → StateResult S Bytes
  trailers_loop = trailers_from next_byte

  -- Rounds that agree behind every line agree before it.
  trailers-step :
      (f g max : ℕ) (output : Bytes)
      → ((longer : Bytes) (u : S)
          → length output < length longer
          → length longer ≤ max
          → trailers_loop f max longer u ≡ trailers_loop g max longer u)
      → (s : S) → trailers_loop (suc f) max output s ≡ trailers_loop (suc g) max output s
  unfolding trailers_from
  trailers-step f g max output h s =
      bind-agree (line_up_to next_byte (max - length output)) _ _ s (λ line t e.
        let grew = length-append output line in
        let pos = line_up_to-longer (max - length output) s line t e in
        elim (Bool-cases (ltb max (length (output ++ line)))) [
          | inl over ↦ rw over refl
          | inr fits ↦ rw fits (elim (Bool-cases (equal line (codes "\r\n"))) [
            | inl ends ↦ rw ends refl
            | inr more ↦ rw more (h (output ++ line) t (omega arith) (ground arith))
          ])
        ])

  -- From `output` on, any two numbers of rounds that cover the bytes that may still come give the
  -- same trailers.
  pub trailers_from-rounds :
      (f g max : ℕ) (output : Bytes)
      → max ≤ length output + f
      → max ≤ length output + g
      → (s : S) → trailers_loop (suc f) max output s ≡ trailers_loop (suc g) max output s
  trailers_from-rounds zero g max output p q =
      trailers-step zero g max output (λ longer u grew fits. absurd (omega arith))
  trailers_from-rounds (suc f) zero max output p q =
      trailers-step (suc f) zero max output (λ longer u grew fits. absurd (omega arith))
  trailers_from-rounds (suc f) (suc g) max output p q =
      trailers-step (suc f) (suc g) max output
        (λ longer u grew fits. trailers_from-rounds f g max longer (omega arith) (omega arith) u)
