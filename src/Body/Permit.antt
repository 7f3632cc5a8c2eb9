-- ===== src/Body/Permit.antt =====
-- The memory that a chunked body takes: on every outcome what the budget has in use moves with
-- what the permit holds, and a body that is decoded is held by its permit.
use polyform_polyguard.Agreement.{Fault}
use polyform_polyguard.Base.{
  ℕ, zero, suc, ◌+◌, ◌≤◌, ◌≡◌, refl, arith, inl, inr, List, Bytes, ◌==◌, length, Bool-cases,
  usize_max, Result, ok, err,
}
use polyform_polyguard.Body.Chunked.{
  Reading, chunk_size, last_chunk, chunk_data, chunks_from, on_input, grow_permit,
}
use polyform_polyguard.Body.Fuel.{
  bind-ok, Gives, loop, size_of, data_of, chunk_data-length, chunk_size-fits,
}
use polyform_polyguard.Body.{StateResult, ◌>>=◌, resume}
use polyform_polyguard.Memory.Calls.{grow_lem, grow-ok}
use polyform_polyguard.Types.{ChunkMeta, TrailerBlock}

-- The permit is of this budget, and its bytes are in use.
pub record Owns {S : Type 0} (s : Reading S) : Type 0 where
  pub of_budget : s.permit.budget ≡ s.budget.id
  pub in_use : s.permit.bytes ≤ s.budget.used
  pub machine_limit : s.budget.limit ≤ usize_max

-- Nothing but the two counts changes, and both by the same.
pub record Moves {S : Type 0} (s t : Reading S) : Type 0 where
  pub same_id : t.budget.id ≡ s.budget.id
  pub same_limit : t.budget.limit ≡ s.budget.limit
  pub same_budget : t.permit.budget ≡ s.permit.budget
  pub both_moved : t.budget.used + s.permit.bytes ≡ s.budget.used + t.permit.bytes

module _ {S : Type 0} where
  abbrev Keeps : {A : Type 0} → StateResult (Reading S) A → Type 0
  Keeps m = (s : Reading S) → Owns s → Moves s (m s).1

  Moves-Owns : {s t : Reading S} → Moves s t → Owns s → Owns t
  Moves-Owns m o = ground arith

  Moves-trans : {s t u : Reading S} → Moves s t → Moves t u → Moves s u
  Moves-trans m n = ground arith

  still : (s : Reading S) → Moves s s
  still s = ground arith

  bind-Keeps :
      {A B : Type 0} (m : StateResult (Reading S) A) (f : A → StateResult (Reading S) B)
      → Keeps m
      → ((a : A) → Keeps (f a))
      → Keeps (m >>= f)
  bind-Keeps {A = A} m f k l s o = by_result (m s).0
    where
      by_result : (r : Result Fault A) → Moves s (resume r f (m s).1).1
      by_result (ok a) = Moves-trans (k s o) (l a (m s).1 (Moves-Owns (k s o) o))
      by_result (err fault) = k s o

  grow_permit-Keeps : (n : ℕ) → Keeps {A = Unit {0}} (grow_permit n)
  unfolding grow_permit
  grow_permit-Keeps n s o =
      let e = grow_lem s.budget o.machine_limit s.permit n o.of_budget o.in_use in ground (arith, e)

  on_input-Keeps : {A : Type 0} (m : StateResult S A) → Keeps (on_input m)
  unfolding on_input
  on_input-Keeps m s o = record {
    same_id = refl;
    same_limit = refl;
    same_budget = refl;
    both_moved = refl;
  }

module _ {S : Type 0} (next_byte : StateResult S ℕ) (exact : ℕ → StateResult S Bytes)
    (parse_chunk_metadata : Bytes → Result Fault ChunkMeta) (declared : Result Fault (List Bytes))
    (parse_trailer_section : Bytes → List Bytes → Result Fault TrailerBlock) where
  abbrev size : ℕ → Bytes → StateResult (Reading S) ℕ
  size = size_of next_byte exact parse_chunk_metadata declared parse_trailer_section

  abbrev chunk : ℕ → Bytes → StateResult (Reading S) Bytes
  chunk = data_of next_byte exact parse_chunk_metadata declared parse_trailer_section

  abbrev last : Bytes → StateResult (Reading S) Bytes
  last = last_chunk next_byte exact parse_chunk_metadata declared parse_trailer_section

  abbrev rounds : ℕ → ℕ → Bytes → StateResult (Reading S) Bytes
  rounds = loop next_byte exact parse_chunk_metadata declared parse_trailer_section

  size-still :
      (max : ℕ) (decoded : Bytes) (s : Reading S)
      → ((size max decoded s).1.budget ≡ s.budget) × ((size max decoded s).1.permit ≡ s.permit)
  unfolding chunk_size on_input
  size-still max decoded s = ground arith

  last-still :
      (decoded : Bytes) (s : Reading S)
      → ((last decoded s).1.budget ≡ s.budget) × ((last decoded s).1.permit ≡ s.permit)
  unfolding last_chunk on_input
  last-still decoded s = ground arith

  last-ok :
      (decoded : Bytes) (s : Reading S) {body : Bytes} {t : Reading S}
      → last decoded s ≡ (ok body, t)
      → body ≡ decoded
  unfolding last_chunk on_input
  last-ok decoded s h = ground arith

  Moves-still : (s t : Reading S) → (t.budget ≡ s.budget) × (t.permit ≡ s.permit) → Moves s t
  Moves-still s t e = ground arith

  chunk-Keeps : (n : ℕ) (decoded : Bytes) → Keeps (chunk n decoded)
  unfolding chunk_data
  chunk-Keeps n decoded = bind-Keeps (grow_permit n) _ (grow_permit-Keeps n) (λ _.
      bind-Keeps (on_input (exact n)) _ (on_input-Keeps (exact n)) (λ read.
        bind-Keeps (on_input (exact 2)) _ (on_input-Keeps (exact 2))
          (λ terminator s o. Moves-still s _ (ground arith))))

  -- However the decoding ends, the budget and the permit move together.
  pub chunks_from-Moves : (f max : ℕ) (decoded : Bytes) → Keeps (rounds f max decoded)
  unfolding chunks_from
  chunks_from-Moves zero max decoded = λ s o. still s
  chunks_from-Moves (suc f) max decoded =
      bind-Keeps (size max decoded) _ (λ s o. Moves-still s _ (size-still max decoded s))
        (λ n s o. elim (Bool-cases (n == 0)) [
          | inl z ↦ rw z (Moves-still s _ (last-still decoded s))
          | inr z ↦ rw z (
              bind-Keeps (chunk n decoded) _ (chunk-Keeps n decoded)
                (λ longer. chunks_from-Moves f max longer) s o)
        ])

  chunk-took :
      (n : ℕ) (decoded : Bytes) (s : Reading S) {longer : Bytes} {t : Reading S}
      → chunk n decoded s ≡ (ok longer, t)
      → t.permit.bytes ≡ s.permit.bytes + n
  unfolding chunk_data grow_permit on_input
  chunk-took n decoded s h = ground (arith, grow-ok s.budget s.permit n)

  pub chunks_from-took :
      ((n : ℕ) → Gives (λ read. length read ≡ n) (exact n))
      → (f max : ℕ) (decoded : Bytes) (s : Reading S) {body : Bytes} {t : Reading S}
      → length decoded ≤ max
      → rounds f max decoded s ≡ (ok body, t)
      → (t.permit.bytes + length decoded ≡ s.permit.bytes + length body) × (length body ≤ max)
  unfolding chunks_from
  chunks_from-took whole zero max decoded s fits h = cc
  chunks_from-took whole (suc f) max decoded s {body} {t} fits h =
      let (n, t1, e, k) = bind-ok (size max decoded) _ s h in
      let untouched = size-still max decoded s in
      elim (Bool-cases (n == 0)) [
        | inl z ↦
            let k' = rw z at k in
            let done = last-ok decoded t1 k' in let same = last-still decoded t1 in ground arith
        | inr z ↦
            let k' = rw z at k in
            let (longer, t2, d, m) = bind-ok (chunk n decoded) _ t1 k' in
            let width =
              chunk_data-length next_byte exact parse_chunk_metadata declared parse_trailer_section
                whole n decoded t1 longer t2 d in
            let room =
              chunk_size-fits next_byte exact parse_chunk_metadata declared parse_trailer_section
                max decoded s n t1 e in
            let held = chunk-took n decoded t1 {longer = longer} {t = t2} d in
            let rest = chunks_from-took whole f max longer t2 (omega arith) m in ground arith
      ]
