-- ===== src/Body/Decoded.antt =====
-- What `read_chunked` promises over a buffered input.
use polyform_polyguard.Agreement.{Fault}
use polyform_polyguard.Base.{
  ℕ, zero, suc, ◌+◌, ◌-◌, ◌≤◌, ◌<◌, ◌≡◌, arith, take-length, List, [], Bytes, leb, length, take,
  drop, length-append, length-drop, length-take_le, Result, ok, inl, inr, Bool-cases,
}
use polyform_polyguard.Body.Chunked.{Reading, read_chunked}
use polyform_polyguard.Body.Fuel.{Gives, loop, chunks_from-rounds}
use polyform_polyguard.Body.Permit.{Owns, Moves, chunks_from-Moves, chunks_from-took}
use polyform_polyguard.Body.{
  StateResult, BufferedInput, buffered_len, read_byte, read_exact, read_exact_vec,
}
use polyform_polyguard.Types.{ChunkMeta, TrailerBlock}

read_exact_vec-length : (n : ℕ) → Gives (λ chunk. length chunk ≡ n) (read_exact_vec n)
unfolding read_exact_vec read_exact
read_exact_vec-length n s chunk t h =
    let rest = drop s.offset s.buffer in
    let width = length-drop s.offset s.buffer in
    elim (Bool-cases (leb n (buffered_len s))) [
      | inl fits ↦
          let short : n ≤ length rest = ground (arith, width) in
          ground (arith, fits, length-take_le n rest short)
      | inr over ↦
          let wanted = n - buffered_len s in
          let incoming = s.stream.incoming in
          ground (
            arith,
            over,
            width,
            take-length rest,
            length-append rest (take wanted incoming),
            length-take_le wanted incoming,
          )
    ]

module _ (parse_chunk_metadata : Bytes → Result Fault ChunkMeta)
    (declared : Result Fault (List Bytes))
    (parse_trailer_section : Bytes → List Bytes → Result Fault TrailerBlock) (max : ℕ) where
  abbrev decode : StateResult (Reading BufferedInput) Bytes
  decode = read_chunked parse_chunk_metadata declared parse_trailer_section max

  -- The rounds suffice: with any greater number of rounds the decoder gives the same.
  pub read_chunked_rounds :
      (rounds : ℕ) (s : Reading BufferedInput)
      → max < rounds
      → loop read_byte read_exact_vec parse_chunk_metadata declared parse_trailer_section rounds max
          [] s
        ≡ decode s
  unfolding read_chunked
  read_chunked_rounds (suc rounds) s h =
      chunks_from-rounds read_byte read_exact_vec parse_chunk_metadata declared
        parse_trailer_section read_exact_vec-length max rounds max [] (omega arith) (omega arith) s
  read_chunked_rounds zero s h = absurd (omega arith)

  -- For a permit of the budget whose bytes are in use, and a limit that is a machine number:
  -- however the decoding ends, the bytes in use grow by what the permit grows by, and nothing else
  -- of either changes.
  pub read_chunked-Moves : (s : Reading BufferedInput) → Owns s → Moves s (decode s).1
  unfolding read_chunked
  read_chunked-Moves =
      chunks_from-Moves read_byte read_exact_vec parse_chunk_metadata declared parse_trailer_section
        (suc max) max []

  -- A body that is decoded is no longer than the limit, and the permit grew by its length.
  pub read_chunked-took :
      (s : Reading BufferedInput) (body : Bytes) (t : Reading BufferedInput)
      → decode s ≡ (ok body, t)
      → (t.permit.bytes ≡ s.permit.bytes + length body) × (length body ≤ max)
  unfolding read_chunked
  read_chunked-took s body t h =
      let (took, fits) =
        chunks_from-took read_byte read_exact_vec parse_chunk_metadata declared
          parse_trailer_section read_exact_vec-length (suc max) max [] s (omega arith) h in
      (omega (arith, took), fits)
