-- ===== src/Body/Chunked.antt =====
-- `read_chunked` of src/proxy.rs. The two parsers are its calls of the agreement, and `declared`
-- is what `declared_trailers` makes of the headers. A round of the loop reads one chunk.
use polyform_polyguard.Agreement.{Fault, protocol, too_large, internal}
use polyform_polyguard.Base.{
  ℕ, zero, suc, Bool, true, not, List, [], ◌++◌, Bytes, codes, ltb, ◌==◌, if◌then◌else◌, length,
  equal, map_or, checked_add, usize_max, Result,
}
use polyform_polyguard.Body.{
  StateResult, ◌>>=◌, ◌>>◌, pure, fail, lift, refuse, BufferedInput, read_byte, read_exact_vec,
  line_up_to, trailers_up_to,
}
use polyform_polyguard.Memory.{MemoryBudget, MemoryPermit, grow}
use polyform_polyguard.Types.{ChunkMeta, TrailerBlock, invalid_chunk, invalid_trailer}

-- What the decoder changes: the input, and the memory that the body takes.
pub record Reading (S : Type 0) : Type 0 where
  pub input : S
  pub budget : MemoryBudget
  pub permit : MemoryPermit

abbrev pub max_chunk_line_bytes : ℕ
max_chunk_line_bytes = 4_096

abbrev pub max_trailer_bytes : ℕ
max_trailer_bytes = 8_192

abbrev pub bad_chunk : Bytes → Fault
bad_chunk reason = protocol (invalid_chunk reason)

abbrev pub bad_trailer : Bytes → Fault
bad_trailer reason = protocol (invalid_trailer reason)

module _ {S : Type 0} where
  unfoldable pub on_input : {A : Type 0} → StateResult S A → StateResult (Reading S) A
  on_input m reading = let (r, input) = m reading.input in (r, record reading { input = input })

  -- `permit.grow(size)?`
  unfoldable pub grow_permit : ℕ → StateResult (Reading S) (Unit {0})
  grow_permit size reading =
      let merged = grow reading.budget reading.permit size in
      (merged.result, record reading { budget = merged.budget; permit = merged.permit })

-- Whether the body would exceed its limit.
abbrev pub exceeds : ℕ → Bytes → ℕ → Bool
exceeds max decoded size = map_or (checked_add (length decoded) size) true (λ total. ltb max total)

module _ {S : Type 0} (next_byte : StateResult S ℕ) (exact : ℕ → StateResult S Bytes)
    (parse_chunk_metadata : Bytes → Result Fault ChunkMeta) (declared : Result Fault (List Bytes))
    (parse_trailer_section : Bytes → List Bytes → Result Fault TrailerBlock) where
  -- The line of a chunk up to the test for its size.
  unfoldable pub chunk_size : ℕ → Bytes → StateResult (Reading S) ℕ
  unfolding on_input
  chunk_size max decoded = do
    line ← on_input (line_up_to next_byte max_chunk_line_bytes)
    metadata ← lift (parse_chunk_metadata line)
    refuse (not (metadata.bytes_consumed == length line)) (bad_chunk (codes "trailing_bytes"))
    refuse (ltb usize_max metadata.size) too_large
    refuse (exceeds max decoded metadata.size) too_large
    pure metadata.size

  -- `if size == 0 { .. }`
  unfoldable pub last_chunk : Bytes → StateResult (Reading S) Bytes
  unfolding on_input
  last_chunk decoded = do
    trailers_wire ← on_input (trailers_up_to next_byte max_trailer_bytes)
    names ← lift declared
    trailers ← lift (parse_trailer_section trailers_wire names)
    refuse (not (trailers.bytes_consumed == length trailers_wire))
        (bad_trailer (codes "trailing_bytes"))
    pure decoded

  -- The data of a chunk and what ends it.
  unfoldable pub chunk_data : ℕ → Bytes → StateResult (Reading S) Bytes
  unfolding on_input grow_permit
  chunk_data size decoded = do
    grow_permit size
    chunk ← on_input (exact size)
    terminator ← on_input (exact 2)
    refuse (not (equal terminator (codes "\r\n"))) (bad_chunk (codes "invalid_terminator"))
    pure (decoded ++ chunk)

  unfoldable pub chunks_from : ℕ → ℕ → Bytes → StateResult (Reading S) Bytes
  unfolding chunk_size last_chunk chunk_data
  chunks_from zero max decoded = fail internal
  chunks_from (suc rounds) max decoded = do
    size ← chunk_size max decoded
    let last = last_chunk decoded
    let more = chunk_data size decoded >>= chunks_from rounds max
    if size == 0 then last else more

unfoldable pub read_chunked :
    (Bytes → Result Fault ChunkMeta)
    → Result Fault (List Bytes)
    → (Bytes → List Bytes → Result Fault TrailerBlock)
    → ℕ
    → StateResult (Reading BufferedInput) Bytes
unfolding chunks_from
read_chunked parse_chunk_metadata declared parse_trailer_section max =
    chunks_from read_byte read_exact_vec parse_chunk_metadata declared parse_trailer_section
      (suc max) max []
