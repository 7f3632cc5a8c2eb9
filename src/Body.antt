-- ===== src/Body.antt =====
-- The reading of a body in src/proxy.rs: `BufferedInput`, which hands out the bytes that came
-- with the head before those of the stream, and the decoder of chunked bodies (Body/Chunked).
-- A stream is the bytes that are still to come and the fault that its reads give behind them.
pub mod Plain
pub mod Chunked
pub mod Fuel
pub mod Permit
pub mod Decoded
use polyform_polyguard.Agreement.{Fault, too_large}
use polyform_polyguard.Base.{
  ℕ, zero, suc, ◌+◌, ◌-◌, ◌≡◌, Bool, Option, none, some, List, [], ◌∷◌, ◌++◌, Bytes, codes, ltb,
  leb, if◌then◌else◌, length, get_elem?, take, drop, equal, ends_with, Result, ok, err,
}

-- A method on `&mut self` that may fail: its result and what it leaves.
abbrev pub StateResult : Type 0 → Type 0 → Type 0
StateResult S A = S → Result Fault A × S

abbrev pub resume : {S A B : Type 0} → Result Fault A → (A → StateResult S B) → StateResult S B
resume (err fault) f t = (err fault, t)
resume (ok a) f t = f a t

infixl 5 ◌>>=◌ ◌>>◌
abbrev pub ◌>>=◌ : {S A B : Type 0} → StateResult S A → (A → StateResult S B) → StateResult S B
◌>>=◌ m f s = resume (m s).0 f (m s).1

abbrev pub ◌>>◌ : {S B : Type 0} → StateResult S (Unit {0}) → StateResult S B → StateResult S B
m >> k = m >>= λ _. k

abbrev pub pure : {S A : Type 0} → A → StateResult S A
pure a s = (ok a, s)

abbrev pub fail : {S A : Type 0} → Fault → StateResult S A
fail fault s = (err fault, s)

abbrev pub lift : {S A : Type 0} → Result Fault A → StateResult S A
lift r s = (r, s)

abbrev pub refuse : {S : Type 0} → Bool → Fault → StateResult S (Unit {0})
refuse b fault s = if b then (err fault, s) else (ok tt, s)

-- What a peer sends: the fault stands for the error that `map_client_io` maps.
pub record Stream : Type 0 where
  pub incoming : Bytes
  pub at_end : Fault

-- `Read::read_exact`, behind `map_client_io`
unfoldable pub read_exact : ℕ → StateResult Stream Bytes
read_exact n s =
    if leb n (length s.incoming)
    then (ok (take n s.incoming), record s { incoming = drop n s.incoming })
    else (err s.at_end, record s { incoming = [] })

pub record BufferedInput : Type 0 where
  pub stream : Stream
  pub buffer : Bytes
  pub offset : ℕ

abbrev pub buffered_len : BufferedInput → ℕ
buffered_len input = length input.buffer - input.offset

-- the one byte that `read_exact` filled
abbrev pub first_byte : Result Fault Bytes → Result Fault ℕ
first_byte (ok (c ∷ _)) = ok c
first_byte (ok []) = ok 0
first_byte (err fault) = err fault

-- a byte of the buffer, or else one of the stream
abbrev pub byte_from : Option ℕ → StateResult BufferedInput ℕ
byte_from (some byte) input = (ok byte, record input { offset = input.offset + 1 })
byte_from none input =
    let (r, stream) = read_exact 1 input.stream in
    (first_byte r, record { stream = stream; buffer = []; offset = 0 })

unfoldable pub read_byte : StateResult BufferedInput ℕ
read_byte input = byte_from (get_elem? input.buffer input.offset) input

abbrev pub with_head : Bytes → Result Fault Bytes → Result Fault Bytes
with_head head (ok rest) = ok (head ++ rest)
with_head head (err fault) = err fault

unfoldable pub read_exact_vec : ℕ → StateResult BufferedInput Bytes
unfolding read_exact
read_exact_vec n input =
    let available = if leb n (buffered_len input) then n else buffered_len input in
    let head = take available (drop input.offset input.buffer) in
    let moved = record input { offset = input.offset + available } in
    let (r, stream) = read_exact (n - available) input.stream in
    if ltb available n
    then (with_head head r, record moved { stream = stream })
    else (ok head, moved)

-- The loops are given the source of their bytes, to be read over any input. `rounds` is how many
-- times `output.len() <= max` still holds.
module _ {S : Type 0} (next_byte : StateResult S ℕ) where
  unfoldable pub line_from : ℕ → Bytes → StateResult S Bytes
  line_from zero output = fail too_large
  line_from (suc rounds) output = do
    byte ← next_byte
    let longer = output ++ byte ∷ []
    let rest = line_from rounds longer
    if ends_with longer (codes "\r\n") then pure longer else rest

  unfoldable pub line_up_to : ℕ → StateResult S Bytes
  unfolding line_from
  line_up_to max = line_from (suc max) []

  -- Every line has a byte, so further rounds than `suc max` change nothing (`trailers_from-rounds`
  -- of Body/Fuel).
  unfoldable pub trailers_from : ℕ → ℕ → Bytes → StateResult S Bytes
  unfolding line_up_to
  trailers_from zero max output = fail too_large
  trailers_from (suc rounds) max output = do
    line ← line_up_to (max - length output)
    let longer = output ++ line
    refuse (ltb max (length longer)) too_large
    let rest = trailers_from rounds max longer
    if equal line (codes "\r\n") then pure longer else rest

  unfoldable pub trailers_up_to : ℕ → StateResult S Bytes
  unfolding trailers_from
  trailers_up_to max = trailers_from (suc max) max []

unfoldable pub read_line : ℕ → StateResult BufferedInput Bytes
unfolding line_up_to
read_line = line_up_to read_byte

unfoldable pub read_trailers : ℕ → StateResult BufferedInput Bytes
unfolding trailers_up_to
read_trailers = trailers_up_to read_byte
