-- ===== src/Body/Plain.antt =====
-- A buffered input reads as the plain stream of its unread bytes: the buffered ones and then the
-- incoming ones. Its methods `read_line`, `read_trailers` and `read_exact_vec` do what they do on
-- that stream.
use polyform_polyguard.Agreement.{Fault, too_large}
use polyform_polyguard.Base.{
  ℕ, zero, suc, ◌-◌, ◌≤◌, ◌≡◌, refl, ap, ◌∙◌, arith, inl, inr, Bool, true, false, Option, none,
  some, List, [], ◌∷◌, ◌++◌, Bytes, codes, ltb, leb, if◌then◌else◌, length, length-append,
  get_elem?, drop, drop-cons_get, drop-nil_get, drop-add, take-length, drop-length, length-drop,
  take-append_le, drop-append_le, take-append_ge, drop-append_ge, equal, ends_with, Bool-cases,
  Result, ok, err,
}
use polyform_polyguard.Body.{
  StateResult, ◌>>=◌, resume, byte_from, pure, refuse, Stream, read_exact, BufferedInput,
  buffered_len, first_byte, read_byte, read_exact_vec, line_from, trailers_from, line_up_to,
  trailers_up_to, read_line, read_trailers,
}

-- `p` does on the views what `m` does on the states.
abbrev pub Simulates : {S T A : Type 0} → (S → T) → StateResult S A → StateResult T A → Type 0
Simulates {S} view m p = (s : S) → p (view s) ≡ ((m s).0, view (m s).1)

module _ {S T A B : Type 0} (view : S → T) where
  resume-Simulates :
      (r : Result Fault A) (f : A → StateResult S B) (g : A → StateResult T B)
      → ((a : A) → Simulates view (f a) (g a))
      → Simulates view (resume r f) (resume r g)
  resume-Simulates (err fault) f g k t = refl
  resume-Simulates (ok a) f g k t = k a t

  pub bind-Simulates :
      (m : StateResult S A) (p : StateResult T A) (f : A → StateResult S B)
      (g : A → StateResult T B)
      → Simulates view m p
      → ((a : A) → Simulates view (f a) (g a))
      → Simulates view (m >>= f) (p >>= g)
  bind-Simulates m p f g h k s =
      ap (λ (q : Result Fault A × T). resume q.0 g q.1) (h s)
      ∙ resume-Simulates (m s).0 f g k (m s).1

unfoldable pub unread : BufferedInput → Stream
unread input = record input.stream {
  incoming = drop input.offset input.buffer ++ input.stream.incoming;
}

unfoldable pub plain_byte : StateResult Stream ℕ
plain_byte s = let (r, t) = read_exact 1 s in (first_byte r, t)

byte_from-Simulates :
    (input : BufferedInput) (o : Option ℕ)
    → get_elem? input.buffer input.offset ≡ o
    → plain_byte (unread input) ≡ ((byte_from o input).0, unread (byte_from o input).1)
unfolding plain_byte unread read_exact
byte_from-Simulates input none e = rw (drop-nil_get input.offset input.buffer e) (ground arith)
byte_from-Simulates input (some c) e =
    rw (drop-cons_get input.offset input.buffer e)
      (ground (arith, drop-cons_get input.offset input.buffer e))

read_byte-Simulates : Simulates unread read_byte plain_byte
unfolding read_byte
read_byte-Simulates input = byte_from-Simulates input (get_elem? input.buffer input.offset) refl

-- `v` is what is left of the buffer.
read_exact_vec-Simulates : (n : ℕ) → Simulates unread (read_exact_vec n) (read_exact n)
unfolding read_exact_vec read_exact unread
read_exact_vec-Simulates n input =
    let v = drop input.offset input.buffer in
    let s = input.stream.incoming in
    let width = length-drop input.offset input.buffer in
    elim (Bool-cases (leb n (buffered_len input))) [
      | inl fits ↦
          let short : n ≤ length v = ground (arith, width) in
          ground (
            arith,
            fits,
            length-append v s,
            take-append_le n v s short,
            drop-append_le n v s short,
            drop-add input.offset n input.buffer,
          )
      | inr over ↦
          let long : length v ≤ n = ground (arith, width) in
          ground (
            arith,
            over,
            width,
            length-append v s,
            take-append_ge n v s long,
            drop-append_ge n v s long,
            take-length v,
            drop-add input.offset (buffered_len input) input.buffer,
            drop-length v,
          )
    ]

module _ {S T : Type 0} (view : S → T) (next_byte : StateResult S ℕ) (plain : StateResult T ℕ)
    (bytes : Simulates view next_byte plain) where
  pub line_from-Simulates :
      (rounds : ℕ) (output : Bytes)
      → Simulates view (line_from next_byte rounds output) (line_from plain rounds output)
  unfolding line_from
  line_from-Simulates zero output = λ s. refl
  line_from-Simulates (suc rounds) output = bind-Simulates view next_byte plain _ _ bytes (λ byte s.
      elim (Bool-cases (ends_with (output ++ byte ∷ []) (codes "\r\n"))) [
        | inl e ↦ rw e refl
        | inr e ↦ rw e (line_from-Simulates rounds (output ++ byte ∷ []) s)
      ])

  line_up_to-Simulates :
      (max : ℕ) → Simulates view (line_up_to next_byte max) (line_up_to plain max)
  unfolding line_up_to
  line_up_to-Simulates max = line_from-Simulates (suc max) []

  refuse-Simulates : (b : Bool) (fault : Fault) → Simulates view (refuse b fault) (refuse b fault)
  refuse-Simulates true fault s = refl
  refuse-Simulates false fault s = refl

  trailers_from-Simulates :
      (rounds max : ℕ) (output : Bytes)
      → Simulates view
          (trailers_from next_byte rounds max output)
          (trailers_from plain rounds max output)
  unfolding trailers_from
  trailers_from-Simulates zero max output = λ s. refl
  trailers_from-Simulates (suc rounds) max output =
      bind-Simulates view (line_up_to next_byte (max - length output))
        (line_up_to plain (max - length output))
        (λ line. after_line (trailers_from next_byte rounds max (output ++ line)) line)
        (λ line. after_line (trailers_from plain rounds max (output ++ line)) line)
        (line_up_to-Simulates (max - length output))
        (λ line.
          after_line-Simulates line (trailers_from next_byte rounds max (output ++ line))
            (trailers_from plain rounds max (output ++ line))
            (trailers_from-Simulates rounds max (output ++ line)))
    where
      after_line : {S : Type 0} → StateResult S Bytes → Bytes → StateResult S Bytes
      after_line more line = refuse (ltb max (length (output ++ line))) too_large >>= λ _.
          if equal line (codes "\r\n") then pure (output ++ line) else more

      after_line-Simulates :
          (line : Bytes) (more : StateResult S Bytes) (more' : StateResult T Bytes)
          → Simulates view more more'
          → Simulates view (after_line more line) (after_line more' line)
      after_line-Simulates line more more' h =
          bind-Simulates view (refuse (ltb max (length (output ++ line))) too_large)
            (refuse (ltb max (length (output ++ line))) too_large)
            (λ _. if equal line (codes "\r\n") then pure (output ++ line) else more)
            (λ _. if equal line (codes "\r\n") then pure (output ++ line) else more')
            (refuse-Simulates (ltb max (length (output ++ line))) too_large)
            (λ _ s. elim (Bool-cases (equal line (codes "\r\n"))) [
              | inl e ↦ rw e refl
              | inr e ↦ rw e (h s)
            ])

-- The calls by which the decoder of a body reads its input.
pub data Call : Type 0 where
  line : (max : ℕ) → Call
  trailers : (max : ℕ) → Call
  exact : (n : ℕ) → Call

abbrev pub buffered_call : Call → StateResult BufferedInput Bytes
buffered_call (line max) = read_line max
buffered_call (trailers max) = read_trailers max
buffered_call (exact n) = read_exact_vec n

abbrev pub plain_call : Call → StateResult Stream Bytes
plain_call (line max) = line_up_to plain_byte max
plain_call (trailers max) = trailers_up_to plain_byte max
plain_call (exact n) = read_exact n

call-Simulates : (c : Call) → Simulates unread (buffered_call c) (plain_call c)
unfolding read_line read_trailers trailers_up_to
call-Simulates (line max) = line_up_to-Simulates unread read_byte plain_byte read_byte-Simulates max
call-Simulates (trailers max) =
    trailers_from-Simulates unread read_byte plain_byte read_byte-Simulates (suc max) max []
call-Simulates (exact n) = read_exact_vec-Simulates n

abbrev pub in_turn :
    {S : Type 0} → (Call → StateResult S Bytes) → List Call → StateResult S (List Bytes)
in_turn call [] = pure []
in_turn call (c ∷ cs) = call c >>= λ bytes. in_turn call cs >>= λ rest. pure (bytes ∷ rest)

-- Any calls in turn on a buffered input, whatever it still has in its buffer, give what they give
-- on the stream of its unread bytes, faults included, and leave the rest of it unread.
pub in_turn-Simulates :
    (cs : List Call) → Simulates unread (in_turn buffered_call cs) (in_turn plain_call cs)
in_turn-Simulates [] = λ s. refl
in_turn-Simulates (c ∷ cs) =
    bind-Simulates unread (buffered_call c) (plain_call c)
      (λ bytes. in_turn buffered_call cs >>= λ rest. pure (bytes ∷ rest))
      (λ bytes. in_turn plain_call cs >>= λ rest. pure (bytes ∷ rest)) (call-Simulates c)
      (λ bytes.
        bind-Simulates unread (in_turn buffered_call cs) (in_turn plain_call cs)
          (λ rest. pure (bytes ∷ rest)) (λ rest. pure (bytes ∷ rest)) (in_turn-Simulates cs)
          (λ rest s. refl))
