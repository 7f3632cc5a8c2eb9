-- ===== src/BodyFraming/Stream.antt =====
-- src/implementations/body_framing_stream_machine.rs: one pass over the fields, with the first
-- fault kept in a state machine.
use Prim.Native.Nat.{bit_or}
use mathlib.Core.List.{foldl}
use mathlib.Core.Path.{fun_ext}
use polyform_polyguard.Base.{
  ℕ, suc, ◌+◌, ◌-◌, ◌≤◌, Bool, true, false, not, ◌&&◌, ◌||◌, Option, some, none, List, [], ◌∷◌, ◌≡◌,
  refl, sym, ap, subst, ◌∙◌, inl, inr, arith, Bytes, ltb, leb, ◌==◌, if◌then◌else◌, Bool-cases,
  length, drop, position, rposition, map_or, unwrap_or, slice, all, is_empty, is_ascii_digit, equal,
  eq_ignore_ascii_case, codes, Result, ok, err, ◌>>=◌, ok_or, try_fold, try_fold-append, bind_assoc,
  bind_unit, u64_max, checked_mul, checked_add, and_then, to_usize,
}
use polyform_polyguard.Base.Split.{split}
use polyform_polyguard.Base.Trim.{trim, slice-width}
use polyform_polyguard.BodyFraming.Decimal.{fold-read_digit}
use polyform_polyguard.BodyFraming.Members.{
  names_exclusive, consensus_default, bits, bits-or, bits-false, bits_assoc,
}
use polyform_polyguard.BodyFraming.Codings.{members-absent}
use polyform_polyguard.BodyFraming.{
  content_length_limit, content_length_name, transfer_encoding_name, is_ows, is_named, decimal,
  members, present, agree, of_codings, is_chunked, frame, framing, of_length,
}
use polyform_polyguard.Types.{
  HeaderField, HeaderBlock, RequestLine, BodyFraming, PolyguardError, PolyguardResult,
  invalid_content_length, conflicting_content_length, invalid_transfer_encoding, limit_exceeded,
}

abbrev saw_content_length : ℕ
saw_content_length = 0b01

abbrev saw_transfer_encoding : ℕ
saw_transfer_encoding = 0b10

abbrev no_fault : ℕ
no_fault = 0

abbrev bad_content_length : ℕ
bad_content_length = 1

abbrev conflicting_length : ℕ
conflicting_length = 2

abbrev excessive_length : ℕ
excessive_length = 3

abbrev bad_transfer_encoding : ℕ
bad_transfer_encoding = 4

record FramingMachine : Type 0 where
  presence : ℕ
  agreed_length : ℕ
  has_agreed_length : Bool
  transfer_members : ℕ
  fault : ℕ
  fault_actual : ℕ

abbrev default : FramingMachine
default = record {
  presence = 0;
  agreed_length = 0;
  has_agreed_length = false;
  transfer_members = 0;
  fault = no_fault;
  fault_actual = 0;
}

trim_ows : Bytes → Bytes
trim_ows bytes =
    let first = unwrap_or (position (λ byte. not (is_ows byte)) bytes) (length bytes) in
    let width = map_or (rposition (λ byte. not (is_ows byte)) (drop first bytes)) 0 suc in
    slice bytes first (first + width)

remember_fault : FramingMachine → ℕ → ℕ → FramingMachine
remember_fault machine fault actual =
    if machine.fault == no_fault
    then record machine { fault = fault; fault_actual = actual }
    else machine

abbrev read_digit : ℕ → ℕ → Result (Unit {0}) ℕ
read_digit prefix byte =
    if not (is_ascii_digit byte)
    then err tt
    else ok_or (and_then (checked_mul prefix 10) (λ value. checked_add value (byte - b'0'))) tt

decimal_value : Bytes → Result (Unit {0}) ℕ
decimal_value bytes = if is_empty bytes then err tt else try_fold read_digit 0 bytes

-- the match of `observe_length` on the value
observe_value : FramingMachine → Result (Unit {0}) ℕ → FramingMachine
unfolding remember_fault
observe_value machine (ok value) =
    if ltb content_length_limit value
    then remember_fault machine excessive_length (to_usize value)
    else if machine.has_agreed_length && not (machine.agreed_length == value)
    then remember_fault machine conflicting_length 0
    else record machine { agreed_length = value; has_agreed_length = true }
observe_value machine (err _) = remember_fault machine bad_content_length 0

observe_length : FramingMachine → Bytes → FramingMachine
observe_length machine raw = observe_value machine (decimal_value (trim_ows raw))

observe_coding : FramingMachine → Bytes → FramingMachine
observe_coding machine raw =
    let counted = record machine { transfer_members = machine.transfer_members + 1 } in
    let coding = trim_ows raw in
    if not (counted.transfer_members == 1) || not (eq_ignore_ascii_case coding (codes "chunked"))
    then remember_fault counted bad_transfer_encoding 0
    else counted

transition_field : FramingMachine → HeaderField → FramingMachine
transition_field machine field =
    if equal field.name (codes "content-length")
    then foldl observe_length
        (record machine { presence = bit_or machine.presence saw_content_length })
        (split b',' field.value)
    else if equal field.name (codes "transfer-encoding")
    then foldl observe_coding
        (record machine { presence = bit_or machine.presence saw_transfer_encoding })
        (split b',' field.value)
    else machine

finish : FramingMachine → PolyguardResult BodyFraming
finish machine =
    if machine.presence == bit_or saw_content_length saw_transfer_encoding
    then err PolyguardError.ambiguous_framing
    else if machine.fault == bad_content_length
    then err invalid_content_length
    else if machine.fault == conflicting_length
    then err conflicting_content_length
    else if machine.fault == excessive_length
    then err (limit_exceeded (codes "content_length") content_length_limit machine.fault_actual)
    else if machine.fault == bad_transfer_encoding
    then err invalid_transfer_encoding
    else if machine.presence == saw_transfer_encoding
    then (if machine.transfer_members == 1
        then ok BodyFraming.chunked
        else err invalid_transfer_encoding)
    else if machine.presence == saw_content_length
        && (machine.has_agreed_length && not (machine.agreed_length == 0))
    then ok (BodyFraming.content_length machine.agreed_length)
    else ok BodyFraming.none

pub determine_body_framing : RequestLine → HeaderBlock → PolyguardResult BodyFraming
unfolding transition_field observe_length observe_value observe_coding decimal_value trim_ows finish
determine_body_framing _ headers = finish (foldl transition_field default headers.fields)

trim_ows-eq-trim : (s : Bytes) → trim_ows s ≡ trim is_ows s
unfolding trim_ows
trim_ows-eq-trim s = slice-width is_ows s

-- What a remembered fault reports.
fault_error : FramingMachine → PolyguardError
fault_error m =
    if m.fault == bad_content_length
    then invalid_content_length
    else if m.fault == conflicting_length
    then conflicting_content_length
    else if m.fault == excessive_length
    then limit_exceeded (codes "content_length") content_length_limit m.fault_actual
    else invalid_transfer_encoding

-- The machine, seen by the lengths and by the codings that it has read.
length_view : FramingMachine → PolyguardResult (Option ℕ)
unfolding fault_error
length_view m =
    if m.fault == no_fault
    then ok (if m.has_agreed_length then some m.agreed_length else none)
    else err (fault_error m)

coding_view : FramingMachine → PolyguardResult ℕ
unfolding fault_error
coding_view m = if m.fault == no_fault then ok m.transfer_members else err (fault_error m)

read_value : Bytes → Result (Unit {0}) ℕ
read_value m =
    if is_empty m || not (all is_ascii_digit m && leb (decimal 0 m) u64_max)
    then err tt
    else ok (decimal 0 m)

decimal_value-eq-read_value : (m : Bytes) → decimal_value m ≡ read_value m
unfolding decimal_value read_value
decimal_value-eq-read_value m = ground (arith, fold-read_digit {E = Unit {0}} tt m 0 (omega arith))

observe_value-agree :
    (m : FramingMachine) (s : Bytes)
    → length_view (observe_value m (read_value (trim is_ows s)))
      ≡ (length_view m >>= λ a. agree a s)
unfolding length_view observe_value read_value agree
observe_value-agree m s = ground arith

observe_length-agree :
    (m : FramingMachine) (s : Bytes)
    → length_view (observe_length m s) ≡ (length_view m >>= λ a. agree a s)
unfolding observe_length
observe_length-agree m s =
    rw (trim_ows-eq-trim s, decimal_value-eq-read_value) (observe_value-agree m s)

foldl-agree :
    (ms : List Bytes) (m : FramingMachine)
    → length_view (foldl observe_length m ms) ≡ (length_view m >>= λ a. try_fold agree a ms)
foldl-agree [] m = sym (bind_unit (length_view m))
foldl-agree (s ∷ ms) m =
    foldl-agree ms (observe_length m s)
    ∙ ap (λ r. r >>= λ a. try_fold agree a ms) (observe_length-agree m s)
    ∙ bind_assoc (length_view m) (λ a. agree a s) (λ a. try_fold agree a ms)

-- One more coding, after `n` of them.
count_coding : ℕ → Bytes → PolyguardResult ℕ
count_coding n s = if n == 0 && is_chunked s then ok (n + 1) else err invalid_transfer_encoding

observe_coding-count :
    (m : FramingMachine) (s : Bytes)
    → coding_view (observe_coding m s) ≡ (coding_view m >>= λ n. count_coding n s)
unfolding coding_view observe_coding remember_fault count_coding
observe_coding-count m s = rw (trim_ows-eq-trim s) (ground arith)

foldl-count :
    (ms : List Bytes) (m : FramingMachine)
    → coding_view (foldl observe_coding m ms) ≡ (coding_view m >>= λ n. try_fold count_coding n ms)
foldl-count [] m = sym (bind_unit (coding_view m))
foldl-count (s ∷ ms) m =
    foldl-count ms (observe_coding m s)
    ∙ ap (λ r. r >>= λ n. try_fold count_coding n ms) (observe_coding-count m s)
    ∙ bind_assoc (coding_view m) (λ n. count_coding n s) (λ n. try_fold count_coding n ms)

saw : FramingMachine → ℕ → FramingMachine
saw m bit = record m { presence = bit_or m.presence bit }

transition-length :
    (m : FramingMachine) (f : HeaderField)
    → is_named content_length_name f ≡ true
    → transition_field m f ≡ foldl observe_length (saw m saw_content_length) (split b',' f.value)
unfolding transition_field saw
transition-length m f h = rw h

transition-coding :
    (m : FramingMachine) (f : HeaderField)
    → is_named content_length_name f ≡ false
    → is_named transfer_encoding_name f ≡ true
    → transition_field m f ≡ foldl observe_coding (saw m saw_transfer_encoding) (split b',' f.value)
unfolding transition_field saw
transition-coding m f h k = rw (h, k)

transition-other :
    (m : FramingMachine) (f : HeaderField)
    → is_named content_length_name f ≡ false
    → is_named transfer_encoding_name f ≡ false
    → transition_field m f ≡ m
unfolding transition_field
transition-other m f h k = rw (h, k)

length_view-saw : (m : FramingMachine) (bit : ℕ) → length_view (saw m bit) ≡ length_view m
unfolding length_view saw
length_view-saw m bit = refl

coding_view-saw : (m : FramingMachine) (bit : ℕ) → coding_view (saw m bit) ≡ coding_view m
unfolding coding_view saw
coding_view-saw m bit = refl

-- With no transfer coding the machine follows the lengths.
fields-agree :
    (fs : List HeaderField) (m : FramingMachine)
    → present transfer_encoding_name fs ≡ false
    → length_view (foldl transition_field m fs)
      ≡ (length_view m >>= λ a. try_fold agree a (members content_length_name fs))
unfolding members
fields-agree [] m h = sym (bind_unit (length_view m))
fields-agree (f ∷ fs) m h = elim (Bool-cases (is_named content_length_name f)) [
  | inl e ↦
      let here = split b',' f.value in
      let later = members content_length_name fs in
      rw e (
        fields-agree fs (transition_field m f) (ground arith)
        ∙ ap (λ k. length_view k >>= λ a. try_fold agree a later) (transition-length m f e)
        ∙ ap (λ r. r >>= λ a. try_fold agree a later) (foldl-agree here (saw m saw_content_length))
        ∙ ap (λ r. (r >>= λ a. try_fold agree a here) >>= λ a. try_fold agree a later)
            (length_view-saw m saw_content_length)
        ∙ bind_assoc (length_view m) (λ a. try_fold agree a here) (λ a. try_fold agree a later)
        ∙ ap (◌>>=◌ (length_view m)) (fun_ext λ a. sym (try_fold-append agree a here later)))
  | inr e ↦ rw e (
      fields-agree fs (transition_field m f) (ground arith)
      ∙ ap (λ k. length_view k >>= λ a. try_fold agree a (members content_length_name fs))
          (transition-other m f e (ground arith)))
]

-- With no length it follows the codings.
fields-count :
    (fs : List HeaderField) (m : FramingMachine)
    → present content_length_name fs ≡ false
    → coding_view (foldl transition_field m fs)
      ≡ (coding_view m >>= λ n. try_fold count_coding n (members transfer_encoding_name fs))
unfolding members
fields-count [] m h = sym (bind_unit (coding_view m))
fields-count (f ∷ fs) m h = elim (Bool-cases (is_named transfer_encoding_name f)) [
  | inl e ↦
      let here = split b',' f.value in
      let later = members transfer_encoding_name fs in
      rw e (
        fields-count fs (transition_field m f) (ground arith)
        ∙ ap (λ k. coding_view k >>= λ n. try_fold count_coding n later)
            (transition-coding m f (ground arith) e)
        ∙ ap (λ r. r >>= λ n. try_fold count_coding n later)
            (foldl-count here (saw m saw_transfer_encoding))
        ∙ ap (λ r. (r >>= λ n. try_fold count_coding n here) >>= λ n. try_fold count_coding n later)
            (coding_view-saw m saw_transfer_encoding)
        ∙ bind_assoc (coding_view m) (λ n. try_fold count_coding n here)
            (λ n. try_fold count_coding n later)
        ∙ ap (◌>>=◌ (coding_view m)) (fun_ext λ n. sym (try_fold-append count_coding n here later)))
  | inr e ↦ rw e (
      fields-count fs (transition_field m f) (ground arith)
      ∙ ap (λ k. coding_view k >>= λ n. try_fold count_coding n (members transfer_encoding_name fs))
          (transition-other m f (ground arith) e))
]

-- The presence bits and the fault's code.
record Sound (p : ℕ) (m : FramingMachine) : Type 0 where
  presence_is : m.presence ≡ p
  fault_known : m.fault ≤ bad_transfer_encoding

observe_length-Sound :
    (p : ℕ) (m : FramingMachine) (s : Bytes) → Sound p m → Sound p (observe_length m s)
unfolding observe_length observe_value
observe_length-Sound p m s h = by_value (decimal_value (trim_ows s))
  where
    by_value : (r : Result (Unit {0}) ℕ) → Sound p (observe_value m r)
    by_value (ok v) = ground arith
    by_value (err _) = ground arith

observe_coding-Sound :
    (p : ℕ) (m : FramingMachine) (s : Bytes) → Sound p m → Sound p (observe_coding m s)
unfolding observe_coding remember_fault
observe_coding-Sound p m s h = ground arith

foldl-Sound :
    (step : FramingMachine → Bytes → FramingMachine) (p : ℕ)
    → ((m : FramingMachine) (s : Bytes) → Sound p m → Sound p (step m s))
    → (ms : List Bytes) (m : FramingMachine) → Sound p m
    → Sound p (foldl step m ms)
foldl-Sound step p keeps [] m h = h
foldl-Sound step p keeps (s ∷ ms) m h = foldl-Sound step p keeps ms (step m s) (keeps m s h)

saw-Sound : (p bit : ℕ) (m : FramingMachine) → Sound p m → Sound (bit_or p bit) (saw m bit)
unfolding saw
saw-Sound p bit m h = record {
  presence_is = ap (λ q. bit_or q bit) h.presence_is;
  fault_known = h.fault_known;
}

transition-Sound :
    (a b : Bool) (m : FramingMachine) (f : HeaderField)
    → Sound (bits a b) m
    → Sound
        (bits (a || is_named content_length_name f) (b || is_named transfer_encoding_name f))
        (transition_field m f)
transition-Sound a b m f h = elim (Bool-cases (is_named content_length_name f)) [
  | inl e ↦
      rw (e, names_exclusive f e, transition-length m f e)
        (foldl-Sound observe_length _ (observe_length-Sound _) (split b',' f.value) _
          (rw (bits-or a b true false (λ _. refl)) at (saw-Sound (bits a b) 1 m h)))
  | inr e ↦ elim (Bool-cases (is_named transfer_encoding_name f)) [
    | inl t ↦
        rw (e, t, transition-coding m f e t)
          (foldl-Sound observe_coding _ (observe_coding-Sound _) (split b',' f.value) _ (
            rw (bits-or a b false true (λ (e' : false ≡ true). cc)) at
              (saw-Sound (bits a b) 2 m h)))
    | inr t ↦ rw (e, t, transition-other m f e t) (subst (λ n. Sound n m) (bits-false a b) h)
  ]
]

fields-Sound :
    (fs : List HeaderField) (a b : Bool) (m : FramingMachine)
    → Sound (bits a b) m
    → Sound
        (bits (a || present content_length_name fs) (b || present transfer_encoding_name fs))
        (foldl transition_field m fs)
fields-Sound [] a b m h = subst (λ n. Sound n m) (bits-false a b) h
fields-Sound (f ∷ fs) a b m h =
    let c = is_named content_length_name f in
    let t = is_named transfer_encoding_name f in
    subst (λ n. Sound n (foldl transition_field (transition_field m f) fs))
      (bits_assoc a c (present content_length_name fs) b t (present transfer_encoding_name fs))
      (fields-Sound fs (a || c) (b || t) (transition_field m f) (transition-Sound a b m f h))

count_coding-of_codings :
    (ms : List Bytes)
    → (try_fold count_coding 0 ms >>= λ n.
        if n == 1 then ok BodyFraming.chunked else err invalid_transfer_encoding)
      ≡ of_codings ms
unfolding count_coding
count_coding-of_codings [] = refl
count_coding-of_codings (m ∷ []) = ground arith
count_coding-of_codings (m ∷ m' ∷ ms) = ground arith

finish-length :
    (m : FramingMachine)
    → Sound 1 m
    → finish m ≡ (length_view m >>= λ b. map_or b (ok BodyFraming.none) (λ v. ok (of_length v)))
unfolding finish length_view
finish-length m h = ground arith

finish-coding :
    (m : FramingMachine)
    → Sound 2 m
    → finish m ≡ (
        coding_view m >>= λ n.
        if n == 1 then ok BodyFraming.chunked else err invalid_transfer_encoding)
unfolding finish coding_view
finish-coding m h = ground arith

finish-absent :
    (m : FramingMachine) → Sound 0 m → finish m ≡ (length_view m >>= λ _. ok BodyFraming.none)
unfolding finish length_view
finish-absent m h = ground arith

finish-both : (m : FramingMachine) → Sound 3 m → finish m ≡ err PolyguardError.ambiguous_framing
unfolding finish
finish-both m h = ground arith

finish-frame :
    (fs : List HeaderField) (a b : Bool)
    → present content_length_name fs ≡ a
    → present transfer_encoding_name fs ≡ b
    → Sound (bits a b) (foldl transition_field default fs)
    → finish (foldl transition_field default fs) ≡ frame a b fs
unfolding frame
finish-frame fs true true h k s = finish-both _ s
finish-frame fs false true h k s =
    finish-coding _ s
    ∙ ap (λ r. r >>= λ n. if n == 1 then ok BodyFraming.chunked else err invalid_transfer_encoding)
        (fields-count fs default h)
    ∙ (unfold coding_view in count_coding-of_codings (members transfer_encoding_name fs))
finish-frame fs true false h k s =
    finish-length _ s
    ∙ ap (λ r. r >>= λ b. map_or b (ok BodyFraming.none) (λ v. ok (of_length v)))
        (fields-agree fs default k)
    ∙ (unfold length_view in
        consensus_default fs (ok BodyFraming.none) (err invalid_content_length)
          (λ v. ok (of_length v)) h)
finish-frame fs false false h k s =
    finish-absent _ s
    ∙ ap (λ r. r >>= λ (b : Option ℕ). ok BodyFraming.none) (fields-agree fs default k)
    ∙ (unfold length_view in rw (members-absent content_length_name fs h))

-- The streaming machine gives the framing that the members of the two fields describe.
pub stream-eq-framing :
    (request : RequestLine) (headers : HeaderBlock)
    → determine_body_framing request headers ≡ framing headers.fields
unfolding determine_body_framing framing
stream-eq-framing request headers = finish-frame headers.fields _ _ refl refl (
    fields-Sound headers.fields false false default
      (record { presence_is = refl; fault_known = omega arith }))
