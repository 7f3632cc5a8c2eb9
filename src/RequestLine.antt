-- ===== src/RequestLine.antt =====
-- `parse_request_line`: the first line of a request. This file describes the outcome by the end of
-- the line and its words; the children are the five implementations of
-- src/implementations/request_line_*.rs.
pub mod Ends
pub mod Words
pub mod Parts
pub mod Direct
pub mod State
pub mod ReverseOffsets
pub mod Tables
pub mod RuleWrappers
pub mod DecisionMachine
pub mod Variants
pub mod Printed
pub mod Accepted
pub mod Agreed
use polyform_polyguard.Base.{
  ℕ, zero, suc, ◌+◌, Bool, true, false, not, ◌&&◌, ◌||◌, Option, none, some, List, [], ◌∷◌, Bytes,
  codes, leb, ltb, ◌==◌, if◌then◌else◌, within, contains, all, take, drop, length, is_empty, find,
  equal, is_ascii_alphanumeric, to_ascii_lowercase, ok, err, ◌>>=◌, ◌>>◌, refuse_if, ok_or,
}
use mathlib.Core.List.{map}
use polyform_polyguard.Base.Split.{split}
use polyform_polyguard.Types.{
  RequestLine, HttpVersion, http11, PolyguardError, PolyguardResult, incomplete, limit_exceeded,
  invalid_request_line, unsupported_version, invalid_method, invalid_target,
}

abbrev pub line_limit : ℕ
line_limit = 8192

abbrev pub method_limit : ℕ
method_limit = 32

abbrev pub line_too_long : PolyguardError
line_too_long = limit_exceeded (codes "request_line_bytes") line_limit (line_limit + 1)

abbrev pub bad_line_ending : PolyguardError
bad_line_ending = invalid_request_line (codes "bare_line_ending")

abbrev pub bad_control : PolyguardError
bad_control = invalid_request_line (codes "control_character")

abbrev pub bad_spacing : PolyguardError
bad_spacing = invalid_request_line (codes "invalid_spacing")

abbrev pub next_is_lf : Bytes → Bool
next_is_lf [] = false
next_is_lf (c ∷ _) = c == b'\n'

-- A control byte that may stand nowhere in the line; a tab is judged with the spacing.
abbrev pub is_control : ℕ → Bool
is_control c = ltb c b' ' && not (c == b'\t') || c == 127

-- What a byte at a position means for the end, with a line feed behind it or not.
pub end_step : ℕ → ℕ → Bool → PolyguardResult ℕ → PolyguardResult ℕ
end_step offset c followed rest =
    if c == b'\r' && followed
    then ok offset
    else if offset == line_limit
    then err line_too_long
    else if c == b'\r' || c == b'\n'
    then err bad_line_ending
    else if is_control c
    then err bad_control
    else rest

-- The position of the carriage return that ends the line.
pub line_end : ℕ → Bytes → PolyguardResult ℕ
unfolding end_step
line_end offset [] = err incomplete
line_end offset (c ∷ s) = end_step offset c (next_is_lf s) (line_end (suc offset) s)

abbrev pub is_punctuation : ℕ → Bool
is_punctuation = contains (codes "!#$%&'*+-.^_`|~")

abbrev pub is_token : ℕ → Bool
is_token c = is_ascii_alphanumeric c || is_punctuation c

abbrev pub is_visible : ℕ → Bool
is_visible = within b'!' b'~'

pub check_method : Bytes → PolyguardResult Unit
check_method m = refuse_if (ltb method_limit (length m) || not (all is_token m)) invalid_method

-- The first byte that a target may not hold decides the error.
pub check_target : Bytes → PolyguardResult Unit
check_target [] = ok tt
check_target (c ∷ s) =
    let rest = check_target s in
    if c == b'#'
    then err (invalid_target (codes "fragment_not_allowed"))
    else if is_visible c
    then rest
    else err (invalid_target (codes "non_visible_ascii"))

abbrev pub version_text : Bytes
version_text = codes "HTTP/1.1"

abbrev pub lowercase : Bytes → Bytes
lowercase = map to_ascii_lowercase

-- The request line of three words in a line of `n` bytes.
pub of_words : ℕ → Bytes → Bytes → Bytes → PolyguardResult RequestLine
unfolding check_method check_target
of_words n m t v = do
  check_method m
  check_target t
  refuse_if (not (equal v version_text)) unsupported_version
  ok (record { method = lowercase m; target = t; version = http11; bytes_consumed = n + 2 })

-- By the parts between the spaces: three that are not empty, or the error.
pub of_parts : ℕ → List Bytes → PolyguardResult RequestLine
unfolding of_words
of_parts n (m ∷ t ∷ v ∷ []) =
    if is_empty m || is_empty t || is_empty v then err bad_spacing else of_words n m t v
of_parts n (m ∷ t ∷ []) =
    err (if is_empty m || is_empty t then bad_spacing else unsupported_version)
of_parts n _ = err bad_spacing

pub of_line : ℕ → Bytes → PolyguardResult RequestLine
unfolding of_parts
of_line n line = if contains line b'\t' then err bad_spacing else of_parts n (split b' ' line)

unfoldable pub request_line : Bytes → PolyguardResult RequestLine
unfolding of_line line_end
request_line input = line_end 0 input >>= λ n. of_line n (take n input)
