-- ===== src/Response.antt =====
-- `response_framing` of src/proxy.rs: how the body of an upstream's response is delimited.
pub mod Decimal
pub mod Fields
pub mod Delimits
use polyform_polyguard.Agreement.{Fault, upstream}
use polyform_polyguard.Base.{
  ℕ, ◌-◌, Bool, false, not, ◌||◌, Option, none, some, List, [], ◌∷◌, Bytes, codes, ◌==◌,
  if◌then◌else◌, all, any, keep_if, is_empty, is_ascii_digit, equal, eq_ignore_ascii_case,
  checked_mul, checked_add, and_then, Result, ok, err,
}
use polyform_polyguard.Types.{HeaderField, HeaderBlock}

pub data ResponseFraming : Type 0 where
  no_body : ResponseFraming
  sized : ℕ → ResponseFraming
  chunked : ResponseFraming
  close : ResponseFraming

abbrev add_digits : ℕ → Bytes → Option ℕ
add_digits total [] = some total
add_digits total (byte ∷ rest) =
    and_then (and_then (checked_mul total 10) (λ t. checked_add t (byte - b'0')))
      (λ t. add_digits t rest)

unfoldable pub parse_decimal : Bytes → Option ℕ
parse_decimal value =
    if is_empty value || not (all is_ascii_digit value) then none else add_digits 0 value

abbrev pub named : Bytes → HeaderBlock → List HeaderField
named name headers = keep_if (λ field. equal field.name name) headers.fields

-- `parse_decimal(..) == Some(first)`
abbrev pub is_some_of : Option ℕ → ℕ → Bool
is_some_of none first = false
is_some_of (some n) first = n == first

abbrev pub of_transfer : List HeaderField → Result Fault ResponseFraming
of_transfer (field ∷ []) =
    if eq_ignore_ascii_case field.value (codes "chunked") then ok chunked else err upstream
of_transfer _ = err upstream

abbrev pub of_first : Option ℕ → List HeaderField → Result Fault ResponseFraming
of_first none lengths = err upstream
of_first (some first) lengths =
    if any (λ field. not (is_some_of (parse_decimal field.value) first)) lengths
    then err upstream
    else ok (sized first)

-- the cases of `transfer` and `lengths`
abbrev pub delimited_by : List HeaderField → List HeaderField → Result Fault ResponseFraming
delimited_by [] [] = ok close
delimited_by [] (field ∷ rest) = of_first (parse_decimal field.value) (field ∷ rest)
delimited_by (field ∷ rest) [] = of_transfer (field ∷ rest)
delimited_by (_ ∷ _) (_ ∷ _) = err upstream

unfoldable pub response_framing : HeaderBlock → Bool → Result Fault ResponseFraming
response_framing headers bodiless =
    if bodiless
    then ok no_body
    else delimited_by (named (codes "transfer-encoding") headers)
        (named (codes "content-length") headers)
