-- ===== src/HopByHop.antt =====
-- `remove_hop_by_hop_headers`: fields that concern one connection only are removed. This file
-- describes the outcome from the list of all names to remove; the children are the implementations
-- of src/implementations/hop_by_hop_*.rs.
pub mod Walk
pub mod RuleTable
pub mod Composable
pub mod Apart
pub mod SortedPlan
pub mod Scan
pub mod TypedPipeline
pub mod Variants
pub mod Sound
use mathlib.Core.List.{map}
use polyform_polyguard.Base.{
  ℕ, suc, Bool, true, false, not, ◌&&◌, ◌||◌, List, [], ◌∷◌, ◌++◌, Bytes, codes, if◌then◌else◌,
  ◌==◌, contains, all, any, is_empty, keep_if, equal, is_ascii_alphanumeric, to_ascii_lowercase, ok,
  err, ◌>>=◌,
}
use polyform_polyguard.Base.Names.{has, of_names}
use polyform_polyguard.Base.Split.{split}
use polyform_polyguard.Base.Trim.{trim}
use polyform_polyguard.Types.{
  HeaderField, HeaderBlock, SanitizedHeaders, PolyguardError, PolyguardResult, invalid_header,
}

abbrev pub is_ows : ℕ → Bool
is_ows c = c == b' ' || c == b'\t'

abbrev pub is_token_byte : ℕ → Bool
is_token_byte c = is_ascii_alphanumeric c || contains (codes "!#$%&'*+-.^_`|~") c

abbrev pub lowercase : Bytes → Bytes
lowercase = map to_ascii_lowercase

abbrev pub connection : Bytes
connection = codes "connection"

abbrev pub fixed_names : List Bytes
fixed_names =
    connection
    ∷ codes "proxy-connection"
    ∷ codes "keep-alive"
    ∷ codes "transfer-encoding"
    ∷ codes "te"
    ∷ codes "trailer"
    ∷ codes "upgrade"
    ∷ codes "proxy-authenticate"
    ∷ codes "proxy-authorization"
    ∷ []

abbrev pub is_fixed : Bytes → Bool
is_fixed n = has n fixed_names

abbrev pub is_connection : HeaderField → Bool
is_connection f = equal f.name connection

abbrev pub bad_token : ℕ → PolyguardError
bad_token index = invalid_header index (codes "invalid_connection_token")

-- The name that a member of a connection field nominates.
pub token_of : ℕ → Bytes → PolyguardResult Bytes
token_of index raw =
    let m = trim is_ows raw in
    if is_empty m || not (all is_token_byte m) then err (bad_token index) else ok (lowercase m)

pub tokens_of : ℕ → List Bytes → PolyguardResult (List Bytes)
unfolding token_of
tokens_of index [] = ok []
tokens_of index (m ∷ ms) = token_of index m >>= λ t. tokens_of index ms >>= λ ts. ok (t ∷ ts)

pub nominated : ℕ → HeaderField → PolyguardResult (List Bytes)
unfolding tokens_of
nominated index f = if is_connection f then tokens_of index (split b',' f.value) else ok []

-- The name of a field, if it is one of the fixed names, before what the field nominates.
abbrev pub with_own : HeaderField → List Bytes → List Bytes
with_own f ts = if is_fixed f.name then f.name ∷ ts else ts

-- All names to remove, in the order in which the fields give them.
pub names_from : ℕ → List HeaderField → PolyguardResult (List Bytes)
unfolding nominated
names_from index [] = ok []
names_from index (f ∷ fs) = do
  ts ← nominated index f
  ns ← names_from (suc index) fs
  ok (with_own f ts ++ ns)

abbrev pub survivors : List Bytes → List HeaderField → List HeaderField
survivors names = keep_if (λ f. not (has f.name names))

pub without : List HeaderField → List Bytes → SanitizedHeaders
without fs names = record { fields = survivors names fs; removed_names = of_names names }

unfoldable pub sanitized : HeaderBlock → PolyguardResult SanitizedHeaders
unfolding names_from without
sanitized headers = names_from 0 headers.fields >>= λ names. ok (without headers.fields names)
