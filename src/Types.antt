-- ===== src/Types.antt =====
-- The shared data model of src/lib.rs: messages, decisions and errors. Text is its bytes.
use polyform_polyguard.Base.{ℕ, Bool, Option, List, Bytes, Result}

pub record HeaderField : Type 0 where
  pub name : Bytes
  pub value : Bytes

pub record HeaderBlock : Type 0 where
  pub fields : List HeaderField
  pub bytes_consumed : ℕ

pub data HttpVersion : Type 0 where
  http11 : HttpVersion

pub record RequestLine : Type 0 where
  pub method : Bytes
  pub target : Bytes
  pub version : HttpVersion
  pub bytes_consumed : ℕ

pub data BodyFraming : Type 0 where
  none : BodyFraming
  content_length : ℕ → BodyFraming
  chunked : BodyFraming

pub record ChunkExtension : Type 0 where
  pub name : Bytes
  pub value : Option Bytes

pub record ChunkMeta : Type 0 where
  pub size : ℕ
  pub extensions : List ChunkExtension
  pub bytes_consumed : ℕ

pub record TrailerBlock : Type 0 where
  pub fields : List HeaderField
  pub bytes_consumed : ℕ

pub record SanitizedHeaders : Type 0 where
  pub fields : List HeaderField
  pub removed_names : List Bytes

pub data TargetForm : Type 0 where
  origin absolute authority asterisk : TargetForm

pub record NormalizedTarget : Type 0 where
  pub form : TargetForm
  pub scheme : Option Bytes
  pub authority : Option Bytes
  pub path_and_query : Bytes
  pub routing_path : Bytes

pub record EffectiveAuthority : Type 0 where
  pub host : Bytes
  pub port : Option ℕ

pub data OutcomeCategory : Type 0 where
  accepted client_syntax ambiguous_framing policy_rejected route_missing : OutcomeCategory
  upstream_failure timeout implementation_disagreement internal_failure : OutcomeCategory

pub record TelemetryOutcome : Type 0 where
  pub category : OutcomeCategory
  pub success : Bool

pub data PolyguardError : Type 0 where
  incomplete : PolyguardError
  limit_exceeded : (limit : Bytes) (max actual : ℕ) → PolyguardError
  invalid_request_line : (reason : Bytes) → PolyguardError
  unsupported_version : PolyguardError
  invalid_method : PolyguardError
  invalid_target : (reason : Bytes) → PolyguardError
  invalid_header : (index : ℕ) (reason : Bytes) → PolyguardError
  too_many_headers : PolyguardError
  invalid_content_length : PolyguardError
  conflicting_content_length : PolyguardError
  invalid_transfer_encoding : PolyguardError
  ambiguous_framing : PolyguardError
  invalid_chunk : (reason : Bytes) → PolyguardError
  invalid_trailer : (reason : Bytes) → PolyguardError
  missing_host : PolyguardError
  multiple_host : PolyguardError
  authority_mismatch : PolyguardError
  invalid_authority : PolyguardError
  invalid_route : (reason : Bytes) → PolyguardError
  no_route : PolyguardError
  invalid_forwarding_input : PolyguardError
  unsupported_upgrade : PolyguardError
  serialization_invariant : PolyguardError

-- `pub type Result<T>`
abbrev pub PolyguardResult : Type 0 → Type 0
PolyguardResult A = Result PolyguardError A
