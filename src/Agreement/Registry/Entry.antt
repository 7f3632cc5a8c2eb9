-- ===== src/Agreement/Registry/Entry.antt =====
-- `Implementation` of src/lib.rs: an id and, for each function of the contract, what provides it.
use polyform_polyguard.Base.{Bool, true, false, Option, none, some, Bytes}

-- The functions of the contract, one for each optional field of `Implementation`.
pub data ContractFunction : Type 0 where
  parse_request_line : ContractFunction
  parse_header_section : ContractFunction
  determine_body_framing : ContractFunction
  parse_chunk_metadata : ContractFunction
  parse_trailer_section : ContractFunction
  normalize_request_target : ContractFunction
  reconcile_authority : ContractFunction
  remove_hop_by_hop_headers : ContractFunction
  construct_canonical_upstream_head : ContractFunction
  match_route : ContractFunction
  apply_forwarding_policy : ContractFunction
  decide_upgrade : ContractFunction
  classify_telemetry_outcome : ContractFunction

-- A function pointer is the path of its function in the crate.
pub record Implementation : Type 0 where
  pub id : Bytes
  pub parse_request_line : Option Bytes
  pub parse_header_section : Option Bytes
  pub determine_body_framing : Option Bytes
  pub parse_chunk_metadata : Option Bytes
  pub parse_trailer_section : Option Bytes
  pub normalize_request_target : Option Bytes
  pub reconcile_authority : Option Bytes
  pub remove_hop_by_hop_headers : Option Bytes
  pub construct_canonical_upstream_head : Option Bytes
  pub match_route : Option Bytes
  pub apply_forwarding_policy : Option Bytes
  pub decide_upgrade : Option Bytes
  pub classify_telemetry_outcome : Option Bytes

abbrev pub empty : Bytes → Implementation
empty name = record {
  id = name;
  parse_request_line = none;
  parse_header_section = none;
  determine_body_framing = none;
  parse_chunk_metadata = none;
  parse_trailer_section = none;
  normalize_request_target = none;
  reconcile_authority = none;
  remove_hop_by_hop_headers = none;
  construct_canonical_upstream_head = none;
  match_route = none;
  apply_forwarding_policy = none;
  decide_upgrade = none;
  classify_telemetry_outcome = none;
}

-- the field of a function
abbrev pub provided : ContractFunction → Implementation → Option Bytes
provided ContractFunction.parse_request_line i = i.parse_request_line
provided ContractFunction.parse_header_section i = i.parse_header_section
provided ContractFunction.determine_body_framing i = i.determine_body_framing
provided ContractFunction.parse_chunk_metadata i = i.parse_chunk_metadata
provided ContractFunction.parse_trailer_section i = i.parse_trailer_section
provided ContractFunction.normalize_request_target i = i.normalize_request_target
provided ContractFunction.reconcile_authority i = i.reconcile_authority
provided ContractFunction.remove_hop_by_hop_headers i = i.remove_hop_by_hop_headers
provided ContractFunction.construct_canonical_upstream_head i = i.construct_canonical_upstream_head
provided ContractFunction.match_route i = i.match_route
provided ContractFunction.apply_forwarding_policy i = i.apply_forwarding_policy
provided ContractFunction.decide_upgrade i = i.decide_upgrade
provided ContractFunction.classify_telemetry_outcome i = i.classify_telemetry_outcome

abbrev pub is_some : Option Bytes → Bool
is_some none = false
is_some (some _) = true

abbrev pub implements : ContractFunction → Implementation → Bool
implements f i = is_some (provided f i)
