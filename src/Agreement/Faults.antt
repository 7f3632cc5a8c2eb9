-- ===== src/Agreement/Faults.antt =====
-- `Fault::code` and `Fault::status` of src/proxy.rs, and how the telemetry classifies the codes.
use polyform_polyguard.Agreement.{
  Fault, protocol, disagreement, timeout, upstream_timeout, too_large, expectation_failed, busy,
  forbidden, client_closed, client_io, upstream, internal,
}
use polyform_polyguard.Base.{
  ℕ, Bool, true, false, not, ◌≡◌, refl, arith, Bytes, codes, equal, ok, is_ok,
}
use polyform_polyguard.Telemetry.{classification}
use polyform_polyguard.Types.{
  PolyguardError, TelemetryOutcome, limit_exceeded, no_route, unsupported_upgrade,
  unsupported_version, conflicting_content_length, invalid_transfer_encoding,
}

unfoldable pub protocol_code : PolyguardError → Bytes
protocol_code PolyguardError.ambiguous_framing = codes "ambiguous_framing"
protocol_code conflicting_content_length = codes "ambiguous_framing"
protocol_code invalid_transfer_encoding = codes "ambiguous_framing"
protocol_code no_route = codes "route_missing"
protocol_code unsupported_upgrade = codes "policy_rejected"
protocol_code unsupported_version = codes "policy_rejected"
protocol_code _ = codes "client_syntax"

unfoldable pub code : Fault → Bytes
unfolding protocol_code
code (protocol error) = protocol_code error
code client_io = codes "client_syntax"
code too_large = codes "client_syntax"
code expectation_failed = codes "client_syntax"
code client_closed = codes "client_closed"
code busy = codes "overloaded"
code forbidden = codes "policy_rejected"
code (disagreement function) = codes "implementation_disagreement"
code timeout = codes "timeout"
code upstream_timeout = codes "timeout"
code upstream = codes "upstream_failure"
code internal = codes "internal_failure"

unfoldable pub status : Fault → ℕ × Bytes
status (protocol no_route) = (404, codes "Not Found")
status (protocol unsupported_upgrade) = (501, codes "Not Implemented")
status timeout = (408, codes "Request Timeout")
status upstream_timeout = (504, codes "Gateway Timeout")
status too_large = (413, codes "Content Too Large")
status (protocol (limit_exceeded limit max actual)) = (413, codes "Content Too Large")
status expectation_failed = (417, codes "Expectation Failed")
status busy = (503, codes "Service Unavailable")
status forbidden = (403, codes "Forbidden")
status upstream = (502, codes "Bad Gateway")
status internal = (500, codes "Internal Server Error")
status client_closed = (400, codes "Bad Request")
status _ = (400, codes "Bad Request")

-- The codes that the telemetry does not list.
abbrev pub is_unlisted : Fault → Bool
is_unlisted client_closed = true
is_unlisted busy = true
is_unlisted _ = false

protocol-classified :
    (error : PolyguardError) → is_ok (classification (protocol_code error) false) ≡ true
unfolding classification protocol_code equal
protocol-classified no_route = refl
protocol-classified _ = refl

-- The code of a fault is classified, for a request that did not reach upstream, unless the client
-- closed the connection or the proxy is overloaded: those two codes are refused.
pub code-classified :
    (fault : Fault) → is_ok (classification (code fault) false) ≡ not (is_unlisted fault)
unfolding classification code equal
code-classified (protocol error) = protocol-classified error
code-classified client_io = refl
code-classified _ = refl

protocol-not_success :
    (error : PolyguardError) (reached : Bool) {t : TelemetryOutcome}
    → classification (protocol_code error) reached ≡ ok t
    → t.success ≡ false
unfolding classification protocol_code equal
protocol-not_success no_route reached h = ground arith
protocol-not_success _ reached h = ground arith

-- No fault is reported as a success, whether or not upstream was reached.
pub code-not_success :
    (fault : Fault) (reached : Bool) {t : TelemetryOutcome}
    → classification (code fault) reached ≡ ok t
    → t.success ≡ false
unfolding classification code equal
code-not_success (protocol error) reached h = protocol-not_success error reached h
code-not_success client_io reached h = ground arith
code-not_success _ reached h = ground arith
