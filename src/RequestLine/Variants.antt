-- ===== src/RequestLine/Variants.antt =====
-- The five implementations of `parse_request_line` side by side.
use polyform_polyguard.Base.{◌≡◌, Bytes}
use polyform_polyguard.RequestLine.Direct
use polyform_polyguard.RequestLine.State
use polyform_polyguard.RequestLine.ReverseOffsets
use polyform_polyguard.RequestLine.RuleWrappers
use polyform_polyguard.RequestLine.DecisionMachine
use polyform_polyguard.RequestLine.{request_line}
use polyform_polyguard.Types.{RequestLine, PolyguardResult}

pub data RequestLineVariant : Type 0 where
  direct state reverse_offsets rule_wrappers decision_machine : RequestLineVariant

unfoldable pub parse : RequestLineVariant → Bytes → PolyguardResult RequestLine
parse direct = Direct.parse_request_line
parse state = State.parse_request_line
parse reverse_offsets = ReverseOffsets.parse_request_line
parse rule_wrappers = RuleWrappers.parse_request_line
parse decision_machine = DecisionMachine.parse_request_line

pub parse-eq-request_line :
    (variant : RequestLineVariant) (input : Bytes) → parse variant input ≡ request_line input
unfolding parse
parse-eq-request_line direct = Direct.direct-eq-request_line
parse-eq-request_line state = State.state-eq-request_line
parse-eq-request_line reverse_offsets = ReverseOffsets.reverse_offsets-eq-request_line
parse-eq-request_line rule_wrappers = RuleWrappers.rule_wrappers-eq-request_line
parse-eq-request_line decision_machine = DecisionMachine.decision_machine-eq-request_line
