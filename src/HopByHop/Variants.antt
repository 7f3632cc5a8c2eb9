-- ===== src/HopByHop/Variants.antt =====
-- The implementations of `remove_hop_by_hop_headers` side by side.
use polyform_polyguard.Base.{◌≡◌}
use polyform_polyguard.HopByHop.Composable
use polyform_polyguard.HopByHop.RuleTable
use polyform_polyguard.HopByHop.SortedPlan
use polyform_polyguard.HopByHop.TypedPipeline
use polyform_polyguard.HopByHop.{sanitized}
use polyform_polyguard.Types.{HeaderBlock, SanitizedHeaders, PolyguardResult}

pub data HopByHopVariant : Type 0 where
  composable rule_table sorted_plan typed_pipeline : HopByHopVariant

unfoldable pub remove : HopByHopVariant → HeaderBlock → PolyguardResult SanitizedHeaders
remove composable = Composable.remove_hop_by_hop_headers
remove rule_table = RuleTable.remove_hop_by_hop_headers
remove sorted_plan = SortedPlan.remove_hop_by_hop_headers
remove typed_pipeline = TypedPipeline.remove_hop_by_hop_headers

-- Four implementations, by a hash set, an ordered set, a sorted list and a scan of events, give for
-- every header block the outcome that the names of its fields describe, or the same error.
pub remove-eq-sanitized :
    (variant : HopByHopVariant) (headers : HeaderBlock) → remove variant headers ≡ sanitized headers
unfolding remove
remove-eq-sanitized composable = Composable.composable-eq-sanitized
remove-eq-sanitized rule_table = RuleTable.rule_table-eq-sanitized
remove-eq-sanitized sorted_plan = SortedPlan.sorted_plan-eq-sanitized
remove-eq-sanitized typed_pipeline = TypedPipeline.typed_pipeline-eq-sanitized
