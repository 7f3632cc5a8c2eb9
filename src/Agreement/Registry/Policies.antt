-- ===== src/Agreement/Registry/Policies.antt =====
-- The rows of the table of src/lib.rs whose functions decide on a request that was read.
use polyform_polyguard.Agreement.Registry.Entry.{Implementation, empty}
use polyform_polyguard.Base.{some, List, [], ◌∷◌, codes}

abbrev pub authority_implementations : List Implementation
authority_implementations =
    record (empty (codes "authority-validation-phases")) {
      reconcile_authority = some (codes "implementations::authority_phases::reconcile_authority");
    }
    ∷ record (empty (codes "authority-invariant-decision-table")) {
      reconcile_authority =
          some (codes "implementations::authority_invariant_table::reconcile_authority");
    }
    ∷ record (empty (codes "authority-composable-components")) {
      reconcile_authority =
          some (codes "implementations::authority_composable_components::reconcile_authority");
    }
    ∷ record (empty (codes "authority-segment-pipeline")) {
      reconcile_authority =
          some (codes "implementations::authority_segment_pipeline::reconcile_authority");
    }
    ∷ record (empty (codes "authority-endpoint-algebra")) {
      reconcile_authority =
          some (codes "implementations::authority_endpoint_algebra::reconcile_authority");
    }
    ∷ []

abbrev pub hop_by_hop_implementations : List Implementation
hop_by_hop_implementations =
    record (empty (codes "hop-by-hop-rule-table")) {
      remove_hop_by_hop_headers =
          some (codes "implementations::hop_by_hop_rule_table::remove_hop_by_hop_headers");
    }
    ∷ record (empty (codes "hop-by-hop-composable-guards")) {
      remove_hop_by_hop_headers =
          some (codes "implementations::hop_by_hop_composable::remove_hop_by_hop_headers");
    }
    ∷ record (empty (codes "hop-by-hop-typed-event-pipeline")) {
      remove_hop_by_hop_headers =
          some (codes "implementations::hop_by_hop_typed_pipeline::remove_hop_by_hop_headers");
    }
    ∷ record (empty (codes "hop-by-hop-sorted-rule-pipeline")) {
      remove_hop_by_hop_headers =
          some (codes "implementations::hop_by_hop_sorted_plan::remove_hop_by_hop_headers");
    }
    ∷ record (empty (codes "hop-by-hop-token-trie")) {
      remove_hop_by_hop_headers =
          some (codes "implementations::hop_by_hop_token_trie::remove_hop_by_hop_headers");
    }
    ∷ []

abbrev pub canonical_head_implementations : List Implementation
canonical_head_implementations =
    record (empty (codes "canonical-head-rule-phases")) {
      construct_canonical_upstream_head =
          some (
            codes "implementations::canonical_head_rule_phases::construct_canonical_upstream_head");
    }
    ∷ record (empty (codes "canonical-head-composable-table")) {
      construct_canonical_upstream_head = some (
          codes
            "implementations::canonical_head_composable_table::construct_canonical_upstream_head");
    }
    ∷ record (empty (codes "canonical-head-compiled-plan")) {
      construct_canonical_upstream_head = some (
          codes "implementations::canonical_head_compiled_plan::construct_canonical_upstream_head");
    }
    ∷ record (empty (codes "canonical-head-dual-sink-rules")) {
      construct_canonical_upstream_head = some (
          codes
            "implementations::canonical_head_dual_sink_rules::construct_canonical_upstream_head");
    }
    ∷ record (empty (codes "canonical-head-reverse-fill")) {
      construct_canonical_upstream_head =
          some (
            codes
              "implementations::canonical_head_reverse_fill::construct_canonical_upstream_head");
    }
    ∷ []

abbrev pub route_implementations : List Implementation
route_implementations =
    record (empty (codes "route-direct-domain")) {
      match_route = some (codes "implementations::route_direct::match_route");
    }
    ∷ record (empty (codes "route-rule-validation-pipeline")) {
      match_route = some (codes "implementations::route_rule_pipeline::match_route");
    }
    ∷ record (empty (codes "route-bounded-explicit-match")) {
      match_route = some (codes "implementations::route_bounded_match::match_route");
    }
    ∷ record (empty (codes "route-typed-arithmetic")) {
      match_route = some (codes "implementations::route_typed_arithmetic::match_route");
    }
    ∷ record (empty (codes "route-immutable-validation-table")) {
      match_route = some (codes "implementations::route_immutable_table::match_route");
    }
    ∷ []

abbrev pub forwarding_implementations : List Implementation
forwarding_implementations =
    record (empty (codes "forwarding-policy-decision-table")) {
      apply_forwarding_policy =
          some (codes "implementations::forwarding_decision_table::apply_forwarding_policy");
    }
    ∷ record (empty (codes "forwarding-policy-direct-match")) {
      apply_forwarding_policy =
          some (codes "implementations::forwarding_direct_match::apply_forwarding_policy");
    }
    ∷ record (empty (codes "forwarding-policy-transition-model")) {
      apply_forwarding_policy =
          some (codes "implementations::forwarding_transition_model::apply_forwarding_policy");
    }
    ∷ record (empty (codes "forwarding-policy-central-transition-table")) {
      apply_forwarding_policy =
          some (codes "implementations::forwarding_central_transition::apply_forwarding_policy");
    }
    ∷ record (empty (codes "forwarding-policy-primitive-boundary")) {
      apply_forwarding_policy =
          some (codes "implementations::forwarding_primitive_boundary::apply_forwarding_policy");
    }
    ∷ []

abbrev pub upgrade_implementations : List Implementation
upgrade_implementations =
    record (empty (codes "upgrade-composable-decision-table")) {
      decide_upgrade = some (codes "implementations::upgrade_composable_table::decide_upgrade");
    }
    ∷ record (empty (codes "upgrade-invariant-signature")) {
      decide_upgrade = some (codes "implementations::upgrade_invariant_signature::decide_upgrade");
    }
    ∷ record (empty (codes "upgrade-observation-policy-table")) {
      decide_upgrade = some (codes "implementations::upgrade_observation_policy::decide_upgrade");
    }
    ∷ record (empty (codes "upgrade-obligation-algebra")) {
      decide_upgrade = some (codes "implementations::upgrade_obligation_algebra::decide_upgrade");
    }
    ∷ record (empty (codes "upgrade-transformation-matrix")) {
      decide_upgrade =
          some (codes "implementations::upgrade_transformation_matrix::decide_upgrade");
    }
    ∷ []

abbrev pub telemetry_implementations : List Implementation
telemetry_implementations =
    record (empty (codes "telemetry-bounded-rule-table")) {
      classify_telemetry_outcome =
          some (codes "implementations::telemetry_rule_table::classify_telemetry_outcome");
    }
    ∷ record (empty (codes "telemetry-symbol-phases")) {
      classify_telemetry_outcome =
          some (codes "implementations::telemetry_symbol_phases::classify_telemetry_outcome");
    }
    ∷ record (empty (codes "telemetry-length-rule-dispatch")) {
      classify_telemetry_outcome =
          some (codes "implementations::telemetry_length_dispatch::classify_telemetry_outcome");
    }
    ∷ record (empty (codes "telemetry-fingerprint-index")) {
      classify_telemetry_outcome =
          some (codes "implementations::telemetry_fingerprint_index::classify_telemetry_outcome");
    }
    ∷ record (empty (codes "telemetry-word-composition")) {
      classify_telemetry_outcome =
          some (codes "implementations::telemetry_word_composition::classify_telemetry_outcome");
    }
    ∷ []
