-- ===== src/Agreement/Registry/Messages.antt =====
-- The rows of the table of src/lib.rs whose functions read a request.
use polyform_polyguard.Agreement.Registry.Entry.{Implementation, empty}
use polyform_polyguard.Base.{some, List, [], ◌∷◌, codes}

abbrev pub request_line_implementations : List Implementation
request_line_implementations =
    record (empty (codes "request-line-state-pipeline")) {
      parse_request_line = some (codes "implementations::request_line_state::parse_request_line");
    }
    ∷ record (empty (codes "request-line-direct-guards")) {
      parse_request_line = some (codes "implementations::request_line_direct::parse_request_line");
    }
    ∷ record (empty (codes "request-line-rule-wrappers")) {
      parse_request_line =
          some (codes "implementations::request_line_rule_wrappers::parse_request_line");
    }
    ∷ record (empty (codes "request-line-decision-machine")) {
      parse_request_line =
          some (codes "implementations::request_line_decision_machine::parse_request_line");
    }
    ∷ record (empty (codes "request-line-reverse-offsets")) {
      parse_request_line =
          some (codes "implementations::request_line_reverse_offsets::parse_request_line");
    }
    ∷ []

abbrev pub header_section_implementations : List Implementation
header_section_implementations =
    record (empty (codes "header-section-typed-cursor")) {
      parse_header_section =
          some (codes "implementations::header_typed_cursor::parse_header_section");
    }
    ∷ record (empty (codes "header-section-state-phases")) {
      parse_header_section =
          some (codes "implementations::header_state_phases::parse_header_section");
    }
    ∷ record (empty (codes "header-section-decision-table")) {
      parse_header_section =
          some (codes "implementations::header_decision_table::parse_header_section");
    }
    ∷ record (empty (codes "header-section-algebraic-lines")) {
      parse_header_section =
          some (codes "implementations::header_algebraic_lines::parse_header_section");
    }
    ∷ record (empty (codes "header-section-transition-reducer")) {
      parse_header_section =
          some (codes "implementations::header_transition_reducer::parse_header_section");
    }
    ∷ []

abbrev pub body_framing_implementations : List Implementation
body_framing_implementations =
    record (empty (codes "body-framing-metadata-transition")) {
      determine_body_framing =
          some (codes "implementations::body_framing_transition::determine_body_framing");
    }
    ∷ record (empty (codes "body-framing-direct-wrappers")) {
      determine_body_framing =
          some (codes "implementations::body_framing_direct::determine_body_framing");
    }
    ∷ record (empty (codes "body-framing-rule-matrix")) {
      determine_body_framing =
          some (codes "implementations::body_framing_rule_matrix::determine_body_framing");
    }
    ∷ record (empty (codes "body-framing-stream-machine")) {
      determine_body_framing =
          some (codes "implementations::body_framing_stream_machine::determine_body_framing");
    }
    ∷ record (empty (codes "body-framing-bounded-domain")) {
      determine_body_framing =
          some (codes "implementations::body_framing_bounded_domain::determine_body_framing");
    }
    ∷ []

abbrev pub chunk_metadata_implementations : List Implementation
chunk_metadata_implementations =
    record (empty (codes "chunk-metadata-rule-pipeline")) {
      parse_chunk_metadata =
          some (codes "implementations::chunk_rule_pipeline::parse_chunk_metadata");
    }
    ∷ record (empty (codes "chunk-metadata-guarded-parts")) {
      parse_chunk_metadata =
          some (codes "implementations::chunk_guarded_parts::parse_chunk_metadata");
    }
    ∷ record (empty (codes "chunk-metadata-invariant-spans")) {
      parse_chunk_metadata =
          some (codes "implementations::chunk_invariant_spans::parse_chunk_metadata");
    }
    ∷ record (empty (codes "chunk-metadata-symbol-rule-iterator")) {
      parse_chunk_metadata =
          some (codes "implementations::chunk_symbol_rule_iterator::parse_chunk_metadata");
    }
    ∷ record (empty (codes "chunk-metadata-composable-segments")) {
      parse_chunk_metadata =
          some (codes "implementations::chunk_composable_segments::parse_chunk_metadata");
    }
    ∷ []

abbrev pub trailer_section_implementations : List Implementation
trailer_section_implementations =
    record (empty (codes "trailer-section-invariant-trie")) {
      parse_trailer_section =
          some (codes "implementations::trailer_invariant_trie::parse_trailer_section");
    }
    ∷ record (empty (codes "trailer-section-transition-phases")) {
      parse_trailer_section =
          some (codes "implementations::trailer_transition_phases::parse_trailer_section");
    }
    ∷ record (empty (codes "trailer-section-direct-decision-table")) {
      parse_trailer_section =
          some (codes "implementations::trailer_direct_table::parse_trailer_section");
    }
    ∷ record (empty (codes "trailer-section-validated-invariants")) {
      parse_trailer_section =
          some (codes "implementations::trailer_validated_invariants::parse_trailer_section");
    }
    ∷ record (empty (codes "trailer-section-event-automaton")) {
      parse_trailer_section =
          some (codes "implementations::trailer_event_automaton::parse_trailer_section");
    }
    ∷ []

abbrev pub request_target_implementations : List Implementation
request_target_implementations =
    record (empty (codes "request-target-rule-table")) {
      normalize_request_target =
          some (codes "implementations::request_target_rules::normalize_request_target");
    }
    ∷ record (empty (codes "request-target-validated-pipeline")) {
      normalize_request_target =
          some
            (codes "implementations::request_target_validated_pipeline::normalize_request_target");
    }
    ∷ record (empty (codes "request-target-invariant-offsets")) {
      normalize_request_target =
          some
            (codes "implementations::request_target_invariant_offsets::normalize_request_target");
    }
    ∷ record (empty (codes "request-target-typed-rule-matrix")) {
      normalize_request_target =
          some (codes "implementations::request_target_typed_matrix::normalize_request_target");
    }
    ∷ record (empty (codes "request-target-composable-validators")) {
      normalize_request_target =
          some (
            codes
              "implementations::request_target_composable_validators::normalize_request_target");
    }
    ∷ []
