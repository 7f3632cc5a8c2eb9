-- ===== src/Lib.antt =====
-- Polyguard: a reverse proxy that runs each of its protocol functions in several implementations
-- and answers only where they agree.
--
-- The program. src/lib.rs holds the data model and a table of 65 implementations, five for each
-- of thirteen contract functions, whose code stands in src/implementations/. src/proxy.rs calls
-- them through `Agreement::run`, which orders the candidates, passes over the quarantined ones,
-- asks as many as the configured width, compares every answer with the first and traces the calls.
-- A request goes through the functions one by one: its line and headers are parsed, its body
-- framing determined, its target, authority and route settled and its head written for upstream.
--
-- The files.
--   Base          shared names, operators, and lemmas on lists, slices, results, trimming and
--                 splitting, for Rust's Option, Result, slice and iterator methods
--   Types         the data model of src/lib.rs
--   Agreement     `Agreement`, `Fault` and the call trace of src/proxy.rs. A candidate is an
--                 implementation with what it answers to the call at hand, which stands for the
--                 closure `invoke`; the thread's trace is passed in and out; the comparison
--                 `T: Eq` is an instance argument that decides equality. Agreement/Verdict
--                 describes a call by the list of answers, Agreement/Soundness says what
--                 agreeing implementations give, Agreement/Asked which are asked before a result
--                 is given, Agreement/Registry has the table of src/lib.rs, where a function
--                 pointer is the path of its function, Agreement/Quarantined and Counts say how
--                 much of the table may be quarantined, Agreement/Faults has the codes and
--                 statuses of faults
--   BodyFraming   `determine_body_framing`: BodyFraming describes the outcome from the list of
--                 all members of the two fields, BodyFraming/Transition, Bounded, Stream,
--                 Matrix and Direct are src/implementations/body_framing_transition.rs,
--                 body_framing_bounded_domain.rs, body_framing_stream_machine.rs,
--                 body_framing_rule_matrix.rs and body_framing_direct.rs,
--                 BodyFraming/Agreed puts them under the agreement
--   Telemetry     `classify_telemetry_outcome`: Telemetry lists the codes, Telemetry/RuleTable,
--                 SymbolPhases, LengthDispatch, FingerprintIndex and WordComposition are
--                 src/implementations/telemetry_rule_table.rs, telemetry_symbol_phases.rs,
--                 telemetry_length_dispatch.rs, telemetry_fingerprint_index.rs and
--                 telemetry_word_composition.rs
--   Memory        `MemoryBudget` and `MemoryPermit` of src/proxy.rs: Memory has the calls,
--                 Memory/Steps lets the threads' loads, checks, exchanges, drops and new limits
--                 interleave, Memory/Invariant and Memory/Calls say what they keep
--   Routing       `select_route_fold` and `select_route_sorted` of src/proxy.rs with the
--                 eligibility of a route; the standard library's sorting is a parameter
--   Body          `BufferedInput` and `read_chunked` of src/proxy.rs: Body/Plain relates the
--                 input to the stream of its unread bytes, Body/Chunked is the decoder, whose two
--                 parsers are parameters and whose memory is that of Memory
--   RequestLine   `parse_request_line`: Ends is where the line ends, Words and Parts cut it at its
--                 spaces, the five implementations of src/implementations/request_line_*.rs are
--                 a module each; Printed and Accepted relate them to what is written, Agreed to
--                 the agreement
--   HopByHop      `remove_hop_by_hop_headers`: HopByHop describes the outcome from the names that
--                 the fields nominate, HopByHop/RuleTable, Composable, SortedPlan and
--                 TypedPipeline are src/implementations/hop_by_hop_rule_table.rs,
--                 hop_by_hop_composable.rs, hop_by_hop_sorted_plan.rs and
--                 hop_by_hop_typed_pipeline.rs, Variants puts them side by side and Sound says
--                 what a sanitized block holds. Base/Names has the sets of names: an ordered set
--                 is its ascending list, a hash set is the list of its elements, which the code
--                 sorts before it shows them, and a binary search of a sorted list is membership
--   Response      `response_framing` of src/proxy.rs; Response/Decimal relates its numbers to the
--                 digits that spell them, Response/Fields its filters to the fields of a head,
--                 and Response/Delimits its outcome to the head
--   Tests         runs on concrete inputs
--
-- Numbers and text. Text is the list of its bytes. A u64 or usize is a natural number and the
-- checked operations test it against 2^64 - 1. A slice takes its two bounds.
-- Fuel. The iterator of body_framing_bounded_domain.rs, which takes at most one step more than the
-- field has bytes, is given two more, and the binary search of telemetry_fingerprint_index.rs is
-- given as many as the table has rows; the loops over the members of a field of
-- body_framing_direct.rs and hop_by_hop_composable.rs are given one step more than the value has
-- bytes, and the iterator of hop_by_hop_typed_pipeline.rs two more; the
-- equivalences hold for every input, so the fuel never
-- runs out. The two index loops for the end of a request line are given the length of the input.
-- A line is read in as many rounds as its limit allows bytes; the trailers and the
-- chunks are given one round more than their limit, and every round takes a byte at least.
--
-- Not modelled: hop_by_hop_token_trie.rs and the implementations of the other nine functions;
-- in src/proxy.rs the sockets, TLS, logging and metrics, the
-- configuration, the templates, static files, and the exchange with upstream;
-- src/nginx.rs, src/main.rs, src/bin/ and the Polyform runtime in vendor/. A width of zero with
-- nothing to call, at which `Agreement::run` panics, is an internal fault of the model.

pub mod Base
pub mod Types
pub mod BodyFraming
pub mod Telemetry
pub mod Agreement
pub mod Memory
pub mod Routing
pub mod Body
pub mod RequestLine
pub mod HopByHop
pub mod Response
pub mod Tests
