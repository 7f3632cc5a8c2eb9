-- ===== src/Tests/Body.antt =====
-- Runs of the buffered input and of the chunk decoder, and their theorems at these inputs.
use polyform_polyguard.Agreement.{Fault, client_io}
use polyform_polyguard.Base.{
  ℕ, ◌≤◌, List, [], ◌∷◌, ◌≡◌, refl, arith, Bytes, codes, equal, ends_with, starts_with,
  strip_prefix, if◌then◌else◌, length, Result, ok,
}
use polyform_polyguard.Body.Chunked.{Reading, read_chunked}
use polyform_polyguard.Body.Decoded.{read_chunked_rounds, read_chunked-Moves, read_chunked-took}
use polyform_polyguard.Body.Fuel.{loop}
use polyform_polyguard.Body.Permit.{Owns, Moves}
use polyform_polyguard.Body.Plain.{
  unread, line, exact, buffered_call, plain_call, in_turn, in_turn-Simulates, Call,
}
use polyform_polyguard.Body.{BufferedInput, read_byte, read_exact_vec, line_up_to, trailers_up_to}
use polyform_polyguard.Memory.{grow}
use polyform_polyguard.Types.{ChunkMeta, TrailerBlock}

abbrev parse_size : Bytes → Result Fault ChunkMeta
parse_size wire =
    if equal wire (codes "0\r\n")
    then ok (record { size = 0; extensions = []; bytes_consumed = 3 })
    else ok (record { size = 2; extensions = []; bytes_consumed = 3 })

abbrev no_names : Result Fault (List Bytes)
no_names = ok []

abbrev parse_none : Bytes → List Bytes → Result Fault TrailerBlock
parse_none wire names = ok (record { fields = []; bytes_consumed = 2 })

abbrev wire : Reading BufferedInput
wire = record {
  input = record {
    stream = record { incoming = codes "\n0\r\n\r\nGET"; at_end = client_io };
    buffer = codes "\n2\r\nab\r";
    offset = 1;
  };
  budget = record { id = 0; used = 5; limit = 20 };
  permit = record { budget = 0; bytes = 1 };
}

abbrev decoded : Reading BufferedInput
decoded = record {
  input = record {
    stream = record { incoming = codes "GET"; at_end = client_io };
    buffer = [];
    offset = 0;
  };
  budget = record { id = 0; used = 7; limit = 20 };
  permit = record { budget = 0; bytes = 3 };
}

decode_run : read_chunked parse_size no_names parse_none 10 wire ≡ (ok (codes "ab"), decoded)
unfolding read_chunked read_byte read_exact_vec grow equal ends_with starts_with strip_prefix
    line_up_to trailers_up_to
decode_run = refl

wire-Owns : Owns wire
wire-Owns = record { of_budget = refl; in_use = omega arith; machine_limit = omega arith }

read_chunked_rounds_example :
    loop read_byte read_exact_vec parse_size no_names parse_none 12 10 [] wire
    ≡ read_chunked parse_size no_names parse_none 10 wire
read_chunked_rounds_example =
    read_chunked_rounds parse_size no_names parse_none 10 12 wire (omega arith)

read_chunked-Moves_example : Moves wire (read_chunked parse_size no_names parse_none 10 wire).1
read_chunked-Moves_example = read_chunked-Moves parse_size no_names parse_none 10 wire wire-Owns

read_chunked-took_example : (◌≡◌ {A = ℕ} 3 3) × (length (codes "ab") ≤ 10)
read_chunked-took_example =
    read_chunked-took parse_size no_names parse_none 10 wire (codes "ab") decoded decode_run

abbrev calls : List Call
calls = line 5 ∷ exact 4 ∷ []

in_turn-Simulates_example : in_turn plain_call calls (unread wire.input) ≡ (
  (in_turn buffered_call calls wire.input).0,
  unread (in_turn buffered_call calls wire.input).1,
)
in_turn-Simulates_example = in_turn-Simulates calls wire.input
