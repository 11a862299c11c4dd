-- ===== src/Tests/Shim.antt =====
-- Lines of the stdio transport at concrete inputs.
use thoughtgate.Base.{List, [], ◌∷◌, ok, err, ◌≡◌, refl, str_eq, true, if◌then◌else◌}
use thoughtgate.Json.{object}
use thoughtgate.Json.Objects.{get_value}
use thoughtgate.Transport.Parsing.{parse_single_request}
use thoughtgate.Transport.Agreement.{served_parse}
use thoughtgate.Shim.{
  LineReader, Chunk, bytes, message_too_large, drain_until_newline, position, detect_smuggling,
  split_lines, bounded_read_line, read_line, parse_stdio_message,
}
use thoughtgate.Shim.Lines.{Keeps, presented, bounded_read_line-Keeps}
use thoughtgate.Shim.Served.{served_line, parse_stdio_message-served}
use thoughtgate.Tests.Transport.{numbers, reader, derived, call}

abbrev line_reader : LineReader
line_reader = record {
  numbers = numbers;
  byte_len = λ s. 51;
  trim = λ s. if str_eq s "call " then "call" else s;
  from_str = λ s. if str_eq s "call" then ok (object call) else err "expected value";
  from_slice = λ bs. ok (object call);
}

-- Two lines in three chunks; the second line is longer than the limit of four.
abbrev chunks : List Chunk
chunks =
    bytes (1 ∷ 2 ∷ [])
    ∷ bytes (3 ∷ 10 ∷ 4 ∷ [])
    ∷ bytes (5 ∷ 6 ∷ 7 ∷ 8 ∷ [])
    ∷ bytes (9 ∷ 10 ∷ 11 ∷ [])
    ∷ []

first_line : bounded_read_line 4 chunks ≡ (
  bytes (4 ∷ []) ∷ bytes (5 ∷ 6 ∷ 7 ∷ 8 ∷ []) ∷ bytes (9 ∷ 10 ∷ 11 ∷ []) ∷ [],
  1 ∷ 2 ∷ 3 ∷ 10 ∷ [],
  ok 4,
)
unfolding bounded_read_line read_line position
first_line = refl

second_line :
    bounded_read_line 4 (bounded_read_line 4 chunks).0
    ≡ (bytes (11 ∷ []) ∷ [], 4 ∷ [], err (message_too_large 4))
unfolding bounded_read_line read_line position drain_until_newline
second_line = refl

-- The test finds a second message in bytes that hold a newline between two.
found : detect_smuggling line_reader (1 ∷ 10 ∷ 2 ∷ []) ≡ true
unfolding detect_smuggling split_lines get_value str_eq
found = refl

bounded_read_line-Keeps_example :
    Keeps line_reader 4 (presented chunks) (bounded_read_line 4 chunks)
bounded_read_line-Keeps_example = bounded_read_line-Keeps line_reader 4 chunks

parse_stdio_message-served_example :
    served_line (parse_stdio_message line_reader "call ")
    ≡ served_parse (parse_single_request reader 0 (object call)).1
unfolding str_eq
parse_stdio_message-served_example =
    parse_stdio_message-served line_reader reader refl derived 0 "call " call refl refl refl
