-- ===== src/Shim/Served.antt =====
-- A line of the stdio transport (ndjson.rs) against a body of the proxy (transport/jsonrpc.rs).
use thoughtgate.Base.{ℕ, String, false, Option, none, Result, ok, err, ltb, ◌≡◌, refl, ◌∙◌, ap, sym}
use thoughtgate.Json.{Value, Fields, object}
use thoughtgate.Task.Types.{JsonRpcId}
use thoughtgate.Transport.Classify.{JsonRpcMessageKind, JsonRpcClassifyError, classify_jsonrpc}
use thoughtgate.Transport.Parsing.{Reader, parse_single_request}
use thoughtgate.Transport.Agreement.{
  ok_part, derived_request, served_kind, served_parse, parse_single_request-served,
}
use thoughtgate.Shim.{
  LineReader, FramingError, StdioMessage, max_message_bytes, stdio_message, parsed_line, is_blank,
  parse_stdio_message,
}

abbrev pub served_line : Result StdioMessage FramingError → Option (Option JsonRpcId × String)
served_line (ok m) = served_kind (ok m.kind)
served_line (err e) = none

stdio_message-served :
    (line : String) (v : Value) (x : Result JsonRpcMessageKind JsonRpcClassifyError)
    → served_line (stdio_message line v x) ≡ served_kind x
stdio_message-served line v (ok k) = refl
stdio_message-served line v (err e) = refl

parsed_line-served :
    (r : LineReader) (line : String) (l : Fields)
    → served_line (parsed_line r.numbers line (ok (object l)))
      ≡ served_kind (classify_jsonrpc r.numbers (object l))
unfolding parsed_line
parsed_line-served r line l =
    stdio_message-served line (object l) (classify_jsonrpc r.numbers (object l))

-- A line that is an object, is not blank and is within the limit is read by the shim as a request or a
-- notification exactly where the proxy's parser takes the same object as an element of a body, with the
-- same identifier and method. The hypotheses: both use one reader of numbers, and the derived
-- deserializer of a raw request does what serde documents.
pub parse_stdio_message-served :
    (s : LineReader) (r : Reader)
    → s.numbers ≡ r.numbers
    → ((l : Fields) → ok_part (r.value_to_request (object l)) ≡ derived_request r.numbers l)
    → (c : ℕ) (line : String) (l : Fields) → ltb max_message_bytes (s.byte_len line) ≡ false
    → is_blank (s.trim line) ≡ false
    → s.from_str (s.trim line) ≡ ok (object l)
    → served_line (parse_stdio_message s line)
      ≡ served_parse (parse_single_request r c (object l)).1
unfolding parse_stdio_message
parse_stdio_message-served s r same derived c line l size blank read =
    rw (size, blank, read)
      (parsed_line-served s line l
        ∙ ap (λ n. served_kind (classify_jsonrpc n (object l))) same
        ∙ sym (parse_single_request-served r derived c l))
