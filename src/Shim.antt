-- ===== src/Shim.antt =====
-- thoughtgate/src/shim/ndjson.rs, with `bounded_read_line` and `drain_until_newline` of
-- shim/proxy/helpers.rs: the lines of the stdio transport. What a reader presents is a list of chunks,
-- one for each call of `fill_buf`; the end of the list, or an empty chunk, is the end of the input.
pub mod Lines
pub mod Served
use thoughtgate.Base.{
  ℕ, zero, suc, ◌+◌, ◌*◌, String, Bool, true, false, Option, none, some, List, [], ◌∷◌, ◌++◌,
  Result, ok, err, any, take, drop, length, ltb, ◌==◌, if◌then◌else◌, str_eq,
}
use thoughtgate.Json.{Value, Fields, array, object}
use thoughtgate.Json.Objects.{get_value, get_field, remove_field}
use thoughtgate.Transport.{Numbers}
use thoughtgate.Transport.Classify.{
  JsonRpcMessageKind, JsonRpcClassifyError, invalid_version, invalid_id, unclassifiable,
  classify_jsonrpc, text_in,
}

pub data FramingError : Type 0 where
  message_too_large : (max_bytes : ℕ) → FramingError
  malformed_json : (reason : String) → FramingError
  missing_version : FramingError
  unsupported_version : (version : String) → FramingError
  unsupported_batch : FramingError
  io : (text : String) → FramingError

pub record StdioMessage : Type 0 where
  pub kind : JsonRpcMessageKind
  pub params : Option Value
  pub raw : String

-- What the parser uses of `str` and `serde_json`: the length in bytes, `trim`, `from_str` and
-- `from_slice`, with the text of an error.
pub record LineReader : Type 0 where
  pub numbers : Numbers
  pub byte_len : String → ℕ
  pub trim : String → String
  pub from_str : String → Result Value String
  pub from_slice : List ℕ → Result Value String

abbrev pub max_message_bytes : ℕ
max_message_bytes = 10 * 1024 * 1024

abbrev version_error : Option String → FramingError
version_error none = missing_version
version_error (some v) = unsupported_version v

abbrev framing_error : Value → JsonRpcClassifyError → FramingError
framing_error v invalid_version = version_error (text_in (get_value "jsonrpc" v))
framing_error v invalid_id = malformed_json "invalid id field"
framing_error v unclassifiable = malformed_json "message has neither id nor method"

abbrev params_of : Value → Option Value
params_of (object l) = get_field "params" l
params_of _ = none

abbrev pub stdio_message :
    String
    → Value
    → Result JsonRpcMessageKind JsonRpcClassifyError
    → Result StdioMessage FramingError
stdio_message line v (err e) = err (framing_error v e)
stdio_message line v (ok kind) = ok (record { kind = kind; params = params_of v; raw = line })

unfoldable pub parsed_line :
    Numbers → String → Result Value String → Result StdioMessage FramingError
parsed_line n line (err e) = err (malformed_json e)
parsed_line n line (ok (array l)) = err unsupported_batch
parsed_line n line (ok v) = stdio_message line v (classify_jsonrpc n v)

abbrev pub is_blank : String → Bool
is_blank s = str_eq s ""

unfoldable pub parse_stdio_message : LineReader → String → Result StdioMessage FramingError
unfolding parsed_line
parse_stdio_message r line =
    if ltb max_message_bytes (r.byte_len line)
    then err (message_too_large max_message_bytes)
    else if is_blank (r.trim line)
    then err (malformed_json "empty message")
    else parsed_line r.numbers line (r.from_str (r.trim line))

-- `split` on the newline, which is 10.
abbrev pub push : ℕ → List (List ℕ) → List (List ℕ)
push b [] = (b ∷ []) ∷ []
push b (s ∷ segments) = (b ∷ s) ∷ segments

unfoldable pub split_lines : List ℕ → List (List ℕ)
split_lines [] = [] ∷ []
split_lines (b ∷ bs) = if b == 10 then [] ∷ split_lines bs else push b (split_lines bs)

abbrev has_version : Result Value String → Bool
has_version (err e) = false
has_version (ok v) = elim (get_value "jsonrpc" v) [ none ↦ false | some _ ↦ true ]

abbrev pub is_message : LineReader → List ℕ → Bool
is_message r [] = false
is_message r segment = has_version (r.from_slice segment)

abbrev pub after_first : List (List ℕ) → List (List ℕ)
after_first [] = []
after_first (s ∷ segments) = segments

unfoldable pub detect_smuggling : LineReader → List ℕ → Bool
unfolding split_lines
detect_smuggling r raw = any (is_message r) (after_first (split_lines raw))

pub data Chunk : Type 0 where
  bytes : List ℕ → Chunk
  failed : (text : String) → Chunk

unfoldable pub position : List ℕ → Option ℕ
position [] = none
position (b ∷ bs) =
    if b == 10 then some 0 else elim (position bs) [ none ↦ none | some p ↦ some (suc p) ]

-- `consume` of the first bytes of a chunk.
abbrev pub consume : ℕ → List ℕ → List Chunk → List Chunk
consume n chunk chunks = elim (drop n chunk) [ [] ↦ chunks | b ∷ rest ↦ bytes (b ∷ rest) ∷ chunks ]

-- The timeout of thirty seconds is left out.
unfoldable pub drain_until_newline : List Chunk → List Chunk
unfolding position
drain_until_newline [] = []
drain_until_newline (failed e ∷ chunks) = chunks
drain_until_newline (bytes [] ∷ chunks) = chunks
drain_until_newline (bytes (b ∷ chunk) ∷ chunks) =
    let rest = drain_until_newline chunks in
    elim (position (b ∷ chunk)) [ some pos ↦ consume (suc pos) (b ∷ chunk) chunks | none ↦ rest ]

-- What is left to read, the buffer, and the number of bytes.
abbrev pub Line : Type 0
Line = List Chunk × List ℕ × Result ℕ FramingError

abbrev pub end_line : ℕ → ℕ → List ℕ → List ℕ → ℕ → List Chunk → Line
end_line max_bytes total buf chunk pos chunks =
    if ltb max_bytes (total + suc pos)
    then (consume (suc pos) chunk chunks, buf, err (message_too_large max_bytes))
    else (consume (suc pos) chunk chunks, buf ++ take (suc pos) chunk, ok (total + suc pos))

abbrev pub next_chunk : ℕ → ℕ → List ℕ → List ℕ → List Chunk → Line → Option ℕ → Line
next_chunk max_bytes total buf chunk chunks rest (some pos) =
    end_line max_bytes total buf chunk pos chunks
next_chunk max_bytes total buf chunk chunks rest none =
    if ltb max_bytes (total + length chunk)
    then (drain_until_newline chunks, buf, err (message_too_large max_bytes))
    else rest

unfoldable pub read_line : ℕ → ℕ → List ℕ → List Chunk → Line
read_line max_bytes total buf [] = ([], buf, ok total)
read_line max_bytes total buf (failed e ∷ chunks) = (chunks, buf, err (io e))
read_line max_bytes total buf (bytes [] ∷ chunks) = (chunks, buf, ok total)
read_line max_bytes total buf (bytes (b ∷ chunk) ∷ chunks) =
    let rest = read_line max_bytes (total + length (b ∷ chunk)) (buf ++ (b ∷ chunk)) chunks in
    next_chunk max_bytes total buf (b ∷ chunk) chunks rest (position (b ∷ chunk))

-- The loops read into a buffer that they have cleared.
unfoldable pub bounded_read_line : ℕ → List Chunk → Line
unfolding read_line
bounded_read_line max_bytes chunks = read_line max_bytes 0 [] chunks
