-- ===== src/Transport/Parsing.antt =====
-- `parse_jsonrpc` of thoughtgate-core/src/transport/jsonrpc.rs: the requests of a body. The state is
-- the counter of the correlation identifiers.
use Prim.Native.String.{◌++◌}
use thoughtgate.Base.{
  ℕ, ◌*◌, min, String, Bool, ◌||◌, Option, none, some, List, [], ◌∷◌, Result, ok, err, ◌==◌,
  if◌then◌else◌, str_eq,
}
use thoughtgate.Base.Int.{ℤ}
use thoughtgate.Errors.{ThoughtGateError, parse_error, invalid_request}
use thoughtgate.Json.{Value, null, number, string, object}
use thoughtgate.Json.Objects.{get_value, get_field}
use thoughtgate.Task.Types.{JsonRpcId}
use thoughtgate.Transport.{Numbers, TaskMetadata, McpRequest, BatchItem, valid, invalid}
use thoughtgate.Transport.Classify.{integer_id}
use thoughtgate.Transport.Correlation.{fast_correlation_id}

pub record RawJsonRpcRequest : Type 0 where
  pub jsonrpc : Option String
  pub id : Option JsonRpcId
  pub method : Option String
  pub params : Option Value

-- An error of `serde_json`, with the text that it prints.
pub record SerdeError : Type 0 where
  pub is_syntax : Bool
  pub is_eof : Bool
  pub text : String

-- What reads bytes and values, and the prefix of the process.
pub record Reader : Type 0 where
  pub numbers : Numbers
  pub slice_to_request : List ℕ → Result RawJsonRpcRequest SerdeError
  pub slice_to_array : List ℕ → Result (List Value) SerdeError
  pub slice_to_value : List ℕ → Result Value SerdeError
  pub value_to_request : Value → Result RawJsonRpcRequest SerdeError
  pub prefix : ℕ

-- `Deserialize` of `JsonRpcId`.
unfoldable pub deserialize_id : Numbers → Value → Result JsonRpcId String
deserialize_id n (number s) = integer_id "JSON-RPC ID must be integer, not float" (n.as_i64 s)
deserialize_id n (string s) = ok (JsonRpcId.string s)
deserialize_id n null = ok JsonRpcId.null
deserialize_id n _ = err "JSON-RPC ID must be string, integer, or null"

pub data MaybeNull {ℓ} (T : Type ℓ) : Type ℓ where
  absent explicit_null : MaybeNull T
  present : T → MaybeNull T

abbrev presented : Result JsonRpcId String → Result (MaybeNull JsonRpcId) String
presented (ok id) = ok (present id)
presented (err e) = err e

unfoldable pub deserialize_maybe_null : Numbers → Value → Result (MaybeNull JsonRpcId) String
unfolding deserialize_id
deserialize_maybe_null n null = ok explicit_null
deserialize_maybe_null n v = presented (deserialize_id n v)

abbrev flattened : Result (MaybeNull JsonRpcId) String → Result (Option JsonRpcId) String
flattened (err e) = err e
flattened (ok absent) = ok none
flattened (ok explicit_null) = ok (some JsonRpcId.null)
flattened (ok (present id)) = ok (some id)

unfoldable pub deserialize_optional_id : Numbers → Value → Result (Option JsonRpcId) String
unfolding deserialize_maybe_null
deserialize_optional_id n v = flattened (deserialize_maybe_null n v)

abbrev pub is_whitespace : ℕ → Bool
is_whitespace b = b == 32 || b == 9 || b == 10 || b == 12 || b == 13

unfoldable pub first_byte : List ℕ → Option ℕ
first_byte [] = none
first_byte (b ∷ bytes) = if is_whitespace b then first_byte bytes else some b

-- 24 hours.
abbrev pub max_ttl_ms : ℕ
max_ttl_ms = 24 * 60 * 60 * 1000

abbrev clamped : Option ℕ → Option ℕ
clamped none = none
clamped (some ms) = some (min ms max_ttl_ms * 1_000_000)

abbrev unsigned_in : Numbers → Option Value → Option ℕ
unsigned_in n (some (number s)) = n.as_u64 s
unsigned_in n _ = none

unfoldable pub task_metadata_of : Numbers → Option Value → Option TaskMetadata
task_metadata_of n none = none
task_metadata_of n (some task) =
    some (record { ttl = clamped (unsigned_in n (get_value "ttl" task)) })

unfoldable pub extract_task_metadata : Numbers → Option Value → Option TaskMetadata
unfolding task_metadata_of
extract_task_metadata n none = none
extract_task_metadata n (some params) = task_metadata_of n (get_value "task" params)

abbrev pub Parsed : Type 0
Parsed = ℕ × Result McpRequest ThoughtGateError

abbrev pub numbered : Reader → RawJsonRpcRequest → String → ℕ × ℕ → Parsed
numbered r raw method (counter, id) = (
  counter,
  ok (record {
    id = raw.id;
    method = method;
    params = raw.params;
    task_metadata = extract_task_metadata r.numbers raw.params;
    correlation_id = id;
  }),
)

abbrev with_method : Reader → ℕ → RawJsonRpcRequest → Option String → Parsed
with_method r counter raw none = (counter, err (invalid_request "Missing required field: method"))
with_method r counter raw (some method) =
    numbered r raw method (fast_correlation_id r.prefix counter)

abbrev with_version : Reader → ℕ → RawJsonRpcRequest → Option String → Parsed
with_version r counter raw none = (counter, err (invalid_request "Missing required field: jsonrpc"))
with_version r counter raw (some v) =
    if str_eq v "2.0" then with_method r counter raw raw.method else (
      counter,
      err (invalid_request ("Invalid jsonrpc version: expected \"2.0\", got \"" ++ v ++ "\"")),
    )

unfoldable pub parse_single_from_raw : Reader → ℕ → RawJsonRpcRequest → Parsed
unfolding extract_task_metadata fast_correlation_id
parse_single_from_raw r counter raw = with_version r counter raw raw.jsonrpc

abbrev pub from_raw : Reader → ℕ → Result RawJsonRpcRequest SerdeError → Parsed
from_raw r counter (err e) =
    (counter, err (invalid_request ("Invalid JSON-RPC structure: " ++ e.text)))
from_raw r counter (ok raw) = parse_single_from_raw r counter raw

unfoldable pub parse_single_request : Reader → ℕ → Value → Parsed
unfolding parse_single_from_raw
parse_single_request r counter v = from_raw r counter (r.value_to_request v)

abbrev number_id : Option ℤ → Option JsonRpcId
number_id none = none
number_id (some i) = some (JsonRpcId.number i)

abbrev id_value : Numbers → Option Value → Option JsonRpcId
id_value n (some (number s)) = number_id (n.as_i64 s)
id_value n (some (string s)) = some (JsonRpcId.string s)
id_value n (some null) = some JsonRpcId.null
id_value n _ = none

-- The identifier for the error of an element.
unfoldable pub extracted_id : Numbers → Value → Option JsonRpcId
extracted_id n (object l) = id_value n (get_field "id" l)
extracted_id n _ = none

abbrev pub item_of : Option JsonRpcId → Result McpRequest ThoughtGateError → BatchItem
item_of id (ok request) = valid request
item_of id (err error) = invalid id error

unfoldable pub parse_items : Reader → ℕ → List Value → ℕ × List BatchItem
unfolding extracted_id parse_single_request
parse_items r counter [] = (counter, [])
parse_items r counter (v ∷ arr) =
    let parsed = parse_single_request r counter v in
    let rest = parse_items r parsed.0 arr in
    (rest.0, item_of (extracted_id r.numbers v) parsed.1 ∷ rest.1)

pub data ParsedRequests : Type 0 where
  single : McpRequest → ParsedRequests
  batch : List BatchItem → ParsedRequests

abbrev pub Requests : Type 0
Requests = ℕ × Result ParsedRequests ThoughtGateError

abbrev as_single : Parsed → Requests
as_single (counter, ok request) = (counter, ok (single request))
as_single (counter, err e) = (counter, err e)

abbrev single_error : SerdeError → ThoughtGateError
single_error e =
    if e.is_syntax || e.is_eof
    then parse_error ("Invalid JSON: " ++ e.text)
    else invalid_request ("Invalid JSON-RPC structure: " ++ e.text)

unfoldable pub parse_object : Reader → ℕ → Result RawJsonRpcRequest SerdeError → Requests
unfolding parse_single_from_raw
parse_object r counter (err e) = (counter, err (single_error e))
parse_object r counter (ok raw) = as_single (parse_single_from_raw r counter raw)

abbrev as_batch : ℕ × List BatchItem → Requests
as_batch (counter, items) = (counter, ok (batch items))

unfoldable pub parse_array : Reader → ℕ → Result (List Value) SerdeError → Requests
unfolding parse_items
parse_array r counter (err e) = (counter, err (parse_error ("Invalid JSON: " ++ e.text)))
parse_array r counter (ok []) = (counter, err (invalid_request "Empty batch is not allowed"))
parse_array r counter (ok arr) = as_batch (parse_items r counter arr)

abbrev parse_other : ℕ → Result Value SerdeError → Requests
parse_other counter (err e) = (counter, err (parse_error ("Invalid JSON: " ++ e.text)))
parse_other counter (ok _) = (counter, err (invalid_request "Request must be an object or array"))

-- By the first byte that is not whitespace: `{` is 123 and `[` is 91.
abbrev parse_from : Reader → ℕ → List ℕ → Option ℕ → Requests
parse_from r counter bytes none = (counter, err (parse_error "Invalid JSON: empty input"))
parse_from r counter bytes (some b) =
    if b == 123
    then parse_object r counter (r.slice_to_request bytes)
    else if b == 91
    then parse_array r counter (r.slice_to_array bytes)
    else parse_other counter (r.slice_to_value bytes)

unfoldable pub parse_jsonrpc : Reader → ℕ → List ℕ → Requests
unfolding first_byte parse_object parse_array
parse_jsonrpc r counter bytes = parse_from r counter bytes (first_byte bytes)
