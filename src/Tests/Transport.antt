-- ===== src/Tests/Transport.antt =====
-- Messages and correlation identifiers at concrete inputs.
use thoughtgate.Base.{
  ◌%◌, ◌^◌, Option, none, some, [], ◌∷◌, Result, ok, err, map, ◌≡◌, ◌↔◌, refl, arith, str_eq, true,
  false, if◌then◌else◌,
}
use thoughtgate.Base.Int.{pos}
use thoughtgate.Json.{Value, Fields, number, string, object, end, field}
use thoughtgate.Transport.{Numbers}
use thoughtgate.Transport.Correlation.{fast_correlation_id, fast_correlation_id-same_iff}
use thoughtgate.Transport.Parsing.{RawJsonRpcRequest, SerdeError, Reader, parse_items}
use thoughtgate.Transport.Agreement.{derived_request, ok_part, ReadInOrder, parse_items-ReadInOrder}

abbrev pub numbers : Numbers
numbers = record {
  as_i64 = λ s. if str_eq s "1" then some (pos 1) else none;
  as_u64 = λ s. if str_eq s "1" then some 1 else none;
  of_unsigned = λ n. "1";
}

abbrev refusal : SerdeError
refusal = record { is_syntax = true; is_eof = false; text = "refused" }

abbrev raw_result : Option RawJsonRpcRequest → Result RawJsonRpcRequest SerdeError
raw_result none = err refusal
raw_result (some raw) = ok raw

abbrev sent_raw : RawJsonRpcRequest
sent_raw = record {
  jsonrpc = some "2.0";
  id = none;
  method = some "tools/call";
  params = some (object (field "name" (string "delete_user") end));
}

abbrev read : Value → Result RawJsonRpcRequest SerdeError
read (object l) = raw_result (derived_request numbers l)
read _ = err refusal

abbrev pub reader : Reader
reader = record {
  numbers = numbers;
  slice_to_request = λ bytes. ok sent_raw;
  slice_to_array = λ bytes. err refusal;
  slice_to_value = λ bytes. err refusal;
  value_to_request = read;
  prefix = 7;
}

ok_part-raw_result : (o : Option RawJsonRpcRequest) → ok_part (raw_result o) ≡ o
ok_part-raw_result none = refl
ok_part-raw_result (some raw) = refl

pub derived :
    (l : Fields) → ok_part (reader.value_to_request (object l)) ≡ derived_request numbers l
derived l = ok_part-raw_result (derived_request numbers l)

abbrev pub call : Fields
call =
    field "jsonrpc" (string "2.0")
      (field "id" (number "1") (field "method" (string "tools/list") end))

abbrev fractional : Fields
fractional =
    field "jsonrpc" (string "2.0")
      (field "id" (number "1.5") (field "method" (string "tools/list") end))

parse_items-ReadInOrder_example :
    ReadInOrder numbers
      (map object (call ∷ fractional ∷ []))
      (parse_items reader 0 (map object (call ∷ fractional ∷ []))).1
parse_items-ReadInOrder_example = parse_items-ReadInOrder reader derived (call ∷ fractional ∷ []) 0

fast_correlation_id-same_iff_example :
    ((fast_correlation_id 7 3).1 ≡ (fast_correlation_id 7 4).1) ↔ (3 % 2 ^ 62 ≡ 4 % 2 ^ 62)
fast_correlation_id-same_iff_example =
    fast_correlation_id-same_iff 7 3 4 (omega arith) (omega arith)
