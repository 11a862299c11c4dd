-- ===== src/Transport/Classify.antt =====
-- thoughtgate-core/src/jsonrpc.rs: what kind of message a JSON value is.
use thoughtgate.Base.{
  String, Bool, false, Option, none, some, Result, ok, err, not, if◌then◌else◌, str_eq,
}
use thoughtgate.Base.Int.{ℤ}
use thoughtgate.Json.{Value, null, number, string}
use thoughtgate.Json.Objects.{get_value, value_as_str}
use thoughtgate.Task.Types.{JsonRpcId}
use thoughtgate.Transport.{Numbers}

pub data JsonRpcMessageKind : Type 0 where
  request : (id : JsonRpcId) (method : String) → JsonRpcMessageKind
  response : (id : JsonRpcId) → JsonRpcMessageKind
  notification : (method : String) → JsonRpcMessageKind

pub data JsonRpcClassifyError : Type 0 where
  invalid_version invalid_id unclassifiable : JsonRpcClassifyError

abbrev pub integer_id {ℓ} : {E : Type ℓ} → E → Option ℤ → Result JsonRpcId E
integer_id e none = err e
integer_id e (some i) = ok (JsonRpcId.number i)

unfoldable pub parse_id : Numbers → Value → Result JsonRpcId (Unit {0})
parse_id n (number s) = integer_id tt (n.as_i64 s)
parse_id n (string s) = ok (JsonRpcId.string s)
parse_id n null = ok JsonRpcId.null
parse_id n _ = err tt

-- `.map(parse_id).transpose()`.
unfoldable pub optional_id : Numbers → Option Value → Result (Option JsonRpcId) (Unit {0})
unfolding parse_id
optional_id n none = ok none
optional_id n (some v) = elim (parse_id n v) [ ok id ↦ ok (some id) | err _ ↦ err tt ]

abbrev pub text_in : Option Value → Option String
text_in none = none
text_in (some v) = value_as_str v

abbrev pub kind_of :
    Option JsonRpcId → Option String → Result JsonRpcMessageKind JsonRpcClassifyError
kind_of (some id) (some method) = ok (request id method)
kind_of (some id) none = ok (response id)
kind_of none (some method) = ok (notification method)
kind_of none none = err unclassifiable

abbrev pub classified :
    Result (Option JsonRpcId) (Unit {0})
    → Option String
    → Result JsonRpcMessageKind JsonRpcClassifyError
classified (err _) method = err invalid_id
classified (ok id) method = kind_of id method

abbrev pub is_version : Option String → Bool
is_version none = false
is_version (some v) = str_eq v "2.0"

unfoldable pub classify_jsonrpc : Numbers → Value → Result JsonRpcMessageKind JsonRpcClassifyError
unfolding optional_id
classify_jsonrpc n v =
    if not (is_version (text_in (get_value "jsonrpc" v)))
    then err invalid_version
    else classified (optional_id n (get_value "id" v)) (text_in (get_value "method" v))
