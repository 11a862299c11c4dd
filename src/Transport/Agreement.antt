-- ===== src/Transport/Agreement.antt =====
-- The two readings of a message: transport/jsonrpc.rs, which deserializes it, and jsonrpc.rs, which
-- looks at its fields. Serde's derived deserializer of the raw request is described here by its
-- documentation: a field that is missing or null is `None`, one of another type is an error.
use thoughtgate.Base.{
  ℕ, String, Option, none, some, List, [], ◌∷◌, map, Result, ok, err, ◌≡◌, refl, ◌∙◌, ap, sym,
  arith, if◌then◌else◌,
}
use thoughtgate.Errors.{ThoughtGateError}
use thoughtgate.Json.{Value, Fields, null, bool, number, string, array, object}
use thoughtgate.Json.Objects.{get_field, get_value, value_as_str}
use thoughtgate.Task.Types.{JsonRpcId}
use thoughtgate.Transport.{Numbers, McpRequest, BatchItem, valid, invalid}
use thoughtgate.Transport.Classify.{
  JsonRpcMessageKind, JsonRpcClassifyError, request, response, notification, classify_jsonrpc,
  parse_id, optional_id, text_in, classified, is_version,
}
use thoughtgate.Transport.Parsing.{
  RawJsonRpcRequest, SerdeError, Reader, deserialize_id, deserialize_optional_id, from_raw,
  parse_single_from_raw, parse_single_request, extracted_id, item_of, parse_items,
}

abbrev pub ok_part {ℓ κ} : {A : Type ℓ} {E : Type κ} → Result A E → Option A
ok_part (ok a) = some a
ok_part (err e) = none

abbrev optional_text : Option Value → Option (Option String)
optional_text none = some none
optional_text (some null) = some none
optional_text (some (string s)) = some (some s)
optional_text (some _) = none

abbrev optional_value : Option Value → Option Value
optional_value (some null) = none
optional_value o = o

abbrev id_field : Numbers → Option Value → Option (Option JsonRpcId)
id_field n none = some none
id_field n (some v) = ok_part (deserialize_optional_id n v)

abbrev raw_of :
    Option (Option String)
    → Option (Option JsonRpcId)
    → Option (Option String)
    → Option Value
    → Option RawJsonRpcRequest
raw_of (some v) (some id) (some m) p =
    some (record { jsonrpc = v; id = id; method = m; params = p })
raw_of _ _ _ p = none

unfoldable pub derived_request : Numbers → Fields → Option RawJsonRpcRequest
unfolding deserialize_optional_id
derived_request n l =
    raw_of (optional_text (get_field "jsonrpc" l)) (id_field n (get_field "id" l))
      (optional_text (get_field "method" l)) (optional_value (get_field "params" l))

-- The identifier and the method of what is to be served: a request or a notification.
abbrev pub served_kind :
    Result JsonRpcMessageKind JsonRpcClassifyError → Option (Option JsonRpcId × String)
served_kind (ok (request id method)) = some (some id, method)
served_kind (ok (notification method)) = some (none, method)
served_kind (ok (response id)) = none
served_kind (err e) = none

abbrev pub served_parse : Result McpRequest ThoughtGateError → Option (Option JsonRpcId × String)
served_parse (ok q) = some (q.id, q.method)
served_parse (err e) = none

abbrev named : Option JsonRpcId → Option String → Option (Option JsonRpcId × String)
named id none = none
named id (some m) = some (id, m)

abbrev served_raw : Option RawJsonRpcRequest → Option (Option JsonRpcId × String)
served_raw none = none
served_raw (some raw) = if is_version raw.jsonrpc then named raw.id raw.method else none

parse_single_from_raw-served :
    (r : Reader) (c : ℕ) (raw : RawJsonRpcRequest)
    → served_parse (parse_single_from_raw r c raw).1 ≡ served_raw (some raw)
unfolding parse_single_from_raw
parse_single_from_raw-served r c raw = ground arith

from_raw-served :
    (r : Reader) (c : ℕ) (x : Result RawJsonRpcRequest SerdeError)
    → served_parse (from_raw r c x).1 ≡ served_raw (ok_part x)
from_raw-served r c (err e) = refl
from_raw-served r c (ok raw) = parse_single_from_raw-served r c raw

abbrev joined : Option (Option String) → Option String
joined none = none
joined (some o) = o

optional_text-text_in : (o : Option Value) → joined (optional_text o) ≡ text_in o
unfolding value_as_str
optional_text-text_in none = refl
optional_text-text_in (some null) = refl
optional_text-text_in (some (bool b)) = refl
optional_text-text_in (some (number s)) = refl
optional_text-text_in (some (string s)) = refl
optional_text-text_in (some (array l)) = refl
optional_text-text_in (some (object l)) = refl

id_field-optional_id : (n : Numbers) (o : Option Value) → id_field n o ≡ ok_part (optional_id n o)
unfolding deserialize_optional_id deserialize_id optional_id parse_id
id_field-optional_id n none = refl
id_field-optional_id n (some null) = refl
id_field-optional_id n (some (bool b)) = refl
id_field-optional_id n (some (number s)) = ground arith
id_field-optional_id n (some (string s)) = refl
id_field-optional_id n (some (array l)) = refl
id_field-optional_id n (some (object l)) = refl

raw_of-served :
    (v : Option (Option String)) (id : Result (Option JsonRpcId) (Unit {0}))
    (m : Option (Option String)) (p : Option Value)
    → served_raw (raw_of v (ok_part id) m p)
      ≡ (if is_version (joined v) then served_kind (classified id (joined m)) else none)
raw_of-served none id m p = refl
raw_of-served (some none) (err e) m p = refl
raw_of-served (some none) (ok o) none p = refl
raw_of-served (some none) (ok o) (some k) p = refl
raw_of-served (some (some v)) (err e) m p = ground arith
raw_of-served (some (some v)) (ok none) none p = ground arith
raw_of-served (some (some v)) (ok (some id)) none p = ground arith
raw_of-served (some (some v)) (ok none) (some none) p = refl
raw_of-served (some (some v)) (ok (some id)) (some none) p = refl
raw_of-served (some (some v)) (ok none) (some (some k)) p = refl
raw_of-served (some (some v)) (ok (some id)) (some (some k)) p = refl

classify_jsonrpc-served :
    (n : Numbers) (l : Fields)
    → served_kind (classify_jsonrpc n (object l)) ≡ (
        if is_version (text_in (get_field "jsonrpc" l))
        then served_kind
            (classified (optional_id n (get_field "id" l)) (text_in (get_field "method" l)))
        else none)
unfolding classify_jsonrpc get_value
classify_jsonrpc-served n l = ground arith

derived_request-served :
    (n : Numbers) (l : Fields)
    → served_raw (derived_request n l) ≡ served_kind (classify_jsonrpc n (object l))
unfolding derived_request
derived_request-served n l = rw (
  classify_jsonrpc-served n l,
  id_field-optional_id n (get_field "id" l),
  raw_of-served,
  optional_text-text_in (get_field "jsonrpc" l),
  optional_text-text_in (get_field "method" l),
)

-- What an element was read as, against its classification: a request or a notification with its
-- identifier and method, or an error with the identifier, if the element has a readable one.
abbrev known_id : Result (Option JsonRpcId) (Unit {0}) → Option JsonRpcId
known_id (ok id) = id
known_id (err _) = none

abbrev pub ReadAs : Numbers → Value → BatchItem → Type 0
ReadAs n v (valid q) = served_kind (classify_jsonrpc n v) ≡ some (q.id, q.method)
ReadAs n v (invalid id e) =
    (served_kind (classify_jsonrpc n v) ≡ none) × (id ≡ known_id (optional_id n (get_value "id" v)))

abbrev pub ReadInOrder : Numbers → List Value → List BatchItem → Type 0
ReadInOrder n [] [] = Unit
ReadInOrder n (v ∷ vs) (i ∷ is) = ReadAs n v i × ReadInOrder n vs is
ReadInOrder n _ _ = ⊥

extracted_id-known :
    (n : Numbers) (l : Fields)
    → extracted_id n (object l) ≡ known_id (optional_id n (get_value "id" (object l)))
unfolding extracted_id optional_id parse_id get_value
extracted_id-known n l = ground arith

item_of-ReadAs :
    (n : Numbers) (l : Fields) (x : Result McpRequest ThoughtGateError)
    → served_parse x ≡ served_kind (classify_jsonrpc n (object l))
    → ReadAs n (object l) (item_of (extracted_id n (object l)) x)
item_of-ReadAs n l (ok q) h = sym h
item_of-ReadAs n l (err e) h = (sym h, extracted_id-known n l)

module _ (r : Reader)
    (derived : (l : Fields)
      → ok_part (r.value_to_request (object l)) ≡ derived_request r.numbers l) where
  -- An element of a batch that is an object is taken as a request exactly where `classify_jsonrpc`
  -- takes it for a request or a notification, with the same identifier and method.
  pub parse_single_request-served :
      (c : ℕ) (l : Fields)
      → served_parse (parse_single_request r c (object l)).1
        ≡ served_kind (classify_jsonrpc r.numbers (object l))
  unfolding parse_single_request
  parse_single_request-served c l =
      from_raw-served r c (r.value_to_request (object l))
      ∙ ap served_raw (derived l)
      ∙ derived_request-served r.numbers l

  -- The objects of a batch are read in their order, one item for each: an object that
  -- `classify_jsonrpc` takes for a request or a notification is a valid item with the same identifier
  -- and method, and any other is an error that carries the identifier of the object, if it has one
  -- that is a string, an integer or null. The hypothesis is what serde documents of the derived
  -- deserializer of a raw request.
  pub parse_items-ReadInOrder :
      (objects : List Fields) (c : ℕ)
      → ReadInOrder r.numbers (map object objects) (parse_items r c (map object objects)).1
  unfolding parse_items
  parse_items-ReadInOrder [] c = tt
  parse_items-ReadInOrder (l ∷ ls) c =
      (item_of-ReadAs r.numbers l _ (parse_single_request-served c l), parse_items-ReadInOrder ls _)
