-- ===== src/Task/Helpers.antt =====
-- thoughtgate-core/src/governance/task/helpers.rs: the poll interval, canonical JSON and the hash of a
-- request. The depth of the JSON walk is counted down: `left` is 65 less the depth of the source.
use Prim.Native.Nat.{Ordering}
use Prim.Native.String.{compare}
use Prim.Native.String.{◌++◌}
use thoughtgate.Base.{
  ℕ, zero, suc, ◌*◌, ◌/◌, String, Bool, true, false, Option, List, [], ◌∷◌, leb, if◌then◌else◌,
  Result, ok, err, get_or,
}
use thoughtgate.Json.{Value, Items, Fields, array, object, nil, cons, end, field}
use thoughtgate.Task.Types.{ToolCallRequest, Libraries}

abbrev pub seconds : ℕ → ℕ
seconds n = n * 1_000_000_000

abbrev pub as_secs : ℕ → ℕ
as_secs d = d / 1_000_000_000

unfoldable pub compute_poll_interval : ℕ → ℕ
compute_poll_interval remaining_ttl =
    let secs : ℕ = as_secs remaining_ttl in
    if leb secs 60
    then seconds 2
    else if leb secs 300
    then seconds 5
    else if leb secs 900
    then seconds 10
    else seconds 30

abbrev pub max_canonical_json_depth : ℕ
max_canonical_json_depth = 64

-- `a` does not come after `b` in the order of texts.
unfoldable pub str_le : String → String → Bool
str_le a b = elim (compare a b) [ Ordering.gt ↦ false | _ ↦ true ]

-- `sort_by_key` is stable: a field goes in front of the later fields whose keys are not smaller.
unfoldable pub insert_field : String → Value → List (String × Value) → List (String × Value)
insert_field k v [] = (k, v) ∷ []
insert_field k v ((j, w) ∷ l) =
    if str_le k j then (k, v) ∷ (j, w) ∷ l else (j, w) ∷ insert_field k v l

unfoldable pub sort_fields : Fields → List (String × Value)
unfolding insert_field
sort_fields end = []
sort_fields (field k v fs) = insert_field k v (sort_fields fs)

unfoldable pub item_list : Items → List Value
item_list nil = []
item_list (cons v vs) = v ∷ item_list vs

-- Rust's `entries.join(",")`.
unfoldable pub join_commas : List String → String
join_commas [] = ""
join_commas (s ∷ []) = s
join_commas (s ∷ t ∷ l) = s ++ "," ++ join_commas (t ∷ l)

unfoldable pub too_deep : String
too_deep = "JSON nesting depth exceeds maximum of 64"

abbrev pub cons_ok : String → Result (List String) String → Result (List String) String
cons_ok s (ok l) = ok (s ∷ l)
cons_ok s (err e) = err e

abbrev pub wrapped : String → String → Result (List String) String → Result String String
wrapped open_mark close_mark (ok l) = ok (open_mark ++ join_commas l ++ close_mark)
wrapped open_mark close_mark (err e) = err e

-- The loops over the items and over the sorted fields; `?` leaves at the first error.
module _ (json_text : Value → Option String) (inner : Value → Result String String) where
  unfoldable pub canonical_items : List Value → Result (List String) String
  canonical_items [] = ok []
  canonical_items (v ∷ vs) =
      let rest = canonical_items vs in elim (inner v) [ ok s ↦ cons_ok s rest | err e ↦ err e ]

  -- `serde_json::to_string` of a key is that of the JSON text.
  unfoldable pub canonical_fields : List (String × Value) → Result (List String) String
  canonical_fields [] = ok []
  canonical_fields ((k, v) ∷ l) =
      let rest = canonical_fields l in
      elim (inner v) [
        | ok s ↦ cons_ok (get_or (json_text (Value.string k)) "" ++ ":" ++ s) rest
        | err e ↦ err e
      ]

unfoldable pub canonical_json_inner : (Value → Option String) → ℕ → Value → Result String String
unfolding canonical_items canonical_fields
canonical_json_inner text zero v = err too_deep
canonical_json_inner text (suc left) (object fs) =
    wrapped "{" "}" (canonical_fields text (canonical_json_inner text left) (sort_fields fs))
canonical_json_inner text (suc left) (array vs) =
    wrapped "[" "]" (canonical_items text (canonical_json_inner text left) (item_list vs))
canonical_json_inner text (suc left) other = ok (get_or (text other) "")

unfoldable pub canonical_json : (Value → Option String) → Value → Result String String
unfolding canonical_json_inner
canonical_json text v = canonical_json_inner text (suc max_canonical_json_depth) v

-- The hash takes the texts one after the other.
unfoldable pub hash_request : Libraries → ToolCallRequest → Result String String
unfolding canonical_json
hash_request lib r = elim (canonical_json lib.json_text r.arguments) [
  | ok s ↦ ok (lib.sha256_hex (r.method ++ r.name ++ s))
  | err e ↦ err e
]
