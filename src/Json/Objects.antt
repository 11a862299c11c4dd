-- ===== src/Json/Objects.antt =====
-- Objects of `serde_json`, which keep the order of their insertions: what the code uses of
-- `serde_json::Map`, as its documentation describes it.
use thoughtgate.Base.{
  String, false, Option, none, some, ◌≡◌, refl, if◌then◌else◌, str_eq, str_eq_refl, str_eq→eq,
  arith,
}
use thoughtgate.Json.{Value, Fields, string, object, end, field}

unfoldable pub get_field : String → Fields → Option Value
get_field k end = none
get_field k (field j v l) = if str_eq j k then some v else get_field k l

-- `insert`: a key that is there keeps its place, a new one comes last.
unfoldable pub set_field : String → Value → Fields → Fields
set_field k v end = field k v end
set_field k v (field j w l) = if str_eq j k then field j v l else field j w (set_field k v l)

-- `get_mut` and a change of what is there.
unfoldable pub modify_field : String → (Value → Value) → Fields → Fields
modify_field k f end = end
modify_field k f (field j v l) =
    if str_eq j k then field j (f v) l else field j v (modify_field k f l)

-- `remove` is `swap_remove`: the last field takes the place of the one that goes.
unfoldable pub last_field : String → Value → Fields → String × Value
last_field k v end = (k, v)
last_field k v (field j w l) = last_field j w l

unfoldable pub but_last : String → Value → Fields → Fields
but_last k v end = end
but_last k v (field j w l) = field k v (but_last j w l)

unfoldable pub swap_out : Fields → Fields
unfolding last_field but_last
swap_out end = end
swap_out (field j w l) = field (last_field j w l).0 (last_field j w l).1 (but_last j w l)

unfoldable pub remove_field : String → Fields → Fields
unfolding swap_out
remove_field k end = end
remove_field k (field j v l) = if str_eq j k then swap_out l else field j v (remove_field k l)

-- `Value::get` with a text, and `as_str`.
unfoldable pub get_value : String → Value → Option Value
unfolding get_field
get_value k (object l) = get_field k l
get_value k _ = none

unfoldable pub value_as_str : Value → Option String
value_as_str (string s) = some s
value_as_str _ = none

pub get_field-set_field :
    (k : String) (v : Value) (l : Fields) → get_field k (set_field k v l) ≡ some v
unfolding get_field set_field
get_field-set_field k v end = rw (str_eq_refl k) refl
get_field-set_field k v (field j w l) = ground (arith, get_field-set_field k v l)

pub get_field-set_other :
    (k j : String) (v : Value) (l : Fields)
    → str_eq k j ≡ false
    → get_field j (set_field k v l) ≡ get_field j l
unfolding get_field set_field
get_field-set_other k j v end h = ground arith
get_field-set_other k j v (field i w l) h =
    ground (arith, get_field-set_other k j v l h, str_eq→eq i k)

abbrev pub map_option : (Value → Value) → Option Value → Option Value
map_option f none = none
map_option f (some v) = some (f v)

pub get_field-modify_field :
    (k j : String) (f : Value → Value) (l : Fields)
    → get_field j (modify_field k f l)
      ≡ (if str_eq k j then map_option f (get_field j l) else get_field j l)
unfolding get_field modify_field
get_field-modify_field k j f end = ground arith
get_field-modify_field k j f (field i v l) = ground (
  arith,
  get_field-modify_field k j f l,
  str_eq→eq i k,
  str_eq→eq k j,
  str_eq→eq i j,
  str_eq_refl k,
)
