-- ===== src/Protocol/Injected.antt =====
-- What `inject_task_capability` of protocol/capability.rs leaves.
use thoughtgate.Base.{
  String, Bool, true, false, ◌&&◌, Option, none, some, ◌≡◌, refl, arith, if◌then◌else◌, str_eq_refl,
  get_or,
}
use thoughtgate.Json.{Value, Fields, null, bool, number, string, array, object, end}
use thoughtgate.Json.Objects.{
  get_value, get_field, set_field, get_field-set_field, get_field-modify_field,
}
use thoughtgate.Json.Maps.{IsJson, IsMap, set_field-IsMap, modify_field-IsMap}
use thoughtgate.Protocol.{
  then_get, as_bool, extract_upstream_task_support, on_object, or_insert, with_entry,
  inject_task_capability,
}

get_field-with_entry :
    (k : String) (f : Value → Value) (l : Fields)
    → get_field k (with_entry k f l) ≡ some (f (get_or (get_field k l) (object end)))
unfolding with_entry
get_field-with_entry k f l =
    grind (arith, get_field-modify_field k k f, get_field-set_field k (object end) l, str_eq_refl k)

-- A place in a value at which an object is, or can be put.
abbrev pub free : Option Value → Bool
free none = true
free (some (object _)) = true
free (some _) = false

get_value-with_entry :
    (k : String) (f : Value → Value) (o : Option Value)
    → get_value k (on_object (with_entry k f) (get_or o (object end)))
      ≡ (if free o then some (f (get_or (then_get k o) (object end))) else none)
unfolding get_value
get_value-with_entry k f none = get_field-with_entry k f end
get_value-with_entry k f (some (object l)) = get_field-with_entry k f l
get_value-with_entry k f (some null) = refl
get_value-with_entry k f (some (bool b)) = refl
get_value-with_entry k f (some (number s)) = refl
get_value-with_entry k f (some (string s)) = refl
get_value-with_entry k f (some (array l)) = refl

get_value-set_field :
    (k : String) (b : Bool) (o : Option Value)
    → as_bool (get_value k (on_object (set_field k (bool b)) (get_or o (object end)))) ≡ b && free o
unfolding get_value
get_value-set_field k b none = rw (get_field-set_field k (bool b) end) (ground arith)
get_value-set_field k b (some (object l)) = rw (get_field-set_field k (bool b) l) (ground arith)
get_value-set_field k b (some null) = ground arith
get_value-set_field k b (some (bool c)) = ground arith
get_value-set_field k b (some (number s)) = ground arith
get_value-set_field k b (some (string s)) = ground arith
get_value-set_field k b (some (array l)) = ground arith

-- Whether an object is, or can be put, at each place of the path of the task capability.
abbrev pub can_advertise : Value → Bool
can_advertise v =
    free (some v)
    && free (get_value "capabilities" v)
    && free (then_get "tasks" (get_value "capabilities" v))
    && free (then_get "requests" (then_get "tasks" (get_value "capabilities" v)))

abbrev set_call : Value → Value
set_call = on_object (set_field "tools/call" (bool true))

abbrev set_requests : Value → Value
set_requests = on_object (with_entry "requests" set_call)

abbrev set_tasks : Value → Value
set_tasks = on_object (with_entry "tasks" set_requests)

requests_lem :
    (o : Option Value)
    → as_bool (then_get "tools/call" (get_value "requests" (set_requests (get_or o (object end)))))
      ≡ free o && free (then_get "requests" o)
requests_lem o =
    rw (get_value-with_entry "requests" set_call o)
      (ground (arith, get_value-set_field "tools/call" true (then_get "requests" o)))

tasks_lem :
    (o : Option Value)
    → as_bool (
        then_get "tools/call"
          (then_get "requests" (get_value "tasks" (set_tasks (get_or o (object end))))))
      ≡ free o && free (then_get "tasks" o) && free (then_get "requests" (then_get "tasks" o))
tasks_lem o =
    rw (get_value-with_entry "tasks" set_requests o)
      (ground (arith, requests_lem (then_get "tasks" o)))

-- The task capability is announced exactly where it can be.
pub inject_task_capability-advertises :
    (v : Value) → extract_upstream_task_support (inject_task_capability v) ≡ can_advertise v
unfolding extract_upstream_task_support inject_task_capability
inject_task_capability-advertises v =
    rw (get_value-with_entry "capabilities" set_tasks (some v))
      (ground (arith, tasks_lem (get_value "capabilities" v)))

or_insert-IsMap : (k : String) (o : Option Value) (l : Fields) → IsMap l → IsMap (or_insert k o l)
unfolding IsMap IsJson
or_insert-IsMap k none l h = set_field-IsMap k (object end) l tt h
or_insert-IsMap k (some v) l h = h

on_object-IsJson :
    (f : Fields → Fields)
    → ((l : Fields) → IsMap l → IsMap (f l))
    → (v : Value) → IsJson v
    → IsJson (on_object f v)
unfolding IsMap IsJson
on_object-IsJson f keeps (object l) h = keeps l h
on_object-IsJson f keeps null h = h
on_object-IsJson f keeps (bool b) h = h
on_object-IsJson f keeps (number s) h = h
on_object-IsJson f keeps (string s) h = h
on_object-IsJson f keeps (array a) h = h

-- A change of an entry keeps the keys distinct, as the change of its value does.
entry-IsJson :
    (k : String) (f : Value → Value)
    → ((v : Value) → IsJson v → IsJson (f v))
    → (v : Value) → IsJson v
    → IsJson (on_object (with_entry k f) v)
unfolding with_entry
entry-IsJson k f keeps = on_object-IsJson (with_entry k f) (λ l h.
    modify_field-IsMap k f (or_insert k (get_field k l) l) keeps
      (or_insert-IsMap k (get_field k l) l h))

set_call-IsJson : (v : Value) → IsJson v → IsJson (set_call v)
unfolding IsMap IsJson
set_call-IsJson =
    on_object-IsJson (set_field "tools/call" (bool true))
      (λ l h. set_field-IsMap "tools/call" (bool true) l tt h)

pub inject_task_capability-IsJson : (v : Value) → IsJson v → IsJson (inject_task_capability v)
unfolding inject_task_capability
inject_task_capability-IsJson =
    entry-IsJson "capabilities" set_tasks
      (entry-IsJson "tasks" set_requests (entry-IsJson "requests" set_call set_call-IsJson))
