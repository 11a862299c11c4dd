-- ===== src/Protocol.antt =====
-- thoughtgate-core/src/protocol/capability.rs: what the upstream can do, and what ThoughtGate says that
-- it can do.
pub mod Injected
pub mod Stripped
pub mod Announced
use thoughtgate.Base.{String, Bool, true, false, Option, none, some, List, [], ◌∷◌, if◌then◌else◌}
use thoughtgate.Json.{Value, Fields, bool, object, end, field}
use thoughtgate.Json.Objects.{get_value, get_field, set_field, modify_field, remove_field}

pub record CapabilityCache : Type 0 where
  pub upstream_supports_tasks : Bool
  pub upstream_supports_task_sse : Bool
  pub has_initialized : Bool

unfoldable pub new_cache : CapabilityCache
new_cache = record {
  upstream_supports_tasks = false;
  upstream_supports_task_sse = false;
  has_initialized = false;
}

unfoldable pub set_upstream_supports_tasks : Bool → CapabilityCache → CapabilityCache
set_upstream_supports_tasks supports c = record c {
  upstream_supports_tasks = supports;
  has_initialized = true;
}

unfoldable pub set_upstream_supports_task_sse : Bool → CapabilityCache → CapabilityCache
set_upstream_supports_task_sse supports c = record c { upstream_supports_task_sse = supports }

unfoldable pub invalidate : CapabilityCache → CapabilityCache
invalidate c = record {
  upstream_supports_tasks = false;
  upstream_supports_task_sse = false;
  has_initialized = false;
}

-- `get` along a path, and `as_bool` at its end.
abbrev pub then_get : String → Option Value → Option Value
then_get k none = none
then_get k (some v) = get_value k v

abbrev pub as_bool : Option Value → Bool
as_bool (some (bool b)) = b
as_bool _ = false

unfoldable pub extract_upstream_task_support : Value → Bool
extract_upstream_task_support result = as_bool (
    then_get "tools/call"
      (then_get "requests" (then_get "tasks" (get_value "capabilities" result))))

unfoldable pub extract_upstream_sse_support : Value → Bool
extract_upstream_sse_support result = as_bool (
    then_get "status"
      (then_get "tasks" (then_get "notifications" (get_value "capabilities" result))))

-- `as_object_mut`, and a change of the object.
abbrev pub on_object : (Fields → Fields) → Value → Value
on_object f (object l) = object (f l)
on_object f v = v

abbrev pub or_insert : String → Option Value → Fields → Fields
or_insert k none l = set_field k (object end) l
or_insert k (some _) l = l

-- `entry(k).or_insert_with(|| {})`, and a change of what is there.
unfoldable pub with_entry : String → (Value → Value) → Fields → Fields
with_entry k f l = modify_field k f (or_insert k (get_field k l) l)

unfoldable pub inject_task_capability : Value → Value
unfolding with_entry
inject_task_capability result =
    on_object
      (with_entry "capabilities" (
        on_object (
          with_entry "tasks"
            (on_object (with_entry "requests" (on_object (set_field "tools/call" (bool true))))))))
      result

unfoldable pub inject_sse_capability : Value → Value
unfolding with_entry
inject_sse_capability result =
    on_object
      (with_entry "capabilities" (
        on_object (
          with_entry "notifications"
            (on_object (with_entry "tasks" (on_object (set_field "status" (bool true))))))))
      result

-- An object that has become empty is removed, any other is put back.
unfoldable pub put_back : String → Fields → Fields → Fields
put_back k end l = remove_field k l
put_back k (field j v m) l = modify_field k (λ _. object (field j v m)) l

-- `get_mut` and `as_object_mut`, and what is done with the object and the one that holds it.
abbrev pub if_object : Option Value → (Fields → Fields → Fields) → Fields → Fields
if_object (some (object m)) f l = f m l
if_object _ f l = l

abbrev pub strip_tasks : Fields → Fields → Fields
strip_tasks tasks l = put_back "tasks" (remove_field "status" tasks) l

unfoldable pub strip_notifications : Fields → Fields
unfolding put_back
strip_notifications l = if_object (get_field "tasks" l) strip_tasks l

abbrev pub strip_capabilities : Fields → Fields → Fields
strip_capabilities notifications l = put_back "notifications" (strip_notifications notifications) l

unfoldable pub strip_notified : Fields → Fields
unfolding strip_notifications
strip_notified l = if_object (get_field "notifications" l) strip_capabilities l

unfoldable pub strip_sse_capability : Value → Value
unfolding strip_notified
strip_sse_capability result =
    on_object (modify_field "capabilities" (on_object strip_notified)) result
