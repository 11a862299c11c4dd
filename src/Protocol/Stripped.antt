-- ===== src/Protocol/Stripped.antt =====
-- What `strip_sse_capability` of protocol/capability.rs leaves.
use thoughtgate.Base.{
  String, Bool, false, Option, none, some, ◌≡◌, refl, ◌∙◌, ◌⊎◌, inl, inr, arith, if◌then◌else◌,
  str_eq, str_eq_refl, str_eq→eq,
}
use thoughtgate.Json.{Value, Fields, null, bool, number, string, array, object, end, field}
use thoughtgate.Json.Objects.{
  get_value, get_field, remove_field, get_field-modify_field, map_option,
}
use thoughtgate.Json.Maps.{IsJson, IsMap, get_field-IsJson, get_field-remove_field}
use thoughtgate.Protocol.{
  then_get, as_bool, extract_upstream_task_support, extract_upstream_sse_support, on_object,
  put_back, if_object, strip_notifications, strip_notified, strip_sse_capability,
}

-- What stands in an object that was put back under its key, if anything.
abbrev kept_object : Fields → Option Value
kept_object end = none
kept_object l = some (object l)

get_field-put_back :
    (k j : String) (m l : Fields) (w : Value)
    → IsMap l
    → get_field k l ≡ some w
    → get_field j (put_back k m l) ≡ (if str_eq k j then kept_object m else get_field j l)
unfolding put_back
get_field-put_back k j end l w h was = get_field-remove_field k j l h
get_field-put_back k j (field i v m) l w h was =
    ground (arith, get_field-modify_field k j (λ _. object (field i v m)) l, str_eq→eq k j)

-- A test of what stands under a second key, which fails where nothing stands.
module _ (test : Option Value → Bool) (lost : test none ≡ false) (k j : String) where
  kept_object-lost :
      (m : Fields) → test (get_field j m) ≡ false → test (then_get j (kept_object m)) ≡ false
  unfolding get_value
  kept_object-lost end h = lost
  kept_object-lost (field i v m) h = h

  if_object-lost :
      (f : Fields → Fields → Fields) (l : Fields) (o : Option Value)
      → get_field k l ≡ o
      → ((m : Fields) → o ≡ some (object m) → test (then_get j (get_field k (f m l))) ≡ false)
      → test (then_get j (get_field k (if_object o f l))) ≡ false
  unfolding get_value
  if_object-lost f l none was h = rw was lost
  if_object-lost f l (some null) was h = rw was lost
  if_object-lost f l (some (bool b)) was h = rw was lost
  if_object-lost f l (some (number s)) was h = rw was lost
  if_object-lost f l (some (string s)) was h = rw was lost
  if_object-lost f l (some (array a)) was h = rw was lost
  if_object-lost f l (some (object m)) was h = h m refl

  -- The object under the first key is put back without what the test looks for.
  put_back-lost :
      (f : Fields → Fields) (l : Fields)
      → IsMap l
      → ((m : Fields) → IsMap m → test (get_field j (f m)) ≡ false)
      → test (then_get j (get_field k (if_object (get_field k l) (λ m. put_back k (f m)) l)))
        ≡ false
  unfolding IsMap
  put_back-lost f l h loses =
      if_object-lost (λ m. put_back k (f m)) l (get_field k l) refl
        (λ m was.
          rw (get_field-put_back k k (f m) l (object m) h was, str_eq_refl k)
            (kept_object-lost (f m) (loses m (get_field-IsJson k (object m) l h was))))

remove_field-lost :
    (k : String) (m : Fields) → IsMap m → as_bool (get_field k (remove_field k m)) ≡ false
remove_field-lost k m h = rw (get_field-remove_field k k m h, str_eq_refl k) refl

strip_notifications-lost :
    (l : Fields)
    → IsMap l
    → as_bool (then_get "status" (get_field "tasks" (strip_notifications l))) ≡ false
unfolding strip_notifications
strip_notifications-lost l h =
    put_back-lost as_bool refl "tasks" "status" (remove_field "status") l h
      (remove_field-lost "status")

strip_notified-lost :
    (l : Fields)
    → IsMap l
    → as_bool (then_get "status" (then_get "tasks" (get_field "notifications" (strip_notified l))))
      ≡ false
unfolding strip_notified
strip_notified-lost l h =
    put_back-lost (λ o. as_bool (then_get "status" o)) refl "notifications" "tasks"
      strip_notifications l h strip_notifications-lost

if_object-other :
    (k j : String) (f : Fields → Fields) (l : Fields) (o : Option Value)
    → str_eq k j ≡ false
    → IsMap l
    → get_field k l ≡ o
    → get_field j (if_object o (λ m. put_back k (f m)) l) ≡ get_field j l
if_object-other k j f l (some (object m)) apart h was =
    get_field-put_back k j (f m) l (object m) h was ∙ rw apart refl
if_object-other k j f l none apart h was = refl
if_object-other k j f l (some null) apart h was = refl
if_object-other k j f l (some (bool b)) apart h was = refl
if_object-other k j f l (some (number s)) apart h was = refl
if_object-other k j f l (some (string s)) apart h was = refl
if_object-other k j f l (some (array a)) apart h was = refl

strip_notified-tasks :
    (l : Fields) → IsMap l → get_field "tasks" (strip_notified l) ≡ get_field "tasks" l
unfolding strip_notified str_eq
strip_notified-tasks l h =
    if_object-other "notifications" "tasks" strip_notifications l (get_field "notifications" l) refl
      h refl

-- A place holds an object, or nothing is found in it and a change of objects leaves it.
place-cases :
    (f : Fields → Fields) (o : Option Value)
    → ((l : Fields) × (o ≡ some (object l)))
      ⊎ (((k : String) → then_get k o ≡ none) × (map_option (on_object f) o ≡ o))
unfolding get_value
place-cases f (some (object l)) = inl (l, refl)
place-cases f none = inr (λ k. refl, refl)
place-cases f (some null) = inr (λ k. refl, refl)
place-cases f (some (bool b)) = inr (λ k. refl, refl)
place-cases f (some (number s)) = inr (λ k. refl, refl)
place-cases f (some (string s)) = inr (λ k. refl, refl)
place-cases f (some (array a)) = inr (λ k. refl, refl)

abbrev capabilities_of : Value → Option Value
capabilities_of = get_value "capabilities"

stripped-capabilities :
    (v : Value)
    → capabilities_of (strip_sse_capability v)
      ≡ map_option (on_object strip_notified) (capabilities_of v)
unfolding strip_sse_capability get_value
stripped-capabilities (object l) =
    rw
      (
        get_field-modify_field "capabilities" "capabilities" (on_object strip_notified) l,
        str_eq_refl "capabilities",
      )
      refl
stripped-capabilities null = refl
stripped-capabilities (bool b) = refl
stripped-capabilities (number s) = refl
stripped-capabilities (string s) = refl
stripped-capabilities (array a) = refl

capabilities-IsMap :
    (v : Value) (l : Fields) → IsJson v → capabilities_of v ≡ some (object l) → IsMap l
unfolding IsJson get_value
capabilities-IsMap (object m) l h was = get_field-IsJson "capabilities" (object l) m h was
capabilities-IsMap null l h was = cc
capabilities-IsMap (bool b) l h was = cc
capabilities-IsMap (number s) l h was = cc
capabilities-IsMap (string s) l h was = cc
capabilities-IsMap (array a) l h was = cc

-- After the removal no status of tasks is announced.
pub strip_sse_capability-silent :
    (v : Value) → IsJson v → extract_upstream_sse_support (strip_sse_capability v) ≡ false
unfolding extract_upstream_sse_support get_value
strip_sse_capability-silent v h =
    rw (stripped-capabilities v) (elim (place-cases strip_notified (capabilities_of v)) [
      | inl (l, was) ↦ rw was (strip_notified-lost l (capabilities-IsMap v l h was))
      | inr (empty, same) ↦ rw (same, empty) refl
    ])

-- The removal leaves the announcement of tasks as it is.
pub strip_sse_capability-tasks :
    (v : Value)
    → IsJson v
    → extract_upstream_task_support (strip_sse_capability v) ≡ extract_upstream_task_support v
unfolding extract_upstream_task_support get_value
strip_sse_capability-tasks v h =
    rw (stripped-capabilities v) (elim (place-cases strip_notified (capabilities_of v)) [
      | inl (l, was) ↦ rw (was, strip_notified-tasks l (capabilities-IsMap v l h was)) refl
      | inr (empty, same) ↦ rw same refl
    ])
