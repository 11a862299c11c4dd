-- ===== src/Governance/Redact.antt =====
-- thoughtgate-core/src/governance/approval/redact.rs: the fields that are blanked before the
-- arguments of a call are shown.
use thoughtgate.Base.{
  String, subst, ap, str_eq_refl, true, false, Option, none, some, List, [], ◌∷◌, ◌≡◌, ◌≢◌, sym,
  ◌∙◌, refl, arith, if◌then◌else◌, str_eq, Bool-cases, str_eq→eq, Option-cases, inl, inr, All,
}
use thoughtgate.Json.{Value, Fields, string, object, null, bool, number, array}
use thoughtgate.Json.Objects.{
  get_value, get_field, set_field, modify_field, map_option, get_field-modify_field,
  get_field-set_field, get_field-set_other,
}

abbrev pub redacted : Value
redacted = string "[REDACTED]"

-- A field of an object is replaced where it stands: `contains_key` and `insert`.
unfoldable pub redact_key : String → Fields → Fields
redact_key key l = elim (get_field key l) [ none ↦ l | some _ ↦ set_field key redacted l ]

unfoldable pub redact_path : List String → Value → Value
unfolding redact_key
redact_path [] v = v
redact_path (key ∷ []) (object l) = object (redact_key key l)
redact_path (key ∷ next ∷ rest) (object l) = object (modify_field key (redact_path (next ∷ rest)) l)
redact_path _ v = v

-- The loop over the fields; `split` is `str::split` at the dots.
unfoldable pub redact_all : (String → List String) → List String → Value → Value
unfolding redact_path
redact_all split [] v = v
redact_all split (f ∷ l) v = redact_all split l (redact_path (split f) v)

unfoldable pub redact_fields : (String → List String) → Value → List String → Value
unfolding redact_all
redact_fields split value [] = value
redact_fields split value (f ∷ l) = redact_all split (f ∷ l) value

-- The value that a path of keys leads to.
unfoldable pub at_path : List String → Value → Option Value
at_path [] v = some v
at_path (k ∷ p) v = elim (get_value k v) [ none ↦ none | some w ↦ at_path p w ]

-- What a path leads to, if anything, is the blank.
pub IsHidden : List String → Value → Type 0
IsHidden p v = (w : Value) → at_path p v ≡ some w → w ≡ redacted

abbrev redact_under : List String → Value → Value
redact_under [] w = redacted
redact_under (k ∷ p) w = redact_path (k ∷ p) w

get_field-redact_key :
    (k j : String) (l : Fields)
    → get_field j (redact_key k l)
      ≡ (if str_eq k j then map_option (λ _. redacted) (get_field j l) else get_field j l)
unfolding redact_key
get_field-redact_key k j l =
    ground
      (arith, get_field-set_field k redacted l, get_field-set_other k j redacted l, str_eq→eq k j)

get_value-redact_path :
    (k j : String) (q : List String) (v : Value)
    → get_value j (redact_path (k ∷ q) v)
      ≡ (if str_eq k j then map_option (redact_under q) (get_value j v) else get_value j v)
unfolding redact_path get_value
get_value-redact_path k j [] (object l) = get_field-redact_key k j l
get_value-redact_path k j (n ∷ r) (object l) = get_field-modify_field k j (redact_path (n ∷ r)) l
get_value-redact_path k j [] null = ground arith
get_value-redact_path k j [] (bool b) = ground arith
get_value-redact_path k j [] (number b) = ground arith
get_value-redact_path k j [] (string b) = ground arith
get_value-redact_path k j [] (array b) = ground arith
get_value-redact_path k j (n ∷ r) null = ground arith
get_value-redact_path k j (n ∷ r) (bool b) = ground arith
get_value-redact_path k j (n ∷ r) (number b) = ground arith
get_value-redact_path k j (n ∷ r) (string b) = ground arith
get_value-redact_path k j (n ∷ r) (array b) = ground arith

-- A text has no fields.
at_path-redacted : (p : List String) → IsHidden p redacted
unfolding IsHidden at_path get_value
at_path-redacted [] w h = ground arith
at_path-redacted (k ∷ p) w h = ground arith

redact_path-redacted : (q : List String) → redact_path q redacted ≡ redacted
unfolding redact_path
redact_path-redacted [] = refl
redact_path-redacted (k ∷ []) = refl
redact_path-redacted (k ∷ n ∷ r) = refl

redact_under-redacted : (q : List String) → redact_under q redacted ≡ redacted
redact_under-redacted [] = refl
redact_under-redacted (k ∷ q) = redact_path-redacted (k ∷ q)

-- A path through the first key of an object.
at_path-cons :
    (j : String) (p : List String) (u v : Value)
    → get_value j u ≡ some v
    → at_path (j ∷ p) u ≡ at_path p v
unfolding at_path
at_path-cons j p u v h = rw (h, at_path) refl

IsHidden-cons :
    (j : String) (p : List String) (u v : Value)
    → get_value j u ≡ some v
    → IsHidden p v
    → IsHidden (j ∷ p) u
unfolding IsHidden
IsHidden-cons j p u v h hidden w at = hidden w (sym (at_path-cons j p u v h) ∙ at)

IsHidden-tail :
    (j : String) (p : List String) (u v : Value)
    → get_value j u ≡ some v
    → IsHidden (j ∷ p) u
    → IsHidden p v
unfolding IsHidden
IsHidden-tail j p u v h hidden w at = hidden w (at_path-cons j p u v h ∙ at)

IsHidden-absent :
    (j : String) (p : List String) (u : Value) → get_value j u ≡ none → IsHidden (j ∷ p) u
unfolding IsHidden at_path
IsHidden-absent j p u h w at = ground arith

get_value-redact_absent :
    (k j : String) (q : List String) (v : Value)
    → get_value j v ≡ none
    → get_value j (redact_path (k ∷ q) v) ≡ none
get_value-redact_absent k j q v h = ground (arith, get_value-redact_path k j q v)

get_value-redact_same :
    (k j : String) (q : List String) (u v : Value)
    → get_value j v ≡ some u
    → str_eq k j ≡ true
    → get_value j (redact_path (k ∷ q) v) ≡ some (redact_under q u)
get_value-redact_same k j q u v h same = ground (arith, get_value-redact_path k j q v)

get_value-redact_other :
    (k j : String) (q : List String) (u v : Value)
    → get_value j v ≡ some u
    → str_eq k j ≡ false
    → get_value j (redact_path (k ∷ q) v) ≡ some u
get_value-redact_other k j q u v h other = ground (arith, get_value-redact_path k j q v)

-- What is hidden stays hidden, whatever path is redacted next.
redact_under-IsHidden :
    (q p : List String) (v : Value) → IsHidden p v → IsHidden p (redact_under q v)
unfolding IsHidden at_path
redact_under-IsHidden [] p v hidden = at_path-redacted p
redact_under-IsHidden (k ∷ q) [] v hidden =
    subst (IsHidden [])
      (sym (ap (redact_path (k ∷ q)) (hidden v refl) ∙ redact_path-redacted (k ∷ q)))
      (at_path-redacted [])
redact_under-IsHidden (k ∷ q) (j ∷ p) v hidden = elim (Option-cases (get_value j v)) [
  | inl absent ↦ IsHidden-absent j p _ (get_value-redact_absent k j q v absent)
  | inr (u, h) ↦ elim (Bool-cases (str_eq k j)) [
    | inl same ↦
        IsHidden-cons j p _ (redact_under q u) (get_value-redact_same k j q u v h same)
          (redact_under-IsHidden q p u (IsHidden-tail j p v u h hidden))
    | inr other ↦
        IsHidden-cons j p _ u (get_value-redact_other k j q u v h other)
          (IsHidden-tail j p v u h hidden)
  ]
]

redact_path-IsHidden : (q p : List String) (v : Value) → IsHidden p v → IsHidden p (redact_path q v)
unfolding redact_path
redact_path-IsHidden [] p v hidden = hidden
redact_path-IsHidden (k ∷ q) p v hidden = redact_under-IsHidden (k ∷ q) p v hidden

-- A path is hidden once it is redacted.
redact_under-own : (q : List String) (v : Value) → IsHidden q (redact_under q v)
redact_under-own [] v = at_path-redacted []
redact_under-own (k ∷ q) v = elim (Option-cases (get_value k v)) [
  | inl absent ↦ IsHidden-absent k q _ (get_value-redact_absent k k q v absent)
  | inr (u, h) ↦
      IsHidden-cons k q _ (redact_under q u) (get_value-redact_same k k q u v h (str_eq_refl k))
        (redact_under-own q u)
]

redact_all-IsHidden :
    (split : String → List String) (l : List String) (p : List String) (v : Value)
    → IsHidden p v
    → IsHidden p (redact_all split l v)
unfolding redact_all
redact_all-IsHidden split [] p v hidden = hidden
redact_all-IsHidden split (f ∷ l) p v hidden =
    redact_all-IsHidden split l p _ (redact_path-IsHidden (split f) p v hidden)

redact_path-own : (q : List String) (v : Value) → q ≢ [] → IsHidden q (redact_path q v)
redact_path-own [] v nonempty = elim (nonempty refl) [ ]
redact_path-own (k ∷ q) v nonempty = redact_under-own (k ∷ q) v

redact_all-hides :
    (split : String → List String)
    → ((f : String) → split f ≢ [])
    → (l : List String) (v : Value) → All (λ f. IsHidden (split f) (redact_all split l v)) l
unfolding redact_all
redact_all-hides split nonempty [] v = tt
redact_all-hides split nonempty (f ∷ l) v = (
  redact_all-IsHidden split l (split f) _ (redact_path-own (split f) v (nonempty f)),
  redact_all-hides split nonempty l _,
)

-- Where `split` never answers no part at all, each of the configured fields leads to the blank or to
-- nothing in the redacted value, whichever fields are redacted before or after it.
pub redact_fields-hides :
    (split : String → List String)
    → ((f : String) → split f ≢ [])
    → (value : Value) (fields : List String)
    → All (λ f. IsHidden (split f) (redact_fields split value fields)) fields
unfolding redact_fields
redact_fields-hides split nonempty value [] = tt
redact_fields-hides split nonempty value (f ∷ l) = redact_all-hides split nonempty (f ∷ l) value
