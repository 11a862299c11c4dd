-- ===== src/Governance/Presented.antt =====
-- What an agent is told of each tool that it sees: list_filtering.rs, element by element.
use thoughtgate.Base.{
  String, Bool, true, false, Option, none, some, List, [], ◌∷◌, ◌≡◌, refl, ◌∙◌, ◌⊎◌, inl, inr, map,
  filter, All, arith, Bool-cases, Option-cases, str_eq, str_eq→eq, str_eq_refl,
}
use thoughtgate.Json.{Value, Fields, object, array, null, bool, number, string}
use thoughtgate.Json.Objects.{
  get_value, get_field, set_field, modify_field, remove_field, get_field-set_field,
  get_field-set_other, get_field-modify_field,
}
use thoughtgate.Json.Maps.{IsJson, IsMap, get_field-IsJson, get_field-remove_field}
use thoughtgate.Governance.Schema.{Glob, Config, Action, get_source, evaluate}
use thoughtgate.Governance.Compiled.{visible_in}
use thoughtgate.Governance.Listing.{
  text_of, optional_support, annotate, strip, strip_execution, annotate_for, annotate_tool,
  filter_and_annotate_tools,
}
use thoughtgate.Governance.Visibility.{shown, filter_by_visibility-shown, annotate_tool-named}

-- The two values have the same fields, but for one key.
abbrev pub SameBut : String → Value → Value → Type 0
SameBut k v w = (j : String) → (k ≡ j) ⊎ (get_value j w ≡ get_value j v)

-- The `execution` of a tool without its `taskSupport`, all else as it was.
abbrev pub Stripped : Option Value → Option Value → Type 0
Stripped (some (object x)) (some (object y)) =
    (get_field "taskSupport" y ≡ none) × SameBut "taskSupport" (object x) (object y)
Stripped (some (object x)) _ = ⊥
Stripped o p = p ≡ o

-- A tool and what the agent is told of it, by the answer of the rules and whether the upstream supports
-- tasks.
abbrev pub Presents : Action → Bool → Value → Value → Type 0
Presents Action.approve up tool told =
    (get_value "execution" told ≡ some optional_support) × SameBut "execution" tool told
Presents Action.policy up tool told =
    (get_value "execution" told ≡ some optional_support) × SameBut "execution" tool told
Presents _ true tool told = told ≡ tool
Presents _ false tool told =
    Stripped (get_value "execution" tool) (get_value "execution" told)
    × SameBut "execution" tool told

split_key : (k j : String) {A : Type 0} → (str_eq k j ≡ false → A) → (k ≡ j) ⊎ A
split_key k j f = elim (Bool-cases (str_eq k j)) [
  | inl e ↦ inl (str_eq→eq k j e)
  | inr e ↦ inr (f e)
]

set_field-SameBut :
    (k : String) (v : Value) (l : Fields) → SameBut k (object l) (object (set_field k v l))
unfolding get_value
set_field-SameBut k v l j = split_key k j (get_field-set_other k j v l)

remove_field-SameBut :
    (k : String) (l : Fields) → IsMap l → SameBut k (object l) (object (remove_field k l))
unfolding get_value
remove_field-SameBut k l m j = split_key k j (λ e. get_field-remove_field k j l m ∙ rw e refl)

pub modify_field-SameBut :
    (k : String) (f : Value → Value) (l : Fields)
    → SameBut k (object l) (object (modify_field k f l))
unfolding get_value
modify_field-SameBut k f l j = split_key k j (λ e. get_field-modify_field k j f l ∙ rw e refl)

annotate-Presents :
    (tool : Value) (name : String)
    → text_of "name" tool ≡ some name
    → (get_value "execution" (annotate tool) ≡ some optional_support)
      × SameBut "execution" tool (annotate tool)
unfolding annotate text_of get_value
annotate-Presents (object l) name h = (
  get_field-set_field "execution" optional_support l,
  set_field-SameBut "execution" optional_support l,
)
annotate-Presents null name h = ground arith
annotate-Presents (bool b) name h = ground arith
annotate-Presents (number b) name h = ground arith
annotate-Presents (string b) name h = ground arith
annotate-Presents (array b) name h = ground arith

strip_execution-Presents :
    (l : Fields) (o : Option Value)
    → IsMap l
    → get_field "execution" l ≡ o
    → Stripped o (get_field "execution" (strip_execution l o))
      × SameBut "execution" (object l) (object (strip_execution l o))
unfolding strip_execution get_value IsJson
strip_execution-Presents l (some (object x)) m h =
    let inner : IsMap x = get_field-IsJson "execution" (object x) l m h in
    (
      rw (get_field-set_field "execution" (object (remove_field "taskSupport" x)) l) (
        get_field-remove_field "taskSupport" "taskSupport" x inner
            ∙ rw (str_eq_refl "taskSupport") refl,
        remove_field-SameBut "taskSupport" x inner,
      ),
      set_field-SameBut "execution" (object (remove_field "taskSupport" x)) l,
    )
strip_execution-Presents l none m h = (h, λ j. inr refl)
strip_execution-Presents l (some null) m h = (h, λ j. inr refl)
strip_execution-Presents l (some (bool b)) m h = (h, λ j. inr refl)
strip_execution-Presents l (some (number b)) m h = (h, λ j. inr refl)
strip_execution-Presents l (some (string b)) m h = (h, λ j. inr refl)
strip_execution-Presents l (some (array b)) m h = (h, λ j. inr refl)

strip-Presents :
    (tool : Value) (name : String)
    → IsJson tool
    → text_of "name" tool ≡ some name
    → Stripped (get_value "execution" tool) (get_value "execution" (strip tool))
      × SameBut "execution" tool (strip tool)
unfolding strip text_of get_value IsJson
strip-Presents (object l) name m h = strip_execution-Presents l (get_field "execution" l) m refl
strip-Presents null name m h = ground arith
strip-Presents (bool b) name m h = ground arith
strip-Presents (number b) name m h = ground arith
strip-Presents (string b) name m h = ground arith
strip-Presents (array b) name m h = ground arith

module _ {ℓ} {P : Type ℓ} (g : Glob P) where
  annotate_for-Presents :
      (a : Action) (up : Bool) (tool : Value) (name : String)
      → IsJson tool
      → text_of "name" tool ≡ some name
      → Presents a up tool (annotate_for g a up tool)
  unfolding annotate_for
  annotate_for-Presents Action.approve up tool name m h = annotate-Presents tool name h
  annotate_for-Presents Action.policy up tool name m h = annotate-Presents tool name h
  annotate_for-Presents Action.forward true tool name m h = refl
  annotate_for-Presents Action.forward false tool name m h = strip-Presents tool name m h
  annotate_for-Presents Action.deny true tool name m h = refl
  annotate_for-Presents Action.deny false tool name m h = strip-Presents tool name m h

  -- The tools, and what the agent is told of each, one for one: each has a name that its source exposes.
  abbrev pub PresentsEach : Config P → String → Bool → List Value → List Value → Type 0
  PresentsEach c i up [] [] = Unit
  PresentsEach c i up (tool ∷ tools) (told ∷ rest) =
      ((name : String) × (text_of "name" tool ≡ some name)
        × (visible_in g (get_source c i) name ≡ true)
        × Presents (evaluate g c.governance name i).action up tool told)
      × PresentsEach c i up tools rest
  PresentsEach c i up _ _ = ⊥

  shown-Presents :
      (c : Config P) (i : String) (up : Bool) (tool : Value)
      → IsJson tool
      → shown g c i "name" tool ≡ true
      → (name : String) × (text_of "name" tool ≡ some name)
        × (visible_in g (get_source c i) name ≡ true)
        × Presents (evaluate g c.governance name i).action up tool (annotate_tool g c i up tool)
  unfolding shown
  shown-Presents c i up tool m h = elim (Option-cases (text_of "name" tool)) [
    | inl absent ↦ ground arith
    | inr (name, named) ↦ (
      name,
      named,
      ground arith,
      rw (annotate_tool-named g c i up tool name named)
          (annotate_for-Presents _ up tool name m named),
    )
  ]

  map-PresentsEach :
      (c : Config P) (i : String) (up : Bool) (l : List Value)
      → All IsJson l
      → PresentsEach c i up
          (filter (shown g c i "name") l)
          (map (annotate_tool g c i up) (filter (shown g c i "name") l))
  map-PresentsEach c i up [] m = tt
  map-PresentsEach c i up (v ∷ l) m = elim (Bool-cases (shown g c i "name" v)) [
    | inl h ↦ rw h (shown-Presents c i up v m.0 h, map-PresentsEach c i up l m.1)
    | inr h ↦ rw h (map-PresentsEach c i up l m.1)
  ]

  pub filter_and_annotate_tools-PresentsEach :
      (tools : List Value) (c : Config P) (i : String) (up : Bool)
      → All IsJson tools
      → PresentsEach c i up
          (filter (shown g c i "name") tools)
          (filter_and_annotate_tools g tools c i up).0
  unfolding filter_and_annotate_tools
  filter_and_annotate_tools-PresentsEach tools c i up m =
      rw ((filter_by_visibility-shown g tools c i "name").0) (map-PresentsEach c i up tools m)
