-- ===== src/Governance/Visibility.antt =====
-- The lists of list_filtering.rs after gate 1: what stays, what is counted, and what is announced.
use thoughtgate.Base.{
  suc, ap₂, ◌+◌, String, Bool, true, false, Option, none, some, List, [], ◌∷◌, ◌≡◌, refl, ap, sym,
  ◌∙◌, map, filter, length, length-filter-le, All, arith, Option-cases, Bool-cases, inl, inr,
  str_eq,
}
use thoughtgate.Json.{Value, Fields, string, object, null, bool, number, array}
use thoughtgate.Json.Objects.{get_value, get_field, get_field-set_field, get_field-set_other}
use thoughtgate.Governance.Schema.{Glob, Config, Source, Action, get_source, expose, evaluate}
use thoughtgate.Governance.Compiled.{visible_in}
use thoughtgate.Governance.Listing.{
  text_of, optional_support, annotate, strip, strip_execution, item_visible, filter_by_visibility,
  annotate_for, annotate_tool, filter_and_annotate_tools,
}

annotate-name : (tool : Value) → text_of "name" (annotate tool) ≡ text_of "name" tool
unfolding annotate text_of get_value str_eq
annotate-name (object l) =
    grind (arith, get_field-set_other "execution" "name" optional_support l refl)
annotate-name null = refl
annotate-name (bool b) = refl
annotate-name (number b) = refl
annotate-name (string b) = refl
annotate-name (array b) = refl

strip_execution-name :
    (l : Fields) (o : Option Value) → get_field "name" (strip_execution l o) ≡ get_field "name" l
unfolding strip_execution str_eq
strip_execution-name l none = refl
strip_execution-name l (some (object x)) = get_field-set_other "execution" "name" _ l refl
strip_execution-name l (some null) = refl
strip_execution-name l (some (bool b)) = refl
strip_execution-name l (some (number b)) = refl
strip_execution-name l (some (string b)) = refl
strip_execution-name l (some (array b)) = refl

strip-name : (tool : Value) → text_of "name" (strip tool) ≡ text_of "name" tool
unfolding strip text_of get_value str_eq
strip-name (object l) =
    rw (text_of, strip, get_value, strip_execution-name l (get_field "execution" l)) refl
strip-name null = refl
strip-name (bool b) = refl
strip-name (number b) = refl
strip-name (string b) = refl
strip-name (array b) = refl

annotate-support :
    (tool : Value) (name : String)
    → text_of "name" tool ≡ some name
    → get_value "execution" (annotate tool) ≡ some optional_support
unfolding annotate text_of get_value
annotate-support (object l) name h = get_field-set_field "execution" optional_support l
annotate-support null name h = ground arith
annotate-support (bool b) name h = ground arith
annotate-support (number b) name h = ground arith
annotate-support (string b) name h = ground arith
annotate-support (array b) name h = ground arith

-- The call with this answer of the rules is announced as a task where it may need an approval.
abbrev pub Announced : Action → Value → Type 0
Announced Action.approve tool = get_value "execution" tool ≡ some optional_support
Announced Action.policy tool = get_value "execution" tool ≡ some optional_support
Announced _ tool = Unit

module _ {ℓ} {P : Type ℓ} (g : Glob P) where
  -- An item is shown when it has a text under the key and its source exposes that text.
  unfoldable pub shown : Config P → String → String → Value → Bool
  shown config source_id key item = elim (text_of key item) [
    | none ↦ false
    | some name ↦ visible_in g (get_source config source_id) name
  ]

  filter-same :
      (p q : Value → Bool) (l : List Value) → ((v : Value) → p v ≡ q v) → filter p l ≡ filter q l
  filter-same p q [] same = refl
  filter-same p q (v ∷ l) same = ground (arith, filter-same p q l same, same v)

  filter-false : (l : List Value) → filter (λ _. false) l ≡ []
  filter-false [] = refl
  filter-false (v ∷ l) = filter-false l

  shown-item :
      (c : Config P) (i key : String) (s : Source P) (v : Value)
      → get_source c i ≡ some s
      → item_visible g (expose s) key v ≡ shown c i key v
  unfolding shown item_visible visible_in
  shown-item c i key s v h = ground arith

  shown-none :
      (c : Config P) (i key : String) (v : Value) → get_source c i ≡ none → false ≡ shown c i key v
  unfolding shown visible_in
  shown-none c i key v h = ground arith

  -- The items that stay are those that are shown, in their order, and the count is that of the
  -- others; nothing is shown of a source that is not configured.
  pub filter_by_visibility-shown :
      (items : List Value) (config : Config P) (source_id key_field : String)
      → ((filter_by_visibility g items config source_id key_field).0
          ≡ filter (shown config source_id key_field) items)
        × ((filter_by_visibility g items config source_id key_field).1
              + length (filter_by_visibility g items config source_id key_field).0
            ≡ length items)
  unfolding filter_by_visibility
  filter_by_visibility-shown items config i key = elim (Option-cases (get_source config i)) [
    | inl absent ↦ (
      rw (filter_by_visibility, absent)
          (sym (filter-false items)
            ∙ filter-same _ _ items (λ v. shown-none config i key v absent)),
      rw (filter_by_visibility, absent) (omega arith),
    )
    | inr (s, h) ↦ (
      rw (filter_by_visibility, h) (filter-same _ _ items (λ v. shown-item config i key s v h)),
      rw (filter_by_visibility, h)
          (omega (arith, length-filter-le (item_visible g (expose s) key) items)),
    )
  ]

  annotate_for-name :
      (a : Action) (up : Bool) (tool : Value)
      → text_of "name" (annotate_for g a up tool) ≡ text_of "name" tool
  unfolding annotate_for
  annotate_for-name Action.approve up tool = annotate-name tool
  annotate_for-name Action.policy up tool = annotate-name tool
  annotate_for-name Action.forward up tool = ground (arith, strip-name tool)
  annotate_for-name Action.deny up tool = ground (arith, strip-name tool)

  annotate_tool-name :
      (c : Config P) (i : String) (up : Bool) (tool : Value)
      → text_of "name" (annotate_tool g c i up tool) ≡ text_of "name" tool
  unfolding annotate_tool
  annotate_tool-name c i up tool = grind (arith, annotate_for-name)

  annotate_for-Announced :
      (a : Action) (up : Bool) (tool : Value) (name : String)
      → text_of "name" tool ≡ some name
      → Announced a (annotate_for g a up tool)
  unfolding annotate_for
  annotate_for-Announced Action.approve up tool name h = annotate-support tool name h
  annotate_for-Announced Action.policy up tool name h = annotate-support tool name h
  annotate_for-Announced Action.forward up tool name h = tt
  annotate_for-Announced Action.deny up tool name h = tt

  -- A tool of the answer: it has a name, which its source exposes, and it is announced as a task
  -- where the rules may ask for an approval.
  pub record IsListed (c : Config P) (i : String) (tool : Value) : Type 0 where
    pub name : String
    pub named : text_of "name" tool ≡ some name
    pub exposed : visible_in g (get_source c i) name ≡ true
    pub announced : Announced (evaluate g c.governance name i).action tool

  pub annotate_tool-named :
      (c : Config P) (i : String) (up : Bool) (tool : Value) (name : String)
      → text_of "name" tool ≡ some name
      → annotate_tool g c i up tool ≡ annotate_for g (evaluate g c.governance name i).action up tool
  unfolding annotate_tool
  annotate_tool-named c i up tool name h = rw (annotate_tool, h) refl

  annotate_tool-IsListed :
      (c : Config P) (i : String) (up : Bool) (tool : Value)
      → shown c i "name" tool ≡ true
      → IsListed c i (annotate_tool g c i up tool)
  unfolding shown
  annotate_tool-IsListed c i up tool h = elim (Option-cases (text_of "name" tool)) [
    | inl absent ↦ ground arith
    | inr (name, named) ↦ record {
      name = name;
      named = annotate_tool-name c i up tool ∙ named;
      exposed = ground arith;
      announced =
          rw (annotate_tool-named c i up tool name named)
            (annotate_for-Announced _ up tool name named);
    }
  ]

  map-IsListed :
      (c : Config P) (i : String) (up : Bool) (l : List Value)
      → All (IsListed c i) (map (annotate_tool g c i up) (filter (shown c i "name") l))
  map-IsListed c i up [] = tt
  map-IsListed c i up (v ∷ l) = elim (Bool-cases (shown c i "name" v)) [
    | inl h ↦ rw h (annotate_tool-IsListed c i up v h, map-IsListed c i up l)
    | inr h ↦ rw h (map-IsListed c i up l)
  ]

  map-names :
      (c : Config P) (i : String) (up : Bool) (l : List Value)
      → map (text_of "name") (map (annotate_tool g c i up) l) ≡ map (text_of "name") l
  map-names c i up [] = refl
  map-names c i up (v ∷ l) = ap₂ (λ x xs. x ∷ xs) (annotate_tool-name c i up v) (map-names c i up l)

  length-map : (f : Value → Value) (l : List Value) → length (map f l) ≡ length l
  length-map f [] = refl
  length-map f (v ∷ l) = ap (λ n. suc n) (length-map f l)

  -- The tools that an agent is told of have, in their order, the names of the tools that are shown;
  -- with the count of the others they are as many as the upstream's; and each of them has a name that
  -- its source exposes, and says that tasks are supported where the rules answer its name with
  -- `Approve` or `Policy`.
  pub filter_and_annotate_tools-IsListed :
      (tools : List Value) (config : Config P) (source_id : String) (upstream_supports_tasks : Bool)
      → let answer = filter_and_annotate_tools g tools config source_id upstream_supports_tasks in
        (map (text_of "name") answer.0
          ≡ map (text_of "name") (filter (shown config source_id "name") tools))
        × (answer.1 + length answer.0 ≡ length tools)
        × All (IsListed config source_id) answer.0
  unfolding filter_and_annotate_tools
  filter_and_annotate_tools-IsListed tools c i up =
      let kept = filter_by_visibility-shown tools c i "name" in
      (
        map-names c i up _ ∙ ap (map (text_of "name")) kept.0,
        rw (length-map (annotate_tool g c i up) (filter_by_visibility g tools c i "name").0) kept.1,
        rw kept.0 (map-IsListed c i up tools),
      )
