-- ===== src/Governance/Listing.antt =====
-- thoughtgate-core/src/governance/list_filtering.rs: which items of a list a source exposes, and the
-- task annotations of its tools.
use thoughtgate.Base.{
  ℕ, ◌-◌, String, Bool, false, Option, none, some, List, [], map, filter, length, if◌then◌else◌,
}
use thoughtgate.Json.{Value, Fields, string, object, end, field}
use thoughtgate.Json.Objects.{get_value, value_as_str, get_field, set_field, remove_field}
use thoughtgate.Governance.Schema.{
  Glob, Config, ExposeConfig, Action, get_source, expose, is_visible, evaluate,
}

-- The text under a key, if the item is an object that has one.
unfoldable pub text_of : String → Value → Option String
text_of key item = elim (get_value key item) [ none ↦ none | some v ↦ value_as_str v ]

-- `{"taskSupport": "optional"}`.
abbrev pub optional_support : Value
optional_support = object (field "taskSupport" (string "optional") end)

unfoldable pub annotate : Value → Value
annotate (object l) = object (set_field "execution" optional_support l)
annotate v = v

unfoldable pub strip_execution : Fields → Option Value → Fields
strip_execution l (some (object x)) =
    set_field "execution" (object (remove_field "taskSupport" x)) l
strip_execution l _ = l

unfoldable pub strip : Value → Value
unfolding strip_execution
strip (object l) = object (strip_execution l (get_field "execution" l))
strip v = v

module _ {ℓ} {P : Type ℓ} (g : Glob P) where
  unfoldable pub item_visible : ExposeConfig P → String → Value → Bool
  unfolding text_of
  item_visible e key item = elim (text_of key item) [
    | none ↦ false
    | some name ↦ is_visible g e name
  ]

  unfoldable pub filter_by_visibility : List Value → Config P → String → String → List Value × ℕ
  unfolding item_visible
  filter_by_visibility items config source_id key_field = elim (get_source config source_id) [
    | none ↦ ([], length items)
    | some source ↦
        let kept = filter (item_visible (expose source) key_field) items in
        (kept, length items - length kept)
  ]

  unfoldable pub annotate_for : Action → Bool → Value → Value
  unfolding annotate strip
  annotate_for Action.approve upstream_supports_tasks tool = annotate tool
  annotate_for Action.policy upstream_supports_tasks tool = annotate tool
  annotate_for Action.forward upstream_supports_tasks tool =
      if upstream_supports_tasks then tool else strip tool
  annotate_for Action.deny upstream_supports_tasks tool =
      if upstream_supports_tasks then tool else strip tool

  unfoldable pub annotate_tool : Config P → String → Bool → Value → Value
  unfolding text_of annotate_for
  annotate_tool config source_id upstream_supports_tasks tool = elim (text_of "name" tool) [
    | none ↦ tool
    | some tool_name ↦
        annotate_for (evaluate g config.governance tool_name source_id).action
          upstream_supports_tasks tool
  ]

  unfoldable pub filter_and_annotate_tools : List Value → Config P → String → Bool → List Value × ℕ
  unfolding filter_by_visibility annotate_tool
  filter_and_annotate_tools tools config source_id upstream_supports_tasks =
      let filtered = filter_by_visibility tools config source_id "name" in
      (map (annotate_tool config source_id upstream_supports_tasks) filtered.0, filtered.1)

  unfoldable pub filter_resources_by_visibility : List Value → Config P → String → List Value × ℕ
  unfolding filter_by_visibility
  filter_resources_by_visibility resources config source_id =
      filter_by_visibility resources config source_id "uri"

  unfoldable pub filter_prompts_by_visibility : List Value → Config P → String → List Value × ℕ
  unfolding filter_by_visibility
  filter_prompts_by_visibility prompts config source_id =
      filter_by_visibility prompts config source_id "name"
