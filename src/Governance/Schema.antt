-- ===== src/Governance/Schema.antt =====
-- config/schema.rs: the configuration of sources, exposure, rules and workflows, and the methods that
-- read it. A compiled pattern of the glob crate has the type `P`; the crate itself is `Glob P`.
use thoughtgate.Base.{
  ℕ, String, Bool, true, false, not, Option, none, some, List, [], ◌∷◌, any, if◌then◌else◌, str_eq,
  Result, ok, err, get_or,
}
use thoughtgate.Base.Dict.{Dict, lookup}
use thoughtgate.Task.Types.{TimeoutAction}
use thoughtgate.Task.Helpers.{seconds}

-- `glob::Pattern`: how a pattern is compiled, where the error is a text, and what it matches.
pub record Glob {ℓ} (P : Type ℓ) : Type ℓ where
  pub compile : String → Result P String
  pub matches_name : P → String → Bool

pub data ExposeConfig {ℓ} (P : Type ℓ) : Type ℓ where
  everything : ExposeConfig P
  allowlist : List String → List P → ExposeConfig P
  blocklist : List String → List P → ExposeConfig P

-- `Source::Mcp`, which is the one kind of source.
pub record Source {ℓ} (P : Type ℓ) : Type ℓ where
  pub id : String
  pub url : String
  pub prefix : Option String
  pub expose_config : Option (ExposeConfig P)
  pub enabled : Bool
  pub description : Option String

pub data Action : Type 0 where
  forward approve deny policy : Action

pub data SourceFilter : Type 0 where
  single : String → SourceFilter
  multiple : List String → SourceFilter

pub record Rule {ℓ} (P : Type ℓ) : Type ℓ where
  pub pattern : String
  pub action : Action
  pub source : Option SourceFilter
  pub policy_id : Option String
  pub approval : Option String
  pub description : Option String
  pub compiled_pattern : Option P

pub record Governance {ℓ} (P : Type ℓ) : Type ℓ where
  pub default_action : Action
  pub rules : List (Rule P)

pub record MatchResult : Type 0 where
  pub action : Action
  pub policy_id : Option String
  pub approval_workflow : Option String
  pub matched_rule : Option String

-- `ApprovalDestination`, which is a Slack channel.
pub record ApprovalDestination : Type 0 where
  pub channel : String
  pub token_env : Option String
  pub mention : Option (List String)

pub record HumanWorkflow : Type 0 where
  pub destination : ApprovalDestination
  pub timeout : Option ℕ
  pub on_timeout : Option TimeoutAction
  pub blocking_timeout : Option ℕ
  pub redact_fields : Option (List String)

-- `Config`, less the sections on Cedar and telemetry, which none of these methods reads.
pub record Config {ℓ} (P : Type ℓ) : Type ℓ where
  pub schema : ℕ
  pub sources : List (Source P)
  pub governance : Governance P
  pub approval : Option (Dict HumanWorkflow)

-- `HumanWorkflow`'s methods, where the first argument of `timeout_or_default` is the
-- `default_approval_timeout` of `ThoughtGateDefaults`.
unfoldable pub timeout_or_default : ℕ → HumanWorkflow → ℕ
timeout_or_default default_approval_timeout w = get_or w.timeout default_approval_timeout

unfoldable pub on_timeout_or_default : HumanWorkflow → TimeoutAction
on_timeout_or_default w = get_or w.on_timeout TimeoutAction.deny

abbrev or_option {ℓ} : {A : Type ℓ} → Option A → Option A → Option A
or_option none b = b
or_option (some a) b = some a

unfoldable pub blocking_timeout_or_default : HumanWorkflow → ℕ
blocking_timeout_or_default w = get_or (or_option w.blocking_timeout w.timeout) (seconds 300)

unfoldable pub source_matches : SourceFilter → String → Bool
source_matches (SourceFilter.single id) source_id = str_eq id source_id
source_matches (SourceFilter.multiple ids) source_id = any (λ id. str_eq id source_id) ids

unfoldable pub is_approval : Action → Bool
is_approval Action.approve = true
is_approval Action.policy = true
is_approval _ = false

abbrev pub is_empty {ℓ} : {A : Type ℓ} → List A → Bool
is_empty [] = true
is_empty (x ∷ xs) = false

module _ {ℓ} {P : Type ℓ} where
  unfoldable pub find_source : String → List (Source P) → Option (Source P)
  find_source i [] = none
  find_source i (s ∷ l) = if str_eq s.id i then some s else find_source i l

  unfoldable pub get_source : Config P → String → Option (Source P)
  unfolding find_source
  get_source c i = find_source i c.sources

  unfoldable pub primary_source : Config P → Option (Source P)
  primary_source c = elim c.sources [ [] ↦ none | s ∷ _ ↦ some s ]

  unfoldable pub get_workflow : Config P → String → Option HumanWorkflow
  get_workflow c name = elim c.approval [ none ↦ none | some m ↦ lookup name m ]

  unfoldable pub expose : Source P → ExposeConfig P
  expose s = get_or s.expose_config ExposeConfig.everything

  unfoldable pub patterns : ExposeConfig P → Option (List String)
  patterns ExposeConfig.everything = none
  patterns (ExposeConfig.allowlist tools _) = some tools
  patterns (ExposeConfig.blocklist tools _) = some tools

  unfoldable pub requires_approval_engine : Config P → Bool
  unfolding is_approval
  requires_approval_engine c =
      if is_approval c.governance.default_action
      then true
      else any (λ (r : Rule P). is_approval r.action) c.governance.rules

module _ {ℓ} {P : Type ℓ} (g : Glob P) where
  -- A text that does not compile matches nothing.
  unfoldable pub text_matches : String → String → Bool
  text_matches name text = elim (g.compile text) [ ok p ↦ g.matches_name p name | err _ ↦ false ]

  -- The compiled patterns where there are any, otherwise the texts.
  unfoldable pub any_pattern : List String → List P → String → Bool
  unfolding text_matches
  any_pattern tools compiled name =
      if is_empty compiled
      then any (text_matches name) tools
      else any (λ p. g.matches_name p name) compiled

  unfoldable pub is_visible : ExposeConfig P → String → Bool
  unfolding any_pattern
  is_visible ExposeConfig.everything name = true
  is_visible (ExposeConfig.allowlist tools compiled) name = any_pattern tools compiled name
  is_visible (ExposeConfig.blocklist tools compiled) name = not (any_pattern tools compiled name)

  -- The two tests of `evaluate`'s loop.
  unfoldable pub filter_matches : Option SourceFilter → String → Bool
  filter_matches none source_id = true
  filter_matches (some f) source_id = source_matches f source_id

  unfoldable pub pattern_matches : Option P → String → String → Bool
  unfolding text_matches
  pattern_matches (some compiled) text name = g.matches_name compiled name
  pattern_matches none text name = text_matches name text

  unfoldable pub evaluate_rules : List (Rule P) → Action → String → String → MatchResult
  unfolding filter_matches pattern_matches
  evaluate_rules [] default_action tool_name source_id = record {
    action = default_action;
    policy_id = none;
    approval_workflow = none;
    matched_rule = none;
  }
  evaluate_rules (r ∷ l) default_action tool_name source_id =
      if not (filter_matches r.source source_id)
      then evaluate_rules l default_action tool_name source_id
      else if pattern_matches r.compiled_pattern r.pattern tool_name
      then record {
        action = r.action;
        policy_id = r.policy_id;
        approval_workflow = r.approval;
        matched_rule = some r.pattern;
      }
      else evaluate_rules l default_action tool_name source_id

  unfoldable pub evaluate : Governance P → String → String → MatchResult
  unfolding evaluate_rules
  evaluate v tool_name source_id = evaluate_rules v.rules v.default_action tool_name source_id

  -- `compile_patterns`: what it has compiled when a pattern fails stays compiled.
  unfoldable pub compile_rules : List (Rule P) → List (Rule P) × Result (Unit {0}) (String × String)
  compile_rules [] = ([], ok tt)
  compile_rules (r ∷ l) =
      let rest = compile_rules l in
      elim (g.compile r.pattern) [
        | ok p ↦ (record r { compiled_pattern = some p } ∷ rest.0, rest.1)
        | err e ↦ (r ∷ l, err (r.pattern, e))
      ]

  unfoldable pub compile_texts : List String → Result (List P) (String × String)
  compile_texts [] = ok []
  compile_texts (t ∷ l) =
      let rest = compile_texts l in
      elim (g.compile t) [
        | ok p ↦ elim rest [ ok ps ↦ ok (p ∷ ps) | err e ↦ err e ]
        | err e ↦ err (t, e)
      ]

  unfoldable pub compile_expose : ExposeConfig P → Result (ExposeConfig P) (String × String)
  unfolding compile_texts
  compile_expose ExposeConfig.everything = ok ExposeConfig.everything
  compile_expose (ExposeConfig.allowlist tools _) = elim (compile_texts tools) [
    | ok ps ↦ ok (ExposeConfig.allowlist tools ps)
    | err e ↦ err e
  ]
  compile_expose (ExposeConfig.blocklist tools _) = elim (compile_texts tools) [
    | ok ps ↦ ok (ExposeConfig.blocklist tools ps)
    | err e ↦ err e
  ]

  unfoldable pub compile_source : Source P → Result (Source P) (String × String)
  unfolding compile_expose
  compile_source s = elim s.expose_config [
    | none ↦ ok s
    | some x ↦ elim (compile_expose x) [
      | ok y ↦ ok (record s { expose_config = some y })
      | err e ↦ err e
    ]
  ]

  unfoldable pub compile_sources :
      List (Source P) → List (Source P) × Result (Unit {0}) (String × String)
  unfolding compile_source
  compile_sources [] = ([], ok tt)
  compile_sources (s ∷ l) =
      let rest = compile_sources l in
      elim (compile_source s) [ ok t ↦ (t ∷ rest.0, rest.1) | err e ↦ (s ∷ l, err e) ]

  unfoldable pub compile_patterns : Config P → Config P × Result (Unit {0}) (String × String)
  unfolding compile_rules compile_sources
  compile_patterns c =
      let rules = compile_rules c.governance.rules in
      let with_rules = record c { governance = record c.governance { rules = rules.0 } } in
      let sources = compile_sources c.sources in
      elim rules.1 [
        | err e ↦ (with_rules, err e)
        | ok _ ↦ (record with_rules { sources = sources.0 }, sources.1)
      ]
