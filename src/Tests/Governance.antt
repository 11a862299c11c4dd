-- ===== src/Tests/Governance.antt =====
-- Concrete configurations for Governance, with the equality of names in place of the glob crate.
use Prim.Native.String.{String}
use thoughtgate.Base.{
  ◌≡◌, ◌≢◌, ◌⊎◌, refl, true, false, none, some, List, [], ◌∷◌, All, arith, if◌then◌else◌, ok, err,
  str_eq,
}
use thoughtgate.Json.{Value, string, object, null, field, end}
use thoughtgate.Governance.Schema.{
  Glob, ExposeConfig, Source, Action, SourceFilter, Rule, Governance, Config, evaluate, get_source,
  compile_patterns, compile_rules, compile_sources, is_approval, requires_approval_engine, is_empty,
  evaluate_rules, filter_matches, pattern_matches, text_matches, source_matches,
}
use thoughtgate.Governance.Rules.{
  FirstMatch, answer_of, default_answer, rule_matches, evaluate-first,
  requires_approval_engine-is_approval,
}
use thoughtgate.Governance.Compiled.{IsLoaded, visible_in, compile_patterns-same}
use thoughtgate.Governance.Redact.{IsHidden, redact_fields, redact_fields-hides}
use thoughtgate.Governance.Evaluator.{
  MessageType, StreamDirection, Profile, GovernanceEvaluateRequest,
}
use thoughtgate.Governance.Gates.{Evaluator, Draws}
use thoughtgate.Tests.Store.{agent, lib, clock, config}

-- A pattern is a name, and the text "[" is no pattern.
abbrev pub names : Glob String
names = record {
  compile = λ t. if str_eq t "[" then err "a range is not closed" else ok t;
  matches_name = str_eq;
}

abbrev rule_of : String → Action → Rule String
rule_of t a = record {
  pattern = t;
  action = a;
  source = some (SourceFilter.single "upstream");
  policy_id = none;
  approval = some "default";
  description = none;
  compiled_pattern = none;
}

abbrev upstream : Source String
upstream = record {
  id = "upstream";
  url = "http://localhost:3000";
  prefix = none;
  expose_config = some (ExposeConfig.blocklist ("drop_table" ∷ []) []);
  enabled = true;
  description = none;
}

abbrev pub loaded : Config String
loaded = record {
  schema = 1;
  sources = upstream ∷ [];
  governance = record {
    default_action = Action.forward;
    rules = rule_of "delete_user" Action.approve ∷ rule_of "drop_table" Action.deny ∷ [];
  };
  approval = none;
}

abbrev open_config : Config String
open_config = record loaded {
  governance = record { default_action = Action.deny; rules = rule_of "read" Action.forward ∷ [] };
}

asks : (evaluate names loaded.governance "delete_user" "upstream").action ≡ Action.approve
unfolding evaluate evaluate_rules filter_matches pattern_matches text_matches str_eq source_matches
asks = refl

evaluate-first_example :
    ((m : FirstMatch names "drop_table" "upstream" loaded.governance.rules) × (evaluate names
          loaded.governance "drop_table" "upstream"
        ≡ answer_of m.rule))
    ⊎ (All (λ r. rule_matches names "drop_table" "upstream" r ≡ false) loaded.governance.rules
        × (evaluate names loaded.governance "drop_table" "upstream"
            ≡ default_answer loaded.governance.default_action))
evaluate-first_example = evaluate-first names loaded.governance "drop_table" "upstream"

needs_none : requires_approval_engine open_config ≡ false
unfolding requires_approval_engine is_approval
needs_none = refl

requires_approval_engine-is_approval_example :
    is_approval (evaluate names open_config.governance "read" "upstream").action ≡ false
requires_approval_engine-is_approval_example =
    requires_approval_engine-is_approval names open_config "read" "upstream" needs_none

loaded-IsLoaded : IsLoaded loaded
loaded-IsLoaded = record { raw_rules = (refl, (refl, tt)); raw_sources = (refl, tt) }

compiles : (compile_patterns names loaded).1 ≡ ok tt
unfolding compile_patterns compile_rules compile_sources str_eq
    thoughtgate.Governance.Schema.compile_source thoughtgate.Governance.Schema.compile_expose
    thoughtgate.Governance.Schema.compile_texts
compiles = refl

compile_patterns-same_example :
    ((tool_name source_id : String)
      → evaluate names (compile_patterns names loaded).0.governance tool_name source_id
        ≡ evaluate names loaded.governance tool_name source_id)
    × ((source_id name : String)
        → visible_in names (get_source (compile_patterns names loaded).0 source_id) name
          ≡ visible_in names (get_source loaded source_id) name)
compile_patterns-same_example = compile_patterns-same names loaded loaded-IsLoaded compiles

abbrev pub tools : List Value
tools =
    object (field "name" (string "delete_user") end)
    ∷ object (field "name" (string "drop_table") end)
    ∷ null
    ∷ []

-- The parts of two fields.
abbrev parts : String → List String
parts f = if str_eq f "credentials.api_key" then "credentials" ∷ "api_key" ∷ [] else f ∷ []

parts-nonempty : (f : String) → parts f ≢ []
parts-nonempty f h = ground arith

abbrev arguments : Value
arguments = object (
    field "user" (string "admin")
      (field "credentials" (object (field "api_key" (string "k") end)) end))

redact_fields-hides_example :
    All
      (λ f.
        IsHidden
          (parts f)
          (redact_fields parts arguments ("credentials.api_key" ∷ "password" ∷ [])))
      ("credentials.api_key" ∷ "password" ∷ [])
redact_fields-hides_example =
    redact_fields-hides parts parts-nonempty arguments ("credentials.api_key" ∷ "password" ∷ [])

abbrev pub call : String → GovernanceEvaluateRequest
call name = record {
  server_id = "upstream";
  direction = StreamDirection.agent_to_server;
  method = "tools/call";
  id = none;
  params = some (object (field "name" (string name) end));
  message_type = MessageType.request;
  profile = Profile.production;
}

abbrev pub gates : Evaluator String
gates = record {
  config = loaded;
  cedar_engine = none;
  principal = agent;
  profile = Profile.production;
  scheduler = none;
  approval_engine = none;
}

abbrev pub draws : Draws
draws = record {
  lib = lib;
  task_id = "tg_1";
  now = 3;
  waits = clock;
  created_at = 8;
  fails = clock;
  error_text = λ e. "refused";
}
