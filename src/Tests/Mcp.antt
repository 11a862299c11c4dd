-- ===== src/Tests/Mcp.antt =====
-- The MCP handler at concrete inputs.
use thoughtgate.Base.{
  ◌+◌, str_eq, String, true, Option, none, some, List, [], ◌∷◌, ok, map, ◌≡◌, refl, subst, arith,
}
use mathlib.Core.Option.{some-injective}
use thoughtgate.Base.Int.{pos}
use thoughtgate.Json.{Items, Value, Fields, string, object, array, field, end, nil, cons}
use thoughtgate.Json.Objects.{get_field}
use thoughtgate.Json.Maps.{IsJson}
use thoughtgate.Task.Types.{JsonRpcId}
use thoughtgate.Governance.Schema.{Config, get_workflow}
use thoughtgate.Governance.Evaluator.{Profile, method_requires_gates}
use thoughtgate.Governance.Gates.{CedarDecision}
use thoughtgate.Approval.Engine.Wait.{Round}
use thoughtgate.Approval.Engine.Waiting.{Late, here}
use thoughtgate.Protocol.{new_cache}
use thoughtgate.Transport.{McpRequest, BatchItem, valid}
use thoughtgate.Transport.Response
use thoughtgate.Proxy.Mcp.{McpState, Live, Call}
use thoughtgate.Proxy.Mcp.Gates.{blocking_timeout, timeout_of, workflow_named}
use thoughtgate.Proxy.Mcp.Routing.{route_request}
use thoughtgate.Proxy.Mcp.Capabilities.{handle_initialize_method}
use thoughtgate.Proxy.Mcp.Requests.{Schedule, handle_batch_request_bytes}
use thoughtgate.Proxy.Mcp.Body.{handle_mcp_body_bytes}
use thoughtgate.Proxy.Mcp.Passing.{wire, once_if}
use thoughtgate.Proxy.Mcp.Governed.{admits, route_request-admits}
use thoughtgate.Proxy.Mcp.Announced.{Introduces, handle_initialize_method-Introduces}
use thoughtgate.Proxy.Mcp.Batches.{WaitsEnd, Replies, handle_batch_request_bytes-Replies}
use thoughtgate.Proxy.Mcp.Routed.{load}
use thoughtgate.Proxy.Mcp.Restored.{handle_mcp_body_bytes-load}
use thoughtgate.Tests.Governance.{names, loaded, gates, draws}
use thoughtgate.Tests.Approval.{arrival, calm}
use thoughtgate.Tests.Proxy.{proxy, visit, owner, empty}
use thoughtgate.Tests.Transport.{reader}

abbrev answer : Fields
answer = field "tools" (array (cons (object (field "name" (string "read") end)) nil)) end

abbrev server : McpState String
server = record {
  upstream = λ r. ok (Response.success r.id (object answer));
  tasks = proxy;
  cedar_engine = λ r. CedarDecision.permit;
  config = some loaded;
  evaluator = some gates;
  max_body_size = 100;
  max_batch_size = 10;
  max_aggregate_buffer = 1000;
  blocking_approval_timeout_secs = 300;
  profile = Profile.production;
  reader = reader;
  decimal = λ n. "1";
  uuid_text = λ n. "id";
  to_vec = λ r. some "{}";
  batch_to_vec = λ rs. some "[]";
}

abbrev live : Live
live = record {
  engine = empty;
  capability_cache = new_cache;
  buffered_bytes = 0;
  permits = 10;
  counter = 0;
}

abbrev late_round : Round
late_round = record { tested_at = 1_000_000_000_000; before_poll = λ s. s; poll = calm }

abbrev caller : Call
caller = record {
  optional_principal = some owner;
  inferred = ok owner;
  draws = draws;
  visit = visit owner;
  arrival = arrival;
  start = 0;
  rounds = late_round ∷ [];
}

abbrev asks_for : String → Option Value → McpRequest
asks_for method params = record {
  id = some (JsonRpcId.number (pos 1));
  method = method;
  params = params;
  task_metadata = none;
  correlation_id = 1;
}

abbrev delete_user : McpRequest
delete_user = asks_for "tools/call" (some (object (field "name" (string "delete_user") end)))

governed : method_requires_gates "tools/call" ≡ true
unfolding method_requires_gates str_eq
governed = refl

route_request-admits_example :
    map wire (route_request names server caller live delete_user).1
    ≡ once_if (admits names server caller delete_user server.config) delete_user
route_request-admits_example = route_request-admits names server caller live delete_user governed

distinct : IsJson (object answer)
unfolding IsJson get_field
distinct = (refl, ((refl, tt, tt), tt), tt)

handle_initialize_method-Introduces_example :
    Introduces
      (object answer)
      (some (JsonRpcId.number (pos 1)))
      (handle_initialize_method server live (asks_for "initialize" none)).0
      (handle_initialize_method server live (asks_for "initialize" none)).2
handle_initialize_method-Introduces_example =
    handle_initialize_method-Introduces server live (asks_for "initialize" none)
      (some (JsonRpcId.number (pos 1))) (object answer) refl distinct

-- Two tools, one of which asks for a task, and a cursor.
abbrev listed_tools : Items
listed_tools = cons (object (field "name" (string "delete_user") end)) (
    cons
      (object (
        field "name" (string "read")
          (field "execution" (object (field "taskSupport" (string "required") end)) end)))
      nil)

abbrev listing : Fields
listing = field "tools" (array listed_tools) (field "nextCursor" (string "2") end)

abbrev lister : McpState String
lister = record server { upstream = λ r. ok (Response.success r.id (object listing)) }

late :
    (o : Option String)
    → Late (caller.start + timeout_of server (workflow_named loaded o)) caller.rounds
unfolding get_workflow
late none = here refl
late (some name) = here refl

waits_end : WaitsEnd names server caller
unfolding blocking_timeout
waits_end c m same =
    subst (λ (c : Config String). Late (caller.start + blocking_timeout server c m) caller.rounds)
      (some-injective loaded c same) (late m.approval_workflow)

abbrev items : List (BatchItem × Call)
items = (valid delete_user, caller) ∷ (valid (record delete_user { id = none }), caller) ∷ []

handle_batch_request_bytes-Replies_example :
    Replies names server items (handle_batch_request_bytes names server live items).2
handle_batch_request_bytes-Replies_example =
    handle_batch_request_bytes-Replies names server items live (waits_end, (waits_end, tt))

abbrev schedule : Schedule
schedule = record { call = caller; order = λ l. [] }

handle_mcp_body_bytes-load_example :
    load (handle_mcp_body_bytes names server schedule live (123 ∷ [])).0 ≡ load live
handle_mcp_body_bytes-load_example =
    handle_mcp_body_bytes-load names server schedule live (123 ∷ []) (omega arith) (omega arith)
