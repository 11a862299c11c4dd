-- ===== src/Approval/Pipeline/Inspect.antt =====
-- governance/pipeline.rs: `run_inspector_chain` and `pre_approval_amber`.
use Prim.Native.String.{◌++◌}
use thoughtgate.Base.{String, Option, none, some, List, [], ◌∷◌, Result, ok, err}
use thoughtgate.Json.{Value, object, string, field, end}
use thoughtgate.Task.Helpers.{as_secs, hash_request}
use thoughtgate.Task.Types.{ToolCallRequest, Libraries}
use thoughtgate.Approval.Pipeline.{
  PreHitlResult, PipelineError, inspection_rejected, internal_error, inspector_timeout,
  serialization_error, PipelineConfig,
}

-- `Decision` of inspector.rs; the bytes are a text, and a status is how it is printed.
pub data Decision : Type 0 where
  approve : Decision
  modify : (bytes : String) → Decision
  reject : (status : String) → Decision

-- What a call of an inspector ends in: the timer, its error, or its decision.
pub data Inspection : Type 0 where
  elapsed : Inspection
  failed : (text : String) → Inspection
  decided : Decision → Inspection

pub record Inspector : Type 0 where
  pub name : String
  pub inspect : (bytes : String) (uri : String) → Inspection

-- What the chain calls outside the repository: `serde_json::to_vec` and its error, the check of a URI
-- by the http crate, and the parser of a modified request.
pub record Wire : Type 0 where
  pub to_bytes : Value → Result String String
  pub bad_uri : String → Option String
  pub parse_request : String → Result (String × Value) String

unfoldable pub modified :
    Wire → String → ToolCallRequest → String → Result ToolCallRequest PipelineError
modified wire name current bytes = elim (wire.parse_request bytes) [
  | err e ↦ err (serialization_error ("Inspector '" ++ name ++ "' returned invalid JSON: " ++ e))
  | ok p ↦ ok (record current { name = p.0; arguments = p.1 })
]

unfoldable pub after_inspection :
    Wire
    → PipelineConfig
    → String
    → ToolCallRequest
    → Inspection
    → Result ToolCallRequest PipelineError
unfolding modified
after_inspection wire c name current elapsed =
    err (inspector_timeout name (as_secs c.inspector_timeout))
after_inspection wire c name current (failed e) =
    err (internal_error ("Inspector '" ++ name ++ "' error: " ++ e))
after_inspection wire c name current (decided approve) = ok current
after_inspection wire c name current (decided (modify bytes)) = modified wire name current bytes
after_inspection wire c name current (decided (reject status)) =
    err (inspection_rejected name ("Rejected with status " ++ status))

-- One round of the loop.
unfoldable pub inspect_one :
    Wire → PipelineConfig → Inspector → ToolCallRequest → Result ToolCallRequest PipelineError
unfolding after_inspection
inspect_one wire c i current =
    elim (wire.to_bytes
      (object (field "name" (string current.name) (field "arguments" current.arguments end)))) [
        | err e ↦ err (serialization_error e)
        | ok bytes ↦ elim (wire.bad_uri ("/" ++ current.method)) [
          | some e ↦ err (internal_error e)
          | none ↦ after_inspection wire c i.name current (i.inspect bytes ("/" ++ current.method))
        ]
      ]

abbrev pub and_then {ℓ κ μ} :
    {A : Type ℓ} {B : Type κ} {E : Type μ} → Result A E → (A → Result B E) → Result B E
and_then (ok a) f = f a
and_then (err e) f = err e

unfoldable pub run_inspector_chain :
    Wire → PipelineConfig → List Inspector → ToolCallRequest → Result ToolCallRequest PipelineError
unfolding inspect_one
run_inspector_chain wire c [] current = ok current
run_inspector_chain wire c (i ∷ inspectors) current =
    and_then (inspect_one wire c i current) (run_inspector_chain wire c inspectors)

abbrev hashed : ToolCallRequest → Result String String → Result PreHitlResult PipelineError
hashed r (err e) = err (internal_error ("Failed to hash request: " ++ e))
hashed r (ok h) = ok (record { transformed_request = r; request_hash = h })

unfoldable pub pre_approval_amber :
    Libraries
    → Wire
    → PipelineConfig
    → List Inspector
    → ToolCallRequest
    → Result PreHitlResult PipelineError
unfolding run_inspector_chain
pre_approval_amber lib wire c inspectors request =
    and_then (run_inspector_chain wire c inspectors request) λ r. hashed r (hash_request lib r)
