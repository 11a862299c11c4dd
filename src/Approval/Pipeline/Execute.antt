-- ===== src/Approval/Pipeline/Execute.antt =====
-- governance/pipeline.rs: `execute_approved` and its four phases. What is sent to the upstream is kept
-- beside the result.
use Prim.Native.String.{◌++◌}
use thoughtgate.Base.{
  ℕ, ltb, String, true, false, not, Option, none, some, List, [], ◌∷◌, Result, ok, err,
  if◌then◌else◌, str_eq, get_or,
}
use thoughtgate.Errors.{ThoughtGateError}
use thoughtgate.Json.{Value}
use thoughtgate.Task.Status.{TaskStatus, status_eq, display}
use thoughtgate.Task.Types.{Task, ToolCallRequest, ApprovalRecord, FailureStage, Libraries}
use thoughtgate.Task.Helpers.{as_secs, hash_request}
use thoughtgate.Approval.Pipeline.{
  PipelineResult, success, failure, PipelineError, inspection_rejected, pipeline_error_text,
  PipelineConfig, TransformDriftMode, strict, permissive, McpRequest, JsonRpcResponse,
  ResponseError, PolicyRequest, PolicyAction, ApprovalGrant, forward, approve, reject,
  to_mcp_request, build_policy_request, classify_upstream_error, is_retriable_error,
}
use thoughtgate.Approval.Pipeline.Inspect.{Inspector, Wire, run_inspector_chain}

-- What a call of the upstream under the execution timeout ends in.
pub data Forwarded : Type 0 where
  timed_out : Forwarded
  failed : ThoughtGateError → Forwarded
  answered : JsonRpcResponse → Forwarded

-- The pipeline with the components that it calls: the inspectors, the policy engine in its thread, and
-- the upstream client.
pub record ApprovalPipeline : Type 0 where
  pub inspectors : List Inspector
  pub policy_engine : PolicyRequest → Result PolicyAction String
  pub upstream_client : McpRequest → Forwarded
  pub config : PipelineConfig
  pub wire : Wire
  pub lib : Libraries
  pub decimal : ℕ → String

abbrev pub Phase : Type 0 → Type 0
Phase A = Result A PipelineResult

unfoldable pub validate_approval : ℕ → Task → ApprovalRecord → Phase (Unit {0})
validate_approval now task approval =
    if ltb approval.approval_valid_until now
    then err (failure FailureStage.approval_timeout "Approval has expired" false)
    else if not (status_eq task.status TaskStatus.executing)
    then err (
        failure FailureStage.invalid_task_state ("Task in invalid state: " ++ display task.status)
          false)
    else ok tt

unfoldable pub policy_verdict : Result PolicyAction String → Phase (Unit {0})
policy_verdict (err e) =
    err (failure FailureStage.policy_drift ("Policy re-evaluation task failed: " ++ e) false)
policy_verdict (ok forward) = ok tt
policy_verdict (ok (approve _)) = ok tt
policy_verdict (ok (reject reason)) =
    err (failure FailureStage.policy_drift "Policy changed - request no longer permitted" false)

unfoldable pub grant_of : Task → ApprovalRecord → ApprovalGrant
grant_of task approval = record {
  task_id = task.id;
  approved_by = approval.decided_by;
  approved_at = as_secs approval.decided_at;
}

unfoldable pub reevaluate_policy : ApprovalPipeline → Task → ApprovalRecord → Phase (Unit {0})
unfolding build_policy_request grant_of policy_verdict
reevaluate_policy v task approval = policy_verdict (
    v.policy_engine (
      build_policy_request task.pre_approval_transformed task.principal
        (some (grant_of task approval))))

abbrev pub inspection_failure : (ℕ → String) → PipelineError → PipelineResult
inspection_failure decimal (inspection_rejected inspector reason) =
    failure FailureStage.post_hitl_inspection
      ("Inspector '" ++ inspector ++ "' rejected: " ++ reason) false
inspection_failure decimal other =
    failure FailureStage.post_hitl_inspection (pipeline_error_text decimal other) true

-- Where the hash is another one than at the time of the approval.
unfoldable pub drifted : TransformDriftMode → Task → Phase ToolCallRequest
drifted strict task = err (
    failure FailureStage.transform_drift "Request transformed differently than at approval time"
      false)
drifted permissive task = ok task.pre_approval_transformed

unfoldable pub compare_hash :
    TransformDriftMode → Task → ToolCallRequest → Result String String → Phase ToolCallRequest
unfolding drifted
compare_hash mode task transformed (err e) =
    err (failure FailureStage.transform_drift ("Failed to hash transformed request: " ++ e) false)
compare_hash mode task transformed (ok new_hash) =
    if not (str_eq new_hash task.request_hash) then drifted mode task else ok transformed

unfoldable pub post_approval_amber : ApprovalPipeline → Task → Phase ToolCallRequest
unfolding run_inspector_chain compare_hash
post_approval_amber v task =
    elim (run_inspector_chain v.wire v.config v.inspectors task.original_request) [
      | err e ↦ err (inspection_failure v.decimal e)
      | ok r ↦ compare_hash v.config.transform_drift_mode task r (hash_request v.lib r)
    ]

unfoldable pub response_result : Option Value → Option ResponseError → PipelineResult
response_result result (some e) =
    failure FailureStage.upstream_error e.text (is_retriable_error e.code)
response_result result none =
    success (record { content = get_or result Value.null; is_error = false })

unfoldable pub forwarded_result : (ℕ → String) → Forwarded → PipelineResult
unfolding response_result classify_upstream_error
forwarded_result decimal timed_out =
    failure FailureStage.upstream_error "Upstream request timed out" true
forwarded_result decimal (failed e) =
    failure FailureStage.upstream_error (classify_upstream_error decimal e).1
      (classify_upstream_error decimal e).0
forwarded_result decimal (answered response) = response_result response.result response.error

unfoldable pub forward_to_upstream :
    ApprovalPipeline → ToolCallRequest → List McpRequest × PipelineResult
unfolding to_mcp_request forwarded_result
forward_to_upstream v request =
    let r = to_mcp_request request in (r ∷ [], forwarded_result v.decimal (v.upstream_client r))

abbrev pub phase {ℓ} :
    {A : Type ℓ}
    → Result A PipelineResult
    → (A → List McpRequest × PipelineResult)
    → List McpRequest × PipelineResult
phase (err f) next = ([], f)
phase (ok a) next = next a

-- `now` is the time at which the validity of the approval is tested.
unfoldable pub execute_approved :
    ApprovalPipeline → ℕ → Task → ApprovalRecord → List McpRequest × PipelineResult
execute_approved v now task approval = phase (validate_approval now task approval) λ _.
    phase (reevaluate_policy v task approval)
      λ _. phase (post_approval_amber v task) λ final_request. forward_to_upstream v final_request
