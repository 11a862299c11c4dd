-- ===== src/Approval/Pipeline/Forwarding.antt =====
-- What governance/pipeline.rs sends to the upstream.
use thoughtgate.Base.{
  ℕ, ◌≤◌, String, Bool, true, false, some, List, [], ◌∷◌, Result, ok, err, ◌≡◌, refl, err-ne-ok,
  ◌⊎◌, inl, inr, arith, str_eq→eq, Result-cases,
}
use thoughtgate.Task.Status.{TaskStatus}
use thoughtgate.Task.Status.Machine.{status_eq_iff}
use thoughtgate.Task.Types.{Task, ToolCallRequest, ApprovalRecord, Libraries}
use thoughtgate.Task.Helpers.{hash_request}
use thoughtgate.Approval.Pipeline.{
  PipelineError, PipelineResult, success, failure, TransformDriftMode, strict, permissive,
  McpRequest, PolicyAction, forward, approve, reject, to_mcp_request, build_policy_request,
}
use thoughtgate.Approval.Pipeline.Inspect.{run_inspector_chain}
use thoughtgate.Approval.Pipeline.Execute.{
  ApprovalPipeline, validate_approval, reevaluate_policy, policy_verdict, grant_of, compare_hash,
  drifted, post_approval_amber, forward_to_upstream, forwarded_result, inspection_failure,
  execute_approved, Phase, phase,
}

abbrev pub permits : PolicyAction → Bool
permits (reject _) = false
permits _ = true

-- The policy engine's answer for the approved request, with the approval as its grant.
abbrev pub policy_answer : ApprovalPipeline → Task → ApprovalRecord → Result PolicyAction String
policy_answer v task approval = v.policy_engine (
    build_policy_request task.pre_approval_transformed task.principal
      (some (grant_of task approval)))

-- A request that was sent, with what had been checked before.
pub record IsSent (v : ApprovalPipeline) (now : ℕ) (task : Task) (approval : ApprovalRecord)
    (calls : List McpRequest) (result : PipelineResult) : Type 0 where
  pub sent : ToolCallRequest
  pub one_call : calls ≡ to_mcp_request sent ∷ []
  pub in_time : now ≤ approval.approval_valid_until
  pub executing : task.status ≡ TaskStatus.executing
  pub action : PolicyAction
  pub evaluated : policy_answer v task approval ≡ ok action
  pub permitted : permits action ≡ true
  pub same_hash : hash_request v.lib sent ≡ ok task.request_hash
  pub answered : result ≡ forwarded_result v.decimal (v.upstream_client (to_mcp_request sent))

abbrev pub is_failure : PipelineResult → Bool
is_failure (success _) = false
is_failure (failure _ _ _) = true

validate_approval-ok :
    (now : ℕ) (task : Task) (approval : ApprovalRecord) (u : Unit {0})
    → validate_approval now task approval ≡ ok u
    → (now ≤ approval.approval_valid_until) × (task.status ≡ TaskStatus.executing)
unfolding validate_approval
validate_approval-ok now task approval u h =
    ground (arith, status_eq_iff task.status TaskStatus.executing)

policy_verdict-ok :
    (r : Result PolicyAction String) (u : Unit {0})
    → policy_verdict r ≡ ok u
    → (a : PolicyAction) × (r ≡ ok a) × (permits a ≡ true)
unfolding policy_verdict
policy_verdict-ok (err e) u h = elim (err-ne-ok h) [ ]
policy_verdict-ok (ok forward) u h = (forward, refl, refl)
policy_verdict-ok (ok (approve t)) u h = (approve t, refl, refl)
policy_verdict-ok (ok (reject r)) u h = elim (err-ne-ok h) [ ]

compare_hash-ok :
    (lib : Libraries) (mode : TransformDriftMode) (task : Task) (r sent : ToolCallRequest)
    (hash : Result String String)
    → hash_request lib r ≡ hash
    → hash_request lib task.pre_approval_transformed ≡ ok task.request_hash
    → compare_hash mode task r hash ≡ ok sent
    → hash_request lib sent ≡ ok task.request_hash
unfolding compare_hash drifted
compare_hash-ok lib mode task r sent (err e) hashed stored h = elim (err-ne-ok h) [ ]
compare_hash-ok lib strict task r sent (ok n) hashed stored h =
    grind (arith, str_eq→eq n task.request_hash)
compare_hash-ok lib permissive task r sent (ok n) hashed stored h =
    grind (arith, str_eq→eq n task.request_hash)

post_approval_amber-ok :
    (v : ApprovalPipeline) (task : Task) (sent : ToolCallRequest)
    → hash_request v.lib task.pre_approval_transformed ≡ ok task.request_hash
    → post_approval_amber v task ≡ ok sent
    → hash_request v.lib sent ≡ ok task.request_hash
unfolding post_approval_amber
post_approval_amber-ok v task sent stored h =
    elim (Result-cases (run_inspector_chain v.wire v.config v.inspectors task.original_request)) [
      | inl (r, e) ↦
          compare_hash-ok v.lib v.config.transform_drift_mode task r sent (hash_request v.lib r)
            refl stored (ground arith)
      | inr (x, e) ↦ ground arith
    ]

-- A phase that ends the pipeline ends it with a failure.
abbrev EndsWithFailure {ℓ} : {A : Type ℓ} → Result A PipelineResult → Type 0
EndsWithFailure (ok _) = Unit
EndsWithFailure (err f) = is_failure f ≡ true

validate_approval-EndsWithFailure :
    (now : ℕ) (task : Task) (approval : ApprovalRecord)
    → EndsWithFailure (validate_approval now task approval)
unfolding validate_approval
validate_approval-EndsWithFailure now task approval = ground arith

reevaluate_policy-EndsWithFailure :
    (r : Result PolicyAction String) → EndsWithFailure (policy_verdict r)
unfolding policy_verdict
reevaluate_policy-EndsWithFailure (err e) = refl
reevaluate_policy-EndsWithFailure (ok forward) = tt
reevaluate_policy-EndsWithFailure (ok (approve t)) = tt
reevaluate_policy-EndsWithFailure (ok (reject r)) = refl

inspection_failure-is_failure :
    (decimal : ℕ → String) (e : PipelineError) → is_failure (inspection_failure decimal e) ≡ true
inspection_failure-is_failure decimal e = ground arith

compare_hash-EndsWithFailure :
    (mode : TransformDriftMode) (task : Task) (r : ToolCallRequest) (hash : Result String String)
    → EndsWithFailure (compare_hash mode task r hash)
unfolding compare_hash drifted
compare_hash-EndsWithFailure mode task r (err e) = refl
compare_hash-EndsWithFailure strict task r (ok n) = ground arith
compare_hash-EndsWithFailure permissive task r (ok n) = ground arith

post_approval_amber-EndsWithFailure :
    (v : ApprovalPipeline) (task : Task) → EndsWithFailure (post_approval_amber v task)
unfolding post_approval_amber
post_approval_amber-EndsWithFailure v task =
    elim (Result-cases (run_inspector_chain v.wire v.config v.inspectors task.original_request)) [
      | inl (r, e) ↦
          rw (EndsWithFailure, e)
            (compare_hash-EndsWithFailure v.config.transform_drift_mode task r
              (hash_request v.lib r))
      | inr (x, e) ↦ rw (EndsWithFailure, e) (inspection_failure-is_failure v.decimal x)
    ]

abbrev pub NothingSent : List McpRequest → PipelineResult → Type 0
NothingSent calls result = (calls ≡ []) × (is_failure result ≡ true)

phase-cases :
    {A : Type 0} (m : Phase A) (next : A → List McpRequest × PipelineResult)
    → EndsWithFailure m
    → NothingSent (phase m next).0 (phase m next).1
      ⊎ ((a : A) × (m ≡ ok a) × (phase m next ≡ next a))
phase-cases (ok a) next h = inr (a, refl, refl)
phase-cases (err f) next h = inl (refl, h)

Sends : ApprovalPipeline → ℕ → Task → ApprovalRecord → List McpRequest × PipelineResult → Type 0
Sends v now task approval run = NothingSent run.0 run.1 ⊎ IsSent v now task approval run.0 run.1

post_approval_amber-Sends :
    (v : ApprovalPipeline) (now : ℕ) (task : Task) (approval : ApprovalRecord)
    → hash_request v.lib task.pre_approval_transformed ≡ ok task.request_hash
    → (now ≤ approval.approval_valid_until) × (task.status ≡ TaskStatus.executing)
    → (a : PolicyAction) × (policy_answer v task approval ≡ ok a) × (permits a ≡ true)
    → Sends v now task approval (phase (post_approval_amber v task) (forward_to_upstream v))
unfolding Sends forward_to_upstream
post_approval_amber-Sends v now task approval stored valid policy =
    elim (phase-cases (post_approval_amber v task) (forward_to_upstream v)
      (post_approval_amber-EndsWithFailure v task)) [
        | inl stops ↦ inl stops
        | inr (sent, e, same) ↦ inr (
            rw same (record {
              sent = sent;
              one_call = refl;
              in_time = valid.0;
              executing = valid.1;
              action = policy.0;
              evaluated = policy.1;
              permitted = policy.2;
              same_hash = post_approval_amber-ok v task sent stored e;
              answered = refl;
            }))
      ]

-- For a task whose hash is that of the approved request: either nothing is sent, and the result is a
-- failure, or one request is. Then the approval was still valid, the task was `Executing`, the policy
-- engine did not reject the approved request, the request that was sent has the hash that was
-- approved, in the permissive mode too, and the result is what the upstream's answer becomes.
pub execute_approved-IsSent :
    (v : ApprovalPipeline) (now : ℕ) (task : Task) (approval : ApprovalRecord)
    → hash_request v.lib task.pre_approval_transformed ≡ ok task.request_hash
    → let run = execute_approved v now task approval in
      NothingSent run.0 run.1 ⊎ IsSent v now task approval run.0 run.1
unfolding execute_approved reevaluate_policy Sends
execute_approved-IsSent v now task approval stored =
    elim (phase-cases (validate_approval now task approval)
      (λ _.
        phase (reevaluate_policy v task approval)
          λ _. phase (post_approval_amber v task) λ r. forward_to_upstream v r)
      (validate_approval-EndsWithFailure now task approval)) [
        | inl stops ↦ inl stops
        | inr (u, e, same) ↦
            elim (phase-cases (reevaluate_policy v task approval)
              (λ _. phase (post_approval_amber v task) λ r. forward_to_upstream v r)
              (reevaluate_policy-EndsWithFailure (policy_answer v task approval))) [
                | inl stops ↦ rw same (inl stops)
                | inr (w, d, next) ↦
                    rw (same, next)
                      (post_approval_amber-Sends v now task approval stored
                        (validate_approval-ok now task approval u e)
                        (policy_verdict-ok (policy_answer v task approval) w d))
              ]
      ]
