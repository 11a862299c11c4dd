-- ===== src/Approval/Engine/Starting.antt =====
-- What `start_approval` of governance/engine.rs leaves in the store of governance/task/store.rs.
use thoughtgate.Base.{
  ℕ, String, false, Option, none, some, List, Result, ok, err, err-ne-ok, ◌≡◌, refl, inl, inr,
  arith, Bool-cases, subst, sym, ap, ◌∙◌, get_or, leb, ltb, wrapping_add,
}
use thoughtgate.Base.Dict.{lookup, lookup-insert_self}
use thoughtgate.Task.Status.{TaskStatus, is_terminal, can_transition_to}
use thoughtgate.Task.Types.{
  Principal, Task, TaskId, ToolCallRequest, TimeoutAction, TaskError, Libraries, Clock,
}
use thoughtgate.Task.Methods
use thoughtgate.Task.Methods.{rate_limit_key}
use thoughtgate.Task.Store.State.{TaskStore, TaskEntry, put, principal_count}
use thoughtgate.Task.Store.Create.{create, admit, enter, estimate, clamp, fresh_entry}
use thoughtgate.Task.Store.Changes.{transition, conclude, Outcome}
use thoughtgate.Task.Store.Queries
use thoughtgate.Governance.Gates.{ApprovalRequest}
use thoughtgate.Approval.Pipeline.{PreHitlResult, PipelineError}
use thoughtgate.Approval.Pipeline.Inspect.{pre_approval_amber}
use thoughtgate.Approval.Pipeline.Execute.{ApprovalPipeline}
use thoughtgate.Task.Helpers.{hash_request}
use thoughtgate.Approval.Engine.{
  ApprovalEngine, post_failed, Arrival, asked, Start, submitted, waiting, created, amber_passed,
  start_approval,
}
use thoughtgate.Approval.Engine.Once.{get-found}

-- What is recorded of a request under an identifier: the request as it came, the request that is to be
-- shown and sent, and the hash of the latter.
pub record IsRecorded (lib : Libraries) (id : TaskId) (request transformed : ToolCallRequest)
    (t : Task) : Type 0 where
  pub has_id : t.id ≡ id
  pub has_request : t.original_request ≡ request
  pub has_transformed : t.pre_approval_transformed ≡ transformed
  pub has_hash : hash_request lib transformed ≡ ok t.request_hash

new-IsRecorded :
    (lib : Libraries) (id : TaskId) (now : ℕ) (o r : ToolCallRequest) (p : Principal) (ttl : ℕ)
    (ot : TimeoutAction) (t : Task)
    → Methods.new lib id now o r p ttl ot ≡ ok t
    → IsRecorded lib id o r t × (t.status ≡ TaskStatus.working)
unfolding Methods.new
new-IsRecorded lib id now o r p ttl ot t h = ground arith

-- A creation that succeeds has entered the task that was built.
abbrev Entered : Result Task String → Outcome → Type 0
Entered built (s, err e) = Unit
Entered built (s, ok t) =
    (built ≡ ok t) × (e : TaskEntry) × (lookup t.id s.tasks ≡ some e) × (e.task ≡ t)

admit-Entered :
    (built : Result Task String) (bytes : ℕ) (key : String) (s : TaskStore)
    → Entered built (admit built bytes key s)
unfolding admit enter put
admit-Entered (err e) bytes key s = tt
admit-Entered (ok t) bytes key s =
    elim (Bool-cases (ltb s.config.max_pending_bytes (wrapping_add s.pending_bytes bytes))) [
      | inl full ↦ rw full tt
      | inr fits ↦ rw fits (refl, fresh_entry t bytes, lookup-insert_self t.id _ s.tasks, refl)
    ]

create-Entered :
    (lib : Libraries) (id : TaskId) (now : ℕ) (o r : ToolCallRequest) (p : Principal)
    (ttl : Option ℕ) (ot : TimeoutAction) (s : TaskStore)
    → Entered
        (Methods.new lib id now o r p
          (clamp s.config.min_ttl s.config.max_ttl (get_or ttl s.config.default_ttl))
          ot)
        (create lib id now o r p ttl ot s)
unfolding create
create-Entered lib id now o r p ttl ot s =
    elim (Bool-cases (leb s.config.max_pending_global s.pending_count)) [
      | inl full ↦ rw full tt
      | inr room ↦
          rw room
            (elim (Bool-cases (
              leb s.config.max_pending_per_principal
                (principal_count (rate_limit_key p) s.pending_by_principal))) [
                  | inl limited ↦ rw limited tt
                  | inr free ↦ rw free (admit-Entered _ (estimate lib o) _ _)
                ])
    ]

-- A task that waits for its decision under an identifier, with what the inspectors have made of the
-- request.
pub record IsWaiting (p : ApprovalPipeline) (id : TaskId) (request : ToolCallRequest)
    (s : TaskStore) : Type 0 where
  pub inspected : PreHitlResult
  pub by_inspectors : pre_approval_amber p.lib p.wire p.config p.inspectors request ≡ ok inspected
  pub task : Task
  pub stored : Queries.get id s ≡ ok task
  pub waits : task.status ≡ TaskStatus.input_required
  pub recorded : IsRecorded p.lib id request inspected.transformed_request task

-- What the scheduler has accepted.
pub record IsAccepted (v : ApprovalEngine) (id : TaskId) (request : ToolCallRequest) : Type 0 where
  pub post : ApprovalRequest
  pub accepted : v.scheduler post ≡ ok tt
  pub of_task : post.task_id ≡ id
  pub of_tool : post.tool_name ≡ request.name
  pub of_arguments : post.tool_arguments ≡ request.arguments

-- What a start leaves, by its answer.
abbrev pub Leaves : ApprovalEngine → TaskId → ToolCallRequest → Start → Type 0
Leaves v id request (s, ok r) =
    (r.task_id ≡ id) × IsWaiting v.pipeline id request s × IsAccepted v id request
Leaves v id request (s, err (post_failed e)) = IsWaiting v.pipeline id request s
Leaves v id request (s, err _) = Unit

working-waits :
    (lib : Libraries) (c : Clock) (id : TaskId) (request transformed : ToolCallRequest) (t : Task)
    → t.status ≡ TaskStatus.working
    → IsRecorded lib id request transformed t
    → let m = Methods.transition c TaskStatus.input_required none t in
      (m.1 ≡ ok tt)
      × (m.0.status ≡ TaskStatus.input_required)
      × IsRecorded lib id request transformed m.0
unfolding Methods.transition is_terminal can_transition_to
working-waits lib c id request transformed t working known = rw working (
  refl,
  refl,
  record {
    has_id = known.has_id;
    has_request = known.has_request;
    has_transformed = known.has_transformed;
    has_hash = known.has_hash;
  },
)

conclude-pending :
    (c : Clock) (id : TaskId) (e : TaskEntry) (s : TaskStore)
    (m : Task × Result (Unit {0}) TaskError)
    → m.1 ≡ ok tt
    → is_terminal m.0.status ≡ false
    → conclude c id e s m ≡ (put id (record e { task = m.0 }) s, ok m.0)
unfolding conclude
conclude-pending c id e s (t, err x) h n = elim (err-ne-ok h) [ ]
conclude-pending c id e s (t, ok u) h n = ground arith

module _ (v : ApprovalEngine) (a : Arrival) (request : ToolCallRequest) (p : Principal)
    (redact : List String) where
  submitted-Leaves :
      (t : Task) (s : TaskStore) (r : Result (Unit {0}) String)
      → t.id ≡ a.task_id
      → IsWaiting v.pipeline a.task_id request s
      → v.scheduler (asked a request p redact t) ≡ r
      → Leaves v a.task_id request (submitted t s r)
  unfolding submitted
  submitted-Leaves t s (err e) same w posted = w
  submitted-Leaves t s (ok u) same w posted = (
    same,
    w,
    record {
      post = asked a request p redact t;
      accepted = posted;
      of_task = same;
      of_tool = refl;
      of_arguments = refl;
    },
  )

  transition-waits :
      (pre : PreHitlResult) (e : TaskEntry) (t : Task) (s : TaskStore)
      → pre_approval_amber v.pipeline.lib v.pipeline.wire v.pipeline.config v.pipeline.inspectors
          request
        ≡ ok pre
      → lookup t.id s.tasks ≡ some e
      → e.task ≡ t
      → t.status ≡ TaskStatus.working
      → IsRecorded v.pipeline.lib a.task_id request pre.transformed_request t
      → (s' : TaskStore) × (u : Task) × (transition a.waits t.id TaskStatus.input_required none s
          ≡ (s', ok u))
        × IsWaiting v.pipeline a.task_id request s'
  unfolding transition put is_terminal
  transition-waits pre e t s inspected there same working known =
      let m = Methods.transition a.waits TaskStatus.input_required none t in
      let w =
        working-waits v.pipeline.lib a.waits a.task_id request pre.transformed_request t working
          known in
      let s' = put t.id (record e { task = m.0 }) s in
      (
        s',
        m.0,
        ap
              (λ (o : Option TaskEntry).
                let x : Outcome = elim o [
                  | none ↦ (s, err (TaskError.not_found t.id))
                  | some e ↦
                      conclude a.waits t.id e s
                        (Methods.transition a.waits TaskStatus.input_required none e.task)
                ] in
                x)
              there
            ∙ ap
                (λ (u : Task).
                  conclude a.waits t.id e s
                    (Methods.transition a.waits TaskStatus.input_required none u))
                same
            ∙ conclude-pending a.waits t.id e s m w.0 (ap is_terminal w.1),
        record {
          inspected = pre;
          by_inspectors = inspected;
          task = m.0;
          stored =
              ap (λ i. Queries.get i s') (sym known.has_id)
              ∙ get-found t.id (record e { task = m.0 }) s' (lookup-insert_self t.id _ s.tasks);
          waits = w.1;
          recorded = w.2;
        },
      )

  created-Leaves :
      (pre : PreHitlResult) (built : Result Task String) (o : Outcome)
      → pre_approval_amber v.pipeline.lib v.pipeline.wire v.pipeline.config v.pipeline.inspectors
          request
        ≡ ok pre
      → Entered built o
      → ((t : Task)
          → built ≡ ok t
          → IsRecorded v.pipeline.lib a.task_id request pre.transformed_request t
            × (t.status ≡ TaskStatus.working))
      → Leaves v a.task_id request (created v a.waits (asked a request p redact) o)
  unfolding created waiting
  created-Leaves pre built (s, err e) inspected entered h = tt
  created-Leaves pre built (s, ok t) inspected (b, e, there, same) h =
      let known = h t b in
      let w = transition-waits pre e t s inspected there same known.1 known.0 in
      subst (λ o. Leaves v a.task_id request (waiting v (asked a request p redact) t o)) (sym w.2)
        (submitted-Leaves t w.0 _ known.0.has_id w.3 refl)

  amber_passed-Leaves :
      (wt : Option ℕ) (ot : Option TimeoutAction) (s : TaskStore)
      (r : Result PreHitlResult PipelineError)
      → pre_approval_amber v.pipeline.lib v.pipeline.wire v.pipeline.config v.pipeline.inspectors
          request
        ≡ r
      → Leaves v a.task_id request (amber_passed v a request p wt ot redact s r)
  unfolding amber_passed
  amber_passed-Leaves wt ot s (err e) inspected = tt
  amber_passed-Leaves wt ot s (ok pre) inspected =
      created-Leaves pre _ _ inspected
        (create-Entered v.pipeline.lib a.task_id a.now request pre.transformed_request p _ _ s)
        (new-IsRecorded v.pipeline.lib a.task_id a.now request pre.transformed_request p _ _)

pub start_approval-Leaves :
    (v : ApprovalEngine) (a : Arrival) (request : ToolCallRequest) (p : Principal) (wt : Option ℕ)
    (ot : Option TimeoutAction) (redact : List String) (s : TaskStore)
    → Leaves v a.task_id request (start_approval v a request p wt ot redact s)
unfolding start_approval
start_approval-Leaves v a request p wt ot redact s =
    amber_passed-Leaves v a request p redact wt ot s _ refl
