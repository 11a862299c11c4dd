-- ===== src/Task/Store/History.antt =====
-- The operations of store.rs in any order: what holds of every store that a history leads to.
use thoughtgate.Base.{ℕ, ◌+◌, ◌<◌, ◌≡◌, String, Option, none, usize_end}
use thoughtgate.Base.Dict.{lookup}
use thoughtgate.Task.Status.{TaskStatus}
use thoughtgate.Task.Types.{
  TaskId, ToolCallRequest, ToolCallResult, Principal, TimeoutAction, ApprovalRecord,
  ApprovalDecision, FailureInfo, Clock, Libraries,
}
use thoughtgate.Task.Store.State.{TaskStoreConfig, TaskStore, new}
use thoughtgate.Task.Store.Create.{create, estimate}
use thoughtgate.Task.Store.Changes.{
  transition, transition_if, record_approval, complete, record_auto_approve_result, fail, cancel,
}
use thoughtgate.Task.Store.Sweeps.{expire_overdue, cleanup_terminal, fail_all_pending}
use thoughtgate.Task.Store.Invariant.{Inv, IsSized, new-Inv}
use thoughtgate.Task.Store.Admission.{create-Inv}
use thoughtgate.Task.Store.Preservation.{
  transition-Inv, transition_if-Inv, record_approval-Inv, complete-Inv,
  record_auto_approve_result-Inv, fail-Inv, cancel-Inv,
}
use thoughtgate.Task.Store.Sweeps.Upkeep.{
  expire_overdue-Inv, cleanup_terminal-Inv, fail_all_pending-Inv,
}

-- The operations that change the store, with their arguments.
pub data Operation : Type 0 where
  creates :
      Libraries
      → TaskId
      → ℕ
      → ToolCallRequest
      → ToolCallRequest
      → Principal
      → Option ℕ
      → TimeoutAction
      → Operation
  transitions : Clock → TaskId → TaskStatus → Option String → Operation
  transitions_if : Clock → TaskId → TaskStatus → TaskStatus → Option String → Operation
  approves : Libraries → Clock → ℕ → TaskId → ApprovalDecision → String → ℕ → Operation
  completes : Clock → TaskId → ToolCallResult → Operation
  auto_approves : ℕ → TaskId → ToolCallResult → ApprovalRecord → Operation
  fails : Clock → TaskId → FailureInfo → Operation
  cancels : Clock → TaskId → Operation
  expires : ℕ → (TaskId → Clock) → Operation
  cleans_up : Libraries → ℕ → Operation
  shuts_down : (TaskId → Clock) → String → Operation

unfoldable pub run : Operation → TaskStore → TaskStore
run (creates lib id now o r p ttl ot) s = (create lib id now o r p ttl ot s).0
run (transitions c id st reason) s = (transition c id st reason s).0
run (transitions_if c id old st reason) s = (transition_if c id old st reason s).0
run (approves lib c now id d by valid_for) s = (record_approval lib c now id d by valid_for s).0
run (completes c id result) s = (complete c id result s).0
run (auto_approves now id result approval) s =
    (record_auto_approve_result now id result approval s).0
run (fails c id failure) s = (fail c id failure s).0
run (cancels c id) s = (cancel c id s).0
run (expires now clock) s = (expire_overdue now clock s).0
run (cleans_up lib now) s = (cleanup_terminal lib now s).0
run (shuts_down clock reason) s = (fail_all_pending clock reason s).0

-- What the operations rely on: a new identifier is not in use, and the sum of bytes fits in `usize`.
abbrev pub IsAdmissible : Operation → TaskStore → Type 0
IsAdmissible (creates lib id now o r p ttl ot) s =
    (lookup id s.tasks ≡ none) × (s.config.max_pending_bytes + estimate lib o < usize_end)
IsAdmissible _ s = Unit

pub run-Inv : (op : Operation) (s : TaskStore) → IsAdmissible op s → Inv s → Inv (run op s)
unfolding run
run-Inv (creates lib id now o r p ttl ot) s (fresh, small) inv =
    create-Inv lib id now o r p ttl ot s inv fresh small
run-Inv (transitions c id st reason) s can inv = transition-Inv c id s inv st reason
run-Inv (transitions_if c id old st reason) s can inv = transition_if-Inv c id s inv old st reason
run-Inv (approves lib c now id d by valid_for) s can inv =
    record_approval-Inv c id s inv lib now d by valid_for
run-Inv (completes c id result) s can inv = complete-Inv c id s inv result
run-Inv (auto_approves now id result approval) s can inv =
    record_auto_approve_result-Inv id s now result approval inv
run-Inv (fails c id failure) s can inv = fail-Inv c id s inv failure
run-Inv (cancels c id) s can inv = cancel-Inv c id s inv
run-Inv (expires now clock) s can inv = expire_overdue-Inv now clock s inv
run-Inv (cleans_up lib now) s can inv = cleanup_terminal-Inv lib now s inv
run-Inv (shuts_down clock reason) s can inv = fail_all_pending-Inv clock reason s inv

-- The histories of a store that starts empty.
pub data Reach (c : TaskStoreConfig) : TaskStore → Type 0 where
  start : Reach c (new c)
  next : {s : TaskStore} → Reach c s → (op : Operation) → IsAdmissible op s → Reach c (run op s)

-- With limits that a `usize` holds, in every store that a history leads to, where each new identifier
-- is unused and no estimate takes the sum of bytes past `usize`: the three counters are the number,
-- the number for each principal and the bytes of the tasks that are not terminal, and respect the
-- limits; no key stands twice; every entry stands under the identifier of its task, and has an end
-- exactly when its task is terminal.
pub Reach-Inv : {c : TaskStoreConfig} {s : TaskStore} → IsSized c → Reach c s → Inv s
Reach-Inv {c} sized start = new-Inv c sized
Reach-Inv sized (next {s = s} r op can) = run-Inv op s can (Reach-Inv sized r)
