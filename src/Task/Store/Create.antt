-- ===== src/Task/Store/Create.antt =====
-- `TaskStore::create` of store.rs: the reservations, their rollback, and the insertion.
use Prim.Native.String.{len}
use thoughtgate.Base.{
  ℕ, ◌+◌, String, Option, none, some, [], ◌∷◌, ltb, leb, if◌then◌else◌, Result, ok, err, get_or,
  wrapping_add, wrapping_sub,
}
use mathlib.Core.List.{◌++◌}
use thoughtgate.Base.Dict.{lookup, insert}
use thoughtgate.Task.Types.{
  Task, TaskId, TaskError, ToolCallRequest, Principal, TimeoutAction, Libraries,
}
use thoughtgate.Task.Helpers.{seconds}
use thoughtgate.Task.Methods
use thoughtgate.Task.Methods.{rate_limit_key}
use thoughtgate.Task.Store.State.{TaskEntry, TaskStore, put, principal_count, set_gauge}
use thoughtgate.Task.Store.Changes.{Outcome}

-- `Duration::clamp`, where the bounds are in order.
unfoldable pub clamp : ℕ → ℕ → ℕ → ℕ
clamp lo hi x = if ltb x lo then lo else if ltb hi x then hi else x

-- The length of the arguments' JSON text, or 200 where it has none, and 200 more.
unfoldable pub estimate : Libraries → ToolCallRequest → ℕ
estimate lib r = elim (lib.json_text r.arguments) [ none ↦ 200 | some s ↦ len s ] + 200

-- The global slot, then the slot of the principal.
unfoldable pub reserve : String → TaskStore → TaskStore
reserve key s = record s {
  pending_count = s.pending_count + 1;
  pending_by_principal =
      insert key (wrapping_add (principal_count key s.pending_by_principal) 1)
        s.pending_by_principal;
}

-- Both slots are given back.
unfoldable pub rollback : String → TaskStore → TaskStore
rollback key s = record s {
  pending_count = wrapping_sub s.pending_count 1;
  pending_by_principal =
      insert key (wrapping_sub (principal_count key s.pending_by_principal) 1)
        s.pending_by_principal;
}

abbrev pub fresh_entry : Task → ℕ → TaskEntry
fresh_entry t bytes = record { task = t; terminal_at = none; notify = 0; estimated_bytes = bytes }

-- The task goes into the store and into the index of its principal.
unfoldable pub enter : Task → ℕ → String → TaskStore → TaskStore
unfolding put
enter t bytes key s = record (put t.id (fresh_entry t bytes) s) {
  pending_bytes = wrapping_add s.pending_bytes bytes;
  by_principal = insert key (get_or (lookup key s.by_principal) [] ++ t.id ∷ []) s.by_principal;
  tg_metrics = set_gauge s.pending_count s.tg_metrics;
}

-- What follows when both slots are reserved and the task was built, or was not.
unfoldable pub admit : Result Task String → ℕ → String → TaskStore → Outcome
admit (err e) bytes key s = (rollback key s, err (TaskError.internal e))
admit (ok t) bytes key s =
    if ltb s.config.max_pending_bytes (wrapping_add s.pending_bytes bytes)
    then (rollback key s, err TaskError.capacity_exceeded)
    else (enter t bytes key s, ok t)

unfoldable pub create :
    Libraries
    → TaskId
    → ℕ
    → ToolCallRequest
    → ToolCallRequest
    → Principal
    → Option ℕ
    → TimeoutAction
    → TaskStore
    → Outcome
create lib id now original_request pre_approval_transformed principal ttl on_timeout s =
    let key = rate_limit_key principal in
    let reserved = reserve key s in
    let ttl : ℕ = clamp s.config.min_ttl s.config.max_ttl (get_or ttl s.config.default_ttl) in
    let task =
      Methods.new lib id now original_request pre_approval_transformed principal ttl on_timeout in
    if leb s.config.max_pending_global s.pending_count
    then (s, err TaskError.capacity_exceeded)
    else if leb s.config.max_pending_per_principal (principal_count key s.pending_by_principal)
    then (rollback key reserved, err (TaskError.rate_limited key (seconds 60)))
    else admit task (estimate lib original_request) key reserved
