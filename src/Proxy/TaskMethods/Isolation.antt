-- ===== src/Proxy/TaskMethods/Isolation.antt =====
-- What a caller learns of the tasks of others, from thoughtgate-proxy/src/mcp_handler/task_methods.rs.
use thoughtgate.Base.{
  ◌+◌, String, Bool, true, false, Option, none, some, List, [], ◌∷◌, Result, ok, err, ◌≡◌, refl,
  sym, ap, ◌∙◌, inl, inr, arith, Bool-cases, str_eq→eq,
}
use thoughtgate.Errors.{task_not_found}
use thoughtgate.Json.{Value}
use thoughtgate.Task.Types.{Principal, Task, TaskId, TaskError}
use thoughtgate.Base.Dict.{lookup}
use thoughtgate.Task.Methods.{rate_limit_key}
use thoughtgate.Task.Store.State.{TaskStore}
use thoughtgate.Task.Store.Queries.{get, page, list_for_principal}
use thoughtgate.Task.Handlers.{Cursors, page_size, page_of, offset_of, handle_tasks_list}
use thoughtgate.Approval.Engine.{EngineState}
use thoughtgate.Proxy.TaskMethods.{
  McpState, Visit, TaskMethod, get_task, task_result, list_tasks, cancel_task, Inferred, identified,
  failed, panicked, PolicyPrincipal, caller_of, text_eq, texts_eq, principal_eq, owned,
  verify_task_principal, task_error_to_thoughtgate, with_id, handle_task_method, Served,
  if_verified,
}

text_eq→eq : (s t : Option String) → text_eq s t ≡ true → s ≡ t
text_eq→eq none none h = refl
text_eq→eq none (some t) h = ground arith
text_eq→eq (some s) none h = ground arith
text_eq→eq (some s) (some t) h = ap some (str_eq→eq s t h)

texts_eq→eq : (s t : List String) → texts_eq s t ≡ true → s ≡ t
texts_eq→eq [] [] h = refl
texts_eq→eq [] (t ∷ ts) h = ground arith
texts_eq→eq (s ∷ ss) [] h = ground arith
texts_eq→eq (s ∷ ss) (t ∷ ts) h = ground (arith, str_eq→eq s t, texts_eq→eq ss ts)

principal_eq→eq : (p q : Principal) → principal_eq p q ≡ true → p ≡ q
unfolding principal_eq
principal_eq→eq p q h = ground (
  arith,
  str_eq→eq p.app_name q.app_name,
  text_eq→eq p.user_id q.user_id,
  text_eq→eq p.session_id q.session_id,
  str_eq→eq p.namespace q.namespace,
  str_eq→eq p.service_account q.service_account,
  texts_eq→eq p.roles q.roles,
)

-- The methods that name one task.
abbrev pub names_task : TaskMethod → Bool
names_task list_tasks = false
names_task _ = true

-- A caller that the task does not belong to, or who is not known.
pub data IsStranger (t : Task) : Inferred → Type 0 where
  another : (p : PolicyPrincipal) → ¬ (t.principal ≡ caller_of p) → IsStranger t (identified p)
  unknown : (reason : String) → IsStranger t (failed reason)
  broken : (reason : String) → IsStranger t (panicked reason)

strangers :
    (t : Task) (p : PolicyPrincipal)
    → ¬ (t.principal ≡ caller_of p)
    → principal_eq t.principal (caller_of p) ≡ false
strangers t p h = elim (Bool-cases (principal_eq t.principal (caller_of p))) [
  | inl e ↦ elim (h (principal_eq→eq t.principal (caller_of p) e)) [ ]
  | inr e ↦ e
]

-- A stranger is refused as for a task that is not there.
refused :
    (caller : Inferred) (id : TaskId) (t : Task) (s : EngineState)
    → get id s.task_store ≡ ok t
    → IsStranger t caller
    → verify_task_principal caller id s.task_store ≡ err (task_not_found id)
unfolding verify_task_principal owned
refused _ id t s found (another p h) = ap (owned id (caller_of p)) found ∙ rw (strangers t p h) refl
refused _ id t s found (unknown reason) = refl
refused _ id t s found (broken reason) = refl

missing :
    (caller : Inferred) (id : TaskId) (s : EngineState)
    → get id s.task_store ≡ err (TaskError.not_found id)
    → verify_task_principal caller id s.task_store ≡ err (task_not_found id)
unfolding verify_task_principal owned task_error_to_thoughtgate
missing (identified p) id s gone = ap (owned id (caller_of p)) gone
missing (failed reason) id s gone = refl
missing (panicked reason) id s gone = refl

stops :
    (w : Visit) (method : TaskMethod) (serve : TaskId → EngineState → Served) (id : TaskId)
    (s : EngineState) (r : Result TaskId String)
    → r ≡ ok id
    → verify_task_principal w.caller id s.task_store ≡ err (task_not_found id)
    → with_id w method serve s r ≡ (s, [], err (task_not_found id))
unfolding with_id
stops w method serve id s r e h = rw e (ap (if_verified s (λ s. serve id (w.after_check s))) h)

handle_task_method-stops :
    (v : McpState) (w : Visit) (method : TaskMethod) (params : Value) (id : TaskId)
    (s : EngineState)
    → names_task method ≡ true
    → v.serde.task_id_of params ≡ ok id
    → verify_task_principal w.caller id s.task_store ≡ err (task_not_found id)
    → handle_task_method v w method params s ≡ (s, [], err (task_not_found id))
unfolding handle_task_method
handle_task_method-stops v w get_task params id s n e h = stops w get_task _ id s _ e h
handle_task_method-stops v w task_result params id s n e h = stops w task_result _ id s _ e h
handle_task_method-stops v w cancel_task params id s n e h = stops w cancel_task _ id s _ e h
handle_task_method-stops v w list_tasks params id s n e h = ground arith

-- A caller that a task does not belong to, or whose identity cannot be inferred, gets for a method on
-- this task the answer that every caller gets where no task has the identifier; nothing is changed and
-- nothing is sent.
pub handle_task_method-isolates :
    (v : McpState) (w x : Visit) (method : TaskMethod) (params : Value) (id : TaskId) (t : Task)
    (s u : EngineState)
    → names_task method ≡ true
    → v.serde.task_id_of params ≡ ok id
    → get id s.task_store ≡ ok t
    → IsStranger t w.caller
    → get id u.task_store ≡ err (TaskError.not_found id)
    → let answer = handle_task_method v w method params s in
      (answer.0 ≡ s) × (answer.1 ≡ []) × (answer.2 ≡ (handle_task_method v x method params u).2)
handle_task_method-isolates v w x method params id t s u n e found stranger gone =
    let here =
      handle_task_method-stops v w method params id s n e
        (refused w.caller id t s found stranger) in
    let there = handle_task_method-stops v x method params id u n e (missing x.caller id u gone) in
    (
      ap (λ (r : Served). r.0) here,
      ap (λ (r : Served). r.1) here,
      ap (λ (r : Served). r.2) here ∙ sym (ap (λ (r : Served). r.2) there),
    )

-- A list is by the name of the app: two callers with the same one are told of the same tasks, whatever
-- their namespaces, service accounts and roles.
pub handle_tasks_list-app_name :
    (u : Cursors) (cursor : Option String) (p q : PolicyPrincipal) (s : TaskStore)
    → p.app_name ≡ q.app_name
    → handle_tasks_list u cursor (caller_of p) s ≡ handle_tasks_list u cursor (caller_of q) s
unfolding handle_tasks_list list_for_principal rate_limit_key caller_of
handle_tasks_list-app_name u cursor p q s same =
    ap
      (λ k.
        page_of u (offset_of u cursor)
          (page (offset_of u cursor) (page_size + 1) s (lookup k s.by_principal)))
      same
