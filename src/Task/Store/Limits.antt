-- ===== src/Task/Store/Limits.antt =====
-- The limits of store.rs over every history: the configuration stays, so the bounds that it sets hold
-- of the tasks of every store that is reached.
use thoughtgate.Base.{ℕ, ◌≤◌, ◌≡◌, refl, ◌∙◌, String, List, [], ◌∷◌, arith, Result, ok, err}
use thoughtgate.Base.Dict.{total}
use thoughtgate.Task.Types.{Task, TaskId, TaskError, FailureInfo, Clock}
use thoughtgate.Task.Store.State.{TaskStoreConfig, TaskStore, TaskEntry, new, settle}
use thoughtgate.Task.Store.Create.{create, reserve, rollback, enter, admit}
use thoughtgate.Task.Store.Changes.{
  transition, transition_if, record_approval, complete, record_auto_approve_result, fail, cancel,
  conclude, conclude_terminal,
}
use thoughtgate.Task.Store.Sweeps.{
  Sweep, expire_overdue, cleanup_terminal, fail_all_pending, expire_one, expire_all, remove_one,
  remove_all, fail_all, expired_to, shutdown_failure, ids_where, is_pending,
}
use thoughtgate.Task.Store.Invariant.{Inv, IsSized, pending_weight, bytes_weight, key_weight}
use thoughtgate.Task.Store.History.{
  Operation, creates, transitions, transitions_if, approves, completes, auto_approves, fails,
  cancels, expires, cleans_up, shuts_down, run, Reach, start, next, Reach-Inv,
}

conclude-config :
    (c : Clock) (id : TaskId) (e : TaskEntry) (s : TaskStore)
    (m : Task × Result (Unit {0}) TaskError)
    → (conclude c id e s m).0.config ≡ s.config
unfolding conclude settle
conclude-config c id e s (task, err x) = refl
conclude-config c id e s (task, ok u) = ground arith

conclude_terminal-config :
    (c : Clock) (id : TaskId) (e : TaskEntry) (s : TaskStore)
    (m : Task × Result (Unit {0}) TaskError)
    → (conclude_terminal c id e s m).0.config ≡ s.config
unfolding conclude_terminal settle
conclude_terminal-config c id e s (task, err x) = refl
conclude_terminal-config c id e s (task, ok u) = refl

fail-config :
    (c : Clock) (id : TaskId) (f : FailureInfo) (s : TaskStore)
    → (fail c id f s).0.config ≡ s.config
unfolding fail
fail-config c id f s = grind (arith, conclude_terminal-config)

expired_to-config :
    (now : ℕ) (id : TaskId) (e : TaskEntry) (s : TaskStore) (n : ℕ)
    (m : Task × Result (Unit {0}) TaskError)
    → (expired_to now id e (s, n) m).0.config ≡ s.config
unfolding expired_to settle
expired_to-config now id e s n (task, err x) = refl
expired_to-config now id e s n (task, ok u) = refl

expire_one-config :
    (now : ℕ) (c : Clock) (id : TaskId) (s : TaskStore) (n : ℕ)
    → (expire_one now c id (s, n)).0.config ≡ s.config
unfolding expire_one
expire_one-config now c id s n = grind (arith, expired_to-config)

expire_all-config :
    (now : ℕ) (clock : TaskId → Clock) (ids : List TaskId) (r : Sweep)
    → (expire_all now clock ids r).0.config ≡ r.0.config
unfolding expire_all
expire_all-config now clock [] r = refl
expire_all-config now clock (id ∷ ids) (s, n) =
    expire_all-config now clock ids _ ∙ expire_one-config now (clock id) id s n

remove_all-config : (ids : List TaskId) (s : TaskStore) → (remove_all ids s).config ≡ s.config
unfolding remove_all remove_one
remove_all-config [] s = refl
remove_all-config (id ∷ ids) s = remove_all-config ids (remove_one id s) ∙ ground arith

fail_all-config :
    (clock : TaskId → Clock) (f : FailureInfo) (ids : List TaskId) (s : TaskStore) (n : ℕ)
    → (fail_all clock f ids (s, n)).0.config ≡ s.config
unfolding fail_all
fail_all-config clock f [] s n = refl
fail_all-config clock f (id ∷ ids) s n =
    fail_all-config clock f ids _ _ ∙ fail-config (clock id) id f s

run-config : (op : Operation) (s : TaskStore) → (run op s).config ≡ s.config
unfolding run create reserve rollback enter admit transition transition_if record_approval complete
    record_auto_approve_result cancel expire_overdue cleanup_terminal fail_all_pending
run-config (creates lib id now o r p ttl ot) s = ground arith
run-config (transitions c id st reason) s = grind (arith, conclude-config)
run-config (transitions_if c id old st reason) s = grind (arith, conclude-config)
run-config (approves lib c now id d by valid_for) s = grind (arith, conclude-config)
run-config (completes c id result) s = grind (arith, conclude_terminal-config)
run-config (auto_approves now id result approval) s = ground arith
run-config (fails c id failure) s = fail-config c id failure s
run-config (cancels c id) s = grind (arith, conclude_terminal-config)
run-config (expires now clock) s = expire_all-config now clock _ (s, 0)
run-config (cleans_up lib now) s = remove_all-config _ s
run-config (shuts_down clock reason) s =
    fail_all-config clock (shutdown_failure reason) (ids_where is_pending s.tasks) s 0

Reach-config : {c : TaskStoreConfig} {s : TaskStore} → Reach c s → s.config ≡ c
unfolding new
Reach-config start = refl
Reach-config (next {s = s} r op can) = run-config op s ∙ Reach-config r

-- With limits that a `usize` holds, whatever operations run, in any order, where each new identifier
-- is unused and no estimate takes the sum of bytes past `usize`, the pending tasks never exceed the
-- limit on all tasks, those of one principal never exceed the limit on each principal, and the bytes that
-- they are charged never exceed the limit on bytes.
pub Reach-limits :
    {c : TaskStoreConfig} {s : TaskStore}
    → IsSized c
    → Reach c s
    → (total pending_weight s.tasks ≤ c.max_pending_global)
      × ((key : String) → total (key_weight key) s.tasks ≤ c.max_pending_per_principal)
      × (total bytes_weight s.tasks ≤ c.max_pending_bytes)
Reach-limits {c} {s} sized r = rw (← Reach-config r) (
  omega (arith, inv.counted, inv.count_bounded),
  λ key. omega (arith, inv.counted_by_key key, inv.key_bounded key),
  omega (arith, inv.weighed, inv.bytes_bounded),
)
  where
    inv : Inv s
    inv = Reach-Inv sized r
