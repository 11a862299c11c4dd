-- ===== src/Task/Store/Sweeps/Upkeep.antt =====
-- Expiry, cleanup and shutdown in store.rs keep the invariant.
use thoughtgate.Base.{
  ℕ, ◌≡◌, refl, sym, ◌∙◌, String, Bool, true, Option, none, some, inl, inr, Result, ok, err, List,
  [], ◌∷◌, arith, ap, subst, is_ok, str_eq_refl, Bool-cases, Option-cases, All, All-mono, str_eq,
  str_eq→eq, get_or,
}
use mathlib.Core.Option.{some-injective}
use thoughtgate.Base.Dict.{
  Dict, lookup, erase, total, total-erase, AllEntries, AllEntries-erase, AllEntries-lookup,
  IsDistinct, erase-IsDistinct, lookup-erase,
}
use thoughtgate.Task.Status.{TaskStatus, is_terminal}
use thoughtgate.Task.Types.{Task, TaskId, TaskError, FailureInfo, Clock, Libraries}
use thoughtgate.Task.Store.State.{TaskEntry, TaskStore, Metrics}
use thoughtgate.Task.Store.Sweeps.{
  Sweep, ids_where, is_overdue, is_stale, is_pending, expired_to, expire_one, expire_all,
  expire_overdue, remove_one, remove_all, cleanup_terminal, fail_all, fail_all_pending,
  shutdown_failure,
}
use thoughtgate.Task.Store.Invariant.{Inv, IsKept, pending_weight, bytes_weight, key_weight}
use thoughtgate.Task.Store.Upkeep.{put-Inv, settle-Inv}
use thoughtgate.Task.Store.Preservation.{IsChange, transition-IsChange, transition-status, fail-Inv}

-- The metrics are no part of the invariant.
metrics-Inv : (s : TaskStore) (m : Option Metrics) → Inv s → Inv (record s { tg_metrics = m })
metrics-Inv s m inv = record {
  sized = inv.sized;
  counted = inv.counted;
  weighed = inv.weighed;
  counted_by_key = inv.counted_by_key;
  count_bounded = inv.count_bounded;
  key_bounded = inv.key_bounded;
  bytes_bounded = inv.bytes_bounded;
  tasks_distinct = inv.tasks_distinct;
  counts_distinct = inv.counts_distinct;
  kept = inv.kept;
}

module _ (now : ℕ) (id : TaskId) (e : TaskEntry) (s : TaskStore) (n : ℕ)
    (there : lookup id s.tasks ≡ some e) (inv : Inv s) where
  expired_to-Inv :
      (m : Task × Result (Unit {0}) TaskError)
      → IsChange e.task m
      → ((u : Unit {0}) → m.1 ≡ ok u → is_terminal m.0.status ≡ true)
      → Inv (expired_to now id e (s, n) m).0
  unfolding expired_to
  expired_to-Inv (task, err x) change ends = put-Inv id e s there _ (ground arith) inv
  expired_to-Inv (task, ok u) change ends =
      metrics-Inv _ _ (settle-Inv id e s there _ (ground (arith, ends u refl)) inv now)

-- Expiring one task keeps the invariant.
expire_one-Inv :
    (now : ℕ) (c : Clock) (id : TaskId) (s : TaskStore) (n : ℕ)
    → Inv s
    → Inv (expire_one now c id (s, n)).0
unfolding expire_one is_terminal
expire_one-Inv now c id s n inv = elim (Option-cases (lookup id s.tasks)) [
  | inl missing ↦ rw (missing, expire_one) inv
  | inr (e, there) ↦
      rw (there, expire_one)
        (elim (Bool-cases (is_overdue now e)) [
          | inl late ↦ rw late (
              expired_to-Inv now id e s n there inv _ (transition-IsChange c _ _ e.task) (λ u done.
                ap is_terminal (transition-status c TaskStatus.expired _ e.task (ap is_ok done))))
          | inr fine ↦ rw fine inv
        ])
]

expire_all-Inv :
    (now : ℕ) (clock : TaskId → Clock) (ids : List TaskId) (r : Sweep)
    → Inv r.0
    → Inv (expire_all now clock ids r).0
unfolding expire_all
expire_all-Inv now clock [] r inv = inv
expire_all-Inv now clock (id ∷ ids) (s, n) inv =
    expire_all-Inv now clock ids _ (expire_one-Inv now (clock id) id s n inv)

pub expire_overdue-Inv :
    (now : ℕ) (clock : TaskId → Clock) (s : TaskStore) → Inv s → Inv (expire_overdue now clock s).0
unfolding expire_overdue
expire_overdue-Inv now clock s inv = expire_all-Inv now clock _ (s, 0) inv

fail_all-Inv :
    (clock : TaskId → Clock) (failure : FailureInfo) (ids : List TaskId) (s : TaskStore) (n : ℕ)
    → Inv s
    → Inv (fail_all clock failure ids (s, n)).0
unfolding fail_all
fail_all-Inv clock failure [] s n inv = inv
fail_all-Inv clock failure (id ∷ ids) s n inv =
    fail_all-Inv clock failure ids _ _ (fail-Inv (clock id) id s inv failure)

pub fail_all_pending-Inv :
    (clock : TaskId → Clock) (reason : String) (s : TaskStore)
    → Inv s
    → Inv (fail_all_pending clock reason s).0
unfolding fail_all_pending
fail_all_pending-Inv clock reason s inv =
    fail_all-Inv clock (shutdown_failure reason) (ids_where is_pending s.tasks) s 0 inv

-- What the collected identifiers stand for: each names an entry that passes the test.
abbrev pub Names : (TaskEntry → Bool) → Dict TaskEntry → TaskId → Type 0
Names p d id = (e : TaskEntry) × (lookup id d ≡ some e) × (p e ≡ true)

-- An entry of the rest of the map is found behind an entry with another key.
Names-cons :
    (p : TaskEntry → Bool) (k : String) (e : TaskEntry) (d : Dict TaskEntry)
    → lookup k d ≡ none
    → (id : TaskId) → Names p d id
    → Names p ((k, e) ∷ d) id
unfolding lookup
Names-cons p k e d absent id (e', there, holds) = elim (Bool-cases (str_eq k id)) [
  | inl same ↦ absurd (cc (there, absent, str_eq→eq k id same))
  | inr other ↦ (e', rw other there, holds)
]

pub ids_where-Names :
    (p : TaskEntry → Bool) (d : Dict TaskEntry)
    → AllEntries IsKept d
    → IsDistinct d
    → All (Names p d) (ids_where p d)
unfolding ids_where lookup
ids_where-Names p [] kept distinct = tt
ids_where-Names p ((k, e) ∷ d) kept distinct =
    let rest =
      All-mono (Names p d) (Names p ((k, e) ∷ d)) (ids_where p d) (Names-cons p k e d distinct.0)
        (ids_where-Names p d kept.1 distinct.1) in
    elim (Bool-cases (p e)) [
      | inl passes ↦ rw passes ((e, rw (kept.0.under_id, str_eq_refl k), passes), rest)
      | inr fails ↦ rw fails rest
    ]

-- A terminal task weighs nothing, so its entry can go; the index is no part of the invariant.
removed-Inv :
    (id : TaskId) (e : TaskEntry) (s : TaskStore)
    → lookup id s.tasks ≡ some e
    → Inv s
    → is_terminal e.task.status ≡ true
    → (index : Dict (List TaskId))
    → Inv (record s { tasks = erase id s.tasks; by_principal = index })
removed-Inv id e s there inv ended index = record {
  sized = inv.sized;
  counted = inv.counted ∙ sym (weightless pending_weight (rw ended));
  weighed = inv.weighed ∙ sym (weightless bytes_weight (rw ended));
  counted_by_key = λ key. inv.counted_by_key key ∙ sym (weightless (key_weight key) (rw ended));
  count_bounded = inv.count_bounded;
  key_bounded = inv.key_bounded;
  bytes_bounded = inv.bytes_bounded;
  tasks_distinct = erase-IsDistinct id s.tasks inv.tasks_distinct;
  counts_distinct = inv.counts_distinct;
  kept = AllEntries-erase IsKept id s.tasks inv.kept;
}
  where
    weightless : (w : TaskEntry → ℕ) → w e ≡ 0 → total w (erase id s.tasks) ≡ total w s.tasks
    weightless w h = omega (arith, total-erase w id e s.tasks there)

remove_one-Inv :
    (id : TaskId) (s : TaskStore)
    → Inv s
    → ((e : TaskEntry) → lookup id s.tasks ≡ some e → is_terminal e.task.status ≡ true)
    → Inv (remove_one id s)
unfolding remove_one
remove_one-Inv id s inv ended = elim (Option-cases (lookup id s.tasks)) [
  | inl missing ↦ rw (missing, remove_one) inv
  | inr (e, there) ↦ rw (there, remove_one) (removed-Inv id e s there inv (ended e there) _)
]

-- The tasks that are collected for removal stay terminal while others are removed.
abbrev HasEndedIn : TaskStore → TaskId → Type 0
HasEndedIn s id = (e : TaskEntry) → lookup id s.tasks ≡ some e → is_terminal e.task.status ≡ true

pub remove_one-lookup :
    (id j : TaskId) (s : TaskStore) (e : TaskEntry)
    → IsDistinct s.tasks
    → lookup j (remove_one id s).tasks ≡ some e
    → lookup j s.tasks ≡ some e
unfolding remove_one
remove_one-lookup id j s e distinct h = ground (arith, lookup-erase id j s.tasks distinct)

remove_all-Inv :
    (ids : List TaskId) (s : TaskStore) → Inv s → All (HasEndedIn s) ids → Inv (remove_all ids s)
unfolding remove_all
remove_all-Inv [] s inv ended = inv
remove_all-Inv (id ∷ ids) s inv ended =
    remove_all-Inv ids (remove_one id s) (remove_one-Inv id s inv ended.0) (
      All-mono (HasEndedIn s) (HasEndedIn (remove_one id s)) ids
        (λ j h e there. h e (remove_one-lookup id j s e inv.tasks_distinct there)) ended.1)

stale-HasEndedIn :
    (now grace : ℕ) (s : TaskStore)
    → Inv s
    → (id : TaskId) → Names (is_stale now grace) s.tasks id
    → HasEndedIn s id
unfolding is_stale
stale-HasEndedIn now grace s inv id (e', there', stale) e there =
    let kept_e' = AllEntries-lookup IsKept id e' s.tasks inv.kept there' in
    let same : e' ≡ e = some-injective e' e (sym there' ∙ there) in
    subst (λ x. is_terminal x.task.status ≡ true) same (ground (arith, kept_e'.ended))

pub cleanup_terminal-Inv :
    (lib : Libraries) (now : ℕ) (s : TaskStore) → Inv s → Inv (cleanup_terminal lib now s).0
unfolding cleanup_terminal
cleanup_terminal-Inv lib now s inv =
    let grace = get_or (lib.from_std s.config.terminal_grace_period) 0 in
    remove_all-Inv (ids_where (is_stale now grace) s.tasks) s inv (
      All-mono _ (HasEndedIn s) _ (stale-HasEndedIn now grace s inv)
        (ids_where-Names (is_stale now grace) s.tasks inv.kept inv.tasks_distinct))
