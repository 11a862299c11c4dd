-- ===== src/Task/Store/Admission.antt =====
-- `TaskStore::create` and the invariant: what a refused or an admitted task does to the counters.
use thoughtgate.Base.{
  ℕ, ◌+◌, ◌≤◌, ◌<◌, ◌≡◌, refl, ◌∙◌, String, false, Option, none, inl, inr, Result, ok, err,
  if◌then◌else◌, ltb, leb, str_eq, str_eq→eq, str_eq_refl, usize_end, wrapping_sub, wrapping_add,
  arith, Bool-cases,
}
use thoughtgate.Base.Dict.{
  Dict, lookup, insert, total, total-insert_new, AllEntries-insert, insert-IsDistinct,
  lookup-insert,
}
use thoughtgate.Task.Status.{TaskStatus, is_terminal}
use thoughtgate.Task.Types.{Task, TaskId, ToolCallRequest, Principal, TimeoutAction, Libraries}
use thoughtgate.Task.Methods
use thoughtgate.Task.Methods.{rate_limit_key}
use thoughtgate.Task.Store.State.{TaskEntry, TaskStore, principal_count}
use thoughtgate.Task.Store.Create.{create, reserve, rollback, enter, admit, estimate, fresh_entry}
use thoughtgate.Task.Store.Invariant.{pending_weight, bytes_weight, key_weight, IsKept, Inv}

-- The counter of one key after a write.
principal_count-insert :
    (k key : String) (n : ℕ) (d : Dict ℕ)
    → principal_count key (insert k n d) ≡ (if str_eq k key then n else principal_count key d)
unfolding principal_count
principal_count-insert k key n d = ground (arith, lookup-insert k key n d)

module _ (key : String) (s : TaskStore) (inv : Inv s) where
  -- Giving both slots back restores every counter, even at the end of the range of `usize`.
  rollback-reserve_count :
      (j : String)
      → principal_count j (rollback key (reserve key s)).pending_by_principal
        ≡ principal_count j s.pending_by_principal
  unfolding rollback reserve
  rollback-reserve_count j =
      let n = principal_count key s.pending_by_principal in
      let raised = insert key (wrapping_add n 1) s.pending_by_principal in
      let count = principal_count-insert key j (wrapping_sub (wrapping_add n 1) 1) raised in
      ground (
        arith,
        count,
        principal_count-insert key key (wrapping_add n 1) s.pending_by_principal,
        principal_count-insert key j (wrapping_add n 1) s.pending_by_principal,
        str_eq_refl key,
        str_eq→eq key j,
        inv.key_bounded key,
        inv.sized.principal_small,
      )

  rollback-reserve-Inv :
      s.pending_count < s.config.max_pending_global → Inv (rollback key (reserve key s))
  unfolding rollback reserve
  rollback-reserve-Inv room = record {
    sized = inv.sized;
    counted = omega (arith, inv.counted, inv.sized.global_small);
    weighed = inv.weighed;
    counted_by_key = λ j. rollback-reserve_count j ∙ inv.counted_by_key j;
    count_bounded = omega (arith, inv.sized.global_small);
    key_bounded = λ j. omega (arith, rollback-reserve_count j, inv.key_bounded j);
    bytes_bounded = inv.bytes_bounded;
    tasks_distinct = inv.tasks_distinct;
    counts_distinct =
        insert-IsDistinct key _ _
          (insert-IsDistinct key _ s.pending_by_principal inv.counts_distinct);
    kept = inv.kept;
  }

  module _ (t : Task) (bytes : ℕ) (is_new : lookup t.id s.tasks ≡ none)
      (pending : is_terminal t.status ≡ false) (owned : rate_limit_key t.principal ≡ key) where
    total-entered :
        (w : TaskEntry → ℕ)
        → total w (insert t.id (fresh_entry t bytes) s.tasks)
          ≡ total w s.tasks + w (fresh_entry t bytes)
    total-entered w = total-insert_new w t.id (fresh_entry t bytes) s.tasks is_new

    entered_count :
        (j : String)
        → principal_count key s.pending_by_principal < s.config.max_pending_per_principal
        → principal_count j (reserve key s).pending_by_principal
          ≡ principal_count j s.pending_by_principal + key_weight j (fresh_entry t bytes)
    unfolding reserve
    entered_count j room =
        let n = principal_count key s.pending_by_principal in
        ground (
          arith,
          principal_count-insert key j (wrapping_add n 1) s.pending_by_principal,
          str_eq→eq key j,
          inv.sized.principal_small,
          owned,
          pending,
        )

    enter-reserve-Inv :
        s.pending_count < s.config.max_pending_global
        → principal_count key s.pending_by_principal < s.config.max_pending_per_principal
        → s.pending_bytes + bytes ≤ s.config.max_pending_bytes
        → Inv (enter t bytes key (reserve key s))
    unfolding enter reserve
    enter-reserve-Inv room key_room bytes_room = record {
      sized = inv.sized;
      counted = ground (arith, total-entered pending_weight, pending, inv.counted);
      weighed =
          ground (arith, total-entered bytes_weight, pending, inv.weighed, inv.sized.bytes_small);
      counted_by_key = λ j.
          omega
            (arith, entered_count j key_room, inv.counted_by_key j, total-entered (key_weight j));
      count_bounded = omega arith;
      key_bounded = λ j.
          ground
            (arith, entered_count j key_room, inv.key_bounded j, str_eq→eq key j, owned, pending);
      bytes_bounded = omega (arith, inv.sized.bytes_small);
      tasks_distinct = insert-IsDistinct t.id _ s.tasks inv.tasks_distinct;
      counts_distinct = insert-IsDistinct key _ s.pending_by_principal inv.counts_distinct;
      kept =
          AllEntries-insert IsKept t.id _ s.tasks inv.kept
            (record { under_id = refl; ended = pending });
    }

-- What `Task::new` keeps of its arguments.
pub record IsNewTask (id : TaskId) (p : Principal) (t : Task) : Type 0 where
  pub has_id : t.id ≡ id
  pub has_principal : t.principal ≡ p
  pub is_working : t.status ≡ TaskStatus.working

pub new-IsNewTask :
    (lib : Libraries) (id : TaskId) (now : ℕ) (o r : ToolCallRequest) (p : Principal) (ttl : ℕ)
    (ot : TimeoutAction) (t : Task)
    → Methods.new lib id now o r p ttl ot ≡ ok t
    → IsNewTask id p t
unfolding Methods.new
new-IsNewTask lib id now o r p ttl ot t h = ground arith

admit-Inv :
    (r : Result Task String) (bytes : ℕ) (id : TaskId) (p : Principal) (s : TaskStore)
    → Inv s
    → lookup id s.tasks ≡ none
    → ((t : Task) → r ≡ ok t → IsNewTask id p t)
    → s.pending_count < s.config.max_pending_global
    → principal_count (rate_limit_key p) s.pending_by_principal < s.config.max_pending_per_principal
    → s.config.max_pending_bytes + bytes < usize_end
    → Inv (admit r bytes (rate_limit_key p) (reserve (rate_limit_key p) s)).0
unfolding admit reserve is_terminal
admit-Inv (err e) bytes id p s inv new built room key_room small = rollback-reserve-Inv _ s inv room
admit-Inv (ok t) bytes id p s inv new built room key_room small =
    elim (Bool-cases (ltb s.config.max_pending_bytes (wrapping_add s.pending_bytes bytes))) [
      | inl full ↦ rw full (rollback-reserve-Inv _ s inv room)
      | inr fits ↦ rw fits (
          enter-reserve-Inv (rate_limit_key p) s inv t bytes (rw t_new.has_id new)
            (rw t_new.is_working refl) (rw t_new.has_principal) room key_room
            (ground (arith, inv.bytes_bounded)))
    ]
  where
    t_new : IsNewTask id p t
    t_new = built t refl

-- Creating a task under an identifier that is not in the store keeps the invariant, whether the
-- task is admitted or refused, if the estimate does not take the sum of bytes past `usize`.
pub create-Inv :
    (lib : Libraries) (id : TaskId) (now : ℕ) (o r : ToolCallRequest) (p : Principal)
    (ttl : Option ℕ) (ot : TimeoutAction) (s : TaskStore)
    → Inv s
    → lookup id s.tasks ≡ none
    → s.config.max_pending_bytes + estimate lib o < usize_end
    → Inv (create lib id now o r p ttl ot s).0
unfolding create
create-Inv lib id now o r p ttl ot s inv new small =
    elim (Bool-cases (leb s.config.max_pending_global s.pending_count)) [
      | inl full ↦ rw full inv
      | inr room ↦ rw room (elim (Bool-cases (leb s.config.max_pending_per_principal mine)) [
        | inl limited ↦ rw limited (rollback-reserve-Inv _ s inv (ground arith))
        | inr free ↦ rw free (
            admit-Inv _ (estimate lib o) id p s inv new (new-IsNewTask lib id now o r p _ ot)
              (ground arith) (ground arith) small)
      ])
    ]
  where
    mine : ℕ
    mine = principal_count (rate_limit_key p) s.pending_by_principal
