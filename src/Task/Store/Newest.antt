-- ===== src/Task/Store/Newest.antt =====
-- The order in which task/store.rs lists the tasks of a principal.
use thoughtgate.Base.{
  ℕ, ◌≤◌, leb, none, some, List, [], ◌∷◌, ◌≡◌, arith, Bool-cases, inl, inr, Option-cases,
}
use mathlib.Core.List.{Mem, Perm, Pairwise, Pairwise-singleton, forall_mem-cons}
use mathlib.Core.List.Perm
use native.Mathlib.Bridge.{le_prop}
use thoughtgate.Base.Dict.{Dict, lookup}
use thoughtgate.Task.Types.{Task, TaskId}
use thoughtgate.Task.Store.State.{TaskEntry}
use thoughtgate.Task.Store.Queries.{found, insert_newest, newest_first}

-- The tasks that stand under the identifiers, in their order; an identifier without a task is left out.
pub data TasksUnder (d : Dict TaskEntry) : List TaskId → List Task → Type 0 where
  none_left : TasksUnder d [] []
  there :
      {id : TaskId} {ids : List TaskId} {ts : List Task} (e : TaskEntry)
      → lookup id d ≡ some e
      → TasksUnder d ids ts
      → TasksUnder d (id ∷ ids) (e.task ∷ ts)
  absent :
      {id : TaskId} {ids : List TaskId} {ts : List Task}
      → lookup id d ≡ none
      → TasksUnder d ids ts
      → TasksUnder d (id ∷ ids) ts

-- No task was created before one that follows it.
abbrev pub IsNewestFirst : List Task → Type 0
IsNewestFirst = Pairwise (λ (t u : Task). u.created_at ≤ t.created_at)

pub found-TasksUnder : (ids : List TaskId) (d : Dict TaskEntry) → TasksUnder d ids (found ids d)
unfolding found
found-TasksUnder [] d = none_left
found-TasksUnder (id ∷ ids) d = elim (Option-cases (lookup id d)) [
  | inl e ↦ rw (found, e) (absent e (found-TasksUnder ids d))
  | inr (x, e) ↦ rw (found, e) (there x e (found-TasksUnder ids d))
]

insert_newest-Perm : (t : Task) (ts : List Task) → Perm (insert_newest t ts) (t ∷ ts)
unfolding insert_newest
insert_newest-Perm t [] = Perm.rfl
insert_newest-Perm t (u ∷ us) = elim (Bool-cases (leb u.created_at t.created_at)) [
  | inl newer ↦ rw newer Perm.rfl
  | inr older ↦ rw older (Perm.trans (Perm.cons u (insert_newest-Perm t us)) (Perm.swap t u us))
]

pub newest_first-Perm : (ts : List Task) → Perm (newest_first ts) ts
unfolding newest_first
newest_first-Perm [] = Perm.rfl
newest_first-Perm (t ∷ ts) =
    Perm.trans (insert_newest-Perm t (newest_first ts)) (Perm.cons t (newest_first-Perm ts))

le_trans : {a b c : ℕ} → a ≤ b → b ≤ c → a ≤ c
le_trans h k = omega arith

-- What `Pairwise.cons` asks of a new head.
bounds_cons :
    (t : Task) {u : Task} {us : List Task}
    → u.created_at ≤ t.created_at
    → ((x : Task) → Mem x us → x.created_at ≤ t.created_at)
    → (x : Task) → Mem x (u ∷ us)
    → x.created_at ≤ t.created_at
bounds_cons t h k = (forall_mem-cons λ x. le_prop).1 (h, k)

insert_newest-IsNewestFirst :
    (t : Task) {ts : List Task} → IsNewestFirst ts → IsNewestFirst (insert_newest t ts)
unfolding insert_newest
insert_newest-IsNewestFirst t Pairwise.nil = Pairwise-singleton _ t
insert_newest-IsNewestFirst t (Pairwise.cons {a = u} {l = us} older s) =
    elim (Bool-cases (leb u.created_at t.created_at)) [
      | inl newer ↦ rw newer (
          Pairwise.cons (bounds_cons t (ground arith) (λ x m. le_trans (older x m) (ground arith)))
            (Pairwise.cons older s))
      | inr later ↦ rw later (
          Pairwise.cons
            (λ x m.
              bounds_cons u (ground arith) older x ((Perm.mem_iff (insert_newest-Perm t us)).0 m))
            (insert_newest-IsNewestFirst t s))
    ]

pub newest_first-IsNewestFirst : (ts : List Task) → IsNewestFirst (newest_first ts)
unfolding newest_first
newest_first-IsNewestFirst [] = Pairwise.nil
newest_first-IsNewestFirst (t ∷ ts) = insert_newest-IsNewestFirst t (newest_first-IsNewestFirst ts)
