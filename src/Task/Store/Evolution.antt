-- ===== src/Task/Store/Evolution.antt =====
-- How the operations of store.rs move the tasks that are already there: along the state machine of
-- status.rs, and never out of a terminal status.
use thoughtgate.Base.{
  ℕ, zero, suc, ◌≡◌, sym, ◌∙◌, String, true, Option, some, ◌⊎◌, inl, inr, Result, ok, err, arith,
  Bool-cases, str_eq, str_eq→eq, subst, not, ◌&&◌,
}
use mathlib.Core.Option.{some-injective}
use thoughtgate.Base.Dict.{Dict, lookup, insert, lookup-insert}
use thoughtgate.Task.Status.{TaskStatus, is_terminal, can_transition_to, status_eq}
use thoughtgate.Task.Status.Machine.{StatusPath, start, step}
use thoughtgate.Task.Types.{Task, TaskId, TaskError, Clock}
use thoughtgate.Task.Methods
use thoughtgate.Task.Store.State.{TaskStore, TaskEntry, settle, put}
use thoughtgate.Task.Store.Changes.{conclude, conclude_terminal}

-- A status is reached from another by the transitions of the state machine.
abbrev pub Evolves : TaskStatus → TaskStatus → Type 0
Evolves s t = (n : ℕ) × StatusPath s t n

Evolves-trans : {s t u : TaskStatus} → Evolves s t → (m : ℕ) → StatusPath t u m → Evolves s u
Evolves-trans p zero start = p
Evolves-trans p (suc m) (step q h) = let (n, r) = Evolves-trans p m q in (suc n, step r h)

-- Every entry of the first map is in the second one, with a status that it can have evolved to.
abbrev pub Keeps : Dict TaskEntry → Dict TaskEntry → Type 0
Keeps d d' =
    (j : TaskId) (e : TaskEntry)
    → lookup j d ≡ some e
    → (e' : TaskEntry) × (lookup j d' ≡ some e') × Evolves e.task.status e'.task.status

pub Keeps-refl : (d : Dict TaskEntry) → Keeps d d
Keeps-refl d j e there = (e, there, (zero, start))

pub Keeps-trans : (d d' d'' : Dict TaskEntry) → Keeps d d' → Keeps d' d'' → Keeps d d''
Keeps-trans d d' d'' k k' j e there =
    let (e', there', p) = k j e there in
    let (e'', there'', (m, q)) = k' j e' there' in (e'', there'', Evolves-trans p m q)

pub insert-Keeps :
    (id : TaskId) (e e' : TaskEntry) (d : Dict TaskEntry)
    → lookup id d ≡ some e
    → Evolves e.task.status e'.task.status
    → Keeps d (insert id e' d)
insert-Keeps id e e' d there p j x at_j = elim (Bool-cases (str_eq id j)) [
  | inl same ↦ (e', rw (lookup-insert id j e' d, same), moved same)
  | inr other ↦ (x, rw (lookup-insert id j e' d, other) at_j, (zero, start))
]
  where
    moved : str_eq id j ≡ true → Evolves x.task.status e'.task.status
    moved same =
        let at_id : lookup id d ≡ some x = rw (str_eq→eq id j same) at_j in
        subst (λ y. Evolves y.task.status e'.task.status) (some-injective e x (sym there ∙ at_id)) p

transition-cases :
    (c : Clock) (st : TaskStatus) (reason : Option String) (t : Task)
    → ((Methods.transition c st reason t).0.status ≡ t.status)
      ⊎ (((Methods.transition c st reason t).0.status ≡ st)
          × (can_transition_to t.status st ≡ true))
unfolding Methods.transition
transition-cases c st reason t = ground arith

pub transition-Evolves :
    (c : Clock) (st : TaskStatus) (reason : Option String) (t : Task)
    → Evolves t.status (Methods.transition c st reason t).0.status
transition-Evolves c st reason t = elim (transition-cases c st reason t) [
  | inl same ↦ rw same (zero, start)
  | inr (moved, allowed) ↦ rw moved (suc zero, step start allowed)
]

pub transition_if-Evolves :
    (c : Clock) (old st : TaskStatus) (reason : Option String) (t : Task)
    → Evolves t.status (Methods.transition_if c old st reason t).0.status
unfolding Methods.transition_if
transition_if-Evolves c old st reason t = elim (Bool-cases (not (status_eq t.status old))) [
  | inl differs ↦ rw differs (zero, start)
  | inr agrees ↦ rw agrees (transition-Evolves c st reason t)
]

module _ (id : TaskId) (e : TaskEntry) (s : TaskStore) (there : lookup id s.tasks ≡ some e) where
  pub conclude-Keeps :
      (c : Clock) (m : Task × Result (Unit {0}) TaskError)
      → Evolves e.task.status m.0.status
      → Keeps s.tasks (conclude c id e s m).0.tasks
  unfolding conclude settle put
  conclude-Keeps c (task, err x) p = insert-Keeps id e (record e { task = task }) s.tasks there p
  conclude-Keeps c (task, ok u) p =
      elim (Bool-cases (not (is_terminal e.task.status) && is_terminal task.status)) [
        | inl ended ↦ rw ended (insert-Keeps id e _ s.tasks there p)
        | inr still ↦ rw still (insert-Keeps id e (record e { task = task }) s.tasks there p)
      ]

  pub conclude_terminal-Keeps :
      (c : Clock) (m : Task × Result (Unit {0}) TaskError)
      → Evolves e.task.status m.0.status
      → Keeps s.tasks (conclude_terminal c id e s m).0.tasks
  unfolding conclude_terminal settle put
  conclude_terminal-Keeps c (task, err x) p =
      insert-Keeps id e (record e { task = task }) s.tasks there p
  conclude_terminal-Keeps c (task, ok u) p = insert-Keeps id e _ s.tasks there p
