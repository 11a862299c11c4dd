-- ===== src/Task/Status/Machine.antt =====
-- The transition graph of status.rs: where a task ends, how long it takes, and what it passes.
use thoughtgate.Base.{ℕ, zero, suc, ◌+◌, ◌≤◌, ◌<◌, ◌≡◌, refl, ◌↔◌, true, false, arith}
use thoughtgate.Task.Status.{TaskStatus, can_transition_to, is_terminal, status_eq}

-- A status is terminal exactly when it has no successor.
pub is_terminal-final :
    (s : TaskStatus) → (is_terminal s ≡ true) ↔ ((t : TaskStatus) → can_transition_to s t ≡ false)
unfolding is_terminal can_transition_to
is_terminal-final TaskStatus.working = (λ h. cc, λ h. cc (h TaskStatus.failed))
is_terminal-final TaskStatus.input_required = (λ h. cc, λ h. cc (h TaskStatus.executing))
is_terminal-final TaskStatus.executing = (λ h. cc, λ h. cc (h TaskStatus.failed))
is_terminal-final TaskStatus.completed = (λ h t. refl, λ h. refl)
is_terminal-final _ = (λ h t. refl, λ h. refl)

-- The paths of the state machine, with the statuses that they pass, the last one first.
pub data StatusPath (s : TaskStatus) : TaskStatus → ℕ → Type 0 where
  start : StatusPath s s zero
  step :
      {t u : TaskStatus} {n : ℕ}
      → StatusPath s t n
      → can_transition_to t u ≡ true
      → StatusPath s u (suc n)

abbrev rank : TaskStatus → ℕ
rank TaskStatus.working = 0
rank TaskStatus.input_required = 1
rank TaskStatus.executing = 2
rank _ = 3

rank-lt : (s t : TaskStatus) → can_transition_to s t ≡ true → rank s < rank t
unfolding can_transition_to
rank-lt s t h = ground arith

rank-le : (s : TaskStatus) → rank s ≤ 3
rank-le s = ground arith

rank-StatusPath : {s t : TaskStatus} {n : ℕ} → StatusPath s t n → rank s + n ≤ rank t
rank-StatusPath start = omega arith
rank-StatusPath (step {t = t} {u = u} p h) = omega (arith, rank-StatusPath p, rank-lt t u h)

-- No task changes its status more than three times.
pub StatusPath-le-three : {s t : TaskStatus} {n : ℕ} → StatusPath s t n → n ≤ 3
StatusPath-le-three {t = t} p = omega (arith, rank-StatusPath p, rank-le t)

-- `status_eq` decides equality.
pub status_eq_iff : (s t : TaskStatus) → (status_eq s t ≡ true) ↔ (s ≡ t)
unfolding status_eq
status_eq_iff s t = ground arith
