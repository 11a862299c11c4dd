-- ===== src/Lifecycle/Requests.antt =====
-- The requests that lifecycle/mod.rs counts, over the threads that share the manager: `track_request`
-- reads the state in one step and raises the counter in another, and other threads act between.
use thoughtgate.Base.{
  ℕ, suc, ◌+◌, ◌%◌, ◌≤◌, ◌≡◌, refl, ◌∙◌, Bool, true, false, String, Option, arith, usize_end, ap,
  sym, ◌⊎◌, inl, inr,
}
use thoughtgate.Lifecycle.Config.{LifecycleConfig}
use thoughtgate.Lifecycle.Manager.{
  LifecycleManager, LifecycleState, new, is_shutting_down, raise_active, drop_guard, mark_ready,
  mark_config_loaded, mark_approval_store_initialized, update_upstream_health, begin_shutdown,
  mark_stopped, Gauges, set_metrics,
}

-- The manager, the threads that have read a state which admits them and have not yet raised the
-- counter, and the guards that are alive.
pub record System : Type 0 where
  pub manager : LifecycleManager
  pub entering : ℕ
  pub guards : ℕ

-- What the other operations do to the manager.
pub data Change : LifecycleManager → LifecycleManager → Type 0 where
  metrics_set : {m : LifecycleManager} (g : Gauges) → Change m (set_metrics g m)
  readied : {m : LifecycleManager} → Change m (mark_ready m)
  config_marked : {m : LifecycleManager} → Change m (mark_config_loaded m)
  store_marked : {m : LifecycleManager} → Change m (mark_approval_store_initialized m)
  health_updated :
      {m : LifecycleManager} (healthy : Bool) (error : Option String) (now : ℕ)
      → Change m (update_upstream_health healthy error now m)
  shutdown_begun : {m : LifecycleManager} → Change m (begin_shutdown m)
  stopped_marked : {m : LifecycleManager} → Change m (mark_stopped m)

abbrev pub with_manager : LifecycleManager → System → System
with_manager m s = record s { manager = m }

pub data Step : System → System → Type 0 where
  reads :
      {s : System}
      → is_shutting_down s.manager.state ≡ false
      → Step s (record s { entering = suc s.entering })
  enters :
      {s : System} {n : ℕ}
      → s.entering ≡ suc n
      → Step s (record { manager = raise_active s.manager; entering = n; guards = suc s.guards })
  drops :
      {s : System} {n : ℕ}
      → s.guards ≡ suc n
      → Step s (record s { manager = drop_guard s.manager; guards = n })
  changes : {s : System} {m : LifecycleManager} → Change s.manager m → Step s (with_manager m s)

pub data Steps : System → System → Type 0 where
  stay : {s : System} → Steps s s
  go : {s t u : System} → Steps s t → Step t u → Steps s u

abbrev pub initial : LifecycleConfig → String → ℕ → System
initial c version now = record { manager = new c version now; entering = 0; guards = 0 }

pub IsCounted : System → Type 0
IsCounted s = s.manager.active_requests ≡ s.guards % usize_end

Change-active : {m n : LifecycleManager} → Change m n → n.active_requests ≡ m.active_requests
unfolding set_metrics mark_ready mark_config_loaded mark_approval_store_initialized
    update_upstream_health begin_shutdown mark_stopped
Change-active (metrics_set g) = refl
Change-active readied = refl
Change-active config_marked = refl
Change-active store_marked = refl
Change-active (health_updated h e now) = refl
Change-active shutdown_begun = refl
Change-active stopped_marked = refl

Step-IsCounted : {s t : System} → Step s t → IsCounted s → IsCounted t
unfolding IsCounted raise_active drop_guard
Step-IsCounted (reads admitting) counted = counted
Step-IsCounted (enters h) counted = omega (arith, counted)
Step-IsCounted (drops h) counted = omega (arith, counted)
Step-IsCounted (changes c) counted = Change-active c ∙ counted

Steps-IsCounted : {s t : System} → Steps s t → IsCounted s → IsCounted t
Steps-IsCounted stay counted = counted
Steps-IsCounted (go steps step) counted = Step-IsCounted step (Steps-IsCounted steps counted)

-- However the threads interleave, the counter is the number of the guards that are alive, up to the
-- wrap-around of `usize`; so the drain sees zero only where no guard is, or 2 ^ 64 of them.
pub Steps-counted :
    (c : LifecycleConfig) (version : String) (now : ℕ) {s : System}
    → Steps (initial c version now) s
    → s.manager.active_requests ≡ s.guards % usize_end
unfolding IsCounted new
Steps-counted c version now steps = Steps-IsCounted steps refl

-- The two states in which no request is to be let in.
abbrev pub IsClosed : LifecycleState → Type 0
IsClosed s = (s ≡ LifecycleState.shutting_down) ⊎ (s ≡ LifecycleState.stopped)

IsClosed-is_shutting_down : (s : LifecycleState) → IsClosed s → is_shutting_down s ≡ true
unfolding is_shutting_down
IsClosed-is_shutting_down s (inl h) = ap is_shutting_down h
IsClosed-is_shutting_down s (inr h) = ap is_shutting_down h

-- The steps of a system that is closed all the while.
pub data Draining : System → System → Type 0 where
  stay : {s : System} → Draining s s
  go : {s t u : System} → Draining s t → IsClosed t.manager.state → Step t u → Draining s u

true-ne-false : ¬ (true ≡ false)
true-ne-false h = cc

Step-no_more :
    {s t : System}
    → IsClosed s.manager.state
    → Step s t
    → t.entering + t.guards ≤ s.entering + s.guards
Step-no_more {s} down (reads admitting) =
    elim (true-ne-false (sym (IsClosed-is_shutting_down s.manager.state down) ∙ admitting)) [ ]
Step-no_more down (enters h) = omega arith
Step-no_more down (drops h) = omega arith
Step-no_more down (changes c) = omega arith

-- While the state stays `ShuttingDown` or `Stopped`, the guards together with the threads that may
-- still get one never become more.
pub Draining-no_more : {s t : System} → Draining s t → t.entering + t.guards ≤ s.entering + s.guards
Draining-no_more Draining.stay = omega arith
Draining-no_more (Draining.go steps down step) =
    omega (arith, Draining-no_more steps, Step-no_more down step)
