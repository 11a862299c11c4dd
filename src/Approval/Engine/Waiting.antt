-- ===== src/Approval/Engine/Waiting.antt =====
-- How the loop of `wait_and_execute` of governance/engine.rs ends.
use thoughtgate.Base.{
  ℕ, ◌+◌, ◌≤◌, ◌<◌, arith, String, true, false, Option, none, some, List, [], ◌∷◌, ◌++◌, ok, ◌≡◌,
  refl, ◌≢◌, ◌⊎◌, inl, inr, Bool-cases, sym, ap, ◌∙◌, leb,
}
use thoughtgate.Task.Types.{TaskId, ToolCallResult}
use thoughtgate.Task.Helpers.{as_secs}
use thoughtgate.Approval.Engine.{ApprovalEngine, EngineState}
use thoughtgate.Approval.Engine.Execute.{Reply, execute_on_result}
use thoughtgate.Approval.Engine.Wait.{
  Round, timed_out_result, poll_answer, Waited, after_poll, wait_loop, wait_and_execute,
}
use thoughtgate.Approval.Engine.Polled.{Settles, execute_on_result-Settles}

-- The state after rounds that were before the deadline and whose polls have left the call waiting, and
-- have sent nothing.
pub data Unanswered (v : ApprovalEngine) (id : TaskId) (deadline : ℕ)
    : List Round → EngineState → EngineState → Type 0 where
  none_yet : {s : EngineState} → Unanswered v id deadline [] s s
  go_on :
      {r : Round} {rs : List Round} {s u : EngineState}
      → r.tested_at < deadline
      → (execute_on_result v r.poll id (r.before_poll s)).1 ≡ []
      → poll_answer v.pipeline.decimal (execute_on_result v r.poll id (r.before_poll s)).2 ≡ none
      → Unanswered v id deadline rs (execute_on_result v r.poll id (r.before_poll s)).0 u
      → Unanswered v id deadline (r ∷ rs) s u

-- How the last round ends a wait: it comes at the deadline or later, nothing is sent, and the answer is
-- an error result; or it comes before, its poll is answered, and what is sent is what this poll sends.
abbrev pub LastRound :
    ApprovalEngine → TaskId → ℕ → ToolCallResult → Round → EngineState → Waited → Type 0
LastRound v id deadline at_timeout r u w =
    ((deadline ≤ r.tested_at) × (at_timeout.is_error ≡ true) × (w ≡ (u, [], some (ok at_timeout))))
    ⊎ ((r.tested_at < deadline)
        × (x : Reply) × (poll_answer v.pipeline.decimal
              (execute_on_result v r.poll id (r.before_poll u)).2
            ≡ some x)
        × (w ≡ (
          (execute_on_result v r.poll id (r.before_poll u)).0,
          (execute_on_result v r.poll id (r.before_poll u)).1,
          some x,
        )))

-- The rounds of a wait up to the one that ends it.
pub record Ends (v : ApprovalEngine) (id : TaskId) (deadline : ℕ) (at_timeout : ToolCallResult)
    (rounds : List Round) (s : EngineState) (w : Waited) : Type 0 where
  pub before : List Round
  pub last : Round
  pub after : List Round
  pub in_order : rounds ≡ before ++ (last ∷ after)
  pub state : EngineState
  pub unanswered : Unanswered v id deadline before s state
  pub ended : LastRound v id deadline at_timeout last state w

-- Some round comes after the deadline.
pub data Late (deadline : ℕ) : List Round → Type 0 where
  here : {r : Round} {rs : List Round} → leb deadline r.tested_at ≡ true → Late deadline (r ∷ rs)
  later : {r : Round} {rs : List Round} → Late deadline rs → Late deadline (r ∷ rs)

none-ne-some {ℓ} : {A : Type ℓ} {a : A} → ◌≢◌ {A = Option A} none (some a)
none-ne-some h = cc

pub Ends-answered :
    (v : ApprovalEngine) (id : TaskId) (deadline : ℕ) (at_timeout : ToolCallResult)
    (rounds : List Round) (s : EngineState) (w : Waited)
    → Ends v id deadline at_timeout rounds s w
    → (x : Reply) × (w.2 ≡ some x)
Ends-answered v id deadline at_timeout rounds s w ends = elim ends.ended [
  | inl (late, failed, same) ↦ (ok at_timeout, ap (λ (w : Waited). w.2) same)
  | inr (early, x, answered, same) ↦ (x, ap (λ (w : Waited). w.2) same)
]

before_deadline : (deadline at : ℕ) → leb deadline at ≡ false → at < deadline
before_deadline deadline at h = ground arith

at_deadline : (deadline at : ℕ) → leb deadline at ≡ true → deadline ≤ at
at_deadline deadline at h = ground arith

module _ (v : ApprovalEngine) (id : TaskId) (deadline : ℕ) (at_timeout : ToolCallResult) where
  late_round :
      (r : Round) (rounds : List Round) (s : EngineState)
      → at_timeout.is_error ≡ true
      → leb deadline r.tested_at ≡ true
      → Ends v id deadline at_timeout (r ∷ rounds) s (s, [], some (ok at_timeout))
  late_round r rounds s failed e = record {
    before = [];
    last = r;
    after = rounds;
    in_order = refl;
    state = s;
    unanswered = none_yet;
    ended = inl (at_deadline deadline r.tested_at e, failed, refl);
  }

  -- One round more before the rest.
  earlier_round :
      (r : Round) (rounds : List Round) (s : EngineState) (w : Waited)
      → let run = execute_on_result v r.poll id (r.before_poll s) in
        leb deadline r.tested_at ≡ false
        → run.1 ≡ []
        → poll_answer v.pipeline.decimal run.2 ≡ none
        → Ends v id deadline at_timeout rounds run.0 w
        → Ends v id deadline at_timeout (r ∷ rounds) s (w.0, run.1 ++ w.1, w.2)
  earlier_round r rounds s w e nothing unanswered ends = rw nothing (record {
    before = r ∷ ends.before;
    last = ends.last;
    after = ends.after;
    in_order = ap (λ l. r ∷ l) ends.in_order;
    state = ends.state;
    unanswered = go_on (before_deadline deadline r.tested_at e) nothing unanswered ends.unanswered;
    ended = ends.ended;
  })

  polled_round :
      (r : Round) (rounds : List Round) (s : EngineState) (next : EngineState → Waited)
      (o : Option Reply)
      → let run = execute_on_result v r.poll id (r.before_poll s) in
        leb deadline r.tested_at ≡ false
        → poll_answer v.pipeline.decimal run.2 ≡ o
        → Settles v run
        → Ends v id deadline at_timeout rounds run.0 (next run.0)
        → Ends v id deadline at_timeout (r ∷ rounds) s (after_poll run o next)
  polled_round r rounds s next (some x) e answered settles ends = record {
    before = [];
    last = r;
    after = rounds;
    in_order = refl;
    state = s;
    unanswered = none_yet;
    ended = inr (before_deadline deadline r.tested_at e, x, answered, refl);
  }
  polled_round r rounds s next none e answered (inl nothing) ends =
      earlier_round r rounds s _ e nothing answered ends
  polled_round r rounds s next none e answered (inr (x, h)) ends =
      elim (none-ne-some (sym answered ∙ h)) [ ]

  wait_loop-Ends :
      (rounds : List Round) (s : EngineState)
      → at_timeout.is_error ≡ true
      → Late deadline rounds
      → Ends v id deadline at_timeout rounds s (wait_loop v id (ok at_timeout) deadline rounds s)
  unfolding wait_loop
  wait_loop-Ends [] s failed late = elim late [ ]
  wait_loop-Ends (r ∷ rounds) s failed (here e) = rw e (late_round r rounds s failed e)
  wait_loop-Ends (r ∷ rounds) s failed (later late) = elim (Bool-cases (leb deadline r.tested_at)) [
    | inl e ↦ rw e (late_round r rounds s failed e)
    | inr e ↦ rw e (
        polled_round r rounds s (wait_loop v id (ok at_timeout) deadline rounds) _ e refl
          (execute_on_result-Settles v r.poll id (r.before_poll s))
          (wait_loop-Ends rounds _ failed late))
  ]

pub wait_and_execute-Ends :
    (v : ApprovalEngine) (id : TaskId) (tool : String) (start timeout : ℕ) (rounds : List Round)
    (s : EngineState)
    → Late (start + timeout) rounds
    → Ends v id
        (start + timeout)
        (timed_out_result v.pipeline.decimal (as_secs timeout) tool)
        rounds
        s
        (wait_and_execute v id tool start timeout rounds s)
unfolding wait_and_execute timed_out_result
wait_and_execute-Ends v id tool start timeout rounds s late =
    wait_loop-Ends v id (start + timeout) _ rounds s refl late
