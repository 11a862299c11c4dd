-- ===== src/Lifecycle/Drain.antt =====
-- `drain_requests` of lifecycle/mod.rs: the loop over its polls. A poll is what the loop reads: the
-- counter, and the time at which it compares with the deadline. The list of polls is what the rest of
-- the system and the clock present; where it ends, the loop still sleeps.
use thoughtgate.Base.{
  ℕ, ◌+◌, ◌*◌, ◌≤◌, ◌<◌, Option, none, some, List, [], ◌∷◌, ◌++◌, ◌≡◌, ◌≢◌, refl, ltb, ◌==◌,
  if◌then◌else◌, All, arith, ◌⊎◌, ap, inl, inr, Option-cases, Bool-cases, length,
}

pub data DrainResult : Type 0 where
  complete : DrainResult
  timeout : (remaining : ℕ) → DrainResult

pub record Poll : Type 0 where
  pub active : ℕ
  pub now : ℕ

unfoldable pub drain_loop : ℕ → List Poll → Option DrainResult
drain_loop deadline [] = none
drain_loop deadline (p ∷ polls) =
    let rest = drain_loop deadline polls in
    if p.active == 0
    then some DrainResult.complete
    else if ltb deadline p.now
    then some (DrainResult.timeout p.active)
    else rest

-- `start` is the time of the call.
unfoldable pub drain_requests : ℕ → ℕ → List Poll → Option DrainResult
unfolding drain_loop
drain_requests drain_timeout start polls = drain_loop (start + drain_timeout) polls

-- A poll at which the loop sleeps on.
abbrev pub IsWaiting : ℕ → Poll → Type 0
IsWaiting deadline p = (0 < p.active) × (p.now ≤ deadline)

-- The poll that ends the loop, after polls that do not, with what it answers.
pub record Ends (deadline : ℕ) (polls : List Poll) (r : DrainResult) : Type 0 where
  pub before : List Poll
  pub last : Poll
  pub after : List Poll
  pub split_at : polls ≡ before ++ last ∷ after
  pub waited : All (IsWaiting deadline) before
  pub answered :
      ((last.active ≡ 0) × (r ≡ DrainResult.complete))
      ⊎ ((0 < last.active) × (deadline < last.now) × (r ≡ DrainResult.timeout last.active))

-- The polls come in the order of time, each at least 100 ms after the one before: the loop sleeps.
abbrev pub tick : ℕ
tick = 100_000_000

unfoldable pub Spaced : ℕ → List Poll → Type 0
Spaced from [] = Unit
Spaced from (p ∷ polls) = (from ≤ p.now) × Spaced (p.now + tick) polls

-- While the loop sleeps, the polls cannot have taken more than the drain timeout and one sleep.
drain_loop-sleeping :
    (d from : ℕ) (polls : List Poll)
    → Spaced from polls
    → drain_loop d polls ≡ none
    → from ≤ d + tick
    → from + tick * length polls ≤ d + tick
unfolding drain_loop Spaced
drain_loop-sleeping d from [] spaced h start = omega arith
drain_loop-sleeping d from (p ∷ polls) spaced h start =
    ground (arith, drain_loop-sleeping d (p.now + tick) polls spaced.1)

abbrev wait :
    (d : ℕ) (p : Poll) (polls : List Poll) (r : DrainResult)
    → IsWaiting d p
    → Ends d polls r
    → Ends d (p ∷ polls) r
wait d p polls r waiting e = record {
  before = p ∷ e.before;
  last = e.last;
  after = e.after;
  split_at = ap (λ l. p ∷ l) e.split_at;
  waited = (waiting, e.waited);
  answered = e.answered;
}

abbrev stop :
    (d : ℕ) (p : Poll) (polls : List Poll) (r : DrainResult)
    → ((p.active ≡ 0) × (r ≡ DrainResult.complete))
      ⊎ ((0 < p.active) × (d < p.now) × (r ≡ DrainResult.timeout p.active))
    → Ends d (p ∷ polls) r
stop d p polls r answered = record {
  before = [];
  last = p;
  after = polls;
  split_at = refl;
  waited = tt;
  answered = answered;
}

drain_loop-Ends :
    (d : ℕ) (polls : List Poll) (r : DrainResult) → drain_loop d polls ≡ some r → Ends d polls r
unfolding drain_loop
drain_loop-Ends d [] r h = ground arith
drain_loop-Ends d (p ∷ polls) r h = elim (Bool-cases (p.active == 0)) [
  | inl idle ↦ stop d p polls r (inl (ground arith))
  | inr busy ↦ elim (Bool-cases (ltb d p.now)) [
    | inl late ↦ stop d p polls r (inr (ground arith))
    | inr early ↦ wait d p polls r (ground arith) (drain_loop-Ends d polls r (ground arith))
  ]
]

not_sleeping :
    (d start : ℕ) (polls : List Poll)
    → Spaced start polls
    → d + tick < tick * length polls
    → drain_loop (start + d) polls ≢ none
not_sleeping d start polls spaced enough sleeping =
    omega (arith, drain_loop-sleeping (start + d) start polls spaced sleeping (omega arith))

-- Where the polls are 100 ms apart and more than the drain timeout and a sleep allow, the loop
-- answers; it answers at the first poll at which no request is active, with `Complete`, or the
-- deadline has passed, with the number of requests that are active; and it sleeps at every poll before.
pub drain_requests-Ends :
    (drain_timeout start : ℕ) (polls : List Poll)
    → Spaced start polls
    → drain_timeout + tick < tick * length polls
    → (r : DrainResult) × (drain_requests drain_timeout start polls ≡ some r)
      × Ends (start + drain_timeout) polls r
unfolding drain_requests
drain_requests-Ends drain_timeout start polls spaced enough =
    elim (Option-cases (drain_loop (start + drain_timeout) polls)) [
      | inl sleeping ↦ elim (not_sleeping drain_timeout start polls spaced enough sleeping) [ ]
      | inr (r, h) ↦ (r, h, drain_loop-Ends (start + drain_timeout) polls r h)
    ]
