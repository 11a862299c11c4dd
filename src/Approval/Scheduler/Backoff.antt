-- ===== src/Approval/Scheduler/Backoff.antt =====
-- The back-off of governance/approval/mod.rs.
use thoughtgate.Base.{ℕ, zero, suc, ◌*◌, ◌^◌, ◌≤◌, ◌<◌, min, ◌≡◌, refl, arith, ◌⊎◌, inl, inr, ap}
use thoughtgate.Approval.Scheduler.{PollingConfig, backoff_interval, duration_max}

-- The interval after a number of polls, by cases.
Steps : PollingConfig → ℕ → ℕ → Type 0
Steps c n t =
    ((n ≡ 0) × (t ≡ min (min duration_max c.base_interval) c.max_interval))
    ⊎ (((n ≡ 1) × (t ≡ min (min duration_max (c.base_interval * 2)) c.max_interval))
        ⊎ (((n ≡ 2) × (t ≡ min (min duration_max (c.base_interval * 4)) c.max_interval))
            ⊎ ((3 ≤ n) × (t ≡ min (min duration_max (c.base_interval * 8)) c.max_interval))))

backoff_interval-Steps : (c : PollingConfig) (n : ℕ) → Steps c n (backoff_interval c n)
unfolding backoff_interval Steps
backoff_interval-Steps c zero = inl (refl, omega arith)
backoff_interval-Steps c (suc zero) = inr (inl (refl, refl))
backoff_interval-Steps c (suc (suc zero)) = inr (inr (inl (refl, refl)))
backoff_interval-Steps c (suc (suc (suc n))) =
    let e : min (suc (suc (suc n))) 3 ≡ 3 = omega arith in
    inr (
      inr (
        inr (
          omega arith,
          ap (λ k. min (min duration_max (c.base_interval * 2 ^ k)) c.max_interval) e,
        )))

Progress : PollingConfig → ℕ → ℕ → Type 0
Progress c n m =
    ((n < 3) × (backoff_interval c (suc n) ≡ min (2 * backoff_interval c n) c.max_interval))
    ⊎ ((3 ≤ n) × (backoff_interval c m ≡ backoff_interval c n))

-- From one interval to the next, where the longest interval is a duration.
progress : (c : PollingConfig) (n m : ℕ) → c.max_interval ≤ duration_max → n ≤ m → Progress c n m
unfolding Progress Steps
progress c zero m high le =
    inl (omega arith, ground (arith, backoff_interval-Steps c 0, backoff_interval-Steps c 1))
progress c (suc zero) m high le =
    inl (omega arith, ground (arith, backoff_interval-Steps c 1, backoff_interval-Steps c 2))
progress c (suc (suc zero)) m high le =
    inl (omega arith, ground (arith, backoff_interval-Steps c 2, backoff_interval-Steps c 3))
progress c (suc (suc (suc n))) m high le = inr (
  omega arith,
  ground (arith, backoff_interval-Steps c (suc (suc (suc n))), backoff_interval-Steps c m),
)

-- Where the base interval is at most the longest one, and that is a duration, each interval is between
-- the two, and no interval is shorter than one before it. After fewer than three polls the next interval
-- is twice the last, or the longest one if that is less; from three on the intervals stay the same.
pub backoff_interval-bounds :
    (c : PollingConfig) (n m : ℕ)
    → c.base_interval ≤ c.max_interval
    → c.max_interval ≤ duration_max
    → n ≤ m
    → (c.base_interval ≤ backoff_interval c n)
      × (backoff_interval c n ≤ backoff_interval c m)
      × (backoff_interval c m ≤ c.max_interval)
      × (((n < 3) × (backoff_interval c (suc n) ≡ min (2 * backoff_interval c n) c.max_interval))
          ⊎ ((3 ≤ n) × (backoff_interval c m ≡ backoff_interval c n)))
unfolding Steps Progress
backoff_interval-bounds c n m low high le = (
  ground (arith, backoff_interval-Steps c n, backoff_interval-Steps c m),
  ground (arith, backoff_interval-Steps c n, backoff_interval-Steps c m),
  ground (arith, backoff_interval-Steps c n, backoff_interval-Steps c m),
  progress c n m high le,
)
