-- ===== src/Protocol/Announced.antt =====
-- What an `initialize` response says after protocol/capability.rs has changed it.
use thoughtgate.Base.{Bool, false, ◌≡◌, ◌∙◌}
use thoughtgate.Json.{Value}
use thoughtgate.Json.Maps.{IsJson}
use thoughtgate.Protocol.Injected.{
  can_advertise, inject_task_capability-IsJson, inject_task_capability-advertises,
}
use thoughtgate.Protocol.Stripped.{strip_sse_capability-silent, strip_sse_capability-tasks}
use thoughtgate.Protocol.{
  extract_upstream_task_support, extract_upstream_sse_support, inject_task_capability,
  strip_sse_capability,
}

-- What an `initialize` response announces: tasks where they can be announced, and no status of them.
pub Announces : Value → Bool → Type 0
Announces v tasks =
    (extract_upstream_task_support v ≡ tasks) × (extract_upstream_sse_support v ≡ false)

-- Whatever the upstream announces, the response that is sent on announces tasks exactly where each
-- value on the path to their capability is missing or an object, and never the status of tasks. The
-- response has distinct keys, as a parsed one has.
pub strip_sse_capability-inject_task_capability-Announces :
    (v : Value)
    → IsJson v
    → Announces (strip_sse_capability (inject_task_capability v)) (can_advertise v)
unfolding Announces
strip_sse_capability-inject_task_capability-Announces v h = (
  strip_sse_capability-tasks (inject_task_capability v) (inject_task_capability-IsJson v h)
      ∙ inject_task_capability-advertises v,
  strip_sse_capability-silent (inject_task_capability v) (inject_task_capability-IsJson v h),
)
