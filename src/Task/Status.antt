-- ===== src/Task/Status.antt =====
-- thoughtgate-core/src/governance/task/status.rs: the status of a task and its state machine, and
-- the wire status of thoughtgate-core/src/protocol/task.rs.
pub mod Machine
pub mod Wire
use thoughtgate.Base.{ℕ, String, Bool, true, false, Result, ok, err, ◌==◌, str_eq, if◌then◌else◌}

pub data TaskStatus : Type 0 where
  working input_required executing completed failed rejected cancelled expired : TaskStatus

pub data Sep1686Status : Type 0 where
  working input_required completed failed cancelled : Sep1686Status

pub TaskStatus-discrete : Discrete TaskStatus
TaskStatus-discrete = hlevel

-- The derived `PartialEq` compares the discriminants.
abbrev discriminant : TaskStatus → ℕ
discriminant TaskStatus.working = 0
discriminant TaskStatus.input_required = 1
discriminant TaskStatus.executing = 2
discriminant TaskStatus.completed = 3
discriminant TaskStatus.failed = 4
discriminant TaskStatus.rejected = 5
discriminant TaskStatus.cancelled = 6
discriminant TaskStatus.expired = 7

unfoldable pub status_eq : TaskStatus → TaskStatus → Bool
status_eq s t = discriminant s == discriminant t

unfoldable pub is_terminal : TaskStatus → Bool
is_terminal TaskStatus.completed = true
is_terminal TaskStatus.failed = true
is_terminal TaskStatus.rejected = true
is_terminal TaskStatus.cancelled = true
is_terminal TaskStatus.expired = true
is_terminal _ = false

unfoldable pub is_agent_visible : TaskStatus → Bool
is_agent_visible TaskStatus.executing = false
is_agent_visible _ = true

unfoldable pub to_sep1686 : TaskStatus → String
to_sep1686 TaskStatus.working = "working"
to_sep1686 TaskStatus.executing = "working"
to_sep1686 TaskStatus.input_required = "input_required"
to_sep1686 TaskStatus.completed = "completed"
to_sep1686 TaskStatus.failed = "failed"
to_sep1686 TaskStatus.expired = "failed"
to_sep1686 TaskStatus.rejected = "failed"
to_sep1686 TaskStatus.cancelled = "cancelled"

-- `self` first, as in `from.can_transition_to(to)`.
unfoldable pub can_transition_to : TaskStatus → TaskStatus → Bool
can_transition_to TaskStatus.working TaskStatus.input_required = true
can_transition_to TaskStatus.working TaskStatus.failed = true
can_transition_to TaskStatus.working TaskStatus.expired = true
can_transition_to TaskStatus.input_required TaskStatus.executing = true
can_transition_to TaskStatus.input_required TaskStatus.rejected = true
can_transition_to TaskStatus.input_required TaskStatus.cancelled = true
can_transition_to TaskStatus.input_required TaskStatus.expired = true
can_transition_to TaskStatus.executing TaskStatus.completed = true
can_transition_to TaskStatus.executing TaskStatus.failed = true
can_transition_to _ _ = false

-- `Display`.
unfoldable pub display : TaskStatus → String
display TaskStatus.working = "working"
display TaskStatus.input_required = "input_required"
display TaskStatus.executing = "executing"
display TaskStatus.completed = "completed"
display TaskStatus.failed = "failed"
display TaskStatus.rejected = "rejected"
display TaskStatus.cancelled = "cancelled"
display TaskStatus.expired = "expired"

-- `From<TaskStatus> for Sep1686Status`.
unfoldable pub to_wire : TaskStatus → Sep1686Status
to_wire TaskStatus.working = Sep1686Status.working
to_wire TaskStatus.executing = Sep1686Status.working
to_wire TaskStatus.input_required = Sep1686Status.input_required
to_wire TaskStatus.completed = Sep1686Status.completed
to_wire TaskStatus.failed = Sep1686Status.failed
to_wire TaskStatus.rejected = Sep1686Status.failed
to_wire TaskStatus.expired = Sep1686Status.failed
to_wire TaskStatus.cancelled = Sep1686Status.cancelled

unfoldable pub wire_is_terminal : Sep1686Status → Bool
wire_is_terminal Sep1686Status.completed = true
wire_is_terminal Sep1686Status.failed = true
wire_is_terminal Sep1686Status.cancelled = true
wire_is_terminal _ = false

unfoldable pub as_str : Sep1686Status → String
as_str Sep1686Status.working = "working"
as_str Sep1686Status.input_required = "input_required"
as_str Sep1686Status.completed = "completed"
as_str Sep1686Status.failed = "failed"
as_str Sep1686Status.cancelled = "cancelled"

-- `FromStr`; the error is `ParseStatusError`, which holds the text.
unfoldable pub from_str : String → Result Sep1686Status String
from_str s =
    if str_eq s "working"
    then ok Sep1686Status.working
    else if str_eq s "input_required"
    then ok Sep1686Status.input_required
    else if str_eq s "completed"
    then ok Sep1686Status.completed
    else if str_eq s "failed"
    then ok Sep1686Status.failed
    else if str_eq s "cancelled"
    then ok Sep1686Status.cancelled
    else err s
