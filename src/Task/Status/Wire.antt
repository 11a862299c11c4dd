-- ===== src/Task/Status/Wire.antt =====
-- The statuses that an agent sees: the texts of status.rs against the wire status of protocol/task.rs.
use thoughtgate.Base.{str_eq, str_eq→eq, ◌≡◌, refl, ok, String, arith, ◌↔◌}
use thoughtgate.Task.Status.{
  TaskStatus, Sep1686Status, is_terminal, to_sep1686, to_wire, wire_is_terminal, as_str, from_str,
}

from_str-as_str : (s : Sep1686Status) → from_str (as_str s) ≡ ok s
unfolding from_str as_str str_eq
from_str-as_str Sep1686Status.working = refl
from_str-as_str _ = refl

as_str_of_from_str : (t : String) (s : Sep1686Status) → from_str t ≡ ok s → t ≡ as_str s
unfolding from_str as_str
as_str_of_from_str t s h = ground (
  arith,
  str_eq→eq t "working",
  str_eq→eq t "input_required",
  str_eq→eq t "completed",
  str_eq→eq t "failed",
  str_eq→eq t "cancelled",
)

-- A text parses to a wire status exactly when it is the text of that status.
pub from_str-as_str_iff : (t : String) (s : Sep1686Status) → (from_str t ≡ ok s) ↔ (t ≡ as_str s)
from_str-as_str_iff t s = (as_str_of_from_str t s, λ h. rw h (from_str-as_str s))

-- The text that an agent reads parses back to the wire status of the task, and the agent sees a
-- terminal wire status exactly when the task is terminal.
pub from_str-to_sep1686 :
    (s : TaskStatus)
    → (from_str (to_sep1686 s) ≡ ok (to_wire s)) × (wire_is_terminal (to_wire s) ≡ is_terminal s)
unfolding from_str str_eq to_sep1686 to_wire wire_is_terminal is_terminal
from_str-to_sep1686 TaskStatus.working = (refl, refl)
from_str-to_sep1686 _ = (refl, refl)
