-- ===== src/Tests/Handlers.antt =====
-- The methods `tasks/*` at concrete inputs.
use Prim.Native.String.{len, ◌++◌}
use text.Mathlib.TextPositions.{len-append}
use thoughtgate.Base.{
  ap, ℕ, zero, suc, ◌≤◌, ◌<◌, String, none, some, [], ◌∷◌, ◌≡◌, refl, length, usize_end, arith,
  str_eq,
}
use thoughtgate.Base.Dict.{lookup}
use thoughtgate.Task.Status.{TaskStatus}
use thoughtgate.Task.Store.State.{TaskStore, new}
use thoughtgate.Task.Store.Queries.{found, newest_first, insert_newest}
use thoughtgate.Task.Methods.{rate_limit_key}
use thoughtgate.Task.Handlers.{Cursors}
use thoughtgate.Task.Handlers.Paging.{follow, tasks_of}
use thoughtgate.Task.Handlers.Ordered.{Reads, follow-Reads}
use thoughtgate.Tests.Store.{agent}
use thoughtgate.Tests.Approval.{state}

abbrev store : TaskStore
store = record (state TaskStatus.completed none).task_store {
  by_principal = ("agent", "tg_1" ∷ []) ∷ [];
}

-- Numbers in the unary system, as a stand-in for decimals.
abbrev print : ℕ → String
print zero = ""
print (suc n) = "1" ++ print n

len-print : (n : ℕ) → len (print n) ≡ n
len-print zero = refl
len-print (suc n) = omega (arith, len-append "1" (print n), len-print n)

abbrev pub unary : Cursors
unary = record { print = print; parse = λ s. some (len s) }

unary_law : (k : ℕ) → k < usize_end → unary.parse (unary.print k) ≡ some k
unary_law k h = ap some (len-print k)

few : length (tasks_of agent store) ≤ 1
unfolding rate_limit_key lookup str_eq found newest_first insert_newest new
few = omega arith

follow-Reads_example : Reads ("tg_1" ∷ []) store (follow unary agent store 1 none)
unfolding rate_limit_key lookup str_eq
follow-Reads_example =
    follow-Reads unary agent store 1 unary_law (omega (arith, few)) (omega (arith, few))
