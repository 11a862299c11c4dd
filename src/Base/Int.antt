-- ===== src/Base/Int.antt =====
-- Signed integers over the native numbers: `negsuc n` is -(n + 1).
use Prim.Native.Nat.{ℕ, zero, suc}
use Prim.Native.String.{String, ◌++◌}

pub data ℤ : Type 0 where
  pos : ℕ → ℤ
  negsuc : ℕ → ℤ

-- The negative of a number.
abbrev pub minus : ℕ → ℤ
minus zero = pos 0
minus (suc n) = negsuc n

-- `Display`, where `decimal` prints a natural number.
abbrev pub int_text : (ℕ → String) → ℤ → String
int_text decimal (pos n) = decimal n
int_text decimal (negsuc n) = "-" ++ decimal (suc n)
