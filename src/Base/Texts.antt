-- ===== src/Base/Texts.antt =====
-- What the code uses of Rust's `str`: prefixes and substrings, character by character.
use Prim.Native.Char.{code}
use Prim.Native.String.{String, [], ◌∷◌}
use mathlib.Core.Bool.{Bool, true, false, ◌&&◌, ◌||◌}
use thoughtgate.Base.Tests.{◌==◌}

-- `s.starts_with(p)` is `starts_with p s`.
unfoldable pub starts_with : String → String → Bool
starts_with [] s = true
starts_with (c ∷ p) [] = false
starts_with (c ∷ p) (d ∷ s) = code c == code d && starts_with p s

-- `s.contains(p)` is `contains p s`.
unfoldable pub contains : String → String → Bool
unfolding starts_with
contains p [] = starts_with p []
contains p (c ∷ s) = starts_with p (c ∷ s) || contains p s
