-- ===== src/Prelude/Spaces.antt =====
-- White space in JavaScript strings: `trim` and the class `\s` of a regular expression.
use mathlib.Core.Bool.{Bool, ◌||◌, ◌&&◌}
use mathlib.Core.List.{[], ◌∷◌, reverse}
use Prim.Native.Nat.{ℕ}
use omp_bundler.Prelude.Tests.{leb, ◌==◌, if◌then◌else◌}
use omp_bundler.Prelude.Texts.{Text}

unfoldable pub is_space : ℕ → Bool
is_space c =
    (leb 9 c && leb c 13)
    || c == 32
    || c == 160
    || c == 0x1680
    || (leb 0x2000 c && leb c 0x200a)
    || c == 0x2028
    || c == 0x2029
    || c == 0x202f
    || c == 0x205f
    || c == 0x3000
    || c == 0xfeff

unfoldable pub trim_start : Text → Text
unfolding is_space
trim_start [] = []
trim_start (c ∷ s) = let rest = trim_start s in if is_space c then rest else c ∷ s

unfoldable pub trim : Text → Text
unfolding trim_start
trim s = reverse (trim_start (reverse (trim_start s)))
