-- ===== src/Prelude/Text.antt =====
-- `str.strip`: the characters for which `str.isspace` holds go from both ends.
use Prim.Native.Nat.{ℕ}
use Prim.Native.Char.{code}
use Prim.Native.String.{String, [], ◌∷◌}
use text.Mathlib.Text.{◌==◌ as str_eq}
use mathlib.Core.Bool.{Bool, ◌&&◌, ◌||◌}
use paybond_kit_python.Prelude.Tests.{◌==◌, leb, if◌then◌else◌}

is_space : ℕ → Bool
is_space c =
    (leb 9 c && leb c 13)
    || (leb 28 c && leb c 32)
    || c == 133
    || c == 160
    || c == 5760
    || (leb 8192 c && leb c 8202)
    || (leb 8232 c && leb c 8233)
    || c == 8239
    || c == 8287
    || c == 12288

strip_left : String → String
strip_left [] = []
strip_left (c ∷ s) = let rest = strip_left s in if is_space (code c) then rest else c ∷ s

strip_right : String → String
strip_right [] = []
strip_right (c ∷ s) =
    let rest = strip_right s in if is_space (code c) && str_eq rest "" then [] else c ∷ rest

unfoldable pub strip : String → String
unfolding is_space strip_left strip_right
strip s = strip_right (strip_left s)
