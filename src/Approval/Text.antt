-- ===== src/Approval/Text.antt =====
-- `String.prototype.trim`, of which the metadata validator makes use.
use Prim.Native.Char.{Char, code}
use Prim.Native.String.{[], ◌∷◌}
use noidear.Base.{ℕ, String, Bool, true, false, ◌&&◌, ◌||◌, leb, ◌==◌, if◌then◌else◌}

-- White space and line ends of ECMAScript, by their numbers.
abbrev pub is_space : ℕ → Bool
is_space n =
    leb 9 n && leb n 13
    || n == 32
    || n == 160
    || n == 5760
    || leb 8192 n && leb n 8202
    || n == 8232
    || n == 8233
    || n == 8239
    || n == 8287
    || n == 12288
    || n == 65279

unfoldable pub trim_start : String → String
trim_start [] = []
trim_start (c ∷ s) = let rest = trim_start s in if is_space (code c) then rest else c ∷ s

abbrev cons_end : Char → String → String
cons_end c [] = if is_space (code c) then [] else c ∷ []
cons_end c (d ∷ s) = c ∷ d ∷ s

unfoldable pub trim_end : String → String
trim_end [] = []
trim_end (c ∷ s) = cons_end c (trim_end s)

unfoldable pub trim : String → String
trim s = trim_end (trim_start s)

abbrev pub is_empty : String → Bool
is_empty [] = true
is_empty (c ∷ s) = false
