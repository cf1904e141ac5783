-- ===== src/Common/Ascii.antt =====
-- Go's strings.TrimSpace, strings.ToLower and the classes of characters, of ASCII texts.
use Prim.Native.Nat.{ℕ, ◌+◌}
use mathlib.Core.Bool.{Bool, ◌&&◌, ◌||◌}
use mathlib.Core.List.{[], ◌∷◌, map}
use ozy.Common.Tests.{leb, ◌==◌, if◌then◌else◌}
use ozy.Common.Text.{Str}

abbrev pub is_space : ℕ → Bool
is_space c = (leb 9 c && leb c 13) || (c == 32)

abbrev pub lower_byte : ℕ → ℕ
lower_byte c = if leb 65 c && leb c 90 then c + 32 else c

unfoldable pub trim_left : Str → Str
trim_left [] = []
trim_left (c ∷ s) = let rest = trim_left s in if is_space c then rest else c ∷ s

abbrev keep_blank : ℕ → Str → Str
keep_blank c [] = if is_space c then [] else c ∷ []
keep_blank c (d ∷ s) = c ∷ d ∷ s

unfoldable pub trim_right : Str → Str
trim_right [] = []
trim_right (c ∷ s) = keep_blank c (trim_right s)

abbrev pub trim_space : Str → Str
trim_space s = trim_right (trim_left s)

abbrev pub to_lower : Str → Str
to_lower s = map lower_byte s
