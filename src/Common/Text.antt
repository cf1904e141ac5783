-- ===== src/Common/Text.antt =====
-- Go's strings: sequences of bytes, with `==` and the bytewise order of `<`.
use Prim.Native.Nat.{ℕ, ◌-◌}
use Prim.Native.Char.{code}
use Prim.Native.String.{String}
use mathlib.Core.Path.{◌≡◌, refl}
use mathlib.Core.Logic.{◌↔◌}
use mathlib.Core.Bool.{Bool, true, false, ◌&&◌, ◌||◌}
use mathlib.Core.List.{List, [], ◌∷◌}
use native.Mathlib.Omega.{arith}
use ozy.Common.Tests.{ltb, leb, ◌==◌}
use ozy.Common.Lists.{length, drop}

abbrev pub Str : Type 0
Str = List ℕ

-- A literal of the source: its bytes (the literals used here are ASCII).
abbrev pub codes : String → Str
codes String.[] = []
codes (String.◌∷◌ c s) = code c ∷ codes s

unfoldable pub str_eq : Str → Str → Bool
str_eq [] [] = true
str_eq [] (y ∷ ys) = false
str_eq (x ∷ xs) [] = false
str_eq (x ∷ xs) (y ∷ ys) = (x == y) && str_eq xs ys

-- `a <= b` in Go's bytewise order.
unfoldable pub str_leb : Str → Str → Bool
str_leb [] ys = true
str_leb (x ∷ xs) [] = false
str_leb (x ∷ xs) (y ∷ ys) = ltb x y || ((x == y) && str_leb xs ys)

pub str_eq_refl : (s : Str) → str_eq s s ≡ true
unfolding str_eq
str_eq_refl [] = refl
str_eq_refl (x ∷ xs) = ground (arith, str_eq_refl xs)

str_eq→≡ : (s t : Str) → str_eq s t ≡ true → s ≡ t
unfolding str_eq
str_eq→≡ [] [] h = refl
str_eq→≡ [] (y ∷ ys) h = ground arith
str_eq→≡ (x ∷ xs) [] h = ground arith
str_eq→≡ (x ∷ xs) (y ∷ ys) h = ground (arith, str_eq→≡ xs ys)

≡→str_eq : (s t : Str) → s ≡ t → str_eq s t ≡ true
≡→str_eq s t h = rw h (str_eq_refl t)

pub str_eq_iff : (s t : Str) → (str_eq s t ≡ true) ↔ (s ≡ t)
str_eq_iff s t = (str_eq→≡ s t, ≡→str_eq s t)

pub str_leb_total : (s t : Str) → str_leb s t ≡ false → str_leb t s ≡ true
unfolding str_leb
str_leb_total [] t h = ground arith
str_leb_total (x ∷ xs) [] h = refl
str_leb_total (x ∷ xs) (y ∷ ys) h = ground (arith, str_leb_total xs ys)

pub str_leb_antisymm : (s t : Str) → str_leb s t ≡ true → str_leb t s ≡ true → s ≡ t
unfolding str_leb
str_leb_antisymm [] [] h k = refl
str_leb_antisymm [] (y ∷ ys) h k = ground arith
str_leb_antisymm (x ∷ xs) [] h k = ground arith
str_leb_antisymm (x ∷ xs) (y ∷ ys) h k = ground (arith, str_leb_antisymm xs ys)

pub str_leb_trans : (r s t : Str) → str_leb r s ≡ true → str_leb s t ≡ true → str_leb r t ≡ true
unfolding str_leb
str_leb_trans [] s t h k = refl
str_leb_trans (x ∷ xs) [] t h k = ground arith
str_leb_trans (x ∷ xs) (y ∷ ys) [] h k = ground arith
str_leb_trans (x ∷ xs) (y ∷ ys) (z ∷ zs) h k = ground (arith, str_leb_trans xs ys zs)

-- Membership of a text in a list of texts: Go's `map[string]bool` read at a key.
abbrev pub has : List Str → Str → Bool
has [] s = false
has (x ∷ xs) s = str_eq x s || has xs s

-- `strings.HasPrefix(s, p)`, with the prefix first
unfoldable pub is_prefix : Str → Str → Bool
is_prefix [] s = true
is_prefix (x ∷ p) [] = false
is_prefix (x ∷ p) (y ∷ s) = (x == y) && is_prefix p s

-- `strings.HasSuffix`
abbrev pub is_suffix : Str → Str → Bool
is_suffix suffix s =
    leb (length suffix) (length s) && str_eq (drop (length s - length suffix) s) suffix

-- `strings.Contains(s, sub)`
unfoldable pub contains : Str → Str → Bool
contains [] sub = is_prefix sub []
contains (c ∷ s) sub = is_prefix sub (c ∷ s) || contains s sub
