-- ===== src/Common/Maps.antt =====
-- Go's `map[string]V` as an association list. The list's order stands for the iteration order,
-- which Go leaves open: theorems about loops over a map hold for every order.
use Prim.Native.Nat.{◌+◌, ◌≤◌}
use mathlib.Core.Path.{◌≡◌, refl}
use mathlib.Core.Bool.{Bool, false}
use mathlib.Core.Option.{Option, none, some}
use mathlib.Core.List.{List, [], ◌∷◌, map}
use native.Mathlib.Omega.{arith}
use ozy.Common.Tests.{if◌then◌else◌, is_some}
use ozy.Common.Lists.{length}
use ozy.Common.Text.{Str, str_eq, str_eq_iff, str_eq_refl, has}

abbrev pub Map {ℓ} : Type ℓ → Type ℓ
Map V = List (Str × V)

module _ {ℓ} {V : Type ℓ} where
  abbrev pub keys : Map V → List Str
  keys = map (λ e. e.0)

  -- `v, ok := m[k]`
  unfoldable pub lookup : Str → Map V → Option V
  lookup k [] = none
  lookup k ((j, v) ∷ m) = if str_eq j k then some v else lookup k m

  -- `m[k] = v`
  unfoldable pub insert : Str → V → Map V → Map V
  insert k v [] = (k, v) ∷ []
  insert k v ((j, w) ∷ m) = if str_eq j k then (k, v) ∷ m else (j, w) ∷ insert k v m

  -- `delete(m, k)`
  unfoldable pub delete : Str → Map V → Map V
  delete k [] = []
  delete k ((j, w) ∷ m) = let rest = delete k m in if str_eq j k then rest else (j, w) ∷ rest

  unfoldable pub has_key : Str → Map V → Bool
  unfolding lookup
  has_key k m = is_some (lookup k m)

  pub lookup-insert :
      (k j : Str) (v : V) (m : Map V)
      → lookup j (insert k v m) ≡ (if str_eq k j then some v else lookup j m)
  unfolding lookup insert
  lookup-insert k j v [] = refl
  lookup-insert k j v ((i, w) ∷ m) =
      ground (arith, str_eq_iff k j, str_eq_iff i k, str_eq_iff i j, lookup-insert k j v m)

  pub lookup-delete :
      (k j : Str) (m : Map V) → lookup j (delete k m) ≡ (if str_eq k j then none else lookup j m)
  unfolding lookup delete
  lookup-delete k j [] = ground arith
  lookup-delete k j ((i, w) ∷ m) =
      ground (arith, str_eq_iff k j, str_eq_iff i k, str_eq_iff i j, lookup-delete k j m)

  -- The keys of a map are distinct: what `insert` and `delete` keep.
  abbrev pub Distinct : Map V → Type 0
  Distinct [] = Unit
  Distinct ((k, v) ∷ m) = (has_key k m ≡ false) × Distinct m

  pub insert-Distinct : (k : Str) (v : V) (m : Map V) → Distinct m → Distinct (insert k v m)
  unfolding insert lookup has_key
  insert-Distinct k v [] h = (refl, tt)
  insert-Distinct k v ((j, w) ∷ m) h =
      ground
        (arith, str_eq_iff j k, str_eq_iff k j, lookup-insert k j v m, insert-Distinct k v m h.1)

  pub delete-Distinct : (k : Str) (m : Map V) → Distinct m → Distinct (delete k m)
  unfolding delete lookup has_key
  delete-Distinct k [] h = tt
  delete-Distinct k ((j, w) ∷ m) h = ground (arith, lookup-delete k j m, delete-Distinct k m h.1)

  -- `for k, v := range m { acc[k] = v }`
  unfoldable pub insert_all : Map V → Map V → Map V
  insert_all [] acc = acc
  insert_all ((k, v) ∷ m) acc = insert_all m (insert k v acc)

  abbrev pub or_else : Option V → Option V → Option V
  or_else (some v) o = some v
  or_else none o = o

  pub lookup-insert_all :
      (j : Str) (m acc : Map V)
      → Distinct m
      → lookup j (insert_all m acc) ≡ or_else (lookup j m) (lookup j acc)
  unfolding insert_all lookup has_key
  lookup-insert_all j [] acc h = refl
  lookup-insert_all j ((k, v) ∷ m) acc h =
      ground
        (arith, lookup-insert_all j m (insert k v acc) h.1, lookup-insert k j v acc, str_eq_iff k j)

  pub length-insert-le : (k : Str) (v : V) (m : Map V) → length (insert k v m) ≤ length m + 1
  unfolding insert
  length-insert-le k v [] = omega arith
  length-insert-le k v ((j, w) ∷ m) = ground (arith, length-insert-le k v m)

  pub length-delete-le : (k : Str) (m : Map V) → length (delete k m) ≤ length m
  unfolding delete
  length-delete-le k [] = omega arith
  length-delete-le k ((j, w) ∷ m) = ground (arith, length-delete-le k m)

pub ruleset map_laws = (lookup-insert, lookup-delete, str_eq_refl)
