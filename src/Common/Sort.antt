-- ===== src/Common/Sort.antt =====
-- `sort.Strings` and `sort.Slice` by a key: insertion into a sorted list, stable.
use Prim.Native.Nat.{◌+◌}
use ozy.Common.Lists.{length, All}
use mathlib.Core.Path.{ap, ◌≡◌, refl, ◌∙◌}
use mathlib.Core.Logic.{∥∥₁_elim, inl, inr}
use mathlib.Core.Bool.{Bool, true, false}
use mathlib.Core.List.{List, [], ◌∷◌, Perm, Permᴰ}
use mathlib.Core.List.Perm
use native.Mathlib.Omega.{arith}
use ozy.Common.Tests.{if◌then◌else◌, Bool-cases}
use ozy.Common.Text.{Str, str_leb, str_leb_total, str_leb_antisymm, str_leb_trans}

module _ {ℓ} {A : Type ℓ} (leq : A → A → Bool) where
  unfoldable pub insert_by : A → List A → List A
  insert_by a [] = a ∷ []
  insert_by a (x ∷ xs) = if leq a x then a ∷ x ∷ xs else x ∷ insert_by a xs

  unfoldable pub sort_by : List A → List A
  unfolding insert_by
  sort_by [] = []
  sort_by (x ∷ xs) = insert_by x (sort_by xs)

  pub insert_by-perm : (a : A) (xs : List A) → Perm (insert_by a xs) (a ∷ xs)
  unfolding insert_by
  insert_by-perm a [] = Perm.refl _
  insert_by-perm a (x ∷ xs) = elim (Bool-cases (leq a x)) [
    | inl h ↦ rw h (Perm.refl _)
    | inr h ↦ rw h (Perm.trans (Perm.cons x (insert_by-perm a xs)) (Perm.swap a x xs))
  ]

  pub sort_by-perm : (xs : List A) → Perm (sort_by xs) xs
  unfolding sort_by
  sort_by-perm [] = Perm.refl _
  sort_by-perm (x ∷ xs) = Perm.trans (insert_by-perm x (sort_by xs)) (Perm.cons x (sort_by-perm xs))

module _ {ℓ κ} {A : Type ℓ} (P : A → Type κ) (leq : A → A → Bool) where
  All-insert_by : (a : A) (xs : List A) → P a → All P xs → All P (insert_by leq a xs)
  unfolding insert_by
  All-insert_by a [] p h = (p, tt)
  All-insert_by a (x ∷ xs) p h = elim (Bool-cases (leq a x)) [
    | inl e ↦ rw e (p, h)
    | inr e ↦ rw e (h.0, All-insert_by a xs p h.1)
  ]

  insert_by-All : (a : A) (xs : List A) → All P (insert_by leq a xs) → P a × All P xs
  unfolding insert_by
  insert_by-All a [] h = h
  insert_by-All a (x ∷ xs) h = ground (arith, insert_by-All a xs)

  pub All-sort_by : (xs : List A) → All P xs → All P (sort_by leq xs)
  unfolding sort_by
  All-sort_by [] h = tt
  All-sort_by (x ∷ xs) h = All-insert_by x (sort_by leq xs) h.0 (All-sort_by xs h.1)

  pub sort_by-All : (xs : List A) → All P (sort_by leq xs) → All P xs
  unfolding sort_by
  sort_by-All [] h = tt
  sort_by-All (x ∷ xs) h = let k = insert_by-All x (sort_by leq xs) h in (k.0, sort_by-All xs k.1)

module _ {ℓ} {A : Type ℓ} (leq : A → A → Bool) where
  length-insert_by : (a : A) (xs : List A) → length (insert_by leq a xs) ≡ length xs + 1
  unfolding insert_by
  length-insert_by a [] = omega arith
  length-insert_by a (x ∷ xs) = ground (arith, length-insert_by a xs)

  pub length-sort_by : (xs : List A) → length (sort_by leq xs) ≡ length xs
  unfolding sort_by
  length-sort_by [] = refl
  length-sort_by (x ∷ xs) = omega (arith, length-insert_by x (sort_by leq xs), length-sort_by xs)

  pub sort_by-eq-nil : (xs : List A) → sort_by leq xs ≡ [] → xs ≡ []
  sort_by-eq-nil [] h = refl
  sort_by-eq-nil (x ∷ xs) h = absurd (omega (arith, ap length h, length-sort_by (x ∷ xs)))

-- Adjacent elements stand in order.
abbrev pub Sorted {ℓ} : {A : Type ℓ} → (A → A → Bool) → List A → Type 0
Sorted leq [] = Unit
Sorted leq (x ∷ []) = Unit
Sorted leq (x ∷ y ∷ r) = (leq x y ≡ true) × Sorted leq (y ∷ r)

module _ {ℓ} {A : Type ℓ} (leq : A → A → Bool)
    (total : (a b : A) → leq a b ≡ false → leq b a ≡ true) where
  insert_by-Sorted : (a : A) (xs : List A) → Sorted leq xs → Sorted leq (insert_by leq a xs)
  unfolding insert_by
  insert_by-Sorted a [] h = tt
  insert_by-Sorted a (x ∷ []) h = ground (arith, total a x)
  insert_by-Sorted a (x ∷ y ∷ r) h =
      ground (arith, total a x, total a y, insert_by-Sorted a (y ∷ r) h.1)

  pub sort_by-Sorted : (xs : List A) → Sorted leq (sort_by leq xs)
  unfolding sort_by
  sort_by-Sorted [] = tt
  sort_by-Sorted (x ∷ xs) = insert_by-Sorted x (sort_by leq xs) (sort_by-Sorted xs)

  insert_by_of_Sorted : (a : A) (xs : List A) → Sorted leq (a ∷ xs) → insert_by leq a xs ≡ a ∷ xs
  unfolding insert_by
  insert_by_of_Sorted a [] h = refl
  insert_by_of_Sorted a (x ∷ xs) h = ground arith

  -- A sorted list is left as it is: the sort is stable.
  pub sort_by_of_Sorted : (xs : List A) → Sorted leq xs → sort_by leq xs ≡ xs
  unfolding sort_by
  sort_by_of_Sorted [] h = refl
  sort_by_of_Sorted (x ∷ []) h = refl
  sort_by_of_Sorted (x ∷ y ∷ r) h =
      rw (sort_by_of_Sorted (y ∷ r) h.1) (insert_by_of_Sorted x (y ∷ r) h)

abbrev pub sort_strings : List Str → List Str
sort_strings = sort_by str_leb

insert_str_comm :
    (a b : Str) (xs : List Str)
    → insert_by str_leb a (insert_by str_leb b xs) ≡ insert_by str_leb b (insert_by str_leb a xs)
unfolding insert_by
insert_str_comm a b [] = ground (arith, str_leb_total a b, str_leb_total b a, str_leb_antisymm a b)
insert_str_comm a b (x ∷ xs) = ground (
  arith,
  str_leb_total a b,
  str_leb_total b a,
  str_leb_antisymm a b,
  str_leb_trans a b x,
  str_leb_trans b a x,
  insert_str_comm a b xs,
)

sort_perm_d : {xs ys : List Str} → Permᴰ xs ys → sort_strings xs ≡ sort_strings ys
unfolding sort_by
sort_perm_d Permᴰ.nil = refl
sort_perm_d (Permᴰ.cons {a = a} e p) = cc (e, sort_perm_d p)
sort_perm_d (Permᴰ.swap {a = a} {b = b} {l = l} e f) =
    rw (← e, ← f) (insert_str_comm a b (sort_strings l))
sort_perm_d (Permᴰ.trans p q) = sort_perm_d p ∙ sort_perm_d q

Strs-set : IsSet (List Str)
Strs-set = hlevel

-- `sort.Strings` depends only on the elements: whatever order a map was iterated in, the sorted
-- slice is the same.
pub sort_strings-perm : {xs ys : List Str} → Perm xs ys → sort_strings xs ≡ sort_strings ys
sort_strings-perm p = ∥∥₁_elim p (Strs-set _ _) sort_perm_d
