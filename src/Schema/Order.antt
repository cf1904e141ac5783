-- ===== src/Schema/Order.antt =====
-- `Validate` ranges over the arguments, a Go map: its report does not depend on the order.
use ozy.Json.{Value}
use mathlib.Core.List.{Permᴰ}
use mathlib.Core.List.Perm
use mathlib.Core.List.Permᴰ
use mathlib.Core.Logic.{∥∥₁_elim, ∥∥₁_map}
use ozy.Common.{
  if◌then◌else◌, Str, sort_strings-perm, Map, lookup, has_key, ◌≡◌, refl, ◌∙◌, Bool, true, false,
  List, [], ◌∷◌, Perm, arith,
}
use ozy.Json.{Value}
use ozy.Schema.{
  ill_typed, type_problem, declared_type, required, properties, missing, mistyped, validate,
}

Bool-set : IsSet Bool
Bool-set = hlevel

has_key-perm_d : (k : Str) {xs ys : Map Value} → Permᴰ xs ys → has_key k xs ≡ has_key k ys
unfolding has_key lookup
has_key-perm_d k Permᴰ.nil = refl
has_key-perm_d k (Permᴰ.cons {a = a} {b = b} e p) = rw e (ground (arith, has_key-perm_d k p))
has_key-perm_d k (Permᴰ.swap {a = a} {b = b} e f) = rw (← e, ← f) (ground arith)
has_key-perm_d k (Permᴰ.trans p q) = has_key-perm_d k p ∙ has_key-perm_d k q

-- Which keys a map has does not depend on its iteration order.
pub has_key-perm : (k : Str) {xs ys : Map Value} → Perm xs ys → has_key k xs ≡ has_key k ys
has_key-perm k p = ∥∥₁_elim p (Bool-set _ _) (has_key-perm_d k)

missing-perm :
    (quote : Str → Str) {xs ys : Map Value} (reqs : List Str)
    → Perm xs ys
    → missing quote xs reqs ≡ missing quote ys reqs
unfolding missing
missing-perm quote [] p = refl
missing-perm quote (r ∷ reqs) p = ground (arith, has_key-perm r p, missing-perm quote reqs p)

cons_if-perm_d :
    (b : Bool) (x : Str) {l r : List Str}
    → Permᴰ l r
    → Permᴰ (if b then x ∷ l else l) (if b then x ∷ r else r)
cons_if-perm_d true x p = Permᴰ.cons refl p
cons_if-perm_d false x p = p

cons_if_swap :
    (b c : Bool) (x y : Str) (l : List Str)
    → Permᴰ
        (if b then x ∷ (if c then y ∷ l else l) else (if c then y ∷ l else l))
        (if c then y ∷ (if b then x ∷ l else l) else (if b then x ∷ l else l))
cons_if_swap true true x y l = Permᴰ.swap refl refl
cons_if_swap true false x y l = Permᴰ.refl _
cons_if_swap false true x y l = Permᴰ.refl _
cons_if_swap false false x y l = Permᴰ.refl _

mistyped-perm_d :
    (quote : Str → Str) (props : Map Value) {xs ys : Map Value}
    → Permᴰ xs ys
    → Permᴰ (mistyped quote props xs) (mistyped quote props ys)
unfolding mistyped
mistyped-perm_d quote props Permᴰ.nil = Permᴰ.nil
mistyped-perm_d quote props (Permᴰ.cons {a = a} {b = b} e p) =
    rw e (cons_if-perm_d _ _ (mistyped-perm_d quote props p))
mistyped-perm_d quote props (Permᴰ.swap {a = a} {b = b} {l = l} e f) =
    rw (← e, ← f)
      (cons_if_swap (ill_typed props a.0 a.1) (ill_typed props b.0 b.1)
        (type_problem quote a.0 (declared_type props a.0))
        (type_problem quote b.0 (declared_type props b.0)) (mistyped quote props l))
mistyped-perm_d quote props (Permᴰ.trans p q) =
    Permᴰ.trans (mistyped-perm_d quote props p) (mistyped-perm_d quote props q)

-- The report of `Validate` is the same for every order in which the arguments are ranged over.
validate-perm :
    (quote : Str → Str) (schema : Map Value) {xs ys : Map Value}
    → Perm xs ys
    → validate quote schema xs ≡ validate quote schema ys
unfolding validate
validate-perm quote schema p = rw (missing-perm quote (required schema) p) (
    sort_strings-perm (
      Perm.append_left (missing quote _ (required schema))
        (∥∥₁_map p (mistyped-perm_d quote (properties schema)))))
