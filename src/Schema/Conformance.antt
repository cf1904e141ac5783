-- ===== src/Schema/Conformance.antt =====
-- What `Validate` promises: no problem is reported exactly when the arguments conform.
use ozy.Common.{
  true, false, Option, none, some, List, [], ◌∷◌, ◌++◌, ◌≡◌, refl, ◌↔◌, arith, Str, codes,
  str_eq_iff, str_leb, Map, lookup, has_key, All, All-sort_by, sort_by-All, sort_by-eq-nil, sort_by,
}
use ozy.Json.{Value, bool, num, str, arr, obj, null, as_arr}
use ozy.Schema.{
  strings, required, properties, is_str, is_num, is_bool, is_arr, is_obj, type_matches,
  declared_type, ill_typed, missing, mistyped, validate,
}

-- A value is of a declared JSON Schema type; a type outside the six accepts every value.
abbrev pub IsOfType : Str → Value → Type 0
IsOfType t v =
    (t ≡ codes "string" → is_str v ≡ true)
    × (t ≡ codes "integer" → is_num v ≡ true)
    × (t ≡ codes "number" → is_num v ≡ true)
    × (t ≡ codes "boolean" → is_bool v ≡ true)
    × (t ≡ codes "array" → is_arr v ≡ true)
    × (t ≡ codes "object" → is_obj v ≡ true)

-- An element of `required` that is a string names a field that is there.
abbrev pub Present : Map Value → Value → Type 0
Present args (str s) = has_key s args ≡ true
Present args _ = Unit

abbrev pub AllPresent : Map Value → Option (List Value) → Type 0
AllPresent args none = Unit
AllPresent args (some raw) = All (Present args) raw

-- The arguments satisfy the schema.
pub record Conforms (schema args : Map Value) : Type 0 where
  pub present : AllPresent args (as_arr (lookup (codes "required") schema))
  pub typed : All (λ e. IsOfType (declared_type (properties schema) e.0) e.1) args

pub type_matches_iff : (t : Str) (v : Value) → (type_matches t v ≡ true) ↔ IsOfType t v
unfolding type_matches
type_matches_iff t v = ground (
  arith,
  str_eq_iff t (codes "string"),
  str_eq_iff t (codes "integer"),
  str_eq_iff t (codes "number"),
  str_eq_iff t (codes "boolean"),
  str_eq_iff t (codes "array"),
  str_eq_iff t (codes "object"),
)

strings-Present :
    (args : Map Value) (raw : List Value)
    → All (Present args) raw ↔ All (λ s. has_key s args ≡ true) (strings raw)
unfolding strings
strings-Present args [] = (λ h. h, λ h. h)
strings-Present args (str s ∷ vs) =
    let k = strings-Present args vs in (λ h. (h.0, k.0 h.1), λ h. (h.0, k.1 h.1))
strings-Present args (null ∷ vs) =
    let k = strings-Present args vs in (λ h. k.0 h.1, λ h. (tt, k.1 h))
strings-Present args (bool _ ∷ vs) =
    let k = strings-Present args vs in (λ h. k.0 h.1, λ h. (tt, k.1 h))
strings-Present args (num _ ∷ vs) =
    let k = strings-Present args vs in (λ h. k.0 h.1, λ h. (tt, k.1 h))
strings-Present args (arr _ ∷ vs) =
    let k = strings-Present args vs in (λ h. k.0 h.1, λ h. (tt, k.1 h))
strings-Present args (obj _ ∷ vs) =
    let k = strings-Present args vs in (λ h. k.0 h.1, λ h. (tt, k.1 h))

-- `required` and the check for presence agree, whatever order the names are sorted in.
required_present :
    (schema args : Map Value)
    → AllPresent args (as_arr (lookup (codes "required") schema))
      ↔ All (λ s. has_key s args ≡ true) (required schema)
unfolding required
required_present schema args = go (as_arr (lookup (codes "required") schema))
  where
    go :
        (o : Option (List Value))
        → AllPresent args o
          ↔ All
              (λ s. has_key s args ≡ true)
              (elim o [ none ↦ [] | some raw ↦ sort_by str_leb (strings raw) ])
    go none = (λ _. tt, λ _. tt)
    go (some raw) =
        let k = strings-Present args raw in
        (
          λ h. All-sort_by _ str_leb (strings raw) (k.0 h),
          λ h. k.1 (sort_by-All _ str_leb (strings raw) h),
        )

pub missing_iff :
    (quote : Str → Str) (args : Map Value) (reqs : List Str)
    → (missing quote args reqs ≡ []) ↔ All (λ s. has_key s args ≡ true) reqs
unfolding missing
missing_iff quote args [] = (λ _. tt, λ _. refl)
missing_iff quote args (r ∷ reqs) = ground (arith, missing_iff quote args reqs)

well_typed_iff :
    (props : Map Value) (name : Str) (raw : Value)
    → (ill_typed props name raw ≡ false) ↔ IsOfType (declared_type props name) raw
unfolding ill_typed
well_typed_iff props name raw = ground (
  arith,
  str_eq_iff (declared_type props name) [],
  type_matches_iff (declared_type props name) raw,
)

mistyped_iff :
    (quote : Str → Str) (props args : Map Value)
    → (mistyped quote props args ≡ []) ↔ All (λ e. IsOfType (declared_type props e.0) e.1) args
unfolding mistyped
mistyped_iff quote props [] = (λ _. tt, λ _. refl)
mistyped_iff quote props ((name, raw) ∷ args) =
    ground (arith, well_typed_iff props name raw, mistyped_iff quote props args)

append-eq-nil {ℓ} : {A : Type ℓ} (xs ys : List A) → xs ++ ys ≡ [] → (xs ≡ []) × (ys ≡ [])
append-eq-nil [] ys h = (refl, h)
append-eq-nil (x ∷ xs) ys h = cc

no_problems :
    (quote : Str → Str) (schema args : Map Value)
    → validate quote schema args ≡ []
    → Conforms schema args
unfolding validate
no_problems quote schema args h =
    let k = append-eq-nil _ _ (sort_by-eq-nil str_leb _ h) in
    record {
      present = (required_present schema args).1 ((missing_iff quote args _).0 k.0);
      typed = (mistyped_iff quote _ args).0 k.1;
    }

conforming :
    (quote : Str → Str) (schema args : Map Value)
    → Conforms schema args
    → validate quote schema args ≡ []
unfolding validate sort_by
conforming quote schema args h = rw (
  (missing_iff quote args (required schema)).1 ((required_present schema args).0 h.present),
  (mistyped_iff quote (properties schema) args).1 h.typed,
)

-- `Validate` reports no problem exactly when the arguments conform to the schema: every string in
-- `required` is a key of the arguments, and every argument is of the type declared for it.
pub validate_iff :
    (quote : Str → Str) (schema args : Map Value)
    → (validate quote schema args ≡ []) ↔ Conforms schema args
validate_iff quote schema args = (no_problems quote schema args, conforming quote schema args)
