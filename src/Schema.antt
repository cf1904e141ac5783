-- ===== src/Schema.antt =====
-- internal/schema/schema.go: `Validate` and its helpers. A nil schema and an empty one behave
-- alike, so both are the empty map. `quote` is fmt's `%q` verb.
pub mod Conformance
pub mod Order
mod Tests
use ozy.Common.{
  Bool, true, false, ◌&&◌, ◌||◌, not, none, some, List, [], ◌∷◌, ◌++◌, Str, codes, str_eq, Map,
  lookup, has_key, sort_strings, if◌then◌else◌,
}
use ozy.Json.{Value, bool, num, str, arr, obj, as_obj, as_arr, as_str}

-- the string elements of a decoded array
unfoldable pub strings : List Value → List Str
strings [] = []
strings (str s ∷ vs) = s ∷ strings vs
strings (_ ∷ vs) = strings vs

unfoldable pub required : Map Value → List Str
unfolding strings
required schema = elim (as_arr (lookup (codes "required") schema)) [
  | none ↦ []
  | some raw ↦ sort_strings (strings raw)
]

unfoldable pub properties : Map Value → Map Value
properties schema = elim (as_obj (lookup (codes "properties") schema)) [
  | none ↦ []
  | some props ↦ props
]

abbrev pub is_str : Value → Bool
is_str (str _) = true
is_str _ = false

abbrev pub is_num : Value → Bool
is_num (num _) = true
is_num _ = false

abbrev pub is_bool : Value → Bool
is_bool (bool _) = true
is_bool _ = false

abbrev pub is_arr : Value → Bool
is_arr (arr _) = true
is_arr _ = false

abbrev pub is_obj : Value → Bool
is_obj (obj _) = true
is_obj _ = false

unfoldable pub type_matches : Str → Value → Bool
type_matches declared val =
    if str_eq declared (codes "string")
    then is_str val
    else if str_eq declared (codes "integer") || str_eq declared (codes "number")
    then is_num val
    else if str_eq declared (codes "boolean")
    then is_bool val
    else if str_eq declared (codes "array")
    then is_arr val
    else if str_eq declared (codes "object")
    then is_obj val
    else true

-- `declared, _ := spec["type"].(string)`, with "" for every failed assertion on the way
unfoldable pub declared_type : Map Value → Str → Str
declared_type props name = elim (as_obj (lookup name props)) [
  | none ↦ []
  | some spec ↦ elim (as_str (lookup (codes "type") spec)) [ none ↦ [] | some t ↦ t ]
]

-- `declared != "" && !typeMatches(declared, raw)`
unfoldable pub ill_typed : Map Value → Str → Value → Bool
ill_typed props name raw =
    not (str_eq (declared_type props name) []) && not (type_matches (declared_type props name) raw)

module _ (quote : Str → Str) where
  unfoldable pub missing_problem : Str → Str
  missing_problem req = codes "missing required field " ++ quote req

  unfoldable pub type_problem : Str → Str → Str
  type_problem name declared = codes "field " ++ (quote name ++ (codes " must be " ++ declared))

  -- the first loop of `Validate`
  unfoldable pub missing : Map Value → List Str → List Str
  missing args [] = []
  missing args (req ∷ reqs) =
      let rest = missing args reqs in if has_key req args then rest else missing_problem req ∷ rest

  -- the second loop, over the arguments in any order
  unfoldable pub mistyped : Map Value → Map Value → List Str
  unfolding ill_typed
  mistyped props [] = []
  mistyped props ((name, raw) ∷ args) =
      let rest = mistyped props args in
      if ill_typed props name raw then type_problem name (declared_type props name) ∷ rest else rest

  unfoldable pub validate : Map Value → Map Value → List Str
  unfolding missing mistyped
  validate schema args =
      sort_strings (missing args (required schema) ++ mistyped (properties schema) args)
