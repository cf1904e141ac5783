-- ===== src/Json.antt =====
-- The `any` values that encoding/json produces (internal/schema, internal/broker): a type
-- assertion is a function by clauses into `Option`. A number stands for the float64 it decodes to.
use ozy.Common.{ℕ, Bool, Option, none, some, List, [], ◌∷◌, Str, Map}

mutual
  pub data Value : Type 0 where
    null : Value
    bool : Bool → Value
    num : ℕ → Value
    str : Str → Value
    arr : Values → Value
    obj : Fields → Value

  pub data Values : Type 0 where
    nil : Values
    cons : Value → Values → Values

  pub data Fields : Type 0 where
    end : Fields
    field : Str → Value → Fields → Fields

abbrev pub elements : Values → List Value
elements nil = []
elements (cons v vs) = v ∷ elements vs

abbrev pub entries : Fields → Map Value
entries end = []
entries (field k v fs) = (k, v) ∷ entries fs

abbrev pub fields_of : Map Value → Fields
fields_of [] = end
fields_of ((k, v) ∷ m) = field k v (fields_of m)

abbrev pub values_of : List Value → Values
values_of [] = nil
values_of (v ∷ vs) = cons v (values_of vs)

-- `v.(map[string]any)`, at the value of a missing key too
abbrev pub as_obj : Option Value → Option (Map Value)
as_obj (some (obj fs)) = some (entries fs)
as_obj _ = none

-- `v.([]any)`
abbrev pub as_arr : Option Value → Option (List Value)
as_arr (some (arr vs)) = some (elements vs)
as_arr _ = none

-- `v.(string)`
abbrev pub as_str : Option Value → Option Str
as_str (some (str s)) = some s
as_str _ = none
