-- ===== src/Schema/Tests.antt =====
-- Runs of schema.go, and the theorems at a schema with one required and one typed field.
use ozy.Common.{str_leb, str_eq, has_key, lookup, sort_by, [], ◌∷◌, ◌≡◌, refl, Str, codes, Map, ◌↔◌}
use ozy.Json.{Value, num, str, arr, obj, values_of, fields_of}
use ozy.Schema.{
  type_matches, declared_type, ill_typed, mistyped, missing, properties, required, validate,
  missing_problem, type_problem,
}
use ozy.Schema.Conformance.{Conforms, validate_iff}

abbrev pub quote : Str → Str
quote s = b'"' ∷ s

abbrev query_schema : Map Value
query_schema =
    (codes "type", str (codes "object"))
    ∷ (codes "required", arr (values_of (str (codes "query") ∷ [])))
    ∷ (
      codes "properties",
      obj (
          fields_of
            ((codes "limit", obj (fields_of ((codes "type", str (codes "integer")) ∷ []))) ∷ [])),
    )
    ∷ []

abbrev good_args : Map Value
good_args = (codes "query", str (codes "crm")) ∷ (codes "limit", num 5) ∷ []

abbrev bad_args : Map Value
bad_args = (codes "limit", str (codes "5")) ∷ (codes "extra", num 1) ∷ []

validate_good : validate quote query_schema good_args ≡ []
unfolding validate required properties missing mistyped ill_typed declared_type type_matches sort_by
    lookup has_key str_eq str_leb missing_problem type_problem
validate_good = refl

validate_bad :
    validate quote query_schema bad_args
    ≡ type_problem quote (codes "limit") (codes "integer")
      ∷ missing_problem quote (codes "query")
      ∷ []
unfolding validate required properties missing mistyped ill_typed declared_type type_matches sort_by
    lookup has_key str_eq str_leb missing_problem type_problem
validate_bad = refl

validate_iff_example :
    (validate quote query_schema good_args ≡ []) ↔ Conforms query_schema good_args
validate_iff_example = validate_iff quote query_schema good_args
