-- ===== src/Broker/Skeleton/Arguments.antt =====
-- internal/broker/skeleton.go and live.go's `argumentSkeleton`: what describeTool answers, and the
-- arguments that it suggests, against the schema package's view of the schema.
use ozy.Json.{Value, null, bool, num, str, arr, obj, as_obj, as_arr}
use ozy.Catalog.{Tool, Reply, ok, fail}
use ozy.Schema.{strings, required, properties, missing}
use ozy.Schema.Conformance.{missing_iff}
use ozy.Search.Lexical.Signals.{has-sort_by, Within-self}
use ozy.Broker.{done, failed}
use ozy.Broker.Skeleton.{
  Reads, DescribeResult, describe_tool, call_tool, described, unknown_tool, fill, placeholder,
  argument_skeleton,
}
use ozy.Common.{
  if◌then◌else◌, Str, codes, str_eq, str_leb, str_eq_iff, has, Map, lookup, insert, lookup-insert,
  has_key, All, sort_strings, ◌≡◌, refl, ◌∙◌, Bool, true, false, ◌||◌, Option, none, some, List, [],
  ◌∷◌, arith,
}

fill_one_str :
    (props : Map Value) (s j : Str) (b : Bool) (out : Map Value)
    → (if b then some (placeholder props j) else lookup j (insert s (placeholder props s) out))
      ≡ (if str_eq s j || b then some (placeholder props j) else lookup j out)
fill_one_str props s j true out = ground arith
fill_one_str props s j false out =
    ground (arith, lookup-insert s j (placeholder props s) out, str_eq_iff s j)

fill_lem :
    (props : Map Value) (req : List Value) (out : Map Value) (j : Str)
    → lookup j (fill props req out)
      ≡ (if has (strings req) j then some (placeholder props j) else lookup j out)
unfolding fill strings
fill_lem props [] out j = refl
fill_lem props (str s ∷ req) out j =
    fill_lem props req (insert s (placeholder props s) out) j
    ∙ fill_one_str props s j (has (strings req) j) out
fill_lem props (null ∷ req) out j = fill_lem props req out j
fill_lem props (bool _ ∷ req) out j = fill_lem props req out j
fill_lem props (num _ ∷ req) out j = fill_lem props req out j
fill_lem props (arr _ ∷ req) out j = fill_lem props req out j
fill_lem props (obj _ ∷ req) out j = fill_lem props req out j

sorted_fill :
    (props : Map Value) (req : List Value) (j : Str)
    → lookup j (fill props req [])
      ≡ (if has (sort_strings (strings req)) j then some (placeholder props j) else none)
unfolding lookup
sorted_fill props req j = rw (has-sort_by str_leb (strings req) j) (fill_lem props req [] j)

skeleton_at :
    (schema : Map Value) (j : Str)
    → lookup j (argument_skeleton schema)
      ≡ (if has (required schema) j then some (placeholder (properties schema) j) else none)
unfolding argument_skeleton required properties lookup fill
skeleton_at schema j =
    go (as_obj (lookup (codes "properties") schema)) (as_arr (lookup (codes "required") schema))
  where
    go :
        (props : Option (Map Value)) (req : Option (List Value))
        → lookup j
            (fill (elim props [ none ↦ [] | some p ↦ p ]) (elim req [ none ↦ [] | some r ↦ r ]) [])
          ≡ (if has (elim req [ none ↦ [] | some r ↦ sort_strings (strings r) ]) j
              then some (placeholder (elim props [ none ↦ [] | some p ↦ p ]) j)
              else none)
    go props none = refl
    go none (some r) = sorted_fill [] r j
    go (some p) (some r) = sorted_fill p r j

required_keys :
    (args : Map Value) (names : List Str) (more : List Str)
    → All (λ s. has more s ≡ true) names
    → ((j : Str) → has more j ≡ true → has_key j args ≡ true)
    → All (λ s. has_key s args ≡ true) names
required_keys args [] more h k = tt
required_keys args (s ∷ names) more h k = (k s h.0, required_keys args names more h.1 k)

none_missing :
    (quote : Str → Str) (schema : Map Value)
    → missing quote (argument_skeleton schema) (required schema) ≡ []
unfolding has_key
none_missing quote schema = (missing_iff quote (argument_skeleton schema) (required schema)).1 (
    required_keys _ (required schema) (required schema) (Within-self (required schema))
      (λ j h. rw (skeleton_at schema j, h) refl))

-- What describeTool and callTool of the catalog-backed broker answer.
abbrev pub Answered : (Str → Str) → Reads → Str → Reply (Option Tool) → Type 0
Answered quote store ref (ok (some t)) =
    (d : DescribeResult) × (describe_tool store ref ≡ done d)
    × (d.recommended_ref ≡ t.tool_ref)
    × (d.input_schema ≡ t.input_schema)
    × ((j : Str)
        → lookup j d.recommended_arguments ≡ (
            if has (required d.input_schema) j
            then some (placeholder (properties d.input_schema) j)
            else none))
    × (missing quote d.recommended_arguments (required d.input_schema) ≡ [])
Answered quote store ref _ =
    (describe_tool store ref ≡ failed (unknown_tool ref))
    × (call_tool store ref ≡ failed (unknown_tool ref))

answered :
    (quote : Str → Str) (store : Reads) (ref : Str) (r : Reply (Option Tool))
    → store.get_tool ref ≡ r
    → Answered quote store ref r
unfolding describe_tool call_tool described
answered quote store ref (fail e) h = (rw (describe_tool, h) refl, rw (call_tool, h) refl)
answered quote store ref (ok none) h = (rw (describe_tool, h) refl, rw (call_tool, h) refl)
answered quote store ref (ok (some t)) h = (
  described t,
  rw (describe_tool, h) refl,
  refl,
  refl,
  skeleton_at t.input_schema,
  none_missing quote t.input_schema,
)

-- Whatever the store answers: for a tool that it has, describeTool tells the tool's schema and
-- suggests a call of that tool whose arguments are exactly the fields that the schema requires, each
-- with a placeholder of its declared type, so that `Validate` finds no field missing. For any other
-- tool, and when the store fails, describeTool and callTool report an unknown tool, not retryable.
pub describe_tool-Answered :
    (quote : Str → Str) (store : Reads) (ref : Str) → Answered quote store ref (store.get_tool ref)
describe_tool-Answered quote store ref = answered quote store ref (store.get_tool ref) refl
