-- ===== src/Eval/Dataset.antt =====
-- internal/eval/load.go and dataset.go: the documents of a corpus and the checks of each. A problem is
-- the template of its message, with the arguments.
pub mod Valid
use ozy.Json.{Value}
use ozy.Contract.{
  ErrType, tool_not_found, downstream_server_offline, argument_validation_failed,
  tool_schema_changed, downstream_call_failed, auth_unavailable, semantic_search_unavailable,
  config_error, not_implemented,
}
use ozy.Eval.Discovery.{DiscoveryCase, category_no_match, category_wrong_server}
use ozy.Eval.Invocation.{CorpusTool, Expected, success, repair, error, unknown, Scenario, no_fields}
use ozy.Common.{
  ◌==◌, if◌then◌else◌, Str, codes, str_eq, has, length, take, Map, keys, lookup, trim_space, ℕ, suc,
  Bool, true, false, not, ◌&&◌, ◌||◌, Option, none, some, List, [], ◌∷◌, ◌++◌, map,
}

-- `InvocationScenario`, with the texts of its outcome and of its error
pub record ScenarioDoc : Type 0 where
  pub name : Str
  pub tool_ref : Str
  pub arguments : Map Value
  pub expected_outcome : Str
  pub expected_error : Str
  pub corrected : Map Value
  pub live_schema : Map Value
  pub rationale : Str

-- the fields of `ErgonomicsCase` that are checked
pub record ErgonomicsCase : Type 0 where
  pub name : Str
  pub kind : Str
  pub query : Str
  pub tool_ref : Str
  pub expect_error_type : Str
  pub rationale : Str

-- the messages, as templates with their arguments
pub data Problem : Type 0 where
  unreadable no_tools duplicate_ref no_cases name_required rationale_required intent_required :
      Problem
  tool_incomplete : ℕ → Problem
  misnamed unknown_ref unknown_category needs_acceptable unknown_error unknown_outcome :
      Str → Problem
  must_be_empty unexpected_error repair_incomplete needs_live_schema query_required : Problem
  needs_error needs_ref unknown_kind : Str → Problem

-- the texts of contract/errors.go
abbrev pub error_types : Map ErrType
error_types =
    (codes "TOOL_NOT_FOUND", tool_not_found)
    ∷ (codes "DOWNSTREAM_SERVER_OFFLINE", downstream_server_offline)
    ∷ (codes "ARGUMENT_VALIDATION_FAILED", argument_validation_failed)
    ∷ (codes "TOOL_SCHEMA_CHANGED", tool_schema_changed)
    ∷ (codes "DOWNSTREAM_CALL_FAILED", downstream_call_failed)
    ∷ (codes "AUTH_UNAVAILABLE", auth_unavailable)
    ∷ (codes "CONFIG_ERROR", config_error)
    ∷ (codes "SEMANTIC_SEARCH_UNAVAILABLE", semantic_search_unavailable)
    ∷ (codes "NOT_IMPLEMENTED", not_implemented)
    ∷ []

unfoldable pub known_error_type : Str → Bool
known_error_type t = has (keys (take 7 error_types)) t

abbrev pub outcome_of : Str → Expected
outcome_of t =
    if str_eq t (codes "success")
    then success
    else if str_eq t (codes "repair")
    then repair
    else if str_eq t (codes "error")
    then error
    else unknown

-- a scenario as it is scored
abbrev pub scenario_of : ScenarioDoc → Scenario
scenario_of d = record {
  tool_ref = d.tool_ref;
  arguments = d.arguments;
  expected_outcome = outcome_of d.expected_outcome;
  expected_error = lookup d.expected_error error_types;
  corrected = d.corrected;
  live_schema = d.live_schema;
}

-- the keys of the set that `toolRefs` builds
abbrev pub set_of : List Str → List Str
set_of [] = []
set_of (r ∷ refs) = let rest = set_of refs in if has rest r then rest else r ∷ rest

abbrev pub refs_of : List CorpusTool → List Str
refs_of tools = map (λ t. t.tool_ref) tools

abbrev pub is_blank : Str → Bool
is_blank t = str_eq (trim_space t) []

abbrev pub no_refs : List Str → Bool
no_refs [] = true
no_refs (r ∷ refs) = false

unfoldable pub valid_category : Str → Bool
valid_category = has (
    codes "lexical"
    ∷ codes "semantic"
    ∷ category_no_match
    ∷ codes "ambiguous"
    ∷ category_wrong_server
    ∷ [])

abbrev pub missing_ref : List Str → List Str → Option Problem
missing_ref refs [] = none
missing_ref refs (r ∷ rs) =
    let rest = missing_ref refs rs in if has refs r then rest else some (unknown_ref r)

unfoldable pub validate_discovery_case : List Str → DiscoveryCase → Option Problem
validate_discovery_case refs c =
    if is_blank c.intent
    then some intent_required
    else if not (valid_category c.category)
    then some (unknown_category c.category)
    else if is_blank c.rationale
    then some rationale_required
    else if str_eq c.category category_no_match
    then if no_refs c.acceptable then none else some must_be_empty
    else if no_refs c.acceptable
    then some (needs_acceptable c.category)
    else missing_ref refs c.acceptable

abbrev pub validate_outcome : Expected → ScenarioDoc → Option Problem
validate_outcome success d = if str_eq d.expected_error [] then none else some unexpected_error
validate_outcome repair d =
    if str_eq d.expected_error [] || no_fields d.corrected
    then some repair_incomplete
    else if known_error_type d.expected_error
    then none
    else some (unknown_error d.expected_error)
validate_outcome error d =
    if not (known_error_type d.expected_error)
    then some (needs_error d.expected_error)
    else if str_eq d.expected_error (codes "TOOL_SCHEMA_CHANGED") && no_fields d.live_schema
    then some needs_live_schema
    else none
validate_outcome unknown d = some (unknown_outcome d.expected_outcome)

unfoldable pub validate_invocation : List Str → ScenarioDoc → Option Problem
validate_invocation refs d =
    if is_blank d.name
    then some name_required
    else if not (has refs d.tool_ref)
    then some (unknown_ref d.tool_ref)
    else if is_blank d.rationale
    then some rationale_required
    else validate_outcome (outcome_of d.expected_outcome) d

abbrev pub validate_kind : ErgonomicsCase → Option Problem
validate_kind c =
    if str_eq c.kind (codes "find")
    then if is_blank c.query then some query_required else none
    else if str_eq c.kind (codes "describe") || str_eq c.kind (codes "call")
    then if is_blank c.tool_ref then some (needs_ref c.kind) else none
    else some (unknown_kind c.kind)

abbrev pub validate_expected : ErgonomicsCase → Option Problem
validate_expected c =
    if not (str_eq c.expect_error_type []) && not (known_error_type c.expect_error_type)
    then some (unknown_error c.expect_error_type)
    else none

unfoldable pub validate_ergonomics : ErgonomicsCase → Option Problem
validate_ergonomics c =
    if is_blank c.name
    then some name_required
    else if is_blank c.rationale
    then some rationale_required
    else elim (validate_kind c) [ some p ↦ some p | none ↦ validate_expected c ]

abbrev pub tool_problem : ℕ → CorpusTool → Option Problem
tool_problem i t =
    if str_eq t.tool_ref [] || (str_eq t.server_id [] || str_eq t.name [])
    then some (tool_incomplete i)
    else if str_eq (t.server_id ++ (codes "." ++ t.name)) t.tool_ref
    then none
    else some (misnamed t.tool_ref)

abbrev pub check_tools : ℕ → List CorpusTool → Option Problem
check_tools i [] = none
check_tools i (t ∷ tools) =
    let rest = check_tools (suc i) tools in
    elim (tool_problem i t) [ some p ↦ some p | none ↦ rest ]

unfoldable pub catalog_problem : List CorpusTool → Option Problem
catalog_problem [] = some no_tools
catalog_problem (t ∷ tools) =
    if length (set_of (refs_of (t ∷ tools))) == length (t ∷ tools)
    then check_tools 0 (t ∷ tools)
    else some duplicate_ref
