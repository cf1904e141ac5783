-- ===== src/Broker/Skeleton.antt =====
-- internal/broker/skeleton.go: the catalog-backed broker, over a record `Reads` of what the calls of
-- the catalog's store answer; and live.go's `argumentSkeleton`. An agent's instruction is represented
-- by one constructor for each literal text.
pub mod Arguments
mod Tests
use ozy.Json.{Value, str, as_obj, as_arr, as_str}
use ozy.Contract.{
  Error, ErrType, Message, Verdict, CallResult, tool_not_found, not_implemented, config_error,
  no_such_tool, invocation_pending, store_unreadable, no_good_match, catalog_empty,
}
use ozy.Catalog.{Tool, Stats, ServerStatus, Freshness, Time, Reply, ok, fail}
use ozy.Broker.{Answer, done, failed}
use ozy.Common.{
  ◌==◌, if◌then◌else◌, Str, codes, str_eq, Map, lookup, insert, ℕ, ◌+◌, ◌-◌, ◌/◌, Bool, true, false,
  Option, none, some, List, [], ◌∷◌, ◌++◌, map,
}

-- the store's answers during one call: a context that ended is an answer `fail`
pub record Reads : Type 0 where
  pub get_tool : Str → Reply (Option Tool)
  pub tools : Reply (List Tool)
  pub stats : Reply Stats
  pub last_indexed_at : Reply (Time × Bool)

-- results.go: `CatalogStats`
pub record CatalogStats : Type 0 where
  pub catalog_age_seconds : Option ℕ
  pub configured_servers : ℕ
  pub indexed_tools : ℕ
  pub fresh_tools : ℕ
  pub stale_tools : ℕ

-- a negative age is given as 0
abbrev pub age_of : Time → Reply (Time × Bool) → Option ℕ
age_of now (fail e) = none
age_of now (ok (t, false)) = none
age_of now (ok (t, true)) = some ((now - t) / 1_000_000_000)

unfoldable pub catalog_age : Time → Reads → Option ℕ
catalog_age now store = age_of now store.last_indexed_at

abbrev pub stats_with : Option ℕ → Reply Stats → Option CatalogStats
stats_with age (fail e) = none
stats_with age (ok st) = some (record {
  catalog_age_seconds = age;
  configured_servers = st.configured_servers;
  indexed_tools = st.indexed_tools;
  fresh_tools = st.fresh_tools;
  stale_tools = st.stale_tools;
})

unfoldable pub catalog_stats : Time → Reads → Option CatalogStats
unfolding catalog_age
catalog_stats now store = stats_with (catalog_age now store) store.stats

pub data Instruction : Type 0 where
  populate_catalog ranking_pending nothing_indexed : Instruction

-- the fields of `FindResult` that the function sets
pub record NoMatch : Type 0 where
  pub query : Str
  pub decision : Verdict
  pub stats : Option CatalogStats
  pub agent_instruction : Instruction

abbrev pub without_tools : Option CatalogStats → Bool
without_tools none = true
without_tools (some st) = st.indexed_tools == 0

unfoldable pub find_tool : Time → Reads → Str → NoMatch
unfolding catalog_stats
find_tool now store query =
    let st = catalog_stats now store in
    let empty = without_tools st in
    record {
      query = query;
      decision = if empty then catalog_empty else no_good_match;
      stats = st;
      agent_instruction = if empty then populate_catalog else ranking_pending;
    }

abbrev or_value : Option Str → Str
or_value none = codes "value"
or_value (some s) = if str_eq s [] then codes "value" else s

abbrev type_of_property : Option (Map Value) → Str
type_of_property none = codes "value"
type_of_property (some p) = or_value (as_str (lookup (codes "type") p))

-- `"<" + typ + ">"`
abbrev pub placeholder : Map Value → Str → Value
placeholder props name =
    str (codes "<" ++ (type_of_property (as_obj (lookup name props)) ++ codes ">"))

-- one turn of the loop over `required`
abbrev pub fill_one : Map Value → Value → Map Value → Map Value
fill_one props (str name) out = insert name (placeholder props name) out
fill_one props _ out = out

unfoldable pub fill : Map Value → List Value → Map Value → Map Value
fill props [] out = out
fill props (r ∷ req) out = fill props req (fill_one props r out)

abbrev or_empty {ℓ} : {A : Type ℓ} → Option (List A) → List A
or_empty none = []
or_empty (some xs) = xs

unfoldable pub argument_skeleton : Map Value → Map Value
unfolding fill
argument_skeleton schema =
    fill (or_empty (as_obj (lookup (codes "properties") schema)))
      (or_empty (as_arr (lookup (codes "required") schema))) []

-- `DescribeResult`, with `ToolStatus` in its last three fields and the two arguments of the
-- recommended call of callTool
pub record DescribeResult : Type 0 where
  pub tool_ref : Str
  pub title : Str
  pub description : Str
  pub input_schema : Map Value
  pub recommended_ref : Str
  pub recommended_arguments : Map Value
  pub callable_now : Bool
  pub server_status : ServerStatus
  pub catalog_freshness : Freshness

abbrev pub refusal : ErrType → Str → Bool → Message → Error
refusal type ref retryable message = record {
  type = type;
  tool_ref = ref;
  server_id = [];
  retryable = retryable;
  message = message;
}

abbrev pub unknown_tool : Str → Error
unknown_tool ref = refusal tool_not_found ref false no_such_tool

unfoldable pub described : Tool → DescribeResult
unfolding argument_skeleton
described t = record {
  tool_ref = t.tool_ref;
  title = t.title;
  description = t.description;
  input_schema = t.input_schema;
  recommended_ref = t.tool_ref;
  recommended_arguments = argument_skeleton t.input_schema;
  callable_now = t.callable_now;
  server_status = t.server_status;
  catalog_freshness = t.freshness;
}

unfoldable pub describe_tool : Reads → Str → Answer DescribeResult
unfolding described
describe_tool store ref = elim (store.get_tool ref) [
  | fail e ↦ failed (unknown_tool ref)
  | ok none ↦ failed (unknown_tool ref)
  | ok (some t) ↦ done (described t)
]

unfoldable pub call_tool : Reads → Str → Answer CallResult
call_tool store ref = elim (store.get_tool ref) [
  | fail e ↦ failed (unknown_tool ref)
  | ok none ↦ failed (unknown_tool ref)
  | ok (some t) ↦ failed (refusal not_implemented ref false invocation_pending)
]

pub record ListedTool : Type 0 where
  pub tool_ref : Str
  pub title : Str
  pub server_id : Str
  pub freshness : Freshness
  pub callable_now : Bool

pub record ListResult : Type 0 where
  pub tools : List ListedTool
  pub stats : Option CatalogStats
  pub agent_instruction : Option Instruction

abbrev pub listed : Tool → ListedTool
listed t = record {
  tool_ref = t.tool_ref;
  title = t.title;
  server_id = t.server_id;
  freshness = t.freshness;
  callable_now = t.callable_now;
}

abbrev pub when_empty : List Tool → Option Instruction
when_empty [] = some nothing_indexed
when_empty (t ∷ ts) = none

unfoldable pub list : Time → Reads → Answer ListResult
unfolding catalog_stats
list now store = elim store.tools [
  | fail e ↦ failed (refusal config_error [] true store_unreadable)
  | ok ts ↦ done (record {
    tools = map listed ts;
    stats = catalog_stats now store;
    agent_instruction = when_empty ts;
  })
]
