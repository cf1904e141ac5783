-- ===== src/Broker/Find.antt =====
-- internal/broker/live.go: `FindTool` of the live broker, on the ranking that the engine returned.
-- The statistics, the reasons and the instructions are left out; `marshal` is encoding/json. A runner-up stands behind a selected tool, as `Decide` returns them.
pub mod Choice
mod Tests
use ozy.Json.{Value, obj, fields_of, as_arr}
use ozy.Contract.{Verdict, use_tool, no_good_match, ambiguous, catalog_empty}
use ozy.Catalog.{Tool, ServerStatus}
use ozy.Schema.{properties, strings}
use ozy.Config.{Config, effective_max_results, default_find_tool_max_results}
use ozy.Search.{Scores, RankedEntry, Decision, decide}
use ozy.Common.{
  leb, if◌then◌else◌, Str, codes, length, take, Map, keys, lookup, ℕ, ◌-◌, Bool, false, ◌||◌,
  Option, none, some, List, [], ◌∷◌, map,
}

-- results.go: `Alternative`, `Candidate` as the tool that it copies, `SchemaPreview` and
-- `SelectedTool`
pub record Alternative : Type 0 where
  pub tool_ref : Str
  pub reason : Str

pub record SchemaPreview : Type 0 where
  pub properties : List Str
  pub required : List Str

pub record SelectedTool : Type 0 where
  pub tool_ref : Str
  pub title : Str
  pub callable_now : Bool
  pub server_status : ServerStatus
  pub schema_preview : Option SchemaPreview
  pub input_schema : Option (Map Value)

-- `NextAction`, by the tool that it names
pub data NextAction : Type 0 where
  call_selected describe_selected : Str → NextAction
  call_candidate refine_query : NextAction

pub record FindResult : Type 0 where
  pub decision : Verdict
  pub confidence : Str
  pub selected : Option SelectedTool
  pub alternatives : List Alternative
  pub candidates : List Tool
  pub next_action : Option NextAction

abbrev pub fast_path_schema_bytes : ℕ
fast_path_schema_bytes = 2048

-- the limit of `alternatives`
abbrev pub max_results : Option Config → ℕ
max_results none = default_find_tool_max_results
max_results (some cfg) = effective_max_results cfg.budgets

abbrev pub forced : Option Config → Bool
forced none = false
forced (some cfg) = cfg.budgets.include_full_schemas

abbrev pub encodes_within : Option Str → ℕ → Bool
encodes_within none limit = false
encodes_within (some encoded) limit = leb (length encoded) limit

unfoldable pub inline_full_schema : (Value → Option Str) → Option Config → Map Value → Bool
inline_full_schema marshal cfg [] = false
inline_full_schema marshal cfg (f ∷ schema) =
    forced cfg || encodes_within (marshal (obj (fields_of (f ∷ schema)))) fast_path_schema_bytes

abbrev pub preview_of : List Str → List Str → Option SchemaPreview
preview_of [] [] = none
preview_of names needed = some (record { properties = names; required = needed })

-- the texts of `required`, in its order
abbrev declared : Option (List Value) → List Str
declared none = []
declared (some raw) = strings raw

unfoldable pub preview : Map Value → Option SchemaPreview
preview schema =
    preview_of (keys (properties schema)) (declared (as_arr (lookup (codes "required") schema)))

-- with the preview, or with the whole schema in its place
abbrev pub selected_tool : Tool → Bool → SelectedTool
selected_tool t inlined = record {
  tool_ref = t.tool_ref;
  title = t.title;
  callable_now = t.callable_now;
  server_status = t.server_status;
  schema_preview = if inlined then none else preview t.input_schema;
  input_schema = if inlined then some t.input_schema else none;
}

module _ (S : Scores) (marshal : Value → Option Str) (cfg : Option Config) where
  abbrev pub as_alternative : RankedEntry S → Alternative
  as_alternative e = record { tool_ref = e.tool.tool_ref; reason = e.reason }

  -- the loop of `alternatives`, from the second entry on
  unfoldable pub alternatives : List (RankedEntry S) → List Alternative
  alternatives [] = []
  alternatives (_ ∷ others) = map as_alternative (take (max_results cfg - 1) others)

  abbrev pub blank : Verdict → FindResult
  blank v = record {
    decision = v;
    confidence = [];
    selected = none;
    alternatives = [];
    candidates = [];
    next_action = none;
  }

  abbrev pub chosen : List (RankedEntry S) → Str → Option (RankedEntry S) → FindResult
  chosen es confidence none = record (blank use_tool) { confidence = confidence }
  chosen es confidence (some e) =
      let inlined = inline_full_schema marshal cfg e.tool.input_schema in
      record {
        decision = use_tool;
        confidence = confidence;
        selected = some (selected_tool e.tool inlined);
        alternatives = alternatives es;
        candidates = [];
        next_action =
            some (
              if inlined then call_selected e.tool.tool_ref else describe_selected e.tool.tool_ref);
      }

  -- the two closest tools
  abbrev pub both : RankedEntry S → Option (RankedEntry S) → List Tool
  both e none = []
  both e (some f) = e.tool ∷ f.tool ∷ []

  abbrev pub compared :
      List (RankedEntry S) → Option (RankedEntry S) → Option (RankedEntry S) → FindResult
  compared es none runner_up = blank ambiguous
  compared es (some e) runner_up = record {
    decision = ambiguous;
    confidence = [];
    selected = some (selected_tool e.tool false);
    alternatives = alternatives es;
    candidates = both e runner_up;
    next_action = some call_candidate;
  }

  -- the `switch` on the verdict
  abbrev pub respond : List (RankedEntry S) → Decision S → Verdict → FindResult
  respond es d use_tool = chosen es d.confidence d.selected
  respond es d ambiguous = compared es d.selected d.runner_up
  respond es d no_good_match = record (blank no_good_match) { next_action = some refine_query }
  respond es d catalog_empty = blank catalog_empty

  unfoldable pub find_result : List (RankedEntry S) → FindResult
  unfolding alternatives inline_full_schema
  find_result es = respond es (decide S es) (decide S es).verdict
