-- ===== src/Broker/Skeleton/Tests.antt =====
-- The catalog-backed broker at a store with one tool, which requires two fields.
use ozy.Json.{Value, null, str, arr, obj, values_of, fields_of}
use ozy.Catalog.{Tool, fresh, online, path_empty, ok, fail}
use ozy.Contract.{config_error, store_unreadable}
use ozy.Broker.{failed}
use ozy.Broker.Skeleton.{Reads, argument_skeleton, fill, list, refusal}
use ozy.Broker.Skeleton.Arguments.{Answered, describe_tool-Answered}
use ozy.Common.{
  if◌then◌else◌, codes, str_eq, Map, lookup, insert, ◌≡◌, refl, true, false, none, some, [], ◌∷◌,
}

abbrev schema : Map Value
schema =
    (codes "required", arr (values_of (str (codes "q") ∷ null ∷ str (codes "n") ∷ [])))
    ∷ (
      codes "properties",
      obj (
          fields_of
            ((codes "n", obj (fields_of ((codes "type", str (codes "integer")) ∷ []))) ∷ [])),
    )
    ∷ []

suggested :
    argument_skeleton schema
    ≡ (codes "q", str (codes "<value>")) ∷ (codes "n", str (codes "<integer>")) ∷ []
unfolding argument_skeleton fill lookup insert str_eq
suggested = refl

abbrev tool : Tool
tool = record {
  tool_ref = codes "crm.search";
  server_id = codes "crm";
  downstream_tool_name = codes "search";
  title = codes "Search";
  description = [];
  input_schema = schema;
  capability_text = [];
  server_status = online;
  callable_now = true;
  read_only = true;
  last_indexed_at = 0;
  schema_hash = [];
  freshness = fresh;
}

abbrev store : Reads
store = record {
  get_tool = λ ref. ok (if str_eq ref (codes "crm.search") then some tool else none);
  tools = ok (tool ∷ []);
  stats =
      ok (record { configured_servers = 1; indexed_tools = 1; fresh_tools = 1; stale_tools = 0 });
  last_indexed_at = ok (0, false);
}

-- The listing of a store that fails is a failure to retry.
unreadable :
    list 0 (record store { tools = fail path_empty })
    ≡ failed (refusal config_error [] true store_unreadable)
unfolding list
unreadable = refl

describe_tool-Answered_example : Answered (λ s. s) store (codes "crm.search") (ok (some tool))
unfolding str_eq
describe_tool-Answered_example = describe_tool-Answered (λ s. s) store (codes "crm.search")
