-- ===== src/Broker/Call/Tests.antt =====
-- A call of one tool of one server, with a catalog that has no schema for it.
use ozy.Catalog.{ok}
use ozy.Config.{Config, ServerConfig, zero_server}
use ozy.Downstream.{secret_values}
use ozy.Broker.Refs.{index_byte, dot, make_ref, split_tool_ref, make_ref-split}
use ozy.Broker.Call.{Backend, call_live, server_lookup}
use ozy.Broker.Reply.{call_error}
use ozy.Broker.Call.Effects.{Disciplined, call_live-Disciplined}
use ozy.Broker.Call.Outcomes.{
  Reported, call_live-Reported, Failing, carries, Secret, call_live-hides,
}
use ozy.Common.{
  Str, codes, str_eq, is_prefix, contains, lookup, ◌≡◌, refl, ◌≢◌, true, false, none, some, [], ◌∷◌,
  arith, pos,
}

abbrev github_id : Str
github_id = codes "github"

abbrev search_ref : Str
search_ref = codes "github.search.code"

abbrev github : ServerConfig
github = record zero_server { enabled = true; environment = (codes "TOKEN", codes "s3cret") ∷ [] }

abbrev config : Config
config = record {
  schema = [];
  version = pos 1;
  mcp = (github_id, github) ∷ [];
  embedding = record { provider = []; required = false; vector_backend = []; model = [] };
  search = record {
    lexical_enabled = true;
    semantic = record { enabled = false; required = false };
  };
  budgets = record {
    find_tool_max_results = pos 0;
    include_full_schemas = false;
    describe_include_examples = false;
    call_tool_max_result_bytes = pos 64;
  };
  cache = record { enabled = false; ttl_seconds = pos 0; max_entries = pos 0 };
  capability_breadcrumb = false;
}

-- The session fails with a text that quotes the token.
abbrev leaky : Backend (Unit {0})
leaky = record {
  get_tool = λ ref. ok none;
  connect =
      λ id server. record { server_id = id; session = some tt; error = none; skipped = false };
  call = λ session name args. call_error (codes "token s3cret refused");
  late_connect = false;
  late_call = false;
  quote = λ s. s;
  trim_space = λ s. s;
  format_int = λ n. [];
  marshal = λ v. none;
  to_valid_utf8 = λ s. s;
}

search_ref-split : split_tool_ref search_ref ≡ some (github_id, codes "search.code")
unfolding split_tool_ref
search_ref-split = refl

make_ref-split_example :
    (make_ref github_id (codes "search.code") ≡ search_ref)
    × (github_id ≢ [])
    × (codes "search.code" ≢ [])
    × (index_byte dot github_id ≡ none)
make_ref-split_example = make_ref-split search_ref github_id (codes "search.code") search_ref-split

call_live-Disciplined_example :
    Disciplined leaky (some config) search_ref [] (call_live leaky (some config) search_ref []).1
call_live-Disciplined_example = call_live-Disciplined leaky (some config) search_ref []

call_live-Reported_example :
    Reported leaky (some config) search_ref [] (call_live leaky (some config) search_ref []).0
call_live-Reported_example = call_live-Reported leaky (some config) search_ref []

configured : server_lookup (some config) github_id ≡ some github
unfolding lookup str_eq
configured = refl

token-Secret : Secret github (codes "s3cret")
unfolding secret_values str_eq contains is_prefix
token-Secret = record { known = refl; masked = refl; plain = ground arith }

call_live-hides_example :
    Failing
      (λ e. carries e.message (codes "s3cret") ≡ false)
      (call_live leaky (some config) search_ref []).0
call_live-hides_example =
    call_live-hides leaky (some config) search_ref [] github_id (codes "search.code") github
      (codes "s3cret") search_ref-split configured token-Secret
