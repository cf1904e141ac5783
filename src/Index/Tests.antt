-- ===== src/Index/Tests.antt =====
-- A run over the in-memory store: one server that is listed, one that is offline, and a tool of a
-- server that is not configured any more.
use ozy.Catalog.{Tool, ok, fresh, online, offline}
use ozy.Catalog.Memory.{Memory, get_tool}
use ozy.Catalog.Memory.Laws.{IsValid}
use ozy.Catalog.Memory.AsStore.{Valid, memory_store, memory_view}
use ozy.Config.{Config, zero_server}
use ozy.Downstream.{Connection}
use ozy.Index.{Store, Summary, Codec, ListReply, tools_listed}
use ozy.Index.Reconcile.{Learned, action, to_delete, reconcile}
use ozy.Index.Reconcile.Keeps.{MayDelete, Kept, reconcile-Kept}
use ozy.Index.Run.{Sink, run}
use ozy.Common.{
  ◌+◌, length, ◌+◌, Str, codes, str_eq, has, lookup, has_key, ℕ, ◌≡◌, refl, inl, inr, true, false,
  none, some, [], ◌∷◌, arith, pos,
}

abbrev tool_of : Str → Str → Tool
tool_of server ref = record {
  tool_ref = ref;
  server_id = server;
  downstream_tool_name = [];
  title = [];
  description = [];
  input_schema = [];
  capability_text = [];
  server_status = online;
  callable_now = true;
  read_only = true;
  last_indexed_at = 0;
  schema_hash = [];
  freshness = fresh;
}

abbrev flaky : Tool
flaky = tool_of (codes "flaky") (codes "flaky.a")

abbrev gone : Tool
gone = tool_of (codes "gone") (codes "gone.a")

abbrev config : Config
config = record {
  schema = [];
  version = pos 1;
  mcp = (codes "github", zero_server) ∷ (codes "flaky", zero_server) ∷ [];
  embedding = record { provider = []; required = false; vector_backend = []; model = [] };
  search = record {
    lexical_enabled = true;
    semantic = record { enabled = false; required = false };
  };
  budgets = record {
    find_tool_max_results = pos 0;
    include_full_schemas = false;
    describe_include_examples = false;
    call_tool_max_result_bytes = pos 64;
  };
  cache = record { enabled = false; ttl_seconds = pos 0; max_entries = pos 0 };
  capability_breadcrumb = false;
}

abbrev learned : Learned
learned = record {
  listed = (codes "github", []) ∷ [];
  degraded = (codes "flaky", offline) ∷ [];
  embedded = [];
}

abbrev summary : Summary
summary = record {
  is_ok = true;
  servers_reached = 1;
  servers_skipped = 0;
  servers_failed = 1;
  tools_indexed = 0;
  embedded_count = 0;
  vector_count = 0;
  errors = [];
}

gone_deleted : has (to_delete (some config) learned (flaky ∷ gone ∷ [])) (codes "gone.a") ≡ true
unfolding action lookup has_key str_eq
gone_deleted = refl

abbrev catalog : Memory
catalog = record {
  servers = [];
  tools = (codes "flaky.a", flaky) ∷ (codes "gone.a", gone) ∷ [];
  last_indexed_at = 0;
}

catalog-IsValid : IsValid catalog
unfolding has_key lookup str_eq
catalog-IsValid = record {
  distinct_tools = (refl, (refl, tt));
  distinct_servers = tt;
  keyed = (refl, (refl, tt));
}

flaky_found : get_tool (codes "flaky.a") catalog ≡ some flaky
unfolding get_tool lookup str_eq
flaky_found = refl

flaky_safe : MayDelete (some config) learned flaky → ⊥
unfolding lookup has_key str_eq
flaky_safe (inl (refs, e, n)) = grind arith
flaky_safe (inr (e, n)) = grind arith

abbrev before : Valid
before = (catalog, catalog-IsValid)

reconcile-Kept_example :
    Kept memory_store memory_view
      (some config)
      learned
      (codes "flaky.a")
      flaky
      (reconcile memory_store (some config) learned (summary, before)).2
reconcile-Kept_example =
    reconcile-Kept memory_store memory_view (some config) learned (codes "flaky.a") flaky summary
      before refl flaky_found flaky_safe

-- A sink that counts what it was given.
abbrev counting_sink : Sink ℕ
counting_sink = record {
  available = true;
  upsert = λ items n. (some (length items), n + length items);
  delete_vectors = λ refs n. (true, n);
  vector_count = λ n. some n;
  persist = λ n. (true, n);
}

abbrev plain_codec : Codec
plain_codec = record { marshal = λ v. some []; unmarshal = λ b. some []; sha256_hex = λ b. b }

abbrev lists_one : Unit {0} → ℕ → ListReply
lists_one session millis = tools_listed (
    record {
      name = codes "search";
      title = [];
      description = [];
      input_schema = none;
      read_only_hint = none;
    }
    ∷ [])

abbrev reachable : Connection (Unit {0})
reachable = record { server_id = codes "github"; session = some tt; error = none; skipped = false }

-- A store that accepts everything and keeps nothing.
abbrev forgetful : Store (Unit {0})
forgetful = record {
  put_server = λ s w. (ok tt, w);
  put_tool = λ t w. (ok tt, w);
  delete_tools = λ refs w. (ok tt, w);
  tools = λ w. ok [];
  set_last_indexed_at = λ t w. (ok tt, w);
}

abbrev result : Summary × Unit {0} × ℕ
result = run forgetful plain_codec lists_one 7 (some config) counting_sink (reachable ∷ []) (tt, 0)
