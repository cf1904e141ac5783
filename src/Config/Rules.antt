-- ===== src/Config/Rules.antt =====
-- internal/config/config.go: `validate` and `applyDefaults`.
use ozy.Config.{
  Config, ServerConfig, vector_backend_turbovec, vector_backend_faiss, default_embedding_model,
  default_cache_ttl_seconds, default_cache_max_entries,
}
use ozy.Contract.{Error, config_error, config_field}
use ozy.Common.{
  pos, if◌then◌else◌, Str, codes, str_eq, ℤ, is_negative, is_zero, Map, ℕ, Bool, true, false, not,
  ◌&&◌, ◌||◌, Option, none, some, List, [], ◌∷◌,
}

abbrev pub failure : Str → Str → Error
failure server field = record {
  type = config_error;
  tool_ref = [];
  server_id = server;
  retryable = false;
  message = config_field server field;
}

abbrev pub no_command : List Str → Bool
no_command [] = true
no_command (c ∷ _) = str_eq c []

-- the body of the loop of `validate`
unfoldable pub validate_server : Str → ServerConfig → Option Error
validate_server id s =
    if not s.enabled && str_eq s.type []
    then none
    else if str_eq s.type (codes "local")
    then (if no_command s.command then some (failure id (codes "command")) else none)
    else if str_eq s.type (codes "remote")
    then (if str_eq s.url [] then some (failure id (codes "url")) else none)
    else some (failure id (codes "type"))

-- the loop of `validate`: the first failure, in iteration order
unfoldable pub validate_servers : Map ServerConfig → Option Error
validate_servers [] = none
validate_servers ((id, s) ∷ rest) =
    let later = validate_servers rest in
    elim (validate_server id s) [ some e ↦ some e | none ↦ later ]

-- the checks that follow the loop
unfoldable pub validate_sections : Config → Option Error
validate_sections c =
    if not (
      str_eq c.embedding.vector_backend []
      || (str_eq c.embedding.vector_backend vector_backend_turbovec
          || str_eq c.embedding.vector_backend vector_backend_faiss))
    then some (failure [] (codes "embedding.vectorBackend"))
    else if is_negative c.cache.ttl_seconds
    then some (failure [] (codes "cache.ttlSeconds"))
    else if is_negative c.cache.max_entries
    then some (failure [] (codes "cache.maxEntries"))
    else none

unfoldable pub validate : Config → Option Error
validate c = elim (validate_servers c.mcp) [ some e ↦ some e | none ↦ validate_sections c ]

-- Which of the sections `search`, `cache` and `surface` the document has.
pub record Sections : Type 0 where
  pub search : Bool
  pub cache : Bool
  pub surface : Bool

abbrev pub or_default : Str → Str → Str
or_default d s = if str_eq s [] then d else s

abbrev pub or_number : ℕ → ℤ → ℤ
or_number d n = if is_zero n then pos d else n

unfoldable pub apply_defaults : Sections → Config → Config
apply_defaults present c = record c {
  embedding = record c.embedding {
    vector_backend = or_default vector_backend_turbovec c.embedding.vector_backend;
    model = or_default default_embedding_model c.embedding.model;
  };
  search = record c.search {
    semantic = record c.search.semantic {
      enabled = c.search.semantic.enabled || not present.search;
    };
  };
  cache = record {
    enabled = c.cache.enabled || not present.cache;
    ttl_seconds = or_number default_cache_ttl_seconds c.cache.ttl_seconds;
    max_entries = or_number default_cache_max_entries c.cache.max_entries;
  };
  capability_breadcrumb = c.capability_breadcrumb || not present.surface;
}
