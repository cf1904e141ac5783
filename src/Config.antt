-- ===== src/Config.antt =====
-- internal/config/config.go: the sections of the configuration, with what an omitted field means.
-- encoding/json and hujson stand before this model: `Raw…` is what decoding one section gives, with
-- `none` for an omitted field. The rules, the redacted view and the theorems are in the children.
pub mod Rules
pub mod Redact
pub mod WellFormed
pub mod Defaults
pub mod Env
pub mod Load
mod Tests
use ozy.Common.{
  pos, if◌then◌else◌, Str, codes, ℤ, is_positive, nat_of, Map, ℕ, Bool, true, false, Option, none,
  some, List, [],
}

abbrev pub default_discovery_timeout_millis : ℕ
default_discovery_timeout_millis = 5000

abbrev pub default_call_timeout_millis : ℕ
default_call_timeout_millis = 60000

pub record ServerConfig : Type 0 where
  pub type : Str
  pub command : List Str
  pub cwd : Str
  pub environment : Map Str
  pub url : Str
  pub headers : Map Str
  pub oauth : Str
  pub enabled : Bool
  pub timeout : ℤ
  pub call_timeout : ℤ

pub record RawServerConfig : Type 0 where
  pub type : Str
  pub command : List Str
  pub cwd : Str
  pub environment : Map Str
  pub url : Str
  pub headers : Map Str
  pub oauth : Str
  pub enabled : Option Bool
  pub timeout : Option ℤ
  pub call_timeout : Option ℤ

abbrev pub get_or {ℓ} : {A : Type ℓ} → A → Option A → A
get_or d none = d
get_or d (some a) = a

-- `ServerConfig.UnmarshalJSON`, after the fields are decoded
unfoldable pub server_of_raw : RawServerConfig → ServerConfig
server_of_raw raw = record {
  type = raw.type;
  command = raw.command;
  cwd = raw.cwd;
  environment = raw.environment;
  url = raw.url;
  headers = raw.headers;
  oauth = raw.oauth;
  enabled = get_or true raw.enabled;
  timeout = get_or (pos default_discovery_timeout_millis) raw.timeout;
  call_timeout = get_or (pos default_call_timeout_millis) raw.call_timeout;
}

-- `ServerConfig{}`
abbrev pub zero_server : ServerConfig
zero_server = record {
  type = [];
  command = [];
  cwd = [];
  environment = [];
  url = [];
  headers = [];
  oauth = [];
  enabled = false;
  timeout = pos 0;
  call_timeout = pos 0;
}

-- `DiscoveryTimeout` and `InvocationTimeout`, in milliseconds
unfoldable pub discovery_timeout : ServerConfig → ℕ
discovery_timeout s =
    if is_positive s.timeout then nat_of s.timeout else default_discovery_timeout_millis

unfoldable pub invocation_timeout : ServerConfig → ℕ
invocation_timeout s =
    if is_positive s.call_timeout then nat_of s.call_timeout else default_call_timeout_millis

abbrev pub vector_backend_turbovec : Str
vector_backend_turbovec = codes "turbovec"

abbrev pub vector_backend_faiss : Str
vector_backend_faiss = codes "faiss"

abbrev pub default_embedding_model : Str
default_embedding_model = codes "BAAI/bge-small-en-v1.5"

pub record EmbeddingConfig : Type 0 where
  pub provider : Str
  pub required : Bool
  pub vector_backend : Str
  pub model : Str

pub record SemanticSearch : Type 0 where
  pub enabled : Bool
  pub required : Bool

pub record RawSemanticSearch : Type 0 where
  pub enabled : Option Bool
  pub required : Bool

-- `SemanticSearch.UnmarshalJSON`
unfoldable pub semantic_of_raw : RawSemanticSearch → SemanticSearch
semantic_of_raw raw = record { enabled = get_or true raw.enabled; required = raw.required }

pub record SearchConfig : Type 0 where
  pub lexical_enabled : Bool
  pub semantic : SemanticSearch

-- `SearchConfig.UnmarshalJSON`: an omitted leg is on
unfoldable pub search_of_raw : Option Bool → Option SemanticSearch → SearchConfig
search_of_raw lexical semantic = record {
  lexical_enabled = get_or true lexical;
  semantic = get_or (record { enabled = true; required = false }) semantic;
}

pub record BudgetsConfig : Type 0 where
  pub find_tool_max_results : ℤ
  pub include_full_schemas : Bool
  pub describe_include_examples : Bool
  pub call_tool_max_result_bytes : ℤ

abbrev pub default_find_tool_max_results : ℕ
default_find_tool_max_results = 5

-- `FindToolBudget.EffectiveMaxResults`
unfoldable pub effective_max_results : BudgetsConfig → ℕ
effective_max_results b =
    if is_positive b.find_tool_max_results
    then nat_of b.find_tool_max_results
    else default_find_tool_max_results

abbrev pub default_cache_ttl_seconds : ℕ
default_cache_ttl_seconds = 300

abbrev pub default_cache_max_entries : ℕ
default_cache_max_entries = 1024

pub record CacheConfig : Type 0 where
  pub enabled : Bool
  pub ttl_seconds : ℤ
  pub max_entries : ℤ

pub record RawCacheConfig : Type 0 where
  pub enabled : Option Bool
  pub ttl_seconds : ℤ
  pub max_entries : ℤ

-- `CacheConfig.UnmarshalJSON`
unfoldable pub cache_of_raw : RawCacheConfig → CacheConfig
cache_of_raw raw = record {
  enabled = get_or true raw.enabled;
  ttl_seconds = raw.ttl_seconds;
  max_entries = raw.max_entries;
}

pub record Config : Type 0 where
  pub schema : Str
  pub version : ℤ
  pub mcp : Map ServerConfig
  pub embedding : EmbeddingConfig
  pub search : SearchConfig
  pub budgets : BudgetsConfig
  pub cache : CacheConfig
  pub capability_breadcrumb : Bool
