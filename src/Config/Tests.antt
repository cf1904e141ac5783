-- ===== src/Config/Tests.antt =====
-- The theorems about the configuration at a configuration with a local, a remote and a disabled
-- server.
use ozy.Config.{Config, ServerConfig, RawServerConfig, zero_server}
use ozy.Config.Rules.{validate, validate_server, validate_servers, validate_sections}
use ozy.Config.WellFormed.{WellFormed, validate-WellFormed}
use ozy.Config.Redact.{redact_value, Shown, redact_value-id_iff}
use ozy.Common.{Str, codes, str_eq, ◌≡◌, refl, ◌↔◌, true, false, none, some, [], ◌∷◌, pos}

abbrev github : ServerConfig
github = record zero_server {
  type = codes "local";
  command = codes "npx" ∷ [];
  environment = (codes "TOKEN", codes "s3cret") ∷ [];
  enabled = true;
}

abbrev linear : ServerConfig
linear = record zero_server {
  type = codes "remote";
  url = codes "https://example.org/mcp";
  headers = (codes "Authorization", codes "Bearer {env:LINEAR}") ∷ [];
  enabled = true;
}

abbrev pub two_servers : Config
two_servers = record {
  schema = [];
  version = pos 1;
  mcp = (codes "github", github) ∷ (codes "linear", linear) ∷ (codes "off", zero_server) ∷ [];
  embedding = record { provider = []; required = false; vector_backend = []; model = [] };
  search = record {
    lexical_enabled = true;
    semantic = record { enabled = false; required = false };
  };
  budgets = record {
    find_tool_max_results = pos 0;
    include_full_schemas = false;
    describe_include_examples = false;
    call_tool_max_result_bytes = pos 64;
  };
  cache = record { enabled = false; ttl_seconds = pos 0; max_entries = pos 0 };
  capability_breadcrumb = false;
}

two_servers-valid : validate two_servers ≡ none
unfolding validate validate_server validate_servers validate_sections str_eq
two_servers-valid = refl

validate-WellFormed_example : (validate two_servers ≡ none) ↔ WellFormed two_servers
validate-WellFormed_example = validate-WellFormed two_servers

abbrev omitted : RawServerConfig
omitted = record {
  type = codes "local";
  command = codes "npx" ∷ [];
  cwd = [];
  environment = [];
  url = [];
  headers = [];
  oauth = [];
  enabled = none;
  timeout = none;
  call_timeout = some (pos 0);
}

abbrev literal_beside_reference : Str
literal_beside_reference = codes "s3cret{env:X}"

redact_value-id_iff_example :
    (redact_value literal_beside_reference ≡ literal_beside_reference)
    ↔ Shown literal_beside_reference
redact_value-id_iff_example = redact_value-id_iff literal_beside_reference
