-- ===== src/Config/WellFormed.antt =====
-- What `validate` accepts.
use ozy.Config.{Config, ServerConfig, vector_backend_turbovec, vector_backend_faiss}
use ozy.Config.Rules.{no_command, validate_server, validate_servers, validate_sections, validate}
use ozy.Common.{
  Option-cases, Str, codes, str_eq_iff, All, is_negative, Map, ◌≡◌, refl, ◌≢◌, ◌↔◌, ◌⊎◌, inl, inr,
  false, none, [], ◌∷◌, arith,
}

-- A server entry can be connected to, or is disabled and left blank.
abbrev pub ServerOk : ServerConfig → Type 0
ServerOk s =
    ((s.enabled ≡ false) × (s.type ≡ []))
    ⊎ ((s.type ≡ codes "local") × (no_command s.command ≡ false))
    ⊎ ((s.type ≡ codes "remote") × (s.url ≢ []))

pub record WellFormed (c : Config) : Type 0 where
  pub servers : All (λ e. ServerOk e.1) c.mcp
  pub backend :
      (c.embedding.vector_backend ≡ [])
      ⊎ (c.embedding.vector_backend ≡ vector_backend_turbovec)
      ⊎ (c.embedding.vector_backend ≡ vector_backend_faiss)
  pub ttl : is_negative c.cache.ttl_seconds ≡ false
  pub entries : is_negative c.cache.max_entries ≡ false

server_iff : (id : Str) (s : ServerConfig) → (validate_server id s ≡ none) ↔ ServerOk s
unfolding validate_server
server_iff id s = ground (
  arith,
  str_eq_iff s.type [],
  str_eq_iff s.type (codes "local"),
  str_eq_iff s.type (codes "remote"),
  str_eq_iff s.url [],
)

servers_iff : (m : Map ServerConfig) → (validate_servers m ≡ none) ↔ All (λ e. ServerOk e.1) m
unfolding validate_servers
servers_iff [] = (λ _. tt, λ _. refl)
servers_iff ((id, s) ∷ m) = ground (arith, server_iff id s, servers_iff m)

sections_ok :
    (c : Config) → validate_sections c ≡ none → All (λ e. ServerOk e.1) c.mcp → WellFormed c
unfolding validate_sections
sections_ok c h servers = record {
  servers = servers;
  backend = ground (
    arith,
    str_eq_iff c.embedding.vector_backend [],
    str_eq_iff c.embedding.vector_backend vector_backend_turbovec,
    str_eq_iff c.embedding.vector_backend vector_backend_faiss,
  );
  ttl = ground arith;
  entries = ground arith;
}

sections_pass : (c : Config) → WellFormed c → validate_sections c ≡ none
unfolding validate_sections
sections_pass c w = ground (
  arith,
  w.backend,
  w.ttl,
  w.entries,
  str_eq_iff c.embedding.vector_backend [],
  str_eq_iff c.embedding.vector_backend vector_backend_turbovec,
  str_eq_iff c.embedding.vector_backend vector_backend_faiss,
)

-- `validate` accepts exactly the well-formed configurations, in whatever order it ranges over the
-- servers: each is disabled and blank, local with a command, or remote with a url; the vector
-- backend is blank or known; and the cache's numbers are not negative.
pub validate-WellFormed : (c : Config) → (validate c ≡ none) ↔ WellFormed c
unfolding validate
validate-WellFormed c = elim (Option-cases (validate_servers c.mcp)) [
  | inl e ↦
      rw (e, validate) (λ h. sections_ok c h ((servers_iff c.mcp).0 e), λ w. sections_pass c w)
  | inr (x, e) ↦ rw (e, validate) (λ h. cc, λ w. cc (e, (servers_iff c.mcp).1 w.servers))
]
