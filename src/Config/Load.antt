-- ===== src/Config/Load.antt =====
-- internal/config/config.go: `Load`, from what reading the file and decoding it give.
use ozy.Contract.{Message, Error, config_error, config_missing, config_unreadable, config_invalid}
use ozy.Config.{Config, ServerConfig}
use ozy.Config.Defaults.{defaults_effective}
use mathlib.Core.Path.{◌∙◌}
use ozy.Config.Rules.{
  validate_servers, validate_sections, Sections, validate, apply_defaults, validate_server,
}
use ozy.Config.WellFormed.{WellFormed, ServerOk}
use ozy.Config.Env.{MissingRef, resolve_env, resolve_servers, resolve_server}
use ozy.Common.{
  Option-cases, Str, All, Map, ◌≡◌, refl, ◌∙◌, inl, inr, Bool, true, false, Option, none, some,
  List, [], ◌∷◌, arith,
}

pub data ConfigFile : Type 0 where
  absent : ConfigFile
  unreadable invalid : Str → ConfigFile
  decoded : Sections → Config → ConfigFile

-- `Loaded`; the two configurations share nothing, since `cloneConfig` copies the maps
pub record Loaded : Type 0 where
  pub path : Str
  pub raw : Config
  pub resolved : Config
  pub missing : List MissingRef

pub data LoadReply : Type 0 where
  load_failed : Error → LoadReply
  loaded : Loaded → LoadReply

abbrev load_error : Bool → Message → Error
load_error retryable message = record {
  type = config_error;
  tool_ref = [];
  server_id = [];
  retryable = retryable;
  message = message;
}

abbrev resolve_loaded : Str → Config → Config × List MissingRef → LoadReply
resolve_loaded path raw (resolved, missing) =
    loaded (record { path = path; raw = raw; resolved = resolved; missing = missing })

abbrev pub checked : (Str → Option Str) → Str → Sections → Config → Option Error → LoadReply
checked env path present c (some e) = load_failed e
checked env path present c none =
    let raw = apply_defaults present c in resolve_loaded path raw (resolve_env env raw)

unfoldable pub load : (Str → Option Str) → Str → ConfigFile → LoadReply
load env path absent = load_failed (load_error false (config_missing path))
load env path (unreadable e) = load_failed (load_error true (config_unreadable path e))
load env path (invalid e) = load_failed (load_error false (config_invalid path e))
load env path (decoded present c) = checked env path present c (validate c)

-- Resolving leaves a server's kind, command and URL alone.
resolve_servers-Ok :
    (env : Str → Option Str) (m : Map ServerConfig)
    → All (λ e. ServerOk e.1) m
    → All (λ e. ServerOk e.1) (resolve_servers env m).0
unfolding resolve_servers resolve_server
resolve_servers-Ok env [] h = tt
resolve_servers-Ok env ((id, s) ∷ m) h = (h.0, resolve_servers-Ok env m h.1)

resolve_env-WellFormed :
    (env : Str → Option Str) (c : Config) → WellFormed c → WellFormed (resolve_env env c).0
unfolding resolve_env
resolve_env-WellFormed env c w = record {
  servers = resolve_servers-Ok env c.mcp w.servers;
  backend = w.backend;
  ttl = w.ttl;
  entries = w.entries;
}

validate_server-config_error :
    (id : Str) (s : ServerConfig) (e : Error)
    → validate_server id s ≡ some e
    → e.type ≡ config_error
unfolding validate_server
validate_server-config_error id s e h = ground arith

validate_servers-config_error :
    (m : Map ServerConfig) (e : Error) → validate_servers m ≡ some e → e.type ≡ config_error
unfolding validate_servers
validate_servers-config_error [] e h = absurd (grind arith)
validate_servers-config_error ((id, s) ∷ m) e h = elim (Option-cases (validate_server id s)) [
  | inl n ↦ validate_servers-config_error m e (rw (n, validate_servers) at h)
  | inr (x, n) ↦ validate_server-config_error id s e (n ∙ (rw (n, validate_servers) at h))
]

validate-config_error : (c : Config) (e : Error) → validate c ≡ some e → e.type ≡ config_error
unfolding validate validate_sections
validate-config_error c e h = elim (Option-cases (validate_servers c.mcp)) [
  | inl n ↦ ground (arith, n)
  | inr (x, n) ↦ validate_servers-config_error c.mcp e (n ∙ (rw (n, validate) at h))
]

-- What the loaded configuration must be.
abbrev pub AllWellFormed : LoadReply → Type 0
AllWellFormed (load_failed e) = (e.type ≡ config_error)
AllWellFormed (loaded l) = WellFormed l.raw × WellFormed l.resolved

-- Whatever the file holds, loading it ends in a configuration error or in two well-formed
-- configurations, the one to show and the resolved one: neither the defaults nor the substitution of
-- the environment undoes what was validated.
pub load-WellFormed :
    (env : Str → Option Str) (path : Str) (file : ConfigFile) → AllWellFormed (load env path file)
unfolding load
load-WellFormed env path absent = refl
load-WellFormed env path (unreadable e) = refl
load-WellFormed env path (invalid e) = refl
load-WellFormed env path (decoded present c) = elim (Option-cases (validate c)) [
  | inl e ↦
      let raw = (defaults_effective present c e).2 in
      rw e (raw, resolve_env-WellFormed env (apply_defaults present c) raw)
  | inr (x, e) ↦ rw e (validate-config_error c x e)
]
