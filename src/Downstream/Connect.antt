-- ===== src/Downstream/Connect.antt =====
-- internal/downstream/connector.go: `defaultTransport`, `Connect` and `ConnectAll`. The goroutines of
-- `ConnectAll` are slots that move in any order; `S` is the type of open sessions, `quote` fmt's `%q`,
-- and a `Dialled` the answer of the MCP SDK's client.
pub mod Bounds
use ozy.Contract.{Error, auth_unavailable, config_error, downstream_server_offline, connection}
use ozy.Config.{ServerConfig}
use ozy.Downstream.{Connection, scrub}
use ozy.Common.{
  if◌then◌else◌, Str, codes, str_eq, contains, sort_strings, Map, keys, lookup, trim_space,
  to_lower, ℕ, suc, ◌<◌, ◌≡◌, Bool, true, false, not, ◌&&◌, ◌||◌, Option, none, some, List, [], ◌∷◌,
  ◌++◌,
}

-- the transports of the MCP SDK that are built here
pub data Transport : Type 0 where
  command_transport : List Str → Str → Option (List Str) → Transport
  stream_transport : Str → Map Str → Transport

pub data Dialled {ℓ} (A : Type ℓ) : Type ℓ where
  opened : A → Dialled A
  broken : Str → Dialled A

-- `k+"="+v` for the sorted keys, after the process's own environment
abbrev pub pairs : Map Str → List Str → List Str
pairs env [] = []
pairs env (k ∷ ks) =
    (k ++ (codes "=" ++ elim (lookup k env) [ none ↦ [] | some v ↦ v ])) ∷ pairs env ks

abbrev pub child_env : List Str → Map Str → Option (List Str)
child_env environ [] = none
child_env environ (e ∷ env) = some (environ ++ pairs (e ∷ env) (sort_strings (keys (e ∷ env))))

abbrev pub no_program : List Str → Bool
no_program [] = true
no_program (program ∷ args) = str_eq program []

module _ (quote : Str → Str) where
  unfoldable pub default_transport : List Str → ServerConfig → Dialled Transport
  default_transport environ server =
      if str_eq server.type (codes "local")
      then if no_program server.command
        then broken (codes "local server missing command")
        else opened
            (command_transport server.command server.cwd (child_env environ server.environment))
      else if str_eq server.type (codes "remote")
      then if str_eq server.url []
        then broken (codes "remote server missing url")
        else opened (stream_transport server.url server.headers)
      else broken (codes "unknown server type " ++ quote server.type)

  abbrev pub names_auth : Str → Bool
  names_auth msg =
      contains msg (codes "401")
      || (contains msg (codes "unauthorized")
          || (contains msg (codes "oauth") || contains msg (codes "auth")))

  unfoldable pub is_oauth_auth_failure : ServerConfig → Str → Bool
  is_oauth_auth_failure server err =
      not (str_eq server.oauth [] || str_eq (trim_space server.oauth) (codes "false"))
      && names_auth (to_lower err)

  unfoldable pub failed_config : Str → ServerConfig → Str → Error
  unfolding scrub
  failed_config id server err = record {
    type = config_error;
    tool_ref = [];
    server_id = id;
    retryable = false;
    message = connection (scrub err server);
  }

  unfoldable pub connection_error : Str → ServerConfig → Str → Error
  unfolding is_oauth_auth_failure scrub
  connection_error id server err =
      if is_oauth_auth_failure server err
      then record {
        type = auth_unavailable;
        tool_ref = [];
        server_id = id;
        retryable = false;
        message = connection (
            codes "oauth authentication is required for server "
            ++ (quote id
                ++ (codes " but Ozy does not implement the OAuth flow in this build: "
                    ++ scrub err server)));
      }
      else record {
        type = downstream_server_offline;
        tool_ref = [];
        server_id = id;
        retryable = true;
        message = connection (
            codes "could not connect to server " ++ (quote id ++ (codes ": " ++ scrub err server)));
      }

  module _ (S : Type 0) where
    abbrev pub unconnected : Str → Connection S
    unconnected id = record { server_id = id; session = none; error = none; skipped = false }

    abbrev pub dialled : Str → ServerConfig → Dialled S → Connection S
    dialled id server (opened s) = record (unconnected id) { session = some s }
    dialled id server (broken e) = record (unconnected id) {
      error = some (connection_error id server e);
    }

    -- `Connect`, with the transport that the factory made and the client's answer on it
    unfoldable pub connect : Str → ServerConfig → Dialled Transport → Dialled S → Connection S
    unfolding failed_config connection_error
    connect id server (broken e) reply = record (unconnected id) {
      error = some (failed_config id server e);
    }
    connect id server (opened t) reply = dialled id server reply

    pub data Phase : Type 0 where
      waiting running finished : Phase

    -- an element of `results`, with the server's configuration and its goroutine
    pub record Slot : Type 0 where
      pub id : Str
      pub server : ServerConfig
      pub phase : Phase
      pub result : Connection S

    abbrev pub new_slot : Str → ServerConfig → Slot
    new_slot id server = record {
      id = id;
      server = server;
      phase = if server.enabled then waiting else finished;
      result = record (unconnected id) { skipped = not server.enabled };
    }

    abbrev pub slots_of : Map ServerConfig → List Str → List Slot
    slots_of mcp [] = []
    slots_of mcp (id ∷ ids) =
        let rest = slots_of mcp ids in
        elim (lookup id mcp) [ none ↦ rest | some server ↦ new_slot id server ∷ rest ]

    -- one slot for each configured server, in the order of the ids
    unfoldable pub connect_all : Map ServerConfig → List Slot
    connect_all mcp = slots_of mcp (sort_strings (keys mcp))

    -- A goroutine's step, with the number of places of the semaphore that are taken before and after:
    -- it takes a place, or finds that the context has ended, or connects and gives its place back.
    pub data Move (limit : ℕ) : Slot → ℕ → Slot → ℕ → Type 0 where
      take_place :
          {a : Slot} {held : ℕ}
          → a.phase ≡ waiting
          → held < limit
          → Move limit a held (record a { phase = running }) (suc held)
      cancelled :
          {a : Slot} {held : ℕ} (e : Str)
          → a.phase ≡ waiting
          → Move limit a held
              (record a {
                phase = finished;
                result = record (unconnected a.id) {
                  error = some (connection_error a.id a.server e);
                };
              })
              held
      connected :
          {a : Slot} {held : ℕ} (t : Dialled Transport) (reply : Dialled S)
          → a.phase ≡ running
          → Move limit a
              (suc held)
              (record a { phase = finished; result = connect a.id a.server t reply })
              held

    pub data Step (limit : ℕ) : List Slot → ℕ → List Slot → ℕ → Type 0 where
      first :
          {a b : Slot} {rest : List Slot} {held held' : ℕ}
          → Move limit a held b held'
          → Step limit (a ∷ rest) held (b ∷ rest) held'
      later :
          {a : Slot} {xs ys : List Slot} {held held' : ℕ}
          → Step limit xs held ys held'
          → Step limit (a ∷ xs) held (a ∷ ys) held'

    pub data Run (limit : ℕ) (xs : List Slot) : List Slot → ℕ → Type 0 where
      begin : Run limit xs xs 0
      next :
          {ys zs : List Slot} {held held' : ℕ}
          → Run limit xs ys held
          → Step limit ys held zs held'
          → Run limit xs zs held'
