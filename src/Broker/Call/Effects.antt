-- ===== src/Broker/Call/Effects.antt =====
-- internal/broker/live.go: which servers a call contacts, and when.
use ozy.Contract.{Error}
use ozy.Json.{Value}
use ozy.Catalog.{Tool, Reply, ok, fail}
use ozy.Contract.{CallResult}
use ozy.Broker.{Answer}
use ozy.Config.{Config, ServerConfig}
use ozy.Broker.Refs.{split_tool_ref}
use ozy.Broker.Call.{
  after_validation, after_lookup, after_connect, after_split, server_lookup, validate_args,
  no_schema, call_live, arguments_error, Backend, Contact, connected, invoked, closed,
}
use ozy.Schema.Conformance.{Conforms, validate_iff}
use ozy.Common.{
  Bool-cases, if_case, Str, Map, ◌≡◌, refl, ◌⊎◌, inl, inr, true, Option, none, some, List, [], ◌∷◌,
  arith,
}

-- The arguments pass the catalog's check: it has no schema for the tool, or they conform to it.
abbrev pub ArgumentsPass : Map Value → Reply (Option Tool) → Type 0
ArgumentsPass args (fail e) = Unit
ArgumentsPass args (ok none) = Unit
ArgumentsPass args (ok (some tool)) = (tool.input_schema ≡ []) ⊎ Conforms tool.input_schema args

-- A call may contact a server: `ref` names the tool `name` of the server `id`, which is configured
-- and enabled, and the arguments pass.
pub record Admitted {S : Type 0} (w : Backend S) (cfg : Option Config) (ref : Str)
    (args : Map Value) (id name : Str) : Type 0 where
  pub named : split_tool_ref ref ≡ some (id, name)
  pub server : ServerConfig
  pub configured : server_lookup cfg id ≡ some server
  pub enabled : server.enabled ≡ true
  pub arguments : ArgumentsPass args (w.get_tool ref)

no_schema-eq : (m : Map Value) → no_schema m ≡ true → m ≡ []
no_schema-eq [] h = refl
no_schema-eq (e ∷ m) h = grind arith

no_error : (ref : Str) (tool : Tool) (ps : List Str) → arguments_error ref tool ps ≡ none → ps ≡ []
no_error ref tool [] h = refl
no_error ref tool (p ∷ ps) h = grind arith

validate_args-passes :
    (quote : Str → Str) (ref : Str) (args : Map Value) (r : Reply (Option Tool))
    → validate_args quote ref args r ≡ none
    → ArgumentsPass args r
validate_args-passes quote ref args (fail e) h = tt
validate_args-passes quote ref args (ok none) h = tt
validate_args-passes quote ref args (ok (some tool)) h =
    elim (Bool-cases (no_schema tool.input_schema)) [
      | inl e ↦ inl (no_schema-eq tool.input_schema e)
      | inr e ↦
          inr ((validate_iff quote tool.input_schema args).0 (no_error ref tool _ (rw e at h)))
    ]

module _ {S : Type 0} (w : Backend S) (cfg : Option Config) (ref : Str) (args : Map Value) where
  -- The contacts of a call: none, or a connection to the one admitted server, after which the tool
  -- is invoked once, and the session closed, if there is a session.
  abbrev pub Disciplined : List Contact → Type 0
  Disciplined contacts =
      (contacts ≡ [])
      ⊎ ((id name : Str) × Admitted w cfg ref args id name
          × ((contacts ≡ connected id ∷ [])
              ⊎ (contacts ≡ connected id ∷ invoked id name args ∷ closed id ∷ [])))

  connect-Disciplined :
      (id name : Str) (server : ServerConfig) (e : Option Error) (session : Option S)
      → Admitted w cfg ref args id name
      → Disciplined (after_connect w cfg ref args id name server e session).1
  connect-Disciplined id name server (some e) session a = inr (id, name, a, inl refl)
  connect-Disciplined id name server none none a = inr (id, name, a, inl refl)
  connect-Disciplined id name server none (some s) a = inr (id, name, a, inr refl)

  validation-Disciplined :
      (id name : Str) (server : ServerConfig) (e : Option Error)
      → (e ≡ none → Admitted w cfg ref args id name)
      → Disciplined (after_validation w cfg ref args id name server e).1
  validation-Disciplined id name server (some e) a = inl refl
  validation-Disciplined id name server none a = connect-Disciplined id name server _ _ (a refl)

  lookup-Disciplined :
      (id name : Str) (server : Option ServerConfig)
      → split_tool_ref ref ≡ some (id, name)
      → server_lookup cfg id ≡ server
      → Disciplined (after_lookup w cfg ref args id name server).1
  lookup-Disciplined id name none h k = inl refl
  lookup-Disciplined id name (some server) h k =
      if_case {A = Answer CallResult × List Contact} (λ r. Disciplined r.1) server.enabled
        (λ on. validation-Disciplined id name server _ (λ valid. record {
          named = h;
          server = server;
          configured = k;
          enabled = on;
          arguments = validate_args-passes w.quote ref args (w.get_tool ref) valid;
        }))
        (λ off. inl refl)

  split-Disciplined :
      (parts : Option (Str × Str))
      → split_tool_ref ref ≡ parts
      → Disciplined (after_split w cfg ref args parts).1
  split-Disciplined none h = inl refl
  split-Disciplined (some (id, name)) h = lookup-Disciplined id name _ h refl

  -- A call contacts no server, or only the one that the reference names, and only if that server is
  -- configured and enabled and the arguments conform to the cataloged schema, if there is one; the
  -- tool is then invoked at most once, with the arguments given, and its session is closed.
  pub call_live-Disciplined : Disciplined (call_live w cfg ref args).1
  unfolding call_live
  call_live-Disciplined = split-Disciplined (split_tool_ref ref) refl
