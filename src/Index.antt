-- ===== src/Index.antt =====
-- internal/index/index.go: the summary of an index run, what the indexer is wired to, and the
-- listing of one server. The catalog store, the embedding sink and the sessions are records of
-- operations; encoding/json and SHA-256 are functions of `Codec`.
use ozy.Broker.Reply.{join_lines}
pub mod Reconcile
pub mod Run
mod Tests
use ozy.Json.{fields_of, Value, obj, str, field, end}
use ozy.Contract.{
  ErrType, Error, Message, config_error, downstream_call_failed, list_failed, invalid_schema,
  status_not_persisted, tool_not_persisted,
}
use ozy.Catalog.{Time, fresh, ServerStatus, online, Server, Tool, Reply, ok, fail}
use ozy.Config.{get_or, ServerConfig}
use ozy.Downstream.{scrub}
use ozy.Broker.Refs.{make_ref}
use ozy.Common.{
  ◌>>=◌, if◌then◌else◌, Str, codes, str_eq, Map, ℕ, ◌+◌, Bool, true, false, Option, none, some,
  List, [], ◌∷◌, ◌++◌, map,
}

-- `EmbedItem`, less the tags, which are never set
pub record EmbedItem : Type 0 where
  pub tool_ref : Str
  pub text : Str
  pub content_hash : Str
  pub server_id : Str

-- `Summary`, less the instruction
pub record Summary : Type 0 where
  pub is_ok : Bool
  pub servers_reached : ℕ
  pub servers_skipped : ℕ
  pub servers_failed : ℕ
  pub tools_indexed : ℕ
  pub embedded_count : ℕ
  pub vector_count : ℕ
  pub errors : List Error

-- the part of `catalog.Store` that the indexer calls
pub record Store (W : Type 0) : Type 0 where
  pub put_server : Server → W → Reply (Unit {0}) × W
  pub put_tool : Tool → W → Reply (Unit {0}) × W
  pub delete_tools : List Str → W → Reply (Unit {0}) × W
  pub tools : W → Reply (List Tool)
  pub set_last_indexed_at : Time → W → Reply (Unit {0}) × W

-- the MCP SDK's `Tool`
pub record ListedTool : Type 0 where
  pub name : Str
  pub title : Str
  pub description : Str
  pub input_schema : Option Value
  pub read_only_hint : Option Bool

-- `session.ListTools`, within a time limit in milliseconds
pub data ListReply : Type 0 where
  list_error : Str → ListReply
  tools_listed : List ListedTool → ListReply

pub record Codec : Type 0 where
  pub marshal : Value → Option Str
  pub unmarshal : Str → Option (Map Value)
  pub sha256_hex : Str → Str

abbrev pub failure : ErrType → Str → Bool → Message → Error
failure type server retryable message = record {
  type = type;
  tool_ref = [];
  server_id = server;
  retryable = retryable;
  message = message;
}

-- `summary.Errors = append(summary.Errors, e)`
abbrev pub report : Error → Summary → Summary
report e s = record s { errors = s.errors ++ (e ∷ []) }

-- the same, after `summary.OK = false`
abbrev pub report_fatal : Error → Summary → Summary
report_fatal e s = record s { is_ok = false; errors = s.errors ++ (e ∷ []) }

abbrev pub object_schema : Value
object_schema = obj (field (codes "type") (str (codes "object")) end)

-- `normalizeSchema`
unfoldable pub normalize_schema : Codec → Option Value → Option (Map Value × Str)
normalize_schema c schema = do
  encoded ← c.marshal (elim schema [ none ↦ object_schema | some v ↦ v ])
  out ← c.unmarshal encoded
  canonical ← c.marshal (obj (fields_of out))
  some (out, c.sha256_hex canonical)

-- `normalizeTool`
unfoldable pub normalize_tool : Codec → Str → Time → ListedTool → Option Tool
unfolding normalize_schema
normalize_tool c server now tool = do
  schema ← normalize_schema c tool.input_schema
  some (record {
    tool_ref = make_ref server tool.name;
    server_id = server;
    downstream_tool_name = tool.name;
    title = tool.title;
    description = tool.description;
    input_schema = schema.0;
    capability_text = tool.title ∷ tool.description ∷ [];
    server_status = online;
    callable_now = true;
    read_only = get_or false tool.read_only_hint;
    last_indexed_at = now;
    schema_hash = schema.1;
    freshness = fresh;
  })

abbrev pub labelled : Str → Str → List Str
labelled label s = if str_eq s [] then [] else (label ++ s) ∷ []

abbrev pub aliases : List Str → List Str
aliases [] = []
aliases (a ∷ rest) = labelled (codes "alias: ") a ++ aliases rest

-- `buildEmbedItem`
unfoldable pub build_embed_item : Tool → EmbedItem
build_embed_item t = record {
  tool_ref = t.tool_ref;
  text = join_lines (
      (codes "server: " ++ t.server_id)
      ∷ (codes "tool: " ++ t.tool_ref)
      ∷ (codes "downstream: " ++ t.downstream_tool_name)
      ∷ (labelled (codes "title: ") t.title
          ++ labelled (codes "description: ") t.description
          ++ aliases t.capability_text));
  content_hash = t.schema_hash;
  server_id = t.server_id;
}

module _ {W : Type 0} (store : Store W) where
  abbrev pub recorded : Str → Summary → Reply (Unit {0}) → Summary
  recorded id s (ok _) = s
  recorded id s (fail e) = report_fatal (failure config_error id true status_not_persisted) s

  unfoldable pub record_server : Str → ServerStatus → Summary × W → Summary × W
  record_server id status (s, w) =
      let (reply, w2) = store.put_server (record { id = id; status = status }) w in
      (recorded id s reply, w2)

  -- the end of the loop of `indexSession`: what `PutTool` answers
  abbrev pub tool_put : Str → Tool → Summary → Reply (Unit {0}) → Summary × List EmbedItem
  tool_put id t s (fail e) =
      (report_fatal (failure config_error id true (tool_not_persisted t.tool_ref)) s, [])
  tool_put id t s (ok _) =
      (record s { tools_indexed = s.tools_indexed + 1 }, build_embed_item t ∷ [])

  -- the body of the loop of `indexSession`, on the normalized tool
  abbrev pub index_tool :
      Str → ListedTool → Option Tool → Summary → W → Summary × List EmbedItem × W
  index_tool id tool none s w =
      (report (failure downstream_call_failed id false (invalid_schema tool.name)) s, [], w)
  index_tool id tool (some t) s w =
      let (reply, w2) = store.put_tool t w in
      let (s2, item) = tool_put id t s reply in (s2, item, w2)

  abbrev pub index_tools :
      Codec → Str → Time → List ListedTool → Summary → W → Summary × List EmbedItem × W
  index_tools c id now [] s w = (s, [], w)
  index_tools c id now (tool ∷ tools) s w =
      let (s2, item, w2) = index_tool id tool (normalize_tool c id now tool) s w in
      let (s3, items, w3) = index_tools c id now tools s2 w2 in (s3, item ++ items, w3)

  -- `discovered`
  abbrev pub served : Str → List ListedTool → List Str
  served id = map (λ t. make_ref id t.name)

  -- `indexSession`, on what `ListTools` answers: the items to embed, and the references that the
  -- server serves if the listing succeeded
  unfoldable pub index_session :
      Codec
      → Str
      → ServerConfig
      → Time
      → ListReply
      → Summary
      → W
      → Summary × List EmbedItem × Option (List Str) × W
  index_session c id server now (list_error e) s w = (
    report (failure downstream_call_failed id true (list_failed (scrub e server)))
        (record s { servers_failed = s.servers_failed + 1 }),
    [],
    none,
    w,
  )
  index_session c id server now (tools_listed tools) s w =
      let (s2, items, w2) = index_tools c id now tools s w in
      (s2, items, some (served id tools), w2)
