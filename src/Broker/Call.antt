-- ===== src/Broker/Call.antt =====
-- internal/broker/live.go: `CallTool` of the live broker. `Backend` stands for what it is wired to:
-- the catalog's answers, the connector, the sessions of the MCP SDK and the clock of the call, and
-- for the functions of Go's library that format and encode.
pub mod Effects
pub mod Outcomes
mod Tests
use ozy.Broker.Reply.{
  ToolReply, CallReply, call_error, replied, extract_error_text, normalize_call_result,
  summarize_call, notice_text, truncated,
}
use ozy.Json.{Value}
use ozy.Contract.{
  Error, Message, CallResult, tool_not_found, config_error, argument_validation_failed,
  downstream_server_offline, downstream_call_failed, malformed_ref, unknown_server, disabled_server,
  no_session, call_failed, tool_error, invalid_arguments, call_timeout_exceeded, connection,
}
use ozy.Catalog.{Tool, Reply, ok, fail}
use ozy.Config.{Config, ServerConfig, invocation_timeout}
use ozy.Downstream.{Connection, scrub}
use ozy.Broker.{Answer, done, failed}
use ozy.Broker.Refs.{split_tool_ref}
use ozy.Broker.Budget.{apply_call_budget}
use ozy.Schema.{validate}
use ozy.Common.{
  if◌then◌else◌, Str, codes, Map, lookup, ℕ, Bool, true, false, Option, none, some, List, [], ◌∷◌,
  ◌++◌,
}

pub record Backend (S : Type 0) : Type 0 where
  pub get_tool : Str → Reply (Option Tool)
  pub connect : Str → ServerConfig → Connection S
  pub call : S → Str → Map Value → CallReply
  -- whether the call's own deadline, and not the caller's, has passed after each step
  pub late_connect : Bool
  pub late_call : Bool
  pub quote : Str → Str
  pub trim_space : Str → Str
  pub format_int : ℕ → Str
  pub marshal : Value → Option Str
  pub to_valid_utf8 : Str → Str

-- What `CallTool` does outside Ozy.
pub data Contact : Type 0 where
  connected : Str → Contact
  invoked : Str → Str → Map Value → Contact
  closed : Str → Contact

abbrev pub malformed : Str → Error
malformed ref = record {
  type = tool_not_found;
  tool_ref = ref;
  server_id = [];
  retryable = false;
  message = malformed_ref;
}

abbrev pub config_failure : Str → Str → Message → Error
config_failure ref server message = record {
  type = config_error;
  tool_ref = ref;
  server_id = server;
  retryable = false;
  message = message;
}

abbrev pub call_failure : Str → Str → Bool → Message → Error
call_failure ref server retryable message = record {
  type = downstream_call_failed;
  tool_ref = ref;
  server_id = server;
  retryable = retryable;
  message = message;
}

-- `deadlineError`, where it is not nil
abbrev pub deadline_error : Str → Str → ServerConfig → Error
deadline_error ref id server =
    call_failure ref id false (call_timeout_exceeded (invocation_timeout server) id)

-- `downstream.Scrub(result.Error.Message, server)`: the texts that come from downstream are scrubbed
abbrev pub scrub_message : ServerConfig → Message → Message
scrub_message server (connection msg) = connection (scrub msg server)
scrub_message server (call_failed id msg) = call_failed id (scrub msg server)
scrub_message server (tool_error msg) = tool_error (scrub msg server)
scrub_message server msg = msg

-- `serverLookup`
abbrev pub server_lookup : Option Config → Str → Option ServerConfig
server_lookup none id = none
server_lookup (some cfg) id = lookup id cfg.mcp

abbrev pub no_schema : Map Value → Bool
no_schema [] = true
no_schema (_ ∷ _) = false

abbrev pub arguments_error : Str → Tool → List Str → Option Error
arguments_error ref tool [] = none
arguments_error ref tool (p ∷ problems) = some (record {
  type = argument_validation_failed;
  tool_ref = ref;
  server_id = tool.server_id;
  retryable = false;
  message = invalid_arguments (p ∷ problems);
})

-- `validateArgs`, on the catalog's answer
abbrev pub validate_args : (Str → Str) → Str → Map Value → Reply (Option Tool) → Option Error
validate_args quote ref args (fail e) = none
validate_args quote ref args (ok none) = none
validate_args quote ref args (ok (some tool)) =
    if no_schema tool.input_schema
    then none
    else arguments_error ref tool (validate quote tool.input_schema args)

module _ {S : Type 0} (w : Backend S) (cfg : Option Config) (ref : Str) (args : Map Value) where
  -- the end of `CallTool`
  abbrev pub success : Str → ToolReply → CallResult
  success name res =
      let whole = normalize_call_result res in
      let summary = summarize_call w.quote name whole in
      let (bounded, notice) = apply_call_budget w.marshal w.to_valid_utf8 cfg whole in
      record {
        ok = true;
        tool_ref = ref;
        result = bounded;
        result_summary = if truncated notice then summary ++ codes " (truncated)" else summary;
        notices = notice_text w.format_int notice;
        cached_age_seconds = none;
      }

  abbrev pub after_call : Str → Str → ServerConfig → CallReply → Answer CallResult
  after_call id name server (call_error e) = failed (
      if w.late_call
      then deadline_error ref id server
      else call_failure ref id true (call_failed id (scrub e server)))
  after_call id name server (replied res) =
      if res.is_error
      then failed (
          call_failure ref id false
            (tool_error (scrub (extract_error_text w.trim_space res) server)))
      else done (success name res)

  abbrev pub after_session : Str → Str → ServerConfig → Option S → Answer CallResult × List Contact
  after_session id name server none = (
    failed (record {
      type = downstream_server_offline;
      tool_ref = ref;
      server_id = id;
      retryable = true;
      message = no_session;
    }),
    connected id ∷ [],
  )
  after_session id name server (some session) = (
    after_call id name server (w.call session name args),
    connected id ∷ invoked id name args ∷ closed id ∷ [],
  )

  abbrev pub after_connect :
      Str → Str → ServerConfig → Option Error → Option S → Answer CallResult × List Contact
  after_connect id name server (some e) session = (
    failed (
        if w.late_connect
        then deadline_error ref id server
        else record e { tool_ref = ref; message = scrub_message server e.message }),
    connected id ∷ [],
  )
  after_connect id name server none session = after_session id name server session

  abbrev pub after_validation :
      Str → Str → ServerConfig → Option Error → Answer CallResult × List Contact
  after_validation id name server (some e) = (failed e, [])
  after_validation id name server none =
      let result = w.connect id server in after_connect id name server result.error result.session

  abbrev pub after_lookup : Str → Str → Option ServerConfig → Answer CallResult × List Contact
  after_lookup id name none = (failed (config_failure ref id (unknown_server id)), [])
  after_lookup id name (some server) =
      if server.enabled
      then after_validation id name server (validate_args w.quote ref args (w.get_tool ref))
      else (failed (config_failure ref id (disabled_server id)), [])

  abbrev pub after_split : Option (Str × Str) → Answer CallResult × List Contact
  after_split none = (failed (malformed ref), [])
  after_split (some (id, name)) = after_lookup id name (server_lookup cfg id)

  unfoldable pub call_live : Answer CallResult × List Contact
  call_live = after_split (split_tool_ref ref)
