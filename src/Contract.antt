-- ===== src/Contract.antt =====
-- internal/contract: the error kinds and structured failures, and the decisions of findTool. The
-- prose of a failure (`Message` and `AgentInstruction`) is represented by the template that the
-- code formats, with the arguments that it puts in.
use ozy.Json.{Value}
use ozy.Common.{Option, Str, ℕ, Bool, List}

-- errors.go: the `ErrType…` constants
pub data ErrType : Type 0 where
  tool_not_found downstream_server_offline argument_validation_failed tool_schema_changed : ErrType
  downstream_call_failed auth_unavailable semantic_search_unavailable : ErrType
  config_error not_implemented : ErrType

-- One constructor for each literal message.
pub data Message : Type 0 where
  -- live.go: malformedToolRef, unknownServer, disabledServer
  malformed_ref : Message
  unknown_server disabled_server : Str → Message
  -- live.go: CallTool, validateArgs, deadlineError
  no_session : Message
  call_failed : Str → Str → Message
  tool_error : Str → Message
  invalid_arguments : List Str → Message
  call_timeout_exceeded : ℕ → Str → Message
  -- skeleton.go
  no_such_tool invocation_pending store_unreadable : Message
  -- downstream/connector.go, by way of the connector
  connection : Str → Message
  -- index.go
  list_failed : Str → Message
  invalid_schema : Str → Message
  status_not_persisted : Message
  tool_not_persisted tool_not_degraded : Str → Message
  tools_not_deleted : ℕ → Message
  catalog_unreadable index_time_not_persisted : Message
  sink_upsert_failed sink_delete_failed sink_persist_failed : Message
  vectors_missing : ℕ → ℕ → Message
  -- eval/invocation.go
  schema_drifted : Message
  -- config.go
  config_missing : Str → Message
  config_unreadable config_invalid config_field : Str → Str → Message

-- errors.go: `Error`
pub record Error : Type 0 where
  pub type : ErrType
  pub tool_ref : Str
  pub server_id : Str
  pub retryable : Bool
  pub message : Message

-- results.go: the `Decision…` constants
pub data Verdict : Type 0 where
  use_tool no_good_match ambiguous catalog_empty : Verdict

-- results.go: `CallResult`, less the follow-up suggestions that no code fills in
pub record CallResult : Type 0 where
  pub ok : Bool
  pub tool_ref : Str
  pub result : Value
  pub result_summary : Str
  pub notices : List Str
  pub cached_age_seconds : Option ℕ
