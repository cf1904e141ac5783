-- ===== src/Sidecar.antt =====
-- internal/sidecar: the Go side of the embedding sidecar's protocol. The wire's records of protocol.go
-- and the results of client.go; `Score` stands for float64.
pub mod Wire
pub mod Client
mod Tests
use ozy.Common.{Str, ℕ, Bool, Option, none, List, []}

pub data Op : Type 0 where
  op_health op_ready op_upsert op_delete op_query op_stats : Op

pub record UpsertItem : Type 0 where
  pub tool_ref : Str
  pub text : Str
  pub content_hash : Str
  pub server_id : Str
  pub tags : List Str

-- `jsonlRequest`, less the id, which `call` puts in
pub record Request : Type 0 where
  pub items : List UpsertItem
  pub tool_refs : List Str
  pub text : Str
  pub k : ℕ
  pub filter : Option Str

abbrev pub no_payload : Request
no_payload = record { items = []; tool_refs = []; text = []; k = 0; filter = none }

module _ (Score : Type 0) where
  pub record Hit : Type 0 where
    pub tool_ref : Str
    pub score : Score

  pub record Response : Type 0 where
    pub id : Str
    pub ok : Bool
    pub model : Str
    pub dim : ℕ
    pub backend : Str
    pub vector_count : ℕ
    pub tool_count : ℕ
    pub upserted : ℕ
    pub skipped : ℕ
    pub deleted : ℕ
    pub errors : List Str
    pub hits : List Hit
    pub error : Str
    pub error_kind : Str

  -- what `call` returns: a response, whose `ok` may be false, or the failure of the transport
  pub data Outcome : Type 0 where
    answered : Response → Outcome
    write_failed context_ended unavailable : Outcome
