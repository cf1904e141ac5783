-- ===== src/Catalog.antt =====
-- internal/catalog/catalog.go: servers, tools and statistics, and the context that each store
-- operation checks first. `Time` counts nanoseconds; zero is Go's zero time.
pub mod Memory
pub mod File
use ozy.Json.{Value}
use ozy.Common.{Str, Map, ℕ, Bool, true, false, List}

abbrev pub Time : Type 0
Time = ℕ

pub data Freshness : Type 0 where
  fresh stale : Freshness

pub data ServerStatus : Type 0 where
  online offline unknown : ServerStatus

abbrev pub is_stale : Freshness → Bool
is_stale stale = true
is_stale fresh = false

-- `a == b` on server statuses
abbrev pub same_status : ServerStatus → ServerStatus → Bool
same_status online online = true
same_status offline offline = true
same_status unknown unknown = true
same_status _ _ = false

pub record Server : Type 0 where
  pub id : Str
  pub status : ServerStatus

pub record Tool : Type 0 where
  pub tool_ref : Str
  pub server_id : Str
  pub downstream_tool_name : Str
  pub title : Str
  pub description : Str
  pub input_schema : Map Value
  pub capability_text : List Str
  pub server_status : ServerStatus
  pub callable_now : Bool
  pub read_only : Bool
  pub last_indexed_at : Time
  pub schema_hash : Str
  pub freshness : Freshness

pub record Stats : Type 0 where
  pub configured_servers : ℕ
  pub indexed_tools : ℕ
  pub fresh_tools : ℕ
  pub stale_tools : ℕ

-- `context.Context`, as `ctx.Err()` reads it
pub data Ctx : Type 0 where
  active cancelled deadline_exceeded : Ctx

pub data StoreError : Type 0 where
  context_error : Ctx → StoreError
  path_empty read_failed decode_failed : StoreError
  mkdir_failed create_failed encode_failed close_failed rename_failed : StoreError

pub data Reply {ℓ} (A : Type ℓ) : Type ℓ where
  ok : A → Reply A
  fail : StoreError → Reply A

-- `if err := ctx.Err(); err != nil { return err }`
abbrev pub when_active {ℓ} : {A : Type ℓ} → Ctx → A → (StoreError → A) → A
when_active active k stop = k
when_active cancelled k stop = stop (context_error cancelled)
when_active deadline_exceeded k stop = stop (context_error deadline_exceeded)
