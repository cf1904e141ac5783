-- ===== src/Index/Reconcile.antt =====
-- internal/index/index.go: what a run has learned, and the reconciliation of the catalog with it.
pub mod Keeps
use ozy.Contract.{
  Error, config_error, downstream_server_offline, no_session, catalog_unreadable, tool_not_degraded,
  tools_not_deleted,
}
use ozy.Catalog.{stale, is_stale, ServerStatus, same_status, Tool, Reply, ok, fail}
use ozy.Config.{Config}
use ozy.Index.{EmbedItem, Summary, Store, failure, report, report_fatal}
use ozy.Common.{
  if◌then◌else◌, Str, has, length, sort_strings, Map, lookup, has_key, Bool, true, false, not, ◌&&◌,
  Option, none, some, List, [], ◌∷◌,
}

-- What a run has learned: the references that each listed server serves, the status of each server
-- that could not be listed, and the items to embed.
pub record Learned : Type 0 where
  pub listed : Map (List Str)
  pub degraded : Map ServerStatus
  pub embedded : List EmbedItem

-- `configServer`, as a test
abbrev pub in_config : Option Config → Str → Bool
in_config none id = false
in_config (some cfg) id = has_key id cfg.mcp

abbrev pub degrade : ServerStatus → Tool → Tool
degrade status t = record t { freshness = stale; callable_now = false; server_status = status }

-- What the loop of `reconcile` does with a tool.
pub data Action : Type 0 where
  keep remove : Action
  lower : ServerStatus → Action

abbrev pub already_degraded : ServerStatus → Tool → Bool
already_degraded status t =
    is_stale t.freshness && (not t.callable_now && same_status t.server_status status)

abbrev pub action_unlisted : Option ServerStatus → Tool → Action
action_unlisted none t = keep
action_unlisted (some status) t = if already_degraded status t then keep else lower status

unfoldable pub action : Option Config → Learned → Tool → Action
action cfg learned t = elim (lookup t.server_id learned.listed) [
  | some refs ↦ if has refs t.tool_ref then keep else remove
  | none ↦
      if in_config cfg t.server_id
      then action_unlisted (lookup t.server_id learned.degraded) t
      else remove
]

-- `toDelete`, before it is sorted
abbrev pub to_delete : Option Config → Learned → List Tool → List Str
to_delete cfg learned [] = []
to_delete cfg learned (t ∷ ts) =
    let rest = to_delete cfg learned ts in
    elim (action cfg learned t) [ keep ↦ rest | remove ↦ t.tool_ref ∷ rest | lower status ↦ rest ]

abbrev pub offline_error : Str → Error
offline_error id = failure downstream_server_offline id true no_session

module _ {W : Type 0} (store : Store W) where
  abbrev pub lowered : Tool → Summary → Reply (Unit {0}) → Summary
  lowered t s (ok _) = s
  lowered t s (fail e) =
      report_fatal (failure config_error t.server_id true (tool_not_degraded t.tool_ref)) s

  abbrev pub act : Tool → Action → Summary × W → Summary × W
  act t keep state = state
  act t remove state = state
  act t (lower status) (s, w) =
      let (reply, w2) = store.put_tool (degrade status t) w in (lowered t s reply, w2)

  -- the loop of `reconcile`
  abbrev pub lower_all : Option Config → Learned → List Tool → Summary × W → Summary × W
  lower_all cfg learned [] state = state
  lower_all cfg learned (t ∷ ts) state =
      lower_all cfg learned ts (act t (action cfg learned t) state)

  abbrev pub deleted_with : List Str → Summary → Reply (Unit {0}) × W → List Str × Summary × W
  deleted_with refs s (ok _, w) = (refs, s, w)
  deleted_with refs s (fail e, w) =
      ([], report_fatal (failure config_error [] true (tools_not_deleted (length refs))) s, w)

  -- the end of `reconcile`
  abbrev pub delete_vanished : List Str → Summary × W → List Str × Summary × W
  delete_vanished [] (s, w) = ([], s, w)
  delete_vanished (ref ∷ refs) (s, w) =
      deleted_with (sort_strings (ref ∷ refs)) s (store.delete_tools (sort_strings (ref ∷ refs)) w)

  abbrev pub reconcile_tools :
      Option Config → Learned → Reply (List Tool) → Summary × W → List Str × Summary × W
  reconcile_tools cfg learned (fail e) (s, w) =
      ([], report (failure config_error [] true catalog_unreadable) s, w)
  reconcile_tools cfg learned (ok ts) state =
      delete_vanished (to_delete cfg learned ts) (lower_all cfg learned ts state)

  -- `reconcile`: the references deleted
  unfoldable pub reconcile : Option Config → Learned → Summary × W → List Str × Summary × W
  reconcile cfg learned (s, w) = reconcile_tools cfg learned (store.tools w) (s, w)
