-- ===== src/Catalog/Memory/AsStore.antt =====
-- internal/catalog/memory.go: the in-memory store as the store that the indexer is given.
use mathlib.Core.Path.{subst}
use ozy.Catalog.{Tool, active, ok, fail}
use ozy.Catalog.Memory.{
  Memory, put_server, put_tool, delete_tools, list_tools, get_tool, set_last_indexed_at, values,
  by_ref,
}
use ozy.Catalog.Memory.Laws.{
  lookup-delete_all, IsValid, Keyed, get_tool-after, put_server-IsValid, put_tool-IsValid,
  delete_tools-IsValid, set_last_indexed_at-IsValid,
}
use ozy.Index.{Store}
use ozy.Index.Reconcile.Keeps.{View}
use ozy.Common.{
  ◌⊎◌, has_key, ap, All-sort_by, All-map, str_eq_iff, Str, str_eq_iff, has, All, All-map,
  All-sort_by, Map, lookup, has_key, Distinct, ◌≡◌, ap, false, some, List, [], ◌∷◌, arith,
}

-- A valid in-memory store, with a live context.
abbrev pub Valid : Type 0
Valid = (m : Memory) × IsValid m

abbrev pub memory_store : Store Valid
memory_store = record {
  put_server = λ s w.
      let (reply, m) = put_server active s w.0 in (reply, (m, put_server-IsValid w.0 w.1 active s));
  put_tool = λ t w.
      let (reply, m) = put_tool active t w.0 in (reply, (m, put_tool-IsValid w.0 w.1 active t));
  delete_tools = λ refs w.
      let (reply, m) = delete_tools active refs w.0 in
      (reply, (m, delete_tools-IsValid w.0 w.1 active refs));
  tools = λ w. ok (list_tools w.0);
  set_last_indexed_at = λ t w.
      let (reply, m) = set_last_indexed_at t w.0 in
      (reply, (m, set_last_indexed_at-IsValid w.0 w.1 t));
}

values-found :
    (m : Map Tool) → Distinct m → Keyed m → All (λ t. lookup t.tool_ref m ≡ some t) (values m)
unfolding lookup has_key
values-found [] d k = tt
values-found ((key, t) ∷ m) d k = (
  ground (arith, str_eq_iff key t.tool_ref),
  All-map (λ u h. ground (arith, str_eq_iff key u.tool_ref)) (values m) (values-found m d.1 k.1),
)

pub memory_listed :
    (ts : List Tool) (w : Valid)
    → memory_store.tools w ≡ ok ts
    → All (λ t. get_tool t.tool_ref w.0 ≡ some t) ts
unfolding get_tool list_tools
memory_listed ts w h =
    subst (All (λ t. get_tool t.tool_ref w.0 ≡ some t))
      (ap (λ r. elim r [ ok xs ↦ xs | fail e ↦ [] ]) h)
      (All-sort_by _ by_ref (values w.0.tools)
        (values-found w.0.tools w.1.distinct_tools w.1.keyed))

pub memory_delete :
    (refs : List Str) (ref : Str) (w : Valid)
    → has refs ref ≡ false
    → get_tool ref (memory_store.delete_tools refs w).1.0 ≡ get_tool ref w.0
unfolding get_tool delete_tools
memory_delete refs ref w h = ground (arith, lookup-delete_all refs ref w.0.tools)

pub memory_put :
    (t : Tool) (ref : Str) (w : Valid)
    → (get_tool ref (memory_store.put_tool t w).1.0 ≡ get_tool ref w.0)
      ⊎ ((t.tool_ref ≡ ref) × (get_tool ref (memory_store.put_tool t w).1.0 ≡ some t))
memory_put t ref w = ground (arith, get_tool-after ref t [] w.0, str_eq_iff t.tool_ref ref)

-- What the indexer relies on holds of the in-memory store.
abbrev pub memory_view : View memory_store
memory_view = record {
  find = λ ref w. get_tool ref w.0;
  put = memory_put;
  delete = memory_delete;
  listed = memory_listed;
}
