-- ===== src/Catalog/Memory.antt =====
-- internal/catalog/memory.go: the in-memory store. The lock makes each operation atomic, so an
-- operation is a function on the state.
pub mod Laws
pub mod AsStore
use ozy.Catalog.{Time, is_stale, Server, Tool, Stats, Ctx, Reply, ok, fail, when_active}
use ozy.Common.{
  ◌==◌, if◌then◌else◌, Str, str_leb, length, sort_by, Map, lookup, insert, delete, ℕ, ◌+◌, Bool,
  not, Option, List, [], ◌∷◌, map,
}

pub record Memory : Type 0 where
  pub servers : Map Server
  pub tools : Map Tool
  pub last_indexed_at : Time

abbrev pub new : Memory
new = record { servers = []; tools = []; last_indexed_at = 0 }

unfoldable pub put_server : Ctx → Server → Memory → Reply (Unit {0}) × Memory
put_server ctx s m =
    when_active ctx (ok tt, record m { servers = insert s.id s m.servers }) (λ e. (fail e, m))

unfoldable pub put_tool : Ctx → Tool → Memory → Reply (Unit {0}) × Memory
put_tool ctx t m =
    when_active ctx (ok tt, record m { tools = insert t.tool_ref t m.tools }) (λ e. (fail e, m))

-- the loop of `DeleteTools`
unfoldable pub delete_all : List Str → Map Tool → Map Tool
delete_all [] tools = tools
delete_all (ref ∷ refs) tools = delete_all refs (delete ref tools)

unfoldable pub delete_tools : Ctx → List Str → Memory → Reply (Unit {0}) × Memory
unfolding delete_all
delete_tools ctx refs m =
    when_active ctx (ok tt, record m { tools = delete_all refs m.tools }) (λ e. (fail e, m))

abbrev pub by_id : Server → Server → Bool
by_id a b = str_leb a.id b.id

abbrev pub by_ref : Tool → Tool → Bool
by_ref a b = str_leb a.tool_ref b.tool_ref

abbrev pub values {ℓ} : {V : Type ℓ} → Map V → List V
values = map (λ e. e.1)

unfoldable pub list_servers : Memory → List Server
list_servers m = sort_by by_id (values m.servers)

unfoldable pub list_tools : Memory → List Tool
list_tools m = sort_by by_ref (values m.tools)

unfoldable pub get_tool : Str → Memory → Option Tool
get_tool ref m = lookup ref m.tools

-- the loop of `Stats`
abbrev pub count_stale : Map Tool → ℕ
count_stale [] = 0
count_stale ((_, t) ∷ ts) = (if is_stale t.freshness then 1 else 0) + count_stale ts

abbrev pub count_fresh : Map Tool → ℕ
count_fresh [] = 0
count_fresh ((_, t) ∷ ts) = (if is_stale t.freshness then 0 else 1) + count_fresh ts

unfoldable pub stats : Memory → Stats
stats m = record {
  configured_servers = length m.servers;
  indexed_tools = length m.tools;
  fresh_tools = count_fresh m.tools;
  stale_tools = count_stale m.tools;
}

-- the time, and whether an index pass has completed
unfoldable pub get_last_indexed_at : Ctx → Memory → Reply (Time × Bool)
get_last_indexed_at ctx m =
    when_active ctx (ok (m.last_indexed_at, not (m.last_indexed_at == 0))) fail

unfoldable pub set_last_indexed_at : Time → Memory → Reply (Unit {0}) × Memory
set_last_indexed_at t m = (ok tt, record m { last_indexed_at = t })
