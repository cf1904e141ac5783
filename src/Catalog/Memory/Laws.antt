-- ===== src/Catalog/Memory/Laws.antt =====
-- What the in-memory store promises its clients.
use ozy.Catalog.{Time, Server, Tool, Ctx, active}
use ozy.Catalog.Memory.{
  Memory, new, put_server, put_tool, delete_all, delete_tools, set_last_indexed_at, by_ref, values,
  list_tools, get_tool, count_stale, count_fresh, stats,
}
use ozy.Common.{
  length-map, if◌then◌else◌, Str, str_eq, str_leb_total, has, length, sort_by, sort_by-perm,
  length-sort_by, Sorted, sort_by-Sorted, Map, lookup, insert, delete, lookup-insert, lookup-delete,
  Distinct, insert-Distinct, delete-Distinct, ◌+◌, ◌≡◌, refl, ◌∙◌, none, some, List, [], ◌∷◌, Perm,
  arith,
}

-- Every tool stands under its own reference.
abbrev pub Keyed : Map Tool → Type 0
Keyed [] = Unit
Keyed ((k, t) ∷ m) = (k ≡ t.tool_ref) × Keyed m

-- What every operation keeps: keys are distinct and name the tools under them.
pub record IsValid (m : Memory) : Type 0 where
  pub distinct_tools : Distinct m.tools
  pub distinct_servers : Distinct m.servers
  pub keyed : Keyed m.tools

insert-Keyed : (t : Tool) (m : Map Tool) → Keyed m → Keyed (insert t.tool_ref t m)
unfolding insert
insert-Keyed t [] h = (refl, tt)
insert-Keyed t ((k, u) ∷ m) h = ground (arith, insert-Keyed t m h.1)

delete-Keyed : (k : Str) (m : Map Tool) → Keyed m → Keyed (delete k m)
unfolding delete
delete-Keyed k [] h = tt
delete-Keyed k ((j, u) ∷ m) h = ground (arith, delete-Keyed k m h.1)

delete_all-Keyed : (refs : List Str) (m : Map Tool) → Keyed m → Keyed (delete_all refs m)
unfolding delete_all
delete_all-Keyed [] m h = h
delete_all-Keyed (k ∷ refs) m h = delete_all-Keyed refs (delete k m) (delete-Keyed k m h)

delete_all-Distinct : (refs : List Str) (m : Map Tool) → Distinct m → Distinct (delete_all refs m)
unfolding delete_all
delete_all-Distinct [] m h = h
delete_all-Distinct (k ∷ refs) m h = delete_all-Distinct refs (delete k m) (delete-Distinct k m h)

pub new-IsValid : IsValid new
new-IsValid = record { distinct_tools = tt; distinct_servers = tt; keyed = tt }

module _ (m : Memory) (v : IsValid m) where
  pub put_server-IsValid : (ctx : Ctx) (s : Server) → IsValid (put_server ctx s m).1
  unfolding put_server
  put_server-IsValid active s = record {
    distinct_tools = v.distinct_tools;
    distinct_servers = insert-Distinct s.id s m.servers v.distinct_servers;
    keyed = v.keyed;
  }
  put_server-IsValid _ s = v

  pub put_tool-IsValid : (ctx : Ctx) (t : Tool) → IsValid (put_tool ctx t m).1
  unfolding put_tool
  put_tool-IsValid active t = record {
    distinct_tools = insert-Distinct t.tool_ref t m.tools v.distinct_tools;
    distinct_servers = v.distinct_servers;
    keyed = insert-Keyed t m.tools v.keyed;
  }
  put_tool-IsValid _ t = v

  pub delete_tools-IsValid : (ctx : Ctx) (refs : List Str) → IsValid (delete_tools ctx refs m).1
  unfolding delete_tools
  delete_tools-IsValid active refs = record {
    distinct_tools = delete_all-Distinct refs m.tools v.distinct_tools;
    distinct_servers = v.distinct_servers;
    keyed = delete_all-Keyed refs m.tools v.keyed;
  }
  delete_tools-IsValid _ refs = v

  pub set_last_indexed_at-IsValid : (t : Time) → IsValid (set_last_indexed_at t m).1
  unfolding set_last_indexed_at
  set_last_indexed_at-IsValid t = record {
    distinct_tools = v.distinct_tools;
    distinct_servers = v.distinct_servers;
    keyed = v.keyed;
  }

-- One call that changes the store.
data Step (m : Memory) : Memory → Type 0 where
  put_server_step : (ctx : Ctx) (s : Server) → Step m (put_server ctx s m).1
  put_tool_step : (ctx : Ctx) (t : Tool) → Step m (put_tool ctx t m).1
  delete_tools_step : (ctx : Ctx) (refs : List Str) → Step m (delete_tools ctx refs m).1
  set_last_step : (t : Time) → Step m (set_last_indexed_at t m).1

data Reach : Memory → Type 0 where
  start : Reach new
  next : {m n : Memory} → Reach m → Step m n → Reach n

Step-IsValid : (m : Memory) {n : Memory} → Step m n → IsValid m → IsValid n
Step-IsValid m (put_server_step ctx s) v = put_server-IsValid m v ctx s
Step-IsValid m (put_tool_step ctx t) v = put_tool-IsValid m v ctx t
Step-IsValid m (delete_tools_step ctx refs) v = delete_tools-IsValid m v ctx refs
Step-IsValid m (set_last_step t) v = set_last_indexed_at-IsValid m v t

-- Whatever calls are made on a new store, its keys stay distinct and every tool stands under its
-- own toolRef.
Reach-IsValid : {m : Memory} → Reach m → IsValid m
Reach-IsValid start = new-IsValid
Reach-IsValid (next {m = m} r s) = Step-IsValid m s (Reach-IsValid r)

pub lookup-delete_all :
    (refs : List Str) (ref : Str) (tools : Map Tool)
    → lookup ref (delete_all refs tools) ≡ (if has refs ref then none else lookup ref tools)
unfolding delete_all
lookup-delete_all [] ref tools = refl
lookup-delete_all (k ∷ refs) ref tools =
    ground (arith, lookup-delete_all refs ref (delete k tools), lookup-delete k ref tools)

-- What `GetTool` finds after each operation on a live context: PutTool replaces exactly the tool
-- with the same reference, and DeleteTools removes exactly the references that it is given.
pub get_tool-after :
    (ref : Str) (t : Tool) (refs : List Str) (m : Memory)
    → (get_tool ref (put_tool active t m).1
        ≡ (if str_eq t.tool_ref ref then some t else get_tool ref m))
      × (get_tool ref (delete_tools active refs m).1
          ≡ (if has refs ref then none else get_tool ref m))
unfolding get_tool put_tool delete_tools
get_tool-after ref t refs m =
    (lookup-insert t.tool_ref ref t m.tools, lookup-delete_all refs ref m.tools)

fresh-add-stale : (ts : Map Tool) → count_fresh ts + count_stale ts ≡ length ts
fresh-add-stale [] = omega arith
fresh-add-stale ((k, t) ∷ ts) = ground (arith, fresh-add-stale ts)

-- `Tools` returns every cataloged tool exactly once and in the order of their references, and
-- `Stats` counts them: the fresh ones and the stale ones together are as many as it lists.
list_tools_lem :
    (m : Memory)
    → Perm (list_tools m) (values m.tools)
      × Sorted by_ref (list_tools m)
      × ((stats m).fresh_tools + (stats m).stale_tools ≡ length (list_tools m))
      × ((stats m).indexed_tools ≡ length (list_tools m))
unfolding list_tools stats
list_tools_lem m = (
  sort_by-perm by_ref (values m.tools),
  sort_by-Sorted by_ref (λ a b. str_leb_total a.tool_ref b.tool_ref) (values m.tools),
  omega (arith, fresh-add-stale m.tools, length-listed),
  omega (arith, length-listed),
)
  where
    length-listed : length (sort_by by_ref (values m.tools)) ≡ length m.tools
    length-listed = length-sort_by by_ref (values m.tools) ∙ length-map _ m.tools
