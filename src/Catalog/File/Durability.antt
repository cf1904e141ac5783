-- ===== src/Catalog/File/Durability.antt =====
-- internal/catalog/file.go: what each mutation leaves on disk, and in the document there.
use ozy.Catalog.{Reply, Time, Server, Tool, ok, fail}
use ozy.Catalog.Memory.{Memory}
use ozy.Catalog.File.{File}
use ozy.Common.{if◌then◌else◌, Str, str_eq, has, lookup, ◌≡◌, Option, none, some, List}

-- A catalog with the tools, the servers and the index time that three descriptions tell.
abbrev pub Holds : (Str → Option Tool) → (Str → Option Server) → Time → Memory → Type 0
Holds tools servers time m =
    ((k : Str) → lookup k m.tools ≡ tools k)
    × ((k : Str) → lookup k m.servers ≡ servers k)
    × (m.last_indexed_at ≡ time)

-- What the answer of a mutation says of the disk, for a description `P` of the catalog that the
-- mutation asks for: on success the document is the encoding of such a catalog, which is also the
-- copy; on an error it is the old document.
abbrev pub Persisted :
    (Memory → Option Str) → (Memory → Type 0) → File → Reply (Unit {0}) × File → Type 0
Persisted encode P f (ok _, g) = (b : Str) × (encode g.copy ≡ some b) × (g.disk ≡ some b) × P g.copy
Persisted encode P f (fail e, g) = g.disk ≡ f.disk

abbrev pub tools_of : File → Str → Option Tool
tools_of f k = lookup k f.copy.tools

abbrev pub servers_of : File → Str → Option Server
servers_of f k = lookup k f.copy.servers

-- What DeleteTools leaves of the tools.
abbrev pub without : List Str → (Str → Option Tool) → Str → Option Tool
without refs tools k = if has refs k then none else tools k

-- What PutTool makes of the tools.
abbrev pub with_tool : Tool → (Str → Option Tool) → Str → Option Tool
with_tool t tools k = if str_eq t.tool_ref k then some t else tools k

abbrev pub with_server : Server → (Str → Option Server) → Str → Option Server
with_server s servers k = if str_eq s.id k then some s else servers k
