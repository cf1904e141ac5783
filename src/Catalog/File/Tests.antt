-- ===== src/Catalog/File/Tests.antt =====
-- The durable store on a disk that works, with a codec that counts the tools.
use ozy.Catalog.{Server, Tool, fresh, online}
use ozy.Catalog.Memory.{Memory, new}
use ozy.Catalog.File.{File, Disk}
use ozy.Common.{Str, codes, length, true, Option, some, [], ◌∷◌}

abbrev encode : Memory → Option Str
encode m = some (length m.tools ∷ [])

abbrev working : Disk
working = record { mkdir_ok = true; create_ok = true; close_ok = true; rename_ok = true }

abbrev github : Server
github = record { id = codes "github"; status = online }

abbrev search_tool : Tool
search_tool = record {
  tool_ref = codes "github.search";
  server_id = codes "github";
  downstream_tool_name = codes "search";
  title = [];
  description = [];
  input_schema = [];
  capability_text = [];
  server_status = online;
  callable_now = true;
  read_only = true;
  last_indexed_at = 0;
  schema_hash = [];
  freshness = fresh;
}

abbrev stored : File
stored = record {
  copy = record new { tools = (codes "github.search", search_tool) ∷ []; last_indexed_at = 7 };
  disk = some (1 ∷ []);
}
