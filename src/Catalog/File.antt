-- ===== src/Catalog/File.antt =====
-- internal/catalog/file.go: the durable store. It keeps an in-memory copy, and writes the whole
-- document to a temporary file that is renamed over the old one. `encode` and `decode` are
-- encoding/json on the document; the file system's answers are an argument.
pub mod Durability
mod Tests
use ozy.Catalog.{
  Time, Server, Tool, Stats, Ctx, Reply, ok, fail, when_active, path_empty, read_failed,
  decode_failed, mkdir_failed, create_failed, encode_failed, close_failed, rename_failed,
}
use ozy.Catalog.Memory
use ozy.Catalog.Memory.{Memory}
use ozy.Common.{
  if◌then◌else◌, Str, Map, insert, delete, has_key, insert_all, Bool, true, false, Option, none,
  some, List, [], ◌∷◌,
}

-- `File`: the copy, and what stands at the path.
pub record File : Type 0 where
  pub copy : Memory
  pub disk : Option Str

-- What `os.ReadFile` returns.
pub data Read : Type 0 where
  not_exist unreadable : Read
  bytes : Str → Read

-- Which system calls of `persistLocked` succeed.
pub record Disk : Type 0 where
  pub mkdir_ok : Bool
  pub create_ok : Bool
  pub close_ok : Bool
  pub rename_ok : Bool

abbrev pub read_disk : Option Str → Read
read_disk none = not_exist
read_disk (some b) = bytes b

module _ (decode : Str → Option Memory) where
  -- the loops that fill the new store from the document
  unfoldable pub load : Option Memory → Option Str → Reply File
  load none disk = fail decode_failed
  load (some doc) disk = ok (record {
    copy = record {
      servers = insert_all doc.servers [];
      tools = insert_all doc.tools [];
      last_indexed_at = doc.last_indexed_at;
    };
    disk = disk;
  })

  unfoldable pub new_file : Str → Read → Reply File
  unfolding load
  new_file [] r = fail path_empty
  new_file (_ ∷ _) not_exist = ok (record { copy = Memory.new; disk = none })
  new_file (_ ∷ _) unreadable = fail read_failed
  new_file (_ ∷ _) (bytes b) = load (decode b) (some b)

module _ (encode : Memory → Option Str) where
  -- from `enc.Encode` on, with the temporary file open
  unfoldable pub write_document : Disk → Option Str → File → Reply (Unit {0}) × File
  write_document d none f = (fail encode_failed, f)
  write_document d (some b) f =
      if d.close_ok
      then (if d.rename_ok then (ok tt, record f { disk = some b }) else (fail rename_failed, f))
      else (fail close_failed, f)

  unfoldable pub persist : Disk → File → Reply (Unit {0}) × File
  unfolding write_document
  persist d f =
      if d.mkdir_ok
      then (if d.create_ok then write_document d (encode f.copy) f else (fail create_failed, f))
      else (fail mkdir_failed, f)

  unfoldable pub put_server : Disk → Ctx → Server → File → Reply (Unit {0}) × File
  put_server d ctx s f =
      when_active ctx
        (persist d (record f { copy = record f.copy { servers = insert s.id s f.copy.servers } }))
        (λ e. (fail e, f))

  unfoldable pub put_tool : Disk → Ctx → Tool → File → Reply (Unit {0}) × File
  put_tool d ctx t f =
      when_active ctx
        (persist d (record f { copy = record f.copy { tools = insert t.tool_ref t f.copy.tools } }))
        (λ e. (fail e, f))

  -- the loop of `DeleteTools`: the tools that are left, and whether one was there
  unfoldable pub delete_present : List Str → Map Tool → Bool → Map Tool × Bool
  delete_present [] tools changed = (tools, changed)
  delete_present (ref ∷ refs) tools changed =
      delete_present refs (if has_key ref tools then delete ref tools else tools)
        (if has_key ref tools then true else changed)

  unfoldable pub delete_tools : Disk → Ctx → List Str → File → Reply (Unit {0}) × File
  unfolding delete_present
  delete_tools d ctx refs f =
      when_active ctx
        (let (left, changed) = delete_present refs f.copy.tools false in
          if changed
          then persist d (record f { copy = record f.copy { tools = left } })
          else (ok tt, f))
        (λ e. (fail e, f))

  unfoldable pub set_last_indexed_at : Disk → Ctx → Time → File → Reply (Unit {0}) × File
  set_last_indexed_at d ctx t f =
      when_active ctx (persist d (record f { copy = record f.copy { last_indexed_at = t } }))
        (λ e. (fail e, f))

-- The readers check the context and read the copy, as those of the in-memory store do.
unfoldable pub list_servers : Ctx → File → Reply (List Server)
list_servers ctx f = when_active ctx (ok (Memory.list_servers f.copy)) fail

unfoldable pub list_tools : Ctx → File → Reply (List Tool)
list_tools ctx f = when_active ctx (ok (Memory.list_tools f.copy)) fail

unfoldable pub get_tool : Ctx → Str → File → Reply (Option Tool)
get_tool ctx ref f = when_active ctx (ok (Memory.get_tool ref f.copy)) fail

unfoldable pub stats : Ctx → File → Reply Stats
stats ctx f = when_active ctx (ok (Memory.stats f.copy)) fail

unfoldable pub get_last_indexed_at : Ctx → File → Reply (Time × Bool)
get_last_indexed_at ctx f = Memory.get_last_indexed_at ctx f.copy
