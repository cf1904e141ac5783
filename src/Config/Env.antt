-- ===== src/Config/Env.antt =====
-- internal/config/config.go: `resolveEnv`, with the pattern `\{env:([A-Za-z_][A-Za-z0-9_]*)\}` as a
-- scanner. `env` is os.LookupEnv. The maps are gone through in the order of their lists.
pub mod RoundTrip
mod Tests
use ozy.Config.{Config, ServerConfig}
use ozy.Common.{
  leb, ◌==◌, if◌then◌else◌, Str, codes, is_prefix, length, drop, Map, ℕ, zero, suc, ◌+◌, Bool,
  false, ◌&&◌, ◌||◌, Option, none, some, List, [], ◌∷◌, ◌++◌, map,
}

pub record MissingRef : Type 0 where
  pub var : Str
  pub server : Str
  pub field : Str

abbrev pub is_name_start : ℕ → Bool
is_name_start c = (leb 65 c && leb c 90) || ((leb 97 c && leb c 122) || (c == b'_'))

abbrev pub is_name_char : ℕ → Bool
is_name_char c = is_name_start c || (leb 48 c && leb c 57)

abbrev pub close_brace : ℕ
close_brace = b'}'

abbrev pub open_ref : Str
open_ref = codes "{env:"

-- the longest run of name characters, and the rest
unfoldable pub name_run : Str → Str × Str
name_run [] = ([], [])
name_run (c ∷ s) =
    let (run, rest) = name_run s in if is_name_char c then (c ∷ run, rest) else ([], c ∷ s)

abbrev pub starts_name : Str → Bool
starts_name [] = false
starts_name (c ∷ s) = is_name_start c

abbrev pub closes : Str → Bool
closes [] = false
closes (c ∷ s) = c == close_brace

abbrev pub closed_name : Str × Str → Option Str
closed_name (name, rest) = if starts_name name && closes rest then some name else none

-- the name in a match at the start of a text
unfoldable pub ref_at : Str → Option Str
unfolding name_run
ref_at s = if is_prefix open_ref s then closed_name (name_run (drop (length open_ref) s)) else none

-- the text of a match
abbrev pub ref_text : Str → Str
ref_text name = open_ref ++ (name ++ (close_brace ∷ []))

module _ (env : Str → Option Str) where
  abbrev pub replaced : Str → Option Str → Str × List Str → Str × List Str
  replaced name none (s, missing) = (ref_text name ++ s, name ∷ missing)
  replaced name (some v) (s, missing) = (v ++ s, missing)

  abbrev pub kept : ℕ → Str × List Str → Str × List Str
  kept c (s, missing) = (c ∷ s, missing)

  abbrev pub chosen : ℕ → (Str → Str × List Str) → Str × List Str → Option Str → Str × List Str
  chosen c matched plain none = kept c plain
  chosen c matched plain (some name) = replaced name (env name) (matched name)

  -- the loop of `ReplaceAllStringFunc`: `skip` bytes of a match are still to be passed over. Beside
  -- the text, the names that are not set, in order.
  unfoldable pub substitute_from : ℕ → Str → Str × List Str
  substitute_from skip [] = ([], [])
  substitute_from (suc skip) (c ∷ s) = substitute_from skip s
  substitute_from zero (c ∷ s) =
      chosen c (λ name. substitute_from (length name + length open_ref) s) (substitute_from 0 s)
        (ref_at (c ∷ s))

  unfoldable pub substitute : Str → Str × List Str
  substitute value = substitute_from 0 value

  -- the loops over `Headers` and `Environment`
  unfoldable pub substitute_map : Str → Str → Map Str → Map Str × List MissingRef
  substitute_map server prefix [] = ([], [])
  substitute_map server prefix ((k, v) ∷ m) =
      let (sub, names) = substitute v in
      let (rest, later) = substitute_map server prefix m in
      (
        (k, sub) ∷ rest,
        map (λ name. record { var = name; server = server; field = prefix ++ k }) names ++ later,
      )

  unfoldable pub resolve_server : Str → ServerConfig → ServerConfig × List MissingRef
  unfolding substitute_map
  resolve_server id s =
      let (headers, missing) = substitute_map id (codes "headers.") s.headers in
      let (environment, later) = substitute_map id (codes "environment.") s.environment in
      (record s { headers = headers; environment = environment }, missing ++ later)

  unfoldable pub resolve_servers : Map ServerConfig → Map ServerConfig × List MissingRef
  unfolding resolve_server
  resolve_servers [] = ([], [])
  resolve_servers ((id, s) ∷ m) =
      let (server, missing) = resolve_server id s in
      let (rest, later) = resolve_servers m in ((id, server) ∷ rest, missing ++ later)

  unfoldable pub resolve_env : Config → Config × List MissingRef
  unfolding resolve_servers
  resolve_env c = let (mcp, missing) = resolve_servers c.mcp in (record c { mcp = mcp }, missing)
