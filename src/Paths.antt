-- ===== src/Paths.antt =====
-- internal/paths/paths.go: where everything is installed. filepath.Join, filepath.Dir,
-- filepath.Clean and strings.EqualFold are parameters.
mod Tests
use ozy.Common.{
  ◌==◌, if◌then◌else◌, Str, codes, str_eq, any, ℕ, Bool, false, not, ◌&&◌, ◌||◌, List, [], ◌∷◌,
}

pub record Paths : Type 0 where
  pub config_dir : Str
  pub config_file : Str
  pub data_dir : Str
  pub cache_dir : Str
  pub state_dir : Str
  pub log_dir : Str
  pub venv_dir : Str
  pub asset_dir : Str
  pub user_bin_dir : Str
  pub binary_path : Str

abbrev pub windows : Str
windows = codes "windows"

unfoldable pub binary_name : Str → Str
binary_name goos = if str_eq goos windows then codes "ozy.exe" else codes "ozy"

module _ (join : List Str → Str) where
  unfoldable pub xdg_dir : (Str → Str) → Str → Str → Str → Str
  xdg_dir getenv name home fallback =
      let v = getenv name in
      if str_eq v [] then join (home ∷ fallback ∷ codes "ozy" ∷ []) else join (v ∷ codes "ozy" ∷ [])

  module _ (dir : Str → Str) where
    -- the end of `resolve`, from the five directories that the system decides
    unfoldable pub located : Str → Str → Str → Str → Str → Str → Str → Paths
    unfolding binary_name
    located override goos config assets cache state bin = record {
      config_dir = if str_eq override [] then config else dir override;
      config_file = if str_eq override [] then join (config ∷ codes "ozy.jsonc" ∷ []) else override;
      data_dir = assets;
      cache_dir = cache;
      state_dir = state;
      log_dir = join (state ∷ codes "logs" ∷ []);
      venv_dir = join (state ∷ codes "sidecar" ∷ codes "venv" ∷ []);
      asset_dir = join (assets ∷ codes "assets" ∷ []);
      user_bin_dir = bin;
      binary_path = join (bin ∷ binary_name goos ∷ []);
    }

    unfoldable pub resolve : Str → (Str → Str) → Str → Paths
    unfolding xdg_dir located
    resolve goos getenv home =
        let roaming = getenv (codes "APPDATA") in
        let local = getenv (codes "LOCALAPPDATA") in
        let ozy_dir = codes "Ozy" in
        if str_eq goos windows
        then located (getenv (codes "OZY_CONFIG")) goos (join (roaming ∷ ozy_dir ∷ []))
            (join (local ∷ ozy_dir ∷ [])) (join (local ∷ ozy_dir ∷ codes "Cache" ∷ []))
            (join (local ∷ ozy_dir ∷ codes "state" ∷ []))
            (join (local ∷ ozy_dir ∷ codes "bin" ∷ []))
        else located (getenv (codes "OZY_CONFIG")) goos
            (xdg_dir getenv (codes "XDG_CONFIG_HOME") home (codes ".config"))
            (xdg_dir getenv (codes "XDG_DATA_HOME") home
              (join (codes ".local" ∷ codes "share" ∷ [])))
            (xdg_dir getenv (codes "XDG_CACHE_HOME") home (codes ".cache"))
            (xdg_dir getenv (codes "XDG_STATE_HOME") home
              (join (codes ".local" ∷ codes "state" ∷ [])))
            (join (home ∷ codes ".local" ∷ codes "bin" ∷ []))

-- the part in front, and the parts after each separator
abbrev cons_head : ℕ → List Str → List Str
cons_head c [] = (c ∷ []) ∷ []
cons_head c (part ∷ parts) = (c ∷ part) ∷ parts

-- `strings.Split(s, sep)`, for a separator of one byte
unfoldable pub split : ℕ → Str → List Str
split sep [] = [] ∷ []
split sep (c ∷ s) = let rest = split sep s in if c == sep then [] ∷ rest else cons_head c rest

module _ (clean : Str → Str) (equal_fold : Str → Str → Bool) where
  unfoldable pub path_equal : Str → Str → Str → Bool
  path_equal a b goos =
      if str_eq goos windows then equal_fold (clean a) (clean b) else str_eq (clean a) (clean b)

  abbrev pub is_entry : Str → Str → Str → Bool
  is_entry dir goos entry = not (str_eq entry []) && path_equal entry dir goos

  unfoldable pub on_path : Str → Str → Str → Bool
  unfolding path_equal split
  on_path dir path_list goos =
      if str_eq dir [] || str_eq path_list []
      then false
      else any (is_entry dir goos) (split (if str_eq goos windows then b';' else b':') path_list)
