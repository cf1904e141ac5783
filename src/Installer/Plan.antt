-- ===== src/Installer/Plan.antt =====
-- internal/installer/plan.go: `BuildPlan`. What is printed from the plan is left out.
use Prim.Native.Nat.{◌^◌}
use ozy.Paths.{Paths}
use ozy.Installer.Deps.{Dependency, DepStatus, dep_ok, dep_missing, dep_out_of_date}
use ozy.Common.{
  if◌then◌else◌, Str, codes, str_eq, contains, ℕ, ◌*◌, Bool, true, false, ◌||◌, Option, none, some,
  List, [], ◌∷◌, ◌++◌,
}

pub record Plan : Type 0 where
  pub goos : Str
  pub paths : Paths
  pub ozy_version : Str
  pub is_update : Bool
  pub existing_binary : Str
  pub existing_config : Str
  pub deps : List Dependency
  pub steps : List Str
  pub downloads : List Str
  pub est_disk_bytes : ℕ
  pub path_change : Str
  pub warnings : List Str

abbrev is_ok : DepStatus → Bool
is_ok dep_ok = true
is_ok dep_missing = false
is_ok dep_out_of_date = false

unfoldable pub semantic_available : List Dependency → Bool
semantic_available [] = false
semantic_available (d ∷ deps) =
    let later = semantic_available deps in
    if str_eq d.name (codes "Semantic backend") then is_ok d.status else later

unfoldable pub semantic_planned : Plan → Bool
unfolding semantic_available
semantic_planned plan = semantic_available plan.deps

-- debug.ReadBuildInfo's main version, where there is one
abbrev pub version_or_dev : Option Str → Str
version_or_dev none = codes "dev"
version_or_dev (some v) = if str_eq v [] || str_eq v (codes "(devel)") then codes "dev" else v

unfoldable pub release_version : Option Str → Option Str
release_version build =
    let v = version_or_dev build in
    if str_eq v (codes "dev") || contains v (codes "+dirty") then none else some v

-- the dash is three bytes of UTF-8
abbrev lexical_only_warning : Str
lexical_only_warning =
    codes "No usable Python toolchain found "
    ++ (226 ∷ 128 ∷ 148 ∷ codes " installing in lexical-only mode.")

-- `titles` are the names of `installSteps`
unfoldable pub build_plan :
    Str → Paths → Option Str → List Dependency → List Str → (Str → Bool) → Bool → Plan
unfolding semantic_available
build_plan goos p build deps titles file_exists reachable =
    let binary = file_exists p.binary_path in
    let config = file_exists p.config_file in
    let semantic = semantic_available deps in
    record {
      goos = goos;
      paths = p;
      ozy_version = version_or_dev build;
      is_update = binary || config;
      existing_binary = if binary then p.binary_path else [];
      existing_config = if config then p.config_file else [];
      deps = deps;
      steps = titles;
      downloads =
          if semantic
          then codes "Python packages: FastEmbed + vector store (pinned)"
            ∷ codes "embedding model assets"
            ∷ []
          else [];
      est_disk_bytes = if semantic then 450 * 2 ^ 20 else 0;
      path_change = if reachable then [] else codes "add " ++ (p.user_bin_dir ++ codes " to PATH");
      warnings = if semantic then [] else lexical_only_warning ∷ [];
    }
