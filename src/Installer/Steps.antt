-- ===== src/Installer/Steps.antt =====
-- internal/installer/steps.go, config.go and pathconfig.go: the steps of an installation, over a host
-- that answers for the operating system, the Go toolchain, the Python sidecar (internal/sidecar), the
-- configuration's loader and the catalog's. Errors are texts. What is logged is left out.
use Prim.Native.String.{String}
use ozy.Paths.{Paths, windows}
use ozy.Installer.Consent.{risky, ConsentPolicy, ask_consent}
use ozy.Installer.Deps.{Dependency, DepStatus, dep_ok, dep_missing, dep_out_of_date}
use ozy.Installer.Plan.{Plan, semantic_planned, release_version}
use ozy.Installer.PathBlock.{RcFile, rc_file_for, path_block, append_block_once}
use ozy.Installer.Machine.{Context}
use ozy.Common.{
  trim_space, if◌then◌else◌, is_some, Str, codes, str_eq, Bool, true, false, not, ◌&&◌, ◌||◌,
  Option, none, some, List, [], ◌∷◌, ◌++◌,
}

pub data Provisioned : Type 0 where
  venv_ready no_toolchain : Provisioned
  provision_failed : Str → Provisioned

pub record Host (W : Type 0) : Type 0 where
  pub build : Option Str
  pub dev_null : Str
  pub join : List Str → Str
  pub dir_of : Str → Str
  pub home_dir : W → Str
  pub shell_base : W → Str
  pub reachable : W → Bool
  pub dir_exists : Str → W → Bool
  pub file_exists : Str → W → Bool
  pub mkdir_all : Str → W → W × Option Str
  pub lookup_env : Str → W → Option Str
  pub set_env : Str → Option Str → W → W
  pub command : List Str → W → W × Str × Option Str
  pub load_config : Str → W → Option Str
  pub write_starter : Str → W → W × Option Str
  pub provision : W → W × Provisioned
  pub warm_up : W → W × Option Str
  pub open_catalog : Str → W → W × Option Str
  pub read_rc : Str → W → RcFile
  pub write_rc : Str → RcFile → W → W

abbrev pub is_missing : DepStatus → Bool
is_missing dep_missing = true
is_missing dep_ok = false
is_missing dep_out_of_date = false

abbrev pub blocks : Dependency → Bool
blocks d = d.required && is_missing d.status

-- the loop of `stepCheckDependencies`; the fallback's text is left out
unfoldable pub check_dependencies : List Dependency → Option Str
check_dependencies [] = none
check_dependencies (d ∷ deps) =
    let later = check_dependencies deps in
    if blocks d then some (codes "required dependency missing: " ++ d.name) else later

abbrev pub failing_with : String → Option Str → Option Str
failing_with what none = none
failing_with what (some e) = some (codes what ++ e)

abbrev pub install_dirs : Paths → List Str
install_dirs p =
    p.user_bin_dir ∷ p.config_dir ∷ p.data_dir ∷ p.cache_dir ∷ p.state_dir ∷ p.log_dir ∷ []

module _ {W : Type 0} where
  -- an operation on the host is an operation of the step
  abbrev pub on_host : Context W → W × Option Str → Context W × Option Str
  on_host c (w, e) = (record c { world = w }, e)

module _ {W : Type 0} (host : Host W) where
  open host use {
    dev_null, join, dir_of, dir_exists, file_exists, mkdir_all, lookup_env, set_env, command,
    load_config, write_starter,
  }

  abbrev then_create : (W → W × Option Str) → W × Option Str → W × Option Str
  then_create rest (w, some e) = (w, failing_with "create: " (some e))
  then_create rest (w, none) = rest w

  -- the loop of `stepCreateInstallRoot`
  unfoldable pub create_dirs : List Str → W → W × Option Str
  create_dirs [] w = (w, none)
  create_dirs (d ∷ dirs) w = then_create (create_dirs dirs) (mkdir_all d w)

  unfoldable pub dirs_exist : List Str → W → Bool
  dirs_exist [] w = true
  dirs_exist (d ∷ dirs) w = dir_exists d w && dirs_exist dirs w

  abbrev pub gobin : Str
  gobin = codes "GOBIN"

  -- the deferred call puts the variable back
  abbrev restored : Option Str → W × Str × Option Str → W × Option Str
  restored previous (w, out, e) = (set_env gobin previous w, failing_with "go install: " e)

  unfoldable pub install_published_ozy : Paths → Str → W → W × Option Str
  install_published_ozy p version w = restored (lookup_env gobin w) (
      command
        (codes "go"
          ∷ codes "install"
          ∷ (codes "github.com/rokasklive/ozy/cmd/ozy@" ++ version)
          ∷ [])
        (set_env gobin (some p.user_bin_dir) w))

  abbrev package_dir : W → Str → Option Str
  package_dir w gomod =
      let pkg = join (dir_of gomod ∷ codes "cmd" ∷ codes "ozy" ∷ []) in
      if str_eq gomod [] || str_eq gomod dev_null
      then none
      else if dir_exists pkg w
      then some pkg
      else none

  abbrev source_of : W × Str × Option Str → W × Option Str
  source_of (w, out, some e) = (w, none)
  source_of (w, out, none) = (w, package_dir w (trim_space out))

  unfoldable pub local_ozy_source : W → W × Option Str
  local_ozy_source w = source_of (command (codes "go" ∷ codes "env" ∷ codes "GOMOD" ∷ []) w)

  abbrev built : W × Str × Option Str → W × Option Str
  built (w, out, e) = (w, failing_with "go build: " e)

  unfoldable pub build_local_ozy : Paths → Str → W → W × Option Str
  build_local_ozy p pkg w =
      built (command (codes "go" ∷ codes "build" ∷ codes "-o" ∷ p.binary_path ∷ pkg ∷ []) w)

  abbrev build_from : Paths → W × Option Str → W × Option Str
  build_from p (w, none) =
      (w, some (codes "this is a dev build but the ozy module source was not found"))
  build_from p (w, some pkg) = build_local_ozy p pkg w

  abbrev install_release : Paths → Option Str → W → W × Option Str
  install_release p (some version) w = install_published_ozy p version w
  install_release p none w = build_from p (local_ozy_source w)

  unfoldable pub install_ozy_binary : Paths → W → W × Option Str
  unfolding install_published_ozy local_ozy_source build_local_ozy
  install_ozy_binary p w = install_release p (release_version host.build) w

  abbrev wrote : W × Option Str → W × Option Str
  wrote (w, e) = (w, failing_with "write default config: " e)

  -- `Ensure`: an existing file is only read
  unfoldable pub ensure : Str → W → W × Option Str
  ensure path w = if file_exists path w then (w, none) else wrote (write_starter path w)

  unfoldable pub valid_config : Str → W → Bool
  valid_config path w = file_exists path w && not (is_some (load_config path w))

module _ {W : Type 0} (host : Host W) (policy : ConsentPolicy) (plan : Plan) where
  open host use {join, command, provision, warm_up, open_catalog, reachable, read_rc, write_rc}

  abbrev pub provisioned : Context W → W × Provisioned → Context W × Option Str
  provisioned c (w, no_toolchain) = (record c { world = w }, none)
  provisioned c (w, provision_failed e) =
      (record c { world = w }, failing_with "provision venv: " (some e))
  provisioned c (w, venv_ready) = (record c { world = w; semantic_ok = true }, none)

  -- what is done once the user has been asked
  abbrev pub asked :
      Context W → (Context W → Context W × Option Str) → Bool × List Str → Context W × Option Str
  asked c action (true, lines) = action (record c { lines = lines })
  asked c action (false, lines) = (record c { lines = lines }, none)

  abbrev pub provision_venv : Context W → Context W × Option Str
  provision_venv c = provisioned c (provision c.world)

  unfoldable pub setup_python_environment : Context W → Context W × Option Str
  setup_python_environment c =
      if semantic_planned plan
      then asked c provision_venv (ask_consent policy risky c.lines)
      else (c, none)

  abbrev warmed : Context W → W × Option Str → Context W × Option Str
  warmed c (w, none) = (record c { world = w }, none)
  warmed c (w, some e) = (record c { world = w; semantic_ok = false }, none)

  unfoldable pub download_embedding_assets : Context W → Context W × Option Str
  download_embedding_assets c = if c.semantic_ok then warmed c (warm_up c.world) else (c, none)

  abbrev opened : W × Option Str → W × Option Str
  opened (w, e) = (w, failing_with "open tool catalog: " e)

  unfoldable pub build_or_load_tool_catalog : Context W → Context W × Option Str
  build_or_load_tool_catalog c =
      on_host c
        (opened (open_catalog (join (plan.paths.state_dir ∷ codes "catalog.json" ∷ [])) c.world))

  -- a failed edit is reported, and the user told what to do
  abbrev pub edit_rc : Str × Str → Context W → Context W × Option Str
  edit_rc (rc, shell) c = (
    record c {
      world =
          write_rc rc
            (append_block_once (read_rc rc c.world) (path_block plan.paths.user_bin_dir shell)).0
            c.world;
    },
    none,
  )

  unfoldable pub configure_unix_path : Context W → Context W × Option Str
  configure_unix_path c =
      asked c (edit_rc (rc_file_for join (host.shell_base c.world) (host.home_dir c.world)))
        (ask_consent policy risky c.lines)

  abbrev ran : Context W → W × Str × Option Str → Context W × Option Str
  ran c (w, out, e) = (record c { world = w }, none)

  abbrev win_path_script : Str → Str
  win_path_script dir =
      codes "[Environment]::SetEnvironmentVariable('PATH', "
      ++ (codes "[Environment]::GetEnvironmentVariable('PATH','User') + ';"
          ++ (dir ++ codes "', 'User')"))

  abbrev pub edit_user_path : Context W → Context W × Option Str
  edit_user_path c = ran c (
      command
        (codes "powershell"
          ∷ codes "-NoProfile"
          ∷ codes "-Command"
          ∷ win_path_script plan.paths.user_bin_dir
          ∷ [])
        c.world)

  unfoldable pub configure_windows_path : Context W → Context W × Option Str
  configure_windows_path c = asked c edit_user_path (ask_consent policy risky c.lines)

  unfoldable pub configure_path : Context W → Context W × Option Str
  unfolding configure_unix_path configure_windows_path
  configure_path c =
      if reachable c.world
      then (c, none)
      else if str_eq plan.goos windows
      then configure_windows_path c
      else configure_unix_path c

  abbrev examined : Context W → W × Str × Option Str → Context W × Option Str
  examined c (w, out, e) = (record c { world = w; doctor_ok = not (is_some e) }, none)

  unfoldable pub run_doctor : Context W → Context W × Option Str
  run_doctor c = examined c (command (plan.paths.binary_path ∷ codes "doctor" ∷ []) c.world)
