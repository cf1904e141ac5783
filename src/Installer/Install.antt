-- ===== src/Installer/Install.antt =====
-- internal/installer/steps.go and install.go: the list of the steps, and `Run`. Of a step's texts the
-- name, the title and the reason are kept. What `Run` prints is left out: its result says how far it
-- went. `file` is what reading the state file gives.
pub mod Gate
pub mod Complete
pub mod Rerun
use Prim.Native.String.{String}
use ozy.Installer.Consent.{
  Risk, ordinary, risky, ConsentPolicy, Decision, proceed, ask_user, skip_no_consent, decide,
  confirm, next_line, later_lines,
}
use ozy.Installer.Plan.{Plan}
use ozy.Installer.Machine.{
  Context, Step, State, StateFile, Loaded, ready, load_error, load, Failure, execute,
}
use ozy.Installer.Steps.{
  Host, on_host, check_dependencies, install_dirs, create_dirs, dirs_exist, install_ozy_binary,
  ensure, valid_config, setup_python_environment, download_embedding_assets,
  build_or_load_tool_catalog, configure_path, run_doctor,
}
use ozy.Common.{
  if◌then◌else◌, Str, codes, any, ℕ, Bool, true, false, Option, none, some, List, [], ◌∷◌, ◌++◌,
}

module _ {W : Type 0} where
  -- a step with no validity test
  abbrev always : String → String → String → Risk → (Context W → Context W × Option Str) → Step W
  always name title why risk run = record {
    name = codes name;
    title = codes title;
    why = codes why;
    risk = risk;
    run = run;
    valid = none;
  }

  abbrev unless_valid : String → String → String → (W → W × Option Str) → (W → Bool) → Step W
  unless_valid name title why work valid = record {
    name = codes name;
    title = codes title;
    why = codes why;
    risk = ordinary;
    run = λ c. on_host c (work c.world);
    valid = some (λ c. valid c.world);
  }

  -- a step that only writes to the log
  abbrev only_logs : Context W → Context W × Option Str
  only_logs c = (c, none)

module _ {W : Type 0} (host : Host W) (policy : ConsentPolicy) (plan : Plan) where
  open plan use {paths}

  -- the steps in front of the first change
  unfoldable pub detection_steps : List (Step W)
  detection_steps =
      always "DetectPlatform" "Detect platform"
        "Ozy resolves install locations and binaries per-platform." ordinary only_logs
      ∷ always "ResolveInstallDirs" "Resolve install directories"
          "Every later step writes only inside these resolved locations." ordinary only_logs
      ∷ always "CheckExistingInstall" "Check for an existing install"
          "Determines whether this run is a fresh install or an update." ordinary only_logs
      ∷ always "CheckDependencies" "Check dependencies"
          "Missing optional deps degrade gracefully; a missing required dep stops the build before any mutation."
          ordinary (λ c. (c, check_dependencies plan.deps))
      ∷ []

  unfoldable pub mutating_steps : List (Step W)
  mutating_steps =
      unless_valid "CreateInstallRoot" "Create install directories"
        "Later steps need these directories to exist." (create_dirs host (install_dirs paths))
        (dirs_exist host (install_dirs paths))
      ∷ unless_valid "InstallOzyBinary" "Install the ozy binary"
          "This is the command you will run as `ozy`." (install_ozy_binary host paths)
          (host.file_exists paths.binary_path)
      ∷ unless_valid "CreateOrUpdateConfig" "Create or preserve config"
          "Ozy reads downstream MCP servers and search settings from here."
          (ensure host paths.config_file) (valid_config host paths.config_file)
      ∷ always "SetupPythonEnvironment" "Set up the Python environment"
          "Enables semantic/hybrid search; absent Python degrades to lexical-only." risky
          (setup_python_environment host policy plan)
      ∷ always "DownloadEmbeddingAssets" "Download embedding assets"
          "The semantic backend needs them to build vectors." risky
          (download_embedding_assets host policy plan)
      ∷ always "BuildOrLoadToolCatalog" "Initialise the tool catalog"
          "Holds the indexed downstream MCP tools." ordinary
          (build_or_load_tool_catalog host policy plan)
      ∷ always "ConfigurePath" "Configure PATH" "So you can run `ozy` from any shell." risky
          (configure_path host policy plan)
      ∷ always "RunDoctor" "Verify with ozy doctor"
          "Confirms config, catalog, and search mode end-to-end." ordinary
          (run_doctor host policy plan)
      ∷ always "PrintNextSteps" "Summary and next steps"
          "Tells you how to wire Ozy into your agent harness." ordinary only_logs
      ∷ []

  abbrev pub install_steps : List (Step W)
  install_steps = detection_steps ++ mutating_steps

pub record Options : Type 0 where
  pub dry_run : Bool
  pub assume_yes : Bool
  pub manual : Bool

pub data Outcome : Type 0 where
  checklist previewed declined needs_yes completed : Outcome
  no_log no_state : Str → Outcome
  install_failed : Failure → Outcome

module _ {W : Type 0} (now : W → ℕ) (can_save : W → Bool) (open_log : W → W × Option Str)
    (host : Host W) (interactive : Bool) (plan : Plan) where
  abbrev policy_of : Options → ConsentPolicy
  policy_of opts = record { assume_yes = opts.assume_yes; interactive = interactive }

  -- `execContext` at the start of the steps
  abbrev pub started : W → List Str → StateFile → State → Context W
  started w lines file state = record {
    world = w;
    lines = lines;
    shown = [];
    state = record state { ozy_version = plan.ozy_version };
    disk = file;
    semantic_ok = false;
    doctor_ok = false;
  }

  abbrev ended : Context W × Option Failure → W × Outcome
  ended (c, none) = (c.world, completed)
  ended (c, some e) = (c.world, install_failed e)

  abbrev with_state : Options → W → List Str → StateFile → Loaded → W × Outcome
  with_state opts w lines file (load_error e) = (w, no_state e)
  with_state opts w lines file (ready state) =
      ended (
        execute now can_save (install_steps host (policy_of opts) plan)
          (started w lines file state))

  abbrev with_log : Options → List Str → StateFile → W × Option Str → W × Outcome
  with_log opts lines file (w, some e) = (w, no_log e)
  with_log opts lines file (w, none) = with_state opts w lines file (load file)

  -- install.go's `execute`
  unfoldable pub install : Options → W → List Str → StateFile → W × Outcome
  install opts w lines file = with_log opts lines file (open_log w)

  abbrev on_consent : Options → W → List Str → StateFile → Decision → W × Outcome
  on_consent opts w lines file proceed = install opts w lines file
  on_consent opts w lines file skip_no_consent = (w, needs_yes)
  on_consent opts w lines file ask_user =
      if confirm (next_line lines) true
      then install opts w (later_lines lines) file
      else (w, declined)

  unfoldable pub run : Options → W → List Str → StateFile → W × Outcome
  unfolding install
  run opts w lines file =
      if opts.manual
      then (w, checklist)
      else if opts.dry_run
      then (w, previewed)
      else on_consent opts w lines file (decide (policy_of opts) ordinary)
