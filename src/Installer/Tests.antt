-- ===== src/Installer/Tests.antt =====
-- internal/installer: an installation and an uninstallation on a small host, whose state is the list
-- of what was done to it.
mod Runner
use ozy.Installer.Tests.Runner.{World, clock, writable, fresh_run}
use ozy.Paths.{Paths}
use ozy.Installer.Consent.{decide, ask_consent, ConsentPolicy, confirm}
use ozy.Installer.Deps.{Dependency, DepStatus, dep_ok, dep_missing}
use ozy.Installer.Plan.{Plan, release_version}
use ozy.Installer.Machine.{Context, fresh_state, done_status, mark, missing, execute, done}
use ozy.Installer.Steps.{Host, venv_ready}
use ozy.Installer.Install.{Options, detection_steps, install_steps, run, completed}
use ozy.Installer.Install.Gate.{run-consent, missing_dependency}
use ozy.Installer.Install.Complete.{Works, installation_completes}
use ozy.Installer.Uninstall.{remove_all, UninstallOptions, uninstall}
use ozy.Installer.Uninstall.Safety.{Allowed, uninstall-Allowed}
use ozy.Common.{
  lookup, trim_right, trim_left, is_some, Str, codes, str_eq, has, is_prefix, contains, filter, All,
  ◌≡◌, refl, ◌≢◌, ◌⊎◌, inl, true, false, not, ◌&&◌, ◌||◌, Option, none, some, List, [], ◌∷◌, ◌++◌,
}

abbrev join_slash : List Str → Str
join_slash [] = []
join_slash (s ∷ []) = s
join_slash (s ∷ t ∷ ts) = s ++ (b'/' ∷ join_slash (t ∷ ts))

abbrev here : Paths
here = record {
  config_dir = codes "/c";
  config_file = codes "/c/ozy.jsonc";
  data_dir = codes "/d";
  cache_dir = codes "/k";
  state_dir = codes "/s";
  log_dir = codes "/s/logs";
  venv_dir = codes "/s/venv";
  asset_dir = codes "/d/assets";
  user_bin_dir = codes "/b";
  binary_path = codes "/b/ozy";
}

abbrev host : Host World
host = record {
  build = some (codes "v1.0.0");
  dev_null = codes "/dev/null";
  join = join_slash;
  dir_of = λ s. s;
  home_dir = λ w. codes "/home/u";
  shell_base = λ w. codes "bash";
  reachable = λ w. false;
  dir_exists = λ d w. has w d;
  file_exists = λ f w. has w f;
  mkdir_all = λ d w. (d ∷ w, none);
  lookup_env = λ v w. none;
  set_env = λ v value w. w;
  command = λ args w. (join_slash args ∷ w, [], none);
  load_config = λ f w. none;
  write_starter = λ f w. (f ∷ w, none);
  provision = λ w. (w, venv_ready);
  warm_up = λ w. (w, some (codes "offline"));
  open_catalog = λ f w. (w, none);
  read_rc = λ f w. record { content = none; read_error = none; write_error = none };
  write_rc = λ f rc w. f ∷ w;
}

abbrev go_row : DepStatus → Dependency
go_row status = record {
  name = codes "Go toolchain";
  required = true;
  detected = [];
  wanted = codes "1.26+";
  status = status;
  can_manage = false;
}

abbrev plan_with : DepStatus → Plan
plan_with status = record {
  goos = codes "linux";
  paths = here;
  ozy_version = codes "v1.0.0";
  is_update = false;
  existing_binary = [];
  existing_config = [];
  deps = go_row status ∷ [];
  steps = [];
  downloads = [];
  est_disk_bytes = 0;
  path_change = [];
  warnings = [];
}

abbrev cautious : ConsentPolicy
cautious = record { assume_yes = true; interactive = false }

host-Works : Works host
host-Works = record {
  makes_dirs = λ d w. refl;
  go_succeeds = λ args w. refl;
  writes_starter = λ path w. refl;
  opens_catalog = λ path w. refl;
  provisions = λ w. inl refl;
}

released : release_version host.build ≡ some (codes "v1.0.0")
unfolding release_version str_eq contains is_prefix
released = refl

installation_completes_example :
    ((execute clock writable (install_steps host cautious (plan_with dep_ok)) fresh_run).1 ≡ none)
    × All
        (λ s.
          done
            (execute clock writable
              (install_steps host cautious (plan_with dep_ok))
              fresh_run).0.state
            s.name
          ≡ true)
        (install_steps host cautious (plan_with dep_ok))
installation_completes_example =
    installation_completes host host-Works cautious (plan_with dep_ok) clock writable fresh_run
      (codes "v1.0.0") (λ w. refl) released refl

not_detection :
    All
      (λ s. str_eq s.name (codes "CreateInstallRoot") ≡ false)
      (detection_steps host cautious (plan_with dep_missing))
unfolding detection_steps str_eq
not_detection = (refl, (refl, (refl, (refl, tt))))

missing_dependency_example :
    ((execute clock writable
        (install_steps host cautious (plan_with dep_missing))
        fresh_run).0.world
      ≡ [])
    × (is_some
          (execute clock writable (install_steps host cautious (plan_with dep_missing)) fresh_run).1
        ≡ true)
    × (lookup
          (codes "CreateInstallRoot")
          (execute clock writable
            (install_steps host cautious (plan_with dep_missing))
            fresh_run).0.state.steps
        ≡ lookup (codes "CreateInstallRoot") fresh_run.state.steps)
missing_dependency_example =
    missing_dependency clock writable host cautious (plan_with dep_missing) fresh_run
      (codes "CreateInstallRoot") refl not_detection

abbrev plain : Options
plain = record { dry_run = false; assume_yes = false; manual = false }

abbrev log_opens : World → World × Option Str
log_opens w = (w, none)

run-consent_example :
    (((run clock writable log_opens host true
          (plan_with dep_ok)
          plain
          []
          (codes "no" ∷ [])
          missing).0
        ≡ [])
      × ((run clock writable log_opens host true
            (plan_with dep_ok)
            plain
            []
            (codes "no" ∷ [])
            missing).1
          ≢ completed))
    ⊎ ((plain.manual ≡ false)
        × (plain.dry_run ≡ false)
        × ((plain.assume_yes || (true && confirm (codes "no") true)) ≡ true))
run-consent_example =
    run-consent clock writable log_opens host true (plan_with dep_ok) plain [] (codes "no" ∷ [])
      missing

abbrev purging : UninstallOptions
purging = record {
  dry_run = false;
  assume_yes = true;
  keep_config = false;
  keep_data = false;
  purge = true;
}

abbrev remove_tree : Str → World → World × Option Str
remove_tree t w = (filter (λ s. not (str_eq s t)) w, none)

uninstall-Allowed_example :
    All
      (Allowed purging true (codes "purge"))
      (uninstall remove_tree
        (λ t w. has w t)
        true
        here
        purging
        (codes "/c/ozy.jsonc" ∷ codes "/d" ∷ [])
        (codes "purge" ∷ codes "y" ∷ [])).started
uninstall-Allowed_example =
    uninstall-Allowed remove_tree (λ t w. has w t) true here purging
      (codes "/c/ozy.jsonc" ∷ codes "/d" ∷ []) (codes "purge" ∷ codes "y" ∷ [])

purged :
    (uninstall remove_tree
      (λ t w. has w t)
      true
      here
      purging
      (codes "/c/ozy.jsonc" ∷ codes "/d" ∷ [])
      (codes "purge" ∷ codes "y" ∷ [])).world
    ≡ []
unfolding uninstall decide str_eq trim_right trim_left remove_all ask_consent confirm
purged = refl

-- What a first run has left: the three steps that make files are recorded, and the files are there.
abbrev second_run : Context World
second_run = record fresh_run {
  world =
      codes "/b"
      ∷ codes "/c"
      ∷ codes "/d"
      ∷ codes "/k"
      ∷ codes "/s"
      ∷ codes "/s/logs"
      ∷ codes "/b/ozy"
      ∷ codes "/c/ozy.jsonc"
      ∷ [];
  state = mark 0 (codes "CreateInstallRoot") done_status [] (
      mark 0 (codes "InstallOzyBinary") done_status []
        (mark 0 (codes "CreateOrUpdateConfig") done_status [] fresh_state));
}
