-- ===== src/Installer/Install/Complete.antt =====
-- internal/installer/steps.go: what an installation needs to come to its end.
use ozy.Paths.{windows}
use ozy.Installer.Consent.{ConsentPolicy, ask_consent, risky}
use ozy.Installer.Deps.{Dependency}
use ozy.Installer.PathBlock.{rc_file_for}
use ozy.Installer.Plan.{Plan, semantic_planned, release_version}
use ozy.Installer.Machine.{Context, execute, done}
use ozy.Installer.Resume.{Succeeds, execute_finishes}
use ozy.Installer.Steps.{
  provisioned, Host, Provisioned, venv_ready, no_toolchain, provision_failed, blocks,
  check_dependencies, create_dirs, install_dirs, install_published_ozy, install_ozy_binary, ensure,
  asked, provision_venv, edit_rc, edit_user_path, setup_python_environment,
  download_embedding_assets, build_or_load_tool_catalog, configure_unix_path,
  configure_windows_path, configure_path, run_doctor,
}
use ozy.Installer.Install.{detection_steps, mutating_steps, install_steps}
use ozy.Common.{
  Bool-cases, Option-cases, Str, codes, str_eq, any, All, ℕ, ◌≡◌, refl, ◌⊎◌, inl, inr, Bool, true,
  false, Option, none, some, List, [], ◌∷◌, arith,
}

-- What a host must answer: directories can be made, the go command succeeds, a starter
-- configuration can be written, the catalog opens, and the Python environment is either made or found
-- impossible for lack of a toolchain. Nothing is asked of the model's download, of the edit of PATH, of
-- the doctor, nor of the user.
pub record Works {W : Type 0} (host : Host W) : Type 0 where
  pub makes_dirs : (d : Str) (w : W) → (host.mkdir_all d w).1 ≡ none
  pub go_succeeds : (args : List Str) (w : W) → (host.command (codes "go" ∷ args) w).2 ≡ none
  pub writes_starter : (path : Str) (w : W) → (host.write_starter path w).1 ≡ none
  pub opens_catalog : (path : Str) (w : W) → (host.open_catalog path w).1 ≡ none
  pub provisions :
      (w : W) → ((host.provision w).1 ≡ venv_ready) ⊎ ((host.provision w).1 ≡ no_toolchain)

pub dependencies-succeed :
    (deps : List Dependency) → any blocks deps ≡ false → check_dependencies deps ≡ none
unfolding check_dependencies
dependencies-succeed [] h = refl
dependencies-succeed (d ∷ deps) h = elim (Bool-cases (blocks d)) [
  | inl b ↦ absurd (grind arith)
  | inr b ↦ rw b (dependencies-succeed deps (rw b at h))
]

module _ {W : Type 0} (host : Host W) (works : Works host) where
  create_dirs-succeeds : (dirs : List Str) (w : W) → (create_dirs host dirs w).1 ≡ none
  unfolding create_dirs
  create_dirs-succeeds [] w = refl
  create_dirs-succeeds (d ∷ dirs) w =
      rw (works.makes_dirs d w) (create_dirs-succeeds dirs (host.mkdir_all d w).0)

  install_published-succeeds :
      (plan : Plan) (v : Str) (w : W) → (install_published_ozy host plan.paths v w).1 ≡ none
  unfolding install_published_ozy
  install_published-succeeds plan v w = rw (works.go_succeeds _ _) refl

  ensure-succeeds : (path : Str) (w : W) → (ensure host path w).1 ≡ none
  unfolding ensure
  ensure-succeeds path w = elim (Bool-cases (host.file_exists path w)) [
    | inl e ↦ rw e refl
    | inr e ↦ rw (e, works.writes_starter path w) refl
  ]

  install_ozy-succeeds :
      (plan : Plan) (v : Str) (w : W)
      → release_version host.build ≡ some v
      → (install_ozy_binary host plan.paths w).1 ≡ none
  unfolding install_ozy_binary
  install_ozy-succeeds plan v w h = rw h (install_published-succeeds plan v w)

module _ {W : Type 0} (host : Host W) (works : Works host) (policy : ConsentPolicy)
    (plan : Plan) where
  asked-Succeeds :
      (c : Context W) (action : Context W → Context W × Option Str) (answer : Bool × List Str)
      → ((d : Context W) → ((action d).1 ≡ none) × ((action d).0.state ≡ d.state))
      → ((asked host policy plan c action answer).1 ≡ none)
        × ((asked host policy plan c action answer).0.state ≡ c.state)
  asked-Succeeds c action (true, lines) h = h (record c { lines = lines })
  asked-Succeeds c action (false, lines) h = (refl, refl)

  provisioned-Succeeds :
      (d : Context W) (r : W × Provisioned)
      → (r.1 ≡ venv_ready) ⊎ (r.1 ≡ no_toolchain)
      → ((provisioned host policy plan d r).1 ≡ none)
        × ((provisioned host policy plan d r).0.state ≡ d.state)
  provisioned-Succeeds d (w, venv_ready) h = (refl, refl)
  provisioned-Succeeds d (w, no_toolchain) h = (refl, refl)
  provisioned-Succeeds d (w, provision_failed e) h = absurd (grind arith)

  setup-Succeeds :
      (c : Context W)
      → ((setup_python_environment host policy plan c).1 ≡ none)
        × ((setup_python_environment host policy plan c).0.state ≡ c.state)
  unfolding setup_python_environment
  setup-Succeeds c = elim (Bool-cases (semantic_planned plan)) [
    | inl e ↦ rw e (
        asked-Succeeds c (provision_venv host policy plan) (ask_consent policy risky c.lines)
          (λ d. provisioned-Succeeds d (host.provision d.world) (works.provisions d.world)))
    | inr e ↦ rw e (refl, refl)
  ]

  download-Succeeds :
      (c : Context W)
      → ((download_embedding_assets host policy plan c).1 ≡ none)
        × ((download_embedding_assets host policy plan c).0.state ≡ c.state)
  unfolding download_embedding_assets
  download-Succeeds c = elim (Bool-cases c.semantic_ok) [
    | inl e ↦ elim (Option-cases (host.warm_up c.world).1) [
      | inl n ↦ rw (e, n) (refl, refl)
      | inr (m, n) ↦ rw (e, n) (refl, refl)
    ]
    | inr e ↦ rw e (refl, refl)
  ]

  configure-Succeeds :
      (c : Context W)
      → ((configure_path host policy plan c).1 ≡ none)
        × ((configure_path host policy plan c).0.state ≡ c.state)
  unfolding configure_path configure_unix_path configure_windows_path
  configure-Succeeds c = elim (Bool-cases (host.reachable c.world)) [
    | inl e ↦ rw e (refl, refl)
    | inr e ↦ elim (Bool-cases (str_eq plan.goos windows)) [
      | inl w ↦
          rw (e, w)
            (asked-Succeeds c (edit_user_path host policy plan) (ask_consent policy risky c.lines)
              (λ d. (refl, refl)))
      | inr w ↦
          rw (e, w)
            (asked-Succeeds c
              (edit_rc host policy plan
                (rc_file_for host.join (host.shell_base c.world) (host.home_dir c.world)))
              (ask_consent policy risky c.lines) (λ d. (refl, refl)))
    ]
  ]

  catalog-Succeeds :
      (c : Context W)
      → ((build_or_load_tool_catalog host policy plan c).1 ≡ none)
        × ((build_or_load_tool_catalog host policy plan c).0.state ≡ c.state)
  unfolding build_or_load_tool_catalog
  catalog-Succeeds c = rw (works.opens_catalog _ c.world) (refl, refl)

  doctor-Succeeds :
      (c : Context W)
      → ((run_doctor host policy plan c).1 ≡ none)
        × ((run_doctor host policy plan c).0.state ≡ c.state)
  unfolding run_doctor
  doctor-Succeeds c = (refl, refl)

  install-Succeeds :
      (v : Str)
      → release_version host.build ≡ some v
      → any blocks plan.deps ≡ false
      → All Succeeds (install_steps host policy plan)
  unfolding detection_steps mutating_steps
  install-Succeeds v r h = (
    (λ c. (refl, refl)),
    (
      (λ c. (refl, refl)),
      (
        (λ c. (refl, refl)),
        (
          (λ c. (dependencies-succeed plan.deps h, refl)),
          (
            (λ c. (create_dirs-succeeds host works (install_dirs plan.paths) c.world, refl)),
            (
              (λ c. (install_ozy-succeeds host works plan v c.world r, refl)),
              (
                (λ c. (ensure-succeeds host works plan.paths.config_file c.world, refl)),
                (
                  setup-Succeeds,
                  (
                    download-Succeeds,
                    (
                      catalog-Succeeds,
                      (configure-Succeeds, (doctor-Succeeds, ((λ c. (refl, refl)), tt))),
                    ),
                  ),
                ),
              ),
            ),
          ),
        ),
      ),
    ),
  )

  -- An installation of a released version comes to its end on a host that works: with every required
  -- dependency there and the state file writable, the run of all the steps ends without a failure, from
  -- any recorded state, and records every one of the thirteen steps as done, whatever the user answers
  -- to the risky ones and whether or not the model, the PATH edit and the doctor succeed.
  pub installation_completes :
      (now : W → ℕ) (can_save : W → Bool) (c : Context W) (v : Str)
      → ((w : W) → can_save w ≡ true)
      → release_version host.build ≡ some v
      → any blocks plan.deps ≡ false
      → ((execute now can_save (install_steps host policy plan) c).1 ≡ none)
        × All
            (λ s.
              done (execute now can_save (install_steps host policy plan) c).0.state s.name ≡ true)
            (install_steps host policy plan)
  installation_completes now can_save c v saves r h =
      execute_finishes now can_save saves (install_steps host policy plan) c
        (install-Succeeds v r h)
