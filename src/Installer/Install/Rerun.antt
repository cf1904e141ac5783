-- ===== src/Installer/Install/Rerun.antt =====
-- internal/installer/install.go and steps.go: which work a second installation repeats.
use ozy.Installer.Consent.{ConsentPolicy}
use ozy.Installer.Plan.{Plan}
use ozy.Installer.Machine.{done, Context, Step, still_valid, perform}
use ozy.Installer.Resume.{Succeeds}
use ozy.Installer.Steps.{Host, install_dirs, dirs_exist, valid_config}
use ozy.Installer.Install.{mutating_steps}
use ozy.Installer.Install.Gate.{OnlyLooks}
use ozy.Common.{Str, codes, drop, ℕ, ◌≡◌, ◌⊎◌, Bool, true, none, List}

module _ {W : Type 0} (now : W → ℕ) (can_save : W → Bool)
    (saves : (w : W) → can_save w ≡ true) where
  -- What a run passes over on the host `w`: a step that only looks and succeeds, or one that is
  -- recorded as done and whose output is there.
  abbrev Passes : Context W → Step W → Type 0
  Passes c s =
      (Succeeds s × OnlyLooks now can_save s)
      ⊎ ((done c.state s.name ≡ true)
          × ((d : Context W) → d.world ≡ c.world → still_valid s.valid d ≡ true))

  Passed : Step W → Context W → Type 0
  Passed s c =
      ((perform now can_save s c).1 ≡ none)
      × ((perform now can_save s c).0.world ≡ c.world)
      × ((k : Str) → done c.state k ≡ true → done (perform now can_save s c).0.state k ≡ true)

-- What an earlier run has left: the three steps that make files are recorded as done, and their
-- output is there.
pub record Left {W : Type 0} (host : Host W) (plan : Plan) (c : Context W) : Type 0 where
  pub dirs_done : done c.state (codes "CreateInstallRoot") ≡ true
  pub binary_done : done c.state (codes "InstallOzyBinary") ≡ true
  pub config_done : done c.state (codes "CreateOrUpdateConfig") ≡ true
  pub dirs_there : dirs_exist host (install_dirs plan.paths) c.world ≡ true
  pub binary_there : host.file_exists plan.paths.binary_path c.world ≡ true
  pub config_there : valid_config host plan.paths.config_file c.world ≡ true

module _ {W : Type 0} (now : W → ℕ) (can_save : W → Bool) (saves : (w : W) → can_save w ≡ true)
    (host : Host W) (policy : ConsentPolicy) (plan : Plan) where
  -- The steps from the Python environment on, which have no validity test.
  abbrev pub untested_steps : List (Step W)
  untested_steps = drop 3 (mutating_steps host policy plan)
