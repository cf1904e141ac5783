-- ===== src/Installer/Uninstall.antt =====
-- internal/installer/uninstall.go: the plan of what is removed, and the run over it. The host answers
-- whether a path is present and removes a tree. What is printed is left out; `started` keeps which
-- categories the removal was begun for. The clean-up of the PATH block is asked for at the end.
pub mod Safety
use ozy.Paths.{Paths, windows}
use ozy.Installer.Consent.{
  ConsentPolicy, Decision, ordinary, risky, proceed, ask_user, skip_no_consent, decide, confirm,
  next_line, later_lines, ask_consent,
}
use ozy.Installer.PathBlock.{RcFile, path_block_begin, remove_path_block}
use ozy.Common.{
  trim_space, if◌then◌else◌, Str, codes, str_eq, contains, filter, any, Bool, true, false, not,
  ◌&&◌, Option, none, some, List, [], ◌∷◌, ◌++◌,
}

pub record UninstallOptions : Type 0 where
  pub dry_run : Bool
  pub assume_yes : Bool
  pub keep_config : Bool
  pub keep_data : Bool
  pub purge : Bool

pub data Category : Type 0 where
  binary_files managed_runtime cache_files data_models config_files : Category

pub record Removal : Type 0 where
  pub category : Category
  pub targets : List Str
  pub is_risky : Bool

abbrev pub policy_for : UninstallOptions → Bool → ConsentPolicy
policy_for opts interactive = record { assume_yes = opts.assume_yes; interactive = interactive }

abbrev pub is_config : Category → Bool
is_config config_files = true
is_config binary_files = false
is_config managed_runtime = false
is_config cache_files = false
is_config data_models = false

abbrev pub with_targets : Category → Bool → List Str → List Removal → List Removal
with_targets cat is_risky [] rest = rest
with_targets cat is_risky (t ∷ ts) rest =
    record { category = cat; targets = t ∷ ts; is_risky = is_risky } ∷ rest

-- `add`: a category without a present target is left out
unfoldable pub add_removal : (Str → Bool) → Category → Bool → List Str → List Removal → List Removal
add_removal present cat is_risky targets rest =
    with_targets cat is_risky (filter present targets) rest

abbrev pub removes_config : UninstallOptions → Bool
removes_config opts = opts.purge && not opts.keep_config

unfoldable pub planned_config : (Str → Bool) → Paths → UninstallOptions → List Removal
planned_config present p opts =
    if removes_config opts
    then add_removal present config_files true (p.config_file ∷ []) []
    else []

unfoldable pub planned_data : (Str → Bool) → Paths → UninstallOptions → List Removal
planned_data present p opts =
    if opts.keep_data
    then planned_config present p opts
    else add_removal present data_models false (p.data_dir ∷ []) (planned_config present p opts)

unfoldable pub plan_removals :
    (Str → Bool) → Paths → UninstallOptions → List Removal × List Category
unfolding add_removal planned_config planned_data
plan_removals present p opts = (
  add_removal present binary_files false (p.binary_path ∷ []) (
      add_removal present managed_runtime false (p.state_dir ∷ [])
        (add_removal present cache_files false (p.cache_dir ∷ []) (planned_data present p opts))),
  (if opts.keep_data then data_models ∷ [] else [])
      ++ (if removes_config opts then [] else config_files ∷ []),
)

-- `hasCategory` and `dropCategory`, of the config
abbrev pub has_config : List Removal → Bool
has_config = any (λ r. is_config r.category)

abbrev pub drop_config : List Removal → List Removal
drop_config = filter (λ r. not (is_config r.category))

unfoldable pub confirm_purge : ConsentPolicy → List Str → Bool × List Str
confirm_purge policy lines =
    if policy.interactive
    then (str_eq (trim_space (next_line lines)) (codes "purge"), later_lines lines)
    else (false, lines)

pub data Outcome : Type 0 where
  previewed declined needs_yes removed : Outcome
  removal_failed : Category → Str → Outcome

pub record Run (W : Type 0) : Type 0 where
  pub world : W
  pub lines : List Str
  pub started : List Category
  pub outcome : Outcome

module _ {W : Type 0} (remove_tree : Str → W → W × Option Str) where
  abbrev then_remove : (W → W × Option Str) → W × Option Str → W × Option Str
  then_remove rest (w, some e) = (w, some e)
  then_remove rest (w, none) = rest w

  unfoldable pub remove_all : List Str → W → W × Option Str
  remove_all [] w = (w, none)
  remove_all (t ∷ targets) w = then_remove (remove_all targets) (remove_tree t w)

  abbrev pub cleared : Category → (Run W → Run W) → Run W → W × Option Str → Run W
  cleared cat rest r (w, some e) = record r { world = w; outcome = removal_failed cat e }
  cleared cat rest r (w, none) = rest (record r { world = w })

  -- one round of the loop, with the rounds after it
  abbrev pub visit : Removal → (Run W → Run W) → Run W → Bool × List Str → Run W
  visit it rest r (false, lines) = rest (record r { lines = lines })
  visit it rest r (true, lines) =
      cleared it.category rest (record r { lines = lines; started = it.category ∷ r.started })
        (remove_all it.targets r.world)

  abbrev consented : ConsentPolicy → Removal → List Str → Bool × List Str
  consented policy it lines = if it.is_risky then ask_consent policy risky lines else (true, lines)

  unfoldable pub remove_each : ConsentPolicy → List Removal → Run W → Run W
  remove_each policy [] r = r
  remove_each policy (it ∷ removals) r =
      visit it (remove_each policy removals) r (consented policy it r.lines)

  abbrev pub confirmed : List Removal → Bool → List Removal
  confirmed removals true = removals
  confirmed removals false = drop_config removals

  abbrev pub stopped : W → List Str → Outcome → Run W
  stopped w lines outcome = record { world = w; lines = lines; started = []; outcome = outcome }

  -- after the overall go-ahead
  abbrev pub go_ahead : ConsentPolicy → List Removal → W → List Str → Run W
  go_ahead policy removals w lines =
      let (typed, left) = confirm_purge policy lines in
      if has_config removals
      then remove_each policy (confirmed removals typed) (stopped w left removed)
      else remove_each policy removals (stopped w lines removed)

  abbrev pub resolved : ConsentPolicy → List Removal → W → List Str → Decision → Run W
  resolved policy removals w lines proceed = go_ahead policy removals w lines
  resolved policy removals w lines skip_no_consent = stopped w lines needs_yes
  resolved policy removals w lines ask_user =
      if confirm (next_line lines) false
      then go_ahead policy removals w (later_lines lines)
      else stopped w (later_lines lines) declined

  -- `Uninstall`, up to the PATH block
  unfoldable pub uninstall :
      (Str → W → Bool) → Bool → Paths → UninstallOptions → W → List Str → Run W
  unfolding plan_removals remove_each confirm_purge
  uninstall present interactive p opts w lines =
      let policy = policy_for opts interactive in
      let removals = (plan_removals (λ path. not (str_eq path []) && present path w) p opts).0 in
      if opts.dry_run
      then stopped w lines previewed
      else resolved policy removals w lines (decide policy ordinary)

abbrev marked : RcFile → Option Str → Option Str → Bool
marked f (some e) content = false
marked f none none = false
marked f none (some text) = contains text path_block_begin

-- `cleanupPath`
unfoldable pub cleanup_path : ConsentPolicy → Str → RcFile → List Str → RcFile × List Str
cleanup_path policy goos f lines =
    let (ok, left) = ask_consent policy risky lines in
    if str_eq goos windows
    then (f, lines)
    else if marked f f.read_error f.content
    then if ok then ((remove_path_block f).0, left) else (f, left)
    else (f, lines)
