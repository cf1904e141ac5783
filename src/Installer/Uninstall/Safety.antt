-- ===== src/Installer/Uninstall/Safety.antt =====
-- internal/installer/uninstall.go: what an uninstallation never begins to remove.
use ozy.Paths.{Paths}
use ozy.Installer.Consent.{
  Decision, proceed, ask_user, skip_no_consent, ConsentPolicy, ordinary, needs_prompt, decide,
  confirm, next_line, later_lines,
}
use ozy.Installer.Uninstall.{
  planned_config, planned_data, removed, with_targets, policy_for, resolved, stopped,
  UninstallOptions, Category, binary_files, managed_runtime, cache_files, data_models, config_files,
  Removal, Run, is_config, removes_config, add_removal, plan_removals, drop_config, has_config,
  confirm_purge, remove_all, remove_each, confirmed, go_ahead, visit, uninstall,
}
use ozy.Common.{
  trim_space, if◌then◌else◌, Bool-cases, Option-cases, if_case, Str, codes, str_eq, str_eq_iff,
  filter, All, All-map, ◌≡◌, refl, ◌⊎◌, inl, inr, Bool, true, false, not, ◌&&◌, Option, List, [],
  ◌∷◌, arith,
}

-- The line at which the word is typed: the first one, or the second after the overall question.
abbrev pub purge_line : UninstallOptions → List Str → Str
purge_line opts lines = if opts.assume_yes then next_line lines else next_line (later_lines lines)

-- What must hold for a category to be removed.
abbrev pub Allowed : UninstallOptions → Bool → Str → Category → Type 0
Allowed opts interactive word binary_files = opts.dry_run ≡ false
Allowed opts interactive word managed_runtime = opts.dry_run ≡ false
Allowed opts interactive word cache_files = opts.dry_run ≡ false
Allowed opts interactive word data_models = (opts.dry_run ≡ false) × (opts.keep_data ≡ false)
Allowed opts interactive word config_files =
    (opts.dry_run ≡ false)
    × (opts.purge ≡ true)
    × (opts.keep_config ≡ false)
    × (interactive ≡ true)
    × (trim_space word ≡ codes "purge")

module _ (P : Category → Type 0) where
  abbrev Of : Removal → Type 0
  Of r = P r.category

  with_targets-All :
      (cat : Category) (b : Bool) (targets : List Str) (rest : List Removal)
      → P cat
      → All Of rest
      → All Of (with_targets cat b targets rest)
  with_targets-All cat b [] rest h k = k
  with_targets-All cat b (t ∷ ts) rest h k = (h, k)

  add_removal-All :
      (present : Str → Bool) (cat : Category) (b : Bool) (targets : List Str) (rest : List Removal)
      → P cat
      → All Of rest
      → All Of (add_removal present cat b targets rest)
  unfolding add_removal
  add_removal-All present cat b targets rest h k =
      with_targets-All cat b (filter present targets) rest h k

  module _ {W : Type 0} (remove_tree : Str → W → W × Option Str) where
    visit-All :
        (it : Removal) (rest : Run W → Run W) (r : Run W) (answer : Bool × List Str)
        → P it.category
        → ((s : Run W) → All P s.started → All P (rest s).started)
        → All P r.started
        → All P (visit remove_tree it rest r answer).started
    visit-All it rest r (false, lines) h k s = k _ s
    visit-All it rest r (true, lines) h k s =
        elim (Option-cases (remove_all remove_tree it.targets r.world).1) [
          | inl e ↦ rw e (k _ (h, s))
          | inr (m, e) ↦ rw e (h, s)
        ]

    remove_each-All :
        (policy : ConsentPolicy) (removals : List Removal) (r : Run W)
        → All Of removals
        → All P r.started
        → All P (remove_each remove_tree policy removals r).started
    unfolding remove_each
    remove_each-All policy [] r h s = s
    remove_each-All policy (it ∷ removals) r h s =
        visit-All it (remove_each remove_tree policy removals) r _ h.0
          (λ s k. remove_each-All policy removals s h.1 k) s

-- What the flags alone allow.
abbrev Planned : UninstallOptions → Category → Type 0
Planned opts binary_files = Unit
Planned opts managed_runtime = Unit
Planned opts cache_files = Unit
Planned opts data_models = opts.keep_data ≡ false
Planned opts config_files = (opts.purge ≡ true) × (opts.keep_config ≡ false)

planned_config-Planned :
    (present : Str → Bool) (p : Paths) (opts : UninstallOptions)
    → All (Of (Planned opts)) (planned_config present p opts)
unfolding planned_config
planned_config-Planned present p opts =
    if_case (All (Of (Planned opts))) (removes_config opts)
      (λ e.
        add_removal-All (Planned opts) present config_files true (p.config_file ∷ []) []
          (ground arith) tt)
      (λ e. tt)

planned_data-Planned :
    (present : Str → Bool) (p : Paths) (opts : UninstallOptions)
    → All (Of (Planned opts)) (planned_data present p opts)
unfolding planned_data
planned_data-Planned present p opts =
    let config = planned_config-Planned present p opts in
    if_case (All (Of (Planned opts))) opts.keep_data (λ k. config)
      (λ k.
        add_removal-All (Planned opts) present data_models false (p.data_dir ∷ [])
          (planned_config present p opts) k config)

plan_removals-Planned :
    (present : Str → Bool) (p : Paths) (opts : UninstallOptions)
    → All (Of (Planned opts)) (plan_removals present p opts).0
unfolding plan_removals
plan_removals-Planned present p opts =
    let rest = planned_data present p opts in
    let cache = add_removal present cache_files false (p.cache_dir ∷ []) rest in
    let add = add_removal-All (Planned opts) present in
    add binary_files false (p.binary_path ∷ [])
      (add_removal present managed_runtime false (p.state_dir ∷ []) cache) tt
      (add managed_runtime false (p.state_dir ∷ []) cache tt
        (add cache_files false (p.cache_dir ∷ []) rest tt (planned_data-Planned present p opts)))

module _ (opts : UninstallOptions) (interactive : Bool) (word : Str)
    (dry : opts.dry_run ≡ false) where
  abbrev Confirmed : Type 0
  Confirmed = (interactive ≡ true) × (trim_space word ≡ codes "purge")

  allow :
      (cat : Category)
      → Planned opts cat
      → (is_config cat ≡ false) ⊎ Confirmed
      → Allowed opts interactive word cat
  allow binary_files h k = dry
  allow managed_runtime h k = dry
  allow cache_files h k = dry
  allow data_models h k = (dry, h)
  allow config_files h (inl k) = absurd (grind arith)
  allow config_files h (inr k) = (dry, h.0, h.1, k.0, k.1)

  without_config :
      (removals : List Removal)
      → has_config removals ≡ false
      → All (Of (Planned opts)) removals
      → All (Of (Allowed opts interactive word)) removals
  without_config [] h k = tt
  without_config (r ∷ removals) h k =
      (allow r.category k.0 (inl (ground arith)), without_config removals (ground arith) k.1)

  drop_config-Allowed :
      (removals : List Removal)
      → All (Of (Planned opts)) removals
      → All (Of (Allowed opts interactive word)) (drop_config removals)
  drop_config-Allowed [] h = tt
  drop_config-Allowed (r ∷ removals) h = elim (Bool-cases (is_config r.category)) [
    | inl e ↦ rw e (drop_config-Allowed removals h.1)
    | inr e ↦ rw e (allow r.category h.0 (inl e), drop_config-Allowed removals h.1)
  ]

  module _ {W : Type 0} (remove_tree : Str → W → W × Option Str) where
    agreed :
        (removals : List Removal) (typed : Bool)
        → (typed ≡ true → Confirmed)
        → All (Of (Planned opts)) removals
        → All (Of (Allowed opts interactive word)) (confirmed remove_tree removals typed)
    agreed removals false e h = drop_config-Allowed removals h
    agreed removals true e h = All-map (λ r k. allow r.category k (inr (e refl))) removals h

    typed_word :
        (lines : List Str)
        → word ≡ next_line lines
        → (confirm_purge (policy_for opts interactive) lines).0 ≡ true
        → Confirmed
    unfolding confirm_purge
    typed_word lines e h = ground (arith, str_eq_iff (trim_space (next_line lines)) (codes "purge"))

    go_ahead-Allowed :
        (removals : List Removal) (w : W) (lines : List Str)
        → word ≡ next_line lines
        → All (Of (Planned opts)) removals
        → All
            (Allowed opts interactive word)
            (go_ahead remove_tree (policy_for opts interactive) removals w lines).started
    go_ahead-Allowed removals w lines e h =
        let policy = policy_for opts interactive in
        let go = remove_each-All (Allowed opts interactive word) remove_tree policy in
        elim (Bool-cases (has_config removals)) [
          | inr c ↦
              rw c
                (go removals (stopped remove_tree w lines removed) (without_config removals c h) tt)
          | inl c ↦ rw c (
              go (confirmed remove_tree removals (confirm_purge policy lines).0)
                (stopped remove_tree w (confirm_purge policy lines).1 removed)
                (agreed removals (confirm_purge policy lines).0 (typed_word lines e) h) tt)
        ]

module _ (opts : UninstallOptions) (interactive : Bool) (dry : opts.dry_run ≡ false) where
  module _ {W : Type 0} (remove_tree : Str → W → W × Option Str) where
    resolved-Allowed :
        (removals : List Removal) (w : W) (lines : List Str) (d : Decision)
        → decide (policy_for opts interactive) ordinary ≡ d
        → All (Of (Planned opts)) removals
        → All
            (Allowed opts interactive (purge_line opts lines))
            (resolved remove_tree (policy_for opts interactive) removals w lines d).started
    unfolding decide needs_prompt
    resolved-Allowed removals w lines skip_no_consent e h = tt
    resolved-Allowed removals w lines proceed e h =
        go_ahead-Allowed opts interactive (purge_line opts lines) dry remove_tree removals w lines
          (ground arith) h
    resolved-Allowed removals w lines ask_user e h =
        if_case {A = Run W} (λ r. All (Allowed opts interactive (purge_line opts lines)) r.started)
          (confirm (next_line lines) false)
          (λ c.
            go_ahead-Allowed opts interactive (purge_line opts lines) dry remove_tree removals w
              (later_lines lines) (ground arith) h)
          (λ c. tt)

-- Whatever is present, whatever the terminal answers and however the removals end: nothing is begun
-- in a preview; the data and models are not begun under `--keep-data`; and the configuration is not
-- begun unless `--purge` was given without `--keep-config`, the run is interactive and the word `purge`
-- was typed, which `--yes` does not replace.
pub uninstall-Allowed :
    {W : Type 0} (remove_tree : Str → W → W × Option Str) (present : Str → W → Bool)
    (interactive : Bool) (p : Paths) (opts : UninstallOptions) (w : W) (lines : List Str)
    → All
        (Allowed opts interactive (purge_line opts lines))
        (uninstall remove_tree present interactive p opts w lines).started
unfolding uninstall decide needs_prompt
uninstall-Allowed {W = W} remove_tree present interactive p opts w lines =
    let removals = (plan_removals (λ path. not (str_eq path []) && present path w) p opts).0 in
    if_case {A = Run W} (λ r. All (Allowed opts interactive (purge_line opts lines)) r.started)
      opts.dry_run (λ d. tt)
      (λ d.
        resolved-Allowed opts interactive d remove_tree removals w lines
          (decide (policy_for opts interactive) ordinary) refl
          (plan_removals-Planned (λ path. not (str_eq path []) && present path w) p opts))
