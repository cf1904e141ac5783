-- ===== src/Installer/Install/Gate.antt =====
-- internal/installer/install.go and steps.go: what must hold before an installation changes anything.
use mathlib.Core.Path.{◌∙◌, sym, subst}
use ozy.Installer.Consent.{ConsentPolicy, needs_prompt, decide, confirm, next_line}
use ozy.Installer.Plan.{Plan}
use ozy.Installer.Deps.{Dependency}
use ozy.Installer.Machine.{
  State, outcome, failed_status, done_status, mark, done, Context, Step, StateFile, Failure,
  skippable, record_as, conclude, perform, execute,
}
use ozy.Installer.Resume.{then_ok, then_failed}
use ozy.Installer.Steps.{Host, blocks, check_dependencies}
use ozy.Installer.Install.{detection_steps, mutating_steps, install_steps, Options, completed, run}
use ozy.Common.{
  str_eq, lookup, lookup-insert, ap, any, is_some, true, Bool-cases, Option-cases, is_some, Str,
  any, All, ℕ, ◌≡◌, refl, sym, ◌∙◌, ◌≢◌, ◌⊎◌, inl, inr, Bool, true, false, ◌&&◌, ◌||◌, Option, none,
  some, List, [], ◌∷◌, ◌++◌, arith,
}

-- Nothing is done to the host unless it was asked for: a run that is neither a checklist nor a
-- preview changes the host, and opens its log, only if `--yes` was given or the terminal answered the
-- one question with yes (an empty line is a yes here). In every other case the host is as it was and
-- the installation is not completed.
pub run-consent :
    {W : Type 0} (now : W → ℕ) (can_save : W → Bool) (open_log : W → W × Option Str) (host : Host W)
    (interactive : Bool) (plan : Plan) (opts : Options) (w : W) (lines : List Str)
    (file : StateFile)
    → (((run now can_save open_log host interactive plan opts w lines file).0 ≡ w)
        × ((run now can_save open_log host interactive plan opts w lines file).1 ≢ completed))
      ⊎ ((opts.manual ≡ false)
          × (opts.dry_run ≡ false)
          × ((opts.assume_yes || (interactive && confirm (next_line lines) true)) ≡ true))
unfolding run decide needs_prompt
run-consent now can_save open_log host interactive plan opts w lines file =
    elim (Bool-cases opts.manual) [
      | inl m ↦ inl (rw m (refl, λ e. grind arith))
      | inr m ↦ elim (Bool-cases opts.dry_run) [
        | inl d ↦ inl (rw (m, d) (refl, λ e. grind arith))
        | inr d ↦ elim (Bool-cases opts.assume_yes) [
          | inl y ↦ inr (m, d, rw y refl)
          | inr y ↦ elim (Bool-cases interactive) [
            | inl i ↦ elim (Bool-cases (confirm (next_line lines) true)) [
              | inl c ↦ inr (m, d, rw (y, i, c) refl)
              | inr c ↦ inl (rw (m, d, y, i, c) (refl, λ e. grind arith))
            ]
            | inr i ↦ inl (rw (m, d, y, i) (refl, λ e. grind arith))
          ]
        ]
      ]
    ]

module _ {W : Type 0} (now : W → ℕ) (can_save : W → Bool) where
  -- A step that is always run and changes nothing on the host.
  abbrev pub OnlyLooks : Step W → Type 0
  OnlyLooks s = (s.valid ≡ none) × ((c : Context W) → (s.run c).0.world ≡ c.world)

  conclude-world :
      (s : Step W) (r : Context W × Option Str) → (conclude now can_save s r).0.world ≡ r.0.world
  unfolding conclude record_as
  conclude-world s (c, some e) = ground arith
  conclude-world s (c, none) = elim (Bool-cases (can_save c.world)) [
    | inl e ↦ rw e refl
    | inr e ↦ rw e refl
  ]

  pub perform-world :
      (s : Step W) (c : Context W) → OnlyLooks s → (perform now can_save s c).0.world ≡ c.world
  unfolding perform
  perform-world s c h = elim (Bool-cases (skippable s c)) [
    | inl e ↦ rw e refl
    | inr e ↦ rw e (conclude-world s _ ∙ h.1 _)
  ]

  execute-world :
      (steps : List (Step W)) (c : Context W)
      → All OnlyLooks steps
      → (execute now can_save steps c).0.world ≡ c.world
  unfolding execute
  execute-world [] c h = refl
  execute-world (s ∷ steps) c h =
      let r = perform now can_save s c in
      elim (Option-cases r.1) [
        | inl e ↦
            rw (then_ok now can_save (execute now can_save steps) r e)
              (execute-world steps r.0 h.1 ∙ perform-world s c h.0)
        | inr (f, e) ↦
            rw (then_failed now can_save (execute now can_save steps) r e) (perform-world s c h.0)
      ]

  -- A step whose work leaves the record to the machine, under another name than `k`.
  abbrev Elsewhere : Str → Step W → Type 0
  Elsewhere k s = (str_eq s.name k ≡ false) × ((c : Context W) → (s.run c).0.state ≡ c.state)

  conclude-lookup :
      (k : Str) (s : Step W) (r : Context W × Option Str)
      → str_eq s.name k ≡ false
      → lookup k (conclude now can_save s r).0.state.steps ≡ lookup k r.0.state.steps
  unfolding conclude record_as mark
  conclude-lookup k s (c, some e) h = elim (Bool-cases (can_save c.world)) [
    | inl t ↦ rw t (
        ground
          (arith, lookup-insert s.name k (outcome (now c.world) failed_status e) c.state.steps))
    | inr t ↦ rw t (
        ground
          (arith, lookup-insert s.name k (outcome (now c.world) failed_status e) c.state.steps))
  ]
  conclude-lookup k s (c, none) h = elim (Bool-cases (can_save c.world)) [
    | inl t ↦ rw t (
        ground (arith, lookup-insert s.name k (outcome (now c.world) done_status []) c.state.steps))
    | inr t ↦ rw t (
        ground (arith, lookup-insert s.name k (outcome (now c.world) done_status []) c.state.steps))
  ]

  perform-lookup :
      (k : Str) (s : Step W) (c : Context W)
      → Elsewhere k s
      → lookup k (perform now can_save s c).0.state.steps ≡ lookup k c.state.steps
  unfolding perform
  perform-lookup k s c h = elim (Bool-cases (skippable s c)) [
    | inl e ↦ rw e refl
    | inr e ↦ rw e (conclude-lookup k s _ h.0 ∙ ap (λ (t : State). lookup k t.steps) (h.1 _))
  ]

  execute-lookup :
      (k : Str) (steps : List (Step W)) (c : Context W)
      → All (Elsewhere k) steps
      → lookup k (execute now can_save steps c).0.state.steps ≡ lookup k c.state.steps
  unfolding execute
  execute-lookup k [] c h = refl
  execute-lookup k (s ∷ steps) c h =
      let r = perform now can_save s c in
      elim (Option-cases r.1) [
        | inl e ↦
            rw (then_ok now can_save (execute now can_save steps) r e)
              (execute-lookup k steps r.0 h.1 ∙ perform-lookup k s c h.0)
        | inr (f, e) ↦
            rw (then_failed now can_save (execute now can_save steps) r e)
              (perform-lookup k s c h.0)
      ]

  -- Nothing is run after a failure.
  execute-append :
      (before after : List (Step W)) (c : Context W) {f : Failure}
      → (execute now can_save before c).1 ≡ some f
      → execute now can_save (before ++ after) c ≡ execute now can_save before c
  unfolding execute
  execute-append [] after c h = absurd (grind arith)
  execute-append (s ∷ before) after c {f = f} h =
      let r = perform now can_save s c in
      elim (Option-cases r.1) [
        | inl e ↦
            let go = then_ok now can_save (execute now can_save before) r e in
            then_ok now can_save (execute now can_save (before ++ after)) r e
            ∙ execute-append before after r.0 (subst (λ x. x.1 ≡ some f) go h)
            ∙ sym go
        | inr (g, e) ↦
            then_failed now can_save (execute now can_save (before ++ after)) r e
            ∙ sym (then_failed now can_save (execute now can_save before) r e)
      ]

  -- A step that is always run and never succeeds.
  abbrev Fails : Step W → Type 0
  Fails s = (s.valid ≡ none) × ((c : Context W) → is_some (s.run c).1 ≡ true)

  conclude-fails :
      (s : Step W) (r : Context W × Option Str)
      → is_some r.1 ≡ true
      → is_some (conclude now can_save s r).1 ≡ true
  unfolding conclude
  conclude-fails s (c, some e) h = refl
  conclude-fails s (c, none) h = absurd (grind arith)

  not_skippable : (s : Step W) (c : Context W) → s.valid ≡ none → skippable s c ≡ false
  unfolding skippable
  not_skippable s c h = elim (Bool-cases (done c.state s.name)) [
    | inl e ↦ rw (h, e) refl
    | inr e ↦ rw (h, e) refl
  ]

  perform-Fails :
      (s : Step W) (c : Context W) → Fails s → is_some (perform now can_save s c).1 ≡ true
  unfolding perform
  perform-Fails s c h = rw (not_skippable s c h.0) (conclude-fails s _ (h.1 _))

  abbrev LastFails : List (Step W) → Type 0
  LastFails [] = ⊥
  LastFails (s ∷ []) = Fails s
  LastFails (s ∷ t ∷ steps) = LastFails (t ∷ steps)

  cannot_be_none {ℓ} : {A : Type ℓ} (o : Option A) → is_some o ≡ true → (a : A) × (o ≡ some a)
  cannot_be_none none h = absurd (grind arith)
  cannot_be_none (some a) h = (a, refl)

  execute-fails :
      (steps : List (Step W)) (c : Context W)
      → LastFails steps
      → (f : Failure) × ((execute now can_save steps c).1 ≡ some f)
  unfolding execute
  execute-fails [] c h = absurd h
  execute-fails (s ∷ []) c h =
      let (f, e) = cannot_be_none (perform now can_save s c).1 (perform-Fails s c h) in
      (
        f,
        subst (λ r. r.1 ≡ some f)
            (sym (then_failed now can_save (execute now can_save []) (perform now can_save s c) e))
            e,
      )
  execute-fails (s ∷ t ∷ steps) c h =
      let r = perform now can_save s c in
      elim (Option-cases r.1) [
        | inl e ↦
            let (f, k) = execute-fails (t ∷ steps) r.0 h in
            (
              f,
              subst (λ x. x.1 ≡ some f)
                  (sym (then_ok now can_save (execute now can_save (t ∷ steps)) r e)) k,
            )
        | inr (f, e) ↦ (
          f,
          subst (λ x. x.1 ≡ some f)
              (sym (then_failed now can_save (execute now can_save (t ∷ steps)) r e)) e,
        )
      ]

check_dependencies-blocks :
    (deps : List Dependency) → any blocks deps ≡ true → is_some (check_dependencies deps) ≡ true
unfolding check_dependencies
check_dependencies-blocks [] h = absurd (grind arith)
check_dependencies-blocks (d ∷ deps) h = elim (Bool-cases (blocks d)) [
  | inl b ↦ rw b refl
  | inr b ↦ rw b (check_dependencies-blocks deps (rw b at h))
]

module _ {W : Type 0} (now : W → ℕ) (can_save : W → Bool) (host : Host W) (policy : ConsentPolicy)
    (plan : Plan) where
  detection-OnlyLooks : All (OnlyLooks now can_save) (detection_steps host policy plan)
  unfolding detection_steps
  detection-OnlyLooks =
      ((refl, λ c. refl), ((refl, λ c. refl), ((refl, λ c. refl), ((refl, λ c. refl), tt))))

  detection-LastFails :
      any blocks plan.deps ≡ true → LastFails now can_save (detection_steps host policy plan)
  unfolding detection_steps
  detection-LastFails h = (refl, λ c. check_dependencies-blocks plan.deps h)

  detection-Untouched :
      (k : Str)
      → All (λ s. str_eq s.name k ≡ false) (detection_steps host policy plan)
      → (c : Context W)
      → lookup k (execute now can_save (detection_steps host policy plan) c).0.state.steps
        ≡ lookup k c.state.steps
  unfolding detection_steps
  detection-Untouched k apart c =
      execute-lookup now can_save k (detection_steps host policy plan) c (
        (apart.0, λ d. refl),
        ((apart.1.0, λ d. refl), ((apart.1.1.0, λ d. refl), ((apart.1.1.1.0, λ d. refl), tt))),
      )

  -- A required dependency that is missing stops an installation before its first step that changes
  -- the host: from any recorded state, the run of all the steps fails, all of the host but the state
  -- file is as it was, and the record of a step under any other name than the four of detection is
  -- unchanged.
  pub missing_dependency :
      (c : Context W) (k : Str)
      → any blocks plan.deps ≡ true
      → All (λ s. str_eq s.name k ≡ false) (detection_steps host policy plan)
      → ((execute now can_save (install_steps host policy plan) c).0.world ≡ c.world)
        × (is_some (execute now can_save (install_steps host policy plan) c).1 ≡ true)
        × (lookup k (execute now can_save (install_steps host policy plan) c).0.state.steps
            ≡ lookup k c.state.steps)
  missing_dependency c k h apart =
      let steps = detection_steps host policy plan in
      let (f, e) = execute-fails now can_save steps c (detection-LastFails h) in
      let whole = execute-append now can_save steps (mutating_steps host policy plan) c e in
      rw whole (
        execute-world now can_save steps c detection-OnlyLooks,
        rw e refl,
        detection-Untouched k apart c,
      )
