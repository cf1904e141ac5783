-- ===== src/Installer/Resume.antt =====
-- internal/installer/steps.go: what a whole run of `execute` leaves.
use mathlib.Core.Path.{subst, ◌∙◌}
use ozy.Installer.Machine.{
  then_do, saved, outcome, is_done_status, Context, Step, State, StepStatus, Failure, step_error,
  failed_status, done_status, done, mark, skippable, record_as, conclude, perform, execute,
}
use ozy.Common.{
  if◌then◌else◌, Bool-cases, Option-cases, Str, str_eq, str_eq_refl, All, lookup-insert, ℕ, ◌≡◌,
  refl, sym, ap, ◌∙◌, inl, inr, Bool, true, false, Option, none, some, List, [], ◌∷◌, ◌++◌, arith,
}

done-mark :
    (now : ℕ) (k j : Str) (status : StepStatus) (detail : Str) (s : State)
    → done (saved now (mark now k status detail s)) j
      ≡ (if str_eq k j then is_done_status status else done s j)
unfolding done mark
done-mark now k j status detail s =
    ground (arith, lookup-insert k j (outcome now status detail) s.steps)

done-mark_self :
    (now : ℕ) (k : Str) (status : StepStatus) (detail : Str) (s : State)
    → done (saved now (mark now k status detail s)) k ≡ is_done_status status
done-mark_self now k status detail s =
    ground (arith, done-mark now k k status detail s, str_eq_refl k)

module _ {W : Type 0} where
  -- The work of the step succeeds, wherever it is started, and leaves the recorded state to the machine.
  abbrev pub Succeeds : Step W → Type 0
  Succeeds s = (c : Context W) → ((s.run c).1 ≡ none) × ((s.run c).0.state ≡ c.state)

module _ {W : Type 0} (now : W → ℕ) (can_save : W → Bool) where
  pub then_ok :
      (rest : Context W → Context W × Option Failure) (r : Context W × Option Failure)
      → r.1 ≡ none
      → then_do now can_save rest r ≡ rest r.0
  then_ok rest (c, none) h = refl
  then_ok rest (c, some e) h = absurd (grind arith)

module _ {W : Type 0} (now : W → ℕ) (can_save : W → Bool)
    (saves : (w : W) → can_save w ≡ true) where
  conclude_ok :
      (s : Step W) (r : Context W × Option Str)
      → r.1 ≡ none
      → ((conclude now can_save s r).1 ≡ none)
        × (done (conclude now can_save s r).0.state s.name ≡ true)
  unfolding conclude record_as
  conclude_ok s (c, none) h =
      rw (saves c.world) (refl, done-mark_self (now c.world) s.name done_status [] c.state)
  conclude_ok s (c, some e) h = absurd (grind arith)

  conclude_keeps :
      (s : Step W) (r : Context W × Option Str) (k : Str)
      → r.1 ≡ none
      → done r.0.state k ≡ true
      → done (conclude now can_save s r).0.state k ≡ true
  unfolding conclude record_as
  conclude_keeps s (c, none) k h d =
      rw (saves c.world) (ground (arith, done-mark (now c.world) s.name k done_status [] c.state))
  conclude_keeps s (c, some e) k h d = absurd (grind arith)

  pub perform-Succeeds :
      (s : Step W) (c : Context W)
      → Succeeds s
      → ((perform now can_save s c).1 ≡ none)
        × (done (perform now can_save s c).0.state s.name ≡ true)
  unfolding perform skippable
  perform-Succeeds s c h = elim (Bool-cases (skippable s c)) [
    | inl k ↦ rw k (refl, ground arith)
    | inr k ↦ rw k (conclude_ok s _ (h _).0)
  ]

  pub perform_keeps :
      (s : Step W) (c : Context W) (k : Str)
      → Succeeds s
      → done c.state k ≡ true
      → done (perform now can_save s c).0.state k ≡ true
  unfolding perform
  perform_keeps s c k h d = elim (Bool-cases (skippable s c)) [
    | inl e ↦ rw e d
    | inr e ↦ rw e (conclude_keeps s _ k (h _).0 (rw (h _).1 d))
  ]

  -- A step that succeeds hands its context on.
  execute_cons :
      (s : Step W) (steps : List (Step W)) (c : Context W)
      → Succeeds s
      → execute now can_save (s ∷ steps) c ≡ execute now can_save steps (perform now can_save s c).0
  unfolding execute
  execute_cons s steps c h =
      then_ok now can_save (execute now can_save steps) (perform now can_save s c)
        (perform-Succeeds s c h).0

  execute_keeps :
      (steps : List (Step W)) (c : Context W) (k : Str)
      → All Succeeds steps
      → done c.state k ≡ true
      → done (execute now can_save steps c).0.state k ≡ true
  unfolding execute
  execute_keeps [] c k h d = d
  execute_keeps (s ∷ steps) c k h d =
      rw (execute_cons s steps c h.0)
        (execute_keeps steps (perform now can_save s c).0 k h.1 (perform_keeps s c k h.0 d))

  -- Where every step's work succeeds and the state file can be written, a run of any list of steps
  -- comes to its end without a failure, from any recorded state, and every step is then recorded as
  -- done.
  pub execute_finishes :
      (steps : List (Step W)) (c : Context W)
      → All Succeeds steps
      → ((execute now can_save steps c).1 ≡ none)
        × All (λ s. done (execute now can_save steps c).0.state s.name ≡ true) steps
  unfolding execute
  execute_finishes [] c h = (refl, tt)
  execute_finishes (s ∷ steps) c h =
      let c' = (perform now can_save s c).0 in
      let (ends, recorded) = execute_finishes steps c' h.1 in
      subst (λ r. (r.1 ≡ none) × All (λ t. done r.0.state t.name ≡ true) (s ∷ steps))
        (sym (execute_cons s steps c h.0))
        (ends, (execute_keeps steps c' s.name h.1 (perform-Succeeds s c h.0).1, recorded))

module _ {W : Type 0} (now : W → ℕ) (can_save : W → Bool) where
  conclude_stops :
      (s : Step W) (r : Context W × Option Str) {name cause why : Str}
      → (conclude now can_save s r).1 ≡ some (step_error name cause why)
      → (s.name ≡ name) × (done (conclude now can_save s r).0.state name ≡ false)
  unfolding conclude record_as
  conclude_stops s (c, none) h = elim (Bool-cases (can_save c.world)) [
    | inl e ↦ absurd (grind arith)
    | inr e ↦ absurd (grind arith)
  ]
  conclude_stops s (c, some e) h =
      let same : s.name ≡ _ = grind arith in
      (
        same,
        elim (Bool-cases (can_save c.world)) [
          | inl k ↦ rw (k, sym same) (done-mark_self (now c.world) s.name failed_status e c.state)
          | inr k ↦ rw (k, sym same) (done-mark_self (now c.world) s.name failed_status e c.state)
        ],
      )

  perform_stops :
      (s : Step W) (c : Context W) {name cause why : Str}
      → (perform now can_save s c).1 ≡ some (step_error name cause why)
      → (s.name ≡ name) × (done (perform now can_save s c).0.state name ≡ false)
  unfolding perform
  perform_stops s c h = elim (Bool-cases (skippable s c)) [
    | inl e ↦ absurd (grind arith)
    | inr e ↦ rw e (conclude_stops s _ (rw e at h))
  ]

  pub then_failed :
      (rest : Context W → Context W × Option Failure) (r : Context W × Option Failure) {f : Failure}
      → r.1 ≡ some f
      → then_do now can_save rest r ≡ r
  then_failed rest (c, none) h = absurd (grind arith)
  then_failed rest (c, some e) h = refl

  -- A run that stops at a failed step has ended without a failure on all the steps in front of it,
  -- has started no later one, and does not count the step as done.
  execute_stops :
      (steps : List (Step W)) (c : Context W) (name cause why : Str)
      → (execute now can_save steps c).1 ≡ some (step_error name cause why)
      → (before : List (Step W)) × (s : Step W) × (after : List (Step W)) × (steps
          ≡ before ++ (s ∷ after))
        × (s.name ≡ name)
        × ((execute now can_save before c).1 ≡ none)
        × (execute now can_save steps c ≡ perform now can_save s (execute now can_save before c).0)
        × (done (execute now can_save steps c).0.state name ≡ false)
  unfolding execute
  execute_stops [] c name cause why h = absurd (grind arith)
  execute_stops (s ∷ steps) c name cause why h =
      let r = perform now can_save s c in
      elim (Option-cases r.1) [
        | inl e ↦
            let go = then_ok now can_save (execute now can_save steps) r e in
            let (before, t, after, parts, named, ends, same, open_) =
              execute_stops steps r.0 name cause why
                (subst (λ x. x.1 ≡ some (step_error name cause why)) go h) in
            (
              s ∷ before,
              t,
              after,
              ap (λ l. s ∷ l) parts,
              named,
              subst (λ x. x.1 ≡ none) (sym (then_ok now can_save (execute now can_save before) r e))
                  ends,
              rw (then_ok now can_save (execute now can_save before) r e) (go ∙ same),
              subst (λ x. done x.0.state name ≡ false) (sym go) open_,
            )
        | inr (f, e) ↦
            let stay = then_failed (execute now can_save steps) r e in
            let (named, open_) =
              perform_stops s c (subst (λ x. x.1 ≡ some (step_error name cause why)) stay h) in
            (
              [],
              s,
              steps,
              refl,
              named,
              refl,
              stay,
              subst (λ x. done x.0.state name ≡ false) (sym stay) open_,
            )
      ]
