-- ===== src/Installer/Consent/Risky.antt =====
-- internal/installer/consent.go: when an action is allowed.
use ozy.Installer.Consent.{
  ConsentPolicy, ordinary, risky, needs_prompt, decide, confirm, next_line, ask_consent,
}
use ozy.Common.{Bool-cases, Str, ◌≡◌, ◌⊎◌, inl, inr, true, false, ◌&&◌, ◌||◌, List, arith}

-- A risky action is allowed exactly when the run is interactive and the next line of the terminal is
-- a yes: `--yes` never allows one. An ordinary action is allowed exactly when `--yes` was given or
-- the same yes was read. No line is read unless the user was asked.
pub ask_consent_lem :
    (p : ConsentPolicy) (lines : List Str)
    → ((ask_consent p risky lines).0 ≡ (p.interactive && confirm (next_line lines) false))
      × ((ask_consent p ordinary lines).0
          ≡ (p.assume_yes || (p.interactive && confirm (next_line lines) false)))
      × ((p.interactive ≡ true) ⊎ ((ask_consent p risky lines).1 ≡ lines))
unfolding ask_consent decide needs_prompt
ask_consent_lem p lines = elim (Bool-cases p.interactive) [
  | inl i ↦ ground arith
  | inr i ↦ ground arith
]
