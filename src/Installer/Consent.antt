-- ===== src/Installer/Consent.antt =====
-- internal/installer/consent.go: who is asked before an action. An answer is one line of the
-- terminal; a prompt takes the next line of the list, and the empty line when there is none. What is
-- printed is left out.
pub mod Risky
use ozy.Common.{
  if◌then◌else◌, Str, codes, str_eq, trim_left, trim_right, trim_space, to_lower, Bool, true, false,
  not, ◌||◌, List, [], ◌∷◌,
}

pub data Risk : Type 0 where
  ordinary risky : Risk

pub data Decision : Type 0 where
  proceed ask_user skip_no_consent : Decision

pub record ConsentPolicy : Type 0 where
  pub assume_yes : Bool
  pub interactive : Bool

unfoldable pub needs_prompt : ConsentPolicy → Risk → Bool
needs_prompt p risky = true
needs_prompt p ordinary = not p.assume_yes

unfoldable pub decide : ConsentPolicy → Risk → Decision
unfolding needs_prompt
decide p r =
    if not (needs_prompt p r) then proceed else if p.interactive then ask_user else skip_no_consent

-- the `switch` of `Confirm`
unfoldable pub answer : Str → Bool → Bool
answer word def =
    if str_eq word (codes "y") || str_eq word (codes "yes")
    then true
    else if str_eq word (codes "n") || str_eq word (codes "no")
    then false
    else def

unfoldable pub confirm : Str → Bool → Bool
unfolding answer trim_left trim_right
confirm line def = answer (to_lower (trim_space line)) def

abbrev pub next_line : List Str → Str
next_line [] = []
next_line (line ∷ lines) = line

abbrev pub later_lines : List Str → List Str
later_lines [] = []
later_lines (line ∷ lines) = lines

abbrev resolve : Decision → List Str → Bool × List Str
resolve proceed lines = (true, lines)
resolve ask_user lines = (confirm (next_line lines) false, later_lines lines)
resolve skip_no_consent lines = (false, lines)

unfoldable pub ask_consent : ConsentPolicy → Risk → List Str → Bool × List Str
unfolding decide
ask_consent p r lines = resolve (decide p r) lines
