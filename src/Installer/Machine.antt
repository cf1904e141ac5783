-- ===== src/Installer/Machine.antt =====
-- internal/installer/state.go and steps.go: the recorded state and `execute`, over the host W that the
-- steps change. The state file is `disk`, which stands apart from W: `Mark` and `Save` write it and its
-- directory after every step, also where W is kept. encoding/json stands before `StateFile`. What is logged is
-- left out; what is shown is the list of events of `shown`, newest first.
use ozy.Installer.Consent.{Risk}
use ozy.Common.{
  ◌==◌, if◌then◌else◌, Str, Map, lookup, insert, ℕ, Bool, true, false, ◌&&◌, Option, none, some,
  List, [], ◌∷◌,
}

abbrev pub schema_version : ℕ
schema_version = 1

pub data StepStatus : Type 0 where
  pending done_status failed_status : StepStatus

pub record StepState : Type 0 where
  pub status : StepStatus
  pub updated_at : ℕ
  pub detail : Str

pub record State : Type 0 where
  pub version : ℕ
  pub ozy_version : Str
  pub updated_at : ℕ
  pub steps : Map StepState

abbrev pub is_done_status : StepStatus → Bool
is_done_status pending = false
is_done_status done_status = true
is_done_status failed_status = false

abbrev is_done : Option StepState → Bool
is_done none = false
is_done (some s) = is_done_status s.status

unfoldable pub done : State → Str → Bool
done s step = is_done (lookup step s.steps)

abbrev pub outcome : ℕ → StepStatus → Str → StepState
outcome now status detail = record { status = status; updated_at = now; detail = detail }

unfoldable pub mark : ℕ → Str → StepStatus → Str → State → State
mark now step status detail s = record s { steps = insert step (outcome now status detail) s.steps }

abbrev pub fresh_state : State
fresh_state = record { version = schema_version; ozy_version = []; updated_at = 0; steps = [] }

-- what reading the state file gives
pub data StateFile : Type 0 where
  missing : StateFile
  unreadable malformed : Str → StateFile
  document : State → StateFile

pub data Loaded : Type 0 where
  ready : State → Loaded
  load_error : Str → Loaded

unfoldable pub load : StateFile → Loaded
load missing = ready fresh_state
load (unreadable e) = load_error e
load (malformed e) = load_error e
load (document s) = if s.version == schema_version then ready s else ready fresh_state

-- the document that `Save` writes
abbrev pub saved : ℕ → State → State
saved now s = record s { version = schema_version; updated_at = now }

pub data Shown : Type 0 where
  skipping starting failing finishing : Str → Shown

-- `execContext`, as far as steps read and write it
pub record Context (W : Type 0) : Type 0 where
  pub world : W
  pub lines : List Str
  pub shown : List Shown
  pub state : State
  pub disk : StateFile
  pub semantic_ok : Bool
  pub doctor_ok : Bool

-- `step`; an error is its text, and a nil `valid` is `none`
pub record Step (W : Type 0) : Type 0 where
  pub name : Str
  pub title : Str
  pub why : Str
  pub risk : Risk
  pub run : Context W → Context W × Option Str
  pub valid : Option (Context W → Bool)

-- errors.go: `StepError`, or what `Save` failed with
pub data Failure : Type 0 where
  step_error : Str → Str → Str → Failure
  save_error : Failure

module _ {W : Type 0} where
  abbrev show : Shown → Context W → Context W
  show e c = record c { shown = e ∷ c.shown }

  abbrev pub still_valid : Option (Context W → Bool) → Context W → Bool
  still_valid none c = false
  still_valid (some valid) c = valid c

  unfoldable pub skippable : Step W → Context W → Bool
  skippable s c = done c.state s.name && still_valid s.valid c

module _ {W : Type 0} (now : W → ℕ) (can_save : W → Bool) where
  -- `Mark` and then `Save`, which may leave the file as it was
  unfoldable pub record_as : Step W → StepStatus → Str → Context W → Context W × Bool
  unfolding mark
  record_as s status detail c =
      let t = saved (now c.world) (mark (now c.world) s.name status detail c.state) in
      if can_save c.world
      then (record c { state = t; disk = document t }, true)
      else (record c { state = t }, false)

  abbrev finished : Step W → Context W × Bool → Context W × Option Failure
  finished s (c, true) = (show (finishing s.title) c, none)
  finished s (c, false) = (c, some save_error)

  -- after `s.run(c)`
  unfoldable pub conclude : Step W → Context W × Option Str → Context W × Option Failure
  conclude s (c, some cause) = (
    show (failing s.title) (record_as s failed_status cause c).0,
    some (step_error s.name cause s.why),
  )
  conclude s (c, none) = finished s (record_as s done_status [] c)

  unfoldable pub perform : Step W → Context W → Context W × Option Failure
  unfolding conclude skippable
  perform s c =
      if skippable s c
      then (show (skipping s.title) c, none)
      else conclude s (s.run (show (starting s.title) c))

  abbrev pub then_do :
      (Context W → Context W × Option Failure)
      → Context W × Option Failure
      → Context W × Option Failure
  then_do rest (c, some e) = (c, some e)
  then_do rest (c, none) = rest c

  -- the loop of `execute`
  unfoldable pub execute : List (Step W) → Context W → Context W × Option Failure
  execute [] c = (c, none)
  execute (s ∷ steps) c = then_do (execute steps) (perform s c)
