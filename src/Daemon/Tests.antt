-- ===== src/Daemon/Tests.antt =====
-- internal/daemon/daemon.go: a first start, an index run and a shutdown.
use ozy.Daemon.{made, Reading, Outside, new, on_start, on_index, on_shutdown, lifetime}
use ozy.Daemon.Lifecycle.{IsValid, lifetime-IsValid}
use ozy.Common.{ℕ, true, false, none, some, [], ◌∷◌}

abbrev answers : Outside ℕ
answers = record {
  provision = made tt;
  new_client = made 7;
  health = λ c. made tt;
  ready = λ c. made tt;
}

abbrev fresh_reading : Reading
fresh_reading = record { last_indexed_at = some (0, false); modified_at = none }

lifetime-IsValid_example : IsValid ℕ answers (
    lifetime ℕ answers
      (on_start fresh_reading ∷ on_index ∷ on_shutdown ∷ on_index ∷ [])
      (new ℕ (some true)))
lifetime-IsValid_example =
    lifetime-IsValid ℕ answers (some true)
      (on_start fresh_reading ∷ on_index ∷ on_shutdown ∷ on_index ∷ [])
