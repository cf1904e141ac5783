-- ===== src/Sidecar/Tests.antt =====
-- internal/sidecar: a caller's run with an answer, one with the reader's end, and a failed query.
use ozy.Sidecar.{op_health, Response, write_failed}
use ozy.Sidecar.Client.{Caller, adapter_available, adapter_query, query, checked}
use ozy.Sidecar.Client.Degrades.{adapter_degrades, ask}
use ozy.Sidecar.Wire.{
  update, mark_unhealthy, close, Choice, begin, go, context_ends, advance, Line, eof, decoded, read,
  System, start, by_caller, by_reader, by_close, Run, here, next,
}
use ozy.Sidecar.Wire.Safety.{Exclusive, Run-Exclusive}
use ozy.Sidecar.Wire.Closing.{writes_after_close, is_writing}
use ozy.Sidecar.Wire.Progress.{call-Returns, Returns}
use ozy.Common.{
  Str, codes, str_eq, length, lookup, insert, ℕ, suc, ◌+◌, ◌≤◌, ◌≡◌, refl, true, false, none, some,
  List, [], ◌∷◌, ◌++◌, map,
}

abbrev request_id : ℕ → Str
request_id n = codes "r" ++ ((48 + n) ∷ [])

abbrev WholeState : Type 0
WholeState = System ℕ request_id

-- caller 0 makes a step, if it can
abbrev move : Choice ℕ request_id → WholeState → WholeState
unfolding advance mark_unhealthy
move c s = elim (advance ℕ request_id 0 c s.shared (s.pc 0)) [
  | none ↦ s
  | some (sh, p) ↦ record { shared = sh; pc = update s.pc 0 p }
]

-- the reader makes a step
abbrev reads : Line ℕ request_id → WholeState → WholeState
unfolding read mark_unhealthy
reads l s = elim (read ℕ request_id l s.shared) [
  | none ↦ s
  | some sh ↦ record { shared = sh; pc = s.pc }
]

abbrev waits : WholeState
waits = move go (move go (move go (move (begin op_health) (start ℕ request_id))))

waits_run : Run ℕ request_id (start ℕ request_id) waits
unfolding advance mark_unhealthy
waits_run =
    next
      (next (next (next here (by_caller 0 (begin op_health) refl)) (by_caller 0 go refl))
        (by_caller 0 go refl))
      (by_caller 0 go refl)

abbrev pong : Response ℕ
pong = record {
  id = codes "r1";
  ok = true;
  model = codes "small";
  dim = 3;
  backend = codes "faiss";
  vector_count = 0;
  tool_count = 0;
  upserted = 0;
  skipped = 0;
  deleted = 0;
  errors = [];
  hits = [];
  error = [];
  error_kind = [];
}

abbrev served : WholeState
served = move go (move go (move go (reads (decoded pong) waits)))

served_run : Run ℕ request_id (start ℕ request_id) served
unfolding advance read mark_unhealthy move reads lookup insert str_eq
served_run =
    next
      (next (next (next waits_run (by_reader (decoded pong) refl)) (by_caller 0 go refl))
        (by_caller 0 go refl))
      (by_caller 0 go refl)

Run-Exclusive_example : Exclusive ℕ request_id served
Run-Exclusive_example = Run-Exclusive ℕ request_id served_run

abbrev ended : WholeState
ended = reads eof waits

call-Returns_example : Returns ℕ request_id 0 ended
unfolding read mark_unhealthy reads move
call-Returns_example = call-Returns ℕ request_id (next waits_run (by_reader eof refl)) refl 0 refl

-- closed while the caller waits for the answer
abbrev shut : WholeState
unfolding close
shut = record { shared = close ℕ request_id waits.shared; pc = waits.pc }

shut_run : Run ℕ request_id (start ℕ request_id) shut
unfolding close
shut_run = next waits_run by_close

-- its context ends after that
abbrev late : WholeState
late = move context_ends shut

late_run : Run ℕ request_id shut late
unfolding advance mark_unhealthy move close
late_run = next here (by_caller 0 context_ends refl)

writes_after_close_example :
    (late.shared.closed ≡ true)
    × (length late.shared.written ≤ length shut.shared.written + 1)
    × (((i : ℕ) → is_writing ℕ request_id (shut.pc i) ≡ false)
        → length late.shared.written ≤ length shut.shared.written)
unfolding close move
writes_after_close_example = writes_after_close ℕ request_id shut_run refl late_run

-- A sidecar whose pipe is broken.
abbrev dead : Caller ℕ ℕ
dead = record { call = λ op req w. (suc w, write_failed); available = λ w. true }

abbrev later : List (Str × ℕ × Str)
later = (codes "send a fax", 5, []) ∷ []

available_first : adapter_available ℕ dead true 0 ≡ true
unfolding adapter_available
available_first = refl

no_hits : (adapter_query ℕ dead (codes "list files") 5 [] (true, 0)).1 ≡ none
unfolding adapter_query query checked
no_hits = refl

adapter_degrades_example :
    (adapter_available ℕ dead
        (adapter_query ℕ dead (codes "list files") 5 [] (true, 0)).0.0
        (adapter_query ℕ dead (codes "list files") 5 [] (true, 0)).0.1
      ≡ false)
    × (ask ℕ dead later (adapter_query ℕ dead (codes "list files") 5 [] (true, 0)).0
        ≡ ((adapter_query ℕ dead (codes "list files") 5 [] (true, 0)).0, map (λ q. none) later))
adapter_degrades_example =
    adapter_degrades ℕ dead (codes "list files") 5 [] true 0 later available_first no_hits
