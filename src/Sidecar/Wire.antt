-- ===== src/Sidecar/Wire.antt =====
-- internal/sidecar/client.go: `call`, `readLoop`, `markUnhealthy` and `Close` as the steps of the
-- callers and of the reader on the shared client. Ids are texts that `request_id` makes of the counter
-- (`fmt.Sprintf` with "r%d"); a channel is a cell of `inbox`, named by the counter. A step is one
-- critical section or one access of an atomic value or a channel, with two exceptions: the checks of
-- `closed` and `healthy` after the lock was taken, the next id and the registration are one step, and
-- `markUnhealthy` is one step with what makes its caller leave. The log is left out.
pub mod Invariant
pub mod Kept
pub mod Safety
pub mod Closing
pub mod Progress
use ozy.Sidecar.{
  Op, op_health, op_ready, Response, Outcome, answered, write_failed, context_ended, unavailable,
}
use ozy.Common.{
  ◌==◌, if◌then◌else◌, Str, Map, lookup, insert, delete, ℕ, suc, Bool, true, false, not, ◌&&◌, ◌||◌,
  Option, none, some, List, [], ◌∷◌, ◌≡◌,
}

abbrev pub update {ℓ} : {A : Type ℓ} → (ℕ → A) → ℕ → A → ℕ → A
update f i a j = if i == j then a else f j

-- `op != opHealth && op != opReady`
abbrev pub is_probe : Op → Bool
is_probe op_health = true
is_probe op_ready = true
is_probe _ = false

module _ (Score : Type 0) (request_id : ℕ → Str) where
  -- `Client`: its flags, the counter of ids, the pending requests with their channels, the holder of
  -- `inFlight`, and the requests that were written to the sidecar
  pub record Shared : Type 0 where
    pub closed : Bool
    pub healthy : Bool
    pub reader_done : Bool
    pub driver_closed : Bool
    pub next_id : ℕ
    pub pending : Map ℕ
    pub inbox : ℕ → Option (Response Score)
    pub in_flight : Option ℕ
    pub written : List (Str × Op)

  abbrev pub new_client : Shared
  new_client = record {
    closed = false;
    healthy = false;
    reader_done = false;
    driver_closed = false;
    next_id = 0;
    pending = [];
    inbox = λ n. none;
    in_flight = none;
    written = [];
  }

  unfoldable pub mark_unhealthy : Shared → Shared
  mark_unhealthy s = record s { healthy = false; driver_closed = s.driver_closed || not s.closed }

  unfoldable pub close : Shared → Shared
  close s = if s.closed then s else record s { closed = true; driver_closed = true }

  -- where a caller stands in `call`; a number is that of its request
  pub data Pc : Type 0 where
    idle : Pc
    entering checking : Op → Pc
    writing waiting : Op → ℕ → Pc
    leaving : Op → ℕ → Outcome Score → Pc
    unlocking returned : Op → Option ℕ → Outcome Score → Pc

  -- what the caller, or its surroundings, choose
  pub data Choice : Type 0 where
    begin : Op → Choice
    go write_fails context_ends reader_exits : Choice

  abbrev pub acquire : ℕ → Op → Shared → Option ℕ → Option (Shared × Pc)
  acquire i op s none = some (record s { in_flight = some i }, checking op)
  acquire i op s (some j) = none

  abbrev pub refuses : Shared → Op → Bool
  refuses s op = s.closed || (not s.healthy && not (is_probe op))

  abbrev pub register : Shared → Shared
  register s = record s {
    next_id = suc s.next_id;
    pending = insert (request_id (suc s.next_id)) (suc s.next_id) s.pending;
    inbox = update s.inbox (suc s.next_id) none;
  }

  abbrev pub receive : Op → ℕ → Shared → Option (Response Score) → Option (Shared × Pc)
  receive op n s none = none
  receive op n s (some r) =
      some (record s { inbox = update s.inbox n none }, leaving op n (answered r))

  -- the deferred removal: `cur, ok := c.pending[id]; ok && cur == ch`
  abbrev pub same_channel : Option ℕ → ℕ → Bool
  same_channel none n = false
  same_channel (some m) n = m == n

  abbrev pub forget : ℕ → Shared → Shared
  forget n s =
      if same_channel (lookup (request_id n) s.pending) n
      then record s { pending = delete (request_id n) s.pending }
      else s

  abbrev succeeds : Outcome Score → Bool
  succeeds (answered r) = r.ok
  succeeds _ = false

  -- what `Health` and `Ready` store in the end
  abbrev pub settle : Op → Outcome Score → Shared → Shared
  settle op out s = if is_probe op then record s { healthy = succeeds out } else s

  -- the next step of caller `i`; `none` where it cannot take that step
  unfoldable pub advance : ℕ → Choice → Shared → Pc → Option (Shared × Pc)
  unfolding mark_unhealthy
  advance i (begin op) s idle =
      some (s, if s.closed then returned op none unavailable else entering op)
  advance i go s (entering op) = acquire i op s s.in_flight
  advance i go s (checking op) = some (
      if refuses s op
      then (s, unlocking op none unavailable)
      else (register s, writing op (suc s.next_id)))
  advance i go s (writing op n) =
      some (record s { written = (request_id n, op) ∷ s.written }, waiting op n)
  advance i write_fails s (writing op n) = some (mark_unhealthy s, leaving op n write_failed)
  advance i go s (waiting op n) = receive op n s (s.inbox n)
  advance i context_ends s (waiting op n) = some (mark_unhealthy s, leaving op n context_ended)
  advance i reader_exits s (waiting op n) =
      if s.reader_done then some (mark_unhealthy s, leaving op n unavailable) else none
  advance i go s (leaving op n out) = some (forget n s, unlocking op (some n) out)
  advance i go s (unlocking op n out) = some (record s { in_flight = none }, returned op n out)
  advance i go s (returned op n out) = some (settle op out s, idle)
  advance i c s p = none

  -- a turn of the scanner's loop: the end, a failure, or a line
  pub data Line : Type 0 where
    eof read_failed empty malformed : Line
    decoded : Response Score → Line

  abbrev pub stop : Shared → Shared
  stop s = record (mark_unhealthy s) { reader_done = true }

  -- `ch <- resp` on a channel of capacity 1 would block on a full one
  abbrev pub send : ℕ → Response Score → Shared → Option (Response Score) → Option Shared
  send n r s none = some (record s { inbox = update s.inbox n (some r) })
  send n r s (some q) = none

  -- `takePending`, then the send
  abbrev pub deliver : Response Score → Shared → Option ℕ → Option Shared
  deliver r s none = some s
  deliver r s (some n) = send n r (record s { pending = delete r.id s.pending }) (s.inbox n)

  abbrev pub on_line : Line → Shared → Option Shared
  on_line empty s = some s
  on_line (decoded r) s = elim r.id [
    | [] ↦ some (stop s)
    | c ∷ cs ↦ deliver r s (lookup r.id s.pending)
  ]
  on_line _ s = some (stop s)

  unfoldable pub read : Line → Shared → Option Shared
  unfolding mark_unhealthy
  read l s = if s.reader_done then none else on_line l s

  pub record System : Type 0 where
    pub shared : Shared
    pub pc : ℕ → Pc

  abbrev pub start : System
  start = record { shared = new_client; pc = λ i. idle }

  pub data Step : System → System → Type 0 where
    by_caller :
        {s : System} {sh : Shared} {p : Pc} (i : ℕ) (c : Choice)
        → advance i c s.shared (s.pc i) ≡ some (sh, p)
        → Step s (record { shared = sh; pc = update s.pc i p })
    by_reader :
        {s : System} {sh : Shared} (l : Line)
        → read l s.shared ≡ some sh
        → Step s (record { shared = sh; pc = s.pc })
    by_close : {s : System} → Step s (record { shared = close s.shared; pc = s.pc })

  pub data Run (s : System) : System → Type 0 where
    here : Run s s
    next : {t u : System} → Run s t → Step t u → Run s u
