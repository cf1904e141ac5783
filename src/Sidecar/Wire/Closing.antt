-- ===== src/Sidecar/Wire/Closing.antt =====
-- internal/sidecar/client.go: what the callers of a client still do after `Close`.
use mathlib.Core.Path.{subst}
use ozy.Sidecar.{Op, Response, answered}
use ozy.Sidecar.Wire.{
  update, is_probe, acquire, receive, same_channel, on_line, deliver, send, stop, refuses, Shared,
  mark_unhealthy, close, Pc, idle, entering, checking, writing, waiting, leaving, unlocking,
  returned, Choice, begin, go, write_fails, context_ends, reader_exits, advance, Line, eof,
  read_failed, empty, malformed, decoded, read, System, start, Step, by_caller, by_reader, by_close,
  Run, here, next,
}
use ozy.Common.{
  if◌then◌else◌, if_case, Str, lookup, delete, ℕ, suc, ◌≤◌, ◌+◌, Bool, true, false, length, Option,
  none, some, [], ◌∷◌, ◌≡◌, refl, arith,
}
use ozy.Sidecar.Wire.Kept.{Kept, Step-Kept, Run-Kept}

module _ (Score : Type 0) (request_id : ℕ → Str) where
  abbrev SharedState : Type 0
  SharedState = Shared Score request_id

  abbrev Position : Type 0
  Position = Pc Score request_id

  abbrev pub is_writing : Position → Bool
  is_writing (writing op n) = true
  is_writing _ = false

  -- the write that the holder of the lock may still make
  abbrev pub credit : Option ℕ → (ℕ → Position) → ℕ
  credit none pc = 0
  credit (some i) pc = if is_writing (pc i) then 1 else 0

  credit_moved :
      (i : ℕ) (p p' : Position) (o : Option ℕ) (pc : ℕ → Position)
      → pc i ≡ p
      → is_writing p' ≡ false
      → credit o (update pc i p') ≤ credit o pc
  credit_moved i p p' none pc e h = omega arith
  credit_moved i p p' (some j) pc e h = ground arith

  abbrev Spent : SharedState → (ℕ → Position) → SharedState → (ℕ → Position) → Type 0
  Spent s pc s' pc' =
      (s'.closed ≡ true)
      × (length s'.written + credit s'.in_flight pc' ≤ length s.written + credit s.in_flight pc)

  abbrev SpentAfter : ℕ → SharedState → (ℕ → Position) → Option (SharedState × Position) → Type 0
  SpentAfter i s pc none = Unit
  SpentAfter i s pc (some (s', p')) = Spent s pc s' (update pc i p')

  quiet :
      (i : ℕ) (p p' : Position) (s : SharedState) (pc : ℕ → Position)
      → pc i ≡ p
      → is_writing p' ≡ false
      → s.closed ≡ true
      → Spent s pc s (update pc i p')
  quiet i p p' s pc e h c = (c, omega (arith, credit_moved i p p' s.in_flight pc e h))

  credit_spent :
      (i n : ℕ) (op : Op) (o : Option ℕ) (pc : ℕ → Position)
      → pc i ≡ writing op n
      → o ≡ some i
      → suc (credit o (update pc i (waiting op n))) ≤ credit o pc
  credit_spent i n op none pc e h = cc
  credit_spent i n op (some j) pc e h = ground arith

  acquire-Spent :
      (i : ℕ) (op : Op) (s : SharedState) (pc : ℕ → Position) (o : Option ℕ)
      → s.closed ≡ true
      → SpentAfter i s pc (acquire Score request_id i op s o)
  acquire-Spent i op s pc none h = (h, ground arith)
  acquire-Spent i op s pc (some j) h = tt

  receive-Spent :
      (i n : ℕ) (op : Op) (s : SharedState) (pc : ℕ → Position) (o : Option (Response Score))
      → pc i ≡ waiting op n
      → s.closed ≡ true
      → SpentAfter i s pc (receive Score request_id op n s o)
  receive-Spent i n op s pc none e h = tt
  receive-Spent i n op s pc (some r) e h = quiet i _ (leaving op n (answered r)) s pc e refl h

  advance-Spent :
      (i : ℕ) (c : Choice Score request_id) (s : SharedState) (p : Position) (pc : ℕ → Position)
      → pc i ≡ p
      → s.closed ≡ true
      → Kept Score request_id s pc
      → SpentAfter i s pc (advance Score request_id i c s p)
  unfolding advance mark_unhealthy
  advance-Spent i (begin op) s idle pc e h v =
      if_case (λ p. Spent s pc s (update pc i p)) s.closed (λ _. quiet i _ _ s pc e refl h)
        (λ _. quiet i _ _ s pc e refl h)
  advance-Spent i go s (entering op) pc e h v = acquire-Spent i op s pc s.in_flight h
  advance-Spent i go s (checking op) pc e h v =
      if_case (λ (t : SharedState × Position). Spent s pc t.0 (update pc i t.1))
        (refuses Score request_id s op) (λ _. quiet i _ _ s pc e refl h)
        (λ open_. absurd (ground arith))
  advance-Spent i go s (writing op n) pc e h v =
      (h, omega (arith, credit_spent i n op s.in_flight pc e (v.owned i (rw e refl))))
  advance-Spent i write_fails s (writing op n) pc e h v = quiet i _ _ s pc e refl h
  advance-Spent i go s (waiting op n) pc e h v = receive-Spent i n op s pc (s.inbox n) e h
  advance-Spent i context_ends s (waiting op n) pc e h v = quiet i _ _ s pc e refl h
  advance-Spent i reader_exits s (waiting op n) pc e h v =
      if_case (SpentAfter i s pc) s.reader_done (λ _. quiet i _ _ s pc e refl h) (λ _. tt)
  advance-Spent i go s (leaving op n out) pc e h v =
      if_case (λ t. Spent s pc t (update pc i (unlocking op (some n) out)))
        (same_channel Score request_id (lookup (request_id n) s.pending) n)
        (λ _. quiet i _ _ s pc e refl h) (λ _. quiet i _ _ s pc e refl h)
  advance-Spent i go s (unlocking op n out) pc e h v = (h, omega arith)
  advance-Spent i go s (returned op n out) pc e h v =
      if_case (λ t. Spent s pc t (update pc i idle)) (is_probe op) (λ _. quiet i _ _ s pc e refl h)
        (λ _. quiet i _ _ s pc e refl h)
  advance-Spent i _ s _ pc e h v = tt

  abbrev SpentRead : SharedState → (ℕ → Position) → Option SharedState → Type 0
  SpentRead s pc none = Unit
  SpentRead s pc (some s') = Spent s pc s' pc

  deliver-Spent :
      (r : Response Score) (s : SharedState) (pc : ℕ → Position) (o : Option ℕ)
      → s.closed ≡ true
      → SpentRead s pc (deliver Score request_id r s o)
  deliver-Spent r s pc none h = (h, omega arith)
  deliver-Spent r s pc (some n) h = go_on (s.inbox n)
    where
      go_on :
          (o : Option (Response Score))
          → SpentRead s pc
              (send Score request_id n r (record s { pending = delete r.id s.pending }) o)
      go_on none = (h, omega arith)
      go_on (some q) = tt

  line-Spent :
      (l : Line Score request_id) (s : SharedState) (pc : ℕ → Position)
      → s.closed ≡ true
      → SpentRead s pc (on_line Score request_id l s)
  unfolding mark_unhealthy
  line-Spent eof s pc h = (h, omega arith)
  line-Spent read_failed s pc h = (h, omega arith)
  line-Spent empty s pc h = (h, omega arith)
  line-Spent malformed s pc h = (h, omega arith)
  line-Spent (decoded r) s pc h =
      elim r.id
        as (λ t. SpentRead s pc (elim t [
          | [] ↦ some (stop Score request_id s)
          | c ∷ cs ↦ deliver Score request_id r s (lookup r.id s.pending)
        ])) [ [] ↦ (h, omega arith) | c ∷ cs ↦ deliver-Spent r s pc (lookup r.id s.pending) h ]

  read-Spent :
      (l : Line Score request_id) (s : SharedState) (pc : ℕ → Position)
      → s.closed ≡ true
      → SpentRead s pc (read Score request_id l s)
  unfolding read
  read-Spent l s pc h = if_case (SpentRead s pc) s.reader_done (λ _. tt) (λ _. line-Spent l s pc h)

  close-Spent :
      (s : SharedState) (pc : ℕ → Position)
      → s.closed ≡ true
      → Spent s pc (close Score request_id s) pc
  unfolding close
  close-Spent s pc h =
      if_case (λ t. Spent s pc t pc) s.closed (λ _. (h, omega arith)) (λ _. (refl, omega arith))

  step-Spent :
      {s t : System Score request_id}
      → Step Score request_id s t
      → Kept Score request_id s.shared s.pc
      → s.shared.closed ≡ true
      → Spent s.shared s.pc t.shared t.pc
  step-Spent {s} (by_caller i c e) v h =
      subst (SpentAfter i s.shared s.pc) e (advance-Spent i c s.shared (s.pc i) s.pc refl h v)
  step-Spent {s} (by_reader l e) v h =
      subst (SpentRead s.shared s.pc) e (read-Spent l s.shared s.pc h)
  step-Spent {s} by_close v h = close-Spent s.shared s.pc h

  run-Spent :
      {s t : System Score request_id}
      → Run Score request_id (start Score request_id) s
      → s.shared.closed ≡ true
      → Run Score request_id s t
      → Kept Score request_id t.shared t.pc × Spent s.shared s.pc t.shared t.pc
  run-Spent r h here = (Run-Kept Score request_id r, (h, omega arith))
  run-Spent r h (next q st) =
      let (v, (c, le)) = run-Spent r h q in
      let (c', le') = step-Spent st v c in (Step-Kept Score request_id st v, (c', omega arith))

  credit-le-one : (o : Option ℕ) (pc : ℕ → Position) → credit o pc ≤ 1
  credit-le-one none pc = omega arith
  credit-le-one (some i) pc = ground arith

  credit_quiet :
      (o : Option ℕ) (pc : ℕ → Position) → ((i : ℕ) → is_writing (pc i) ≡ false) → credit o pc ≡ 0
  credit_quiet none pc h = refl
  credit_quiet (some i) pc h = ground (arith, h i)

  -- Once the client is closed it stays closed, and whatever its callers do then, at most one more
  -- request is written to the sidecar: none, unless a caller was about to write when it was closed.
  pub writes_after_close :
      {s t : System Score request_id}
      → Run Score request_id (start Score request_id) s
      → s.shared.closed ≡ true
      → Run Score request_id s t
      → (t.shared.closed ≡ true)
        × (length t.shared.written ≤ length s.shared.written + 1)
        × (((i : ℕ) → is_writing (s.pc i) ≡ false)
            → length t.shared.written ≤ length s.shared.written)
  writes_after_close {s} r h q =
      let (v, (c, le)) = run-Spent r h q in
      (
        c,
        omega (arith, credit-le-one s.shared.in_flight s.pc),
        λ none_writes. omega (arith, credit_quiet s.shared.in_flight s.pc none_writes),
      )
