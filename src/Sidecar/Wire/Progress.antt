-- ===== src/Sidecar/Wire/Progress.antt =====
-- internal/sidecar/client.go: once the reader has exited, every call that has begun can return.
use ozy.Sidecar.{Op, Outcome, unavailable}
use ozy.Sidecar.Wire.{
  update, acquire, forget, same_channel, register, refuses, Shared, mark_unhealthy, Pc, idle,
  entering, checking, writing, waiting, leaving, unlocking, returned, Choice, go, reader_exits,
  advance, System, start, by_caller, by_reader, by_close, Run, here, next,
}
use ozy.Common.{
  ◌==◌, if◌then◌else◌, Bool-cases, Option-cases, if_case, Str, lookup, ℕ, suc, ◌≤◌, ◌<◌, ◌+◌, Bool,
  true, false, Option, none, some, ◌∷◌, ◌≡◌, refl, ap, ◌∙◌, inl, inr, arith,
}
use ozy.Sidecar.Wire.Invariant.{holds}
use ozy.Sidecar.Wire.Kept.{Kept, Run-Kept}

module _ (Score : Type 0) (request_id : ℕ → Str) where
  abbrev SharedState : Type 0
  SharedState = Shared Score request_id

  abbrev Position : Type 0
  Position = Pc Score request_id

  abbrev WholeState : Type 0
  WholeState = System Score request_id

  abbrev pub steps : {s t : WholeState} → Run Score request_id s t → ℕ
  steps here = 0
  steps (next r st) = suc (steps r)

  abbrev pub has_returned : Position → Bool
  has_returned (returned op n out) = true
  has_returned _ = false

  -- `call` has begun and not yet returned
  abbrev pub in_call : Position → Bool
  in_call idle = false
  in_call (returned op n out) = false
  in_call _ = true

  -- The choices that need no event from outside: to go on, and to see that the reader has exited.
  abbrev pub needs_nothing : Choice Score request_id → Bool
  needs_nothing go = true
  needs_nothing reader_exits = true
  needs_nothing _ = false

  -- A run of callers only, without a new call, a failed write or the end of a context.
  abbrev pub Unhelped : {s t : WholeState} → Run Score request_id s t → Type 0
  Unhelped here = Unit
  Unhelped (next r (by_caller i c e)) = Unhelped r × (needs_nothing c ≡ true)
  Unhelped (next r (by_reader l e)) = ⊥
  Unhelped (next r by_close) = ⊥

  -- How far a caller is from its return.
  abbrev pub distance : Position → ℕ
  distance (entering op) = 6
  distance (checking op) = 5
  distance (writing op n) = 4
  distance (waiting op n) = 3
  distance (leaving op n out) = 2
  distance (unlocking op n out) = 1
  distance _ = 0

  nearer :
      (i : ℕ) (c : Choice Score request_id) (s : SharedState) (p : Position) {sh : SharedState}
      {q : Position}
      → in_call p ≡ true
      → advance Score request_id i c s p ≡ some (sh, q)
      → distance q < distance p
  unfolding advance
  nearer i go s (entering op) h e = ground arith
  nearer i go s (checking op) h e = ground arith
  nearer i go s (writing op n) h e = ground arith
  nearer i go s (waiting op n) h e = ground arith
  nearer i reader_exits s (waiting op n) h e = ground arith
  nearer i go s (leaving op n out) h e = ground arith
  nearer i c s p h e = ground arith

  after :
      {s t u : WholeState}
      → Run Score request_id s t
      → Run Score request_id t u
      → Run Score request_id s u
  after r here = r
  after r (next q st) = next (after r q) st

  steps-after :
      {s t u : WholeState} (r : Run Score request_id s t) (q : Run Score request_id t u)
      → steps (after r q) ≡ steps r + steps q
  unfolding after
  steps-after r here = omega arith
  steps-after r (next q st) = omega (arith, steps-after r q)

  Unhelped-after :
      {s t u : WholeState} (r : Run Score request_id s t) (q : Run Score request_id t u)
      → Unhelped r
      → Unhelped q
      → Unhelped (after r q)
  unfolding after
  Unhelped-after r here h k = h
  Unhelped-after r (next q (by_caller i c e)) h k = (Unhelped-after r q h k.0, k.1)
  Unhelped-after r (next q (by_reader l e)) h k = absurd k
  Unhelped-after r (next q by_close) h k = absurd k

  -- Caller `i` can return within `k` steps of its own and then leaves the lock free.
  record Finishes (k i : ℕ) (s : WholeState) : Type 0 where
    last : WholeState
    run : Run Score request_id s last
    unhelped : Unhelped run
    short : steps run ≤ k
    done : has_returned (last.pc i) ≡ true
    free : last.shared.in_flight ≡ none
    stopped : last.shared.reader_done ≡ true
    others : (j : ℕ) → (i == j) ≡ false → last.pc j ≡ s.pc j

  update_self : (f : ℕ → Position) (i : ℕ) (p : Position) → update f i p i ≡ p
  update_self f i p = ground arith

  -- one step of caller `i`, and then the rest
  step_first :
      (k i : ℕ) (c : Choice Score request_id) (s : WholeState) (sh : SharedState) (p : Position)
      → needs_nothing c ≡ true
      → advance Score request_id i c s.shared (s.pc i) ≡ some (sh, p)
      → Finishes k i (record { shared = sh; pc = update s.pc i p })
      → Finishes (suc k) i s
  step_first k i c s sh p alone e f = record {
    last = f.last;
    run = after (next here (by_caller i c e)) f.run;
    unhelped = Unhelped-after (next here (by_caller i c e)) f.run (tt, alone) f.unhelped;
    short = omega (arith, f.short, steps-after (next here (by_caller i c e)) f.run);
    done = f.done;
    free = f.free;
    stopped = f.stopped;
    others = λ j h. ground (arith, f.others j h);
  }

  at_once :
      (i : ℕ) (s : WholeState)
      → has_returned (s.pc i) ≡ true
      → s.shared.in_flight ≡ none
      → s.shared.reader_done ≡ true
      → Finishes 0 i s
  at_once i s h e d = record {
    last = s;
    run = here;
    unhelped = tt;
    short = omega arith;
    done = h;
    free = e;
    stopped = d;
    others = λ j n. refl;
  }

  from_unlocking :
      (i : ℕ) (op : Op) (n : Option ℕ) (out : Outcome Score) (s : WholeState)
      → s.pc i ≡ unlocking op n out
      → s.shared.reader_done ≡ true
      → Finishes 1 i s
  unfolding advance
  from_unlocking i op n out s e d =
      step_first 0 i go s (record s.shared { in_flight = none }) (returned op n out) refl
        (ap (advance Score request_id i go s.shared) e)
        (at_once i _ (rw (update_self s.pc i (returned op n out)) refl) refl d)

  forget-stays :
      (n : ℕ) (s : SharedState)
      → s.reader_done ≡ true
      → (forget Score request_id n s).reader_done ≡ true
  forget-stays n s d =
      if_case (λ (t : SharedState). t.reader_done ≡ true)
        (same_channel Score request_id (lookup (request_id n) s.pending) n) (λ _. d) (λ _. d)

  from_leaving :
      (i n : ℕ) (op : Op) (out : Outcome Score) (s : WholeState)
      → s.pc i ≡ leaving op n out
      → s.shared.reader_done ≡ true
      → Finishes 2 i s
  unfolding advance
  from_leaving i n op out s e d =
      step_first 1 i go s (forget Score request_id n s.shared) (unlocking op (some n) out) refl
        (ap (advance Score request_id i go s.shared) e)
        (from_unlocking i op (some n) out _ (update_self s.pc i _) (forget-stays n s.shared d))

  from_waiting :
      (i n : ℕ) (op : Op) (s : WholeState)
      → s.pc i ≡ waiting op n
      → s.shared.reader_done ≡ true
      → Finishes 3 i s
  unfolding advance mark_unhealthy
  from_waiting i n op s e d =
      step_first 2 i reader_exits s (mark_unhealthy Score request_id s.shared)
        (leaving op n unavailable) refl
        (ap (advance Score request_id i reader_exits s.shared) e
          ∙ ap
              (λ b.
                if b
                then some (mark_unhealthy Score request_id s.shared, leaving op n unavailable)
                else none)
              d)
        (from_leaving i n op unavailable _ (update_self s.pc i _) d)

  from_writing :
      (i n : ℕ) (op : Op) (s : WholeState)
      → s.pc i ≡ writing op n
      → s.shared.reader_done ≡ true
      → Finishes 4 i s
  unfolding advance
  from_writing i n op s e d =
      step_first 3 i go s (record s.shared { written = (request_id n, op) ∷ s.shared.written })
        (waiting op n) refl (ap (advance Score request_id i go s.shared) e)
        (from_waiting i n op _ (update_self s.pc i _) d)

  longer : (k m i : ℕ) (s : WholeState) → k ≤ m → Finishes k i s → Finishes m i s
  longer k m i s h f = record {
    last = f.last;
    run = f.run;
    unhelped = f.unhelped;
    short = omega (arith, f.short);
    done = f.done;
    free = f.free;
    stopped = f.stopped;
    others = f.others;
  }

  abbrev checked : SharedState → Op → Bool → SharedState × Position
  checked s op b =
      if b
      then (s, unlocking op none unavailable)
      else (register Score request_id s, writing op (suc s.next_id))

  from_checking :
      (i : ℕ) (op : Op) (s : WholeState)
      → s.pc i ≡ checking op
      → s.shared.reader_done ≡ true
      → Finishes 5 i s
  unfolding advance
  from_checking i op s e d = elim (Bool-cases (refuses Score request_id s.shared op)) [
    | inl h ↦ longer 2 5 i s (omega arith) (
        step_first 1 i go s s.shared (unlocking op none unavailable) refl
          (ap (advance Score request_id i go s.shared) e ∙ ap (λ b. some (checked s.shared op b)) h)
          (from_unlocking i op none unavailable _ (update_self s.pc i _) d))
    | inr h ↦
        step_first 4 i go s (register Score request_id s.shared) (writing op (suc s.shared.next_id))
          refl
          (ap (advance Score request_id i go s.shared) e ∙ ap (λ b. some (checked s.shared op b)) h)
          (from_writing i (suc s.shared.next_id) op _ (update_self s.pc i _) d)
  ]

  from_holder :
      (i : ℕ) (s : WholeState) (p : Position)
      → s.pc i ≡ p
      → holds Score request_id p ≡ true
      → s.shared.reader_done ≡ true
      → Finishes 5 i s
  from_holder i s (checking op) e h d = from_checking i op s e d
  from_holder i s (writing op n) e h d = longer 4 5 i s (omega arith) (from_writing i n op s e d)
  from_holder i s (waiting op n) e h d = longer 3 5 i s (omega arith) (from_waiting i n op s e d)
  from_holder i s (leaving op n out) e h d =
      longer 2 5 i s (omega arith) (from_leaving i n op out s e d)
  from_holder i s (unlocking op n out) e h d =
      longer 1 5 i s (omega arith) (from_unlocking i op n out s e d)
  from_holder i s idle e h d = cc
  from_holder i s (entering op) e h d = cc
  from_holder i s (returned op n out) e h d = cc

  from_entering :
      (i : ℕ) (op : Op) (s : WholeState)
      → s.pc i ≡ entering op
      → s.shared.in_flight ≡ none
      → s.shared.reader_done ≡ true
      → Finishes 6 i s
  unfolding advance
  from_entering i op s e h d =
      step_first 5 i go s (record s.shared { in_flight = some i }) (checking op) refl
        (ap (advance Score request_id i go s.shared) e
          ∙ ap (acquire Score request_id i op s.shared) h)
        (from_checking i op _ (update_self s.pc i _) d)

  -- Caller `i` can return in a few steps that need no event from outside, and each step that it
  -- takes, whatever it chooses, brings it nearer to its return.
  pub record Returns (i : ℕ) (s : WholeState) : Type 0 where
    pub end : WholeState
    pub path : Run Score request_id s end
    pub unhelped : Unhelped path
    pub short : steps path ≤ 11
    pub done : has_returned (end.pc i) ≡ true
    pub falls :
        (c : Choice Score request_id) (sh : SharedState) (q : Position)
        → advance Score request_id i c s.shared (s.pc i) ≡ some (sh, q)
        → distance q < distance (s.pc i)

  returns :
      (k i : ℕ) (s : WholeState) → in_call (s.pc i) ≡ true → k ≤ 11 → Finishes k i s → Returns i s
  returns k i s b h f = record {
    end = f.last;
    path = f.run;
    unhelped = f.unhelped;
    short = omega (arith, f.short);
    done = f.done;
    falls = λ c sh q e. nearer i c s.shared (s.pc i) b e;
  }

  -- The holder of the lock returns first, and then the caller that waits for it.
  wait_turn :
      (i : ℕ) (op : Op) (s : WholeState)
      → Kept Score request_id s.shared s.pc
      → s.pc i ≡ entering op
      → s.shared.reader_done ≡ true
      → Returns i s
  wait_turn i op s v e d = elim (Option-cases s.shared.in_flight) [
    | inl h ↦ returns 6 i s (cc) (omega arith) (from_entering i op s e h d)
    | inr (j, h) ↦
        let f : Finishes 5 j s = from_holder j s (s.pc j) refl (v.busy j h) d in
        let apart : (j == i) ≡ false = ground (arith, v.busy j h) in
        let g : Finishes 6 i f.last =
          from_entering i op f.last (f.others i apart ∙ e) f.free f.stopped in
        record {
          end = g.last;
          path = after f.run g.run;
          unhelped = Unhelped-after f.run g.run f.unhelped g.unhelped;
          short = omega (arith, f.short, g.short, steps-after f.run g.run);
          done = g.done;
          falls = λ c sh q k. nearer i c s.shared (s.pc i) (cc) k;
        }
  ]

  turn :
      (i : ℕ) (s : WholeState) (p : Position)
      → Kept Score request_id s.shared s.pc
      → s.pc i ≡ p
      → in_call p ≡ true
      → s.shared.reader_done ≡ true
      → Returns i s
  turn i s (entering op) v e h d = wait_turn i op s v e d
  turn i s (checking op) v e h d = returns 5 i s (cc) (omega arith) (from_holder i s _ e refl d)
  turn i s (writing op n) v e h d = returns 5 i s (cc) (omega arith) (from_holder i s _ e refl d)
  turn i s (waiting op n) v e h d = returns 5 i s (cc) (omega arith) (from_holder i s _ e refl d)
  turn i s (leaving op n out) v e h d =
      returns 5 i s (cc) (omega arith) (from_holder i s _ e refl d)
  turn i s (unlocking op n out) v e h d =
      returns 5 i s (cc) (omega arith) (from_holder i s _ e refl d)
  turn i s idle v e h d = cc
  turn i s (returned op n out) v e h d = cc

  -- No call has to wait on a sidecar that has exited: in every reachable state in which the reader
  -- has ended, each call that has begun can return within eleven steps, all of them steps of callers
  -- that go on or see that the reader has exited. No response, timeout, failed write, Close or other
  -- event is among them. And whatever the call chooses to do next brings it nearer to its return, from
  -- which it is at most six of its own steps away.
  pub call-Returns :
      {s : WholeState}
      → Run Score request_id (start Score request_id) s
      → s.shared.reader_done ≡ true
      → (i : ℕ) → in_call (s.pc i) ≡ true
      → Returns i s
  call-Returns {s} r d i h = turn i s (s.pc i) (Run-Kept Score request_id r) refl h d
