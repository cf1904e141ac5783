-- ===== src/Sidecar/Wire/Kept.antt =====
-- internal/sidecar/client.go: every step of the callers and of the reader keeps the invariant.
use mathlib.Core.Path.{subst}
use ozy.Sidecar.{Op, Response, Outcome}
use ozy.Sidecar.Wire.{
  update, is_probe, acquire, receive, forget, same_channel, on_line, deliver, stop, refuses, Shared,
  mark_unhealthy, close, Pc, idle, entering, checking, writing, waiting, leaving, unlocking,
  returned, Choice, begin, go, write_fails, context_ends, reader_exits, advance, Line, eof,
  read_failed, empty, malformed, decoded, read, System, start, new_client, Step, by_caller,
  by_reader, by_close, Run, here, next,
}
use ozy.Common.{if_case, Str, lookup, ℕ, Option, none, some, [], ◌∷◌, ◌≡◌, refl}
use ozy.Sidecar.Wire.Invariant.{
  Fits, Inv, calm, lock, unlock, enrol, receive_one, forgotten, not_mine, deliver_one,
}

module _ (Score : Type 0) (request_id : ℕ → Str) where
  abbrev SharedState : Type 0
  SharedState = Shared Score request_id

  abbrev Position : Type 0
  Position = Pc Score request_id

  abbrev pub Kept : SharedState → (ℕ → Position) → Type 0
  Kept s pc = Inv Score request_id s.pending s.inbox s.next_id s.in_flight pc

  abbrev After : (SharedState → Position → Type 0) → Option (SharedState × Position) → Type 0
  After Q none = Unit
  After Q (some (s, p)) = Q s p

  module _ (i : ℕ) (op : Op) (s : SharedState) (pc : ℕ → Position) (v : Kept s pc) where
    abbrev Next : SharedState → Position → Type 0
    Next s' p' = Kept s' (update pc i p')

    acquire-After :
        (o : Option ℕ)
        → pc i ≡ entering op
        → s.in_flight ≡ o
        → After Next (acquire Score request_id i op s o)
    acquire-After none e h = lock Score request_id i _ _ e refl refl refl tt h v
    acquire-After (some j) e h = tt

    receive-After :
        (n : ℕ) (o : Option (Response Score))
        → pc i ≡ waiting op n
        → s.inbox n ≡ o
        → After Next (receive Score request_id op n s o)
    receive-After n none e h = tt
    receive-After n (some r) e h =
        receive_one Score request_id i n _ _ e refl refl (v.labelled n r h) v

    leave-After :
        (n : ℕ) (out : Outcome Score)
        → pc i ≡ leaving op n out
        → Next (forget Score request_id n s) (unlocking op (some n) out)
    leave-After n out e =
        let bears = subst (Fits Score request_id) e (v.fits i) in
        if_case (λ t. Next t (unlocking op (some n) out))
          (same_channel Score request_id (lookup (request_id n) s.pending) n)
          (λ h. forgotten Score request_id i n _ _ e refl refl refl bears h v)
          (λ h. not_mine Score request_id i n _ _ e refl refl refl bears h v)

  advance-After :
      (i : ℕ) (c : Choice Score request_id) (s : SharedState) (p : Position) (pc : ℕ → Position)
      → pc i ≡ p
      → Kept s pc
      → After (λ s' p'. Kept s' (update pc i p')) (advance Score request_id i c s p)
  unfolding advance mark_unhealthy
  advance-After i (begin op) s idle pc e v =
      if_case (λ p. Kept s (update pc i p)) s.closed
        (λ _. calm Score request_id i _ _ e refl refl tt v)
        (λ _. calm Score request_id i _ _ e refl refl tt v)
  advance-After i go s (entering op) pc e v = acquire-After i op s pc v s.in_flight e refl
  advance-After i go s (checking op) pc e v =
      if_case (λ (t : SharedState × Position). Kept t.0 (update pc i t.1))
        (refuses Score request_id s op) (λ _. calm Score request_id i _ _ e refl refl tt v)
        (λ _. enrol Score request_id i _ _ e refl refl refl refl tt v)
  advance-After i go s (writing op n) pc e v = calm Score request_id i _ _ e refl refl tt v
  advance-After i write_fails s (writing op n) pc e v = calm Score request_id i _ _ e refl refl tt v
  advance-After i go s (waiting op n) pc e v = receive-After i op s pc v n (s.inbox n) e refl
  advance-After i context_ends s (waiting op n) pc e v =
      calm Score request_id i _ _ e refl refl tt v
  advance-After i reader_exits s (waiting op n) pc e v =
      if_case (After (λ s' p'. Kept s' (update pc i p'))) s.reader_done
        (λ _. calm Score request_id i _ _ e refl refl tt v) (λ _. tt)
  advance-After i go s (leaving op n out) pc e v = leave-After i op s pc v n out e
  advance-After i go s (unlocking op n out) pc e v =
      unlock Score request_id i _ _ e refl refl refl refl
        (subst (Fits Score request_id) e (v.fits i)) v
  advance-After i go s (returned op n out) pc e v =
      if_case (λ t. Kept t (update pc i idle)) (is_probe op)
        (λ _. calm Score request_id i _ _ e refl refl tt v)
        (λ _. calm Score request_id i _ _ e refl refl tt v)
  advance-After i _ s _ pc e v = tt

  abbrev AfterRead : (ℕ → Position) → Option SharedState → Type 0
  AfterRead pc none = Unit
  AfterRead pc (some s) = Kept s pc

  deliver-After :
      (r : Response Score) (s : SharedState) (pc : ℕ → Position) (o : Option ℕ)
      → lookup r.id s.pending ≡ o
      → Kept s pc
      → AfterRead pc (deliver Score request_id r s o)
  deliver-After r s pc none h v = v
  deliver-After r s pc (some n) h v =
      rw ((v.awaited r.id n h).1) (deliver_one Score request_id r n h v)

  read-After :
      (l : Line Score request_id) (s : SharedState) (pc : ℕ → Position)
      → Kept s pc
      → AfterRead pc (read Score request_id l s)
  unfolding read mark_unhealthy
  read-After l s pc v = if_case (AfterRead pc) s.reader_done (λ _. tt) (λ _. go_on l)
    where
      go_on : (l : Line Score request_id) → AfterRead pc (on_line Score request_id l s)
      go_on eof = v
      go_on read_failed = v
      go_on empty = v
      go_on malformed = v
      go_on (decoded r) =
          elim r.id
            as (λ t. AfterRead pc (elim t [
              | [] ↦ some (stop Score request_id s)
              | c ∷ cs ↦ deliver Score request_id r s (lookup r.id s.pending)
            ])) [ [] ↦ v | c ∷ cs ↦ deliver-After r s pc (lookup r.id s.pending) refl v ]

  close-Kept :
      (s : SharedState) (pc : ℕ → Position) → Kept s pc → Kept (close Score request_id s) pc
  unfolding close
  close-Kept s pc v = if_case (λ t. Kept t pc) s.closed (λ _. v) (λ _. v)

  pub Step-Kept :
      {s t : System Score request_id}
      → Step Score request_id s t
      → Kept s.shared s.pc
      → Kept t.shared t.pc
  Step-Kept {s} (by_caller i c h) v =
      subst (After (λ s' p'. Kept s' (update s.pc i p'))) h
        (advance-After i c s.shared (s.pc i) s.pc refl v)
  Step-Kept {s} (by_reader l h) v = subst (AfterRead s.pc) h (read-After l s.shared s.pc v)
  Step-Kept {s} by_close v = close-Kept s.shared s.pc v

  start-Kept : Kept (new_client Score request_id) (λ i. idle)
  unfolding lookup
  start-Kept = record {
    owned = λ i h. cc;
    busy = λ i h. cc;
    within = λ i n h. cc;
    fits = λ i. tt;
    awaited = λ k n l. cc;
    labelled = λ n r h. cc;
  }

  pub Run-Kept :
      {s : System Score request_id}
      → Run Score request_id (start Score request_id) s
      → Kept s.shared s.pc
  Run-Kept here = start-Kept
  Run-Kept (next r st) = Step-Kept st (Run-Kept r)
