-- ===== src/Sidecar/Wire/Safety.antt =====
-- internal/sidecar/client.go: what callers of a shared client may rely on, in every interleaving.
use mathlib.Core.Path.{subst}
use ozy.Sidecar.{Op, Response, answered}
use ozy.Sidecar.Wire.{
  update, on_line, deliver, stop, Shared, mark_unhealthy, Pc, returned, Line, eof, read_failed,
  empty, malformed, decoded, read, System, start, Run,
}
use ozy.Common.{
  if◌then◌else◌, Str, lookup, delete, ℕ, true, false, Option, none, some, [], ◌∷◌, ◌≡◌, refl, ap,
  ◌∙◌, arith,
}
use ozy.Sidecar.Wire.Invariant.{holds, Bears, Fits}
use ozy.Sidecar.Wire.Kept.{Kept, Run-Kept}

module _ (Score : Type 0) (request_id : ℕ → Str) where
  abbrev SharedState : Type 0
  SharedState = Shared Score request_id

  abbrev Position : Type 0
  Position = Pc Score request_id

  -- Of two callers past the lock, with what they return, and a reader with a line.
  pub record Exclusive (s : System Score request_id) : Type 0 where
    pub alone :
        (i j : ℕ)
        → holds Score request_id (s.pc i) ≡ true
        → holds Score request_id (s.pc j) ≡ true
        → i ≡ j
    pub own :
        (i : ℕ) (op : Op) (n : Option ℕ) (r : Response Score)
        → s.pc i ≡ returned op n (answered r)
        → (m : ℕ) × (n ≡ some m) × (r.id ≡ request_id m)
    pub unblocked :
        (l : Line Score request_id)
        → s.shared.reader_done ≡ false
        → (sh : SharedState) × (read Score request_id l s.shared ≡ some sh)

  Bears-own :
      (n : Option ℕ) (r : Response Score)
      → Bears Score request_id n (answered r)
      → (m : ℕ) × (n ≡ some m) × (r.id ≡ request_id m)
  Bears-own none r h = absurd h
  Bears-own (some m) r h = (m, refl, h)

  deliver_total :
      (r : Response Score) (s : SharedState) (o : Option ℕ)
      → ((n : ℕ) → o ≡ some n → s.inbox n ≡ none)
      → (sh : SharedState) × (deliver Score request_id r s o ≡ some sh)
  deliver_total r s none h = (s, refl)
  deliver_total r s (some n) h = (
    record s { pending = delete r.id s.pending; inbox = update s.inbox n (some r) },
    rw (h n refl) refl,
  )

  line_total :
      (l : Line Score request_id) (s : SharedState) (pc : ℕ → Position)
      → Kept Score request_id s pc
      → (sh : SharedState) × (on_line Score request_id l s ≡ some sh)
  unfolding mark_unhealthy
  line_total eof s pc v = (_, refl)
  line_total read_failed s pc v = (_, refl)
  line_total empty s pc v = (_, refl)
  line_total malformed s pc v = (_, refl)
  line_total (decoded r) s pc v =
      elim r.id
        as (λ t.
          (sh : SharedState) × ((elim t [
            | [] ↦ some (stop Score request_id s)
            | c ∷ cs ↦ deliver Score request_id r s (lookup r.id s.pending)
          ])
            ≡ some sh)) [
              | [] ↦ (_, refl)
              | c ∷ cs ↦ deliver_total r s (lookup r.id s.pending) (λ n h. (v.awaited r.id n h).1)
            ]

  -- In every interleaving of callers, reader and `Close`: at most one caller is past the lock; a
  -- response that a call returns bears the id under which this very call was registered; and the
  -- reader is never blocked by a response that nobody takes.
  pub Run-Exclusive :
      {s : System Score request_id} → Run Score request_id (start Score request_id) s → Exclusive s
  unfolding read
  Run-Exclusive {s} r =
      let v = Run-Kept Score request_id r in
      record {
        alone = λ i j h k. ground (arith, v.owned i h, v.owned j k);
        own = λ i op n q e. Bears-own n q (subst (Fits Score request_id) e (v.fits i));
        unblocked = λ l h.
            let (sh, e) = line_total l s.shared s.pc v in
            (sh, ap (λ b. if b then none else on_line Score request_id l s.shared) h ∙ e);
      }
