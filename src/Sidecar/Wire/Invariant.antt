-- ===== src/Sidecar/Wire/Invariant.antt =====
-- internal/sidecar/client.go: the invariant of the shared client, kept by every step.
use ozy.Sidecar.{Response, Outcome, answered}
use ozy.Sidecar.Wire.{
  update, same_channel, Pc, idle, entering, checking, writing, waiting, leaving, unlocking,
  returned,
}
use ozy.Common.{
  ◌==◌, if◌then◌else◌, Bool-cases, if_case, Str, str_eq, str_eq_iff, Map, lookup, insert, delete,
  lookup-insert, lookup-delete, ℕ, suc, ◌≤◌, Bool, true, false, Option, none, some, ◌≡◌, refl, inl,
  inr, arith,
}

module _ (Score : Type 0) (request_id : ℕ → Str) where
  abbrev Position : Type 0
  Position = Pc Score request_id

  -- the caller has `inFlight`
  abbrev pub holds : Position → Bool
  holds (checking op) = true
  holds (writing op n) = true
  holds (waiting op n) = true
  holds (leaving op n out) = true
  holds (unlocking op n out) = true
  holds _ = false

  -- the channel that the caller has made and not yet forgotten
  abbrev pub channel : Position → Option ℕ
  channel (writing op n) = some n
  channel (waiting op n) = some n
  channel (leaving op n out) = some n
  channel _ = none

  -- A response bears the number of the caller's request.
  abbrev pub Bears : Option ℕ → Outcome Score → Type 0
  Bears none (answered r) = ⊥
  Bears (some n) (answered r) = r.id ≡ request_id n
  Bears n _ = Unit

  abbrev pub Fits : Position → Type 0
  Fits (leaving op n out) = Bears (some n) out
  Fits (unlocking op n out) = Bears n out
  Fits (returned op n out) = Bears n out
  Fits _ = Unit

  -- Only the holder of `inFlight` has a channel.
  pub channel-holds : (p : Position) (n : ℕ) → channel p ≡ some n → holds p ≡ true
  channel-holds (writing op m) n h = refl
  channel-holds (waiting op m) n h = refl
  channel-holds (leaving op m out) n h = refl
  channel-holds idle n h = cc
  channel-holds (entering op) n h = cc
  channel-holds (checking op) n h = cc
  channel-holds (unlocking op m out) n h = cc
  channel-holds (returned op m out) n h = cc

  enrolled :
      (N : ℕ) (P : Map ℕ) (k : Str) (n : ℕ)
      → lookup k (insert (request_id (suc N)) (suc N) P) ≡ some n
      → (if str_eq (request_id (suc N)) k then some (suc N) else lookup k P) ≡ some n
  enrolled N P k n l = rw (← lookup-insert (request_id (suc N)) k (suc N) P) l

  deleted :
      (key : Str) (P : Map ℕ) (k : Str) (m : ℕ)
      → lookup k (delete key P) ≡ some m
      → lookup k P ≡ some m
  deleted key P k m l = ground (arith, lookup-delete key k P)

  undeleted :
      (key : Str) (P : Map ℕ) (k : Str) (m : ℕ)
      → lookup k (delete key P) ≡ some m
      → str_eq key k ≡ false
  undeleted key P k m l = ground (arith, lookup-delete key k P)

  pub record Inv (pending : Map ℕ) (inbox : ℕ → Option (Response Score)) (next_id : ℕ)
      (in_flight : Option ℕ) (pc : ℕ → Position) : Type 0 where
    pub owned : (i : ℕ) → holds (pc i) ≡ true → in_flight ≡ some i
    pub busy : (i : ℕ) → in_flight ≡ some i → holds (pc i) ≡ true
    pub within : (i n : ℕ) → channel (pc i) ≡ some n → n ≤ next_id
    pub fits : (i : ℕ) → Fits (pc i)
    pub awaited :
        (k : Str) (n : ℕ)
        → lookup k pending ≡ some n
        → (k ≡ request_id n) × (inbox n ≡ none) × ((i : ℕ) × (channel (pc i) ≡ some n))
    pub labelled : (n : ℕ) (r : Response Score) → inbox n ≡ some r → r.id ≡ request_id n

  module _ {P : Map ℕ} {I : ℕ → Option (Response Score)} {N : ℕ} {F : Option ℕ}
      {pc : ℕ → Position} where
    pub calm :
        (i : ℕ) (p p' : Position)
        → pc i ≡ p
        → holds p' ≡ holds p
        → channel p' ≡ channel p
        → Fits p'
        → Inv P I N F pc
        → Inv P I N F (update pc i p')
    calm i p p' e h c f v = record {
      owned = λ j. ground (arith, v.owned j);
      busy = λ j. ground (arith, v.busy j);
      within = λ j n. ground (arith, v.within j n);
      fits = λ j. if_case Fits (i == j) (λ _. f) (λ _. v.fits j);
      awaited = λ k n l. let (a, b, (x, d)) = v.awaited k n l in (a, b, (x, ground arith));
      labelled = v.labelled;
    }

    pub lock :
        (i : ℕ) (p p' : Position)
        → pc i ≡ p
        → holds p' ≡ true
        → channel p ≡ none
        → channel p' ≡ none
        → Fits p'
        → F ≡ none
        → Inv P I N F pc
        → Inv P I N (some i) (update pc i p')
    lock i p p' e g c d f z v = record {
      owned = λ j. ground (arith, v.owned j);
      busy = λ j. ground (arith, v.busy j);
      within = λ j n. ground (arith, v.within j n);
      fits = λ j. if_case Fits (i == j) (λ _. f) (λ _. v.fits j);
      awaited = λ k n l. let (a, b, (x, o)) = v.awaited k n l in (a, b, (x, ground arith));
      labelled = v.labelled;
    }

    pub unlock :
        (i : ℕ) (p p' : Position)
        → pc i ≡ p
        → holds p ≡ true
        → holds p' ≡ false
        → channel p ≡ none
        → channel p' ≡ none
        → Fits p'
        → Inv P I N F pc
        → Inv P I N none (update pc i p')
    unlock i p p' e h g c d f v = record {
      owned = λ j. ground (arith, v.owned i, v.owned j);
      busy = λ j. ground (arith, v.owned i, v.busy j);
      within = λ j n. ground (arith, v.within j n);
      fits = λ j. if_case Fits (i == j) (λ _. f) (λ _. v.fits j);
      awaited = λ k n l. let (a, b, (x, o)) = v.awaited k n l in (a, b, (x, ground arith));
      labelled = v.labelled;
    }

    -- The holder with no channel: nothing is pending.
    nothing_pending :
        (i : ℕ) (k : Str) (n : ℕ)
        → holds (pc i) ≡ true
        → channel (pc i) ≡ none
        → Inv P I N F pc
        → lookup k P ≡ some n
        → ⊥
    nothing_pending i k n h c v l =
        let (a, b, (x, o)) = v.awaited k n l in
        ground (arith, v.owned i h, v.owned x (channel-holds (pc x) n o))

    pub enrol :
        (i : ℕ) (p p' : Position)
        → pc i ≡ p
        → holds p ≡ true
        → holds p' ≡ true
        → channel p ≡ none
        → channel p' ≡ some (suc N)
        → Fits p'
        → Inv P I N F pc
        → Inv
            (insert (request_id (suc N)) (suc N) P)
            (update I (suc N) none)
            (suc N)
            F
            (update pc i p')
    enrol i p p' e h g c d f v = record {
      owned = λ j. ground (arith, v.owned i, v.owned j);
      busy = λ j. ground (arith, v.owned i, v.busy j);
      within = λ j n. ground (arith, v.within j n);
      fits = λ j. if_case Fits (i == j) (λ _. f) (λ _. v.fits j);
      awaited = λ k n l. elim (Bool-cases (str_eq (request_id (suc N)) k)) [
        | inl t ↦ (
          ground (arith, enrolled N P k n l, str_eq_iff (request_id (suc N)) k),
          ground (arith, enrolled N P k n l),
          (i, ground (arith, enrolled N P k n l)),
        )
        | inr t ↦ absurd (
            nothing_pending i k n (ground arith) (ground arith) v
              (ground (arith, enrolled N P k n l)))
      ];
      labelled = λ n r. ground (arith, v.labelled n r);
    }

    pub receive_one :
        (i n : ℕ) (p p' : Position)
        → pc i ≡ p
        → holds p' ≡ holds p
        → channel p' ≡ channel p
        → Fits p'
        → Inv P I N F pc
        → Inv P (update I n none) N F (update pc i p')
    receive_one i n p p' e h c f v = record {
      owned = λ j. ground (arith, v.owned j);
      busy = λ j. ground (arith, v.busy j);
      within = λ j m. ground (arith, v.within j m);
      fits = λ j. if_case Fits (i == j) (λ _. f) (λ _. v.fits j);
      awaited =
          λ k m l. let (a, b, (x, o)) = v.awaited k m l in (a, ground arith, (x, ground arith));
      labelled = λ m r. ground (arith, v.labelled m r);
    }

    pub forgotten :
        (i n : ℕ) (p p' : Position)
        → pc i ≡ p
        → holds p' ≡ holds p
        → channel p ≡ some n
        → channel p' ≡ none
        → Fits p'
        → same_channel Score request_id (lookup (request_id n) P) n ≡ true
        → Inv P I N F pc
        → Inv (delete (request_id n) P) I N F (update pc i p')
    forgotten i n p p' e h c d f t v = record {
      owned = λ j. ground (arith, v.owned j);
      busy = λ j. ground (arith, v.busy j);
      within = λ j m. ground (arith, v.within j m);
      fits = λ j. if_case Fits (i == j) (λ _. f) (λ _. v.fits j);
      awaited = λ k m l.
          let (a, b, (x, o)) = v.awaited k m (deleted (request_id n) P k m l) in
          (
            a,
            b,
            (x, ground (arith, undeleted (request_id n) P k m l, str_eq_iff (request_id n) k)),
          );
      labelled = v.labelled;
    }

    pub not_mine :
        (i n : ℕ) (p p' : Position)
        → pc i ≡ p
        → holds p' ≡ holds p
        → channel p ≡ some n
        → channel p' ≡ none
        → Fits p'
        → same_channel Score request_id (lookup (request_id n) P) n ≡ false
        → Inv P I N F pc
        → Inv P I N F (update pc i p')
    not_mine i n p p' e h c d f t v = record {
      owned = λ j. ground (arith, v.owned j);
      busy = λ j. ground (arith, v.busy j);
      within = λ j m. ground (arith, v.within j m);
      fits = λ j. if_case Fits (i == j) (λ _. f) (λ _. v.fits j);
      awaited = λ k m l. let (a, b, (x, o)) = v.awaited k m l in (a, b, (x, ground arith));
      labelled = v.labelled;
    }

    pub deliver_one :
        (r : Response Score) (n : ℕ)
        → lookup r.id P ≡ some n
        → Inv P I N F pc
        → Inv (delete r.id P) (update I n (some r)) N F pc
    deliver_one r n h v = record {
      owned = v.owned;
      busy = v.busy;
      within = v.within;
      fits = v.fits;
      awaited = λ k m l.
          let (a, b, (x, o)) = v.awaited k m (deleted r.id P k m l) in
          (
            a,
            ground (arith, (v.awaited r.id n h).0, undeleted r.id P k m l, str_eq_iff r.id k),
            (x, o),
          );
      labelled = λ m q. ground (arith, (v.awaited r.id n h).0, v.labelled m q);
    }
