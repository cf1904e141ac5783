-- ===== src/Downstream/Connect/Bounds.antt =====
-- internal/downstream/connector.go: `ConnectAll` in every order of its goroutines' steps.
use mathlib.Core.Path.{subst}
use ozy.Config.{ServerConfig}
use ozy.Downstream.Connect.{
  Transport, Dialled, broken, connection_error, unconnected, connect, Phase, waiting, running,
  finished, Slot, new_slot, slots_of, connect_all, Move, take_place, cancelled, connected, Step,
  first, later, Run, begin, next,
}
use ozy.Common.{
  if◌then◌else◌, is_some, Str, str_leb, str_eq_refl, length, length-map, All, All-map, All-sort_by,
  length-sort_by, sort_strings, Map, keys, lookup, has_key, ℕ, zero, suc, ◌+◌, ◌*◌, ◌≤◌, ◌<◌, ◌≡◌,
  refl, ap, ◌∙◌, ◌⊎◌, inl, inr, Bool, true, false, Option, none, some, List, [], ◌∷◌, map, arith,
}

module _ (quote : Str → Str) (S : Type 0) where
  abbrev Goroutine : Type 0
  Goroutine = Slot quote S

  abbrev takes_place : Phase quote S → ℕ
  takes_place waiting = 0
  takes_place running = 1
  takes_place finished = 0

  abbrev pub places : List Goroutine → ℕ
  places [] = 0
  places (x ∷ xs) = takes_place x.phase + places xs

  abbrev left : Phase quote S → ℕ
  left waiting = 2
  left running = 1
  left finished = 0

  abbrev work : List Goroutine → ℕ
  work [] = 0
  work (x ∷ xs) = left x.phase + work xs

  abbrev pub steps :
      {limit : ℕ} {xs ys : List Goroutine} {held : ℕ} → Run quote S limit xs ys held → ℕ
  steps begin = 0
  steps (next r st) = suc (steps r)

  -- A server that is not enabled is skipped. Any other gets what `Connect` returns, or the error of
  -- a context that ended while its goroutine waited.
  abbrev pub Settled : Goroutine → Phase quote S → Type 0
  Settled y finished =
      ((y.server.enabled ≡ false)
        × (y.result ≡ record (unconnected quote S y.id) { skipped = true }))
      ⊎ ((y.server.enabled ≡ true)
          × (((t : Dialled Transport) × (reply : Dialled S) × (y.result
                  ≡ connect quote S y.id y.server t reply))
              ⊎ ((e : Str) × (y.result ≡ record (unconnected quote S y.id) {
                error = some (connection_error quote y.id y.server e);
              }))))
  Settled y _ = y.server.enabled ≡ true

  -- The results stand in the order of the slots, each for its own server.
  abbrev pub Answers : List Goroutine → List Goroutine → Type 0
  Answers [] [] = Unit
  Answers (x ∷ xs) (y ∷ ys) =
      (y.id ≡ x.id) × (y.server ≡ x.server) × Settled y y.phase × Answers xs ys
  Answers _ _ = ⊥

  abbrev pub AllFinished : List Goroutine → Type 0
  AllFinished [] = Unit
  AllFinished (y ∷ ys) = (y.phase ≡ finished) × AllFinished ys

  Move-Settled :
      {limit held held' : ℕ} {a b : Goroutine}
      → Move quote S limit a held b held'
      → Settled a a.phase
      → (b.id ≡ a.id) × (b.server ≡ a.server) × Settled b b.phase
  Move-Settled {a = a} (take_place e l) h = (refl, refl, subst (Settled a) e h)
  Move-Settled {a = a} (cancelled err e) h =
      (refl, refl, inr (subst (Settled a) e h, inr (err, refl)))
  Move-Settled {a = a} (connected t reply e) h =
      (refl, refl, inr (subst (Settled a) e h, inl (t, reply, refl)))

  step-Answers :
      (xs : List Goroutine) {limit held held' : ℕ} {ys zs : List Goroutine}
      → Step quote S limit ys held zs held'
      → Answers xs ys
      → Answers xs zs
  step-Answers [] (first m) h = absurd h
  step-Answers [] (later st) h = absurd h
  step-Answers (x ∷ xs) (first m) (i, s, g, h) =
      let (i', s', g') = Move-Settled m g in (i' ∙ i, s' ∙ s, g', h)
  step-Answers (x ∷ xs) (later st) (i, s, g, h) = (i, s, g, step-Answers xs st h)

  Move-counts :
      {limit held held' : ℕ} {a b : Goroutine}
      → Move quote S limit a held b held'
      → held ≤ limit
      → (takes_place b.phase + held ≡ takes_place a.phase + held')
        × (held' ≤ limit)
        × (left b.phase + 1 ≤ left a.phase)
  Move-counts (take_place e l) h = rw e (omega arith)
  Move-counts (cancelled err e) h = rw e (omega arith)
  Move-counts (connected t reply e) h = rw e (omega arith)

  step_counts :
      {limit held held' : ℕ} {ys zs : List Goroutine}
      → Step quote S limit ys held zs held'
      → held ≤ limit
      → (places zs + held ≡ places ys + held') × (held' ≤ limit) × (work zs + 1 ≤ work ys)
  step_counts (first m) h = omega (arith, Move-counts m h)
  step_counts (later st) h = omega (arith, step_counts st h)

  abbrev pub Next : ℕ → List Goroutine → ℕ → Type 0
  Next limit ys held = (zs : List Goroutine) × (held' : ℕ) × Step quote S limit ys held zs held'

  skip_one :
      (limit : ℕ) (y : Goroutine) (ys : List Goroutine) (held : ℕ)
      → Next limit ys held
      → Next limit (y ∷ ys) held
  skip_one limit y ys held (zs, held', st) = (y ∷ zs, held', later st)

  give_at :
      (limit held : ℕ) (y : Goroutine) (ys : List Goroutine) (p : Phase quote S)
      → y.phase ≡ p
      → (0 < places ys → Next limit ys (suc held))
      → 0 < takes_place p + places ys
      → Next limit (y ∷ ys) (suc held)
  give_at limit held y ys running e rest h = (_, _, first (connected (broken []) (broken []) e))
  give_at limit held y ys waiting e rest h = skip_one limit y ys (suc held) (rest (omega arith))
  give_at limit held y ys finished e rest h = skip_one limit y ys (suc held) (rest (omega arith))

  -- A goroutine that holds a place can give it back.
  giving : (limit held : ℕ) (ys : List Goroutine) → 0 < places ys → Next limit ys (suc held)
  giving limit held [] h = absurd (omega arith)
  giving limit held (y ∷ ys) h = give_at limit held y ys y.phase refl (giving limit held ys) h

  take_at :
      (limit held : ℕ) (y : Goroutine) (ys : List Goroutine) (p : Phase quote S)
      → y.phase ≡ p
      → takes_place p + places ys ≡ 0
      → held < limit
      → (places ys ≡ 0 → AllFinished ys ⊎ Next limit ys held)
      → AllFinished (y ∷ ys) ⊎ Next limit (y ∷ ys) held
  take_at limit held y ys running e h l rest = absurd (omega arith)
  take_at limit held y ys waiting e h l rest = inr (_, _, first (take_place e l))
  take_at limit held y ys finished e h l rest = elim (rest (omega arith)) [
    | inl done ↦ inl (e, done)
    | inr more ↦ inr (skip_one limit y ys held more)
  ]

  -- Where no place is taken, a waiting goroutine can take one.
  taking :
      (limit held : ℕ) (ys : List Goroutine)
      → places ys ≡ 0
      → held < limit
      → AllFinished ys ⊎ Next limit ys held
  taking limit held [] h l = inl tt
  taking limit held (y ∷ ys) h l =
      take_at limit held y ys y.phase refl h l (λ n. taking limit held ys n l)

  goes_on :
      (limit held : ℕ) (ys : List Goroutine)
      → places ys ≡ held
      → held ≤ limit
      → 0 < limit
      → AllFinished ys ⊎ Next limit ys held
  goes_on limit zero ys e h l = taking limit 0 ys e l
  goes_on limit (suc held) ys e h l = inr (giving limit held ys (omega arith))

  new_slot-Settled :
      (id : Str) (server : ServerConfig) (b : Bool)
      → server.enabled ≡ b
      → Settled (new_slot quote S id server) (if b then waiting else finished)
  new_slot-Settled id server true e = e
  new_slot-Settled id server false e = inl (e, rw e refl)

  -- the slots before any step
  record Fresh (ids : List Str) (xs : List Goroutine) : Type 0 where
    own : Answers xs xs
    idle : places xs ≡ 0
    bounded : work xs ≤ 2 * length ids
    named : map (λ x. x.id) xs ≡ ids

  no_places : (b : Bool) → takes_place (if b then waiting else finished) ≡ 0
  no_places true = refl
  no_places false = refl

  left-le-two : (p : Phase quote S) → left p ≤ 2
  left-le-two waiting = omega arith
  left-le-two running = omega arith
  left-le-two finished = omega arith

  new-Fresh :
      (mcp : Map ServerConfig) (id : Str) (ids : List Str) (o : Option ServerConfig)
      → lookup id mcp ≡ o
      → is_some o ≡ true
      → Fresh ids (slots_of quote S mcp ids)
      → Fresh (id ∷ ids) (elim o [
        | none ↦ slots_of quote S mcp ids
        | some server ↦ new_slot quote S id server ∷ slots_of quote S mcp ids
      ])
  new-Fresh mcp id ids none e h f = cc
  new-Fresh mcp id ids (some server) e h f = record {
    own = (refl, refl, new_slot-Settled id server server.enabled refl, f.own);
    idle = omega (arith, no_places server.enabled, f.idle);
    bounded = omega (arith, left-le-two (if server.enabled then waiting else finished), f.bounded);
    named = ap (λ l. id ∷ l) f.named;
  }

  slots-Fresh :
      (mcp : Map ServerConfig) (ids : List Str)
      → All (λ id. has_key id mcp ≡ true) ids
      → Fresh ids (slots_of quote S mcp ids)
  unfolding has_key
  slots-Fresh mcp [] h = record { own = tt; idle = refl; bounded = omega arith; named = refl }
  slots-Fresh mcp (id ∷ ids) h =
      new-Fresh mcp id ids (lookup id mcp) refl h.0 (slots-Fresh mcp ids h.1)

  has_key-cons :
      (k j : Str) (v : ServerConfig) (m : Map ServerConfig)
      → has_key k m ≡ true
      → has_key k ((j, v) ∷ m) ≡ true
  unfolding has_key lookup
  has_key-cons k j v m h = ground arith

  keys-have : (m : Map ServerConfig) → All (λ k. has_key k m ≡ true) (keys m)
  unfolding has_key lookup
  keys-have [] = tt
  keys-have ((j, v) ∷ m) =
      (rw (str_eq_refl j) refl, All-map (λ k h. has_key-cons k j v m h) (keys m) (keys-have m))

  -- What holds after any steps of the goroutines.
  pub record Bounded (limit : ℕ) (xs ys : List Goroutine) (held taken : ℕ) : Type 0 where
    pub counted : places ys ≡ held
    pub within : held ≤ limit
    pub short : taken + work ys ≤ work xs
    pub answers : Answers xs ys

  run-Bounded :
      (limit : ℕ) (xs : List Goroutine) {ys : List Goroutine} {held : ℕ}
      → Answers xs xs
      → places xs ≡ 0
      → (r : Run quote S limit xs ys held) → Bounded limit xs ys held (steps r)
  run-Bounded limit xs a z begin = record {
    counted = z;
    within = omega arith;
    short = omega arith;
    answers = a;
  }
  run-Bounded limit xs a z (next r st) =
      let b = run-Bounded limit xs a z r in
      let c = step_counts st b.within in
      record {
        counted = omega (arith, b.counted, c.0);
        within = c.1;
        short = omega (arith, b.short, c.2);
        answers = step-Answers xs st b.answers;
      }

  -- Whatever the order in which the goroutines move: at most `limit` servers are connected to at a
  -- time; `ConnectAll` makes at most two steps for each server, and while one is not finished there
  -- is a step to make, so it ends; and the results stand in the order of the sorted ids, one for each
  -- server: skipped if it is not enabled, else what `Connect` returns or the context's error.
  pub connect_all-Bounded :
      (limit : ℕ) (mcp : Map ServerConfig) {ys : List Goroutine} {held : ℕ}
      → 0 < limit
      → (r : Run quote S limit (connect_all quote S mcp) ys held)
      → Bounded limit (connect_all quote S mcp) ys held (steps r)
        × (steps r ≤ 2 * length mcp)
        × (AllFinished ys ⊎ Next limit ys held)
        × (map (λ x. x.id) (connect_all quote S mcp) ≡ sort_strings (keys mcp))
  unfolding connect_all
  connect_all-Bounded limit mcp {ys} {held} h r =
      let f =
        slots-Fresh mcp (sort_strings (keys mcp))
          (All-sort_by _ str_leb (keys mcp) (keys-have mcp)) in
      let b = run-Bounded limit (connect_all quote S mcp) f.own f.idle r in
      (
        b,
        omega (
          arith,
          b.short,
          f.bounded,
          length-sort_by str_leb (keys mcp),
          length-map (λ (e : Str × ServerConfig). e.0) mcp,
        ),
        goes_on limit held ys b.counted b.within h,
        f.named,
      )
