-- ===== src/Broker/Cache/Capacity.antt =====
-- The cache never holds more than its configured number of entries.
use ozy.Catalog.{Time, Tool, Reply, ok}
use ozy.Broker.{Answer, done}
use ozy.Json.{Value}
use ozy.Broker.Cache.{
  Cached, Entry, Limits, Env, get, prune, key_at, drop_one, evict, make_room, put, remember, Inner,
  State, through, delegate, generation, find_tool, describe_tool, call_tool,
}
use ozy.Common.{
  Bool-cases, Option-cases, Str, str_eq_refl, length, Map, delete, length-insert-le,
  length-delete-le, ℕ, zero, suc, ◌+◌, ◌-◌, ◌≤◌, ◌<◌, ◌≡◌, refl, ◌≢◌, inl, inr, Bool, Option, none,
  some, [], ◌∷◌, arith,
}

length-drop_one-nil : (F D : Type 0) (i : ℕ) → length (drop_one {F = F} {D = D} i []) ≡ 0
unfolding drop_one key_at
length-drop_one-nil F D i = refl

module _ {F D : Type 0} where
  length-prune-le : (now : Time) (es : Map (Entry F D)) → length (prune now es) ≤ length es
  unfolding prune
  length-prune-le now [] = omega arith
  length-prune-le now ((k, e) ∷ es) = ground (arith, length-prune-le now es)

  length-get-le :
      (now : Time) (k : Str) (es : Map (Entry F D)) → length (get now k es).1 ≤ length es
  unfolding get
  length-get-le now k es = ground (arith, length-delete-le k es)

  -- the entry that is dropped is there
  key_at-dropped :
      (i : ℕ) (k : Str) (es : Map (Entry F D))
      → key_at i es ≡ some k
      → length (delete k es) + 1 ≤ length es
  unfolding key_at delete
  key_at-dropped i k [] h = ground arith
  key_at-dropped zero k ((j, e) ∷ es) h = ground (arith, str_eq_refl k, length-delete-le k es)
  key_at-dropped (suc i) k ((j, e) ∷ []) h = ground (arith, str_eq_refl k)
  key_at-dropped (suc i) k ((j, e) ∷ f ∷ es) h =
      ground (arith, key_at-dropped i k (f ∷ es), length-delete-le k (f ∷ es))

  key_at-some : (i : ℕ) (e : Str × Entry F D) (es : Map (Entry F D)) → key_at i (e ∷ es) ≢ none
  unfolding key_at
  key_at-some zero e es h = cc
  key_at-some (suc i) e [] h = cc
  key_at-some (suc i) e (f ∷ es) h = key_at-some i f es h

  length-drop_one :
      (i n : ℕ) (es : Map (Entry F D)) → length es ≤ suc n → length (drop_one i es) ≤ n
  unfolding drop_one
  length-drop_one i n [] h = omega (arith, length-drop_one-nil F D i)
  length-drop_one i n (e ∷ es) h = elim (Option-cases (key_at i (e ∷ es))) [
    | inl miss ↦ absurd (key_at-some i e es miss)
    | inr (k, hit) ↦ rw (hit, drop_one) (omega (arith, key_at-dropped i k (e ∷ es) hit))
  ]

  -- Room is made for one more entry.
  length-make_room-lt :
      (env : Env) (cfg : Limits) (es : Map (Entry F D))
      → 0 < cfg.max
      → length es ≤ cfg.max
      → length (make_room env cfg es) < cfg.max
  unfolding make_room evict
  length-make_room-lt env cfg es p h = ground (
    arith,
    length-prune-le env.at_evict es,
    length-drop_one env.pick (cfg.max - 1) (prune env.at_evict es),
  )

  length-put-le :
      (env : Env) (cfg : Limits) (k : Str) (v : Cached F D) (es : Map (Entry F D))
      → 0 < cfg.max
      → length es ≤ cfg.max
      → length (put env cfg k v es) ≤ cfg.max
  unfolding put
  length-put-le env cfg k v es p h = omega (
    arith,
    length-make_room-lt env cfg es p h,
    length-insert-le k (record { value = v; produced = env.at_put; expires = env.at_put + cfg.ttl })
        (make_room env cfg es),
  )

module _ {A F D : Type 0} (env : Env) (cfg : Limits) (p : 0 < cfg.max) where
  remember-le :
      (k : Str) (wrap : A → Cached F D) (r : Answer A) (es : Map (Entry F D))
      → length es ≤ cfg.max
      → length (remember env cfg k wrap r es) ≤ cfg.max
  unfolding remember
  remember-le k wrap (done r) es h = length-put-le env cfg k (wrap r) es p h
  remember-le k wrap _ es h = h

module _ {W F D : Type 0} where
  abbrev pub Fits : Limits → State W F D → Type 0
  Fits cfg s = length s.entries ≤ cfg.max

  module _ {A : Type 0} (env : Env) (cfg : Limits) (p : 0 < cfg.max) where
    through-Fits :
        (k : Str) (serve : Entry F D → Answer A) (wrap : A → Cached F D) (run : W → Answer A × W)
        (s : State W F D)
        → Fits cfg s
        → Fits cfg (through env cfg k serve wrap run s).1
    unfolding through
    through-Fits k serve wrap run s h =
        let smaller : length (get env.at_get k s.entries).1 ≤ cfg.max =
          omega (arith, length-get-le env.at_get k s.entries) in
        elim (Option-cases (get env.at_get k s.entries).0) [
          | inl miss ↦ rw (miss, through) (remember-le env cfg p k wrap (run s.world).0 _ smaller)
          | inr (e, hit) ↦ rw (hit, through) smaller
        ]

module _ {W F D : Type 0} (sha : Str → Str) (format_int : ℕ → Str)
    (marshal : Map Value → Option Str) (cfg : Limits) (inner : Inner W F D) (p : 0 < cfg.max)
    (env : Env) (s : State W F D) where
  find_tool-Fits :
      (last : Reply (Time × Bool)) (query : Str)
      → Fits cfg s
      → Fits cfg (find_tool sha format_int marshal cfg inner env last query s).1
  unfolding find_tool delegate
  find_tool-Fits last query h = elim (Option-cases (generation format_int last)) [
    | inl e ↦ rw (e, find_tool) h
    | inr (gen, e) ↦ rw (e, find_tool) (through-Fits env cfg p _ _ _ _ s h)
  ]

  describe_tool-Fits :
      (tool : Reply (Option Tool)) (ref : Str)
      → Fits cfg s
      → Fits cfg (describe_tool sha format_int marshal cfg inner env tool ref s).1
  unfolding describe_tool delegate
  describe_tool-Fits (ok (some t)) ref h = through-Fits env cfg p _ _ _ _ s h
  describe_tool-Fits _ ref h = h

  call_tool-Fits :
      (tool : Reply (Option Tool)) (ref : Str) (args : Map Value)
      → Fits cfg s
      → Fits cfg (call_tool sha format_int marshal cfg inner env tool ref args s).1
  unfolding call_tool delegate
  call_tool-Fits (ok (some t)) ref args h = elim (Bool-cases t.read_only) [
    | inr w ↦ rw w h
    | inl r ↦ rw r (elim (Option-cases (marshal args)) [
      | inl e ↦ rw (e, call_tool) h
      | inr (key, e) ↦ rw (e, call_tool) (through-Fits env cfg p _ _ _ _ s h)
    ])
  ]
  call_tool-Fits _ ref args h = h

  -- With a positive bound, no operation lets the cache grow past it: from a cache within the bound
  -- each of findTool, describeTool and callTool leaves one, whatever the store and the wrapped
  -- broker answer and wherever eviction starts.
  pub capacity :
      (last : Reply (Time × Bool)) (tool : Reply (Option Tool)) (ref : Str) (args : Map Value)
      → Fits cfg s
      → Fits cfg (find_tool sha format_int marshal cfg inner env last ref s).1
        × Fits cfg (describe_tool sha format_int marshal cfg inner env tool ref s).1
        × Fits cfg (call_tool sha format_int marshal cfg inner env tool ref args s).1
  capacity last tool ref args h =
      (find_tool-Fits last ref h, describe_tool-Fits tool ref h, call_tool-Fits tool ref args h)
