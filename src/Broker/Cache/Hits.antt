-- ===== src/Broker/Cache/Hits.antt =====
-- When a cached result is served, and what it says.
use ozy.Json.{Value}
use ozy.Catalog.{Time, Tool, ok}
use ozy.Contract.{CallResult}
use ozy.Broker.{Answer, done}
use ozy.Broker.Cache.{
  Cached, called, Entry, Limits, Env, get, put, remember, Inner, State, through, call_tool,
  call_key, stamped, as_called, expired,
}
use ozy.Common.{
  if◌then◌else◌, Str, str_eq, str_eq_iff, Map, lookup, lookup-delete, map_laws, ℕ, ◌+◌, ◌≤◌, ◌≡◌,
  refl, ◌∙◌, ◌≢◌, true, Option, none, some, arith,
}

-- The entry that a lookup at a time may serve.
abbrev pub live_entry : {F D : Type 0} → Time → Str → Map (Entry F D) → Option (Entry F D)
live_entry now k es = elim (lookup k es) [
  | none ↦ none
  | some e ↦ if expired now e then none else some e
]

get-live :
    {F D : Type 0} (now : Time) (k : Str) (es : Map (Entry F D))
    → (get now k es).0 ≡ live_entry now k es
unfolding get
get-live now k es = ground arith

-- What a `put` leaves under its key.
lookup-put_self :
    {F D : Type 0} (env : Env) (cfg : Limits) (k : Str) (v : Cached F D) (es : Map (Entry F D))
    → lookup k (put env cfg k v es)
      ≡ some (record { value = v; produced = env.at_put; expires = env.at_put + cfg.ttl })
unfolding put
lookup-put_self env cfg k v es = simp map_laws

lookup-get_miss :
    {F D : Type 0} (now : Time) (key k : Str) (es : Map (Entry F D))
    → live_entry now key es ≡ none
    → lookup k (get now key es).1 ≡ (if str_eq key k then none else lookup k es)
unfolding get
lookup-get_miss now key k es h = ground (arith, lookup-delete key k es, str_eq_iff key k)

remember-not_done :
    {A F D : Type 0} (env : Env) (cfg : Limits) (k : Str) (wrap : A → Cached F D) (r : Answer A)
    (es : Map (Entry F D))
    → ((a : A) → r ≢ done a)
    → remember env cfg k wrap r es ≡ es
unfolding remember
remember-not_done env cfg k wrap (done a) es h = absurd (h a refl)
remember-not_done env cfg k wrap _ es h = refl

module _ {W F D A : Type 0} (cfg : Limits) (serve : Entry F D → Answer A) (wrap : A → Cached F D)
    (run : W → Answer A × W) where
  through-hit :
      (env : Env) (k : Str) (s : State W F D) (e : Entry F D)
      → live_entry env.at_get k s.entries ≡ some e
      → ((through env cfg k serve wrap run s).0 ≡ serve e)
        × ((through env cfg k serve wrap run s).1.world ≡ s.world)
  unfolding through
  through-hit env k s e h =
      let hit = get-live env.at_get k s.entries ∙ h in rw (hit, through) (refl, refl)

  through-miss :
      (env : Env) (k : Str) (s : State W F D)
      → live_entry env.at_get k s.entries ≡ none
      → ((through env cfg k serve wrap run s).0 ≡ (run s.world).0)
        × ((through env cfg k serve wrap run s).1.world ≡ (run s.world).1)
        × ((through env cfg k serve wrap run s).1.entries
            ≡ remember env cfg k wrap (run s.world).0 (get env.at_get k s.entries).1)
  unfolding through
  through-miss env k s h =
      let miss = get-live env.at_get k s.entries ∙ h in rw (miss, through) (refl, refl, refl)

module _ {W F D : Type 0} (sha : Str → Str) (format_int : ℕ → Str)
    (marshal : Map Value → Option Str) (cfg : Limits) (inner : Inner W F D) (tool : Tool)
    (ref : Str) (args : Map Value) (a : Str) (reads : tool.read_only ≡ true)
    (encodes : marshal args ≡ some a) where
  abbrev call : Env → State W F D → Answer CallResult × State W F D
  call env s = call_tool sha format_int marshal cfg inner env (ok (some tool)) ref args s

  abbrev key : Str
  key = call_key sha ref tool.schema_hash a

  call-through :
      (env : Env) (s : State W F D)
      → call env s
        ≡ through env cfg key
            (λ e. as_called env.at_serve e.produced e.value)
            called
            (inner.call_tool ref args)
            s
  unfolding call_tool
  call-through env s = rw (reads, call_tool) (rw (encodes, call_tool) refl)

  abbrev asked : Env → State W F D → Answer CallResult × State W F D
  asked env =
      through env cfg key (λ e. as_called env.at_serve e.produced e.value) called
        (inner.call_tool ref args)

  -- what the first call leaves is live until the time to live has passed
  stored_live :
      (env : Env) (s : State W F D) (r : CallResult) (now : Time)
      → live_entry env.at_get key s.entries ≡ none
      → (inner.call_tool ref args s.world).0 ≡ done r
      → now ≤ env.at_put + cfg.ttl
      → live_entry now key (asked env s).1.entries
        ≡ some (record { value = called r; produced = env.at_put; expires = env.at_put + cfg.ttl })
  unfolding remember
  stored_live env s r now miss answer soon =
      let first =
        through-miss cfg (λ e. as_called env.at_serve e.produced e.value) called
          (inner.call_tool ref args) env key s miss in
      rw (first.2) (
        rw (answer, remember)
          (ground (arith, lookup-put_self env cfg key (called r) (get env.at_get key s.entries).1)))

  -- A read-only call that misses and succeeds is remembered: the same call made again, before the
  -- time to live has passed since, is answered with the first result, stamped with its age in
  -- whole seconds, and does not reach the wrapped broker.
  pub repeat_served :
      (env env' : Env) (s : State W F D) (r : CallResult)
      → live_entry env.at_get key s.entries ≡ none
      → (inner.call_tool ref args s.world).0 ≡ done r
      → env'.at_get ≤ env.at_put + cfg.ttl
      → ((call env s).0 ≡ done r)
        × ((call env' (call env s).1).0 ≡ done (stamped env'.at_serve env.at_put r))
        × ((call env' (call env s).1).1.world ≡ (call env s).1.world)
  unfolding as_called
  repeat_served env env' s r miss answer soon =
      let first =
        through-miss cfg (λ e. as_called env.at_serve e.produced e.value) called
          (inner.call_tool ref args) env key s miss in
      let second =
        through-hit cfg (λ e. as_called env'.at_serve e.produced e.value) called
          (inner.call_tool ref args) env' key (asked env s).1 _
          (stored_live env s r env'.at_get miss answer soon) in
      rw (call-through env s, call-through env' (asked env s).1)
        (first.0 ∙ answer, second.0, second.1)

  -- An answer that is not a result (a failure, or nothing) is not remembered: all that the call
  -- changes in the entries is that it drops an expired one under its own key.
  failure_not_cached :
      (env : Env) (s : State W F D) (k : Str)
      → live_entry env.at_get key s.entries ≡ none
      → ((r : CallResult) → (inner.call_tool ref args s.world).0 ≢ done r)
      → lookup k (call env s).1.entries ≡ (if str_eq key k then none else lookup k s.entries)
  failure_not_cached env s k miss bad =
      let first =
        through-miss cfg (λ e. as_called env.at_serve e.produced e.value) called
          (inner.call_tool ref args) env key s miss in
      rw (call-through env s) (
        rw (first.2) (
          rw (remember-not_done env cfg key _ (inner.call_tool ref args s.world).0 _ bad)
            (lookup-get_miss env.at_get key k s.entries miss)))
