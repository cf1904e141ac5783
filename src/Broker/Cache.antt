-- ===== src/Broker/Cache.antt =====
-- internal/broker/cache.go: `cachingBroker`. The wrapped broker acts on a world `W`. Its results of
-- findTool and describeTool are opaque here. `sha` is SHA-256 in hexadecimal, `format_int` prints
-- the generation and `marshal` is encoding/json on the arguments.
pub mod Capacity
pub mod Keys
pub mod Safety
pub mod Kinds
pub mod Hits
mod Tests
use ozy.Json.{Value}
use ozy.Catalog.{Time, Tool, Reply, ok, fail}
use ozy.Contract.{CallResult}
use ozy.Broker.{Answer, done, panicked}
use ozy.Common.{
  ltb, leb, if◌then◌else◌, Str, codes, length, Map, lookup, insert, delete, ℕ, zero, suc, ◌+◌, ◌-◌,
  ◌/◌, Bool, ◌&&◌, Option, none, some, List, [], ◌∷◌, ◌++◌,
}

-- `value any`: which pointer type was stored
pub data Cached (F D : Type 0) : Type 0 where
  found : F → Cached F D
  described : D → Cached F D
  called : CallResult → Cached F D

pub record Entry (F D : Type 0) : Type 0 where
  pub value : Cached F D
  pub produced : Time
  pub expires : Time

pub record Limits : Type 0 where
  pub ttl : ℕ
  pub max : ℕ

-- What one operation reads from outside: `time.Now()` at each place, and where Go's `range` over
-- the entries starts.
pub record Env : Type 0 where
  pub at_get : Time
  pub at_serve : Time
  pub at_evict : Time
  pub at_put : Time
  pub pick : ℕ

-- The bytes that `cacheKey` feeds to the hash: each part, then a zero byte.
unfoldable pub key_bytes : List Str → Str
key_bytes [] = []
key_bytes (p ∷ ps) = p ++ (0 ∷ key_bytes ps)

-- `stampedCallResult`: the copy carries its age in whole seconds
abbrev pub age_seconds : Time → Time → ℕ
age_seconds now produced = (now - produced) / 1_000_000_000

unfoldable pub stamped : Time → Time → CallResult → CallResult
stamped now produced res = record res { cached_age_seconds = some (age_seconds now produced) }

module _ {F D : Type 0} where
  abbrev pub expired : Time → Entry F D → Bool
  expired now e = ltb e.expires now

  unfoldable pub get : Time → Str → Map (Entry F D) → Option (Entry F D) × Map (Entry F D)
  get now k es = elim (lookup k es) [
    | none ↦ (none, es)
    | some e ↦ if expired now e then (none, delete k es) else (some e, es)
  ]

  -- the first loop of `evictLocked`
  unfoldable pub prune : Time → Map (Entry F D) → Map (Entry F D)
  prune now [] = []
  prune now ((k, e) ∷ es) = let rest = prune now es in if expired now e then rest else (k, e) ∷ rest

  -- the key that `range` yields first, when it starts at entry `i`
  unfoldable pub key_at : ℕ → Map (Entry F D) → Option Str
  key_at i [] = none
  key_at zero ((k, _) ∷ es) = some k
  key_at (suc i) ((k, _) ∷ []) = some k
  key_at (suc i) ((_, _) ∷ e ∷ es) = key_at i (e ∷ es)

  unfoldable pub drop_one : ℕ → Map (Entry F D) → Map (Entry F D)
  drop_one i es = elim (key_at i es) [ none ↦ es | some k ↦ delete k es ]

  unfoldable pub evict : Env → ℕ → Map (Entry F D) → Map (Entry F D)
  evict env max es =
      let kept = prune env.at_evict es in
      if ltb (length kept) max then kept else drop_one env.pick kept

  unfoldable pub make_room : Env → Limits → Map (Entry F D) → Map (Entry F D)
  make_room env cfg es =
      if ltb 0 cfg.max && leb cfg.max (length es) then evict env cfg.max es else es

  unfoldable pub put : Env → Limits → Str → Cached F D → Map (Entry F D) → Map (Entry F D)
  put env cfg k v es =
      insert k (record { value = v; produced = env.at_put; expires = env.at_put + cfg.ttl })
        (make_room env cfg es)

  -- the type assertions on a cached value
  unfoldable pub as_found : Cached F D → Answer F
  as_found (found r) = done r
  as_found _ = panicked

  unfoldable pub as_described : Cached F D → Answer D
  as_described (described r) = done r
  as_described _ = panicked

  unfoldable pub as_called : Time → Time → Cached F D → Answer CallResult
  as_called now produced (called r) = done (stamped now produced r)
  as_called now produced _ = panicked

-- The wrapped broker.
pub record Inner (W F D : Type 0) : Type 0 where
  pub find_tool : Str → W → Answer F × W
  pub describe_tool : Str → W → Answer D × W
  pub call_tool : Str → Map Value → W → Answer CallResult × W

pub record State (W F D : Type 0) : Type 0 where
  pub entries : Map (Entry F D)
  pub world : W

unfoldable pub cache_key : (Str → Str) → List Str → Str
cache_key sha parts = sha (key_bytes parts)

-- `generation`: the token, or `none` on a store error
unfoldable pub generation : (ℕ → Str) → Reply (Time × Bool) → Option Str
generation format_int (fail _) = none
generation format_int (ok (t, indexed)) = some (if indexed then format_int t else codes "never")

-- `if err == nil && res != nil { c.put(k, res) }`
unfoldable pub remember :
    {A F D : Type 0}
    → Env
    → Limits
    → Str
    → (A → Cached F D)
    → Answer A
    → Map (Entry F D)
    → Map (Entry F D)
remember env cfg k wrap (done r) es = put env cfg k (wrap r) es
remember env cfg k wrap _ es = es

module _ {W F D A : Type 0} where
  -- a lookup, then the hit or the wrapped operation
  unfoldable pub through :
      Env
      → Limits
      → Str
      → (Entry F D → Answer A)
      → (A → Cached F D)
      → (W → Answer A × W)
      → State W F D
      → Answer A × State W F D
  through env cfg k serve wrap run s =
      let (hit, es) = get env.at_get k s.entries in
      elim hit [
        | some e ↦ (serve e, record s { entries = es })
        | none ↦
            let (res, w) = run s.world in
            (res, record { entries = remember env cfg k wrap res es; world = w })
      ]

  -- the wrapped operation alone
  unfoldable pub delegate : (W → Answer A × W) → State W F D → Answer A × State W F D
  delegate run s = let (res, w) = run s.world in (res, record s { world = w })

abbrev pub find_key : (Str → Str) → Str → Str → Str
find_key sha query gen = cache_key sha (codes "find" ∷ query ∷ gen ∷ [])

abbrev pub describe_key : (Str → Str) → Str → Str → Str
describe_key sha ref hash = cache_key sha (codes "describe" ∷ ref ∷ hash ∷ [])

abbrev pub call_key : (Str → Str) → Str → Str → Str → Str
call_key sha ref hash args = cache_key sha (codes "call" ∷ ref ∷ hash ∷ args ∷ [])

module _ {W F D : Type 0} (sha : Str → Str) (format_int : ℕ → Str)
    (marshal : Map Value → Option Str) (cfg : Limits) (inner : Inner W F D) where
  unfoldable pub find_tool : Env → Reply (Time × Bool) → Str → State W F D → Answer F × State W F D
  find_tool env last query s = elim (generation format_int last) [
    | none ↦ delegate (inner.find_tool query) s
    | some gen ↦
        through env cfg (find_key sha query gen) (λ e. as_found e.value) found
          (inner.find_tool query) s
  ]

  unfoldable pub describe_tool :
      Env → Reply (Option Tool) → Str → State W F D → Answer D × State W F D
  describe_tool env (ok (some tool)) ref s =
      through env cfg (describe_key sha ref tool.schema_hash) (λ e. as_described e.value) described
        (inner.describe_tool ref) s
  describe_tool env _ ref s = delegate (inner.describe_tool ref) s

  unfoldable pub call_tool :
      Env → Reply (Option Tool) → Str → Map Value → State W F D → Answer CallResult × State W F D
  call_tool env (ok (some tool)) ref args s =
      if tool.read_only
      then (elim (marshal args) [
        | none ↦ delegate (inner.call_tool ref args) s
        | some arg_key ↦
            through env cfg (call_key sha ref tool.schema_hash arg_key)
              (λ e. as_called env.at_serve e.produced e.value) called (inner.call_tool ref args) s
      ])
      else delegate (inner.call_tool ref args) s
  call_tool env _ ref args s = delegate (inner.call_tool ref args) s
