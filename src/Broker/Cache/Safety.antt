-- ===== src/Broker/Cache/Safety.antt =====
-- internal/broker/cache.go: a session of requests through the cache, against the same session with
-- the wrapped broker alone.
use ozy.Json.{Value}
use ozy.Catalog.{Time, Tool, Reply, ok, fail}
use ozy.Contract.{CallResult}
use ozy.Broker.{Answer}
use ozy.Broker.Cache.{
  Entry, Cached, called, Limits, Env, Inner, State, get, through, delegate, generation, find_key,
  describe_key, call_key, as_found, found, as_described, described, as_called, find_tool,
  describe_tool, call_tool,
}
use ozy.Common.{
  if◌then◌else◌, Bool-cases, Option-cases, Str, All, Map, ℕ, ◌≡◌, refl, sym, ap, ◌∙◌, Bool, true,
  false, inl, inr, Option, none, some, List, [], ◌∷◌,
}

-- Positive evidence that a call has no side effect: the catalog has the tool, marked read-only.
abbrev pub is_read_only : Reply (Option Tool) → Bool
is_read_only (ok (some t)) = t.read_only
is_read_only _ = false

-- One request to the broker, with what the catalog answers then.
pub data Request : Type 0 where
  finding : Reply (Time × Bool) → Str → Request
  describing : Reply (Option Tool) → Str → Request
  calling : Reply (Option Tool) → Str → Map Value → Request

-- What a wrapped broker does to the part `O` of the world that is observed: finding and describing
-- change nothing of it, and a call's effect on it and its answer depend on nothing else.
pub record Observed {W F D : Type 0} (inner : Inner W F D) (O : Type 0) : Type 0 where
  pub observe : W → O
  pub effect : Str → Map Value → O → O
  pub reply : Str → Map Value → O → Answer CallResult
  pub finds : (q : Str) (w : W) → observe (inner.find_tool q w).1 ≡ observe w
  pub describes : (ref : Str) (w : W) → observe (inner.describe_tool ref w).1 ≡ observe w
  pub acts :
      (ref : Str) (args : Map Value) (w : W)
      → observe (inner.call_tool ref args w).1 ≡ effect ref args (observe w)
  pub replies :
      (ref : Str) (args : Map Value) (w : W)
      → (inner.call_tool ref args w).0 ≡ reply ref args (observe w)

-- A call of a tool that the catalog marks as read-only has no effect.
abbrev pub HintHolds : {O : Type 0} → (Str → Map Value → O → O) → Env × Request → Type 0
HintHolds {O} effect (env, calling tool ref args) =
    is_read_only tool ≡ true → (o : O) → effect ref args o ≡ o
HintHolds effect _ = Unit

-- The answers to the calls without evidence.
abbrev pub live_answers :
    Reply (Option Tool) → Answer CallResult → List (Answer CallResult) → List (Answer CallResult)
live_answers tool a rest = if is_read_only tool then rest else a ∷ rest

-- The session with the wrapped broker alone.
pub directly :
    {W F D : Type 0} → Inner W F D → List (Env × Request) → W → List (Answer CallResult) × W
directly inner [] w = ([], w)
directly inner ((env, finding last q) ∷ rs) w = directly inner rs (inner.find_tool q w).1
directly inner ((env, describing tool ref) ∷ rs) w = directly inner rs (inner.describe_tool ref w).1
directly inner ((env, calling tool ref args) ∷ rs) w =
    let r = inner.call_tool ref args w in
    let later = directly inner rs r.1 in (live_answers tool r.0 later.0, later.1)

module _ {W F D : Type 0} (sha : Str → Str) (format_int : ℕ → Str)
    (marshal : Map Value → Option Str) (cfg : Limits) (inner : Inner W F D) where
  -- The session through the cache.
  pub through_cache : List (Env × Request) → State W F D → List (Answer CallResult) × State W F D
  through_cache [] s = ([], s)
  through_cache ((env, finding last q) ∷ rs) s =
      through_cache rs (find_tool sha format_int marshal cfg inner env last q s).1
  through_cache ((env, describing tool ref) ∷ rs) s =
      through_cache rs (describe_tool sha format_int marshal cfg inner env tool ref s).1
  through_cache ((env, calling tool ref args) ∷ rs) s =
      let r = call_tool sha format_int marshal cfg inner env tool ref args s in
      let later = through_cache rs r.1 in (live_answers tool r.0 later.0, later.1)

  -- A call without evidence is made by the wrapped broker.
  write_is_live :
      (env : Env) (s : State W F D) (tool : Reply (Option Tool)) (ref : Str) (args : Map Value)
      → is_read_only tool ≡ false
      → ((call_tool sha format_int marshal cfg inner env tool ref args s).0
          ≡ (inner.call_tool ref args s.world).0)
        × ((call_tool sha format_int marshal cfg inner env tool ref args s).1.world
            ≡ (inner.call_tool ref args s.world).1)
  unfolding call_tool delegate
  write_is_live env s (ok (some t)) ref args h = rw (h, call_tool) (refl, refl)
  write_is_live env s (ok none) ref args h = (refl, refl)
  write_is_live env s (fail e) ref args h = (refl, refl)

  module _ {O : Type 0} (ob : Observed inner O) where
    open ob use {observe, effect, reply, finds, describes, acts, replies}

    through-observe :
        {A : Type 0} (env : Env) (k : Str) (serve : Entry F D → Answer A) (wrap : A → Cached F D)
        (run : W → Answer A × W) (s : State W F D)
        → ((w : W) → observe (run w).1 ≡ observe w)
        → observe (through env cfg k serve wrap run s).1.world ≡ observe s.world
    unfolding through
    through-observe env k serve wrap run s h = elim (Option-cases (get env.at_get k s.entries).0) [
      | inl e ↦ rw (e, through) (h s.world)
      | inr (hit, e) ↦ rw (e, through) refl
    ]

    find-observe :
        (env : Env) (last : Reply (Time × Bool)) (q : Str) (s : State W F D)
        → observe (find_tool sha format_int marshal cfg inner env last q s).1.world
          ≡ observe s.world
    unfolding find_tool delegate
    find-observe env last q s = elim (Option-cases (generation format_int last)) [
      | inl e ↦ rw (e, find_tool) (finds q s.world)
      | inr (gen, e) ↦
          rw (e, find_tool)
            (through-observe env (find_key sha q gen) (λ x. as_found x.value) found
              (inner.find_tool q) s (finds q))
    ]

    describe-observe :
        (env : Env) (tool : Reply (Option Tool)) (ref : Str) (s : State W F D)
        → observe (describe_tool sha format_int marshal cfg inner env tool ref s).1.world
          ≡ observe s.world
    unfolding describe_tool delegate
    describe-observe env (ok (some t)) ref s =
        through-observe env (describe_key sha ref t.schema_hash) (λ x. as_described x.value)
          described (inner.describe_tool ref) s (describes ref)
    describe-observe env _ ref s = describes ref s.world

    -- A read-only call leaves what is observed, whether it is made or answered from the cache.
    read-observe :
        (env : Env) (tool : Reply (Option Tool)) (ref : Str) (args : Map Value) (s : State W F D)
        → is_read_only tool ≡ true
        → ((o : O) → effect ref args o ≡ o)
        → observe (call_tool sha format_int marshal cfg inner env tool ref args s).1.world
          ≡ observe s.world
    unfolding call_tool delegate
    read-observe env (fail e) ref args s h still = cc
    read-observe env (ok none) ref args s h still = cc
    read-observe env (ok (some t)) ref args s h still =
        let stays : (w : W) → observe (inner.call_tool ref args w).1 ≡ observe w =
          λ w. acts ref args w ∙ still (observe w) in
        rw (h, call_tool)
          (elim (Option-cases (marshal args)) [
            | inl e ↦ rw e (stays s.world)
            | inr (a, e) ↦ rw e (
                through-observe env (call_key sha ref t.schema_hash a)
                  (λ x. as_called env.at_serve x.produced x.value) called (inner.call_tool ref args)
                  s stays)
          ])

    -- The two sessions from worlds that look the same.
    agrees :
        (rs : List (Env × Request)) (s : State W F D) (w : W)
        → All (HintHolds effect) rs
        → observe s.world ≡ observe w
        → ((through_cache rs s).0 ≡ (directly inner rs w).0)
          × (observe (through_cache rs s).1.world ≡ observe (directly inner rs w).1)
    unfolding through_cache directly
    agrees [] s w h e = (refl, e)
    agrees ((env, finding last q) ∷ rs) s w h e =
        agrees rs (find_tool sha format_int marshal cfg inner env last q s).1
          (inner.find_tool q w).1 h.1 (find-observe env last q s ∙ (e ∙ sym (finds q w)))
    agrees ((env, describing tool ref) ∷ rs) s w h e =
        agrees rs (describe_tool sha format_int marshal cfg inner env tool ref s).1
          (inner.describe_tool ref w).1 h.1
          (describe-observe env tool ref s ∙ (e ∙ sym (describes ref w)))
    agrees ((env, calling tool ref args) ∷ rs) s w h e =
        let r = call_tool sha format_int marshal cfg inner env tool ref args s in
        let q = inner.call_tool ref args w in
        elim (Bool-cases (is_read_only tool)) [
          | inl evident ↦
              let still = h.0 evident in
              let later = agrees rs r.1 q.1 h.1 (
                read-observe env tool ref args s evident still
                ∙ (e ∙ sym (acts ref args w ∙ still (observe w)))) in
              rw evident later
          | inr no_evidence ↦
              let live = write_is_live env s tool ref args no_evidence in
              let later = agrees rs r.1 q.1 h.1 (
                ap observe live.1
                ∙ (acts ref args s.world ∙ (ap (effect ref args) e ∙ sym (acts ref args w)))) in
              let same : r.0 ≡ q.0 =
                live.0
                ∙ (replies ref args s.world ∙ (ap (reply ref args) e ∙ sym (replies ref args w))) in
              rw no_evidence (cc (same, later.0), later.1)
        ]

    -- The cache takes away no side effect, and keeps no answer of a call that may have one: over any
    -- session of findTool, describeTool and callTool requests, from any state of the cache, what is
    -- observed of the world is in the end what the same requests to the wrapped broker alone would
    -- have made of it, and the calls without read-only evidence (a write tool, an unknown tool, a
    -- store error) have got the same answers. This holds if finding and describing do not change
    -- what is observed, a call's effect and answer depend on nothing else, and a tool that the
    -- catalog marks as read-only has no effect on it.
    pub session_effects :
        (rs : List (Env × Request)) (s : State W F D)
        → All (HintHolds effect) rs
        → ((through_cache rs s).0 ≡ (directly inner rs s.world).0)
          × (observe (through_cache rs s).1.world ≡ observe (directly inner rs s.world).1)
    session_effects rs s h = agrees rs s s.world h refl
