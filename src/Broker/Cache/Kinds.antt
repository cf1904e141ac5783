-- ===== src/Broker/Cache/Kinds.antt =====
-- No type assertion on a cached value fails.
use mathlib.Core.Path.{subst₂}
use ozy.Json.{Value}
use ozy.Catalog.{Time, Tool, Reply, ok}
use ozy.Broker.{Answer, done, panicked}
use ozy.Broker.Cache.{
  Cached, found, described, called, Entry, Limits, Env, get, prune, key_at, drop_one, evict,
  make_room, put, remember, Inner, State, through, delegate, generation, find_tool, describe_tool,
  call_tool, key_bytes, cache_key, as_found, as_described, as_called,
}
use ozy.Common.{
  ltb, leb, Bool-cases, Option-cases, Str, codes, str_eq, str_eq_iff, length, All, Map, lookup,
  insert, delete, ℕ, ◌≡◌, refl, ◌≢◌, inl, inr, Bool, ◌&&◌, Option, some, [], ◌∷◌, arith,
}

-- The first byte of a key's text tells which operation made the entry.
abbrev kind_byte : {F D : Type 0} → Cached F D → ℕ
kind_byte (found _) = b'f'
kind_byte (described _) = b'd'
kind_byte (called _) = b'c'

-- Every key is the hash of a text that was met, and the text's first byte tells the kind of the result.
abbrev pub Kinded : {F D : Type 0} → (Str → Str) → (Str → Type 0) → Map (Entry F D) → Type 0
Kinded sha met = All (λ kv.
    (rest : Str) × met (kind_byte kv.1.value ∷ rest) × (kv.0 ≡ sha (kind_byte kv.1.value ∷ rest)))

-- The hash tells the texts that were met apart.
abbrev pub NoCollision : (Str → Str) → (Str → Type 0) → Type 0
NoCollision sha met = (x y : Str) → met x → met y → sha x ≡ sha y → x ≡ y

module _ {F D : Type 0} (P : Str × Entry F D → Type 0) where
  delete-All : (k : Str) (es : Map (Entry F D)) → All P es → All P (delete k es)
  unfolding delete
  delete-All k [] h = tt
  delete-All k ((j, e) ∷ es) h = elim (Bool-cases (str_eq j k)) [
    | inl t ↦ rw t (delete-All k es h.1)
    | inr f ↦ rw f (h.0, delete-All k es h.1)
  ]

  insert-All :
      (k : Str) (e : Entry F D) (es : Map (Entry F D)) → P (k, e) → All P es → All P (insert k e es)
  unfolding insert
  insert-All k e [] p h = (p, tt)
  insert-All k e ((j, f) ∷ es) p h = elim (Bool-cases (str_eq j k)) [
    | inl t ↦ rw t (p, h.1)
    | inr f ↦ rw f (h.0, insert-All k e es p h.1)
  ]

  prune-All : (now : Time) (es : Map (Entry F D)) → All P es → All P (prune now es)
  unfolding prune
  prune-All now [] h = tt
  prune-All now ((j, e) ∷ es) h = elim (Bool-cases (ltb e.expires now)) [
    | inl t ↦ rw t (prune-All now es h.1)
    | inr f ↦ rw f (h.0, prune-All now es h.1)
  ]

  drop_one-All : (i : ℕ) (es : Map (Entry F D)) → All P es → All P (drop_one i es)
  unfolding drop_one
  drop_one-All i es h = elim (Option-cases (key_at i es)) [
    | inl n ↦ rw (n, drop_one) h
    | inr (k, s) ↦ rw (s, drop_one) (delete-All k es h)
  ]

  evict-All : (env : Env) (max : ℕ) (es : Map (Entry F D)) → All P es → All P (evict env max es)
  unfolding evict
  evict-All env max es h = elim (Bool-cases (ltb (length (prune env.at_evict es)) max)) [
    | inl t ↦ rw t (prune-All env.at_evict es h)
    | inr f ↦ rw f (drop_one-All env.pick (prune env.at_evict es) (prune-All env.at_evict es h))
  ]

  make_room-All :
      (env : Env) (cfg : Limits) (es : Map (Entry F D)) → All P es → All P (make_room env cfg es)
  unfolding make_room
  make_room-All env cfg es h = elim (Bool-cases (ltb 0 cfg.max && leb cfg.max (length es))) [
    | inl t ↦ rw t (evict-All env cfg.max es h)
    | inr f ↦ rw f h
  ]

  lookup-All :
      (k : Str) (e : Entry F D) (es : Map (Entry F D)) → lookup k es ≡ some e → All P es → P (k, e)
  unfolding lookup
  lookup-All k e [] m h = ground arith
  lookup-All k e ((j, f) ∷ es) m h = elim (Bool-cases (str_eq j k)) [
    | inl t ↦
        let here : f ≡ e = ground arith in
        let same : j ≡ k = (str_eq_iff j k).0 t in subst₂ (λ x y. P (x, y)) same here h.0
    | inr n ↦ lookup-All k e es (rw n at m) h.1
  ]

  get-All : (now : Time) (k : Str) (es : Map (Entry F D)) → All P es → All P (get now k es).1
  unfolding get
  get-All now k es h = elim (Option-cases (lookup k es)) [
    | inl n ↦ rw (n, get) h
    | inr (e, m) ↦ elim (Bool-cases (ltb e.expires now)) [
      | inl t ↦ rw (m, get) (rw t (delete-All k es h))
      | inr f ↦ rw (m, get) (rw f h)
    ]
  ]

-- An entry that a lookup serves stands under the key.
lookup_of_get :
    {F D : Type 0} (now : Time) (k : Str) (e : Entry F D) (es : Map (Entry F D))
    → (get now k es).0 ≡ some e
    → lookup k es ≡ some e
unfolding get
lookup_of_get now k e es h = ground arith

module _ {W F D A : Type 0} (sha : Str → Str) (met : Str → Type 0) (cfg : Limits) (env : Env)
    (b : ℕ) (rest : Str) (serve : Entry F D → Answer A) (wrap : A → Cached F D)
    (run : W → Answer A × W) (apart : NoCollision sha met) (asked : met (b ∷ rest))
    (wraps : (a : A) → kind_byte (wrap a) ≡ b)
    (serves : (e : Entry F D) → kind_byte e.value ≡ b → serve e ≢ panicked)
    (runs : (w : W) → (run w).0 ≢ panicked) (s : State W F D) (h : Kinded sha met s.entries) where
  abbrev key : Str
  key = sha (b ∷ rest)

  remember-Kinded :
      (r : Answer A) (es : Map (Entry F D))
      → Kinded sha met es
      → Kinded sha met (remember env cfg key wrap r es)
  unfolding remember put
  remember-Kinded (done a) es k =
      insert-All _ key _ _ (rest, rw (wraps a) asked, rw (wraps a) refl)
        (make_room-All _ env cfg es k)
  remember-Kinded _ es k = k

  through-Kinded :
      ((through env cfg key serve wrap run s).0 ≢ panicked)
      × Kinded sha met (through env cfg key serve wrap run s).1.entries
  unfolding through
  through-Kinded =
      let left = get-All _ env.at_get key s.entries h in
      elim (Option-cases (get env.at_get key s.entries).0) [
        | inl n ↦ rw (n, through) (runs s.world, remember-Kinded _ _ left)
        | inr (e, m) ↦
            let at = lookup-All _ key e s.entries (lookup_of_get env.at_get key e s.entries m) h in
            rw (m, through) (serves e (cc (apart _ _ asked at.1 at.2)), left)
      ]

found_serves :
    {F D : Type 0} (e : Entry F D) → kind_byte e.value ≡ b'f' → as_found e.value ≢ panicked
unfolding as_found
found_serves e h = ground arith

described_serves :
    {F D : Type 0} (e : Entry F D) → kind_byte e.value ≡ b'd' → as_described e.value ≢ panicked
unfolding as_described
described_serves e h = ground arith

called_serves :
    {F D : Type 0} (now : Time) (e : Entry F D)
    → kind_byte e.value ≡ b'c'
    → as_called now e.produced e.value ≢ panicked
unfolding as_called
called_serves now e h = ground arith

-- The text of the key of each operation is one that was met.
abbrev pub AskedFind : (ℕ → Str) → (Str → Type 0) → Reply (Time × Bool) → Str → Type 0
AskedFind format_int met last query =
    (gen : Str)
    → generation format_int last ≡ some gen
    → met (key_bytes (codes "find" ∷ query ∷ gen ∷ []))

abbrev pub AskedDescribe : (Str → Type 0) → Reply (Option Tool) → Str → Type 0
AskedDescribe met (ok (some t)) ref = met (key_bytes (codes "describe" ∷ ref ∷ t.schema_hash ∷ []))
AskedDescribe met _ ref = Unit

abbrev pub AskedCall :
    (Map Value → Option Str) → (Str → Type 0) → Reply (Option Tool) → Str → Map Value → Type 0
AskedCall marshal met (ok (some t)) ref args =
    (text : Str)
    → marshal args ≡ some text
    → met (key_bytes (codes "call" ∷ ref ∷ t.schema_hash ∷ text ∷ []))
AskedCall marshal met _ ref args = Unit

-- The wrapped broker does not panic.
pub record Sound {W F D : Type 0} (inner : Inner W F D) : Type 0 where
  pub find_sound : (q : Str) (w : W) → (inner.find_tool q w).0 ≢ panicked
  pub describe_sound : (r : Str) (w : W) → (inner.describe_tool r w).0 ≢ panicked
  pub call_sound : (r : Str) (args : Map Value) (w : W) → (inner.call_tool r args w).0 ≢ panicked

module _ {W F D : Type 0} (sha : Str → Str) (format_int : ℕ → Str)
    (marshal : Map Value → Option Str) (cfg : Limits) (inner : Inner W F D) (met : Str → Type 0)
    (apart : NoCollision sha met) (sound : Sound inner) (env : Env) (s : State W F D)
    (h : Kinded sha met s.entries) where
  find_tool-Kinded :
      (last : Reply (Time × Bool)) (query : Str)
      → AskedFind format_int met last query
      → ((find_tool sha format_int marshal cfg inner env last query s).0 ≢ panicked)
        × Kinded sha met (find_tool sha format_int marshal cfg inner env last query s).1.entries
  unfolding find_tool delegate cache_key key_bytes
  find_tool-Kinded last query asked = elim (Option-cases (generation format_int last)) [
    | inl n ↦ rw (n, find_tool) (sound.find_sound query s.world, h)
    | inr (gen, e) ↦
        rw (e, find_tool)
          (through-Kinded sha met cfg env b'f' _ (λ e. as_found e.value) found
            (inner.find_tool query) apart (asked gen e) (λ a. refl) found_serves
            (sound.find_sound query) s h)
  ]

  describe_tool-Kinded :
      (tool : Reply (Option Tool)) (ref : Str)
      → AskedDescribe met tool ref
      → ((describe_tool sha format_int marshal cfg inner env tool ref s).0 ≢ panicked)
        × Kinded sha met (describe_tool sha format_int marshal cfg inner env tool ref s).1.entries
  unfolding describe_tool delegate cache_key key_bytes
  describe_tool-Kinded (ok (some t)) ref asked =
      through-Kinded sha met cfg env b'd' _ (λ e. as_described e.value) described
        (inner.describe_tool ref) apart asked (λ a. refl) described_serves
        (sound.describe_sound ref) s h
  describe_tool-Kinded _ ref asked = (sound.describe_sound ref s.world, h)

  call_tool-Kinded :
      (tool : Reply (Option Tool)) (ref : Str) (args : Map Value)
      → AskedCall marshal met tool ref args
      → ((call_tool sha format_int marshal cfg inner env tool ref args s).0 ≢ panicked)
        × Kinded sha met (call_tool sha format_int marshal cfg inner env tool ref args s).1.entries
  unfolding call_tool delegate cache_key key_bytes
  call_tool-Kinded (ok (some t)) ref args asked = elim (Bool-cases t.read_only) [
    | inr w ↦ rw w (sound.call_sound ref args s.world, h)
    | inl r ↦ rw r (elim (Option-cases (marshal args)) [
      | inl n ↦ rw (n, call_tool) (sound.call_sound ref args s.world, h)
      | inr (a, e) ↦
          rw (e, call_tool)
            (through-Kinded sha met cfg env b'c' _ (λ e. as_called env.at_serve e.produced e.value)
              called (inner.call_tool ref args) apart (asked a e) (λ a. refl)
              (called_serves env.at_serve) (sound.call_sound ref args) s h)
    ])
  ]
  call_tool-Kinded _ ref args asked = (sound.call_sound ref args s.world, h)

  -- No operation panics on a cached value, if every entry's key is the hash of a text that was met
  -- and tells the kind of result that the entry holds, and the entries stay so. The texts that the
  -- operations hash now are among those met, the hash has no collision among those, and the wrapped
  -- broker does not panic itself.
  pub no_panic :
      (last : Reply (Time × Bool)) (tool : Reply (Option Tool)) (ref : Str) (args : Map Value)
      → AskedFind format_int met last ref
      → AskedDescribe met tool ref
      → AskedCall marshal met tool ref args
      → (((find_tool sha format_int marshal cfg inner env last ref s).0 ≢ panicked)
          × Kinded sha met (find_tool sha format_int marshal cfg inner env last ref s).1.entries)
        × (((describe_tool sha format_int marshal cfg inner env tool ref s).0 ≢ panicked)
            × Kinded sha met
                (describe_tool sha format_int marshal cfg inner env tool ref s).1.entries)
        × (((call_tool sha format_int marshal cfg inner env tool ref args s).0 ≢ panicked)
            × Kinded sha met
                (call_tool sha format_int marshal cfg inner env tool ref args s).1.entries)
  no_panic last tool ref args f d c = (
    find_tool-Kinded last ref f,
    describe_tool-Kinded tool ref d,
    call_tool-Kinded tool ref args c,
  )
