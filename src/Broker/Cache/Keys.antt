-- ===== src/Broker/Cache/Keys.antt =====
-- `cacheKey` separates its parts by zero bytes: which requests can share an entry.
use ozy.Broker.Cache.{key_bytes, cache_key}
use ozy.Common.{Str, All, ◌≡◌, refl, ◌≢◌, List, [], ◌∷◌, ◌++◌, arith}

abbrev NoNul : Str → Type 0
NoNul = All (λ c. c ≢ 0)

append_nul-injective :
    (p q r t : Str) → NoNul p → NoNul q → p ++ (0 ∷ r) ≡ q ++ (0 ∷ t) → (p ≡ q) × (r ≡ t)
append_nul-injective [] [] r t h k e = ground arith
append_nul-injective [] (y ∷ q) r t h k e = absurd (k.0 (ground arith))
append_nul-injective (x ∷ p) [] r t h k e = absurd (h.0 (ground arith))
append_nul-injective (x ∷ p) (y ∷ q) r t h k e =
    ground (arith, append_nul-injective p q r t h.1 k.1)

key_bytes-injective :
    (ps qs : List Str) → All NoNul ps → All NoNul qs → key_bytes ps ≡ key_bytes qs → ps ≡ qs
unfolding key_bytes
key_bytes-injective [] [] h k e = refl
key_bytes-injective [] ([] ∷ qs) h k e = cc
key_bytes-injective [] ((y ∷ q) ∷ qs) h k e = cc
key_bytes-injective ([] ∷ ps) [] h k e = cc
key_bytes-injective ((x ∷ p) ∷ ps) [] h k e = cc
key_bytes-injective (p ∷ ps) (q ∷ qs) h k e =
    let step = append_nul-injective p q (key_bytes ps) (key_bytes qs) h.0 k.0 e in
    cc (step.0, key_bytes-injective ps qs h.1 k.1 step.1)

-- Two requests whose parts hold no zero byte get the same cache key only if all their parts are
-- equal, unless their texts collide under the hash: a result cached for one operation, query, schema
-- hash, generation or argument text is never found under another.
cache_key-injective :
    (sha : Str → Str) (ps qs : List Str)
    → (sha (key_bytes ps) ≡ sha (key_bytes qs) → key_bytes ps ≡ key_bytes qs)
    → All NoNul ps
    → All NoNul qs
    → cache_key sha ps ≡ cache_key sha qs
    → ps ≡ qs
unfolding cache_key
cache_key-injective sha ps qs apart h k e = key_bytes-injective ps qs h k (apart e)
