-- ===== src/Config/Defaults.antt =====
-- The defaults of an accepted configuration, and of one server entry.
use ozy.Config.{
  Config, RawServerConfig, server_of_raw, discovery_timeout, invocation_timeout,
  vector_backend_turbovec, get_or, default_cache_ttl_seconds, default_cache_max_entries,
  default_discovery_timeout_millis, default_call_timeout_millis,
}
use ozy.Config.Rules.{Sections, or_default, or_number, apply_defaults, validate}
use ozy.Config.WellFormed.{WellFormed, validate-WellFormed}
use ozy.Common.{
  inr, inl, not, ◌||◌, ◌⊎◌, Bool, is_some, Option, none, some, pos, if◌then◌else◌, Str, str_eq,
  str_eq_iff, ℤ, is_positive, is_negative, nat_of, ℕ, zero, suc, ◌<◌, ◌≡◌, refl, ◌≢◌, true, false,
  none, [], ◌∷◌, arith, pos, negsuc,
}

positive_or_number : (d : ℕ) (n : ℤ) → 0 < d → is_negative n ≡ false → 0 < nat_of (or_number d n)
positive_or_number d (pos zero) h k = h
positive_or_number d (pos (suc n)) h k = omega arith
positive_or_number d (negsuc n) h k = cc

or_default-blank : (s : Str) → or_default vector_backend_turbovec s ≢ []
unfolding str_eq
or_default-blank [] q = grind arith
or_default-blank (x ∷ s) q = grind arith

on_unless : (present b : Bool) → (present ≡ true) ⊎ (b || not present ≡ true)
on_unless true b = inl refl
on_unless false true = inr refl
on_unless false false = inr refl

-- After the defaults a validated configuration has a positive time to live and a positive bound
-- for the result cache, a known vector backend, and semantic search, the cache and the breadcrumb
-- are on where their sections are missing from the document.
pub defaults_effective :
    (p : Sections) (c : Config)
    → validate c ≡ none
    → (0 < nat_of (apply_defaults p c).cache.ttl_seconds)
      × (0 < nat_of (apply_defaults p c).cache.max_entries)
      × WellFormed (apply_defaults p c)
      × ((apply_defaults p c).embedding.vector_backend ≢ [])
      × ((p.search ≡ true) ⊎ ((apply_defaults p c).search.semantic.enabled ≡ true))
      × ((p.cache ≡ true) ⊎ ((apply_defaults p c).cache.enabled ≡ true))
      × ((p.surface ≡ true) ⊎ ((apply_defaults p c).capability_breadcrumb ≡ true))
unfolding apply_defaults
defaults_effective p c h =
    let w = (validate-WellFormed c).0 h in
    (
      positive_or_number default_cache_ttl_seconds c.cache.ttl_seconds (omega arith) w.ttl,
      positive_or_number default_cache_max_entries c.cache.max_entries (omega arith) w.entries,
      record {
        servers = w.servers;
        backend = ground (arith, w.backend, str_eq_iff c.embedding.vector_backend []);
        ttl = or_number-not_negative _ _ w.ttl;
        entries = or_number-not_negative _ _ w.entries;
      },
      or_default-blank c.embedding.vector_backend,
      on_unless p.search c.search.semantic.enabled,
      on_unless p.cache c.cache.enabled,
      on_unless p.surface c.capability_breadcrumb,
    )
  where
    or_number-not_negative :
        (d : ℕ) (n : ℤ) → is_negative n ≡ false → is_negative (or_number d n) ≡ false
    or_number-not_negative d (pos zero) k = refl
    or_number-not_negative d (pos (suc n)) k = refl
    or_number-not_negative d (negsuc n) k = k

positive_budget : (d : ℕ) (n : ℤ) → 0 < d → 0 < (if is_positive n then nat_of n else d)
positive_budget d (pos zero) h = h
positive_budget d (pos (suc n)) h = omega arith
positive_budget d (negsuc n) h = h

given {ℓ} : {A : Type ℓ} (o : Option A) (P : Option A → Type 0) → P none → (is_some o ≡ true) ⊎ P o
given none P h = inr h
given (some a) P h = inl refl

-- Whatever a server entry says, both of its budgets are positive; an entry that omits the fields is
-- enabled and has the documented budgets.
timeouts_positive :
    (raw : RawServerConfig)
    → (0 < discovery_timeout (server_of_raw raw))
      × (0 < invocation_timeout (server_of_raw raw))
      × ((is_some raw.enabled ≡ true) ⊎ ((server_of_raw raw).enabled ≡ true))
      × ((is_some raw.timeout ≡ true)
          ⊎ (discovery_timeout (server_of_raw raw) ≡ default_discovery_timeout_millis))
      × ((is_some raw.call_timeout ≡ true)
          ⊎ (invocation_timeout (server_of_raw raw) ≡ default_call_timeout_millis))
unfolding discovery_timeout invocation_timeout server_of_raw
timeouts_positive raw = (
  positive_budget default_discovery_timeout_millis (get_or _ raw.timeout) (omega arith),
  positive_budget default_call_timeout_millis (get_or _ raw.call_timeout) (omega arith),
  given raw.enabled (λ o. get_or true o ≡ true) refl,
  given raw.timeout
      (λ o. budget default_discovery_timeout_millis o ≡ default_discovery_timeout_millis) refl,
  given raw.call_timeout (λ o. budget default_call_timeout_millis o ≡ default_call_timeout_millis)
      refl,
)
  where
    budget : ℕ → Option ℤ → ℕ
    budget d o = if is_positive (get_or (pos d) o) then nat_of (get_or (pos d) o) else d
