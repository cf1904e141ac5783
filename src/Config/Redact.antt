-- ===== src/Config/Redact.antt =====
-- internal/config/redact.go: the view of the configuration that is displayed.
use mathlib.Core.Path.{subst}
use ozy.Config.{Config, ServerConfig}
use ozy.Common.{
  if◌then◌else◌, Bool-cases, Str, codes, str_eq, str_eq_iff, is_prefix, contains, All, Map, keys,
  ◌≡◌, refl, ap, ◌↔◌, ◌⊎◌, inl, inr, true, [], ◌∷◌, arith,
}

abbrev pub redacted_mask : Str
redacted_mask = codes "****"

unfoldable pub redact_value : Str → Str
redact_value v = if str_eq v [] then [] else if contains v (codes "{env:") then v else redacted_mask

-- `for k, v := range m { m[k] = redactValue(v) }`
unfoldable pub redact_map : Map Str → Map Str
redact_map [] = []
redact_map ((k, v) ∷ m) = (k, redact_value v) ∷ redact_map m

unfoldable pub redact_server : ServerConfig → ServerConfig
redact_server s = record s {
  headers = redact_map s.headers;
  environment = redact_map s.environment;
}

unfoldable pub redact_servers : Map ServerConfig → Map ServerConfig
redact_servers [] = []
redact_servers ((id, s) ∷ m) = (id, redact_server s) ∷ redact_servers m

-- `Redacted`, of a configuration that was loaded
unfoldable pub redacted : Config → Config
redacted c = record c { mcp = redact_servers c.mcp }

-- A displayed value gives nothing away: it is empty, the mask, or a value with an environment
-- reference in it.
abbrev pub Shown : Str → Type 0
Shown v = (v ≡ []) ⊎ (v ≡ redacted_mask) ⊎ (contains v (codes "{env:") ≡ true)

abbrev ServerShown : ServerConfig → Type 0
ServerShown s = All (λ e. Shown e.1) s.headers × All (λ e. Shown e.1) s.environment

redact_value-Shown : (v : Str) → Shown (redact_value v)
unfolding redact_value
redact_value-Shown v = elim (Bool-cases (str_eq v [])) [
  | inl e ↦ rw e (inl refl)
  | inr n ↦ elim (Bool-cases (contains v (codes "{env:"))) [
    | inl r ↦ rw n (rw r (inr (inr r)))
    | inr m ↦ rw n (rw m (inr (inl refl)))
  ]
]

redact_map-Shown : (m : Map Str) → All (λ e. Shown e.1) (redact_map m)
unfolding redact_map
redact_map-Shown [] = tt
redact_map-Shown ((k, v) ∷ m) = (redact_value-Shown v, redact_map-Shown m)

redact_servers-Shown : (m : Map ServerConfig) → All (λ e. ServerShown e.1) (redact_servers m)
unfolding redact_servers redact_server
redact_servers-Shown [] = tt
redact_servers-Shown ((id, s) ∷ m) =
    ((redact_map-Shown s.headers, redact_map-Shown s.environment), redact_servers-Shown m)

keys-redact_servers : (m : Map ServerConfig) → keys (redact_servers m) ≡ keys m
unfolding redact_servers
keys-redact_servers [] = refl
keys-redact_servers ((id, s) ∷ m) = ap (◌∷◌ id) (keys-redact_servers m)

-- Every header and environment value of every server in the redacted view is empty, the mask, or
-- holds an environment reference; the servers keep their names.
redacted-Shown :
    (c : Config)
    → All (λ e. ServerShown e.1) (redacted c).mcp × (keys (redacted c).mcp ≡ keys c.mcp)
unfolding redacted
redacted-Shown c = (redact_servers-Shown c.mcp, keys-redact_servers c.mcp)

-- The view shows a value in full exactly when it is empty, the mask itself, or holds `{env:`
-- anywhere: a literal secret that stands beside a reference is displayed.
pub redact_value-id_iff : (v : Str) → (redact_value v ≡ v) ↔ Shown v
unfolding redact_value str_eq contains is_prefix
redact_value-id_iff v = (λ e. subst Shown e (redact_value-Shown v), back)
  where
    back : Shown v → redact_value v ≡ v
    back (inl e) = rw e refl
    back (inr (inl e)) = rw e refl
    back (inr (inr r)) = ground (arith, str_eq_iff v [])
