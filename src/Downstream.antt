-- ===== src/Downstream.antt =====
-- internal/downstream/connector.go: the result of a connection, and the masking of secrets in what
-- it reports. (internal/index/index.go holds a copy of `scrub` and `secretValues`.)
pub mod Scrub
pub mod Connect
mod Tests
use ozy.Contract.{Error}
use ozy.Config.{ServerConfig}
use ozy.Common.{
  if◌then◌else◌, Str, codes, str_eq, is_prefix, contains, length, ℕ, zero, suc, ◌-◌, Bool, ◌||◌,
  Option, List, [], ◌∷◌, ◌++◌, map,
}

-- `Result`, over the type of open sessions
pub record Connection (S : Type 0) : Type 0 where
  pub server_id : Str
  pub session : Option S
  pub error : Option Error
  pub skipped : Bool

abbrev pub mask : Str
mask = codes "****"

-- `strings.ReplaceAll(msg, old, "****")`: `skip` bytes of a match are still to be passed over
unfoldable pub replace_from : Str → ℕ → Str → Str
replace_from old skip [] = []
replace_from old (suc skip) (c ∷ msg) = replace_from old skip msg
replace_from old zero (c ∷ msg) =
    let matched = replace_from old (length old - 1) msg in
    let kept = replace_from old zero msg in
    if is_prefix old (c ∷ msg) then mask ++ matched else c ∷ kept

unfoldable pub replace_all : Str → Str → Str
replace_all old msg = replace_from old 0 msg

-- the headers' values, then the environment's
unfoldable pub secret_values : ServerConfig → List Str
secret_values server = map (λ e. e.1) server.headers ++ map (λ e. e.1) server.environment

-- `secret == "" || strings.Contains(secret, "{env:")`
abbrev pub left_alone : Str → Bool
left_alone secret = str_eq secret [] || contains secret (codes "{env:")

-- the loop of `scrub`
unfoldable pub scrub_all : List Str → Str → Str
scrub_all [] msg = msg
scrub_all (secret ∷ secrets) msg =
    scrub_all secrets (if left_alone secret then msg else replace_all secret msg)

unfoldable pub scrub : Str → ServerConfig → Str
scrub msg server = scrub_all (secret_values server) msg
