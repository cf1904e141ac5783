-- ===== src/Config/Env/Tests.antt =====
-- internal/config/config.go: references in a header, and a configuration that is loaded.
use ozy.Config.Rules.{Sections}
use ozy.Config.Env.{substitute, substitute_from, ref_at}
use ozy.Config.Env.RoundTrip.{
  Part, plain, reference, IsPart, written, resolved, unset, substitute-written,
}
use ozy.Config.Load.{decoded, load, AllWellFormed, load-WellFormed}
use ozy.Config.Tests.{two_servers}
use ozy.Common.{
  is_prefix, if◌then◌else◌, Str, codes, str_eq, is_prefix, All, ◌≡◌, refl, false, Option, none,
  some, List, [], ◌∷◌, arith,
}

abbrev env : Str → Option Str
env name = if str_eq name (codes "TOKEN") then some (codes "s3cret") else none

abbrev bearer : List Part
bearer =
    plain (codes "Bearer ")
    ∷ reference (codes "TOKEN")
    ∷ plain (codes "-")
    ∷ reference (codes "USER_1")
    ∷ []

bearer-IsPart : All IsPart bearer
bearer-IsPart = ground arith

substitute-written_example :
    substitute env (written bearer) ≡ (resolved env bearer, unset env bearer)
substitute-written_example = substitute-written env bearer bearer-IsPart

bearer_resolved :
    substitute env (codes "Bearer {env:TOKEN}-{env:USER_1}")
    ≡ (codes "Bearer s3cret-{env:USER_1}", codes "USER_1" ∷ [])
unfolding substitute substitute_from ref_at is_prefix str_eq
bearer_resolved = refl

abbrev nothing_present : Sections
nothing_present = record { search = false; cache = false; surface = false }

load-WellFormed_example :
    AllWellFormed (load env (codes "ozy.jsonc") (decoded nothing_present two_servers))
load-WellFormed_example =
    load-WellFormed env (codes "ozy.jsonc") (decoded nothing_present two_servers)
