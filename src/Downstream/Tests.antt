-- ===== src/Downstream/Tests.antt =====
-- The masking of the token of one server in an error text, and the connection to one server.
use ozy.Config.{ServerConfig, zero_server}
use ozy.Downstream.{secret_values, left_alone, scrub}
use ozy.Downstream.Scrub.{NoStar, scrub_hides}
use ozy.Downstream.Connect.{Slot, connect_all, take_place, first, running, Run, begin, next}
use ozy.Downstream.Connect.Bounds.{Bounded, AllFinished, Next, steps, connect_all-Bounded}
use ozy.Common.{
  Str, codes, str_eq, has, is_prefix, contains, length, sort_by, sort_strings, Map, keys, lookup, ℕ,
  ◌*◌, ◌≤◌, ◌≡◌, refl, ◌⊎◌, true, false, List, [], ◌∷◌, ◌++◌, map, arith,
}

abbrev with_token : ServerConfig
with_token = record zero_server { environment = (codes "TOKEN", codes "s3cret") ∷ [] }

known : has (secret_values with_token) (codes "s3cret") ≡ true
unfolding secret_values str_eq
known = refl

masked : left_alone (codes "s3cret") ≡ false
unfolding str_eq contains is_prefix
masked = refl

plain : NoStar (codes "s3cret")
plain = ground arith

scrub_hides_example : contains (scrub (codes "bad s3cret!") with_token) (codes "s3cret") ≡ false
scrub_hides_example =
    scrub_hides (codes "bad s3cret!") (codes "s3cret") with_token known masked plain

abbrev one_server : Map ServerConfig
one_server = (codes "files", record zero_server { enabled = true }) ∷ []

abbrev quoted : Str → Str
quoted t = codes "'" ++ (t ++ codes "'")

abbrev moved : List (Slot quoted ℕ) → List (Slot quoted ℕ)
moved [] = []
moved (a ∷ rest) = record a { phase = running } ∷ rest

taken_run :
    Run quoted ℕ 2 (connect_all quoted ℕ one_server) (moved (connect_all quoted ℕ one_server)) 1
unfolding connect_all lookup str_eq sort_by
taken_run = next begin (first (take_place refl (omega arith)))

connect_all-Bounded_example :
    Bounded quoted ℕ 2
      (connect_all quoted ℕ one_server)
      (moved (connect_all quoted ℕ one_server))
      1
      (steps quoted ℕ taken_run)
    × (steps quoted ℕ taken_run ≤ 2 * length one_server)
    × (AllFinished quoted ℕ (moved (connect_all quoted ℕ one_server))
        ⊎ Next quoted ℕ 2 (moved (connect_all quoted ℕ one_server)) 1)
    × (map (λ x. x.id) (connect_all quoted ℕ one_server) ≡ sort_strings (keys one_server))
connect_all-Bounded_example = connect_all-Bounded quoted ℕ 2 one_server (omega arith) taken_run
