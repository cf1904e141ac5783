-- ===== src/Sidecar/Client/Degrades.antt =====
-- internal/sidecar/semantic.go: the adapter never asks again once a query has failed.
use ozy.Sidecar.{Hit}
use ozy.Sidecar.Client.{
  Caller, Reply, reply, failed, query, adapter_available, adapter_query, settled,
}
use ozy.Common.{
  if◌then◌else◌, sym, ap, ◌∙◌, Str, ℕ, ◌≡◌, refl, Bool, true, false, Option, none, List, [], ◌∷◌,
  map,
}

module _ (Score : Type 0) {W : Type 0} (c : Caller Score W) where
  abbrev pub Query : Type 0
  Query = Str × ℕ × Str

  abbrev pub Answer : Type 0
  Answer = Option (List (Hit Score))

  -- queries one after the other
  abbrev pub ask : List Query → Bool × W → (Bool × W) × List Answer
  ask [] s = (s, [])
  ask ((text, k, server_id) ∷ qs) s =
      let (s', hits) = adapter_query Score c text k server_id s in
      let (s'', answers) = ask qs s' in (s'', hits ∷ answers)

  off :
      (text : Str) (k : ℕ) (server_id : Str) (w : W)
      → adapter_query Score c text k server_id (false, w) ≡ ((false, w), none)
  unfolding adapter_query adapter_available
  off text k server_id w = refl

  silent : (qs : List Query) (w : W) → ask qs (false, w) ≡ ((false, w), map (λ q. none) qs)
  silent [] w = refl
  silent ((text, k, server_id) ∷ qs) w = rw (off text k server_id w, silent qs w) refl

  settled-none :
      (r : W × Reply Score (List (Hit Score)))
      → (settled Score c true r).1 ≡ none
      → (settled Score c true r).0.0 ≡ false
  settled-none (w, reply hits) h = cc
  settled-none (w, failed e) h = refl

  asked :
      (text : Str) (k : ℕ) (server_id : Str) (w : W)
      → c.available w ≡ true
      → adapter_query Score c text k server_id (true, w)
        ≡ settled Score c true (query Score c text k server_id w)
  unfolding adapter_query adapter_available
  asked text k server_id w a =
      ap
        (λ b.
          if b then settled Score c true (query Score c text k server_id w) else ((true, w), none))
        a

  flag_off :
      (text : Str) (k : ℕ) (server_id : Str) (sticky : Bool) (w : W)
      → adapter_available Score c sticky w ≡ true
      → (adapter_query Score c text k server_id (sticky, w)).1 ≡ none
      → (adapter_query Score c text k server_id (sticky, w)).0.0 ≡ false
  unfolding adapter_query adapter_available
  flag_off text k server_id false w a h = cc
  flag_off text k server_id true w a h =
      let e = asked text k server_id w a in
      ap (λ t. t.0.0) e
      ∙ settled-none (query Score c text k server_id w) (sym (ap (λ t. t.1) e) ∙ h)

  silent_after :
      (s : Bool × W) (qs : List Query)
      → s.0 ≡ false
      → (adapter_available Score c s.0 s.1 ≡ false) × (ask qs s ≡ (s, map (λ q. none) qs))
  unfolding adapter_available
  silent_after (sticky, w) qs h = (rw h refl, rw h (silent qs w))

  -- Once a query of an available adapter has come back without hits, the adapter is not available,
  -- and every later query gets no hits and does not reach the client.
  pub adapter_degrades :
      (text : Str) (k : ℕ) (server_id : Str) (sticky : Bool) (w : W) (qs : List Query)
      → adapter_available Score c sticky w ≡ true
      → (adapter_query Score c text k server_id (sticky, w)).1 ≡ none
      → (adapter_available Score c
            (adapter_query Score c text k server_id (sticky, w)).0.0
            (adapter_query Score c text k server_id (sticky, w)).0.1
          ≡ false)
        × (ask qs (adapter_query Score c text k server_id (sticky, w)).0
            ≡ ((adapter_query Score c text k server_id (sticky, w)).0, map (λ q. none) qs))
  adapter_degrades text k server_id sticky w qs a h =
      silent_after _ qs (flag_off text k server_id sticky w a h)
