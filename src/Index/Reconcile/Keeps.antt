-- ===== src/Index/Reconcile/Keeps.antt =====
-- internal/index/index.go: what `reconcile` may do to the catalog.
use mathlib.Core.Path.{subst}
use ozy.Catalog.{ServerStatus, Tool, Reply, ok, fail}
use ozy.Config.{Config}
use ozy.Index.{Store, Summary}
use ozy.Index.Reconcile.{
  action_unlisted, already_degraded, Learned, in_config, degrade, Action, keep, remove, lower,
  action, to_delete, act, lower_all, deleted_with, delete_vanished, reconcile_tools, reconcile,
}
use ozy.Common.{
  sym, All-sort_by, str_leb, ◌∙◌, ap, sort_strings, All-map, str_eq, str_eq_iff, Option-cases,
  Bool-cases, All, inl, inr, ◌≢◌, lookup, if◌then◌else◌, if◌then◌else◌, Bool-cases, Option-cases,
  Str, str_eq, str_leb, str_eq_iff, has, All, All-map, All-sort_by, sort_strings, lookup, ◌≡◌, refl,
  sym, ap, ◌∙◌, ◌≢◌, ◌⊎◌, inl, inr, true, false, Option, none, some, List, [], ◌∷◌, arith,
}

-- A run has the authority to delete a tool: its server was listed and does not serve it, or was not
-- listed and is not in the configuration.
abbrev pub MayDelete : Option Config → Learned → Tool → Type 0
MayDelete cfg learned t =
    ((refs : List Str) × (lookup t.server_id learned.listed ≡ some refs)
      × (has refs t.tool_ref ≡ false))
    ⊎ ((lookup t.server_id learned.listed ≡ none) × (in_config cfg t.server_id ≡ false))

-- Some tool of a list satisfies a predicate.
abbrev pub Some : (Tool → Type 0) → List Tool → Type 0
Some P [] = ⊥
Some P (t ∷ ts) = P t ⊎ Some P ts

removes :
    (t : Tool) (refs : List Str)
    → (if has refs t.tool_ref then keep else remove) ≡ remove
    → has refs t.tool_ref ≡ false
removes t refs h = elim (Bool-cases (has refs t.tool_ref)) [ inl e ↦ grind arith | inr e ↦ e ]

unlisted_keeps : (o : Option ServerStatus) (t : Tool) → action_unlisted o t ≢ remove
unlisted_keeps none t h = grind arith
unlisted_keeps (some status) t h = elim (Bool-cases (already_degraded status t)) [
  | inl e ↦ grind arith
  | inr e ↦ grind arith
]

action_remove :
    (cfg : Option Config) (learned : Learned) (t : Tool)
    → action cfg learned t ≡ remove
    → MayDelete cfg learned t
unfolding action
action_remove cfg learned t h = elim (Option-cases (lookup t.server_id learned.listed)) [
  | inr (refs, e) ↦ inl (refs, e, removes t refs (rw (e, action) at h))
  | inl e ↦ elim (Bool-cases (in_config cfg t.server_id)) [
    | inr out ↦ inr (e, out)
    | inl present ↦ absurd (unlisted_keeps _ t (rw (e, action, present) at h))
  ]
]

Action-cases : (a : Action) → (a ≡ keep) ⊎ (a ≡ remove) ⊎ ((s : ServerStatus) × (a ≡ lower s))
Action-cases keep = inl refl
Action-cases remove = inr (inl refl)
Action-cases (lower s) = inr (inr (s, refl))

-- Every reference that `reconcile` deletes is that of a cataloged tool that the run has the
-- authority to delete: its server was listed and does not serve it, or was not listed and is not in
-- the configuration.
to_delete_allowed :
    (cfg : Option Config) (learned : Learned) (ts : List Tool) (ref : Str)
    → has (to_delete cfg learned ts) ref ≡ true
    → Some (λ t. (t.tool_ref ≡ ref) × MayDelete cfg learned t) ts
to_delete_allowed cfg learned [] ref h = grind arith
to_delete_allowed cfg learned (t ∷ ts) ref h = elim (Action-cases (action cfg learned t)) [
  | inl e ↦ inr (to_delete_allowed cfg learned ts ref (rw (e, has) at h))
  | inr (inr (s, e)) ↦ inr (to_delete_allowed cfg learned ts ref (rw (e, has) at h))
  | inr (inl e) ↦ elim (Bool-cases (str_eq t.tool_ref ref)) [
    | inl same ↦ inl ((str_eq_iff t.tool_ref ref).0 same, action_remove cfg learned t e)
    | inr other ↦ inr (to_delete_allowed cfg learned ts ref (rw (e, has, other) at h))
  ]
]

-- What the indexer relies on of a store: how an operation changes the tool that is found under a
-- reference. A write that fails may have taken effect or not.
pub record View {W : Type 0} (store : Store W) : Type 0 where
  pub find : Str → W → Option Tool
  pub put :
      (t : Tool) (ref : Str) (w : W)
      → (find ref (store.put_tool t w).1 ≡ find ref w)
        ⊎ ((t.tool_ref ≡ ref) × (find ref (store.put_tool t w).1 ≡ some t))
  pub delete :
      (refs : List Str) (ref : Str) (w : W)
      → has refs ref ≡ false
      → find ref (store.delete_tools refs w).1 ≡ find ref w
  pub listed :
      (ts : List Tool) (w : W) → store.tools w ≡ ok ts → All (λ t. find t.tool_ref w ≡ some t) ts

-- A tool as it was, or degraded to the status seen for its server in a configuration.
abbrev pub KeptAs : Learned → Tool → Tool → Type 0
KeptAs learned t found =
    (found ≡ t)
    ⊎ ((status : ServerStatus) × (lookup t.server_id learned.degraded ≡ some status)
        × (found ≡ degrade status t))

has-All :
    (refs : List Str) (ref : Str) → has refs ref ≡ false → All (λ r. str_eq r ref ≡ false) refs
has-All [] ref h = tt
has-All (r ∷ refs) ref h = ground (arith, has-All refs ref)

All-has :
    (refs : List Str) (ref : Str) → All (λ r. str_eq r ref ≡ false) refs → has refs ref ≡ false
All-has [] ref h = refl
All-has (r ∷ refs) ref h = ground (arith, All-has refs ref)

has-sort_strings :
    (refs : List Str) (ref : Str) → has refs ref ≡ false → has (sort_strings refs) ref ≡ false
has-sort_strings refs ref h =
    All-has (sort_strings refs) ref (All-sort_by _ str_leb refs (has-All refs ref h))

lowers :
    (o : Option ServerStatus) (t : Tool) (s : ServerStatus)
    → action_unlisted o t ≡ lower s
    → o ≡ some s
lowers none t s h = grind arith
lowers (some status) t s h = elim (Bool-cases (already_degraded status t)) [
  | inl e ↦ grind arith
  | inr e ↦ grind arith
]

action_lower :
    (cfg : Option Config) (learned : Learned) (t : Tool) (s : ServerStatus)
    → action cfg learned t ≡ lower s
    → lookup t.server_id learned.degraded ≡ some s
unfolding action
action_lower cfg learned t s h = elim (Option-cases (lookup t.server_id learned.listed)) [
  | inr (refs, e) ↦ elim (Bool-cases (has refs t.tool_ref)) [
    | inl f ↦ grind arith
    | inr f ↦ grind arith
  ]
  | inl e ↦ elim (Bool-cases (in_config cfg t.server_id)) [
    | inr out ↦ grind arith
    | inl present ↦ lowers _ t s (rw (e, action, present) at h)
  ]
]

module _ {W : Type 0} (store : Store W) (view : View store) (cfg : Option Config)
    (learned : Learned) (ref : Str) (t : Tool) where
  abbrev pub Kept : W → Type 0
  Kept w = (found : Tool) × (view.find ref w ≡ some found) × KeptAs learned t found

  act-Kept :
      (u : Tool) (a : Action) (s : Summary) (w : W)
      → action cfg learned u ≡ a
      → (u.tool_ref ≡ ref → u ≡ t)
      → Kept w
      → Kept (act store u a (s, w)).1
  act-Kept u keep s w e same k = k
  act-Kept u remove s w e same k = k
  act-Kept u (lower status) s w e same k = elim (view.put (degrade status u) ref w) [
    | inl old ↦ (k.0, old ∙ k.1, k.2)
    | inr (r, new) ↦
        let eq = same r in
        (
          degrade status u,
          new,
          inr (
            status,
            subst (λ x. lookup x.server_id learned.degraded ≡ some status) eq
                (action_lower cfg learned u status e),
            ap (degrade status) eq,
          ),
        )
  ]

  lower_all-Kept :
      (ts : List Tool) (state : Summary × W)
      → All (λ u. u.tool_ref ≡ ref → u ≡ t) ts
      → Kept state.1
      → Kept (lower_all store cfg learned ts state).1
  lower_all-Kept [] state same k = k
  lower_all-Kept (u ∷ ts) state same k =
      lower_all-Kept ts (act store u (action cfg learned u) state) same.1
        (act-Kept u _ state.0 state.1 refl same.0 k)

  not_deleted :
      (ts : List Tool)
      → All (λ u. u.tool_ref ≡ ref → u ≡ t) ts
      → (MayDelete cfg learned t → ⊥)
      → Some (λ u. (u.tool_ref ≡ ref) × MayDelete cfg learned u) ts
      → ⊥
  not_deleted [] same safe m = m
  not_deleted (u ∷ ts) same safe (inl (e, m)) = safe (subst (MayDelete cfg learned) (same.0 e) m)
  not_deleted (u ∷ ts) same safe (inr m) = not_deleted ts same.1 safe m

  deleted_with-Kept :
      (refs : List Str) (s : Summary) (r : Reply (Unit {0}) × W)
      → Kept r.1
      → Kept (deleted_with store refs s r).2
  deleted_with-Kept refs s (ok u, w) k = k
  deleted_with-Kept refs s (fail e, w) k = k

  delete_vanished-Kept :
      (refs : List Str) (s : Summary) (w : W)
      → has refs ref ≡ false
      → Kept w
      → Kept (delete_vanished store refs (s, w)).2
  delete_vanished-Kept [] s w h k = k
  delete_vanished-Kept (r ∷ refs) s w h k = deleted_with-Kept (sort_strings (r ∷ refs)) s _ (
    k.0,
    view.delete (sort_strings (r ∷ refs)) ref w (has-sort_strings (r ∷ refs) ref h) ∙ k.1,
    k.2,
  )

  -- For every run, over a store whose writes change only the tools that they name (`View`): a
  -- cataloged tool that the run has no authority to delete, its server having been listed with it,
  -- or not listed but configured, is still in the catalog after `reconcile`, as it was or degraded
  -- to the status that was seen for its server.
  pub reconcile-Kept :
      (s : Summary) (w : W)
      → t.tool_ref ≡ ref
      → view.find ref w ≡ some t
      → (MayDelete cfg learned t → ⊥)
      → Kept (reconcile store cfg learned (s, w)).2
  unfolding reconcile
  reconcile-Kept s w named found safe = go (store.tools w) refl
    where
      unique : (u : Tool) → view.find u.tool_ref w ≡ some u → u.tool_ref ≡ ref → u ≡ t
      unique u h e =
          ap (λ o. elim o [ none ↦ u | some v ↦ v ]) (sym h ∙ ap (λ r. view.find r w) e ∙ found)

      go :
          (r : Reply (List Tool))
          → store.tools w ≡ r
          → Kept (reconcile_tools store cfg learned r (s, w)).2
      go (fail e) h = (t, found, inl refl)
      go (ok ts) h =
          let same : All (λ u. u.tool_ref ≡ ref → u ≡ t) ts =
            All-map unique ts (view.listed ts w h) in
          let state = lower_all store cfg learned ts (s, w) in
          elim (Bool-cases (has (to_delete cfg learned ts) ref)) [
            | inl gone ↦
                absurd (not_deleted ts same safe (to_delete_allowed cfg learned ts ref gone))
            | inr safe_ref ↦
                delete_vanished-Kept (to_delete cfg learned ts) state.0 state.1 safe_ref
                  (lower_all-Kept ts (s, w) same (t, found, inl refl))
          ]
