-- ===== src/Daemon.antt =====
-- internal/daemon/daemon.go: the runtime's lifecycle. What it does to the sidecar and the catalog is
-- the list of contacts, the last one first; `Outside` holds the answers. The log is left out, and a
-- broker is told by the semantic adapter it was wired with, over a client of type `C`.
pub mod Lifecycle
mod Tests
use ozy.Common.{
  ltb, if◌then◌else◌, Str, codes, ℕ, Bool, true, false, not, ◌&&◌, ◌||◌, Option, none, some, List,
  [], ◌∷◌, ◌++◌,
}

-- a value, or an error and its text
pub data Attempt {ℓ} (A : Type ℓ) : Type ℓ where
  made : A → Attempt A
  broken : Str → Attempt A

-- `LastIndexedAt`, and the modification time of the configuration file, if it has a path that can be
-- read
pub record Reading : Type 0 where
  pub last_indexed_at : Option (ℕ × Bool)
  pub modified_at : Option ℕ

module _ (C : Type 0) where
  pub data Contact : Type 0 where
    provisioned : Contact
    started closed : C → Contact
    indexed : Option C → Contact

  pub record Outside : Type 0 where
    pub provision : Attempt (Unit {0})
    pub new_client : Attempt C
    pub health : C → Attempt (Unit {0})
    pub ready : C → Attempt (Unit {0})

  -- `semantic`: `Search.Semantic.Enabled` of the resolved configuration, if there is one
  pub record Daemon : Type 0 where
    pub semantic : Option Bool
    pub broker : Option C
    pub client : Option C
    pub adapter : Option C
    pub semantic_available : Bool
    pub semantic_reason : Str
    pub sidecar_provisioned : Bool
    pub contacts : List Contact

  abbrev pub new : Option Bool → Daemon
  new semantic = record {
    semantic = semantic;
    broker = none;
    client = none;
    adapter = none;
    semantic_available = false;
    semantic_reason = [];
    sidecar_provisioned = false;
    contacts = [];
  }

  abbrev pub enabled : Option Bool → Bool
  enabled none = false
  enabled (some b) = b

  unfoldable pub semantic_degraded : Daemon → Bool
  semantic_degraded d = enabled d.semantic && not d.semantic_available

  unfoldable pub semantic_state : Daemon → Str
  semantic_state d =
      if not (enabled d.semantic)
      then codes "disabled"
      else if d.semantic_available
      then codes "available"
      else codes "degraded"

  abbrev pub contact : Contact → Daemon → Daemon
  contact e d = record d { contacts = e ∷ d.contacts }

  unfoldable pub degrade_semantic : Str → Daemon → Daemon
  degrade_semantic reason d = record d { semantic_available = false; semantic_reason = reason }

  unfoldable pub rewire_broker : Daemon → Daemon
  rewire_broker d = record d { broker = d.adapter }

  abbrev pub on_ready : C → Attempt (Unit {0}) → Daemon → Daemon
  on_ready c (broken e) d =
      contact (closed c) (degrade_semantic (codes "embedding model warm-up failed: " ++ e) d)
  on_ready c (made u) d = rewire_broker (record d {
    client = some c;
    adapter = some c;
    semantic_available = true;
    semantic_reason = [];
  })

  abbrev pub on_health : Outside → C → Attempt (Unit {0}) → Daemon → Daemon
  on_health o c (broken e) d =
      contact (closed c) (degrade_semantic (codes "sidecar health check failed: " ++ e) d)
  on_health o c (made u) d = on_ready c (o.ready c) d

  abbrev pub on_client : Outside → Attempt C → Daemon → Daemon
  on_client o (broken e) d = degrade_semantic (codes "sidecar start failed: " ++ e) d
  on_client o (made c) d = on_health o c (o.health c) (contact (started c) d)

  abbrev pub on_provision : Outside → Attempt (Unit {0}) → Daemon → Daemon
  on_provision o (broken e) d = degrade_semantic (codes "sidecar provisioning failed: " ++ e) d
  on_provision o (made u) d = on_client o o.new_client d

  unfoldable pub provision_sidecar : Outside → Daemon → Daemon
  unfolding degrade_semantic rewire_broker
  provision_sidecar o d =
      if d.sidecar_provisioned || not (enabled d.semantic)
      then d
      else on_provision o o.provision
          (contact provisioned (record d { sidecar_provisioned = true }))

  abbrev pub sink_of : Daemon → Option C
  sink_of d = if d.semantic_available then d.client else none

  unfoldable pub index : Outside → Daemon → Daemon
  unfolding provision_sidecar
  index o d = let d' = provision_sidecar o d in contact (indexed (sink_of d')) d'

  abbrev pub is_newer : Option ℕ → ℕ → Bool
  is_newer none t = false
  is_newer (some m) t = ltb t m

  abbrev pub is_stale : Reading → Option (ℕ × Bool) → Bool
  is_stale r none = false
  is_stale r (some (t, false)) = true
  is_stale r (some (t, true)) = is_newer r.modified_at t

  unfoldable pub run_startup_index : Outside → Reading → Daemon → Daemon
  unfolding index
  run_startup_index o r d = if is_stale r r.last_indexed_at then index o d else d

  unfoldable pub start : Outside → Reading → Daemon → Daemon
  unfolding provision_sidecar run_startup_index
  start o r d = run_startup_index o r (provision_sidecar o d)

  abbrev pub shut : Option C → Daemon → Daemon
  shut none d = d
  shut (some c) d = record (contact (closed c) d) { client = none; adapter = none }

  unfoldable pub shutdown : Daemon → Daemon
  shutdown d = shut d.client d

  -- what the process that owns the daemon does with it
  pub data Event : Type 0 where
    on_start : Reading → Event
    on_index on_shutdown : Event

  abbrev pub handle : Outside → Event → Daemon → Daemon
  handle o (on_start r) d = start o r d
  handle o on_index d = index o d
  handle o on_shutdown d = shutdown d

  abbrev pub lifetime : Outside → List Event → Daemon → Daemon
  lifetime o [] d = d
  lifetime o (e ∷ es) d = lifetime o es (handle o e d)
