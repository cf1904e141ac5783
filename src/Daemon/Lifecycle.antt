-- ===== src/Daemon/Lifecycle.antt =====
-- internal/daemon/daemon.go: over a daemon's whole lifetime.
use mathlib.Core.Path.{subst}
use ozy.Daemon.{
  Attempt, made, broken, Reading, Contact, provisioned, started, closed, indexed, Outside, Daemon,
  new, enabled, degrade_semantic, rewire_broker, on_ready, on_health, on_client, on_provision,
  provision_sidecar, sink_of, index, is_stale, run_startup_index, start, shut, shutdown, Event,
  on_start, on_index, on_shutdown, handle, lifetime, contact,
}
use ozy.Common.{
  if_case, Str, ℕ, suc, ◌≤◌, ◌≡◌, refl, sym, ◌∙◌, Bool, true, false, not, ◌||◌, Option, none, some,
  List, [], ◌∷◌, arith,
}

module _ (C : Type 0) where
  -- the sidecar that runs after the contacts
  abbrev pub current : List (Contact C) → Option C
  current [] = none
  current (provisioned ∷ log) = current log
  current (started c ∷ log) = some c
  current (closed c ∷ log) = none
  current (indexed sink ∷ log) = current log

  -- A sidecar is started only while none runs, what is closed is the one that runs, and an index run
  -- embeds only into the one that runs.
  abbrev pub Orderly : List (Contact C) → Type 0
  Orderly [] = Unit
  Orderly (provisioned ∷ log) = Orderly log
  Orderly (started c ∷ log) = (current log ≡ none) × Orderly log
  Orderly (closed c ∷ log) = (current log ≡ some c) × Orderly log
  Orderly (indexed none ∷ log) = Orderly log
  Orderly (indexed (some c) ∷ log) = (current log ≡ some c) × Orderly log

  abbrev pub provisions : List (Contact C) → ℕ
  provisions [] = 0
  provisions (provisioned ∷ log) = suc (provisions log)
  provisions (_ ∷ log) = provisions log

  -- The sidecar has passed the liveness probe and the warm-up.
  abbrev pub Passed : Outside C → C → Type 0
  Passed o c = (o.health c ≡ made tt) × (o.ready c ≡ made tt)

  pub record IsValid (o : Outside C) (d : Daemon C) : Type 0 where
    pub orderly : Orderly d.contacts
    pub runs : current d.contacts ≡ d.client
    pub paired : d.adapter ≡ d.client
    pub fresh :
        d.sidecar_provisioned ≡ false
        → (d.client ≡ none) × (d.broker ≡ none) × (provisions d.contacts ≡ 0)
    pub once : provisions d.contacts ≤ 1
    pub lexical : d.semantic_available ≡ false → (d.broker ≡ none) × (d.client ≡ none)
    pub searching : (c : C) → d.broker ≡ some c → Passed o c
    pub embedding : (c : C) → d.client ≡ some c → Passed o c

  new-IsValid : (o : Outside C) (semantic : Option Bool) → IsValid o (new C semantic)
  new-IsValid o semantic = record {
    orderly = tt;
    runs = refl;
    paired = refl;
    fresh = λ h. (refl, refl, refl);
    once = omega arith;
    lexical = λ h. (refl, refl);
    searching = λ c e. cc;
    embedding = λ c e. cc;
  }

  some_injective : (c x : C) → some c ≡ some x → c ≡ x
  some_injective c x e = cc

  -- in the middle of the one attempt at provisioning
  record Trying (running : Option C) (d : Daemon C) : Type 0 where
    tried : d.sidecar_provisioned ≡ true
    no_broker : d.broker ≡ none
    no_client : d.client ≡ none
    no_adapter : d.adapter ≡ none
    runs_now : current d.contacts ≡ running
    in_order : Orderly d.contacts
    at_most : provisions d.contacts ≤ 1

  ready-IsValid :
      (o : Outside C) (c : C) (a : Attempt (Unit {0})) (d : Daemon C)
      → o.health c ≡ made tt
      → o.ready c ≡ a
      → Trying (some c) d
      → IsValid o (on_ready C c a d)
  unfolding degrade_semantic rewire_broker
  ready-IsValid o c (broken e) d alive e_ready t = record {
    orderly = (t.runs_now, t.in_order);
    runs = sym t.no_client;
    paired = t.no_adapter ∙ sym t.no_client;
    fresh = λ h. ground (arith, t.tried);
    once = t.at_most;
    lexical = λ h. (t.no_broker, t.no_client);
    searching = λ x e. absurd (ground (arith, t.no_broker));
    embedding = λ x e. absurd (ground (arith, t.no_client));
  }
  ready-IsValid o c (made u) d alive e_ready t = record {
    orderly = t.in_order;
    runs = t.runs_now;
    paired = refl;
    fresh = λ h. ground (arith, t.tried);
    once = t.at_most;
    lexical = λ h. cc;
    searching = λ x e. subst (Passed o) (some_injective c x e) (alive, e_ready);
    embedding = λ x e. subst (Passed o) (some_injective c x e) (alive, e_ready);
  }

  health-IsValid :
      (o : Outside C) (c : C) (a : Attempt (Unit {0})) (d : Daemon C)
      → o.health c ≡ a
      → Trying (some c) d
      → IsValid o (on_health C o c a d)
  unfolding degrade_semantic
  health-IsValid o c (broken e) d answer t = record {
    orderly = (t.runs_now, t.in_order);
    runs = sym t.no_client;
    paired = t.no_adapter ∙ sym t.no_client;
    fresh = λ h. ground (arith, t.tried);
    once = t.at_most;
    lexical = λ h. (t.no_broker, t.no_client);
    searching = λ x e. absurd (ground (arith, t.no_broker));
    embedding = λ x e. absurd (ground (arith, t.no_client));
  }
  health-IsValid o c (made u) d answer t = ready-IsValid o c (o.ready c) d answer refl t

  failed-IsValid :
      (o : Outside C) (reason : Str) (d : Daemon C)
      → Trying none d
      → IsValid o (degrade_semantic C reason d)
  unfolding degrade_semantic
  failed-IsValid o reason d t = record {
    orderly = t.in_order;
    runs = t.runs_now ∙ sym t.no_client;
    paired = t.no_adapter ∙ sym t.no_client;
    fresh = λ h. ground (arith, t.tried);
    once = t.at_most;
    lexical = λ h. (t.no_broker, t.no_client);
    searching = λ x e. absurd (ground (arith, t.no_broker));
    embedding = λ x e. absurd (ground (arith, t.no_client));
  }

  client-IsValid :
      (o : Outside C) (a : Attempt C) (d : Daemon C) → Trying none d → IsValid o (on_client C o a d)
  client-IsValid o (broken e) d t = failed-IsValid o _ d t
  client-IsValid o (made c) d t = health-IsValid o c (o.health c) _ refl (record {
    tried = t.tried;
    no_broker = t.no_broker;
    no_client = t.no_client;
    no_adapter = t.no_adapter;
    runs_now = refl;
    in_order = (t.runs_now, t.in_order);
    at_most = t.at_most;
  })

  attempt-IsValid :
      (o : Outside C) (a : Attempt (Unit {0})) (d : Daemon C)
      → Trying none d
      → IsValid o (on_provision C o a d)
  attempt-IsValid o (broken e) d t = failed-IsValid o _ d t
  attempt-IsValid o (made u) d t = client-IsValid o o.new_client d t

  provision-IsValid :
      (o : Outside C) (d : Daemon C) → IsValid o d → IsValid o (provision_sidecar C o d)
  unfolding provision_sidecar
  provision-IsValid o d v =
      if_case (IsValid o) (d.sidecar_provisioned || not (enabled C d.semantic)) (λ h. v)
        (λ h.
          let f = v.fresh (ground arith) in
          attempt-IsValid o o.provision _ (record {
            tried = refl;
            no_broker = f.1;
            no_client = f.0;
            no_adapter = v.paired ∙ f.0;
            runs_now = v.runs ∙ f.0;
            in_order = v.orderly;
            at_most = omega (arith, f.2);
          }))

  sunk :
      (sink : Option C) (log : List (Contact C))
      → Orderly log
      → ((c : C) → sink ≡ some c → current log ≡ some c)
      → Orderly (indexed sink ∷ log)
  sunk none log h k = h
  sunk (some c) log h k = (k c refl, h)

  sink-runs :
      (o : Outside C) (d : Daemon C)
      → IsValid o d
      → (c : C) → sink_of C d ≡ some c
      → current d.contacts ≡ some c
  sink-runs o d v c =
      if_case (λ s. s ≡ some c → current d.contacts ≡ some c) d.semantic_available
        (λ _ e. v.runs ∙ e) (λ _ e. cc)

  indexed-IsValid :
      (o : Outside C) (d : Daemon C) → IsValid o d → IsValid o (contact C (indexed (sink_of C d)) d)
  indexed-IsValid o d v = record {
    orderly = sunk (sink_of C d) d.contacts v.orderly (sink-runs o d v);
    runs = v.runs;
    paired = v.paired;
    fresh = v.fresh;
    once = v.once;
    lexical = v.lexical;
    searching = v.searching;
    embedding = v.embedding;
  }

  index-IsValid : (o : Outside C) (d : Daemon C) → IsValid o d → IsValid o (index C o d)
  unfolding index
  index-IsValid o d v = indexed-IsValid o _ (provision-IsValid o d v)

  start-IsValid :
      (o : Outside C) (r : Reading) (d : Daemon C) → IsValid o d → IsValid o (start C o r d)
  unfolding start run_startup_index
  start-IsValid o r d v =
      let w = provision-IsValid o d v in
      if_case (IsValid o) (is_stale C r r.last_indexed_at) (λ _. index-IsValid o _ w) (λ _. w)

  shut-IsValid :
      (o : Outside C) (c : Option C) (d : Daemon C)
      → d.client ≡ c
      → IsValid o d
      → IsValid o (shut C c d)
  shut-IsValid o none d e v = v
  shut-IsValid o (some c) d e v = record {
    orderly = (v.runs ∙ e, v.orderly);
    runs = refl;
    paired = refl;
    fresh = λ h. let f = v.fresh h in (refl, f.1, f.2);
    once = v.once;
    lexical = λ h. ((v.lexical h).0, refl);
    searching = v.searching;
    embedding = λ x k. cc;
  }

  handle-IsValid :
      (o : Outside C) (e : Event C) (d : Daemon C) → IsValid o d → IsValid o (handle C o e d)
  unfolding shutdown
  handle-IsValid o (on_start r) d v = start-IsValid o r d v
  handle-IsValid o on_index d v = index-IsValid o d v
  handle-IsValid o on_shutdown d v = shut-IsValid o d.client d refl v

  kept :
      (o : Outside C) (es : List (Event C)) (d : Daemon C)
      → IsValid o d
      → IsValid o (lifetime C o es d)
  kept o [] d v = v
  kept o (e ∷ es) d v = kept o es (handle C o e d) (handle-IsValid o e d v)

  -- Over a lifetime of starts, index runs and shutdowns in any order, whatever the answers:
  -- provisioning is tried at most once; a sidecar is started only while none runs, each close is of
  -- the one that runs, also after a failed probe, and embeddings go only to the one that runs; and a
  -- sidecar by which the broker searches, or which the daemon keeps for embeddings, has passed the
  -- liveness probe and the warm-up.
  pub lifetime-IsValid :
      (o : Outside C) (semantic : Option Bool) (es : List (Event C))
      → IsValid o (lifetime C o es (new C semantic))
  lifetime-IsValid o semantic es = kept o es (new C semantic) (new-IsValid o semantic)
