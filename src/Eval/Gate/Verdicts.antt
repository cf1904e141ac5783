-- ===== src/Eval/Gate/Verdicts.antt =====
-- internal/eval/gate.go: what a passing verdict says of the metrics.
use ozy.Search.{Scores}
use ozy.Eval.Discovery.{DiscoveryMetrics, DiscoveryReport}
use ozy.Eval.Gate.{
  invocation_calls, ergonomics_calls, Call, add_gates, add_min_gates, discovery_calls, Comparator,
  at_least, at_most_, verdict_pass, DiscoveryGate, InvocationGate, InvocationMetrics,
  ErgonomicsGate, ErgonomicsMetrics, Thresholds, GateResult, metrics_for_scope, found, add_gate,
  scope_gates, gates_at, evaluate_scopes, evaluate_discovery, add_min_gate, evaluate_invocation,
  evaluate_ergonomics, evaluate_one, all_gates, verdict,
}
use ozy.Common.{
  ltb, ◌≢◌, Bool-cases, str_eq, str_eq_iff, Str, codes, All, sort_strings, Map, keys, lookup, ◌≡◌,
  refl, ◌↔◌, ◌⊎◌, inl, inr, Bool, true, false, not, ◌&&◌, Option, none, some, List, [], ◌∷◌, ◌++◌,
  arith,
}

module _ (S : Scores) where
  open S use {Score, at_most}

  -- A threshold that is set is kept to; an unset one asks for nothing.
  abbrev pub Meets : Comparator → Option Score → Score → Type 0
  Meets comparator none actual = Unit
  Meets at_least (some least) actual = at_most least actual ≡ true
  Meets at_most_ (some most) actual = at_most actual most ≡ true

  abbrev pub ScopeMet : Bool → DiscoveryGate S → DiscoveryMetrics S × Bool → Type 0
  ScopeMet semantic_ran gate (m, ok) =
      ((gate.requires_semantic_leg && not semantic_ran) ≡ true)
      ⊎ (ok ≡ false)
      ⊎ (Meets at_least gate.top1_min m.top1
          × Meets at_least gate.top3_min m.top3
          × Meets at_least gate.mrr_min m.mrr
          × Meets at_most_ gate.wrong_server_rate_max m.wrong_server_rate
          × Meets at_least gate.no_match_correctness_min m.no_match_correctness)

  -- A scope that names a category is judged by that category's metrics, if there are any.
  abbrev pub CategoryMet : Bool → DiscoveryGate S → Option (DiscoveryMetrics S) → Type 0
  CategoryMet semantic_ran gate none = Unit
  CategoryMet semantic_ran gate (some m) = ScopeMet semantic_ran gate (m, true)

  -- The scope `overall` is judged by the metrics of all cases, if there are cases.
  abbrev pub GateMet : Bool → DiscoveryReport S → Str → Option (DiscoveryGate S) → Type 0
  GateMet semantic_ran report scope none = Unit
  GateMet semantic_ran report scope (some gate) =
      ((scope ≡ codes "overall")
        × ScopeMet semantic_ran gate (report.overall, ltb 0 report.overall.n))
      ⊎ ((scope ≢ codes "overall")
          × CategoryMet semantic_ran gate (lookup scope report.by_category))

  abbrev pub DiscoveryMet : Thresholds S → Option (DiscoveryReport S) → Bool → Type 0
  DiscoveryMet t none semantic_ran = Unit
  DiscoveryMet t (some report) semantic_ran =
      All (λ scope. GateMet semantic_ran report scope (lookup scope t.discovery))
        (sort_strings (keys t.discovery))

  abbrev pub InvocationMet : Option (InvocationGate S) → Option (InvocationMetrics S) → Type 0
  InvocationMet none r = Unit
  InvocationMet (some g) none = Unit
  InvocationMet (some g) (some m) =
      Meets at_least g.valid_argument_rate_min m.valid_argument_rate
      × Meets at_least g.first_call_success_min m.first_call_success
      × Meets at_least g.repair_success_min m.repair_success
      × Meets at_least g.schema_error_rate_min m.schema_error_rate
      × Meets at_least g.offline_handled_rate_min m.offline_handled_rate
      × Meets at_least g.error_clarity_min m.error_clarity

  abbrev pub ErgonomicsMet : Option (ErgonomicsGate S) → Option (ErgonomicsMetrics S) → Type 0
  ErgonomicsMet none r = Unit
  ErgonomicsMet (some g) none = Unit
  ErgonomicsMet (some g) (some m) =
      Meets at_least g.decision_rate_min m.decision_rate
      × Meets at_least g.instruction_rate_min m.instruction_rate
      × Meets at_least g.error_disposition_rate_min m.error_disposition_rate
      × Meets at_least g.within_budget_rate_min m.within_budget_rate
      × Meets at_least g.parity_rate_min m.parity_rate

  abbrev pub OneMet : Option (Option Score) → Option Score → Type 0
  OneMet none m = Unit
  OneMet (some threshold) none = Unit
  OneMet (some threshold) (some m) = Meets at_least threshold m

  clash : {b : Bool} → b ≡ true → b ≡ false → ⊥
  clash h k = cc

  abbrev Passes : List (GateResult S) → Type 0
  Passes gates = verdict S gates ≡ verdict_pass

  Passes-append : (xs ys : List (GateResult S)) → Passes (xs ++ ys) ↔ (Passes xs × Passes ys)
  unfolding verdict
  Passes-append [] ys = ((λ h. (refl, h)), (λ h. h.1))
  Passes-append (x ∷ xs) ys = ground (arith, Passes-append xs ys)

  and_iff :
      {P Q : Type 0} (xs ys : List (GateResult S))
      → (Passes xs ↔ P)
      → (Passes ys ↔ Q)
      → (Passes (xs ++ ys) ↔ (P × Q))
  and_iff xs ys f g = (
    (λ h. let (a, b) = (Passes-append xs ys).0 h in (f.0 a, g.0 b)),
    (λ h. (Passes-append xs ys).1 (f.1 h.0, g.1 h.1)),
  )

  add_min_gate_iff :
      (name : Str) (o : Option Score) (a : Score)
      → Passes (add_min_gate S name o a) ↔ Meets at_least o a
  unfolding add_min_gate verdict
  add_min_gate_iff name none a = ((λ h. tt), (λ h. refl))
  add_min_gate_iff name (some t) a = ground arith

  add_gate_iff :
      (skip ok : Bool) (scope name : Str) (k : Comparator) (o : Option Score) (a : Score)
      → Passes (add_gate S skip ok scope name k o a) ↔ ((skip ≡ true) ⊎ (ok ≡ false) ⊎ Meets k o a)
  unfolding add_gate verdict
  add_gate_iff skip ok scope name k none a = ((λ h. inr (inr tt)), (λ h. refl))
  add_gate_iff skip ok scope name at_least (some t) a = ground arith
  add_gate_iff skip ok scope name at_most_ (some t) a = ground arith

  add_min_gates_iff :
      (calls : List (Str × Option Score × Score))
      → Passes (add_min_gates S calls) ↔ All (λ c. Meets at_least c.1 c.2) calls
  unfolding add_min_gates verdict
  add_min_gates_iff [] = ((λ h. tt), (λ h. refl))
  add_min_gates_iff ((name, o, a) ∷ calls) =
      and_iff (add_min_gate S name o a) (add_min_gates S calls) (add_min_gate_iff name o a)
        (add_min_gates_iff calls)

  invocation_iff :
      (g : Option (InvocationGate S)) (m : Option (InvocationMetrics S))
      → Passes (evaluate_invocation S g m) ↔ InvocationMet g m
  unfolding evaluate_invocation verdict
  invocation_iff none m = ((λ h. tt), (λ h. refl))
  invocation_iff (some g) none = ((λ h. tt), (λ h. refl))
  invocation_iff (some g) (some m) = (
    (λ h.
        let (a, (b, (c, (d, (e, (f, z)))))) = (add_min_gates_iff (invocation_calls S g m)).0 h in
        (a, b, c, d, e, f)),
    (λ h.
        (add_min_gates_iff (invocation_calls S g m)).1
          (h.0, (h.1, (h.2, (h.3, (h.4, (h.5, tt))))))),
  )

  ergonomics_iff :
      (g : Option (ErgonomicsGate S)) (m : Option (ErgonomicsMetrics S))
      → Passes (evaluate_ergonomics S g m) ↔ ErgonomicsMet g m
  unfolding evaluate_ergonomics verdict
  ergonomics_iff none m = ((λ h. tt), (λ h. refl))
  ergonomics_iff (some g) none = ((λ h. tt), (λ h. refl))
  ergonomics_iff (some g) (some m) = (
    (λ h.
        let (a, (b, (c, (d, (e, z))))) = (add_min_gates_iff (ergonomics_calls S g m)).0 h in
        (a, b, c, d, e)),
    (λ h. (add_min_gates_iff (ergonomics_calls S g m)).1 (h.0, (h.1, (h.2, (h.3, (h.4, tt)))))),
  )

  one_iff :
      (name : Str) (t : Option (Option Score)) (m : Option Score)
      → Passes (evaluate_one S name t m) ↔ OneMet t m
  unfolding evaluate_one verdict
  one_iff name none m = ((λ h. tt), (λ h. refl))
  one_iff name (some t) none = ((λ h. tt), (λ h. refl))
  one_iff name (some t) (some m) = add_min_gate_iff name t m

  add_gates_iff :
      (skip ok : Bool) (scope : Str) (calls : List (Call S))
      → Passes (add_gates S skip ok scope calls)
        ↔ ((skip ≡ true) ⊎ (ok ≡ false) ⊎ All (λ c. Meets c.1 c.2 c.3) calls)
  unfolding add_gates verdict
  add_gates_iff skip ok scope [] = ((λ h. inr (inr tt)), (λ h. refl))
  add_gates_iff skip ok scope ((name, k, o, a) ∷ calls) =
      let one = add_gate_iff skip ok scope name k o a in
      let rest = add_gates_iff skip ok scope calls in
      let each =
        Passes-append (add_gate S skip ok scope name k o a) (add_gates S skip ok scope calls) in
      (
        (λ h. let (x, y) = each.0 h in together (one.0 x) (rest.0 y)),
        (λ h. each.1 (one.1 (front h), rest.1 (back h))),
      )
    where
      together :
          {P Q : Type 0}
          → (skip ≡ true) ⊎ (ok ≡ false) ⊎ P
          → (skip ≡ true) ⊎ (ok ≡ false) ⊎ Q
          → (skip ≡ true) ⊎ (ok ≡ false) ⊎ (P × Q)
      together (inl e) y = inl e
      together (inr (inl e)) y = inr (inl e)
      together (inr (inr p)) (inl e) = inl e
      together (inr (inr p)) (inr (inl e)) = inr (inl e)
      together (inr (inr p)) (inr (inr q)) = inr (inr (p, q))

      front :
          {P Q : Type 0} → (skip ≡ true) ⊎ (ok ≡ false) ⊎ (P × Q) → (skip ≡ true) ⊎ (ok ≡ false) ⊎ P
      front (inl e) = inl e
      front (inr (inl e)) = inr (inl e)
      front (inr (inr p)) = inr (inr p.0)

      back :
          {P Q : Type 0} → (skip ≡ true) ⊎ (ok ≡ false) ⊎ (P × Q) → (skip ≡ true) ⊎ (ok ≡ false) ⊎ Q
      back (inl e) = inl e
      back (inr (inl e)) = inr (inl e)
      back (inr (inr p)) = inr (inr p.1)

  scope_iff :
      (semantic_ran : Bool) (scope : Str) (gate : DiscoveryGate S) (m : DiscoveryMetrics S × Bool)
      → Passes (scope_gates S semantic_ran scope gate m) ↔ ScopeMet semantic_ran gate m
  unfolding scope_gates
  scope_iff semantic_ran scope gate (m, ok) =
      let skip = gate.requires_semantic_leg && not semantic_ran in
      let each = add_gates_iff skip ok scope (discovery_calls S gate m) in
      (
        (λ h. elim (each.0 h) [
          | inl e ↦ inl e
          | inr (inl e) ↦ inr (inl e)
          | inr (inr (a, (b, (c, (d, (e, z)))))) ↦ inr (inr (a, b, c, d, e))
        ]),
        (λ h. each.1 (elim h [
          | inl e ↦ inl e
          | inr (inl e) ↦ inr (inl e)
          | inr (inr (a, b, c, d, e)) ↦ inr (inr (a, (b, (c, (d, (e, tt))))))
        ])),
      )

  category_iff :
      (semantic_ran : Bool) (scope : Str) (gate : DiscoveryGate S) (o : Option (DiscoveryMetrics S))
      → Passes (scope_gates S semantic_ran scope gate (found S o)) ↔ CategoryMet semantic_ran gate o
  category_iff semantic_ran scope gate none =
      ((λ h. tt), (λ h. (scope_iff semantic_ran scope gate (found S none)).1 (inr (inl refl))))
  category_iff semantic_ran scope gate (some m) = scope_iff semantic_ran scope gate (m, true)

  gate_iff :
      (semantic_ran : Bool) (report : DiscoveryReport S) (scope : Str)
      (gate : Option (DiscoveryGate S))
      → Passes (gates_at S semantic_ran report scope gate) ↔ GateMet semantic_ran report scope gate
  unfolding verdict metrics_for_scope
  gate_iff semantic_ran report scope none = ((λ h. tt), (λ h. refl))
  gate_iff semantic_ran report scope (some gate) =
      elim (Bool-cases (str_eq scope (codes "overall"))) [
        | inl e ↦
            let is_overall = (str_eq_iff scope (codes "overall")).0 e in
            let each = scope_iff semantic_ran scope gate (report.overall, ltb 0 report.overall.n) in
            rw (e, gates_at)
              (
                (λ h. inl (is_overall, each.0 h)),
                (λ h. each.1 (elim h [ inl p ↦ p.1 | inr p ↦ absurd (p.0 is_overall) ])),
              )
        | inr e ↦
            let other : scope ≢ codes "overall" =
              λ q. clash ((str_eq_iff scope (codes "overall")).1 q) e in
            let each = category_iff semantic_ran scope gate (lookup scope report.by_category) in
            rw (e, gates_at)
              (
                (λ h. inr (other, each.0 h)),
                (λ h. each.1 (elim h [ inl p ↦ absurd (other p.0) | inr p ↦ p.1 ])),
              )
      ]

  scopes_iff :
      (gates : Map (DiscoveryGate S)) (report : DiscoveryReport S) (semantic_ran : Bool)
      (scopes : List Str)
      → Passes (evaluate_scopes S gates report semantic_ran scopes)
        ↔ All (λ scope. GateMet semantic_ran report scope (lookup scope gates)) scopes
  unfolding evaluate_scopes verdict
  scopes_iff gates report semantic_ran [] = ((λ h. tt), (λ h. refl))
  scopes_iff gates report semantic_ran (scope ∷ scopes) =
      and_iff (gates_at S semantic_ran report scope (lookup scope gates))
        (evaluate_scopes S gates report semantic_ran scopes)
        (gate_iff semantic_ran report scope (lookup scope gates))
        (scopes_iff gates report semantic_ran scopes)

  discovery_iff :
      (t : Thresholds S) (report : Option (DiscoveryReport S)) (semantic_ran : Bool)
      → Passes (evaluate_discovery S t report semantic_ran) ↔ DiscoveryMet t report semantic_ran
  unfolding evaluate_discovery verdict
  discovery_iff t none semantic_ran = ((λ h. tt), (λ h. refl))
  discovery_iff t (some report) semantic_ran =
      scopes_iff t.discovery report semantic_ran (sort_strings (keys t.discovery))

  -- A run passes exactly when every threshold that is set is kept to by the metric that it names:
  -- the least values from below, the wrong-server rate from above. A family that did not run or has no
  -- thresholds asks for nothing; neither does a discovery scope without cases, nor one that needs the
  -- semantic leg in a run without it.
  pub verdict_iff :
      (t : Thresholds S) (discovery : Option (DiscoveryReport S)) (semantic_ran : Bool)
      (invocation : Option (InvocationMetrics S)) (ergonomics : Option (ErgonomicsMetrics S))
      (reduction redundant : Option Score)
      → (verdict S (all_gates S t discovery semantic_ran invocation ergonomics reduction redundant)
          ≡ verdict_pass)
        ↔ (DiscoveryMet t discovery semantic_ran
            × InvocationMet t.invocation invocation
            × ErgonomicsMet t.ergonomics ergonomics
            × OneMet t.tokens reduction
            × OneMet t.cache redundant)
  unfolding all_gates
  verdict_iff t discovery semantic_ran invocation ergonomics reduction redundant =
      let a = evaluate_discovery S t discovery semantic_ran in
      let b = evaluate_invocation S t.invocation invocation in
      let c = evaluate_ergonomics S t.ergonomics ergonomics in
      let d = evaluate_one S (codes "tokens.startupReduction") t.tokens reduction in
      let e = evaluate_one S (codes "cache.redundantCallReduction") t.cache redundant in
      let all = and_iff a (b ++ (c ++ (d ++ e))) (discovery_iff t discovery semantic_ran) (
        and_iff b (c ++ (d ++ e)) (invocation_iff t.invocation invocation) (
          and_iff c (d ++ e) (ergonomics_iff t.ergonomics ergonomics) (
            and_iff d e (one_iff (codes "tokens.startupReduction") t.tokens reduction)
              (one_iff (codes "cache.redundantCallReduction") t.cache redundant)))) in
      (
        (λ h. let (p, (q, (r, (u, v)))) = all.0 h in (p, q, r, u, v)),
        (λ h. all.1 (h.0, (h.1, (h.2, (h.3, h.4))))),
      )
