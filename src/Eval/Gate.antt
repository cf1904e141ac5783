-- ===== src/Eval/Gate.antt =====
-- internal/eval/gate.go: thresholds turned into gates, and the verdict. The thresholds are decoded by
-- encoding/json; an unset one is `none`. The fields of a report that no gate reads are left out.
pub mod Verdicts
use ozy.Search.{Scores}
use ozy.Eval.Discovery.{DiscoveryMetrics, DiscoveryReport}
use ozy.Common.{
  ltb, if◌then◌else◌, Str, codes, str_eq, sort_strings, Map, keys, lookup, ℕ, Bool, true, false,
  not, ◌&&◌, ◌||◌, Option, none, some, List, [], ◌∷◌, ◌++◌,
}

pub data Comparator : Type 0 where
  at_least at_most_ : Comparator

pub data Verdict : Type 0 where
  verdict_pass verdict_fail : Verdict

module _ (S : Scores) where
  open S use {Score, nought, at_most}

  pub record DiscoveryGate : Type 0 where
    pub top1_min : Option Score
    pub top3_min : Option Score
    pub mrr_min : Option Score
    pub wrong_server_rate_max : Option Score
    pub no_match_correctness_min : Option Score
    pub requires_semantic_leg : Bool

  pub record InvocationGate : Type 0 where
    pub valid_argument_rate_min : Option Score
    pub first_call_success_min : Option Score
    pub repair_success_min : Option Score
    pub schema_error_rate_min : Option Score
    pub offline_handled_rate_min : Option Score
    pub error_clarity_min : Option Score

  pub record InvocationMetrics : Type 0 where
    pub n : ℕ
    pub valid_argument_rate : Score
    pub first_call_success : Score
    pub repair_success : Score
    pub schema_error_rate : Score
    pub offline_handled_rate : Score
    pub error_clarity : Score

  pub record ErgonomicsGate : Type 0 where
    pub decision_rate_min : Option Score
    pub instruction_rate_min : Option Score
    pub error_disposition_rate_min : Option Score
    pub within_budget_rate_min : Option Score
    pub parity_rate_min : Option Score

  pub record ErgonomicsMetrics : Type 0 where
    pub decision_rate : Score
    pub instruction_rate : Score
    pub error_disposition_rate : Score
    pub within_budget_rate : Score
    pub parity_rate : Score

  pub record Thresholds : Type 0 where
    pub discovery : Map DiscoveryGate
    pub invocation : Option InvocationGate
    pub ergonomics : Option ErgonomicsGate
    pub tokens : Option (Option Score)
    pub cache : Option (Option Score)

  pub record GateResult : Type 0 where
    pub name : Str
    pub comparator : Comparator
    pub threshold : Score
    pub actual : Score
    pub pass : Bool
    pub skipped : Bool
    pub skip_reason : Str

  abbrev zero_metrics : DiscoveryMetrics S
  zero_metrics = record {
    n = 0;
    top1 = nought;
    top3 = nought;
    mrr = nought;
    wrong_server_rate = nought;
    no_match_correctness = nought;
  }

  abbrev pub found : Option (DiscoveryMetrics S) → DiscoveryMetrics S × Bool
  found none = (zero_metrics, false)
  found (some m) = (m, true)

  unfoldable pub metrics_for_scope : DiscoveryReport S → Str → DiscoveryMetrics S × Bool
  metrics_for_scope report scope =
      if str_eq scope (codes "overall")
      then (report.overall, ltb 0 report.overall.n)
      else found (lookup scope report.by_category)

  -- `actual >= threshold`, or `actual <= threshold`
  abbrev pub met : Comparator → Score → Score → Bool
  met at_least threshold actual = at_most threshold actual
  met at_most_ threshold actual = at_most actual threshold

  abbrev pub gate_name : Str → Str → Str
  gate_name scope name = codes "discovery." ++ (scope ++ (b'.' ∷ name))

  -- the closure `add`, with whether the gate is skipped and whether the scope was found
  unfoldable pub add_gate :
      Bool → Bool → Str → Str → Comparator → Option Score → Score → List GateResult
  add_gate skip ok scope name comparator none actual = []
  add_gate skip ok scope name comparator (some threshold) actual =
      record {
        name = gate_name scope name;
        comparator = comparator;
        threshold = threshold;
        actual = actual;
        pass = not skip && (ok && met comparator threshold actual);
        skipped = skip || not ok;
        skip_reason =
            if skip
            then codes "semantic leg did not run"
            else if ok
            then []
            else codes "no cases for scope " ++ scope;
      }
      ∷ []

  -- a call of `add`: the metric's name, the comparator, the threshold and the metric
  abbrev pub Call : Type 0
  Call = Str × Comparator × Option Score × Score

  unfoldable pub add_gates : Bool → Bool → Str → List Call → List GateResult
  unfolding add_gate
  add_gates skip ok scope [] = []
  add_gates skip ok scope ((name, comparator, threshold, actual) ∷ calls) =
      add_gate skip ok scope name comparator threshold actual ++ add_gates skip ok scope calls

  abbrev pub discovery_calls : DiscoveryGate → DiscoveryMetrics S → List Call
  discovery_calls gate m =
      (codes "top1", at_least, gate.top1_min, m.top1)
      ∷ (codes "top3", at_least, gate.top3_min, m.top3)
      ∷ (codes "mrr", at_least, gate.mrr_min, m.mrr)
      ∷ (codes "wrongServerRate", at_most_, gate.wrong_server_rate_max, m.wrong_server_rate)
      ∷ (
        codes "noMatchCorrectness",
        at_least,
        gate.no_match_correctness_min,
        m.no_match_correctness,
      )
      ∷ []

  unfoldable pub scope_gates :
      Bool → Str → DiscoveryGate → DiscoveryMetrics S × Bool → List GateResult
  unfolding add_gates
  scope_gates semantic_ran scope gate (m, ok) =
      add_gates (gate.requires_semantic_leg && not semantic_ran) ok scope (discovery_calls gate m)

  abbrev pub gates_at : Bool → DiscoveryReport S → Str → Option DiscoveryGate → List GateResult
  gates_at semantic_ran report scope none = []
  gates_at semantic_ran report scope (some gate) =
      scope_gates semantic_ran scope gate (metrics_for_scope report scope)

  -- the loop over the sorted scopes
  unfoldable pub evaluate_scopes :
      Map DiscoveryGate → DiscoveryReport S → Bool → List Str → List GateResult
  unfolding scope_gates metrics_for_scope
  evaluate_scopes gates report semantic_ran [] = []
  evaluate_scopes gates report semantic_ran (scope ∷ scopes) =
      gates_at semantic_ran report scope (lookup scope gates)
      ++ evaluate_scopes gates report semantic_ran scopes

  unfoldable pub evaluate_discovery :
      Thresholds → Option (DiscoveryReport S) → Bool → List GateResult
  unfolding evaluate_scopes
  evaluate_discovery t none semantic_ran = []
  evaluate_discovery t (some report) semantic_ran =
      evaluate_scopes t.discovery report semantic_ran (sort_strings (keys t.discovery))

  unfoldable pub add_min_gate : Str → Option Score → Score → List GateResult
  add_min_gate name none actual = []
  add_min_gate name (some threshold) actual =
      record {
        name = name;
        comparator = at_least;
        threshold = threshold;
        actual = actual;
        pass = at_most threshold actual;
        skipped = false;
        skip_reason = [];
      }
      ∷ []

  -- the calls of `addMinGate` in a row
  unfoldable pub add_min_gates : List (Str × Option Score × Score) → List GateResult
  unfolding add_min_gate
  add_min_gates [] = []
  add_min_gates ((name, threshold, actual) ∷ calls) =
      add_min_gate name threshold actual ++ add_min_gates calls

  abbrev pub invocation_calls :
      InvocationGate → InvocationMetrics → List (Str × Option Score × Score)
  invocation_calls g m =
      (codes "invocation.validArgumentRate", g.valid_argument_rate_min, m.valid_argument_rate)
      ∷ (codes "invocation.firstCallSuccess", g.first_call_success_min, m.first_call_success)
      ∷ (codes "invocation.repairSuccess", g.repair_success_min, m.repair_success)
      ∷ (codes "invocation.schemaErrorRate", g.schema_error_rate_min, m.schema_error_rate)
      ∷ (codes "invocation.offlineHandledRate", g.offline_handled_rate_min, m.offline_handled_rate)
      ∷ (codes "invocation.errorClarity", g.error_clarity_min, m.error_clarity)
      ∷ []

  unfoldable pub evaluate_invocation :
      Option InvocationGate → Option InvocationMetrics → List GateResult
  unfolding add_min_gates
  evaluate_invocation none r = []
  evaluate_invocation (some g) none = []
  evaluate_invocation (some g) (some m) = add_min_gates (invocation_calls g m)

  abbrev pub ergonomics_calls :
      ErgonomicsGate → ErgonomicsMetrics → List (Str × Option Score × Score)
  ergonomics_calls g m =
      (codes "ergonomics.decisionRate", g.decision_rate_min, m.decision_rate)
      ∷ (codes "ergonomics.instructionRate", g.instruction_rate_min, m.instruction_rate)
      ∷ (
        codes "ergonomics.errorDispositionRate",
        g.error_disposition_rate_min,
        m.error_disposition_rate,
      )
      ∷ (codes "ergonomics.withinBudgetRate", g.within_budget_rate_min, m.within_budget_rate)
      ∷ (codes "ergonomics.parityRate", g.parity_rate_min, m.parity_rate)
      ∷ []

  unfoldable pub evaluate_ergonomics :
      Option ErgonomicsGate → Option ErgonomicsMetrics → List GateResult
  unfolding add_min_gates
  evaluate_ergonomics none r = []
  evaluate_ergonomics (some g) none = []
  evaluate_ergonomics (some g) (some m) = add_min_gates (ergonomics_calls g m)

  -- `EvaluateTokens` and `EvaluateCache`, of the one metric that they gate
  unfoldable pub evaluate_one : Str → Option (Option Score) → Option Score → List GateResult
  unfolding add_min_gate
  evaluate_one name none m = []
  evaluate_one name (some threshold) none = []
  evaluate_one name (some threshold) (some m) = add_min_gate name threshold m

  -- the gates in the order of `Run`
  unfoldable pub all_gates :
      Thresholds
      → Option (DiscoveryReport S)
      → Bool
      → Option InvocationMetrics
      → Option ErgonomicsMetrics
      → Option Score
      → Option Score
      → List GateResult
  unfolding evaluate_discovery evaluate_invocation evaluate_ergonomics evaluate_one
  all_gates t discovery semantic_ran invocation ergonomics reduction redundant =
      evaluate_discovery t discovery semantic_ran
      ++ (evaluate_invocation t.invocation invocation
          ++ (evaluate_ergonomics t.ergonomics ergonomics
              ++ (evaluate_one (codes "tokens.startupReduction") t.tokens reduction
                  ++ evaluate_one (codes "cache.redundantCallReduction") t.cache redundant)))

  unfoldable pub verdict : List GateResult → Verdict
  verdict [] = verdict_pass
  verdict (g ∷ gates) =
      let later = verdict gates in if not g.skipped && not g.pass then verdict_fail else later
