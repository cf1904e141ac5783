-- ===== src/Eval/Invocation.antt =====
-- internal/eval/invocation.go: the invocation scenarios, scored against a broker. `call` is `CallTool`
-- of the broker over the corpus, with its servers reachable or the tool's own one offline, whose
-- in-memory store is taken to be set up without an error; `quote` is fmt's `%q`, and `instruction`
-- the text that tells an agent what to do about an error.
pub mod Outcomes
pub mod Tally
use ozy.Json.{Value}
use ozy.Contract.{
  ErrType, tool_not_found, downstream_server_offline, argument_validation_failed,
  tool_schema_changed, downstream_call_failed, auth_unavailable, semantic_search_unavailable,
  config_error, not_implemented, Error, CallResult, invalid_arguments, schema_drifted,
}
use ozy.Schema.{validate}
use ozy.Search.{Scores}
use ozy.Eval.Gate.{InvocationMetrics}
use ozy.Common.{
  ◌==◌, if◌then◌else◌, ◌>>=◌, Str, codes, str_eq, contains, Map, trim_space, to_lower, ℕ, suc, ◌+◌,
  Bool, true, false, not, ◌&&◌, ◌||◌, Option, none, some, List, [], ◌∷◌,
}

-- the fields of `CatalogTool` that are read here
pub record CorpusTool : Type 0 where
  pub tool_ref : Str
  pub server_id : Str
  pub name : Str
  pub input_schema : Map Value

-- `ExpectedOutcome`
pub data Expected : Type 0 where
  success repair error unknown : Expected

pub record Scenario : Type 0 where
  pub tool_ref : Str
  pub arguments : Map Value
  pub expected_outcome : Expected
  pub expected_error : Option ErrType
  pub corrected : Map Value
  pub live_schema : Map Value

-- a result and an error, of which either may be nil
pub record Called : Type 0 where
  pub result : Option CallResult
  pub err : Option Error

abbrev pub drifted : CorpusTool → Called
drifted tool = record {
  result = none;
  err = some (record {
    type = tool_schema_changed;
    tool_ref = tool.tool_ref;
    server_id = tool.server_id;
    retryable = false;
    message = schema_drifted;
  });
}

abbrev pub invalid : CorpusTool → List Str → Called
invalid tool problems = record {
  result = none;
  err = some (record {
    type = argument_validation_failed;
    tool_ref = tool.tool_ref;
    server_id = tool.server_id;
    retryable = false;
    message = invalid_arguments problems;
  });
}

abbrev pub no_problems : List Str → Bool
no_problems [] = true
no_problems (p ∷ problems) = false

abbrev pub no_fields : Map Value → Bool
no_fields [] = true
no_fields (f ∷ fields) = false

abbrev pub when_valid : CorpusTool → List Str → Called → Called
when_valid tool [] called = called
when_valid tool (p ∷ problems) called = invalid tool (p ∷ problems)

-- the counters of `invocationAcc`
pub record Acc : Type 0 where
  pub n_success : ℕ
  pub success_ok : ℕ
  pub n_repair : ℕ
  pub repair_ok : ℕ
  pub n_drift : ℕ
  pub drift_ok : ℕ
  pub n_offline : ℕ
  pub offline_ok : ℕ
  pub valid_expected : ℕ
  pub valid_actual : ℕ
  pub err_n : ℕ
  pub err_clear : ℕ

abbrev pub no_counts : Acc
no_counts = record {
  n_success = 0;
  success_ok = 0;
  n_repair = 0;
  repair_ok = 0;
  n_drift = 0;
  drift_ok = 0;
  n_offline = 0;
  offline_ok = 0;
  valid_expected = 0;
  valid_actual = 0;
  err_n = 0;
  err_clear = 0;
}

abbrev pub one_if : Bool → ℕ → ℕ
one_if b n = if b then suc n else n

abbrev pub same_type : ErrType → ErrType → Bool
same_type tool_not_found tool_not_found = true
same_type downstream_server_offline downstream_server_offline = true
same_type argument_validation_failed argument_validation_failed = true
same_type tool_schema_changed tool_schema_changed = true
same_type downstream_call_failed downstream_call_failed = true
same_type auth_unavailable auth_unavailable = true
same_type semantic_search_unavailable semantic_search_unavailable = true
same_type config_error config_error = true
same_type not_implemented not_implemented = true
same_type _ _ = false

-- `err != nil && err.Type == expected`
abbrev pub is_error : Option ErrType → Option Error → Bool
is_error (some t) (some e) = same_type e.type t
is_error _ _ = false

abbrev pub call_ok : Called → Bool
call_ok c = elim c.err [ some e ↦ false | none ↦ elim c.result [ none ↦ false | some r ↦ r.ok ] ]

module _ (quote : Str → Str) (instruction : Error → Str)
    (call : Bool → Str → Map Value → Called) where
  unfoldable pub valid : Map Value → Map Value → Bool
  valid schema args = no_problems (validate quote schema args)

  unfoldable pub call_with_modeling : Bool → CorpusTool → Map Value → Map Value → Called
  unfolding valid
  call_with_modeling offline tool live_schema args =
      if not (no_fields live_schema)
        && (valid tool.input_schema args && not (valid live_schema args))
      then drifted tool
      else when_valid tool (validate quote tool.input_schema args) (call offline tool.tool_ref args)

  abbrev pub mentions_any : Str → List Str → Bool
  mentions_any text [] = false
  mentions_any text (w ∷ ws) = contains text w || mentions_any text ws

  unfoldable pub is_non_amplifying : Error → Bool
  is_non_amplifying e =
      not e.retryable
      || mentions_any (to_lower (instruction e)) (
          codes "after"
          ∷ codes "check"
          ∷ codes "verify"
          ∷ codes "refresh"
          ∷ codes "reconnect"
          ∷ codes "wait"
          ∷ codes "fix"
          ∷ codes "backoff"
          ∷ codes "health"
          ∷ codes "later"
          ∷ [])

  -- every error of the model has a type
  unfoldable pub error_is_clear : Error → Bool
  unfolding is_non_amplifying
  error_is_clear e = not (str_eq (trim_space (instruction e)) []) && is_non_amplifying e

  abbrev pub observe_valid_expected : Bool → Acc → Acc
  observe_valid_expected ok a = record a {
    valid_expected = suc a.valid_expected;
    valid_actual = one_if ok a.valid_actual;
  }

  abbrev pub observe_err : Option Error → Acc → Acc
  observe_err none a = a
  observe_err (some e) a = record a {
    err_n = suc a.err_n;
    err_clear = one_if (error_is_clear e) a.err_clear;
  }

  unfoldable pub score_success : CorpusTool → Scenario → Acc → Acc
  unfolding call_with_modeling error_is_clear
  score_success tool s a =
      let c = call_with_modeling false tool [] s.arguments in
      let b = observe_err c.err (observe_valid_expected (valid tool.input_schema s.arguments) a) in
      record b { n_success = suc a.n_success; success_ok = one_if (call_ok c) a.success_ok }

  unfoldable pub score_repair : CorpusTool → Scenario → Acc → Acc
  unfolding call_with_modeling error_is_clear
  score_repair tool s a =
      let c = call_with_modeling false tool [] s.arguments in
      let d = call_with_modeling false tool [] s.corrected in
      let b =
        observe_err d.err
          (observe_valid_expected (valid tool.input_schema s.corrected) (observe_err c.err a)) in
      record b {
        n_repair = suc a.n_repair;
        repair_ok = one_if (is_error s.expected_error c.err && call_ok d) a.repair_ok;
      }

  abbrev pub count_error : Option ErrType → Option Error → Acc → Acc
  count_error (some tool_schema_changed) e a = record a {
    n_drift = suc a.n_drift;
    drift_ok = one_if (is_error (some tool_schema_changed) e) a.drift_ok;
  }
  count_error (some downstream_server_offline) e a = record a {
    n_offline = suc a.n_offline;
    offline_ok = one_if (is_error (some downstream_server_offline) e) a.offline_ok;
  }
  count_error _ e a = a

  abbrev pub goes_offline : Option ErrType → Bool
  goes_offline (some downstream_server_offline) = true
  goes_offline _ = false

  unfoldable pub score_error : CorpusTool → Scenario → Acc → Acc
  unfolding call_with_modeling error_is_clear
  score_error tool s a =
      let c = call_with_modeling (goes_offline s.expected_error) tool s.live_schema s.arguments in
      count_error s.expected_error c.err (observe_err c.err a)

  abbrev pub score : Expected → CorpusTool → Scenario → Acc → Acc
  score success tool s a = score_success tool s a
  score repair tool s a = score_repair tool s a
  score error tool s a = score_error tool s a
  score unknown tool s a = a

  unfoldable pub tool_by_ref : Str → List CorpusTool → Option CorpusTool
  tool_by_ref ref [] = none
  tool_by_ref ref (t ∷ tools) = if str_eq t.tool_ref ref then some t else tool_by_ref ref tools

  abbrev pub score_found : Option CorpusTool → Scenario → Acc → Option Acc
  score_found none s a = none
  score_found (some tool) s a = some (score s.expected_outcome tool s a)

  -- `none`: a scenario names a tool that the corpus does not have
  unfoldable pub run_invocation : List CorpusTool → List Scenario → Acc → Option Acc
  unfolding tool_by_ref score_success score_repair score_error
  run_invocation tools [] a = some a
  run_invocation tools (s ∷ scenarios) a =
      score_found (tool_by_ref s.tool_ref tools) s a >>= λ b. run_invocation tools scenarios b

  module _ (S : Scores) where
    abbrev pub rate : ℕ → ℕ → S.Score
    rate num den = if den == 0 then S.nought else S.div (S.of_nat num) (S.of_nat den)

    unfoldable pub metrics : Acc → InvocationMetrics S
    metrics a = record {
      n = a.n_success + a.n_repair + a.n_drift + a.n_offline;
      valid_argument_rate = rate a.valid_actual a.valid_expected;
      first_call_success = rate a.success_ok a.n_success;
      repair_success = rate a.repair_ok a.n_repair;
      schema_error_rate = rate a.drift_ok a.n_drift;
      offline_handled_rate = rate a.offline_ok a.n_offline;
      error_clarity = rate a.err_clear a.err_n;
    }
