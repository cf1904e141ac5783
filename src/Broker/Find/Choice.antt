-- ===== src/Broker/Find/Choice.antt =====
-- internal/broker/live.go: what an agent may rely on in the answer of `FindTool`.
use ozy.Contract.{Verdict, use_tool, no_good_match, ambiguous, catalog_empty}
use ozy.Catalog.{Tool}
use ozy.Config.{effective_max_results, default_find_tool_max_results, Config}
use ozy.Json.{Value}
use ozy.Search.{Scores, RankedEntry, Decision, decide}
use ozy.Broker.Find.{
  respond, selected_tool, compared, find_result, as_alternative, alternatives, chosen, SelectedTool,
  FindResult, NextAction, call_selected, describe_selected, call_candidate, refine_query,
  max_results,
}
use ozy.Common.{
  if◌then◌else◌, is_some, Str, length, take, length-take-le, length-map, ℤ, is_positive, nat_of, ℕ,
  zero, suc, ◌+◌, ◌-◌, ◌≤◌, ◌<◌, ◌≡◌, refl, Bool, true, false, Option, none, some, List, [], ◌∷◌,
  arith, pos, negsuc,
}

-- The selected tool and the alternatives are as many as this.
abbrev pub shown : FindResult → ℕ
shown r = elim r.selected [ none ↦ length r.alternatives | some s ↦ 1 + length r.alternatives ]

-- The next action fits what the answer holds: a direct call goes with the selected tool's whole
-- schema, a look at the schema with a selected tool without one, and both name that tool.
abbrev pub Actionable : Option NextAction → FindResult → Type 0
Actionable none r = r.selected ≡ none
Actionable (some (call_selected ref)) r =
    (s : SelectedTool) × (r.selected ≡ some s)
    × (s.tool_ref ≡ ref)
    × (is_some s.input_schema ≡ true)
Actionable (some (describe_selected ref)) r =
    (s : SelectedTool) × (r.selected ≡ some s) × (s.tool_ref ≡ ref) × (s.input_schema ≡ none)
Actionable (some call_candidate) r = (r.decision ≡ ambiguous) × (is_some r.selected ≡ true)
Actionable (some refine_query) r = (r.decision ≡ no_good_match) × (r.selected ≡ none)

at_least_one : (n : ℤ) → 0 < (if is_positive n then nat_of n else default_find_tool_max_results)
at_least_one (pos zero) = omega arith
at_least_one (pos (suc n)) = omega arith
at_least_one (negsuc n) = omega arith

max_results-pos : (cfg : Option Config) → 0 < max_results cfg
unfolding effective_max_results
max_results-pos none = omega arith
max_results-pos (some cfg) = at_least_one cfg.budgets.find_tool_max_results

module _ (S : Scores) (marshal : Value → Option Str) (cfg : Option Config) where
  abbrev pub Good : FindResult → Type 0
  Good r = (shown r ≤ max_results cfg) × Actionable r.next_action r

  length-alternatives :
      (es : List (RankedEntry S)) → 1 + length (alternatives S marshal cfg es) ≤ max_results cfg
  unfolding alternatives
  length-alternatives [] = max_results-pos cfg
  length-alternatives (e ∷ es) = omega (
    arith,
    max_results-pos cfg,
    length-map (as_alternative S marshal cfg) (take (max_results cfg - 1) es),
    length-take-le (max_results cfg - 1) es,
  )

  picked-Good :
      (es : List (RankedEntry S)) (confidence : Str) (t : Tool) (inlined : Bool)
      → Good (record {
        decision = use_tool;
        confidence = confidence;
        selected = some (selected_tool t inlined);
        alternatives = alternatives S marshal cfg es;
        candidates = [];
        next_action =
            some (if inlined then call_selected t.tool_ref else describe_selected t.tool_ref);
      })
  picked-Good es confidence t true = (length-alternatives es, (_, refl, refl, refl))
  picked-Good es confidence t false = (length-alternatives es, (_, refl, refl, refl))

  chosen-Good :
      (es : List (RankedEntry S)) (confidence : Str) (e : Option (RankedEntry S))
      → Good (chosen S marshal cfg es confidence e)
  chosen-Good es confidence none = (omega arith, refl)
  chosen-Good es confidence (some e) = picked-Good es confidence e.tool _

  compared-Good :
      (es : List (RankedEntry S)) (e runner_up : Option (RankedEntry S))
      → Good (compared S marshal cfg es e runner_up)
  compared-Good es none runner_up = (omega arith, refl)
  compared-Good es (some e) runner_up = (length-alternatives es, (refl, refl))

  respond-Good :
      (es : List (RankedEntry S)) (d : Decision S) (v : Verdict)
      → Good (respond S marshal cfg es d v)
  respond-Good es d use_tool = chosen-Good es d.confidence d.selected
  respond-Good es d ambiguous = compared-Good es d.selected d.runner_up
  respond-Good es d no_good_match = (omega arith, (refl, refl))
  respond-Good es d catalog_empty = (omega arith, refl)

  -- For every ranking, the selected tool and the alternatives are together at most the configured
  -- number of results, and the next action fits the answer: it names the selected tool, as a direct
  -- call exactly when that tool's whole schema is inlined, it compares candidates only if the
  -- verdict is ambiguous and a tool is selected, it asks for a new query only if nothing matched
  -- well, and there is none only if no tool is selected.
  pub find_result-Good : (es : List (RankedEntry S)) → Good (find_result S marshal cfg es)
  unfolding find_result
  find_result-Good es = respond-Good es (decide S es) (decide S es).verdict
