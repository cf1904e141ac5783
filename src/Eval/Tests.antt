-- ===== src/Eval/Tests.antt =====
-- internal/eval: gates on a run's metrics, a call that reaches the broker, and a small corpus.
use ozy.Search.{Scores}
use ozy.Eval.Gate.{DiscoveryGate, Thresholds, verdict, verdict_pass, verdict_fail, all_gates}
use ozy.Eval.Gate.Verdicts.{DiscoveryMet, InvocationMet, ErgonomicsMet, OneMet, verdict_iff}
use ozy.Json.{Value}
use ozy.Contract.{Error}
use ozy.Eval.Invocation.{CorpusTool, Called, run_invocation, no_counts, Acc}
use ozy.Eval.Invocation.Outcomes.{Modelled, call_with_modeling-Modelled}
use ozy.Eval.Invocation.Tally.{Counted}
use ozy.Eval.Dataset.{
  ScenarioDoc, scenario_of, catalog_problem, valid_category, validate_discovery_case,
  validate_invocation, known_error_type,
}
use ozy.Eval.Discovery.{DiscoveryCase, DiscoveryMetrics, DiscoveryReport}
use ozy.Eval.Corpus.{Files, Corpus, loaded, load}
use ozy.Eval.Corpus.Usable.{Usable, load-Usable}
use ozy.Common.{
  leb, if◌then◌else◌, Str, codes, str_eq, length, insert_by, sort_by, Map, lookup, trim_left,
  trim_right, ℕ, ◌+◌, ◌-◌, ◌/◌, ◌≡◌, refl, ◌↔◌, Bool, true, false, none, some, [], ◌∷◌, ◌++◌, map,
}

-- Whole numbers, which serve as scores here.
abbrev wholes : Scores
wholes = record {
  Score = ℕ;
  nought = 0;
  add = λ a b. a + b;
  sub = λ a b. a - b;
  div = λ a b. a / b;
  at_most = λ a b. leb a b;
  of_nat = λ n. n;
  lexical_relevance_floor = 0;
  semantic_relevance_floor = 0;
  separation_margin = 0;
  high_confidence_threshold = 0;
}

abbrev metrics_at : ℕ → DiscoveryMetrics wholes
metrics_at top1 = record {
  n = 2;
  top1 = top1;
  top3 = 1;
  mrr = 1;
  wrong_server_rate = 0;
  no_match_correctness = 1;
}

abbrev gate : DiscoveryGate wholes
gate = record {
  top1_min = some 1;
  top3_min = none;
  mrr_min = none;
  wrong_server_rate_max = some 0;
  no_match_correctness_min = none;
  requires_semantic_leg = false;
}

abbrev thresholds : Thresholds wholes
thresholds = record {
  discovery = (codes "overall", gate) ∷ [];
  invocation = none;
  ergonomics = none;
  tokens = some (some 1);
  cache = none;
}

abbrev report : ℕ → DiscoveryReport wholes
report top1 = record { overall = metrics_at top1; by_category = [] }

low_top1_fails :
    verdict wholes (all_gates wholes thresholds (some (report 0)) false none none (some 1) none)
    ≡ verdict_fail
unfolding verdict all_gates str_eq lookup sort_by insert_by
low_top1_fails = refl

verdict_iff_example :
    (verdict wholes (all_gates wholes thresholds (some (report 1)) false none none (some 1) none)
      ≡ verdict_pass)
    ↔ (DiscoveryMet wholes thresholds (some (report 1)) false
        × InvocationMet wholes none none
        × ErgonomicsMet wholes none none
        × OneMet wholes (some (some 1)) (some 1)
        × OneMet wholes none none)
verdict_iff_example = verdict_iff wholes thresholds (some (report 1)) false none none (some 1) none

abbrev quoted : Str → Str
quoted t = codes "'" ++ (t ++ codes "'")

abbrev advice : Error → Str
advice e = codes "refresh the catalog"

abbrev offline_call : Bool → Str → Map Value → Called
offline_call offline ref args = record { result = none; err = none }

abbrev fax : CorpusTool
fax = record {
  tool_ref = codes "fax.send";
  server_id = codes "fax";
  name = codes "send";
  input_schema = [];
}

call_with_modeling-Modelled_example : Modelled quoted advice offline_call false fax [] []
call_with_modeling-Modelled_example =
    call_with_modeling-Modelled quoted advice offline_call false fax [] []

abbrev labelled : DiscoveryCase
labelled = record {
  intent = codes "send a fax";
  acceptable = codes "fax.send" ∷ [];
  category = codes "lexical";
  rationale = codes "the only tool";
}

abbrev drift : ScenarioDoc
drift = record {
  name = codes "drift";
  tool_ref = codes "fax.send";
  arguments = [];
  expected_outcome = codes "error";
  expected_error = codes "DOWNSTREAM_SERVER_OFFLINE";
  corrected = [];
  live_schema = [];
  rationale = codes "the server is down";
}

-- Two directories with one file each, and none for the ergonomics cases.
abbrev files : Files
unfolding str_eq
files = record {
  join = λ dir name. dir ++ (codes "/" ++ name);
  list_dir = λ dir.
      if str_eq dir (codes "discovery")
      then some ((codes "a.jsonl", false) ∷ [])
      else if str_eq dir (codes "invocation")
      then some ((codes "b.json", false) ∷ (codes "notes", true) ∷ [])
      else none;
  read_world = λ file. some (fax ∷ []);
  read_lines = λ file. some ([] ∷ codes "{}" ∷ [], false);
  decode_case = λ text. some labelled;
  read_scenarios = λ file. some (drift ∷ []);
  read_ergonomics = λ file. none;
}

abbrev corpus : Corpus
corpus = record {
  tools = fax ∷ [];
  discovery = labelled ∷ [];
  invocation = drift ∷ [];
  ergonomics = [];
}

loads : load files ≡ loaded corpus
unfolding load files str_eq sort_by catalog_problem valid_category validate_discovery_case
    validate_invocation known_error_type trim_left trim_right
loads = refl

load-Usable_example :
    Usable corpus
    × ((a : Acc) × (run_invocation quoted advice offline_call corpus.tools
            (map scenario_of corpus.invocation)
            no_counts
          ≡ some a)
        × Counted (length (map scenario_of corpus.invocation)) 0 a)
load-Usable_example = load-Usable files quoted advice offline_call corpus loads
