-- ===== src/Broker/Find/Tests.antt =====
-- The answer on a ranking of two tools, with fractions as scores.
use ozy.Catalog.{Tool, fresh, online}
use ozy.Search.{Scores, RankedEntry}
use ozy.Broker.Find.{find_result}
use ozy.Broker.Find.Choice.{Good, find_result-Good}
use ozy.Common.{leb, Str, codes, ℕ, ◌+◌, ◌-◌, ◌*◌, true, none, some, List, [], ◌∷◌, map}

abbrev Fraction : Type 0
Fraction = ℕ × ℕ

-- Fractions of whole numbers, compared by cross multiplication; subtraction stops at zero.
abbrev fractions : Scores
fractions = record {
  Score = Fraction;
  nought = (0, 1);
  add = λ a b. (a.0 * b.1 + b.0 * a.1, a.1 * b.1);
  sub = λ a b. (a.0 * b.1 - b.0 * a.1, a.1 * b.1);
  div = λ a b. (a.0 * b.1, a.1 * b.0);
  at_most = λ a b. leb (a.0 * b.1) (b.0 * a.1);
  of_nat = λ n. (n, 1);
  lexical_relevance_floor = (1, 5);
  semantic_relevance_floor = (3, 10);
  separation_margin = (1, 10000);
  high_confidence_threshold = (3, 100);
}

abbrev tool_named : Str → Tool
tool_named ref = record {
  tool_ref = ref;
  server_id = codes "github";
  downstream_tool_name = [];
  title = [];
  description = [];
  input_schema = [];
  capability_text = [];
  server_status = online;
  callable_now = true;
  read_only = true;
  last_indexed_at = 0;
  schema_hash = [];
  freshness = fresh;
}

abbrev scored : Tool → RankedEntry fractions
scored t = record {
  tool = t;
  lexical_score = (4, 1);
  semantic_score = (0, 1);
  fused_score = (0, 1);
  matched_terms = [];
  top_contributing_fields = [];
  reason = [];
}

abbrev two_tools : List Tool
two_tools = tool_named (codes "github.a") ∷ tool_named (codes "github.b") ∷ []

find_result-Good_example :
    Good fractions
      (λ v. some [])
      none
      (find_result fractions (λ v. some []) none (map scored two_tools))
find_result-Good_example = find_result-Good fractions (λ v. some []) none (map scored two_tools)
