-- ===== src/Search/Tests.antt =====
-- Scores as exact fractions, at which the theorems on ranking apply.
use ozy.Search.{by_fused, Semantic, RankedEntry, rank_fused, Scores}
use ozy.Search.{hits, query_failed}
use ozy.Catalog.{Tool, fresh, online}
use ozy.Search.Decide.{Ordered, Advised, decide-Advised}
use ozy.Common.{
  ◌/◌, leb, if◌then◌else◌, Str, codes, All, Sorted, ℕ, ◌+◌, ◌-◌, ◌*◌, ◌≡◌, refl, true, false, some,
  List, [], ◌∷◌, map, Perm, arith,
}
use ozy.Search.Lexical.{rank_tools, by_lexical}
use ozy.Search.Tokens.{Bm25, tokenize}
use ozy.Search.Lexical.Ranking.{Explained, rank_tools_complete}

abbrev Fraction : Type 0
Fraction = ℕ × ℕ

-- Fractions of whole numbers, compared by cross multiplication; subtraction stops at zero.
abbrev fractions : Scores
fractions = record {
  Score = Fraction;
  nought = (0, 1);
  add = λ a b. (a.0 * b.1 + b.0 * a.1, a.1 * b.1);
  sub = λ a b. (a.0 * b.1 - b.0 * a.1, a.1 * b.1);
  div = λ a b. (a.0 * b.1, a.1 * b.0);
  at_most = λ a b. leb (a.0 * b.1) (b.0 * a.1);
  of_nat = λ n. (n, 1);
  lexical_relevance_floor = (1, 5);
  semantic_relevance_floor = (3, 10);
  separation_margin = (1, 10000);
  high_confidence_threshold = (3, 100);
}

fractions-total : (a b : Fraction) → fractions.at_most a b ≡ false → fractions.at_most b a ≡ true
fractions-total a b h = ground arith

abbrev tool_named : Str → Tool
tool_named ref = record {
  tool_ref = ref;
  server_id = codes "github";
  downstream_tool_name = [];
  title = [];
  description = [];
  input_schema = [];
  capability_text = [];
  server_status = online;
  callable_now = true;
  read_only = true;
  last_indexed_at = 0;
  schema_hash = [];
  freshness = fresh;
}

abbrev scored : Tool → RankedEntry fractions
scored t = record {
  tool = t;
  lexical_score = (4, 1);
  semantic_score = (0, 1);
  fused_score = (0, 1);
  matched_terms = [];
  top_contributing_fields = [];
  reason = [];
}

abbrev two_tools : List Tool
two_tools = tool_named (codes "github.a") ∷ tool_named (codes "github.b") ∷ []

-- A provider that prefers the second tool, and one that fails.
abbrev prefers_b : Semantic fractions
prefers_b = some (λ query k. hits (record { tool_ref = codes "github.b"; score = (1, 2) } ∷ []))

-- Scores in ten-thousandths.
abbrev scaled : Scores
scaled = record {
  Score = ℕ;
  nought = 0;
  add = λ a b. a + b;
  sub = λ a b. a - b;
  div = λ a b. a * 10000 / b;
  at_most = λ a b. leb a b;
  of_nat = λ n. n * 10000;
  lexical_relevance_floor = 2000;
  semantic_relevance_floor = 3000;
  separation_margin = 1;
  high_confidence_threshold = 300;
}

scaled-Ordered : Ordered scaled
scaled-Ordered = record {
  total = λ a b h. ground arith;
  transitive = λ a b c h k. ground arith;
  antitone = λ t a b h. ground arith;
}

abbrev worded : Tool → RankedEntry scaled
worded t = record {
  tool = t;
  lexical_score = 40000;
  semantic_score = 0;
  fused_score = 0;
  matched_terms = [];
  top_contributing_fields = [];
  reason = [];
}

abbrev offline : Semantic scaled
offline = some (λ query k. query_failed)

decide-Advised_example :
    Advised scaled
      (rank_fused scaled (λ query tools. map worded tools) offline (codes "the github") two_tools)
decide-Advised_example =
    decide-Advised scaled scaled-Ordered (λ query tools. map worded tools) offline
      (codes "the github") two_tools

-- The logarithm is left out here: the theorems hold for any function in its place.
abbrev whole : ℕ → Fraction
whole n = (n, 1)

abbrev bm25 : Bm25 fractions
bm25 = record {
  mul = λ a b. (a.0 * b.0, a.1 * b.1);
  log = λ a. a;
  max = λ a b. if leb (a.0 * b.1) (b.0 * a.1) then b else a;
  boost_tool_ref = whole 8;
  boost_downstream_name = whole 6;
  boost_title = whole 5;
  boost_capability_alias = whole 3;
  boost_server_id = whole 2;
  boost_description = (3, 2);
  boost_schema_field_name = (4, 5);
  boost_schema_description = (1, 2);
  bm25_k1 = (6, 5);
  bm25_b = (3, 4);
  half = (1, 2);
  reason_idf_floor = (2, 5);
}

rank_tools_complete_example :
    Perm (map (λ e. e.tool) (rank_tools fractions bm25 (codes "the github") two_tools)) two_tools
    × Sorted (by_lexical fractions bm25) (rank_tools fractions bm25 (codes "the github") two_tools)
    × All
        (Explained fractions bm25 (codes "the github"))
        (rank_tools fractions bm25 (codes "the github") two_tools)
    × Perm
        (map
          (λ e. e.tool)
          (rank_fused fractions
            (rank_tools fractions bm25)
            prefers_b
            (codes "the github")
            two_tools))
        two_tools
    × Sorted
        (by_fused fractions)
        (rank_fused fractions (rank_tools fractions bm25) prefers_b (codes "the github") two_tools)
rank_tools_complete_example =
    rank_tools_complete fractions bm25 fractions-total prefers_b (codes "the github") two_tools

tokens_example :
    tokenize (codes "Get-Issue #7 of_repo")
    ≡ codes "get" ∷ codes "issue" ∷ codes "of" ∷ codes "repo" ∷ []
unfolding tokenize
tokens_example = refl
