-- ===== src/Search.antt =====
-- internal/search: search.go, engine.go and fusion.go. The lexical ranking (lexical.go) and the
-- semantic provider are arguments: a function to ranked entries, and what the provider answers.
-- `Scores` stands for float64: the operations that the code uses and its literals. The numbers
-- reached are finite, and so comparable.
pub mod Fusion
pub mod Decide
pub mod Lexical
pub mod Tokens
mod Tests
use ozy.Catalog.{Tool, Reply, ok, fail}
use ozy.Contract.{Verdict, use_tool, no_good_match, ambiguous, catalog_empty}
use ozy.Common.{
  ◌==◌, if◌then◌else◌, is_some, Str, codes, str_eq, length, head?, sort_by, Map, lookup, insert, ℕ,
  zero, suc, Bool, true, false, not, ◌||◌, Option, none, some, List, [], ◌∷◌,
}

pub record Scores : Type 1 where
  pub Score : Type 0
  pub nought : Score
  pub add : Score → Score → Score
  pub sub : Score → Score → Score
  pub div : Score → Score → Score
  -- `a <= b`
  pub at_most : Score → Score → Bool
  -- `float64(n)`
  pub of_nat : ℕ → Score
  -- the constants of fusion.go that are not whole numbers
  pub lexical_relevance_floor : Score
  pub semantic_relevance_floor : Score
  pub separation_margin : Score
  pub high_confidence_threshold : Score

module _ (S : Scores) where
  open S use {
    Score, nought, add, sub, div, at_most, of_nat, lexical_relevance_floor,
    semantic_relevance_floor, separation_margin, high_confidence_threshold,
  }

  -- search.go: `RankedEntry`
  pub record RankedEntry : Type 0 where
    pub tool : Tool
    pub lexical_score : Score
    pub semantic_score : Score
    pub fused_score : Score
    pub matched_terms : List Str
    pub top_contributing_fields : List Str
    pub reason : Str

  pub record Ranking : Type 0 where
    pub entries : List RankedEntry
    pub semantic_available : Bool
    pub semantic_degraded : Bool

  pub record SemanticHit : Type 0 where
    pub tool_ref : Str
    pub score : Score

  -- What `Query` returns; `nil` hits without an error are `missing`.
  pub data QueryResult : Type 0 where
    hits : List SemanticHit → QueryResult
    missing query_failed : QueryResult

  -- The `Semantic` of an engine: `none` when it is nil or says that it is not available.
  abbrev pub Semantic : Type 0
  Semantic = Option (Str → ℕ → QueryResult)

  -- fusion.go: `RRFK`, `LexSatK`
  abbrev pub rrf_k : Score
  rrf_k = of_nat 60

  abbrev pub lex_sat_k : Score
  lex_sat_k = of_nat 6

  -- the loop that fills `byRef`: a later entry of the same reference replaces an earlier one
  abbrev pub positions : ℕ → List RankedEntry → Map ℕ → Map ℕ
  positions i [] by_ref = by_ref
  positions i (e ∷ es) by_ref = positions (suc i) es (insert e.tool.tool_ref i by_ref)

  abbrev pub set_semantic : ℕ → Score → List RankedEntry → List RankedEntry
  set_semantic i s [] = []
  set_semantic zero s (e ∷ es) = record e { semantic_score = s } ∷ es
  set_semantic (suc i) s (e ∷ es) = e ∷ set_semantic i s es

  -- the loop that stashes the similarities
  abbrev pub stash : List SemanticHit → Map ℕ → List RankedEntry → List RankedEntry
  stash [] by_ref es = es
  stash (h ∷ hs) by_ref es =
      stash hs by_ref
        (elim (lookup h.tool_ref by_ref) [ none ↦ es | some i ↦ set_semantic i h.score es ])

  -- `rankOfHits`, from the rank of the first hit
  abbrev pub rank_from : ℕ → List SemanticHit → Str → ℕ
  rank_from n [] ref = n
  rank_from n (h ∷ hs) ref = if str_eq h.tool_ref ref then n else rank_from (suc n) hs ref

  abbrev pub rank_of_hits : List SemanticHit → Str → ℕ
  rank_of_hits hs ref = rank_from 1 hs ref

  abbrev pub no_hits : List SemanticHit → Bool
  no_hits [] = true
  no_hits (_ ∷ _) = false

  -- `1.0 / (RRFK + float64(rank))`
  abbrev pub reciprocal : ℕ → Score
  reciprocal rank = div (of_nat 1) (add rrf_k (of_nat rank))

  abbrev pub fused : ℕ → List SemanticHit → Str → Score
  fused lex_rank hs ref =
      if no_hits hs
      then reciprocal lex_rank
      else add (reciprocal lex_rank) (reciprocal (rank_of_hits hs ref))

  -- the loop of the fusion; the first argument is `i + 1`
  abbrev pub fuse : ℕ → List SemanticHit → List RankedEntry → List RankedEntry
  fuse lex_rank hs [] = []
  fuse lex_rank hs (e ∷ es) =
      record e { fused_score = fused lex_rank hs e.tool.tool_ref } ∷ fuse (suc lex_rank) hs es

  -- the order of `sort.SliceStable`: `a` stays before `b` unless `b` scores more
  abbrev pub by_fused : RankedEntry → RankedEntry → Bool
  by_fused a b = at_most b.fused_score a.fused_score

  abbrev pub hits_of : Semantic → Str → ℕ → List SemanticHit
  hits_of none query k = []
  hits_of (some ask) query k = elim (ask query k) [
    | hits hs ↦ hs
    | missing ↦ []
    | query_failed ↦ []
  ]

  abbrev pub degraded : Semantic → Str → ℕ → Bool
  degraded none query k = false
  degraded (some ask) query k = elim (ask query k) [
    | hits hs ↦ false
    | missing ↦ true
    | query_failed ↦ true
  ]

  abbrev pub query_size : List Tool → ℕ
  query_size tools = if length tools == 0 then 10 else length tools

  -- `if len(tools) > 0 { lexEntries = rankTools(query, tools) }`
  abbrev pub lexical_entries :
      (Str → List Tool → List RankedEntry) → Str → List Tool → List RankedEntry
  lexical_entries rank_tools query [] = []
  lexical_entries rank_tools query (t ∷ ts) = rank_tools query (t ∷ ts)

  unfoldable pub rank_fused :
      (Str → List Tool → List RankedEntry) → Semantic → Str → List Tool → List RankedEntry
  rank_fused rank_tools semantic query tools =
      let lex = lexical_entries rank_tools query tools in
      let hs = hits_of semantic query (query_size tools) in
      sort_by by_fused (fuse 1 hs (stash hs (positions 0 lex []) lex))

  -- engine.go: `Find`, on what the store answers
  unfoldable pub find :
      (Str → List Tool → List RankedEntry) → Semantic → Reply (List Tool) → Str → Reply Ranking
  unfolding rank_fused
  find rank_tools semantic (fail e) query = fail e
  find rank_tools semantic (ok tools) query = ok (record {
    entries = rank_fused rank_tools semantic query tools;
    semantic_available = is_some semantic;
    semantic_degraded = degraded semantic query (query_size tools);
  })

  -- fusion.go
  unfoldable pub normalize_lexical : Score → Score
  normalize_lexical s = if at_most s nought then nought else div s (add s lex_sat_k)

  unfoldable pub passes_component_floor : RankedEntry → Bool
  unfolding normalize_lexical
  passes_component_floor e =
      at_most lexical_relevance_floor (normalize_lexical e.lexical_score)
      || at_most semantic_relevance_floor e.semantic_score

  pub record Decision : Type 0 where
    pub verdict : Verdict
    pub selected : Option RankedEntry
    pub runner_up : Option RankedEntry
    pub confidence : Str

  abbrev pub second_score : List RankedEntry → Score
  second_score [] = nought
  second_score (r ∷ _) = r.fused_score

  abbrev pub confidence_of : RankedEntry → Str
  confidence_of top =
      if at_most high_confidence_threshold top.fused_score then codes "high" else codes "medium"

  unfoldable pub decide : List RankedEntry → Decision
  unfolding passes_component_floor
  decide [] = record { verdict = catalog_empty; selected = none; runner_up = none; confidence = [] }
  decide (top ∷ others) =
      if not (passes_component_floor top)
      then record {
        verdict = no_good_match;
        selected = some top;
        runner_up = head? others;
        confidence = [];
      }
      else if at_most separation_margin (sub top.fused_score (second_score others))
      then record {
        verdict = use_tool;
        selected = some top;
        runner_up = head? others;
        confidence = confidence_of top;
      }
      else record {
        verdict = ambiguous;
        selected = some top;
        runner_up = head? others;
        confidence = [];
      }
