-- ===== src/Search/Lexical/Ranking.antt =====
-- internal/search/lexical.go and engine.go: what the lexical ranking returns, and the engine on it.
use mathlib.Core.List.Perm
use ozy.Catalog.{Tool}
use ozy.Search.{Scores, RankedEntry, Semantic, rank_fused, lexical_entries, by_fused}
use ozy.Search.Fusion.{rank_fused-reorders}
use ozy.Search.Lexical.{
  LexicalScorer, add_once, matched_terms, new_lexical_scorer, scorer_for, ranked_entry, by_lexical,
  rank_tools,
}
use ozy.Search.Tokens.{Bm25, tokenize, tokens_of, extract_fields}
use ozy.Search.Lexical.Signals.{has-sort_by}
use ozy.Common.{
  Bool-cases, Str, str_eq, str_leb, str_eq_iff, has, All, sort_by-perm, All-sort_by, Sorted,
  sort_by-Sorted, ◌≡◌, refl, ap, ◌∙◌, inl, inr, true, false, ◌&&◌, ◌||◌, List, [], ◌∷◌, map, Perm,
  arith,
}

has-add_once :
    (s : Str) (seen : List Str) (t : Str) → has (add_once s seen) t ≡ (str_eq s t || has seen t)
has-add_once s seen t = elim (Bool-cases (has seen s)) [
  | inl e ↦ rw e (ground (arith, e, str_eq_iff s t))
  | inr e ↦ rw e refl
]

module _ (S : Scores) (B : Bm25 S) where
  has-matched_terms :
      (tokens terms matched : List Str) (t : Str)
      → has (matched_terms S B tokens terms matched) t
        ≡ (has matched t || (has terms t && has tokens t))
  unfolding matched_terms
  has-matched_terms tokens [] matched t = ground arith
  has-matched_terms tokens (qt ∷ terms) matched t = elim (Bool-cases (has tokens qt)) [
    | inl e ↦ rw e (
        ground (
          arith,
          e,
          str_eq_iff qt t,
          has-add_once qt matched t,
          has-matched_terms tokens terms (add_once qt matched) t,
        ))
    | inr e ↦ rw e (ground (arith, e, str_eq_iff qt t, has-matched_terms tokens terms matched t))
  ]

  scorer-terms :
      (query : Str) (tools : List Tool)
      → (new_lexical_scorer S B query tools).query_terms ≡ tokenize query
  unfolding new_lexical_scorer
  scorer-terms query tools = terms_of (tokenize query)
    where
      terms_of : (ts : List Str) → (scorer_for S B ts tools).query_terms ≡ ts
      terms_of [] = refl
      terms_of (t ∷ ts) = refl

  -- The matched terms of an entry are the tokens of the query that are tokens of its tool.
  abbrev pub Explained : Str → RankedEntry S → Type 0
  Explained query e =
      (t : Str)
      → has e.matched_terms t
        ≡ (has (tokenize query) t && has (tokens_of S B (extract_fields S B e.tool)) t)

  explained :
      (query : Str) (tools : List Tool) (tool : Tool)
      → Explained query (ranked_entry S B (new_lexical_scorer S B query tools) tool)
  unfolding ranked_entry
  explained query tools tool t =
      let tokens = tokens_of S B (extract_fields S B tool) in
      let terms = (new_lexical_scorer S B query tools).query_terms in
      has-sort_by str_leb (matched_terms S B tokens terms []) t
      ∙ has-matched_terms tokens terms [] t
      ∙ ap (λ ts. has ts t && has tokens t) (scorer-terms query tools)

  Explained-All :
      (query : Str) (tools ts : List Tool)
      → All (Explained query) (map (ranked_entry S B (new_lexical_scorer S B query tools)) ts)
  Explained-All query tools [] = tt
  Explained-All query tools (t ∷ ts) = (explained query tools t, Explained-All query tools ts)

  tools_kept :
      (ls : LexicalScorer S B) (ts : List Tool)
      → map (λ e. e.tool) (map (ranked_entry S B ls) ts) ≡ ts
  unfolding ranked_entry
  tools_kept ls [] = refl
  tools_kept ls (t ∷ ts) = ap (◌∷◌ t) (tools_kept ls ts)

  rank_tools-perm :
      (query : Str) (tools : List Tool)
      → Perm (map (λ e. e.tool) (rank_tools S B query tools)) tools
  unfolding rank_tools
  rank_tools-perm query tools =
      let entries = map (ranked_entry S B (new_lexical_scorer S B query tools)) tools in
      Perm.trans (Perm.map (λ e. e.tool) (sort_by-perm (by_lexical S B) entries))
        (rw (tools_kept (new_lexical_scorer S B query tools) tools) (Perm.refl tools))

  entries-perm :
      (query : Str) (tools : List Tool)
      → Perm (map (λ e. e.tool) (lexical_entries S (rank_tools S B) query tools)) tools
  entries-perm query [] = Perm.refl []
  entries-perm query (t ∷ ts) = rank_tools-perm query (t ∷ ts)

  -- The lexical ranking lists every tool, as often as it is given, by descending score, and tells of
  -- each exactly which tokens of the query occur among the tool's tokens. The engine, whatever the
  -- semantic provider answers, lists the same tools, by descending fused score.
  pub rank_tools_complete :
      (total : (a b : S.Score) → S.at_most a b ≡ false → S.at_most b a ≡ true)
      (semantic : Semantic S) (query : Str) (tools : List Tool)
      → Perm (map (λ e. e.tool) (rank_tools S B query tools)) tools
        × Sorted (by_lexical S B) (rank_tools S B query tools)
        × All (Explained query) (rank_tools S B query tools)
        × Perm (map (λ e. e.tool) (rank_fused S (rank_tools S B) semantic query tools)) tools
        × Sorted (by_fused S) (rank_fused S (rank_tools S B) semantic query tools)
  unfolding rank_tools
  rank_tools_complete total semantic query tools =
      let (same, down) = rank_fused-reorders S total (rank_tools S B) semantic query tools in
      let entries = map (ranked_entry S B (new_lexical_scorer S B query tools)) tools in
      (
        rank_tools-perm query tools,
        sort_by-Sorted (by_lexical S B) (λ a b h. total b.lexical_score a.lexical_score h) entries,
        All-sort_by (Explained query) (by_lexical S B) entries (Explained-All query tools tools),
        Perm.trans same (entries-perm query tools),
        down,
      )
