-- ===== src/Search/Fusion.antt =====
-- internal/search/engine.go: what fusing the two rankings does to the entries.
use ozy.Search.{
  positions, query_size, by_fused, lexical_entries, hits_of, stash, reciprocal, fuse, set_semantic,
  Semantic, rank_fused, RankedEntry, SemanticHit, Scores,
}
use mathlib.Core.List.Perm
use ozy.Catalog.{Tool}
use ozy.Common.{
  Option-cases, Str, sort_by-perm, Sorted, sort_by-Sorted, sort_by_of_Sorted, Map, lookup, ℕ, zero,
  suc, ◌≡◌, refl, ap, ◌∙◌, inl, inr, true, false, List, [], ◌∷◌, map, Perm,
}

module _ (S : Scores) where
  open S use {Score, at_most}

  tools_of : List (RankedEntry S) → List Tool
  tools_of = map (λ e. e.tool)

  set_semantic-tools :
      (i : ℕ) (s : Score) (es : List (RankedEntry S))
      → map (λ e. e.tool) (set_semantic S i s es) ≡ map (λ e. e.tool) es
  set_semantic-tools i s [] = refl
  set_semantic-tools zero s (e ∷ es) = refl
  set_semantic-tools (suc i) s (e ∷ es) = ap (◌∷◌ e.tool) (set_semantic-tools i s es)

  stash-tools :
      (hs : List (SemanticHit S)) (m : Map ℕ) (es : List (RankedEntry S))
      → map (λ e. e.tool) (stash S hs m es) ≡ map (λ e. e.tool) es
  stash-tools [] m es = refl
  stash-tools (h ∷ hs) m es = elim (Option-cases (lookup h.tool_ref m)) [
    | inl e ↦ rw e (stash-tools hs m es)
    | inr (i, e) ↦
        rw e (stash-tools hs m (set_semantic S i h.score es) ∙ set_semantic-tools i h.score es)
  ]

  fuse-tools :
      (n : ℕ) (hs : List (SemanticHit S)) (es : List (RankedEntry S))
      → map (λ e. e.tool) (fuse S n hs es) ≡ map (λ e. e.tool) es
  fuse-tools n hs [] = refl
  fuse-tools n hs (e ∷ es) = ap (◌∷◌ e.tool) (fuse-tools (suc n) hs es)

  module _ (total : (a b : Score) → at_most a b ≡ false → at_most b a ≡ true) where
    -- Whatever the semantic provider answers, the fused ranking lists the tools of the lexical
    -- ranking, each as often as it is there, by descending fused score.
    pub rank_fused-reorders :
        (rank_tools : Str → List Tool → List (RankedEntry S)) (semantic : Semantic S) (query : Str)
        (tools : List Tool)
        → Perm
            (map (λ e. e.tool) (rank_fused S rank_tools semantic query tools))
            (map (λ e. e.tool) (lexical_entries S rank_tools query tools))
          × Sorted (by_fused S) (rank_fused S rank_tools semantic query tools)
    unfolding rank_fused
    rank_fused-reorders rank_tools semantic query tools =
        let lex = lexical_entries S rank_tools query tools in
        let hs = hits_of S semantic query (query_size S tools) in
        let es = fuse S 1 hs (stash S hs (positions S 0 lex []) lex) in
        (
          Perm.trans (Perm.map (λ e. e.tool) (sort_by-perm (by_fused S) es)) (
              rw
                (fuse-tools 1 hs (stash S hs (positions S 0 lex []) lex)
                  ∙ stash-tools hs (positions S 0 lex []) lex)
                (Perm.refl (map (λ e. e.tool) lex))),
          sort_by-Sorted (by_fused S) (λ a b h. total b.fused_score a.fused_score h) es,
        )

  fuse_alone-Sorted :
      (n : ℕ) (es : List (RankedEntry S))
      → ((i : ℕ) → at_most (reciprocal S (suc i)) (reciprocal S i) ≡ true)
      → Sorted (by_fused S) (fuse S n [] es)
  fuse_alone-Sorted n [] down = tt
  fuse_alone-Sorted n (e ∷ []) down = tt
  fuse_alone-Sorted n (e ∷ f ∷ es) down = (down n, fuse_alone-Sorted (suc n) (f ∷ es) down)

  -- If the scores are totally ordered and `1 / (60 + rank)` does not grow with the rank, then without semantic hits, a failing
  -- provider included, the tools stay in the lexical order.
  lexical_order :
      (rank_tools : Str → List Tool → List (RankedEntry S)) (semantic : Semantic S) (query : Str)
      (tools : List Tool)
      → ((a b : Score) → at_most a b ≡ false → at_most b a ≡ true)
      → ((i : ℕ) → at_most (reciprocal S (suc i)) (reciprocal S i) ≡ true)
      → hits_of S semantic query (query_size S tools) ≡ []
      → map (λ e. e.tool) (rank_fused S rank_tools semantic query tools)
        ≡ map (λ e. e.tool) (lexical_entries S rank_tools query tools)
  unfolding rank_fused
  lexical_order rank_tools semantic query tools total down h =
      let lex = lexical_entries S rank_tools query tools in
      rw
        (
          h,
          sort_by_of_Sorted (by_fused S) (λ a b k. total b.fused_score a.fused_score k)
              (fuse S 1 [] lex) (fuse_alone-Sorted 1 lex down),
        )
        (fuse-tools 1 [] lex)
