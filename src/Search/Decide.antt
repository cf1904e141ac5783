-- ===== src/Search/Decide.antt =====
-- internal/search/fusion.go: what `Decide` says of the ranking that the engine delivers.
use ozy.Search.{
  second_score, passes_component_floor, normalize_lexical, decide, RankedEntry, Scores, Semantic,
  by_fused, rank_fused,
}
use ozy.Search.Fusion.{rank_fused-reorders}
use ozy.Catalog.{Tool}
use ozy.Contract.{use_tool, no_good_match, ambiguous, catalog_empty}
use ozy.Common.{
  Bool-cases, head?, Str, All, Sorted, ◌≡◌, refl, ◌↔◌, ◌⊎◌, inl, inr, Bool, true, false, some, List,
  [], ◌∷◌, arith,
}

module _ (S : Scores) where
  open S use {
    Score, nought, at_most, sub, separation_margin, lexical_relevance_floor,
    semantic_relevance_floor,
  }

  -- What is asked of the order of float64 and of its subtraction, on the finite numbers reached.
  pub record Ordered : Type 0 where
    pub total : (a b : Score) → at_most a b ≡ false → at_most b a ≡ true
    pub transitive : (a b c : Score) → at_most a b ≡ true → at_most b c ≡ true → at_most a c ≡ true
    pub antitone : (t a b : Score) → at_most b a ≡ true → at_most (sub t a) (sub t b) ≡ true

  -- The entry is relevant by its words or by its meaning.
  abbrev pub IsRelevant : RankedEntry S → Type 0
  IsRelevant e =
      (at_most lexical_relevance_floor (normalize_lexical S e.lexical_score) ≡ true)
      ⊎ (at_most semantic_relevance_floor e.semantic_score ≡ true)

  -- One score is the margin or more above another.
  abbrev pub Above : Score → Score → Type 0
  Above a b = at_most separation_margin (sub a b) ≡ true

  -- The first entry stands out from every other one of the ranking, and from nothing if it is alone.
  abbrev pub StandsOut : RankedEntry S → List (RankedEntry S) → Type 0
  StandsOut top [] = Above top.fused_score nought
  StandsOut top (e ∷ es) = All (λ o. Above top.fused_score o.fused_score) (e ∷ es)

  abbrev pub Advised : List (RankedEntry S) → Type 0
  Advised [] = (decide S []).verdict ≡ catalog_empty
  Advised (top ∷ others) =
      ((decide S (top ∷ others)).selected ≡ some top)
      × ((decide S (top ∷ others)).runner_up ≡ head? others)
      × (((decide S (top ∷ others)).verdict ≡ use_tool) ↔ (IsRelevant top × StandsOut top others))
      × (((decide S (top ∷ others)).verdict ≡ ambiguous)
          ↔ (IsRelevant top × (StandsOut top others → ⊥)))
      × (((decide S (top ∷ others)).verdict ≡ no_good_match) ↔ (IsRelevant top → ⊥))

  clash : {b : Bool} → b ≡ true → b ≡ false → ⊥
  clash h k = cc

  -- The two tests of `Decide` and what they mean.
  IsRelevant-iff : (e : RankedEntry S) → (passes_component_floor S e ≡ true) ↔ IsRelevant e
  unfolding passes_component_floor
  IsRelevant-iff e =
      elim (Bool-cases (at_most lexical_relevance_floor (normalize_lexical S e.lexical_score))) [
        | inl t ↦ (λ h. inl t, λ h. rw t refl)
        | inr f ↦ (λ h. inr (rw f at h), λ h. ground arith)
      ]

  module _ (law : Ordered) where
    below :
        (r : RankedEntry S) (es : List (RankedEntry S))
        → Sorted (by_fused S) (r ∷ es)
        → All (λ e. at_most e.fused_score r.fused_score ≡ true) es
    below r [] h = tt
    below r (e ∷ []) h = (h.0, tt)
    below r (e ∷ f ∷ es) h = (
      h.0,
      below r (f ∷ es) (law.transitive f.fused_score e.fused_score r.fused_score h.1.0 h.0, h.1.1),
    )

    margin_over_all :
        (t : Score) (r : RankedEntry S) (es : List (RankedEntry S))
        → Above t r.fused_score
        → All (λ e. at_most e.fused_score r.fused_score ≡ true) es
        → All (λ o. Above t o.fused_score) es
    margin_over_all t r [] h k = tt
    margin_over_all t r (e ∷ es) h k = (
      law.transitive separation_margin (sub t r.fused_score) (sub t e.fused_score) h
          (law.antitone t r.fused_score e.fused_score k.0),
      margin_over_all t r es h k.1,
    )

    -- In a sorted ranking it is enough to look at the second entry.
    StandsOut-iff :
        (top : RankedEntry S) (others : List (RankedEntry S))
        → Sorted (by_fused S) (top ∷ others)
        → Above top.fused_score (second_score S others) ↔ StandsOut top others
    StandsOut-iff top [] h = (λ a. a, λ a. a)
    StandsOut-iff top (r ∷ es) h =
        (λ a. (a, margin_over_all top.fused_score r es a (below r es h.1)), λ a. a.0)

    Sorted-Advised : (es : List (RankedEntry S)) → Sorted (by_fused S) es → Advised es
    unfolding decide
    Sorted-Advised [] h = refl
    Sorted-Advised (top ∷ others) h =
        let r = IsRelevant-iff top in
        let o = StandsOut-iff top others h in
        let margin = at_most separation_margin (sub top.fused_score (second_score S others)) in
        elim (Bool-cases (passes_component_floor S top)) [
          | inr weak ↦ rw weak (
            refl,
            refl,
            (λ v. absurd (grind arith), λ a. absurd (clash (r.1 a.0) weak)),
            (λ v. absurd (grind arith), λ a. absurd (clash (r.1 a.0) weak)),
            (λ v a. clash (r.1 a) weak, λ a. refl),
          )
          | inl strong ↦ elim (Bool-cases margin) [
            | inl far ↦
                rw (strong, far)
                  (
                    refl,
                    refl,
                    (λ v. (r.0 strong, o.0 far), λ a. refl),
                    (λ v. absurd (grind arith), λ a. absurd (a.1 (o.0 far))),
                    (λ v. absurd (grind arith), λ a. absurd (a (r.0 strong))),
                  )
            | inr close ↦
                rw (strong, close)
                  (
                    refl,
                    refl,
                    (λ v. absurd (grind arith), λ a. absurd (clash (o.1 a.1) close)),
                    (λ v. (r.0 strong, λ s. clash (o.1 s) close), λ a. refl),
                    (λ v. absurd (grind arith), λ a. absurd (a (r.0 strong))),
                  )
          ]
        ]

    -- What the decision on the engine's ranking says, whatever the lexical ranking and the semantic
    -- provider answer: it selects the first tool; it advises to use that one exactly when it is
    -- relevant, by its words or by its meaning, and its score is the margin or more above that of
    -- every other tool of the ranking (above zero if it is alone); a relevant tool that does not
    -- stand out makes it ambiguous, and one that is not relevant makes it no good match; an empty
    -- ranking is an empty catalog. This holds if the order of the scores is total and transitive and
    -- subtracting less leaves no less.
    pub decide-Advised :
        (rank_tools : Str → List Tool → List (RankedEntry S)) (semantic : Semantic S) (query : Str)
        (tools : List Tool)
        → Advised (rank_fused S rank_tools semantic query tools)
    decide-Advised rank_tools semantic query tools =
        Sorted-Advised _ (rank_fused-reorders S law.total rank_tools semantic query tools).1
