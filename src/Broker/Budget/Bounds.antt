-- ===== src/Broker/Budget/Bounds.antt =====
-- internal/broker/live.go: how large a bounded result is, and what it is a part of.
use mathlib.Core.List.{}
use ozy.Broker.Budget.{
  effective_limit, shorten, bound_result, array_prefix_within_budget, cut_text, apply_call_budget,
  Notice,
}
use mathlib.Core.Path.{subst}
use ozy.Json.{Value, Values, nil, cons, null, str, arr, elements, values_of, as_arr, as_str}
use ozy.Config.{Config}
use ozy.Broker.Budget.{Notice, complete, items, bytes}
use ozy.Common.{
  ap, ◌∙◌, ℤ, true, false, if_case, ltb, leb, Str, length, take, is_positive, nat_of, ℕ, ◌+◌, ◌≤◌,
  ◌<◌, ◌≡◌, refl, sym, ◌⊎◌, inl, inr, Option, none, some, List, arith,
}
use ozy.Broker.Budget.Prefix.{MarshalsArrays, Longest, Stops, body_size, prefix_fits, take-all}
use ozy.Broker.Budget.Cuts.{CutFrom, IsCut, length-cut_at_boundary, cut_at_boundary-IsCut}

-- The limit that a configured number of bytes stands for.
abbrev pub limit_of : ℤ → ℕ
limit_of budget = effective_limit (nat_of budget)

-- The budget asks for nothing: it is off, the result has no encoding, or its encoding fits.
abbrev pub Unlimited : (Value → Option Str) → ℤ → Value → Type 0
Unlimited marshal budget whole =
    (is_positive budget ≡ false)
    ⊎ ((marshal whole ≡ none)
        ⊎ ((b : Str) × (marshal whole ≡ some b) × (length b ≤ limit_of budget)))

-- The budget is on, and the encoding of the result is longer than the limit.
abbrev pub Exceeds : (Value → Option Str) → ℤ → Value → Type 0
Exceeds marshal budget whole =
    (is_positive budget ≡ true)
    × ((b : Str) × (marshal whole ≡ some b) × (limit_of budget < length b))

-- What is asserted of a bounded result and its notice, for the whole result and the budget.
abbrev pub Honest : (Value → Option Str) → (Str → Str) → ℤ → Value → Value × Notice → Type 0
Honest marshal to_valid_utf8 budget whole (shown, complete) =
    (shown ≡ whole) × Unlimited marshal budget whole
Honest marshal to_valid_utf8 budget whole (shown, items kept n l) =
    Exceeds marshal budget whole
    × (l ≡ limit_of budget)
    × ((vs : List Value) × (whole ≡ arr (values_of vs))
        × (n ≡ length vs)
        × (0 < kept)
        × (shown ≡ arr (values_of (take kept vs)))
        × Longest marshal (limit_of budget) kept vs
        × ((b : Str) × (marshal shown ≡ some b) × (length b ≤ limit_of budget)))
Honest marshal to_valid_utf8 budget whole (shown, bytes kept n l is_text) =
    Exceeds marshal budget whole
    × (l ≡ limit_of budget)
    × ((source cut : Str) × CutFrom marshal whole source is_text
        × (n ≡ length source)
        × (shown ≡ str cut)
        × (kept ≡ length cut)
        × (kept ≤ limit_of budget)
        × IsCut to_valid_utf8 (limit_of budget) source cut)

values_of-elements : (vs : Values) → values_of (elements vs) ≡ vs
values_of-elements nil = refl
values_of-elements (cons v vs) = ap (cons v) (values_of-elements vs)

as_arr-eq :
    (whole : Value) (vs : List Value) → as_arr (some whole) ≡ some vs → whole ≡ arr (values_of vs)
as_arr-eq (arr xs) vs h = ap arr (sym (values_of-elements xs) ∙ ap values_of (grind arith))
as_arr-eq null vs h = grind arith
as_arr-eq (str s) vs h = grind arith
as_arr-eq _ vs h = grind arith

as_str-eq : (whole : Value) (s : Str) → as_str (some whole) ≡ some s → whole ≡ str s
as_str-eq (str t) s h = ground arith
as_str-eq null s h = grind arith
as_str-eq _ s h = grind arith

module _ (marshal : Value → Option Str) (to_valid_utf8 : Str → Str) (budget : ℤ) (whole : Value)
    (shrinks : (t : Str) → length (to_valid_utf8 t) ≤ length t)
    (exceeds : Exceeds marshal budget whole) where
  cut_text-Honest :
      (encoded : Str) (text : Option Str)
      → marshal whole ≡ some encoded
      → as_str (some whole) ≡ text
      → Honest marshal to_valid_utf8 budget whole
          (cut_text to_valid_utf8 (limit_of budget) encoded text)
  cut_text-Honest encoded none e t = (
    exceeds,
    refl,
    (
      encoded,
      _,
      (t, e),
      refl,
      refl,
      refl,
      length-cut_at_boundary to_valid_utf8 encoded (limit_of budget) shrinks,
      cut_at_boundary-IsCut to_valid_utf8 encoded (limit_of budget),
    ),
  )
  cut_text-Honest encoded (some text) e t = (
    exceeds,
    refl,
    (
      text,
      _,
      as_str-eq whole text t,
      refl,
      refl,
      refl,
      length-cut_at_boundary to_valid_utf8 text (limit_of budget) shrinks,
      cut_at_boundary-IsCut to_valid_utf8 text (limit_of budget),
    ),
  )

  -- Not all elements are kept, since the whole array does not fit.
  cannot_keep_all :
      (vs : List Value) (j m : ℕ)
      → MarshalsArrays marshal
      → whole ≡ arr (values_of vs)
      → body_size marshal 0 (take j vs) ≡ some m
      → 2 + m ≤ limit_of budget
      → Stops marshal (limit_of budget) 0 2 j vs
      → Longest marshal (limit_of budget) j vs
  cannot_keep_all vs j m writes e size fit (inr more) = more
  cannot_keep_all vs j m writes e size fit (inl all_kept) =
      let full : body_size marshal 0 vs ≡ some m =
        subst (λ l. body_size marshal 0 l ≡ some m) (ap (λ n. take n vs) all_kept ∙ take-all vs)
          size in
      let (b, enc, sized) = writes vs m full in
      let (c, enc', long) = exceeds.1 in
      let same : some b ≡ some c = sym enc ∙ (ap marshal (sym e) ∙ enc') in absurd (ground arith)

  -- The prefix that is kept encodes within the limit.
  prefix-Honest :
      (vs : List Value)
      → MarshalsArrays marshal
      → 2 ≤ limit_of budget
      → as_arr (some whole) ≡ some vs
      → 0 < array_prefix_within_budget marshal vs (limit_of budget)
      → Honest marshal to_valid_utf8 budget whole (
        arr (values_of (take (array_prefix_within_budget marshal vs (limit_of budget)) vs)),
        items
            (array_prefix_within_budget marshal vs (limit_of budget))
            (length vs)
            (limit_of budget),
      )
  unfolding array_prefix_within_budget
  prefix-Honest vs writes room e some_kept =
      let (j, m, found, size, fit, stops) = prefix_fits marshal (limit_of budget) 0 2 vs room in
      let (b, shown, sized) = writes (take j vs) m size in
      let same : array_prefix_within_budget marshal vs (limit_of budget) ≡ j =
        omega (arith, found) in
      (
        exceeds,
        refl,
        (
          vs,
          as_arr-eq whole vs e,
          refl,
          some_kept,
          refl,
          subst (λ k. Longest marshal (limit_of budget) k vs) (sym same)
              (cannot_keep_all vs j m writes (as_arr-eq whole vs e) size fit stops),
          (
            b,
            subst (λ k. marshal (arr (values_of (take k vs))) ≡ some b) (sym same) shown,
            omega arith,
          ),
        ),
      )

  shorten-Honest :
      (encoded : Str)
      → MarshalsArrays marshal
      → 2 ≤ limit_of budget
      → marshal whole ≡ some encoded
      → (vs : Option (List Value)) → as_arr (some whole) ≡ vs
      → Honest marshal to_valid_utf8 budget whole
          (shorten marshal to_valid_utf8 (limit_of budget) encoded whole vs)
  shorten-Honest encoded writes room m none e = cut_text-Honest encoded _ m refl
  shorten-Honest encoded writes room m (some vs) e =
      if_case (Honest marshal to_valid_utf8 budget whole)
        (ltb 0 (array_prefix_within_budget marshal vs (limit_of budget)))
        (λ k. prefix-Honest vs writes room e (ground arith)) (λ k. cut_text-Honest encoded _ m refl)

bound_result-Honest :
    (marshal : Value → Option Str) (to_valid_utf8 : Str → Str) (budget : ℤ) (whole : Value)
    (encoded : Option Str)
    → ((t : Str) → length (to_valid_utf8 t) ≤ length t)
    → MarshalsArrays marshal
    → is_positive budget ≡ true
    → marshal whole ≡ encoded
    → Honest marshal to_valid_utf8 budget whole
        (bound_result marshal to_valid_utf8 (limit_of budget) whole encoded)
unfolding bound_result
bound_result-Honest marshal to_valid_utf8 budget whole none shrinks writes on m =
    (refl, inr (inl m))
bound_result-Honest marshal to_valid_utf8 budget whole (some encoded) shrinks writes on m =
    if_case (Honest marshal to_valid_utf8 budget whole) (leb (length encoded) (limit_of budget))
      (λ k. (refl, inr (inr (encoded, m, ground arith))))
      (λ k.
        shorten-Honest marshal to_valid_utf8 budget whole shrinks (on, (encoded, m, ground arith))
          encoded writes (ground arith) m _ refl)

-- For every result of a call: it is passed on whole, without a notice, exactly when the budget is
-- off, the result cannot be encoded or its encoding fits. Otherwise the notice is true of what is
-- shown, which is either a non-empty prefix of an array, the longest that encodes within the limit,
-- or a text at most the limit long: the beginning of the result, if that is a text, else of its
-- encoding, or what is valid UTF-8 in the first bytes of it. The limit is the configured one, but at
-- least 16. This holds if encoding/json writes arrays as bracketed lists with commas, and dropping
-- invalid UTF-8 does not lengthen a text.
pub call_budget-Honest :
    (marshal : Value → Option Str) (to_valid_utf8 : Str → Str) (cfg : Config) (whole : Value)
    → ((t : Str) → length (to_valid_utf8 t) ≤ length t)
    → MarshalsArrays marshal
    → Honest marshal to_valid_utf8 cfg.budgets.call_tool_max_result_bytes whole
        (apply_call_budget marshal to_valid_utf8 (some cfg) whole)
unfolding apply_call_budget
call_budget-Honest marshal to_valid_utf8 cfg whole shrinks writes =
    let budget = cfg.budgets.call_tool_max_result_bytes in
    if_case (Honest marshal to_valid_utf8 budget whole) (is_positive budget)
      (λ on. bound_result-Honest marshal to_valid_utf8 budget whole _ shrinks writes on refl)
      (λ off. (refl, inl off))
