-- ===== src/Search/Lexical/Signals.antt =====
-- internal/search/lexical.go: the terms that a reason names.
use ozy.Search.{Scores}
use ozy.Search.Lexical.{
  LexicalScorer, idf_of, or_first, by_idf, strongest, reason_stopwords, top_signal_terms,
}
use ozy.Search.Tokens.{Bm25}
use ozy.Common.{
  Bool-cases, Str, str_eq, str_leb, str_eq_refl, has, length, take, length-take-le, filter, All,
  All-map, insert_by, sort_by, All-sort_by, length-sort_by, ℕ, zero, suc, ◌≤◌, ◌<◌, ◌≡◌, refl, ap,
  ◌∙◌, inl, inr, Bool, true, not, ◌&&◌, ◌||◌, List, [], ◌∷◌, arith,
}

pub has-append_front : (xs : List Str) (a : Str) (s : Str) → has xs s ≡ true → has (a ∷ xs) s ≡ true
has-append_front xs a s h = ground arith

has-insert_by :
    (leq : Str → Str → Bool) (a : Str) (xs : List Str) (s : Str)
    → has (insert_by leq a xs) s ≡ (str_eq a s || has xs s)
unfolding insert_by
has-insert_by leq a [] s = refl
has-insert_by leq a (x ∷ xs) s = ground (arith, has-insert_by leq a xs s)

-- Sorting neither adds a term nor loses one.
pub has-sort_by :
    (leq : Str → Str → Bool) (xs : List Str) (s : Str) → has (sort_by leq xs) s ≡ has xs s
unfolding sort_by
has-sort_by leq [] s = refl
has-sort_by leq (x ∷ xs) s =
    has-insert_by leq x (sort_by leq xs) s ∙ ap (λ b. str_eq x s || b) (has-sort_by leq xs s)

-- Every element of the first list is in the second.
abbrev Within : List Str → List Str → Type 0
Within ts = All (λ t. has ts t ≡ true)

pub Within-self : (ts : List Str) → Within ts ts
Within-self [] = tt
Within-self (t ∷ ts) =
    (ground (arith, str_eq_refl t), All-map (λ s h. has-append_front ts t s h) ts (Within-self ts))

take-All : (P : Str → Type 0) (n : ℕ) (ts : List Str) → All P ts → All P (take n ts)
take-All P zero ts h = tt
take-All P (suc n) [] h = tt
take-All P (suc n) (t ∷ ts) h = (h.0, take-All P n ts h.1)

filter-All : (P : Str → Type 0) (p : Str → Bool) (ts : List Str) → All P ts → All P (filter p ts)
filter-All P p [] h = tt
filter-All P p (t ∷ ts) h = elim (Bool-cases (p t)) [
  | inl e ↦ rw e (h.0, filter-All P p ts h.1)
  | inr e ↦ rw e (filter-All P p ts h.1)
]

module _ (S : Scores) (B : Bm25 S) where
  or_first-All :
      (P : Str → Type 0) (kept ranked : List Str)
      → All P kept
      → All P ranked
      → All P (or_first S B kept ranked)
  or_first-All P [] ranked h k = take-All P 1 ranked k
  or_first-All P (t ∷ kept) ranked h k = h

  or_first-some :
      (kept ranked : List Str) → 0 < length ranked → 0 < length (or_first S B kept ranked)
  or_first-some [] [] h = h
  or_first-some [] (r ∷ ranked) h = omega arith
  or_first-some (t ∷ kept) ranked h = omega arith

  take-some : (n : ℕ) (ts : List Str) → 0 < n → 0 < length ts → 0 < length (take n ts)
  take-some zero ts h k = h
  take-some (suc n) [] h k = k
  take-some (suc n) (t ∷ ts) h k = omega arith

  -- Whenever a tool matched a term at all, its reason names at least one and at most `n` terms, and
  -- only terms that were matched, also when all of these are stop words.
  top_signal_terms_lem :
      (t : Str) (terms : List Str) (ls : LexicalScorer S B) (n : ℕ)
      → 0 < n
      → (0 < length (top_signal_terms S B (t ∷ terms) ls n))
        × (length (top_signal_terms S B (t ∷ terms) ls n) ≤ n)
        × Within (t ∷ terms) (top_signal_terms S B (t ∷ terms) ls n)
  unfolding top_signal_terms
  top_signal_terms_lem t terms ls n h =
      let ranked = sort_by (by_idf S B ls) (t ∷ terms) in
      let kept =
        filter
          (λ u.
            not (has reason_stopwords u)
            && S.at_most (B.mul (strongest S B ls ranked) B.reason_idf_floor) (idf_of S B ls u))
          ranked in
      let chosen = or_first S B kept ranked in
      let all : Within (t ∷ terms) ranked =
        All-sort_by (λ u. has (t ∷ terms) u ≡ true) (by_idf S B ls) (t ∷ terms)
          (Within-self (t ∷ terms)) in
      (
        omega (
          arith,
          length-sort_by str_leb (take n chosen),
          length-sort_by (by_idf S B ls) (t ∷ terms),
          take-some n chosen h (
              or_first-some kept ranked
                (omega (arith, length-sort_by (by_idf S B ls) (t ∷ terms)))),
        ),
        omega (arith, length-sort_by str_leb (take n chosen), length-take-le n chosen),
        All-sort_by (λ u. has (t ∷ terms) u ≡ true) str_leb (take n chosen)
            (take-All _ n chosen (or_first-All _ kept ranked (filter-All _ _ ranked all) all)),
      )
