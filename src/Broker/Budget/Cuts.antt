-- ===== src/Broker/Budget/Cuts.antt =====
-- internal/broker/live.go: `cutAtBoundary`, what it leaves of a text.
use mathlib.Core.List.{append_assoc, append-nil}
use ozy.Broker.Budget.{space, last_index_byte, newline, cut_at_boundary, cut_before}
use mathlib.Core.Path.{subst}
use ozy.Json.{Value, str, as_str}
use ozy.Config.{}
use ozy.Broker.Budget.{}
use ozy.Common.{
  ap, ◌∙◌, ◌++◌, drop, take-append-drop, Bool, true, false, if_case, leb, ◌==◌, Bool-cases,
  Option-cases, Str, length, take, length-take-le, ℕ, zero, suc, ◌≤◌, ◌≡◌, refl, sym, ◌⊎◌, inl, inr,
  Option, none, some, [], ◌∷◌, arith,
}

-- The text that is cut: the result itself, or the encoding of a result that is not a text.
abbrev pub CutFrom : (Value → Option Str) → Value → Str → Bool → Type 0
CutFrom marshal whole source true = whole ≡ str source
CutFrom marshal whole source false = (as_str (some whole) ≡ none) × (marshal whole ≡ some source)

-- The beginning of a text, or that of its first `limit` bytes which is valid UTF-8.
abbrev pub IsCut : (Str → Str) → ℕ → Str → Str → Type 0
IsCut to_valid_utf8 limit source cut =
    ((rest : Str) × (cut ++ rest ≡ source)) ⊎ (cut ≡ to_valid_utf8 (take limit source))

length-take : (i : ℕ) (s : Str) → length (take i s) ≤ length s
length-take zero s = omega arith
length-take (suc i) [] = omega arith
length-take (suc i) (c ∷ s) = omega (arith, length-take i s)

length-cut_before :
    (b : ℕ) (cut otherwise : Str) (n : ℕ)
    → length cut ≤ n
    → length otherwise ≤ n
    → length (cut_before b cut otherwise) ≤ n
length-cut_before b cut otherwise n h k = elim (Option-cases (last_index_byte b cut)) [
  | inl e ↦ rw (e, length) k
  | inr (i, e) ↦ rw (e, length) (ground (arith, length-take i cut))
]

pub length-cut_at_boundary :
    (to_valid_utf8 : Str → Str) (s : Str) (limit : ℕ)
    → ((t : Str) → length (to_valid_utf8 t) ≤ length t)
    → length (cut_at_boundary to_valid_utf8 s limit) ≤ limit
unfolding cut_at_boundary
length-cut_at_boundary to_valid_utf8 s limit shrinks = ground (
  arith,
  length-take-le limit s,
  shrinks (take limit s),
  length-cut_before newline (take limit s)
      (cut_before space (take limit s) (to_valid_utf8 (take limit s))) limit,
  length-cut_before space (take limit s) (to_valid_utf8 (take limit s)) limit,
)

-- What a cut leaves is the beginning of what was cut, unless nothing is cut.
cut_before-prefix :
    (b : ℕ) (cut otherwise : Str)
    → (cut_before b cut otherwise ≡ otherwise)
      ⊎ ((rest : Str) × (cut_before b cut otherwise ++ rest ≡ cut))
cut_before-prefix b cut otherwise = elim (Option-cases (last_index_byte b cut)) [
  | inl e ↦ inl (rw (e, cut_before) refl)
  | inr (i, e) ↦ elim (Bool-cases (i == 0)) [
    | inl z ↦ inl (rw (e, cut_before) (rw z refl))
    | inr z ↦ inr (drop i cut, rw (e, cut_before) (rw z (take-append-drop i cut)))
  ]
]

-- The same of a text that begins another one.
prefix_of_prefix :
    (cut : Str) (n : ℕ) (s : Str)
    → (rest : Str) × (cut ++ rest ≡ take n s)
    → (rest : Str) × (cut ++ rest ≡ s)
prefix_of_prefix cut n s (rest, e) = (
  rest ++ drop n s,
  sym (append_assoc cut rest (drop n s)) ∙ (ap (λ t. t ++ drop n s) e ∙ take-append-drop n s),
)

pub cut_at_boundary-IsCut :
    (to_valid_utf8 : Str → Str) (s : Str) (limit : ℕ)
    → IsCut to_valid_utf8 limit s (cut_at_boundary to_valid_utf8 s limit)
unfolding cut_at_boundary
cut_at_boundary-IsCut to_valid_utf8 s limit =
    if_case (IsCut to_valid_utf8 limit s) (leb (length s) limit) (λ _. inl ([], append-nil s))
      (λ _. elim (cut_before-prefix newline (take limit s) at_space) [
        | inr p ↦ inl (prefix_of_prefix _ limit s p)
        | inl e ↦ elim (cut_before-prefix space (take limit s) (to_valid_utf8 (take limit s))) [
          | inr p ↦ inl (
              subst (λ c. (rest : Str) × (c ++ rest ≡ s)) (sym e)
                (prefix_of_prefix at_space limit s p))
          | inl f ↦ inr (e ∙ f)
        ]
      ])
  where
    at_space : Str
    at_space = cut_before space (take limit s) (to_valid_utf8 (take limit s))
