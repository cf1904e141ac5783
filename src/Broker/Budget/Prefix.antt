-- ===== src/Broker/Budget/Prefix.antt =====
-- internal/broker/live.go: `arrayPrefixWithinBudget`, against the size of an array's encoding.
use mathlib.Core.List.{}
use ozy.Broker.Budget.{prefix_from}
use mathlib.Core.Path.{}
use ozy.Json.{Value, arr, values_of}
use ozy.Config.{}
use ozy.Broker.Budget.{}
use ozy.Common.{
  ap, ltb, ◌==◌, if◌then◌else◌, Bool-cases, Option-cases, Str, length, take, ℕ, suc, ◌+◌, ◌≤◌, ◌<◌,
  ◌≡◌, refl, ◌⊎◌, inl, inr, Option, none, some, List, [], ◌∷◌, arith,
}

-- The bytes between an array's brackets: the encodings, with a comma before all but the first.
abbrev pub body_size : (Value → Option Str) → ℕ → List Value → Option ℕ
body_size marshal i [] = some 0
body_size marshal i (v ∷ vs) = elim (marshal v) [
  | none ↦ none
  | some b ↦ elim (body_size marshal (suc i) vs) [
    | none ↦ none
    | some n ↦ some (length b + (if i == 0 then 0 else 1) + n)
  ]
]

-- How encoding/json writes an array: its elements, with commas, in brackets.
abbrev pub MarshalsArrays : (Value → Option Str) → Type 0
MarshalsArrays marshal =
    (vs : List Value) (n : ℕ)
    → body_size marshal 0 vs ≡ some n
    → (b : Str) × (marshal (arr (values_of vs)) ≡ some b) × (length b ≡ 2 + n)

-- No more elements of the array fit than the first `kept`: there is one more, and with it the array
-- has no encoding or is too long.
abbrev pub Longest : (Value → Option Str) → ℕ → ℕ → List Value → Type 0
Longest marshal limit kept vs =
    (kept < length vs)
    × ((body_size marshal 0 (take (suc kept) vs) ≡ none)
        ⊎ ((n : ℕ) × (body_size marshal 0 (take (suc kept) vs) ≡ some n) × (limit < 2 + n)))

-- Why no element is kept after the first `j` of the remaining ones.
abbrev pub Stops : (Value → Option Str) → ℕ → ℕ → ℕ → ℕ → List Value → Type 0
Stops marshal limit i total j vs =
    (j ≡ length vs)
    ⊎ ((j < length vs)
        × ((body_size marshal i (take (suc j) vs) ≡ none)
            ⊎ ((n : ℕ) × (body_size marshal i (take (suc j) vs) ≡ some n) × (limit < total + n))))

-- The comma before an element that is not the first.
abbrev comma : ℕ → ℕ
comma i = if i == 0 then 0 else 1

carry_on :
    (marshal : Value → Option Str) (limit i total j : ℕ) (v : Value) (vs : List Value) (b : Str)
    → marshal v ≡ some b
    → Stops marshal limit (suc i) (total + length b + comma i) j vs
    → Stops marshal limit i total (suc j) (v ∷ vs)
carry_on marshal limit i total j v vs b e (inl all_kept) = inl (omega (arith, all_kept))
carry_on marshal limit i total j v vs b e (inr (more, inl cannot)) =
    inr (omega (arith, more), inl (rw (e, cannot) refl))
carry_on marshal limit i total j v vs b e (inr (more, inr (n, size, over))) =
    inr (omega (arith, more), inr (length b + comma i + n, rw (e, size) refl, omega (arith, over)))

-- The elements that are kept encode within the limit, and no more of them do.
pub prefix_fits :
    (marshal : Value → Option Str) (limit i total : ℕ) (vs : List Value)
    → total ≤ limit
    → (j m : ℕ) × (prefix_from marshal limit i total vs ≡ i + j)
      × (body_size marshal i (take j vs) ≡ some m)
      × (total + m ≤ limit)
      × Stops marshal limit i total j vs
unfolding prefix_from
prefix_fits marshal limit i total [] h = (0, 0, omega arith, refl, omega arith, inl refl)
prefix_fits marshal limit i total (v ∷ vs) h = elim (Option-cases (marshal v)) [
  | inl e ↦ (0, 0, ground arith, refl, omega arith, inr (omega arith, inl (rw e refl)))
  | inr (b, e) ↦ elim (Bool-cases (ltb limit (total + length b + comma i))) [
    | inl k ↦ (
      0,
      0,
      ground arith,
      refl,
      omega arith,
      inr (omega arith, inr (length b + comma i + 0, rw e refl, ground arith)),
    )
    | inr k ↦
        let (j, m, found, size, fit, stops) =
          prefix_fits marshal limit (suc i) (total + length b + comma i) vs (ground arith) in
        (
          suc j,
          length b + comma i + m,
          ground arith,
          rw (e, size) refl,
          omega arith,
          carry_on marshal limit i total j v vs b e stops,
        )
  ]
]

pub take-all : (vs : List Value) → take (length vs) vs ≡ vs
take-all [] = refl
take-all (v ∷ vs) = ap (λ l. v ∷ l) (take-all vs)
