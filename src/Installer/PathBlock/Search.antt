-- ===== src/Installer/PathBlock/Search.antt =====
-- internal/installer/pathconfig.go: where a marker stands in a text that is broken into lines.
use ozy.Installer.PathBlock.{newline, index, trim_newlines}
use ozy.Common.{
  Bool-cases, Option-cases, drop, take, suc, zero, ◌+◌, inl, inr, ap, ◌==◌, Option-cases, Str,
  is_prefix, contains, length, take, drop, All, ℕ, zero, suc, ◌+◌, ◌≡◌, refl, ap, inl, inr, true,
  false, Option, none, some, [], ◌∷◌, ◌++◌, arith,
}

-- The marker has no line break in it.
abbrev pub OneLine : Str → Type 0
OneLine = All (λ c. (c == newline) ≡ false)

is_prefix-break :
    (p s after : Str) → OneLine p → is_prefix p (s ++ (newline ∷ after)) ≡ is_prefix p s
unfolding is_prefix
is_prefix-break [] s after h = refl
is_prefix-break (x ∷ p) [] after h = ground (arith, h.0)
is_prefix-break (x ∷ p) (y ∷ s) after h = rw (is_prefix-break p s after h.1) refl

pub is_prefix-append : (p after : Str) → is_prefix p (p ++ after) ≡ true
unfolding is_prefix
is_prefix-append [] after = refl
is_prefix-append (x ∷ p) after = ground (arith, is_prefix-append p after)

abbrev pub shifted : ℕ → Option ℕ → Option ℕ
shifted n none = none
shifted n (some k) = some (n + k)

-- A marker that is not in the first lines is found after their line break.
pub index-break :
    (x : ℕ) (p s after : Str)
    → OneLine (x ∷ p)
    → contains s (x ∷ p) ≡ false
    → index (s ++ (newline ∷ after)) (x ∷ p) ≡ shifted (suc (length s)) (index after (x ∷ p))
unfolding index contains is_prefix
index-break x p [] after h absent = elim (Option-cases (index after (x ∷ p))) [
  | inl e ↦ rw e (ground (arith, h.0))
  | inr (k, e) ↦ rw e (ground (arith, h.0))
]
index-break x p (c ∷ s) after h absent =
    let here = is_prefix-break (x ∷ p) (c ∷ s) after h in
    let there = index-break x p s after h (ground arith) in
    elim (Option-cases (index after (x ∷ p))) [
      | inl e ↦ ground (arith, here, there, e)
      | inr (k, e) ↦ ground (arith, here, there, e)
    ]

-- A marker at the start of a text is found there.
pub index-start : (x : ℕ) (p after : Str) → index ((x ∷ p) ++ after) (x ∷ p) ≡ some 0
unfolding index
index-start x p after = rw (is_prefix-append (x ∷ p) after) refl

pub take-length-append : (s t : Str) → take (length s) (s ++ t) ≡ s
take-length-append [] t = refl
take-length-append (x ∷ s) t = ap (◌∷◌ x) (take-length-append s t)

pub drop-length-append : (s t : Str) → drop (length s) (s ++ t) ≡ t
drop-length-append [] t = refl
drop-length-append (x ∷ s) t = drop-length-append s t

pub drop-break :
    (s after : Str) (k n : ℕ)
    → k ≡ suc (length s) + n
    → drop k (s ++ (newline ∷ after)) ≡ drop n after
drop-break s after zero n e = absurd (omega arith)
drop-break [] after (suc k) n e = ap (λ m. drop m after) (omega arith)
drop-break (x ∷ s) after (suc k) n e = drop-break s after k n (omega arith)

pub trim_newlines-newline : (s : Str) → trim_newlines (s ++ (newline ∷ [])) ≡ trim_newlines s
unfolding trim_newlines
trim_newlines-newline [] = refl
trim_newlines-newline (c ∷ s) = rw (trim_newlines-newline s) refl

pub index-contains : (s p : Str) (k : ℕ) → index s p ≡ some k → contains s p ≡ true
unfolding index contains
index-contains [] p k e = elim (Bool-cases (is_prefix p [])) [
  | inl b ↦ b
  | inr b ↦ absurd (grind arith)
]
index-contains (c ∷ s) p k e = elim (Bool-cases (is_prefix p (c ∷ s))) [
  | inl b ↦ rw b refl
  | inr b ↦ rw b (elim (Option-cases (index s p)) [
    | inl n ↦ absurd (grind arith)
    | inr (m, n) ↦ index-contains s p m n
  ])
]
