-- ===== src/Downstream/Scrub.antt =====
-- No configured secret survives in a scrubbed message.
use ozy.Config.{ServerConfig}
use ozy.Downstream.{replace_from, replace_all, secret_values, left_alone, scrub_all, scrub}
use ozy.Common.{
  Bool-cases, Str, str_eq, str_eq_iff, has, is_prefix, contains, length, All, ℕ, zero, suc, ◌-◌,
  ◌≡◌, refl, ◌≢◌, inl, inr, true, false, List, [], ◌∷◌, arith,
}

-- No byte of the text is an asterisk, of which the mask is made.
abbrev pub NoStar : Str → Type 0
NoStar = All (λ c. c ≢ 42)

-- A text without asterisks that stands at the front of the output stands at the front of the input.
prefix-replace :
    (old t msg : Str)
    → NoStar t
    → is_prefix t (replace_from old 0 msg) ≡ true
    → is_prefix t msg ≡ true
unfolding replace_from is_prefix
prefix-replace old [] msg n h = refl
prefix-replace old (x ∷ t) [] n h = ground arith
prefix-replace old (x ∷ t) (c ∷ msg) n h = ground (arith, n.0, prefix-replace old t msg n.1)

-- What the output holds was in the input.
contains-replace :
    (old t : Str) (skip : ℕ) (msg : Str)
    → t ≢ []
    → NoStar t
    → contains (replace_from old skip msg) t ≡ true
    → contains msg t ≡ true
unfolding contains replace_from is_prefix
contains-replace old [] skip msg e n h = absurd (e refl)
contains-replace old (x ∷ t) skip [] e n h = h
contains-replace old (x ∷ t) (suc skip) (c ∷ msg) e n h =
    ground (arith, contains-replace old (x ∷ t) skip msg e n h)
contains-replace old (x ∷ t) zero (c ∷ msg) e n h = ground (
  arith,
  n.0,
  contains-replace old (x ∷ t) (length old - 1) msg e n,
  contains-replace old (x ∷ t) zero msg e n,
  prefix-replace old t msg n.1,
)

-- The replaced text itself is gone.
replaced_gone :
    (old : Str) (skip : ℕ) (msg : Str)
    → old ≢ []
    → NoStar old
    → contains (replace_from old skip msg) old ≡ false
unfolding contains replace_from is_prefix
replaced_gone [] skip msg e n = absurd (e refl)
replaced_gone (x ∷ t) skip [] e n = refl
replaced_gone (x ∷ t) (suc skip) (c ∷ msg) e n = replaced_gone (x ∷ t) skip msg e n
replaced_gone (x ∷ t) zero (c ∷ msg) e n = ground (
  arith,
  n.0,
  replaced_gone (x ∷ t) (length t) msg e n,
  replaced_gone (x ∷ t) zero msg e n,
  prefix-replace (x ∷ t) t msg n.1,
)

scrub_all-kept :
    (t : Str) (secrets : List Str) (msg : Str)
    → t ≢ []
    → NoStar t
    → contains (scrub_all secrets msg) t ≡ true
    → contains msg t ≡ true
unfolding scrub_all replace_all
scrub_all-kept t [] msg e n h = h
scrub_all-kept t (s ∷ secrets) msg e n h = elim (Bool-cases (left_alone s)) [
  | inl alone ↦ scrub_all-kept t secrets msg e n (rw alone at h)
  | inr masked ↦
      contains-replace s t 0 msg e n
        (scrub_all-kept t secrets (replace_all s msg) e n (rw masked at h))
]

scrub_all-gone :
    (t : Str) (secrets : List Str) (msg : Str)
    → has secrets t ≡ true
    → left_alone t ≡ false
    → NoStar t
    → contains (scrub_all secrets msg) t ≡ false
unfolding scrub_all replace_all
scrub_all-gone t [] msg m a n = ground arith
scrub_all-gone t (s ∷ secrets) msg m a n =
    let e : t ≢ [] = λ p. ground (arith, str_eq_iff t []) in
    elim (Bool-cases (str_eq s t)) [
      | inl same ↦
          let eq = (str_eq_iff s t).0 same in
          let later = scrub_all-kept t secrets (replace_all t msg) e n in
          let gone = replaced_gone t 0 msg e n in rw eq (rw a (ground (arith, later, gone)))
      | inr other ↦ scrub_all-gone t secrets _ (ground arith) a n
    ]

-- After `scrub`, the message holds no configured secret: no header or environment value of the
-- server occurs in it any more, if the value is one that is masked at all (it is not empty and
-- holds no `{env:`) and has no asterisk in it, the byte that the mask is made of.
pub scrub_hides :
    (msg t : Str) (server : ServerConfig)
    → has (secret_values server) t ≡ true
    → left_alone t ≡ false
    → NoStar t
    → contains (scrub msg server) t ≡ false
unfolding scrub
scrub_hides msg t server m a n = scrub_all-gone t (secret_values server) msg m a n
