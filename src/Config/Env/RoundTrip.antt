-- ===== src/Config/Env/RoundTrip.antt =====
-- internal/config/config.go: what `substitute` gives, on a text put together from plain parts and
-- references.
use ozy.Config.Env.{
  replaced, is_name_char, close_brace, open_ref, name_run, starts_name, ref_at, ref_text,
  substitute_from, substitute,
}
use ozy.Common.{
  ◌==◌, Str, codes, is_prefix, length, length-append, All, ℕ, ◌+◌, ◌≡◌, refl, true, false, Option,
  none, some, List, [], ◌∷◌, ◌++◌, arith,
}

pub data Part : Type 0 where
  plain reference : Str → Part

-- No opening brace in a plain part; a name that the pattern takes in a reference.
abbrev pub IsPart : Part → Type 0
IsPart (plain s) = All (λ c. (c == b'{') ≡ false) s
IsPart (reference n) = (starts_name n ≡ true) × All (λ c. is_name_char c ≡ true) n

-- The value as the user wrote it.
abbrev pub written : List Part → Str
written [] = []
written (plain s ∷ parts) = s ++ written parts
written (reference n ∷ parts) = ref_text n ++ written parts

abbrev pub value_or : Option Str → Str → Str
value_or none s = s
value_or (some v) s = v

module _ (env : Str → Option Str) where
  -- The value with what is set in the place of its references.
  abbrev pub resolved : List Part → Str
  resolved [] = []
  resolved (plain s ∷ parts) = s ++ resolved parts
  resolved (reference n ∷ parts) = value_or (env n) (ref_text n) ++ resolved parts

  abbrev unless_set : Option Str → Str → List Str → List Str
  unless_set none n names = n ∷ names
  unless_set (some v) n names = names

  -- The names that are not set.
  abbrev pub unset : List Part → List Str
  unset [] = []
  unset (plain s ∷ parts) = unset parts
  unset (reference n ∷ parts) = unless_set (env n) n (unset parts)

name_run-append :
    (n s : Str)
    → All (λ c. is_name_char c ≡ true) n
    → name_run ((n ++ (close_brace ∷ [])) ++ s) ≡ (n, close_brace ∷ s)
unfolding name_run
name_run-append [] s h = refl
name_run-append (c ∷ n) s h = rw (name_run-append n s h.1, h.0) refl

ref_at-ref_text : (n s : Str) → IsPart (reference n) → ref_at (ref_text n ++ s) ≡ some n
unfolding ref_at is_prefix
ref_at-ref_text n s h = rw (name_run-append n s h.1, h.0) refl

ref_at-plain : (c : ℕ) (s : Str) → (c == b'{') ≡ false → ref_at (c ∷ s) ≡ none
unfolding ref_at is_prefix
ref_at-plain c s h = ground arith

module _ (env : Str → Option Str) where
  substitute_from-skip :
      (a s : Str) → substitute_from env (length a) (a ++ s) ≡ substitute_from env 0 s
  unfolding substitute_from
  substitute_from-skip [] s = refl
  substitute_from-skip (c ∷ a) s = substitute_from-skip a s

  substitute-plain :
      (s t : Str)
      → IsPart (plain s)
      → substitute_from env 0 (s ++ t)
        ≡ (s ++ (substitute_from env 0 t).0, (substitute_from env 0 t).1)
  unfolding substitute_from
  substitute-plain [] t h = refl
  substitute-plain (c ∷ s) t h = rw (ref_at-plain c (s ++ t) h.0, substitute-plain s t h.1) refl

  substitute-reference :
      (n t : Str)
      → IsPart (reference n)
      → substitute_from env 0 (ref_text n ++ t) ≡ replaced env n (env n) (substitute_from env 0 t)
  unfolding substitute_from
  substitute-reference n t h =
      let rest = codes "env:" ++ (n ++ (close_brace ∷ [])) in
      let size : length n + length open_ref ≡ length rest =
        omega (arith, length-append n (close_brace ∷ [])) in
      rw (ref_at-ref_text n t h, size, substitute_from-skip rest t) refl

  substitute-empty : substitute_from env 0 [] ≡ ([], [])
  unfolding substitute_from
  substitute-empty = refl

  replaced-value :
      (n : Str) (o : Option Str) (s : Str) (names : List Str)
      → replaced env n o (s, names) ≡ (value_or o (ref_text n) ++ s, unless_set env o n names)
  replaced-value n none s names = refl
  replaced-value n (some v) s names = refl

  -- A value that is put together from texts without an opening brace and from well-formed references
  -- is resolved part by part: each reference to a variable that is set gives way to the variable's
  -- text, which is not read again; all else stays; and the names that are not set are returned, in
  -- order and as often as they occur.
  pub substitute-written :
      (parts : List Part)
      → All IsPart parts
      → substitute env (written parts) ≡ (resolved env parts, unset env parts)
  unfolding substitute
  substitute-written [] h = substitute-empty
  substitute-written (plain s ∷ parts) h =
      rw (substitute-plain s (written parts) h.0, substitute-written parts h.1) refl
  substitute-written (reference n ∷ parts) h =
      rw (substitute-reference n (written parts) h.0, substitute-written parts h.1)
        (replaced-value n (env n) (resolved env parts) (unset env parts))
