-- ===== src/Broker/Refs.antt =====
-- internal/broker/live.go: `splitToolRef`; internal/index/index.go: the reference that
-- `normalizeTool` gives to a tool.
use ozy.Common.{
  ◌==◌, if◌then◌else◌, Option-cases, Str, length, take, drop, length-append, ℕ, zero, suc, ◌<◌, ◌≡◌,
  refl, ap, ◌∙◌, ◌≢◌, inl, inr, ◌||◌, Option, none, some, [], ◌∷◌, ◌++◌, arith,
}

-- `strings.IndexByte(s, b)`
abbrev pub index_byte : ℕ → Str → Option ℕ
index_byte b [] = none
index_byte b (c ∷ s) =
    if c == b then some 0 else elim (index_byte b s) [ none ↦ none | some i ↦ some (suc i) ]

abbrev pub dot : ℕ
dot = 46

-- `serverID + "." + tool.Name`
abbrev pub make_ref : Str → Str → Str
make_ref server name = server ++ (dot ∷ name)

unfoldable pub split_tool_ref : Str → Option (Str × Str)
split_tool_ref ref = elim (index_byte dot ref) [
  | none ↦ none
  | some i ↦ if (i == 0) || (suc i == length ref) then none else some (take i ref, drop (suc i) ref)
]

index_byte_first :
    (server name : Str)
    → index_byte dot server ≡ none
    → index_byte dot (server ++ (dot ∷ name)) ≡ some (length server)
index_byte_first [] name h = refl
index_byte_first (c ∷ s) name h =
    ground (arith, Option-cases (index_byte dot s), index_byte_first s name)

take_back : (s t : Str) → take (length s) (s ++ t) ≡ s
take_back [] t = refl
take_back (c ∷ s) t = ap (◌∷◌ c) (take_back s t)

drop_back : (s : Str) (c : ℕ) (t : Str) → drop (suc (length s)) (s ++ (c ∷ t)) ≡ t
drop_back [] c t = refl
drop_back (d ∷ s) c t = drop_back s c t

split_at :
    (ref : Str) (i : ℕ)
    → index_byte dot ref ≡ some i
    → split_tool_ref ref
      ≡ (if (i == 0) || (suc i == length ref) then none else some (take i ref, drop (suc i) ref))
unfolding split_tool_ref
split_at ref i h = rw (h, split_tool_ref) refl

length-pos : (s : Str) → s ≢ [] → 0 < length s
length-pos [] h = elim (h refl) [ ]
length-pos (c ∷ s) h = omega arith

take_not_empty : (i : ℕ) (s : Str) → 0 < i → 0 < length s → take i s ≢ []
take_not_empty zero s h k q = omega arith
take_not_empty (suc i) [] h k q = omega arith
take_not_empty (suc i) (c ∷ s) h k q = grind arith

drop_not_empty : (i : ℕ) (s : Str) → i < length s → drop i s ≢ []
drop_not_empty zero [] h q = omega arith
drop_not_empty zero (c ∷ s) h q = grind arith
drop_not_empty (suc i) [] h q = omega arith
drop_not_empty (suc i) (c ∷ s) h q = drop_not_empty i s (omega arith) q

index_byte-lt : (s : Str) (i : ℕ) → index_byte dot s ≡ some i → i < length s
index_byte-lt [] i h = ground arith
index_byte-lt (c ∷ s) zero h = omega arith
index_byte-lt (c ∷ s) (suc i) h = ground (arith, Option-cases (index_byte dot s), index_byte-lt s i)

-- A reference that indexing gives to a tool is split back into the server and the tool's name, dots
-- in the name included, if neither is empty and the server's id has no dot.
split-make_ref :
    (server name : Str)
    → index_byte dot server ≡ none
    → server ≢ []
    → name ≢ []
    → split_tool_ref (make_ref server name) ≡ some (server, name)
unfolding split_tool_ref
split-make_ref server name h s n =
    split_at (make_ref server name) (length server) (index_byte_first server name h)
    ∙ rw (take_back server (dot ∷ name), drop_back server dot name)
        (ground (arith, length-append server (dot ∷ name), length-pos server s, length-pos name n))

index_byte-split :
    (s : Str) (i : ℕ)
    → index_byte dot s ≡ some i
    → (s ≡ take i s ++ (dot ∷ drop (suc i) s)) × (index_byte dot (take i s) ≡ none)
index_byte-split [] i h = ground arith
index_byte-split (c ∷ s) zero h = ground arith
index_byte-split (c ∷ s) (suc i) h =
    ground (arith, Option-cases (index_byte dot s), index_byte-split s i)

-- Whatever is split is joined to the same reference, both parts are not empty, and the
-- server's id has no dot; so a server whose id has a dot is never the target of a call.
pub make_ref-split :
    (ref server name : Str)
    → split_tool_ref ref ≡ some (server, name)
    → (make_ref server name ≡ ref) × (server ≢ []) × (name ≢ []) × (index_byte dot server ≡ none)
unfolding split_tool_ref
make_ref-split ref server name h = elim (Option-cases (index_byte dot ref)) [
  | inl e ↦ ground arith
  | inr (i, e) ↦ ground (
    arith,
    split_at ref i e,
    index_byte-split ref i e,
    index_byte-lt ref i e,
    take_not_empty i ref,
    drop_not_empty (suc i) ref,
  )
]
