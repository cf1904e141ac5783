-- ===== src/Eval/Dataset/Valid.antt =====
-- internal/eval/load.go: what the checks of a corpus accept.
use ozy.Eval.Discovery.{DiscoveryCase, category_no_match}
use ozy.Eval.Invocation.{CorpusTool, Expected, success, repair, error, unknown, no_fields}
use ozy.Eval.Dataset.{
  ScenarioDoc, Problem, duplicate_ref, known_error_type, outcome_of, set_of, refs_of, no_refs,
  missing_ref, validate_discovery_case, validate_outcome, validate_invocation, tool_problem,
  check_tools, catalog_problem,
}
use ozy.Common.{
  ◌==◌, if◌then◌else◌, Str, codes, str_eq_iff, has, length, length-map, All, ℕ, suc, ◌≤◌, ◌≡◌, refl,
  ◌≢◌, ◌↔◌, ◌⊎◌, Bool, true, false, Option, none, some, List, [], ◌∷◌, ◌++◌, arith,
}

abbrev pub NoRepeat : List Str → Type 0
NoRepeat [] = Unit
NoRepeat (r ∷ refs) = (has refs r ≡ false) × NoRepeat refs

abbrev pub Named : CorpusTool → Type 0
Named t = (t.tool_ref ≡ t.server_id ++ (codes "." ++ t.name)) × (t.server_id ≢ []) × (t.name ≢ [])

-- its labels are tools of the corpus, and only a no-match case has none
abbrev pub Labelled : List CorpusTool → DiscoveryCase → Type 0
Labelled tools c =
    ((c.category ≡ category_no_match) × (c.acceptable ≡ []))
    ⊎ ((c.acceptable ≢ []) × All (λ r. has (refs_of tools) r ≡ true) c.acceptable)

-- an error is named where one is expected, with what is needed to bring it about
abbrev pub Expecting : Expected → ScenarioDoc → Type 0
Expecting success d = d.expected_error ≡ []
Expecting repair d = (known_error_type d.expected_error ≡ true) × (no_fields d.corrected ≡ false)
Expecting error d =
    (known_error_type d.expected_error ≡ true)
    × (d.expected_error ≡ codes "TOOL_SCHEMA_CHANGED" → no_fields d.live_schema ≡ false)
Expecting unknown d = ⊥

abbrev pub Scorable : List CorpusTool → ScenarioDoc → Type 0
Scorable tools d =
    (has (refs_of tools) d.tool_ref ≡ true) × Expecting (outcome_of d.expected_outcome) d

has-set_of : (refs : List Str) (r : Str) → has (set_of refs) r ≡ has refs r
has-set_of [] r = refl
has-set_of (s ∷ refs) r = ground (arith, has-set_of refs r, has-set_of refs s, str_eq_iff s r)

length-set_of-le : (refs : List Str) → length (set_of refs) ≤ length refs
length-set_of-le [] = omega arith
length-set_of-le (s ∷ refs) = ground (arith, length-set_of-le refs)

no_repeat : (refs : List Str) → length (set_of refs) ≡ length refs → NoRepeat refs
no_repeat [] h = tt
no_repeat (s ∷ refs) h = ground (arith, length-set_of-le refs, has-set_of refs s, no_repeat refs)

missing_ref-none :
    (tools : List CorpusTool) (rs : List Str)
    → missing_ref (set_of (refs_of tools)) rs ≡ none
    → All (λ r. has (refs_of tools) r ≡ true) rs
missing_ref-none tools [] h = tt
missing_ref-none tools (r ∷ rs) h =
    ground (arith, has-set_of (refs_of tools) r, missing_ref-none tools rs)

no_refs_iff : (refs : List Str) → (no_refs refs ≡ true) ↔ (refs ≡ [])
no_refs_iff [] = (λ _. refl, λ _. refl)
no_refs_iff (r ∷ refs) = (λ h. cc, λ h. cc)

pub Labelled-valid :
    (tools : List CorpusTool) (c : DiscoveryCase)
    → validate_discovery_case (set_of (refs_of tools)) c ≡ none
    → Labelled tools c
unfolding validate_discovery_case
Labelled-valid tools c h = ground (
  arith,
  str_eq_iff c.category category_no_match,
  no_refs_iff c.acceptable,
  missing_ref-none tools c.acceptable,
)

Expecting-valid : (x : Expected) (d : ScenarioDoc) → validate_outcome x d ≡ none → Expecting x d
Expecting-valid success d h = ground (arith, str_eq_iff d.expected_error [])
Expecting-valid repair d h = ground arith
Expecting-valid error d h =
    ground (arith, str_eq_iff d.expected_error (codes "TOOL_SCHEMA_CHANGED"))
Expecting-valid unknown d h = cc

pub Scorable-valid :
    (tools : List CorpusTool) (d : ScenarioDoc)
    → validate_invocation (set_of (refs_of tools)) d ≡ none
    → Scorable tools d
unfolding validate_invocation
Scorable-valid tools d h = ground (
  arith,
  has-set_of (refs_of tools) d.tool_ref,
  Expecting-valid (outcome_of d.expected_outcome) d,
)

named : (i : ℕ) (t : CorpusTool) → tool_problem i t ≡ none → Named t
named i t h = ground (
  arith,
  str_eq_iff t.tool_ref [],
  str_eq_iff t.server_id [],
  str_eq_iff t.name [],
  str_eq_iff (t.server_id ++ (codes "." ++ t.name)) t.tool_ref,
)

Named-check : (i : ℕ) (tools : List CorpusTool) → check_tools i tools ≡ none → All Named tools
Named-check i [] h = tt
Named-check i (t ∷ tools) h =
    go (tool_problem i t) (check_tools (suc i) tools) h (named i t) (Named-check (suc i) tools)
  where
    go :
        {P Q : Type 0} (o rest : Option Problem)
        → (elim o [ some p ↦ some p | none ↦ rest ]) ≡ none
        → (o ≡ none → P)
        → (rest ≡ none → Q)
        → P × Q
    go none rest h p q = (p refl, q h)
    go (some x) rest h p q = cc

pub record GoodCatalog (tools : List CorpusTool) : Type 0 where
  pub present : tools ≢ []
  pub distinct : NoRepeat (refs_of tools)
  pub named_well : All Named tools

guarded :
    (b : Bool) (o : Option Problem) (p : Problem)
    → (if b then o else some p) ≡ none
    → (b ≡ true) × (o ≡ none)
guarded b o p h = ground arith

pub catalog_good : (tools : List CorpusTool) → catalog_problem tools ≡ none → GoodCatalog tools
unfolding catalog_problem
catalog_good [] h = cc
catalog_good (t ∷ tools) h =
    let (same, fine) =
      guarded (length (set_of (refs_of (t ∷ tools))) == length (t ∷ tools))
        (check_tools 0 (t ∷ tools)) duplicate_ref h in
    record {
      present = λ e. cc;
      distinct =
          no_repeat (refs_of (t ∷ tools))
            (ground (arith, same, length-map (λ (x : CorpusTool). x.tool_ref) tools));
      named_well = Named-check 0 (t ∷ tools) fine;
    }
