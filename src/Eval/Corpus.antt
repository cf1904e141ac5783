-- ===== src/Eval/Corpus.antt =====
-- internal/eval/load.go: the loading of a corpus. `Files` answers for the file system and for the
-- decoding of its documents, with path.Join; the servers of the catalog, which are not checked, are
-- left out.
pub mod Usable
use ozy.Eval.Discovery.{DiscoveryCase}
use ozy.Eval.Invocation.{CorpusTool}
use ozy.Eval.Dataset.{
  ScenarioDoc, ErgonomicsCase, Problem, unreadable, no_cases, set_of, refs_of, is_blank,
  validate_discovery_case, validate_invocation, validate_ergonomics, catalog_problem,
}
use ozy.Common.{
  is_suffix, if◌then◌else◌, Str, codes, sort_strings, trim_space, ℕ, suc, Bool, not, ◌&&◌, Option,
  none, some, List, [], ◌∷◌, ◌++◌,
}

pub record Corpus : Type 0 where
  pub tools : List CorpusTool
  pub discovery : List DiscoveryCase
  pub invocation : List ScenarioDoc
  pub ergonomics : List ErgonomicsCase

-- a problem with the file and the place in it
pub data Failure : Type 0 where
  in_file : Str → Problem → Failure
  in_line : Str → ℕ → Problem → Failure
  in_item : Str → ℕ → Str → Problem → Failure

pub data Loaded {ℓ} (A : Type ℓ) : Type ℓ where
  loaded : A → Loaded A
  rejected : Failure → Loaded A

abbrev pub then_load {ℓ κ} : {A : Type ℓ} {B : Type κ} → Loaded A → (A → Loaded B) → Loaded B
then_load (loaded a) f = f a
then_load (rejected e) f = rejected e

pub record Files : Type 0 where
  pub join : Str → Str → Str
  pub list_dir : Str → Option (List (Str × Bool))
  pub read_world : Str → Option (List CorpusTool)
  pub read_lines : Str → Option (List Str × Bool)
  pub decode_case : Str → Option DiscoveryCase
  pub read_scenarios : Str → Option (List ScenarioDoc)
  pub read_ergonomics : Str → Option (List ErgonomicsCase)

abbrev pub add {ℓ} : {A : Type ℓ} → A → Loaded (List A) → Loaded (List A)
add x (loaded xs) = loaded (x ∷ xs)
add x (rejected e) = rejected e

-- an element of a document, of which the rest is `rest`
abbrev pub kept {ℓ} :
    {A : Type ℓ} → (Problem → Failure) → A → Loaded (List A) → Option Problem → Loaded (List A)
kept place x rest none = add x rest
kept place x rest (some p) = rejected (place p)

abbrev pub check_items {ℓ} :
    {A : Type ℓ} → (A → Option Problem) → (ℕ → A → Problem → Failure) → ℕ → List A → Loaded (List A)
check_items check place i [] = loaded []
check_items check place i (x ∷ xs) =
    let rest = check_items check place (suc i) xs in kept (place i x) x rest (check x)

abbrev pub extend {ℓ} : {A : Type ℓ} → List A → Loaded (List A) → Loaded (List A)
extend xs (loaded ys) = loaded (xs ++ ys)
extend xs (rejected e) = rejected e

-- the loop over the names of a directory's files
abbrev pub gather {ℓ} : {A : Type ℓ} → (Str → Loaded (List A)) → List Str → Loaded (List A)
gather read [] = loaded []
gather read (name ∷ names) =
    let rest = gather read names in then_load (read name) (λ xs. extend xs rest)

abbrev pub names_with : Str → List (Str × Bool) → List Str
names_with suffix [] = []
names_with suffix ((name, is_dir) ∷ entries) =
    let rest = names_with suffix entries in
    if not is_dir && is_suffix suffix name then name ∷ rest else rest

module _ (files : Files) where
  abbrev pub json_files : Str → List Str
  json_files dir = elim (files.list_dir dir) [
    | none ↦ []
    | some entries ↦ sort_strings (names_with (codes ".json") entries)
  ]

  abbrev pub check_document {ℓ} :
      {A : Type ℓ} → (A → Option Problem) → (A → Str) → Str → Option (List A) → Loaded (List A)
  check_document check name file none = rejected (in_file file unreadable)
  check_document check name file (some xs) =
      check_items check (λ i x p. in_item file i (name x) p) 0 xs

  abbrev pub load_invocation : List Str → Loaded (List ScenarioDoc)
  load_invocation refs =
      let dir = codes "invocation" in
      gather
        (λ name.
          let file = files.join dir name in
          check_document (validate_invocation refs) (λ d. d.name) file (files.read_scenarios file))
        (json_files dir)

  abbrev pub load_ergonomics : Loaded (List ErgonomicsCase)
  load_ergonomics =
      let dir = codes "ergonomics" in
      gather
        (λ name.
          let file = files.join dir name in
          check_document validate_ergonomics (λ c. c.name) file (files.read_ergonomics file))
        (json_files dir)

  abbrev pub on_case :
      List Str
      → (Problem → Failure)
      → Loaded (List DiscoveryCase)
      → Option DiscoveryCase
      → Loaded (List DiscoveryCase)
  on_case refs place rest none = rejected (place unreadable)
  on_case refs place rest (some c) = kept place c rest (validate_discovery_case refs c)

  -- the scanner's loop, and its error after the last line
  abbrev pub check_lines : List Str → Str → Bool → ℕ → List Str → Loaded (List DiscoveryCase)
  check_lines refs file failed line [] =
      if failed then rejected (in_file file unreadable) else loaded []
  check_lines refs file failed line (text ∷ lines) =
      let rest = check_lines refs file failed (suc line) lines in
      if is_blank text
      then rest
      else on_case refs (in_line file line) rest (files.decode_case (trim_space text))

  abbrev pub check_file : List Str → Str → Option (List Str × Bool) → Loaded (List DiscoveryCase)
  check_file refs file none = rejected (in_file file unreadable)
  check_file refs file (some (lines, failed)) = check_lines refs file failed 1 lines

  abbrev pub load_discovery : List Str → Loaded (List DiscoveryCase)
  load_discovery refs =
      let dir = codes "discovery" in
      elim (files.list_dir dir) [
        | none ↦ rejected (in_file dir unreadable)
        | some entries ↦
            gather
              (λ name.
                let file = files.join dir name in check_file refs file (files.read_lines file))
              (sort_strings (names_with (codes ".jsonl") entries))
      ]

  abbrev pub load_catalog : Str → Option (List CorpusTool) → Loaded (List CorpusTool)
  load_catalog file none = rejected (in_file file unreadable)
  load_catalog file (some tools) = elim (catalog_problem tools) [
    | none ↦ loaded tools
    | some p ↦ rejected (in_file file p)
  ]

  abbrev pub some_cases : List DiscoveryCase → Loaded (List DiscoveryCase)
  some_cases [] = rejected (in_file (codes "discovery") no_cases)
  some_cases (c ∷ cases) = loaded (c ∷ cases)

  unfoldable pub load : Loaded Corpus
  load =
      let file = codes "catalog/world.json" in
      then_load (load_catalog file (files.read_world file)) (λ tools.
        let refs = set_of (refs_of tools) in
        then_load (then_load (load_discovery refs) some_cases) (λ cases.
          then_load (load_invocation refs) (λ scenarios. then_load load_ergonomics (λ checks.
            loaded (record {
              tools = tools;
              discovery = cases;
              invocation = scenarios;
              ergonomics = checks;
            })))))
