-- ===== src/Eval/Corpus/Usable.antt =====
-- internal/eval/load.go: what a loaded corpus is good for.
use mathlib.Core.Path.{subst}
use ozy.Json.{Value}
use ozy.Contract.{Error}
use ozy.Eval.Discovery.{DiscoveryCase}
use ozy.Eval.Invocation.{CorpusTool, Called, Acc, tool_by_ref, run_invocation, no_counts}
use ozy.Eval.Invocation.Tally.{Counted, Known, run_invocation-Counted}
use ozy.Eval.Dataset.{
  ScenarioDoc, ErgonomicsCase, Problem, unreadable, scenario_of, set_of, refs_of, is_blank,
  catalog_problem,
}
use ozy.Eval.Dataset.Valid.{
  NoRepeat, Named, Labelled, Scorable, Labelled-valid, Scorable-valid, GoodCatalog, catalog_good,
}
use ozy.Eval.Corpus.{
  Corpus, Failure, in_file, in_line, Loaded, loaded, rejected, then_load, Files, kept, check_items,
  extend, gather, names_with, json_files, check_document, load_invocation, load_ergonomics, on_case,
  check_lines, check_file, load_discovery, load_catalog, some_cases, load,
}
use ozy.Common.{
  is_some, if_case, Str, codes, has, length, All, All-append, sort_strings, Map, trim_space, ℕ, suc,
  ◌≡◌, refl, ◌≢◌, Bool, true, Option, none, some, List, [], ◌∷◌, map, arith,
}

-- a property of what is loaded, if it is
abbrev Holds {ℓ κ} : {A : Type ℓ} → (A → Type κ) → Loaded A → Type κ
Holds P (loaded a) = P a
Holds P (rejected e) = Unit

then_load-Holds {ℓ ℓ' κ κ'} :
    {A : Type ℓ} {B : Type ℓ'} (P : A → Type κ) (Q : B → Type κ') (r : Loaded A) (f : A → Loaded B)
    → Holds P r
    → ((a : A) → P a → Holds Q (f a))
    → Holds Q (then_load r f)
then_load-Holds P Q (loaded a) f h k = k a h
then_load-Holds P Q (rejected e) f h k = tt

module _ {ℓ κ} {A : Type ℓ} (P : A → Type κ) where
  kept-Holds :
      (place : Problem → Failure) (x : A) (rest : Loaded (List A)) (o : Option Problem)
      → (o ≡ none → P x)
      → Holds (All P) rest
      → Holds (All P) (kept place x rest o)
  kept-Holds place x (loaded xs) none h k = (h refl, k)
  kept-Holds place x (rejected e) none h k = tt
  kept-Holds place x rest (some p) h k = tt

  items-Holds :
      (check : A → Option Problem) (place : ℕ → A → Problem → Failure)
      → ((x : A) → check x ≡ none → P x)
      → (i : ℕ) (xs : List A) → Holds (All P) (check_items check place i xs)
  items-Holds check place h i [] = tt
  items-Holds check place h i (x ∷ xs) =
      kept-Holds (place i x) x _ (check x) (h x) (items-Holds check place h (suc i) xs)

  extend-Holds :
      (xs : List A) (r : Loaded (List A)) → All P xs → Holds (All P) r → Holds (All P) (extend xs r)
  extend-Holds xs (loaded ys) h k = All-append P xs ys h k
  extend-Holds xs (rejected e) h k = tt

  gather-Holds :
      (read : Str → Loaded (List A)) (names : List Str)
      → ((name : Str) → Holds (All P) (read name))
      → Holds (All P) (gather read names)
  gather-Holds read [] h = tt
  gather-Holds read (name ∷ names) h =
      then_load-Holds (All P) (All P) (read name) _ (h name)
        (λ xs k. extend-Holds xs _ k (gather-Holds read names h))

-- The corpus has tools, each under the name that indexing gives it and none twice; it has cases, whose
-- labels are its tools; and each scenario calls one of them and says what to expect.
pub record Usable (c : Corpus) : Type 0 where
  pub tools : c.tools ≢ []
  pub distinct : NoRepeat (refs_of c.tools)
  pub named_as_indexed : All Named c.tools
  pub cases : c.discovery ≢ []
  pub labelled : All (Labelled c.tools) c.discovery
  pub scorable : All (Scorable c.tools) c.invocation

module _ (quote : Str → Str) (instruction : Error → Str)
    (call : Bool → Str → Map Value → Called) where
  has-Known :
      (tools : List CorpusTool) (r : Str)
      → has (refs_of tools) r ≡ true
      → is_some (tool_by_ref quote instruction call r tools) ≡ true
  unfolding tool_by_ref
  has-Known [] r h = cc
  has-Known (t ∷ tools) r h = ground (arith, has-Known tools r)

  known :
      (tools : List CorpusTool) (ds : List ScenarioDoc)
      → All (Scorable tools) ds
      → All (Known quote instruction call tools) (map scenario_of ds)
  known tools [] h = tt
  known tools (d ∷ ds) h = (has-Known tools d.tool_ref h.0.0, known tools ds h.1)

module _ (files : Files) where
  catalog-Holds :
      (file : Str) (o : Option (List CorpusTool)) → Holds GoodCatalog (load_catalog files file o)
  catalog-Holds file none = tt
  catalog-Holds file (some tools) = go (catalog_problem tools) (catalog_good tools)
    where
      go :
          (o : Option Problem)
          → (o ≡ none → GoodCatalog tools)
          → Holds GoodCatalog (elim o [ none ↦ loaded tools | some p ↦ rejected (in_file file p) ])
      go none h = h refl
      go (some p) h = tt

  document-Holds {ℓ κ} :
      {A : Type ℓ} (P : A → Type κ) (check : A → Option Problem) (name : A → Str)
      → ((x : A) → check x ≡ none → P x)
      → (file : Str) (o : Option (List A)) → Holds (All P) (check_document files check name file o)
  document-Holds P check name h file none = tt
  document-Holds P check name h file (some xs) = items-Holds P check _ h 0 xs

  module _ (tools : List CorpusTool) where
    lines-Holds :
        (file : Str) (failed : Bool) (line : ℕ) (lines : List Str)
        → Holds
            (All (Labelled tools))
            (check_lines files (set_of (refs_of tools)) file failed line lines)
    lines-Holds file failed line [] =
        if_case (Holds (All (Labelled tools))) failed (λ _. tt) (λ _. tt)
    lines-Holds file failed line (text ∷ lines) =
        let rest = lines-Holds file failed (suc line) lines in
        if_case (Holds (All (Labelled tools))) (is_blank text) (λ _. rest)
          (λ _. go _ (files.decode_case (trim_space text)) rest)
      where
        go :
            (r : Loaded (List DiscoveryCase)) (o : Option DiscoveryCase)
            → Holds (All (Labelled tools)) r
            → Holds
                (All (Labelled tools))
                (on_case files (set_of (refs_of tools)) (in_line file line) r o)
        go r none rest = tt
        go r (some c) rest =
            kept-Holds (Labelled tools) (in_line file line) c r _ (Labelled-valid tools c) rest

    file-Holds :
        (file : Str) (o : Option (List Str × Bool))
        → Holds (All (Labelled tools)) (check_file files (set_of (refs_of tools)) file o)
    file-Holds file none = tt
    file-Holds file (some (lines, failed)) = lines-Holds file failed 1 lines

    abbrev reading : Str → Loaded (List DiscoveryCase)
    reading name =
        let file = files.join (codes "discovery") name in
        check_file files (set_of (refs_of tools)) file (files.read_lines file)

    discovery-Holds : Holds (All (Labelled tools)) (load_discovery files (set_of (refs_of tools)))
    discovery-Holds = go (files.list_dir (codes "discovery"))
      where
        go :
            (o : Option (List (Str × Bool)))
            → Holds (All (Labelled tools)) (elim o [
              | none ↦ rejected (in_file (codes "discovery") unreadable)
              | some entries ↦ gather reading (sort_strings (names_with (codes ".jsonl") entries))
            ])
        go none = tt
        go (some entries) =
            gather-Holds (Labelled tools) reading
              (sort_strings (names_with (codes ".jsonl") entries))
              (λ name.
                let file = files.join (codes "discovery") name in
                file-Holds file (files.read_lines file))

    abbrev Cases : List DiscoveryCase → Type 0
    Cases cases = (cases ≢ []) × All (Labelled tools) cases

    some_cases-Holds :
        (cases : List DiscoveryCase)
        → All (Labelled tools) cases
        → Holds Cases (some_cases files cases)
    some_cases-Holds [] h = tt
    some_cases-Holds (c ∷ cases) h = (λ e. cc, h)

    invocation-Holds : Holds (All (Scorable tools)) (load_invocation files (set_of (refs_of tools)))
    invocation-Holds =
        gather-Holds (Scorable tools) _ (json_files files (codes "invocation"))
          (λ name. document-Holds (Scorable tools) _ _ (Scorable-valid tools) _ _)

  abbrev corpus_of :
      List CorpusTool → List DiscoveryCase → List ScenarioDoc → List ErgonomicsCase → Corpus
  corpus_of tools cases scenarios checks = record {
    tools = tools;
    discovery = cases;
    invocation = scenarios;
    ergonomics = checks;
  }

  finished :
      (tools : List CorpusTool) (cases : List DiscoveryCase) (scenarios : List ScenarioDoc)
      → GoodCatalog tools
      → Cases tools cases
      → All (Scorable tools) scenarios
      → (r : Loaded (List ErgonomicsCase))
      → Holds Usable (then_load r (λ checks. loaded (corpus_of tools cases scenarios checks)))
  finished tools cases scenarios g k s (rejected e) = tt
  finished tools cases scenarios g k s (loaded checks) = record {
    tools = g.present;
    distinct = g.distinct;
    named_as_indexed = g.named_well;
    cases = k.0;
    labelled = k.1;
    scorable = s;
  }

  load-Holds : Holds Usable (load files)
  unfolding load
  load-Holds =
      then_load-Holds GoodCatalog Usable _ _ (catalog-Holds _ (files.read_world _)) (λ tools g.
        then_load-Holds (Cases tools) Usable _ _
          (then_load-Holds (All (Labelled tools)) (Cases tools) _ _ (discovery-Holds tools)
            (some_cases-Holds tools))
          (λ cases k.
            then_load-Holds (All (Scorable tools)) Usable _ _ (invocation-Holds tools)
              (λ scenarios s. finished tools cases scenarios g k s (load_ergonomics files))))

  -- A corpus that is loaded has tools, each under the toolRef that indexing gives it and none twice,
  -- and discovery cases whose labels are its tools; and against any broker the invocation scenarios
  -- run over it to their end, since none names a tool that is missing, with no rate above one and no
  -- scenario counted twice.
  pub load-Usable :
      (quote : Str → Str) (instruction : Error → Str) (call : Bool → Str → Map Value → Called)
      (c : Corpus)
      → load files ≡ loaded c
      → Usable c
        × ((a : Acc) × (run_invocation quote instruction call c.tools
                (map scenario_of c.invocation)
                no_counts
              ≡ some a)
            × Counted (length (map scenario_of c.invocation)) 0 a)
  load-Usable quote instruction call c e =
      let u : Usable c = subst (Holds Usable) e load-Holds in
      (
        u,
        run_invocation-Counted quote instruction call c.tools (map scenario_of c.invocation)
            (known quote instruction call c.tools c.invocation u.scorable),
      )
