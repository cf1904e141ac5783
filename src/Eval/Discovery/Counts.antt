-- ===== src/Eval/Discovery/Counts.antt =====
-- internal/eval/discovery.go: what the accumulators count.
use mathlib.Core.Path.{◌∙◌}
use ozy.Catalog.{Reply, ok, fail, StoreError}
use ozy.Search.{Scores, RankedEntry, Ranking}
use ozy.Eval.Discovery.{
  DiscoveryCase, DiscoveryReport, DiscoveryAcc, category_no_match, category_wrong_server,
  first_acceptable_rank, no_cases, add_matchable, add_no_match, add_wrong_server, metrics,
  ranked_refs, observe, or_new, observed, after_find, accumulate, reported, run_discovery,
}
use ozy.Common.{
  Bool-cases, if_case, Str, str_eq, length, All, Map, lookup, insert, ℕ, suc, ◌+◌, ◌≤◌, ◌≡◌, refl,
  ◌⊎◌, inl, inr, Bool, List, [], ◌∷◌, map, arith,
}

module _ (S : Scores) where
  -- Every count of hits is at most the count of tries that its rate is taken of.
  record Sound (a : DiscoveryAcc S) : Type 0 where
    first : a.top1 ≤ a.top3
    three : a.top3 ≤ a.match_n
    right : a.nm_right ≤ a.nm_n
    wrong : a.ws_wrong ≤ a.ws_n
    server : a.ws_n ≤ a.match_n

  abbrev cases_of : DiscoveryAcc S → ℕ
  cases_of a = a.match_n + a.nm_n

  add_matchable-Sound :
      (rank : ℕ) (a : DiscoveryAcc S)
      → Sound a
      → Sound (add_matchable S rank a) × (a.ws_n + 1 ≤ (add_matchable S rank a).match_n)
  unfolding add_matchable
  add_matchable-Sound rank a h = ground arith

  add_no_match-Sound : (b : Bool) (a : DiscoveryAcc S) → Sound a → Sound (add_no_match S b a)
  unfolding add_no_match
  add_no_match-Sound b a h = ground arith

  add_wrong_server-Sound :
      (b : Bool) (a : DiscoveryAcc S)
      → Sound a
      → a.ws_n + 1 ≤ a.match_n
      → Sound (add_wrong_server S b a)
  unfolding add_wrong_server
  add_wrong_server-Sound b a h k = ground arith

  -- A case keeps the counts sound and is counted once.
  abbrev Observes : DiscoveryAcc S → DiscoveryAcc S → Type 0
  Observes a b = Sound b × (cases_of b ≡ cases_of a + 1)

  observe-Sound :
      (c : DiscoveryCase) (entries : List (RankedEntry S)) (a : DiscoveryAcc S)
      → Sound a
      → Observes a (observe S c entries a)
  unfolding observe add_no_match add_wrong_server add_matchable
  observe-Sound c entries a h =
      let rank = first_acceptable_rank (ranked_refs S entries) c.acceptable in
      let b = add_matchable S rank a in
      let (sound, room) = add_matchable-Sound rank a h in
      if_case (Observes a) (str_eq c.category category_no_match)
        (λ e. (add_no_match-Sound _ a h, omega arith))
        (λ e.
          if_case (Observes a) (str_eq c.category category_wrong_server)
            (λ w. (add_wrong_server-Sound _ b sound room, omega arith)) (λ w. (sound, omega arith)))

  no_cases-Sound : Sound (no_cases S)
  no_cases-Sound = ground arith

  abbrev total : Map (DiscoveryAcc S) → ℕ
  total [] = 0
  total ((cat, a) ∷ m) = cases_of a + total m

  or_new-Sound :
      (cat : Str) (m : Map (DiscoveryAcc S))
      → All (λ e. Sound e.1) m
      → Sound (or_new S (lookup cat m))
  unfolding lookup
  or_new-Sound cat [] h = no_cases-Sound
  or_new-Sound cat ((k, a) ∷ m) h = elim (Bool-cases (str_eq k cat)) [
    | inl e ↦ rw e h.0
    | inr e ↦ rw e (or_new-Sound cat m h.1)
  ]

  insert-Sound :
      (cat : Str) (b : DiscoveryAcc S) (m : Map (DiscoveryAcc S))
      → Sound b
      → All (λ e. Sound e.1) m
      → All (λ e. Sound e.1) (insert cat b m)
  unfolding insert
  insert-Sound cat b [] h k = (h, tt)
  insert-Sound cat b ((j, a) ∷ m) h k = elim (Bool-cases (str_eq j cat)) [
    | inl e ↦ rw e (h, k.1)
    | inr e ↦ rw e (k.0, insert-Sound cat b m h k.1)
  ]

  total-insert :
      (cat : Str) (b : DiscoveryAcc S) (m : Map (DiscoveryAcc S))
      → cases_of b ≡ cases_of (or_new S (lookup cat m)) + 1
      → total (insert cat b m) ≡ total m + 1
  unfolding insert lookup
  total-insert cat b [] h = omega arith
  total-insert cat b ((j, a) ∷ m) h = elim (Bool-cases (str_eq j cat)) [
    | inl e ↦ let h' : cases_of b ≡ cases_of a + 1 = (rw e at h) in rw e (omega arith)
    | inr e ↦
        let h' : cases_of b ≡ cases_of (or_new S (lookup cat m)) + 1 = (rw e at h) in
        rw e (omega (arith, total-insert cat b m h'))
  ]

  -- The counts, in all and by category, after some cases.
  abbrev Counted : ℕ → DiscoveryAcc S × Map (DiscoveryAcc S) → Type 0
  Counted n (global, by_cat) =
      Sound global × All (λ e. Sound e.1) by_cat × (cases_of global ≡ n) × (total by_cat ≡ n)

  observed-Counted :
      (n : ℕ) (c : DiscoveryCase) (accs : DiscoveryAcc S × Map (DiscoveryAcc S))
      (entries : List (RankedEntry S))
      → Counted n accs
      → Counted (suc n) (observed S c accs entries)
  observed-Counted n c (global, by_cat) entries h =
      let (sound, more) = observe-Sound c entries global h.0 in
      let old = or_new S (lookup c.category by_cat) in
      let (sound', more') = observe-Sound c entries old (or_new-Sound c.category by_cat h.1) in
      (
        sound,
        insert-Sound c.category (observe S c entries old) by_cat sound' h.1,
        omega (arith, h.2),
        omega (arith, h.3, total-insert c.category (observe S c entries old) by_cat more'),
      )

  module _ (find : Str → Reply (Ranking S)) where
    -- The engine fails on the intent of one of the cases.
    abbrev FailsOn : StoreError → List DiscoveryCase → Type 0
    FailsOn e [] = ⊥
    FailsOn e (c ∷ cases) = (find c.intent ≡ fail e) ⊎ FailsOn e cases

    abbrev Accumulated :
        List DiscoveryCase → ℕ → Reply (DiscoveryAcc S × Map (DiscoveryAcc S)) → Type 0
    Accumulated cases n (fail e) = FailsOn e cases
    Accumulated cases n (ok accs) = Counted n accs

    later :
        (c : DiscoveryCase) (cases : List DiscoveryCase) (n m : ℕ)
        (r : Reply (DiscoveryAcc S × Map (DiscoveryAcc S)))
        → n ≡ m
        → Accumulated cases n r
        → Accumulated (c ∷ cases) m r
    later c cases n m (fail e) h k = inr k
    later c cases n m (ok accs) h k = (k.0, k.1, k.2 ∙ h, k.3 ∙ h)

    after-Accumulated :
        (c : DiscoveryCase) (cases : List DiscoveryCase) (n : ℕ)
        (accs : DiscoveryAcc S × Map (DiscoveryAcc S)) (r : Reply (Ranking S))
        → find c.intent ≡ r
        → Counted n accs
        → ((accs' : DiscoveryAcc S × Map (DiscoveryAcc S))
            → Counted (suc n) accs'
            → Accumulated cases (suc n + length cases) (accumulate S find cases accs'))
        → Accumulated
            (c ∷ cases)
            (n + suc (length cases))
            (after_find S find (accumulate S find cases) c accs r)
    after-Accumulated c cases n accs (fail e) h k go = inl h
    after-Accumulated c cases n accs (ok ranking) h k go =
        let accs' = observed S c accs ranking.entries in
        later c cases (suc n + length cases) (n + suc (length cases))
          (accumulate S find cases accs') (omega arith)
          (go accs' (observed-Counted n c accs ranking.entries k))

    accumulate-Counted :
        (cases : List DiscoveryCase) (n : ℕ) (accs : DiscoveryAcc S × Map (DiscoveryAcc S))
        → Counted n accs
        → Accumulated cases (n + length cases) (accumulate S find cases accs)
    unfolding accumulate
    accumulate-Counted [] n accs h = (h.0, h.1, omega (arith, h.2), omega (arith, h.3))
    accumulate-Counted (c ∷ cases) n accs h =
        after-Accumulated c cases n accs (find c.intent) refl h
          (λ accs' k. accumulate-Counted cases (suc n) accs' k)

    -- What a report must say of the cases.
    abbrev Reported : List DiscoveryCase → Reply (DiscoveryReport S) → Type 0
    Reported cases (fail e) = FailsOn e cases
    Reported cases (ok report) =
        (global : DiscoveryAcc S) × (by_cat : Map (DiscoveryAcc S)) × (report.overall
          ≡ metrics S global)
        × (report.by_category ≡ map (λ e. (e.0, metrics S e.1)) by_cat)
        × Sound global
        × All (λ e. Sound e.1) by_cat
        × (cases_of global ≡ length cases)
        × (total by_cat ≡ length cases)

    reported-Reported :
        (cases : List DiscoveryCase) (r : Reply (DiscoveryAcc S × Map (DiscoveryAcc S)))
        → Accumulated cases (0 + length cases) r
        → Reported cases (reported S find r)
    reported-Reported cases (fail e) h = h
    reported-Reported cases (ok (global, by_cat)) h =
        (global, by_cat, refl, refl, h.0, h.1, omega (arith, h.2), omega (arith, h.3))

    -- A run over any cases either fails, because the engine failed on one of them, or reports on
    -- every case once: the overall metrics and those by category are made of counts that add up to
    -- the number of cases, and in each of them every rate is taken of at least as many tries as hits
    -- (the first place within the first three, these within the cases with an answer, the wrong
    -- servers within the cases that probe for one).
    run_discovery-Reported :
        (cases : List DiscoveryCase) → Reported cases (run_discovery S find cases)
    unfolding run_discovery
    run_discovery-Reported cases =
        reported-Reported cases (accumulate S find cases (no_cases S, []))
          (accumulate-Counted cases 0 (no_cases S, []) (no_cases-Sound, tt, refl, refl))
