-- ===== src/Eval/Discovery.antt =====
-- internal/eval/discovery.go: the metrics of the discovery family, over the engine's answers `find`.
pub mod Counts
use ozy.Contract.{Verdict, use_tool, no_good_match, ambiguous, catalog_empty}
use ozy.Catalog.{Reply, ok, fail}
use ozy.Broker.Refs.{index_byte}
use ozy.Search.{Scores, RankedEntry, Ranking, decide}
use ozy.Common.{
  ltb, leb, ◌==◌, if◌then◌else◌, Str, codes, str_eq, has, take, drop, any, Map, lookup, insert, ℕ,
  zero, suc, ◌+◌, Bool, true, false, not, ◌&&◌, Option, none, some, List, [], ◌∷◌, map,
}

pub record DiscoveryCase : Type 0 where
  pub intent : Str
  pub acceptable : List Str
  pub category : Str
  pub rationale : Str

abbrev pub category_no_match : Str
category_no_match = codes "no_match"

abbrev pub category_wrong_server : Str
category_wrong_server = codes "wrong_server"

-- `rank` is the 1-based position of the element in front
unfoldable pub rank_of_acceptable : ℕ → List Str → List Str → ℕ
rank_of_acceptable rank [] acceptable = 0
rank_of_acceptable rank (ref ∷ order) acceptable =
    let later = rank_of_acceptable (suc rank) order acceptable in
    if has acceptable ref then rank else later

unfoldable pub first_acceptable_rank : List Str → List Str → ℕ
unfolding rank_of_acceptable
first_acceptable_rank order acceptable = rank_of_acceptable 1 order acceptable

abbrev cut_at : Str → Option ℕ → Str × Str
cut_at ref none = ([], ref)
cut_at ref (some zero) = ([], ref)
cut_at ref (some (suc i)) = (take (suc i) ref, drop (suc (suc i)) ref)

unfoldable pub split_ref : Str → Str × Str
split_ref ref = cut_at ref (index_byte b'.' ref)

abbrev token_before : Str → Option ℕ → Str
token_before name none = name
token_before name (some zero) = name
token_before name (some (suc i)) = take (suc i) name

unfoldable pub op_token : Str → Str
op_token name = token_before name (index_byte b'_' name)

-- the test of the second loop of `isWrongServerPick`
unfoldable pub same_operation_elsewhere : Str → Str → Bool
unfolding split_ref op_token
same_operation_elsewhere top a =
    let (server, name) = split_ref top in
    let (acc_server, acc_name) = split_ref a in
    not (str_eq server acc_server) && str_eq (op_token name) (op_token acc_name)

unfoldable pub is_wrong_server_pick : List Str → List Str → Bool
unfolding same_operation_elsewhere
is_wrong_server_pick [] acceptable = false
is_wrong_server_pick (top ∷ order) acceptable =
    not (has acceptable top) && any (same_operation_elsewhere top) acceptable

module _ (S : Scores) where
  open S use {Score, nought, add, div, of_nat}

  pub record DiscoveryMetrics : Type 0 where
    pub n : ℕ
    pub top1 : Score
    pub top3 : Score
    pub mrr : Score
    pub wrong_server_rate : Score
    pub no_match_correctness : Score

  pub record DiscoveryReport : Type 0 where
    pub overall : DiscoveryMetrics
    pub by_category : Map DiscoveryMetrics

  pub record DiscoveryAcc : Type 0 where
    pub match_n : ℕ
    pub top1 : ℕ
    pub top3 : ℕ
    pub mrr_sum : Score
    pub nm_n : ℕ
    pub nm_right : ℕ
    pub ws_n : ℕ
    pub ws_wrong : ℕ

  abbrev pub no_cases : DiscoveryAcc
  no_cases = record {
    match_n = 0;
    top1 = 0;
    top3 = 0;
    mrr_sum = nought;
    nm_n = 0;
    nm_right = 0;
    ws_n = 0;
    ws_wrong = 0;
  }

  unfoldable pub add_matchable : ℕ → DiscoveryAcc → DiscoveryAcc
  add_matchable rank a = record a {
    match_n = a.match_n + 1;
    top1 = if rank == 1 then a.top1 + 1 else a.top1;
    top3 = if leb 1 rank && leb rank 3 then a.top3 + 1 else a.top3;
    mrr_sum = if leb 1 rank then add a.mrr_sum (div (of_nat 1) (of_nat rank)) else a.mrr_sum;
  }

  unfoldable pub add_no_match : Bool → DiscoveryAcc → DiscoveryAcc
  add_no_match correct a = record a {
    nm_n = a.nm_n + 1;
    nm_right = if correct then a.nm_right + 1 else a.nm_right;
  }

  unfoldable pub add_wrong_server : Bool → DiscoveryAcc → DiscoveryAcc
  add_wrong_server wrong a = record a {
    ws_n = a.ws_n + 1;
    ws_wrong = if wrong then a.ws_wrong + 1 else a.ws_wrong;
  }

  abbrev ratio : ℕ → ℕ → Score
  ratio k n = if ltb 0 n then div (of_nat k) (of_nat n) else nought

  unfoldable pub metrics : DiscoveryAcc → DiscoveryMetrics
  metrics a = record {
    n = a.match_n + a.nm_n;
    top1 = ratio a.top1 a.match_n;
    top3 = ratio a.top3 a.match_n;
    mrr = if ltb 0 a.match_n then div a.mrr_sum (of_nat a.match_n) else nought;
    wrong_server_rate = ratio a.ws_wrong a.ws_n;
    no_match_correctness = ratio a.nm_right a.nm_n;
  }

  abbrev pub ranked_refs : List (RankedEntry S) → List Str
  ranked_refs entries = map (λ e. e.tool.tool_ref) entries

  abbrev is_no_match : Verdict → Bool
  is_no_match no_good_match = true
  is_no_match catalog_empty = true
  is_no_match use_tool = false
  is_no_match ambiguous = false

  -- what one case adds, to the global total and to its category
  unfoldable pub observe : DiscoveryCase → List (RankedEntry S) → DiscoveryAcc → DiscoveryAcc
  unfolding add_matchable add_no_match add_wrong_server
  observe c entries a =
      let order = ranked_refs entries in
      let matched = add_matchable (first_acceptable_rank order c.acceptable) a in
      if str_eq c.category category_no_match
      then add_no_match (is_no_match (decide S entries).verdict) a
      else if str_eq c.category category_wrong_server
      then add_wrong_server (is_wrong_server_pick order c.acceptable) matched
      else matched

  abbrev pub or_new : Option DiscoveryAcc → DiscoveryAcc
  or_new none = no_cases
  or_new (some a) = a

  abbrev pub observed :
      DiscoveryCase
      → DiscoveryAcc × Map DiscoveryAcc
      → List (RankedEntry S)
      → DiscoveryAcc × Map DiscoveryAcc
  observed c (global, by_cat) entries = (
    observe c entries global,
    insert c.category (observe c entries (or_new (lookup c.category by_cat))) by_cat,
  )

  module _ (find : Str → Reply (Ranking S)) where
    abbrev pub after_find :
        (DiscoveryAcc × Map DiscoveryAcc → Reply (DiscoveryAcc × Map DiscoveryAcc))
        → DiscoveryCase
        → DiscoveryAcc × Map DiscoveryAcc
        → Reply (Ranking S)
        → Reply (DiscoveryAcc × Map DiscoveryAcc)
    after_find rest c accs (fail e) = fail e
    after_find rest c accs (ok ranking) = rest (observed c accs ranking.entries)

    -- the loop of `RunDiscovery`
    unfoldable pub accumulate :
        List DiscoveryCase
        → DiscoveryAcc × Map DiscoveryAcc
        → Reply (DiscoveryAcc × Map DiscoveryAcc)
    unfolding observe
    accumulate [] accs = ok accs
    accumulate (c ∷ cases) accs = after_find (accumulate cases) c accs (find c.intent)

    abbrev pub reported : Reply (DiscoveryAcc × Map DiscoveryAcc) → Reply DiscoveryReport
    reported (fail e) = fail e
    reported (ok (global, by_cat)) =
        ok (record { overall = metrics global; by_category = map (λ e. (e.0, metrics e.1)) by_cat })

    unfoldable pub run_discovery : List DiscoveryCase → Reply DiscoveryReport
    unfolding metrics accumulate
    run_discovery cases = reported (accumulate cases (no_cases, []))
