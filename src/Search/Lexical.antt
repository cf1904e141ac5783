-- ===== src/Search/Lexical.antt =====
-- internal/search/lexical.go: document frequencies, BM25, the lexical ranking and its reasons.
-- sort.Slice is taken to be stable.
pub mod Ranking
pub mod Signals
use ozy.Catalog.{Tool}
use ozy.Config.{get_or}
use ozy.Search.{Scores, RankedEntry}
use ozy.Search.Tokens.{Bm25, tokenize, join_with, FieldTokens, extract_fields, tokens_of}
use ozy.Common.{
  ltb, ◌==◌, if◌then◌else◌, Str, codes, str_eq, has, length, take, filter, sort_by, sort_strings,
  Map, lookup, insert, to_lower, ℕ, suc, ◌+◌, Bool, not, ◌&&◌, ◌||◌, Option, none, some, List, [],
  ◌∷◌, ◌++◌, map,
}

abbrev pub add_once : Str → List Str → List Str
add_once s seen = if has seen s then seen else s ∷ seen

abbrev pub bump : Str → Map ℕ → Map ℕ
bump s counts = insert s (suc (get_or 0 (lookup s counts))) counts

abbrev pub max_reason_terms : ℕ
max_reason_terms = 4

abbrev pub reason_stopwords : List Str
reason_stopwords =
    codes "a"
    ∷ codes "an"
    ∷ codes "and"
    ∷ codes "are"
    ∷ codes "as"
    ∷ codes "at"
    ∷ codes "be"
    ∷ codes "by"
    ∷ codes "for"
    ∷ codes "from"
    ∷ codes "in"
    ∷ codes "is"
    ∷ codes "it"
    ∷ codes "my"
    ∷ codes "of"
    ∷ codes "on"
    ∷ codes "or"
    ∷ codes "the"
    ∷ codes "to"
    ∷ codes "with"
    ∷ []

module _ (S : Scores) (B : Bm25 S) where
  open S use {Score, nought, add, sub, div, at_most, of_nat}
  open B use {mul, log, max, bm25_k1, bm25_b, half, reason_idf_floor}

  pub record TermStats : Type 0 where
    pub df : ℕ
    pub idf : Score

  pub record LexicalScorer : Type 0 where
    pub query_terms : List Str
    pub term_stats : Map TermStats
    pub avg_field_length : Score

  abbrev zero_stats : TermStats
  zero_stats = record { df = 0; idf = nought }

  unfoldable pub idf : ℕ → Score → Score
  idf df n =
      if df == 0
      then nought
      else log (add (div (add (sub n (of_nat df)) half) (add (of_nat df) half)) (of_nat 1))

  -- the loop over the tokens of one tool, with what it has seen
  unfoldable pub count_seen : List Str → List Str → Map ℕ → Map ℕ
  count_seen [] seen df = df
  count_seen (t ∷ ts) seen df =
      let fresh_token = count_seen ts (t ∷ seen) (bump t df) in
      let again = count_seen ts seen df in if has seen t then again else fresh_token

  unfoldable pub document_frequency : List Tool → Map ℕ → Map ℕ
  unfolding count_seen extract_fields
  document_frequency [] df = df
  document_frequency (tool ∷ tools) df =
      document_frequency tools (count_seen (tokens_of S B (extract_fields S B tool)) [] df)

  abbrev fields_in : List Tool → ℕ
  fields_in [] = 0
  fields_in (tool ∷ tools) = length (extract_fields S B tool) + fields_in tools

  abbrev tokens_in : List Tool → ℕ
  tokens_in [] = 0
  tokens_in (tool ∷ tools) = length (tokens_of S B (extract_fields S B tool)) + tokens_in tools

  abbrev stats_of : Map ℕ → Score → List Str → Map TermStats → Map TermStats
  stats_of df n [] stats = stats
  stats_of df n (qt ∷ terms) stats =
      let d = get_or 0 (lookup qt df) in
      stats_of df n terms (insert qt (record { df = d; idf = idf d n }) stats)

  abbrev pub scorer_for : List Str → List Tool → LexicalScorer
  scorer_for [] tools = record { query_terms = []; term_stats = []; avg_field_length = nought }
  scorer_for (t ∷ ts) tools = record {
    query_terms = t ∷ ts;
    term_stats = stats_of (document_frequency tools []) (of_nat (length tools)) (t ∷ ts) [];
    avg_field_length =
        if ltb 0 (fields_in tools)
        then div (of_nat (tokens_in tools)) (of_nat (fields_in tools))
        else nought;
  }

  unfoldable pub new_lexical_scorer : Str → List Tool → LexicalScorer
  unfolding idf document_frequency
  new_lexical_scorer query tools = scorer_for (tokenize query) tools

  abbrev pub idf_of : LexicalScorer → Str → Score
  idf_of ls t = (get_or zero_stats (lookup t ls.term_stats)).idf

  abbrev count_all : List Str → Map ℕ → Map ℕ
  count_all [] counts = counts
  count_all (t ∷ ts) counts = count_all ts (bump t counts)

  -- what one query term adds to a field of `dl` tokens
  unfoldable pub term_score : LexicalScorer → Score → Score → ℕ → Str → Score → Score
  term_score ls weight dl tf qt score =
      let denom =
        max (of_nat 1)
          (mul bm25_k1 (add (sub (of_nat 1) bm25_b) (mul bm25_b (div dl ls.avg_field_length)))) in
      let gain =
        div (mul (idf_of ls qt) (mul (of_nat tf) (add bm25_k1 (of_nat 1))))
          (add (of_nat tf) denom) in
      if at_most (idf_of ls qt) nought || (tf == 0) then score else add score (mul gain weight)

  unfoldable pub score_terms : LexicalScorer → Score → Score → Map ℕ → List Str → Score → Score
  unfolding term_score
  score_terms ls weight dl counts [] score = score
  score_terms ls weight dl counts (qt ∷ terms) score =
      score_terms ls weight dl counts terms
        (term_score ls weight dl (get_or 0 (lookup qt counts)) qt score)

  unfoldable pub score_field : LexicalScorer → FieldTokens S B → Score
  unfolding score_terms
  score_field ls f =
      if length f.tokens == 0
      then nought
      else score_terms ls f.weight (of_nat (length f.tokens)) (count_all f.tokens []) ls.query_terms
          nought

  abbrev contributed : Map Score → Str → Score → Map Score
  contributed contrib name s = insert name (add (get_or nought (lookup name contrib)) s) contrib

  unfoldable pub score_each :
      LexicalScorer → List (FieldTokens S B) → Score × Map Score → Score × Map Score
  unfolding score_field
  score_each ls [] acc = acc
  score_each ls (f ∷ fields) (score, contrib) =
      let local = score_field ls f in
      let more = score_each ls fields (add score local, contributed contrib f.name local) in
      let same = score_each ls fields (score, contrib) in
      if at_most local nought then same else more

  abbrev score_unless_empty : LexicalScorer → List (FieldTokens S B) → List Str → Score × Map Score
  score_unless_empty ls fields [] = (nought, [])
  score_unless_empty ls fields (t ∷ ts) = score_each ls fields (nought, [])

  unfoldable pub score_fields : LexicalScorer → Tool → Score × Map Score
  unfolding score_each extract_fields
  score_fields ls tool = score_unless_empty ls (extract_fields S B tool) ls.query_terms

  -- the set `matched`
  unfoldable pub matched_terms : List Str → List Str → List Str → List Str
  matched_terms tokens [] matched = matched
  matched_terms tokens (qt ∷ terms) matched =
      let with_it = matched_terms tokens terms (add_once qt matched) in
      let without = matched_terms tokens terms matched in if has tokens qt then with_it else without

  abbrev pub or_first : List Str → List Str → List Str
  or_first [] ranked = take 1 ranked
  or_first (t ∷ kept) ranked = t ∷ kept

  abbrev pub by_idf : LexicalScorer → Str → Str → Bool
  by_idf ls a b = at_most (idf_of ls b) (idf_of ls a)

  abbrev pub strongest : LexicalScorer → List Str → Score
  strongest ls [] = nought
  strongest ls (t ∷ ranked) = idf_of ls t

  unfoldable pub top_signal_terms : List Str → LexicalScorer → ℕ → List Str
  top_signal_terms [] ls n = []
  top_signal_terms (t ∷ terms) ls n =
      let ranked = sort_by (by_idf ls) (t ∷ terms) in
      let floor = mul (strongest ls ranked) reason_idf_floor in
      sort_strings (
        take n (
          or_first
            (filter (λ u. not (has reason_stopwords u) && at_most floor (idf_of ls u)) ranked)
            ranked))

  abbrev or_description : List Str → List Str
  or_description [] = codes "description" ∷ []
  or_description (f ∷ fs) = f ∷ fs

  abbrev pub top_fields : Map Score → List Str
  top_fields contrib =
      or_description (map (λ e. e.0) (take 3 (sort_by (λ a b. at_most b.1 a.1) contrib)))

  abbrev reason_for : List Str → List Str → List Str → Str
  reason_for [] signals fields = codes "No direct term match"
  reason_for (t ∷ terms) signals fields =
      codes "Matched terms ["
      ++ (join_with (codes ", ") signals ++ (codes "] in " ++ join_with (codes ", ") fields))

  -- one entry of `rankTools`: the two loops of the source are put together
  unfoldable pub ranked_entry : LexicalScorer → Tool → RankedEntry S
  unfolding score_fields matched_terms top_signal_terms
  ranked_entry ls tool =
      let (score, contrib) = score_fields ls tool in
      let terms =
        sort_strings (matched_terms (tokens_of S B (extract_fields S B tool)) ls.query_terms []) in
      let fields = top_fields contrib in
      record {
        tool = tool;
        lexical_score = score;
        semantic_score = nought;
        fused_score = score;
        matched_terms = terms;
        top_contributing_fields = fields;
        reason = reason_for terms (top_signal_terms terms ls max_reason_terms) fields;
      }

  abbrev pub by_lexical : RankedEntry S → RankedEntry S → Bool
  by_lexical a b = at_most b.lexical_score a.lexical_score

  unfoldable pub rank_tools : Str → List Tool → List (RankedEntry S)
  unfolding new_lexical_scorer ranked_entry
  rank_tools query tools =
      sort_by by_lexical (map (ranked_entry (new_lexical_scorer query tools)) tools)
