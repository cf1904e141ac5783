-- ===== src/Bench/Grader.antt =====
-- internal/bench/grader.go: `Grade` over a ground truth. The details of a criterion are left out; a
-- file, a path under the output directory, and what bench/pdf.go makes of a PDF are arguments.
pub mod Verdict
use ozy.Common.{
  is_suffix, leb, if◌then◌else◌, Str, codes, str_eq, contains, length, take, to_lower, Bool, true,
  false, not, ◌&&◌, ◌||◌, Option, none, some, List, [], ◌∷◌, ◌++◌, map,
}

pub record RequiredTool : Type 0 where
  pub server : Str
  pub tool : Str

pub record ArtifactCheck : Type 0 where
  pub path : Str
  pub type : Str
  pub must_contain : List Str

-- `CommitCheck` by its subject; where the hash comes from is informational
pub record GroundTruth : Type 0 where
  pub answer_must_contain : List Str
  pub commit_check : Option Str
  pub required_tools : List RequiredTool
  pub forbidden_tool_patterns : List Str
  pub forbidden_answer_patterns : List Str
  pub artifacts : List ArtifactCheck

pub record CriterionResult : Type 0 where
  pub name : Str
  pub pass : Bool

pub record GradingResult : Type 0 where
  pub overall : Bool
  pub criteria : List CriterionResult
  pub informational : List CriterionResult

pub record ToolCallLog : Type 0 where
  pub tool : Str
  pub server : Str

pub record GradeInput : Type 0 where
  pub final_answer : Str
  pub tool_calls : List ToolCallLog
  pub culprit_hash : Str

-- what the grader reads of the run's output directory
pub record Output : Type 0 where
  pub read_file : Str → Option Str
  pub is_pdf : Str → Bool
  pub extract_pdf_text : Str → Str

-- `strings.Contains(strings.ToLower(haystack), strings.ToLower(needle))`
unfoldable pub mentions : Str → Str → Bool
mentions haystack needle = contains (to_lower haystack) (to_lower needle)

abbrev pub criterion : Str → Bool → CriterionResult
criterion name pass = record { name = name; pass = pass }

unfoldable pub check_contains : Str → Str → Str → CriterionResult
check_contains name haystack needle = criterion name (mentions haystack needle)

unfoldable pub check_commit_match : Str → Str → Str → Str → CriterionResult
check_commit_match name haystack subject hash = criterion name (
    (not (str_eq subject []) && mentions haystack subject)
    || (leb 8 (length hash) && mentions haystack (take 8 hash)))

unfoldable pub required_tool_matches : RequiredTool → ToolCallLog → Bool
required_tool_matches rt c =
    (str_eq rt.server [] || str_eq c.server rt.server)
    && (str_eq rt.tool [] || (str_eq c.tool rt.tool || is_suffix (codes "_" ++ rt.tool) c.tool))

-- the loops over the calls
abbrev pub any_call : (ToolCallLog → Bool) → List ToolCallLog → Bool
any_call matches [] = false
any_call matches (c ∷ calls) = matches c || any_call matches calls

unfoldable pub check_required_tool : RequiredTool → List ToolCallLog → CriterionResult
unfolding required_tool_matches
check_required_tool rt calls =
    criterion (codes "required_tool:" ++ (rt.server ++ (codes "/" ++ rt.tool)))
      (any_call (required_tool_matches rt) calls)

unfoldable pub check_forbidden_tool : Str → List ToolCallLog → CriterionResult
unfolding mentions
check_forbidden_tool pattern_ calls = criterion (codes "forbidden_tool:" ++ pattern_) (
    not (
      any_call
        (λ c. mentions c.tool pattern_ || mentions (c.server ++ (codes "_" ++ c.tool)) pattern_)
        calls))

unfoldable pub check_forbidden_answer : Str → Str → CriterionResult
check_forbidden_answer pattern_ answer =
    criterion (codes "forbidden_answer:" ++ pattern_) (not (mentions answer pattern_))

-- the loop over the required facts
abbrev pub has_facts : Str → List Str → Bool
has_facts text [] = true
has_facts text (want ∷ facts) = mentions text want && has_facts text facts

abbrev pub wants_pdf : ArtifactCheck → Bool
wants_pdf a = str_eq (to_lower a.type) (codes "pdf")

abbrev pub artifact_holds : Output → ArtifactCheck → Option Str → Bool
artifact_holds out a none = false
artifact_holds out a (some data_) =
    if wants_pdf a
    then out.is_pdf data_ && has_facts (out.extract_pdf_text data_) a.must_contain
    else has_facts data_ a.must_contain

unfoldable pub check_artifact : Output → ArtifactCheck → CriterionResult
check_artifact out a =
    criterion (codes "artifact:" ++ a.path) (artifact_holds out a (out.read_file a.path))

abbrev pub commit_criteria : Option Str → GradeInput → List CriterionResult
commit_criteria none inp = []
commit_criteria (some subject) inp =
    check_commit_match (codes "commit_check") inp.final_answer subject inp.culprit_hash ∷ []

-- the result criteria, in their order
unfoldable pub result_criteria : Output → GroundTruth → GradeInput → List CriterionResult
result_criteria out gt inp =
    map (check_contains (codes "answer_contains") inp.final_answer) gt.answer_must_contain
    ++ (commit_criteria gt.commit_check inp
        ++ (map (check_artifact out) gt.artifacts
            ++ map (λ p. check_forbidden_answer p inp.final_answer) gt.forbidden_answer_patterns))

-- the last loop
abbrev pub all_pass : Bool → List CriterionResult → Bool
all_pass overall [] = overall
all_pass overall (c ∷ criteria) = all_pass (overall && c.pass) criteria

unfoldable pub grade : Output → GroundTruth → GradeInput → GradingResult
unfolding result_criteria
grade out gt inp = record {
  overall = all_pass true (result_criteria out gt inp);
  criteria = result_criteria out gt inp;
  informational =
      map (λ rt. check_required_tool rt inp.tool_calls) gt.required_tools
      ++ map (λ p. check_forbidden_tool p inp.tool_calls) gt.forbidden_tool_patterns;
}
