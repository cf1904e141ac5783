-- ===== src/Bench/Tests.antt =====
-- internal/bench/grader.go: the grading of one answer.
use ozy.Bench.Grader.{ArtifactCheck, GroundTruth, GradeInput, Output, grade}
use ozy.Bench.Grader.Verdict.{Succeeded, grade_iff}
use ozy.Common.{codes, ◌≡◌, ◌↔◌, true, some, [], ◌∷◌}

abbrev report : ArtifactCheck
report = record { path = codes "report.pdf"; type = codes "PDF"; must_contain = codes "42" ∷ [] }

abbrev truth : GroundTruth
truth = record {
  answer_must_contain = codes "Fix" ∷ [];
  commit_check = some (codes "fix overflow");
  required_tools = [];
  forbidden_tool_patterns = [];
  forbidden_answer_patterns = codes "cannot" ∷ [];
  artifacts = report ∷ [];
}

abbrev answer : GradeInput
answer = record {
  final_answer = codes "The culprit is Fix Overflow";
  tool_calls = [];
  culprit_hash = codes "0123456789";
}

abbrev output : Output
output = record {
  read_file = λ path. some (codes "%PDF-");
  is_pdf = λ file. true;
  extract_pdf_text = λ file. codes "answer: 42";
}

grade_iff_example :
    ((grade output truth answer).overall ≡ true)
    ↔ Succeeded output truth answer.final_answer answer.culprit_hash
grade_iff_example = grade_iff output truth answer
