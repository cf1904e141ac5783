-- ===== src/Bench/Grader/Verdict.antt =====
-- internal/bench/grader.go: what the verdict of `Grade` says.
use ozy.Bench.Grader.{
  ArtifactCheck, GroundTruth, CriterionResult, GradeInput, Output, mentions, check_contains,
  check_commit_match, check_forbidden_answer, has_facts, wants_pdf, artifact_holds, check_artifact,
  commit_criteria, result_criteria, all_pass, grade,
}
use ozy.Common.{
  Str, codes, str_eq_iff, length, take, All, ◌≤◌, ◌≡◌, refl, sym, ◌∙◌, ◌≢◌, ◌↔◌, ◌⊎◌, Bool, true,
  false, ◌&&◌, Option, none, some, List, [], ◌∷◌, ◌++◌, map, arith,
}

abbrev pub Mentions : Str → Str → Type 0
Mentions text words = mentions text words ≡ true

-- The file is there, is a PDF if it has to be, and its text mentions every required fact.
abbrev pub Delivered : Output → ArtifactCheck → Type 0
Delivered out a =
    (file : Str) × (out.read_file a.path ≡ some file)
    × (((wants_pdf a ≡ true)
          × (out.is_pdf file ≡ true)
          × All (Mentions (out.extract_pdf_text file)) a.must_contain)
        ⊎ ((wants_pdf a ≡ false) × All (Mentions file) a.must_contain))

-- The subject, or the first eight digits of the hash, is in the answer.
abbrev pub Identified : Str → Str → Option Str → Type 0
Identified answer hash none = Unit
Identified answer hash (some subject) =
    ((subject ≢ []) × Mentions answer subject) ⊎ ((8 ≤ length hash) × Mentions answer (take 8 hash))

-- The outcome is right; nothing here reads the tool calls.
pub record Succeeded (out : Output) (gt : GroundTruth) (answer hash : Str) : Type 0 where
  pub answered : All (Mentions answer) gt.answer_must_contain
  pub identified : Identified answer hash gt.commit_check
  pub delivered : All (Delivered out) gt.artifacts
  pub avoided : All (λ p. mentions answer p ≡ false) gt.forbidden_answer_patterns

Passing : List CriterionResult → Type 0
Passing = All (λ c. c.pass ≡ true)

all_pass_iff :
    (b : Bool) (cs : List CriterionResult) → (all_pass b cs ≡ true) ↔ ((b ≡ true) × Passing cs)
unfolding Passing
all_pass_iff b [] = (λ h. (h, tt), λ h. h.0)
all_pass_iff b (c ∷ cs) = ground (arith, all_pass_iff (b && c.pass) cs)

Passing-append : (xs ys : List CriterionResult) → Passing (xs ++ ys) ↔ (Passing xs × Passing ys)
unfolding Passing
Passing-append [] ys = (λ h. (tt, h), λ h. h.1)
Passing-append (x ∷ xs) ys =
    let k = Passing-append xs ys in
    (λ h. ((h.0, (k.0 h.1).0), (k.0 h.1).1), λ h. (h.0.0, k.1 (h.0.1, h.1)))

Passing-map {ℓ κ} :
    {A : Type ℓ} (f : A → CriterionResult) (P : A → Type κ)
    → ((a : A) → ((f a).pass ≡ true) ↔ P a)
    → (xs : List A) → Passing (map f xs) ↔ All P xs
unfolding Passing
Passing-map f P h [] = (λ _. tt, λ _. tt)
Passing-map f P h (x ∷ xs) =
    let k = Passing-map f P h xs in (λ g. ((h x).0 g.0, k.0 g.1), λ g. ((h x).1 g.0, k.1 g.1))

facts_iff :
    (text : Str) (facts : List Str) → (has_facts text facts ≡ true) ↔ All (Mentions text) facts
facts_iff text [] = (λ _. tt, λ _. refl)
facts_iff text (w ∷ facts) = ground (arith, facts_iff text facts)

content_iff :
    (out : Output) (a : ArtifactCheck) (file : Str)
    → (artifact_holds out a (some file) ≡ true) ↔ (
        ((wants_pdf a ≡ true)
          × (out.is_pdf file ≡ true)
          × All (Mentions (out.extract_pdf_text file)) a.must_contain)
        ⊎ ((wants_pdf a ≡ false) × All (Mentions file) a.must_contain))
content_iff out a file =
    ground
      (arith, facts_iff (out.extract_pdf_text file) a.must_contain, facts_iff file a.must_contain)

none-ne-some {ℓ} : {A : Type ℓ} {x : A} → none ≡ some x → ⊥
none-ne-some e = cc

some-injective {ℓ} : {A : Type ℓ} {x y : A} → some x ≡ some y → x ≡ y
some-injective e = cc

artifact_iff :
    (out : Output) (a : ArtifactCheck) → ((check_artifact out a).pass ≡ true) ↔ Delivered out a
unfolding check_artifact
artifact_iff out a = go (out.read_file a.path) refl
  where
    go :
        (o : Option Str)
        → out.read_file a.path ≡ o
        → (artifact_holds out a o ≡ true) ↔ Delivered out a
    go none e = (λ h. cc, λ d. absurd (none-ne-some (sym e ∙ d.1)))
    go (some file) e = (
      λ h. (file, e, (content_iff out a file).0 h),
      λ d. rw (some-injective (sym e ∙ d.1)) ((content_iff out a d.0).1 d.2),
    )

commit_iff :
    (inp : GradeInput) (c : Option Str)
    → Passing (commit_criteria c inp) ↔ Identified inp.final_answer inp.culprit_hash c
unfolding Passing check_commit_match
commit_iff inp none = (λ _. tt, λ _. tt)
commit_iff inp (some subject) = ground (arith, str_eq_iff subject [])

criteria_iff :
    (out : Output) (gt : GroundTruth) (inp : GradeInput)
    → Passing (result_criteria out gt inp) ↔ Succeeded out gt inp.final_answer inp.culprit_hash
unfolding result_criteria check_contains check_forbidden_answer
criteria_iff out gt inp =
    let answers =
      Passing-map (check_contains (codes "answer_contains") inp.final_answer)
        (Mentions inp.final_answer) (λ w. (λ h. h, λ h. h)) gt.answer_must_contain in
    let commits = commit_iff inp gt.commit_check in
    let files = Passing-map (check_artifact out) (Delivered out) (artifact_iff out) gt.artifacts in
    let phrases =
      Passing-map (λ p. check_forbidden_answer p inp.final_answer)
        (λ p. mentions inp.final_answer p ≡ false) (λ p. ground arith)
        gt.forbidden_answer_patterns in
    let first =
      Passing-append
        (map (check_contains (codes "answer_contains") inp.final_answer) gt.answer_must_contain)
        _ in
    let second = Passing-append (commit_criteria gt.commit_check inp) _ in
    let third =
      Passing-append (map (check_artifact out) gt.artifacts)
        (map (λ p. check_forbidden_answer p inp.final_answer) gt.forbidden_answer_patterns) in
    (
      λ h.
          let (a, r) = first.0 h in
          let (c, r') = second.0 r in
          let (f, p) = third.0 r' in
          record {
            answered = answers.0 a;
            identified = commits.0 c;
            delivered = files.0 f;
            avoided = phrases.0 p;
          },
      λ s. first.1 (
        answers.1 s.answered,
        second.1 (commits.1 s.identified, third.1 (files.1 s.delivered, phrases.1 s.avoided)),
      ),
    )

-- A run passes exactly when its outcome is right: the answer mentions every fact that it must,
-- identifies the commit where that is asked, the files are there with their facts, and no forbidden
-- phrase is in the answer. Which tools were called has no part in it.
pub grade_iff :
    (out : Output) (gt : GroundTruth) (inp : GradeInput)
    → ((grade out gt inp).overall ≡ true) ↔ Succeeded out gt inp.final_answer inp.culprit_hash
unfolding grade
grade_iff out gt inp =
    let k = all_pass_iff true (result_criteria out gt inp) in
    let c = criteria_iff out gt inp in (λ h. c.0 (k.0 h).1, λ s. k.1 (refl, c.1 s))
