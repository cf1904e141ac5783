-- ===== src/Eval/Invocation/Tally.antt =====
-- internal/eval/invocation.go: the counters after a run.
use mathlib.Core.Path.{subst}
use ozy.Json.{Value}
use ozy.Contract.{ErrType, downstream_server_offline, tool_schema_changed, Error}
use ozy.Eval.Invocation.{
  CorpusTool, Expected, success, repair, error, unknown, Scenario, Called, Acc, one_if, is_error,
  valid, call_with_modeling, error_is_clear, observe_valid_expected, observe_err, score_success,
  score_repair, count_error, score_error, score, tool_by_ref, run_invocation, score_found,
  no_counts,
}
use ozy.Common.{
  is_some, ◌>>=◌, Str, length, All, Map, ℕ, suc, ◌+◌, ◌≤◌, ◌≡◌, refl, ◌∙◌, Bool, true, false,
  Option, none, some, List, [], ◌∷◌, arith,
}

-- After `k` scenarios, of which `open_` are counted only as an expected validity: no rate is above
-- one, and every scenario is counted at most once.
pub record Counted (k open_ : ℕ) (a : Acc) : Type 0 where
  pub successes : a.success_ok ≤ a.n_success
  pub repairs : a.repair_ok ≤ a.n_repair
  pub drifts : a.drift_ok ≤ a.n_drift
  pub offlines : a.offline_ok ≤ a.n_offline
  pub valids : a.valid_actual ≤ a.valid_expected
  pub clears : a.err_clear ≤ a.err_n
  pub expected : a.valid_expected ≡ a.n_success + a.n_repair + open_
  pub total : a.n_success + a.n_repair + a.n_drift + a.n_offline + open_ ≤ k

one_if-le : (b : Bool) (m n : ℕ) → m ≤ n → one_if b m ≤ suc n
one_if-le b m n h = ground arith

module _ (quote : Str → Str) (instruction : Error → Str)
    (call : Bool → Str → Map Value → Called) where
  err-Counted :
      (k d : ℕ) (o : Option Error) (a : Acc)
      → Counted k d a
      → Counted k d (observe_err quote instruction call o a)
  err-Counted k d none a v = v
  err-Counted k d (some e) a v = record {
    successes = v.successes;
    repairs = v.repairs;
    drifts = v.drifts;
    offlines = v.offlines;
    valids = v.valids;
    clears = one_if-le (error_is_clear quote instruction call e) a.err_clear a.err_n v.clears;
    expected = v.expected;
    total = v.total;
  }

  valid-Counted :
      (k d : ℕ) (b : Bool) (a : Acc)
      → Counted k d a
      → Counted (suc k) (suc d) (observe_valid_expected quote instruction call b a)
  valid-Counted k d b a v = record {
    successes = v.successes;
    repairs = v.repairs;
    drifts = v.drifts;
    offlines = v.offlines;
    valids = one_if-le b a.valid_actual a.valid_expected v.valids;
    clears = v.clears;
    expected = omega (arith, v.expected);
    total = omega (arith, v.total);
  }

  later-Counted : (k d : ℕ) (a : Acc) → Counted k d a → Counted (suc k) d a
  later-Counted k d a v = record {
    successes = v.successes;
    repairs = v.repairs;
    drifts = v.drifts;
    offlines = v.offlines;
    valids = v.valids;
    clears = v.clears;
    expected = v.expected;
    total = omega (arith, v.total);
  }

  -- what `score_success` does last
  closed_success :
      (k : ℕ) (ok : Bool) (a b : Acc)
      → b.n_success ≡ a.n_success
      → b.success_ok ≡ a.success_ok
      → Counted k 1 b
      → Counted k 0 (record b { n_success = suc a.n_success; success_ok = one_if ok a.success_ok })
  closed_success k ok a b e f v = record {
    successes = one_if-le ok a.success_ok a.n_success (omega (arith, v.successes));
    repairs = v.repairs;
    drifts = v.drifts;
    offlines = v.offlines;
    valids = v.valids;
    clears = v.clears;
    expected = omega (arith, v.expected);
    total = omega (arith, v.total);
  }

  closed_repair :
      (k : ℕ) (ok : Bool) (a b : Acc)
      → b.n_repair ≡ a.n_repair
      → b.repair_ok ≡ a.repair_ok
      → Counted k 1 b
      → Counted k 0 (record b { n_repair = suc a.n_repair; repair_ok = one_if ok a.repair_ok })
  closed_repair k ok a b e f v = record {
    successes = v.successes;
    repairs = one_if-le ok a.repair_ok a.n_repair (omega (arith, v.repairs));
    drifts = v.drifts;
    offlines = v.offlines;
    valids = v.valids;
    clears = v.clears;
    expected = omega (arith, v.expected);
    total = omega (arith, v.total);
  }

  drift-Counted :
      (k : ℕ) (ok : Bool) (a : Acc)
      → Counted k 0 a
      → Counted (suc k) 0 (record a { n_drift = suc a.n_drift; drift_ok = one_if ok a.drift_ok })
  drift-Counted k ok a v = record {
    successes = v.successes;
    repairs = v.repairs;
    drifts = one_if-le ok a.drift_ok a.n_drift v.drifts;
    offlines = v.offlines;
    valids = v.valids;
    clears = v.clears;
    expected = v.expected;
    total = omega (arith, v.total);
  }

  offline-Counted :
      (k : ℕ) (ok : Bool) (a : Acc)
      → Counted k 0 a
      → Counted
          (suc k)
          0
          (record a { n_offline = suc a.n_offline; offline_ok = one_if ok a.offline_ok })
  offline-Counted k ok a v = record {
    successes = v.successes;
    repairs = v.repairs;
    drifts = v.drifts;
    offlines = one_if-le ok a.offline_ok a.n_offline v.offlines;
    valids = v.valids;
    clears = v.clears;
    expected = v.expected;
    total = omega (arith, v.total);
  }

  error-Counted :
      (k : ℕ) (t : Option ErrType) (e : Option Error) (a : Acc)
      → Counted k 0 a
      → Counted (suc k) 0 (count_error quote instruction call t e a)
  error-Counted k none e a v = later-Counted k 0 a v
  error-Counted k (some tool_schema_changed) e a v =
      drift-Counted k (is_error (some tool_schema_changed) e) a v
  error-Counted k (some downstream_server_offline) e a v =
      offline-Counted k (is_error (some downstream_server_offline) e) a v
  error-Counted k (some _) e a v = later-Counted k 0 a v

  same_success :
      (o : Option Error) (a : Acc)
      → ((observe_err quote instruction call o a).n_success ≡ a.n_success)
        × ((observe_err quote instruction call o a).success_ok ≡ a.success_ok)
        × ((observe_err quote instruction call o a).n_repair ≡ a.n_repair)
        × ((observe_err quote instruction call o a).repair_ok ≡ a.repair_ok)
  same_success none a = (refl, refl, refl, refl)
  same_success (some e) a = (refl, refl, refl, refl)

  score-Counted :
      (k : ℕ) (x : Expected) (tool : CorpusTool) (s : Scenario) (a : Acc)
      → Counted k 0 a
      → Counted (suc k) 0 (score quote instruction call x tool s a)
  unfolding score_success score_repair score_error
  score-Counted k success tool s a v =
      let o = (call_with_modeling quote instruction call false tool [] s.arguments).err in
      let b =
        observe_valid_expected quote instruction call
          (valid quote instruction call tool.input_schema s.arguments) a in
      let e = same_success o b in
      closed_success (suc k) _ a _ e.0 e.1 (err-Counted (suc k) 1 o b (valid-Counted k 0 _ a v))
  score-Counted k repair tool s a v =
      let c = (call_with_modeling quote instruction call false tool [] s.arguments).err in
      let d = (call_with_modeling quote instruction call false tool [] s.corrected).err in
      let a' = observe_err quote instruction call c a in
      let b =
        observe_valid_expected quote instruction call
          (valid quote instruction call tool.input_schema s.corrected) a' in
      let e = same_success d b in
      let f = same_success c a in
      closed_repair (suc k) _ a _ (e.2 ∙ f.2) (e.3 ∙ f.3)
        (err-Counted (suc k) 1 d b (valid-Counted k 0 _ a' (err-Counted k 0 c a v)))
  score-Counted k error tool s a v = error-Counted k s.expected_error _ _ (err-Counted k 0 _ a v)
  score-Counted k unknown tool s a v = later-Counted k 0 a v

  -- The scenario's tool is in the corpus.
  abbrev pub Known : List CorpusTool → Scenario → Type 0
  Known tools s = is_some (tool_by_ref quote instruction call s.tool_ref tools) ≡ true

  abbrev Result : List CorpusTool → ℕ → List Scenario → Option Acc → Type 0
  Result tools k scenarios o =
      (b : Acc) × ((o >>= λ a. run_invocation quote instruction call tools scenarios a) ≡ some b)
      × Counted (k + length scenarios) 0 b

  recount : (m n : ℕ) (a : Acc) → m ≡ n → Counted m 0 a → Counted n 0 a
  recount m n a e v = subst (λ k. Counted k 0 a) e v

  counted :
      (tools : List CorpusTool) (k : ℕ) (scenarios : List Scenario) (a : Acc)
      → All (Known tools) scenarios
      → Counted k 0 a
      → Result tools k scenarios (some a)
  unfolding run_invocation
  counted tools k [] a h v = (a, refl, recount k (k + 0) a (omega arith) v)
  counted tools k (s ∷ scenarios) a h v =
      go (tool_by_ref quote instruction call s.tool_ref tools) h.0
        (λ b w. counted tools (suc k) scenarios b h.1 w)
    where
      go :
          (o : Option CorpusTool)
          → is_some o ≡ true
          → ((b : Acc) → Counted (suc k) 0 b → Result tools (suc k) scenarios (some b))
          → (b : Acc) × ((score_found quote instruction call o s a >>= λ a'.
                run_invocation quote instruction call tools scenarios a')
              ≡ some b)
            × Counted (k + suc (length scenarios)) 0 b
      go none e rest = cc
      go (some tool) e rest =
          let (b, q, w) = rest _ (score-Counted k s.expected_outcome tool s a v) in
          (b, q, recount (suc k + length scenarios) (k + suc (length scenarios)) b (omega arith) w)

  -- Where every scenario names a tool of the corpus, the run comes to its end; no counter of a
  -- success is then above the counter of its kind, every success and repair is counted once as an
  -- expected validity, and at most as many scenarios are counted as there are.
  pub run_invocation-Counted :
      (tools : List CorpusTool) (scenarios : List Scenario)
      → All (Known tools) scenarios
      → (a : Acc) × (run_invocation quote instruction call tools scenarios no_counts ≡ some a)
        × Counted (length scenarios) 0 a
  run_invocation-Counted tools scenarios h =
      let (a, e, v) = counted tools 0 scenarios no_counts h (record {
        successes = omega arith;
        repairs = omega arith;
        drifts = omega arith;
        offlines = omega arith;
        valids = omega arith;
        clears = omega arith;
        expected = refl;
        total = omega arith;
      }) in
      (a, e, recount (0 + length scenarios) (length scenarios) a (omega arith) v)
