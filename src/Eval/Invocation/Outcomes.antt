-- ===== src/Eval/Invocation/Outcomes.antt =====
-- internal/eval/invocation.go: which outcome a call has, and what the counters say.
use ozy.Json.{Value}
use ozy.Contract.{Error}
use ozy.Schema.{validate}
use ozy.Schema.Conformance.{Conforms, validate_iff}
use ozy.Eval.Invocation.{
  CorpusTool, Called, drifted, invalid, no_problems, no_fields, when_valid, valid,
  call_with_modeling,
}
use ozy.Common.{
  if◌then◌else◌, Str, Map, ◌≡◌, refl, ap, ◌∙◌, ◌≢◌, ◌↔◌, ◌⊎◌, inl, inr, Bool, true, false, not,
  ◌&&◌, List, [], ◌∷◌, arith,
}

no_problems_iff : (ps : List Str) → (no_problems ps ≡ true) ↔ (ps ≡ [])
no_problems_iff [] = (λ _. refl, λ _. refl)
no_problems_iff (p ∷ ps) = (λ h. cc, λ h. cc)

no_fields-false : (m : Map Value) → m ≢ [] → no_fields m ≡ false
no_fields-false [] h = absurd (h refl)
no_fields-false (f ∷ m) h = refl

when_valid_not :
    (tool : CorpusTool) (ps : List Str) (c : Called)
    → no_problems ps ≡ false
    → when_valid tool ps c ≡ invalid tool ps
when_valid_not tool [] c h = cc
when_valid_not tool (p ∷ ps) c h = refl

when_valid_ok :
    (tool : CorpusTool) (ps : List Str) (c : Called)
    → no_problems ps ≡ true
    → when_valid tool ps c ≡ c
when_valid_ok tool [] c h = refl
when_valid_ok tool (p ∷ ps) c h = cc

not_true : (b : Bool) → (b ≡ true → ⊥) → b ≡ false
not_true true h = absurd (h refl)
not_true false h = refl

module _ (quote : Str → Str) (instruction : Error → Str)
    (call : Bool → Str → Map Value → Called) where
  valid_iff :
      (schema args : Map Value)
      → (valid quote instruction call schema args ≡ true) ↔ Conforms schema args
  unfolding valid
  valid_iff schema args =
      let n = no_problems_iff (validate quote schema args) in
      let v = validate_iff quote schema args in (λ h. v.0 (n.0 h), λ h. n.1 (v.1 h))

  -- what a call comes to, by the schemas and never by the broker's answer
  pub record Modelled (offline : Bool) (tool : CorpusTool) (live_schema args : Map Value)
      : Type 0 where
    pub drift :
        live_schema ≢ []
        → Conforms tool.input_schema args
        → (Conforms live_schema args → ⊥)
        → call_with_modeling quote instruction call offline tool live_schema args ≡ drifted tool
    pub rejects :
        (Conforms tool.input_schema args → ⊥)
        → call_with_modeling quote instruction call offline tool live_schema args
          ≡ invalid tool (validate quote tool.input_schema args)
    pub reaches :
        Conforms tool.input_schema args
        → (live_schema ≡ []) ⊎ Conforms live_schema args
        → call_with_modeling quote instruction call offline tool live_schema args
          ≡ call offline tool.tool_ref args

  drifts :
      (offline : Bool) (tool : CorpusTool) (live args : Map Value)
      → no_fields live ≡ false
      → valid quote instruction call tool.input_schema args ≡ true
      → valid quote instruction call live args ≡ false
      → call_with_modeling quote instruction call offline tool live args ≡ drifted tool
  unfolding call_with_modeling
  drifts offline tool live args a b c = rw (a, b, c) refl

  no_drift :
      (offline : Bool) (tool : CorpusTool) (live args : Map Value)
      → (not (no_fields live)
          && (valid quote instruction call tool.input_schema args
              && not (valid quote instruction call live args)))
        ≡ false
      → call_with_modeling quote instruction call offline tool live args
        ≡ when_valid tool (validate quote tool.input_schema args) (call offline tool.tool_ref args)
  unfolding call_with_modeling
  no_drift offline tool live args h =
      ap
        (λ (b : Bool).
          if b
          then drifted tool
          else when_valid tool (validate quote tool.input_schema args)
              (call offline tool.tool_ref args))
        h

  same_schema :
      (live args : Map Value)
      → (live ≡ []) ⊎ Conforms live args
      → (not (no_fields live) && not (valid quote instruction call live args)) ≡ false
  same_schema live args (inl e) = rw e refl
  same_schema live args (inr k) = rw ((valid_iff live args).1 k) (ground arith)

  -- Against a live schema that the tool no longer has, arguments that fit only the catalog's schema
  -- are told as drift; arguments that do not fit the catalog's schema are told as invalid, with all
  -- problems; only arguments that fit both reach the broker, whose answer is then the outcome.
  pub call_with_modeling-Modelled :
      (offline : Bool) (tool : CorpusTool) (live args : Map Value) → Modelled offline tool live args
  unfolding valid
  call_with_modeling-Modelled offline tool live args = record {
    drift = λ n k l.
        drifts offline tool live args (no_fields-false live n)
          ((valid_iff tool.input_schema args).1 k)
          (not_true _ (λ e. l ((valid_iff live args).0 e)));
    rejects = λ k.
        let bad = not_true _ (λ e. k ((valid_iff tool.input_schema args).0 e)) in
        no_drift offline tool live args (ground (arith, bad))
        ∙ when_valid_not tool (validate quote tool.input_schema args) _ bad;
    reaches = λ k e.
        no_drift offline tool live args (ground (arith, same_schema live args e))
        ∙ when_valid_ok tool (validate quote tool.input_schema args) _
            ((valid_iff tool.input_schema args).1 k);
  }
