-- ===== src/Broker/Budget/Tests.antt =====
-- An encoding that writes arrays as encoding/json does, with texts as they are.
use ozy.Json.{Value, Values, str, arr, nil, cons, values_of}
use ozy.Config.{Config}
use ozy.Broker.Budget.{apply_call_budget}
use ozy.Broker.Budget.Prefix.{body_size, MarshalsArrays}
use ozy.Broker.Budget.Bounds.{Honest, call_budget-Honest}
use ozy.Contract.{CallResult}
use ozy.Catalog.{ok}
use ozy.Config.{zero_server}
use ozy.Broker.{done}
use ozy.Broker.Refs.{split_tool_ref}
use ozy.Broker.Call.{Backend, call_live, success}
use ozy.Broker.Reply.{ToolReply, replied}
use ozy.Broker.Call.Outcomes.{Shows, call_live-within_budget}
use ozy.Common.{
  lookup, str_eq, codes, pos, true, false, ◌==◌, if◌then◌else◌, Option-cases, Str, codes, str_eq,
  length, length-append, lookup, ℕ, suc, ◌+◌, ◌≡◌, refl, inl, inr, true, false, Option, none, some,
  List, [], ◌∷◌, ◌++◌, arith, pos,
}

-- An element of an array that is not the first stands after a comma.
abbrev joined : ℕ → Str → Str → Str
joined i b rest = b ++ ((if i == 0 then [] else 44 ∷ []) ++ rest)

abbrev mutual
  encode_body : ℕ → Values → Option Str
  encode_body i nil = some []
  encode_body i (cons v vs) = elim (encode v) [
    | none ↦ none
    | some b ↦ elim (encode_body (suc i) vs) [ none ↦ none | some rest ↦ some (joined i b rest) ]
  ]

  encode : Value → Option Str
  encode (str s) = some s
  encode (arr vs) = elim (encode_body 0 vs) [ none ↦ none | some b ↦ some (91 ∷ (b ++ (93 ∷ []))) ]
  encode _ = none

length-joined :
    (i : ℕ) (b rest : Str)
    → length (joined i b rest) ≡ length b + (if i == 0 then 0 else 1) + length rest
length-joined i b rest = ground (
  arith,
  length-append b ((if i == 0 then [] else 44 ∷ []) ++ rest),
  length-append (if i == 0 then [] else 44 ∷ []) rest,
)

body-length :
    (i : ℕ) (vs : List Value) (n : ℕ)
    → body_size encode i vs ≡ some n
    → (b : Str) × (encode_body i (values_of vs) ≡ some b) × (length b ≡ n)
body-length i [] n h = ([], refl, ground arith)
body-length i (v ∷ vs) n h = elim (Option-cases (encode v)) [
  | inl e ↦ ground arith
  | inr (b, e) ↦ elim (Option-cases (body_size encode (suc i) vs)) [
    | inl f ↦ ground arith
    | inr (m, f) ↦
        let (rest, g, sized) = body-length (suc i) vs m f in
        (joined i b rest, rw (e, g) refl, ground (arith, length-joined i b rest))
  ]
]

encode-MarshalsArrays : MarshalsArrays encode
encode-MarshalsArrays vs n h =
    let (b, e, sized) = body-length 0 vs n h in
    (91 ∷ (b ++ (93 ∷ [])), rw (e, encode) refl, ground (arith, length-append b (93 ∷ [])))

abbrev config : Config
config = record {
  schema = [];
  version = pos 1;
  mcp = (codes "github", record zero_server { enabled = true }) ∷ [];
  embedding = record { provider = []; required = false; vector_backend = []; model = [] };
  search = record {
    lexical_enabled = true;
    semantic = record { enabled = false; required = false };
  };
  budgets = record {
    find_tool_max_results = pos 0;
    include_full_schemas = false;
    describe_include_examples = false;
    call_tool_max_result_bytes = pos 5;
  };
  cache = record { enabled = false; ttl_seconds = pos 0; max_entries = pos 0 };
  capability_breadcrumb = false;
}

abbrev three_rows : Value
three_rows =
    arr (values_of (str (codes "first row") ∷ str (codes "row 2") ∷ str (codes "row 3") ∷ []))

call_budget-Honest_example :
    Honest encode
      (λ s. s)
      (pos 5)
      three_rows
      (apply_call_budget encode (λ s. s) (some config) three_rows)
call_budget-Honest_example =
    call_budget-Honest encode (λ s. s) config three_rows (λ t. omega arith) encode-MarshalsArrays

abbrev rows : ToolReply
rows = record { is_error = false; structured_content = some three_rows; content = [] }

abbrev table : Backend (Unit {0})
table = record {
  get_tool = λ ref. ok none;
  connect =
      λ id server. record { server_id = id; session = some tt; error = none; skipped = false };
  call = λ session name args. replied rows;
  late_connect = false;
  late_call = false;
  quote = λ s. s;
  trim_space = λ s. s;
  format_int = λ n. [];
  marshal = encode;
  to_valid_utf8 = λ s. s;
}

abbrev bounded_rows : CallResult
bounded_rows = success table (some config) (codes "github.rows") [] (codes "rows") rows

table-answers : (call_live table (some config) (codes "github.rows") []).0 ≡ done bounded_rows
unfolding call_live split_tool_ref lookup str_eq
table-answers = refl

call_live-within_budget_example :
    Shows table (some config) (codes "github.rows") [] (pos 5) bounded_rows
call_live-within_budget_example =
    call_live-within_budget table (some config) (codes "github.rows") [] config bounded_rows refl
      (λ t. omega arith) encode-MarshalsArrays table-answers
