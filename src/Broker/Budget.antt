-- ===== src/Broker/Budget.antt =====
-- internal/broker/live.go: `applyCallBudget` and what it cuts with. `json.Marshal` of a value and
-- `strings.ToValidUTF8(s, "")` are arguments; the notice is represented by its numbers.
use ozy.Json.{Value, str, arr, values_of, as_arr, as_str}
pub mod Prefix
mod Cuts
pub mod Bounds
mod Tests
use ozy.Config.{Config}
use ozy.Common.{
  ltb, leb, ◌==◌, if◌then◌else◌, Str, length, take, is_positive, nat_of, ℕ, suc, ◌+◌, Bool, true,
  false, Option, none, some, List, [], ◌∷◌,
}

-- `strings.LastIndexByte(s, b)`
abbrev pub last_index_byte : ℕ → Str → Option ℕ
last_index_byte b [] = none
last_index_byte b (c ∷ s) = elim (last_index_byte b s) [
  | some i ↦ some (suc i)
  | none ↦ if c == b then some 0 else none
]

-- `if i := strings.LastIndexByte(cut, b); i > 0 { return cut[:i] }`
abbrev pub cut_before : ℕ → Str → Str → Str
cut_before b cut otherwise = elim (last_index_byte b cut) [
  | none ↦ otherwise
  | some i ↦ if i == 0 then otherwise else take i cut
]

abbrev pub newline : ℕ
newline = 10

abbrev pub space : ℕ
space = 32

unfoldable pub cut_at_boundary : (Str → Str) → Str → ℕ → Str
cut_at_boundary to_valid_utf8 s limit =
    if leb (length s) limit
    then s
    else cut_before newline (take limit s)
        (cut_before space (take limit s) (to_valid_utf8 (take limit s)))

-- The loop of `arrayPrefixWithinBudget`, from the `i`-th element, with `total` bytes so far.
unfoldable pub prefix_from : (Value → Option Str) → ℕ → ℕ → ℕ → List Value → ℕ
prefix_from marshal limit i total [] = i
prefix_from marshal limit i total (v ∷ vs) = elim (marshal v) [
  | none ↦ i
  | some b ↦
      let sum = total + length b + (if i == 0 then 0 else 1) in
      let rest = prefix_from marshal limit (suc i) sum vs in if ltb limit sum then i else rest
]

unfoldable pub array_prefix_within_budget : (Value → Option Str) → List Value → ℕ → ℕ
unfolding prefix_from
array_prefix_within_budget marshal vs limit = prefix_from marshal limit 0 2 vs

-- What the notice says: which part of the result is shown.
pub data Notice : Type 0 where
  complete : Notice
  items : ℕ → ℕ → ℕ → Notice
  bytes : ℕ → ℕ → ℕ → Bool → Notice

-- `if limit < 16 { limit = 16 }`
abbrev pub effective_limit : ℕ → ℕ
effective_limit n = if ltb n 16 then 16 else n

-- the text cut that ends `applyCallBudget`: of the result if it is a string, else of its encoding
abbrev pub cut_text : (Str → Str) → ℕ → Str → Option Str → Value × Notice
cut_text to_valid_utf8 limit encoded (some text) =
    let cut = cut_at_boundary to_valid_utf8 text limit in
    (str cut, bytes (length cut) (length text) limit true)
cut_text to_valid_utf8 limit encoded none =
    let cut = cut_at_boundary to_valid_utf8 encoded limit in
    (str cut, bytes (length cut) (length encoded) limit false)

-- an array loses whole trailing elements, unless none would be left
abbrev pub shorten :
    (Value → Option Str) → (Str → Str) → ℕ → Str → Value → Option (List Value) → Value × Notice
shorten marshal to_valid_utf8 limit encoded result none =
    cut_text to_valid_utf8 limit encoded (as_str (some result))
shorten marshal to_valid_utf8 limit encoded result (some vs) =
    let kept = array_prefix_within_budget marshal vs limit in
    if ltb 0 kept
    then (arr (values_of (take kept vs)), items kept (length vs) limit)
    else cut_text to_valid_utf8 limit encoded (as_str (some result))

unfoldable pub bound_result :
    (Value → Option Str) → (Str → Str) → ℕ → Value → Option Str → Value × Notice
bound_result marshal to_valid_utf8 limit result none = (result, complete)
bound_result marshal to_valid_utf8 limit result (some encoded) =
    if leb (length encoded) limit
    then (result, complete)
    else shorten marshal to_valid_utf8 limit encoded result (as_arr (some result))

unfoldable pub apply_call_budget :
    (Value → Option Str) → (Str → Str) → Option Config → Value → Value × Notice
apply_call_budget marshal to_valid_utf8 none result = (result, complete)
apply_call_budget marshal to_valid_utf8 (some cfg) result =
    if is_positive cfg.budgets.call_tool_max_result_bytes
    then bound_result marshal to_valid_utf8
        (effective_limit (nat_of cfg.budgets.call_tool_max_result_bytes)) result (marshal result)
    else (result, complete)
