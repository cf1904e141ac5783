-- ===== src/Broker/Reply.antt =====
-- internal/broker/live.go: the results that the MCP SDK returns from a call, their texts, summaries
-- and notices.
use ozy.Json.{Value, str}
use ozy.Broker.Refs.{index_byte}
use ozy.Broker.Budget.{Notice, complete, items, bytes, newline}
use ozy.Common.{
  if◌then◌else◌, Str, codes, take, ℕ, Bool, true, false, Option, none, some, List, [], ◌∷◌, ◌++◌,
}

-- the MCP SDK's `Content`
pub data Content : Type 0 where
  text : Str → Content
  other : Content

-- the fields of `CallToolResult` that the broker reads
pub record ToolReply : Type 0 where
  pub is_error : Bool
  pub structured_content : Option Value
  pub content : List Content

-- `session.CallTool`: an error, or a result
pub data CallReply : Type 0 where
  call_error : Str → CallReply
  replied : ToolReply → CallReply

abbrev pub texts : List Content → List Str
texts [] = []
texts (text t ∷ cs) = t ∷ texts cs
texts (other ∷ cs) = texts cs

-- `strings.Join(parts, "\n")`
abbrev pub join_lines : List Str → Str
join_lines [] = []
join_lines (p ∷ []) = p
join_lines (p ∷ q ∷ ps) = p ++ (newline ∷ join_lines (q ∷ ps))

-- the loop of `extractErrorText`: a line break only after some text
abbrev pub write_texts : Str → List Str → Str
write_texts b [] = b
write_texts [] (t ∷ ts) = write_texts t ts
write_texts (c ∷ b) (t ∷ ts) = write_texts ((c ∷ b) ++ (newline ∷ t)) ts

unfoldable pub extract_error_text : (Str → Str) → ToolReply → Str
extract_error_text trim_space res = trim_space (write_texts [] (texts res.content))

-- `normalizeCallResult`: the joined texts, unless there is structured content
unfoldable pub normalize_call_result : ToolReply → Value
normalize_call_result res = elim res.structured_content [
  | some v ↦ v
  | none ↦ str (join_lines (texts res.content))
]

unfoldable pub first_line : Str → Str
first_line s = elim (index_byte newline s) [ none ↦ s | some i ↦ take i s ++ codes " ..." ]

unfoldable pub summarize_call : (Str → Str) → Str → Value → Str
unfolding first_line
summarize_call quote name (str []) = codes "tool " ++ quote name ++ codes " returned no content"
summarize_call quote name (str (c ∷ v)) =
    first_line (codes "tool " ++ quote name ++ codes " returned: " ++ (c ∷ v))
summarize_call quote name _ = codes "tool " ++ quote name ++ codes " returned structured content"

-- the notices of `applyCallBudget`
abbrev pub limit_text : (ℕ → Str) → ℕ → Str
limit_text format_int limit =
    codes " (budgets.callTool.maxResultBytes="
    ++ format_int limit
    ++ codes "); narrow the call for "

abbrev pub notice_text : (ℕ → Str) → Notice → List Str
notice_text format_int complete = []
notice_text format_int (items kept n limit) =
    (codes "result truncated: showing "
      ++ format_int kept
      ++ codes " of "
      ++ format_int n
      ++ codes " items"
      ++ limit_text format_int limit
      ++ codes "the rest")
    ∷ []
notice_text format_int (bytes kept n limit is_text) =
    (codes "result truncated to "
      ++ format_int kept
      ++ codes " of "
      ++ format_int n
      ++ codes " bytes"
      ++ limit_text format_int limit
      ++ codes "full output"
      ++ (if is_text then [] else codes "; the truncated payload is not valid JSON"))
    ∷ []

abbrev pub truncated : Notice → Bool
truncated complete = false
truncated _ = true
