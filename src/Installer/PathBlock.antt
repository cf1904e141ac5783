-- ===== src/Installer/PathBlock.antt =====
-- internal/installer/pathconfig.go: the marked block in the shell's rc file, as a text. `RcFile` is
-- the file with what the operating system answers; a write that fails is taken to leave the file as
-- it was. filepath.Base has been applied to the shell's path, and filepath.Join is `join`.
pub mod Search
pub mod RoundTrip
use ozy.Common.{
  ltb, ◌==◌, if◌then◌else◌, is_some, Str, codes, str_eq, is_prefix, contains, length, take, drop, ℕ,
  suc, ◌+◌, ◌-◌, Bool, false, not, ◌&&◌, Option, none, some, List, [], ◌∷◌, ◌++◌,
}

abbrev pub newline : ℕ
newline = b'\n'

abbrev pub path_block_begin : Str
path_block_begin = codes "# >>> ozy installer >>>"

abbrev pub path_block_end : Str
path_block_end = codes "# <<< ozy installer <<<"

unfoldable pub rc_file_for : (List Str → Str) → Str → Str → Str × Str
rc_file_for join base home =
    if str_eq base (codes "zsh")
    then (join (home ∷ codes ".zshrc" ∷ []), codes "zsh")
    else if str_eq base (codes "bash")
    then (join (home ∷ codes ".bashrc" ∷ []), codes "bash")
    else if str_eq base (codes "fish")
    then (join (home ∷ codes ".config" ∷ codes "fish" ∷ codes "config.fish" ∷ []), codes "fish")
    else (join (home ∷ codes ".profile" ∷ []), codes "sh")

abbrev pub path_export_line : Str → Str → Str
path_export_line dir shell =
    if str_eq shell (codes "fish")
    then codes "fish_add_path " ++ dir
    else codes "export PATH=\"" ++ (dir ++ codes ":$PATH\"")

abbrev pub path_block : Str → Str → Str
path_block dir shell =
    newline
    ∷ (path_block_begin
        ++ (newline
            ∷ (path_export_line dir shell ++ (newline ∷ (path_block_end ++ (newline ∷ []))))))

abbrev later : Option ℕ → Option ℕ
later none = none
later (some k) = some (suc k)

-- `strings.Index(text, sub)`, with -1 as `none`
unfoldable pub index : Str → Str → Option ℕ
index [] sub = if is_prefix sub [] then some 0 else none
index (c ∷ text) sub =
    let rest = later (index text sub) in if is_prefix sub (c ∷ text) then some 0 else rest

abbrev starts_line : Str → Bool
starts_line [] = false
starts_line (c ∷ text) = c == newline

-- `start > 0 && text[start-1] == '\n'`
abbrev pub newline_before : Str → ℕ → Bool
newline_before text start = ltb 0 start && starts_line (drop (start - 1) text)

abbrev keep_line : ℕ → Str → Str
keep_line c [] = if c == newline then [] else c ∷ []
keep_line c (d ∷ s) = c ∷ d ∷ s

-- `strings.TrimRight(s, "\n")`
unfoldable pub trim_newlines : Str → Str
trim_newlines [] = []
trim_newlines (c ∷ s) = keep_line c (trim_newlines s)

-- the text without the bytes from `start` to `end`
unfoldable pub cleaned : Str → ℕ → ℕ → Str
cleaned text start end =
    let from = if newline_before text start then start - 1 else start in
    trim_newlines (take from text ++ drop (end + length path_block_end) text) ++ (newline ∷ [])

abbrev between : Str → Option ℕ → Option ℕ → Option Str
between text none end = none
between text (some start) none = none
between text (some start) (some end) = if ltb end start then none else some (cleaned text start end)

-- the new text of `removePathBlock`, where there is one
unfoldable pub remove_text : Str → Option Str
remove_text text = between text (index text path_block_begin) (index text path_block_end)

-- the new text of `appendBlockOnce`
unfoldable pub append_text : Str → Str → Str
append_text existing block =
    if contains existing path_block_begin then existing else existing ++ block

pub record RcFile : Type 0 where
  pub content : Option Str
  pub read_error : Option Str
  pub write_error : Option Str

abbrev text_of : Option Str → Str
text_of none = []
text_of (some text) = text

abbrev written : RcFile → Option Str → Str → RcFile × Option Str
written f (some e) text = (f, some e)
written f none text = (record f { content = some text }, none)

abbrev append_to : RcFile → Str → Option Str → RcFile × Option Str
append_to f block (some e) = (f, some e)
append_to f block none =
    if contains (text_of f.content) path_block_begin
    then (f, none)
    else written f f.write_error (append_text (text_of f.content) block)

-- a file that is not there is an empty one
unfoldable pub append_block_once : RcFile → Str → RcFile × Option Str
unfolding append_text
append_block_once f block = append_to f block f.read_error

abbrev replaced : RcFile → Option Str → RcFile × Bool × Option Str
replaced f none = (f, false, none)
replaced f (some text) = let (g, e) = written f f.write_error text in (g, not (is_some e), e)

abbrev remove_from : RcFile → Option Str → Option Str → RcFile × Bool × Option Str
remove_from f (some e) content = (f, false, some e)
remove_from f none none = (f, false, none)
remove_from f none (some text) = replaced f (remove_text text)

unfoldable pub remove_path_block : RcFile → RcFile × Bool × Option Str
unfolding remove_text
remove_path_block f = remove_from f f.read_error f.content
