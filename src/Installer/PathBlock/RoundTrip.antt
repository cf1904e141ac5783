-- ===== src/Installer/PathBlock/RoundTrip.antt =====
-- internal/installer/pathconfig.go: removing what was appended.
use mathlib.Core.Path.{◌∙◌, sym}
use ozy.Installer.PathBlock.{
  newline, path_block_begin, path_block_end, path_export_line, path_block, index, newline_before,
  trim_newlines, cleaned, remove_text, append_text,
}
use ozy.Installer.PathBlock.Search.{
  index-contains, OneLine, index-break, index-start, take-length-append, drop-length-append,
  drop-break, trim_newlines-newline,
}
use ozy.Common.{
  ◌-◌, true, ltb, Str, is_prefix, contains, length, take, drop, ℕ, suc, ◌+◌, ◌-◌, ◌≡◌, refl, sym,
  ap, ◌∙◌, true, false, some, [], ◌∷◌, ◌++◌, arith,
}

begin-OneLine : OneLine path_block_begin
begin-OneLine = ground arith

end-OneLine : OneLine path_block_end
end-OneLine = ground arith

begin_lacks_end : contains path_block_begin path_block_end ≡ false
unfolding contains is_prefix
begin_lacks_end = refl

-- the text with the block behind it
abbrev with_block : Str → Str → Str
with_block text line =
    text
    ++ (newline
        ∷ (path_block_begin
            ++ (newline ∷ (line ++ (newline ∷ (path_block_end ++ (newline ∷ [])))))))

both : {a a' b b' : Str} → a ≡ a' → b ≡ b' → a ++ b ≡ a' ++ b'
both e f = rw (e, f) refl

begin_at :
    (text after : Str)
    → contains text path_block_begin ≡ false
    → index (text ++ (newline ∷ (path_block_begin ++ after))) path_block_begin
      ≡ some (suc (length text))
begin_at text after h =
    rw (index-break _ _ text (path_block_begin ++ after) begin-OneLine h, index-start 35 _ after)
      (ap some (omega arith))

end_at :
    (text line : Str)
    → contains text path_block_end ≡ false
    → contains line path_block_end ≡ false
    → index (with_block text line) path_block_end
      ≡ some (suc (length text) + (suc (length path_block_begin) + suc (length line)))
end_at text line h k =
    rw
      (
        index-break _ _ text _ end-OneLine h,
        index-break _ _ path_block_begin _ end-OneLine begin_lacks_end,
        index-break _ _ line _ end-OneLine k,
        index-start 35 _ (newline ∷ []),
      )
      (ap some (omega arith))

cleaned_at :
    (t rest : Str) (i j : ℕ)
    → drop i t ≡ newline ∷ rest
    → cleaned t (suc i) j
      ≡ trim_newlines (take i t ++ drop (j + length path_block_end) t) ++ (newline ∷ [])
unfolding cleaned
cleaned_at t rest i j e =
    let back : suc i - 1 ≡ i = omega arith in
    let broken : newline_before t (suc i) ≡ true = rw (back, e) (ground arith) in
    rw (broken, back) refl

remove_at :
    (t : Str) (i j : ℕ)
    → index t path_block_begin ≡ some i
    → index t path_block_end ≡ some j
    → ltb j i ≡ false
    → remove_text t ≡ some (cleaned t i j)
unfolding remove_text
remove_at t i j b e l = rw (b, e, l) refl

after_block :
    (text line : Str) (k : ℕ)
    → k
      ≡ suc (length text)
        + (suc (length path_block_begin) + (suc (length line) + length path_block_end))
    → drop k (with_block text line) ≡ newline ∷ []
after_block text line k e =
    drop-break text _ k _ e
    ∙ drop-break path_block_begin (line ++ (newline ∷ (path_block_end ++ (newline ∷ []))))
        (suc (length path_block_begin) + (suc (length line) + length path_block_end))
        (suc (length line) + length path_block_end) refl
    ∙ drop-break line (path_block_end ++ (newline ∷ [])) (suc (length line) + length path_block_end)
        (length path_block_end) refl
    ∙ drop-length-append path_block_end (newline ∷ [])

-- Cutting the block out, where the two markers were found.
remove_block :
    (text line : Str)
    → contains text path_block_begin ≡ false
    → contains text path_block_end ≡ false
    → contains line path_block_end ≡ false
    → remove_text (with_block text line) ≡ some (trim_newlines text ++ (newline ∷ []))
remove_block text line h k l =
    remove_at _ _ _ (begin_at text _ h) (end_at text line k l) (ground arith)
    ∙ ap some (
        cleaned_at _ _ (length text) _ (drop-length-append text _)
        ∙ ap (λ u. trim_newlines u ++ (newline ∷ []))
            (both (take-length-append text _) (
              after_block text line
                (suc (length text)
                  + (suc (length path_block_begin) + suc (length line))
                  + length path_block_end)
                (omega arith)))
        ∙ ap (λ u. u ++ (newline ∷ [])) (trim_newlines-newline text))

-- A shell file without either marker, to which the block was appended, is after the removal of the
-- block what it was, but for its line breaks at the end, of which exactly one is left; so long as
-- the bin directory does not bring the end marker into the block. A second installation before the
-- removal adds nothing.
pub remove-append :
    (text dir shell : Str)
    → contains text path_block_begin ≡ false
    → contains text path_block_end ≡ false
    → contains (path_export_line dir shell) path_block_end ≡ false
    → (remove_text (append_text text (path_block dir shell))
        ≡ some (trim_newlines text ++ (newline ∷ [])))
      × (append_text (append_text text (path_block dir shell)) (path_block dir shell)
          ≡ append_text text (path_block dir shell))
unfolding remove_text append_text
remove-append text dir shell h k l =
    let appended : append_text text (path_block dir shell) ≡ text ++ path_block dir shell =
      rw h refl in
    let found = index-contains _ _ _ (
      begin_at text
        (newline ∷ (path_export_line dir shell ++ (newline ∷ (path_block_end ++ (newline ∷ [])))))
        h) in
    (
      ap remove_text appended ∙ remove_block text (path_export_line dir shell) h k l,
      ap (λ t. append_text t (path_block dir shell)) appended ∙ rw found (sym appended),
    )
