-- ===== src/Installer/Tests/Runner.antt =====
-- internal/installer: a small host, whose state is the list of what was done to it, and the block in a
-- profile at a concrete input.
use ozy.Installer.Consent.{}
use ozy.Installer.PathBlock.{
  path_block_begin, path_block_end, path_export_line, newline, path_block, append_text, remove_text,
  trim_newlines,
}
use ozy.Installer.PathBlock.RoundTrip.{remove-append}
use ozy.Installer.Machine.{Context, missing, fresh_state}
use ozy.Common.{
  Str, codes, str_eq, is_prefix, contains, length, ℕ, ◌≡◌, refl, Bool, true, false, some, List, [],
  ◌∷◌, ◌++◌,
}

abbrev pub World : Type 0
World = List Str

abbrev pub clock : World → ℕ
clock w = length w

abbrev pub writable : World → Bool
writable w = true

abbrev pub fresh_run : Context World
fresh_run = record {
  world = [];
  lines = [];
  shown = [];
  state = fresh_state;
  disk = missing;
  semantic_ok = false;
  doctor_ok = false;
}

abbrev profile : Str
profile = codes "alias l=ls\n\n"

absent_begin : contains profile path_block_begin ≡ false
unfolding contains is_prefix
absent_begin = refl

absent_end : contains profile path_block_end ≡ false
unfolding contains is_prefix
absent_end = refl

absent_line : contains (path_export_line (codes "/b") (codes "bash")) path_block_end ≡ false
unfolding contains is_prefix str_eq
absent_line = refl

remove-append_example :
    (remove_text (append_text profile (path_block (codes "/b") (codes "bash")))
      ≡ some (trim_newlines profile ++ (newline ∷ [])))
    × (append_text
          (append_text profile (path_block (codes "/b") (codes "bash")))
          (path_block (codes "/b") (codes "bash"))
        ≡ append_text profile (path_block (codes "/b") (codes "bash")))
remove-append_example =
    remove-append profile (codes "/b") (codes "bash") absent_begin absent_end absent_line
