-- ===== src/Paths/Tests.antt =====
-- internal/paths/paths_test.go, on Linux.
use ozy.Paths.{resolve, on_path}
use ozy.Common.{if◌then◌else◌, Str, codes, str_eq, ◌≡◌, refl, true, List, [], ◌∷◌, ◌++◌}

abbrev join_slash : List Str → Str
join_slash [] = []
join_slash (s ∷ []) = s
join_slash (s ∷ t ∷ ts) = s ++ (b'/' ∷ join_slash (t ∷ ts))

abbrev same : Str → Str
same s = s

abbrev env : Str → Str
env name = if str_eq name (codes "XDG_DATA_HOME") then codes "/x/data" else []

linux_paths :
    ((resolve join_slash same (codes "linux") env (codes "/home/u")).data_dir ≡ codes "/x/data/ozy")
    × ((resolve join_slash same (codes "linux") env (codes "/home/u")).venv_dir
        ≡ codes "/home/u/.local/state/ozy/sidecar/venv")
    × ((resolve join_slash same (codes "linux") env (codes "/home/u")).binary_path
        ≡ codes "/home/u/.local/bin/ozy")
unfolding resolve str_eq
linux_paths = (refl, refl, refl)

found_on_path : on_path same str_eq (codes "/b") (codes "/a::/b") (codes "linux") ≡ true
unfolding on_path str_eq
found_on_path = refl
