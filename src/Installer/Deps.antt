-- ===== src/Installer/Deps.antt =====
-- internal/installer/deps.go: what the installer needs, from what `look` (exec.LookPath succeeds)
-- and `run` (a command's output, or none on an error) answer. `output` is the output alone, also of a
-- command that failed. The columns that are fixed texts (why, fallback) are left out. strconv.Atoi
-- reads at most 2^63 - 1.
use Prim.Native.Nat.{◌^◌}
use Prim.Native.String.{String}
use ozy.Common.{
  trim_space, ltb, leb, ◌==◌, if◌then◌else◌, Str, codes, str_eq, drop, ℕ, ◌+◌, ◌-◌, ◌*◌, Bool, true,
  false, not, ◌&&◌, ◌||◌, Option, none, some, List, [], ◌∷◌, ◌++◌,
}

pub data DepStatus : Type 0 where
  dep_ok dep_missing dep_out_of_date : DepStatus

pub record Dependency : Type 0 where
  pub name : Str
  pub required : Bool
  pub detected : Str
  pub wanted : Str
  pub status : DepStatus
  pub can_manage : Bool

abbrev is_digit : ℕ → Bool
is_digit c = leb 48 c && leb c 57

-- the digits in front, and the rest
unfoldable pub digits : Str → Str × Str
digits [] = ([], [])
digits (c ∷ s) = let (run, rest) = digits s in if is_digit c then (c ∷ run, rest) else ([], c ∷ s)

abbrev pub starts_with_dot : Str → Bool
starts_with_dot [] = false
starts_with_dot (c ∷ s) = c == b'.'

-- `(\.\d+)?`
abbrev patch_of : Str → Str
patch_of s =
    let run = (digits (drop 1 s)).0 in
    if starts_with_dot s && not (str_eq run []) then b'.' ∷ run else []

-- the three parts of a match of `\d+\.\d+(\.\d+)?` at the start of a text
abbrev version_at : Str → Option (Str × Str × Str)
version_at s =
    let (major, after) = digits s in
    let (minor, rest) = digits (drop 1 after) in
    if str_eq major [] || not (starts_with_dot after) || str_eq minor []
    then none
    else some (major, minor, patch_of rest)

abbrev or_later {ℓ} : {A : Type ℓ} → Option A → Option A → Option A
or_later none later = later
or_later (some a) later = some a

unfoldable pub find_version : Str → Option (Str × Str × Str)
unfolding digits
find_version [] = none
find_version (c ∷ s) = or_later (version_at (c ∷ s)) (find_version s)

abbrev version_text : Option (Str × Str × Str) → Str
version_text none = []
version_text (some (major, minor, patch)) = major ++ (b'.' ∷ (minor ++ patch))

unfoldable pub first_version : Str → Str
unfolding find_version
first_version s = version_text (find_version (trim_space s))

abbrev number_from : Str → ℕ → ℕ
number_from [] n = n
number_from (c ∷ s) n = number_from s (n * 10 + (c - 48))

abbrev atoi : Str → Option ℕ
atoi s = let n = number_from s 0 in if ltb n (2 ^ 63) then some n else none

abbrev both_numbers : Option ℕ → Option ℕ → Option (ℕ × ℕ)
both_numbers none n = none
both_numbers (some m) none = none
both_numbers (some m) (some n) = some (m, n)

abbrev numbers_of : Option (Str × Str × Str) → Option (ℕ × ℕ)
numbers_of none = none
numbers_of (some (major, minor, patch)) = both_numbers (atoi major) (atoi minor)

unfoldable pub major_minor : Str → Option (ℕ × ℕ)
unfolding find_version
major_minor v = numbers_of (find_version v)

abbrev compared : Option (ℕ × ℕ) → ℕ → ℕ → DepStatus
compared none min_major min_minor = dep_missing
compared (some (major, minor)) min_major min_minor =
    if ltb min_major major || ((major == min_major) && leb min_minor minor)
    then dep_ok
    else dep_out_of_date

unfoldable pub status_for : Str → ℕ → ℕ → DepStatus
status_for detected min_major min_minor = compared (major_minor detected) min_major min_minor

-- a row with nothing detected
abbrev row : String → Bool → String → Bool → Dependency
row name required wanted can_manage = record {
  name = codes name;
  required = required;
  detected = [];
  wanted = codes wanted;
  status = dep_missing;
  can_manage = can_manage;
}

abbrev versioned : Dependency → ℕ → ℕ → Str → Dependency
versioned dep min_major min_minor out =
    let v = first_version out in
    record dep { detected = v; status = status_for v min_major min_minor }

module _ (look : Str → Bool) (run : List Str → Option Str) (output : List Str → Str) where
  abbrev go_row : Option Str → Dependency
  go_row none = row "Go toolchain" true "1.26+" false
  go_row (some out) = versioned (row "Go toolchain" true "1.26+" false) 1 26 out

  unfoldable pub check_go : Dependency
  unfolding first_version status_for
  check_go = go_row (run (codes "go" ∷ codes "version" ∷ []))

  -- `checkGit` and `checkSQLite`: any version serves
  abbrev present : Dependency → String → Dependency
  present dep tool =
      if look (codes tool)
      then record dep {
        detected = first_version (output (codes tool ∷ codes "--version" ∷ []));
        status = dep_ok;
      }
      else dep

  unfoldable pub check_git : Dependency
  unfolding first_version
  check_git = present (row "Git" true "" false) "git"

  unfoldable pub check_sqlite : Dependency
  unfolding first_version
  check_sqlite = present (row "SQLite" false "" false) "sqlite3"

  abbrev python_row : Dependency
  python_row = row "Python" false "3.11+" true

  abbrev ran : Option Str → Dependency → Dependency
  ran none later = later
  ran (some out) later = versioned python_row 3 11 out

  abbrev try_python : String → Dependency → Dependency
  try_python name later =
      if look (codes name) then ran (run (codes name ∷ codes "--version" ∷ [])) later else later

  unfoldable pub check_python : Dependency
  unfolding first_version status_for
  check_python =
      if look (codes "uv")
      then record python_row { detected = codes "via uv"; status = dep_ok }
      else try_python "python3" (try_python "python" python_row)

  abbrev semantic_row : Dependency
  semantic_row = row "Semantic backend" false "" true

  abbrev semantic_with : DepStatus → Dependency
  semantic_with dep_missing = semantic_row
  semantic_with dep_ok = record semantic_row { status = dep_ok; detected = codes "provisionable" }
  semantic_with dep_out_of_date = record semantic_row {
    status = dep_ok;
    detected = codes "provisionable";
  }

  unfoldable pub semantic_from : Dependency → Dependency
  semantic_from python = semantic_with python.status

  unfoldable pub check : List Dependency
  unfolding check_go check_git check_sqlite check_python semantic_from
  check = check_go ∷ check_git ∷ check_python ∷ check_sqlite ∷ semantic_from check_python ∷ []
