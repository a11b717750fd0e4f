-- ===== src/Orchestrator/Planning/Places.antt =====
-- oxcer-core/src/orchestrator/planning.rs: the folder or file that a task names.
use oxcer_agent.Prelude.{
  ℕ, ◌+◌, Bool, true, false, not, ◌&&◌, ◌||◌, List, [], ◌∷◌, Option, none, some, any, is_empty, ltb,
  leb, ◌==◌, if◌then◌else◌,
}
use oxcer_agent.Text.{
  Text, Casing, codes, contains, starts_with, ends_with, len, trim_matches, drop_matches,
  split_whitespace,
}
use oxcer_agent.Paths.{path_join}
use oxcer_agent.Orchestrator.ToolsOnly.{unwrap_or}

-- A workspace's id, its root, and a path in it.
abbrev pub Place : Type 0
Place = Text × (Text × Text)

-- The loop over `well_known`.
unfoldable pub well_known_dir : Text → Option Text
unfolding contains
well_known_dir task_lower =
    if contains task_lower (codes "documents")
    then some (codes "Documents")
    else if contains task_lower (codes "downloads")
    then some (codes "Downloads")
    else if contains task_lower (codes "desktop")
    then some (codes "Desktop")
    else none

unfoldable pub names_home : Text → Bool
unfolding contains
names_home task_lower =
    contains task_lower (codes "home folder")
    || contains task_lower (codes "home directory")
    || contains task_lower (codes "home dir")
    || contains task_lower (codes "~")
    || contains task_lower (codes " home")

abbrev pub listed : Text → Option Text → Option Place
listed id none = none
listed id (some dir) = some (id, (dir, codes "."))

-- A root that is given and not empty.
abbrev pub rooted : Option Text → Option Text
rooted none = none
rooted (some root) = if is_empty root then none else some root

unfoldable pub dir_of : Option Text → Bool → Option Text → Option Text → Option Text
unfolding path_join
dir_of (some name) at_home none default_root = none
dir_of (some name) at_home (some home) default_root = some (path_join home name)
dir_of none true home default_root = home
dir_of none false home default_root = rooted default_root

unfoldable pub extract_fs_path :
    Casing → Option Text → Text → Option Text → Option Text → Option Place
unfolding dir_of well_known_dir names_home
extract_fs_path cs home task default_id default_root =
    let task_lower = cs.to_lowercase task in
    listed (unwrap_or default_id [])
      (dir_of (well_known_dir task_lower) (names_home task_lower) home default_root)

abbrev pub file_exts : List Text
file_exts =
    codes ".pdf"
    ∷ codes ".md"
    ∷ codes ".txt"
    ∷ codes ".docx"
    ∷ codes ".doc"
    ∷ codes ".csv"
    ∷ codes ".json"
    ∷ codes ".yaml"
    ∷ codes ".yml"
    ∷ codes ".rst"
    ∷ codes ".tex"
    ∷ codes ".log"
    ∷ codes ".py"
    ∷ codes ".rs"
    ∷ codes ".js"
    ∷ codes ".ts"
    ∷ codes ".swift"
    ∷ []

-- `s.matches(c).count()`.
unfoldable pub count : ℕ → Text → ℕ
count c [] = 0
count c (d ∷ s) = let rest = count c s in if c == d then rest + 1 else rest

unfoldable pub names_absolute_file : Text → Bool
unfolding starts_with ends_with contains count
names_absolute_file cleaned =
    starts_with cleaned (codes "/")
    && contains cleaned (codes ".")
    && not (ends_with cleaned (codes "/"))
    && not (ends_with cleaned (codes "."))
    && leb 2 (count b'/' cleaned)

-- A file below the root of the file system.
unfoldable pub absolute_place : Text → Text → Place
unfolding drop_matches
absolute_place id cleaned = (id, (codes "/", drop_matches (λ c. c == b'/') cleaned))

abbrev pub place_in : Text → Text → Option Text → Option Place
place_in id path none = none
place_in id path (some root) = some (id, (root, path))

-- A token with a known extension, and then an absolute path without one.
unfoldable pub token_place : Casing → Text → Option Text → Text → Option Place
unfolding names_absolute_file absolute_place
token_place cs id root cleaned =
    let has_ext = any (λ ext. ends_with (cs.to_lowercase cleaned) ext) file_exts in
    if has_ext && starts_with cleaned (codes "/")
    then some (absolute_place id cleaned)
    else elim (if has_ext then place_in id cleaned (rooted root) else none) [
      | some place ↦ some place
      | none ↦ if names_absolute_file cleaned then some (absolute_place id cleaned) else none
    ]

abbrev pub one_of_chars : Text → ℕ → Bool
one_of_chars chars c = any (λ d. c == d) chars

-- The loop over the tokens.
unfoldable pub first_place : Casing → Text → Option Text → List Text → Option Place
unfolding token_place trim_matches
first_place cs id root [] = none
first_place cs id root (token ∷ tokens) =
    let later = first_place cs id root tokens in
    elim (token_place cs id root (trim_matches (one_of_chars (codes "\"',;)([]")) token)) [
      | some place ↦ some place
      | none ↦ later
    ]

unfoldable pub extract_explicit_file_path : Casing → Text → Option Text → Option Text → Option Place
unfolding first_place split_whitespace
extract_explicit_file_path cs task default_id default_root =
    first_place cs (unwrap_or default_id []) default_root (split_whitespace task)

unfoldable pub has_most_recent_file_intent : Casing → Text → Bool
unfolding contains
has_most_recent_file_intent cs task =
    let t = cs.to_lowercase task in
    (contains t (codes "just saved")
      || contains t (codes "most recent")
      || contains t (codes "latest file")
      || contains t (codes "newest file")
      || contains t (codes "recently saved")
      || contains t (codes "recently modified"))
    && (contains t (codes "downloads")
        || contains t (codes "desktop")
        || contains t (codes "documents"))

abbrev pub token_exts : List Text
token_exts =
    codes ".md"
    ∷ codes ".pdf"
    ∷ codes ".txt"
    ∷ codes ".docx"
    ∷ codes ".csv"
    ∷ codes ".json"
    ∷ codes ".yaml"
    ∷ codes ".yml"
    ∷ []

unfoldable pub is_file_token : Casing → Text → Bool
unfolding ends_with starts_with len
is_file_token cs c =
    any (λ ext. ends_with (cs.to_lowercase c) ext) token_exts
    && not (starts_with c (codes "/"))
    && ltb 2 (len c)

unfoldable pub first_file_token : Casing → List Text → Option Text
unfolding is_file_token trim_matches
first_file_token cs [] = none
first_file_token cs (token ∷ tokens) =
    let later = first_file_token cs tokens in
    let c = trim_matches (one_of_chars (codes "\"',;.)(")) token in
    if is_file_token cs c then some c else later

unfoldable pub find_file_token : Casing → Text → Option Text
unfolding first_file_token split_whitespace
find_file_token cs task = first_file_token cs (split_whitespace task)

abbrev pub file_in : Option Text → Option Place → Option Place
file_in (some file) (some (id, (dir, path))) = some (id, (dir, file))
file_in _ _ = none

unfoldable pub extract_file_in_known_dir :
    Casing → Option Text → Text → Option Text → Option Text → Option Place
unfolding find_file_token extract_fs_path
extract_file_in_known_dir cs home task default_id default_root =
    file_in (find_file_token cs task) (extract_fs_path cs home task default_id default_root)
