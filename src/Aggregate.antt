-- ===== src/Aggregate.antt =====
-- service/watcher.go, from cleanPaths to aggregateChanges: which paths syncthing is asked to scan for
-- a list of changed paths. Whether a path exists, and as what, is the caller's `pathStatus`.
pub mod Scores
pub mod Selection
pub mod Coverage
pub mod Origin
use correlation.Base.{
  ℕ, Text, codes, List, [], ◌∷◌, ◌++◌, map, Bool, true, false, not, ◌&&◌, if◌then◌else◌, Option,
  none, some, ℤ, pos, negsuc, suc_ℤ, ltb_ℤ, eq_ℤ, text_eq, has_prefix, trim_prefix, sort_strings,
  Map, lookup, insert, keys,
}
use correlation.Paths.{clean, dir, dot, slash}

-- cleanPaths
unfoldable pub clean_paths : List Text → List Text
clean_paths paths = map clean paths

-- the path "." stands for the folder itself, whose path is empty
abbrev pub as_relative : Text → Text
as_relative path = if text_eq path dot then [] else path

-- the loop of sortedUniqueAndCleanPaths, behind `previousPath`
unfoldable pub unique_from : Text → List Text → List Text
unique_from previous [] = []
unique_from previous (p ∷ ps) =
    let path = as_relative p in
    let rest = unique_from path ps in if text_eq path previous then rest else path ∷ rest

-- sortedUniqueAndCleanPaths
unfoldable pub sorted_unique_and_clean_paths : List Text → List Text
unfolding clean_paths unique_from
sorted_unique_and_clean_paths paths = unique_from [] (sort_strings (clean_paths paths))

pub data PathStatus : Type 0 where
  deleted_path directory_path file_path : PathStatus

-- currentPathStatus, on what os.Stat returns: nothing, or whether it is a directory
unfoldable pub current_path_status : (Text → Option Bool) → Text → PathStatus
current_path_status stat path = elim (stat path) [
  | none ↦ deleted_path
  | some is_dir ↦ if is_dir then directory_path else file_path
]

-- trackedPaths and trackedDirs
pub record Tracked : Type 0 where
  pub paths : Map ℤ
  pub dirs : Map Bool

-- the score of a path, 0 where it has none
abbrev pub or_zero : Option ℤ → ℤ
or_zero none = pos 0
or_zero (some z) = z

abbrev or_false : Option Bool → Bool
or_false none = false
or_false (some b) = b

-- trackedPaths[dir]++
abbrev pub increment : Text → Map ℤ → Map ℤ
increment k m = insert k (suc_ℤ (or_zero (lookup k m))) m

-- the directory of a file, which is empty for the folder itself
abbrev pub parent : Text → Text
parent path = as_relative (dir path)

-- The path below the folder.
unfoldable pub trim_folder : Text → Text → Text
trim_folder folder path = trim_prefix (trim_prefix path folder) (slash ∷ [])

-- what a change of a path is counted for: the `dir` of the loop's body
unfoldable pub counted_dir : PathStatus → Text → Text
counted_dir file_path path = parent path
counted_dir _ path = path

-- the branch on the status of a path
unfoldable pub enter : ℕ → PathStatus → Text → Tracked → Tracked
enter dir_vs_files deleted_path path t = record t { paths = insert path (pos dir_vs_files) t.paths }
enter dir_vs_files directory_path path t = record t {
  paths = insert path (pos dir_vs_files) t.paths;
  dirs = insert path true t.dirs;
}
enter dir_vs_files file_path path t = record t {
  paths = increment (parent path) (insert path (negsuc 0) t.paths);
  dirs = insert (parent path) true t.dirs;
}

-- whether a tracked path is a directory above this one
abbrev pub is_above : Map Bool → Text → Text → Bool
is_above dirs d k = or_false (lookup k dirs) && has_prefix d (k ++ slash ∷ [])

-- The loop over the tracked paths. It writes to the keys that it visits only, so the order in which
-- Go visits them does not matter.
unfoldable pub count_above : Map Bool → Text → Map ℤ → Map ℤ
count_above dirs d [] = []
count_above dirs d ((k, z) ∷ m) =
    (k, (if is_above dirs d k then suc_ℤ z else z)) ∷ count_above dirs d m

-- the body of the loop over the paths
unfoldable pub track : ℕ → Text → (Text → PathStatus) → Text → Tracked → Tracked
unfolding trim_folder counted_dir enter count_above
track dir_vs_files folder status p t =
    let path = trim_folder folder p in
    let t' = enter dir_vs_files (status p) path t in
    record t' { paths = count_above t'.dirs (counted_dir (status p) path) t'.paths }

unfoldable pub track_all : ℕ → Text → (Text → PathStatus) → List Text → Tracked → Tracked
unfolding track
track_all dir_vs_files folder status [] t = t
track_all dir_vs_files folder status (p ∷ ps) t =
    track_all dir_vs_files folder status ps (track dir_vs_files folder status p t)

-- A score by which a path is scanned: that of a file, or enough changes.
abbrev pub is_enough : ℕ → ℤ → Bool
is_enough dir_vs_files score = not (ltb_ℤ score (pos dir_vs_files) && not (eq_ℤ score (negsuc 0)))

-- the loop over the sorted keys, behind `previousPath`
unfoldable pub select : ℕ → Map ℤ → Text → List Text → List Text
select dir_vs_files scores previous [] = []
select dir_vs_files scores previous (k ∷ ks) =
    let skipped = select dir_vs_files scores previous ks in
    let others = select dir_vs_files scores k ks in
    if has_prefix k (previous ++ slash ∷ [])
    then skipped
    else if not (is_enough dir_vs_files (or_zero (lookup k scores)))
    then skipped
    else if text_eq k []
    then k ∷ []
    else k ∷ others

-- Watcher.aggregateChanges
unfoldable pub aggregate_changes : ℕ → Text → (Text → PathStatus) → List Text → List Text
unfolding sorted_unique_and_clean_paths track_all select
aggregate_changes dir_vs_files folder status paths =
    let t =
      track_all dir_vs_files folder status (sorted_unique_and_clean_paths paths)
        (record { paths = []; dirs = [] }) in
    select dir_vs_files t.paths [] (sort_strings (keys t.paths))
