-- ===== src/Core/Records.antt =====
-- Task metadata: the dict that core/tasks.py writes, and the files `tasks/*.json` that hold it.
use codex_cursor_devstack.Base.{
  ℕ, ◌+◌, ◌≡◌, sym, ◌∙◌, Bool-cases, inl, inr, refl, String, ◌<>◌, Bool, true, false, ◌&&◌, ◌||◌,
  Option, none, some, List, [], ◌∷◌, str_eq, text_le, eq_iff, if◌then◌else◌, arith,
}
use codex_cursor_devstack.Core.Paths.{FilePath}

pub record TaskRecord : Type 0 where
  pub project : String
  pub task : String
  pub mode : String
  pub branch : String
  pub base_commit : String
  pub head_commit : Option String
  pub merge_commit : Option String
  pub status : String
  pub dependencies : List String
  pub started_at : String
  pub completed_at : Option String
  pub merged_at : Option String
  pub aborted_at : Option String
  pub workspace : FilePath

-- File names with their records. A file that cannot be read as JSON is `none`.
abbrev pub TaskFiles : Type 0
TaskFiles = List (String × Option TaskRecord)

-- `f"{task}.json"`
abbrev pub file_name : String → String
file_name task = task <> ".json"

unfoldable pub find_file : String → TaskFiles → Option (Option TaskRecord)
find_file k [] = none
find_file k ((j, r) ∷ fs) = if str_eq j k then some r else find_file k fs

-- `write_json`: an atomic replacement, or a new file.
unfoldable pub put_file : String → TaskRecord → TaskFiles → TaskFiles
put_file k r [] = (k, some r) ∷ []
put_file k r ((j, s) ∷ fs) = if str_eq j k then (k, some r) ∷ fs else (j, s) ∷ put_file k r fs

unfoldable pub insert_file : String → Option TaskRecord → TaskFiles → TaskFiles
insert_file k r [] = (k, r) ∷ []
insert_file k r ((j, s) ∷ fs) =
    if text_le k j then (k, r) ∷ (j, s) ∷ fs else (j, s) ∷ insert_file k r fs

-- `sorted(pp["tasks"].glob("*.json"))`
unfoldable pub sorted_files : TaskFiles → TaskFiles
unfolding insert_file
sorted_files [] = []
sorted_files ((j, r) ∷ fs) = insert_file j r (sorted_files fs)

-- Files that cannot be read are left out.
unfoldable pub readable : TaskFiles → List TaskRecord
readable [] = []
readable ((j, none) ∷ fs) = readable fs
readable ((j, some r) ∷ fs) = r ∷ readable fs

unfoldable pub task_records : TaskFiles → List TaskRecord
unfolding sorted_files readable
task_records fs = readable (sorted_files fs)

unfoldable pub is_active_sequential : TaskRecord → Bool
is_active_sequential r = str_eq r.mode "integration" && str_eq r.status "active"

unfoldable pub is_pending_parallel : TaskRecord → Bool
is_pending_parallel r =
    str_eq r.mode "parallel" && (str_eq r.status "active" || str_eq r.status "completed")

unfoldable pub keep : (TaskRecord → Bool) → List TaskRecord → List TaskRecord
keep test [] = []
keep test (r ∷ rs) = let rest = keep test rs in if test r then r ∷ rest else rest

unfoldable pub active_sequential : List TaskRecord → List TaskRecord
unfolding keep is_active_sequential
active_sequential = keep is_active_sequential

unfoldable pub pending_parallel : List TaskRecord → List TaskRecord
unfolding keep is_pending_parallel
pending_parallel = keep is_pending_parallel

-- A file that was written is read back, and no other file changes.
pub find_file-put_file :
    (k j : String) (r : TaskRecord) (fs : TaskFiles)
    → find_file j (put_file k r fs) ≡ (if str_eq k j then some (some r) else find_file j fs)
unfolding find_file put_file
find_file-put_file k j r [] = refl
find_file-put_file k j r ((i, s) ∷ fs) =
    ground (arith, eq_iff i k, eq_iff k j, eq_iff i j, find_file-put_file k j r fs)

-- 1 for a record that passes the test.
abbrev pub one_if : Bool → ℕ
one_if true = 1
one_if false = 0

abbrev pub weight : (TaskRecord → Bool) → Option (Option TaskRecord) → ℕ
weight test none = 0
weight test (some none) = 0
weight test (some (some r)) = one_if (test r)

-- How many files hold a record that passes the test.
unfoldable pub count : (TaskRecord → Bool) → TaskFiles → ℕ
count test [] = 0
count test ((j, r) ∷ fs) = weight test (some r) + count test fs

count-insert_file :
    (test : TaskRecord → Bool) (k : String) (r : Option TaskRecord) (fs : TaskFiles)
    → count test (insert_file k r fs) ≡ weight test (some r) + count test fs
unfolding count insert_file
count-insert_file test k r [] = refl
count-insert_file test k r ((j, s) ∷ fs) = elim (Bool-cases (text_le k j)) [
  | inl before ↦ rw before
  | inr after ↦ rw after (omega (arith, count-insert_file test k r fs))
]

count-sorted_files :
    (test : TaskRecord → Bool) (fs : TaskFiles) → count test (sorted_files fs) ≡ count test fs
unfolding count sorted_files
count-sorted_files test [] = refl
count-sorted_files test ((j, r) ∷ fs) =
    count-insert_file test j r (sorted_files fs) ∙ omega (arith, count-sorted_files test fs)

keep-eq-nil :
    (test : TaskRecord → Bool) (fs : TaskFiles) → keep test (readable fs) ≡ [] → count test fs ≡ 0
unfolding keep readable count
keep-eq-nil test [] h = refl
keep-eq-nil test ((j, none) ∷ fs) h = ground (arith, keep-eq-nil test fs)
keep-eq-nil test ((j, some r) ∷ fs) h = ground (arith, keep-eq-nil test fs)

-- No record passes the test if `task_records` shows none.
pub count_of_none :
    (test : TaskRecord → Bool) (fs : TaskFiles)
    → keep test (task_records fs) ≡ []
    → count test fs ≡ 0
unfolding task_records
count_of_none test fs h = sym (count-sorted_files test fs) ∙ keep-eq-nil test (sorted_files fs) h

-- A write replaces what its file held.
pub count-put_file :
    (test : TaskRecord → Bool) (k : String) (r : TaskRecord) (fs : TaskFiles)
    → count test (put_file k r fs) + weight test (find_file k fs) ≡ count test fs + one_if (test r)
unfolding count put_file find_file
count-put_file test k r [] = omega arith
count-put_file test k r ((j, s) ∷ fs) = elim (Bool-cases (str_eq j k)) [
  | inl same ↦ rw same (omega arith)
  | inr other ↦ rw other (omega (arith, count-put_file test k r fs))
]
