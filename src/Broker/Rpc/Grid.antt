-- ===== src/Broker/Rpc/Grid.antt =====
-- The operations and the fields of a request, broker/rpc.py, by field.
use codex_cursor_devstack.Base.{
  ◌≡◌, refl, ap, ◌∙◌, String, Bool, true, false, ◌&&◌, ◌||◌, some, List, [], ◌∷◌, ◌++◌, map, str_eq,
  eq_iff, contains, contains-append, subset, subset_sound, All, Bool-cases, inl, inr, arith,
}
use mathlib.Core.Path.{subst}
use codex_cursor_devstack.Broker.Rpc.{allowed_ops, find, request_fields}

-- The operations, by what they are about.
abbrev pub runtime_ops : List String
runtime_ops = "ping" ∷ "build" ∷ "auth" ∷ "status" ∷ "versions" ∷ "smoke" ∷ "run" ∷ "index" ∷ []

abbrev pub project_ops : List String
project_ops = "project-init" ∷ "project-sync" ∷ "project-export" ∷ "project-status" ∷ []

abbrev pub task_ops : List String
task_ops = "task-start" ∷ "task-complete" ∷ "task-merge" ∷ "task-abort" ∷ "task-list" ∷ []

abbrev pub is_operation : String → Bool
is_operation op = contains runtime_ops op || (contains project_ops op || contains task_ops op)

-- A task is named by runs, indexing and the requests that change one.
abbrev pub names_task : String → Bool
names_task op =
    contains ("run" ∷ "index" ∷ "task-start" ∷ "task-complete" ∷ "task-merge" ∷ "task-abort" ∷ [])
      op

abbrev pub names_project : String → Bool
names_project op =
    contains ("run" ∷ "index" ∷ []) op || (contains project_ops op || contains task_ops op)

-- Which operations a field is for.
abbrev pub carries : String → String → Bool
carries k op =
    str_eq "op" k
    || ((str_eq "provider" k && contains ("auth" ∷ "run" ∷ []) op)
        || ((str_eq "project" k && names_project op)
            || ((str_eq "task" k && names_task op)
                || ((str_eq "bundle" k && contains ("project-init" ∷ "project-sync" ∷ []) op)
                    || ((contains ("readonly" ∷ "outer_only" ∷ "prompt" ∷ []) k && str_eq "run" op)
                        || (contains ("parallel" ∷ "dependencies" ∷ []) k
                            && str_eq "task-start" op))))))

abbrev pub Describes : String × List String → Type 0
Describes (op, fields) = (k : String) → contains fields k ≡ carries k op

-- The rows, for any truth of the tests on the key: of "op", "provider", "project", "task" and "bundle",
-- and of the fields of `run` and of `task-start`.
module _ (a p j t b r d : Bool) where
  abbrev grid : Bool → Bool → Bool → Bool → Bool → Bool → Bool
  grid cp cj ct cb cr cd =
      a || ((p && cp) || ((j && cj) || ((t && ct) || ((b && cb) || ((r && cr) || (d && cd))))))

  row_plain : (a || false) ≡ grid false false false false false false
  row_plain = ground arith

  row_auth : (a || (p || false)) ≡ grid true false false false false false
  row_auth = ground arith

  row_project : (a || (j || false)) ≡ grid false true false false false false
  row_project = ground arith

  row_task : (a || (j || (t || false))) ≡ grid false true true false false false
  row_task = ground arith

  row_bundle : (a || (j || (b || false))) ≡ grid false true false true false false
  row_bundle = ground arith

  row_run : (a || (p || (j || (t || r)))) ≡ grid true true true false true false
  row_run = ground arith

  row_start : (a || (j || (t || d))) ≡ grid false true true false false true
  row_start = ground arith

abbrev run_fields : List String
run_fields = "readonly" ∷ "outer_only" ∷ "prompt" ∷ []

abbrev start_fields : List String
start_fields = "parallel" ∷ "dependencies" ∷ []

pub request_fields-Describes : All Describes request_fields
unfolding request_fields
request_fields-Describes = (
  λ k.
      row_plain (str_eq "op" k) (str_eq "provider" k) (str_eq "project" k) (str_eq "task" k)
        (str_eq "bundle" k) (contains run_fields k) (contains start_fields k),
  (
    λ k.
        row_plain (str_eq "op" k) (str_eq "provider" k) (str_eq "project" k) (str_eq "task" k)
          (str_eq "bundle" k) (contains run_fields k) (contains start_fields k),
    (
      λ k.
          row_plain (str_eq "op" k) (str_eq "provider" k) (str_eq "project" k) (str_eq "task" k)
            (str_eq "bundle" k) (contains run_fields k) (contains start_fields k),
      (
        λ k.
            row_plain (str_eq "op" k) (str_eq "provider" k) (str_eq "project" k) (str_eq "task" k)
              (str_eq "bundle" k) (contains run_fields k) (contains start_fields k),
        (
          λ k.
              row_plain (str_eq "op" k) (str_eq "provider" k) (str_eq "project" k) (str_eq "task" k)
                (str_eq "bundle" k) (contains run_fields k) (contains start_fields k),
          (
            λ k.
                row_auth (str_eq "op" k) (str_eq "provider" k) (str_eq "project" k)
                  (str_eq "task" k) (str_eq "bundle" k) (contains run_fields k)
                  (contains start_fields k),
            (
              λ k.
                  row_task (str_eq "op" k) (str_eq "provider" k) (str_eq "project" k)
                    (str_eq "task" k) (str_eq "bundle" k) (contains run_fields k)
                    (contains start_fields k),
              (
                λ k.
                    row_run (str_eq "op" k) (str_eq "provider" k) (str_eq "project" k)
                      (str_eq "task" k) (str_eq "bundle" k) (contains run_fields k)
                      (contains start_fields k),
                (
                  λ k.
                      row_bundle (str_eq "op" k) (str_eq "provider" k) (str_eq "project" k)
                        (str_eq "task" k) (str_eq "bundle" k) (contains run_fields k)
                        (contains start_fields k),
                  (
                    λ k.
                        row_bundle (str_eq "op" k) (str_eq "provider" k) (str_eq "project" k)
                          (str_eq "task" k) (str_eq "bundle" k) (contains run_fields k)
                          (contains start_fields k),
                    (
                      λ k.
                          row_project (str_eq "op" k) (str_eq "provider" k) (str_eq "project" k)
                            (str_eq "task" k) (str_eq "bundle" k) (contains run_fields k)
                            (contains start_fields k),
                      (
                        λ k.
                            row_project (str_eq "op" k) (str_eq "provider" k) (str_eq "project" k)
                              (str_eq "task" k) (str_eq "bundle" k) (contains run_fields k)
                              (contains start_fields k),
                        (
                          λ k.
                              row_start (str_eq "op" k) (str_eq "provider" k) (str_eq "project" k)
                                (str_eq "task" k) (str_eq "bundle" k) (contains run_fields k)
                                (contains start_fields k),
                          (
                            λ k.
                                row_task (str_eq "op" k) (str_eq "provider" k) (str_eq "project" k)
                                  (str_eq "task" k) (str_eq "bundle" k) (contains run_fields k)
                                  (contains start_fields k),
                            (
                              λ k.
                                  row_task (str_eq "op" k) (str_eq "provider" k)
                                    (str_eq "project" k) (str_eq "task" k) (str_eq "bundle" k)
                                    (contains run_fields k) (contains start_fields k),
                              (
                                λ k.
                                    row_task (str_eq "op" k) (str_eq "provider" k)
                                      (str_eq "project" k) (str_eq "task" k) (str_eq "bundle" k)
                                      (contains run_fields k) (contains start_fields k),
                                (
                                  λ k.
                                      row_project (str_eq "op" k) (str_eq "provider" k)
                                        (str_eq "project" k) (str_eq "task" k) (str_eq "bundle" k)
                                        (contains run_fields k) (contains start_fields k),
                                  tt,
                                ),
                              ),
                            ),
                          ),
                        ),
                      ),
                    ),
                  ),
                ),
              ),
            ),
          ),
        ),
      ),
    ),
  ),
)

pub find-Describes :
    (table : List (String × List String)) (op : String) (fields : List String)
    → All Describes table
    → find op table ≡ some fields
    → (k : String) → contains fields k ≡ carries k op
find-Describes [] op fields h found k = cc
find-Describes ((j, fs) ∷ table) op fields h found k = elim (Bool-cases (str_eq j op)) [
  | inl same ↦
      subst (λ o. contains fields k ≡ carries k o) ((eq_iff j op).0 same)
        (subst (λ xs. contains xs k ≡ carries k j) (ground arith) (h.0 k))
  | inr other ↦ find-Describes table op fields h.1 (ground arith) k
]

-- A key of the table is found.
find-some :
    (table : List (String × List String)) (op : String)
    → contains (map (λ (row : String × List String). row.0) table) op ≡ true
    → (fields : List String) × (find op table ≡ some fields)
find-some [] op h = cc
find-some ((j, fs) ∷ table) op h = elim (Bool-cases (str_eq j op)) [
  | inl same ↦ (fs, rw same refl)
  | inr other ↦ let (fields, found) = find-some table op (ground arith) in (fields, rw other found)
]

pub allowed_ops-is_operation : (op : String) → contains allowed_ops op ≡ is_operation op
unfolding allowed_ops
allowed_ops-is_operation op =
    contains-append runtime_ops (project_ops ++ task_ops) op
    ∙ ap (λ b. contains runtime_ops op || b) (contains-append project_ops task_ops op)

-- Every operation has its row.
pub allowed-some :
    (op : String)
    → contains allowed_ops op ≡ true
    → (fields : List String) × (find op request_fields ≡ some fields)
unfolding allowed_ops request_fields subset
allowed-some op h = find-some request_fields op (
    subset_sound allowed_ops (map (λ (row : String × List String). row.0) request_fields) op refl h)
