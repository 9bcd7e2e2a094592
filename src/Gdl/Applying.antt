-- ===== src/Gdl/Applying.antt =====
-- gdl/workspace.go: a loaded project is applied to a runtime.
use ugem.Prelude.{
  ℕ, String, true, Option, none, some, List, [], ◌∷◌, ◌++◌, ◌≡◌, if◌then◌else◌, Bool-cases, inl,
  inr, All, All-append,
}
use ugem.Prelude.Strings.{split}
use ugem.Types.{ok, goal_already_exists}
use ugem.Planner.{Planner}
use ugem.Kernel.{Runtime, Outside}
use ugem.Gdl.Parser.{BlockKind, goal_block}
use ugem.Gdl.Compiler.{Floats}
use ugem.Gdl.Config.{parse_config}
use ugem.Gdl.Submitting.{all_fresh, NotBlank, declared-All, create_runtime-compile}
use ugem.Gdl.Workspace.{
  Entry, Folder, Project, Workspace, is_skipped_entry, load_workspace, apply_workspace,
}
use ugem.Gdl.Projects.{
  declared_text, declared_entries, declared_folder, declared_apps, declared_project,
  load_workspace-names,
}

declared_text-All : (kind : BlockKind) (o : Option String) → All NotBlank (declared_text kind o)
declared_text-All kind none = tt
declared_text-All kind (some input) = declared-All kind (split input "\n")

declared_entries-All :
    (kind : BlockKind) (entries : List Entry) → All NotBlank (declared_entries kind entries)
unfolding declared_entries
declared_entries-All kind [] = tt
declared_entries-All kind (entry ∷ entries) = elim (Bool-cases (is_skipped_entry entry)) [
  | inl e ↦ rw e (declared_entries-All kind entries)
  | inr e ↦ rw e (
      All-append NotBlank (declared_text kind entry.contents) (declared_entries kind entries)
        (declared_text-All kind entry.contents) (declared_entries-All kind entries))
]

declared_folder-All :
    (kind : BlockKind) (folder : Option Folder) → All NotBlank (declared_folder kind folder)
declared_folder-All kind none = tt
declared_folder-All kind (some none) = tt
declared_folder-All kind (some (some entries)) = declared_entries-All kind entries

declared_apps-All :
    (kind : BlockKind) (app_folder : String → Option Folder) (apps : List String)
    → All NotBlank (declared_apps kind app_folder apps)
unfolding declared_apps
declared_apps-All kind app_folder [] = tt
declared_apps-All kind app_folder (name ∷ apps) =
    All-append NotBlank (declared_folder kind (app_folder name))
      (declared_apps kind app_folder apps) (declared_folder-All kind (app_folder name))
      (declared_apps-All kind app_folder apps)

declared_project-All :
    (kind : BlockKind) (project : Project) (apps : List String)
    → All NotBlank (declared_project kind project apps)
declared_project-All kind project apps = elim (Bool-cases project.has_apps) [
  | inr e ↦ rw e (
      All-append NotBlank (declared_folder kind project.shared) []
        (declared_folder-All kind project.shared) tt)
  | inl e ↦ rw e (
      All-append NotBlank (declared_folder kind project.shared)
        (declared_apps kind project.app_folder apps ++ declared_folder kind project.tests)
        (declared_folder-All kind project.shared)
        (All-append NotBlank (declared_apps kind project.app_folder apps)
          (declared_folder kind project.tests) (declared_apps-All kind project.app_folder apps)
          (declared_folder-All kind project.tests)))
]

-- A project that was loaded is applied to a runtime that runs. If no goal is declared twice in its
-- files and none is known to the runtime, there is no error, and the declared goals are appended in
-- their order to the active ones; otherwise the answer is that a goal already exists.
pub apply_workspace-load_workspace :
    (floats : Floats) (out : ℕ → Outside) (handler : ℕ) (actions : List String) (p : Planner)
    (r : Runtime) (project : Project) (input : String) (ws : Workspace)
    → project.config ≡ some input
    → load_workspace project ≡ ok ws
    → r.running ≡ true
    → let (p', r', e) = apply_workspace floats out handler actions p r ws in
      let goals = declared_project goal_block project (parse_config project.dir input).apps in
      (e ≡ (if all_fresh r.goal_engine.goals goals then none else some goal_already_exists))
      × (all_fresh r.goal_engine.goals goals ≡ true
          → r'.goal_engine.active_goals ≡ r.goal_engine.active_goals ++ goals)
unfolding apply_workspace
apply_workspace-load_workspace floats out handler actions p r project input ws e loaded runs =
    let apps = (parse_config project.dir input).apps in
    create_runtime-compile floats out handler actions p r ws.merged
      (declared_project goal_block project apps) runs
      ((load_workspace-names project input e).1 ws loaded goal_block)
      (declared_project-All goal_block project apps)
