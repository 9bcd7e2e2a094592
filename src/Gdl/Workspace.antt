-- ===== src/Gdl/Workspace.antt =====
-- gdl/workspace.go: a project's folders are loaded and merged. The file system stands outside: what a
-- project's folders hold is an argument, and a path is made and cleaned by Go's package filepath.
use ugem.Prelude.{
  ℕ, String, Bool, Option, none, some, List, [], ◌∷◌, ◌++◌, not, ◌||◌, ◌==◌, if◌then◌else◌,
}
use ugem.Prelude.Strings.{has_suffix}
use ugem.Types.{Error, other, Result, ok, err}
use ugem.Planner.{Planner}
use ugem.Kernel.{Runtime, Outside}
use ugem.Gdl.{GdlProgram, no_program}
use ugem.Gdl.Parser.{merge_programs, parse_gdl_file}
use ugem.Gdl.Compiler.{Floats, compile, create_runtime}
use ugem.Gdl.Config.{WorkspaceConfig, parse_config}

-- An entry of a folder; the contents of a file that cannot be read are missing.
pub record Entry : Type 0 where
  pub name : String
  pub is_dir : Bool
  pub contents : Option String

-- A folder, or nothing where it cannot be listed.
abbrev pub Folder : Type 0
Folder = Option (List Entry)

-- What stands in a project's directory, by the last element of its path. A folder that is not there,
-- or is none, is missing.
pub record Project : Type 0 where
  pub dir : String
  pub config : Option String
  pub shared : Option Folder
  pub has_apps : Bool
  pub app_folder : String → Option Folder
  pub tests : Option Folder

pub record App : Type 0 where
  pub name : String
  pub program : GdlProgram

pub record Workspace : Type 0 where
  pub config : WorkspaceConfig
  pub apps : List App
  pub shared : GdlProgram
  pub merged : GdlProgram

-- `err != nil` returns the error, and what follows otherwise
unfoldable pub bind {ℓ κ} : {A : Type ℓ} {B : Type κ} → Result A → (A → Result B) → Result B
bind (err e) f = err e
bind (ok a) f = f a

abbrev pub file_result : Option GdlProgram → Result GdlProgram
file_result none = err (other "cannot read a file")
file_result (some p) = ok p

unfoldable pub is_skipped_entry : Entry → Bool
unfolding has_suffix
is_skipped_entry entry = entry.is_dir || not (has_suffix entry.name ".gdl")

abbrev pub merge_two : GdlProgram → GdlProgram → GdlProgram
merge_two p q = merge_programs (some p ∷ some q ∷ [])

-- The first file that cannot be read ends it.
unfoldable pub load_entries : GdlProgram → List Entry → Result GdlProgram
unfolding is_skipped_entry parse_gdl_file merge_programs bind
load_entries merged [] = ok merged
load_entries merged (entry ∷ entries) =
    if is_skipped_entry entry
    then load_entries merged entries
    else bind (file_result (parse_gdl_file entry.contents))
        λ p. load_entries (merge_two merged p) entries

unfoldable pub load_gdl_dir : Folder → Result GdlProgram
unfolding load_entries
load_gdl_dir none = err (other "cannot list the folder")
load_gdl_dir (some entries) = load_entries no_program entries

-- A folder that a project may have is loaded and merged.
unfoldable pub load_optional : GdlProgram → Option Folder → Result (GdlProgram × GdlProgram)
unfolding load_gdl_dir merge_programs bind
load_optional merged none = ok (no_program, merged)
load_optional merged (some folder) = bind (load_gdl_dir folder) λ p. ok (p, merge_two merged p)

abbrev pub add_loaded : Workspace → String → GdlProgram → Workspace
add_loaded ws name p = record ws {
  apps = ws.apps ++ record { name = name; program = p } ∷ [];
  merged = merge_two ws.merged p;
}

abbrev pub folder_result : Option Folder → Result GdlProgram
folder_result none = err (other "the folder of an app is not found")
folder_result (some folder) = load_gdl_dir folder

-- The apps that the project file names are loaded in its order; the first that fails ends it.
unfoldable pub load_apps : (String → Option Folder) → Workspace → List String → Result Workspace
unfolding load_gdl_dir merge_programs bind
load_apps app_folder ws [] = ok ws
load_apps app_folder ws (name ∷ names) =
    bind (folder_result (app_folder name)) λ p. load_apps app_folder (add_loaded ws name p) names

unfoldable pub load_tests : Option Folder → Workspace → Result Workspace
unfolding load_optional bind
load_tests tests ws =
    bind (load_optional ws.merged tests) λ (p, merged). ok (record ws { merged = merged })

-- The rest of a project: without a folder for apps, neither the apps nor the tests are loaded.
unfoldable pub load_rest : Project → Workspace → Result Workspace
unfolding load_apps load_tests bind
load_rest project ws =
    if project.has_apps
    then bind (load_apps project.app_folder ws ws.config.apps) (load_tests project.tests)
    else ok ws

abbrev pub config_result : String → Option String → Result WorkspaceConfig
config_result dir none = err (other "failed to read config")
config_result dir (some input) = ok (parse_config dir input)

unfoldable pub load_workspace : Project → Result Workspace
unfolding load_rest load_optional bind parse_config
load_workspace project = bind (config_result project.dir project.config) λ config.
    bind (load_optional no_program project.shared) λ (shared, merged).
      load_rest project (record { config = config; apps = []; shared = shared; merged = merged })

-- `Apply`
unfoldable pub apply_workspace :
    Floats
    → (ℕ → Outside)
    → ℕ
    → List String
    → Planner
    → Runtime
    → Workspace
    → Planner × Runtime × Option Error
unfolding compile create_runtime
apply_workspace floats out handler names p r ws =
    create_runtime out handler names p r (compile floats ws.merged)

-- `FindProjectRoot`: the directories from the first upward, the nearest that has a project file.
unfoldable pub find_project_root : (String → Bool) → List String → Option String
find_project_root has_config [] = none
find_project_root has_config (dir ∷ parents) =
    if has_config dir then some dir else find_project_root has_config parents

-- `ResolveProjectDir`: the argument, then the variable of the environment, then the search upward
-- from the working directory.
unfoldable pub resolve_project_dir : (String → Bool) → String → String → List String → Option String
unfolding find_project_root
resolve_project_dir has_config project_dir env_dir upward =
    if project_dir == ""
    then if env_dir == ""
      then find_project_root has_config upward
      else if has_config env_dir
      then some env_dir
      else none
    else if has_config project_dir
    then some project_dir
    else none
