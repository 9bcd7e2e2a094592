-- ===== src/Gdl/Loading.antt =====
-- gdl/workspace.go: when the loading of a project succeeds.
use ugem.Prelude.{
  String, Bool, true, false, Option, none, some, List, [], ◌∷◌, ◌&&◌, ◌||◌, ◌≡◌, refl, ap, ◌∙◌,
  if◌then◌else◌, is_some, Bool-cases, inl, inr,
}
use ugem.Types.{Result, ok, err}
use ugem.Gdl.{GdlProgram, no_program}
use ugem.Gdl.Parser.{parse_gdl_file}
use ugem.Gdl.Config.{parse_config}
use ugem.Gdl.Workspace.{
  Entry, Folder, Project, Workspace, bind, file_result, is_skipped_entry, merge_two, load_entries,
  load_gdl_dir, load_optional, folder_result, load_apps, load_tests, load_rest, load_workspace,
  add_loaded,
}

abbrev pub is_ok {ℓ} : {A : Type ℓ} → Result A → Bool
is_ok (ok a) = true
is_ok (err e) = false

is_ok-bind {ℓ κ} :
    {A : Type ℓ} {B : Type κ} (r : Result A) (f : A → Result B) (b : Bool)
    → ((a : A) → is_ok (f a) ≡ b)
    → is_ok (bind r f) ≡ (is_ok r && b)
unfolding bind
is_ok-bind (err e) f b h = refl
is_ok-bind (ok a) f b h = h a

-- Each file that is not skipped can be read.
unfoldable pub readable_entries : List Entry → Bool
readable_entries [] = true
readable_entries (entry ∷ entries) =
    (is_skipped_entry entry || is_some entry.contents) && readable_entries entries

-- A folder that is not there is no obstacle; one that is there can be listed.
abbrev pub readable_folder : Option Folder → Bool
readable_folder none = true
readable_folder (some none) = false
readable_folder (some (some entries)) = readable_entries entries

-- The folder of an app has to be there.
unfoldable pub readable_apps : (String → Option Folder) → List String → Bool
readable_apps app_folder [] = true
readable_apps app_folder (name ∷ apps) =
    (is_some (app_folder name) && readable_folder (app_folder name))
    && readable_apps app_folder apps

is_ok-file_result :
    (contents : Option String) → is_ok (file_result (parse_gdl_file contents)) ≡ is_some contents
unfolding parse_gdl_file
is_ok-file_result none = refl
is_ok-file_result (some input) = refl

load_entries-is_ok :
    (merged : GdlProgram) (entries : List Entry)
    → is_ok (load_entries merged entries) ≡ readable_entries entries
unfolding load_entries readable_entries
load_entries-is_ok merged [] = refl
load_entries-is_ok merged (entry ∷ entries) = elim (Bool-cases (is_skipped_entry entry)) [
  | inl e ↦ rw e (load_entries-is_ok merged entries)
  | inr e ↦ rw e (
      is_ok-bind (file_result (parse_gdl_file entry.contents))
        (λ p. load_entries (merge_two merged p) entries) (readable_entries entries)
        (λ p. load_entries-is_ok (merge_two merged p) entries)
      ∙ ap (λ b. b && readable_entries entries) (is_ok-file_result entry.contents))
]

load_gdl_dir-is_ok : (folder : Folder) → is_ok (load_gdl_dir folder) ≡ readable_folder (some folder)
unfolding load_gdl_dir
load_gdl_dir-is_ok none = refl
load_gdl_dir-is_ok (some entries) = load_entries-is_ok no_program entries

and_true : (b : Bool) → (b && true) ≡ b
and_true true = refl
and_true false = refl

load_optional-is_ok :
    (merged : GdlProgram) (folder : Option Folder)
    → is_ok (load_optional merged folder) ≡ readable_folder folder
unfolding load_optional
load_optional-is_ok merged none = refl
load_optional-is_ok merged (some folder) =
    is_ok-bind (load_gdl_dir folder) (λ p. ok (p, merge_two merged p)) true (λ p. refl)
    ∙ and_true (is_ok (load_gdl_dir folder))
    ∙ load_gdl_dir-is_ok folder

folder_result-is_ok :
    (folder : Option Folder)
    → is_ok (folder_result folder) ≡ (is_some folder && readable_folder folder)
folder_result-is_ok none = refl
folder_result-is_ok (some folder) = load_gdl_dir-is_ok folder

load_apps-is_ok :
    (app_folder : String → Option Folder) (ws : Workspace) (apps : List String)
    → is_ok (load_apps app_folder ws apps) ≡ readable_apps app_folder apps
unfolding load_apps readable_apps
load_apps-is_ok app_folder ws [] = refl
load_apps-is_ok app_folder ws (name ∷ apps) =
    is_ok-bind (folder_result (app_folder name))
      (λ p. load_apps app_folder (add_loaded ws name p) apps) (readable_apps app_folder apps)
      (λ p. load_apps-is_ok app_folder (add_loaded ws name p) apps)
    ∙ ap (λ b. b && readable_apps app_folder apps) (folder_result-is_ok (app_folder name))

load_tests-is_ok :
    (tests : Option Folder) (ws : Workspace) → is_ok (load_tests tests ws) ≡ readable_folder tests
unfolding load_tests
load_tests-is_ok tests ws =
    is_ok-bind (load_optional ws.merged tests)
      (λ (a : GdlProgram × GdlProgram). ok (record ws { merged = a.1 })) true (λ a. refl)
    ∙ and_true (is_ok (load_optional ws.merged tests))
    ∙ load_optional-is_ok ws.merged tests

-- whether all that a project needs can be read, if its file names these apps
abbrev pub readable_project : Project → List String → Bool
readable_project project apps =
    readable_folder project.shared
    && (if project.has_apps
        then readable_apps project.app_folder apps && readable_folder project.tests
        else true)

load_rest-is_ok :
    (project : Project) (ws : Workspace)
    → is_ok (load_rest project ws) ≡ (
        if project.has_apps
        then readable_apps project.app_folder ws.config.apps && readable_folder project.tests
        else true)
unfolding load_rest
load_rest-is_ok project ws = elim (Bool-cases project.has_apps) [
  | inr e ↦ rw e refl
  | inl e ↦ rw e (
      is_ok-bind (load_apps project.app_folder ws ws.config.apps) (load_tests project.tests)
        (readable_folder project.tests) (load_tests-is_ok project.tests)
      ∙ ap (λ b. b && readable_folder project.tests)
          (load_apps-is_ok project.app_folder ws ws.config.apps))
]

pub load_workspace-is_ok :
    (project : Project) (input : String)
    → project.config ≡ some input
    → is_ok (load_workspace project)
      ≡ readable_project project (parse_config project.dir input).apps
unfolding load_workspace bind
load_workspace-is_ok project input e =
    let config = parse_config project.dir input in
    rw e (
      is_ok-bind (load_optional no_program project.shared)
        (λ (shared, merged).
          load_rest project
            (record { config = config; apps = []; shared = shared; merged = merged }))
        (if project.has_apps
          then readable_apps project.app_folder config.apps && readable_folder project.tests
          else true)
        (λ (shared, merged).
          load_rest-is_ok project
            (record { config = config; apps = []; shared = shared; merged = merged }))
      ∙ ap
          (λ b.
            b
            && (if project.has_apps
                then readable_apps project.app_folder config.apps && readable_folder project.tests
                else true))
          (load_optional-is_ok no_program project.shared))
