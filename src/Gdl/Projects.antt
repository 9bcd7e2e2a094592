-- ===== src/Gdl/Projects.antt =====
-- gdl/workspace.go: what the merged program of a project declares.
use mathlib.Core.List.{append_assoc, append-nil}
use ugem.Prelude.{
  String, Option, none, some, List, [], ◌∷◌, ◌++◌, ◌≡◌, refl, ap, ◌∙◌, if◌then◌else◌, Bool-cases,
  inl, inr,
}
use ugem.Prelude.Strings.{split}
use ugem.Types.{Result, ok, err}
use ugem.Gdl.{GdlProgram, no_program}
use ugem.Gdl.Parser.{BlockKind, merge_programs, merge_from, append_program, parse_gdl_file}
use ugem.Gdl.Blocks.{names, declared, names-parse_gdl}
use ugem.Gdl.Merging.{append_program-names, no_program-names}
use ugem.Gdl.Config.{parse_config}
use ugem.Gdl.Loading.{is_ok, readable_project, load_workspace-is_ok}
use ugem.Gdl.Workspace.{
  Entry, Folder, Project, Workspace, bind, file_result, is_skipped_entry, merge_two, load_entries,
  load_gdl_dir, load_optional, folder_result, load_apps, load_tests, load_rest, add_loaded,
  load_workspace,
}

-- what the files of a folder declare, one file after the other
abbrev pub declared_text : BlockKind → Option String → List String
declared_text kind none = []
declared_text kind (some input) = declared kind (split input "\n")

unfoldable pub declared_entries : BlockKind → List Entry → List String
declared_entries kind [] = []
declared_entries kind (entry ∷ entries) =
    let rest = declared_entries kind entries in
    if is_skipped_entry entry then rest else declared_text kind entry.contents ++ rest

abbrev pub declared_folder : BlockKind → Option Folder → List String
declared_folder kind none = []
declared_folder kind (some none) = []
declared_folder kind (some (some entries)) = declared_entries kind entries

unfoldable pub declared_apps : BlockKind → (String → Option Folder) → List String → List String
declared_apps kind app_folder [] = []
declared_apps kind app_folder (name ∷ apps) =
    declared_folder kind (app_folder name) ++ declared_apps kind app_folder apps

merge_two-names :
    (kind : BlockKind) (p q : GdlProgram)
    → names kind (merge_two p q) ≡ names kind p ++ names kind q
unfolding merge_programs merge_from
merge_two-names kind p q =
    rw
      (
        append_program-names kind (append_program no_program p) q,
        append_program-names kind no_program p,
        no_program-names kind,
      )
      refl

-- A chain of results that succeeds has succeeded in each step.
bind-ok {ℓ κ} :
    {A : Type ℓ} {B : Type κ} (r : Result A) (f : A → Result B) (b : B)
    → bind r f ≡ ok b
    → (a : A) × (r ≡ ok a) × (f a ≡ ok b)
unfolding bind
bind-ok (err e) f b h = absurd (cc h)
bind-ok (ok a) f b h = (a, refl, h)

module _ (kind : BlockKind) where
  read_file-names :
      (contents : Option String) (q : GdlProgram)
      → file_result (parse_gdl_file contents) ≡ ok q
      → names kind q ≡ declared_text kind contents
  unfolding parse_gdl_file
  read_file-names none q h = absurd (cc h)
  read_file-names (some input) q h = cc (h, names-parse_gdl kind input)

  load_entries-names :
      (merged p : GdlProgram) (entries : List Entry)
      → load_entries merged entries ≡ ok p
      → names kind p ≡ names kind merged ++ declared_entries kind entries
  unfolding load_entries declared_entries
  load_entries-names merged p [] h = cc (h, append-nil (names kind merged))
  load_entries-names merged p (entry ∷ entries) h = elim (Bool-cases (is_skipped_entry entry)) [
    | inl e ↦ rw e (load_entries-names merged p entries (rw e at h))
    | inr e ↦
        let (q, read, rest) =
          bind-ok (file_result (parse_gdl_file entry.contents))
            (λ q. load_entries (merge_two merged q) entries) p (rw e at h) in
        rw
          (
            e,
            load_entries-names (merge_two merged q) p entries rest,
            merge_two-names kind merged q,
            read_file-names entry.contents q read,
            append_assoc,
          )
          refl
  ]

  load_gdl_dir-names :
      (folder : Folder) (p : GdlProgram)
      → load_gdl_dir folder ≡ ok p
      → names kind p ≡ declared_folder kind (some folder)
  unfolding load_gdl_dir
  load_gdl_dir-names none p h = absurd (cc h)
  load_gdl_dir-names (some entries) p h =
      load_entries-names no_program p entries h
      ∙ ap (λ ns. ns ++ declared_entries kind entries) (no_program-names kind)

  load_optional-names :
      (merged : GdlProgram) (folder : Option Folder) (answer : GdlProgram × GdlProgram)
      → load_optional merged folder ≡ ok answer
      → names kind answer.1 ≡ names kind merged ++ declared_folder kind folder
  unfolding load_optional
  load_optional-names merged none answer h = cc (h, append-nil (names kind merged))
  load_optional-names merged (some folder) answer h =
      let (q, loaded, rest) =
        bind-ok (load_gdl_dir folder) (λ q. ok (q, merge_two merged q)) answer h in
      rw (← load_gdl_dir-names folder q loaded) (cc (rest, merge_two-names kind merged q))

  folder_result-names :
      (folder : Option Folder) (p : GdlProgram)
      → folder_result folder ≡ ok p
      → names kind p ≡ declared_folder kind folder
  folder_result-names none p h = absurd (cc h)
  folder_result-names (some folder) p h = load_gdl_dir-names folder p h

  load_apps-names :
      (app_folder : String → Option Folder) (ws ws' : Workspace) (apps : List String)
      → load_apps app_folder ws apps ≡ ok ws'
      → names kind ws'.merged ≡ names kind ws.merged ++ declared_apps kind app_folder apps
  unfolding load_apps declared_apps
  load_apps-names app_folder ws ws' [] h = cc (h, append-nil (names kind ws.merged))
  load_apps-names app_folder ws ws' (name ∷ apps) h =
      let (p, loaded, rest) =
        bind-ok (folder_result (app_folder name))
          (λ p. load_apps app_folder (add_loaded ws name p) apps) ws' h in
      rw
        (
          load_apps-names app_folder (add_loaded ws name p) ws' apps rest,
          merge_two-names kind ws.merged p,
          folder_result-names (app_folder name) p loaded,
          append_assoc,
        )
        refl

  load_tests-names :
      (tests : Option Folder) (ws ws' : Workspace)
      → load_tests tests ws ≡ ok ws'
      → names kind ws'.merged ≡ names kind ws.merged ++ declared_folder kind tests
  unfolding load_tests
  load_tests-names tests ws ws' h =
      let (answer, loaded, rest) =
        bind-ok (load_optional ws.merged tests)
          (λ (a : GdlProgram × GdlProgram). ok (record ws { merged = a.1 })) ws' h in
      cc (rest, load_optional-names ws.merged tests answer loaded)

-- what a project declares that names these apps: the shared folder, then the apps in their order,
-- then the tests, and only the shared folder where there is no folder for apps
abbrev pub declared_project : BlockKind → Project → List String → List String
declared_project kind project apps =
    declared_folder kind project.shared
    ++ (if project.has_apps
        then declared_apps kind project.app_folder apps ++ declared_folder kind project.tests
        else [])

load_rest-names :
    (kind : BlockKind) (project : Project) (ws ws' : Workspace)
    → load_rest project ws ≡ ok ws'
    → names kind ws'.merged
      ≡ names kind ws.merged
        ++ (if project.has_apps
            then declared_apps kind project.app_folder ws.config.apps
              ++ declared_folder kind project.tests
            else [])
unfolding load_rest
load_rest-names kind project ws ws' h = elim (Bool-cases project.has_apps) [
  | inr e ↦ rw e (cc (rw e at h, append-nil (names kind ws.merged)))
  | inl e ↦
      let (ws1, loaded, rest) =
        bind-ok (load_apps project.app_folder ws ws.config.apps) (load_tests project.tests) ws'
          (rw e at h) in
      rw
        (
          e,
          load_tests-names kind project.tests ws1 ws' rest,
          load_apps-names kind project.app_folder ws ws1 ws.config.apps loaded,
          append_assoc,
        )
        refl
]

load_config-names :
    (kind : BlockKind) (project : Project) (input : String) (ws : Workspace)
    → project.config ≡ some input
    → load_workspace project ≡ ok ws
    → names kind ws.merged ≡ declared_project kind project (parse_config project.dir input).apps
unfolding load_workspace bind
load_config-names kind project input ws e h =
    let config = parse_config project.dir input in
    let ((shared, merged), loaded, rest) =
      bind-ok (load_optional no_program project.shared)
        (λ (shared, merged).
          load_rest project
            (record { config = config; apps = []; shared = shared; merged = merged }))
        ws (rw e at h) in
    rw
      (
        load_rest-names kind project
            (record { config = config; apps = []; shared = shared; merged = merged }) ws rest,
        load_optional-names kind no_program project.shared (shared, merged) loaded,
        no_program-names kind,
      )
      refl

-- A project whose file can be read is loaded exactly if each folder and file it needs can be read;
-- and then the merged program declares, for each kind of block, what the files of the shared folder,
-- of the apps in the order of the project file and of the tests declare, in that order. Where there is
-- no folder of apps it declares what the shared folder declares, and the tests are not read.
pub load_workspace-names :
    (project : Project) (input : String)
    → project.config ≡ some input
    → let apps = (parse_config project.dir input).apps in
      (is_ok (load_workspace project) ≡ readable_project project apps)
      × ((ws : Workspace)
          → load_workspace project ≡ ok ws
          → (kind : BlockKind) → names kind ws.merged ≡ declared_project kind project apps)
load_workspace-names project input e =
    (load_workspace-is_ok project input e, λ ws h kind. load_config-names kind project input ws e h)
