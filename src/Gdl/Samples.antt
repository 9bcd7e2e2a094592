-- ===== src/Gdl/Samples.antt =====
-- Texts of the goal definition language and a project, and the theorems about them.
use Prim.Native.String.{◌++◌}
use ugem.Prelude.{◌≡◌, ◌↔◌, ◌≢◌, refl, String, true, false, none, some, [], ◌∷◌, get, contains, All}
use ugem.Prelude.Int.{pos}
use ugem.Prelude.Strings.{split, holds_char, trim, trim_space}
use ugem.Types.{text, ok}
use ugem.SampleData.{no_closures, amount}
use ugem.Wal.{working}
use ugem.Scheduler.{normal}
use ugem.GoalEngine.{new_goal_engine, evaluate}
use ugem.Planner.{new_planner}
use ugem.Kernel.{Runtime, Outside, new_runtime}
use ugem.Gdl.{GdlProgram, no_program, GoalDef, goal_named}
use ugem.Gdl.Readers.{parse_condition, bare_path}
use ugem.Gdl.Parser.{is_skipped, header, parse_gdl, BlockKind, goal_block, type_block}
use ugem.Gdl.Compiler.{Floats, compile_goal, compile_gdl}
use ugem.Gdl.Blocks.{names, declared, names-parse_gdl}
use ugem.Gdl.Contracts.{IsBare, parse_gdl-IsBare}
use ugem.Gdl.Expressions.{parse_condition_reads}
use ugem.Gdl.Conditions.{IsMet, evaluate-compile_goal}
use ugem.Gdl.Events.{IsIdle, handle_event-compile_gdl}
use ugem.Gdl.Config.{parse_config, init_config, new_project}
use ugem.Gdl.Scaffold.{parse_config-init_config}
use ugem.Gdl.Loading.{is_ok, readable_project}
use ugem.Gdl.Workspace.{
  is_skipped_entry, merge_two, Project, Workspace, load_workspace, apply_workspace,
}
use ugem.Gdl.Projects.{declared_apps, declared_entries, declared_project, load_workspace-names}
use ugem.Gdl.Submitting.{all_fresh}
use ugem.Gdl.Applying.{apply_workspace-load_workspace}

abbrev shop : String
shop =
    "# a shop\ntype Order\n id: uuid\nevent paid\n\ngoal ship\n priority: 8\n condition: state.stock >= 1\n"

reads_goal :
    (parse_gdl shop).goals
    ≡ record {
      name = "ship";
      priority = pos 8;
      condition = record { path = "stock"; op = ">="; value = text "1" } ∷ [];
      trigger = none;
      spawns = [];
      actions = [];
    }
      ∷ []
unfolding parse_gdl
reads_goal = refl

-- The lines of the goal are read as fields of the type as well.
reads_fields :
    (parse_gdl shop).types
    ≡ record {
      name = "Order";
      kind = "string";
      fields =
          record { name = "id"; type = "uuid"; optional = false }
          ∷ record { name = "priority"; type = "8"; optional = false }
          ∷ record { name = "condition"; type = "state.stock >= 1"; optional = false }
          ∷ [];
      values = [];
    }
      ∷ []
unfolding parse_gdl
reads_fields = refl

-- The type of a scaffolded project keeps the rest of its line as its name.
scaffold_type :
    names type_block (parse_gdl "type Task struct {\n    ID: string\n}\n") ≡ "Task struct {" ∷ []
unfolding parse_gdl
scaffold_type = refl

names-parse_gdl_example : names goal_block (parse_gdl shop) ≡ "ship" ∷ []
unfolding declared split is_skipped trim_space header
names-parse_gdl_example = names-parse_gdl goal_block shop

abbrev service : String
service = "contract TaskService {\n  event task_created\n  action log\n}\n"

parse_gdl-IsBare_example : All IsBare (parse_gdl service).contracts
parse_gdl-IsBare_example = parse_gdl-IsBare service

parse_condition_reads_example :
    parse_condition ("state.stock" ++ " " ++ ">=" ++ " " ++ "1")
    ≡ some (record { path = "stock"; op = ">="; value = text "1" })
unfolding contains bare_path holds_char trim_space
parse_condition_reads_example =
    parse_condition_reads "state.stock" ">=" "1"
      (refl, (refl, (refl, (refl, (refl, (refl, (refl, (refl, (refl, (refl, (refl, tt)))))))))))
      (refl, tt) refl

-- No text of the samples is a number.
abbrev no_floats : Floats
no_floats s t = none

abbrev in_stock : GoalDef
in_stock = record (goal_named (pos 5) "ship") {
  condition = record { path = "stock"; op = "=="; value = text "1" } ∷ [];
}

evaluate-compile_goal_example :
    ((evaluate new_goal_engine (compile_goal no_floats 0 in_stock) (("stock", amount 1) ∷ [])).1
      ≡ true)
    ↔ ((in_stock.condition ≢ [])
        × All (IsMet no_floats (("stock", amount 1) ∷ [])) in_stock.condition)
evaluate-compile_goal_example =
    evaluate-compile_goal no_floats new_goal_engine 0 in_stock (("stock", amount 1) ∷ [])

handle_event-compile_gdl_example : All IsIdle (compile_gdl no_floats shop).events
handle_event-compile_gdl_example = handle_event-compile_gdl no_floats shop

parse_config-init_config_example :
    parse_config "shop" (init_config "web shop") ≡ new_project "web shop"
unfolding holds_char trim trim_space
parse_config-init_config_example =
    parse_config-init_config "shop" "web shop"
      (refl, (refl, (refl, (refl, (refl, (refl, (refl, (refl, tt))))))))

abbrev shop_project : Project
shop_project = record {
  dir = "shop";
  config = some (init_config "shop");
  shared = none;
  has_apps = true;
  app_folder = λ name.
      some (some (record { name = "goals.gdl"; is_dir = false; contents = some shop } ∷ []));
  tests = none;
}

load_workspace-names_example :
    let apps = (parse_config shop_project.dir (init_config "shop")).apps in
    (is_ok (load_workspace shop_project) ≡ readable_project shop_project apps)
    × ((ws : Workspace)
        → load_workspace shop_project ≡ ok ws
        → (kind : BlockKind) → names kind ws.merged ≡ declared_project kind shop_project apps)
load_workspace-names_example = load_workspace-names shop_project (init_config "shop") refl

abbrev main_app : GdlProgram
main_app = merge_two no_program (parse_gdl shop)

abbrev shop_workspace : Workspace
shop_workspace = record {
  config = new_project "shop";
  apps = record { name = "main"; program = main_app } ∷ [];
  shared = no_program;
  merged = merge_two no_program main_app;
}

shop_project_loads : load_workspace shop_project ≡ ok shop_workspace
unfolding load_workspace parse_config init_config
shop_project_loads = refl

abbrev calm : Outside
calm = record {
  now = 3;
  trace_id = "trace";
  disk = working;
  closures = no_closures;
  goal_order = [];
  subscriber_order = [];
}

abbrev up : Runtime
up = record (new_runtime normal) { running = true }

apply_workspace-load_workspace_example :
    let (p', r', e) = apply_workspace no_floats (λ n. calm) 0 [] new_planner up shop_workspace in
    (e ≡ none) × (true ≡ true → r'.goal_engine.active_goals ≡ "ship" ∷ [])
unfolding get all_fresh declared_apps parse_config init_config declared_entries is_skipped_entry
    declared is_skipped header
apply_workspace-load_workspace_example =
    apply_workspace-load_workspace no_floats (λ n. calm) 0 [] new_planner up shop_project
      (init_config "shop") shop_workspace refl shop_project_loads refl
