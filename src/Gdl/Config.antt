-- ===== src/Gdl/Config.antt =====
-- gdl/workspace.go: the project file `goalruntime.yaml`, read line by line, and the one that a new
-- project gets. Lines are shorter than the buffer of the scanner.
use Prim.Native.String.{◌++◌}
use mathlib.Core.List.{◌++◌ as append}
use ugem.Prelude.{String, Option, none, some, List, [], ◌∷◌, ◌==◌, ◌&&◌, ◌||◌, not, if◌then◌else◌}
use ugem.Prelude.Strings.{
  cut_prefix, has_prefix, trim_space, trim, split_two, contains_text, split, trim_suffix,
}

pub record RuntimeConfig : Type 0 where
  pub mode : String
  pub http : String
  pub grpc : String
  pub log : String

pub record WorkspaceConfig : Type 0 where
  pub name : String
  pub version : String
  pub apps : List String
  pub runtime : RuntimeConfig

abbrev pub default_config : WorkspaceConfig
default_config = record {
  name = "";
  version = "";
  apps = [];
  runtime = record { mode = "normal"; http = ":8080"; grpc = ":50051"; log = "info" };
}

-- `bufio.ScanLines`: no line behind the last line break, and no carriage return at a line's end
unfoldable pub drop_last_empty : List String → List String
drop_last_empty [] = []
drop_last_empty (line ∷ []) = if line == "" then [] else line ∷ []
drop_last_empty (line ∷ next ∷ lines) = line ∷ drop_last_empty (next ∷ lines)

abbrev pub without_return : List String → List String
without_return [] = []
without_return (line ∷ lines) = trim_suffix line "\r" ∷ without_return lines

unfoldable pub scan_lines : String → List String
unfolding split drop_last_empty trim_suffix
scan_lines input = without_return (drop_last_empty (split input "\n"))

-- The section that a line stands in: `top` is the empty text.
pub data Section : Type 0 where
  top in_apps in_runtime : Section

-- key and value of a line with a colon
abbrev key_value : Option (String × String) → Option (String × String)
key_value none = none
key_value (some (left, right)) = some (trim_space left, trim (trim_space right) "\"")

abbrev set_top : WorkspaceConfig → Option (String × String) → WorkspaceConfig
set_top config none = config
set_top config (some (key, val)) =
    if key == "name"
    then record config { name = val }
    else if key == "version"
    then record config { version = val }
    else config

abbrev set_in : RuntimeConfig → Option (String × String) → RuntimeConfig
set_in runtime none = runtime
set_in runtime (some (key, val)) =
    if key == "mode"
    then record runtime { mode = val }
    else if key == "http"
    then record runtime { http = val }
    else if key == "grpc"
    then record runtime { grpc = val }
    else if key == "log"
    then record runtime { log = val }
    else runtime

abbrev add_app : WorkspaceConfig → Option String → WorkspaceConfig
add_app config none = config
add_app config (some rest) = record config { apps = append config.apps (trim_space rest ∷ []) }

unfoldable pub read_item : Section → WorkspaceConfig → String → WorkspaceConfig
unfolding cut_prefix trim_space trim split_two
read_item top config trimmed = config
read_item in_apps config trimmed = add_app config (cut_prefix "- " trimmed)
read_item in_runtime config trimmed = record config {
  runtime = set_in config.runtime (key_value (split_two trimmed ":"));
}

-- the switch over what a line is, on the line and the line without its outer spaces
unfoldable pub read_config_line :
    Section × WorkspaceConfig → String → String → Section × WorkspaceConfig
unfolding has_prefix contains_text split_two trim_space trim read_item
read_config_line (section, config) line trimmed =
    if trimmed == "" || has_prefix trimmed "#"
    then (section, config)
    else if has_prefix trimmed "apps:"
    then (in_apps, config)
    else if has_prefix trimmed "runtime:"
    then (in_runtime, config)
    else if not (has_prefix line " ") && not (has_prefix line "\t") && contains_text trimmed ":"
    then (top, set_top config (key_value (split_two trimmed ":")))
    else (section, read_item section config trimmed)

unfoldable pub read_config_lines : Section × WorkspaceConfig → List String → WorkspaceConfig
unfolding read_config_line trim_space
read_config_lines (section, config) [] = config
read_config_lines (section, config) (line ∷ lines) =
    read_config_lines (read_config_line (section, config) line (trim_space line)) lines

-- `parseConfig` on the contents of a file in a folder of this name
unfoldable pub parse_config : String → String → WorkspaceConfig
unfolding scan_lines read_config_lines
parse_config folder input =
    let config = read_config_lines (top, default_config) (scan_lines input) in
    if config.name == "" then record config { name = folder } else config

-- the project file that `InitProject` writes
abbrev pub behind_name : String
behind_name =
    "version: \"1.0\"\napps:\n  - main\nruntime:\n  mode: normal\n  http: \":8080\"\n  grpc: \":50051\"\n  log: info\n"

unfoldable pub init_config : String → String
init_config name = "name: " ++ (name ++ ("\n" ++ behind_name))

-- What that file says, for the name.
abbrev pub new_project : String → WorkspaceConfig
new_project name = record default_config { name = name; version = "1.0"; apps = "main" ∷ [] }
