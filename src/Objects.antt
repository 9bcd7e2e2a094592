-- ===== src/Objects.antt =====
-- storage/store.go and gdl/uql.go: objects with their index files, and the queries that read them. A
-- file is known by its path. What `filepath` makes of texts, cleaning and patterns included, is the
-- argument `Paths`, and whether folders and files can be made is decided outside.
pub mod Files
pub mod Lookup
mod Samples
use Prim.Native.String.{◌++◌}
use ugem.Prelude.{
  ℕ, String, Bool, true, false, Option, none, some, List, [], ◌∷◌, ◌==◌, ◌&&◌, ◌||◌, if◌then◌else◌,
  GoMap, get, put, delete, map, length, leb, ltb, nat_eq,
}
use ugem.Prelude.Int.{ℤ, pos, negsuc}
use ugem.Prelude.Strings.{split_two, trim_space, trim, trim_suffix, atoi}
use ugem.Types.{Value, text, Error, other, Result, ok, err, Event}
use ugem.Gdl.Compiler.{sprint}
use ugem.Wal.{Wal, open_wal}
use ugem.SnapshotStore.{SnapshotStore, Snapshot, open_store}
use ugem.Prelude.Numbered.{Numbered}

-- `filepath.Join`, `filepath.Base`, and `filepath.Glob` on the files that are there.
pub record Paths : Type 0 where
  pub join : List String → String
  pub base : String → String
  pub glob : GoMap String → String → Result (List String)

pub record PersistentStore : Type 0 where
  pub wal : Wal
  pub snapshots : SnapshotStore
  pub closed : Bool
  pub data_dir : String
  -- the files below `objects`, by path, where they decode
  pub objects : GoMap (GoMap Value)
  -- the files below `indexes`, by path, with the key that each holds
  pub indexes : GoMap String

-- What is found below the directory when the store is opened.
pub record DataDir : Type 0 where
  pub entries : List Event
  pub files : Numbered Snapshot
  pub path : String
  pub objects : GoMap (GoMap Value)
  pub indexes : GoMap String

unfoldable pub new_persistent_store : DataDir → PersistentStore
unfolding open_wal open_store
new_persistent_store dir = record {
  wal = open_wal dir.entries;
  snapshots = open_store dir.files;
  closed = Bool.false;
  data_dir = dir.path;
  objects = dir.objects;
  indexes = dir.indexes;
}

-- What the operating system answers to one object, and for each field of it.
pub record Access : Type 0 where
  pub creates : Bool
  pub encodes : Bool
  pub indexes : String → Bool

abbrev pub object_key : String → String → String
object_key type_name id = "/type/" ++ (type_name ++ ("/" ++ id))

unfoldable pub object_path : Paths → String → String → String
object_path paths data_dir key = paths.join (data_dir ∷ "objects" ∷ (key ++ ".bin") ∷ [])

unfoldable pub index_path : Paths → String → String → String → Value → String → String
unfolding sprint
index_path paths data_dir type_name field value id =
    let index_key =
      "/index/" ++ (type_name ++ ("/" ++ (field ++ ("/" ++ (sprint value ++ ("/" ++ id)))))) in
    paths.join (data_dir ∷ "indexes" ∷ (index_key ++ ".ptr") ∷ [])

-- The loop over the fields; one whose file cannot be written is left out.
unfoldable pub write_indexes :
    Paths → (String → Bool) → String → String → String → GoMap String → GoMap Value → GoMap String
write_indexes paths indexes data_dir type_name id files [] = files
write_indexes paths indexes data_dir type_name id files ((field, value) ∷ rest) =
    let path = index_path paths data_dir type_name field value id in
    write_indexes paths indexes data_dir type_name id
      (if indexes field then put files path (object_key type_name id) else files) rest

unfoldable pub set_object :
    Paths
    → Access
    → PersistentStore
    → String
    → String
    → GoMap Value
    → PersistentStore × Option Error
set_object paths access ps type_name id contents =
    let path = object_path paths ps.data_dir (object_key type_name id) in
    if access.creates
    then if access.encodes
      then (
        record ps {
          objects = put ps.objects path contents;
          indexes = write_indexes paths access.indexes ps.data_dir type_name id ps.indexes contents;
        },
        none,
      )
      else (record ps { objects = delete ps.objects path }, some (other "cannot encode the object"))
    else (ps, some (other "cannot create the file"))

unfoldable pub search_pattern : Paths → String → String → String → Value → String
unfolding sprint
search_pattern paths data_dir type_name field value =
    paths.join (data_dir ∷ "indexes" ∷ "index" ∷ type_name ∷ field ∷ sprint value ∷ "*.ptr" ∷ [])

-- the id that a file stands for
unfoldable pub id_of : Paths → String → String
unfolding trim_suffix
id_of paths file = paths.base (trim_suffix file ".ptr")

abbrev ids_of : Paths → Result (List String) → Result (List String)
ids_of paths (err e) = err e
ids_of paths (ok files) = ok (map (id_of paths) files)

unfoldable pub search : Paths → PersistentStore → String → String → Value → Result (List String)
search paths ps type_name field value =
    ids_of paths (paths.glob ps.indexes (search_pattern paths ps.data_dir type_name field value))

unfoldable pub close : PersistentStore → PersistentStore
close ps = if ps.closed then ps else record ps { closed = true }

pub record UqlCondition : Type 0 where
  pub field : String
  pub operator : String
  pub value : Value

pub record UqlQuery : Type 0 where
  pub type_name : String
  pub at_time : Option ℕ
  pub conditions : List UqlCondition
  pub limit : ℤ

-- the groups that the regular expression of a query finds, empty where a group is absent
pub record Matches : Type 0 where
  pub type_name : String
  pub at_time : String
  pub conditions : List String
  pub limit : String

-- The regular expression of a condition finds a field, an operator and a value, or nothing.
abbrev pub ConditionGroups : Type 0
ConditionGroups = String → Option (String × String × String)

abbrev add_condition : Option (String × String × String) → List UqlCondition → List UqlCondition
add_condition none rest = rest
add_condition (some (field, operator, value)) rest =
    record { field = field; operator = operator; value = text (trim value "\"'") } ∷ rest

unfoldable pub parse_conditions : ConditionGroups → List String → List UqlCondition
unfolding trim_space trim
parse_conditions groups [] = []
parse_conditions groups (c ∷ cs) =
    add_condition (groups (trim_space c)) (parse_conditions groups cs)

abbrev query_at : ConditionGroups → Matches → Option ℕ → UqlQuery
query_at groups m at_time = record {
  type_name = m.type_name;
  at_time = at_time;
  conditions = parse_conditions groups m.conditions;
  limit = if m.limit == "" then pos 0 else atoi m.limit;
}

abbrev timed : ConditionGroups → Matches → Option ℕ → Result UqlQuery
timed groups m none = err (other "invalid timestamp")
timed groups m (some t) = ok (query_at groups m (some t))

-- `ParseUQL`, where `time_of` is `time.Parse`, and the conditions are split at " and ".
unfoldable pub parse_uql : (String → Option ℕ) → ConditionGroups → Option Matches → Result UqlQuery
unfolding parse_conditions atoi
parse_uql time_of groups none = err (other "invalid UQL syntax")
parse_uql time_of groups (some m) =
    if m.at_time == "" then ok (query_at groups m none) else timed groups m (time_of m.at_time)

-- the ids that the first condition finds, where it is an equation
unfoldable pub indexed_ids :
    Paths → PersistentStore → String → List UqlCondition → Result (List String)
indexed_ids paths ps type_name [] = ok []
indexed_ids paths ps type_name (c ∷ cs) =
    if c.operator == "==" then search paths ps type_name c.field c.value else ok []

-- `query.Limit > 0 && len(results) >= query.Limit`
abbrev pub is_full : ℤ → ℕ → Bool
is_full (pos n) found = ltb 0 n && leb n found
is_full (negsuc n) found = Bool.false

-- the loop over the ids, with how many results there are
unfoldable pub take_results : ℤ → ℕ → List String → List String
take_results limit found [] = []
take_results limit found (id ∷ ids) =
    let rest = take_results limit (Prim.Native.Nat.◌+◌ found 1) ids in
    if is_full limit found then [] else id ∷ rest

abbrev results : UqlQuery → Result (List String) → Result (List String)
results query (err e) = err e
results query (ok ids) =
    if nat_eq (length ids) 0 && nat_eq (length query.conditions) 0
    then err (other "complex queries without index hits not yet supported")
    else ok (take_results query.limit 0 ids)

unfoldable pub execute_query : Paths → PersistentStore → UqlQuery → Result (List String)
execute_query paths ps query = results query (indexed_ids paths ps query.type_name query.conditions)

abbrev run_query : Paths → PersistentStore → Result UqlQuery → Result (List String)
run_query paths ps (err e) = err e
run_query paths ps (ok query) = execute_query paths ps query

-- `Execute`: each result is a map of the one key "id", and stands for that id.
unfoldable pub execute :
    Paths
    → (String → Option ℕ)
    → ConditionGroups
    → PersistentStore
    → Option Matches
    → Result (List String)
unfolding parse_uql
execute paths time_of groups ps matches = run_query paths ps (parse_uql time_of groups matches)
